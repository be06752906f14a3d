-- ===== src/Examples/Segments.antt =====
-- The theorem on segments, at two vectors.
use rekha.Prelude.{ℕ, ◌≡◌, refl, some, List, [], ◌∷◌, get_elem?, arith}
use rekha.Engine.Base.{ok}
use rekha.Engine.Segment.{
  FloatBytes, Segment, SegmentWriter, writer, push_all, write_file, open_segment, get_vector,
}
use rekha.Engine.Segment.Written.{write_file-get_vector}
use rekha.Examples.Indexes.{hash, hash-lt}

-- A number stands for the float, and for the first of its bytes.
instance abbrev float_bytes : FloatBytes ℕ
float_bytes = record {
  to_bytes = λ v. v ∷ 0 ∷ 0 ∷ 0 ∷ [];
  of_bytes = λ bytes. elim bytes [ [] ↦ 0 | ◌∷◌ b bs ↦ b ];
  hash = hash;
  length-to_bytes = λ v. refl;
  of_bytes-to_bytes = λ v. refl;
  hash-lt = hash-lt;
}

abbrev vectors : List (List ℕ)
vectors = (1 ∷ 2 ∷ []) ∷ (3 ∷ 4 ∷ []) ∷ []

write_file-get_vector_example :
    (w : SegmentWriter ℕ) × (s : Segment) × (push_all (writer 2) vectors ≡ some w)
    × (open_segment float_bytes (write_file w) ≡ ok s)
    × ((i : ℕ) → get_vector {V = ℕ} s i ≡ get_elem? vectors i)
write_file-get_vector_example =
    write_file-get_vector 2 vectors (omega arith) (omega arith) (refl, (refl, tt))
