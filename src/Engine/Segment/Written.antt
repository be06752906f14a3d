-- ===== src/Engine/Segment/Written.antt =====
-- What is read of a segment that was written: crates/rekha-engine/src/segment.rs.
use rekha.Prelude.{
  ℕ, zero, suc, ◌+◌, ◌*◌, ◌^◌, ◌%◌, ◌≤◌, ◌<◌, ◌≡◌, refl, sym, ap, ◌∙◌, true, false, none, some,
  List, [], ◌∷◌, ◌++◌, length, take, drop, get_elem?, leb, ltb, ◌==◌, length-append,
  take-length_append, drop-length_append, drop-drop, take-length, arith, Bool-cases, inl, inr,
  get_elem?-lt,
}
use mathlib.Core.List.{append_assoc, append-nil}
use rekha.Wal.Bytes.{to_le_bytes, le_u32, from-to_le_bytes}
use rekha.Engine.Base.{ok}
use rekha.Engine.Segment.{
  FloatBytes, SegmentHeader, header_size, encode, decode, Segment, cast_to_bytes, cast_to_floats,
  verify, open_segment, get_vector, SegmentWriter, writer, push, push_all, write_file,
}

-- all vectors have the dimension
abbrev pub AreSized : {V : Type 0} → ℕ → List (List V) → Type 0
AreSized dim [] = Unit
AreSized dim (v ∷ vs) = (length v ≡ dim) × AreSized dim vs

abbrev pub concat : {V : Type 0} → List (List V) → List V
concat [] = []
concat (v ∷ vs) = v ++ concat vs

decode-encode :
    (h : SegmentHeader)
    → h.dimension < 256 ^ 4
    → h.count < 256 ^ 4
    → h.checksum < 256 ^ 4
    → decode (encode h) ≡ ok h
unfolding decode encode le_u32 to_le_bytes
decode-encode h d c s =
    rw
      (
        from-to_le_bytes 4 h.dimension d,
        from-to_le_bytes 4 h.count c,
        from-to_le_bytes 4 h.checksum s,
      )
      refl

take-encode : (h : SegmentHeader) (rest : List ℕ) → take header_size (encode h ++ rest) ≡ encode h
unfolding encode to_le_bytes
take-encode h rest = refl

drop-encode : (h : SegmentHeader) (rest : List ℕ) → drop header_size (encode h ++ rest) ≡ rest
unfolding encode to_le_bytes
drop-encode h rest = refl

length-encode : (h : SegmentHeader) → length (encode h) ≡ 32
unfolding encode to_le_bytes
length-encode h = refl

module _ {V : Type 0} ⦃fb : FloatBytes V⦄ where
  length-cast_to_bytes : (vs : List V) → length (cast_to_bytes vs) ≡ length vs * 4
  unfolding cast_to_bytes
  length-cast_to_bytes [] = omega arith
  length-cast_to_bytes (v ∷ vs) = omega (
    arith,
    length-cast_to_bytes vs,
    length-append (fb.to_bytes v) (cast_to_bytes vs),
    fb.length-to_bytes v,
  )

  cast_to_bytes-append :
      (us vs : List V) → cast_to_bytes (us ++ vs) ≡ cast_to_bytes us ++ cast_to_bytes vs
  unfolding cast_to_bytes
  cast_to_bytes-append [] vs = refl
  cast_to_bytes-append (u ∷ us) vs =
      ap (λ l. fb.to_bytes u ++ l) (cast_to_bytes-append us vs)
      ∙ sym (append_assoc (fb.to_bytes u) (cast_to_bytes us) (cast_to_bytes vs))

  cast_to_floats-cast_to_bytes : (vs : List V) → cast_to_floats (length vs) (cast_to_bytes vs) ≡ vs
  unfolding cast_to_floats cast_to_bytes
  cast_to_floats-cast_to_bytes [] = refl
  cast_to_floats-cast_to_bytes (v ∷ vs) =
      let head : take 4 (fb.to_bytes v ++ cast_to_bytes vs) ≡ fb.to_bytes v =
        ap (λ n. take n (fb.to_bytes v ++ cast_to_bytes vs)) (sym (fb.length-to_bytes v))
        ∙ take-length_append (fb.to_bytes v) (cast_to_bytes vs) in
      let rest : drop 4 (fb.to_bytes v ++ cast_to_bytes vs) ≡ cast_to_bytes vs =
        ap (λ n. drop n (fb.to_bytes v ++ cast_to_bytes vs)) (sym (fb.length-to_bytes v))
        ∙ drop-length_append (fb.to_bytes v) (cast_to_bytes vs) in
      rw (head, rest, fb.of_bytes-to_bytes v, cast_to_floats-cast_to_bytes vs) refl

  block-concat :
      (dim i : ℕ) (vs : List (List V)) (v : List V)
      → AreSized dim vs
      → get_elem? vs i ≡ some v
      → take (dim * 4) (drop (i * dim * 4) (cast_to_bytes (concat vs))) ≡ cast_to_bytes v
  block-concat dim i [] v sized e = ground arith
  block-concat dim zero (u ∷ us) v sized e =
      let same : u ≡ v = ground (arith, e) in
      let size : dim * 4 ≡ length (cast_to_bytes u) =
        omega (arith, sized.0, length-cast_to_bytes u) in
      let front : zero * dim * 4 ≡ 0 = omega arith in
      rw (front, cast_to_bytes-append u (concat us), size)
        (take-length_append (cast_to_bytes u) (cast_to_bytes (concat us)) ∙ ap cast_to_bytes same)
  block-concat dim (suc i) (u ∷ us) v sized e =
      let size : dim * 4 ≡ length (cast_to_bytes u) =
        omega (arith, sized.0, length-cast_to_bytes u) in
      let split : suc i * dim * 4 ≡ dim * 4 + i * dim * 4 = grind arith in
      let rest : drop (suc i * dim * 4) (cast_to_bytes (u ++ concat us))
          ≡ drop (i * dim * 4) (cast_to_bytes (concat us)) =
        ap (λ n. drop n (cast_to_bytes (u ++ concat us))) split
        ∙ (drop-drop (dim * 4) (i * dim * 4) (cast_to_bytes (u ++ concat us))
            ∙ ap (λ l. drop (i * dim * 4) l)
                (ap (λ l. drop (dim * 4) l) (cast_to_bytes-append u (concat us))
                  ∙ (ap (λ n. drop n (cast_to_bytes u ++ cast_to_bytes (concat us))) size
                      ∙ drop-length_append (cast_to_bytes u) (cast_to_bytes (concat us))))) in
      ap (λ l. take (dim * 4) l) rest ∙ block-concat dim i us v sized.1 e

  length-concat :
      (dim : ℕ) (vs : List (List V)) → AreSized dim vs → length (concat vs) ≡ length vs * dim
  length-concat dim [] sized = omega arith
  length-concat dim (v ∷ vs) sized =
      grind (arith, sized.0, length-append v (concat vs), length-concat dim vs sized.1)

module _ {V : Type 0} where
  get_elem?-sized :
      (dim i : ℕ) (vs : List (List V)) (v : List V)
      → AreSized dim vs
      → get_elem? vs i ≡ some v
      → length v ≡ dim
  get_elem?-sized dim i [] v sized e = ground arith
  get_elem?-sized dim zero (u ∷ us) v sized e = ground (arith, sized.0, e)
  get_elem?-sized dim (suc i) (u ∷ us) v sized e = get_elem?-sized dim i us v sized.1 e

  get_elem?-beyond : (vs : List (List V)) (i : ℕ) → length vs ≤ i → get_elem? vs i ≡ none
  get_elem?-beyond [] zero h = refl
  get_elem?-beyond [] (suc i) h = refl
  get_elem?-beyond (v ∷ vs) zero h = absurd (omega (arith, h))
  get_elem?-beyond (v ∷ vs) (suc i) h = get_elem?-beyond vs i (omega (arith, h))

  push_all-concat :
      (w : SegmentWriter V) (vs : List (List V))
      → AreSized w.dimension vs
      → w.count + length vs < 2 ^ 32
      → push_all w vs
        ≡ some (record w { vectors = w.vectors ++ concat vs; count = w.count + length vs })
  unfolding push_all push
  push_all-concat w [] sized room = ground (arith, append-nil w.vectors)
  push_all-concat w (v ∷ vs) sized room =
      let same : (length v == w.dimension) ≡ true = ground (arith, sized.0) in
      let next : (w.count + 1) % 2 ^ 32 ≡ w.count + 1 = omega (arith, room) in
      let w' : SegmentWriter V = record w { vectors = w.vectors ++ v; count = w.count + 1 } in
      let pushed : push w v ≡ some w' = rw (same, push, next) refl in
      let counts : w.count + 1 + length vs ≡ w.count + length (v ∷ vs) = omega arith in
      rw (pushed, push_all)
        (push_all-concat w' vs sized.1 (omega (arith, room))
          ∙ (rw (append_assoc w.vectors v (concat vs), counts) refl))

verify-ok :
    (hash : List ℕ → ℕ) (file : List ℕ) (header : SegmentHeader)
    → ltb (length file) (header_size + header.count * header.dimension * 4) ≡ false
    → (hash (take (header.count * header.dimension * 4) (drop header_size file)) == header.checksum)
      ≡ true
    → verify hash file header ≡ ok (record { file = file; header = header })
unfolding verify
verify-ok hash file header long same = rw (long, same) refl

module _ {V : Type 0} (fb : FloatBytes V) where
  open_segment-verify :
      (file : List ℕ) (header : SegmentHeader)
      → ltb (length file) header_size ≡ false
      → decode (take header_size file) ≡ ok header
      → open_segment fb file ≡ verify fb.hash file header
  unfolding open_segment
  open_segment-verify file header long read = rw (long, read, open_segment) refl

module _ {V : Type 0} ⦃fb : FloatBytes V⦄ where
  open_segment-write_file :
      (w : SegmentWriter V)
      → w.dimension < 2 ^ 32
      → w.count < 2 ^ 32
      → length w.vectors ≡ w.count * w.dimension
      → open_segment fb (write_file w)
        ≡ ok (record {
          file = write_file w;
          header = record {
            dimension = w.dimension;
            count = w.count;
            checksum = fb.hash (cast_to_bytes w.vectors);
          };
        })
  unfolding write_file
  open_segment-write_file w small few size =
      let header : SegmentHeader = record {
        dimension = w.dimension;
        count = w.count;
        checksum = fb.hash (cast_to_bytes w.vectors);
      } in
      let block = cast_to_bytes w.vectors in
      let bytes : length block ≡ w.count * w.dimension * 4 =
        omega (arith, length-cast_to_bytes w.vectors, size) in
      let total : length (encode header ++ block) ≡ 32 + w.count * w.dimension * 4 =
        omega (arith, length-append (encode header) block, length-encode header, bytes) in
      let long : ltb (length (encode header ++ block)) header_size ≡ false =
        ground (arith, total) in
      let whole : ltb (length (encode header ++ block)) (header_size + w.count * w.dimension * 4)
          ≡ false =
        ground (arith, total) in
      let read : decode (take header_size (encode header ++ block)) ≡ ok header =
        ap decode (take-encode header block)
        ∙ decode-encode header (omega (arith, small)) (omega (arith, few)) (fb.hash-lt block) in
      let data_block : take (w.count * w.dimension * 4) (drop header_size (encode header ++ block))
          ≡ block =
        ap (take (w.count * w.dimension * 4)) (drop-encode header block)
        ∙ (ap (λ n. take n block) (sym bytes) ∙ take-length block) in
      let sum : (fb.hash
              (take (w.count * w.dimension * 4) (drop header_size (encode header ++ block)))
            == fb.hash block)
          ≡ true =
        ground (arith, ap fb.hash data_block) in
      open_segment-verify fb (encode header ++ block) header long read
      ∙ verify-ok fb.hash (encode header ++ block) header whole sum

  get_vector-get_elem? :
      (h : SegmentHeader) (vs : List (List V)) (i : ℕ)
      → AreSized h.dimension vs
      → h.count ≡ length vs
      → get_vector (record { file = encode h ++ cast_to_bytes (concat vs); header = h }) i
        ≡ get_elem? vs i
  unfolding get_vector
  get_vector-get_elem? h vs i sized count = elim (Bool-cases (leb h.count i)) [
    | inl beyond ↦ rw beyond (sym (get_elem?-beyond vs i (ground (arith, beyond, count))))
    | inr within ↦
        let (v, found) = get_elem?-lt vs i (ground (arith, within, count)) in
        let file = encode h ++ cast_to_bytes (concat vs) in
        let at : drop (header_size + i * h.dimension * 4) file
            ≡ drop (i * h.dimension * 4) (cast_to_bytes (concat vs)) =
          drop-drop header_size (i * h.dimension * 4) file
          ∙ ap (drop (i * h.dimension * 4)) (drop-encode h (cast_to_bytes (concat vs))) in
        let bytes : take (h.dimension * 4) (drop (header_size + i * h.dimension * 4) file)
            ≡ cast_to_bytes v =
          ap (take (h.dimension * 4)) at ∙ block-concat h.dimension i vs v sized found in
        let floats : cast_to_floats h.dimension (cast_to_bytes v) ≡ v =
          ap (λ n. cast_to_floats n (cast_to_bytes v))
            (sym (get_elem?-sized h.dimension i vs v sized found))
          ∙ cast_to_floats-cast_to_bytes v in
        rw within (ap some (ap (cast_to_floats h.dimension) bytes ∙ floats) ∙ sym found)
  ]

  -- Pushing vectors of the dimension of a segment writer does not panic, the file that it writes is
  -- opened, and the vector at each index is the one that was pushed there, with none past the last.
  -- The dimension and the number of vectors must fit 32 bits.
  pub write_file-get_vector :
      (dim : ℕ) (vs : List (List V))
      → dim < 2 ^ 32
      → length vs < 2 ^ 32
      → AreSized dim vs
      → (w : SegmentWriter V) × (s : Segment) × (push_all (writer dim) vs ≡ some w)
        × (open_segment fb (write_file w) ≡ ok s)
        × ((i : ℕ) → get_vector s i ≡ get_elem? vs i)
  unfolding writer write_file
  write_file-get_vector dim vs small few sized =
      let kept : dim % 2 ^ 32 ≡ dim = omega (arith, small) in
      let w : SegmentWriter V = record {
        dimension = dim;
        vectors = concat vs;
        count = length vs;
      } in
      let header : SegmentHeader = record {
        dimension = dim;
        count = length vs;
        checksum = fb.hash (cast_to_bytes (concat vs));
      } in
      (
        w,
        record { file = write_file w; header = header },
        rw kept (
            push_all-concat (record { dimension = dim; vectors = []; count = 0 }) vs sized
              (omega (arith, few))
            ∙ ap (λ n. some (record w { count = n })) (omega arith)),
        open_segment-write_file w small few (length-concat dim vs sized),
        λ i. get_vector-get_elem? header vs i sized refl,
      )
