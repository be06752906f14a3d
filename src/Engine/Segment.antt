-- ===== src/Engine/Segment.antt =====
-- crates/rekha-engine/src/segment.rs: the files of vectors, on their bytes. The mapping of a file to
-- memory, and the temp file of a write, are left out.
pub mod Written
use rekha.Prelude.{
  ℕ, zero, suc, ◌+◌, ◌*◌, ◌%◌, ◌^◌, ◌<◌, ◌≡◌, Bool, true, false, Option, none, some, List, [], ◌∷◌,
  ◌++◌, length, take, drop, ltb, leb, ◌==◌, if◌then◌else◌,
}
use rekha.Wal.Bytes.{to_le_bytes, le_u32}
use rekha.Wal.Format.{bytes_eq}
use rekha.Engine.Base.{EngineResult, ok, err, io, serialization}

-- An `f32` as its four bytes, as bytemuck casts it, and `crc32fast::hash`.
pub record FloatBytes (V : Type 0) : Type 0 where
  pub to_bytes : V → List ℕ
  pub of_bytes : List ℕ → V
  pub hash : List ℕ → ℕ
  pub length-to_bytes : (v : V) → length (to_bytes v) ≡ 4
  pub of_bytes-to_bytes : (v : V) → of_bytes (to_bytes v) ≡ v
  pub hash-lt : (bytes : List ℕ) → hash bytes < 256 ^ 4

-- the byte string b"RKSG"
abbrev pub segment_magic : List ℕ
segment_magic = b'R' ∷ b'K' ∷ b'S' ∷ b'G' ∷ []

abbrev pub header_size : ℕ
header_size = 32

-- SegmentHeader
pub record SegmentHeader : Type 0 where
  pub dimension : ℕ
  pub count : ℕ
  pub checksum : ℕ

-- the bytes that are not written
abbrev zeros : List ℕ
zeros = 0 ∷ 0 ∷ 0 ∷ 0 ∷ 0 ∷ 0 ∷ 0 ∷ 0 ∷ 0 ∷ 0 ∷ 0 ∷ 0 ∷ []

-- SegmentHeader::encode
unfoldable pub encode : SegmentHeader → List ℕ
unfolding to_le_bytes
encode header =
    segment_magic
    ++ (to_le_bytes 4 1
        ++ (to_le_bytes 4 header.dimension
            ++ (to_le_bytes 4 header.count ++ (to_le_bytes 4 header.checksum ++ zeros))))

-- SegmentHeader::decode
unfoldable pub decode : List ℕ → EngineResult SegmentHeader
unfolding le_u32
decode buf =
    if bytes_eq (take 4 buf) segment_magic
    then (if le_u32 (take 4 (drop 4 buf)) == 1
        then ok (record {
          dimension = le_u32 (take 4 (drop 8 buf));
          count = le_u32 (take 4 (drop 12 buf));
          checksum = le_u32 (take 4 (drop 16 buf));
        })
        else err serialization)
    else err serialization

-- Segment: its file and its header
pub record Segment : Type 0 where
  pub file : List ℕ
  pub header : SegmentHeader

module _ {V : Type 0} ⦃fb : FloatBytes V⦄ where
  -- bytemuck::cast_slice of vectors to bytes
  unfoldable pub cast_to_bytes : List V → List ℕ
  cast_to_bytes [] = []
  cast_to_bytes (v ∷ vs) = fb.to_bytes v ++ cast_to_bytes vs

  -- bytemuck::cast_slice of bytes to `n` values
  unfoldable pub cast_to_floats : ℕ → List ℕ → List V
  cast_to_floats zero bytes = []
  cast_to_floats (suc n) bytes = fb.of_bytes (take 4 bytes) ∷ cast_to_floats n (drop 4 bytes)

-- the length and the checksum of the vectors; the length is a `usize` in the source, which wraps
-- only where a header asks for 2 ^ 64 bytes or more
unfoldable pub verify : (List ℕ → ℕ) → List ℕ → SegmentHeader → EngineResult Segment
verify hash file header =
    let data_len = header.count * header.dimension * 4 in
    if ltb (length file) (header_size + data_len)
    then err serialization
    else if hash (take data_len (drop header_size file)) == header.checksum
    then ok (record { file = file; header = header })
    else err serialization

module _ {V : Type 0} (fb : FloatBytes V) where
  -- Segment::from_file
  unfoldable pub open_segment : List ℕ → EngineResult Segment
  unfolding decode verify
  open_segment file =
      if ltb (length file) header_size then err io else elim (decode (take header_size file)) [
        | err e ↦ err e
        | ok header ↦ verify fb.hash file header
      ]

module _ {V : Type 0} ⦃fb : FloatBytes V⦄ where
  -- Segment::get_vector
  unfoldable pub get_vector : Segment → ℕ → Option (List V)
  unfolding cast_to_floats
  get_vector s index =
      let dim = s.header.dimension in
      if leb s.header.count index
      then none
      else some (cast_to_floats dim (take (dim * 4) (drop (header_size + index * dim * 4) s.file)))

-- SegmentWriter
pub record SegmentWriter (V : Type 0) : Type 0 where
  pub dimension : ℕ
  pub vectors : List V
  pub count : ℕ

module _ {V : Type 0} where
  -- SegmentWriter::new
  unfoldable pub writer : ℕ → SegmentWriter V
  writer dimension = record { dimension = dimension % 2 ^ 32; vectors = []; count = 0 }

  -- SegmentWriter::push; `none` is a panic
  unfoldable pub push : SegmentWriter V → List V → Option (SegmentWriter V)
  push w embedding =
      if length embedding == w.dimension
      then some (record w { vectors = w.vectors ++ embedding; count = (w.count + 1) % 2 ^ 32 })
      else none

  -- the pushes of a checkpoint, in the order of its entries
  unfoldable pub push_all : SegmentWriter V → List (List V) → Option (SegmentWriter V)
  unfolding push
  push_all w [] = some w
  push_all w (v ∷ vs) = elim (push w v) [ none ↦ none | some w' ↦ push_all w' vs ]

module _ {V : Type 0} ⦃fb : FloatBytes V⦄ where
  -- SegmentWriter::write: the bytes of the file
  unfoldable pub write_file : SegmentWriter V → List ℕ
  unfolding encode cast_to_bytes
  write_file w =
      encode (record {
        dimension = w.dimension;
        count = w.count;
        checksum = fb.hash (cast_to_bytes w.vectors);
      })
      ++ cast_to_bytes w.vectors
