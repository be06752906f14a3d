-- ===== src/Wal/Log.antt =====
-- What a log file holds: the entries whose frames follow its header.
use rekha.Prelude.{
  ℕ, ◌+◌, ◌<◌, ◌≤◌, ◌≡◌, true, Option, some, List, [], ◌∷◌, ◌++◌, length, take, drop, is_some,
  take-length_append, arith,
}
use rekha.Wal.Bytes.{from-to_le_bytes}
use rekha.Wal.{Codec, record_header_len, u32_max, u64_mod, read_prefix, after, frame}

pub record Entry : Type 0 where
  pub seq : ℕ
  pub epoch : ℕ
  pub payload : List ℕ

module _ {Op : Type 0} (c : Codec Op) where
  abbrev pub encode_entry : Entry → List ℕ
  encode_entry e = frame c e.seq e.epoch e.payload

  unfoldable pub encode_all : List Entry → List ℕ
  encode_all [] = []
  encode_all (e ∷ es) = encode_entry e ++ encode_all es

  -- The entry fits the fields of its frame, and its payload is an operation.
  pub record Fits (e : Entry) : Type 0 where
    pub seq_fits : e.seq < u64_mod
    pub epoch_fits : e.epoch < u64_mod
    pub payload_fits : record_header_len + length e.payload ≤ u32_max
    pub decodes : is_some (c.deserialize e.payload) ≡ true

  -- A log of a file of epoch `header_epoch`: seqs rise, and no entry is fenced.
  abbrev pub IsLog : ℕ → Option ℕ → List Entry → Type 0
  IsLog header_epoch prev [] = Unit
  IsLog header_epoch prev (e ∷ es) =
      Fits e
      × (header_epoch ≤ e.epoch)
      × (after prev e.seq ≡ true)
      × IsLog header_epoch (some e.seq) es

  pub length-frame :
      (seq epoch : ℕ) (payload : List ℕ)
      → length (frame c seq epoch payload) ≡ record_header_len + length payload
  unfolding frame
  length-frame seq epoch payload = omega arith

  pub prefix-frame :
      (e : Entry) (rest : List ℕ)
      → Fits e
      → read_prefix (take record_header_len (encode_entry e ++ rest)) ≡ record {
        record_len = record_header_len + length e.payload;
        stored_crc = c.hash e.payload;
        seq = e.seq;
        epoch = e.epoch;
      }
  unfolding read_prefix frame
  prefix-frame e rest f =
      let n = record_header_len + length e.payload in
      λ i. record {
        record_len = from-to_le_bytes 4 n (omega (arith, f.payload_fits)) i;
        stored_crc = from-to_le_bytes 4 (c.hash e.payload) (c.hash-lt e.payload) i;
        seq = from-to_le_bytes 8 e.seq f.seq_fits i;
        epoch = from-to_le_bytes 8 e.epoch f.epoch_fits i;
      }

  pub payload-frame :
      (e : Entry) (rest : List ℕ)
      → take (length e.payload) (drop record_header_len (encode_entry e ++ rest)) ≡ e.payload
  unfolding frame
  payload-frame e rest = take-length_append e.payload rest
