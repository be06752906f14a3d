-- ===== src/Wal/Format.antt =====
-- The format of a log file of crates/rekha-wal/src/lib.rs, its constants, and the types of its log.
use rekha.Wal.Bytes.{le_u32, le_u64}
use rekha.Prelude.{
  ℕ, ◌+◌, ◌-◌, ◌^◌, ◌<◌, ◌≡◌, Bool, true, false, ◌&&◌, Option, none, some, List, [], ◌∷◌, ◌++◌,
  length, take, drop, ltb, ◌==◌,
}

-- `crc32fast::hash` and `bincode` on operations: crates that are not part of the program.
pub record Codec (Op : Type 0) : Type 0 where
  pub hash : List ℕ → ℕ
  pub serialize : Op → Option (List ℕ)
  pub deserialize : List ℕ → Option Op
  pub hash-lt : (bytes : List ℕ) → hash bytes < 256 ^ 4
  pub deserialize-serialize :
      (op : Op) (bytes : List ℕ) → serialize op ≡ some bytes → deserialize bytes ≡ some op

-- the byte string b"RKW1"
abbrev pub magic : List ℕ
magic = b'R' ∷ b'K' ∷ b'W' ∷ b'1' ∷ []

abbrev pub version : ℕ
version = 1

abbrev pub header_len : ℕ
header_len = 18

abbrev pub record_header_len : ℕ
record_header_len = 24

abbrev pub u32_max : ℕ
u32_max = 0xffff_ffff

abbrev pub u64_mod : ℕ
u64_mod = 0x1_0000_0000_0000_0000

-- WalOptions
pub record WalOptions : Type 0 where
  pub fsync : Bool
  pub start_seq : Option ℕ

-- WalOptions::new
unfoldable pub wal_options : Bool → WalOptions
wal_options fsync = record { fsync = fsync; start_seq = none }

-- WalRecord
pub record WalRecord (Op : Type 0) : Type 0 where
  pub seq : ℕ
  pub epoch : ℕ
  pub op : Op

-- What `WalError::Corrupt` says, without its text.
pub data Reason : Type 0 where
  truncated_header bad_magic unsupported_version header_crc : Reason
  record_too_large out_of_bounds fenced_record non_monotonic record_crc : Reason

-- WalError; a failure of the file system is that of removing a log.
pub data WalError : Type 0 where
  corrupt : Reason → WalError
  encode : WalError
  fenced : ℕ → ℕ → WalError
  io : WalError

pub data WalResult {ℓ} (A : Type ℓ) : Type ℓ where
  ok : A → WalResult A
  err : WalError → WalResult A

infixl 5 ◌>>=◌
abbrev pub ◌>>=◌ {ℓ κ} : {A : Type ℓ} {B : Type κ} → WalResult A → (A → WalResult B) → WalResult B
ok a >>= f = f a
err e >>= f = err e

-- Wal, with the bytes of its file; the path is left out.
pub record Wal : Type 0 where
  pub file : List ℕ
  pub header_epoch : ℕ
  pub last_seq : ℕ
  pub len : ℕ
  pub file_len : ℕ
  pub options : WalOptions

-- The 24 bytes in front of a record's payload.
pub record Prefix : Type 0 where
  pub record_len : ℕ
  pub stored_crc : ℕ
  pub seq : ℕ
  pub epoch : ℕ

unfoldable pub read_prefix : List ℕ → Prefix
unfolding le_u32 le_u64
read_prefix hdr = record {
  record_len = le_u32 hdr;
  stored_crc = le_u32 (drop 4 hdr);
  seq = le_u64 (drop 8 hdr);
  epoch = le_u64 (drop 16 hdr);
}

-- `seek(offset)`, then `read_exact` of a prefix
unfoldable pub prefix_at : List ℕ → ℕ → Prefix
unfolding read_prefix
prefix_at file offset = read_prefix (take record_header_len (drop offset file))

-- the `read_exact` of the payload, which follows that of the prefix
unfoldable pub payload_at : List ℕ → ℕ → ℕ → List ℕ
payload_at file offset record_len =
    take (record_len - record_header_len) (drop record_header_len (drop offset file))

-- `write_all` at a position of the file
unfoldable pub write_at : List ℕ → ℕ → List ℕ → List ℕ
write_at file position bytes = take position file ++ bytes ++ drop (position + length bytes) file

-- seq > prev, if there is a previous record
abbrev pub after : Option ℕ → ℕ → Bool
after none seq = true
after (some prev) seq = ltb prev seq

abbrev pub or_else {ℓ} : {A : Type ℓ} → A → Option A → A
or_else d none = d
or_else d (some a) = a

-- `start_seq.map(|n| n.saturating_sub(1)).unwrap_or(last_seq)`
abbrev pub resume_seq : Option ℕ → ℕ → ℕ
resume_seq none last_seq = last_seq
resume_seq (some n) last_seq = n - 1

abbrev pub bytes_eq : List ℕ → List ℕ → Bool
bytes_eq [] [] = true
bytes_eq (x ∷ xs) (y ∷ ys) = x == y && bytes_eq xs ys
bytes_eq _ _ = false
