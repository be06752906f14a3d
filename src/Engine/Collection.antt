-- ===== src/Engine/Collection.antt =====
-- `Collection` of crates/rekha-engine/src/collection.rs: the in-memory state of a collection, and
-- how an operation of the log changes it.
pub mod Consistent
pub mod MetadataEq
pub mod Unindex
pub mod Release
pub mod Apply
pub mod Core
use rekha.Prelude.{
  ℕ, ◌+◌, ◌%◌, ◌^◌, String, Bool, true, false, not, ◌&&◌, ◌||◌, Option, none, some, List, [], ◌∷◌,
  ◌++◌, str_eq, length, ◌==◌, if◌then◌else◌, is_some, is_some_and,
}
use rekha.Prelude.Int.{eq_ℤ}
use rekha.Prelude.Dict
use rekha.Prelude.Dict.{Eqv, Dict, string_eqv, nat_eqv, get}
use rekha.Core.Types.{Floats, MetadataValue, str, bool, int, float, Metadata}
use rekha.Core.Filter.{bool_eq}
use rekha.Core.Op.{Operation, add, update, delete, upsert}
use rekha.Core.Config.{CollectionConfig}
use rekha.Engine.Bitmap.{Bitmap}
use rekha.Engine.ValueKey.{OrderedFloats}
use rekha.Engine.Base.{Record, Index, EngineError, EngineResult, ok, err, index}
use rekha.Engine.Postings
use rekha.Engine.Postings.{Postings}

-- Collection, without the log and the checkpoint, which its methods do not mention.
pub record Collection (F V B I : Type 0) : Type 0 where
  pub config : CollectionConfig
  pub records : Dict String (Record F V)
  pub buffer : List (Record F V)
  pub index : I
  pub flushed_seq : ℕ
  pub offsets : Dict String ℕ
  pub id_by_offset : Dict ℕ String
  pub next_offset : ℕ
  pub postings : Postings F B

module _ {F : Type 0} ⦃fl : Floats F⦄ where
  -- the derived `PartialEq` of `MetadataValue`
  unfoldable pub value_eq : MetadataValue F → MetadataValue F → Bool
  value_eq (str x) (str y) = str_eq x y
  value_eq (bool x) (bool y) = bool_eq x y
  value_eq (int x) (int y) = eq_ℤ x y
  value_eq (float x) (float y) = fl.feq x y
  value_eq _ _ = false

  unfoldable pub entries_eq : Metadata F → Metadata F → Bool
  unfolding value_eq
  entries_eq [] m = true
  entries_eq ((k, v) ∷ l) m = is_some_and (get m k) (λ w. value_eq v w) && entries_eq l m

  -- `==` of two optional maps: of one size, and each entry of the first is in the second
  unfoldable pub metadata_eq : Option (Metadata F) → Option (Metadata F) → Bool
  unfolding entries_eq
  metadata_eq none none = true
  metadata_eq (some l) (some m) = length l == length m && entries_eq l m
  metadata_eq _ _ = false

abbrev pub u32_mod : ℕ
u32_mod = 0x1_0000_0000

-- `buffer.retain(|r| r.id != *id)`
unfoldable pub retain_others : {F V : Type 0} → String → List (Record F V) → List (Record F V)
retain_others id [] = []
retain_others id (r ∷ rs) =
    let rest = retain_others id rs in if str_eq r.id id then rest else r ∷ rest

module _ {F V B I : Type 0} where
  -- Collection::offset_for: a new offset is the next one; `u32` addition wraps in a release build.
  unfoldable pub offset_for : Collection F V B I → String → ℕ × Collection F V B I
  offset_for c id = elim (get c.offsets id) [
    | some offset ↦ (offset, c)
    | none ↦ (
      c.next_offset,
      record c {
        next_offset = (c.next_offset + 1) % u32_mod;
        offsets = Dict.insert c.offsets id c.next_offset;
        id_by_offset = Dict.insert c.id_by_offset c.next_offset id;
      },
    )
  ]

  -- the record of the id, or the one that `or_insert_with` makes
  unfoldable pub entry_for : Collection F V B I → String → ℕ → Record F V
  entry_for c id seq = elim (get c.records id) [
    | some r ↦ r
    | none ↦ record { id = id; embedding = none; metadata = none; document = none; seq = seq }
  ]

module _ {F V B : Type 0} ⦃fl : Floats F⦄ ⦃of : OrderedFloats fl⦄ ⦃bm : Bitmap B⦄ where
  -- the old metadata of a record is un-indexed
  unfoldable pub unindex_old : Postings F B → ℕ → Option (Record F V) → Postings F B
  unindex_old p offset none = p
  unindex_old p offset (some old) = Postings.remove p offset old.metadata

-- the outcome of a call of the index
unfoldable pub index_result :
    {F V B I : Type 0}
    → Collection F V B I
    → Option I
    → Collection F V B I × EngineResult (Unit {0})
index_result c none = (c, err index)
index_result c (some i) = (record c { index = i }, ok tt)

module _ {F V B I : Type 0} ⦃fl : Floats F⦄ ⦃of : OrderedFloats fl⦄ ⦃bm : Bitmap B⦄ where
  -- the branch of `Add` and `Upsert`, once the offset is known
  unfoldable pub upsert_at :
      Collection F V B I
      → ℕ
      → String
      → List V
      → Option (Metadata F)
      → Option String
      → ℕ
      → Collection F V B I
  upsert_at c offset id embedding metadata document seq =
      let new : Record F V = record {
        id = id;
        embedding = some embedding;
        metadata = metadata;
        document = document;
        seq = seq;
      } in
      record c {
        postings =
            Postings.insert (unindex_old c.postings offset (get c.records id)) offset metadata;
        records = Dict.insert c.records id new;
        buffer = retain_others id c.buffer ++ new ∷ [];
      }

  unfoldable pub apply_upsert :
      Collection F V B I
      → String
      → List V
      → Option (Metadata F)
      → Option String
      → ℕ
      → Collection F V B I
  unfolding upsert_at
  apply_upsert c id embedding metadata document seq =
      let (offset, c') = offset_for c id in upsert_at c' offset id embedding metadata document seq

  -- the end of the branch of `Update`, for changed metadata
  unfoldable pub reindex_at :
      Collection F V B I → ℕ → Option (Metadata F) → Option (Metadata F) → Collection F V B I
  reindex_at c offset old metadata = record c {
    postings = Postings.insert (Postings.remove c.postings offset old) offset metadata;
  }

  -- the branch of `Update`, once the record is known
  unfoldable pub write_update :
      Collection F V B I
      → String
      → Record F V
      → Option (Metadata F)
      → Option String
      → ℕ
      → Collection F V B I
  unfolding reindex_at
  write_update c id old metadata document seq =
      let written = record c {
        records =
            Dict.insert c.records id
              (record old { metadata = metadata; document = document; seq = seq });
      } in
      let (offset, c') = offset_for written id in
      if metadata_eq old.metadata metadata
      then written
      else reindex_at c' offset old.metadata metadata

  unfoldable pub apply_update :
      Collection F V B I → String → Option (Metadata F) → Option String → ℕ → Collection F V B I
  unfolding write_update entry_for
  apply_update c id metadata document seq =
      write_update c id (entry_for c id seq) metadata document seq

  -- the part of `Delete` about the postings and the offsets
  unfoldable pub release_offset : Collection F V B I → String → Collection F V B I
  release_offset c id = elim (get c.offsets id) [
    | none ↦ c
    | some offset ↦ record c {
      postings = Postings.remove_all (unindex_old c.postings offset (get c.records id)) offset;
      id_by_offset = Dict.remove c.id_by_offset offset;
      offsets = Dict.remove c.offsets id;
    }
  ]

  module _ ⦃ix : Index I V⦄ where
    -- the branch of `Delete`: an error of the index comes after all other changes
    unfoldable pub apply_delete :
        Collection F V B I → String → Collection F V B I × EngineResult (Unit {0})
    unfolding index_result
    apply_delete c id =
        let c' = release_offset c id in
        let dropped = record c' {
          records = Dict.remove c'.records id;
          buffer = retain_others id c'.buffer;
        } in
        index_result dropped (ix.delete dropped.index id)

    -- Collection::apply_operation
    unfoldable pub apply_operation :
        Collection F V B I → Operation F V → ℕ → Collection F V B I × EngineResult (Unit {0})
    apply_operation c (add id embedding metadata document) seq =
        (apply_upsert c id embedding metadata document seq, ok tt)
    apply_operation c (upsert id embedding metadata document) seq =
        (apply_upsert c id embedding metadata document seq, ok tt)
    apply_operation c (update id metadata document) seq =
        (apply_update c id metadata document seq, ok tt)
    apply_operation c (delete id) seq = apply_delete c id
