-- ===== src/Engine/Durable/Replay.antt =====
-- Durability: what `write_ops` has acknowledged, a replay of the log brings back.
use rekha.Prelude.{ℕ, ◌≡◌, ◌≢◌, refl, String, Option, none, some, List, [], ◌∷◌, ◌++◌}
use rekha.Core.Types.{Floats}
use rekha.Core.Op.{Operation, add, update, delete, upsert}
use rekha.Wal.{WalRecord}
use rekha.Engine.Bitmap.{Bitmap}
use rekha.Engine.ValueKey.{OrderedFloats}
use rekha.Engine.Base.{Index, ok}
use rekha.Engine.Collection.{Collection, apply_operation, apply_delete, index_result}
use rekha.Engine.Collection.Core.{SameCore, apply_operation-SameCore}
use rekha.Engine.Durable.{apply_all}

module _ {F V B I : Type 0} ⦃fl : Floats F⦄ ⦃of : OrderedFloats fl⦄ ⦃bm : Bitmap B⦄
    ⦃ix : Index I V⦄ where
  -- the states of `apply_all` without its errors
  abbrev pub run : Collection F V B I → List (WalRecord (Operation F V)) → Collection F V B I
  run c [] = c
  run c (rec ∷ recs) = run (apply_operation c rec.op rec.seq).0 recs

  pub run-append :
      (c : Collection F V B I) (xs ys : List (WalRecord (Operation F V)))
      → run c (xs ++ ys) ≡ run (run c xs) ys
  run-append c [] ys = refl
  run-append c (x ∷ xs) ys = run-append (apply_operation c x.op x.seq).0 xs ys

  pub run-SameCore :
      (c d : Collection F V B I) (recs : List (WalRecord (Operation F V)))
      → SameCore c d
      → SameCore (run c recs) (run d recs)
  run-SameCore c d [] s = s
  run-SameCore c d (x ∷ xs) s =
      run-SameCore (apply_operation c x.op x.seq).0 (apply_operation d x.op x.seq).0 xs
        (apply_operation-SameCore c d x.op x.seq s)

  index_result-ok :
      (c : Collection F V B I) (r : Option I) → r ≢ none → (index_result c r).1 ≡ ok tt
  unfolding index_result
  index_result-ok c none h = absurd (h refl)
  index_result-ok c (some i) h = refl

  module _ (lenient : (i : I) (id : String) → ix.delete i id ≢ none) where
    apply_operation-ok :
        (c : Collection F V B I) (op : Operation F V) (seq : ℕ)
        → (apply_operation c op seq).1 ≡ ok tt
    unfolding apply_operation apply_delete
    apply_operation-ok c (add id e m t) seq = refl
    apply_operation-ok c (upsert id e m t) seq = refl
    apply_operation-ok c (update id m t) seq = refl
    apply_operation-ok c (delete id) seq = index_result-ok _ _ (lenient _ id)

    -- If no delete of the index fails, every record is applied.
    pub apply_all-run :
        (c : Collection F V B I) (recs : List (WalRecord (Operation F V)))
        → apply_all c recs ≡ (run c recs, ok tt)
    unfolding apply_all
    apply_all-run c [] = refl
    apply_all-run c (x ∷ xs) =
        rw (apply_operation-ok c x.op x.seq, apply_all)
          (apply_all-run (apply_operation c x.op x.seq).0 xs)
