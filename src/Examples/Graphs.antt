-- ===== src/Examples/Graphs.antt =====
-- The theorems on the index of usearch, at a graph that is a list of vectors.
use rekha.Prelude.{
  ℕ, refl, none, some, List, [], ◌∷◌, length, ltb, if◌then◌else◌, ◌&&◌, not, is_some, arith,
}
use rekha.Prelude.Dict
use rekha.Prelude.Dict.{Dict, string_eqv, nat_eqv, get, get-remove}
use rekha.Core.Types.{l2}
use rekha.Core.Config.{default_hnsw}
use rekha.Engine.Durable.Lenient.{IsLenient}
use rekha.Index.Usearch.{Graph, UsearchIndex, with_hnsw, add, usearch_index}
use rekha.Index.Usearch.Labels.{AreInverse, with_hnsw-AreInverse, add-AreInverse}
use rekha.Index.Usearch.Laws.{HasRoom, usearch_index-IsLenient}

-- The labelled vectors, and the room for them.
pub record Flat : Type 0 where
  pub vectors : Dict ℕ (List ℕ)
  pub room : ℕ
  pub dims : ℕ

-- A search finds every vector, at distance 0.
abbrev found : Dict ℕ (List ℕ) → List (ℕ × ℕ)
found [] = []
found ((label, v) ∷ vectors) = (label, 0) ∷ found vectors

abbrev pub flat : Graph Flat ℕ
flat = record {
  new = λ space d hnsw. some (record { vectors = []; room = 0; dims = d });
  size = λ g. length g.vectors;
  capacity = λ g. g.room;
  reserve = λ g n. some (record g { room = n });
  add = λ g label v.
      if ltb (length g.vectors) g.room && not (is_some (get g.vectors label))
      then some (record g { vectors = (label, v) ∷ g.vectors })
      else none;
  remove = λ g label. record g { vectors = Dict.remove g.vectors label };
  change_expansion_search = λ g ef. g;
  search = λ g query k. some (found g.vectors);
  save = λ g. some g;
  restore = λ g. some g;
}

pub flat-HasRoom : HasRoom flat
unfolding get
flat-HasRoom = record {
  keys = λ g l. is_some (get g.vectors l);
  dims = λ g. g.dims;
  makes = λ space d hnsw. (record { vectors = []; room = 0; dims = d }, refl, refl, λ l. refl);
  reserves = λ g n. (record g { room = n }, refl, omega arith, refl, refl, λ l. refl);
  takes = λ g label v outside free fits. (
    record g { vectors = (label, v) ∷ g.vectors },
    ground (arith, outside, free),
    refl,
    λ l. ground arith,
  );
  removes = λ g label. (refl, λ l out. ground (arith, out, get-remove g.vectors label l));
}

usearch_index-IsLenient_example : IsLenient (usearch_index flat)
usearch_index-IsLenient_example = usearch_index-IsLenient flat flat-HasRoom

-- a new index of dimension `d`
abbrev pub blank : ℕ → UsearchIndex Flat
blank d = record {
  inner = record { vectors = []; room = 0; dims = d };
  space = l2;
  dimension = d;
  labels = [];
  ids = [];
  next_label = 0;
}

blank-AreInverse : AreInverse (blank 2)
unfolding with_hnsw
blank-AreInverse = with_hnsw-AreInverse flat l2 2 default_hnsw (blank 2) refl

add-AreInverse_example : AreInverse (add flat (blank 2) "a" (7 ∷ 8 ∷ [])).0
add-AreInverse_example =
    add-AreInverse flat (blank 2) "a" (7 ∷ 8 ∷ []) (omega arith) blank-AreInverse
