-- ===== src/Index/Usearch.antt =====
-- `UsearchIndex` of crates/rekha-index/src/usearch_index.rs: ids and labels around a graph of the
-- usearch library.
pub mod Labels
pub mod Laws
use rekha.Prelude.{
  ℕ, suc, ◌+◌, ◌*◌, ◌%◌, ◌≡◌, ◌≢◌, ◌<◌, ◌≤◌, String, Bool, true, false, not, ◌&&◌, Option, none,
  some, List, [], ◌∷◌, length, leb, ◌==◌, str_eq, if◌then◌else◌, is_some,
}
use rekha.Prelude.Dict
use rekha.Prelude.Dict.{Dict, string_eqv, nat_eqv, get}
use rekha.Core.Types.{Distance, name}
use rekha.Core.Config.{HnswConfig}
use rekha.Wal.{u64_mod}
use rekha.Engine.Base.{IndexHit, Index}
use rekha.Engine.Durable.{max}

-- usearch::Index, as far as the source calls it: `new` takes the options, with `multi` false, and
-- the result of `remove` is not looked at. The file of a graph is a graph, which `restore` may refuse.
pub record Graph (G V : Type 0) : Type 0 where
  pub new : Distance → ℕ → HnswConfig → Option G
  pub size : G → ℕ
  pub capacity : G → ℕ
  pub reserve : G → ℕ → Option G
  pub add : G → ℕ → List V → Option G
  pub remove : G → ℕ → G
  pub change_expansion_search : G → ℕ → G
  pub search : G → List V → ℕ → Option (List (ℕ × V))
  pub save : G → Option G
  pub restore : G → Option G

-- IndexError, less what the library and the files say
pub data IndexError : Type 0 where
  dimension_mismatch duplicate_id usearch corrupt : IndexError

pub data IndexResult {ℓ} (A : Type ℓ) : Type ℓ where
  ok : A → IndexResult A
  err : IndexError → IndexResult A

-- UsearchIndex
pub record UsearchIndex (G : Type 0) : Type 0 where
  pub inner : G
  pub space : Distance
  pub dimension : ℕ
  pub labels : Dict String ℕ
  pub ids : Dict ℕ String
  pub next_label : ℕ

-- IndexMeta
pub record IndexMeta : Type 0 where
  pub labels : Dict String ℕ
  pub ids : Dict ℕ String
  pub next_label : ℕ
  pub space : String
  pub dimension : ℕ

module _ {G V : Type 0} (graph : Graph G V) where
  -- UsearchIndex::with_hnsw
  unfoldable pub with_hnsw : Distance → ℕ → HnswConfig → IndexResult (UsearchIndex G)
  with_hnsw space dimension hnsw = elim (graph.new space dimension hnsw) [
    | none ↦ err usearch
    | some inner ↦ ok (record {
      inner = inner;
      space = space;
      dimension = dimension;
      labels = [];
      ids = [];
      next_label = 0;
    })
  ]

  -- UsearchIndex::ensure_capacity
  unfoldable pub ensure_capacity : G → Option G
  ensure_capacity g =
      if leb (graph.capacity g) (graph.size g)
      then graph.reserve g (max (graph.capacity g * 2) (graph.size g + 64))
      else some g

  -- the end of `add`: the maps are rolled back if the graph refuses the vector
  unfoldable pub insert_vector :
      UsearchIndex G → G → String → List V → UsearchIndex G × IndexResult (Unit {0})
  insert_vector s g id embedding =
      let label = s.next_label in
      let next_label = (label + 1) % u64_mod in
      let labels = Dict.insert s.labels id label in
      let ids = Dict.insert s.ids label id in
      elim (graph.add g label embedding) [
        | none ↦ (
          record s {
            inner = g;
            labels = Dict.remove labels id;
            ids = Dict.remove ids label;
            next_label = next_label;
          },
          err usearch,
        )
        | some g' ↦
            (record s { inner = g'; labels = labels; ids = ids; next_label = next_label }, ok tt)
      ]

  -- UsearchIndex::add
  unfoldable pub add : UsearchIndex G → String → List V → UsearchIndex G × IndexResult (Unit {0})
  unfolding ensure_capacity insert_vector
  add s id embedding =
      if not (length embedding == s.dimension)
      then (s, err dimension_mismatch)
      else if is_some (get s.labels id)
      then (s, err duplicate_id)
      else elim (ensure_capacity s.inner) [
        | none ↦ (s, err usearch)
        | some g ↦ insert_vector s g id embedding
      ]

  -- UsearchIndex::delete
  unfoldable pub delete : UsearchIndex G → String → UsearchIndex G
  delete s id = elim (get s.labels id) [
    | none ↦ s
    | some label ↦ record s {
      inner = graph.remove s.inner label;
      labels = Dict.remove s.labels id;
      ids = Dict.remove s.ids label;
    }
  ]

  -- the filter of `search`: a label without an id is left out
  unfoldable pub hits_of : Dict ℕ String → List (ℕ × V) → List (IndexHit V)
  hits_of ids [] = []
  hits_of ids ((label, distance) ∷ found) =
      let rest = hits_of ids found in
      elim (get ids label) [
        | none ↦ rest
        | some id ↦ record { id = id; distance = distance } ∷ rest
      ]

  -- UsearchIndex::search; the expansion is set before each search
  unfoldable pub search : UsearchIndex G → List V → ℕ → ℕ → IndexResult (List (IndexHit V))
  unfolding hits_of
  search s query k ef =
      if not (length query == s.dimension)
      then err dimension_mismatch
      else elim (graph.search (graph.change_expansion_search s.inner ef) query k) [
        | none ↦ err usearch
        | some found ↦ ok (hits_of s.ids found)
      ]

  -- UsearchIndex::len and contains
  unfoldable pub len : UsearchIndex G → ℕ
  len s = graph.size s.inner

  unfoldable pub contains : UsearchIndex G → String → Bool
  contains s id = is_some (get s.labels id)

  -- UsearchIndex::save: the graph, and the maps
  unfoldable pub save : UsearchIndex G → IndexResult (G × IndexMeta)
  unfolding name
  save s = elim (graph.save s.inner) [
    | none ↦ err usearch
    | some file ↦ ok (
      file,
      record {
        labels = s.labels;
        ids = s.ids;
        next_label = s.next_label;
        space = name s.space;
        dimension = s.dimension;
      },
    )
  ]

  -- the end of `load`, on the graph that was restored
  unfoldable pub restored : Distance → ℕ → IndexMeta → G → IndexResult (UsearchIndex G)
  restored space dimension meta g =
      if graph.size g == length meta.labels
      then ok (record {
        inner = g;
        space = space;
        dimension = dimension;
        labels = meta.labels;
        ids = meta.ids;
        next_label = meta.next_label;
      })
      else err corrupt

  -- UsearchIndex::load, of the two files
  unfoldable pub load :
      (space : Distance) (dimension : ℕ) → G → IndexMeta → IndexResult (UsearchIndex G)
  unfolding restored name
  load space dimension file meta =
      if not (str_eq meta.space (name space))
      then err corrupt
      else if not (meta.dimension == dimension)
      then err corrupt
      else elim (graph.restore file) [
        | none ↦ err usearch
        | some g ↦ restored space dimension meta g
      ]

  -- the results of the trait, `none` for an error
  unfoldable pub made : IndexResult (UsearchIndex G) → Option (UsearchIndex G)
  made (ok s) = some s
  made (err e) = none

  unfoldable pub added : UsearchIndex G × IndexResult (Unit {0}) → Option (UsearchIndex G)
  added (s, ok u) = some s
  added (s, err e) = none

  unfoldable pub hits : IndexResult (List (IndexHit V)) → Option (List (IndexHit V))
  hits (ok found) = some found
  hits (err e) = none

  -- The instance of the trait. An `add` that failed gives no index here, where the source goes on
  -- with the maps from before and one label used up.
  abbrev pub usearch_index : Index (UsearchIndex G) V
  usearch_index = record {
    with_hnsw = λ space dimension hnsw. made (with_hnsw space dimension hnsw);
    add = λ s id embedding. added (add s id embedding);
    delete = λ s id. some (delete s id);
    search = λ s query k ef. hits (search s query k ef);
    len = len;
    contains = contains;
  }
