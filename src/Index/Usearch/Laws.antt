-- ===== src/Index/Usearch/Laws.antt =====
-- The index keeps the promises that the engine relies on, if the library keeps its own, and it is
-- read back as it was saved.
use rekha.Prelude.{
  ℕ, suc, ◌+◌, ◌*◌, ◌%◌, ◌≡◌, ◌<◌, ◌≤◌, refl, sym, ◌∙◌, String, Bool, true, false, some, List, [],
  length, leb, ◌==◌, if◌then◌else◌, inl, inr, Bool-cases, Option-cases, eq_refl, arith,
}
use mathlib.Core.Path.{subst}
use rekha.Prelude.Dict
use rekha.Prelude.Dict.{string_eqv, nat_eqv, get, get-remove}
use rekha.Core.Types.{Distance, name}
use rekha.Core.Config.{HnswConfig}
use rekha.Wal.{u64_mod}
use rekha.Engine.Durable.{max}
use rekha.Engine.Durable.Lenient.{IsLenient}
use rekha.Index.Usearch.{
  Graph, UsearchIndex, IndexMeta, ok, with_hnsw, made, ensure_capacity, insert_vector, add, delete,
  contains, added, usearch_index, save, restored, load,
}

-- What usearch documents. A graph has the dimension that it is made with, and holds no label at
-- first. Room can be reserved. Where there is room, a vector of the dimension is taken under a label
-- that the graph does not hold, since a graph that is not `multi` refuses a label twice; it then
-- holds that label and no other new one. A removal brings in no label.
pub record HasRoom {G V : Type 0} (graph : Graph G V) : Type 0 where
  pub keys : G → ℕ → Bool
  pub dims : G → ℕ
  pub makes :
      (space : Distance) (d : ℕ) (hnsw : HnswConfig)
      → (g : G) × (graph.new space d hnsw ≡ some g) × (dims g ≡ d) × ((l : ℕ) → keys g l ≡ false)
  pub reserves :
      (g : G) (n : ℕ)
      → (g' : G) × (graph.reserve g n ≡ some g')
        × (n ≤ graph.capacity g')
        × (graph.size g' ≡ graph.size g)
        × (dims g' ≡ dims g)
        × ((l : ℕ) → keys g' l ≡ keys g l)
  pub takes :
      (g : G) (label : ℕ) (v : List V)
      → keys g label ≡ false
      → graph.size g < graph.capacity g
      → length v ≡ dims g
      → (g' : G) × (graph.add g label v ≡ some g')
        × (dims g' ≡ dims g)
        × ((l : ℕ) → keys g' l ≡ (if label == l then true else keys g l))
  pub removes :
      (g : G) (label : ℕ)
      → (dims (graph.remove g label) ≡ dims g)
        × ((l : ℕ) → keys g l ≡ false → keys (graph.remove g label) l ≡ false)

module _ {G V : Type 0} (graph : Graph G V) (room : HasRoom graph) where
  -- The index and its graph have the dimension, and there are `n` labels of 64 bits that were not
  -- handed out, none of which the graph holds.
  record IsReady (d n : ℕ) (s : UsearchIndex G) : Type 0 where
    pub dims : room.dims s.inner ≡ d
    pub dimension : s.dimension ≡ d
    pub left : 1 ≤ n → s.next_label + n ≤ u64_mod
    pub unused : 1 ≤ n → (l : ℕ) → s.next_label ≤ l → room.keys s.inner l ≡ false

  ensure_capacity-room :
      (g : G)
      → (g' : G) × (ensure_capacity graph g ≡ some g')
        × (graph.size g' < graph.capacity g')
        × (room.dims g' ≡ room.dims g)
        × ((l : ℕ) → room.keys g' l ≡ room.keys g l)
  unfolding ensure_capacity
  ensure_capacity-room g = elim (Bool-cases (leb (graph.capacity g) (graph.size g))) [
    | inr e ↦ (g, rw e refl, ground arith, refl, λ l. refl)
    | inl e ↦
        let target = max (graph.capacity g * 2) (graph.size g + 64) in
        let (g', got, big, same, dims, keys) = room.reserves g target in
        (g', rw e got, ground (arith, big, same), dims, keys)
  ]

  insert_vector-added :
      (d n : ℕ) (s : UsearchIndex G) (g : G) (id : String) (v : List V)
      → IsReady d (suc n) s
      → graph.size g < graph.capacity g
      → room.dims g ≡ room.dims s.inner
      → ((l : ℕ) → room.keys g l ≡ room.keys s.inner l)
      → length v ≡ d
      → (t : UsearchIndex G) × (added graph (insert_vector graph s g id v) ≡ some t) × IsReady d n t
  unfolding insert_vector added
  insert_vector-added d n s g id v ready free dims keys fits =
      let label = s.next_label in
      let outside : room.keys g label ≡ false =
        keys label ∙ ready.unused (omega arith) label (omega arith) in
      let (g', taken, dims', keys') =
        room.takes g label v outside free (fits ∙ sym (dims ∙ ready.dims)) in
      (
        record s {
          inner = g';
          labels = Dict.insert s.labels id label;
          ids = Dict.insert s.ids label id;
          next_label = (label + 1) % u64_mod;
        },
        rw (taken, insert_vector) refl,
        record {
          dims = dims' ∙ dims ∙ ready.dims;
          dimension = ready.dimension;
          left = λ some_left. omega (arith, ready.left (omega arith), some_left);
          unused = λ some_left l above.
              let next : (label + 1) % u64_mod ≡ label + 1 =
                omega (arith, ready.left (omega arith), some_left) in
              let other : (label == l) ≡ false = ground (arith, next, above) in
              keys' l
              ∙ (rw other (keys l))
              ∙ ready.unused (omega arith) l (omega (arith, next, above));
        },
      )

  add-added :
      (d n : ℕ) (s : UsearchIndex G) (id : String) (v : List V)
      → IsReady d (suc n) s
      → contains graph s id ≡ false
      → length v ≡ d
      → (t : UsearchIndex G) × (added graph (add graph s id v) ≡ some t) × IsReady d n t
  unfolding add contains
  add-added d n s id v ready outside fits =
      let (g, got, free, dims, keys) = ensure_capacity-room s.inner in
      let same : (length v == s.dimension) ≡ true = ground (arith, ready.dimension, fits) in
      let (t, done, still) = insert_vector-added d n s g id v ready free dims keys fits in
      (t, rw (same, outside, got) done, still)

  delete-IsReady :
      (d n : ℕ) (s : UsearchIndex G) (id : String)
      → IsReady d n s
      → (contains graph (delete graph s id) id ≡ false) × IsReady d n (delete graph s id)
  unfolding delete contains
  delete-IsReady d n s id ready = elim (Option-cases (get s.labels id)) [
    | inl e ↦ rw (e, delete, e) (refl, ready)
    | inr (label, e) ↦
        let (dims, keys) = room.removes s.inner label in
        (
          rw (e, delete) (ground (arith, get-remove s.labels id id, eq_refl id)),
          rw (e, delete)
              (record {
                dims = dims ∙ ready.dims;
                dimension = ready.dimension;
                left = ready.left;
                unused = λ some_left l above. keys l (ready.unused some_left l above);
              }),
        )
  ]

  with_hnsw-IsReady :
      (space : Distance) (d : ℕ) (hnsw : HnswConfig)
      → (s : UsearchIndex G) × (made graph (with_hnsw graph space d hnsw) ≡ some s)
        × ((n : ℕ) → n ≤ u64_mod → IsReady d n s)
  unfolding with_hnsw made
  with_hnsw-IsReady space d hnsw =
      let (g, e, dims, keys) = room.makes space d hnsw in
      (
        record { inner = g; space = space; dimension = d; labels = []; ids = []; next_label = 0 },
        rw (e, with_hnsw) refl,
        λ n few. record {
          dims = dims;
          dimension = refl;
          left = λ some_left. omega (arith, few);
          unused = λ some_left l above. keys l;
        },
      )

  -- The index over usearch keeps the promises that opening a collection relies on: it can be made
  -- for any space and dimension, a delete succeeds and leaves the id out, and as long as there are
  -- labels of 64 bits that were not handed out, a vector of the dimension at an id that is not
  -- there is taken. The library must be able to make a graph and to reserve room, and take a vector
  -- where there is room, under a label that the graph does not hold.
  pub usearch_index-IsLenient : IsLenient (usearch_index graph)
  usearch_index-IsLenient = record {
    Ready = IsReady;
    makes = with_hnsw-IsReady;
    deletes = λ s id h. ground arith;
    deleted = λ d n s t id ready e.
        let same : delete graph s id ≡ t = ground arith in
        subst (λ x. (contains graph x id ≡ false) × IsReady d n x) same
          (delete-IsReady d n s id ready);
    adds = λ d n s id v ready outside fits. add-added d n s id v ready outside fits;
    fewer = λ d m n s few ready. record {
      dims = ready.dims;
      dimension = ready.dimension;
      left = λ some_left. omega (arith, few, ready.left (omega (arith, few, some_left)));
      unused = λ some_left. ready.unused (omega (arith, few, some_left));
    };
  }

module _ {G V : Type 0} (graph : Graph G V) where
  -- What was saved is read back, where the graph has as many vectors as there are labels.
  pub load-save :
      (s : UsearchIndex G) (file : G)
      → graph.save s.inner ≡ some file
      → graph.restore file ≡ some s.inner
      → graph.size s.inner ≡ length s.labels
      → (meta : IndexMeta) × (save graph s ≡ ok (file, meta))
        × (load graph s.space s.dimension file meta ≡ ok s)
  unfolding save load restored
  load-save s file written read counted =
      let meta : IndexMeta = record {
        labels = s.labels;
        ids = s.ids;
        next_label = s.next_label;
        space = name s.space;
        dimension = s.dimension;
      } in
      let right : (s.dimension == s.dimension) ≡ true = ground arith in
      let whole : (graph.size s.inner == length s.labels) ≡ true = ground arith in
      (meta, rw (written, save) refl, rw (eq_refl (name s.space), right, read, load, whole) refl)
