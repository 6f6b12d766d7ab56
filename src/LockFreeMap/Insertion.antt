-- ===== src/LockFreeMap/Insertion.antt =====
-- What `insert` of `LockFreeMap` in src/common/collect_utils.cppm does to the chains, before the table grows.
use fast_db.Prelude.{
  ℕ, ◌<◌, ◌%◌, none, some, List, [], ◌∷◌, ◌++◌, if◌then◌else◌, ◌==◌, ==_iff, length, get_elem?,
  get_elem?-set_self, get_elem?-set_ne, get_elem?-set, get_elem?-last, get_elem?-bound,
  get_elem?-more, get_elem?-within, length-set, set, All, Bool-cases, Option-cases, ◌≡◌, ◌≢◌, inl,
  inr, refl, sym, ap, ◌∙◌, arith,
}
use native.Mathlib.Nat.{mod-lt}
use fast_db.LockFreeMap.{
  Ptr, Node, Heap, Bucket, LockFreeMap, node_at, with_next, set_next, link, push_back, bucket_at,
  get_bucket_index, add_node,
}
use fast_db.LockFreeMap.Chains.{
  Cell, node_of, Chain, Segment-frame, last-All, last-node, Segment-bound, push_back-Chain,
}

-- The chains of a table, by the buckets' numbers.
abbrev pub TableHolds :
    {K V : Type 0} → (K → ℕ) → Heap K V → List Bucket → (ℕ → List (Cell K V)) → Type 0
TableHolds index heap table chains =
    ((i : ℕ) (b : Bucket) → get_elem? table i ≡ some b → Chain index heap i b (chains i))
    × ((i : ℕ) → get_elem? table i ≡ none → chains i ≡ [])

abbrev pub Holds : {K V : Type 0} → (K → ℕ) → LockFreeMap K V → (ℕ → List (Cell K V)) → Type 0
Holds hasher m chains =
    (0 < length m.table) × TableHolds (λ k. hasher k % length m.table) m.heap m.table chains

-- No cell of a chain has this address.
abbrev pub Fresh : {K V : Type 0} → (ℕ → List (Cell K V)) → ℕ → Type 0
Fresh chains a = (j : ℕ) → All (λ (c : Cell _ _). c.address ≢ a) (chains j)

-- A cell behind one of the chains.
abbrev pub with_cell : {K V : Type 0} → ℕ → Cell K V → (ℕ → List (Cell K V)) → ℕ → List (Cell K V)
with_cell i new chains j = if i == j then chains j ++ new ∷ [] else chains j

module _ {K V : Type 0} where
  pub node_at-get_elem? :
      (heap : Heap K V) (a : ℕ) (node : Node K V)
      → get_elem? heap a ≡ some (some node)
      → node_at heap a ≡ some node
  node_at-get_elem? heap a node h = rw (h, node_at) refl

  pub set_next_self :
      (heap : Heap K V) (a : ℕ) (p : Ptr) (node : Node K V)
      → get_elem? heap a ≡ some (some node)
      → get_elem? (set_next a p heap) a ≡ some (some (with_next p node))
  unfolding set_next
  set_next_self heap a p node h =
      rw (h, set_next) (get_elem?-set_self heap a _ (get_elem?-bound heap a (some node) h))

  pub set_next_ne :
      (heap : Heap K V) (a b : ℕ) (p : Ptr)
      → a ≢ b
      → get_elem? (set_next a p heap) b ≡ get_elem? heap b
  unfolding set_next
  set_next_ne heap a b p h = elim (Option-cases (node_at heap a)) [
    | inl e ↦ rw (e, set_next) refl
    | inr (node, e) ↦ rw (e, set_next) (get_elem?-set_ne heap a b _ h)
  ]

module _ {K V : Type 0} where
  pub link_other :
      (tail : Ptr) (new a : ℕ) (heap : Heap K V)
      → tail ≢ some a
      → get_elem? (link tail new heap) a ≡ get_elem? heap a
  unfolding link
  link_other none new a heap h = refl
  link_other (some t) new a heap h = set_next_ne heap t a (some new) (λ e. h (ap some e))

  pub link_tail :
      (tail : Ptr) (new t : ℕ) (heap : Heap K V) (node : Node K V)
      → tail ≡ some t
      → get_elem? heap t ≡ some (some node)
      → get_elem? (link tail new heap) t ≡ some (some (with_next (some new) node))
  unfolding link
  link_tail none new t heap node e h = cc
  link_tail (some u) new t heap node e h =
      let same : u ≡ t = ground (arith, e) in rw same (set_next_self heap t (some new) node h)

-- The bucket at an index of the table.
pub bucket_at-get_elem? :
    (table : List Bucket) (i : ℕ) → i < length table → get_elem? table i ≡ some (bucket_at table i)
bucket_at-get_elem? table i h = let (b, e) = get_elem?-within table i h in rw (e, bucket_at) refl

-- A node joins the bucket of its key: in the heap only the node and the tail of the bucket change.
module _ {K V : Type 0} (index : K → ℕ) (heap heap' : Heap K V) (table : List Bucket)
    (chains : ℕ → List (Cell K V)) (new : Cell K V) (home_bucket : Bucket)
    (there : get_elem? table (index new.key) ≡ some home_bucket)
    (valid : TableHolds index heap table chains)
    (other : (a : ℕ) (node : Node K V)
      → get_elem? heap a ≡ some (some node)
      → home_bucket.tail ≢ some a
      → a ≢ new.address
      → get_elem? heap' a ≡ some (some node))
    (tail : (t : ℕ) (node : Node K V)
      → home_bucket.tail ≡ some t
      → get_elem? heap t ≡ some (some node)
      → get_elem? heap' t ≡ some (some (with_next (some new.address) node)))
    (placed : get_elem? heap' new.address ≡ some (some (node_of new none)))
    (fresh : Fresh chains new.address) where
  abbrev home : ℕ
  home = index new.key

  push_home : Chain index heap' home (push_back new.address home_bucket) (chains home ++ new ∷ [])
  push_home =
      push_back-Chain index heap heap' home home_bucket new (chains home) other tail placed refl
        (fresh home) (valid.0 home home_bucket there)

  not_tail :
      (j a : ℕ) (node : Node K V)
      → home ≢ j
      → get_elem? heap a ≡ some (some node)
      → index node.key ≡ j
      → home_bucket.tail ≢ some a
  not_tail j a node apart at_a in_j e =
      let (segment, (ends, _)) = valid.0 home home_bucket there in
      let (tail_node, (at_tail, here)) =
        last-node index heap home a home_bucket.head (chains home) segment (sym ends ∙ e) in
      let same : tail_node ≡ node = ground (arith, at_a, at_tail) in
      apart (sym here ∙ (ap (λ (x : Node K V). index x.key) same ∙ in_j))

  push_other :
      (j : ℕ) (b : Bucket)
      → home ≢ j
      → get_elem? table j ≡ some b
      → Chain index heap' j b (chains j)
  push_other j b apart h =
      let (segment, rest) = valid.0 j b h in
      (
        Segment-frame index heap heap' j new.address b.head (chains j)
            (λ a node at_a in_j away. other a node at_a (not_tail j a node apart at_a in_j) away)
            (fresh j) segment,
        rest,
      )

  push_back-Chains :
      (j : ℕ) (b : Bucket)
      → get_elem? (set table home (push_back new.address home_bucket)) j ≡ some b
      → Chain index heap' j b (with_cell home new chains j)
  push_back-Chains j b h =
      let stored : (if home == j
            then some (push_back new.address home_bucket)
            else get_elem? table j)
          ≡ some b =
        sym (get_elem?-set table home j _ home_bucket there) ∙ h in
      elim (Bool-cases (home == j)) [
        | inl e ↦
            let same : home ≡ j = (==_iff home j).0 e in
            let bucket : push_back new.address home_bucket ≡ b = ground (arith, rw e at stored) in
            rw (e, sym same, sym bucket) push_home
        | inr e ↦
            let apart : home ≢ j = λ same. ground (arith, ==_iff home j, same, e) in
            rw e (push_other j b apart (rw e at stored))
      ]

  push_back-outside :
      (j : ℕ)
      → get_elem? (set table home (push_back new.address home_bucket)) j ≡ none
      → with_cell home new chains j ≡ []
  push_back-outside j h =
      let stored : (if home == j
            then some (push_back new.address home_bucket)
            else get_elem? table j)
          ≡ none =
        sym (get_elem?-set table home j _ home_bucket there) ∙ h in
      elim (Bool-cases (home == j)) [
        | inl e ↦ absurd (ground (arith, rw e at stored))
        | inr e ↦ rw e (valid.1 j (rw e at stored))
      ]

  pub push_back-TableHolds :
      TableHolds index heap'
        (set table home (push_back new.address home_bucket))
        (with_cell home new chains)
  push_back-TableHolds = (push_back-Chains, push_back-outside)

module _ {K V : Type 0} (hasher : K → ℕ) (m : LockFreeMap K V) (chains : ℕ → List (Cell K V))
    (valid : Holds hasher m chains) where
  pub index-bound : (k : K) → hasher k % length m.table < length m.table
  index-bound k = mod-lt (hasher k) valid.0

  Fresh-new : Fresh chains (length m.heap)
  Fresh-new j = elim (Option-cases (get_elem? m.table j)) [
    | inl e ↦ rw (valid.1.1 j e) tt
    | inr (b, e) ↦
        Segment-bound (λ k. hasher k % length m.table) m.heap j b.head (chains j)
          (valid.1.0 j b e).0
  ]

  -- No tail points behind the heap.
  tail-bound : (j : ℕ) (b : Bucket) → get_elem? m.table j ≡ some b → b.tail ≢ some (length m.heap)
  tail-bound j b there e =
      let (segment, (ends, _)) = valid.1.0 j b there in
      last-All (λ k. hasher k % length m.table) (λ a. a ≢ length m.heap) (chains j) (length m.heap)
        (Fresh-new j) (sym ends ∙ e) refl

  pub add_node-Holds :
      (key : K) (value : V)
      → Holds hasher (add_node hasher key value m) (
          with_cell
            (hasher key % length m.table)
            (record { address = length m.heap; key = key; value = value })
            chains)
  unfolding add_node get_bucket_index
  add_node-Holds key value =
      let home : ℕ = hasher key % length m.table in
      let b : Bucket = bucket_at m.table home in
      let new : Cell K V = record { address = length m.heap; key = key; value = value } in
      let heap1 : Heap K V = m.heap ++ some (node_of new none) ∷ [] in
      let size = length-set m.table home (push_back (length m.heap) b) in
      let there = bucket_at-get_elem? m.table home (index-bound key) in
      rw size (
        valid.0,
        push_back-TableHolds (λ k. hasher k % length m.table) m.heap
            (link b.tail (length m.heap) heap1) m.table chains new b there valid.1
            (λ a node h away apart.
              link_other b.tail (length m.heap) a heap1 away ∙ get_elem?-more m.heap _ a _ h)
            (λ t node e h.
              link_tail b.tail (length m.heap) t heap1 node e (get_elem?-more m.heap _ t _ h))
            (link_other b.tail (length m.heap) (length m.heap) heap1 (tail-bound home b there)
              ∙ get_elem?-last m.heap _)
            Fresh-new,
      )
