-- ===== src/LockFreeMap.antt =====
-- `LockFreeMap` of src/common/collect_utils.cppm: nodes in a heap, linked by their `next`, and a head and a tail pointer for each
-- bucket. Each operation is one step; the hash is an argument.
pub mod Removal
pub mod Chains
pub mod Insertion
pub mod Lookup
pub mod Moves
pub mod Growth
pub mod Resizing
pub mod Contents
use fast_db.Prelude.{
  ℕ, zero, suc, ◌+◌, ◌*◌, ◌%◌, Bool, true, false, Option, none, some, List, [], ◌∷◌, ◌++◌,
  if◌then◌else◌, leb, ◌==◌, length, get_elem?, set, replicate, Eq, ◌=?◌,
}
use fast_db.Prelude.Size.{size_sub}

abbrev pub Ptr : Type 0
Ptr = Option ℕ

pub record Node (K V : Type 0) : Type 0 where
  pub key : K
  pub value : V
  pub next : Ptr

-- The nodes in the order in which they were made; a deleted one is `none`.
abbrev pub Heap : Type 0 → Type 0 → Type 0
Heap K V = List (Option (Node K V))

pub record Bucket : Type 0 where
  pub head : Ptr
  pub tail : Ptr

abbrev pub empty_bucket : Bucket
empty_bucket = record { head = none; tail = none }

pub record LockFreeMap (K V : Type 0) : Type 0 where
  pub heap : Heap K V
  pub table : List Bucket
  pub num_elements : ℕ

-- The end of a walk along a chain: it was stopped by `nullptr`, at a value, or it followed a pointer to no node or had no fuel
-- left.
pub data Walk (V : Type 0) : Type 0 where
  missing : Walk V
  found : V → Walk V
  lost : Walk V

abbrev pub node_at : {K V : Type 0} → Heap K V → ℕ → Option (Node K V)
node_at heap a = elim (get_elem? heap a) [ none ↦ none | some cell ↦ cell ]

abbrev pub default_buckets : ℕ
default_buckets = 10

abbrev pub grow_threshold : ℕ
grow_threshold = 4

-- A node joins a bucket behind its tail: as the tail's `next`, or as the head.
abbrev pub push_back : ℕ → Bucket → Bucket
push_back new b = record {
  head = elim b.tail [ none ↦ some new | some t ↦ b.head ];
  tail = some new;
}

abbrev pub bucket_at : List Bucket → ℕ → Bucket
bucket_at table i = elim (get_elem? table i) [ none ↦ empty_bucket | some b ↦ b ]

module _ {K V : Type 0} where
  abbrev pub with_next : Ptr → Node K V → Node K V
  with_next p node = record node { next = p }

  -- `heap[a]->next = p`
  unfoldable pub set_next : ℕ → Ptr → Heap K V → Heap K V
  set_next a p heap = elim (node_at heap a) [
    | none ↦ heap
    | some node ↦ set heap a (some (with_next p node))
  ]

  -- `delete`
  unfoldable pub delete : ℕ → Heap K V → Heap K V
  delete a heap = set heap a none

  unfoldable pub link : Ptr → ℕ → Heap K V → Heap K V
  unfolding set_next
  link none new heap = heap
  link (some old_tail) new heap = set_next old_tail (some new) heap

  unfoldable pub new_map : ℕ → LockFreeMap K V
  new_map num_buckets = record {
    heap = [];
    table = replicate num_buckets empty_bucket;
    num_elements = 0;
  }

  unfoldable pub size : LockFreeMap K V → ℕ
  size m = m.num_elements

  unfoldable pub clear_chain : ℕ → Ptr → Heap K V → Heap K V
  unfolding delete
  clear_chain zero current heap = heap
  clear_chain (suc fuel) none heap = heap
  clear_chain (suc fuel) (some a) heap = elim (node_at heap a) [
    | none ↦ heap
    | some node ↦ clear_chain fuel node.next (delete a heap)
  ]

  unfoldable pub clear_table : ℕ → List Bucket → Heap K V → Heap K V
  unfolding clear_chain
  clear_table fuel [] heap = heap
  clear_table fuel (b ∷ table) heap = clear_table fuel table (clear_chain fuel b.head heap)

  unfoldable pub clear : ℕ → LockFreeMap K V → LockFreeMap K V
  unfolding clear_table
  clear fuel m = record {
    heap = clear_table fuel m.table m.heap;
    table = replicate (length m.table) empty_bucket;
    num_elements = 0;
  }

  -- The keys and values that `traverse` hands to its function, in order.
  unfoldable pub traverse_chain : ℕ → Heap K V → Ptr → List (K × V)
  traverse_chain zero heap current = []
  traverse_chain (suc fuel) heap none = []
  traverse_chain (suc fuel) heap (some a) = elim (node_at heap a) [
    | none ↦ []
    | some node ↦ (node.key, node.value) ∷ traverse_chain fuel heap node.next
  ]

  unfoldable pub traverse_table : ℕ → Heap K V → List Bucket → List (K × V)
  unfolding traverse_chain
  traverse_table fuel heap [] = []
  traverse_table fuel heap (b ∷ table) =
      traverse_chain fuel heap b.head ++ traverse_table fuel heap table

  unfoldable pub traverse : ℕ → LockFreeMap K V → List (K × V)
  unfolding traverse_table
  traverse fuel m = traverse_table fuel m.heap m.table

unfoldable pub get_bucket_index : {K : Type 0} → (K → ℕ) → List Bucket → K → ℕ
get_bucket_index hasher table key = hasher key % length table

module _ {K V : Type 0} (hasher : K → ℕ) where
  -- The loop of `resize` over one chain: each node goes behind the tail of its new bucket.
  unfoldable pub move_chain : ℕ → Ptr → Heap K V → List Bucket → Heap K V × List Bucket
  unfolding get_bucket_index link set_next
  move_chain zero current heap new_table = (heap, new_table)
  move_chain (suc fuel) none heap new_table = (heap, new_table)
  move_chain (suc fuel) (some a) heap new_table = elim (node_at heap a) [
    | none ↦ (heap, new_table)
    | some node ↦
        let index = get_bucket_index hasher new_table node.key in
        let b = bucket_at new_table index in
        move_chain fuel node.next (set_next a none (link b.tail a heap))
          (set new_table index (push_back a b))
  ]

  unfoldable pub move_table : ℕ → List Bucket → Heap K V → List Bucket → Heap K V × List Bucket
  unfolding move_chain
  move_table fuel [] heap new_table = (heap, new_table)
  move_table fuel (b ∷ table) heap new_table =
      let (heap', table') = move_chain fuel b.head heap new_table in
      move_table fuel table heap' table'

  unfoldable pub resize : ℕ → LockFreeMap K V → LockFreeMap K V
  unfolding move_table
  resize fuel m =
      let new_table = replicate (length m.table * 2) empty_bucket in
      let (heap, table) = move_table fuel m.table m.heap new_table in
      record { heap = heap; table = table; num_elements = m.num_elements }

  -- `insert` behind the test for growth.
  unfoldable pub add_node : K → V → LockFreeMap K V → LockFreeMap K V
  unfolding get_bucket_index link
  add_node key value m =
      let index = get_bucket_index hasher m.table key in
      let b = bucket_at m.table index in
      let new = length m.heap in
      let node : Node K V = record { key = key; value = value; next = none } in
      record {
        heap = link b.tail new (m.heap ++ some node ∷ []);
        table = set m.table index (push_back new b);
        num_elements = suc m.num_elements;
      }

  unfoldable pub insert : ℕ → K → V → LockFreeMap K V → LockFreeMap K V
  unfolding resize add_node
  insert fuel key value m =
      if leb (grow_threshold * length m.table) m.num_elements
      then add_node key value (resize fuel m)
      else add_node key value m

module _ {K V : Type 0} ⦃e : Eq K⦄ where
  unfoldable pub find_from : ℕ → Heap K V → Ptr → K → Walk V
  find_from zero heap current key = lost
  find_from (suc fuel) heap none key = missing
  find_from (suc fuel) heap (some a) key = elim (node_at heap a) [
    | none ↦ lost
    | some node ↦
        let rest = find_from fuel heap node.next key in
        if node.key =? key then found node.value else rest
  ]

  unfoldable pub find : (K → ℕ) → ℕ → K → LockFreeMap K V → Walk V
  unfolding get_bucket_index find_from
  find hasher fuel key m =
      let b = bucket_at m.table (get_bucket_index hasher m.table key) in
      find_from fuel m.heap b.head key
