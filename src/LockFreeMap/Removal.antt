-- ===== src/LockFreeMap/Removal.antt =====
-- `remove` of `LockFreeMap` in src/common/collect_utils.cppm.
use fast_db.Prelude.{
  ℕ, zero, suc, Bool, true, false, Option, none, some, if◌then◌else◌, ◌==◌, set, Eq, ◌=?◌,
}
use fast_db.Prelude.Size.{size_sub}
use fast_db.LockFreeMap.{
  Ptr, Heap, Bucket, LockFreeMap, Walk, missing, found, lost, node_at, set_next, delete, bucket_at,
  get_bucket_index,
}

abbrev pub without : Ptr → ℕ → Ptr → Bucket → Bucket
without prev a next b = record {
  head = elim prev [ none ↦ next | some p ↦ b.head ];
  tail = elim b.tail [ none ↦ none | some t ↦ if a == t then prev else some t ];
}

module _ {K V : Type 0} ⦃e : Eq K⦄ where
  -- The map without a node: its predecessor, if any, is linked to its successor.
  unfoldable pub unlink : Ptr → ℕ → Ptr → Heap K V → Heap K V
  unfolding set_next delete
  unlink none a next heap = delete a heap
  unlink (some prev) a next heap = delete a (set_next prev next heap)

  -- The loop of `remove`: the node to delete with its predecessor, or none.
  unfoldable pub search_from : ℕ → Heap K V → Ptr → Ptr → K → Walk (Ptr × ℕ × Ptr)
  search_from zero heap prev current key = lost
  search_from (suc fuel) heap prev none key = missing
  search_from (suc fuel) heap prev (some a) key = elim (node_at heap a) [
    | none ↦ lost
    | some node ↦
        let rest = search_from fuel heap (some a) node.next key in
        if node.key =? key then found (prev, a, node.next) else rest
  ]

  -- `none` is undefined behaviour.
  unfoldable pub remove_found :
      ℕ → Walk (Ptr × ℕ × Ptr) → LockFreeMap K V → Option (LockFreeMap K V × Bool)
  unfolding unlink
  remove_found index missing m = some (m, false)
  remove_found index lost m = none
  remove_found index (found (prev, a, next)) m = some (
    record {
      heap = unlink prev a next m.heap;
      table = set m.table index (without prev a next (bucket_at m.table index));
      num_elements = size_sub m.num_elements 1;
    },
    true,
  )

  unfoldable pub remove : (K → ℕ) → ℕ → K → LockFreeMap K V → Option (LockFreeMap K V × Bool)
  unfolding get_bucket_index search_from remove_found
  remove hasher fuel key m =
      let index = get_bucket_index hasher m.table key in
      remove_found index (search_from fuel m.heap none (bucket_at m.table index).head key) m
