-- ===== src/LockFreeMap/Lookup.antt =====
-- What `find` of `LockFreeMap` in src/common/collect_utils.cppm returns: the value of the first cell with the key.
use fast_db.Prelude.{
  ℕ, zero, suc, ◌<◌, ◌%◌, Option, none, some, List, [], ◌∷◌, ◌++◌, if◌then◌else◌, ◌==◌, ==_iff,
  length, Eq, ◌=?◌, Bool-cases, ◌≡◌, inl, inr, refl, sym, ap, arith,
}
use fast_db.LockFreeMap.{
  Ptr, Heap, LockFreeMap, bucket_at, get_bucket_index, Walk, missing, found, find_from, find,
}
use fast_db.LockFreeMap.Insertion.{node_at-get_elem?}
use fast_db.LockFreeMap.Chains.{Cell, node_of, Segment}
use fast_db.LockFreeMap.Insertion.{Holds, with_cell, bucket_at-get_elem?, index-bound}

abbrev pub or_else : {V : Type 0} → Option V → Option V → Option V
or_else none p = p
or_else (some v) p = some v

abbrev pub walk_of : {V : Type 0} → Option V → Walk V
walk_of none = missing
walk_of (some v) = found v

pub or_else-none : {V : Type 0} (o : Option V) → or_else o none ≡ o
or_else-none none = refl
or_else-none (some v) = refl

module _ {K V : Type 0} ⦃e : Eq K⦄ where
  -- The value of the first cell with the key.
  unfoldable pub first : K → List (Cell K V) → Option V
  first key [] = none
  first key (c ∷ cells) = let rest = first key cells in if c.key =? key then some c.value else rest

  find_from-Segment :
      (index : K → ℕ) (heap : Heap K V) (i fuel : ℕ) (p : Ptr) (cells : List (Cell K V)) (key : K)
      → Segment index heap i p cells
      → length cells < fuel
      → find_from fuel heap p key ≡ walk_of (first key cells)
  unfolding find_from first
  find_from-Segment index heap i zero p cells key h enough = absurd (omega arith)
  find_from-Segment index heap i (suc fuel) p [] key h enough = rw h refl
  find_from-Segment index heap i (suc fuel) p (c ∷ cells) key (at_c, (next, (node, (placed, rest))))
        enough =
      let at_node = node_at-get_elem? heap c.address (node_of c next) node in
      let more = find_from-Segment index heap i fuel next cells key rest (omega arith) in
      elim (Bool-cases (c.key =? key)) [
        | inl same ↦ rw (at_c, at_node, same, find_from) refl
        | inr other ↦ rw (at_c, at_node, other, find_from) more
      ]

  -- With more fuel than the chain has nodes, `find` walks along it to its end or to the first node with the key.
  pub find-first :
      (hasher : K → ℕ) (m : LockFreeMap K V) (chains : ℕ → List (Cell K V)) (key : K) (fuel : ℕ)
      → Holds hasher m chains
      → length (chains (hasher key % length m.table)) < fuel
      → find hasher fuel key m ≡ walk_of (first key (chains (hasher key % length m.table)))
  unfolding find get_bucket_index
  find-first hasher m chains key fuel valid enough =
      let home : ℕ = hasher key % length m.table in
      let there = bucket_at-get_elem? m.table home (index-bound hasher m chains valid key) in
      let (segment, _) = valid.1.0 home (bucket_at m.table home) there in
      find_from-Segment (λ k. hasher k % length m.table) m.heap home fuel _ (chains home) key
        segment enough

  first-append :
      (key : K) (cells more : List (Cell K V))
      → first key (cells ++ more) ≡ or_else (first key cells) (first key more)
  unfolding first
  first-append key [] more = refl
  first-append key (c ∷ cells) more = elim (Bool-cases (c.key =? key)) [
    | inl same ↦ rw same refl
    | inr other ↦ rw other (first-append key cells more)
  ]

  -- A cell behind the chain of its key only counts for its key, and only if that had no value.
  pub first-with_cell :
      (index : K → ℕ) (new : Cell K V) (chains : ℕ → List (Cell K V)) (key : K)
      → first key (with_cell (index new.key) new chains (index key))
        ≡ or_else (first key (chains (index key))) (if new.key =? key then some new.value else none)
  unfolding first
  first-with_cell index new chains key = elim (Bool-cases (index new.key == index key)) [
    | inl here ↦ rw here (first-append key (chains (index key)) (new ∷ []))
    | inr there ↦ elim (Bool-cases (new.key =? key)) [
      | inl same ↦
          let equal : new.key ≡ key = (e.beq_iff new.key key).0 same in
          absurd (ground (arith, ap index equal, ==_iff (index new.key) (index key), there))
      | inr other ↦ rw (there, other) (sym (or_else-none (first key (chains (index key)))))
    ]
  ]
