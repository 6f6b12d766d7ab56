-- ===== src/LockFreeMap/Moves.antt =====
-- What the move of one node does in `resize` of `LockFreeMap` in src/common/collect_utils.cppm does.
use fast_db.Prelude.{
  ℕ, none, some, List, [], ◌∷◌, ◌==◌, get_elem?, All, Bool-cases, ◌≡◌, ◌≢◌, inl, inr, refl, sym,
  ◌∙◌,
}
use fast_db.LockFreeMap.{Ptr, Heap, Bucket, set_next, link}
use fast_db.LockFreeMap.Chains.{Cell, Segment, last-All, All-snoc}
use fast_db.LockFreeMap.Insertion.{TableHolds, Fresh, with_cell, set_next_ne, link_other}

module _ {K V : Type 0} where
  -- A chain is as it was in a heap that has the same at its addresses.
  pub Segment-kept :
      (index : K → ℕ) (heap heap' : Heap K V) (i : ℕ) (p : Ptr) (cells : List (Cell K V))
      → All (λ (c : Cell K V). get_elem? heap' c.address ≡ get_elem? heap c.address) cells
      → Segment index heap i p cells
      → Segment index heap' i p cells
  Segment-kept index heap heap' i p [] same h = h
  Segment-kept index heap heap' i p (c ∷ cells) (here, same)
        (at_c, (next, (node, (placed, rest)))) =
      (at_c, (next, (here ∙ node, (placed, Segment-kept index heap heap' i next cells same rest))))

  -- The heap after one node has moved.
  abbrev pub moved_heap : ℕ → Ptr → Heap K V → Heap K V
  moved_heap a tail heap = set_next a none (link tail a heap)

  pub moved_heap-other :
      (a b : ℕ) (tail : Ptr) (heap : Heap K V)
      → tail ≢ some b
      → a ≢ b
      → get_elem? (moved_heap a tail heap) b ≡ get_elem? heap b
  moved_heap-other a b tail heap away apart =
      set_next_ne (link tail a heap) a b none apart ∙ link_other tail a b heap away

  -- No tail of the new table points to a node that is in none of its chains.
  pub tail-Fresh :
      (index : K → ℕ) (heap : Heap K V) (table : List Bucket) (chains : ℕ → List (Cell K V))
      (j a : ℕ) (b : Bucket)
      → TableHolds index heap table chains
      → get_elem? table j ≡ some b
      → Fresh chains a
      → b.tail ≢ some a
  tail-Fresh index heap table chains j a b valid there fresh e =
      let (_, (ends, _)) = valid.0 j b there in
      last-All index (λ x. x ≢ a) (chains j) a (fresh j) (sym ends ∙ e) refl

  pub Fresh-with_cell :
      (index : K → ℕ) (i : ℕ) (new : Cell K V) (chains : ℕ → List (Cell K V)) (a : ℕ)
      → Fresh chains a
      → new.address ≢ a
      → Fresh (with_cell i new chains) a
  Fresh-with_cell index i new chains a fresh apart j = elim (Bool-cases (i == j)) [
    | inl e ↦ rw e (All-snoc index (λ (c : Cell K V). c.address ≢ a) (chains j) new (fresh j) apart)
    | inr e ↦ rw e (fresh j)
  ]
