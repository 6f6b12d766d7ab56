-- ===== src/LockFreeMap/Chains.antt =====
-- The chains of `LockFreeMap` of src/common/collect_utils.cppm as lists of cells, and what writes to the heap leave of them.
use fast_db.Prelude.{
  ℕ, none, some, List, [], ◌∷◌, ◌++◌, length, get_elem?, get_elem?-bound, All, Option-cases, ◌≡◌,
  ◌≢◌, inl, inr, refl, sym, ◌∙◌, arith,
}
use mathlib.Core.Path.{subst}
use fast_db.LockFreeMap.{Ptr, Node, Heap, Bucket, with_next, push_back}

-- An address, and the key and the value of the node at it.
pub record Cell (K V : Type 0) : Type 0 where
  pub address : ℕ
  pub key : K
  pub value : V

-- The node of a cell.
abbrev pub node_of : {K V : Type 0} → Cell K V → Ptr → Node K V
node_of c p = record { key = c.key; value = c.value; next = p }

-- From the pointer on, the heap links the nodes of these cells, of which each is in the bucket `i`.
abbrev pub Segment : {K V : Type 0} → (K → ℕ) → Heap K V → ℕ → Ptr → List (Cell K V) → Type 0
Segment index heap i p [] = p ≡ none
Segment index heap i p (c ∷ cells) =
    (p ≡ some c.address)
    × ((next : Ptr) × ((get_elem? heap c.address ≡ some (some (node_of c next)))
          × ((index c.key ≡ i) × Segment index heap i next cells)))

-- No address stands twice.
abbrev pub Apart : {K V : Type 0} → List (Cell K V) → Type 0
Apart [] = Unit
Apart (c ∷ cells) = All (λ d. c.address ≢ d.address) cells × Apart cells

-- The pointer to the last cell.
abbrev pub last : {K V : Type 0} → List (Cell K V) → Ptr
last [] = none
last (c ∷ []) = some c.address
last (c ∷ (d ∷ cells)) = last (d ∷ cells)

-- A bucket with its chain.
abbrev pub Chain : {K V : Type 0} → (K → ℕ) → Heap K V → ℕ → Bucket → List (Cell K V) → Type 0
Chain index heap i b cells =
    Segment index heap i b.head cells × ((b.tail ≡ last cells) × Apart cells)

module _ {K V : Type 0} (index : K → ℕ) where
  -- A heap with the same nodes in the bucket `i`, but for one that is not in the chain, has the same chain there.
  pub Segment-frame :
      (heap heap' : Heap K V) (i x : ℕ) (p : Ptr) (cells : List (Cell K V))
      → ((a : ℕ) (node : Node K V)
          → get_elem? heap a ≡ some (some node)
          → index node.key ≡ i
          → a ≢ x
          → get_elem? heap' a ≡ some (some node))
      → All (λ (c : Cell K V). c.address ≢ x) cells
      → Segment index heap i p cells
      → Segment index heap' i p cells
  Segment-frame heap heap' i x p [] same away h = h
  Segment-frame heap heap' i x p (c ∷ cells) same (here, away)
        (at_c, (next, (node, (placed, rest)))) =
      (
        at_c,
        (
          next,
          (
            same c.address (node_of c next) node placed here,
            (placed, Segment-frame heap heap' i x next cells same away rest),
          ),
        ),
      )

  pub last-All :
      (P : ℕ → Type 0) (cells : List (Cell K V)) (t : ℕ)
      → All (λ (c : Cell K V). P c.address) cells
      → last cells ≡ some t
      → P t
  last-All P [] t all h = cc
  last-All P (c ∷ []) t (here, all) h = subst P (ground (arith, h)) here
  last-All P (c ∷ (d ∷ cells)) t (here, all) h = last-All P (d ∷ cells) t all h

  -- A new node behind the tail, in a heap that differs only there.
  pub Segment-snoc :
      (heap heap' : Heap K V) (i t : ℕ) (new : Cell K V) (p : Ptr) (cells : List (Cell K V))
      → ((a : ℕ) (node : Node K V)
          → get_elem? heap a ≡ some (some node)
          → a ≢ t
          → a ≢ new.address
          → get_elem? heap' a ≡ some (some node))
      → ((node : Node K V)
          → get_elem? heap t ≡ some (some node)
          → get_elem? heap' t ≡ some (some (with_next (some new.address) node)))
      → get_elem? heap' new.address ≡ some (some (node_of new none))
      → index new.key ≡ i
      → last cells ≡ some t
      → Apart cells
      → All (λ c. c.address ≢ new.address) cells
      → Segment index heap i p cells
      → Segment index heap' i p (cells ++ new ∷ [])
  Segment-snoc heap heap' i t new p [] other tail fresh placed ends apart old h = cc
  Segment-snoc heap heap' i t new p (c ∷ []) other tail fresh placed ends apart old
        (at_c, (next, (node, (here, rest)))) =
      let same : c.address ≡ t = ground (arith, ends) in
      (
        at_c,
        (
          some new.address,
          (
            rw same (tail (node_of c next) (rw same at node)),
            (here, (refl, (none, (fresh, (placed, refl))))),
          ),
        ),
      )
  Segment-snoc heap heap' i t new p (c ∷ (d ∷ cells)) other tail fresh placed ends (first, apart)
        (before, old) (at_c, (next, (node, (here, rest)))) =
      let away : c.address ≢ t = last-All (λ a. c.address ≢ a) (d ∷ cells) t first ends in
      (
        at_c,
        (
          next,
          (
            other c.address (node_of c next) node away before,
            (
              here,
              Segment-snoc heap heap' i t new next (d ∷ cells) other tail fresh placed ends apart
                  old rest,
            ),
          ),
        ),
      )

  pub last-snoc :
      (cells : List (Cell K V)) (new : Cell K V) → last (cells ++ new ∷ []) ≡ some new.address
  last-snoc [] new = refl
  last-snoc (c ∷ []) new = refl
  last-snoc (c ∷ (d ∷ cells)) new = last-snoc (d ∷ cells) new

  pub All-snoc :
      (P : Cell K V → Type 0) (cells : List (Cell K V)) (new : Cell K V)
      → All P cells
      → P new
      → All P (cells ++ new ∷ [])
  All-snoc P [] new all h = (h, tt)
  All-snoc P (c ∷ cells) new (here, all) h = (here, All-snoc P cells new all h)

  pub Apart-snoc :
      (cells : List (Cell K V)) (new : Cell K V)
      → All (λ c. c.address ≢ new.address) cells
      → Apart cells
      → Apart (cells ++ new ∷ [])
  Apart-snoc [] new all h = (tt, tt)
  Apart-snoc (c ∷ cells) new (here, all) (first, h) =
      (All-snoc (λ d. c.address ≢ d.address) cells new first here, Apart-snoc cells new all h)

  last-none : (cells : List (Cell K V)) → last cells ≡ none → cells ≡ []
  last-none [] h = refl
  last-none (c ∷ []) h = cc
  last-none (c ∷ (d ∷ cells)) h = absurd (ground (arith, last-none (d ∷ cells) h))

  -- A node that joins a bucket behind its tail joins its chain, in a heap that differs only at this node and the tail.
  pub push_back-Chain :
      (heap heap' : Heap K V) (i : ℕ) (b : Bucket) (new : Cell K V) (cells : List (Cell K V))
      → ((a : ℕ) (node : Node K V)
          → get_elem? heap a ≡ some (some node)
          → b.tail ≢ some a
          → a ≢ new.address
          → get_elem? heap' a ≡ some (some node))
      → ((t : ℕ) (node : Node K V)
          → b.tail ≡ some t
          → get_elem? heap t ≡ some (some node)
          → get_elem? heap' t ≡ some (some (with_next (some new.address) node)))
      → get_elem? heap' new.address ≡ some (some (node_of new none))
      → index new.key ≡ i
      → All (λ c. c.address ≢ new.address) cells
      → Chain index heap i b cells
      → Chain index heap' i (push_back new.address b) (cells ++ new ∷ [])
  push_back-Chain heap heap' i b new cells other tail fresh placed old (segment, (ends, apart)) =
      elim (Option-cases b.tail) [
        | inl e ↦
            let nothing : cells ≡ [] = last-none cells (sym ends ∙ e) in
            rw (e, nothing) ((refl, (none, (fresh, (placed, refl)))), (refl, (tt, tt)))
        | inr (t, e) ↦ rw e (
          Segment-snoc heap heap' i t new b.head cells
              (λ a node h away apart_new.
                other a node h (λ same. away (ground (arith, same, e))) apart_new)
              (λ node h. tail t node e h) fresh placed (sym ends ∙ e) apart old segment,
          (sym (last-snoc cells new), Apart-snoc cells new old apart),
        )
      ]

  -- The tail's node is one of the heap, and in the same bucket.
  pub last-node :
      (heap : Heap K V) (i t : ℕ) (p : Ptr) (cells : List (Cell K V))
      → Segment index heap i p cells
      → last cells ≡ some t
      → (node : Node K V) × ((get_elem? heap t ≡ some (some node)) × (index node.key ≡ i))
  last-node heap i t p [] h ends = cc
  last-node heap i t p (c ∷ []) (at_c, (next, (node, (placed, rest)))) ends =
      let same : c.address ≡ t = ground (arith, ends) in (node_of c next, (rw same at node, placed))
  last-node heap i t p (c ∷ (d ∷ cells)) (at_c, (next, (node, (placed, rest)))) ends =
      last-node heap i t next (d ∷ cells) rest ends

  -- Every cell's address is one of the heap.
  pub Segment-bound :
      (heap : Heap K V) (i : ℕ) (p : Ptr) (cells : List (Cell K V))
      → Segment index heap i p cells
      → All (λ (c : Cell K V). c.address ≢ length heap) cells
  Segment-bound heap i p [] h = tt
  Segment-bound heap i p (c ∷ cells) (at_c, (next, (node, (placed, rest)))) = (
    (λ e. absurd (omega (arith, e, get_elem?-bound heap c.address _ node))),
    Segment-bound heap i next cells rest,
  )
