-- ===== src/LockFreeMap/Growth.antt =====
-- What `resize` of `LockFreeMap` in src/common/collect_utils.cppm does: the chains of the new table.
use fast_db.Prelude.{
  ℕ, zero, suc, ◌<◌, ◌%◌, Option, none, some, List, [], ◌∷◌, if◌then◌else◌, length, length-set,
  get_elem?, set, All, Eq, ◌=?◌, Bool-cases, ◌≡◌, ◌≢◌, inl, inr, refl, sym, ap, ◌∙◌, arith,
}
use native.Mathlib.Nat.{mod-lt}
use fast_db.LockFreeMap.{
  Ptr, Node, Heap, Bucket, node_at, link, push_back, bucket_at, get_bucket_index, move_chain,
}
use fast_db.LockFreeMap.Chains.{Cell, node_of, Segment, Apart}
use fast_db.LockFreeMap.Insertion.{
  TableHolds, Fresh, with_cell, node_at-get_elem?, set_next_self, set_next_ne, link_other,
  link_tail, bucket_at-get_elem?, push_back-TableHolds,
}
use fast_db.LockFreeMap.Lookup.{first, or_else, or_else-none, first-with_cell}
use fast_db.LockFreeMap.Moves.{
  Segment-kept, moved_heap, moved_heap-other, tail-Fresh, Fresh-with_cell,
}

pub or_else_assoc :
    {V : Type 0} (o p q : Option V) → or_else (or_else o p) q ≡ or_else o (or_else p q)
or_else_assoc none p q = refl
or_else_assoc (some v) p q = refl

-- The cells of a chain have joined the chains of the new table, in order, and nothing else has changed.
abbrev pub Moved :
    {K V : Type 0} ⦃e : Eq K⦄ (index : K → ℕ) (heap : Heap K V) (table : List Bucket)
    (chains : ℕ → List (Cell K V)) (cells : List (Cell K V))
    → Heap K V × List Bucket
    → Type 0
Moved {K} {V} index heap table chains cells r =
    (chains' : ℕ → List (Cell K V)) × ((length r.1 ≡ length table)
      × (TableHolds index r.0 r.1 chains'
          × (((q : K)
                → first q (chains' (index q))
                  ≡ or_else (first q (chains (index q))) (first q cells))
              × ((a : ℕ)
                  → Fresh chains a
                  → All (λ (c : Cell K V). c.address ≢ a) cells
                  → Fresh chains' a × (get_elem? r.0 a ≡ get_elem? heap a)))))

-- The bucket of a key in a table of `n` buckets.
abbrev pub place : {K : Type 0} → (K → ℕ) → ℕ → K → ℕ
place hasher n key = hasher key % n

-- One round of `move_chain`, with the number of the new bucket.
abbrev pub move_to :
    {K V : Type 0}
    → (K → ℕ)
    → ℕ
    → ℕ
    → Node K V
    → Heap K V
    → List Bucket
    → ℕ
    → Heap K V × List Bucket
move_to hasher fuel a node heap table j =
    move_chain hasher fuel node.next (moved_heap a (bucket_at table j).tail heap)
      (set table j (push_back a (bucket_at table j)))

move_chain-cons :
    {K V : Type 0} (hasher : K → ℕ) (fuel a : ℕ) (node : Node K V) (heap : Heap K V)
    (table : List Bucket)
    → node_at heap a ≡ some node
    → move_chain hasher (suc fuel) (some a) heap table
      ≡ move_to hasher fuel a node heap table (get_bucket_index hasher table node.key)
unfolding move_chain
move_chain-cons hasher fuel a node heap table h = rw (h, move_chain) refl

get_bucket_index-place :
    {K : Type 0} (hasher : K → ℕ) (table : List Bucket) (key : K) (n : ℕ)
    → length table ≡ n
    → get_bucket_index hasher table key ≡ place hasher n key
unfolding get_bucket_index
get_bucket_index-place hasher table key n size = ap (λ (k : ℕ). hasher key % k) size

module _ {K V : Type 0} ⦃e : Eq K⦄ (hasher : K → ℕ) (n : ℕ) (positive : 0 < n) where
  first-moved :
      (q : K) (c : Cell K V) (cells : List (Cell K V)) (o : Option V)
      → or_else (or_else o (if c.key =? q then some c.value else none)) (first q cells)
        ≡ or_else o (first q (c ∷ cells))
  unfolding first
  first-moved q c cells o = elim (Bool-cases (c.key =? q)) [
    | inl here ↦ rw here (or_else_assoc o (some c.value) (first q cells))
    | inr there ↦ rw there (or_else_assoc o none (first q cells))
  ]

  module _ (heap : Heap K V) (table : List Bucket) (chains : ℕ → List (Cell K V)) (c : Cell K V)
      (next : Ptr) (b : Bucket) (valid : TableHolds (place hasher n) heap table chains)
      (there : get_elem? table (place hasher n c.key) ≡ some b)
      (at_c : get_elem? heap c.address ≡ some (some (node_of c next)))
      (fresh : Fresh chains c.address) where
    not_tail : b.tail ≢ some c.address
    not_tail =
        tail-Fresh (place hasher n) heap table chains (place hasher n c.key) c.address b valid there
          fresh

    move_one :
        TableHolds
          (place hasher n)
          (moved_heap c.address b.tail heap)
          (set table (place hasher n c.key) (push_back c.address b))
          (with_cell (place hasher n c.key) c chains)
    move_one =
        push_back-TableHolds (place hasher n) heap (moved_heap c.address b.tail heap) table chains c
          b there valid
          (λ a node h away apart.
            moved_heap-other c.address a b.tail heap away (λ same. apart (sym same)) ∙ h)
          (λ t node ends h.
            set_next_ne (link b.tail c.address heap) c.address t none
              (λ same. not_tail (ends ∙ ap some (sym same)))
            ∙ link_tail b.tail c.address t heap node ends h)
          (set_next_self (link b.tail c.address heap) c.address none (node_of c next)
            (link_other b.tail c.address c.address heap not_tail ∙ at_c))
          fresh

    kept-All :
        (cells : List (Cell K V))
        → All (λ (d : Cell K V). c.address ≢ d.address) cells
        → All (λ (d : Cell K V). Fresh chains d.address) cells
        → All
            (λ (d : Cell K V).
              get_elem? (moved_heap c.address b.tail heap) d.address ≡ get_elem? heap d.address)
            cells
          × All
              (λ (d : Cell K V). Fresh (with_cell (place hasher n c.key) c chains) d.address)
              cells
    kept-All [] apart away = (tt, tt)
    kept-All (d ∷ cells) (first_apart, apart) (first_away, away) =
        let (kept, still) = kept-All cells apart away in
        (
          (
            moved_heap-other c.address d.address b.tail heap
                (tail-Fresh (place hasher n) heap table chains (place hasher n c.key) d.address b
                  valid there first_away)
                first_apart,
            kept,
          ),
          (
            Fresh-with_cell (place hasher n) (place hasher n c.key) c chains d.address first_away
                first_apart,
            still,
          ),
        )

  pub move_chain-Moved :
      (old : K → ℕ) (i fuel : ℕ) (p : Ptr) (cells : List (Cell K V)) (heap : Heap K V)
      (table : List Bucket) (chains : ℕ → List (Cell K V))
      → length table ≡ n
      → TableHolds (place hasher n) heap table chains
      → Segment old heap i p cells
      → Apart cells
      → All (λ (c : Cell K V). Fresh chains c.address) cells
      → length cells < fuel
      → Moved (place hasher n) heap table chains cells (move_chain hasher fuel p heap table)
  unfolding move_chain first
  move_chain-Moved old i zero p cells heap table chains size valid h apart away enough =
      absurd (omega arith)
  move_chain-Moved old i (suc fuel) p [] heap table chains size valid h apart away enough =
      rw h
        (chains, (refl, (valid, ((λ q. sym (or_else-none _)), (λ a fresh others. (fresh, refl))))))
  move_chain-Moved old i (suc fuel) p (c ∷ cells) heap table chains size valid
        (at_p, (next, (at_c, (placed, rest)))) (first_apart, apart) (fresh, away) enough =
      let home : ℕ = place hasher n c.key in
      let b : Bucket = bucket_at table home in
      let heap1 : Heap K V = moved_heap c.address b.tail heap in
      let table1 : List Bucket = set table home (push_back c.address b) in
      let chains1 : ℕ → List (Cell K V) = with_cell home c chains in
      let bound : home < length table = omega (arith, size, mod-lt (hasher c.key) positive) in
      let there = bucket_at-get_elem? table home bound in
      let at_node = node_at-get_elem? heap c.address (node_of c next) at_c in
      let (kept, still) =
        kept-All heap table chains c next b valid there at_c fresh cells first_apart away in
      let round =
        move_chain-cons hasher fuel c.address (node_of c next) heap table at_node
        ∙ ap (move_to hasher fuel c.address (node_of c next) heap table)
            (get_bucket_index-place hasher table c.key n size) in
      let (chains', (long, (valid', (same, others)))) =
        move_chain-Moved old i fuel next cells heap1 table1 chains1 (length-set table home _ ∙ size)
          (move_one heap table chains c next b valid there at_c fresh)
          (Segment-kept old heap heap1 i next cells kept rest) apart still (omega arith) in
      rw (at_p, round)
        (
          chains',
          (
            long ∙ length-set table home _,
            (
              valid',
              (
                (λ q.
                    same q
                    ∙ (ap (λ (o : Option V). or_else o (first q cells))
                          (first-with_cell (place hasher n) c chains q)
                        ∙ first-moved q c cells (first q (chains (place hasher n q))))),
                (λ a fresh_a (apart_a, others_a).
                    let (f, g) =
                      others a (Fresh-with_cell (place hasher n) home c chains a fresh_a apart_a)
                        others_a in
                    (
                      f,
                      g
                          ∙ moved_heap-other c.address a b.tail heap
                              (tail-Fresh (place hasher n) heap table chains home a b valid there
                                fresh_a)
                              apart_a,
                    )),
              ),
            ),
          ),
        )
