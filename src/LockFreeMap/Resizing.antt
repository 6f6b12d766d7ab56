-- ===== src/LockFreeMap/Resizing.antt =====
-- What `resize` and `insert` of `LockFreeMap` in src/common/collect_utils.cppm leave of the values.
use fast_db.Prelude.{
  ℕ, zero, suc, ◌+◌, ◌<◌, Option, none, some, List, [], ◌∷◌, length, get_elem?, All, Eq, ◌=?◌,
  Bool-cases, ◌≡◌, ◌≢◌, inl, inr, refl, sym, ap, ◌∙◌, arith,
}
use fast_db.LockFreeMap.{Ptr, Node, Heap, Bucket, move_chain, move_table}
use fast_db.LockFreeMap.Chains.{Cell, node_of, Segment, Chain}
use fast_db.LockFreeMap.Insertion.{TableHolds, Fresh}
use fast_db.LockFreeMap.Lookup.{first, or_else, or_else-none}
use fast_db.LockFreeMap.Moves.{Segment-kept}
use fast_db.LockFreeMap.Growth.{or_else_assoc, place, move_chain-Moved}

module _ {K V : Type 0} where
  -- Chains of two buckets have no address in common.
  not_in :
      (old : K → ℕ) (heap : Heap K V) (i : ℕ) (p : Ptr) (cells : List (Cell K V)) (a : ℕ)
      (node : Node K V)
      → Segment old heap i p cells
      → get_elem? heap a ≡ some (some node)
      → old node.key ≢ i
      → All (λ (c : Cell K V). c.address ≢ a) cells
  not_in old heap i p [] a node h at_a other = tt
  not_in old heap i p (c ∷ cells) a node (at_p, (next, (at_c, (placed, rest)))) at_a other = (
    (λ e.
        let same : node_of c next ≡ node = ground (arith, rw e at at_c, at_a) in
        other (sym (ap (λ (x : Node K V). old x.key) same) ∙ placed)),
    not_in old heap i next cells a node rest at_a other,
  )

  Segment-other :
      (old : K → ℕ) (heap : Heap K V) (i j : ℕ) (p q : Ptr) (cells others : List (Cell K V))
      → i ≢ j
      → Segment old heap i p cells
      → Segment old heap j q others
      → All (λ (d : Cell K V). All (λ (c : Cell K V). c.address ≢ d.address) cells) others
  Segment-other old heap i j p q cells [] apart h k = tt
  Segment-other old heap i j p q cells (d ∷ others) apart h (at_q, (next, (at_d, (placed, rest)))) =
      (
        not_in old heap i p cells d.address (node_of d next) h at_d (λ e. apart (sym e ∙ placed)),
        Segment-other old heap i j p next cells others apart h rest,
      )

  -- The chains of the buckets from number `off` on.
  abbrev pub Sound : (K → ℕ) → Heap K V → ℕ → List Bucket → (ℕ → List (Cell K V)) → Type 0
  Sound old heap off table olds =
      (k : ℕ) (b : Bucket) → get_elem? table k ≡ some b → Chain old heap (off + k) b (olds k)

  abbrev pub AllFresh : List Bucket → (ℕ → List (Cell K V)) → (ℕ → List (Cell K V)) → Type 0
  AllFresh table olds chains =
      (k : ℕ) (b : Bucket)
      → get_elem? table k ≡ some b
      → All (λ (c : Cell K V). Fresh chains c.address) (olds k)

module _ {K V : Type 0} ⦃e : Eq K⦄ where
  -- The first value in the chains of a table, one after the other.
  unfoldable pub joined : K → List Bucket → (ℕ → List (Cell K V)) → Option V
  joined q [] olds = none
  joined q (b ∷ table) olds = or_else (first q (olds 0)) (joined q table (λ k. olds (suc k)))

  first-misplaced :
      (old : K → ℕ) (heap : Heap K V) (i : ℕ) (p : Ptr) (cells : List (Cell K V)) (q : K)
      → Segment old heap i p cells
      → old q ≢ i
      → first q cells ≡ none
  unfolding first
  first-misplaced old heap i p [] q h other = refl
  first-misplaced old heap i p (c ∷ cells) q (at_p, (next, (at_c, (placed, rest)))) other =
      elim (Bool-cases (c.key =? q)) [
        | inl same ↦ absurd (other (sym (ap old ((e.beq_iff c.key q).0 same)) ∙ placed))
        | inr different ↦ rw different (first-misplaced old heap i next cells q rest other)
      ]

  Sound-next :
      (old : K → ℕ) (heap : Heap K V) (off : ℕ) (b : Bucket) (table : List Bucket)
      (olds : ℕ → List (Cell K V))
      → Sound old heap off (b ∷ table) olds
      → Sound old heap (suc off) table (λ k. olds (suc k))
  Sound-next old heap off b table olds sound k d h =
      let number : off + suc k ≡ suc off + k = omega arith in rw number at (sound (suc k) d h)

  -- Only the chain of the key's own bucket has a value for it.
  pub joined-first :
      (old : K → ℕ) (heap : Heap K V) (off k : ℕ) (table : List Bucket) (olds : ℕ → List (Cell K V))
      (q : K)
      → Sound old heap off table olds
      → (old q ≡ off + k → k < length table → joined q table olds ≡ first q (olds k))
        × (old q < off → joined q table olds ≡ none)
  unfolding joined
  joined-first old heap off k [] olds q sound = ((λ here h. absurd (omega arith)), (λ before. refl))
  joined-first old heap off zero (b ∷ table) olds q sound =
      let (_, after) =
        joined-first old heap (suc off) 0 table (λ k. olds (suc k)) q
          (Sound-next old heap off b table olds sound) in
      (
        (λ here h. rw (after (omega (arith, here))) (or_else-none (first q (olds 0)))),
        (λ before.
            let nothing =
              first-misplaced old heap (off + 0) b.head (olds 0) q (sound 0 b refl).0
                (λ same. omega (arith, same, before)) in
            rw (nothing, after (omega (arith, before))) refl),
      )
  joined-first old heap off (suc k) (b ∷ table) olds q sound =
      let (inside, after) =
        joined-first old heap (suc off) k table (λ k. olds (suc k)) q
          (Sound-next old heap off b table olds sound) in
      (
        (λ here h.
            let nothing =
              first-misplaced old heap (off + 0) b.head (olds 0) q (sound 0 b refl).0
                (λ same. omega (arith, same, here)) in
            rw (nothing, inside (omega (arith, here)) (omega (arith, h))) refl),
        (λ before.
            let nothing =
              first-misplaced old heap (off + 0) b.head (olds 0) q (sound 0 b refl).0
                (λ same. omega (arith, same, before)) in
            rw (nothing, after (omega (arith, before))) refl),
      )

  kept_cells :
      (chains chains' : ℕ → List (Cell K V)) (heap heap' : Heap K V) (cells ds : List (Cell K V))
      → ((a : ℕ)
          → Fresh chains a
          → All (λ (c : Cell K V). c.address ≢ a) cells
          → Fresh chains' a × (get_elem? heap' a ≡ get_elem? heap a))
      → All (λ (d : Cell K V). Fresh chains d.address) ds
      → All (λ (d : Cell K V). All (λ (c : Cell K V). c.address ≢ d.address) cells) ds
      → All (λ (d : Cell K V). get_elem? heap' d.address ≡ get_elem? heap d.address) ds
        × All (λ (d : Cell K V). Fresh chains' d.address) ds
  kept_cells chains chains' heap heap' cells [] others fresh apart = (tt, tt)
  kept_cells chains chains' heap heap' cells (d ∷ ds) others (here, fresh) (away, apart) =
      let (f, g) = others d.address here away in
      let (kept, still) = kept_cells chains chains' heap heap' cells ds others fresh apart in
      ((g, kept), (f, still))

  -- The chains of a whole table have joined those of the new table.
  abbrev pub AllMoved :
      (K → ℕ)
      → ℕ
      → List Bucket
      → (ℕ → List (Cell K V))
      → (ℕ → List (Cell K V))
      → Heap K V × List Bucket
      → Type 0
  AllMoved hasher n table olds chains r =
      (chains' : ℕ → List (Cell K V)) × ((length r.1 ≡ n)
        × (TableHolds (place hasher n) r.0 r.1 chains'
            × ((q : K)
                → first q (chains' (place hasher n q))
                  ≡ or_else (first q (chains (place hasher n q))) (joined q table olds))))

  pub move_table-AllMoved :
      (hasher old : K → ℕ) (n : ℕ)
      → 0 < n
      → (fuel off : ℕ) (table : List Bucket) (olds : ℕ → List (Cell K V)) (heap : Heap K V)
        (new_table : List Bucket) (chains : ℕ → List (Cell K V))
      → ((k : ℕ) → length (olds k) < fuel)
      → length new_table ≡ n
      → TableHolds (place hasher n) heap new_table chains
      → Sound old heap off table olds
      → AllFresh table olds chains
      → AllMoved hasher n table olds chains (move_table hasher fuel table heap new_table)
  unfolding move_table joined
  move_table-AllMoved hasher old n positive fuel off [] olds heap new_table chains enough size valid
        sound fresh =
      (chains, (size, (valid, (λ q. sym (or_else-none _)))))
  move_table-AllMoved hasher old n positive fuel off (b ∷ table) olds heap new_table chains enough
        size valid sound fresh =
      let (segment, (_, apart)) = sound 0 b refl in
      let r : Heap K V × List Bucket = move_chain hasher fuel b.head heap new_table in
      let (chains1, (long, (valid1, (same, others)))) =
        move_chain-Moved hasher n positive old (off + 0) fuel b.head (olds 0) heap new_table chains
          size valid segment apart (fresh 0 b refl) (enough 0) in
      let (chains2, (size2, (valid2, same2))) =
        move_table-AllMoved hasher old n positive fuel (suc off) table (λ k. olds (suc k)) r.0 r.1
          chains1 (λ k. enough (suc k)) (long ∙ size) valid1
          (λ k d h.
            let (segment_k, rest) = Sound-next old heap off b table olds sound k d h in
            let (kept, _) =
              kept_cells chains chains1 heap r.0 (olds 0) (olds (suc k)) others (fresh (suc k) d h)
                (Segment-other old heap (off + 0) (suc off + k) b.head d.head (olds 0)
                  (olds (suc k)) (λ e. omega (arith, e)) segment segment_k) in
            (Segment-kept old heap r.0 (suc off + k) d.head (olds (suc k)) kept segment_k, rest))
          (λ k d h.
            let (segment_k, rest) = Sound-next old heap off b table olds sound k d h in
            let (_, still) =
              kept_cells chains chains1 heap r.0 (olds 0) (olds (suc k)) others (fresh (suc k) d h)
                (Segment-other old heap (off + 0) (suc off + k) b.head d.head (olds 0)
                  (olds (suc k)) (λ e. omega (arith, e)) segment segment_k) in
            still) in
      (
        chains2,
        (
          size2,
          (
            valid2,
            (λ q.
                same2 q
                ∙ (ap (λ (o : Option V). or_else o (joined q table (λ k. olds (suc k)))) (same q)
                    ∙ or_else_assoc (first q (chains (place hasher n q))) (first q (olds 0))
                        (joined q table (λ k. olds (suc k))))),
          ),
        ),
      )
