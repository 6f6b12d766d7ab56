-- ===== src/LockFreeMap/Contents.antt =====
-- `LockFreeMap` of src/common/collect_utils.cppm as the function from keys to values that its chains stand for.
use fast_db.Prelude.{
  ℕ, zero, suc, ◌+◌, ◌*◌, ◌<◌, ◌≤◌, ◌%◌, Option, none, some, List, [], ◌∷◌, if◌then◌else◌, leb,
  ◌==◌, ==_iff, length, length-set, length-replicate, get_elem?, get_elem?-bound, replicate, All,
  Eq, ◌=?◌, Bool-cases, Option-cases, ◌≡◌, ◌≢◌, inl, inr, refl, ap, ◌∙◌, arith,
}
use native.Mathlib.Nat.{mod-lt}
use fast_db.LockFreeMap.{
  Heap, empty_bucket, LockFreeMap, new_map, grow_threshold, resize, add_node, insert, find,
  get_bucket_index, bucket_at, push_back,
}
use fast_db.LockFreeMap.Chains.{Cell}
use fast_db.LockFreeMap.Insertion.{TableHolds, Holds, Fresh, with_cell, add_node-Holds}
use fast_db.LockFreeMap.Lookup.{first, or_else, walk_of, find-first, first-with_cell}
use fast_db.LockFreeMap.Growth.{place}
use fast_db.LockFreeMap.Resizing.{Sound, joined-first, move_table-AllMoved}

-- The map has a value for a key, or none, as the view says.
abbrev pub Reads : {K V : Type 0} ⦃e : Eq K⦄ → (K → ℕ) → LockFreeMap K V → (K → Option V) → Type 0
Reads {K} {V} hasher m view =
    (chains : ℕ → List (Cell K V)) × (Holds hasher m chains
      × ((q : K) → first q (chains (hasher q % length m.table)) ≡ view q))

get_elem?-replicate :
    {A : Type 0} (n i : ℕ) (a b : A) → get_elem? (replicate n a) i ≡ some b → b ≡ a
get_elem?-replicate zero i a b h = cc
get_elem?-replicate (suc n) zero a b h = ground (arith, h)
get_elem?-replicate (suc n) (suc i) a b h = get_elem?-replicate n i a b h

-- A table without cells.
abbrev no_chains : {K V : Type 0} → ℕ → List (Cell K V)
no_chains j = []

-- The chains of a table of empty buckets.
empty-TableHolds :
    {K V : Type 0} (index : K → ℕ) (heap : Heap K V) (n : ℕ)
    → TableHolds index heap (replicate n empty_bucket) no_chains
empty-TableHolds index heap n = (
  (λ i b h.
      let empty : b ≡ empty_bucket = get_elem?-replicate n i empty_bucket b h in
      rw empty (refl, (refl, tt))),
  (λ i h. refl),
)

no_chains-Fresh :
    {K V : Type 0} (cells : List (Cell K V))
    → All (λ (c : Cell K V). Fresh (no_chains {K = K} {V = V}) c.address) cells
no_chains-Fresh [] = tt
no_chains-Fresh (c ∷ cells) = ((λ j. tt), no_chains-Fresh cells)

-- A number above the lengths of the first chains.
longest :
    {K V : Type 0} (chains : ℕ → List (Cell K V)) (n : ℕ)
    → (bound : ℕ) × ((j : ℕ) → j < n → length (chains j) < bound)
longest chains zero = (0, (λ j h. absurd (omega arith)))
longest chains (suc n) =
    let (bound, below) = longest chains n in
    (
      bound + length (chains n) + 1,
      (λ j h. elim (Bool-cases (j == n)) [
        | inl e ↦ rw ((==_iff j n).0 e) (omega arith)
        | inr e ↦
            let other : j ≢ n = λ same. ground (arith, ==_iff j n, same, e) in
            omega (arith, below j (omega (arith, h, other)))
      ]),
    )

module _ {K V : Type 0} ⦃e : Eq K⦄ (hasher : K → ℕ) where
  -- More fuel than any chain of the map has nodes.
  pub enough :
      (m : LockFreeMap K V) (chains : ℕ → List (Cell K V))
      → Holds hasher m chains
      → (bound : ℕ) × ((j : ℕ) → length (chains j) < bound)
  enough m chains valid =
      let (bound, below) = longest chains (length m.table) in
      (
        suc bound,
        (λ j. elim (Option-cases (get_elem? m.table j)) [
          | inl f ↦ rw (valid.1.1 j f) (omega arith)
          | inr (b, f) ↦ omega (arith, below j (get_elem?-bound m.table j b f))
        ]),
      )

  resize-Reads :
      (fuel : ℕ) (m : LockFreeMap K V) (chains : ℕ → List (Cell K V)) (view : K → Option V)
      → Holds hasher m chains
      → ((q : K) → first q (chains (hasher q % length m.table)) ≡ view q)
      → ((j : ℕ) → length (chains j) < fuel)
      → Reads hasher (resize hasher fuel m) view
  unfolding resize first
  resize-Reads fuel m chains view valid reads fits =
      let n : ℕ = length m.table * 2 in
      let old : K → ℕ = place hasher (length m.table) in
      let sound : Sound old m.heap 0 m.table chains =
        λ k b h. let number : 0 + k ≡ k = omega arith in rw number (valid.1.0 k b h) in
      let (chains', (size, (valid', same))) =
        move_table-AllMoved hasher old n (omega (arith, valid.0)) fuel 0 m.table chains m.heap
          (replicate n empty_bucket) no_chains fits (length-replicate n empty_bucket)
          (empty-TableHolds (place hasher n) m.heap n) sound
          (λ k b h. no_chains-Fresh (chains k)) in
      (
        chains',
        rw size (
          (omega (arith, valid.0), valid'),
          (λ q.
              same q
              ∙ ((joined-first old m.heap 0 (old q) m.table chains q sound).0 (omega arith)
                    (mod-lt (hasher q) valid.0)
                  ∙ reads q)),
        ),
      )

  add_node-Reads :
      (key : K) (value : V) (m : LockFreeMap K V) (view : K → Option V)
      → Reads hasher m view
      → Reads hasher
          (add_node hasher key value m)
          (λ q. or_else (view q) (if key =? q then some value else none))
  unfolding add_node get_bucket_index
  add_node-Reads key value m view (chains, (valid, reads)) =
      let index : K → ℕ = place hasher (length m.table) in
      let new : Cell K V = record { address = length m.heap; key = key; value = value } in
      let size =
        length-set m.table (index key)
          (push_back (length m.heap) (bucket_at m.table (index key))) in
      (
        with_cell (index key) new chains,
        (
          add_node-Holds hasher m chains valid key value,
          (λ q. rw size (
              first-with_cell index new chains q
              ∙ ap (λ (o : Option V). or_else o (if key =? q then some value else none))
                  (reads q))),
        ),
      )

  pub new_map-Reads : (n : ℕ) → 0 < n → Reads hasher (new_map {K = K} {V = V} n) (λ q. none)
  unfolding new_map first
  new_map-Reads n positive = (
    no_chains,
    (
      (
        omega (arith, length-replicate n empty_bucket, positive),
        empty-TableHolds (place hasher (length (replicate n empty_bucket))) [] n,
      ),
      (λ q. refl),
    ),
  )

  -- Let a map stand for a function from keys to values. With enough fuel, `find` returns its value for every key, or says that
  -- there is none; and `insert` gives the key the value if it had none before. A key that had one keeps it: the new node
  -- stands behind the old one, also when the table grows, which changes the value of no key.
  pub insert-Reads :
      (m : LockFreeMap K V) (view : K → Option V)
      → Reads hasher m view
      → (bound : ℕ) × ((fuel : ℕ)
          → bound ≤ fuel
          → ((q : K) → find hasher fuel q m ≡ walk_of (view q))
            × ((key : K) (value : V)
                → Reads hasher
                    (insert hasher fuel key value m)
                    (λ q. or_else (view q) (if key =? q then some value else none))))
  unfolding insert
  insert-Reads m view (chains, (valid, reads)) =
      let (bound, below) = enough m chains valid in
      (
        bound,
        (λ fuel fits. (
          (λ q.
              find-first hasher m chains q fuel valid
                (omega (arith, below (hasher q % length m.table), fits))
              ∙ ap walk_of (reads q)),
          (λ key value. elim (Bool-cases (leb (grow_threshold * length m.table) m.num_elements)) [
            | inl grows ↦ rw grows (
                add_node-Reads key value (resize hasher fuel m) view
                  (resize-Reads fuel m chains view valid reads (λ j. omega (arith, below j, fits))))
            | inr stays ↦ rw stays (add_node-Reads key value m view (chains, (valid, reads)))
          ]),
        )),
      )
