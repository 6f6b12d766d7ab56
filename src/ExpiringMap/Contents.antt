-- ===== src/ExpiringMap/Contents.antt =====
-- What each operation of src/common/collect_expiration_utils.cppm does to the values of every key, and lookups.
use fast_db.Prelude.{
  ℕ, ◌+◌, ◌%◌, ◌<◌, ◌≤◌, Bool, true, false, List, [], ◌∷◌, none, some, if◌then◌else◌, length,
  length-set, get_or, set, Eq, ◌=?◌, ◌≡◌, ◌≢◌, refl, sym, ap, ◌∙◌, inl, inr, Bool-cases, ◌==◌,
  ==_iff, arith,
}
use native.Mathlib.Nat.{mod-lt}
use fast_db.ExpiringMap.{
  Node, Chain, ExpiringMap, push_node, grows, insert, find, remove, remove_chain,
}
use fast_db.ExpiringMap.Chains.{
  get_or-set_self, get_or-set_ne, head?, tail, nonempty, reverse_onto, occurrences,
  find_chain-occurrences, remove_chain-found, remove_chain-occurrences,
}
use fast_db.ExpiringMap.Histories.{
  history, push_node-history, resize-history, grows-push_node, push_node-Placed_self,
}
use fast_db.ExpiringMap.Placement.{IsValid, length-push_node}

-- The values of a key behind an insertion that finds `old` values of it.
unfoldable pub pushed : {V : Type 0} → Bool → Bool → V → List V → List V
pushed same growing value old =
    let all = if same then value ∷ old else old in if growing then reverse_onto all [] else all

module _ {K V : Type 0} ⦃e : Eq K⦄ (hasher : K → ℕ) where
  -- An insertion puts the value before the key's older ones, which stay, and changes no other key's; but if the table grows,
  -- every key's values come out in the opposite order of what they would stand in otherwise.
  pub insert-history :
      (now : ℕ) (key k : K) (value : V) (m : ExpiringMap K V)
      → IsValid hasher m
      → history hasher k (insert hasher now key value m).table
        ≡ pushed (key =? k) (grows (m.num_elements + 1) m.table) value (history hasher k m.table)
  unfolding insert pushed IsValid
  insert-history now key k value m (h, p, c) =
      let node : Node K V = record { key = key; value = value; timestamp = now } in
      let table = push_node hasher node m.table in
      let n = m.num_elements + 1 in
      let step = push_node-history hasher node k m.table h in
      let same = grows-push_node hasher n node m.table in
      elim (Bool-cases (grows n m.table)) [
        | inl t ↦
            rw (same, t)
              (resize-history hasher k table
                  (omega (arith, length-push_node hasher node m.table, h))
                  (push_node-Placed_self hasher node m.table p)
                ∙ ap (λ x. reverse_onto x []) step)
        | inr t ↦ rw (same, t) step
      ]

  remove-at :
      (i j : ℕ) (key k : K) (table : List (Chain K V))
      → j < length table
      → (key ≡ k → i ≡ j)
      → occurrences k (get_or (set table i (remove_chain key (get_or table i [])).0) j []) ≡ (
          if key =? k
          then tail (occurrences k (get_or table j []))
          else occurrences k (get_or table j []))
  remove-at i j key k table h same = elim (Bool-cases (i == j)) [
    | inl t ↦
        let here : i ≡ j = (==_iff i j).0 t in
        let rest = (remove_chain key (get_or table j [])).0 in
        rw (here, get_or-set_self table j rest [] h)
          (remove_chain-occurrences key k (get_or table j []))
    | inr t ↦
        let apart : i ≢ j = λ (p : i ≡ j). ground (arith, ==_iff i j, p, t) in
        let other : (key =? k) ≡ false = elim (Bool-cases (key =? k)) [
          | inl u ↦ absurd (apart (same ((e.beq_iff key k).0 u)))
          | inr u ↦ u
        ] in
        rw (get_or-set_ne table i j (remove_chain key (get_or table i [])).0 [] apart, other) refl
  ]

  -- `remove` takes out the newest of the key's values, says whether there was one, and changes no other key's; an older value
  -- of the key shows again.
  pub remove-history :
      (key k : K) (m : ExpiringMap K V)
      → IsValid hasher m
      → (history hasher k (remove hasher key m).0.table
          ≡ (if key =? k then tail (history hasher k m.table) else history hasher k m.table))
        × ((remove hasher key m).1 ≡ nonempty (history hasher key m.table))
  unfolding remove history IsValid
  remove-history key k m (h, p, c) =
      let i = hasher key % length m.table in
      let chain = (remove_chain key (get_or m.table i [])).0 in
      (
        rw (length-set m.table i chain) (
            remove-at i (hasher k % length m.table) key k m.table (mod-lt (hasher k) h)
              (λ same. ap (λ x. hasher x % length m.table) same)),
        remove_chain-found key (get_or m.table i []),
      )

  pub find-history :
      (key : K) (m : ExpiringMap K V) → find hasher key m ≡ head? (history hasher key m.table)
  unfolding find history
  find-history key m = find_chain-occurrences key (get_or m.table (hasher key % length m.table) [])

  -- Every key has at most one node.
  unfoldable pub Single : ExpiringMap K V → Type 0
  Single m = (key : K) → length (history hasher key m.table) ≤ 1

  pushed-fresh :
      (same growing : Bool) (value : V) (old : List V)
      → length old ≤ 1
      → (same ≡ true → old ≡ [])
      → (head? (pushed same growing value old) ≡ (if same then some value else head? old))
        × (length (pushed same growing value old) ≤ 1)
  unfolding pushed head? reverse_onto
  pushed-fresh true true value [] h fresh = (refl, omega arith)
  pushed-fresh true false value [] h fresh = (refl, omega arith)
  pushed-fresh true growing value (x ∷ old) h fresh = let empty = fresh refl in cc
  pushed-fresh false true value [] h fresh = (refl, h)
  pushed-fresh false true value (x ∷ []) h fresh = (refl, h)
  pushed-fresh false true value (x ∷ y ∷ old) h fresh = absurd (omega arith)
  pushed-fresh false false value old h fresh = (refl, h)

  head?-none : (old : List V) → head? old ≡ none → old ≡ []
  unfolding head?
  head?-none [] e = refl
  head?-none (x ∷ old) e = cc

  absent-history :
      (key k : K) (m : ExpiringMap K V)
      → find hasher key m ≡ none
      → (key =? k) ≡ true
      → history hasher k m.table ≡ []
  absent-history key k m absent same =
      head?-none (history hasher k m.table) (
        sym (find-history k m)
        ∙ ap (λ x. find hasher x m) (sym ((e.beq_iff key k).0 same))
        ∙ absent)

  insert-pushed :
      (now : ℕ) (key k : K) (value : V) (m : ExpiringMap K V)
      → Single m
      → find hasher key m ≡ none
      → let after =
          pushed (key =? k) (grows (m.num_elements + 1) m.table) value (history hasher k m.table) in
        (head? after ≡ (if key =? k then some value else head? (history hasher k m.table)))
        × (length after ≤ 1)
  unfolding Single
  insert-pushed now key k value m single absent =
      pushed-fresh (key =? k) (grows (m.num_elements + 1) m.table) value (history hasher k m.table)
        (single k) (absent-history key k m absent)

  -- If every key has at most one node and the key is not there, the key is found afterwards with its value, every other key is
  -- found as before, whether or not the table grows, and every key still has at most one node.
  pub insert-find :
      (now : ℕ) (key k : K) (value : V) (m : ExpiringMap K V)
      → IsValid hasher m
      → Single m
      → find hasher key m ≡ none
      → (find hasher k (insert hasher now key value m)
          ≡ (if key =? k then some value else find hasher k m))
        × Single (insert hasher now key value m)
  unfolding Single
  insert-find now key k value m valid single absent = (
    find-history k (insert hasher now key value m)
        ∙ ap head? (insert-history now key k value m valid)
        ∙ rw (find-history k m) (insert-pushed now key k value m single absent).0,
    λ x.
        rw (insert-history now key x value m valid)
          (insert-pushed now key x value m single absent).1,
  )

  taken :
      (same : Bool) (old : List V)
      → length old ≤ 1
      → let after = if same then tail old else old in
        (head? after ≡ (if same then none else head? old)) × (length after ≤ 1)
  unfolding head? tail
  taken true [] h = (refl, h)
  taken true (x ∷ []) h = (refl, omega arith)
  taken true (x ∷ y ∷ old) h = absurd (omega arith)
  taken false old h = (refl, h)

  -- If every key has at most one node, the removed key is not found afterwards, every other key is found as before, and every
  -- key still has at most one node.
  pub remove-find :
      (key k : K) (m : ExpiringMap K V)
      → IsValid hasher m
      → Single m
      → (find hasher k (remove hasher key m).0 ≡ (if key =? k then none else find hasher k m))
        × Single (remove hasher key m).0
  unfolding Single
  remove-find key k m valid single = (
    find-history k (remove hasher key m).0
        ∙ ap head? (remove-history key k m valid).0
        ∙ rw (find-history k m) (taken (key =? k) (history hasher k m.table) (single k)).0,
    λ x.
        rw ((remove-history key x m valid).0)
          (taken (key =? x) (history hasher x m.table) (single x)).1,
  )
