-- ===== src/ExpiringMap/Histories.antt =====
-- What each operation of src/common/collect_expiration_utils.cppm does to the values of every key.
use fast_db.Prelude.{
  ℕ, zero, suc, ◌+◌, ◌*◌, ◌%◌, ◌<◌, false, List, [], ◌∷◌, ◌++◌, append-nil, if◌then◌else◌, length,
  length-set, length-replicate, get_or, set, replicate, All, Eq, ◌=?◌, ◌≡◌, ◌≢◌, refl, sym, ap, ap₂,
  ◌∙◌, inl, inr, Bool-cases, leb, ◌==◌, ==_iff, arith,
}
use mathlib.Core.Path.{subst}
use native.Mathlib.Nat.{mod-lt}
use fast_db.ExpiringMap.{
  Node, Chain, push_node, rehash_chain, rehash, resize, grows, grow_threshold,
}
use fast_db.ExpiringMap.Chains.{
  get_or-set_self, get_or-set_ne, reverse_onto, reverse_onto-append, occurrences,
  occurrences-append,
}
use fast_db.ExpiringMap.Placement.{Placed, push_node-Placed, length-push_node, length-rehash_chain}

-- All nodes, from the first bucket.
unfoldable nodes : {K V : Type 0} → List (Chain K V) → Chain K V
nodes [] = []
nodes (chain ∷ table) = chain ++ nodes table

module _ {K V : Type 0} ⦃e : Eq K⦄ (hasher : K → ℕ) where
  -- The values that the bucket of a key has for it, from the head of the chain.
  unfoldable pub history : K → List (Chain K V) → List V
  history key table = occurrences key (get_or table (hasher key % length table) [])

  push_node-at :
      (i j : ℕ) (node : Node K V) (key : K) (table : List (Chain K V))
      → j < length table
      → ((node.key ≡ key) → i ≡ j)
      → occurrences key (get_or (set table i (node ∷ get_or table i [])) j []) ≡ (
          if node.key =? key
          then node.value ∷ occurrences key (get_or table j [])
          else occurrences key (get_or table j []))
  unfolding occurrences
  push_node-at i j node key table h same =
      let chain = node ∷ get_or table i [] in
      elim (Bool-cases (i == j)) [
        | inl t ↦
            let here : i ≡ j = (==_iff i j).0 t in
            rw (here, get_or-set_self table j (node ∷ get_or table j []) [] h) refl
        | inr t ↦
            let apart : i ≢ j = λ (p : i ≡ j). ground (arith, ==_iff i j, p, t) in
            let other : (node.key =? key) ≡ false = elim (Bool-cases (node.key =? key)) [
              | inl u ↦ absurd (apart (same ((e.beq_iff node.key key).0 u)))
              | inr u ↦ u
            ] in
            rw (get_or-set_ne table i j chain [] apart, other) refl
      ]

  pub push_node-history :
      (node : Node K V) (key : K) (table : List (Chain K V))
      → 0 < length table
      → history key (push_node hasher node table)
        ≡ (if node.key =? key then node.value ∷ history key table else history key table)
  unfolding history push_node
  push_node-history node key table h =
      let i = hasher node.key % length table in
      rw (length-set table i (node ∷ get_or table i [])) (
        push_node-at i (hasher key % length table) node key table (mod-lt (hasher key) h)
          (λ same. ap (λ k. hasher k % length table) same))

  rehash_chain-history :
      (c : Chain K V) (key : K) (table : List (Chain K V))
      → 0 < length table
      → history key (rehash_chain hasher c table)
        ≡ reverse_onto (occurrences key c) (history key table)
  unfolding rehash_chain occurrences reverse_onto
  rehash_chain-history [] key table h = refl
  rehash_chain-history (node ∷ c) key table h =
      let step = push_node-history node key table h in
      let rest =
        rehash_chain-history c key (push_node hasher node table)
          (omega (arith, length-push_node hasher node table, h)) in
      elim (Bool-cases (node.key =? key)) [
        | inl t ↦ rest ∙ rw (step, t) refl
        | inr t ↦ rest ∙ rw (step, t) refl
      ]

  rehash-history :
      (cs : List (Chain K V)) (key : K) (table : List (Chain K V))
      → 0 < length table
      → history key (rehash hasher cs table)
        ≡ reverse_onto (occurrences key (nodes cs)) (history key table)
  unfolding rehash nodes occurrences reverse_onto
  rehash-history [] key table h = refl
  rehash-history (c ∷ cs) key table h =
      rehash-history cs key (rehash_chain hasher c table)
        (omega (arith, length-rehash_chain hasher c table, h))
      ∙ ap (reverse_onto (occurrences key (nodes cs))) (rehash_chain-history c key table h)
      ∙ sym
          (reverse_onto-append (occurrences key c) (occurrences key (nodes cs)) (history key table))
      ∙ ap (λ x. reverse_onto x (history key table)) (sym (occurrences-append key c (nodes cs)))

  occurrences-none :
      (n i : ℕ) (key : K) (c : Chain K V)
      → All (λ node. hasher node.key % n ≡ i) c
      → hasher key % n ≢ i
      → occurrences key c ≡ []
  unfolding occurrences
  occurrences-none n i key [] h apart = refl
  occurrences-none n i key (node ∷ c) (p, h) apart = elim (Bool-cases (node.key =? key)) [
    | inl u ↦ absurd (apart (ap (λ k. hasher k % n) (sym ((e.beq_iff node.key key).0 u)) ∙ p))
    | inr u ↦ rw u (occurrences-none n i key c h apart)
  ]

  nodes-before :
      (n i : ℕ) (key : K) (table : List (Chain K V))
      → Placed hasher n i table
      → hasher key % n < i
      → occurrences key (nodes table) ≡ []
  unfolding Placed nodes occurrences
  nodes-before n i key [] h lt = refl
  nodes-before n i key (c ∷ table) (p, t) lt =
      occurrences-append key c (nodes table)
      ∙ ap₂ (λ x y. x ++ y) (occurrences-none n i key c p (λ q. omega arith))
          (nodes-before n (i + 1) key table t (omega arith))

  -- A key's values all stand in its bucket.
  nodes-history :
      (n i j : ℕ) (key : K) (table : List (Chain K V))
      → Placed hasher n i table
      → hasher key % n ≡ i + j
      → occurrences key (nodes table) ≡ occurrences key (get_or table j [])
  unfolding Placed nodes occurrences
  nodes-history n i j key [] h at = refl
  nodes-history n i zero key (c ∷ table) (p, t) at =
      occurrences-append key c (nodes table)
      ∙ ap (λ x. occurrences key c ++ x) (nodes-before n (i + 1) key table t (omega arith))
      ∙ append-nil (occurrences key c)
  nodes-history n i (suc j) key (c ∷ table) (p, t) at =
      occurrences-append key c (nodes table)
      ∙ ap₂ (λ x y. x ++ y) (occurrences-none n i key c p (λ q. omega arith))
          (nodes-history n (i + 1) j key table t (omega arith))

  empty-history :
      (key : K) (n : ℕ) (i : ℕ) → occurrences {V = V} key (get_or (replicate n []) i []) ≡ []
  unfolding occurrences
  empty-history key zero i = refl
  empty-history key (suc n) zero = refl
  empty-history key (suc n) (suc i) = empty-history key n i

  -- A growing table turns the order of each key's values around.
  pub resize-history :
      (key : K) (table : List (Chain K V))
      → 0 < length table
      → Placed hasher (length table) 0 table
      → history key (resize hasher table) ≡ reverse_onto (history key table) []
  unfolding resize history
  resize-history key table h p =
      let n = length table * 2 in
      let new_table : List (Chain K V) = replicate n [] in
      let none_yet : Chain K V = [] in
      let e = length-replicate n none_yet in
      rehash-history table key new_table (omega (arith, e, h))
      ∙ ap₂ reverse_onto
          (nodes-history (length table) 0 (hasher key % length table) key table p (omega arith))
          (empty-history key n (hasher key % length new_table))

  pub grows-push_node :
      (n : ℕ) (node : Node K V) (table : List (Chain K V))
      → grows n (push_node hasher node table) ≡ grows n table
  unfolding grows
  grows-push_node n node table =
      ap (λ x. leb (grow_threshold * x) n) (length-push_node hasher node table)

  pub push_node-Placed_self :
      (node : Node K V) (table : List (Chain K V))
      → Placed hasher (length table) 0 table
      → Placed hasher (length (push_node hasher node table)) 0 (push_node hasher node table)
  push_node-Placed_self node table p =
      subst (λ x. Placed hasher x 0 (push_node hasher node table))
        (sym (length-push_node hasher node table))
        (push_node-Placed hasher (length table) node table refl p)
