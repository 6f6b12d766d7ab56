-- ===== src/ExpiringMap/Placement.antt =====
-- Where nodes stand in the table of src/common/collect_expiration_utils.cppm, and the counter.
use fast_db.Prelude.{
  ℕ, zero, suc, ◌+◌, ◌%◌, ◌<◌, List, [], ◌∷◌, length, length-set, get_or, set, replicate, All, ◌≡◌,
  refl, ◌∙◌, arith,
}
use mathlib.Core.Path.{subst}
use native.Mathlib.Nat.{mod-lt}
use fast_db.ExpiringMap.{Node, Chain, ExpiringMap, push_node, rehash_chain, rehash}

-- The nodes of all chains.
unfoldable pub total : {K V : Type 0} → List (Chain K V) → ℕ
total [] = 0
total (chain ∷ table) = length chain + total table

module _ {K V : Type 0} where
  pub total-set :
      (table : List (Chain K V)) (j : ℕ) (chain : Chain K V)
      → j < length table
      → total (set table j chain) + length (get_or table j []) ≡ total table + length chain
  unfolding total
  total-set [] j chain h = absurd (omega arith)
  total-set (c ∷ table) zero chain h = omega arith
  total-set (c ∷ table) (suc j) chain h = omega (arith, total-set table j chain (omega arith))

module _ {K V : Type 0} (hasher : K → ℕ) where
  -- Every node stands in the bucket of its key, in a table of `n` buckets whose first has the index `i`.
  unfoldable pub Placed : ℕ → ℕ → List (Chain K V) → Type 0
  Placed n i [] = Unit
  Placed n i (chain ∷ table) = All (λ node. hasher node.key % n ≡ i) chain × Placed n (i + 1) table

  unfoldable pub IsValid : ExpiringMap K V → Type 0
  IsValid m =
      (0 < length m.table) × Placed (length m.table) 0 m.table × (m.num_elements ≡ total m.table)

  pub Placed-get :
      (n i j : ℕ) (table : List (Chain K V))
      → Placed n i table
      → All (λ node. hasher node.key % n ≡ i + j) (get_or table j [])
  unfolding Placed
  Placed-get n i j [] h = tt
  Placed-get n i zero (chain ∷ table) (h, t) =
      subst (λ x. All (λ node. hasher node.key % n ≡ x) chain) (omega arith) h
  Placed-get n i (suc j) (chain ∷ table) (h, t) =
      subst (λ x. All (λ node. hasher node.key % n ≡ x) (get_or table j [])) (omega arith)
        (Placed-get n (i + 1) j table t)

  pub Placed-set :
      (n i j : ℕ) (table : List (Chain K V)) (chain : Chain K V)
      → Placed n i table
      → All (λ node. hasher node.key % n ≡ i + j) chain
      → Placed n i (set table j chain)
  unfolding Placed
  Placed-set n i j [] chain h c = tt
  Placed-set n i zero (old ∷ table) chain (h, t) c =
      (subst (λ x. All (λ node. hasher node.key % n ≡ x) chain) (omega arith) c, t)
  Placed-set n i (suc j) (old ∷ table) chain (h, t) c = (
    h,
    Placed-set n (i + 1) j table chain t
        (subst (λ x. All (λ node. hasher node.key % n ≡ x) chain) (omega arith) c),
  )

  pub length-push_node :
      (node : Node K V) (table : List (Chain K V))
      → length (push_node hasher node table) ≡ length table
  unfolding push_node
  length-push_node node table = length-set table (hasher node.key % length table) _

  pub length-rehash_chain :
      (c : Chain K V) (table : List (Chain K V))
      → length (rehash_chain hasher c table) ≡ length table
  unfolding rehash_chain
  length-rehash_chain [] table = refl
  length-rehash_chain (node ∷ c) table =
      length-rehash_chain c (push_node hasher node table) ∙ length-push_node node table

  pub length-rehash : (cs table : List (Chain K V)) → length (rehash hasher cs table) ≡ length table
  unfolding rehash
  length-rehash [] table = refl
  length-rehash (c ∷ cs) table =
      length-rehash cs (rehash_chain hasher c table) ∙ length-rehash_chain c table

  pub push_node-Placed :
      (n : ℕ) (node : Node K V) (table : List (Chain K V))
      → length table ≡ n
      → Placed n 0 table
      → Placed n 0 (push_node hasher node table)
  unfolding push_node
  push_node-Placed n node table e h =
      let j = hasher node.key % length table in
      Placed-set n 0 j table (node ∷ get_or table j []) h
        ((rw e (omega arith), Placed-get n 0 j table h))

  pub rehash_chain-Placed :
      (n : ℕ) (c : Chain K V) (table : List (Chain K V))
      → length table ≡ n
      → Placed n 0 table
      → Placed n 0 (rehash_chain hasher c table)
  unfolding rehash_chain
  rehash_chain-Placed n [] table e h = h
  rehash_chain-Placed n (node ∷ c) table e h =
      rehash_chain-Placed n c (push_node hasher node table) (length-push_node node table ∙ e)
        (push_node-Placed n node table e h)

  pub rehash-Placed :
      (n : ℕ) (cs table : List (Chain K V))
      → length table ≡ n
      → Placed n 0 table
      → Placed n 0 (rehash hasher cs table)
  unfolding rehash
  rehash-Placed n [] table e h = h
  rehash-Placed n (c ∷ cs) table e h =
      rehash-Placed n cs (rehash_chain hasher c table) (length-rehash_chain c table ∙ e)
        (rehash_chain-Placed n c table e h)

  pub total-push_node :
      (node : Node K V) (table : List (Chain K V))
      → 0 < length table
      → total (push_node hasher node table) ≡ suc (total table)
  unfolding push_node
  total-push_node node table h =
      let j = hasher node.key % length table in
      omega (arith, total-set table j (node ∷ get_or table j []) (mod-lt (hasher node.key) h))

  pub total-rehash_chain :
      (c : Chain K V) (table : List (Chain K V))
      → 0 < length table
      → total (rehash_chain hasher c table) ≡ length c + total table
  unfolding rehash_chain
  total-rehash_chain [] table h = omega arith
  total-rehash_chain (node ∷ c) table h =
      let e = length-push_node node table in
      omega (
        arith,
        total-rehash_chain c (push_node hasher node table) (omega (arith, e, h)),
        total-push_node node table h,
      )

  pub total-rehash :
      (cs table : List (Chain K V))
      → 0 < length table
      → total (rehash hasher cs table) ≡ total cs + total table
  unfolding rehash total
  total-rehash [] table h = omega arith
  total-rehash (c ∷ cs) table h =
      let e = length-rehash_chain c table in
      omega (
        arith,
        total-rehash cs (rehash_chain hasher c table) (omega (arith, e, h)),
        total-rehash_chain c table h,
      )

pub total-replicate : (K V : Type 0) (n : ℕ) → total {K = K} {V = V} (replicate n []) ≡ 0
unfolding total
total-replicate K V zero = refl
total-replicate K V (suc n) = omega (arith, total-replicate K V n)

pub Placed-replicate :
    {K : Type 0} (V : Type 0) (hasher : K → ℕ) (n i k : ℕ)
    → Placed {V = V} hasher n i (replicate k [])
unfolding Placed
Placed-replicate V hasher n i zero = tt
Placed-replicate V hasher n i (suc k) = (tt, Placed-replicate V hasher n (i + 1) k)
