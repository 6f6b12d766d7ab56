-- ===== src/ExpiringMap/Chains.antt =====
-- What a chain of src/common/collect_expiration_utils.cppm has under one key.
use fast_db.Prelude.{
  ℕ, zero, suc, ◌+◌, ◌<◌, Bool, true, false, List, [], ◌∷◌, ◌++◌, Option, none, some, if◌then◌else◌,
  length, get_or, set, All, Eq, ◌=?◌, ◌≡◌, ◌≢◌, refl, ap, inl, inr, Bool-cases, arith,
}
use fast_db.ExpiringMap.{Node, Chain, find_chain, remove_chain, expire_chain, is_expired}

module _ {ℓ} {A : Type ℓ} where
  pub get_or-set_self :
      (xs : List A) (i : ℕ) (v d : A) → i < length xs → get_or (set xs i v) i d ≡ v
  get_or-set_self [] i v d h = absurd (omega arith)
  get_or-set_self (x ∷ xs) zero v d h = refl
  get_or-set_self (x ∷ xs) (suc i) v d h = get_or-set_self xs i v d (omega arith)

  pub get_or-set_ne :
      (xs : List A) (i j : ℕ) (v d : A) → i ≢ j → get_or (set xs i v) j d ≡ get_or xs j d
  get_or-set_ne [] i j v d h = refl
  get_or-set_ne (x ∷ xs) zero zero v d h = absurd (h refl)
  get_or-set_ne (x ∷ xs) zero (suc j) v d h = refl
  get_or-set_ne (x ∷ xs) (suc i) zero v d h = refl
  get_or-set_ne (x ∷ xs) (suc i) (suc j) v d h = get_or-set_ne xs i j v d (λ e. h (ap suc e))

  -- The first of a list.
  unfoldable pub head? : List A → Option A
  head? [] = none
  head? (x ∷ xs) = some x

  unfoldable pub tail : List A → List A
  tail [] = []
  tail (x ∷ xs) = xs

  unfoldable pub nonempty : List A → Bool
  nonempty [] = false
  nonempty (x ∷ xs) = true

  unfoldable pub reverse_onto : List A → List A → List A
  reverse_onto [] ys = ys
  reverse_onto (x ∷ xs) ys = reverse_onto xs (x ∷ ys)

  pub reverse_onto-append :
      (xs ys zs : List A) → reverse_onto (xs ++ ys) zs ≡ reverse_onto ys (reverse_onto xs zs)
  unfolding reverse_onto
  reverse_onto-append [] ys zs = refl
  reverse_onto-append (x ∷ xs) ys zs = reverse_onto-append xs ys (x ∷ zs)

module _ {K V : Type 0} ⦃e : Eq K⦄ where
  -- The values of a key, from the head of the chain.
  unfoldable pub occurrences : K → Chain K V → List V
  occurrences key [] = []
  occurrences key (node ∷ rest) =
      let old = occurrences key rest in if node.key =? key then node.value ∷ old else old

  pub occurrences-append :
      (key : K) (c d : Chain K V)
      → occurrences key (c ++ d) ≡ occurrences key c ++ occurrences key d
  unfolding occurrences
  occurrences-append key [] d = refl
  occurrences-append key (node ∷ c) d = elim (Bool-cases (node.key =? key)) [
    | inl h ↦ rw (h, occurrences-append key c d) refl
    | inr h ↦ rw (h, occurrences-append key c d) refl
  ]

  pub find_chain-occurrences :
      (key : K) (c : Chain K V) → find_chain key c ≡ head? (occurrences key c)
  unfolding find_chain occurrences head?
  find_chain-occurrences key [] = refl
  find_chain-occurrences key (node ∷ c) = elim (Bool-cases (node.key =? key)) [
    | inl h ↦ rw h refl
    | inr h ↦ rw h (find_chain-occurrences key c)
  ]

  pub remove_chain-found :
      (key : K) (c : Chain K V) → (remove_chain key c).1 ≡ nonempty (occurrences key c)
  unfolding remove_chain occurrences nonempty
  remove_chain-found key [] = refl
  remove_chain-found key (node ∷ c) = elim (Bool-cases (node.key =? key)) [
    | inl h ↦ rw h refl
    | inr h ↦ rw h (remove_chain-found key c)
  ]

  pub remove_chain-occurrences :
      (key k : K) (c : Chain K V)
      → occurrences k (remove_chain key c).0
        ≡ (if key =? k then tail (occurrences k c) else occurrences k c)
  unfolding remove_chain occurrences tail
  remove_chain-occurrences key k [] = ground arith
  remove_chain-occurrences key k (node ∷ c) = ground (
    arith,
    remove_chain-occurrences key k c,
    e.beq_iff node.key key,
    e.beq_iff node.key k,
    e.beq_iff key k,
  )

  -- Whether the chain is as long as the removal says.
  pub remove_chain-length :
      (key : K) (c : Chain K V)
      → length c ≡ length (remove_chain key c).0 + (if (remove_chain key c).1 then 1 else 0)
  unfolding remove_chain
  remove_chain-length key [] = refl
  remove_chain-length key (node ∷ c) = elim (Bool-cases (node.key =? key)) [
    | inl h ↦ rw h (omega arith)
    | inr h ↦ rw h (omega (arith, remove_chain-length key c))
  ]

  pub remove_chain-All :
      (P : Node K V → Type 0) (key : K) (c : Chain K V) → All P c → All P (remove_chain key c).0
  unfolding remove_chain
  remove_chain-All P key [] h = tt
  remove_chain-All P key (node ∷ c) (p, h) = elim (Bool-cases (node.key =? key)) [
    | inl t ↦ rw t h
    | inr t ↦ rw t (p, remove_chain-All P key c h)
  ]

module _ {K V : Type 0} where
  pub expire_chain-length :
      (now : ℕ) (c : Chain K V) → length c ≡ length (expire_chain now c).0 + (expire_chain now c).1
  unfolding expire_chain
  expire_chain-length now [] = refl
  expire_chain-length now (node ∷ c) = elim (Bool-cases (is_expired now node)) [
    | inl t ↦ rw t (omega (arith, expire_chain-length now c))
    | inr t ↦ rw t (omega (arith, expire_chain-length now c))
  ]

  pub expire_chain-All :
      (P : Node K V → Type 0) (now : ℕ) (c : Chain K V) → All P c → All P (expire_chain now c).0
  unfolding expire_chain
  expire_chain-All P now [] h = tt
  expire_chain-All P now (node ∷ c) (p, h) = elim (Bool-cases (is_expired now node)) [
    | inl t ↦ rw t (expire_chain-All P now c h)
    | inr t ↦ rw t (p, expire_chain-All P now c h)
  ]
