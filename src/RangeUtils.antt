-- ===== src/RangeUtils.antt =====
-- `RangeUtils::group_by` of src/common/range_utils.cppm. A `std::multimap` is the list of its entries in its order, and the
-- order of the keys is an interface.
use fast_db.Prelude.{
  ℕ, Bool, true, false, not, ◌&&◌, List, [], ◌∷◌, ◌++◌, append_assoc, append-nil, if◌then◌else◌,
  All, ltb, Bool-cases, inl, inr, ◌≡◌, refl, sym, ◌∙◌, arith,
}

-- `operator<` of the keys, as `std::less` wants it: a strict weak order.
pub record Less (K : Type 0) : Type 0 where
  pub lt : K → K → Bool
  pub lt_irrefl : (a : K) → lt a a ≡ false
  pub lt_trans : (a b c : K) → lt a b ≡ true → lt b c ≡ true → lt a c ≡ true
  -- What is not below is transitive too.
  pub ge_trans : (a b c : K) → lt a b ≡ false → lt b c ≡ false → lt a c ≡ false

pub ltb_irrefl : (a : ℕ) → ltb a a ≡ false
ltb_irrefl a = ground arith

pub ltb_trans : (a b c : ℕ) → ltb a b ≡ true → ltb b c ≡ true → ltb a c ≡ true
ltb_trans a b c h k = ground arith

pub geb_trans : (a b c : ℕ) → ltb a b ≡ false → ltb b c ≡ false → ltb a c ≡ false
geb_trans a b c h k = ground arith

instance abbrev pub nat_less : Less ℕ
nat_less = record { lt = ltb; lt_irrefl = ltb_irrefl; lt_trans = ltb_trans; ge_trans = geb_trans }

module _ {K : Type 0} ⦃less : Less K⦄ where
  -- Neither key is below the other.
  abbrev pub equivalent : K → K → Bool
  equivalent a b = not (less.lt a b) && not (less.lt b a)

module _ {K V : Type 0} ⦃less : Less K⦄ where
  -- `multimap::insert`: behind the entries that are not above the key.
  unfoldable pub insert : K → V → List (K × V) → List (K × V)
  insert key value [] = (key, value) ∷ []
  insert key value ((j, w) ∷ m) =
      let rest = insert key value m in
      if less.lt key j then (key, value) ∷ (j, w) ∷ m else (j, w) ∷ rest

  -- The entries whose key is equivalent to `k`.
  unfoldable pub equal_range : K → List (K × V) → List V
  equal_range k [] = []
  equal_range k ((j, w) ∷ m) =
      let rest = equal_range k m in if equivalent j k then w ∷ rest else rest

  -- No later key is below an earlier one.
  unfoldable pub IsSorted : List (K × V) → Type 0
  IsSorted [] = Unit
  IsSorted ((j, w) ∷ m) = All (λ entry. less.lt entry.0 j ≡ false) m × IsSorted m

module _ {A K V : Type 0} ⦃less : Less K⦄ (fnk : A → K) (fnv : A → V) where
  -- The loop of `group_by` with a function for the key and one for the value; the forms with one function have the item as
  -- the value.
  unfoldable pub group_loop : List A → List (K × V) → List (K × V)
  group_loop [] m = m
  group_loop (item ∷ range) m = group_loop range (insert (fnk item) (fnv item) m)

  unfoldable pub group_by : List A → List (K × V)
  unfolding group_loop
  group_by range = group_loop range []

  -- The values of the items with a key, in the order of the range.
  unfoldable pub with_key : K → List A → List V
  with_key k [] = []
  with_key k (item ∷ range) =
      let rest = with_key k range in if equivalent (fnk item) k then fnv item ∷ rest else rest

keep :
    {V : Type 0} (b : Bool) (w value : V) (xs : List V)
    → (if b then w ∷ (xs ++ value ∷ []) else xs ++ value ∷ [])
      ≡ (if b then w ∷ xs else xs) ++ value ∷ []
keep true w value xs = refl
keep false w value xs = refl

module _ {K V : Type 0} ⦃less : Less K⦄ where
  insert-All :
      (j key : K) (value : V) (m : List (K × V))
      → less.lt key j ≡ false
      → All (λ entry. less.lt entry.0 j ≡ false) m
      → All (λ entry. less.lt entry.0 j ≡ false) (insert key value m)
  unfolding insert
  insert-All j key value [] h a = (h, tt)
  insert-All j key value ((i, w) ∷ m) h (p, a) = elim (Bool-cases (less.lt key i)) [
    | inl e ↦ rw e (h, (p, a))
    | inr e ↦ rw e (p, insert-All j key value m h a)
  ]

  above :
      (j key : K) (m : List (K × V))
      → less.lt key j ≡ true
      → All (λ entry. less.lt entry.0 j ≡ false) m
      → All (λ entry. less.lt entry.0 key ≡ false) m
  above j key [] h a = tt
  above j key ((i, w) ∷ m) h (p, a) =
      (ground (arith, less.lt_trans i key j, p, h), above j key m h a)

  insert-IsSorted :
      (key : K) (value : V) (m : List (K × V)) → IsSorted m → IsSorted (insert key value m)
  unfolding insert IsSorted
  insert-IsSorted key value [] s = (tt, tt)
  insert-IsSorted key value ((j, w) ∷ m) (a, s) = elim (Bool-cases (less.lt key j)) [
    | inl e ↦
        rw e
          ((ground (arith, less.lt_trans j key j, less.lt_irrefl j, e), above j key m e a), (a, s))
    | inr e ↦ rw e (insert-All j key value m e a, insert-IsSorted key value m s)
  ]

  none_above :
      (j key k : K) (m : List (K × V))
      → less.lt key j ≡ true
      → equivalent key k ≡ true
      → All (λ entry. less.lt entry.0 j ≡ false) m
      → equal_range k m ≡ []
  unfolding equal_range
  none_above j key k [] h same a = refl
  none_above j key k ((i, w) ∷ m) h same (p, a) =
      let other : equivalent i k ≡ false =
        ground (arith, less.ge_trans key i j, less.ge_trans key k i, h, p, same) in
      rw other (none_above j key k m h same a)

  equal_range-insert :
      (key k : K) (value : V) (m : List (K × V))
      → IsSorted m
      → equal_range k (insert key value m)
        ≡ (if equivalent key k then equal_range k m ++ value ∷ [] else equal_range k m)
  unfolding insert equal_range IsSorted
  equal_range-insert key k value [] s = elim (Bool-cases (equivalent key k)) [
    | inl e ↦ rw e refl
    | inr e ↦ rw e refl
  ]
  equal_range-insert key k value ((j, w) ∷ m) (a, s) = elim (Bool-cases (less.lt key j)) [
    | inl h ↦ elim (Bool-cases (equivalent key k)) [
      | inl e ↦
          let empty = none_above j key k ((j, w) ∷ m) h e (less.lt_irrefl j, a) in
          rw (h, e) (rw empty refl)
      | inr e ↦ rw (h, e) refl
    ]
    | inr h ↦
        let rest = equal_range-insert key k value m s in
        elim (Bool-cases (equivalent key k)) [
          | inl e ↦ rw (h, rest, e) (keep (equivalent j k) w value (equal_range k m))
          | inr e ↦ rw (h, rest, e) refl
        ]
  ]

module _ {A K V : Type 0} ⦃less : Less K⦄ (fnk : A → K) (fnv : A → V) where
  group_loop-IsSorted :
      (range : List A) (m : List (K × V)) → IsSorted m → IsSorted (group_loop fnk fnv range m)
  unfolding group_loop
  group_loop-IsSorted [] m s = s
  group_loop-IsSorted (item ∷ range) m s =
      group_loop-IsSorted range (insert (fnk item) (fnv item) m)
        (insert-IsSorted (fnk item) (fnv item) m s)

  equal_range-group_loop :
      (range : List A) (m : List (K × V)) (k : K)
      → IsSorted m
      → equal_range k (group_loop fnk fnv range m) ≡ equal_range k m ++ with_key fnk fnv k range
  unfolding group_loop with_key
  equal_range-group_loop [] m k s = sym (append-nil (equal_range k m))
  equal_range-group_loop (item ∷ range) m k s =
      let key = fnk item in
      let rest =
        equal_range-group_loop range (insert key (fnv item) m) k
          (insert-IsSorted key (fnv item) m s) in
      elim (Bool-cases (equivalent key k)) [
        | inl e ↦
            rest
            ∙ rw (equal_range-insert key k (fnv item) m s, e)
                (append_assoc (equal_range k m) (fnv item ∷ []) (with_key fnk fnv k range))
        | inr e ↦ rest ∙ rw (equal_range-insert key k (fnv item) m s, e) refl
      ]

  -- `group_by` gives a map in the order of the keys, in which each key has the values of its items in the order of the range.
  pub group_by_lem :
      (range : List A)
      → IsSorted (group_by fnk fnv range)
        × ((k : K) → equal_range k (group_by fnk fnv range) ≡ with_key fnk fnv k range)
  unfolding group_by
  group_by_lem range = (
    group_loop-IsSorted range [] (unfold IsSorted in tt),
    λ k. equal_range-group_loop range [] k (unfold IsSorted in tt) ∙ (unfold equal_range in refl),
  )
