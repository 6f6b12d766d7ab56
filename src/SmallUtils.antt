-- ===== src/SmallUtils.antt =====
-- `factory`, `compare_vector_values` and `UUID` of src/common/small_utils.cppm.
pub mod Uuid
use fast_db.Prelude.{
  ℕ, zero, suc, ◌+◌, Bool, true, false, not, ◌&&◌, List, [], ◌∷◌, ◌++◌, Bytes, Option, none, some,
  if◌then◌else◌, ◌==◌, ==_iff, ◌=?◌, bytes_eq, bytes_beq_iff, length, map, Bool-cases, Option-cases,
  ◌≡◌, ◌↔◌, inl, inr, refl, sym, ap, ◌∙◌, arith,
}

-- `std::strcmp(a, b)`, up to its sign: the texts are C strings, without NUL.
unfoldable pub strcmp : Bytes → Bytes → ℕ
strcmp a b = if a =? b then 0 else 1

-- The loop, which ends at the first difference: `not_ok`.
unfoldable pub compare_loop : List Bytes → List Bytes → Bool
unfolding strcmp
compare_loop [] v2 = false
compare_loop (x ∷ v1) [] = false
compare_loop (x ∷ v1) (y ∷ v2) =
    let rest = compare_loop v1 v2 in if not (strcmp x y == 0) then true else rest

unfoldable pub compare_vector_values : List Bytes → List Bytes → Bool
compare_vector_values v1 v2 =
    let not_ok = if length v1 == length v2 then compare_loop v1 v2 else true in not not_ok

compare_loop_lem :
    (v1 v2 : List Bytes) → length v1 ≡ length v2 → (compare_loop v1 v2 ≡ false) ↔ (v1 ≡ v2)
unfolding compare_loop
compare_loop_lem [] [] h = ground arith
compare_loop_lem [] (y ∷ v2) h = absurd (omega arith)
compare_loop_lem (x ∷ v1) [] h = absurd (omega arith)
compare_loop_lem (x ∷ v1) (y ∷ v2) h =
    ground (arith, compare_loop_lem v1 v2 (omega arith), bytes_beq_iff x y)

-- `compare_vector_values` says true exactly if the two vectors have the same texts in the same order.
pub compare_vector_values_iff :
    (v1 v2 : List Bytes) → (compare_vector_values v1 v2 ≡ true) ↔ (v1 ≡ v2)
unfolding compare_vector_values
compare_vector_values_iff v1 v2 = elim (Bool-cases (length v1 == length v2)) [
  | inl e ↦ ground (arith, compare_loop_lem v1 v2 ((==_iff (length v1) (length v2)).0 e), e)
  | inr e ↦
      let apart : v1 ≡ v2 → ⊥ =
        λ (same : v1 ≡ v2). ground (arith, ap length same, ==_iff (length v1) (length v2), e) in
      ground (arith, e, apart)
]

-- A product of the factory: its name, and its constructor.
pub record Product (Args P : Type 0) : Type 0 where
  pub id : Bytes
  pub construct : Args → P

module _ {Args P : Type 0} where
  -- The fold over the products: each with the name replaces the result.
  unfoldable pub create_loop : Bytes → Args → List (Product Args P) → Option P → Option P
  create_loop id args [] result = result
  create_loop id args (it ∷ products) result =
      create_loop id args products (if it.id =? id then some (it.construct args) else result)

  unfoldable pub create : List (Product Args P) → Bytes → Args → Option P
  unfolding create_loop
  create products id args = create_loop id args products none

  -- The last product of a name.
  unfoldable pub last_named : Bytes → List (Product Args P) → Option (Product Args P)
  last_named id [] = none
  last_named id (it ∷ products) = elim (last_named id products) [
    | none ↦ if it.id =? id then some it else none
    | some later ↦ some later
  ]

  unfoldable pub construct_it : Args → Option P → Option (Product Args P) → Option P
  construct_it args result none = result
  construct_it args result (some it) = some (it.construct args)

  create_loop_lem :
      (id : Bytes) (args : Args) (products : List (Product Args P)) (result : Option P)
      → create_loop id args products result ≡ construct_it args result (last_named id products)
  unfolding create_loop last_named construct_it
  create_loop_lem id args [] result = refl
  create_loop_lem id args (it ∷ products) result = elim (Option-cases (last_named id products)) [
    | inl e ↦ elim (Bool-cases (it.id =? id)) [
      | inl h ↦ rw (h, create_loop_lem id args products (some (it.construct args)), e, h) refl
      | inr h ↦ rw (h, create_loop_lem id args products result, e, h) refl
    ]
    | inr (later, e) ↦
        create_loop_lem id args products (if it.id =? id then some (it.construct args) else result)
        ∙ rw e refl
  ]

  -- `create` makes the last product that has the name, from the arguments, and nothing if none has it.
  pub create-last :
      (products : List (Product Args P)) (id : Bytes) (args : Args)
      → create products id args ≡ construct_it args none (last_named id products)
  unfolding create
  create-last products id args = create_loop_lem id args products none
