-- ===== src/IocContainer.antt =====
-- `Any` and `IocContainer` of src/common/ioc_container.cppm. A `std::type_index` is a number, and the types themselves are
-- a parameter: `Carrier t` has the values of the type `t`.
pub mod Resolution
use fast_db.Prelude.{
  ℕ, Bool, true, false, ◌&&◌, List, [], ◌∷◌, ◌++◌, Bytes, Option, none, some, if◌then◌else◌, ◌==◌,
  ==_iff, Bool-cases, inl, inr, ◌⊎◌, bytes_eq, ◌≡◌,
}
use mathlib.Core.Path.{subst}
use fast_db.Prelude.Assoc.{Assoc, find, insert}

-- `typeid(void)`
abbrev pub void_index : ℕ
void_index = 0

module _ (Carrier : ℕ → Type 0) where
  -- What `m_basePtr` points to: a `Derived<t>`.
  abbrev pub Derived : Type 0
  Derived = (t : ℕ) × Carrier t

  pub record Any : Type 0 where
    pub base_ptr : Option Derived
    pub type_index : ℕ

  abbrev pub empty_any : Any
  empty_any = record { base_ptr = none; type_index = void_index }

  -- The constructor from a value.
  unfoldable pub any_of : (t : ℕ) → Carrier t → Any
  any_of t value = record { base_ptr = some (t, value); type_index = t }

  unfoldable pub is_null : Any → Bool
  is_null a = elim a.base_ptr [ none ↦ true | some d ↦ false ]

  unfoldable pub is : ℕ → Any → Bool
  is t a = a.type_index == t

  -- The copy constructor: `clone` copies the value with its type.
  unfoldable pub copy : Any → Any
  copy other = record { base_ptr = other.base_ptr; type_index = other.type_index }

  -- The move constructor, and what it leaves of the other.
  unfoldable pub move : Any → Any × Any
  move other = (
    record { base_ptr = other.base_ptr; type_index = other.type_index },
    record other { base_ptr = none },
  )

  -- `operator=`. Two pointers are equal if both are null, or at a self-assignment.
  unfoldable pub assign : Any → Any → Any
  unfolding is_null copy
  assign self other = if is_null self && is_null other then self else copy other

  pub data Cast (t : ℕ) : Type 0 where
    value : Carrier t → Cast t
    bad_cast : Cast t
    -- `dervied->m_value` of a null pointer
    null_access : Cast t

  -- A pointer to a `Derived<u>` as one to a `Derived<t>`.
  unfoldable pub derived_as :
      (t u : ℕ) → Carrier u → ((u == t) ≡ true) ⊎ ((u == t) ≡ false) → Cast t
  derived_as t u v (inl e) = value (subst Carrier ((==_iff u t).0 e) v)
  derived_as t u v (inr e) = null_access

  -- `dynamic_cast<Derived<U> *>(m_basePtr.get())->m_value`
  unfoldable pub held : (t : ℕ) → Option Derived → Cast t
  held t none = null_access
  held t (some (u, v)) = derived_as t u v (Bool-cases (u == t))

  unfoldable pub any_cast : (t : ℕ) → Any → Cast t
  unfolding is held
  any_cast t a = if is t a then held t a.base_ptr else bad_cast

-- The container. The type `t` of a creator is that of a function from `Args t` to `Result t`.
module _ (Args Result : ℕ → Type 0) where
  abbrev pub Creator : ℕ → Type 0
  Creator t = Args t → Result t

  abbrev pub CreatorMap : Type 0
  CreatorMap = Assoc Bytes (Any Creator)

  pub data Resolved (t : ℕ) : Type 0 where
    made : Result t → Resolved t
    nullptr : Resolved t
    threw_bad_cast : Resolved t
    undefined : Resolved t

  unfoldable pub call : (t : ℕ) → Args t → Cast Creator t → Resolved t
  call t args (Cast.value func) = made (func args)
  call t args Cast.bad_cast = threw_bad_cast
  call t args Cast.null_access = undefined

  unfoldable pub resolve_at : (t : ℕ) → Args t → Option (Any Creator) → Resolved t
  unfolding copy any_cast call
  resolve_at t args none = nullptr
  resolve_at t args (some creator) = call t args (any_cast Creator t (copy Creator creator))

  -- `resolve`; `resolveShared` takes the same pointer into a `shared_ptr`.
  unfoldable pub resolve : Bytes → (t : ℕ) → Args t → CreatorMap → Resolved t
  resolve key t args creator_map = resolve_at t args (find key creator_map)

  -- `registerType`; none stands for `std::invalid_argument`.
  unfoldable pub register_at :
      Option (Any Creator) → Bytes → Any Creator → CreatorMap → Option CreatorMap
  unfolding copy
  register_at none key constructor creator_map =
      some (insert key (copy Creator constructor) creator_map)
  register_at (some old) key constructor creator_map = none

  unfoldable pub register_type : Bytes → Any Creator → CreatorMap → Option CreatorMap
  register_type key constructor creator_map =
      register_at (find key creator_map) key constructor creator_map

  -- `registerSimple`, and the two templates that make the creator from a constructor.
  unfoldable pub register_simple : Bytes → (t : ℕ) → Creator t → CreatorMap → Option CreatorMap
  unfolding any_of register_type
  register_simple key t func creator_map = register_type key (any_of Creator t func) creator_map
