-- ===== src/MapUtil.antt =====
-- `MapUtil` of src/common/collect_utils.cppm. A reference or a pointer into a map is given by the value that it leads to.
use fast_db.Prelude.{
  Option, none, some, Eq, ◌=?◌, if◌then◌else◌, Bool-cases, inl, inr, ◌≡◌, refl, ap, ◌∙◌,
}
use fast_db.Prelude.Assoc.{Assoc, find, insert, find-insert}

unfoldable pub value_or : {V : Type 0} → V → Option V → V
value_or dflt none = dflt
value_or dflt (some v) = v

module _ {K V : Type 0} ⦃e : Eq K⦄ where
  -- `GetDefault`, where `v` is `mapped_type{}`
  unfoldable pub get_default : V → K → Assoc K V → V
  unfolding value_or
  get_default v key map = value_or v (find key map)

  -- `GetRefDefault`
  unfoldable pub get_ref_default : K → V → Assoc K V → V
  unfolding value_or
  get_ref_default key dflt map = value_or dflt (find key map)

  -- `GetConstPtr` and `GetPtr`, with `nullptr` as `none`
  unfoldable pub get_ptr : K → Assoc K V → Option V
  get_ptr key map = find key map

  -- A write through the pointer of `GetPtr` that was tested.
  unfoldable pub write_ptr : K → V → Assoc K V → Assoc K V
  write_ptr key v map = elim (find key map) [ none ↦ map | some old ↦ insert key v map ]

  write_found :
      (key : K) (v old : V) (map : Assoc K V)
      → get_ptr key map ≡ some old
      → write_ptr key v map ≡ insert key v map
  unfolding write_ptr get_ptr
  write_found key v old map h =
      let found : find key map ≡ some old = h in rw (found, write_ptr) refl

  -- After a write through the pointer of a key that is there, the lookup of the key finds the new value, and that of every
  -- other key what it found before.
  pub write_ptr-lookup :
      (key q : K) (v old dflt : V) (map : Assoc K V)
      → get_ptr key map ≡ some old
      → get_ref_default q dflt (write_ptr key v map)
        ≡ (if key =? q then v else get_ref_default q dflt map)
  unfolding get_ref_default value_or
  write_ptr-lookup key q v old dflt map h =
      ap (λ m. value_or dflt (find q m)) (write_found key v old map h)
      ∙ ap (value_or dflt) (find-insert key q v map)
      ∙ elim (Bool-cases (key =? q)) [ inl e ↦ rw e refl | inr e ↦ rw e refl ]
