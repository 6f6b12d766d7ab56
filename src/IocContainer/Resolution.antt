-- ===== src/IocContainer/Resolution.antt =====
-- Registration against resolution in src/common/ioc_container.cppm.
use fast_db.Prelude.{
  ℕ, true, false, Bytes, none, some, ◌==◌, ==_iff, Bool-cases, Option-cases, inl, inr, ◌⊎◌,
  bytes_eq, bytes_beq_iff, =?_self, ◌≡◌, ◌≢◌, refl, sym, ap, ◌∙◌, arith,
}
use mathlib.Core.Path.{subst, subst_refl}
use native.Mathlib.Nat.{ℕ_set}
use fast_db.Prelude.Assoc.{find, insert, find-insert}
use fast_db.IocContainer.{
  Any, any_of, copy, Cast, derived_as, held, any_cast, Creator, CreatorMap, made, threw_bad_cast,
  undefined, call, resolve_at, resolve, register_at, register_type, register_simple,
}

module _ (Carrier : ℕ → Type 0) where
  -- A cast back to the type of a value gives the value.
  held-same :
      (t : ℕ) (v : Carrier t) (c : ((t == t) ≡ true) ⊎ ((t == t) ≡ false))
      → derived_as Carrier t t v c ≡ Cast.value v
  unfolding derived_as
  held-same t v (inl e) =
      let loop : (==_iff t t).0 e ≡ refl = ℕ_set t t ((==_iff t t).0 e) refl in
      ap Cast.value (ap (λ p. subst Carrier p v) loop ∙ subst_refl Carrier v)
  held-same t v (inr e) = absurd (ground arith)

  any_cast-any_of : (t : ℕ) (v : Carrier t) → any_cast Carrier t (any_of Carrier t v) ≡ Cast.value v
  unfolding any_cast any_of held
  any_cast-any_of t v =
      let same : (t == t) ≡ true = ground arith in rw same (held-same t v (Bool-cases (t == t)))

  any_cast-other :
      (t u : ℕ) (v : Carrier t) → t ≢ u → any_cast Carrier u (any_of Carrier t v) ≡ Cast.bad_cast
  unfolding any_cast any_of
  any_cast-other t u v apart = elim (Bool-cases (t == u)) [
    | inl e ↦ absurd (apart ((==_iff t u).0 e))
    | inr e ↦ rw e refl
  ]

  derived_as-value :
      (t u : ℕ) (v : Carrier t) (c : ((t == u) ≡ true) ⊎ ((t == u) ≡ false))
      → (t == u) ≡ true
      → (w : Carrier u) × (derived_as Carrier u t v c ≡ Cast.value w)
  unfolding derived_as
  derived_as-value t u v (inl e) h = (subst Carrier ((==_iff t u).0 e) v, refl)
  derived_as-value t u v (inr e) h = absurd (ground (arith, e, h))

  any_cast-defined :
      (t u : ℕ) (v : Carrier t)
      → ((w : Carrier u) × (any_cast Carrier u (any_of Carrier t v) ≡ Cast.value w))
        ⊎ (any_cast Carrier u (any_of Carrier t v) ≡ Cast.bad_cast)
  unfolding any_cast any_of held
  any_cast-defined t u v = elim (Bool-cases (t == u)) [
    | inl e ↦ let (w, h) = derived_as-value t u v (Bool-cases (t == u)) e in inl (w, rw e h)
    | inr e ↦ inr (rw e refl)
  ]

module _ (Args Result : ℕ → Type 0) where
  abbrev C : ℕ → Type 0
  C = Creator Args Result

  -- Every creator holds a function of the type that it says it has.
  abbrev pub IsSound : CreatorMap Args Result → Type 0
  IsSound m =
      (key : Bytes) (a : Any C)
      → find key m ≡ some a
      → (t : ℕ) × (func : C t) × (a ≡ any_of C t func)

  copy-any_of : (t : ℕ) (func : C t) → copy C (any_of C t func) ≡ any_of C t func
  unfolding copy any_of
  copy-any_of t func = refl

  registered :
      (key : Bytes) (t : ℕ) (func : C t) (m : CreatorMap Args Result)
      → find key m ≡ none
      → register_simple Args Result key t func m ≡ some (insert key (any_of C t func) m)
  unfolding register_simple register_at register_type
  registered key t func m absent = rw (absent, copy-any_of t func) refl

  insert-IsSound :
      (key : Bytes) (t : ℕ) (func : C t) (m : CreatorMap Args Result)
      → IsSound m
      → IsSound (insert key (any_of C t func) m)
  insert-IsSound key t func m sound q a h =
      let at = find-insert key q (any_of C t func) m in
      elim (Bool-cases (bytes_eq.beq key q)) [
        | inl e ↦
            let here : find q (insert key (any_of C t func) m) ≡ some (any_of C t func) =
              at ∙ rw e refl in
            (t, func, cc)
        | inr e ↦ sound q a (sym (at ∙ rw e refl) ∙ h)
      ]

  -- Two containers that agree on a key resolve it alike.
  resolve-congr :
      (q : Bytes) (u : ℕ) (args : Args u) (n m : CreatorMap Args Result)
      → find q n ≡ find q m
      → resolve Args Result q u args n ≡ resolve Args Result q u args m
  unfolding resolve
  resolve-congr q u args n m h = ap (resolve_at Args Result u args) h

  find-other :
      (key q : Bytes) (a : Any C) (m : CreatorMap Args Result)
      → key ≢ q
      → find q (insert key a m) ≡ find q m
  find-other key q a m apart = ground (arith, find-insert key q a m, bytes_beq_iff key q, apart)

  used :
      (key : Bytes) (t : ℕ) (func : C t) (old : Any C) (m : CreatorMap Args Result)
      → find key m ≡ some old
      → register_simple Args Result key t func m ≡ none
  unfolding register_simple register_at register_type
  used key t func old m h = rw h refl

  call-defined :
      (t u : ℕ) (func : C t) (args : Args u)
      → call Args Result u args (any_cast C u (any_of C t func)) ≢ undefined
  unfolding call
  call-defined t u func args e = elim (any_cast-defined C t u func) [
    | inl (w, h) ↦ let made_it = rw h at e in cc
    | inr h ↦ let threw_it = rw h at e in cc
  ]

  resolve-defined :
      (key : Bytes) (u : ℕ) (args : Args u) (m : CreatorMap Args Result)
      → IsSound m
      → resolve Args Result key u args m ≢ undefined
  unfolding resolve resolve_at
  resolve-defined key u args m sound e = elim (Option-cases (find key m)) [
    | inl h ↦ let nothing = rw h at e in cc
    | inr (a, h) ↦
        let (t, func, same) = sound key a h in
        call-defined t u func args (rw (h, same, copy-any_of t func) at e)
  ]

  resolve-same :
      (key : Bytes) (t : ℕ) (func : C t) (args : Args t) (m : CreatorMap Args Result)
      → find key m ≡ some (any_of C t func)
      → resolve Args Result key t args m ≡ made (func args)
  unfolding resolve resolve_at call
  resolve-same key t func args m h = rw (h, copy-any_of t func, any_cast-any_of C t func) refl

  resolve-other :
      (key : Bytes) (t u : ℕ) (func : C t) (args : Args u) (m : CreatorMap Args Result)
      → find key m ≡ some (any_of C t func)
      → t ≢ u
      → resolve Args Result key u args m ≡ threw_bad_cast
  unfolding resolve resolve_at call
  resolve-other key t u func args m h apart =
      rw (h, copy-any_of t func, any_cast-other C t u func apart) refl

  -- In a container whose creators are what they say, registering under a free key succeeds and keeps the container so;
  -- resolving the key with the registered type calls the new creator, with any other type it throws `bad_cast`, every other
  -- key resolves as before, no resolution is undefined, and registering under the key once more throws.
  pub register-resolve :
      (key : Bytes) (t : ℕ) (func : C t) (m : CreatorMap Args Result)
      → IsSound m
      → find key m ≡ none
      → (n : CreatorMap Args Result) × (register_simple Args Result key t func m ≡ some n)
        × IsSound n
        × ((args : Args t) → resolve Args Result key t args n ≡ made (func args))
        × ((u : ℕ) (args : Args u) → t ≢ u → resolve Args Result key u args n ≡ threw_bad_cast)
        × ((q : Bytes) (u : ℕ) (args : Args u)
            → key ≢ q
            → resolve Args Result q u args n ≡ resolve Args Result q u args m)
        × ((q : Bytes) (u : ℕ) (args : Args u) → resolve Args Result q u args n ≢ undefined)
        × ((u : ℕ) (other : C u) → register_simple Args Result key u other n ≡ none)
  register-resolve key t func m sound absent =
      let n = insert key (any_of C t func) m in
      let found : find key n ≡ some (any_of C t func) =
        find-insert key key (any_of C t func) m ∙ rw (=?_self key) refl in
      let still = insert-IsSound key t func m sound in
      (
        n,
        registered key t func m absent,
        still,
        λ args. resolve-same key t func args n found,
        λ u args apart. resolve-other key t u func args n found apart,
        λ q u args apart. resolve-congr q u args n m (find-other key q (any_of C t func) m apart),
        λ q u args. resolve-defined q u args n still,
        λ u other. used key u other (any_of C t func) n found,
      )
