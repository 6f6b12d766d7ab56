-- ===== src/Prelude/Assoc.antt =====
-- A `std::unordered_map` as an association list in which each key stands once.
use fast_db.Prelude.Tests.{if◌then◌else◌}
use fast_db.Prelude.Keys.{Eq, ◌=?◌}
use mathlib.Core.Path.{◌≡◌, refl}
use mathlib.Core.List.{List, [], ◌∷◌}
use mathlib.Core.Option.{Option, none, some}
use native.Mathlib.Omega.{arith}

abbrev pub Assoc {ℓ κ} : Type ℓ → Type κ → Type (ℓ ⊔ κ)
Assoc K V = List (K × V)

module _ {ℓ κ} {K : Type ℓ} {V : Type κ} ⦃e : Eq K⦄ where
  -- `find`, with `end()` as `none`
  unfoldable pub find : K → Assoc K V → Option V
  find k [] = none
  find k ((j, v) ∷ m) = if j =? k then some v else find k m

  -- `m[k] = v`
  unfoldable pub insert : K → V → Assoc K V → Assoc K V
  insert k v [] = (k, v) ∷ []
  insert k v ((j, w) ∷ m) = if j =? k then (j, v) ∷ m else (j, w) ∷ insert k v m

  -- `m.erase(k)`
  unfoldable pub erase : K → Assoc K V → Assoc K V
  erase k [] = []
  erase k ((j, w) ∷ m) = if j =? k then erase k m else (j, w) ∷ erase k m

  pub find-insert :
      (k q : K) (v : V) (m : Assoc K V)
      → find q (insert k v m) ≡ (if k =? q then some v else find q m)
  unfolding find insert
  find-insert k q v [] = refl
  find-insert k q v ((j, w) ∷ m) =
      ground (arith, e.beq_iff k q, e.beq_iff j k, e.beq_iff j q, find-insert k q v m)

  pub find-erase :
      (k q : K) (m : Assoc K V) → find q (erase k m) ≡ (if k =? q then none else find q m)
  unfolding find erase
  find-erase k q [] = ground arith
  find-erase k q ((j, w) ∷ m) =
      ground (arith, e.beq_iff k q, e.beq_iff j k, e.beq_iff j q, find-erase k q m)
