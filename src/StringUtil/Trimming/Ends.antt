-- ===== src/StringUtil/Trimming/Ends.antt =====
-- What trimming takes away and what it leaves.
use fast_db.Prelude.{
  ℕ, zero, suc, ◌+◌, ◌%◌, ◌^◌, ◌≤◌, ◌<◌, true, false, [], ◌∷◌, ◌++◌, Bytes, Option, none, some,
  if◌then◌else◌, take, drop, length, length-append, All, ◌≡◌, ◌≢◌, ◌⊎◌, refl, arith, ap, sym, ◌∙◌,
  inl, inr, Bool-cases, Option-cases,
}
use mathlib.Core.List.{concat-ne-nil}
use fast_db.Prelude.Size.{position, npos}
use fast_db.StringUtil.Trimming.{
  is_in, next, find_first_not_of, last_of, find_last_not_of, erase_front, erase_back, behind, trim,
}

module _ (token : Bytes) where
  -- The text without the bytes of the token at its front.
  drop_while : Bytes → Bytes
  drop_while [] = []
  drop_while (c ∷ s) = if is_in c token then drop_while s else c ∷ s

  -- A byte in front of what is left of the text behind it.
  put : ℕ → Bytes → Bytes
  put c [] = if is_in c token then [] else c ∷ []
  put c (d ∷ r) = c ∷ d ∷ r

  -- The text without the bytes of the token at its end.
  strip : Bytes → Bytes
  strip [] = []
  strip (c ∷ s) = put c (strip s)

drop_long : (n : ℕ) (s : Bytes) → length s ≤ n → drop n s ≡ []
drop_long zero [] h = refl
drop_long zero (c ∷ s) h = absurd (omega arith)
drop_long (suc n) [] h = refl
drop_long (suc n) (c ∷ s) h = drop_long n s (omega arith)

-- What is left behind a position, and up to one.
abbrev from : Option ℕ → Bytes → Bytes
from none s = []
from (some i) s = drop i s

abbrev up_to : Option ℕ → Bytes → Bytes
up_to none s = []
up_to (some i) s = take (suc i) s

drop-position : (o : Option ℕ) (s : Bytes) → length s ≤ npos → drop (position o) s ≡ from o s
unfolding position
drop-position none s h = drop_long npos s h
drop-position (some i) s h = refl

take-behind :
    (o : Option ℕ) (s : Bytes) → ((i : ℕ) → o ≡ some i → i < npos) → take (behind o) s ≡ up_to o s
unfolding behind
take-behind none s h = refl
take-behind (some i) s h =
    let small = h i refl in let e : (i + 1) % 2 ^ 64 ≡ suc i = omega arith in rw e

from-next : (o : Option ℕ) (c : ℕ) (s : Bytes) → from (next o) (c ∷ s) ≡ from o s
unfolding next
from-next none c s = refl
from-next (some i) c s = refl

module _ (token : Bytes) where
  abbrev In : ℕ → Type 0
  In c = is_in c token ≡ true

  from-find_first_not_of : (s : Bytes) → from (find_first_not_of token s) s ≡ drop_while token s
  unfolding find_first_not_of drop_while
  from-find_first_not_of [] = refl
  from-find_first_not_of (c ∷ s) = elim (Bool-cases (is_in c token)) [
    | inl e ↦ rw e (from-next (find_first_not_of token s) c s ∙ from-find_first_not_of s)
    | inr e ↦ rw e
  ]

  find_last_not_of-bound : (s : Bytes) (i : ℕ) → find_last_not_of token s ≡ some i → i < length s
  unfolding find_last_not_of last_of
  find_last_not_of-bound [] i h = cc
  find_last_not_of-bound (c ∷ s) i h = elim (Option-cases (find_last_not_of token s)) [
    | inl e ↦ ground arith
    | inr (j, e) ↦ ground (arith, find_last_not_of-bound s j e)
  ]

  put-ne-nil : (c : ℕ) (r : Bytes) → r ≢ [] → put token c r ≡ c ∷ r
  unfolding put
  put-ne-nil c [] h = absurd (h refl)
  put-ne-nil c (d ∷ r) h = refl

  take-ne-nil : (i : ℕ) (s : Bytes) → i < length s → take (suc i) s ≢ []
  take-ne-nil i [] h = absurd (omega arith)
  take-ne-nil i (c ∷ s) h = ground arith

  up_to-find_last_not_of : (s : Bytes) → up_to (find_last_not_of token s) s ≡ strip token s
  unfolding find_last_not_of strip last_of put
  up_to-find_last_not_of [] = refl
  up_to-find_last_not_of (c ∷ s) = elim (Option-cases (find_last_not_of token s)) [
    | inl e ↦
        let nothing : [] ≡ strip token s = rw e at (up_to-find_last_not_of s) in
        rw (e, ← nothing) (ground arith)
    | inr (i, e) ↦
        let rest : take (suc i) s ≡ strip token s = rw e at (up_to-find_last_not_of s) in
        rw (e, ← rest)
          (sym (put-ne-nil c (take (suc i) s) (take-ne-nil i s (find_last_not_of-bound s i e))))
  ]

  drop_while_split : (s : Bytes) → (left : Bytes) × (s ≡ left ++ drop_while token s) × All In left
  unfolding drop_while
  drop_while_split [] = ([], refl, tt)
  drop_while_split (c ∷ s) = elim (Bool-cases (is_in c token)) [
    | inl e ↦
        let (left, q, h) = drop_while_split s in
        (c ∷ left, rw e (ap (λ (t : Bytes). c ∷ t) q), (e, h))
    | inr e ↦ ([], rw e, tt)
  ]

  drop_while_head :
      (s : Bytes) (c : ℕ) (r : Bytes) → drop_while token s ≡ c ∷ r → is_in c token ≡ false
  unfolding drop_while
  drop_while_head [] c r h = cc
  drop_while_head (d ∷ s) c r h = ground (arith, drop_while_head s c r)

  -- `put` drops the byte, or keeps it.
  put_cases :
      (c : ℕ) (r : Bytes)
      → ((r ≡ []) × In c × (put token c r ≡ []))
        ⊎ ((put token c r ≡ c ∷ r) × (r ≡ [] → is_in c token ≡ false))
  unfolding put
  put_cases c [] = elim (Bool-cases (is_in c token)) [
    | inl e ↦ inl (refl, e, rw e)
    | inr e ↦ inr (rw e, λ _. e)
  ]
  put_cases c (d ∷ r) = inr (refl, λ h. cc)

  strip_split : (s : Bytes) → (right : Bytes) × (s ≡ strip token s ++ right) × All In right
  unfolding strip
  strip_split [] = ([], refl, tt)
  strip_split (c ∷ s) =
      let (right, q, h) = strip_split s in
      elim (put_cases c (strip token s)) [
        | inl (nothing, e, p) ↦
            (c ∷ right, rw p (ap (λ (t : Bytes). c ∷ t) (rw nothing at q)), (e, h))
        | inr (p, _) ↦ (right, rw p (ap (λ (t : Bytes). c ∷ t) q), h)
      ]

  last_of_front :
      (d : ℕ) (t r : Bytes) (c : ℕ)
      → d ∷ t ≡ r ++ c ∷ []
      → ((t ≡ []) × (d ≡ c)) ⊎ ((r' : Bytes) × (t ≡ r' ++ c ∷ []))
  last_of_front d t [] c h = inl (cc, cc)
  last_of_front d t (x ∷ r) c h = inr (r, cc)

  strip_last : (s : Bytes) (r : Bytes) (c : ℕ) → strip token s ≡ r ++ c ∷ [] → is_in c token ≡ false
  unfolding strip
  strip_last [] r c h = absurd (concat-ne-nil c r (sym h))
  strip_last (d ∷ s) r c h = elim (put_cases d (strip token s)) [
    | inl (nothing, e, p) ↦ absurd (concat-ne-nil c r (sym h ∙ p))
    | inr (p, final) ↦ elim (last_of_front d (strip token s) r c (sym p ∙ h)) [
      | inl (nothing, same) ↦ rw (← same) (final nothing)
      | inr (r', q) ↦ strip_last s r' c q
    ]
  ]

  strip_head : (s : Bytes) (c : ℕ) (r : Bytes) → strip token s ≡ c ∷ r → (t : Bytes) × (s ≡ c ∷ t)
  strip_head s c r h =
      let (right, q, _) = strip_split s in (r ++ right, q ∙ ap (λ (t : Bytes). t ++ right) h)

  trim-strip :
      (str : Bytes) → length str < npos → trim str token ≡ strip token (drop_while token str)
  unfolding trim erase_front erase_back
  trim-strip str fits =
      let (left, q, _) = drop_while_split str in
      let size = ap (λ (t : Bytes). length t) q in
      let parts = length-append left (drop_while token str) in
      let front =
        drop-position (find_first_not_of token str) str (omega arith)
        ∙ from-find_first_not_of str in
      rw front (
        take-behind _ (drop_while token str)
          (λ i e. omega (arith, find_last_not_of-bound (drop_while token str) i e))
        ∙ up_to-find_last_not_of (drop_while token str))

  -- For a text that fits a `std::size_t`, `Trim` takes only bytes of the token from the two ends of the text, and what is
  -- left neither begins nor ends with one.
  pub trim_lem :
      (str : Bytes)
      → length str < npos
      → ((left : Bytes) × (right : Bytes) × (str ≡ left ++ (trim str token ++ right))
          × All (λ c. is_in c token ≡ true) left
          × All (λ c. is_in c token ≡ true) right)
        × ((c : ℕ) (r : Bytes) → trim str token ≡ c ∷ r → is_in c token ≡ false)
        × ((r : Bytes) (c : ℕ) → trim str token ≡ r ++ c ∷ [] → is_in c token ≡ false)
  trim_lem str fits =
      let d = drop_while token str in
      let (left, q, hl) = drop_while_split str in
      let (right, p, hr) = strip_split d in
      rw (trim-strip str fits) (
        (left, right, q ∙ ap (λ (t : Bytes). left ++ t) p, hl, hr),
        (λ c r e. let (t, f) = strip_head d c r e in drop_while_head str c t f),
        (λ r c e. strip_last d r c e),
      )
