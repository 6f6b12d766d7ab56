-- ===== src/StringUtil/Search.antt =====
-- `StartsWith`, `EndsWith` and `Contains`, over `std::string`'s `find` and `rfind`.
pub mod Ends
use fast_db.Prelude.{
  ℕ, zero, suc, ◌+◌, ◌-◌, ◌^◌, ◌≤◌, ◌<◌, Bool, true, false, ◌&&◌, List, [], ◌∷◌, ◌++◌, Bytes, codes,
  Option, none, some, if◌then◌else◌, ◌==◌, ==_iff, length, length-append, ◌≡◌, ◌≢◌, ◌↔◌, refl,
  arith, sym, ap, ◌∙◌, inl, inr, Option-cases, Bool-cases,
}
use fast_db.Prelude.Size.{size_sub, npos, position}

unfoldable pub is_prefix : Bytes → Bytes → Bool
is_prefix [] s = true
is_prefix (c ∷ p) [] = false
is_prefix (c ∷ p) (d ∷ s) = (c == d) && is_prefix p s

unfoldable pub shift : Option ℕ → Option ℕ
shift none = none
shift (some i) = some (suc i)

-- The first position at which `p` occurs.
unfoldable pub find : Bytes → Bytes → Option ℕ
unfolding is_prefix shift
find p [] = if is_prefix p [] then some 0 else none
find p (c ∷ s) = let rest = find p s in if is_prefix p (c ∷ s) then some 0 else shift rest

-- The position that `rfind` prefers to a match at the front.
unfoldable pub later : Option ℕ → Bool → Option ℕ
later (some i) here = some (suc i)
later none true = some 0
later none false = none

-- The last position at which `p` occurs.
unfoldable pub rfind : Bytes → Bytes → Option ℕ
unfolding is_prefix later
rfind p [] = if is_prefix p [] then some 0 else none
rfind p (c ∷ s) = later (rfind p s) (is_prefix p (c ∷ s))

unfoldable pub starts_with : Bytes → Bytes → Bool
unfolding find position
starts_with str sub = position (find sub str) == 0

unfoldable pub ends_with : Bytes → Bytes → Bool
unfolding rfind position size_sub
ends_with str sub = position (rfind sub str) == size_sub (length str) (length sub)

unfoldable pub contains : Bytes → Bytes → Bool
unfolding find
contains str token = elim (find token str) [ none ↦ false | some i ↦ true ]

pub is_prefix_iff : (p s : Bytes) → (is_prefix p s ≡ true) ↔ ((rest : Bytes) × (s ≡ p ++ rest))
unfolding is_prefix
is_prefix_iff [] s = ((λ _. (s, refl)), (λ _. refl))
is_prefix_iff (c ∷ p) [] = ((λ h. cc), (λ (rest, e). cc))
is_prefix_iff (c ∷ p) (d ∷ s) = (
  (λ h. let (rest, e) = (is_prefix_iff p s).0 (ground arith) in (rest, ground arith)),
  (λ (rest, e). ground (arith, (is_prefix_iff p s).1 (rest, ground arith))),
)

find-eq-zero : (p s : Bytes) → (position (find p s) ≡ 0) ↔ (is_prefix p s ≡ true)
unfolding find position
find-eq-zero p [] = ground arith
find-eq-zero p (c ∷ s) = ground arith

-- `StartsWith` tells whether the text is the prefix with something behind it.
pub starts_with_iff :
    (str sub : Bytes) → (starts_with str sub ≡ true) ↔ ((rest : Bytes) × (str ≡ sub ++ rest))
unfolding starts_with
starts_with_iff str sub = (
  (λ h. (is_prefix_iff sub str).0 ((find-eq-zero sub str).0 (ground arith))),
  (λ h. ground (arith, (find-eq-zero sub str).1 ((is_prefix_iff sub str).1 h))),
)

pub is_prefix_self : (p : Bytes) (s : Bytes) → is_prefix p (p ++ s) ≡ true
is_prefix_self p s = (is_prefix_iff p (p ++ s)).1 (s, refl)

-- A text with `p` at position `i`.
abbrev pub Occurs : Bytes → Bytes → ℕ → Type 0
Occurs p s i = (a : Bytes) × (b : Bytes) × (s ≡ a ++ (p ++ b)) × (length a ≡ i)

pub Occurs-cons : (p s : Bytes) (i c : ℕ) → Occurs p s i → Occurs p (c ∷ s) (suc i)
Occurs-cons p s i c (a, b, e, n) = (c ∷ a, b, ap (λ (t : Bytes). c ∷ t) e, ap suc n)

pub Occurs-here : (p s : Bytes) → is_prefix p s ≡ true → Occurs p s 0
Occurs-here p s h = let (rest, e) = (is_prefix_iff p s).0 h in ([], rest, e, refl)

shift-some : (o : Option ℕ) (i : ℕ) → shift o ≡ some i → (j : ℕ) × (o ≡ some j) × (i ≡ suc j)
unfolding shift
shift-some none i h = cc
shift-some (some j) i h = (j, refl, ground arith)

find-Occurs : (p s : Bytes) (i : ℕ) → find p s ≡ some i → Occurs p s i
unfolding find
find-Occurs p [] i h = elim (Bool-cases (is_prefix p [])) [
  | inl e ↦ let (a, b, q, n) = Occurs-here p [] e in (a, b, q, ground arith)
  | inr e ↦ absurd (ground arith)
]
find-Occurs p (c ∷ s) i h = elim (Bool-cases (is_prefix p (c ∷ s))) [
  | inl e ↦ let (a, b, q, n) = Occurs-here p (c ∷ s) e in (a, b, q, ground arith)
  | inr e ↦
      let (j, f, g) = shift-some (find p s) i (ground arith) in
      let (a, b, q, n) = find-Occurs p s j f in (c ∷ a, b, ap (λ (t : Bytes). c ∷ t) q, omega arith)
]

find_there : (p a b : Bytes) → find p (a ++ (p ++ b)) ≢ none
unfolding find shift position
find_there p [] b = ground (arith, (find-eq-zero p (p ++ b)).1 (is_prefix_self p b))
find_there p (c ∷ a) b = ground (arith, find_there p a b)

-- `Contains` tells whether the token stands somewhere in the text.
pub contains_iff :
    (str token : Bytes)
    → (contains str token ≡ true) ↔ ((a : Bytes) × (b : Bytes) × (str ≡ a ++ (token ++ b)))
unfolding contains
contains_iff str token = (
  (λ h. elim (Option-cases (find token str)) [
    | inl e ↦ absurd (ground arith)
    | inr (i, e) ↦ let (a, b, q, n) = find-Occurs token str i e in (a, b, q)
  ]),
  (λ (a, b, q). rw q (ground (arith, find_there token a b))),
)
