-- ===== src/StringUtil/Search/Ends.antt =====
-- What `EndsWith` decides.
use fast_db.Prelude.{
  ℕ, suc, ◌+◌, ◌≤◌, ◌<◌, Bool, true, false, [], ◌∷◌, ◌++◌, append-nil, Bytes, Option, none, some,
  ==_iff, length, length-append, ◌≡◌, ◌↔◌, ◌⊎◌, refl, arith, ap, ◌∙◌, inl, inr, Option-cases,
  Bool-cases,
}
use native.Mathlib.Decide.{dec_lt}
use fast_db.Prelude.Size.{size_sub, npos, position}
use fast_db.StringUtil.Search.{
  is_prefix, is_prefix_iff, is_prefix_self, Occurs, Occurs-here, later, rfind, ends_with,
}

is_prefix-length : (p s : Bytes) → is_prefix p s ≡ true → length p ≤ length s
is_prefix-length p s h =
    let (rest, e) = (is_prefix_iff p s).0 h in
    omega (arith, ap (λ (t : Bytes). length t) e, length-append p rest)

later-some :
    (o : Option ℕ) (b : Bool) (i : ℕ)
    → later o b ≡ some i
    → ((j : ℕ) × (o ≡ some j) × (i ≡ suc j)) ⊎ ((b ≡ true) × (i ≡ 0))
unfolding later
later-some (some j) b i h = inl (j, refl, ground arith)
later-some none true i h = inr (refl, ground arith)
later-some none false i h = cc

rfind-Occurs : (p s : Bytes) (i : ℕ) → rfind p s ≡ some i → Occurs p s i
unfolding rfind
rfind-Occurs p [] i h = elim (Bool-cases (is_prefix p [])) [
  | inl e ↦ let (a, b, q, n) = Occurs-here p [] e in (a, b, q, ground arith)
  | inr e ↦ absurd (ground arith)
]
rfind-Occurs p (c ∷ s) i h = elim (later-some (rfind p s) (is_prefix p (c ∷ s)) i h) [
  | inl (j, f, g) ↦
      let (a, b, q, n) = rfind-Occurs p s j f in
      (c ∷ a, b, ap (λ (t : Bytes). c ∷ t) q, omega arith)
  | inr (e, z) ↦ let (a, b, q, n) = Occurs-here p (c ∷ s) e in (a, b, q, omega arith)
]

rfind-bound : (p s : Bytes) (i : ℕ) → rfind p s ≡ some i → i + length p ≤ length s
rfind-bound p s i h =
    let (a, b, q, n) = rfind-Occurs p s i h in
    omega (arith, ap (λ (t : Bytes). length t) q, length-append a (p ++ b), length-append p b)

rfind-long : (p s : Bytes) → length s < length p → rfind p s ≡ none
rfind-long p s h = elim (Option-cases (rfind p s)) [
  | inl e ↦ e
  | inr (i, e) ↦ absurd (omega (arith, rfind-bound p s i e))
]

rfind_self : (p : Bytes) → rfind p p ≡ some 0
unfolding rfind later is_prefix
rfind_self [] = refl
rfind_self (c ∷ p) =
    rw (rfind-long (c ∷ p) p (omega arith))
      (rw (rw (append-nil p) at (is_prefix_self p []), (==_iff c c).1 refl))

-- The last occurrence of a suffix is the suffix.
rfind-suffix : (front p : Bytes) → rfind p (front ++ p) ≡ some (length front)
unfolding rfind later
rfind-suffix [] p = rfind_self p
rfind-suffix (c ∷ front) p = rw (rfind-suffix front p)

length-eq-zero : (b : Bytes) → length b ≡ 0 → b ≡ []
length-eq-zero [] h = refl
length-eq-zero (c ∷ b) h = absurd (omega arith)

suffix_of :
    (p s : Bytes) (i : ℕ)
    → rfind p s ≡ some i
    → i + length p ≡ length s
    → (front : Bytes) × (s ≡ front ++ p)
suffix_of p s i h n =
    let (a, b, q, m) = rfind-Occurs p s i h in
    let nothing : b ≡ [] = length-eq-zero b (
      omega (arith, ap (λ (t : Bytes). length t) q, length-append a (p ++ b), length-append p b)) in
    (a, q ∙ ap (λ (t : Bytes). a ++ t) (ap (λ (t : Bytes). p ++ t) nothing ∙ append-nil p))

-- For texts that fit a `std::size_t`, `EndsWith` says true in two cases: if the text is something with the suffix behind it,
-- and also, whatever the texts hold, if the suffix is longer than the text by exactly one byte, where `npos` and the
-- length that wraps around are the same number.
pub ends_with_iff :
    (str sub : Bytes)
    → length str < npos
    → length sub ≤ npos
    → (ends_with str sub ≡ true)
      ↔ (((front : Bytes) × (str ≡ front ++ sub)) ⊎ (length sub ≡ length str + 1))
unfolding ends_with position size_sub
ends_with_iff str sub fits fits' = (
  (λ h. elim (Option-cases (rfind sub str)) [
    | inl e ↦ elim (dec_lt (length str) (length sub)) [
      | yes longer ↦ inr (ground arith)
      | no fitting ↦ absurd (ground arith)
    ]
    | inr (i, e) ↦ let bound = rfind-bound sub str i e in inl (suffix_of sub str i e (ground arith))
  ]),
  (λ h. elim h [
    | inl (front, q) ↦
        let size = length-append front sub in
        rw q (ground (arith, rfind-suffix front sub, ap (λ (t : Bytes). length t) q))
    | inr longer ↦ ground (arith, rfind-long sub str)
  ]),
)
