-- ===== src/StringUtil/Tokens/Strtok.antt =====
-- `Strtok` against a plain description: cut at every separator, and drop the empty parts but the last.
use fast_db.Prelude.{
  ℕ, zero, suc, ◌+◌, ◌<◌, List, [], ◌∷◌, ◌++◌, append_assoc, append-nil, Bytes, none, some,
  if◌then◌else◌, ◌==◌, take, drop, length, length-drop, ◌≡◌, ◌≢◌, refl, arith, sym, inl, inr,
  Option-cases,
}
use fast_db.StringUtil.Tokens.{find_first_of, push_part, strtok_loop, strtok_into, strtok}

-- A byte in front of the first part.
unfoldable pub extend : ℕ → List Bytes → List Bytes
extend c [] = []
extend c (p ∷ ps) = (c ∷ p) ∷ ps

-- The parts between the separators; there is one at least.
unfoldable pub parts : ℕ → Bytes → List Bytes
unfolding extend
parts separator [] = [] ∷ []
parts separator (c ∷ s) =
    let rest = parts separator s in if c == separator then [] ∷ rest else extend c rest

-- The parts without the empty ones, but always with the last.
unfoldable pub kept : List Bytes → List Bytes
kept [] = []
kept (p ∷ []) = p ∷ []
kept ([] ∷ q ∷ ps) = kept (q ∷ ps)
kept ((c ∷ p) ∷ q ∷ ps) = (c ∷ p) ∷ kept (q ∷ ps)

module _ (separator : ℕ) where
  find_first_of-bound : (s : Bytes) (i : ℕ) → find_first_of separator s ≡ some i → i < length s
  unfolding find_first_of
  find_first_of-bound [] i h = cc
  find_first_of-bound (c ∷ s) zero h = omega arith
  find_first_of-bound (c ∷ s) (suc i) h = ground (arith, find_first_of-bound s i)

  parts-none : (s : Bytes) → find_first_of separator s ≡ none → parts separator s ≡ s ∷ []
  unfolding find_first_of parts extend
  parts-none [] h = refl
  parts-none (c ∷ s) h = ground (arith, parts-none s)

  parts-some :
      (s : Bytes) (i : ℕ)
      → find_first_of separator s ≡ some i
      → parts separator s ≡ take i s ∷ parts separator (drop (i + 1) s)
  unfolding find_first_of parts extend
  parts-some [] i h = cc
  parts-some (c ∷ s) zero h = ground arith
  parts-some (c ∷ s) (suc i) h =
      let e : suc i + 1 ≡ suc (i + 1) = omega arith in rw e (ground (arith, parts-some s i))

  parts-ne-nil : (s : Bytes) → parts separator s ≢ []
  unfolding parts extend
  parts-ne-nil [] = ground arith
  parts-ne-nil (c ∷ s) = ground (arith, parts-ne-nil s)

  -- A part that is not empty, as a list.
  front : Bytes → List Bytes
  front [] = []
  front (c ∷ p) = (c ∷ p) ∷ []

  kept-cons : (p : Bytes) (ps : List Bytes) → ps ≢ [] → kept (p ∷ ps) ≡ front p ++ kept ps
  unfolding kept front
  kept-cons p [] h = absurd (h refl)
  kept-cons [] (q ∷ ps) h = refl
  kept-cons (c ∷ p) (q ∷ ps) h = refl

  push_part-front :
      (i : ℕ) (s : Bytes) (arr : List Bytes)
      → i < length s
      → push_part i s arr ≡ arr ++ front (take i s)
  unfolding push_part front
  push_part-front zero s arr h = sym (append-nil arr)
  push_part-front (suc i) [] arr h = absurd (omega arith)
  push_part-front (suc i) (c ∷ s) arr h = ground arith

  module _ (fuel : ℕ) (s : Bytes) (arr : List Bytes) where
    strtok_loop_end :
        find_first_of separator s ≡ none → strtok_loop (suc fuel) separator s arr ≡ arr ++ s ∷ []
    unfolding strtok_loop
    strtok_loop_end e = rw (e, strtok_loop)

    strtok_loop_step :
        (i : ℕ)
        → find_first_of separator s ≡ some i
        → strtok_loop (suc fuel) separator s arr
          ≡ strtok_loop fuel separator (drop (i + 1) s) (push_part i s arr)
    unfolding strtok_loop
    strtok_loop_step i e = rw (e, strtok_loop)

  strtok_loop-kept :
      (fuel : ℕ) (s : Bytes) (arr : List Bytes)
      → length s < fuel
      → strtok_loop fuel separator s arr ≡ arr ++ kept (parts separator s)
  strtok_loop-kept zero s arr h = absurd (omega arith)
  strtok_loop-kept (suc fuel) s arr h = elim (Option-cases (find_first_of separator s)) [
    | inl e ↦ rw (parts-none s e) (unfold kept in strtok_loop_end fuel s arr e)
    | inr (i, e) ↦
        let bound = find_first_of-bound s i e in
        let shorter = length-drop (i + 1) s in
        rw
          (
            parts-some s i e,
            kept-cons (take i s) (parts separator (drop (i + 1) s)) (parts-ne-nil (drop (i + 1) s)),
            ← append_assoc arr (front (take i s)) (kept (parts separator (drop (i + 1) s))),
            ← push_part-front i s arr bound,
            strtok_loop_step fuel s arr i e,
          )
          (strtok_loop-kept fuel (drop (i + 1) s) (push_part i s arr) (omega arith))
  ]

-- Both forms of `Strtok` give the parts between the separators without the empty ones, but always with the last, be it
-- empty or not; the form that takes a list appends them to it. No fuel runs out.
pub strtok-kept :
    (str : Bytes) (separator : ℕ) (arr : List Bytes)
    → (strtok str separator ≡ kept (parts separator str))
      × (strtok_into str separator arr ≡ arr ++ kept (parts separator str))
unfolding strtok strtok_into
strtok-kept str separator arr = (
  strtok_loop-kept separator (suc (length str)) str [] (omega arith),
  strtok_loop-kept separator (suc (length str)) str arr (omega arith),
)
