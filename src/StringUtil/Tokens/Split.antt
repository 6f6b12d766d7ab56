-- ===== src/StringUtil/Tokens/Split.antt =====
-- `Split`: its tokens, and what it does to the text that it is given.
use fast_db.Prelude.{
  ℕ, Bool, true, false, [], ◌∷◌, ◌++◌, append-nil, Bytes, All, ◌≡◌, ◌≢◌, refl, arith, ap, ◌∙◌, inl,
  inr, Bool-cases,
}
use mathlib.Core.Path.{subst}
use fast_db.StringUtil.Trimming.{is_in}
use fast_db.StringUtil.Tokens.{span, Found, nothing, last, more, classify, strtok_r}

module _ (delimiter : Bytes) where
  abbrev pub In : ℕ → Type 0
  In c = is_in c delimiter ≡ true

  abbrev pub Out : ℕ → Type 0
  Out c = is_in c delimiter ≡ false

  span-append : (b : Bool) (s : Bytes) → (span b delimiter s).0 ++ (span b delimiter s).1 ≡ s
  unfolding span
  span-append b [] = refl
  span-append true (c ∷ s) = ground (arith, span-append true s)
  span-append false (c ∷ s) = ground (arith, span-append false s)

  span-true-All : (s : Bytes) → All In (span true delimiter s).0
  unfolding span
  span-true-All [] = tt
  span-true-All (c ∷ s) = elim (Bool-cases (is_in c delimiter)) [
    | inl e ↦ rw e (e, span-true-All s)
    | inr e ↦ rw e tt
  ]

  span-false-All : (s : Bytes) → All Out (span false delimiter s).0
  unfolding span
  span-false-All [] = tt
  span-false-All (c ∷ s) = elim (Bool-cases (is_in c delimiter)) [
    | inl e ↦ rw e tt
    | inr e ↦ rw e (e, span-false-All s)
  ]

  span-false-head : (s : Bytes) (c : ℕ) (r : Bytes) → (span false delimiter s).1 ≡ c ∷ r → In c
  unfolding span
  span-false-head [] c r h = cc
  span-false-head (d ∷ s) c r h = ground (arith, span-false-head s c r)

  -- What a call of `strtok_r` on `s` found, as facts.
  abbrev pub Facts : Bytes → Found → Type 0
  Facts s (nothing b) = (s ≡ b) × All In b
  Facts s (last b t) = (s ≡ b ++ t) × All In b × All Out t × (t ≢ [])
  Facts s (more b t r) = (d : ℕ) × (s ≡ b ++ (t ++ d ∷ r)) × All In b × All Out t × (t ≢ []) × In d

  classify-Facts :
      (b t rest : Bytes)
      → All In b
      → All Out t
      → ((c : ℕ) (r : Bytes) → rest ≡ c ∷ r → In c)
      → (t ≡ [] → rest ≡ [])
      → Facts (b ++ (t ++ rest)) (classify b t rest)
  unfolding classify
  classify-Facts b [] rest hb ht head stop = (rw (stop refl) (append-nil b), hb)
  classify-Facts b (c ∷ t) [] hb ht head stop = (rw append-nil, hb, ht, λ e. cc)
  classify-Facts b (c ∷ t) (d ∷ r) hb ht head stop = (d, refl, hb, ht, (λ e. cc), head d r refl)

  span-true-head : (s : Bytes) (c : ℕ) (r : Bytes) → (span true delimiter s).1 ≡ c ∷ r → Out c
  unfolding span
  span-true-head [] c r h = cc
  span-true-head (d ∷ s) c r h = ground (arith, span-true-head s c r)

  -- A text that begins with no delimiter has a token, if it is not empty.
  span-false-nil :
      (s : Bytes)
      → ((c : ℕ) (r : Bytes) → s ≡ c ∷ r → Out c)
      → (span false delimiter s).0 ≡ []
      → (span false delimiter s).1 ≡ []
  unfolding span
  span-false-nil [] h e = refl
  span-false-nil (c ∷ s) h e = let out = h c s refl in ground arith

  pub strtok_r-Facts : (s : Bytes) → Facts s (strtok_r delimiter s)
  unfolding strtok_r
  strtok_r-Facts s =
      let b = (span true delimiter s).0 in
      let body = (span true delimiter s).1 in
      let t = (span false delimiter body).0 in
      let rest = (span false delimiter body).1 in
      let whole : b ++ (t ++ rest) ≡ s =
        ap (λ (x : Bytes). b ++ x) (span-append false body) ∙ span-append true s in
      subst (λ x. Facts x (classify b t rest)) whole
        (classify-Facts b t rest (span-true-All s) (span-false-All body) (span-false-head body)
          (span-false-nil body (span-true-head s)))
