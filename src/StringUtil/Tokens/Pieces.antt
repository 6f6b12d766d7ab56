-- ===== src/StringUtil/Tokens/Pieces.antt =====
-- `Split` against a reader that goes through the text byte by byte.
use fast_db.Prelude.{
  ℕ, zero, suc, ◌<◌, List, [], ◌∷◌, ◌++◌, append_assoc, append-nil, Bytes, if◌then◌else◌, length,
  length-append, All, ◌≡◌, ◌≢◌, refl, arith, ap, sym, ◌∙◌,
}
use fast_db.StringUtil.Trimming.{is_in}
use fast_db.StringUtil.Tokens.{Found, nothing, last, more, strtok_r, split_loop, c_string, split}
use fast_db.StringUtil.Tokens.Split.{In, Out, Facts, strtok_r-Facts}

unfoldable pub flush : Bytes → List Bytes
flush [] = []
flush (c ∷ token) = (c ∷ token) ∷ []

-- The non-empty pieces between delimiters. `token` has the bytes of the piece that is being read.
unfoldable pub pieces : Bytes → Bytes → Bytes → List Bytes
unfolding is_in
pieces delimiter token [] = flush token
pieces delimiter token (c ∷ s) =
    if is_in c delimiter
    then flush token ++ pieces delimiter [] s
    else pieces delimiter (token ++ c ∷ []) s

module _ (delimiter : Bytes) where
  pieces-blank :
      (b s : Bytes) → All (In delimiter) b → pieces delimiter [] (b ++ s) ≡ pieces delimiter [] s
  unfolding pieces flush
  pieces-blank [] s h = refl
  pieces-blank (c ∷ b) s (e, h) = rw e (pieces-blank b s h)

  pieces-token :
      (token t s : Bytes)
      → All (Out delimiter) t
      → pieces delimiter token (t ++ s) ≡ pieces delimiter (token ++ t) s
  unfolding pieces
  pieces-token token [] s h = rw append-nil refl
  pieces-token token (c ∷ t) s (e, h) =
      rw e (rw (pieces-token (token ++ c ∷ []) t s h, append_assoc) refl)

  flush-token : (t : Bytes) → t ≢ [] → flush t ≡ t ∷ []
  unfolding flush
  flush-token [] h = absurd (h refl)
  flush-token (c ∷ t) h = refl

  pieces-last :
      (b t : Bytes)
      → All (In delimiter) b
      → All (Out delimiter) t
      → t ≢ []
      → pieces delimiter [] (b ++ t) ≡ t ∷ []
  unfolding pieces
  pieces-last b t hb ht h =
      pieces-blank b t hb
      ∙ ap (pieces delimiter []) (sym (append-nil t))
      ∙ pieces-token [] t [] ht
      ∙ flush-token t h

  pieces-more :
      (b t s : Bytes) (d : ℕ)
      → All (In delimiter) b
      → All (Out delimiter) t
      → t ≢ []
      → In delimiter d
      → pieces delimiter [] (b ++ (t ++ d ∷ s)) ≡ t ∷ pieces delimiter [] s
  unfolding pieces
  pieces-more b t s d hb ht h e =
      rw (pieces-blank b (t ++ d ∷ s) hb, pieces-token [] t (d ∷ s) ht, e, flush-token t h) refl

  pieces-nothing : (b : Bytes) → All (In delimiter) b → pieces delimiter [] b ≡ []
  unfolding pieces flush
  pieces-nothing [] h = refl
  pieces-nothing (c ∷ b) (e, h) = rw (e, pieces-nothing b h) refl

  length-more : (b t s : Bytes) (d n : ℕ) → length (b ++ (t ++ d ∷ s)) < suc n → length s < n
  length-more b t s d n h = ground (arith, length-append b (t ++ d ∷ s), length-append t (d ∷ s), h)

  split_loop_step :
      (n : ℕ) (s : Bytes)
      → split_loop (suc n) delimiter s ≡ elim (strtok_r delimiter s) [
        | nothing blank ↦ record { tokens = []; buffer = blank }
        | last blank token ↦ record { tokens = token ∷ []; buffer = blank ++ token }
        | more blank token rest ↦
            let cut = split_loop n delimiter rest in
            record { tokens = token ∷ cut.tokens; buffer = blank ++ (token ++ 0 ∷ cut.buffer) }
      ]
  unfolding split_loop
  split_loop_step n s = refl

  found-pieces :
      (n : ℕ) (s : Bytes)
      → ((r : Bytes) → length r < n → (split_loop n delimiter r).tokens ≡ pieces delimiter [] r)
      → length s < suc n
      → (found : Found) → strtok_r delimiter s ≡ found
      → Facts delimiter s found
      → (split_loop (suc n) delimiter s).tokens ≡ pieces delimiter [] s
  found-pieces n s ih le (nothing b) e (whole, hb) =
      rw (split_loop_step n s, e) (rw (whole, pieces-nothing b hb) refl)
  found-pieces n s ih le (last b t) e (whole, hb, ht, h) =
      rw (split_loop_step n s, e) (rw (whole, pieces-last b t hb ht h) refl)
  found-pieces n s ih le (more b t r) e (d, whole, hb, ht, h, hd) =
      rw (split_loop_step n s, e)
        (rw (whole, pieces-more b t r d hb ht h hd)
          (ap (λ (rest : List Bytes). t ∷ rest) (ih r (length-more b t r d n (rw (sym whole) le)))))

  split_loop-pieces :
      (n : ℕ) (s : Bytes) → length s < n → (split_loop n delimiter s).tokens ≡ pieces delimiter [] s
  split_loop-pieces zero s le = absurd (omega arith)
  split_loop-pieces (suc n) s le =
      found-pieces n s (split_loop-pieces n) le (strtok_r delimiter s) refl
        (strtok_r-Facts delimiter s)

-- The tokens of `Split` are the non-empty pieces between delimiters, in their order, of the text up to its first NUL, for
-- any text. The delimiters are the bytes of the second argument up to its first NUL; what stands behind it does not
-- separate.
pub split-pieces :
    (str delimiter : Bytes)
    → (split str delimiter).tokens ≡ pieces (c_string delimiter).0 [] (c_string str).0
unfolding split
split-pieces str delimiter =
    let s = (c_string str).0 in
    split_loop-pieces (c_string delimiter).0 (suc (length s)) s (omega arith)
