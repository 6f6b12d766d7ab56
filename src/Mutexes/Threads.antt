-- ===== src/Mutexes/Threads.antt =====
-- Sums over the threads of a system, for counting those in a phase.
use fast_db.Prelude.{
  ℕ, zero, suc, ◌+◌, ◌≤◌, List, [], ◌∷◌, some, get_elem?, set, ◌≡◌, refl, arith, ap,
}

module _ {A : Type 0} where
  unfoldable pub sum_of : (A → ℕ) → List A → ℕ
  sum_of w [] = 0
  sum_of w (p ∷ ps) = w p + sum_of w ps

  -- One thread moves from phase `p` to phase `q`.
  pub sum_of-set :
      (w : A → ℕ) (ps : List A) (i : ℕ) (p q : A)
      → get_elem? ps i ≡ some p
      → sum_of w (set ps i q) + w p ≡ sum_of w ps + w q
  unfolding sum_of
  sum_of-set w [] i p q h = cc
  sum_of-set w (x ∷ ps) zero p q h = let same : x ≡ p = cc in omega (arith, ap w same)
  sum_of-set w (x ∷ ps) (suc i) p q h = omega (arith, sum_of-set w ps i p q h)

  pub sum_of-at :
      (w : A → ℕ) (ps : List A) (i : ℕ) (p : A) → get_elem? ps i ≡ some p → w p ≤ sum_of w ps
  unfolding sum_of
  sum_of-at w [] i p h = cc
  sum_of-at w (x ∷ ps) zero p h = let same : x ≡ p = cc in omega (arith, ap w same)
  sum_of-at w (x ∷ ps) (suc i) p h = omega (arith, sum_of-at w ps i p h)

  -- Two threads that are not the same count twice.
  pub sum_of-pair :
      (w : A → ℕ) (ps : List A) (i j : ℕ) (p q : A)
      → get_elem? ps i ≡ some p
      → get_elem? ps j ≡ some q
      → (i ≡ j → ⊥)
      → w p + w q ≤ sum_of w ps
  unfolding sum_of
  sum_of-pair w [] i j p q h k apart = cc
  sum_of-pair w (x ∷ ps) zero zero p q h k apart = absurd (apart refl)
  sum_of-pair w (x ∷ ps) zero (suc j) p q h k apart =
      let same : x ≡ p = cc in omega (arith, ap w same, sum_of-at w ps j q k)
  sum_of-pair w (x ∷ ps) (suc i) zero p q h k apart =
      let same : x ≡ q = cc in omega (arith, ap w same, sum_of-at w ps i p h)
  sum_of-pair w (x ∷ ps) (suc i) (suc j) p q h k apart =
      omega (arith, sum_of-pair w ps i j p q h k (λ e. apart (ap suc e)))
