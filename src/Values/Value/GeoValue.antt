-- ===== src/Values/Value/GeoValue.antt =====
-- `GeoValue` of src/db/values.h: a `std::unordered_set` of points, with the comparisons and the hash of a
-- point. The operations of `double` are arguments.
use Prim.Native.Nat.{bit_xor}
use fast_db.Prelude.{
  ℕ, ◌*◌, ◌%◌, ◌^◌, Bool, true, false, not, ◌&&◌, ◌||◌, List, [], ◌∷◌, ◌++◌, if◌then◌else◌, ◌≡◌,
  arith, ◌↔◌,
}
use fast_db.Values.Value.Doubles.{Double, Point}

module _ (double : Double) where
  open double use {D}

  -- `operator<`: the latitude, then the longitude.
  unfoldable pub lt : Point D → Point D → Bool
  lt p q = if not (double.eq p.lat q.lat) then double.lt p.lat q.lat else double.lt p.lon q.lon

  -- `operator==`
  unfoldable pub eq : Point D → Point D → Bool
  eq p q = double.eq p.lat q.lat && double.eq p.lon q.lon

  -- `PointHasher`, in `std::size_t` of 64 bits.
  unfoldable pub hash : Point D → ℕ
  hash p = bit_xor (double.hash p.lat) (double.hash p.lon * 2 % 2 ^ 64)

  unfoldable pub contains : Point D → List (Point D) → Bool
  unfolding eq
  contains p [] = false
  contains p (q ∷ points) = eq q p || contains p points

  -- `insert`: an equal point that is there already stays.
  unfoldable pub add : D → D → List (Point D) → List (Point D)
  unfolding contains
  add lat lon points =
      let p : Point D = record { lat = lat; lon = lon } in
      if contains p points then points else points ++ p ∷ []

  -- What holds of `double` where no NaN is compared: a total order, and a hash that agrees with `==`.
  pub record IsOrdered : Type 0 where
    pub eq_refl : (a : D) → double.eq a a ≡ true
    pub eq_symm : (a b : D) → double.eq a b ≡ true → double.eq b a ≡ true
    pub eq_trans : (a b c : D) → double.eq a b ≡ true → double.eq b c ≡ true → double.eq a c ≡ true
    pub lt_trans : (a b c : D) → double.lt a b ≡ true → double.lt b c ≡ true → double.lt a c ≡ true
    pub lt_irrefl : (a b : D) → double.eq a b ≡ true → double.lt a b ≡ false
    pub lt_congr_left : (a b c : D) → double.eq a b ≡ true → double.lt b c ≡ double.lt a c
    pub lt_congr_right : (a b c : D) → double.eq a b ≡ true → double.lt c a ≡ double.lt c b
    pub lt_total : (a b : D) → double.eq a b ≡ false → double.lt a b ≡ not (double.lt b a)
    pub hash-eq : (a b : D) → double.eq a b ≡ true → double.hash a ≡ double.hash b

  -- Where no NaN is compared, `operator<` on points is transitive, two points are equal exactly when neither is below the
  -- other, and equal points have equal hashes, as the ordered and the hashed containers require.
  pub point_order :
      IsOrdered
      → (p q r : Point D)
      → (lt p q ≡ true → lt q r ≡ true → lt p r ≡ true)
        × ((eq p q ≡ true) ↔ ((lt p q ≡ false) × (lt q p ≡ false)))
        × (eq p q ≡ true → hash p ≡ hash q)
  unfolding lt eq hash
  point_order o p q r = (
    (λ h k. ground (
      arith,
      o.eq_trans p.lat q.lat r.lat,
      o.lt_trans p.lat q.lat r.lat,
      o.lt_trans p.lon q.lon r.lon,
      o.lt_congr_left p.lat q.lat r.lat,
      o.lt_congr_right q.lat r.lat p.lat,
      o.lt_irrefl p.lat r.lat,
    )),
    (
      (λ h. (
        ground (arith, o.lt_irrefl p.lon q.lon),
        ground (arith, o.eq_symm p.lat q.lat, o.eq_symm p.lon q.lon, o.lt_irrefl q.lon p.lon),
      )),
      (λ h. ground (
        arith,
        o.eq_symm p.lat q.lat,
        o.eq_symm p.lon q.lon,
        o.eq_symm q.lat p.lat,
        o.eq_symm q.lon p.lon,
        o.lt_total p.lat q.lat,
        o.lt_total p.lon q.lon,
      )),
    ),
    (λ h. ground (arith, o.hash-eq p.lat q.lat, o.hash-eq p.lon q.lon)),
  )
