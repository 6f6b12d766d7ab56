-- ===== src/Values/Value/Doubles.antt =====
-- `double` as src/db/values.h uses it, and `GeoValue::Point`.
use fast_db.Prelude.{ℕ, Bool, Bytes}

-- What the program uses of `double`: its comparisons, its hash and how a stream prints it.
pub record Double : Type 1 where
  pub D : Type 0
  pub lt : D → D → Bool
  pub eq : D → D → Bool
  pub hash : D → ℕ
  pub print : D → Bytes

pub record Point (D : Type 0) : Type 0 where
  pub lat : D
  pub lon : D
