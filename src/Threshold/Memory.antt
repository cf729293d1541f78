-- ===== src/Threshold/Memory.antt =====
-- The status of the local memory as a function of the ratio in use.
use sidle.Base.{ℕ, ◌≤◌, ◌≡◌, true, false, arith, ◌↔◌}
use sidle.Meta.{MemUsageStatus, tight, sufficient, normal}
use sidle.Threshold.{Floats, check_memory_usage}

-- The comparison of `double`s, away from NaN: a strict order in which what is not below a number
-- carries over. The two literals are in their order.
pub record IsOrdered (floats : Floats) : Type 0 where
  pub asym : (x y : floats.Float) → floats.lt x y ≡ true → floats.lt y x ≡ false
  pub trans :
      (x y z : floats.Float) → floats.lt x y ≡ false → floats.lt y z ≡ false → floats.lt x z ≡ false
  pub marks : floats.lt (floats.percent 85) (floats.percent 95) ≡ true

-- How pressing a status is.
pub pressure : MemUsageStatus → ℕ
pressure sufficient = 0
pressure normal = 1
pressure tight = 2

module _ (floats : Floats) (order : IsOrdered floats) where
  open floats use {Float, lt, percent}

  -- The status is tight exactly above 0.95 and sufficient exactly below 0.85, and a higher ratio
  -- never gives a less pressing status.
  pub check_memory_usage_mono :
      (r r' : Float)
      → lt r' r ≡ false
      → ((check_memory_usage floats r ≡ tight) ↔ (lt (percent 95) r ≡ true))
        × ((check_memory_usage floats r ≡ sufficient) ↔ (lt r (percent 85) ≡ true))
        × (pressure (check_memory_usage floats r) ≤ pressure (check_memory_usage floats r'))
  unfolding check_memory_usage pressure
  check_memory_usage_mono r r' below = ground (
    arith,
    order.asym (percent 95) r,
    order.asym (percent 85) (percent 95),
    order.asym r (percent 85),
    order.asym r' (percent 85),
    order.trans r (percent 85) (percent 95),
    order.trans r (percent 95) (percent 85),
    order.trans (percent 95) r' r,
    order.trans r' r (percent 85),
    order.trans r r' (percent 85),
    order.trans (percent 95) r (percent 85),
    order.trans (percent 95) (percent 85) r,
    order.marks,
  )
