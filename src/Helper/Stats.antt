-- ===== src/Helper/Stats.antt =====
-- `min_max`, `max`, `max_range` and `mean` of src/helper.h, over any type with a test for `<`. A
-- failing `assert` is `none`.
pub mod Laws
use sidle.Base.{
  ℕ, zero, suc, ◌-◌, Bool, Option, none, some, List, [], ◌∷◌, length, drop, ◌==◌, if◌then◌else◌,
}

module _ {ℓ} {A : Type ℓ} (less : A → A → Bool) where
  unfoldable pub min_max_loop : List A → A × A → A × A
  min_max_loop [] r = r
  min_max_loop (val ∷ vals) (max, min) =
      min_max_loop vals (if less max val then val else max, if less val min then val else min)

  -- The largest and the smallest value.
  unfoldable pub min_max : List A → Option (A × A)
  min_max [] = none
  min_max (val ∷ vals) = some (min_max_loop (val ∷ vals) (val, val))

  unfoldable pub max_loop : List A → A → A
  max_loop [] max = max
  max_loop (val ∷ vals) max = max_loop vals (if less max val then val else max)

  unfoldable pub max : List A → Option A
  max [] = none
  max (val ∷ vals) = some (max_loop (val ∷ vals) val)

  -- The loop of `max_range`, over the number of steps to the end and the values from `iter` on.
  unfoldable pub max_range_loop : ℕ → List A → A → A
  max_range_loop zero vals max = max
  max_range_loop (suc n) [] max = max
  max_range_loop (suc n) (val ∷ vals) max =
      max_range_loop n vals (if less max val then val else max)

  max_from : ℕ → List A → Option A
  max_from n [] = none
  max_from n (val ∷ vals) = some (max_range_loop n (val ∷ vals) val)

  -- The iterators are indices into `vals`.
  unfoldable pub max_range : List A → ℕ → ℕ → Option A
  unfolding max_from
  max_range vals begin end = if end == begin then none else max_from (end - begin) (drop begin vals)

module _ {ℓ κ} {A : Type ℓ} {Double : Type κ} (nought : Double) (of_val : A → Double)
    (of_size : ℕ → Double) (plus over : Double → Double → Double) where
  unfoldable pub mean_loop : List A → Double → Double
  mean_loop [] sum = sum
  mean_loop (val ∷ vals) sum = mean_loop vals (plus sum (of_val val))

  -- The arithmetic of `double` is a parameter.
  unfoldable pub mean : List A → Double
  mean vals = over (mean_loop vals nought) (of_size (length vals))
