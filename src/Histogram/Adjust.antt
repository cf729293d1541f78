-- ===== src/Histogram/Adjust.antt =====
-- The thresholds that `adjust_threshold` derives from the histogram and the watermarks.
use native.Mathlib.Nat.{mul-le-mul_right, pow-le-pow_right}
use native.Mathlib.Numerals.{add-one}
use native.Mathlib.Decide.{dec_lt}
use sidle.Base.{
  ℕ, zero, suc, ◌+◌, ◌-◌, ◌*◌, ◌^◌, ◌≤◌, ◌<◌, ◌≡◌, ◌≢◌, ◌==◌, ◌⊎◌, inl, inr, List, Bool-cases,
  Option, none, some, arith, refl, sym, ap, ltb, false, get_or, drop, sum, sum-drop, sum-drop-le,
  drop_all, length, u64, u16,
}
use sidle.Threshold.{Threshold}
use sidle.Threshold.Watermarks.{IsApart}
use sidle.Histogram.{
  Histogram, mark, scan, hot_bucket, cold_bucket, active_lower_bound, inactive_upper_bound,
  adjust_threshold,
}

-- The leaves in bucket `i` and above.
abbrev pub above : List ℕ → ℕ → ℕ
above buckets i = sum (drop i buckets)

-- The highest bucket from which on there are more than `bound` leaves, if there is one.
abbrev pub IsCrossing : List ℕ → ℕ → Option ℕ → Type 0
IsCrossing buckets bound none = above buckets 0 ≤ bound
IsCrossing buckets bound (some k) =
    (bound < above buckets k) × (above buckets (suc k) ≤ bound) × (k < 16)

-- The same, as far as the buckets from `i` on tell.
abbrev IsCrossingFrom : List ℕ → ℕ → ℕ → Option ℕ → Type 0
IsCrossingFrom buckets bound i none = above buckets i ≤ bound
IsCrossingFrom buckets bound i (some k) = IsCrossing buckets bound (some k)

module _ (buckets : List ℕ) (lower upper : ℕ) (ordered : lower ≤ upper)
    (fits : sum buckets < 2 ^ 64) where
  here_is_above :
      (i active : ℕ)
      → active ≡ above buckets (suc i)
      → u64 (active + get_or buckets i 0) ≡ above buckets i
  here_is_above i active e =
      omega (arith, sum-drop i buckets, sum-drop-le 0 i buckets (omega arith))

  mark-IsCrossingFrom :
      (i : ℕ) (found : Option ℕ)
      → i < 16
      → IsCrossingFrom buckets lower (suc i) found
      → IsCrossingFrom buckets lower i (mark found (ltb lower (above buckets i)) i)
  unfolding mark
  mark-IsCrossingFrom i none h c = ground arith
  mark-IsCrossingFrom i (some k) h c = c

  crossed :
      (i : ℕ) (found : Option ℕ)
      → upper < above buckets i
      → IsCrossingFrom buckets lower i found
      → IsCrossing buckets lower found
  crossed i none h c = absurd (omega arith)
  crossed i (some k) h c = c

  scan-IsCrossing :
      (i active : ℕ) (found : Option ℕ)
      → i ≤ 16
      → active ≡ above buckets i
      → above buckets i ≤ upper
      → IsCrossingFrom buckets lower i found
      → let (f, l) = scan buckets lower upper i active found in
        IsCrossing buckets lower f × IsCrossing buckets upper l
  unfolding scan
  scan-IsCrossing zero active none h e low c = (c, low)
  scan-IsCrossing zero active (some k) h e low c = (c, low)
  scan-IsCrossing (suc i) active found h e low c =
      let next = mark-IsCrossingFrom i found h c in
      elim (Bool-cases (ltb upper (above buckets i))) [
        | inl past ↦
            rw (here_is_above i active e, past)
              (crossed i _ (ground arith) next, (ground arith, low, h))
        | inr not_yet ↦
            rw (here_is_above i active e, not_yet)
              (scan-IsCrossing i (above buckets i) _ (omega arith) refl (ground arith) next)
      ]

hot_watermark_le : {t : Threshold} → IsApart t → t.hot_watermark ≤ 100 - t.cold_watermark
hot_watermark_le v = omega arith

at_most_100 : (n : ℕ) → 100 - n ≤ 100
at_most_100 n = omega arith

-- The bounds are in order, without a wrap, where the hot and the cold shares are apart.
bounds_ordered :
    (t : Threshold) (total : ℕ)
    → IsApart t
    → total * 100 < 2 ^ 64
    → active_lower_bound t total ≤ inactive_upper_bound t total
unfolding active_lower_bound inactive_upper_bound
bounds_ordered t total v fits =
    let low = mul-le-mul_right total (hot_watermark_le v) in
    let high = mul-le-mul_right total (at_most_100 t.cold_watermark) in
    let share : u64 (2 ^ 64 + 100 - t.cold_watermark) ≡ 100 - t.cold_watermark =
      omega (arith, v.cold_low, v.whole) in
    let product = ap (λ x. x * total) share in omega arith

-- The bucket after the crossing, but the last one stays.
hot_bucket-above :
    (buckets : List ℕ) (lower k : ℕ)
    → IsCrossing buckets lower (some k)
    → (k ≤ hot_bucket (some k))
      × (hot_bucket (some k) < 16)
      × ((above buckets (hot_bucket (some k)) ≤ lower) ⊎ (hot_bucket (some k) ≡ 15))
unfolding hot_bucket
hot_bucket-above buckets lower k c = elim (Bool-cases (k == 15)) [
  | inl last ↦ rw last (ground arith, omega arith, inr refl)
  | inr before ↦ rw (before, add-one k) (omega arith, ground arith, inl c.1)
]

-- What the two indices of the loop say of the buckets that they become.
abbrev pub Splits : List ℕ → ℕ → ℕ → ℕ → ℕ → Type 0
Splits buckets lower upper hot_at cold_at =
    (cold_at ≤ hot_at)
    × (hot_at < 16)
    × ((above buckets hot_at ≤ lower) ⊎ (hot_at ≡ 15))
    × (above buckets (suc cold_at) ≤ upper)
    × ((upper < above buckets cold_at) ⊎ (cold_at ≡ 0))

crossings-Splits :
    (buckets : List ℕ) (lower upper : ℕ) (f l : Option ℕ)
    → lower ≤ upper
    → IsCrossing buckets lower f
    → IsCrossing buckets upper l
    → Splits buckets lower upper (hot_bucket f) (cold_bucket l)
unfolding cold_bucket
crossings-Splits buckets lower upper none none h c d =
    let less = sum-drop-le 0 1 buckets (omega arith) in
    unfold hot_bucket in (omega arith, omega arith, inl c, omega arith, inr refl)
crossings-Splits buckets lower upper none (some j) h c d =
    absurd (omega (arith, sum-drop-le 0 j buckets (omega arith)))
crossings-Splits buckets lower upper (some k) none h c d =
    let (low, few, hot) = hot_bucket-above buckets lower k c in
    let less = sum-drop-le 0 1 buckets (omega arith) in
    (omega arith, few, hot, omega arith, inr refl)
crossings-Splits buckets lower upper (some k) (some j) h c d =
    let (low, few, hot) = hot_bucket-above buckets lower k c in
    let j_le_k : j ≤ k = elim (dec_lt k j) [
      | yes less ↦ absurd (omega (arith, sum-drop-le (suc k) j buckets less))
      | no more ↦ omega arith
    ] in
    (omega arith, few, hot, d.1, inl d.0)

scan-Splits :
    (t : Threshold) (h : Histogram)
    → IsApart t
    → length h.histogram ≤ 16
    → sum h.histogram < 2 ^ 64
    → h.total_number * 100 < 2 ^ 64
    → let lower = active_lower_bound t h.total_number in
      let upper = inactive_upper_bound t h.total_number in
      let (f, l) = scan h.histogram lower upper 16 0 none in
      Splits h.histogram lower upper (hot_bucket f) (cold_bucket l)
scan-Splits t h v few fits total_fits =
    let lower = active_lower_bound t h.total_number in
    let upper = inactive_upper_bound t h.total_number in
    let ordered = bounds_ordered t h.total_number v total_fits in
    let none_above : 0 ≡ above h.histogram 16 = sym (ap sum (drop_all 16 h.histogram few)) in
    let (c, d) =
      scan-IsCrossing h.histogram lower upper ordered fits 16 0 none (omega arith) none_above
        (rw (← none_above) (omega arith)) (rw (← none_above) (omega arith)) in
    crossings-Splits h.histogram lower upper _ _ ordered c d

le_below : {j k : ℕ} → j ≤ k → k < 16 → j < 16
le_below h c = omega arith

le_fifteen : (k : ℕ) → k < 16 → k ≤ 15
le_fifteen k h = omega arith

power_fits : (k : ℕ) → k < 16 → u16 (2 ^ k) ≡ 2 ^ k
power_fits k h = omega (arith, pow-le-pow_right {n = 2} (omega arith) (le_fifteen k h))

-- With hot and cold shares that are apart, over a histogram of at most 16 buckets whose numbers
-- fit, `adjust_threshold` sets both thresholds to powers of two, the cold one at most the hot one.
-- The buckets from the hot one on hold at most the hot share of the leaves, unless that is the last
-- bucket; from the cold one on there are more leaves than are not to be cold, unless that is the
-- first, and above it there are not. There is at least one leaf.
pub adjust_threshold-Splits :
    (t : Threshold) (h : Histogram)
    → IsApart t
    → length h.histogram ≤ 16
    → sum h.histogram < 2 ^ 64
    → h.total_number * 100 < 2 ^ 64
    → h.total_number ≢ 0
    → (hot_at : ℕ) × (cold_at : ℕ) × ((adjust_threshold t h).hot_threshold ≡ 2 ^ hot_at)
      × ((adjust_threshold t h).cold_threshold ≡ 2 ^ cold_at)
      × Splits h.histogram
          (active_lower_bound t h.total_number)
          (inactive_upper_bound t h.total_number)
          hot_at
          cold_at
      × ((adjust_threshold t h).cold_threshold ≤ (adjust_threshold t h).hot_threshold)
unfolding adjust_threshold
adjust_threshold-Splits t h v few fits total_fits ne =
    let leaves : h.total_number == 0 ≡ false = ground arith in
    let s = scan-Splits t h v few fits total_fits in
    let hot_power = power_fits _ s.1 in
    let cold_power = power_fits _ (le_below s.0 s.1) in
    (
      _,
      _,
      rw leaves hot_power,
      rw leaves cold_power,
      s,
      rw (leaves, hot_power, cold_power) (pow-le-pow_right (omega arith) s.0),
    )
