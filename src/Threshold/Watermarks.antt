-- ===== src/Threshold/Watermarks.antt =====
-- The hotness watermarks, as percentages of the leaves.
use sidle.Base.{
  ℕ, zero, suc, ◌+◌, ◌-◌, ◌%◌, ltb, ◌≤◌, ◌<◌, ◌≡◌, refl, min, Bool, true, false, arith,
}
use sidle.Base.Int.{pos}
use sidle.Threshold.{Threshold, set_watermarks, set_hotness_watermarks, adjust_hotness_watermark}

-- The hot leaves and the cold ones are apart: even at their bounds the shares make at most 100.
pub record IsApart (t : Threshold) : Type 0 where
  pub hot_low : t.hot_watermark ≤ t.hot_watermark_upper_bound
  pub original_hot_low : t.original_hot_watermark ≤ t.hot_watermark_upper_bound
  pub cold_low : t.cold_watermark ≤ t.cold_watermark_upper_bound
  pub original_cold_low : t.original_cold_watermark ≤ t.cold_watermark_upper_bound
  pub whole : t.hot_watermark_upper_bound + t.cold_watermark_upper_bound ≤ 100

set_watermarks-IsApart : (t : Threshold) (p : ℕ) → p ≤ 100 → IsApart (set_watermarks (pos p) t)
unfolding set_watermarks
set_watermarks-IsApart t p h = ground arith

set_hotness_watermarks-IsApart :
    (t : Threshold) (n : ℕ) → n < 85 → IsApart (set_hotness_watermarks n t)
unfolding set_hotness_watermarks
set_hotness_watermarks-IsApart t n h = ground arith

adjust-IsApart :
    (t : Threshold) (is_restore hotter : Bool)
    → IsApart t
    → IsApart (adjust_hotness_watermark is_restore hotter t)
unfolding adjust_hotness_watermark
adjust-IsApart t true hotter v = ground arith
adjust-IsApart t false true v = ground arith
adjust-IsApart t false false v = ground arith

-- The constructor sets the watermarks apart for every percentage from 0 to 100, and
-- `set_hotness_watermarks` does for a lower bound below 85; `adjust_hotness_watermark` keeps them
-- apart.
pub watermarks-IsApart :
    (t : Threshold) (p lower_bound : ℕ) (is_restore hotter : Bool)
    → p ≤ 100
    → lower_bound < 85
    → IsApart t
    → IsApart (set_watermarks (pos p) t)
      × IsApart (set_hotness_watermarks lower_bound t)
      × IsApart (adjust_hotness_watermark is_restore hotter t)
watermarks-IsApart t p lower_bound is_restore hotter h k v = (
  set_watermarks-IsApart t p h,
  set_hotness_watermarks-IsApart t lower_bound k,
  adjust-IsApart t is_restore hotter v,
)

-- For a lower bound below 85, all that `set_hotness_watermarks` sets.
pub set_hotness_watermarks_lem :
    (t : Threshold) (n : ℕ)
    → n < 85
    → set_hotness_watermarks n t ≡ record t {
      hot_watermark = n;
      original_hot_watermark = n;
      hot_watermark_upper_bound = n + 5;
      cold_watermark = 85 - n;
      original_cold_watermark = 85 - n;
      cold_watermark_upper_bound = 95 - n;
    }
unfolding set_hotness_watermarks
set_hotness_watermarks_lem t n h =
    let hot : n % 256 ≡ n = omega arith in
    let hot_bound : (n + 5) % 256 ≡ n + 5 = omega arith in
    let below : ltb (n + 15) 100 ≡ true = ground arith in
    let cold : 100 - n - 15 ≡ 85 - n = omega arith in
    let cold_bound : (85 - n + 10) % 256 ≡ 95 - n = omega arith in
    rw (hot, hot_bound, below, cold, cold_bound) refl

-- From a lower bound of 85 on, `set_hotness_watermarks` lets the two ranges overlap.
set_hotness_watermarks_overlap :
    (t : Threshold) (n : ℕ)
    → 85 ≤ n
    → n ≤ 100
    → let t' = set_hotness_watermarks n t in
      100 < t'.hot_watermark_upper_bound + t'.cold_watermark_upper_bound
unfolding set_hotness_watermarks
set_hotness_watermarks_overlap t n h k = ground arith

-- `n` adjustments in one direction.
pub adjusts : ℕ → Bool → Threshold → Threshold
adjusts zero hotter t = t
adjusts (suc n) hotter t = adjusts n hotter (adjust_hotness_watermark false hotter t)

-- `n` adjustments in one direction move that direction's watermark up by `n`, as far as its bound,
-- and set the other one back to its original.
pub adjusts_lem :
    (n : ℕ) (t : Threshold)
    → IsApart t
    → ((adjusts n true t).hot_watermark ≡ min (t.hot_watermark + n) t.hot_watermark_upper_bound)
      × ((adjusts n false t).cold_watermark
          ≡ min (t.cold_watermark + n) t.cold_watermark_upper_bound)
      × ((adjusts (suc n) true t).cold_watermark ≡ t.original_cold_watermark)
      × ((adjusts (suc n) false t).hot_watermark ≡ t.original_hot_watermark)
unfolding adjusts adjust_hotness_watermark
adjusts_lem zero t v = ground arith
adjusts_lem (suc n) t v =
    let hot =
      adjusts_lem n (adjust_hotness_watermark false true t) (adjust-IsApart t false true v) in
    let cold =
      adjusts_lem n (adjust_hotness_watermark false false t) (adjust-IsApart t false false v) in
    ground arith
