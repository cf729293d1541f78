-- ===== src/Tests/Histogram.antt =====
-- The theorems on `sidle_histogram` at concrete inputs.
use sidle.Base.{
  ℕ, ◌+◌, ◌/◌, ◌^◌, ◌≤◌, ◌<◌, ◌≡◌, ◌⊎◌, List, [], ◌∷◌, ◌++◌, replicate, length, sum, get_or, false,
  refl, arith,
}
use sidle.Histogram.{
  Histogram, new_histogram, bucket, refresh, active_lower_bound, inactive_upper_bound,
  adjust_threshold, adjust_for_cooling,
}
use sidle.Histogram.Index.{IsLog, bucket-IsLog}
use sidle.Histogram.Round.{updates, count_in, refresh-updates}
use sidle.Histogram.Adjust.{Splits, adjust_threshold-Splits}
use sidle.Histogram.Cooling.{adjust_for_cooling_lem}
use sidle.Tests.Threshold.{five_layers, five_layers-IsApart}

abbrev accessed : ℕ
accessed = 100

bucket-IsLog_example :
    (bucket accessed < 16)
    × (((1 < accessed) × (accessed < 65535) × IsLog (accessed + 1) (bucket accessed))
        ⊎ (((accessed ≤ 1) ⊎ (accessed ≡ 65535)) × (bucket accessed ≡ 0)))
bucket-IsLog_example = bucket-IsLog accessed (omega arith)

abbrev accesses : List ℕ
accesses = 0 ∷ 5 ∷ 300 ∷ []

refresh-updates_example :
    let h' = refresh (updates new_histogram accesses) 3 305 in
    ((j : ℕ) → get_or h'.histogram j 0 ≡ count_in j accesses)
    × (sum h'.histogram ≡ h'.total_number)
    × (length h'.histogram ≡ 16)
    × (h'.next_histogram ≡ replicate 16 0)
unfolding new_histogram
refresh-updates_example =
    refresh-updates new_histogram accesses 305 (omega arith, (omega arith, (omega arith, tt))) refl
      (omega arith)

-- Sixteen buckets with twenty leaves.
abbrev filled : Histogram
filled = record {
  histogram = 4 ∷ (3 ∷ 6 ∷ 0 ∷ 5 ∷ 1 ∷ 0 ∷ 1 ∷ 0 ∷ 0 ∷ 0 ∷ 0 ∷ 0 ∷ 0 ∷ 0 ∷ 0 ∷ []);
  next_histogram = replicate 16 0;
  hot_threshold = 128;
  cold_threshold = 4;
  is_cooling = false;
  total_number = 20;
  total_access_count = 400;
}

adjust_threshold-Splits_example :
    (hot_at : ℕ) × (cold_at : ℕ) × ((adjust_threshold five_layers filled).hot_threshold
      ≡ 2 ^ hot_at)
    × ((adjust_threshold five_layers filled).cold_threshold ≡ 2 ^ cold_at)
    × Splits filled.histogram
        (active_lower_bound five_layers 20)
        (inactive_upper_bound five_layers 20)
        hot_at
        cold_at
    × ((adjust_threshold five_layers filled).cold_threshold
        ≤ (adjust_threshold five_layers filled).hot_threshold)
adjust_threshold-Splits_example =
    adjust_threshold-Splits five_layers filled five_layers-IsApart (omega arith) (omega arith)
      (omega arith) (ground arith)

abbrev upper_buckets : List ℕ
upper_buckets = 3 ∷ 6 ∷ 0 ∷ 5 ∷ 1 ∷ 0 ∷ 1 ∷ 0 ∷ 0 ∷ 0 ∷ 0 ∷ 0 ∷ 0 ∷ 0 ∷ 0 ∷ []

adjust_for_cooling_lem_example :
    let h' = adjust_for_cooling filled in
    (h'.histogram ≡ upper_buckets ++ (0 ∷ []))
    × (h'.hot_threshold ≡ 128 / 2)
    × (h'.cold_threshold ≡ 4 / 2)
    × (h'.cold_threshold ≤ h'.hot_threshold)
    × (h'.is_cooling ≡ false)
    × (h'.next_histogram ≡ replicate 16 0)
adjust_for_cooling_lem_example =
    adjust_for_cooling_lem filled 4 upper_buckets refl refl (omega arith)
