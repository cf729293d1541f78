-- ===== src/Histogram.antt =====
-- `sidle_histogram` of third_party/sidle_utils/sidle_worker.hh. A bucket counts leaves, by the
-- logarithm of their access times. The wait of `adjust_threshold` for the cooler is left to the
-- caller: the function starts here where `is_cooling` has become false.
pub mod Index
pub mod Round
pub mod Adjust
pub mod Cooling
use sidle.Base.{
  ℕ, zero, suc, ◌+◌, ◌-◌, ◌*◌, ◌/◌, ◌^◌, List, [], ◌∷◌, Bool, true, false, Option, none, some, ltb,
  leb, ◌==◌, if◌then◌else◌, get_or, set, replicate, length, u16, u64,
}
use sidle.Threshold.{Threshold}

pub data Hotness : Type 0 where
  hot warm cold : Hotness

-- `threshold_manager_` is passed to the call that reads it; `hot_threshold_` and `cold_threshold_`
-- are `uint16_t`s.
pub record Histogram : Type 0 where
  pub histogram : List ℕ
  pub next_histogram : List ℕ
  pub hot_threshold : ℕ
  pub cold_threshold : ℕ
  pub is_cooling : Bool
  pub total_number : ℕ
  pub total_access_count : ℕ

-- The constructor, with its default size and thresholds.
unfoldable pub new_histogram : Histogram
new_histogram = record {
  histogram = replicate 16 0;
  next_histogram = replicate 16 0;
  hot_threshold = 128;
  cold_threshold = 4;
  is_cooling = false;
  total_number = 0;
  total_access_count = 0;
}

-- The loop of `get_idx` at `cnt`, with `15 - cnt` rounds left until its `break`.
unfoldable pub idx_loop : ℕ → ℕ → ℕ → ℕ
idx_loop zero cnt num = cnt
idx_loop (suc left) cnt num =
    let rest = idx_loop left (cnt + 1) (num / 2) in if num / 2 == 0 then cnt else rest

-- `num++` is on a `uint16_t`.
unfoldable pub get_idx : ℕ → ℕ
get_idx num = idx_loop 15 0 (u16 (num + 1))

-- `++v[i]`, on a `uint64_t`
unfoldable pub increment : List ℕ → ℕ → List ℕ
increment v i = set v i (u64 (get_or v i 0 + 1))

-- The second half of `update`.
unfoldable pub classify : ℕ → ℕ → ℕ → Hotness
classify hot_threshold cold_threshold access_count =
    if ltb hot_threshold access_count
    then hot
    else if ltb access_count cold_threshold
    then cold
    else warm

-- The bucket of an access count in `update`.
unfoldable pub bucket : ℕ → ℕ
bucket access_count = if leb access_count 1 then 0 else get_idx access_count

unfoldable pub update : Histogram → ℕ → Hotness × Histogram
unfolding classify bucket increment
update h access_count = (
  classify h.hot_threshold h.cold_threshold access_count,
  record h { next_histogram = increment h.next_histogram (bucket access_count) },
)

unfoldable pub refresh : Histogram → ℕ → ℕ → Histogram
refresh h total_number total_access_count = record h {
  histogram = h.next_histogram;
  next_histogram = replicate (length h.next_histogram) 0;
  total_number = total_number;
  total_access_count = total_access_count;
}

-- `hot_index` becomes `i` where the test holds and it was -1 before.
mark : Option ℕ → Bool → ℕ → Option ℕ
mark none test i = if test then some i else none
mark (some k) test i = some k

-- The `for` of `adjust_threshold`, from index `n - 1` down: the hot and the cold index, where
-- `none` is -1. The loop ends when the cold index is found.
unfoldable pub scan : List ℕ → ℕ → ℕ → ℕ → ℕ → Option ℕ → Option ℕ × Option ℕ
unfolding mark
scan buckets lower upper zero active found = (found, none)
scan buckets lower upper (suc i) active found =
    let here = u64 (active + get_or buckets i 0) in
    let found' = mark found (ltb lower here) i in
    let rest = scan buckets lower upper i here found' in
    if ltb upper here then (found', some i) else rest

-- `if (hot_index != 15) ++hot_index;`
unfoldable pub hot_bucket : Option ℕ → ℕ
hot_bucket none = 0
hot_bucket (some i) = if i == 15 then 15 else i + 1

unfoldable pub cold_bucket : Option ℕ → ℕ
cold_bucket none = 0
cold_bucket (some i) = i

-- `active_lower_bound` and `inactive_upper_bound`, in `uint64_t`: a cold share above 100 wraps.
unfoldable pub active_lower_bound : Threshold → ℕ → ℕ
active_lower_bound t total = u64 (t.hot_watermark * total) / 100

unfoldable pub inactive_upper_bound : Threshold → ℕ → ℕ
inactive_upper_bound t total = u64 (u64 (2 ^ 64 + 100 - t.cold_watermark) * total) / 100

unfoldable pub adjust_threshold : Threshold → Histogram → Histogram
adjust_threshold t h =
    let lower = active_lower_bound t h.total_number in
    let upper = inactive_upper_bound t h.total_number in
    let (found, last) = scan h.histogram lower upper 16 0 none in
    if h.total_number == 0 then h else record h {
      hot_threshold = u16 (2 ^ hot_bucket found);
      cold_threshold = u16 (2 ^ cold_bucket last);
    }

-- The loop of `adjust_for_cooling`, with `n` rounds left from index `i`.
unfoldable pub shift_loop : ℕ → ℕ → List ℕ → List ℕ
shift_loop zero i v = v
shift_loop (suc n) i v = shift_loop n (i + 1) (set v i (get_or v (i + 1) 0))

unfoldable pub adjust_for_cooling : Histogram → Histogram
adjust_for_cooling h = record h {
  histogram = set (shift_loop 15 0 h.histogram) 15 0;
  hot_threshold = h.hot_threshold / 2;
  cold_threshold = h.cold_threshold / 2;
  is_cooling = false;
}

unfoldable pub decrease_tolerance_for_cold : Histogram → Histogram
decrease_tolerance_for_cold h = record h { cold_threshold = u16 (h.cold_threshold + 1) }

unfoldable pub notify_cooling : Histogram → Histogram
notify_cooling h = record h { is_cooling = true }
