-- ===== src/Threshold.antt =====
-- `sidle_threshold` of third_party/sidle_utils/sidle_policy.hh. The fields are `uint8_t`s; the two
-- memory watermarks never change and are constants of `check_memory_usage`.
pub mod Depth
pub mod Watermarks
pub mod Memory
use sidle.Base.{
  ℕ, ◌+◌, ◌-◌, ◌*◌, ◌/◌, ◌%◌, min, max, Bool, true, false, ltb, leb, ◌==◌, if◌then◌else◌, u8,
}
use sidle.Base.Int.{ℤ, pos, negsuc, ◌+ℤ◌, ◌-ℤ◌, ltb_ℤ}
use sidle.Meta.{NodeMemType, local, remote, MemUsageStatus, tight, sufficient, normal}

-- `max_local_depth`, and `LEAF_DEPTH` of art_def.hh
abbrev pub max_local_depth : ℕ
max_local_depth = 8

abbrev pub leaf_depth : ℕ
leaf_depth = 8

-- The arithmetic of `double` that the policy uses. The compiler's floats are not in this
-- repository; `percent n` is the literal n / 100, and `truncate` the conversion to an integer.
pub record Floats : Type 1 where
  pub Float : Type 0
  pub of_int : ℤ → Float
  pub percent : ℕ → Float
  pub log2 : Float → Float
  pub ◌+ᶠ◌ : Float → Float → Float
  pub ◌/ᶠ◌ : Float → Float → Float
  pub lt : Float → Float → Bool
  pub truncate : Float → ℕ

pub record Threshold : Type 0 where
  pub local_allocation_layer_threshold : ℕ
  pub demotion_depth_threshold : ℕ
  pub default_demotion_depth_threshold : ℕ
  pub hot_watermark : ℕ
  pub original_hot_watermark : ℕ
  pub hot_watermark_upper_bound : ℕ
  pub cold_watermark : ℕ
  pub original_cold_watermark : ℕ
  pub cold_watermark_upper_bound : ℕ

-- The initializers of the fields, with both layer thresholds still 0.
abbrev initial : Threshold
initial = record {
  local_allocation_layer_threshold = 0;
  demotion_depth_threshold = 0;
  default_demotion_depth_threshold = 0;
  hot_watermark = 5;
  original_hot_watermark = 5;
  hot_watermark_upper_bound = 10;
  cold_watermark = 80;
  original_cold_watermark = 80;
  cold_watermark_upper_bound = 90;
}

unfoldable pub set_demotion_depth_threshold : Threshold → Threshold
set_demotion_depth_threshold t =
    let layer = t.local_allocation_layer_threshold in
    let depth = if ltb 0 layer then layer - 1 else 0 in
    record t {
      demotion_depth_threshold = depth;
      default_demotion_depth_threshold = if ltb 1 depth then depth - 1 else 0;
    }

-- `sidle_threshold()`
unfoldable pub default_threshold : Threshold
unfolding set_demotion_depth_threshold
default_threshold =
    set_demotion_depth_threshold
      (record initial { local_allocation_layer_threshold = max_local_depth })

-- Signed arithmetic of the constructor: `/` rounds towards 0, and a `uint8_t` keeps the low bits.
div_int : ℤ → ℕ → ℤ
div_int (pos n) d = pos (n / d)
div_int (negsuc n) d = pos 0 -ℤ pos ((n + 1) / d)

u8_of_int : ℤ → ℕ
u8_of_int (pos n) = u8 n
u8_of_int (negsuc n) = 255 - n % 256

min_int : ℤ → ℤ → ℤ
min_int a b = if ltb_ℤ b a then b else a

-- The part of `sidle_threshold(max_local_node_count, cxl_percentage, is_art)` on the watermarks.
unfoldable pub set_watermarks : ℤ → Threshold → Threshold
unfolding div_int u8_of_int min_int ◌+ℤ◌ ◌-ℤ◌
set_watermarks cxl_percentage t =
    let left = pos 100 -ℤ cxl_percentage in
    let hot = u8_of_int (div_int left 5) in
    let hot_upper = u8_of_int (min_int (pos (hot + hot)) left) in
    let cold = u8_of_int (min_int cxl_percentage (pos 100 -ℤ pos hot_upper)) in
    record t {
      hot_watermark = hot;
      original_hot_watermark = hot;
      hot_watermark_upper_bound = hot_upper;
      cold_watermark = cold;
      original_cold_watermark = cold;
      cold_watermark_upper_bound =
          u8_of_int (min_int (pos (cold + hot)) (pos 100 -ℤ pos hot_upper));
    }

unfoldable pub set_hotness_watermarks : ℕ → Threshold → Threshold
unfolding u8_of_int ◌-ℤ◌
set_hotness_watermarks lower_bound t =
    let hot = u8 lower_bound in
    let cold = if ltb (hot + 15) 100 then 100 - hot - 15 else u8_of_int (pos 100 -ℤ pos hot) in
    record t {
      hot_watermark = hot;
      original_hot_watermark = hot;
      hot_watermark_upper_bound = u8 (hot + 5);
      cold_watermark = cold;
      original_cold_watermark = cold;
      cold_watermark_upper_bound = u8 (cold + 10);
    }

unfoldable pub get_allocation_position : Threshold → ℕ → NodeMemType
get_allocation_position t cur_depth =
    if leb cur_depth t.local_allocation_layer_threshold then local else remote

-- `static_cast<uint8_t>(leaf_depth - 1)` is 255 at depth 0.
unfoldable pub correct_threshold_with_leaf_depth : ℕ → Threshold → Threshold
correct_threshold_with_leaf_depth depth t = record t {
  local_allocation_layer_threshold = min t.local_allocation_layer_threshold depth;
  demotion_depth_threshold = min t.demotion_depth_threshold (u8 (depth + 255));
}

unfoldable pub adjust_local_allocation_threshold : Bool → Threshold → Threshold
adjust_local_allocation_threshold true t =
    let layer = t.local_allocation_layer_threshold in
    record t { local_allocation_layer_threshold = if ltb 1 layer then layer - 1 else 1 }
adjust_local_allocation_threshold false t = record t {
  local_allocation_layer_threshold =
      min (u8 (t.local_allocation_layer_threshold + 1)) max_local_depth;
}

-- The arguments are `is_restore` and `hotter`.
unfoldable pub adjust_hotness_watermark : Bool → Bool → Threshold → Threshold
adjust_hotness_watermark true hotter t = record t {
  hot_watermark = t.original_hot_watermark;
  cold_watermark = t.original_cold_watermark;
}
adjust_hotness_watermark false true t = record t {
  hot_watermark = min (u8 (t.hot_watermark + 1)) t.hot_watermark_upper_bound;
  cold_watermark = t.original_cold_watermark;
}
adjust_hotness_watermark false false t = record t {
  hot_watermark = t.original_hot_watermark;
  cold_watermark = min (u8 (t.cold_watermark + 1)) t.cold_watermark_upper_bound;
}

-- `static_cast<uint8_t>(demotion_depth_threshold_ - 1)` is 255 at 0.
unfoldable pub adjust_demotion_depth_threshold : Bool → Threshold → Threshold
adjust_demotion_depth_threshold true t = record t {
  demotion_depth_threshold =
      max (u8 (t.demotion_depth_threshold + 255)) t.default_demotion_depth_threshold;
}
adjust_demotion_depth_threshold false t =
    let depth = t.demotion_depth_threshold in
    record t {
      demotion_depth_threshold = if depth == leaf_depth then leaf_depth else u8 (depth + 1);
    }

module _ (floats : Floats) where
  open floats use {Float, of_int, percent, log2, ◌+ᶠ◌, ◌/ᶠ◌, lt, truncate}

  -- `(layer_lower_bound + layer_upper_bound) / 2`, as a `uint8_t`
  middle : Float → Float → ℕ
  middle lower upper = u8 (truncate (◌/ᶠ◌ (◌+ᶠ◌ lower upper) (of_int (pos 2))))

  -- The bounds are logarithms to `estimated_child_max_count`, a `uint8_t` of 256 and so 0, and to
  -- `estimated_child_min_count`.
  unfoldable pub get_art_local_allocation_threshold : ℕ → ℕ
  unfolding middle
  get_art_local_allocation_threshold max_local_node_count =
      let nodes = log2 (of_int (pos max_local_node_count)) in
      middle (◌/ᶠ◌ nodes (log2 (of_int (pos (u8 256))))) (◌/ᶠ◌ nodes (log2 (of_int (pos 4))))

  -- `leaf_width` is a parameter of Masstree's nodes; the divisions by 2 are on integers.
  unfoldable pub get_masstree_local_allocation_threshold : ℕ → ℕ → ℕ
  unfolding middle
  get_masstree_local_allocation_threshold leaf_width max_local_node_count =
      let lower =
        ◌/ᶠ◌ (log2 (of_int (pos max_local_node_count))) (log2 (of_int (pos leaf_width))) in
      let half =
        ◌/ᶠ◌ (log2 (of_int (pos ((max_local_node_count + 1) / 2))))
          (log2 (of_int (pos (leaf_width / 2)))) in
      middle lower (◌+ᶠ◌ half (of_int (pos 1)))

  -- `sidle_threshold(max_local_node_count, cxl_percentage, is_art)`
  unfoldable pub sidle_threshold : ℕ → ℕ → ℤ → Bool → Threshold
  unfolding get_art_local_allocation_threshold get_masstree_local_allocation_threshold
      set_watermarks set_demotion_depth_threshold
  sidle_threshold leaf_width max_local_node_count cxl_percentage is_art =
      let layer =
        if is_art
        then get_art_local_allocation_threshold max_local_node_count
        else get_masstree_local_allocation_threshold leaf_width max_local_node_count in
      set_watermarks cxl_percentage
        (set_demotion_depth_threshold (record initial { local_allocation_layer_threshold = layer }))

  -- The watermarks are 0.95 and 0.85.
  unfoldable pub check_memory_usage : Float → MemUsageStatus
  check_memory_usage ratio =
      if lt (percent 95) ratio then tight else if lt ratio (percent 85) then sufficient else normal
