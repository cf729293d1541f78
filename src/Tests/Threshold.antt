-- ===== src/Tests/Threshold.antt =====
-- The theorems on `sidle_threshold` at concrete inputs.
use sidle.Base.{
  ℕ, zero, suc, ◌+◌, ◌*◌, ◌/◌, ◌≡◌, true, false, refl, List, [], ◌∷◌, ltb, arith, if◌then◌else◌,
}
use sidle.Base.Int.{pos, pos_part}
use sidle.Meta.{local, remote}
use sidle.Threshold.{
  Floats, Threshold, get_allocation_position, set_watermarks, set_hotness_watermarks,
  adjust_hotness_watermark,
}
use sidle.Threshold.Depth.{Event, layer, depth, leaf, run, root_stays_local}
use sidle.Threshold.Watermarks.{IsApart, watermarks-IsApart}
use sidle.Threshold.Memory.{IsOrdered}

-- Numbers of hundredths: the logarithm is that of the whole part, rounded down.
abbrev log2_loop : ℕ → ℕ → ℕ
log2_loop zero n = 0
log2_loop (suc fuel) n = let rest = log2_loop fuel (n / 2) in if ltb n 2 then 0 else 1 + rest

abbrev pub hundredths : Floats
hundredths = record {
  Float = ℕ;
  of_int = λ i. pos_part i * 100;
  percent = λ n. n;
  log2 = λ x. log2_loop 64 (x / 100) * 100;
  ◌+ᶠ◌ = λ x y. x + y;
  ◌/ᶠ◌ = λ x y. x * 100 / y;
  lt = ltb;
  truncate = λ x. x / 100;
}

hundredths-IsOrdered : IsOrdered hundredths
hundredths-IsOrdered = record {
  asym = λ x y h. ground arith;
  trans = λ x y z h k. ground arith;
  marks = refl;
}

-- Five local layers, and a quarter of the data in local memory.
abbrev pub five_layers : Threshold
five_layers = record {
  local_allocation_layer_threshold = 5;
  demotion_depth_threshold = 4;
  default_demotion_depth_threshold = 3;
  hot_watermark = 5;
  original_hot_watermark = 5;
  hot_watermark_upper_bound = 10;
  cold_watermark = 75;
  original_cold_watermark = 75;
  cold_watermark_upper_bound = 80;
}

abbrev pub five_layers-IsApart : IsApart five_layers
five_layers-IsApart = record {
  hot_low = omega arith;
  original_hot_low = omega arith;
  cold_low = omega arith;
  original_cold_low = omega arith;
  whole = omega arith;
}

abbrev events : List Event
events = layer true ∷ leaf 3 ∷ layer false ∷ depth true ∷ []

root_stays_local_example :
    (get_allocation_position (run events five_layers) 1 ≡ local)
    × (get_allocation_position (run events five_layers) 9 ≡ remote)
root_stays_local_example =
    root_stays_local five_layers events 9 (tt, (omega arith, (tt, (tt, tt))))
      (omega arith, omega arith) (omega arith)

abbrev one_layer : Threshold
one_layer = record five_layers {
  local_allocation_layer_threshold = 2;
  demotion_depth_threshold = 1;
  default_demotion_depth_threshold = 0;
}

watermarks-IsApart_example :
    IsApart (set_watermarks (pos 25) five_layers)
    × IsApart (set_hotness_watermarks 30 five_layers)
    × IsApart (adjust_hotness_watermark false true five_layers)
watermarks-IsApart_example =
    watermarks-IsApart five_layers 25 30 false true (omega arith) (omega arith) five_layers-IsApart
