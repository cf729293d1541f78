-- ===== src/Threshold/Depth.antt =====
-- The two depth thresholds: the layers that are allocated locally, and the depths that are demoted.
use sidle.Base.{ℕ, zero, suc, ◌≤◌, ◌<◌, ◌≡◌, Bool, true, false, List, [], ◌∷◌, arith}
use sidle.Meta.{local, remote}
use sidle.Threshold.{
  Threshold, max_local_depth, leaf_depth, set_demotion_depth_threshold, set_hotness_watermarks,
  get_allocation_position, correct_threshold_with_leaf_depth, adjust_local_allocation_threshold,
  adjust_hotness_watermark, adjust_demotion_depth_threshold,
}

-- What changes a threshold while the program runs.
pub data Event : Type 0 where
  layer depth : (is_shrink : Bool) → Event
  hotness : (is_restore hotter : Bool) → Event
  leaf : (leaf_depth : ℕ) → Event
  hot_bound : (lower_bound : ℕ) → Event

unfoldable pub apply : Event → Threshold → Threshold
apply (layer is_shrink) t = adjust_local_allocation_threshold is_shrink t
apply (depth is_shrink) t = adjust_demotion_depth_threshold is_shrink t
apply (hotness is_restore hotter) t = adjust_hotness_watermark is_restore hotter t
apply (leaf d) t = correct_threshold_with_leaf_depth d t
apply (hot_bound n) t = set_hotness_watermarks n t

unfoldable pub run : List Event → Threshold → Threshold
unfolding apply
run [] t = t
run (e ∷ es) t = run es (apply e t)

-- `update_local_memory_usage` corrects by a leaf's depth only where that is positive.
abbrev pub IsEvent : Event → Type 0
IsEvent (leaf d) = 0 < d
IsEvent _ = Unit {0}

abbrev pub AreEvents : List Event → Type 0
AreEvents [] = Unit {0}
AreEvents (e ∷ es) = IsEvent e × AreEvents es

abbrev pub IsRooted : Threshold → Type 0
IsRooted t =
    (1 ≤ t.local_allocation_layer_threshold)
    × (t.local_allocation_layer_threshold ≤ max_local_depth)

pub apply-IsRooted : (e : Event) (t : Threshold) → IsEvent e → IsRooted t → IsRooted (apply e t)
unfolding apply adjust_local_allocation_threshold adjust_demotion_depth_threshold
    adjust_hotness_watermark correct_threshold_with_leaf_depth set_hotness_watermarks
apply-IsRooted (layer true) t h r = ground arith
apply-IsRooted (layer false) t h r = ground arith
apply-IsRooted (depth true) t h r = r
apply-IsRooted (depth false) t h r = r
apply-IsRooted (hotness true hotter) t h r = r
apply-IsRooted (hotness false true) t h r = r
apply-IsRooted (hotness false false) t h r = r
apply-IsRooted (leaf d) t h r = omega arith
apply-IsRooted (hot_bound n) t h r = r

run-IsRooted : (es : List Event) (t : Threshold) → AreEvents es → IsRooted t → IsRooted (run es t)
unfolding run
run-IsRooted [] t h r = r
run-IsRooted (e ∷ es) t h r = run-IsRooted es (apply e t) h.1 (apply-IsRooted e t h.0 r)

-- From a threshold with 1 to 8 local layers on, and whatever adjusts it, the root of the tree, at
-- depth 1, is allocated locally, and a node below depth 8 on the device. The leaf depths that correct
-- the threshold are positive. The constructor alone does not give such a threshold for all its
-- arguments.
pub root_stays_local :
    (t : Threshold) (es : List Event) (d : ℕ)
    → AreEvents es
    → IsRooted t
    → max_local_depth < d
    → (get_allocation_position (run es t) 1 ≡ local)
      × (get_allocation_position (run es t) d ≡ remote)
unfolding get_allocation_position
root_stays_local t es d h r deep = ground (arith, run-IsRooted es t h r)

-- The demotion depth lies between its default and the leaves, and the default is not the root.
pub record IsDemotable (t : Threshold) : Type 0 where
  pub default_positive : 0 < t.default_demotion_depth_threshold
  pub above_default : t.default_demotion_depth_threshold ≤ t.demotion_depth_threshold
  pub below_leaf : t.demotion_depth_threshold ≤ leaf_depth

adjust-IsDemotable :
    (is_shrink : Bool) (t : Threshold)
    → IsDemotable t
    → IsDemotable (adjust_demotion_depth_threshold is_shrink t)
unfolding adjust_demotion_depth_threshold
adjust-IsDemotable true t v = ground arith
adjust-IsDemotable false t v = ground arith

pub adjust_depths : List Bool → Threshold → Threshold
adjust_depths [] t = t
adjust_depths (b ∷ bs) t = adjust_depths bs (adjust_demotion_depth_threshold b t)

adjust_depths-IsDemotable :
    (bs : List Bool) (t : Threshold) → IsDemotable t → IsDemotable (adjust_depths bs t)
unfolding adjust_depths
adjust_depths-IsDemotable [] t v = v
adjust_depths-IsDemotable (b ∷ bs) t v =
    adjust_depths-IsDemotable bs (adjust_demotion_depth_threshold b t) (adjust-IsDemotable b t v)

-- A threshold with at least three local layers starts with a demotion depth in its range, and the
-- depth is still there after any adjustments of it, in any order.
pub demotion_depth-IsDemotable :
    (t : Threshold) (shrinkings : List Bool)
    → 3 ≤ t.local_allocation_layer_threshold
    → t.local_allocation_layer_threshold ≤ max_local_depth
    → IsDemotable (adjust_depths shrinkings (set_demotion_depth_threshold t))
unfolding set_demotion_depth_threshold
demotion_depth-IsDemotable t shrinkings h k =
    adjust_depths-IsDemotable shrinkings (set_demotion_depth_threshold t) (ground arith)

pub shrinks : ℕ → Threshold → Threshold
shrinks zero t = t
shrinks (suc n) t = shrinks n (adjust_demotion_depth_threshold true t)

-- Where the default depth is 0, as with at most two local layers, shrinking the demotion depth once
-- more than it is deep wraps it to 255, deeper than every node.
pub shrinks_wrap :
    (n : ℕ) (t : Threshold)
    → t.default_demotion_depth_threshold ≡ 0
    → t.demotion_depth_threshold ≡ n
    → n < 256
    → (shrinks (suc n) t).demotion_depth_threshold ≡ 255
unfolding shrinks adjust_demotion_depth_threshold
shrinks_wrap zero t d e h = ground arith
shrinks_wrap (suc n) t d e h =
    shrinks_wrap n (adjust_demotion_depth_threshold true t) d (ground arith) (omega arith)
