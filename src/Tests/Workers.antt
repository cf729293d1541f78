-- ===== src/Tests/Workers.antt =====
-- The theorem on a round of the threshold adjuster at a concrete input.
use sidle.Base.{◌≡◌, Bool, true, false, refl, arith}
use sidle.Meta.{MemUsageStatus, tight, normal}
use sidle.Flags
use sidle.Histogram.{new_histogram}
use sidle.Threshold.{adjust_local_allocation_threshold}
use sidle.Threshold.Depth.{IsRooted}
use sidle.Workers.{Adjuster, adjust_round}
use sidle.Workers.Laws.{adjust_round-IsRooted}
use sidle.Tests.Threshold.{five_layers}

abbrev status_of : Bool → MemUsageStatus
status_of true = normal
status_of false = tight

-- The memory is tight until a demotion completes.
abbrev usage : Adjuster → MemUsageStatus
usage s = status_of s.flags.demoting_complete

-- The other workers complete a demotion, and the local layers shrink.
abbrev others : Adjuster → Adjuster
others s = record s {
  threshold = adjust_local_allocation_threshold true s.threshold;
  flags = record s.flags { demoting_complete = true };
}

others-IsRooted : (s : Adjuster) → IsRooted s.threshold → IsRooted (others s).threshold
unfolding adjust_local_allocation_threshold
others-IsRooted s r = ground arith

abbrev waking : Adjuster
waking = record { threshold = five_layers; histogram = new_histogram; flags = Flags.initial }

adjust_round-IsRooted_example :
    let s' = adjust_round usage others waking in
    IsRooted s'.threshold × (s'.flags.can_promote ≡ true) × (s'.flags.need_adjust_threshold ≡ false)
adjust_round-IsRooted_example =
    adjust_round-IsRooted usage others others-IsRooted waking (omega arith, omega arith) refl
