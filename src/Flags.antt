-- ===== src/Flags.antt =====
-- The static flags of `art_worker_base` (third_party/sidle_utils/sidle_struct.hh, sidle_worker.cc).
-- They are atomics; the condition variables beside them only wake a thread early.
use sidle.Base.{Bool, true, false}

pub record Flags : Type 0 where
  pub need_demotion : Bool
  pub need_promotion : Bool
  pub can_trigger : Bool
  pub can_promote : Bool
  pub can_demote : Bool
  pub is_demoting : Bool
  pub is_triggering_migration : Bool
  pub need_adjust_threshold : Bool
  pub demoting_complete : Bool
  pub is_running : Bool

-- Their initial values.
abbrev pub initial : Flags
initial = record {
  need_demotion = false;
  need_promotion = false;
  can_trigger = true;
  can_promote = true;
  can_demote = true;
  is_demoting = false;
  is_triggering_migration = false;
  need_adjust_threshold = false;
  demoting_complete = false;
  is_running = false;
}

-- The constructor of a worker, and `stop`.
unfoldable pub start : Flags → Flags
start f = record f { is_running = true }

unfoldable pub stop : Flags → Flags
stop f = record f { is_running = false }
