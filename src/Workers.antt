-- ===== src/Workers.antt =====
-- Callbacks of the workers in third_party/sidle_utils/sidle_worker.hh, and a round of the threshold
-- adjuster. A worker runs alone, but where it waits: `await` is what the others do meanwhile. The
-- locks and condition variables only time this; `SIDLE_CHECK` on a null pointer is left out.
pub mod Laws
use sidle.Base.{ℕ, zero, suc, ◌+◌, ◌/◌, Bool, true, false, not, ◌&&◌, ◌||◌, ltb, if◌then◌else◌, u64}
use sidle.Meta.{
  TaskType, promotion, demotion, is_local, is_remote, LeafMetadata, MemUsageStatus, tight,
  sufficient, normal,
}
use sidle.Flags.{Flags}
use sidle.Queue.{
  ConcurrentQueue, MigrationQueue, add_task, add_multi_task, get_promotion_queue_length,
  get_demotion_queue_length,
}
use sidle.Histogram.{Hotness, hot, warm, cold, Histogram, update, adjust_threshold}
use sidle.Threshold.{
  Threshold, adjust_local_allocation_threshold, adjust_demotion_depth_threshold,
  adjust_hotness_watermark,
}

abbrev pub queue_waiting_threshold : ℕ
queue_waiting_threshold = 10

abbrev is_hot : Hotness → Bool
is_hot hot = true
is_hot _ = false

abbrev is_cold : Hotness → Bool
is_cold cold = true
is_cold _ = false

-- `cool_down_cb`, on a leaf
unfoldable pub cool_down_cb : LeafMetadata → LeafMetadata
cool_down_cb m = record m { access_time = m.access_time / 2 }

-- A leaf and the inner node above it: the address that the queue takes for the leaf, which has its
-- lowest bit set for the radix tree, and that of the parent.
pub record Leaf : Type 0 where
  pub address : ℕ
  pub parent : ℕ
  pub meta : LeafMetadata

module _ (single : ConcurrentQueue ℕ) (pairs : ConcurrentQueue (ℕ × ℕ)) where
  -- What the migration trigger reads and writes.
  pub record Trigger : Type 0 where
    pub histogram : Histogram
    pub queue : MigrationQueue single pairs
    pub flags : Flags
    pub node_counter : ℕ
    pub access_counter : ℕ
    pub call_by_adjuster : Bool
    pub is_art : Bool

  unfoldable pub check_execute_demotion : Trigger → Trigger
  check_execute_demotion s =
      if not s.flags.need_demotion
        && ltb queue_waiting_threshold (get_demotion_queue_length single pairs s.queue)
      then record s { flags = record s.flags { need_demotion = true } }
      else s

  unfoldable pub check_execute_promotion : Trigger → Trigger
  check_execute_promotion s =
      if not s.flags.need_promotion
        && ltb queue_waiting_threshold (get_promotion_queue_length single pairs s.queue)
      then record s { flags = record s.flags { need_promotion = true } }
      else s

  -- A leaf of the radix tree goes with its parent, one of Masstree alone.
  unfoldable pub add_leaf : Trigger → TaskType → Leaf → Trigger
  add_leaf s type leaf = record s {
    queue =
        if s.is_art
        then add_multi_task single pairs s.queue type (leaf.address, leaf.parent)
        else add_task single pairs s.queue type leaf.address;
  }

  unfoldable pub trigger_migration_cb : Trigger → Leaf → Trigger
  unfolding check_execute_demotion check_execute_promotion add_leaf
  trigger_migration_cb s leaf =
      let accesses = leaf.meta.access_time in
      let place = leaf.meta.metadata.type in
      let (hotness, h) = update s.histogram accesses in
      let counted = record s {
        histogram = h;
        node_counter = u64 (s.node_counter + 1);
        access_counter = u64 (s.access_counter + accesses);
      } in
      if s.flags.can_promote && (is_remote place && is_hot hotness)
      then check_execute_promotion (add_leaf counted promotion leaf)
      else if is_cold hotness && (is_local place || s.call_by_adjuster)
      then check_execute_demotion (add_leaf counted demotion leaf)
      else counted

-- What the threshold adjuster reads and writes; `status` is the answer of `check_memory_usage`.
pub record Adjuster : Type 0 where
  pub threshold : Threshold
  pub histogram : Histogram
  pub flags : Flags

-- Step 9: while the memory is tight the tries go on.
abbrev pub go_on : MemUsageStatus → Adjuster → Adjuster → Adjuster
go_on tight rest s = rest
go_on sufficient rest s = s
go_on normal rest s = s

module _ (check_memory_usage : Adjuster → MemUsageStatus) (await : Adjuster → Adjuster) where
  -- Steps 3 to 8 of a try: the first wait is for the demotion executor to pause, the second for the
  -- demotion that is started to end.
  unfoldable pub attempt : Adjuster → Adjuster
  attempt s =
      let t = adjust_hotness_watermark false false s.threshold in
      let stopped = record s {
        flags = record s.flags { can_trigger = false; can_demote = false };
        threshold = t;
        histogram = adjust_threshold t s.histogram;
      } in
      let paused = await stopped in
      await (record paused {
        flags = record paused.flags {
          can_trigger = true;
          can_demote = true;
          is_triggering_migration = true;
          demoting_complete = false;
        };
      })

  -- The loop over `times`, with `n` tries left.
  unfoldable pub attempts : ℕ → Adjuster → Adjuster
  attempts zero s = s
  attempts (suc n) s =
      let s' = attempt s in let rest = attempts n s' in go_on (check_memory_usage s') rest s'

  unfoldable pub handle_local_mem_shortage : Adjuster → Adjuster
  handle_local_mem_shortage s =
      let s' = attempts 3 (record s {
        flags = record s.flags { can_promote = false };
        threshold =
            adjust_demotion_depth_threshold true
              (adjust_local_allocation_threshold true s.threshold);
      }) in
      record s' {
        threshold = adjust_hotness_watermark false false (
            adjust_demotion_depth_threshold false
              (adjust_local_allocation_threshold false s'.threshold));
        flags = record s'.flags { can_promote = true };
      }

  unfoldable pub handle_local_mem_sufficient : Adjuster → Adjuster
  handle_local_mem_sufficient s = record s {
    threshold = adjust_hotness_watermark false true (
        adjust_demotion_depth_threshold false
          (adjust_local_allocation_threshold false s.threshold));
  }

  -- The `switch` of `run_job`.
  unfoldable pub handle : MemUsageStatus → Adjuster → Adjuster
  unfolding handle_local_mem_shortage handle_local_mem_sufficient
  handle tight s = handle_local_mem_shortage s
  handle sufficient s = handle_local_mem_sufficient s
  handle normal s = record s { threshold = adjust_hotness_watermark false false s.threshold }

  -- One round of `run_job`: it wakes with `need_adjust_threshold_` set, by another worker or itself.
  unfoldable pub adjust_round : Adjuster → Adjuster
  adjust_round s =
      let woken = record s { flags = record s.flags { need_adjust_threshold = true } } in
      let s' = handle (check_memory_usage woken) woken in
      record s' { flags = record s'.flags { need_adjust_threshold = false } }
