-- ===== src/Executor/Promotion.antt =====
-- `run_job` of `art_promotion_executor` in sidle_worker.hh, for the radix tree: a round takes pairs
-- of a leaf and the node above it from the queue. The flags do not change during a round.
pub mod Laws
use mathlib.Core.Option
use sidle.Base.{
  ℕ, zero, suc, Bool, true, false, not, ◌&&◌, ◌||◌, Option, none, some, ◌==◌, if◌then◌else◌,
}
use sidle.Meta.{local, promotion}
use sidle.Flags.{Flags}
use sidle.Threshold.{Threshold}
use sidle.Queue.{ConcurrentQueue, MigrationQueue, get_multi_task}
use sidle.Executor.{TreeOp, Executor, migrate_leaf}

module _ (op : TreeOp) (single : ConcurrentQueue ℕ) (pairs : ConcurrentQueue (ℕ × ℕ))
    (th : Threshold) where
  abbrev pub State : Type 0
  State = Executor op single pairs th

  -- The rest of a loop on a state, where there is one.
  abbrev pub then_on : Option State → (State → Option State) → Option State
  then_on none rest = none
  then_on (some e) rest = rest e

  -- The inner loop, on fuel; `height` is the fuel of a migration, and `may_run` the loop's condition
  -- on the flags. Without a result the fuel is
  -- used up, or the check that a candidate is a leaf has failed.
  unfoldable pub promote_loop : ℕ → ℕ → Bool → State → Option State
  promote_loop height zero may_run e = none
  promote_loop height (suc fuel) may_run e =
      let (task, queue) = get_multi_task single pairs e.queue promotion in
      let e' : State = record e { queue = queue } in
      let rest = promote_loop height fuel may_run in
      if not may_run
      then some e
      else if task.0 == 0 || task.1 == 0
      then some e'
      else if op.is_leaf task.0
      then then_on (migrate_leaf op single pairs th height (op.get_leaf task.0) task.1 local e')
          rest
      else none

  -- The loop behind it, which clears the queue while promotions are off.
  unfoldable pub clear_loop : ℕ → Bool → State → Option State
  clear_loop zero can_promote e = none
  clear_loop (suc fuel) can_promote e =
      let (task, queue) = get_multi_task single pairs e.queue promotion in
      let e' : State = record e { queue = queue } in
      let rest = clear_loop fuel can_promote e' in
      if task.0 == 0 || can_promote then some e' else rest

  abbrev pub with_flags : Flags → Option State → Option (State × Flags)
  with_flags f none = none
  with_flags f (some e) = some (e, record f { need_promotion = false })

  -- A round, from the wake-up on.
  unfoldable pub promote_round : ℕ → ℕ → State → Flags → Option (State × Flags)
  promote_round height fuel e f = with_flags f (
      then_on (promote_loop height fuel (f.can_promote && f.is_running) e)
        (clear_loop fuel f.can_promote))
