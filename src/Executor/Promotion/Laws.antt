-- ===== src/Executor/Promotion/Laws.antt =====
-- A round of the promotion executor leaves no candidate in the queue.
use sidle.Base.{ℕ, ◌≡◌, none, [], min, if◌then◌else◌}
use sidle.Flags.{Flags}
use sidle.Threshold.{Threshold}
use sidle.Queue.{ConcurrentQueue}
use sidle.Queue.Laws.{IsBag, Holds}
use sidle.Executor.{TreeOp}
use sidle.Executor.Laws.{IsClimbing}
use sidle.Executor.Promotion.{State}

-- A candidate is a leaf with a node above it. The key of another pair is 0.
abbrev pub candidate : TreeOp → ℕ × ℕ → ℕ
candidate op task = if op.is_leaf task.0 then min task.0 task.1 else 0

module _ (op : TreeOp) (single : ConcurrentQueue ℕ) (pairs : ConcurrentQueue (ℕ × ℕ))
    (th : Threshold) (height : ℕ) (climbing : IsClimbing op height) (bag : IsBag pairs)
    (fails_empty : (s : pairs.State) → (pairs.try_dequeue s).0 ≡ none → bag.items s ≡ []) where
  -- The queue of pairs holds a number of candidates, and nothing else.
  abbrev pub Candidates : ℕ → State op single pairs th → Type 0
  Candidates n e = Holds (candidate op) bag n e.queue.promotion_pair_queue
