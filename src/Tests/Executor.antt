-- ===== src/Tests/Executor.antt =====
-- The theorems on the executors at concrete inputs: a tree that is a path of nodes.
use sidle.Base.{◌-◌, true, List, [], ◌∷◌, set, get_or, min, ltb, if◌then◌else◌}
use sidle.Meta.{NodeMemType, local, remote, unknown}
use sidle.Executor.{TreeOp, Executor}
use sidle.Tests.Threshold.{five_layers}
use sidle.Tests.Queue.{singles, doubles, empty}
use sidle.Base.Int.{pos}
use sidle.Flags
use sidle.Flags.{Flags}

-- Node n stands at depth n, below node n - 1. The tree is the list of the places of its nodes.
abbrev path : TreeOp
path = record {
  Tree = List NodeMemType;
  sidle_meta = λ t n. record { type = get_or t n unknown; depth = min n 63 };
  leaf_type = λ t n. remote;
  is_leaf = λ n. ltb 99 n;
  get_leaf = λ n. n;
  children = λ t n. [];
  leaf_migration = λ t cur parent target. (parent, t);
  internode_migration = λ t n target is_new. (if ltb n 64 then n - 1 else 0, set t n target);
  unlock = λ t n. t;
  is_art = true;
}

abbrev deep_path : List NodeMemType
deep_path = unknown ∷ local ∷ local ∷ local ∷ local ∷ local ∷ local ∷ local ∷ []

abbrev before : Executor path singles doubles five_layers
before = record { tree = deep_path; queue = empty }

-- Two candidates for promotion.
abbrev waiting : Executor path singles doubles five_layers
waiting = record {
  tree = unknown ∷ local ∷ remote ∷ remote ∷ remote ∷ [];
  queue = record empty {
    promotion_pair_queue = (100, 4) ∷ (101, 3) ∷ [];
    promotion_queue_length = pos 2;
  };
}

abbrev running : Flags
running = record Flags.initial { is_running = true }
