-- ===== src/Executor.antt =====
-- The migration of `art_executor_base` in third_party/sidle_utils/sidle_worker.hh: a leaf, and then
-- the nodes above it, as far as the policy asks for. `tree_op` is the record of functions that a
-- tree gives to the workers; the nodes are the tree's, and are reached by their addresses. A null
-- pointer is 0, and `SIDLE_CHECK` on one is left out. The threshold does not change during a call.
-- A call runs without interleaving, but for what the functions of the tree do.
pub mod Laws
pub mod Promotion
use mathlib.Core.Option
use sidle.Base.{
  ℕ, zero, suc, ◌+◌, Bool, true, false, ◌&&◌, ◌||◌, Option, none, some, List, [], ◌∷◌, leb, ◌==◌,
  if◌then◌else◌,
}
use sidle.Meta.{
  NodeMemType, local, remote, unknown, debug, NodeMetadata, is_local, is_remote, demotion,
  MigrationState, proceed, delay,
}
use sidle.Threshold.{Threshold}
use sidle.Queue.{ConcurrentQueue, MigrationQueue, add_task, add_multi_task}

-- `tree_op`, but for the walk over all nodes, with the fields of the nodes that
-- the executors read. `children` is what `node_traverse_func_` visits. Both migrations answer with
-- the node above, or null.
pub record TreeOp : Type 1 where
  pub Tree : Type 0
  pub sidle_meta : Tree → ℕ → NodeMetadata
  pub leaf_type : Tree → ℕ → NodeMemType
  pub is_leaf : ℕ → Bool
  pub get_leaf : ℕ → ℕ
  pub children : Tree → ℕ → List ℕ
  pub leaf_migration : Tree → ℕ → ℕ → NodeMemType → ℕ × Tree
  pub internode_migration : Tree → ℕ → NodeMemType → Bool → ℕ × Tree
  pub unlock : Tree → ℕ → Tree
  pub is_art : Bool

abbrev pub is_stop : MigrationState → Bool
is_stop MigrationState.stop = true
is_stop _ = false

module _ (op : TreeOp) where
  abbrev pub child_is_local : op.Tree → ℕ → Bool
  child_is_local t child =
      if op.is_leaf child
      then is_local (op.leaf_type t child)
      else is_local (op.sidle_meta t child).type

  -- The visit of the children, up to the first local one.
  abbrev pub has_local : op.Tree → List ℕ → Bool
  has_local t [] = false
  has_local t (child ∷ rest) = let later = has_local t rest in child_is_local t child || later

  -- The answer where the depth allows a demotion, by whether a child is local.
  abbrev pub beside_children : Bool → ℕ → MigrationState
  beside_children true zero = MigrationState.stop
  beside_children true (suc n) = delay
  beside_children false n = proceed

  abbrev pub may_continue : Threshold → op.Tree → ℕ → NodeMemType → ℕ → MigrationState
  may_continue th t parent_node remote has_migrated =
      let depth = (op.sidle_meta t parent_node).depth in
      if leb depth th.demotion_depth_threshold || depth == 1
      then MigrationState.stop
      else beside_children (has_local t (op.children t parent_node)) has_migrated
  may_continue th t parent_node local has_migrated =
      if is_local (op.sidle_meta t parent_node).type then MigrationState.stop else proceed
  may_continue th t parent_node unknown has_migrated = MigrationState.stop
  may_continue th t parent_node debug has_migrated = MigrationState.stop

  unfoldable pub need_continue_migrate : Threshold → op.Tree → ℕ → NodeMemType → ℕ → MigrationState
  need_continue_migrate th t parent_node target_type has_migrated =
      if parent_node == 0
      then MigrationState.stop
      else may_continue th t parent_node target_type has_migrated

  module _ (single : ConcurrentQueue ℕ) (pairs : ConcurrentQueue (ℕ × ℕ)) (th : Threshold) where
    -- What an executor changes.
    pub record Executor : Type 0 where
      pub tree : op.Tree
      pub queue : MigrationQueue single pairs

    -- A node whose children are not all remote yet goes back to the queue.
    unfoldable pub put_off : Executor → ℕ → Executor
    put_off e node = record e {
      queue =
          if op.is_art
          then add_multi_task single pairs e.queue demotion (node, 0)
          else add_task single pairs e.queue demotion node;
    }

    unfoldable pub unlock_node : ℕ → Executor → Executor
    unlock_node node e = record e { tree = op.unlock e.tree node }

    -- What follows the answer on the node above; `climb` is the call for that node.
    abbrev pub follow : MigrationState → ℕ → Executor → Option Executor → Option Executor
    follow proceed node e climb = climb
    follow delay node e climb = some (put_off e node)
    follow MigrationState.stop node e climb = some e

    -- `migrate_internode`, on fuel for the calls up the tree; without a result it is used up.
    unfoldable pub migrate_internode : ℕ → ℕ → NodeMemType → ℕ → Executor → Option Executor
    migrate_internode zero original_node target_type has_migrated e = none
    migrate_internode (suc fuel) original_node target_type has_migrated e =
        let is_popped = has_migrated == 0 && is_remote target_type in
        let state = need_continue_migrate th e.tree original_node target_type has_migrated in
        let (parent, tree) = op.internode_migration e.tree original_node target_type is_popped in
        let e' = record e { tree = tree } in
        let above = need_continue_migrate th tree parent target_type (has_migrated + 1) in
        let climb = migrate_internode fuel parent target_type (has_migrated + 1) e' in
        if is_popped && is_stop state
        then some e
        else if parent == 0
        then some e'
        else Option.map (unlock_node parent) (follow above parent e' climb)

    -- A demotion asks for the node above the leaf first, a promotion does not.
    unfoldable pub migrate_leaf : ℕ → ℕ → ℕ → NodeMemType → Executor → Option Executor
    unfolding unlock_node
    migrate_leaf fuel cur_node parent target_type e =
        let (p, tree) = op.leaf_migration e.tree cur_node parent target_type in
        let e' = record e { tree = tree } in
        let climb = migrate_internode fuel p target_type 1 e' in
        if p == 0
        then some e'
        else if is_remote target_type
        then elim (need_continue_migrate th tree p target_type 1) [
          | proceed ↦ climb
          | delay ↦ some (unlock_node p (put_off e' p))
          | MigrationState.stop ↦ some (unlock_node p e')
        ]
        else climb
