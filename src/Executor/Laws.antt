-- ===== src/Executor/Laws.antt =====
-- Which nodes a demotion moves, and that it comes to an end.
use sidle.Base.{ℕ, ◌<◌, ◌≡◌, ◌≢◌, ◌⊎◌, inl, inr, refl, Bool, false, Each}
use sidle.Meta.{NodeMemType, remote, MigrationState, proceed, delay}
use sidle.Threshold.{Threshold}
use sidle.Queue.{ConcurrentQueue}
use sidle.Executor.{TreeOp, child_is_local, Executor, put_off, unlock_node}

pub MigrationState-cases :
    (s : MigrationState) → (s ≡ proceed) ⊎ (s ≡ delay) ⊎ (s ≡ MigrationState.stop)
MigrationState-cases proceed = inl refl
MigrationState-cases delay = inr (inl refl)
MigrationState-cases MigrationState.stop = inr (inr refl)

-- The way up from a node ends: the nodes have ranks below `height`, and the node above a migrated
-- one, in the tree after it, has a smaller rank than the migrated one had before. In a tree, the
-- number of nodes above a node is such a rank, and the longest key bounds it.
pub record IsClimbing (op : TreeOp) (height : ℕ) : Type 0 where
  pub rank : op.Tree → ℕ → ℕ
  pub bounded : (t : op.Tree) (node : ℕ) → rank t node < height
  pub climbs :
      (t : op.Tree) (node : ℕ) (target : NodeMemType) (is_new : Bool)
      → let (parent, t') = op.internode_migration t node target is_new in
        (parent ≡ 0) ⊎ (rank t' parent < rank t node)

module _ (op : TreeOp) (th : Threshold) where
  -- A node stands below the layers that stay local, and is not the root.
  pub record IsDeep (t : op.Tree) (node : ℕ) : Type 0 where
    pub below_local : th.demotion_depth_threshold < (op.sidle_meta t node).depth
    pub below_root : (op.sidle_meta t node).depth ≢ 1

  -- None of the children of a node is local.
  abbrev pub AllRemote : op.Tree → ℕ → Type 0
  AllRemote t node = Each (λ c. child_is_local op t c ≡ false) (op.children t node)

module _ (op : TreeOp) (th : Threshold) (single : ConcurrentQueue ℕ)
    (pairs : ConcurrentQueue (ℕ × ℕ)) where
  abbrev pub Exec : Type 0
  Exec = Executor op single pairs th

  -- The state after the migration of a node, or of a leaf.
  abbrev pub moved : Exec → ℕ → Exec
  moved e node = record e { tree = (op.internode_migration e.tree node remote false).1 }

  abbrev pub moved_leaf : Exec → ℕ → ℕ → Exec
  moved_leaf e cur parent = record e { tree = (op.leaf_migration e.tree cur parent remote).1 }

  -- A locked node is not demoted: it stands among the layers that stay local and is unlocked, or a
  -- child of it is local, and it goes to the queue too.
  pub data Halts : Exec → ℕ → Exec → Type 0 where
    shallow :
        {e : Exec} {node : ℕ}
        → ¬ IsDeep op th e.tree node
        → Halts e node (unlock_node op single pairs th node e)
    waits :
        {e : Exec} {node : ℕ}
        → IsDeep op th e.tree node
        → ¬ AllRemote op th e.tree node
        → Halts e node (unlock_node op single pairs th node (put_off op single pairs th e node))

  -- A node is demoted, and those above it up to the first that is not.
  pub data Climbs : Exec → ℕ → Exec → Type 0 where
    top :
        {e : Exec} {node : ℕ}
        → (op.internode_migration e.tree node remote false).0 ≡ 0
        → Climbs e node (moved e node)
    ends :
        {e e' : Exec} {node parent : ℕ}
        → (op.internode_migration e.tree node remote false).0 ≡ parent
        → parent ≢ 0
        → Halts (moved e node) parent e'
        → Climbs e node e'
    further :
        {e e' : Exec} {node parent : ℕ}
        → (op.internode_migration e.tree node remote false).0 ≡ parent
        → parent ≢ 0
        → IsDeep op th (moved e node).tree parent
        → AllRemote op th (moved e node).tree parent
        → Climbs (moved e node) parent e'
        → Climbs e node (unlock_node op single pairs th parent e')

  -- The demotion of a leaf and of the nodes above it.
  pub data Demotes (e : Exec) (cur parent : ℕ) : Exec → Type 0 where
    alone :
        (op.leaf_migration e.tree cur parent remote).0 ≡ 0
        → Demotes e cur parent (moved_leaf e cur parent)
    leaf_only :
        {e' : Exec} {above : ℕ}
        → (op.leaf_migration e.tree cur parent remote).0 ≡ above
        → above ≢ 0
        → Halts (moved_leaf e cur parent) above e'
        → Demotes e cur parent e'
    with_nodes :
        {e' : Exec} {above : ℕ}
        → (op.leaf_migration e.tree cur parent remote).0 ≡ above
        → above ≢ 0
        → IsDeep op th (moved_leaf e cur parent).tree above
        → AllRemote op th (moved_leaf e cur parent).tree above
        → Climbs (moved_leaf e cur parent) above e'
        → Demotes e cur parent e'
