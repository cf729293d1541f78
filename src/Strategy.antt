-- ===== src/Strategy.antt =====
-- `sidle_strategy` of third_party/sidle_utils/sidle_policy.hh, and the node allocation of
-- sidle_frontend.hh. `SIDLE_CHECK` throws, as in a build without NDEBUG: the result is then `none`.
pub mod Accounting
use mathlib.Core.Option
use sidle.Base.{
  ℕ, ◌+◌, ◌-◌, ◌*◌, ◌/◌, ◌^◌, Bool, true, false, not, ◌&&◌, ◌||◌, Option, none, some, ltb, leb,
  ◌==◌, if◌then◌else◌, u8, u64,
}
use sidle.Base.Int.{ℤ, pos, negsuc, ◌+ℤ◌, ◌-ℤ◌, ltb_ℤ}
use sidle.Meta.{
  NodeMemType, local, remote, unknown, MemUsageStatus, tight, sufficient, normal, is_local,
  is_remote, is_unknown, NodeMetadata, node_metadata,
}
use sidle.Flags.{Flags}
use sidle.Threshold.{
  Floats, Threshold, default_threshold, sidle_threshold, get_allocation_position,
  correct_threshold_with_leaf_depth, adjust_local_allocation_threshold, leaf_depth,
}
use sidle.Threshold

-- `max_local_memory_usage_` is a `uint64_t`, `cur_local_memory_usage_` an `int64_t` that no run is
-- long enough to overflow.
pub record Strategy : Type 0 where
  pub threshold_manager : Threshold
  pub max_local_memory_usage : ℕ
  pub cur_local_memory_usage : ℤ
  pub slow_down_in_load : Bool

-- `sizeof` of the smallest and of the largest node of art_def.hh
abbrev pub size_node4 : ℕ
size_node4 = 80

abbrev pub size_node256 : ℕ
size_node256 = 2088

-- What Masstree's parameters give: the width of a leaf and the sizes of its nodes.
pub record Widths : Type 0 where
  pub leaf_width : ℕ
  pub leaf_size : ℕ
  pub internode_size : ℕ

abbrev is_tight : MemUsageStatus → Bool
is_tight tight = true
is_tight _ = false

abbrev is_sufficient : MemUsageStatus → Bool
is_sufficient sufficient = true
is_sufficient _ = false

abbrev is_normal : MemUsageStatus → Bool
is_normal normal = true
is_normal _ = false

unfoldable pub decide_new_node_position : Strategy → NodeMemType → ℕ → NodeMemType
decide_new_node_position s parent_type cur_depth =
    if is_remote parent_type then remote else get_allocation_position s.threshold_manager cur_depth

-- The first `if` of `update_local_memory_usage`.
unfoldable pub charge : NodeMemType → ℤ → Bool → ℤ → ℤ
charge local size is_migration usage = usage +ℤ size
charge remote size is_migration usage = if is_migration then usage -ℤ size else usage
charge _ size is_migration usage = usage

-- `cur_depth` of `sidle_alloc`
unfoldable pub child_depth : Option NodeMetadata → ℕ
child_depth none = 1
child_depth (some parent) = u8 (parent.depth + 1)

parent_type : Option NodeMetadata → NodeMemType
parent_type none = unknown
parent_type (some parent) = parent.type

-- The type of a new node: the target, or, where that is unknown, what the policy decides.
unfoldable pub new_node_type : Strategy → Option NodeMetadata → NodeMemType → NodeMemType
unfolding parent_type child_depth
new_node_type s parent target =
    if is_unknown target
    then decide_new_node_position s (parent_type parent) (child_depth parent)
    else target

-- A `size_t` read as an `int64_t`.
unfoldable pub signed : ℕ → ℤ
signed n = if ltb n (2 ^ 63) then pos n else negsuc (2 ^ 64 - n - 1)

-- The last part of `update_local_memory_usage`, on the new status.
unfoldable pub react : MemUsageStatus → Strategy → Flags → Strategy × Flags
react status s f =
    if f.need_adjust_threshold && is_sufficient status
    then (s, record f { can_demote = false })
    else if is_tight status
    then (s, record f { need_adjust_threshold = true })
    else if not f.is_running && is_normal status && not s.slow_down_in_load
    then (
      record s {
        slow_down_in_load = true;
        threshold_manager = adjust_local_allocation_threshold true s.threshold_manager;
      },
      f,
    )
    else (s, f)

-- The first part of `update_local_memory_usage`: the usage, and the correction by a leaf's depth.
unfoldable pub charged : NodeMemType → ℕ → ℤ → Bool → Bool → Strategy → Strategy
charged type cur_depth node_size is_migration is_leaf s = record s {
  threshold_manager =
      if is_migration && (is_leaf && ltb 0 cur_depth)
      then correct_threshold_with_leaf_depth cur_depth s.threshold_manager
      else s.threshold_manager;
  cur_local_memory_usage = charge type node_size is_migration s.cur_local_memory_usage;
}

module _ (floats : Floats) where
  open floats use {Float, of_int, ◌/ᶠ◌}

  -- `sidle_strategy(max_local_memory_usage, cxl_percentage, is_art)`
  unfoldable pub sidle_strategy : Widths → ℕ → ℤ → Bool → Strategy
  sidle_strategy widths megabytes cxl_percentage is_art =
      let limit = u64 (megabytes * 1024 * 1024) in
      let node_count =
        if is_art
        then limit / ((size_node4 + size_node256) / 2)
        else limit / (widths.leaf_size + widths.internode_size) / 2 in
      record {
        threshold_manager =
            sidle_threshold floats widths.leaf_width node_count cxl_percentage is_art;
        max_local_memory_usage = limit;
        cur_local_memory_usage = pos 0;
        slow_down_in_load = false;
      }

  unfoldable pub check_memory_usage : Strategy → MemUsageStatus
  check_memory_usage s =
      Threshold.check_memory_usage floats
        (◌/ᶠ◌ (of_int s.cur_local_memory_usage) (of_int (pos s.max_local_memory_usage)))

  unfoldable pub update_local_memory_usage :
      NodeMemType → ℕ → ℤ → Bool → Bool → Strategy → Flags → Option (Strategy × Flags)
  update_local_memory_usage type cur_depth node_size is_migration is_leaf s f =
      let s' = charged type cur_depth node_size is_migration is_leaf s in
      if ltb_ℤ s'.cur_local_memory_usage (pos 0)
      then none
      else some (react (check_memory_usage s') s' f)

  -- `sidle_alloc`: the metadata of the new node, and the policy after it. The node is taken from
  -- the device where its type is remote, and from local memory otherwise.
  unfoldable pub sidle_alloc :
      ℕ
      → Option NodeMetadata
      → NodeMemType
      → Bool
      → Bool
      → ℕ
      → Strategy
      → Flags
      → Option (NodeMetadata × Strategy × Flags)
  sidle_alloc size parent target is_migration is_leaf old_size s f =
      let type = new_node_type s parent target in
      let depth = child_depth parent in
      let updated =
        update_local_memory_usage type (if is_leaf then depth else leaf_depth)
          (signed (u64 (size + 2 ^ 64 - old_size))) is_migration is_leaf s f in
      if is_local type || is_migration
      then Option.map (λ (s', f'). (node_metadata type depth, s', f')) updated
      else some (node_metadata type depth, s, f)

  -- `sidle_free` of the node at an address, on the heap: it reports the size of a node that goes away
  -- as if the node came.
  unfoldable pub sidle_free {ℓ} :
      {St : Type ℓ}
      → (ℕ → St → St)
      → ℕ
      → NodeMetadata
      → ℕ
      → Strategy
      → Flags
      → St
      → Option (Strategy × Flags × St)
  sidle_free free_with_cxl an meta size s f st =
      Option.map (λ (s', f'). (s', f', free_with_cxl an st))
        (update_local_memory_usage meta.type meta.depth (signed size) false false s f)
