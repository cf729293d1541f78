-- ===== src/Meta.antt =====
-- The enumerations and node metadata of third_party/sidle_utils/sidle_meta.hh and sidle_struct.hh.
use Prim.Native.String.{String}
use sidle.Base.{ℕ, ◌+◌, ◌%◌, Bool, true, false, u16}

pub data NodeMemType : Type 0 where
  remote local unknown debug : NodeMemType

pub data TaskType : Type 0 where
  promotion demotion : TaskType

pub data MemUsageStatus : Type 0 where
  normal tight sufficient : MemUsageStatus

pub data MigrationState : Type 0 where
  proceed delay stop : MigrationState

-- `node_mem_type_helper::to_string`
unfoldable pub to_string : NodeMemType → String
to_string remote = "remote"
to_string local = "local"
to_string unknown = "unknown"
to_string debug = "debug"

abbrev pub is_local : NodeMemType → Bool
is_local local = true
is_local _ = false

abbrev pub is_remote : NodeMemType → Bool
is_remote remote = true
is_remote _ = false

abbrev pub is_unknown : NodeMemType → Bool
is_unknown unknown = true
is_unknown _ = false

-- `node_metadata` has 2 bits for the type and 6 for the depth, which is cut to them.
pub record NodeMetadata : Type 0 where
  pub type : NodeMemType
  pub depth : ℕ

unfoldable pub node_metadata : NodeMemType → ℕ → NodeMetadata
node_metadata t depth = record { type = t; depth = depth % 64 }

pub record LeafMetadata : Type 0 where
  pub metadata : NodeMetadata
  pub access_time : ℕ

unfoldable pub leaf_metadata : NodeMemType → ℕ → ℕ → LeafMetadata
unfolding node_metadata
leaf_metadata t depth access_time = record {
  metadata = node_metadata t depth;
  access_time = u16 access_time;
}

-- `update_access` of sidle_frontend.hh, on the leaf's metadata: a `uint16_t` that wraps.
unfoldable pub update_access : LeafMetadata → LeafMetadata
update_access m = record m { access_time = u16 (m.access_time + 1) }
