-- ===== src/Art/Leaf.antt =====
-- The leaves, the sizes of the nodes and the walk over a node's children (third_party/art/art_def.hh
-- and art_node.cc). A leaf is packed: one byte for the length, three for the metadata, then the key.
use mathlib.Core.Option
use sidle.Base.{
  ℕ, zero, suc, ◌+◌, ◌-◌, ◌^◌, List, [], ◌∷◌, Bool, true, Option, ltb, ◌==◌, if◌then◌else◌, get_or,
  u8,
}
use sidle.Meta.{NodeMemType, NodeMetadata, LeafMetadata, leaf_metadata}
use sidle.Flags.{Flags}
use sidle.Threshold.{Floats}
use sidle.Strategy.{Strategy, sidle_alloc, sidle_free}
use sidle.Art.Version.{NodeType, node4, node16, node48, node256, get_node_type, get_count}
use sidle.Art.Node.{Node}

pub record LeafNode : Type 0 where
  pub key_length : ℕ
  pub sidle_meta : LeafMetadata
  pub key : List ℕ

-- `sizeof` of the four nodes
unfoldable pub node_size : NodeType → ℕ
node_size node4 = 80
node_size node16 = 184
node_size node48 = 680
node_size node256 = 2088

-- The length byte is read as a `char`, which is signed, and then as a `size_t`.
unfoldable pub get_leaf_len : LeafNode → ℕ
get_leaf_len leaf =
    if ltb leaf.key_length 128 then leaf.key_length else 2 ^ 64 + leaf.key_length - 256

module _ (floats : Floats) where
  -- `alloc_leaf`, with the key as a list of `len` bytes
  unfoldable pub alloc_leaf :
      Option NodeMetadata
      → List ℕ
      → ℕ
      → NodeMemType
      → Bool
      → Strategy
      → Flags
      → Option (LeafNode × Strategy × Flags)
  alloc_leaf parent key len target is_migration s f =
      Option.map
        (λ (meta, s', f'). (
          record {
            key_length = u8 len;
            sidle_meta = leaf_metadata meta.type meta.depth 0;
            key = key;
          },
          s',
          f',
        ))
        (sidle_alloc floats (4 + len) parent target is_migration true 0 s f)

  -- `free_art_node` of the node at an address, as with CXL
  unfoldable pub free_art_node {ℓ} :
      {St : Type ℓ}
      → (ℕ → St → St)
      → ℕ
      → Node
      → Strategy
      → Flags
      → St
      → Option (Strategy × Flags × St)
  unfolding node_size
  free_art_node free_with_cxl addr an s f st =
      sidle_free floats free_with_cxl addr an.sidle_meta (node_size (get_node_type an.version)) s f
        st

-- The children that the callback sees: those up to the first that it returns false on.
visit : (ℕ → Bool) → List ℕ → List ℕ
visit cb [] = []
visit cb (c ∷ cs) = let rest = visit cb cs in if cb c then c ∷ rest else c ∷ []

first_children : ℕ → List ℕ → List ℕ
first_children zero child = []
first_children (suc n) [] = []
first_children (suc n) (c ∷ child) = c ∷ first_children n child

children_by_index : List ℕ → List ℕ → List ℕ
children_by_index [] child = []
children_by_index (g ∷ index) child =
    let rest = children_by_index index child in
    if g == 0 then rest else get_or child (g - 1) 0 ∷ rest

set_children : List ℕ → List ℕ
set_children [] = []
set_children (c ∷ child) = let rest = set_children child in if c == 0 then rest else c ∷ rest

-- The children of a node, in the order of the walk
unfoldable pub children_of : NodeType → Node → List ℕ
unfolding first_children children_by_index set_children
children_of node4 an = first_children (get_count an.version) an.child
children_of node16 an = first_children (get_count an.version) an.child
children_of node48 an = children_by_index an.index an.child
children_of node256 an = set_children an.child

-- `art_node_traverse`: the calls of the callback
unfoldable pub traverse : Node → (ℕ → Bool) → List ℕ
unfolding children_of visit
traverse an cb = visit cb (children_of (get_node_type an.version) an)
