-- ===== src/Art/Grow.antt =====
-- `art_node_grow` of third_party/art/art_node.cc. `raw` is the memory of the new node as `sidle_alloc`
-- returns it, with its metadata, and `address` where it is; `none` is the assertion on a `node256`.
pub mod Arrays
mod Words
pub mod Laws
pub mod Room
pub mod Add
use sidle.Base.{
  ℕ, zero, suc, ◌+◌, ◌-◌, ◌%◌, List, [], ◌∷◌, ◌++◌, Option, none, some, ◌==◌, if◌then◌else◌, get_or,
  set, replicate,
}
use sidle.Art.Version.{
  NodeType, node4, node16, node48, node256, get_node_type, set_type, get_prefix_len, set_prefix_len,
  set_count, get_offset, set_offset, set_lock, set_old, unlock,
}
use sidle.Art.Node.{Node, find_child, is_full, insert_child}
use sidle.Art.Prefix.{copy_bytes}

-- `new_art_node4` to `new_art_node256`, on the memory from `sidle_alloc`.
unfoldable pub new_art_node : NodeType → Node → Node
new_art_node node48 raw = record raw {
  version = set_type 0 node48;
  new_ = 0;
  parent = 0;
  index = replicate 256 0;
}
new_art_node node256 raw = record raw {
  version = set_type 0 node256;
  new_ = 0;
  parent = 0;
  child = replicate 256 0;
}
new_art_node node4 raw = record raw { version = set_type 0 node4; new_ = 0; parent = 0 }
new_art_node node16 raw = record raw { version = set_type 0 node16; new_ = 0; parent = 0 }

-- `index[key[i]] = i + 1`, from `i` on for `n` keys
unfoldable pub fill_index : ℕ → ℕ → List ℕ → List ℕ → List ℕ
fill_index zero i index key = index
fill_index (suc n) i index key = fill_index n (i + 1) (set index (get_or key i 0) (i + 1)) key

-- The loop of the `node48` case, from byte `i` on for `n` bytes
unfoldable pub spread : ℕ → ℕ → List ℕ → List ℕ → List ℕ → List ℕ
spread zero i child index source = child
spread (suc n) i child index source =
    let at_byte = get_or index i 0 in
    let child' = if at_byte == 0 then child else set child i (get_or source (at_byte - 1) 0) in
    spread n (i + 1) child' index source

-- The header that every case copies.
inherit : Node → Node → Node
inherit an new_ = record new_ {
  prefix = copy_bytes 8 0 new_.prefix an.prefix 0;
  version = set_prefix_len new_.version (get_prefix_len an.version);
  parent = an.parent;
}

-- The `switch`, on the new node; `adopted` are the children that it becomes the parent of.
unfoldable pub grow_as : NodeType → Node → Node → Option Node
unfolding inherit
grow_as node4 an raw =
    let n = inherit an (new_art_node node16 raw) in
    some (record n {
      key = copy_bytes 4 0 n.key an.key 0;
      child = copy_bytes 4 0 n.child an.child 0;
      version = set_count n.version 4;
    })
grow_as node16 an raw =
    let n = inherit an (new_art_node node48 raw) in
    some (record n {
      child = copy_bytes 16 0 n.child an.child 0;
      index = fill_index 16 0 n.index an.key;
      version = set_count n.version 16;
    })
grow_as node48 an raw =
    let n = inherit an (new_art_node node256 raw) in
    some (record n { child = spread 256 0 n.child an.index an.child })
grow_as node256 an raw = none

-- What follows the `switch`: the new node is locked and takes the offset, and the old one points to
-- it and is old.
unfoldable pub finish : Node → ℕ → Node → Node × Node
finish an address new_ = (
  record new_ { version = set_offset (set_lock new_.version) (get_offset an.version) },
  record an { new_ = address; version = set_old an.version },
)

unfoldable pub grow : Node → Node → ℕ → Option (Node × Node)
unfolding finish
grow an raw address = elim (grow_as (get_node_type an.version) an raw) [
  | none ↦ none
  | some n ↦ some (finish an address n)
]

-- What `art_node_add_child` does: it finds a child, adds one, adds one to a grown node beside which
-- the old node stays, or fails an assertion.
pub data AddResult : Type 0 where
  exists : ℕ → AddResult
  added : Node → AddResult
  grew : Node → Node → AddResult
  asserted : AddResult

-- `art_node_add_child`, where `new_` is given; a grown node is unlocked at the end. The parent of an
-- inner child becomes the node that it is added to, at `an_at` or at `address`: see `child_parent`.
unfoldable pub add_child : Node → ℕ → ℕ → Node → ℕ → AddResult
add_child an byte child raw address = elim (find_child an an.version byte) [
  | some slot ↦ exists slot
  | none ↦
      if is_full an
      then elim (grow an raw address) [
        | none ↦ asserted
        | some (n, o) ↦
            let n' = insert_child n byte child in grew (record n' { version = unlock n'.version }) o
      ]
      else added (insert_child an byte child)
]

-- `if (!is_leaf(child)) child->parent = an;`, on the child at the address `child`
unfoldable pub child_parent : ℕ → Node → ℕ → Node
child_parent child node an_at = if child % 2 == 1 then node else record node { parent = an_at }

-- The inner nodes among the first `n` children
inner_children : ℕ → List ℕ → List ℕ
inner_children zero child = []
inner_children (suc n) [] = []
inner_children (suc n) (c ∷ child) =
    let rest = inner_children n child in if c % 2 == 1 then rest else c ∷ rest

-- The same through an index, in the order of the bytes
indexed_children : List ℕ → List ℕ → List ℕ
indexed_children [] child = []
indexed_children (g ∷ index) child =
    let rest = indexed_children index child in
    let c = get_or child (g - 1) 0 in if g == 0 then rest else if c % 2 == 1 then rest else c ∷ rest

-- The children whose parent `art_node_grow` sets to the new node.
unfoldable pub adopted : NodeType → Node → List ℕ
unfolding inner_children indexed_children
adopted node4 an = inner_children 4 an.child
adopted node16 an = inner_children 16 an.child
adopted node48 an = indexed_children an.index an.child
adopted node256 an = []
