-- ===== src/Art/Tree/Split.antt =====
-- The step of `adaptive_radix_tree_put` at a leaf: `adaptive_radix_tree_replace_leaf` of
-- third_party/art/art.cc and `art_node_replace_leaf_child` of art_node.cc, with the writes to memory, by
-- a thread that no other disturbs.
pub mod New
pub mod Slot
pub mod After
pub mod Below
pub mod Children
pub mod Leaves
use sidle.Base.{
  ℕ, ◌+◌, ◌-◌, List, ◌&&◌, Option, none, some, ltb, ◌==◌, if◌then◌else◌, get_or, set, max, u8,
}
use sidle.Meta.{NodeMetadata, LeafMetadata, node_metadata}
use sidle.Art.Version.{node4, set_offset, wait, refuse, swap, try_lock, unlock}
use sidle.Art.Node.{Node}
use sidle.Art.Prefix.{set_prefix}
use sidle.Art.Leaf.{LeafNode, get_leaf_len}
use sidle.Art.Grow.{new_art_node, exists, added, grew, asserted, add_child}
use sidle.Art.Tree.{Store, match_loop, found, touch}

-- What `sidle_alloc` returns for the leaf and for the node that a call allocates, at most one of each:
-- the pointers, the leaf's metadata, and the node's memory with its metadata.
pub record Memory : Type 0 where
  pub leaf_at : ℕ
  pub leaf_meta : LeafMetadata
  pub node_at : ℕ
  pub raw : Node

-- `art_node **ptr`
pub data Place : Type 0 where
  at_root : Place
  at_slot : ℕ → ℕ → Place

unfoldable pub write_node : Store → ℕ → Node → Store
write_node s a n = record s { node = λ b. if b == a then some n else s.node b }

unfoldable pub write_leaf : Store → ℕ → LeafNode → Store
write_leaf s a l = record s { leaf = λ b. if b == a then some l else s.leaf b }

-- What `ptr` points to, and a write there.
unfoldable pub read_place : Store → Place → ℕ
read_place s at_root = s.root
read_place s (at_slot parent slot) = elim (s.node parent) [
  | none ↦ 0
  | some n ↦ get_or n.child slot 0
]

unfoldable pub write_place : Store → Place → ℕ → Store
write_place s at_root a = record s { root = a }
write_place s (at_slot parent slot) a = elim (s.node parent) [
  | none ↦ s
  | some n ↦ write_node s parent (record n { child = set n.child slot a })
]

-- The outcome of a call: 0 or 1 with the memory that it leaves, a wait that does not end, an assertion
-- that fails, or a pointer that leads nowhere.
pub data PutResult : Type 0 where
  stored existed : Store → PutResult
  stuck failed fault : PutResult

-- `alloc_leaf`
unfoldable pub new_leaf : Memory → List ℕ → ℕ → LeafNode
new_leaf mem key len = record { key_length = u8 len; sidle_meta = mem.leaf_meta; key = key }

-- `assert(art_node_add_child(an, byte, child, 0) == 0)` on a `node4` that is not full
unfoldable pub add_new : Node → ℕ → ℕ → Option Node
add_new an byte child = elim (add_child an byte child an 0) [
  | exists slot ↦ none
  | added n ↦ some n
  | grew n o ↦ none
  | asserted ↦ none
]

-- A new `node4` that is locked: `new_art_node`, the parent, the offset and `art_node_lock`
unfoldable pub locked_node : Memory → ℕ → ℕ → Option Node
locked_node mem parent off =
    let n = new_art_node node4 mem.raw in
    let v = set_offset n.version off in
    elim (try_lock v) [
      | wait ↦ none
      | refuse ↦ none
      | swap w ↦ some (record n { parent = parent; version = w })
    ]

-- `max(depth, uint8_t(above + 1))`, in 6 bits
unfoldable pub deeper : NodeMetadata → ℕ → NodeMetadata
deeper m above = node_metadata m.type (max m.depth (u8 (above + 1)))

-- `art_node_replace_leaf_child`, where the keys differ at `i`: a node above the old leaf and the new
-- one. Without a result an assertion fails.
unfoldable pub split_leaf : Memory → ℕ → ℕ → LeafNode → List ℕ → ℕ → ℕ → ℕ → Option Node
split_leaf mem parent an leaf key len off i =
    if ltb 8 (i - off) then none else elim (locked_node mem parent off) [
      | none ↦ none
      | some n ↦
          let n' = set_prefix n leaf.key off (i - off) in
          elim (add_new n' (if i == get_leaf_len leaf then 0 else get_or leaf.key i 0) an) [
            | none ↦ none
            | some m ↦ elim (add_new m (if i == len then 0 else get_or key i 0) mem.leaf_at) [
              | none ↦ none
              | some m' ↦ some (record m' { version = unlock m'.version })
            ]
          ]
    ]

-- The new node and both leaves are in memory.
unfoldable pub with_split : Store → Memory → ℕ → LeafNode → List ℕ → ℕ → Node → Store
with_split s mem an leaf key len n =
    let meta = record leaf.sidle_meta {
      metadata = deeper leaf.sidle_meta.metadata n.sidle_meta.depth;
    } in
    let old_leaf = record leaf { sidle_meta = meta } in
    write_node (write_leaf (write_leaf s an old_leaf) mem.leaf_at (new_leaf mem key len))
      mem.node_at n

-- `art_node_lock` on the node above; null needs no lock.
unfoldable pub lock_parent : Store → ℕ → Option Store
lock_parent s parent = if parent == 0 then some s else elim (s.node parent) [
  | none ↦ none
  | some p ↦ elim (try_lock p.version) [
    | wait ↦ none
    | refuse ↦ none
    | swap w ↦ some (write_node s parent (record p { version = w }))
  ]
]

unfoldable pub unlock_parent : Store → ℕ → Store
unlock_parent s parent = elim (s.node parent) [
  | none ↦ s
  | some p ↦ write_node s parent (record p { version = unlock p.version })
]

-- `adaptive_radix_tree_replace_leaf`
unfoldable pub replace_leaf : Store → Memory → ℕ → Place → ℕ → LeafNode → List ℕ → ℕ → ℕ → PutResult
replace_leaf s mem parent place an leaf key len off =
    let l1 = get_leaf_len leaf in
    let i = match_loop (l1 - off) off leaf.key key len in
    if i == l1 && i == len
    then existed (touch (found an) s)
    else elim (split_leaf mem parent an leaf key len off i) [
      | none ↦ failed
      | some n ↦ elim (lock_parent (with_split s mem an leaf key len n) parent) [
        | none ↦ stuck
        | some s' ↦
            let s'' = write_place s' place mem.node_at in
            stored (if parent == 0 then s'' else unlock_parent s'' parent)
      ]
    ]
