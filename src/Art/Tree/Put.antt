-- ===== src/Art/Tree/Put.antt =====
-- `adaptive_radix_tree_put` of third_party/art/art.cc, with `art_node_expand_and_insert` of art_node.cc,
-- by a thread that no other disturbs.
use sidle.Base.{
  ℕ, zero, suc, ◌+◌, ◌-◌, List, [], ◌∷◌, Option, none, some, ltb, ◌==◌, if◌then◌else◌, get_or,
}
use sidle.Art.Version.{
  get_node_type, get_offset, get_prefix_len, is_old, is_expanding, wait, refuse, swap, try_lock,
  unlock,
}
use sidle.Art.Node.{Node, find_child, replace_child}
use sidle.Art.Prefix.{set_prefix, prefix_compare, truncate_prefix}
use sidle.Art.Grow.{exists, added, grew, asserted, add_child, child_parent, adopted}
use sidle.Art.Tree.{Store, is_leaf}
use sidle.Art.Tree.Split.{
  Memory, Place, at_root, at_slot, write_node, write_leaf, read_place, write_place, PutResult,
  stored, existed, stuck, failed, fault, new_leaf, add_new, locked_node, deeper, lock_parent,
  unlock_parent, replace_leaf,
}

-- What follows a change of the node at `an` for the new node, of which the parent is locked: it takes
-- the old one's place below the parent, or at `ptr` where there is none.
unfoldable pub hang : Store → Place → ℕ → ℕ → ℕ → Node → PutResult
hang s place parent byte new_at new_ =
    if parent == 0
    then stored (write_place (write_node s new_at new_) place new_at)
    else elim (s.node parent) [
      | none ↦ fault
      | some p ↦ elim (replace_child p parent byte new_ new_at) [
        | none ↦ fault
        | some (p', n) ↦
            stored (unlock_parent (write_node (write_node s new_at n) parent p') parent)
      ]
    ]

-- The release of the node at `an` at the end of a step
unfoldable pub then_unlock : ℕ → PutResult → PutResult
then_unlock an (stored s) = stored (unlock_parent s an)
then_unlock an (existed s) = existed s
then_unlock an stuck = stuck
then_unlock an failed = failed
then_unlock an fault = fault

-- `art_node_expand_and_insert`: the new node, which stays locked, and the old one below it. Without a
-- result an assertion fails.
unfoldable pub expand_and_insert : Memory → ℕ → ℕ → Node → List ℕ → ℕ → ℕ → ℕ → Option (Node × Node)
expand_and_insert mem parent an n key len off common = elim (locked_node mem parent off) [
  | none ↦ none
  | some m ↦
      let m' = set_prefix m key off common in
      let byte = if ltb (off + common) len then get_or key (off + common) 0 else 0 in
      elim (add_new m' byte mem.leaf_at) [
        | none ↦ none
        | some m1 ↦
            let (byte', n') = truncate_prefix n common in
            elim (add_new m1 byte' an) [
              | none ↦ none
              | some m2 ↦ some (
                m2,
                record (child_parent an n' mem.node_at) {
                  sidle_meta = deeper n.sidle_meta m2.sidle_meta.depth;
                },
              )
            ]
      ]
]

-- Where the key leaves the prefix of the node at `an`.
unfoldable pub put_expand : Store → Memory → Place → ℕ → Node → List ℕ → ℕ → ℕ → ℕ → PutResult
put_expand s mem place an n key len off common = elim (try_lock n.version) [
  | wait ↦ stuck
  | refuse ↦ stuck
  | swap w ↦
      let n1 = record n { version = w } in
      elim (lock_parent (write_node s an n1) n.parent) [
        | none ↦ stuck
        | some s1 ↦ elim (expand_and_insert mem n.parent an n1 key len off common) [
          | none ↦ failed
          | some (m, n2) ↦
              let s2 = write_leaf (write_node s1 an n2) mem.leaf_at (new_leaf mem key len) in
              then_unlock an (hang s2 place n.parent (get_or key (off - 1) 0) mem.node_at m)
        ]
      ]
]

-- `child->parent = new_`, for each inner child that a grown node takes over
unfoldable pub adopt : Store → List ℕ → ℕ → Store
adopt s [] new_at = s
adopt s (c ∷ cs) new_at = elim (s.node c) [
  | none ↦ adopt s cs new_at
  | some n ↦ adopt (write_node s c (record n { parent = new_at })) cs new_at
]

-- Where the key has no child yet at the node at `an`, with 0 for a byte behind the key's end; `descend` is the call for a child that is there
-- after all. `off` is behind the prefix of length `p`.
unfoldable pub put_child :
    Store → Memory → Place → ℕ → Node → List ℕ → ℕ → ℕ → ℕ → (Store → ℕ → PutResult) → PutResult
put_child s mem place an n key len off p descend = elim (try_lock n.version) [
  | wait ↦ stuck
  | refuse ↦ stuck
  | swap w ↦
      let n1 = record n { version = w } in
      let s1 = write_leaf s mem.leaf_at (new_leaf mem key len) in
      elim (add_child n1 (get_or key off 0) mem.leaf_at mem.raw mem.node_at) [
        | exists slot ↦ descend (write_node s1 an (record n1 { version = unlock w })) slot
        | added n2 ↦ stored (write_node s1 an (record n2 { version = unlock n2.version }))
        | grew m o ↦
            let s2 = adopt (write_node s1 an o) (adopted (get_node_type n.version) n) mem.node_at in
            elim (lock_parent s2 o.parent) [
              | none ↦ stuck
              | some s3 ↦
                  then_unlock an (hang s3 place o.parent (get_or key (off - p - 1) 0) mem.node_at m)
            ]
        | asserted ↦ failed
      ]
]

-- `_adaptive_radix_tree_put` at an inner node; `descend` is its call for a child.
unfoldable pub put_node :
    Store → Memory → Place → ℕ → Node → List ℕ → ℕ → ℕ → (Store → ℕ → ℕ → PutResult) → PutResult
put_node s mem place an n key len off descend =
    let v = n.version in
    let p = prefix_compare n v key len off in
    let below = λ (s' : Store) (slot : ℕ). descend s' slot (off + p + 1) in
    if is_expanding v
    then stuck
    else if get_offset v == off
    then if is_old v
      then stuck
      else if p == get_prefix_len v
      then elim (find_child n v (get_or key (off + p) 0)) [
        | some slot ↦ below s slot
        | none ↦ put_child s mem place an n key len (off + p) p below
      ]
      else put_expand s mem place an n key len off p
    else stuck

-- `_adaptive_radix_tree_put`, on fuel for the calls down the tree; without it the call is stuck.
unfoldable pub put_tree : ℕ → Store → Memory → ℕ → Place → List ℕ → ℕ → ℕ → PutResult
put_tree zero s mem parent place key len off = stuck
put_tree (suc fuel) s mem parent place key len off =
    let an = read_place s place in
    let descend =
      λ (s' : Store) (slot off' : ℕ). put_tree fuel s' mem an (at_slot an slot) key len off' in
    if is_leaf an
    then elim (s.leaf an) [
      | none ↦ fault
      | some leaf ↦ replace_leaf s mem parent place an leaf key len off
    ]
    else elim (s.node an) [ none ↦ fault | some n ↦ put_node s mem place an n key len off descend ]

-- `adaptive_radix_tree_put`
unfoldable pub adaptive_radix_tree_put : ℕ → Store → Memory → List ℕ → ℕ → PutResult
adaptive_radix_tree_put fuel s mem key len =
    if s.root == 0
    then stored (write_place (write_leaf s mem.leaf_at (new_leaf mem key len)) at_root mem.leaf_at)
    else put_tree fuel s mem 0 at_root key len 0
