-- ===== src/Art/Tree/Added.antt =====
-- A step of the insertion that puts the new leaf into a free slot.
use sidle.Base.{
  ℕ, ◌+◌, ◌<◌, ◌≡◌, ◌≢◌, ◌⊎◌, inl, inr, refl, sym, ap, ◌∙◌, List, true, false, none, some, ◌==◌,
  ==_iff, get_or, arith,
}
use sidle.Art.Version.{get_offset, get_prefix_len, is_locked, is_old, is_expanding}
use sidle.Art.Version.Lock.{try_lock-free}
use sidle.Art.Node.{Node, find_child, is_full}
use sidle.Art.Node.Insert.{IsNode}
use sidle.Art.Leaf.{LeafNode}
use sidle.Art.Prefix.{prefix_compare}
use sidle.Art.Grow.Add.{add_child_free}
use sidle.Art.Tree.{Store, is_leaf}
use sidle.Art.Tree.Invariant.{Route, Follows, through, below_offset, IsAt, IsTree, Holds}
use sidle.Art.Tree.Split.{Memory, Place, PutResult, stored, new_leaf, write_node, write_leaf}
use sidle.Art.Tree.Split.After.{IsFresh}
use sidle.Art.Tree.Path.{Reaches}
use sidle.Art.Tree.Filled.{locked, find_child-locked, is_full-locked}
use sidle.Art.Tree.{adaptive_radix_tree_get, found}
use sidle.Art.Tree.Compare.{SameBytes, Follows-parent}
use sidle.Art.Tree.Get.{adaptive_radix_tree_get-Holds}
use sidle.Art.Tree.Split.{at_root, at_slot}
use sidle.Art.Tree.Put.{put_child, put_node, put_tree, adaptive_radix_tree_put}
use sidle.Art.Tree.Path.{
  Holds-Reaches, Reaches-inner, Reaches-root, Reaches-stable, put_tree_inner, put_tree_at,
}
use sidle.Art.Tree.Beside.{
  added_store, IsTree-added, Holds-new, Holds-kept, Holds-only, Reaches-kept, leaf_new,
  SameLeaves-added,
}

put_child_added :
    (s : Store) (mem : Memory) (place : Place) (q : ℕ) (p : Node) (key : List ℕ) (len off l : ℕ)
    (descend : Store → ℕ → PutResult)
    → IsNode p
    → is_locked p.version ≡ false
    → is_expanding p.version ≡ false
    → is_old p.version ≡ false
    → find_child p p.version (get_or key off 0) ≡ none
    → is_full p ≡ false
    → put_child s mem place q p key len off l descend
      ≡ stored (added_store s mem len q (get_or key off 0) p key)
unfolding put_child
put_child_added s mem place q p key len off l descend node free stable current absent room =
    let byte = get_or key off 0 in
    let gone = find_child-locked p byte mem.leaf_at node free stable byte ∙ absent in
    let room' = is_full-locked p byte mem.leaf_at node free stable ∙ room in
    rw
      (
        try_lock-free p.version free current,
        add_child_free (locked p) mem.raw byte mem.leaf_at mem.node_at gone room',
        put_child,
      )
      refl

-- The key has the prefix of the node, which has no child for the next byte.
pub put_node_added :
    (s : Store) (mem : Memory) (place : Place) (q : ℕ) (p : Node) (key : List ℕ) (len off byte : ℕ)
    (descend : Store → ℕ → ℕ → PutResult)
    → IsNode p
    → is_locked p.version ≡ false
    → is_expanding p.version ≡ false
    → is_old p.version ≡ false
    → get_offset p.version ≡ off
    → prefix_compare p p.version key len off ≡ get_prefix_len p.version
    → get_or key (off + get_prefix_len p.version) 0 ≡ byte
    → find_child p p.version byte ≡ none
    → is_full p ≡ false
    → put_node s mem place q p key len off descend ≡ stored (added_store s mem len q byte p key)
unfolding put_node
put_node_added s mem place q p key len off byte descend node free stable current offset whole next
      absent room =
    let here_lem : get_offset p.version == off ≡ true = (==_iff _ _).1 offset in
    let all : prefix_compare p p.version key len off == get_prefix_len p.version ≡ true =
      (==_iff _ _).1 whole in
    let at : get_or key (off + prefix_compare p p.version key len off) 0 ≡ byte =
      ap (λ c. get_or key (off + c) 0) whole ∙ next in
    let gone : find_child p p.version (get_or key (off + prefix_compare p p.version key len off) 0)
        ≡ none =
      ap (find_child p p.version) at ∙ absent in
    rw (stable, here_lem, current, all, gone)
      (put_child_added s mem place q p key len (off + prefix_compare p p.version key len off)
          (prefix_compare p p.version key len off)
          (λ s' slot. descend s' slot (off + prefix_compare p p.version key len off + 1)) node free
          stable current gone room
        ∙ ap (λ b. stored (added_store s mem len q b p key)) at)

module _ (s : Store) (mem : Memory) (len fuel q byte : ℕ) (routes : ℕ → Route) (p : Node)
    (key : List ℕ) (tree : IsTree s len routes) (fresh : IsFresh s mem)
    (reached : Reaches s s.root q) (above : s.node q ≡ some p)
    (unlocked : is_locked p.version ≡ false) (node : IsNode p) (range : byte < 256)
    (absent : find_child p p.version byte ≡ none) (room : is_full p ≡ false)
    (follows : Follows key (through (routes q) p byte) (below_offset p)) (small : len < 128)
    (enough : len < fuel) where
  abbrev store : Store
  store = added_store s mem len q byte p key

  no_null : s.root == 0 ≡ false
  no_null = Reaches-root s q p tree.null above reached

  start : IsAt s len routes s.root 0 (λ j. 0)
  start = elim tree.start [ inl e ↦ let k = no_null in absurd (ground arith) | inr at ↦ at ]

  steady :
      (is_expanding p.version ≡ false)
      × (is_old p.version ≡ false)
      × (get_offset p.version + get_prefix_len p.version < len)
  steady = Reaches-stable s len routes s.root q 0 (λ j. 0) p tree above reached start

  put_lem : adaptive_radix_tree_put fuel s mem key len ≡ stored store
  unfolding adaptive_radix_tree_put sidle.Art.Tree.Split.read_place
  put_lem =
      let o = get_offset p.version in
      let (stable, current, inside) = steady in
      let (before, whole, next) = Follows-parent key (routes q) p len byte o refl inside follows in
      let ((left, parent', place', read', enough', same), follows') =
        put_tree_at s mem len routes tree q p key above before fuel 0 s.root 0 at_root (λ j. 0) refl
          reached (omega arith) start in
      rw no_null (
        same
        ∙ put_tree_inner left s mem parent' place' q p key len o read'
            (Reaches-inner s s.root q reached) above
        ∙ put_node_added s mem place' q p key len o byte
            (λ s' slot off'. put_tree left s' mem q (at_slot q slot) key len off') node unlocked
            stable current refl whole next absent room)

  -- Under these conditions: in a tree of keys of one length below 128, a key of that length comes
  -- down to a well-formed node that is not locked, has its prefix, has a free slot and no child for the
  -- next byte; `sidle_alloc` gives fresh memory, and there is more fuel than the length. Then the call
  -- returns 0 and leaves a tree, the leaves of which are the leaves from before and the new one. A
  -- search after it finds the new leaf by the new key, and by the key of any leaf that was in the tree
  -- that leaf.
  pub adaptive_radix_tree_put-adds :
      (s' : Store) × (adaptive_radix_tree_put fuel s mem key len ≡ stored s')
      × IsTree s' len routes
      × ((a : ℕ) → Holds s s.root a → Holds s' s'.root a)
      × ((a : ℕ) → Holds s' s'.root a → Holds s s.root a ⊎ (a ≡ mem.leaf_at))
      × Holds s' s'.root mem.leaf_at
      × ((adaptive_radix_tree_get fuel s' key len).0 ≡ found mem.leaf_at)
      × ((a : ℕ) (old : LeafNode) (other : List ℕ)
          → Holds s s.root a
          → s.leaf a ≡ some old
          → SameBytes old.key other len
          → (adaptive_radix_tree_get fuel s' other len).0 ≡ found a)
  unfolding new_leaf write_node write_leaf
  adaptive_radix_tree_put-adds =
      let (stable, current, inside) = steady in
      let inner_q = Reaches-inner s s.root q reached in
      let not_zero : q ≢ 0 =
        λ e. let k : some p ≡ none = sym above ∙ ap s.node e ∙ tree.null in cc in
      let tree' =
        IsTree-added s mem len q byte p key routes tree fresh above node unlocked stable current
          range room absent small inside follows not_zero in
      let new_ =
        Holds-Reaches store s.root q mem.leaf_at
          (Reaches-kept s mem len q byte p key routes tree fresh above node unlocked stable current
            range room absent small inside follows inner_q s.root reached)
          (Holds-new s mem len q byte p key routes tree fresh above node unlocked stable current
            range room absent small inside follows inner_q) in
      let kept_leaves : (a : ℕ) → Holds s s.root a → Holds store s.root a =
        Holds-kept s mem len q byte p key routes tree fresh above node unlocked stable current range
          room absent small inside follows inner_q s.root in
      (
        store,
        put_lem,
        tree',
        kept_leaves,
        λ a.
            Holds-only s mem len q byte p key routes tree fresh above node unlocked stable current
              range room absent small inside follows inner_q s.root a 0 (λ j. 0) start,
        new_,
        adaptive_radix_tree_get-Holds store len fuel routes mem.leaf_at (new_leaf mem key len) key
            tree' enough new_
            (leaf_new s mem len q byte p key routes tree fresh above node unlocked stable current
              range room absent small inside follows)
            (λ j h. refl),
        λ a old other held at same.
            let (value, at', size, keys) =
              SameLeaves-added s mem len q byte p key routes tree fresh above node unlocked stable
                current range room absent small inside follows a old at in
            adaptive_radix_tree_get-Holds store len fuel routes a value other tree' enough
              (kept_leaves a held) at' (λ j h. ap (λ k. get_or k j 0) keys ∙ same j h),
      )
