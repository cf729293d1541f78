-- ===== src/Art/Tree/Insert.antt =====
-- `adaptive_radix_tree_put` of a key that comes to a leaf with another key, below a node.
use sidle.Base.{
  ℕ, zero, suc, ◌+◌, ◌-◌, ◌<◌, ◌≤◌, ◌≡◌, ◌≢◌, ◌⊎◌, inl, inr, refl, sym, ap, subst, ◌∙◌, List, true,
  false, none, some, ◌==◌, get_or, arith,
}
use sidle.Art.Version.{get_node_type, is_locked, is_old, is_expanding}
use sidle.Art.Node.{Node, find_child}
use sidle.Art.Node.Insert.{IsShape}
use sidle.Art.Leaf.{LeafNode}
use sidle.Art.Tree.{Store, is_leaf, match_loop, found, adaptive_radix_tree_get}
use sidle.Art.Tree.Invariant.{Route, Follows, through, below_offset, IsAt, IsTree, Holds}
use sidle.Art.Tree.Compare.{SameBytes}
use sidle.Art.Tree.Get.{adaptive_radix_tree_get-Holds}
use sidle.Art.Tree.Split.{Memory, at_root, at_slot, stored, new_leaf, replace_leaf}
use sidle.Art.Tree.Split.New.{split_leaf_lem}
use sidle.Art.Tree.Split.Slot.{replace_leaf_slot}
use sidle.Art.Tree.Split.After.{
  IsFresh, above_with_split, split_store_root, split_store_leaf_at, SameLeaves-split_store,
}
use sidle.Art.Tree.Split.Below.{
  Splits, new_node, new_routes, new_store, match_loop_parts, leaf_below,
}
use sidle.Art.Tree.Split.Children.{new_store-IsTree}
use sidle.Art.Tree.Split.Leaves.{Holds-new, Holds-kept, Holds-only, Reaches-kept}
use sidle.Art.Tree.Put.{put_tree, adaptive_radix_tree_put}
use sidle.Art.Tree.Path.{
  Reaches, Holds-Reaches, Reaches-inner, Reaches-root, Reaches-stable, read_place_slot,
  put_tree_leaf, put_tree-Reaches,
}

module _ (s : Store) (mem : Memory) (len fuel : ℕ) (routes : ℕ → Route) (q slot an byte i : ℕ)
    (p : Node) (leaf : LeafNode) (key : List ℕ) (tree : IsTree s len routes) (fresh : IsFresh s mem)
    (reached : Reaches s s.root q) (above : s.node q ≡ some p)
    (unlocked : is_locked p.version ≡ false) (shape : IsShape (get_node_type p.version) p)
    (range : byte < 256) (child : find_child p p.version byte ≡ some slot)
    (leads : get_or p.child slot 0 ≡ an) (outer : is_leaf an ≡ true) (there : s.leaf an ≡ some leaf)
    (small : len < 128) (follows : Follows key (through (routes q) p byte) (below_offset p))
    (low : below_offset p ≤ i) (short : i - below_offset p ≤ 8) (inside : i < len)
    (agree : (j : ℕ) → below_offset p ≤ j → j < i → get_or leaf.key j 0 ≡ get_or key j 0)
    (differ : get_or leaf.key i 0 ≢ get_or key i 0) (range_old : get_or leaf.key i 0 < 256)
    (range_new : get_or key i 0 < 256) (enough : len < fuel) where
  abbrev off : ℕ
  off = below_offset p

  no_null : s.root == 0 ≡ false
  no_null = Reaches-root s q p tree.null above reached

  start : IsAt s len routes s.root 0 (λ j. 0)
  start = elim tree.start [ inl e ↦ let k = no_null in absurd (ground arith) | inr at ↦ at ]

  steady : (is_expanding p.version ≡ false) × (is_old p.version ≡ false)
  steady =
      let (stable, current, ends) =
        Reaches-stable s len routes s.root q 0 (λ j. 0) p tree above reached start in
      (stable, current)

  splits : Splits s mem len routes q slot an byte i p leaf key
  splits = record {
    tree = tree;
    fresh = fresh;
    above = above;
    current = steady.1;
    shape = shape;
    range = range;
    child = child;
    leads = leads;
    outer = outer;
    there = there;
    small = small;
    follows = follows;
    low = low;
    short = short;
    inside = inside;
    agree = agree;
  }

  abbrev store : Store
  store = new_store s mem len routes q slot an byte i p leaf key

  not_zero : q ≢ 0
  not_zero e = let k : some p ≡ none = sym above ∙ ap s.node e ∙ tree.null in cc

  replace_leaf_lem : replace_leaf s mem q (at_slot q slot) an leaf key len off ≡ stored store
  replace_leaf_lem =
      let size =
        (leaf_below s mem len routes q slot an byte i p leaf key splits byte range child).0 in
      replace_leaf_slot s mem q slot an p (new_node s mem len routes q slot an byte i p leaf key)
        leaf key len off i not_zero
        (ap (λ l. match_loop (l - off) off leaf.key key len) size
          ∙ match_loop_parts leaf.key key len off i low inside differ agree)
        inside
        (split_leaf_lem mem q an leaf key len off i low short (omega arith) inside size differ)
        (above_with_split s mem len q slot an p
          (new_node s mem len routes q slot an byte i p leaf key) leaf key fresh above there)
        unlocked (steady.1) (steady.0)

  at_leaf :
      (left : ℕ)
      → len < off + left
      → put_tree left s mem q (at_slot q slot) key len off ≡ stored store
  at_leaf zero h = absurd (omega (arith, low, inside))
  at_leaf (suc left) h =
      put_tree_leaf left s mem q (at_slot q slot) an leaf key len off
        (read_place_slot s q slot p above ∙ leads) outer there
      ∙ replace_leaf_lem

  put_lem : adaptive_radix_tree_put fuel s mem key len ≡ stored store
  unfolding adaptive_radix_tree_put sidle.Art.Tree.Split.read_place
  put_lem =
      let (left, enough', same) =
        put_tree-Reaches s mem len fuel 0 routes at_root q slot byte p key tree above child follows
          refl reached enough start in
      rw no_null (same ∙ at_leaf left enough')

  same_root : store.root ≡ s.root
  same_root =
      split_store_root s mem len q slot an p (new_node s mem len routes q slot an byte i p leaf key)
        leaf key fresh above there

  inner_q : is_leaf q ≡ false
  inner_q = Reaches-inner s s.root q reached

  kept_lem : (a : ℕ) → Holds s s.root a → Holds store store.root a
  kept_lem a held =
      subst (λ x. Holds store x a) (sym same_root)
        (Holds-kept s mem len routes q slot an byte i p leaf key splits inner_q differ range_old
          s.root a held)

  new_lem : Holds store store.root mem.leaf_at
  new_lem =
      subst (λ x. Holds store x mem.leaf_at) (sym same_root)
        (Holds-Reaches store s.root q mem.leaf_at
          (Reaches-kept s mem len routes q slot an byte i p leaf key splits inner_q s.root reached)
          (Holds-new s mem len routes q slot an byte i p leaf key splits inner_q differ range_new))

  only_lem : (a : ℕ) → Holds store store.root a → Holds s s.root a ⊎ (a ≡ mem.leaf_at)
  only_lem a held =
      Holds-only s mem len routes q slot an byte i p leaf key splits inner_q s.root a 0 (λ j. 0)
        start (subst (λ x. Holds store x a) same_root held)

  tree_lem : IsTree store len (new_routes s mem len routes q slot an byte i p leaf key)
  tree_lem = new_store-IsTree s mem len routes q slot an byte i p leaf key splits not_zero

  -- Under these conditions: in a tree of keys of one length below 128, a key of that length comes
  -- down to a child of a well-formed node that is not locked; that child is a leaf, the two keys agree
  -- up to a byte `i`, at most 8 behind the node, and differ there; `sidle_alloc` gives fresh memory,
  -- and there is more fuel than the length. Then the call returns 0 and leaves a tree, and the leaves of
  -- that are the leaves from before and the new one, no more and no fewer.
  pub adaptive_radix_tree_put-IsTree :
      (s' : Store) × (adaptive_radix_tree_put fuel s mem key len ≡ stored s')
      × ((routes' : ℕ → Route) × IsTree s' len routes')
      × ((a : ℕ) → Holds s s.root a → Holds s' s'.root a)
      × Holds s' s'.root mem.leaf_at
      × ((a : ℕ) → Holds s' s'.root a → Holds s s.root a ⊎ (a ≡ mem.leaf_at))
  adaptive_radix_tree_put-IsTree = (
    store,
    put_lem,
    (new_routes s mem len routes q slot an byte i p leaf key, tree_lem),
    kept_lem,
    new_lem,
    only_lem,
  )

  -- Under these conditions: in a tree of keys of one length below 128, a key of that length comes
  -- down to a child of a well-formed node that is not locked; that child is a leaf, the two keys agree
  -- up to a byte `i`, at most 8 behind the node, and differ there; `sidle_alloc` gives fresh memory,
  -- and there is more fuel than the length. Then the call returns 0, and a search after it finds the new
  -- leaf by the new key, and by the key of any leaf that was in the tree that leaf.
  pub adaptive_radix_tree_put-get :
      (s' : Store) × (adaptive_radix_tree_put fuel s mem key len ≡ stored s')
      × ((adaptive_radix_tree_get fuel s' key len).0 ≡ found mem.leaf_at)
      × ((a : ℕ) (old : LeafNode) (other : List ℕ)
          → Holds s s.root a
          → s.leaf a ≡ some old
          → SameBytes old.key other len
          → (adaptive_radix_tree_get fuel s' other len).0 ≡ found a)
  unfolding new_leaf
  adaptive_radix_tree_put-get =
      let routes' = new_routes s mem len routes q slot an byte i p leaf key in
      let node = new_node s mem len routes q slot an byte i p leaf key in
      (
        store,
        put_lem,
        adaptive_radix_tree_get-Holds store len fuel routes' mem.leaf_at (new_leaf mem key len) key
            tree_lem enough new_lem
            (split_store_leaf_at s mem len q slot an p node leaf key fresh above there)
            (λ j h. refl),
        λ a old other held at same.
            let (value, at', size, keys) =
              SameLeaves-split_store s mem len q slot an p node leaf key fresh above there a old
                at in
            adaptive_radix_tree_get-Holds store len fuel routes' a value other tree_lem enough
              (kept_lem a held) at' (λ j h. ap (λ k. get_or k j 0) keys ∙ same j h),
      )
