-- ===== src/Art/Tree/Existed.antt =====
-- `adaptive_radix_tree_put` of a key that the tree has.
use sidle.Base.{
  ℕ, zero, suc, ◌+◌, ◌-◌, ◌<◌, ◌≤◌, ◌≡◌, inl, inr, refl, sym, ap, ◌∙◌, List, true, false, none,
  some, ◌==◌, ◌&&◌, ==_iff, Bool-cases, get_or, arith,
}
use sidle.Art.Version.{get_prefix_len}
use sidle.Art.Node.{find_child}
use sidle.Art.Leaf.{LeafNode, get_leaf_len}
use sidle.Art.Tree.{Store, is_leaf, match_loop, found, touch}
use sidle.Art.Tree.Invariant.{
  Route, Follows, through, below_offset, IsAt, IsTree, Holds, here, below,
}
use sidle.Art.Tree.Compare.{SameBytes, match_loop_lem, Follows-parent}
use sidle.Art.Tree.Search.{IsNodeAt-value, IsLeafAt-value}
use sidle.Art.Tree.Get.{IsTree-touch, not-Holds}
use sidle.Art.Tree.Split.{Memory, Place, at_root, at_slot, read_place, existed, replace_leaf}
use sidle.Art.Tree.Put.{put_tree, adaptive_radix_tree_put}
use sidle.Art.Tree.Path.{put_tree_node, put_tree_leaf, read_place_slot}

match_loop_whole :
    (k1 k2 : List ℕ) (len off : ℕ)
    → off ≤ len
    → SameBytes k1 k2 len
    → match_loop (len - off) off k1 k2 len ≡ len
match_loop_whole k1 k2 len off inside same =
    elim (match_loop_lem (len - off) off k1 k2 len (omega arith)) [
      | inl (ends, equal) ↦ ends
      | inr (r, ends, low, high, parts, equal) ↦ absurd (parts (same r high))
    ]

replace_leaf-existed :
    (s : Store) (mem : Memory) (parent : ℕ) (place : Place) (an : ℕ) (leaf : LeafNode)
    (key : List ℕ) (len off : ℕ)
    → get_leaf_len leaf ≡ len
    → off ≤ len
    → SameBytes leaf.key key len
    → replace_leaf s mem parent place an leaf key len off ≡ existed (touch (found an) s)
unfolding replace_leaf
replace_leaf-existed s mem parent place an leaf key len off size inside same =
    let l = get_leaf_len leaf in
    let i : match_loop (l - off) off leaf.key key len ≡ len =
      ap (λ m. match_loop (m - off) off leaf.key key len) size
      ∙ match_loop_whole leaf.key key len off inside same in
    let whole : (len == l && len == len) ≡ true = ground arith in rw (i, whole) refl

module _ (s : Store) (mem : Memory) (len : ℕ) (routes : ℕ → Route) (tree : IsTree s len routes)
    (a : ℕ) (leaf : LeafNode) (key : List ℕ) (there : s.leaf a ≡ some leaf)
    (same : SameBytes leaf.key key len) where
  put_tree-Holds :
      (fuel parent x off : ℕ) (place : Place) (route : Route)
      → read_place s place ≡ x
      → Holds s x a
      → len < off + fuel
      → IsAt s len routes x off route
      → (put_tree fuel s mem parent place key len off ≡ existed (touch (found a) s))
        × Follows key route off
  put_tree-Holds zero parent x off place route at held enough (inl (outer, l)) =
      absurd (omega (arith, l.inside))
  put_tree-Holds zero parent x off place route at held enough (inr (inner, m)) =
      absurd (omega (arith, m.inside))
  put_tree-Holds (suc fuel) parent x off place route at (here outer e) enough (inl (outer', l)) =
      let leaf_x : s.leaf x ≡ some leaf = ap s.leaf e ∙ there in
      let (size, follows) = IsLeafAt-value s len routes x off route leaf l leaf_x in
      (
        put_tree_leaf fuel s mem parent place x leaf key len off at outer leaf_x
            ∙ replace_leaf-existed s mem parent place x leaf key len off size l.inside same
            ∙ ap (λ y. existed (touch (found y) s)) e,
        λ j h. sym (same j (omega (arith, l.inside))) ∙ follows j h,
      )
  put_tree-Holds (suc fuel) parent x off place route at (here outer e) enough (inr (inner, m)) = cc
  put_tree-Holds (suc fuel) parent x off place route at (below n b c inner at_x range child held)
        enough (inl (outer, l)) =
      cc
  put_tree-Holds (suc fuel) parent x off place route at (below n b c inner at_x range child held)
        enough (inr (inner', m)) =
      let (stable, current, offset, inside) = IsNodeAt-value s len routes x off route n m at_x in
      let o : off + get_prefix_len n.version + 1 ≡ below_offset n = omega (arith, offset) in
      let (rest, follows) =
        put_tree-Holds fuel x (get_or n.child c 0) (below_offset n) (at_slot x c)
          (through (routes x) n b) (read_place_slot s x c n at_x) held (omega (arith, o))
          (tree.children x b c n at_x current range child) in
      let (before, whole, next) = Follows-parent key (routes x) n len b off offset inside follows in
      (
        put_tree_node fuel s mem parent place x c n key len off at inner at_x stable current offset
              whole (ap (find_child n n.version) next ∙ child)
            ∙ ap (λ d. put_tree fuel s mem x (at_slot x c) key len d) o
            ∙ rest,
        λ j h. before j h ∙ m.bytes j h,
      )

  -- In a tree of keys of one length, where a leaf of the tree has the bytes of the key and there is
  -- more fuel than the length: the call returns 1 and leaves a tree, the memory of which differs from
  -- before in no more than the access count and the time of that leaf.
  pub adaptive_radix_tree_put-existed :
      (fuel : ℕ)
      → len < fuel
      → Holds s s.root a
      → (adaptive_radix_tree_put fuel s mem key len ≡ existed (touch (found a) s))
        × IsTree (touch (found a) s) len routes
  unfolding adaptive_radix_tree_put read_place
  adaptive_radix_tree_put-existed fuel enough held = (
    elim (Bool-cases (s.root == 0)) [
      | inl empty ↦
          let no_node : s.node s.root ≡ none = ap s.node ((==_iff s.root 0).0 empty) ∙ tree.null in
          let inner : is_leaf s.root ≡ false = ap is_leaf ((==_iff s.root 0).0 empty) in
          absurd (not-Holds s s.root a no_node inner held)
      | inr some_root ↦ elim tree.start [
        | inl null ↦ absurd (ground arith)
        | inr start ↦
            rw some_root
              ((put_tree-Holds fuel 0 s.root 0 at_root (λ j. 0) refl held (omega arith) start).0)
      ]
    ],
    IsTree-touch (found a) s len routes tree,
  )
