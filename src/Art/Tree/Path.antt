-- ===== src/Art/Tree/Path.antt =====
-- The way of `_adaptive_radix_tree_put` down to a node.
use sidle.Base.{
  ℕ, zero, suc, ◌+◌, ◌<◌, ◌≡◌, inl, inr, refl, sym, ap, subst, ◌∙◌, List, true, false, none, some,
  ◌==◌, ==_iff, Bool-cases, get_or, arith,
}
use sidle.Art.Version.{get_offset, get_prefix_len, is_old, is_expanding}
use sidle.Art.Node.{Node, find_child}
use sidle.Art.Prefix.{prefix_compare}
use sidle.Art.Leaf.{LeafNode}
use sidle.Art.Tree.{Store, is_leaf}
use sidle.Art.Tree.Invariant.{Route, Follows, through, below_offset, IsAt, IsTree, Holds, below}
use sidle.Art.Tree.Compare.{Follows-parent}
use sidle.Art.Tree.Search.{IsNodeAt-value}
use sidle.Art.Tree.Split.{Memory, Place, at_slot, read_place, PutResult, replace_leaf}
use sidle.Art.Tree.Put.{put_node, put_tree}

-- The inner nodes below a pointer.
pub data Reaches (s : Store) : ℕ → ℕ → Type 0 where
  itself : {x q : ℕ} → is_leaf x ≡ false → x ≡ q → Reaches s x q
  along :
      {x q : ℕ} (n : Node) (byte slot : ℕ)
      → is_leaf x ≡ false
      → s.node x ≡ some n
      → byte < 256
      → find_child n n.version byte ≡ some slot
      → Reaches s (get_or n.child slot 0) q
      → Reaches s x q

pub Holds-Reaches : (s : Store) (x q a : ℕ) → Reaches s x q → Holds s q a → Holds s x a
Holds-Reaches s x q a (itself inner e) held = subst (λ y. Holds s y a) (sym e) held
Holds-Reaches s x q a (along n byte slot inner there range child r) held =
    below n byte slot inner there range child (Holds-Reaches s (get_or n.child slot 0) q a r held)

pub Reaches-inner : (s : Store) (x q : ℕ) → Reaches s x q → is_leaf q ≡ false
Reaches-inner s x q (itself inner e) = ap is_leaf (sym e) ∙ inner
Reaches-inner s x q (along n byte slot inner there range child r) =
    Reaches-inner s (get_or n.child slot 0) q r

Reaches-some :
    (s : Store) (x q : ℕ) (p : Node)
    → s.node q ≡ some p
    → Reaches s x q
    → (n : Node) × (s.node x ≡ some n)
Reaches-some s x q p above (itself inner e) = (p, ap s.node e ∙ above)
Reaches-some s x q p above (along n byte slot inner there range child r) = (n, there)

pub Reaches-root :
    (s : Store) (q : ℕ) (p : Node)
    → s.node 0 ≡ none
    → s.node q ≡ some p
    → Reaches s s.root q
    → s.root == 0 ≡ false
Reaches-root s q p null above reached =
    let (n, at) = Reaches-some s s.root q p above reached in
    elim (Bool-cases (s.root == 0)) [
      | inl e ↦ let k : some n ≡ none = sym at ∙ ap s.node ((==_iff s.root 0).0 e) ∙ null in cc
      | inr e ↦ e
    ]

-- A node of the tree is neither expanding nor old, and ends before the keys do.
pub Reaches-stable :
    (s : Store) (len : ℕ) (routes : ℕ → Route) (x q off : ℕ) (route : Route) (p : Node)
    → IsTree s len routes
    → s.node q ≡ some p
    → Reaches s x q
    → IsAt s len routes x off route
    → (is_expanding p.version ≡ false)
      × (is_old p.version ≡ false)
      × (get_offset p.version + get_prefix_len p.version < len)
Reaches-stable s len routes x q off route p tree above (itself inner e) (inl (outer, l)) = cc
Reaches-stable s len routes x q off route p tree above (itself inner e) (inr (inner', m)) =
    let (stable, current, offset, inside) =
      IsNodeAt-value s len routes x off route p m (ap s.node e ∙ above) in
    (stable, current, omega (arith, offset, inside))
Reaches-stable s len routes x q off route p tree above (along n byte slot inner there range child r)
      (inl (outer, l)) =
    cc
Reaches-stable s len routes x q off route p tree above (along n byte slot inner there range child r)
      (inr (inner', m)) =
    let (stable, current, offset, inside) = IsNodeAt-value s len routes x off route n m there in
    Reaches-stable s len routes (get_or n.child slot 0) q (below_offset n)
      (through (routes x) n byte) p tree above r
      (tree.children x byte slot n there current range child)

pub put_tree_inner :
    (fuel : ℕ) (s : Store) (mem : Memory) (parent : ℕ) (place : Place) (x : ℕ) (n : Node)
    (key : List ℕ) (len off : ℕ)
    → read_place s place ≡ x
    → is_leaf x ≡ false
    → s.node x ≡ some n
    → put_tree (suc fuel) s mem parent place key len off
      ≡ put_node s mem place x n key len off
          (λ s' slot off'. put_tree fuel s' mem x (at_slot x slot) key len off')
unfolding put_tree
put_tree_inner fuel s mem parent place x n key len off at =
    subst
      (λ y.
        is_leaf y ≡ false
        → s.node y ≡ some n
        → put_tree (suc fuel) s mem parent place key len off
          ≡ put_node s mem place y n key len off
              (λ s' slot off'. put_tree fuel s' mem y (at_slot y slot) key len off'))
      at (λ inner there. rw (inner, there) refl)

put_node-some :
    (s : Store) (mem : Memory) (place : Place) (x slot : ℕ) (n : Node) (key : List ℕ) (len off : ℕ)
    (descend : Store → ℕ → ℕ → PutResult)
    → is_expanding n.version ≡ false
    → is_old n.version ≡ false
    → get_offset n.version ≡ off
    → prefix_compare n n.version key len off ≡ get_prefix_len n.version
    → find_child n n.version (get_or key (off + get_prefix_len n.version) 0) ≡ some slot
    → put_node s mem place x n key len off descend
      ≡ descend s slot (off + get_prefix_len n.version + 1)
unfolding put_node
put_node-some s mem place x slot n key len off descend stable current offset whole child =
    let here_lem : get_offset n.version == off ≡ true = (==_iff _ _).1 offset in
    let all : prefix_compare n n.version key len off == get_prefix_len n.version ≡ true =
      (==_iff _ _).1 whole in
    let child' : find_child n n.version
          (get_or key (off + prefix_compare n n.version key len off) 0)
        ≡ some slot =
      ap (λ c. find_child n n.version (get_or key (off + c) 0)) whole ∙ child in
    rw (stable, here_lem, current, all, child') (ap (λ c. descend s slot (off + c + 1)) whole)

-- The call goes on at the child that a byte leads to.
pub put_tree_node :
    (fuel : ℕ) (s : Store) (mem : Memory) (parent : ℕ) (place : Place) (x slot : ℕ) (n : Node)
    (key : List ℕ) (len off : ℕ)
    → read_place s place ≡ x
    → is_leaf x ≡ false
    → s.node x ≡ some n
    → is_expanding n.version ≡ false
    → is_old n.version ≡ false
    → get_offset n.version ≡ off
    → prefix_compare n n.version key len off ≡ get_prefix_len n.version
    → find_child n n.version (get_or key (off + get_prefix_len n.version) 0) ≡ some slot
    → put_tree (suc fuel) s mem parent place key len off
      ≡ put_tree fuel s mem x (at_slot x slot) key len (off + get_prefix_len n.version + 1)
put_tree_node fuel s mem parent place x slot n key len off at inner there stable current offset
      whole child =
    put_tree_inner fuel s mem parent place x n key len off at inner there
    ∙ put_node-some s mem place x slot n key len off
        (λ s' slot' off'. put_tree fuel s' mem x (at_slot x slot') key len off') stable current
        offset whole child

pub read_place_slot :
    (s : Store) (x slot : ℕ) (n : Node)
    → s.node x ≡ some n
    → read_place s (at_slot x slot) ≡ get_or n.child slot 0
unfolding read_place
read_place_slot s x slot n there = rw (there, read_place) refl

pub put_tree_leaf :
    (fuel : ℕ) (s : Store) (mem : Memory) (parent : ℕ) (place : Place) (an : ℕ) (leaf : LeafNode)
    (key : List ℕ) (len off : ℕ)
    → read_place s place ≡ an
    → is_leaf an ≡ true
    → s.leaf an ≡ some leaf
    → put_tree (suc fuel) s mem parent place key len off
      ≡ replace_leaf s mem parent place an leaf key len off
unfolding put_tree
put_tree_leaf fuel s mem parent place an leaf key len off at =
    subst
      (λ y.
        is_leaf y ≡ true
        → s.leaf y ≡ some leaf
        → put_tree (suc fuel) s mem parent place key len off
          ≡ replace_leaf s mem parent place y leaf key len off)
      at (λ outer there. rw (outer, there) refl)

module _ (s : Store) (mem : Memory) (len : ℕ) (routes : ℕ → Route) (tree : IsTree s len routes)
    (q : ℕ) (p : Node) (key : List ℕ) (above : s.node q ≡ some p)
    (follows : Follows key (routes q) (get_offset p.version)) where
  -- A call at a pointer comes to the node `q`, with fuel left.
  pub put_tree_at :
      (fuel parent x off : ℕ) (place : Place) (route : Route)
      → read_place s place ≡ x
      → Reaches s x q
      → len < off + fuel
      → IsAt s len routes x off route
      → ((left : ℕ) × (parent' : ℕ) × (place' : Place) × (read_place s place' ≡ q)
          × (len < get_offset p.version + suc left)
          × (put_tree fuel s mem parent place key len off
              ≡ put_tree (suc left) s mem parent' place' key len (get_offset p.version)))
        × Follows key route off
  put_tree_at fuel parent x off place route at (itself inner e) enough (inl (outer, l)) = cc
  put_tree_at fuel parent x off place route at (along n b c inner there range' child' r) enough
        (inl (outer, l)) =
      cc
  put_tree_at zero parent x off place route at r enough (inr (inner, m)) =
      absurd (omega (arith, m.inside))
  put_tree_at (suc fuel) parent x off place route at (itself inner' e) enough (inr (inner, m)) =
      let (stable, current, offset, inside) =
        IsNodeAt-value s len routes x off route p m (ap s.node e ∙ above) in
      (
        (
          fuel,
          parent,
          place,
          at ∙ e,
          omega (arith, offset),
          ap (λ d. put_tree (suc fuel) s mem parent place key len d) (sym offset),
        ),
        λ j h. follows j (omega (arith, offset)) ∙ ap (λ y. routes y j) (sym e) ∙ m.bytes j h,
      )
  put_tree_at (suc fuel) parent x off place route at (along n b c inner' there range' child' r)
        enough (inr (inner, m)) =
      let (stable, current, offset, inside) = IsNodeAt-value s len routes x off route n m there in
      let o : off + get_prefix_len n.version + 1 ≡ below_offset n = omega (arith, offset) in
      let ((left, parent', place', read', enough', same), follows') =
        put_tree_at fuel x (get_or n.child c 0) (below_offset n) (at_slot x c)
          (through (routes x) n b) (read_place_slot s x c n there) r (omega (arith, o))
          (tree.children x b c n there current range' child') in
      let (before, whole, next) =
        Follows-parent key (routes x) n len b off offset inside follows' in
      (
        (
          left,
          parent',
          place',
          read',
          enough',
          put_tree_node fuel s mem parent place x c n key len off at inner there stable current
                offset whole (ap (find_child n n.version) next ∙ child')
              ∙ ap (λ d. put_tree fuel s mem x (at_slot x c) key len d) o
              ∙ same,
        ),
        λ j h. before j h ∙ m.bytes j h,
      )

-- A call at the root comes to the child below the node `q`, with fuel left.
pub put_tree-Reaches :
    (s : Store) (mem : Memory) (len fuel parent : ℕ) (routes : ℕ → Route) (place : Place)
    (q slot byte : ℕ) (p : Node) (key : List ℕ)
    → IsTree s len routes
    → s.node q ≡ some p
    → find_child p p.version byte ≡ some slot
    → Follows key (through (routes q) p byte) (below_offset p)
    → read_place s place ≡ s.root
    → Reaches s s.root q
    → len < fuel
    → IsAt s len routes s.root 0 (λ j. 0)
    → (left : ℕ) × (len < below_offset p + left)
      × (put_tree fuel s mem parent place key len 0
          ≡ put_tree left s mem q (at_slot q slot) key len (below_offset p))
put_tree-Reaches s mem len fuel parent routes place q slot byte p key tree above child follows at
      reached enough start =
    let o = get_offset p.version in
    let (stable, current, inside) =
      Reaches-stable s len routes s.root q 0 (λ j. 0) p tree above reached start in
    let (before, whole, next) = Follows-parent key (routes q) p len byte o refl inside follows in
    let ((left, parent', place', read', enough', same), follows') =
      put_tree_at s mem len routes tree q p key above before fuel parent s.root 0 place (λ j. 0) at
        reached (omega arith) start in
    (
      left,
      omega arith,
      same
          ∙ put_tree_node left s mem parent' place' q slot p key len o read'
              (Reaches-inner s s.root q reached) above stable current refl whole
              (ap (find_child p p.version) next ∙ child),
    )
