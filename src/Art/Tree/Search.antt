-- ===== src/Art/Tree/Search.antt =====
-- A search finds the leaf with the key, if there is one.
use sidle.Base.{
  ℕ, zero, suc, ◌+◌, ◌<◌, ◌≤◌, ◌≡◌, inl, inr, refl, sym, ap, subst, ◌∙◌, List, true, false, none,
  some, ltb, ◌==◌, ==_iff, if◌then◌else◌, get_or, Bool-cases, Option-cases, arith,
}
use sidle.Art.Version.{get_offset, get_prefix_len, is_old, is_expanding}
use sidle.Art.Node.{Node, find_child}
use sidle.Art.Prefix.{prefix_compare}
use sidle.Art.Leaf.{LeafNode, get_leaf_len}
use sidle.Art.Tree.{
  Store, is_leaf, Found, found, missing, stuck, fault, search_leaf, search_node, search_tree,
}
use sidle.Art.Tree.Invariant.{
  Route, Follows, through, below_offset, IsLeafAt, IsNodeAt, IsAt, IsTree, Holds, here, below,
}
use sidle.Art.Tree.Compare.{SameBytes, same_key_lem, Follows-child, Follows-parent}

search_tree_node :
    (fuel : ℕ) (s : Store) (an : ℕ) (n : Node) (key : List ℕ) (len off : ℕ)
    → is_leaf an ≡ false
    → s.node an ≡ some n
    → search_tree (suc fuel) s an key len off
      ≡ search_node n key len off (λ child off'. search_tree fuel s child key len off')
unfolding search_tree
search_tree_node fuel s an n key len off inner there = rw (inner, there) refl

-- A search at a node of the tree, by what it finds.
module _ (n : Node) (key : List ℕ) (len off : ℕ) (descend : ℕ → ℕ → Found)
    (stable : is_expanding n.version ≡ false) (current : is_old n.version ≡ false)
    (offset : get_offset n.version ≡ off) (inside : off + get_prefix_len n.version < len) where
  here_lem : get_offset n.version == off ≡ true
  here_lem = (==_iff _ _).1 offset

  short_lem : off + get_prefix_len n.version == len ≡ false
  short_lem = ground arith

  search_node_differs :
      (prefix_compare n n.version key len off == get_prefix_len n.version) ≡ false
      → search_node n key len off descend ≡ missing
  unfolding search_node
  search_node_differs differs = rw (stable, here_lem, current, differs) refl

  search_node-none :
      (prefix_compare n n.version key len off == get_prefix_len n.version) ≡ true
      → find_child n n.version (get_or key (off + get_prefix_len n.version) 0) ≡ none
      → search_node n key len off descend ≡ missing
  unfolding search_node
  search_node-none whole gone = rw (stable, here_lem, current, whole, short_lem, gone) refl

  search_node-some :
      (slot : ℕ)
      → (prefix_compare n n.version key len off == get_prefix_len n.version) ≡ true
      → find_child n n.version (get_or key (off + get_prefix_len n.version) 0) ≡ some slot
      → search_node n key len off descend
        ≡ descend (get_or n.child slot 0) (off + get_prefix_len n.version + 1)
  unfolding search_node
  search_node-some slot whole there =
      let c = get_or n.child slot 0 in
      let o = off + get_prefix_len n.version in
      rw (stable, here_lem, current, whole, short_lem, there)
        (ap (λ b. descend c (o + (if b then 0 else 1))) short_lem)

search_tree_leaf :
    (fuel : ℕ) (s : Store) (an : ℕ) (leaf : LeafNode) (key : List ℕ) (len off : ℕ)
    → is_leaf an ≡ true
    → s.leaf an ≡ some leaf
    → get_leaf_len leaf ≡ len
    → off ≤ len
    → SameBytes leaf.key key len
    → search_tree (suc fuel) s an key len off ≡ found an
unfolding search_tree search_leaf
search_tree_leaf fuel s an leaf key len off outer there size inside same_bytes =
    elim (same_key_lem leaf key len off size inside) [
      | inl (same, equal) ↦ rw (outer, there, same) refl
      | inr (other, (r, low, high, differ)) ↦ absurd (differ (same_bytes r high))
    ]

-- A place as the node that is there tells it.
pub IsNodeAt-value :
    (s : Store) (len : ℕ) (routes : ℕ → Route) (an off : ℕ) (route : Route) (n : Node)
    → IsNodeAt s len routes an off route
    → s.node an ≡ some n
    → (is_expanding n.version ≡ false)
      × (is_old n.version ≡ false)
      × (get_offset n.version ≡ off)
      × (off + get_prefix_len n.version < len)
IsNodeAt-value s len routes an off route n m at =
    let one : m.value ≡ n =
      ap (λ o. elim o as (λ x. Node) [ none ↦ n | some x ↦ x ]) (sym m.there ∙ at) in
    subst
      (λ x.
        (is_expanding x.version ≡ false)
        × (is_old x.version ≡ false)
        × (get_offset x.version ≡ off)
        × (off + get_prefix_len x.version < len))
      one (m.stable, m.current, m.offset, m.inside)

pub IsLeafAt-value :
    (s : Store) (len : ℕ) (routes : ℕ → Route) (an off : ℕ) (route : Route) (leaf : LeafNode)
    → IsLeafAt s len routes an off route
    → s.leaf an ≡ some leaf
    → (get_leaf_len leaf ≡ len) × Follows leaf.key route off
IsLeafAt-value s len routes an off route leaf l at =
    let one : l.value ≡ leaf =
      ap (λ o. elim o as (λ x. LeafNode) [ none ↦ leaf | some x ↦ x ]) (sym l.there ∙ at) in
    subst (λ x. (get_leaf_len x ≡ len) × Follows x.key route off) one (l.size, l.bytes)

module _ (s : Store) (len : ℕ) where
  -- What an answer says of the leaf that it finds.
  abbrev pub Answers : List ℕ → ℕ → Found → Type 0
  Answers key an (found a) =
      (leaf : LeafNode) × (s.leaf a ≡ some leaf)
      × (get_leaf_len leaf ≡ len)
      × SameBytes leaf.key key len
      × Holds s an a
  Answers key an missing = Unit {0}
  Answers key an stuck = ⊥
  Answers key an fault = ⊥

module _ (s : Store) (len : ℕ) (routes : ℕ → Route) (tree : IsTree s len routes) where
  Answers-below :
      (key : List ℕ) (an byte slot : ℕ) (n : Node) (r : Found)
      → is_leaf an ≡ false
      → s.node an ≡ some n
      → byte < 256
      → find_child n n.version byte ≡ some slot
      → Answers s len key (get_or n.child slot 0) r
      → Answers s len key an r
  Answers-below key an byte slot n (found a) inner there range found_slot
        (leaf, at, size, bytes, held) =
      (leaf, at, size, bytes, below n byte slot inner there range found_slot held)
  Answers-below key an byte slot n missing inner there range found_slot h = tt
  Answers-below key an byte slot n stuck inner there range found_slot h = h
  Answers-below key an byte slot n fault inner there range found_slot h = h

  Answers-leaf :
      (key : List ℕ) (an off fuel : ℕ) (route : Route)
      → is_leaf an ≡ true
      → IsLeafAt s len routes an off route
      → Follows key route off
      → Answers s len key an (search_tree (suc fuel) s an key len off)
  unfolding search_tree search_leaf
  Answers-leaf key an off fuel route outer l follows =
      elim (same_key_lem l.value key len off l.size l.inside) [
        | inl (same, equal) ↦
            rw (outer, l.there, same)
              (
                l.value,
                l.there,
                l.size,
                λ j high. elim (Bool-cases (ltb j off)) [
                  | inl low ↦ l.bytes j (ground arith) ∙ sym (follows j (ground arith))
                  | inr low ↦ equal j (ground arith) high
                ],
                here outer refl,
              )
        | inr (other, differs) ↦ rw (outer, l.there, other) tt
      ]

  pub search_tree-Answers :
      (fuel : ℕ) (key : List ℕ) (an off : ℕ) (route : Route)
      → len < off + fuel
      → ((j : ℕ) → get_or key j 0 < 256)
      → IsAt s len routes an off route
      → Follows key route off
      → Answers s len key an (search_tree fuel s an key len off)
  search_tree-Answers zero key an off route enough bytes (inl (outer, l)) follows =
      absurd (omega (arith, l.inside))
  search_tree-Answers zero key an off route enough bytes (inr (inner, n)) follows =
      absurd (omega (arith, n.inside))
  search_tree-Answers (suc fuel) key an off route enough bytes (inl (outer, l)) follows =
      Answers-leaf key an off fuel route outer l follows
  search_tree-Answers (suc fuel) key an off route enough bytes (inr (inner, n)) follows =
      let v = n.value.version in
      let p = get_prefix_len v in
      let descend = λ (child off' : ℕ). search_tree fuel s child key len off' in
      let route_here : Follows key (routes an) off = λ j h. follows j h ∙ sym (n.bytes j h) in
      let byte = get_or key (off + p) 0 in
      rw (search_tree_node fuel s an n.value key len off inner n.there)
        (elim (Bool-cases (prefix_compare n.value v key len off == p)) [
          | inr differs ↦
              rw
                (search_node_differs n.value key len off descend n.stable n.current n.offset
                  n.inside differs)
                tt
          | inl whole ↦ elim (Option-cases (find_child n.value v byte)) [
            | inl gone ↦
                rw
                  (search_node-none n.value key len off descend n.stable n.current n.offset n.inside
                    whole gone)
                  tt
            | inr (slot, child) ↦
                let c = get_or n.value.child slot 0 in
                let o : below_offset n.value ≡ off + p + 1 = ap (λ x. x + p + 1) n.offset in
                let answer : Answers s len key c (search_tree fuel s c key len (off + p + 1)) =
                  subst (λ x. Answers s len key c (search_tree fuel s c key len x)) o
                    (search_tree-Answers fuel key c (below_offset n.value)
                      (through (routes an) n.value byte) (omega arith) bytes
                      (tree.children an byte slot n.value n.there n.current (bytes (off + p)) child)
                      (Follows-child key (routes an) n.value len off n.offset route_here
                        ((==_iff _ _).0 whole))) in
                rw
                  (search_node-some n.value key len off descend n.stable n.current n.offset n.inside
                    slot whole child)
                  (Answers-below key an byte slot n.value _ inner n.there (bytes (off + p)) child
                    answer)
          ]
        ])

  -- A leaf below a place is found by its key.
  pub search_tree-Holds :
      (fuel : ℕ) (an a off : ℕ) (route : Route) (leaf : LeafNode) (key : List ℕ)
      → Holds s an a
      → s.leaf a ≡ some leaf
      → SameBytes leaf.key key len
      → len < off + fuel
      → IsAt s len routes an off route
      → (search_tree fuel s an key len off ≡ found a) × Follows key route off
  search_tree-Holds zero an a off route leaf key h there equal enough (inl (outer, l)) =
      absurd (omega (arith, l.inside))
  search_tree-Holds zero an a off route leaf key h there equal enough (inr (inner, n)) =
      absurd (omega (arith, n.inside))
  search_tree-Holds (suc fuel) an a off route leaf key (here outer same) there equal enough
        (inl (outer', l)) =
      let at : s.leaf an ≡ some leaf = ap s.leaf same ∙ there in
      let (size, follows) = IsLeafAt-value s len routes an off route leaf l at in
      (
        search_tree_leaf fuel s an leaf key len off outer at size l.inside equal ∙ ap found same,
        λ j low. sym (equal j (omega (arith, l.inside))) ∙ follows j low,
      )
  search_tree-Holds (suc fuel) an a off route leaf key (here outer same) there equal enough
        (inr (inner, n)) =
      cc
  search_tree-Holds (suc fuel) an a off route leaf key (below n byte slot inner at range child h)
        there equal enough (inl (outer, l)) =
      cc
  search_tree-Holds (suc fuel) an a off route leaf key (below n byte slot inner at range child h)
        there equal enough (inr (inner', m)) =
      let p = get_prefix_len n.version in
      let c = get_or n.child slot 0 in
      let descend = λ (child' off' : ℕ). search_tree fuel s child' key len off' in
      let (stable, current, offset, inside) = IsNodeAt-value s len routes an off route n m at in
      let (result, follows) =
        search_tree-Holds fuel c a (below_offset n) (through (routes an) n byte) leaf key h there
          equal (omega arith) (tree.children an byte slot n at current range child) in
      let (before, whole, next) =
        Follows-parent key (routes an) n len byte off offset inside follows in
      let found_slot : find_child n n.version (get_or key (off + p) 0) ≡ some slot =
        ap (find_child n n.version) next ∙ child in
      (
        search_tree_node fuel s an n key len off inner at
            ∙ search_node-some n key len off descend stable current offset inside slot
                ((==_iff _ _).1 whole) found_slot
            ∙ ap (λ o. search_tree fuel s c key len o) (ap (λ x. x + p + 1) (sym offset))
            ∙ result,
        λ j low. before j low ∙ m.bytes j low,
      )
