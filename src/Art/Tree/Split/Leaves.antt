-- ===== src/Art/Tree/Split/Leaves.antt =====
-- The leaves of a tree after a leaf below a node is split.
use sidle.Base.{
  ℕ, ◌-◌, ◌<◌, ◌≡◌, ◌≢◌, ◌⊎◌, inl, inr, refl, sym, ap, subst, ◌∙◌, List, true, false, none, some,
  ◌==◌, ==_iff, get_or, length, Bool-cases, get_or-set_self, get_or-set_ne, arith,
}
use sidle.Art.Node.{Node, find_child}
use sidle.Art.Node.Replace.{find_child-set}
use sidle.Art.Leaf.{LeafNode}
use sidle.Art.Tree.{Store, is_leaf}
use sidle.Art.Tree.Invariant.{Route, through, below_offset, IsAt, Holds, here, below}
use sidle.Art.Tree.Search.{IsNodeAt-value}
use sidle.Art.Tree.Path.{Reaches, itself, along}
use sidle.Art.Tree.Split.{Memory}
use sidle.Art.Tree.Split.New.{children_two, find_child_both, find_child-free_word}
use sidle.Art.Tree.Split.Slot.{with_child}
use sidle.Art.Tree.Split.After.{split_store_q, split_store_new, split_store_node}
use sidle.Art.Tree.Split.Below.{Splits, new_node, new_store}

-- Only a leaf is below itself.
pub Holds-leaf : (s : Store) (an a : ℕ) → is_leaf an ≡ true → Holds s an a → an ≡ a
Holds-leaf s an a outer (here outer' e) = e
Holds-leaf s an a outer (below n byte slot inner there range child held) = cc

module _ (s : Store) (mem : Memory) (len : ℕ) (routes : ℕ → Route) (q slot an byte i : ℕ) (p : Node)
    (leaf : LeafNode) (key : List ℕ) (call : Splits s mem len routes q slot an byte i p leaf key)
    (inner_q : is_leaf q ≡ false) where
  abbrev node : Node
  node = new_node s mem len routes q slot an byte i p leaf key

  abbrev store : Store
  store = new_store s mem len routes q slot an byte i p leaf key

  abbrev p' : Node
  p' = with_child p slot mem.node_at

  at_q : store.node q ≡ some p'
  at_q = split_store_q s mem len q slot an p node leaf key call.fresh call.above call.there

  at_new : store.node mem.node_at ≡ some node
  at_new = split_store_new s mem len q slot an p node leaf key call.fresh call.above call.there

  at_other : (x : ℕ) → x ≢ q → x ≢ mem.node_at → store.node x ≡ s.node x
  at_other = split_store_node s mem len q slot an p node leaf key call.fresh call.above call.there

  not_new : (x : ℕ) (n : Node) → s.node x ≡ some n → x ≢ mem.node_at
  not_new x n there e = let h : some n ≡ none = sym there ∙ ap s.node e ∙ call.fresh.node in cc

  found_p' :
      (b : ℕ) → (find_child p' p.version b ≡ find_child p p.version b) × (slot < length p.child)
  found_p' b =
      find_child-set p byte slot mem.node_at b call.shape call.range call.child call.fresh.not_null

  child_slot : get_or p'.child slot 0 ≡ mem.node_at
  child_slot = get_or-set_self p.child slot mem.node_at 0 ((found_p' byte).1)

  child_ne : (c : ℕ) → (slot == c) ≡ false → get_or p'.child c 0 ≡ get_or p.child c 0
  child_ne c h = get_or-set_ne p.child slot c mem.node_at 0 (λ k. ground arith)

  found_node :
      get_or leaf.key i 0 ≢ get_or key i 0
      → (find_child node node.version (get_or leaf.key i 0) ≡ some 0)
        × (find_child node node.version (get_or key i 0) ≡ some 1)
  found_node differ =
      find_child_both node mem.raw.key (get_or leaf.key i 0) (get_or key i 0) (below_offset p)
        (i - below_offset p) refl refl call.fresh.keys
        (omega (arith, call.low, call.inside, call.small)) (omega (arith, call.short)) differ

  -- What is below the new node is below the node above it.
  Holds-above : (a : ℕ) → Holds store mem.node_at a → Holds store q a
  Holds-above a held =
      below p' byte slot inner_q at_q call.range ((found_p' byte).0 ∙ call.child)
        (subst (λ c. Holds store c a) (sym child_slot) held)

  module _ (differ : get_or leaf.key i 0 ≢ get_or key i 0) where
    pub Holds-new : get_or key i 0 < 256 → Holds store q mem.leaf_at
    Holds-new range = Holds-above mem.leaf_at (
        below node (get_or key i 0) 1 call.fresh.aligned at_new range ((found_node differ).1) (
          here
            (ap is_leaf ((children_two mem.raw.child an mem.leaf_at call.fresh.child).1)
              ∙ call.fresh.tagged)
            ((children_two mem.raw.child an mem.leaf_at call.fresh.child).1)))

    Holds-old : get_or leaf.key i 0 < 256 → Holds store q an
    Holds-old range = Holds-above an (
        below node (get_or leaf.key i 0) 0 call.fresh.aligned at_new range ((found_node differ).0) (
          here
            (ap is_leaf ((children_two mem.raw.child an mem.leaf_at call.fresh.child).0)
              ∙ call.outer)
            ((children_two mem.raw.child an mem.leaf_at call.fresh.child).0)))

    Holds-q :
        get_or leaf.key i 0 < 256
        → (a b c : ℕ) (n : Node) → s.node q ≡ some n
        → b < 256
        → find_child n n.version b ≡ some c
        → Holds s (get_or n.child c 0) a
        → Holds store (get_or n.child c 0) a
        → Holds store q a
    Holds-q range a b c n there range' child old new_ =
        let whole : some p ≡ some n = sym call.above ∙ there in
        let one : n ≡ p = cc in
        let child' : find_child p p.version b ≡ some c =
          ap (λ m. find_child m m.version b) (sym one) ∙ child in
        let same_child : get_or n.child c 0 ≡ get_or p.child c 0 =
          ap (λ m. get_or m.child c 0) one in
        elim (Bool-cases (slot == c)) [
          | inl e ↦
              let at : get_or n.child c 0 ≡ an =
                same_child
                ∙ ap (λ k. get_or p.child k 0) (sym ((==_iff slot c).0 e))
                ∙ call.leads in
              let is_an : an ≡ a =
                sym at ∙ Holds-leaf s (get_or n.child c 0) a (ap is_leaf at ∙ call.outer) old in
              subst (λ k. Holds store q k) is_an (Holds-old range)
          | inr e ↦
              below p' b c inner_q at_q range' ((found_p' b).0 ∙ child')
                (subst (λ k. Holds store k a) (same_child ∙ sym (child_ne c e)) new_)
        ]

    -- Each leaf stays in the tree.
    pub Holds-kept : get_or leaf.key i 0 < 256 → (x a : ℕ) → Holds s x a → Holds store x a
    Holds-kept range x a (here outer e) = here outer e
    Holds-kept range x a (below n b c inner there range' child held) =
        let rest = Holds-kept range (get_or n.child c 0) a held in
        elim (Bool-cases (x == q)) [
          | inl e ↦
              let at : x ≡ q = (==_iff x q).0 e in
              subst (λ y. Holds store y a) (sym at)
                (Holds-q range a b c n (ap s.node (sym at) ∙ there) range' child held rest)
          | inr e ↦
              below n b c inner (at_other x (λ k. ground arith) (not_new x n there) ∙ there) range'
                child rest
        ]

  -- The nodes above stay reachable.
  pub Reaches-kept : (x : ℕ) → Reaches s x q → Reaches store x q
  Reaches-kept x (itself inner e) = itself inner e
  Reaches-kept x (along n b c inner there range child r) =
      let rest = Reaches-kept (get_or n.child c 0) r in
      elim (Bool-cases (x == q)) [
        | inl e ↦ itself inner ((==_iff x q).0 e)
        | inr e ↦
            along n b c inner (at_other x (λ k. ground arith) (not_new x n there) ∙ there) range
              child rest
      ]

  -- Both leaves are all that is below the new node.
  Holds-two : (a : ℕ) → Holds store mem.node_at a → (a ≡ an) ⊎ (a ≡ mem.leaf_at)
  Holds-two a (here outer e) = let k = call.fresh.aligned in cc
  Holds-two a (below n b c inner there range child held) =
      let (left, right) = children_two mem.raw.child an mem.leaf_at call.fresh.child in
      let whole : some node ≡ some n = sym at_new ∙ there in
      let one : n ≡ node = cc in
      let held' : Holds store (get_or node.child c 0) a =
        subst (λ m. Holds store (get_or m.child c 0) a) one held in
      elim (find_child-free_word node mem.raw.key (get_or leaf.key i 0) (get_or key i 0)
        (below_offset p) (i - below_offset p) b c refl refl call.fresh.keys
        (omega (arith, call.low, call.inside, call.small)) (omega (arith, call.short))
        (ap (λ m. find_child m m.version b) (sym one) ∙ child)) [
          | inl (at, same) ↦
              let child_an : get_or node.child c 0 ≡ an =
                ap (λ k. get_or node.child k 0) (sym at) ∙ left in
              inl (
                sym (
                  Holds-leaf store (get_or node.child c 0) a (ap is_leaf child_an ∙ call.outer)
                    held')
                ∙ child_an)
          | inr (at, same) ↦
              let child_new : get_or node.child c 0 ≡ mem.leaf_at =
                ap (λ k. get_or node.child k 0) (sym at) ∙ right in
              inr (
                sym (
                  Holds-leaf store (get_or node.child c 0) a
                    (ap is_leaf child_new ∙ call.fresh.tagged) held')
                ∙ child_new)
        ]

  -- The leaf that is split was below the node.
  Holds-before : Holds s q an
  Holds-before =
      below p byte slot inner_q call.above call.range call.child
        (here (ap is_leaf call.leads ∙ call.outer) call.leads)

  below-p :
      (b c a : ℕ)
      → b < 256
      → find_child p p.version b ≡ some c
      → ((off : ℕ) (route : Route)
          → IsAt s len routes (get_or p'.child c 0) off route
          → Holds s (get_or p'.child c 0) a ⊎ (a ≡ mem.leaf_at))
      → Holds store (get_or p'.child c 0) a
      → Holds s q a ⊎ (a ≡ mem.leaf_at)
  below-p b c a range child rest held = elim (Bool-cases (slot == c)) [
    | inl e ↦
        let at : get_or p'.child c 0 ≡ mem.node_at =
          ap (λ k. get_or p'.child k 0) (sym ((==_iff slot c).0 e)) ∙ child_slot in
        elim (Holds-two a (subst (λ y. Holds store y a) at held)) [
          | inl old ↦ inl (subst (λ y. Holds s q y) (sym old) Holds-before)
          | inr new_ ↦ inr new_
        ]
    | inr e ↦
        let at = call.tree.children q b c p call.above call.current range child in
        elim (rest (below_offset p) (through (routes q) p b) (
          subst (λ y. IsAt s len routes y (below_offset p) (through (routes q) p b))
            (sym (child_ne c e)) at)) [
              | inl held' ↦ inl (
                  below p b c inner_q call.above range child
                    (subst (λ y. Holds s y a) (child_ne c e) held'))
              | inr new_ ↦ inr new_
            ]
  ]

  -- No other leaf comes into the tree.
  pub Holds-only :
      (x a off : ℕ) (route : Route)
      → IsAt s len routes x off route
      → Holds store x a
      → Holds s x a ⊎ (a ≡ mem.leaf_at)
  Holds-only x a off route (inl (outer, l)) held =
      inl (here outer (Holds-leaf store x a outer held))
  Holds-only x a off route (inr (inner, m)) (here outer e) = cc
  Holds-only x a off route (inr (inner, m)) (below n b c inner' there range child held) =
      elim (Bool-cases (x == q)) [
        | inl e ↦
            let at : x ≡ q = (==_iff x q).0 e in
            let whole : some p' ≡ some n = sym at_q ∙ sym (ap store.node at) ∙ there in
            let one : n ≡ p' = cc in
            let child' : find_child p p.version b ≡ some c =
              sym ((found_p' b).0) ∙ ap (λ y. find_child y y.version b) (sym one) ∙ child in
            subst (λ y. Holds s y a ⊎ (a ≡ mem.leaf_at)) (sym at)
              (below-p b c a range child'
                (λ off' route' place.
                  subst (λ y. Holds s y a ⊎ (a ≡ mem.leaf_at)) (ap (λ y. get_or y.child c 0) one)
                    (Holds-only (get_or n.child c 0) a off' route'
                      (subst (λ y. IsAt s len routes y off' route')
                        (sym (ap (λ y. get_or y.child c 0) one)) place)
                      held))
                (subst (λ y. Holds store (get_or y.child c 0) a) one held))
        | inr e ↦
            let old : s.node x ≡ some n =
              sym (at_other x (λ k. ground arith) (not_new x m.value m.there)) ∙ there in
            let (stable, current, offset, inside) =
              IsNodeAt-value s len routes x off route n m old in
            elim (Holds-only (get_or n.child c 0) a (below_offset n) (through (routes x) n b)
              (call.tree.children x b c n old current range child) held) [
                | inl held' ↦ inl (below n b c inner old range child held')
                | inr new_ ↦ inr new_
              ]
      ]
