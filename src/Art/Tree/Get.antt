-- ===== src/Art/Tree/Get.antt =====
-- `adaptive_radix_tree_get` finds the leaf with the key, and keeps the tree.
use sidle.Base.{
  ℕ, ◌<◌, ◌≡◌, inl, inr, refl, sym, ap, ◌∙◌, List, false, none, some, ◌==◌, ==_iff, get_or,
  Bool-cases, arith,
}
use sidle.Meta.{update_access}
use sidle.Art.Leaf.{LeafNode, get_leaf_len}
use sidle.Art.Tree.{
  Store, is_leaf, Found, found, missing, stuck, fault, search_tree, touch, adaptive_radix_tree_get,
}
use sidle.Art.Tree.Invariant.{Route, IsAt, IsTree, Holds, here, below}
use sidle.Art.Tree.Change.{SameLeaves, Keeps, SameHead-refl, Keeps-refl, IsAt-Keeps}
use sidle.Art.Tree.Compare.{SameBytes}
use sidle.Art.Tree.Search.{Answers, search_tree-Answers, search_tree-Holds}

-- What an answer says of the leaves below a pointer: it is the one with the key, or there is none.
abbrev pub IsAnswer : Store → ℕ → List ℕ → ℕ → Found → Type 0
IsAnswer s len key an (found a) =
    (leaf : LeafNode) × (s.leaf a ≡ some leaf)
    × (get_leaf_len leaf ≡ len)
    × SameBytes leaf.key key len
    × Holds s an a
IsAnswer s len key an missing =
    (a : ℕ) (leaf : LeafNode) → Holds s an a → s.leaf a ≡ some leaf → ¬ SameBytes leaf.key key len
IsAnswer s len key an stuck = ⊥
IsAnswer s len key an fault = ⊥

missing-ne-found : (a : ℕ) → ¬ (missing ≡ found a)
missing-ne-found a e = cc

complete :
    (s : Store) (len fuel : ℕ) (routes : ℕ → Route) (key : List ℕ) (r : Found)
    → IsTree s len routes
    → len < fuel
    → IsAt s len routes s.root 0 (λ j. 0)
    → search_tree fuel s s.root key len 0 ≡ r
    → Answers s len key s.root r
    → IsAnswer s len key s.root r
complete s len fuel routes key (found a) tree enough start e h = h
complete s len fuel routes key missing tree enough start e h = λ a leaf held there same.
    missing-ne-found a (
      sym e
      ∙ (search_tree-Holds s len routes tree fuel s.root a 0 (λ j. 0) leaf key held there same
          (omega arith) start).0)
complete s len fuel routes key stuck tree enough start e h = h
complete s len fuel routes key fault tree enough start e h = h

-- A change of the leaves' metadata alone keeps a tree.
touch-SameLeaves : (r : Found) (s : Store) → SameLeaves s (touch r s)
unfolding get_leaf_len
touch-SameLeaves (found a) s an leaf there = elim (Bool-cases (an == a)) [
  | inl same ↦
      let at : s.leaf a ≡ some leaf = ap s.leaf (sym ((==_iff an a).0 same)) ∙ there in
      (record leaf { sidle_meta = update_access leaf.sidle_meta }, rw (same, at) refl, refl, refl)
  | inr other ↦ (leaf, rw other there, refl, refl)
]
touch-SameLeaves missing s an leaf there = (leaf, there, refl, refl)
touch-SameLeaves stuck s an leaf there = (leaf, there, refl, refl)
touch-SameLeaves fault s an leaf there = (leaf, there, refl, refl)

touch-Keeps : (r : Found) (s : Store) (routes : ℕ → Route) → Keeps s (touch r s) routes routes
touch-Keeps (found a) s routes = record {
  leaves = touch-SameLeaves (found a) s;
  nodes = λ an n there current. (n, there, SameHead-refl n, λ j. refl);
}
touch-Keeps missing s routes = Keeps-refl s routes
touch-Keeps stuck s routes = Keeps-refl s routes
touch-Keeps fault s routes = Keeps-refl s routes

pub IsTree-touch :
    (r : Found) (s : Store) (len : ℕ) (routes : ℕ → Route)
    → IsTree s len routes
    → IsTree (touch r s) len routes
IsTree-touch (found a) s len routes tree =
    let keeps = touch-Keeps (found a) s routes in
    record {
      null = tree.null;
      start = elim tree.start [
        | inl e ↦ inl e
        | inr p ↦ inr (IsAt-Keeps s (touch (found a) s) len routes routes s.root 0 (λ j. 0) keeps p)
      ];
      children = λ an byte slot n there current range child.
          IsAt-Keeps s (touch (found a) s) len routes routes _ _ _ keeps
            (tree.children an byte slot n there current range child);
    }
IsTree-touch missing s len routes tree = tree
IsTree-touch stuck s len routes tree = tree
IsTree-touch fault s len routes tree = tree

-- Nothing is below null.
pub not-Holds : (s : Store) (an a : ℕ) → s.node an ≡ none → is_leaf an ≡ false → ¬ Holds s an a
not-Holds s an a empty inner (here outer same) = cc
not-Holds s an a empty inner (below n byte slot inner' at range child h) = cc

-- In a tree of keys of one length, whatever the key is, a search with more fuel than that length
-- ends: it finds a leaf of the tree with the bytes of the key, or says that there is none, and then
-- no leaf of the tree has them. The search never waits for ever and follows no pointer that leads
-- nowhere, and the tree is a tree afterwards.
pub adaptive_radix_tree_get-IsAnswer :
    (s : Store) (len fuel : ℕ) (routes : ℕ → Route) (key : List ℕ)
    → IsTree s len routes
    → len < fuel
    → ((j : ℕ) → get_or key j 0 < 256)
    → let (r, s') = adaptive_radix_tree_get fuel s key len in
      IsAnswer s len key s.root r × IsTree s' len routes
unfolding adaptive_radix_tree_get
adaptive_radix_tree_get-IsAnswer s len fuel routes key tree enough bytes =
    elim (Bool-cases (s.root == 0)) [
      | inl empty ↦
          let no_node : s.node s.root ≡ none = ap s.node ((==_iff s.root 0).0 empty) ∙ tree.null in
          let inner : is_leaf s.root ≡ false = ap is_leaf ((==_iff s.root 0).0 empty) in
          rw empty (λ a leaf held there same. not-Holds s s.root a no_node inner held, tree)
      | inr some_root ↦ elim tree.start [
        | inl null ↦ absurd (ground arith)
        | inr start ↦ rw some_root (
          complete s len fuel routes key (search_tree fuel s s.root key len 0) tree enough start
              refl
              (search_tree-Answers s len routes tree fuel key s.root 0 (λ j. 0) (omega arith) bytes
                start (λ j h. absurd (omega arith))),
          IsTree-touch (search_tree fuel s s.root key len 0) s len routes tree,
        )
      ]
    ]

-- A leaf of the tree is found by its key.
pub adaptive_radix_tree_get-Holds :
    (s : Store) (len fuel : ℕ) (routes : ℕ → Route) (a : ℕ) (leaf : LeafNode) (key : List ℕ)
    → IsTree s len routes
    → len < fuel
    → Holds s s.root a
    → s.leaf a ≡ some leaf
    → SameBytes leaf.key key len
    → (adaptive_radix_tree_get fuel s key len).0 ≡ found a
unfolding adaptive_radix_tree_get
adaptive_radix_tree_get-Holds s len fuel routes a leaf key tree enough held there same =
    elim (Bool-cases (s.root == 0)) [
      | inl empty ↦
          let no_node : s.node s.root ≡ none = ap s.node ((==_iff s.root 0).0 empty) ∙ tree.null in
          let inner : is_leaf s.root ≡ false = ap is_leaf ((==_iff s.root 0).0 empty) in
          absurd (not-Holds s s.root a no_node inner held)
      | inr some_root ↦ elim tree.start [
        | inl null ↦ absurd (ground arith)
        | inr start ↦ rw some_root (
            (search_tree-Holds s len routes tree fuel s.root a 0 (λ j. 0) leaf key held there same
              (omega arith) start).0)
      ]
    ]
