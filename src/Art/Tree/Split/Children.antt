-- ===== src/Art/Tree/Split/Children.antt =====
-- The children of each node after a leaf below a node is split: the tree stays a tree.
use sidle.Base.{
  ℕ, ◌<◌, ◌≡◌, ◌≢◌, inl, inr, refl, sym, ap, subst, ◌∙◌, List, false, some, ◌==◌, ==_iff, get_or,
  length, Bool-cases, get_or-set_self, get_or-set_ne, arith,
}
use sidle.Art.Version.{is_old}
use sidle.Art.Node.{Node, find_child}
use sidle.Art.Node.Replace.{find_child-set}
use sidle.Art.Leaf.{LeafNode}
use sidle.Art.Tree.{Store}
use sidle.Art.Tree.Invariant.{Route, IsAt, IsTree}
use sidle.Art.Tree.Change.{SameHead-refl, IsAt-Keeps, IsChild, kept, put, IsTree-change}
use sidle.Art.Tree.Split.{Memory}
use sidle.Art.Tree.Split.Slot.{with_child}
use sidle.Art.Tree.Split.After.{
  other_node, split_store_q, split_store_new, split_store_node, split_store_root, Keeps-split_store,
}
use sidle.Art.Tree.Split.Below.{
  Splits, new_node, new_routes, new_store, new_routes_ne, same_byte, new_child, new_place,
}

module _ (s : Store) (mem : Memory) (len : ℕ) (routes : ℕ → Route) (q slot an byte i : ℕ) (p : Node)
    (leaf : LeafNode) (key : List ℕ)
    (call : Splits s mem len routes q slot an byte i p leaf key) where
  abbrev node : Node
  node = new_node s mem len routes q slot an byte i p leaf key

  abbrev store : Store
  store = new_store s mem len routes q slot an byte i p leaf key

  abbrev routes' : ℕ → Route
  routes' = new_routes s mem len routes q slot an byte i p leaf key

  child_new :
      (byte' slot' : ℕ) (n' : Node)
      → store.node mem.node_at ≡ some n'
      → find_child n' n'.version byte' ≡ some slot'
      → IsChild s store len routes routes' mem.node_at n' byte' (get_or n'.child slot' 0)
  child_new byte' slot' n' there' h =
      let whole : some node ≡ some n' =
        sym (split_store_new s mem len q slot an p node leaf key call.fresh call.above call.there)
        ∙ there' in
      let one : node ≡ n' = cc in
      subst
        (λ m.
          find_child m m.version byte' ≡ some slot'
          → IsChild s store len routes routes' mem.node_at m byte' (get_or m.child slot' 0))
        one (λ g. put (new_child s mem len routes q slot an byte i p leaf key call byte' slot' g)) h

  abbrev p' : Node
  p' = with_child p slot mem.node_at

  route_q : (j : ℕ) → routes' q j ≡ routes q j
  route_q j =
      ap (λ r. r j)
        (new_routes_ne s mem len routes q slot an byte i p leaf key q
          (other_node s mem len q slot an p node leaf key call.fresh call.above call.there))

  child_slot :
      (byte' slot' : ℕ)
      → byte' < 256
      → find_child p p.version byte' ≡ some slot'
      → slot < length p.child
      → IsChild s store len routes routes' q p' byte' (get_or p'.child slot' 0)
  child_slot byte' slot' range' h bound = elim (Bool-cases (slot == slot')) [
    | inl e ↦
        let at : slot ≡ slot' = (==_iff slot slot').0 e in
        let same : byte' ≡ byte =
          same_byte s mem len routes q slot an byte i p leaf key call byte' range'
            (h ∙ ap some (sym at)) in
        subst (λ c. IsChild s store len routes routes' q p' byte' (get_or p'.child c 0)) at
          (subst (λ c. IsChild s store len routes routes' q p' byte' c)
            (sym (get_or-set_self p.child slot mem.node_at 0 bound))
            (subst (λ b. IsChild s store len routes routes' q p' b mem.node_at) (sym same)
              (put (new_place s mem len routes q slot an byte i p leaf key call))))
    | inr e ↦
        kept p slot' call.above call.current h
          (sym (get_or-set_ne p.child slot slot' mem.node_at 0 (λ k. ground arith)))
          (record { expanding = refl; old = refl; offset = refl; prefix_len = refl }) refl route_q
  ]

  child_q :
      (byte' slot' : ℕ) (n' : Node)
      → store.node q ≡ some n'
      → byte' < 256
      → find_child n' n'.version byte' ≡ some slot'
      → IsChild s store len routes routes' q n' byte' (get_or n'.child slot' 0)
  child_q byte' slot' n' there' range' h =
      let whole : some p' ≡ some n' =
        sym (split_store_q s mem len q slot an p node leaf key call.fresh call.above call.there)
        ∙ there' in
      let one : p' ≡ n' = cc in
      let (same, bound) =
        find_child-set p byte slot mem.node_at byte' call.shape call.range call.child
          call.fresh.not_null in
      subst
        (λ m.
          find_child m m.version byte' ≡ some slot'
          → IsChild s store len routes routes' q m byte' (get_or m.child slot' 0))
        one (λ g. child_slot byte' slot' range' (sym same ∙ g) bound) h

  children_lem :
      (x byte' slot' : ℕ) (n' : Node)
      → store.node x ≡ some n'
      → is_old n'.version ≡ false
      → byte' < 256
      → find_child n' n'.version byte' ≡ some slot'
      → IsChild s store len routes routes' x n' byte' (get_or n'.child slot' 0)
  children_lem x byte' slot' n' there' current' range' h = elim (Bool-cases (x == mem.node_at)) [
    | inl e ↦
        let at : mem.node_at ≡ x = sym ((==_iff x mem.node_at).0 e) in
        subst
          (λ y.
            store.node y ≡ some n'
            → IsChild s store len routes routes' y n' byte' (get_or n'.child slot' 0))
          at (λ g. child_new byte' slot' n' g h) there'
    | inr e ↦ elim (Bool-cases (x == q)) [
      | inl f ↦
          let at : q ≡ x = sym ((==_iff x q).0 f) in
          subst
            (λ y.
              store.node y ≡ some n'
              → IsChild s store len routes routes' y n' byte' (get_or n'.child slot' 0))
            at (λ g. child_q byte' slot' n' g range' h) there'
      | inr f ↦
          let other : x ≢ mem.node_at = λ k. ground arith in
          kept n' slot'
            (sym (
                split_store_node s mem len q slot an p node leaf key call.fresh call.above
                  call.there x (λ k. ground arith) other)
              ∙ there')
            current' h refl (SameHead-refl n') refl
            (λ j.
              ap (λ r. r j) (new_routes_ne s mem len routes q slot an byte i p leaf key x other))
    ]
  ]

  pub new_store-IsTree : q ≢ 0 → IsTree store len routes'
  new_store-IsTree not_null =
      let keeps =
        Keeps-split_store s mem len q slot an p node leaf key call.fresh call.above call.there
          routes routes' (new_routes_ne s mem len routes q slot an byte i p leaf key) in
      IsTree-change s store len routes routes' call.tree keeps
        (split_store_node s mem len q slot an p node leaf key call.fresh call.above call.there 0
            (λ k. not_null (sym k)) (λ k. call.fresh.not_null (sym k))
          ∙ call.tree.null)
        (elim call.tree.start [
          | inl e ↦ inl (
              split_store_root s mem len q slot an p node leaf key call.fresh call.above call.there
              ∙ e)
          | inr at ↦ inr (
              subst (λ x. IsAt store len routes' x 0 (λ j. 0))
                (sym (
                  split_store_root s mem len q slot an p node leaf key call.fresh call.above
                    call.there))
                (IsAt-Keeps s store len routes routes' s.root 0 (λ j. 0) keeps at))
        ])
        children_lem
