-- ===== src/Art/Tree/Split/After.antt =====
-- What the memory holds after a leaf below a node is split.
use sidle.Base.{
  ℕ, ◌<◌, ◌≡◌, ◌≢◌, inl, inr, refl, sym, ap, subst, ◌∙◌, List, true, false, none, some, ◌==◌,
  ==_iff, length, Bool-cases, arith,
}
use sidle.Art.Node.{Node}
use sidle.Art.Leaf.{LeafNode, get_leaf_len}
use sidle.Art.Tree.{Store, is_leaf}
use sidle.Art.Tree.Invariant.{Route}
use sidle.Art.Tree.Change.{SameLeaves, SameHead, SameHead-refl, Keeps}
use sidle.Art.Tree.Split.{Memory, write_node, write_leaf, new_leaf, deeper, with_split}
use sidle.Art.Tree.Split.Slot.{
  write_node_self, write_node_ne, with_child, with_slot, with_slot_self, with_slot_ne,
  with_slot_leaf, with_slot_root,
}

-- What `sidle_alloc` promises: pointers that are not in use yet and blocks of the size that was
-- asked for.
pub record IsFresh (s : Store) (mem : Memory) : Type 0 where
  pub leaf : s.leaf mem.leaf_at ≡ none
  pub tagged : is_leaf mem.leaf_at ≡ true
  pub node : s.node mem.node_at ≡ none
  pub aligned : is_leaf mem.node_at ≡ false
  pub not_null : mem.node_at ≢ 0
  pub prefix : length mem.raw.prefix ≡ 8
  pub keys : length mem.raw.key ≡ 4
  pub child : length mem.raw.child ≡ 4

pub get_leaf_len-new_leaf :
    (mem : Memory) (key : List ℕ) (len : ℕ) → len < 128 → get_leaf_len (new_leaf mem key len) ≡ len
unfolding get_leaf_len new_leaf
get_leaf_len-new_leaf mem key len h = ground arith

module _ (s : Store) (mem : Memory) (len q slot an : ℕ) (p n : Node) (leaf : LeafNode)
    (key : List ℕ) where
  abbrev pub split_store : Store
  split_store = with_slot (with_split s mem an leaf key len n) q slot mem.node_at p

  module _ (fresh : IsFresh s mem) (above : s.node q ≡ some p)
      (old_leaf : s.leaf an ≡ some leaf) where
    pub other_node : q ≢ mem.node_at
    other_node e = let h : some p ≡ none = sym above ∙ ap s.node e ∙ fresh.node in cc

    pub other_leaf : an ≢ mem.leaf_at
    other_leaf e = let h : some leaf ≡ none = sym old_leaf ∙ ap s.leaf e ∙ fresh.leaf in cc

    with_split_node :
        (x : ℕ) → x ≢ mem.node_at → (with_split s mem an leaf key len n).node x ≡ s.node x
    unfolding with_split write_leaf
    with_split_node x h = write_node_ne _ mem.node_at x n h

    pub above_with_split : (with_split s mem an leaf key len n).node q ≡ some p
    above_with_split = with_split_node q other_node ∙ above

    with_split_new : (with_split s mem an leaf key len n).node mem.node_at ≡ some n
    unfolding with_split
    with_split_new = write_node_self _ mem.node_at n

    pub split_store_q : split_store.node q ≡ some (with_child p slot mem.node_at)
    split_store_q = with_slot_self _ q slot mem.node_at p

    pub split_store_new : split_store.node mem.node_at ≡ some n
    split_store_new =
        with_slot_ne _ q slot mem.node_at p mem.node_at (λ e. other_node (sym e)) ∙ with_split_new

    pub split_store_node : (x : ℕ) → x ≢ q → x ≢ mem.node_at → split_store.node x ≡ s.node x
    split_store_node x h k = with_slot_ne _ q slot mem.node_at p x h ∙ with_split_node x k

    pub split_store_root : split_store.root ≡ s.root
    unfolding with_split write_node write_leaf
    split_store_root = with_slot_root (with_split s mem an leaf key len n) q slot mem.node_at p

    pub split_store_leaf_at : split_store.leaf mem.leaf_at ≡ some (new_leaf mem key len)
    unfolding with_split write_node write_leaf
    split_store_leaf_at =
        let e : mem.leaf_at == mem.leaf_at ≡ true = (==_iff _ _).1 refl in
        with_slot_leaf (with_split s mem an leaf key len n) q slot mem.node_at p mem.leaf_at
        ∙ rw e refl

    abbrev deeper_leaf : LeafNode
    deeper_leaf = record leaf {
      sidle_meta = record leaf.sidle_meta {
        metadata = deeper leaf.sidle_meta.metadata n.sidle_meta.depth;
      };
    }

    split_store_an : split_store.leaf an ≡ some deeper_leaf
    unfolding with_split write_node write_leaf
    split_store_an =
        let e : an == an ≡ true = (==_iff _ _).1 refl in
        let f : an == mem.leaf_at ≡ false = let h = other_leaf in ground arith in
        with_slot_leaf (with_split s mem an leaf key len n) q slot mem.node_at p an ∙ rw (f, e) refl

    split_store_leaf : (x : ℕ) → x ≢ an → x ≢ mem.leaf_at → split_store.leaf x ≡ s.leaf x
    unfolding with_split write_node write_leaf
    split_store_leaf x h k =
        let e : x == an ≡ false = ground arith in
        let f : x == mem.leaf_at ≡ false = ground arith in
        with_slot_leaf (with_split s mem an leaf key len n) q slot mem.node_at p x ∙ rw (f, e) refl

    pub SameLeaves-split_store : SameLeaves s split_store
    unfolding get_leaf_len
    SameLeaves-split_store x l there = elim (Bool-cases (x == an)) [
      | inl e ↦
          let at : x ≡ an = (==_iff x an).0 e in
          let whole : some leaf ≡ some l = sym old_leaf ∙ sym (ap s.leaf at) ∙ there in
          let one : leaf ≡ l = cc in
          (
            deeper_leaf,
            ap split_store.leaf at ∙ split_store_an,
            ap get_leaf_len one,
            ap (λ m. m.key) one,
          )
      | inr e ↦
          let other : x ≢ mem.leaf_at =
            λ k. let h : some l ≡ none = sym there ∙ ap s.leaf k ∙ fresh.leaf in cc in
          (l, split_store_leaf x (λ k. ground arith) other ∙ there, refl, refl)
    ]

    pub Keeps-split_store :
        (routes routes' : ℕ → Route)
        → ((x : ℕ) → x ≢ mem.node_at → routes' x ≡ routes x)
        → Keeps s split_store routes routes'
    Keeps-split_store routes routes' same = record {
      leaves = SameLeaves-split_store;
      nodes = λ x m there current.
          let other : x ≢ mem.node_at =
            λ k. let h : some m ≡ none = sym there ∙ ap s.node k ∙ fresh.node in cc in
          let route : (j : ℕ) → routes' x j ≡ routes x j = λ j. ap (λ r. r j) (same x other) in
          elim (Bool-cases (x == q)) [
            | inl e ↦
                let at : x ≡ q = (==_iff x q).0 e in
                let whole : some p ≡ some m = sym above ∙ sym (ap s.node at) ∙ there in
                let one : p ≡ m = cc in
                (
                  with_child p slot mem.node_at,
                  ap split_store.node at ∙ split_store_q,
                  subst (λ y. SameHead y (with_child p slot mem.node_at)) one
                      (record { expanding = refl; old = refl; offset = refl; prefix_len = refl }),
                  route,
                )
            | inr e ↦
                (m, split_store_node x (λ k. ground arith) other ∙ there, SameHead-refl m, route)
          ];
    }
