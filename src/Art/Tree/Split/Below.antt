-- ===== src/Art/Tree/Split/Below.antt =====
-- A leaf below a node is split, and the tree stays a tree.
use sidle.Base.{
  ℕ, ◌+◌, ◌-◌, ◌<◌, ◌≤◌, ◌≡◌, ◌≢◌, inl, inr, refl, sym, ap, subst, ◌∙◌, List, true, false, some,
  ltb, ◌==◌, ==_iff, if◌then◌else◌, get_or, set, length, Bool-cases, arith,
}
use sidle.Art.Version.{get_node_type, get_offset, get_prefix_len, is_old, is_expanding}
use sidle.Art.Node.{Node, find_child}
use sidle.Art.Node.Insert.{IsShape}
use sidle.Art.Prefix.{copy_bytes}
use sidle.Art.Prefix.Copy.{copy_bytes_lem}
use sidle.Art.Leaf.{LeafNode, get_leaf_len}
use sidle.Art.Tree.{Store, is_leaf, match_loop}
use sidle.Art.Tree.Invariant.{Route, Follows, through, below_offset, IsAt, IsTree}
use sidle.Art.Tree.Compare.{match_loop_lem}
use sidle.Art.Tree.Search.{IsLeafAt-value}
use sidle.Art.Tree.Split.{Memory, new_leaf}
use sidle.Art.Tree.Split.New.{free_word, free_word_lem, children_two, find_child-free_word}
use sidle.Art.Tree.Split.Slot.{with_child}
use sidle.Art.Tree.Split.After.{
  IsFresh, get_leaf_len-new_leaf, other_node, split_store, split_store_new, split_store_leaf_at,
  SameLeaves-split_store,
}

-- The keys part at `i`, and so the loop ends there.
pub match_loop_parts :
    (k1 k2 : List ℕ) (len off i : ℕ)
    → off ≤ i
    → i < len
    → get_or k1 i 0 ≢ get_or k2 i 0
    → ((j : ℕ) → off ≤ j → j < i → get_or k1 j 0 ≡ get_or k2 j 0)
    → match_loop (len - off) off k1 k2 len ≡ i
match_loop_parts k1 k2 len off i low inside differ agree =
    elim (match_loop_lem (len - off) off k1 k2 len (omega arith)) [
      | inl (ends, equal) ↦ absurd (differ (equal i low inside))
      | inr (r, ends, low', high, parts, equal) ↦ elim (Bool-cases (ltb i r)) [
        | inl a ↦ absurd (differ (equal i low (ground arith)))
        | inr a ↦ elim (Bool-cases (ltb r i)) [
          | inl b ↦ absurd (parts (agree r low' (ground arith)))
          | inr b ↦ ground arith
        ]
      ]
    ]

-- A key leads to a child of the new node where it has the bytes of the old leaf up to `i`.
Follows-new :
    (k old : List ℕ) (route route' : Route) (n : Node) (raw : List ℕ) (off i : ℕ)
    → off ≤ i
    → i - off ≤ 8
    → length raw ≡ 8
    → get_offset n.version ≡ off
    → get_prefix_len n.version ≡ i - off
    → n.prefix ≡ copy_bytes (i - off) 0 raw old off
    → ((j : ℕ) → route' j ≡ route j)
    → Follows k route off
    → ((j : ℕ) → off ≤ j → j < i → get_or old j 0 ≡ get_or k j 0)
    → Follows k (through route' n (get_or k i 0)) (below_offset n)
Follows-new k old route route' n raw off i low short size offset prefix_len prefix same before agree
      j high =
    elim (Bool-cases (ltb j off)) [
      | inl a ↦ rw (offset, a) (before j (ground arith) ∙ sym (same j))
      | inr a ↦ elim (Bool-cases (ltb j (off + (i - off)))) [
        | inl b ↦
            let back : off + (j - off) ≡ j = ground arith in
            rw (offset, a, prefix_len, b)
              (sym (agree j (ground arith) (ground arith))
                ∙ sym (ap (λ m. get_or old m 0) back)
                ∙ sym (
                    copy_bytes_lem (i - off) 0 (j - off) raw old off (omega arith) (omega arith)
                      (ground arith))
                ∙ sym (ap (λ bs. get_or bs (j - off) 0) prefix))
        | inr b ↦ rw (offset, a, prefix_len, b) (ap (λ m. get_or k m 0) (ground arith))
      ]
    ]

-- What a call meets that splits the leaf `an` below the node `q`, which the key leads to: the keys
-- part at `i`, at most 8 bytes behind the node.
pub record Splits (s : Store) (mem : Memory) (len : ℕ) (routes : ℕ → Route) (q slot an byte i : ℕ)
    (p : Node) (leaf : LeafNode) (key : List ℕ) : Type 0 where
  pub tree : IsTree s len routes
  pub fresh : IsFresh s mem
  pub above : s.node q ≡ some p
  pub current : is_old p.version ≡ false
  pub shape : IsShape (get_node_type p.version) p
  pub range : byte < 256
  pub child : find_child p p.version byte ≡ some slot
  pub leads : get_or p.child slot 0 ≡ an
  pub outer : is_leaf an ≡ true
  pub there : s.leaf an ≡ some leaf
  pub small : len < 128
  pub follows : Follows key (through (routes q) p byte) (below_offset p)
  pub low : below_offset p ≤ i
  pub short : i - below_offset p ≤ 8
  pub inside : i < len
  pub agree : (j : ℕ) → below_offset p ≤ j → j < i → get_or leaf.key j 0 ≡ get_or key j 0

module _ (s : Store) (mem : Memory) (len : ℕ) (routes : ℕ → Route) (q slot an byte i : ℕ) (p : Node)
    (leaf : LeafNode) (key : List ℕ) where
  abbrev off : ℕ
  off = below_offset p

  -- The node that comes above both leaves
  abbrev pub new_node : Node
  new_node = record mem.raw {
    version = free_word (below_offset p) (i - below_offset p);
    prefix = copy_bytes (i - below_offset p) 0 mem.raw.prefix leaf.key (below_offset p);
    new_ = 0;
    parent = q;
    key = set (set mem.raw.key 0 (get_or leaf.key i 0)) 1 (get_or key i 0);
    child = set (set mem.raw.child 0 an) 1 mem.leaf_at;
  }

  abbrev pub new_routes : ℕ → Route
  new_routes x = if x == mem.node_at then through (routes q) p byte else routes x

  abbrev pub new_store : Store
  new_store = split_store s mem len q slot an p new_node leaf key

  new_routes_new : (j : ℕ) → new_routes mem.node_at j ≡ through (routes q) p byte j
  new_routes_new j = let e : mem.node_at == mem.node_at ≡ true = (==_iff _ _).1 refl in rw e refl

  pub new_routes_ne : (x : ℕ) → x ≢ mem.node_at → new_routes x ≡ routes x
  new_routes_ne x h = let e : x == mem.node_at ≡ false = ground arith in rw e refl

  module _ (call : Splits s mem len routes q slot an byte i p leaf key) where
    -- What is below `byte'` where that leads to the same slot
    pub leaf_below :
        (byte' : ℕ)
        → byte' < 256
        → find_child p p.version byte' ≡ some slot
        → (get_leaf_len leaf ≡ len) × Follows leaf.key (through (routes q) p byte') off
    leaf_below byte' range' child' =
        elim (call.tree.children q byte' slot p call.above call.current range' child') [
          | inl (outer', l) ↦
              IsLeafAt-value s len routes (get_or p.child slot 0) off (through (routes q) p byte')
                leaf l (ap s.leaf call.leads ∙ call.there)
          | inr (inner, n) ↦
              let inner' : is_leaf an ≡ false = sym (ap is_leaf call.leads) ∙ inner in
              absurd (let k = call.outer in cc)
        ]

    through_last :
        (byte' : ℕ)
        → through (routes q) p byte' (get_offset p.version + get_prefix_len p.version) ≡ byte'
    through_last byte' =
        let o = get_offset p.version in
        let l = get_prefix_len p.version in
        let a : ltb (o + l) o ≡ false = ground arith in
        let b : ltb (o + l) (o + l) ≡ false = ground arith in rw (a, b) refl

    -- One byte leads to the leaf.
    pub same_byte :
        (byte' : ℕ) → byte' < 256 → find_child p p.version byte' ≡ some slot → byte' ≡ byte
    same_byte byte' range' child' =
        let o = get_offset p.version + get_prefix_len p.version in
        sym (through_last byte')
        ∙ sym ((leaf_below byte' range' child').1 o (omega arith))
        ∙ (leaf_below byte call.range call.child).1 o (omega arith)
        ∙ through_last byte

    head_lem :
        (get_offset new_node.version ≡ off)
        × (get_prefix_len new_node.version ≡ i - off)
        × (is_old new_node.version ≡ false)
        × (is_expanding new_node.version ≡ false)
    head_lem =
        let (o, l, count, type, old, expanding) =
          free_word_lem off (i - off) (omega arith) (omega arith) in
        (o, l, old, expanding)

    below_new : below_offset new_node ≡ i + 1
    below_new = let (o, l, old, expanding) = head_lem in omega (arith, call.low)

    abbrev pub way : ℕ → Route
    way b = through (new_routes mem.node_at) new_node b

    first_leaf :
        IsAt new_store len new_routes an (below_offset new_node) (way (get_or leaf.key i 0))
    first_leaf =
        let (o, l, old, expanding) = head_lem in
        let (size, before) = leaf_below byte call.range call.child in
        let (value, there', size', same) =
          SameLeaves-split_store s mem len q slot an p new_node leaf key call.fresh call.above
            call.there an leaf call.there in
        inl (
          call.outer,
          record {
            value = value;
            there = there';
            size = size' ∙ size;
            inside = omega (arith, below_new, call.inside);
            bytes = λ j h.
                ap (λ k. get_or k j 0) same
                ∙ Follows-new leaf.key leaf.key (through (routes q) p byte) (new_routes mem.node_at)
                    new_node mem.raw.prefix off i call.low call.short call.fresh.prefix o l refl
                    new_routes_new before (λ m a b. refl) j h;
          },
        )

    second_leaf :
        IsAt new_store len new_routes mem.leaf_at (below_offset new_node) (way (get_or key i 0))
    unfolding new_leaf
    second_leaf =
        let (o, l, old, expanding) = head_lem in
        inl (
          call.fresh.tagged,
          record {
            value = new_leaf mem key len;
            there =
                split_store_leaf_at s mem len q slot an p new_node leaf key call.fresh call.above
                  call.there;
            size = get_leaf_len-new_leaf mem key len call.small;
            inside = omega (arith, below_new, call.inside);
            bytes =
                Follows-new key leaf.key (through (routes q) p byte) (new_routes mem.node_at)
                  new_node mem.raw.prefix off i call.low call.short call.fresh.prefix o l refl
                  new_routes_new call.follows call.agree;
          },
        )

    pub new_child :
        (byte' slot' : ℕ)
        → find_child new_node new_node.version byte' ≡ some slot'
        → IsAt new_store len new_routes
            (get_or new_node.child slot' 0)
            (below_offset new_node)
            (way byte')
    new_child byte' slot' h =
        let (left, right) = children_two mem.raw.child an mem.leaf_at call.fresh.child in
        let Goal = λ (c b : ℕ). IsAt new_store len new_routes c (below_offset new_node) (way b) in
        elim (find_child-free_word new_node mem.raw.key (get_or leaf.key i 0) (get_or key i 0) off
          (i - off) byte' slot' refl refl call.fresh.keys
          (omega (arith, call.low, call.inside, call.small)) (omega (arith, call.short)) h) [
            | inl (at, same) ↦
                subst (λ c. Goal (get_or new_node.child c 0) byte') at
                  (subst (λ c. Goal c byte') (sym left) (subst (λ b. Goal an b) same first_leaf))
            | inr (at, same) ↦
                subst (λ c. Goal (get_or new_node.child c 0) byte') at
                  (subst (λ c. Goal c byte') (sym right)
                    (subst (λ b. Goal mem.leaf_at b) same second_leaf))
          ]

    -- The new node at its place
    pub new_place :
        IsAt new_store len new_routes mem.node_at
          (below_offset (with_child p slot mem.node_at))
          (through (new_routes q) (with_child p slot mem.node_at) byte)
    new_place =
        let (o, l, old, expanding) = head_lem in
        inr (
          call.fresh.aligned,
          record {
            value = new_node;
            there =
                split_store_new s mem len q slot an p new_node leaf key call.fresh call.above
                  call.there;
            stable = expanding;
            current = old;
            offset = o;
            inside = omega (arith, l, call.low, call.inside);
            bytes = λ j h.
                new_routes_new j
                ∙ ap (λ r. through r p byte j)
                    (sym (
                      new_routes_ne q (
                        other_node s mem len q slot an p new_node leaf key call.fresh call.above
                          call.there)));
          },
        )
