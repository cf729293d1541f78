-- ===== src/Art/Tree/Change.antt =====
-- A change of the memory that leaves each place of a tree a place.
use sidle.Base.{
  ℕ, ◌<◌, ◌⊎◌, none, ◌≡◌, inl, inr, refl, ap, ◌∙◌, some, get_or, false, arith, sym, subst,
}
use sidle.Art.Version.{get_offset, get_prefix_len, is_old, is_expanding}
use sidle.Art.Node.{Node, find_child}
use sidle.Art.Leaf.{LeafNode, get_leaf_len}
use sidle.Art.Tree.{Store}
use sidle.Art.Tree.Invariant.{Route, through, below_offset, IsAt, IsTree}

-- Each leaf stays, with its key.
abbrev pub SameLeaves : Store → Store → Type 0
SameLeaves s s' =
    (an : ℕ) (leaf : LeafNode)
    → s.leaf an ≡ some leaf
    → (leaf' : LeafNode) × (s'.leaf an ≡ some leaf')
      × (get_leaf_len leaf' ≡ get_leaf_len leaf)
      × (leaf'.key ≡ leaf.key)

-- The version words of two nodes agree but for the count, the type, the lock and the counters.
pub record SameHead (n n' : Node) : Type 0 where
  pub expanding : is_expanding n'.version ≡ is_expanding n.version
  pub old : is_old n'.version ≡ is_old n.version
  pub offset : get_offset n'.version ≡ get_offset n.version
  pub prefix_len : get_prefix_len n'.version ≡ get_prefix_len n.version

pub SameHead-refl : (n : Node) → SameHead n n
SameHead-refl n = record { expanding = refl; old = refl; offset = refl; prefix_len = refl }

pub record Keeps (s s' : Store) (routes routes' : ℕ → Route) : Type 0 where
  pub leaves : SameLeaves s s'
  pub nodes :
      (an : ℕ) (n : Node)
      → s.node an ≡ some n
      → is_old n.version ≡ false
      → (n' : Node) × (s'.node an ≡ some n')
        × SameHead n n'
        × ((j : ℕ) → routes' an j ≡ routes an j)

pub Keeps-refl : (s : Store) (routes : ℕ → Route) → Keeps s s routes routes
Keeps-refl s routes = record {
  leaves = λ an leaf there. (leaf, there, refl, refl);
  nodes = λ an n there current. (n, there, SameHead-refl n, λ j. refl);
}

pub IsAt-Keeps :
    (s s' : Store) (len : ℕ) (routes routes' : ℕ → Route) (an off : ℕ) (route : Route)
    → Keeps s s' routes routes'
    → IsAt s len routes an off route
    → IsAt s' len routes' an off route
IsAt-Keeps s s' len routes routes' an off route keeps (inl (outer, l)) =
    let (value, there, size, key) = keeps.leaves an l.value l.there in
    inl (
      outer,
      record {
        value = value;
        there = there;
        size = size ∙ l.size;
        inside = l.inside;
        bytes = λ j h. ap (λ k. get_or k j 0) key ∙ l.bytes j h;
      },
    )
IsAt-Keeps s s' len routes routes' an off route keeps (inr (inner, n)) =
    let (value, there, head, same) = keeps.nodes an n.value n.there n.current in
    inr (
      inner,
      record {
        value = value;
        there = there;
        stable = head.expanding ∙ n.stable;
        current = head.old ∙ n.current;
        offset = head.offset ∙ n.offset;
        inside = omega (arith, head.prefix_len, n.inside);
        bytes = λ j h. same j ∙ n.bytes j h;
      },
    )

pub IsAt-ext :
    (s : Store) (len : ℕ) (routes : ℕ → Route) (an off off' : ℕ) (route route' : Route)
    → off ≡ off'
    → ((j : ℕ) → route j ≡ route' j)
    → IsAt s len routes an off route
    → IsAt s len routes an off' route'
IsAt-ext s len routes an off off' route route' e same (inl (outer, l)) = inl (
  outer,
  record {
    value = l.value;
    there = l.there;
    size = l.size;
    inside = omega (arith, l.inside);
    bytes = λ j h. l.bytes j (omega arith) ∙ same j;
  },
)
IsAt-ext s len routes an off off' route route' e same (inr (inner, n)) = inr (
  inner,
  record {
    value = n.value;
    there = n.there;
    stable = n.stable;
    current = n.current;
    offset = n.offset ∙ e;
    inside = omega (arith, n.inside);
    bytes = λ j h. n.bytes j (omega arith) ∙ same j;
  },
)

pub through-SameHead :
    (route route' : Route) (n n' : Node) (byte j : ℕ)
    → SameHead n n'
    → n'.prefix ≡ n.prefix
    → route' j ≡ route j
    → through route n byte j ≡ through route' n' byte j
through-SameHead route route' n n' byte j head prefix same =
    sym (rw (head.offset, head.prefix_len, prefix, same) refl)

-- A child of a node after a change: one that the node had, or a new one in its place.
pub data IsChild (s s' : Store) (len : ℕ) (routes routes' : ℕ → Route) (x : ℕ) (n' : Node)
    (byte child : ℕ) : Type 0 where
  kept :
      (n : Node) (slot : ℕ)
      → s.node x ≡ some n
      → is_old n.version ≡ false
      → find_child n n.version byte ≡ some slot
      → get_or n.child slot 0 ≡ child
      → SameHead n n'
      → n'.prefix ≡ n.prefix
      → ((j : ℕ) → routes' x j ≡ routes x j)
      → IsChild s s' len routes routes' x n' byte child
  put :
      IsAt s' len routes' child (below_offset n') (through (routes' x) n' byte)
      → IsChild s s' len routes routes' x n' byte child

IsChild-IsAt :
    (s s' : Store) (len : ℕ) (routes routes' : ℕ → Route) (x : ℕ) (n' : Node) (byte child : ℕ)
    → IsTree s len routes
    → Keeps s s' routes routes'
    → byte < 256
    → IsChild s s' len routes routes' x n' byte child
    → IsAt s' len routes' child (below_offset n') (through (routes' x) n' byte)
IsChild-IsAt s s' len routes routes' x n' byte child tree keeps range (put p) = p
IsChild-IsAt s s' len routes routes' x n' byte child tree keeps range
      (kept n slot there current found_slot same head prefix route) =
    let o : below_offset n ≡ below_offset n' = omega (arith, head.offset, head.prefix_len) in
    let at =
      IsAt-Keeps s s' len routes routes' (get_or n.child slot 0) (below_offset n)
        (through (routes x) n byte) keeps
        (tree.children x byte slot n there current range found_slot) in
    subst (λ c. IsAt s' len routes' c (below_offset n') (through (routes' x) n' byte)) same
      (IsAt-ext s' len routes' (get_or n.child slot 0) (below_offset n) (below_offset n')
        (through (routes x) n byte) (through (routes' x) n' byte) o
        (λ j. through-SameHead (routes x) (routes' x) n n' byte j head prefix (route j)) at)

-- A change keeps a tree, if each child afterwards is one that was there or is a place itself.
pub IsTree-change :
    (s s' : Store) (len : ℕ) (routes routes' : ℕ → Route)
    → IsTree s len routes
    → Keeps s s' routes routes'
    → s'.node 0 ≡ none
    → (s'.root ≡ 0) ⊎ IsAt s' len routes' s'.root 0 (λ j. 0)
    → ((x byte slot : ℕ) (n' : Node)
        → s'.node x ≡ some n'
        → is_old n'.version ≡ false
        → byte < 256
        → find_child n' n'.version byte ≡ some slot
        → IsChild s s' len routes routes' x n' byte (get_or n'.child slot 0))
    → IsTree s' len routes'
IsTree-change s s' len routes routes' tree keeps null start children = record {
  null = null;
  start = start;
  children = λ x byte slot n' there current range found_slot.
      IsChild-IsAt s s' len routes routes' x n' byte (get_or n'.child slot 0) tree keeps range
        (children x byte slot n' there current range found_slot);
}
