-- ===== src/Art/Tree/Invariant.antt =====
-- What the nodes in memory keep to, as a tree whose keys have all one length.
use sidle.Base.{
  ℕ, ◌+◌, ◌-◌, ◌<◌, ◌≤◌, ◌≡◌, ◌⊎◌, List, true, false, none, some, ltb, if◌then◌else◌, get_or,
}
use sidle.Art.Version.{get_offset, get_prefix_len, is_old, is_expanding}
use sidle.Art.Node.{Node, find_child}
use sidle.Art.Leaf.{LeafNode, get_leaf_len}
use sidle.Art.Tree.{Store, is_leaf}

-- The bytes that lead to a place; those from its offset on do not matter.
abbrev pub Route : Type 0
Route = ℕ → ℕ

-- A key that leads to a place at the offset `off`.
abbrev pub Follows : List ℕ → Route → ℕ → Type 0
Follows key route off = (j : ℕ) → j < off → get_or key j 0 ≡ route j

-- The way to a child: to the node, along its prefix, and by a byte.
abbrev pub through : Route → Node → ℕ → Route
through route n byte j =
    if ltb j (get_offset n.version)
    then route j
    else if ltb j (get_offset n.version + get_prefix_len n.version)
    then get_or n.prefix (j - get_offset n.version) 0
    else byte

-- Where the children of a node compare on
abbrev pub below_offset : Node → ℕ
below_offset n = get_offset n.version + get_prefix_len n.version + 1

module _ (s : Store) (len : ℕ) (routes : ℕ → Route) where
  pub record IsLeafAt (an off : ℕ) (route : Route) : Type 0 where
    pub value : LeafNode
    pub there : s.leaf an ≡ some value
    pub size : get_leaf_len value ≡ len
    pub inside : off ≤ len
    pub bytes : Follows value.key route off

  pub record IsNodeAt (an off : ℕ) (route : Route) : Type 0 where
    pub value : Node
    pub there : s.node an ≡ some value
    pub stable : is_expanding value.version ≡ false
    pub current : is_old value.version ≡ false
    pub offset : get_offset value.version ≡ off
    pub inside : off + get_prefix_len value.version < len
    pub bytes : (j : ℕ) → j < off → routes an j ≡ route j

  -- What a pointer points to.
  abbrev pub IsAt : ℕ → ℕ → Route → Type 0
  IsAt an off route =
      ((is_leaf an ≡ true) × IsLeafAt an off route) ⊎ ((is_leaf an ≡ false) × IsNodeAt an off route)

  -- Each node in use has its route, which goes on to its children.
  pub record IsTree : Type 0 where
    pub null : s.node 0 ≡ none
    pub start : (s.root ≡ 0) ⊎ IsAt s.root 0 (λ j. 0)
    pub children :
        (an byte slot : ℕ) (n : Node)
        → s.node an ≡ some n
        → is_old n.version ≡ false
        → byte < 256
        → find_child n n.version byte ≡ some slot
        → IsAt (get_or n.child slot 0) (below_offset n) (through (routes an) n byte)

-- The leaves below a pointer.
pub data Holds (s : Store) : ℕ → ℕ → Type 0 where
  here : {an a : ℕ} → is_leaf an ≡ true → an ≡ a → Holds s an a
  below :
      {an a : ℕ} (n : Node) (byte slot : ℕ)
      → is_leaf an ≡ false
      → s.node an ≡ some n
      → byte < 256
      → find_child n n.version byte ≡ some slot
      → Holds s (get_or n.child slot 0) a
      → Holds s an a
