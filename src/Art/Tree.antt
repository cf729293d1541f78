-- ===== src/Art/Tree.antt =====
-- The walks of third_party/art/art.cc over the nodes in memory, by a thread that no other disturbs: a
-- version that is read again is the same. A wait for a bit that stays, and a retry of a step that
-- would go the same way again, is `stuck`; a pointer that leads nowhere is `fault`.
pub mod Invariant
pub mod Change
pub mod Compare
pub mod Search
pub mod Get
pub mod Split
pub mod Put
pub mod Path
pub mod Filled
pub mod Beside
pub mod Added
pub mod Existed
pub mod First
pub mod Insert
use sidle.Base.{
  ℕ, zero, suc, ◌+◌, ◌-◌, ◌%◌, List, Bool, true, false, ◌&&◌, Option, none, some, ltb, ◌==◌,
  if◌then◌else◌, get_or,
}
use sidle.Meta.{update_access}
use sidle.Art.Version.{get_offset, get_prefix_len, is_old, is_expanding}
use sidle.Art.Node.{Node, find_child}
use sidle.Art.Prefix.{prefix_compare}
use sidle.Art.Leaf.{LeafNode, get_leaf_len}

-- The memory of the nodes and of the leaves, by the pointers to them, and the root; 0 is null.
pub record Store : Type 0 where
  pub node : ℕ → Option Node
  pub leaf : ℕ → Option LeafNode
  pub root : ℕ

-- `is_leaf`
abbrev pub is_leaf : ℕ → Bool
is_leaf an = an % 2 == 1

-- `for (i = off; i < l1 && i < l2 && k1[i] == k2[i]; ++i)`, where `n` is `l1 - off`
unfoldable pub match_loop : ℕ → ℕ → List ℕ → List ℕ → ℕ → ℕ
match_loop zero i k1 k2 l2 = i
match_loop (suc n) i k1 k2 l2 =
    let rest = match_loop n (i + 1) k1 k2 l2 in
    if ltb i l2 && (get_or k1 i 0 == get_or k2 i 0) then rest else i

-- Whether the key of a leaf is the key, from `off` on.
unfoldable pub same_key : LeafNode → List ℕ → ℕ → ℕ → Bool
unfolding match_loop get_leaf_len
same_key leaf key len off =
    let l1 = get_leaf_len leaf in
    let i = match_loop (l1 - off) off leaf.key key len in i == l1 && i == len

-- The answer of a search: the leaf, or that there is none.
pub data Found : Type 0 where
  found : ℕ → Found
  missing stuck fault : Found

unfoldable pub search_leaf : ℕ → Option LeafNode → List ℕ → ℕ → ℕ → Found
search_leaf an none key len off = fault
search_leaf an (some leaf) key len off = if same_key leaf key len off then found an else missing

-- The byte that leads on, and by how much `off` grows with it.
abbrev pub next_byte : List ℕ → ℕ → ℕ → ℕ
next_byte key len off = if off == len then 0 else get_or key off 0

abbrev pub advance : ℕ → ℕ → ℕ
advance len off = if off == len then 0 else 1

-- What `_adaptive_radix_tree_get` does at an inner node; `descend` is its call for a child.
unfoldable pub search_node : Node → List ℕ → ℕ → ℕ → (ℕ → ℕ → Found) → Found
search_node an key len off descend =
    let v = an.version in
    let p = prefix_compare an v key len off in
    let off' = off + get_prefix_len v in
    if is_expanding v
    then stuck
    else if get_offset v == off
    then if is_old v
      then stuck
      else if p == get_prefix_len v
      then elim (find_child an v (next_byte key len off')) [
        | none ↦ missing
        | some slot ↦ descend (get_or an.child slot 0) (off' + advance len off')
      ]
      else missing
    else stuck

-- `_adaptive_radix_tree_get`, on fuel for the calls down the tree; without it the search is stuck.
unfoldable pub search_tree : ℕ → Store → ℕ → List ℕ → ℕ → ℕ → Found
search_tree zero s an key len off = stuck
search_tree (suc fuel) s an key len off =
    let descend = λ (child off' : ℕ). search_tree fuel s child key len off' in
    if is_leaf an
    then search_leaf an (s.leaf an) key len off
    else elim (s.node an) [ none ↦ fault | some n ↦ search_node n key len off descend ]

-- A leaf that is found counts the access.
abbrev pub touch : Found → Store → Store
touch (found a) s = record s {
  leaf = λ b.
      if b == a
      then elim (s.leaf a) [
        | none ↦ none
        | some leaf ↦ some (record leaf { sidle_meta = update_access leaf.sidle_meta })
      ]
      else s.leaf b;
}
touch missing s = s
touch stuck s = s
touch fault s = s

-- `adaptive_radix_tree_get`
unfoldable pub adaptive_radix_tree_get : ℕ → Store → List ℕ → ℕ → Found × Store
adaptive_radix_tree_get fuel s key len =
    if s.root == 0
    then (missing, s)
    else let r = search_tree fuel s s.root key len 0 in (r, touch r s)
