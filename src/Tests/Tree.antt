-- ===== src/Tests/Tree.antt =====
-- The theorems on the radix tree at a tree of two keys.
use sidle.Base.{
  ℕ, zero, suc, ◌+◌, ◌*◌, ◌^◌, ◌<◌, ◌≡◌, ◌⊎◌, List, [], ◌∷◌, inl, inr, none, some, refl, subst,
  arith, ◌==◌, ==_iff, Bool-cases, if◌then◌else◌, get_or, replicate,
}
use sidle.Meta.{local, remote, node_metadata, leaf_metadata}
use sidle.Art.Version.{
  get_count, get_node_type, get_prefix_len, get_offset, is_old, is_expanding, is_locked,
}
use sidle.Art.Node.{Node, find_key, find_child, is_full}
use sidle.Art.Leaf.{LeafNode, get_leaf_len}
use sidle.Art.Tree.{Store, is_leaf, Found, found, touch, adaptive_radix_tree_get}
use sidle.Art.Tree.Invariant.{through, below_offset, IsAt, IsTree, Holds, here, below}
use sidle.Art.Tree.Compare.{SameBytes}
use sidle.Art.Tree.Split.{Memory, stored, existed}
use sidle.Art.Tree.Split.After.{IsFresh}
use sidle.Art.Tree.Put.{adaptive_radix_tree_put}
use sidle.Art.Tree.Path.{itself}
use sidle.Art.Tree.Insert.{adaptive_radix_tree_put-IsTree, adaptive_radix_tree_put-get}
use sidle.Art.Tree.Added.{adaptive_radix_tree_put-adds}
use sidle.Art.Tree.Existed.{adaptive_radix_tree_put-existed}
use sidle.Art.Tree.Get.{IsAnswer, adaptive_radix_tree_get-IsAnswer}

-- Two leaves under a `node4`, which has their first byte as its prefix.
abbrev top : Node
top = record {
  version = 2 * 2 ^ 40 + 2 ^ 32;
  prefix = 10 ∷ replicate 7 0;
  new_ = 0;
  parent = 0;
  sidle_meta = node_metadata local 1;
  key = 20 ∷ 30 ∷ 0 ∷ 0 ∷ [];
  index = [];
  child = 1001 ∷ 1003 ∷ 0 ∷ 0 ∷ [];
}

abbrev leaf_of : ℕ → LeafNode
leaf_of byte = record {
  key_length = 3;
  sidle_meta = leaf_metadata remote 2 0;
  key = 10 ∷ byte ∷ 5 ∷ [];
}

abbrev two_keys : Store
two_keys = record {
  node = λ a. if a == 2048 then some top else none;
  leaf =
      λ a. if a == 1001 then some (leaf_of 20) else if a == 1003 then some (leaf_of 30) else none;
  root = 2048;
}

abbrev no_routes : ℕ → ℕ → ℕ
no_routes a j = 0

follows_top :
    (byte second : ℕ)
    → second ≡ byte
    → (j : ℕ) → j < 2
    → get_or (10 ∷ second ∷ 5 ∷ []) j 0 ≡ through (no_routes 2048) top byte j
unfolding get_offset get_prefix_len
follows_top byte second e zero h = refl
follows_top byte second e (suc zero) h = e
follows_top byte second e (suc (suc j)) h = absurd (omega arith)

below_top :
    (byte slot : ℕ)
    → find_child top top.version byte ≡ some slot
    → IsAt two_keys 3 no_routes
        (get_or top.child slot 0)
        (below_offset top)
        (through (no_routes 2048) top byte)
unfolding find_child find_key get_node_type get_count get_offset get_prefix_len get_leaf_len
below_top byte slot h = elim (Bool-cases (20 == byte)) [
  | inl e ↦
      let first : 0 ≡ slot = ground arith in
      subst
        (λ c.
          IsAt two_keys 3 no_routes (get_or top.child c 0) 2 (through (no_routes 2048) top byte))
        first
        (inl (
          refl,
          record {
            value = leaf_of 20;
            there = refl;
            size = refl;
            inside = omega arith;
            bytes = follows_top byte 20 ((==_iff 20 byte).0 e);
          },
        ))
  | inr e ↦ elim (Bool-cases (30 == byte)) [
    | inl f ↦
        let second : 1 ≡ slot = ground arith in
        subst
          (λ c.
            IsAt two_keys 3 no_routes (get_or top.child c 0) 2 (through (no_routes 2048) top byte))
          second
          (inl (
            refl,
            record {
              value = leaf_of 30;
              there = refl;
              size = refl;
              inside = omega arith;
              bytes = follows_top byte 30 ((==_iff 30 byte).0 f);
            },
          ))
    | inr f ↦ absurd (ground arith)
  ]
]

two_keys-IsTree : IsTree two_keys 3 no_routes
unfolding get_offset get_prefix_len is_old is_expanding
two_keys-IsTree = record {
  null = refl;
  start = inr (
      inr (
        refl,
        record {
          value = top;
          there = refl;
          stable = refl;
          current = refl;
          offset = refl;
          inside = omega arith;
          bytes = λ j h. refl;
        },
      ));
  children = λ an byte slot n there current range child. elim (Bool-cases (an == 2048)) [
    | inl e ↦
        let one : top ≡ n = ground arith in
        subst
          (λ m.
            find_child m m.version byte ≡ some slot
            → IsAt two_keys 3 no_routes (get_or m.child slot 0) (below_offset m)
                (through (no_routes an) m byte))
          one (below_top byte slot) child
    | inr e ↦ absurd (ground arith)
  ];
}

small_keys : (j : ℕ) → get_or (10 ∷ 30 ∷ 5 ∷ []) j 0 < 256
small_keys zero = omega arith
small_keys (suc zero) = omega arith
small_keys (suc (suc zero)) = omega arith
small_keys (suc (suc (suc j))) = omega arith

adaptive_radix_tree_get-IsAnswer_example :
    let (r, s') = adaptive_radix_tree_get 4 two_keys (10 ∷ 30 ∷ 5 ∷ []) 3 in
    IsAnswer two_keys 3 (10 ∷ 30 ∷ 5 ∷ []) 2048 r × IsTree s' 3 no_routes
adaptive_radix_tree_get-IsAnswer_example =
    adaptive_radix_tree_get-IsAnswer two_keys 3 4 no_routes (10 ∷ 30 ∷ 5 ∷ []) two_keys-IsTree
      (omega arith) small_keys

get_second : (adaptive_radix_tree_get 4 two_keys (10 ∷ 30 ∷ 5 ∷ []) 3).0 ≡ found 1003
unfolding adaptive_radix_tree_get sidle.Art.Tree.search_tree sidle.Art.Tree.search_node
    sidle.Art.Tree.search_leaf sidle.Art.Tree.same_key sidle.Art.Prefix.prefix_compare
    sidle.Art.Prefix.compare_loop find_child find_key get_offset get_prefix_len get_node_type
    get_count is_old is_expanding
get_second = refl

-- A third key, which has two bytes from the first one
abbrev third : List ℕ
third = 10 ∷ 20 ∷ 7 ∷ []

abbrev fresh_memory : Memory
fresh_memory = record {
  leaf_at = 1005;
  leaf_meta = leaf_metadata remote 2 0;
  node_at = 4096;
  raw = record {
    version = 0;
    prefix = replicate 8 0;
    new_ = 0;
    parent = 0;
    sidle_meta = node_metadata local 2;
    key = replicate 4 0;
    index = [];
    child = replicate 4 0;
  };
}

fresh_memory-IsFresh : IsFresh two_keys fresh_memory
fresh_memory-IsFresh = record {
  leaf = refl;
  tagged = refl;
  node = refl;
  aligned = refl;
  not_null = omega arith;
  prefix = refl;
  keys = refl;
  child = refl;
}

third_follows : (j : ℕ) → j < 2 → get_or third j 0 ≡ through (no_routes 2048) top 20 j
unfolding get_offset get_prefix_len
third_follows zero h = refl
third_follows (suc zero) h = refl
third_follows (suc (suc j)) h = absurd (omega arith)

adaptive_radix_tree_put-IsTree_example :
    (s' : Store) × (adaptive_radix_tree_put 4 two_keys fresh_memory third 3 ≡ stored s')
    × ((routes' : ℕ → ℕ → ℕ) × IsTree s' 3 routes')
    × ((a : ℕ) → Holds two_keys 2048 a → Holds s' s'.root a)
    × Holds s' s'.root 1005
    × ((a : ℕ) → Holds s' s'.root a → Holds two_keys 2048 a ⊎ (a ≡ 1005))
unfolding get_offset get_prefix_len get_node_type get_count find_child find_key is_locked
adaptive_radix_tree_put-IsTree_example =
    adaptive_radix_tree_put-IsTree two_keys fresh_memory 3 4 no_routes 2048 0 1001 20 2 top
      (leaf_of 20) third two_keys-IsTree fresh_memory-IsFresh (itself refl refl) refl refl
      (refl, refl, omega arith) (omega arith) refl refl refl refl (omega arith) third_follows
      (omega arith) (omega arith) (omega arith) (λ j low high. absurd (omega arith)) (omega arith)
      (omega arith) (omega arith) (omega arith)

adaptive_radix_tree_put-get_example :
    (s' : Store) × (adaptive_radix_tree_put 4 two_keys fresh_memory third 3 ≡ stored s')
    × ((adaptive_radix_tree_get 4 s' third 3).0 ≡ found 1005)
    × ((a : ℕ) (old : LeafNode) (other : List ℕ)
        → Holds two_keys 2048 a
        → two_keys.leaf a ≡ some old
        → SameBytes old.key other 3
        → (adaptive_radix_tree_get 4 s' other 3).0 ≡ found a)
unfolding get_offset get_prefix_len get_node_type get_count find_child find_key is_locked
adaptive_radix_tree_put-get_example =
    adaptive_radix_tree_put-get two_keys fresh_memory 3 4 no_routes 2048 0 1001 20 2 top
      (leaf_of 20) third two_keys-IsTree fresh_memory-IsFresh (itself refl refl) refl refl
      (refl, refl, omega arith) (omega arith) refl refl refl refl (omega arith) third_follows
      (omega arith) (omega arith) (omega arith) (λ j low high. absurd (omega arith)) (omega arith)
      (omega arith) (omega arith) (omega arith)

-- A key with another second byte
abbrev beside : List ℕ
beside = 10 ∷ 40 ∷ 1 ∷ []

beside_follows : (j : ℕ) → j < 2 → get_or beside j 0 ≡ through (no_routes 2048) top 40 j
unfolding get_offset get_prefix_len
beside_follows zero h = refl
beside_follows (suc zero) h = refl
beside_follows (suc (suc j)) h = absurd (omega arith)

adaptive_radix_tree_put-adds_example :
    (s' : Store) × (adaptive_radix_tree_put 4 two_keys fresh_memory beside 3 ≡ stored s')
    × IsTree s' 3 no_routes
    × ((a : ℕ) → Holds two_keys 2048 a → Holds s' s'.root a)
    × ((a : ℕ) → Holds s' s'.root a → Holds two_keys 2048 a ⊎ (a ≡ 1005))
    × Holds s' s'.root 1005
    × ((adaptive_radix_tree_get 4 s' beside 3).0 ≡ found 1005)
    × ((a : ℕ) (old : LeafNode) (other : List ℕ)
        → Holds two_keys 2048 a
        → two_keys.leaf a ≡ some old
        → SameBytes old.key other 3
        → (adaptive_radix_tree_get 4 s' other 3).0 ≡ found a)
unfolding get_offset get_prefix_len get_node_type get_count find_child find_key is_locked is_full
adaptive_radix_tree_put-adds_example =
    adaptive_radix_tree_put-adds two_keys fresh_memory 3 4 2048 40 no_routes top beside
      two_keys-IsTree fresh_memory-IsFresh (itself refl refl) refl refl
      (omega arith, (refl, refl, omega arith)) (omega arith) refl refl beside_follows (omega arith)
      (omega arith)

-- The key of the first leaf
abbrev first : List ℕ
first = 10 ∷ 20 ∷ 5 ∷ []

two_keys-Holds : Holds two_keys 2048 1001
unfolding find_child find_key get_node_type get_count
two_keys-Holds = below top 20 0 refl refl (omega arith) refl (here refl refl)

adaptive_radix_tree_put-existed_example :
    (adaptive_radix_tree_put 4 two_keys fresh_memory first 3
      ≡ existed (touch (found 1001) two_keys))
    × IsTree (touch (found 1001) two_keys) 3 no_routes
unfolding get_offset
adaptive_radix_tree_put-existed_example =
    adaptive_radix_tree_put-existed two_keys fresh_memory 3 no_routes two_keys-IsTree 1001
      (leaf_of 20) first refl (λ j h. refl) 4 (omega arith) two_keys-Holds
