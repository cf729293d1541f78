-- ===== src/Art/Tree/First.antt =====
-- `adaptive_radix_tree_put` into an empty tree.
use sidle.Base.{
  ℕ, ◌<◌, ◌≡◌, inl, inr, refl, sym, ap, ◌∙◌, List, true, false, none, some, ◌==◌, ==_iff,
  Bool-cases, arith,
}
use sidle.Art.Tree.{Store, found, adaptive_radix_tree_get}
use sidle.Art.Tree.Invariant.{Route, IsAt, IsTree, Holds, here}
use sidle.Art.Tree.Change.{SameLeaves, SameHead-refl, Keeps, IsAt-Keeps}
use sidle.Art.Tree.Get.{adaptive_radix_tree_get-Holds}
use sidle.Art.Tree.Split.{Memory, stored, new_leaf, write_leaf, write_place}
use sidle.Art.Tree.Split.After.{IsFresh, get_leaf_len-new_leaf}
use sidle.Art.Tree.Split.Leaves.{Holds-leaf}
use sidle.Art.Tree.Put.{adaptive_radix_tree_put}

module _ (s : Store) (mem : Memory) (len : ℕ) (routes : ℕ → Route) (key : List ℕ)
    (tree : IsTree s len routes) (fresh : IsFresh s mem) (empty : s.root ≡ 0)
    (small : len < 128) where
  abbrev store : Store
  store = record (write_leaf s mem.leaf_at (new_leaf mem key len)) { root = mem.leaf_at }

  leaf_new : store.leaf mem.leaf_at ≡ some (new_leaf mem key len)
  unfolding write_leaf
  leaf_new = let e : mem.leaf_at == mem.leaf_at ≡ true = (==_iff _ _).1 refl in rw e refl

  SameLeaves-first : SameLeaves s store
  unfolding write_leaf
  SameLeaves-first x l there =
      let other : x == mem.leaf_at ≡ false = elim (Bool-cases (x == mem.leaf_at)) [
        | inl e ↦
            let k : some l ≡ none =
              sym there ∙ ap s.leaf ((==_iff x mem.leaf_at).0 e) ∙ fresh.leaf in
            cc
        | inr e ↦ e
      ] in
      (l, rw other there, refl, refl)

  Keeps-first : Keeps s store routes routes
  unfolding write_leaf
  Keeps-first = record {
    leaves = SameLeaves-first;
    nodes = λ x n there current. (n, there, SameHead-refl n, λ j. refl);
  }

  start : IsAt store len routes mem.leaf_at 0 (λ j. 0)
  start = inl (
    fresh.tagged,
    record {
      value = new_leaf mem key len;
      there = leaf_new;
      size = get_leaf_len-new_leaf mem key len small;
      inside = omega arith;
      bytes = λ j h. absurd (omega arith);
    },
  )

  IsTree-first : IsTree store len routes
  unfolding write_leaf
  IsTree-first = record {
    null = tree.null;
    start = inr start;
    children = λ x b slot n there current range child.
        IsAt-Keeps s store len routes routes _ _ _ Keeps-first
          (tree.children x b slot n there current range child);
  }

  -- In an empty tree of keys of one length below 128, where `sidle_alloc` gives fresh memory and a
  -- search has more fuel than the length: the call returns 0 and leaves a tree with one leaf, which a
  -- search with the key finds.
  adaptive_radix_tree_put-first :
      (fuel : ℕ)
      → len < fuel
      → (s' : Store) × (adaptive_radix_tree_put fuel s mem key len ≡ stored s')
        × IsTree s' len routes
        × ((a : ℕ) → Holds s' s'.root a → s'.root ≡ a)
        × ((adaptive_radix_tree_get fuel s' key len).0 ≡ found mem.leaf_at)
  unfolding adaptive_radix_tree_put write_place new_leaf
  adaptive_radix_tree_put-first fuel enough =
      let no_root : s.root == 0 ≡ true = (==_iff s.root 0).1 empty in
      (
        store,
        rw no_root refl,
        IsTree-first,
        λ a. Holds-leaf store mem.leaf_at a fresh.tagged,
        adaptive_radix_tree_get-Holds store len fuel routes mem.leaf_at (new_leaf mem key len) key
            IsTree-first enough (here fresh.tagged refl) leaf_new (λ j h. refl),
      )
