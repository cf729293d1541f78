-- ===== src/Art/Tree/Split/Slot.antt =====
-- The memory after a leaf below a node is split.
use sidle.Base.{
  ℕ, ◌-◌, ◌<◌, ◌≡◌, ◌≢◌, refl, ap, ◌∙◌, List, true, false, ◌&&◌, some, ◌==◌, ==_iff, set, arith,
}
use sidle.Art.Version.{is_locked, is_old, is_expanding, set_lock, unlock}
use sidle.Art.Version.Lock.{unlock-set_lock, try_lock-free}
use sidle.Art.Node.{Node}
use sidle.Art.Leaf.{LeafNode, get_leaf_len}
use sidle.Art.Tree.{Store, match_loop}
use sidle.Art.Tree.Split.{
  Memory, at_slot, write_node, write_place, stored, split_leaf, with_split, lock_parent,
  unlock_parent, replace_leaf,
}

pub write_node_self : (s : Store) (a : ℕ) (n : Node) → (write_node s a n).node a ≡ some n
unfolding write_node
write_node_self s a n = let e : a == a ≡ true = (==_iff a a).1 refl in rw e refl

pub write_node_ne : (s : Store) (a x : ℕ) (n : Node) → x ≢ a → (write_node s a n).node x ≡ s.node x
unfolding write_node
write_node_ne s a x n h = let e : x == a ≡ false = ground arith in rw e refl

-- The node above takes the new node as its child.
abbrev pub with_child : Node → ℕ → ℕ → Node
with_child p slot a = record p { child = set p.child slot a }

pub write_slot :
    (s : Store) (q slot a : ℕ) (p : Node)
    → s.node q ≡ some p
    → write_place s (at_slot q slot) a ≡ write_node s q (with_child p slot a)
unfolding write_place
write_slot s q slot a p there = rw (there, write_place) refl

unlock_parent_lem :
    (s : Store) (q : ℕ) (p : Node)
    → s.node q ≡ some p
    → unlock_parent s q ≡ write_node s q (record p { version = unlock p.version })
unfolding unlock_parent
unlock_parent_lem s q p there = rw (there, unlock_parent) refl

lock_parent_lem :
    (s : Store) (q : ℕ) (p : Node)
    → (q == 0) ≡ false
    → s.node q ≡ some p
    → is_locked p.version ≡ false
    → is_old p.version ≡ false
    → lock_parent s q ≡ some (write_node s q (record p { version = set_lock p.version }))
unfolding lock_parent
lock_parent_lem s q p some_q there free current =
    rw (some_q, there, try_lock-free p.version free current, lock_parent) refl

module _ (s : Store) (q slot a : ℕ) (p : Node) where
  -- The memory after the node above is locked, gets the child and is unlocked.
  pub with_slot : Store
  with_slot =
      write_node
        (write_node (write_node s q (record p { version = set_lock p.version })) q
          (with_child (record p { version = set_lock p.version }) slot a))
        q (with_child p slot a)

  pub with_slot_self : with_slot.node q ≡ some (with_child p slot a)
  unfolding with_slot
  with_slot_self = write_node_self _ q (with_child p slot a)

  pub with_slot_ne : (x : ℕ) → x ≢ q → with_slot.node x ≡ s.node x
  unfolding with_slot
  with_slot_ne x h = write_node_ne _ q x _ h ∙ write_node_ne _ q x _ h ∙ write_node_ne s q x _ h

  pub with_slot_leaf : (x : ℕ) → with_slot.leaf x ≡ s.leaf x
  unfolding with_slot write_node
  with_slot_leaf x = refl

  pub with_slot_root : with_slot.root ≡ s.root
  unfolding with_slot write_node
  with_slot_root = refl

  pub hang_slot :
      is_locked p.version ≡ false
      → is_expanding p.version ≡ false
      → unlock_parent
          (write_place
            (write_node s q (record p { version = set_lock p.version }))
            (at_slot q slot)
            a)
          q
        ≡ with_slot
  unfolding with_slot
  hang_slot free stable =
      let p1 = record p { version = set_lock p.version } in
      let s1 = write_node s q p1 in
      ap (λ x. unlock_parent x q) (write_slot s1 q slot a p1 (write_node_self s q p1))
      ∙ unlock_parent_lem (write_node s1 q (with_child p1 slot a)) q (with_child p1 slot a)
          (write_node_self s1 q (with_child p1 slot a))
      ∙ ap
          (λ v.
            write_node (write_node s1 q (with_child p1 slot a)) q
              (record p { child = set p.child slot a; version = v }))
          (unlock-set_lock p.version free stable)

pub replace_leaf_slot :
    (s : Store) (mem : Memory) (q slot an : ℕ) (p n : Node) (leaf : LeafNode) (key : List ℕ)
    (len off i : ℕ)
    → q ≢ 0
    → match_loop (get_leaf_len leaf - off) off leaf.key key len ≡ i
    → i < len
    → split_leaf mem q an leaf key len off i ≡ some n
    → (with_split s mem an leaf key len n).node q ≡ some p
    → is_locked p.version ≡ false
    → is_old p.version ≡ false
    → is_expanding p.version ≡ false
    → replace_leaf s mem q (at_slot q slot) an leaf key len off
      ≡ stored (with_slot (with_split s mem an leaf key len n) q slot mem.node_at p)
unfolding replace_leaf
replace_leaf_slot s mem q slot an p n leaf key len off i above at_i inside made there free current
      stable =
    let s1 = with_split s mem an leaf key len n in
    let some_q : q == 0 ≡ false = ground arith in
    let not_end : (i == get_leaf_len leaf && i == len) ≡ false = ground arith in
    rw (at_i, not_end, made, lock_parent_lem s1 q p some_q there free current, some_q)
      (ap stored (hang_slot s1 q slot mem.node_at p free stable))
