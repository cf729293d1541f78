-- ===== src/Art/Tree/Beside.antt =====
-- The memory after a node takes a new leaf in a free slot, and what that leaves of the tree.
use sidle.Base.{
  ℕ, ◌+◌, ◌<◌, ◌≡◌, ◌≢◌, ◌⊎◌, inl, inr, refl, sym, ap, subst, ◌∙◌, List, true, false, none, some,
  ◌==◌, ==_iff, if◌then◌else◌, get_or, Bool-cases, Option-cases, arith,
}
use sidle.Art.Version.{get_offset, get_prefix_len, is_locked, is_old, is_expanding}
use sidle.Art.Node.{Node, find_child, child_of, is_full}
use sidle.Art.Node.Insert.{IsNode}
use sidle.Art.Tree.{Store, is_leaf}
use sidle.Art.Tree.Invariant.{
  Route, Follows, through, below_offset, IsAt, IsTree, Holds, here, below,
}
use sidle.Art.Tree.Change.{
  SameLeaves, SameHead, SameHead-refl, Keeps, IsAt-Keeps, IsChild, kept, put, IsTree-change,
  through-SameHead,
}
use sidle.Art.Tree.Search.{IsNodeAt-value}
use sidle.Art.Tree.Split.{Memory, new_leaf, write_node, write_leaf}
use sidle.Art.Tree.Split.Slot.{write_node_self, write_node_ne}
use sidle.Art.Tree.Split.After.{IsFresh, get_leaf_len-new_leaf}
use sidle.Art.Tree.Split.Leaves.{Holds-leaf}
use sidle.Art.Tree.Path.{Reaches, itself, along}
use sidle.Art.Tree.Filled.{
  filled_node, SameHead-filled_node, prefix-filled_node, child_of-filled_node,
}

-- The memory afterwards
abbrev pub added_store : Store → Memory → ℕ → ℕ → ℕ → Node → List ℕ → Store
added_store s mem len q byte p key =
    write_node (write_leaf s mem.leaf_at (new_leaf mem key len)) q (filled_node p byte mem.leaf_at)

module _ (s : Store) (mem : Memory) (len q byte : ℕ) (p : Node) (key : List ℕ) (routes : ℕ → Route)
    (tree : IsTree s len routes) (fresh : IsFresh s mem) (above : s.node q ≡ some p)
    (node : IsNode p) (free : is_locked p.version ≡ false) (stable : is_expanding p.version ≡ false)
    (current : is_old p.version ≡ false) (range : byte < 256) (room : is_full p ≡ false)
    (absent : find_child p p.version byte ≡ none) (small : len < 128)
    (inside : get_offset p.version + get_prefix_len p.version < len)
    (follows : Follows key (through (routes q) p byte) (below_offset p)) where
  abbrev store : Store
  store = added_store s mem len q byte p key

  abbrev p' : Node
  p' = filled_node p byte mem.leaf_at

  at_q : store.node q ≡ some p'
  at_q = write_node_self _ q p'

  at_other : (x : ℕ) → x ≢ q → store.node x ≡ s.node x
  unfolding write_leaf
  at_other x h = write_node_ne (write_leaf s mem.leaf_at (new_leaf mem key len)) q x p' h

  pub leaf_new : store.leaf mem.leaf_at ≡ some (new_leaf mem key len)
  unfolding write_node write_leaf
  leaf_new = let e : mem.leaf_at == mem.leaf_at ≡ true = (==_iff _ _).1 refl in rw e refl

  pub SameLeaves-added : SameLeaves s store
  unfolding write_node write_leaf
  SameLeaves-added x l there =
      let e : x == mem.leaf_at ≡ false = elim (Bool-cases (x == mem.leaf_at)) [
        | inl e ↦
            let k : some l ≡ none =
              sym there ∙ ap s.leaf ((==_iff x mem.leaf_at).0 e) ∙ fresh.leaf in
            cc
        | inr e ↦ e
      ] in
      (l, rw e there, refl, refl)

  head : SameHead p p'
  head = SameHead-filled_node p byte mem.leaf_at node free stable

  Keeps-added : Keeps s store routes routes
  Keeps-added = record {
    leaves = SameLeaves-added;
    nodes = λ x m there current'. elim (Bool-cases (x == q)) [
      | inl e ↦
          let at : x ≡ q = (==_iff x q).0 e in
          let whole : some p ≡ some m = sym above ∙ sym (ap s.node at) ∙ there in
          let one : p ≡ m = cc in
          (p', ap store.node at ∙ at_q, subst (λ y. SameHead y p') one head, λ j. refl)
      | inr e ↦ (m, at_other x (λ k. ground arith) ∙ there, SameHead-refl m, λ j. refl)
    ];
  }

  not_null : mem.leaf_at ≢ 0
  not_null e = let k = ap is_leaf e in let l = fresh.tagged in cc

  -- A byte leads to the new leaf or to what it led to before.
  leads :
      (b slot : ℕ)
      → find_child p' p'.version b ≡ some slot
      → ((byte ≡ b) × (get_or p'.child slot 0 ≡ mem.leaf_at))
        ⊎ ((c : ℕ) × (find_child p p.version b ≡ some c)
            × (get_or p.child c 0 ≡ get_or p'.child slot 0))
  unfolding child_of
  leads b slot h =
      let maps =
        child_of-filled_node p byte mem.leaf_at node free stable b range room absent not_null in
      let value : child_of p' b ≡ some (get_or p'.child slot 0) = rw (h, child_of) refl in
      elim (Bool-cases (byte == b)) [
        | inl e ↦
            let whole : some mem.leaf_at ≡ some (get_or p'.child slot 0) =
              sym (maps ∙ rw e refl) ∙ value in
            inl ((==_iff byte b).0 e, cc)
        | inr e ↦
            let old : child_of p b ≡ some (get_or p'.child slot 0) =
              sym (maps ∙ rw e refl) ∙ value in
            elim (Option-cases (find_child p p.version b)) [
              | inl none_there ↦
                  let gone : child_of p b ≡ none = rw (none_there, child_of) refl in absurd cc
              | inr (c, there) ↦
                  let kept_child : child_of p b ≡ some (get_or p.child c 0) =
                    rw (there, child_of) refl in
                  let whole : some (get_or p.child c 0) ≡ some (get_or p'.child slot 0) =
                    sym kept_child ∙ old in
                  inr (c, there, cc)
            ]
      ]

  same_offset : below_offset p' ≡ below_offset p
  same_offset = omega (arith, head.offset, head.prefix_len)

  leaf_place : IsAt store len routes mem.leaf_at (below_offset p') (through (routes q) p' byte)
  unfolding new_leaf
  leaf_place =
      let prefix = prefix-filled_node p byte mem.leaf_at node free stable in
      inl (
        fresh.tagged,
        record {
          value = new_leaf mem key len;
          there = leaf_new;
          size = get_leaf_len-new_leaf mem key len small;
          inside = omega (arith, same_offset);
          bytes = λ j h.
              follows j (omega (arith, same_offset))
              ∙ through-SameHead (routes q) (routes q) p p' byte j head prefix refl;
        },
      )

  child_q :
      (b slot : ℕ) (n' : Node)
      → store.node q ≡ some n'
      → find_child n' n'.version b ≡ some slot
      → IsChild s store len routes routes q n' b (get_or n'.child slot 0)
  child_q b slot n' there h =
      let prefix = prefix-filled_node p byte mem.leaf_at node free stable in
      let whole : some p' ≡ some n' = sym at_q ∙ there in
      let one : p' ≡ n' = cc in
      subst
        (λ m.
          find_child m m.version b ≡ some slot
          → IsChild s store len routes routes q m b (get_or m.child slot 0))
        one
        (λ g. elim (leads b slot g) [
          | inl (same, at) ↦
              subst (λ c. IsChild s store len routes routes q p' b c) (sym at)
                (subst (λ k. IsChild s store len routes routes q p' k mem.leaf_at) same
                  (put leaf_place))
          | inr (c, old, at) ↦ kept p c above current old at head prefix (λ j. refl)
        ])
        h

  pub IsTree-added : q ≢ 0 → IsTree store len routes
  unfolding write_node write_leaf
  IsTree-added not_zero =
      IsTree-change s store len routes routes tree Keeps-added
        (at_other 0 (λ k. not_zero (sym k)) ∙ tree.null)
        (elim tree.start [
          | inl e ↦ inl e
          | inr at ↦ inr (IsAt-Keeps s store len routes routes s.root 0 (λ j. 0) Keeps-added at)
        ])
        (λ x b slot n' there current' range' h. elim (Bool-cases (x == q)) [
          | inl e ↦
              subst
                (λ y.
                  store.node y ≡ some n'
                  → IsChild s store len routes routes y n' b (get_or n'.child slot 0))
                (sym ((==_iff x q).0 e)) (λ g. child_q b slot n' g h) there
          | inr e ↦
              kept n' slot (sym (at_other x (λ k. ground arith)) ∙ there) current' h refl
                (SameHead-refl n') refl (λ j. refl)
        ])

  slot_of_child :
      (b c : ℕ)
      → child_of p' b ≡ some c
      → (slot : ℕ) × (find_child p' p'.version b ≡ some slot) × (get_or p'.child slot 0 ≡ c)
  unfolding child_of
  slot_of_child b c h = elim (Option-cases (find_child p' p'.version b)) [
    | inl gone ↦ let no_child : child_of p' b ≡ none = rw (gone, child_of) refl in absurd cc
    | inr (slot, there) ↦
        let value : child_of p' b ≡ some (get_or p'.child slot 0) = rw (there, child_of) refl in
        let whole : some (get_or p'.child slot 0) ≡ some c = sym value ∙ h in (slot, there, cc)
  ]

  maps_lem : (b : ℕ) → child_of p' b ≡ (if byte == b then some mem.leaf_at else child_of p b)
  maps_lem b = child_of-filled_node p byte mem.leaf_at node free stable b range room absent not_null

  still :
      (b c : ℕ)
      → find_child p p.version b ≡ some c
      → (slot : ℕ) × (find_child p' p'.version b ≡ some slot)
        × (get_or p'.child slot 0 ≡ get_or p.child c 0)
  unfolding child_of
  still b c there = elim (Bool-cases (byte == b)) [
    | inl e ↦
        let k : find_child p p.version b ≡ none =
          ap (find_child p p.version) (sym ((==_iff byte b).0 e)) ∙ absent in
        absurd cc
    | inr e ↦
        let value : child_of p b ≡ some (get_or p.child c 0) = rw (there, child_of) refl in
        slot_of_child b (get_or p.child c 0) (maps_lem b ∙ rw e value)
  ]

  module _ (inner_q : is_leaf q ≡ false) where
    pub Holds-new : Holds store q mem.leaf_at
    Holds-new =
        let e : byte == byte ≡ true = (==_iff byte byte).1 refl in
        let (slot, there, at) = slot_of_child byte mem.leaf_at (maps_lem byte ∙ rw e refl) in
        below p' byte slot inner_q at_q range there (here (ap is_leaf at ∙ fresh.tagged) at)

    -- Each leaf stays in the tree.
    pub Holds-kept : (x a : ℕ) → Holds s x a → Holds store x a
    Holds-kept x a (here outer e) = here outer e
    Holds-kept x a (below n b c inner there range' child held) =
        let rest = Holds-kept (get_or n.child c 0) a held in
        elim (Bool-cases (x == q)) [
          | inl e ↦
              let at : x ≡ q = (==_iff x q).0 e in
              let whole : some p ≡ some n = sym above ∙ sym (ap s.node at) ∙ there in
              let one : n ≡ p = cc in
              let (slot, there', same) =
                still b c (ap (λ m. find_child m m.version b) (sym one) ∙ child) in
              subst (λ y. Holds store y a) (sym at)
                (below p' b slot inner_q at_q range' there'
                  (subst (λ y. Holds store y a) (ap (λ m. get_or m.child c 0) one ∙ sym same) rest))
          | inr e ↦ below n b c inner (at_other x (λ k. ground arith) ∙ there) range' child rest
        ]

    pub Reaches-kept : (x : ℕ) → Reaches s x q → Reaches store x q
    Reaches-kept x (itself inner e) = itself inner e
    Reaches-kept x (along n b c inner there range' child r) =
        let rest = Reaches-kept (get_or n.child c 0) r in
        elim (Bool-cases (x == q)) [
          | inl e ↦ itself inner ((==_iff x q).0 e)
          | inr e ↦ along n b c inner (at_other x (λ k. ground arith) ∙ there) range' child rest
        ]

    -- No other leaf comes into the tree.
    pub Holds-only :
        (x a off : ℕ) (route : Route)
        → IsAt s len routes x off route
        → Holds store x a
        → Holds s x a ⊎ (a ≡ mem.leaf_at)
    Holds-only x a off route at (here outer e) = inl (here outer e)
    Holds-only x a off route (inl (outer, l)) (below n b c inner there range' child held) = cc
    Holds-only x a off route (inr (inner', m)) (below n b c inner there range' child held) =
        elim (Bool-cases (x == q)) [
          | inl e ↦
              let at : x ≡ q = (==_iff x q).0 e in
              let whole : some p' ≡ some n = sym at_q ∙ sym (ap store.node at) ∙ there in
              let one : n ≡ p' = cc in
              let same_child : get_or n.child c 0 ≡ get_or p'.child c 0 =
                ap (λ y. get_or y.child c 0) one in
              elim (leads b c (ap (λ y. find_child y y.version b) (sym one) ∙ child)) [
                | inl (same, new_) ↦ inr (
                    sym (
                      Holds-leaf store (get_or n.child c 0) a
                        (ap is_leaf (same_child ∙ new_) ∙ fresh.tagged) held)
                    ∙ same_child
                    ∙ new_)
                | inr (d, old, same) ↦
                    let back : get_or n.child c 0 ≡ get_or p.child d 0 = same_child ∙ sym same in
                    elim (Holds-only (get_or n.child c 0) a (below_offset p)
                      (through (routes q) p b)
                      (subst (λ y. IsAt s len routes y (below_offset p) (through (routes q) p b))
                        (sym back) (tree.children q b d p above current range' old))
                      held) [
                        | inl held' ↦ inl (
                            subst (λ y. Holds s y a) (sym at)
                              (below p b d inner_q above range' old
                                (subst (λ y. Holds s y a) back held')))
                        | inr new_ ↦ inr new_
                      ]
              ]
          | inr e ↦
              let old : s.node x ≡ some n = sym (at_other x (λ k. ground arith)) ∙ there in
              let (stable', current', offset, inside') =
                IsNodeAt-value s len routes x off route n m old in
              elim (Holds-only (get_or n.child c 0) a (below_offset n) (through (routes x) n b)
                (tree.children x b c n old current' range' child) held) [
                  | inl held' ↦ inl (below n b c inner old range' child held')
                  | inr new_ ↦ inr new_
                ]
        ]
