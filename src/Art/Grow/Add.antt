-- ===== src/Art/Grow/Add.antt =====
-- `art_node_add_child`, on all its branches.
use sidle.Base.{
  ℕ, ◌^◌, ◌<◌, ◌≡◌, ◌≢◌, inl, inr, none, some, ◌==◌, arith, refl, sym, ap, subst, ◌∙◌,
  if◌then◌else◌, Bool-cases, Option-cases, true, false,
}
use sidle.Art.Version.{
  NodeType, node4, node16, node48, node256, get_node_type, get_count, set_offset, get_offset,
  set_lock, is_locked, is_old, unlock,
}
use sidle.Art.Version.Lock.{get_count-unlock, get_node_type-unlock, is_locked-unlock}
use sidle.Art.Node.{
  Node, child_at, find_slot, find_key_16, find_child, is_full_as, is_full, insert_as, insert_child,
  child_of,
}
use sidle.Art.Node.Insert.{
  IsShape, IsNode, child_as, HasRoom, keyed, insert_as-child_as, get_node_type-insert_child,
  child_of-insert_child,
}
use sidle.Art.Grow.{AddResult, exists, added, grew, asserted, grow_as, finish, grow, add_child}
use sidle.Art.Grow.Words.{get_count-finish, get_node_type-finish, is_old-set_old}
use sidle.Art.Grow.Laws.{HasKeys, HasMemory, CanGrow, next_type, Grown, grow_as-Grown}
use sidle.Art.Grow.Room.{Room, grow_as-Room}

-- A `node16` that may grow must have distinct keys.
abbrev pub CanAdd : NodeType → Node → Type 0
CanAdd node16 an = HasKeys an.key
CanAdd _ an = Unit {0}

can_grow :
    (t : NodeType) (an : Node)
    → CanAdd t an
    → is_full_as t (get_count an.version) ≡ true
    → CanGrow t an
unfolding is_full_as
can_grow node4 an can full = tt
can_grow node16 an can full = can
can_grow node48 an can full = tt
can_grow node256 an can full = absurd (ground arith)

-- What a result says of the byte `b`.
abbrev pub IsAdded : Node → ℕ → ℕ → ℕ → ℕ → AddResult → Type 0
IsAdded an byte c address b (exists slot) = find_child an an.version byte ≡ some slot
IsAdded an byte c address b (added n) =
    (is_full an ≡ false) × (child_of n b ≡ (if byte == b then some c else child_of an b))
IsAdded an byte c address b (grew n o) =
    (is_full an ≡ true)
    × (child_of n b ≡ (if byte == b then some c else child_of an b))
    × (is_locked n.version ≡ false)
    × (is_old o.version ≡ true)
    × (o.new_ ≡ address)
IsAdded an byte c address b asserted = ⊥

pub child_as-version :
    (t : NodeType) (n : Node) (v b : ℕ)
    → get_count v ≡ get_count n.version
    → child_as t (record n { version = v }) b ≡ child_as t n b
unfolding find_slot
child_as-version node4 n v b same = ap (λ m. keyed m n.key n.child b) same
child_as-version node16 n v b same = ap (λ m. child_at n.child (find_key_16 m n.key b)) same
child_as-version node48 n v b same = refl
child_as-version node256 n v b same = refl

finish_bound : (v o : ℕ) → v < 2 ^ 48 → set_offset (set_lock v) (get_offset o) < 2 ^ 64
unfolding set_offset set_lock get_offset
finish_bound v o h = omega arith

-- `Room` for a new node that is given.
new_node_lem :
    (t : NodeType) (an raw : Node) (byte : ℕ) (n : Node)
    → grow_as t an raw ≡ some n
    → Room t an raw byte
    → (n.version < 2 ^ 48)
      × ((v : ℕ)
          → get_count v ≡ get_count n.version
          → IsShape (next_type t) (record n { version = v })
            × HasRoom (next_type t) (record n { version = v }) byte)
unfolding Room
new_node_lem t an raw byte n found (n', found', small, room) =
    let one : n ≡ n' =
      ap (λ r. elim r as (λ x. Node) [ none ↦ n | some x ↦ x ]) (sym found ∙ found') in
    rw one (small, room)

-- A child is added to a node of the type `t`, which is then unlocked.
pub unlocked :
    (t : NodeType) (m : Node) (byte c b : ℕ)
    → get_node_type m.version ≡ t
    → m.version < 2 ^ 64
    → IsShape t m
    → HasRoom t m byte
    → c ≢ 0
    → child_of
        (record (insert_child m byte c) { version = unlock (insert_child m byte c).version })
        b
      ≡ (if byte == b then some c else child_as t m b)
unfolding child_of find_child insert_child
unlocked t m byte c b kind small shape room not_null =
    let n = insert_child m byte c in
    let kind' : get_node_type (unlock n.version) ≡ t =
      get_node_type-unlock n.version ∙ get_node_type-insert_child m byte c ∙ kind in
    ap (λ k. child_as k (record n { version = unlock n.version }) b) kind'
    ∙ child_as-version t n (unlock n.version) b (get_count-unlock n.version)
    ∙ ap (λ k. child_as t (insert_as k m byte c) b) kind
    ∙ insert_as-child_as t m byte c b small shape room not_null

added_beside : ℕ → ℕ → Node × Node → AddResult
added_beside byte c (n, o) =
    let n' = insert_child n byte c in grew (record n' { version = unlock n'.version }) o

add_child_full :
    (an raw : Node) (byte c address : ℕ) (r : Node × Node)
    → find_child an an.version byte ≡ none
    → is_full an ≡ true
    → grow an raw address ≡ some r
    → add_child an byte c raw address ≡ added_beside byte c r
unfolding add_child added_beside
add_child_full an raw byte c address r absent full grown = rw (add_child, absent, full, grown)

pub add_child_free :
    (an raw : Node) (byte c address : ℕ)
    → find_child an an.version byte ≡ none
    → is_full an ≡ false
    → add_child an byte c raw address ≡ added (insert_child an byte c)
unfolding add_child
add_child_free an raw byte c address absent free = rw (add_child, absent, free)

add_child_exists :
    (an raw : Node) (byte c address slot : ℕ)
    → find_child an an.version byte ≡ some slot
    → add_child an byte c raw address ≡ exists slot
unfolding add_child
add_child_exists an raw byte c address slot there = rw (add_child, there)

add_child_grows :
    (an raw : Node) (byte c address b : ℕ)
    → IsNode an
    → CanAdd (get_node_type an.version) an
    → HasMemory (get_node_type an.version) raw
    → byte < 256
    → b < 256
    → c ≢ 0
    → child_of an b ≢ some 0
    → find_child an an.version byte ≡ none
    → is_full an ≡ true
    → IsAdded an byte c address b (add_child an byte c raw address)
unfolding grow finish find_child is_full Grown added_beside child_of
add_child_grows an raw byte c address b (small, shape) can memory range range' not_null filled
      absent full =
    let t = get_node_type an.version in
    let can' = can_grow t an can full in
    let (n, found, type, maps) = grow_as-Grown t an raw b shape can' memory full range' filled in
    let (bound, room) =
      new_node_lem t an raw byte n found
        (grow_as-Room t an raw byte shape can' memory full range absent) in
    let v = set_offset (set_lock n.version) (get_offset an.version) in
    let same = get_count-finish n.version (get_offset an.version) in
    let (shape', room') = room v same in
    let result : add_child an byte c raw address ≡ added_beside byte c (finish an address n) =
      add_child_full an raw byte c address (finish an address n) absent full (rw (grow, found)) in
    subst (IsAdded an byte c address b) (sym result) (
      full,
      unlocked (next_type t) (record n { version = v }) byte c b
            (get_node_type-finish n.version (get_offset an.version) ∙ type)
            (finish_bound n.version an.version bound) shape' room' not_null
          ∙ ap (λ x. if byte == b then some c else x) (maps v same),
      is_locked-unlock _,
      is_old-set_old an.version,
      refl,
    )

-- When `art_node_add_child` adds a child under a byte to a well-formed node, no assertion fails. A
-- byte that leads to a child already is found, and nothing is added. Otherwise the byte leads to the
-- child, and every other byte where it led before: in the node itself where it is not full, and
-- where it is, in the grown node, which is unlocked, while the old one is old and points to it. The
-- memory of a grown node has the lengths of its type, and a `node16` has distinct keys. No
-- child is null.
pub add_child-IsAdded :
    (an raw : Node) (byte c address b : ℕ)
    → IsNode an
    → CanAdd (get_node_type an.version) an
    → HasMemory (get_node_type an.version) raw
    → byte < 256
    → b < 256
    → c ≢ 0
    → child_of an b ≢ some 0
    → IsAdded an byte c address b (add_child an byte c raw address)
add_child-IsAdded an raw byte c address b node can memory range range' not_null filled =
    let claim = IsAdded an byte c address b in
    elim (Option-cases (find_child an an.version byte)) [
      | inl absent ↦ elim (Bool-cases (is_full an)) [
        | inl full ↦
            add_child_grows an raw byte c address b node can memory range range' not_null filled
              absent full
        | inr free ↦
            subst claim (sym (add_child_free an raw byte c address absent free))
              (free, child_of-insert_child an byte c b node range free absent not_null)
      ]
      | inr (slot, there) ↦
          subst claim (sym (add_child_exists an raw byte c address slot there)) there
    ]
