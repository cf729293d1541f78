-- ===== src/Art/Grow/Laws.antt =====
-- A node that has grown maps its bytes as before.
use sidle.Base.{
  ℕ, zero, suc, ◌+◌, ◌-◌, ◌<◌, ◌≤◌, ◌≡◌, ◌≢◌, inl, inr, List, some, ◌==◌, arith, refl, sym, ap, ◌∙◌,
  Bool-cases, Option-cases, get_or, replicate, length, length-replicate, true,
}
use sidle.Art.Version.{
  NodeType, node4, node16, node48, node256, get_node_type, set_type, get_prefix_len, set_prefix_len,
  get_count, set_count, get_offset, set_offset, set_lock, is_locked, set_old, is_old,
}
use sidle.Art.Node.{Node, find_key, find_slot, find_child, is_full_as, is_full, child_of}
use sidle.Art.Node.Insert.{
  IsShape, IsNode, find_key_range, keyed, keyed_16, indexed, slot_child, slot_child_pos, direct,
  direct-get_or, filled, filled_lem, child_as,
}
use sidle.Art.Prefix.{copy_bytes}
use sidle.Art.Prefix.Copy.{copy_bytes_lem, length-copy_bytes}
use sidle.Art.Grow.{new_art_node, fill_index, spread, grow_as, finish, grow}
use sidle.Art.Grow.Words.{
  get_count-finish, get_node_type-finish, get_count-set_count, get_node_type-set_count,
  get_node_type-set_prefix_len, get_node_type-set_type, is_locked-finish, is_old-set_old,
}
use sidle.Art.Grow.Arrays.{find_key-ext, spread_lem, find_from-find_key, fill_index_lem}

keyed-copy :
    (n : ℕ) (keys child new_keys new_child : List ℕ) (b : ℕ)
    → n ≤ length keys
    → n ≤ length new_keys
    → ((j : ℕ) → j < n → get_or new_keys j 0 ≡ get_or keys j 0)
    → ((j : ℕ) → j < n → get_or new_child j 0 ≡ get_or child j 0)
    → keyed n new_keys new_child b ≡ keyed n keys child b
keyed-copy n keys child new_keys new_child b h k same_keys same_child =
    let e = find_key-ext n 0 new_keys keys b k h same_keys in
    elim (Option-cases (find_key 0 n keys b)) [
      | inl f ↦ rw (keyed, e, f)
      | inr (j, f) ↦
          let range = find_key_range keys 0 n b j f in
          rw (keyed, e, f) (ap some (same_child j (omega arith)))
    ]

pub get_or-replicate : (n b : ℕ) → get_or {A = ℕ} (replicate n 0) b 0 ≡ 0
get_or-replicate zero b = refl
get_or-replicate (suc n) zero = refl
get_or-replicate (suc n) (suc b) = get_or-replicate n b

-- The keys of a `node16` are bytes, all different.
abbrev pub HasKeys : List ℕ → Type 0
HasKeys key =
    ((j : ℕ) → get_or key j 0 < 256)
    × ((j k : ℕ) → j < k → k < 16 → get_or key j 0 ≢ get_or key k 0)

indexed-fill_index :
    (key child new_child : List ℕ) (b : ℕ)
    → 16 ≤ length key
    → HasKeys key
    → ((j : ℕ) → j < 16 → get_or new_child j 0 ≡ get_or child j 0)
    → indexed (fill_index 16 0 (replicate 256 0) key) new_child b ≡ keyed 16 key child b
indexed-fill_index key child new_child b size (bytes, distinct) same =
    let filled =
      fill_index_lem 16 0 b (replicate 256 0) key (length-replicate {A = ℕ} 256 0) bytes
        (λ j k low high. distinct j k low (omega arith)) in
    let found =
      find_from-find_key 16 0 key key b size (λ j. ap (λ a. get_or key a 0) (omega arith)) in
    elim (Option-cases (find_key 0 16 key b)) [
      | inl f ↦
          let none_there : get_or (fill_index 16 0 (replicate 256 0) key) b 0 ≡ 0 =
            filled ∙ rw (found, f) (get_or-replicate 256 b) in
          ap (slot_child new_child) none_there ∙ sym (rw (keyed, f))
      | inr (j, f) ↦
          let range = find_key_range key 0 16 b j f in
          let there : get_or (fill_index 16 0 (replicate 256 0) key) b 0 ≡ j + 1 =
            filled ∙ rw (found, f) in
          let back : j + 1 - 1 ≡ j = omega arith in
          ap (slot_child new_child) there
          ∙ slot_child_pos new_child (j + 1) (omega arith)
          ∙ ap some (ap (λ a. get_or new_child a 0) back ∙ same j (omega arith))
          ∙ sym (rw (keyed, f))
    ]

pub direct-spread :
    (index child : List ℕ) (b : ℕ)
    → b < 256
    → indexed index child b ≢ some 0
    → direct (spread 256 0 (replicate 256 0) index child) b ≡ indexed index child b
direct-spread index child b h not_null =
    let placed =
      spread_lem 256 0 b (replicate 256 0) index child (omega arith) (omega arith)
        (omega (arith, length-replicate {A = ℕ} 256 0)) in
    direct-get_or (spread 256 0 (replicate 256 0) index child) b
    ∙ ap filled placed
    ∙ elim (Bool-cases (get_or index b 0 == 0)) [
      | inl e ↦ rw e (ap filled (get_or-replicate 256 b))
      | inr e ↦
          let g = get_or index b 0 in
          let child_there = slot_child_pos child g (ground arith) in
          rw e (filled_lem (get_or child (g - 1) 0) (λ q. not_null (child_there ∙ ap some q)))
    ]

-- What `art_node_grow` finds in the memory that `sidle_alloc` returns: the arrays have their lengths.
abbrev pub HasMemory : NodeType → Node → Type 0
HasMemory node4 raw = (length raw.key ≡ 16) × (length raw.child ≡ 16)
HasMemory node16 raw = length raw.child ≡ 48
HasMemory _ raw = Unit {0}

-- A `node16` needs distinct keys, which its index tells apart.
abbrev pub CanGrow : NodeType → Node → Type 0
CanGrow node4 an = Unit {0}
CanGrow node16 an = HasKeys an.key
CanGrow node48 an = Unit {0}
CanGrow node256 an = ⊥

abbrev pub next_type : NodeType → NodeType
next_type node4 = node16
next_type node16 = node48
next_type _ = node256

typed :
    (t : NodeType) (p count : ℕ)
    → get_node_type (set_count (set_prefix_len (set_type 0 t) p) count) ≡ t
typed t p count =
    get_node_type-set_count (set_prefix_len (set_type 0 t) p) count
    ∙ get_node_type-set_prefix_len (set_type 0 t) p
    ∙ get_node_type-set_type t

pub copied :
    (n j : ℕ) (dst src : List ℕ)
    → n ≤ length dst
    → j < n
    → get_or (copy_bytes n 0 dst src 0) j 0 ≡ get_or src j 0
copied n j dst src room h =
    copy_bytes_lem n 0 j dst src 0 (omega arith) (omega arith) (omega arith)
    ∙ ap (λ a. get_or src a 0) (omega arith)

-- The new node, whatever the bits of its version besides the type and the count.
unfoldable pub Grown : NodeType → Node → Node → ℕ → Type 0
Grown t an raw b =
    (n : Node) × (grow_as t an raw ≡ some n)
    × (get_node_type n.version ≡ next_type t)
    × ((v : ℕ)
        → get_count v ≡ get_count n.version
        → child_as (next_type t) (record n { version = v }) b ≡ child_as t an b)

pub grow_as-Grown :
    (t : NodeType) (an raw : Node) (b : ℕ)
    → IsShape t an
    → CanGrow t an
    → HasMemory t raw
    → is_full_as t (get_count an.version) ≡ true
    → b < 256
    → child_as t an b ≢ some 0
    → Grown t an raw b
unfolding Grown grow_as find_slot is_full_as new_art_node
grow_as-Grown node4 an raw b (keys, children, few) can (new_keys, new_children) full range
      not_null =
    let four : get_count an.version ≡ 4 = ground arith in
    let p = get_prefix_len an.version in
    let counted = get_count-set_count (set_prefix_len (set_type 0 node16) p) 4 (omega arith) in
    let key' = copy_bytes 4 0 raw.key an.key 0 in
    let child' = copy_bytes 4 0 raw.child an.child 0 in
    (
      _,
      refl,
      typed node16 p 4,
      λ v same.
          let is_four : get_count v ≡ 4 = same ∙ counted in
          keyed_16 (get_count v) key' child' b (omega arith)
          ∙ ap (λ m. keyed m key' child' b) is_four
          ∙ keyed-copy 4 an.key an.child key' child' b (omega arith)
              (omega (arith, length-copy_bytes 4 0 raw.key an.key 0))
              (λ j h. copied 4 j raw.key an.key (omega arith) h)
              (λ j h. copied 4 j raw.child an.child (omega arith) h)
          ∙ ap (λ m. keyed m an.key an.child b) (sym four),
    )
grow_as-Grown node16 an raw b (keys, children, few) can new_children full range not_null =
    let sixteen : get_count an.version ≡ 16 = ground arith in
    let child' = copy_bytes 16 0 raw.child an.child 0 in
    (
      _,
      refl,
      typed node48 (get_prefix_len an.version) 16,
      λ v same.
          indexed-fill_index an.key an.child child' b (omega arith) can
            (λ j h. copied 16 j raw.child an.child (omega arith) h)
          ∙ ap (λ m. keyed m an.key an.child b) (sym sixteen)
          ∙ sym (keyed_16 (get_count an.version) an.key an.child b few),
    )
grow_as-Grown node48 an raw b shape can memory full range not_null = (
  _,
  refl,
  get_node_type-set_prefix_len (set_type 0 node256) (get_prefix_len an.version)
      ∙ get_node_type-set_type node256,
  λ v same. direct-spread an.index an.child b range not_null,
)
grow_as-Grown node256 an raw b shape can memory full range not_null = elim can [ ]

-- A full, well-formed node below the largest type grows, into memory whose arrays have the lengths of
-- the next type: the new node is of the next type, is locked, and leads
-- each byte to the child that it led to in the old node, which is old and points to the new one. A
-- `node16` must have distinct keys, and a child is not null.
child_of-grow :
    (an raw : Node) (address b : ℕ)
    → IsNode an
    → CanGrow (get_node_type an.version) an
    → HasMemory (get_node_type an.version) raw
    → is_full an ≡ true
    → b < 256
    → child_of an b ≢ some 0
    → (n : Node) × (o : Node) × (grow an raw address ≡ some (n, o))
      × (get_node_type n.version ≡ next_type (get_node_type an.version))
      × (child_of n b ≡ child_of an b)
      × (is_locked n.version ≡ true)
      × (is_old o.version ≡ true)
      × (o.new_ ≡ address)
unfolding grow Grown child_of find_child is_full finish
child_of-grow an raw address b (small, shape) can memory full range not_null =
    let t = get_node_type an.version in
    let (n, found, type, maps) = grow_as-Grown t an raw b shape can memory full range not_null in
    let o = get_offset an.version in
    let v = set_offset (set_lock n.version) o in
    let new_ = record n { version = v } in
    let kind : get_node_type v ≡ next_type t = get_node_type-finish n.version o ∙ type in
    (
      new_,
      record an { new_ = address; version = set_old an.version },
      rw (grow, found),
      kind,
      ap (λ k. child_as k new_ b) kind ∙ maps v (get_count-finish n.version o),
      is_locked-finish n.version o,
      is_old-set_old an.version,
      refl,
    )
