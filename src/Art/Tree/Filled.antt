-- ===== src/Art/Tree/Filled.antt =====
-- A node that takes a child in a free slot, between `art_node_lock` and `art_node_unlock`.
use sidle.Base.{
  ℕ, ◌+◌, ◌/◌, ◌%◌, ◌^◌, ◌<◌, ◌≡◌, ◌≢◌, refl, sym, ap, ◌∙◌, false, none, some, ◌==◌, if◌then◌else◌,
  subst, u64, arith,
}
use sidle.Art.Version.{
  NodeType, node4, node16, node48, node256, type_of_code, get_node_type, get_count, get_offset,
  get_prefix_len, is_locked, is_old, is_expanding, set_lock, incr_count, unlock, unset_lock,
}
use sidle.Art.Version.Lock.{unlock-set_lock}
use sidle.Art.Node.{
  Node, find_slot, find_child, is_full, is_full_as, insert_child, insert_as, child_of,
}
use sidle.Art.Node.Insert.{IsShape, IsNode}
use sidle.Art.Grow.Add.{unlocked, child_as-version}
use sidle.Art.Tree.Change.{SameHead}

abbrev pub locked : Node → Node
locked p = record p { version = set_lock p.version }

abbrev pub filled_node : Node → ℕ → ℕ → Node
filled_node p byte c =
    let n = insert_child (locked p) byte c in record n { version = unlock n.version }

set_lock_lem : (v : ℕ) → is_locked v ≡ false → set_lock v ≡ v + 2 ^ 18
unfolding is_locked set_lock
set_lock_lem v free = ground arith

unlock_lem :
    (v : ℕ)
    → is_locked v ≡ false
    → is_expanding v ≡ false
    → v + 2 ^ 40 < 2 ^ 64
    → unlock (incr_count (v + 2 ^ 18)) ≡ v + 2 ^ 40
unfolding is_locked is_expanding unlock incr_count unset_lock
unlock_lem v free stable bound =
    let whole : u64 (v + 2 ^ 18 + 2 ^ 40) ≡ v + 2 ^ 18 + 2 ^ 40 = ground arith in
    let still : ((v + 2 ^ 18 + 2 ^ 40) / 2 ^ 16 % 2 == 1) ≡ false = ground arith in
    rw (whole, still) (ground arith)

get_count-set_lock : (v : ℕ) → get_count (set_lock v) ≡ get_count v
unfolding get_count set_lock
get_count-set_lock v = ground arith

get_node_type-set_lock : (v : ℕ) → get_node_type (set_lock v) ≡ get_node_type v
unfolding get_node_type set_lock
get_node_type-set_lock v = ap type_of_code (ground arith)

set_lock_bound : (v : ℕ) → v < 2 ^ 64 → set_lock v < 2 ^ 64
unfolding set_lock
set_lock_bound v h = ground arith

-- The count goes up by one, and no other field changes.
head_count :
    (v : ℕ)
    → get_count v < 255
    → (is_expanding (v + 2 ^ 40) ≡ is_expanding v)
      × (is_old (v + 2 ^ 40) ≡ is_old v)
      × (get_offset (v + 2 ^ 40) ≡ get_offset v)
      × (get_prefix_len (v + 2 ^ 40) ≡ get_prefix_len v)
unfolding get_count is_expanding is_old get_offset get_prefix_len
head_count v h =
    let expand : (v + 2 ^ 40) / 2 ^ 16 % 2 ≡ v / 2 ^ 16 % 2 = omega arith in
    let old : (v + 2 ^ 40) / 2 ^ 19 % 2 ≡ v / 2 ^ 19 % 2 = omega arith in
    (ap (λ a. a == 1) expand, ap (λ a. a == 1) old, omega arith, omega arith)

count_lem : (t : NodeType) (p : Node) → IsShape t p → t ≢ node256 → get_count p.version < 255
count_lem node4 p (keys, children, few) h = omega arith
count_lem node16 p (keys, children, few) h = omega arith
count_lem node48 p (indices, children, few, inside) h = omega arith
count_lem node256 p shape h = absurd (h refl)

count_bound : (v : ℕ) → v < 2 ^ 64 → get_count v < 255 → v + 2 ^ 40 < 2 ^ 64
unfolding get_count
count_bound v h k = omega arith

module _ (p : Node) (byte c : ℕ) (node : IsNode p) (free : is_locked p.version ≡ false)
    (stable : is_expanding p.version ≡ false) where
  counted :
      get_count p.version < 255 → unlock (incr_count (set_lock p.version)) ≡ p.version + 2 ^ 40
  counted few =
      ap (λ v. unlock (incr_count v)) (set_lock_lem p.version free)
      ∙ unlock_lem p.version free stable (count_bound p.version (node.0) few)

  SameHead-counted :
      get_count p.version < 255 → (n : Node) → n.version ≡ p.version + 2 ^ 40 → SameHead p n
  SameHead-counted few n e =
      let (expanding, old, offset, prefix_len) = head_count p.version few in
      record {
        expanding = ap is_expanding e ∙ expanding;
        old = ap is_old e ∙ old;
        offset = ap get_offset e ∙ offset;
        prefix_len = ap get_prefix_len e ∙ prefix_len;
      }

  SameHead-same : (n : Node) → n.version ≡ p.version → SameHead p n
  SameHead-same n e = record {
    expanding = ap is_expanding e;
    old = ap is_old e;
    offset = ap get_offset e;
    prefix_len = ap get_prefix_len e;
  }

  SameHead-insert_as :
      (t : NodeType)
      → IsShape t p
      → SameHead p (record (insert_as t (locked p) byte c) {
        version = unlock (insert_as t (locked p) byte c).version;
      })
  unfolding insert_as
  SameHead-insert_as node4 shape =
      let few = count_lem node4 p shape (λ e. cc) in SameHead-counted few _ (counted few)
  SameHead-insert_as node16 shape =
      let few = count_lem node16 p shape (λ e. cc) in SameHead-counted few _ (counted few)
  SameHead-insert_as node48 shape =
      let few = count_lem node48 p shape (λ e. cc) in SameHead-counted few _ (counted few)
  SameHead-insert_as node256 shape = SameHead-same _ (unlock-set_lock p.version free stable)

  same_type : get_node_type (locked p).version ≡ get_node_type p.version
  same_type = get_node_type-set_lock p.version

  prefix_insert_as : (t : NodeType) → (insert_as t (locked p) byte c).prefix ≡ p.prefix
  unfolding insert_as
  prefix_insert_as node4 = refl
  prefix_insert_as node16 = refl
  prefix_insert_as node48 = refl
  prefix_insert_as node256 = refl

  pub SameHead-filled_node : SameHead p (filled_node p byte c)
  unfolding insert_child
  SameHead-filled_node =
      subst
        (λ t. SameHead p (record (insert_as t (locked p) byte c) {
          version = unlock (insert_as t (locked p) byte c).version;
        }))
        (sym same_type) (SameHead-insert_as (get_node_type p.version) (node.1))

  pub prefix-filled_node : (filled_node p byte c).prefix ≡ p.prefix
  unfolding insert_child
  prefix-filled_node = prefix_insert_as (get_node_type (locked p).version)

  IsShape-locked : (t : NodeType) → IsShape t p → IsShape t (locked p)
  IsShape-locked node4 (keys, children, few) =
      (keys, children, omega (arith, get_count-set_lock p.version))
  IsShape-locked node16 (keys, children, few) =
      (keys, children, omega (arith, get_count-set_lock p.version))
  IsShape-locked node48 (indices, children, few, inside) =
      let same = get_count-set_lock p.version in
      (indices, children, omega arith, λ b. let at = inside b in omega (arith, same, at))
  IsShape-locked node256 children = children

  find_slot-locked :
      (t : NodeType) (b : ℕ)
      → find_slot t (locked p) (locked p).version b ≡ find_slot t p p.version b
  unfolding find_slot sidle.Art.Node.find_key
  find_slot-locked node4 b =
      ap (λ m. sidle.Art.Node.find_key 0 m p.key b) (get_count-set_lock p.version)
  find_slot-locked node16 b =
      ap (λ m. sidle.Art.Node.find_key_16 m p.key b) (get_count-set_lock p.version)
  find_slot-locked node48 b = refl
  find_slot-locked node256 b = refl

  -- The locked node maps the bytes as before.
  pub find_child-locked :
      (b : ℕ) → find_child (locked p) (locked p).version b ≡ find_child p p.version b
  unfolding find_child
  find_child-locked b =
      ap (λ t. find_slot t (locked p) (locked p).version b) same_type
      ∙ find_slot-locked (get_node_type p.version) b

  pub is_full-locked : is_full (locked p) ≡ is_full p
  unfolding is_full
  is_full-locked =
      ap (λ t. is_full_as t (get_count (set_lock p.version))) same_type
      ∙ ap (is_full_as (get_node_type p.version)) (get_count-set_lock p.version)

  pub child_of-filled_node :
      (b : ℕ)
      → byte < 256
      → is_full p ≡ false
      → find_child p p.version byte ≡ none
      → c ≢ 0
      → child_of (filled_node p byte c) b ≡ (if byte == b then some c else child_of p b)
  unfolding is_full find_child child_of
  child_of-filled_node b range room absent not_null =
      let t = get_node_type p.version in
      unlocked t (locked p) byte c b same_type (set_lock_bound p.version (node.0))
        (IsShape-locked t (node.1))
        (
          range,
          ap (is_full_as t) (get_count-set_lock p.version) ∙ room,
          find_slot-locked t byte ∙ absent,
        )
        not_null
      ∙ ap (λ x. if byte == b then some c else x)
          (child_as-version t p (set_lock p.version) b (get_count-set_lock p.version))
