-- ===== src/Art/Node/Insert.antt =====
-- What a node maps its bytes to, before and after a child is added to it or replaced.
use sidle.Base.{
  ℕ, zero, suc, ◌+◌, ◌-◌, ◌^◌, ◌≤◌, ◌<◌, ◌≡◌, ◌≢◌, List, [], ◌∷◌, Option, none, some, ◌==◌, ==_iff,
  refl, sym, ap, ◌∙◌, if◌then◌else◌, arith, Bool-cases, Option-cases, inl, inr, get_or, set, length,
  get_or-set_self, get_or-set_ne, false,
}
use sidle.Art.Version.{
  NodeType, type_of_code, node4, node16, node48, node256, get_node_type, get_count, incr_count,
}
use sidle.Art.Node.{
  Node, find_key, find_key_16, find_slot, find_child, is_full_as, is_full, insert_as, insert_child,
  child_at, child_of,
}
use sidle.Art.Node.Search.{find_key_16-find_key}

pub find_key_range :
    (keys : List ℕ) (i n byte j : ℕ) → find_key i n keys byte ≡ some j → (i ≤ j) × (j < i + n)
unfolding find_key
find_key_range keys i zero byte j h = absurd (ground arith)
find_key_range [] i (suc n) byte j h = absurd (ground arith)
find_key_range (k ∷ keys) i (suc n) byte j h = ground (arith, find_key_range keys (i + 1) n byte j)

-- The search after a key is appended.
abbrev or_last : Option ℕ → ℕ → ℕ → ℕ → Option ℕ
or_last none last byte b = if byte == b then some last else none
or_last (some j) last byte b = some j

find_key-set :
    (keys : List ℕ) (i n byte b : ℕ)
    → n < length keys
    → find_key i (suc n) (set keys n byte) b ≡ or_last (find_key i n keys b) (i + n) byte b
unfolding find_key
find_key-set [] i n byte b h = absurd (omega arith)
find_key-set (k ∷ keys) i zero byte b h = ap (λ j. if byte == b then some j else none) (omega arith)
find_key-set (k ∷ keys) i (suc n) byte b h = elim (Bool-cases (k == b)) [
  | inl e ↦ rw e
  | inr e ↦ rw e (
      find_key-set keys (i + 1) n byte b (omega arith)
      ∙ ap (λ j. or_last (find_key (i + 1) n keys b) j byte b) (omega arith))
]

-- What `n` keys and their children map a byte to.
abbrev pub keyed : ℕ → List ℕ → List ℕ → ℕ → Option ℕ
keyed n keys child b = child_at child (find_key 0 n keys b)

keyed-set :
    (n : ℕ) (keys child : List ℕ) (byte c b : ℕ)
    → n < length keys
    → n < length child
    → find_key 0 n keys byte ≡ none
    → keyed (suc n) (set keys n byte) (set child n c) b
      ≡ (if byte == b then some c else keyed n keys child b)
keyed-set n keys child byte c b h k absent =
    let after = find_key-set keys 0 n byte b h in
    elim (Bool-cases (byte == b)) [
      | inl same ↦
          let missing : find_key 0 n keys b ≡ none = rw (← (==_iff byte b).0 same) absent in
          rw (keyed, after, missing, same)
            (ap some
              (ap (λ j. get_or (set child n c) j 0) (omega arith) ∙ get_or-set_self child n c 0 k))
      | inr other ↦ elim (Option-cases (find_key 0 n keys b)) [
        | inl e ↦ rw (keyed, after, e, other)
        | inr (j, e) ↦
            let below = find_key_range keys 0 n b j e in
            rw (keyed, after, e, other)
              (ap some (get_or-set_ne child n j c 0 (λ q. absurd (omega arith))))
      ]
    ]

-- The arrays of a node have the length of its type, and the entries of an index are children.
abbrev pub IsShape : NodeType → Node → Type 0
IsShape node4 an = (length an.key ≡ 4) × (length an.child ≡ 4) × (get_count an.version ≤ 4)
IsShape node16 an = (length an.key ≡ 16) × (length an.child ≡ 16) × (get_count an.version ≤ 16)
IsShape node48 an =
    (length an.index ≡ 256)
    × (length an.child ≡ 48)
    × (get_count an.version ≤ 48)
    × ((b : ℕ) → get_or an.index b 0 ≤ get_count an.version)
IsShape node256 an = length an.child ≡ 256

abbrev pub IsNode : Node → Type 0
IsNode an = (an.version < 2 ^ 64) × IsShape (get_node_type an.version) an

-- `child_of`, with the type of the node as an argument of its own.
abbrev pub child_as : NodeType → Node → ℕ → Option ℕ
child_as t an b = child_at an.child (find_slot t an an.version b)

get_count-incr_count :
    (v : ℕ) → v < 2 ^ 64 → get_count v < 255 → get_count (incr_count v) ≡ suc (get_count v)
unfolding get_count incr_count
get_count-incr_count v h k = omega arith

get_node_type-incr_count : (v : ℕ) → get_node_type (incr_count v) ≡ get_node_type v
unfolding get_node_type incr_count
get_node_type-incr_count v = ap type_of_code (omega arith)

-- A type that has room for another child under a byte that leads nowhere.
abbrev pub HasRoom : NodeType → Node → ℕ → Type 0
HasRoom t an byte =
    (byte < 256)
    × (is_full_as t (get_count an.version) ≡ false)
    × (find_slot t an an.version byte ≡ none)

pub keyed_16 :
    (n : ℕ) (keys child : List ℕ) (b : ℕ)
    → n ≤ 16
    → child_at child (find_key_16 n keys b) ≡ keyed n keys child b
keyed_16 n keys child b h = ap (child_at child) (find_key_16-find_key n keys b h)

-- The same through the index of a `node48`, and for the children of a `node256`.
abbrev pub slot_of : ℕ → Option ℕ
slot_of index = if index == 0 then none else some (index - 1)

abbrev pub slot_child : List ℕ → ℕ → Option ℕ
slot_child child g = child_at child (slot_of g)

abbrev pub indexed : List ℕ → List ℕ → ℕ → Option ℕ
indexed index child b = slot_child child (get_or index b 0)

pub slot_child_pos :
    (child : List ℕ) (g : ℕ) → 0 < g → slot_child child g ≡ some (get_or child (g - 1) 0)
slot_child_pos child g h = ground arith

slot_child-set :
    (child : List ℕ) (n c g : ℕ)
    → g ≤ n
    → slot_child (set child (suc n - 1) c) g ≡ slot_child child g
slot_child-set child n c g h = elim (Bool-cases (g == 0)) [
  | inl none_there ↦ rw ((==_iff g 0).0 none_there)
  | inr there ↦
      slot_child_pos (set child (suc n - 1) c) g (ground arith)
      ∙ ap some (get_or-set_ne child (suc n - 1) (g - 1) c 0 (λ q. absurd (ground arith)))
      ∙ sym (slot_child_pos child g (ground arith))
]

indexed-set :
    (n : ℕ) (index child : List ℕ) (byte c b : ℕ)
    → byte < length index
    → n < length child
    → ((i : ℕ) → get_or index i 0 ≤ n)
    → indexed (set index byte (suc n)) (set child (suc n - 1) c) b
      ≡ (if byte == b then some c else indexed index child b)
indexed-set n index child byte c b h k inside = elim (Bool-cases (byte == b)) [
  | inl same ↦
      let here : get_or (set index byte (suc n)) b 0 ≡ suc n =
        rw (← (==_iff byte b).0 same) (get_or-set_self index byte (suc n) 0 h) in
      rw same (
        ap (slot_child (set child (suc n - 1) c)) here
        ∙ slot_child_pos (set child (suc n - 1) c) (suc n) (omega arith)
        ∙ ap some (get_or-set_self child (suc n - 1) c 0 (omega arith)))
  | inr other ↦ rw other (
      ap (slot_child (set child (suc n - 1) c))
        (get_or-set_ne index byte b (suc n) 0 (λ q. absurd (ground arith)))
      ∙ slot_child-set child n c (get_or index b 0) (inside b))
]

-- An entry that is not null
abbrev pub filled : ℕ → Option ℕ
filled c = if c == 0 then none else some c

pub filled_lem : (c : ℕ) → c ≢ 0 → filled c ≡ some c
filled_lem c h = ground arith

pub eq_of_filled : (c : ℕ) → filled c ≡ none → c ≡ 0
eq_of_filled c h = ground arith

abbrev pub direct : List ℕ → ℕ → Option ℕ
direct child b = child_at child (if get_or child b 0 == 0 then none else some b)

pub direct-get_or : (child : List ℕ) (b : ℕ) → direct child b ≡ filled (get_or child b 0)
direct-get_or child b = ground arith

direct-set :
    (child : List ℕ) (byte c b : ℕ)
    → byte < length child
    → c ≢ 0
    → direct (set child byte c) b ≡ (if byte == b then some c else direct child b)
direct-set child byte c b h not_null = elim (Bool-cases (byte == b)) [
  | inl same ↦ rw same (
      direct-get_or (set child byte c) b
      ∙ rw (← (==_iff byte b).0 same) (ap filled (get_or-set_self child byte c 0 h))
      ∙ filled_lem c not_null)
  | inr other ↦ rw other (
      direct-get_or (set child byte c) b
      ∙ ap filled (get_or-set_ne child byte b c 0 (λ q. absurd (ground arith)))
      ∙ sym (direct-get_or child b))
]

pub insert_as-child_as :
    (t : NodeType) (an : Node) (byte c b : ℕ)
    → an.version < 2 ^ 64
    → IsShape t an
    → HasRoom t an byte
    → c ≢ 0
    → child_as t (insert_as t an byte c) b ≡ (if byte == b then some c else child_as t an b)
unfolding find_slot insert_as is_full_as
insert_as-child_as node4 an byte c b small (keys, children, few) (range, room, absent) not_null =
    let n = get_count an.version in
    let fits : n < 4 = ground arith in
    let more = get_count-incr_count an.version small (omega arith) in
    ap (λ m. keyed m (set an.key n byte) (set an.child n c) b) more
    ∙ keyed-set n an.key an.child byte c b (omega arith) (omega arith) absent
insert_as-child_as node16 an byte c b small (keys, children, few) (range, room, absent) not_null =
    let n = get_count an.version in
    let fits : n < 16 = ground arith in
    let more = get_count-incr_count an.version small (omega arith) in
    let gone : find_key 0 n an.key byte ≡ none =
      sym (find_key_16-find_key n an.key byte few) ∙ absent in
    keyed_16 (get_count (incr_count an.version)) (set an.key n byte) (set an.child n c) b
      (omega arith)
    ∙ ap (λ m. keyed m (set an.key n byte) (set an.child n c) b) more
    ∙ keyed-set n an.key an.child byte c b (omega arith) (omega arith) gone
    ∙ ap (λ x. if byte == b then some c else x) (sym (keyed_16 n an.key an.child b few))
insert_as-child_as node48 an byte c b small (indices, children, few, inside) (range, room, absent)
      not_null =
    let n = get_count an.version in
    let fits : n < 48 = ground arith in
    let more = get_count-incr_count an.version small (omega arith) in
    ap (λ m. indexed (set an.index byte m) (set an.child (m - 1) c) b) more
    ∙ indexed-set n an.index an.child byte c b (omega arith) (omega arith) inside
insert_as-child_as node256 an byte c b small children (range, room, absent) not_null =
    direct-set an.child byte c b (omega arith) not_null

get_node_type-insert_as :
    (t : NodeType) (an : Node) (byte c : ℕ)
    → get_node_type (insert_as t an byte c).version ≡ get_node_type an.version
unfolding insert_as
get_node_type-insert_as node4 an byte c = get_node_type-incr_count an.version
get_node_type-insert_as node16 an byte c = get_node_type-incr_count an.version
get_node_type-insert_as node48 an byte c = get_node_type-incr_count an.version
get_node_type-insert_as node256 an byte c = refl

pub get_node_type-insert_child :
    (an : Node) (byte c : ℕ)
    → get_node_type (insert_child an byte c).version ≡ get_node_type an.version
unfolding insert_child
get_node_type-insert_child an byte c = get_node_type-insert_as (get_node_type an.version) an byte c

-- The bytes that a well-formed node maps, after a child is added under a byte that led nowhere to a
-- node that is not full: the byte leads to the child, and every other byte where it led before.
pub child_of-insert_child :
    (an : Node) (byte c b : ℕ)
    → IsNode an
    → byte < 256
    → is_full an ≡ false
    → find_child an an.version byte ≡ none
    → c ≢ 0
    → child_of (insert_child an byte c) b ≡ (if byte == b then some c else child_of an b)
unfolding child_of find_child insert_child is_full
child_of-insert_child an byte c b (small, shape) range room absent not_null =
    ap (λ t. child_as t (insert_child an byte c) b) (get_node_type-insert_child an byte c)
    ∙ insert_as-child_as (get_node_type an.version) an byte c b small shape (range, room, absent)
        not_null
