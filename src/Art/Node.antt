-- ===== src/Art/Node.antt =====
-- The nodes of the radix tree (third_party/art/art_node.cc). A node of any of the four types is one
-- record: `key` is used by `node4` and `node16`, `index` by `node48`, and `child` by all. A pointer is
-- its address, null is 0, and a leaf's is odd. The arguments of `assert` run, as without NDEBUG.
pub mod Search
pub mod Insert
pub mod Replace
use sidle.Base.{
  ℕ, zero, suc, ◌+◌, ◌-◌, ◌*◌, ◌/◌, ◌%◌, ◌^◌, List, [], ◌∷◌, Bool, true, false, not, ◌&&◌, Option,
  none, some, ltb, ◌==◌, if◌then◌else◌, get_or, set, replicate,
}
use sidle.Meta.{NodeMetadata}
use sidle.Art.Version.{
  NodeType, node4, node16, node48, node256, get_node_type, set_type, get_count, set_count,
  incr_count, get_prefix_len, set_prefix_len, get_offset, set_offset, set_expand, set_old, set_lock,
  unlock,
}

pub record Node : Type 0 where
  pub version : ℕ
  pub prefix : List ℕ
  pub new_ : ℕ
  pub parent : ℕ
  pub sidle_meta : NodeMetadata
  pub key : List ℕ
  pub index : List ℕ
  pub child : List ℕ

-- The loop of `art_node_find_child` over the keys of a `node4`, from index `i` for `n` more.
unfoldable pub find_key : ℕ → ℕ → List ℕ → ℕ → Option ℕ
find_key i zero keys byte = none
find_key i (suc n) [] byte = none
find_key i (suc n) (k ∷ keys) byte =
    let rest = find_key (i + 1) n keys byte in if k == byte then some i else rest

-- `_mm_movemask_epi8` of `_mm_cmpeq_epi8`: one bit for each key, set where it is the byte.
unfoldable pub movemask : List ℕ → ℕ → ℕ
movemask [] byte = 0
movemask (k ∷ keys) byte = (if k == byte then 1 else 0) + 2 * movemask keys byte

-- `__builtin_ctz` of a number of `fuel` bits that is not 0
unfoldable pub ctz : ℕ → ℕ → ℕ
ctz zero n = 0
ctz (suc fuel) n = let rest = ctz fuel (n / 2) in if n % 2 == 1 then 0 else rest + 1

-- The `node16` case: the bits of the first `count` keys, and the lowest of them.
unfoldable pub find_key_16 : ℕ → List ℕ → ℕ → Option ℕ
find_key_16 count keys byte =
    let bitfield = movemask keys byte % 2 ^ count in
    if bitfield == 0 then none else some (ctz 16 bitfield)

-- `art_node_find_child`: the slot of the child that the result points to.
unfoldable pub find_slot : NodeType → Node → ℕ → ℕ → Option ℕ
find_slot node4 an version byte = find_key 0 (get_count version) an.key byte
find_slot node16 an version byte = find_key_16 (get_count version) an.key byte
find_slot node48 an version byte =
    let index = get_or an.index byte 0 in if index == 0 then none else some (index - 1)
find_slot node256 an version byte = if get_or an.child byte 0 == 0 then none else some byte

unfoldable pub find_child : Node → ℕ → ℕ → Option ℕ
unfolding find_slot
find_child an version byte = find_slot (get_node_type version) an version byte

-- `art_node_is_full`
unfoldable pub is_full_as : NodeType → ℕ → Bool
is_full_as node4 count = count == 4
is_full_as node16 count = count == 16
is_full_as node48 count = count == 48
is_full_as node256 count = false

unfoldable pub is_full : Node → Bool
unfolding is_full_as
is_full an = is_full_as (get_node_type an.version) (get_count an.version)

-- The `switch` of `art_node_add_child`.
unfoldable pub insert_as : NodeType → Node → ℕ → ℕ → Node
insert_as node4 an byte child =
    let count = get_count an.version in
    record an {
      child = set an.child count child;
      key = set an.key count byte;
      version = incr_count an.version;
    }
insert_as node16 an byte child =
    let count = get_count an.version in
    record an {
      child = set an.child count child;
      key = set an.key count byte;
      version = incr_count an.version;
    }
insert_as node48 an byte child =
    let version = incr_count an.version in
    record an {
      child = set an.child (get_count version - 1) child;
      index = set an.index byte (get_count version);
      version = version;
    }
insert_as node256 an byte child = record an { child = set an.child byte child }

unfoldable pub insert_child : Node → ℕ → ℕ → Node
unfolding insert_as
insert_child an byte child = insert_as (get_node_type an.version) an byte child

-- `art_node_replace_child`: the write goes through the pointer that was found, and the new node gets
-- the parent. A byte that leads nowhere is the null pointer that the code would write through.
unfoldable pub replace_child : Node → ℕ → ℕ → Node → ℕ → Option (Node × Node)
unfolding find_child
replace_child parent parent_at byte new_ new_at = elim (find_child parent parent.version byte) [
  | none ↦ none
  | some slot ↦
      some
        (record parent { child = set parent.child slot new_at }, record new_ { parent = parent_at })
]

abbrev pub child_at : List ℕ → Option ℕ → Option ℕ
child_at child none = none
child_at child (some slot) = some (get_or child slot 0)

-- The child that a byte leads to, if there is one.
unfoldable pub child_of : Node → ℕ → Option ℕ
unfolding find_child
child_of an byte = child_at an.child (find_child an an.version byte)
