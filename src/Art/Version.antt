-- ===== src/Art/Version.antt =====
-- The version word of a node: the macros of third_party/art/art_def.hh, on a `uint64_t`. A shift
-- with a mask is `/` and `%`, and an `|` of disjoint fields is a sum. Fields, from bit 0: vexpand 8,
-- vinsert 8, expand, insert, lock and old 1 each, type 2, unused, prefix_len 8 (from 32), count 8
-- (from 40), unused, offset 8 (from 54). The setters take a value of 8 bits, as all callers do.
pub mod Fields
pub mod Lock
use mathlib.Core.Bool.{xor}
use sidle.Base.{
  ℕ, zero, suc, ◌+◌, ◌-◌, ◌*◌, ◌/◌, ◌%◌, ◌^◌, Bool, true, false, not, ◌&&◌, ◌||◌, ◌==◌,
  if◌then◌else◌, u64,
}

-- `node4` to `node256`, without their shift by 20
pub data NodeType : Type 0 where
  node4 node16 node48 node256 : NodeType

abbrev pub type_code : NodeType → ℕ
type_code node4 = 0
type_code node16 = 1
type_code node48 = 2
type_code node256 = 3

abbrev pub type_of_code : ℕ → NodeType
type_of_code zero = node4
type_of_code (suc zero) = node16
type_of_code (suc (suc zero)) = node48
type_of_code (suc (suc (suc n))) = node256

unfoldable pub get_offset : ℕ → ℕ
get_offset version = version / 2 ^ 54 % 256

unfoldable pub set_offset : ℕ → ℕ → ℕ
set_offset version offset = version - version / 2 ^ 54 % 256 * 2 ^ 54 + offset * 2 ^ 54

unfoldable pub get_prefix_len : ℕ → ℕ
get_prefix_len version = version / 2 ^ 32 % 256

unfoldable pub set_prefix_len : ℕ → ℕ → ℕ
set_prefix_len version len = version - version / 2 ^ 32 % 256 * 2 ^ 32 + len * 2 ^ 32

unfoldable pub get_count : ℕ → ℕ
get_count version = version / 2 ^ 40 % 256

unfoldable pub set_count : ℕ → ℕ → ℕ
set_count version count = version - version / 2 ^ 40 % 256 * 2 ^ 40 + count * 2 ^ 40

unfoldable pub incr_count : ℕ → ℕ
incr_count version = u64 (version + 2 ^ 40)

unfoldable pub get_node_type : ℕ → NodeType
get_node_type version = type_of_code (version / 2 ^ 20 % 4)

-- Only used on a version whose type bits are clear.
unfoldable pub set_type : ℕ → NodeType → ℕ
set_type version type = version + type_code type * 2 ^ 20

-- A flag is one bit.
abbrev pub bit : ℕ → ℕ → Bool
bit k version = version / 2 ^ k % 2 == 1

abbrev raise : ℕ → ℕ → ℕ
raise k version = version + (1 - version / 2 ^ k % 2) * 2 ^ k

abbrev clear : ℕ → ℕ → ℕ
clear k version = version - version / 2 ^ k % 2 * 2 ^ k

unfoldable pub is_old : ℕ → Bool
is_old version = bit 19 version

unfoldable pub is_locked : ℕ → Bool
is_locked version = bit 18 version

unfoldable pub is_expanding : ℕ → Bool
is_expanding version = bit 16 version

unfoldable pub set_old : ℕ → ℕ
set_old version = raise 19 version

unfoldable pub set_lock : ℕ → ℕ
set_lock version = raise 18 version

unfoldable pub set_expand : ℕ → ℕ
set_expand version = raise 16 version

unfoldable pub set_insert : ℕ → ℕ
set_insert version = raise 17 version

unfoldable pub unset_insert : ℕ → ℕ
unset_insert version = clear 17 version

unfoldable pub get_vinsert : ℕ → ℕ
get_vinsert version = version / 2 ^ 8 % 256

-- The increment stays in its 8 bits.
unfoldable pub incr_vinsert : ℕ → ℕ
unfolding get_vinsert
incr_vinsert version =
    version - get_vinsert version * 2 ^ 8 + (get_vinsert version + 1) % 256 * 2 ^ 8

unfoldable pub unset_lock : ℕ → ℕ
unset_lock version = clear 18 version

unfoldable pub unset_expand : ℕ → ℕ
unset_expand version = clear 16 version

unfoldable pub get_vexpand : ℕ → ℕ
get_vexpand version = version % 256

-- The increment stays in its 8 bits.
unfoldable pub incr_vexpand : ℕ → ℕ
incr_vexpand version = version - version % 256 + (version + 1) % 256

-- `art_node_version_compare_expand`: whether the prefix may have changed between the two.
unfoldable pub version_compare_expand : ℕ → ℕ → Bool
version_compare_expand a b =
    xor (is_expanding a) (is_expanding b) || not (get_vexpand a == get_vexpand b)

-- One round of `art_node_lock` over the version that is read: it waits, fails on an old node, or
-- swaps in the locked version.
pub data LockRound : Type 0 where
  wait refuse : LockRound
  swap : ℕ → LockRound

unfoldable pub try_lock : ℕ → LockRound
try_lock version =
    if is_locked version then wait else if is_old version then refuse else swap (set_lock version)

-- `art_node_unlock`: the version that it stores.
unfoldable pub unlock : ℕ → ℕ
unlock version =
    unset_lock (if is_expanding version then unset_expand (incr_vexpand version) else version)
