-- ===== src/Art/Prefix.antt =====
-- The compressed prefix of a node (third_party/art/art_node.cc): at most 8 bytes that all keys below
-- the node share. A key is the list of its bytes.
pub mod Copy
pub mod Expand
pub mod Laws
use sidle.Base.{ℕ, zero, suc, ◌+◌, ◌-◌, List, ltb, ◌==◌, if◌then◌else◌, get_or, set}
use sidle.Art.Version.{get_prefix_len, set_prefix_len, get_offset, set_offset, set_expand}
use sidle.Art.Node.{Node}

-- `memcpy(dst, src + off, n)`, from index `i` on
unfoldable pub copy_bytes : ℕ → ℕ → List ℕ → List ℕ → ℕ → List ℕ
copy_bytes zero i dst src off = dst
copy_bytes (suc n) i dst src off = copy_bytes n (i + 1) (set dst i (get_or src (off + i) 0)) src off

-- `art_node_set_prefix`
unfoldable pub set_prefix : Node → List ℕ → ℕ → ℕ → Node
set_prefix an key off prefix_len = record an {
  prefix = copy_bytes prefix_len 0 an.prefix key off;
  version = set_prefix_len an.version prefix_len;
}

-- The loop of `art_node_prefix_compare` at `i`, with `n` bytes of the prefix left.
unfoldable pub compare_loop : ℕ → ℕ → List ℕ → List ℕ → ℕ → ℕ → ℕ
compare_loop zero i prefix key len off = i
compare_loop (suc n) i prefix key len off =
    let rest = compare_loop n (i + 1) prefix key len (off + 1) in
    if ltb off len then if get_or prefix i 0 == get_or key off 0 then rest else i else i

-- `art_node_prefix_compare`
unfoldable pub prefix_compare : Node → ℕ → List ℕ → ℕ → ℕ → ℕ
prefix_compare an version key len off =
    compare_loop (get_prefix_len version) 0 an.prefix key len off

-- The loop of `art_node_truncate_prefix`: `prefix[i] = prefix[j]`, `n` times.
unfoldable pub shift_prefix : ℕ → ℕ → ℕ → List ℕ → List ℕ
shift_prefix zero i j prefix = prefix
shift_prefix (suc n) i j prefix = shift_prefix n (i + 1) (j + 1) (set prefix i (get_or prefix j 0))

-- `art_node_truncate_prefix`: the byte that it returns, and the node.
unfoldable pub truncate_prefix : Node → ℕ → ℕ × Node
truncate_prefix an off =
    let version = set_expand an.version in
    let prefix_len = get_prefix_len version in
    let shorter = set_prefix_len version (prefix_len - off - 1) in
    (
      get_or an.prefix off 0,
      record an {
        prefix = shift_prefix (prefix_len - (off + 1)) 0 (off + 1) an.prefix;
        version = set_offset shorter (off + get_offset shorter + 1);
      },
    )
