-- ===== src/Art/Grow/Words.antt =====
-- What the setters that `art_node_grow` uses leave of a version word.
use sidle.Base.{ℕ, ◌<◌, ◌≡◌, ◌==◌, arith, refl, ap, ◌∙◌, true}
use sidle.Art.Version.{
  NodeType, type_of_code, node4, node16, node48, node256, get_node_type, set_type, set_prefix_len,
  get_count, set_count, set_offset, set_lock, is_locked, set_old, is_old,
}
use sidle.Art.Version.Lock.{is_locked-set_lock}

pub get_count-finish : (v o : ℕ) → get_count (set_offset (set_lock v) o) ≡ get_count v
unfolding get_count set_offset set_lock
get_count-finish v o = omega arith

pub get_node_type-finish : (v o : ℕ) → get_node_type (set_offset (set_lock v) o) ≡ get_node_type v
unfolding get_node_type set_offset set_lock
get_node_type-finish v o = ap type_of_code (omega arith)

pub get_count-set_count : (v x : ℕ) → x < 256 → get_count (set_count v x) ≡ x
unfolding get_count set_count
get_count-set_count v x h = omega arith

pub get_node_type-set_count : (v x : ℕ) → get_node_type (set_count v x) ≡ get_node_type v
unfolding get_node_type set_count
get_node_type-set_count v x = ap type_of_code (omega arith)

pub get_node_type-set_prefix_len : (v x : ℕ) → get_node_type (set_prefix_len v x) ≡ get_node_type v
unfolding get_node_type set_prefix_len
get_node_type-set_prefix_len v x = ap type_of_code (omega arith)

pub get_node_type-set_type : (t : NodeType) → get_node_type (set_type 0 t) ≡ t
unfolding get_node_type set_type
get_node_type-set_type node4 = refl
get_node_type-set_type node16 = refl
get_node_type-set_type node48 = refl
get_node_type-set_type node256 = refl

is_locked-set_offset : (v o : ℕ) → is_locked (set_offset v o) ≡ is_locked v
unfolding is_locked set_offset
is_locked-set_offset v o = ap (λ a. a == 1) (omega arith)

pub is_locked-finish : (v o : ℕ) → is_locked (set_offset (set_lock v) o) ≡ true
is_locked-finish v o = is_locked-set_offset (set_lock v) o ∙ is_locked-set_lock v

pub is_old-set_old : (v : ℕ) → is_old (set_old v) ≡ true
unfolding is_old set_old
is_old-set_old v = ground arith
