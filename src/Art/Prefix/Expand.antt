-- ===== src/Art/Prefix/Expand.antt =====
-- How a reader notices that a prefix was split: the versions that `art_node_truncate_prefix` and
-- `art_node_unlock` store, and `art_node_version_compare_expand` on them.
use sidle.Base.{◌==◌, ℕ, ◌+◌, ◌-◌, ◌%◌, ◌≡◌, true, false, Bool, ◌||◌, refl, ap, ◌∙◌, arith}
use sidle.Art.Version.{
  get_prefix_len, set_prefix_len, get_offset, set_offset, set_lock, set_expand, unset_lock,
  unset_expand, incr_vexpand, get_vexpand, is_expanding, is_locked, unlock, version_compare_expand,
}
use sidle.Art.Version.Lock.{unlock-set_lock}
use sidle.Art.Node.{Node}
use sidle.Art.Prefix.{truncate_prefix}
use sidle.Art.Prefix.Laws.{
  is_expanding-set_offset, is_expanding-set_prefix_len, is_expanding-set_expand,
}

get_vexpand-set_offset : (v x : ℕ) → get_vexpand (set_offset v x) ≡ get_vexpand v
unfolding get_vexpand set_offset
get_vexpand-set_offset v x = omega arith

get_vexpand-set_prefix_len : (v x : ℕ) → get_vexpand (set_prefix_len v x) ≡ get_vexpand v
unfolding get_vexpand set_prefix_len
get_vexpand-set_prefix_len v x = omega arith

get_vexpand-set_lock : (v : ℕ) → get_vexpand (set_lock v) ≡ get_vexpand v
unfolding get_vexpand set_lock
get_vexpand-set_lock v = omega arith

get_vexpand-set_expand : (v : ℕ) → get_vexpand (set_expand v) ≡ get_vexpand v
unfolding get_vexpand set_expand
get_vexpand-set_expand v = omega arith

get_vexpand-unset_lock : (v : ℕ) → get_vexpand (unset_lock v) ≡ get_vexpand v
unfolding get_vexpand unset_lock
get_vexpand-unset_lock v = omega arith

get_vexpand-unset_expand : (v : ℕ) → get_vexpand (unset_expand v) ≡ get_vexpand v
unfolding get_vexpand unset_expand
get_vexpand-unset_expand v = omega arith

get_vexpand-incr_vexpand : (v : ℕ) → get_vexpand (incr_vexpand v) ≡ (get_vexpand v + 1) % 256
unfolding get_vexpand incr_vexpand
get_vexpand-incr_vexpand v = omega arith

get_vexpand-unlock :
    (v : ℕ) → is_expanding v ≡ true → get_vexpand (unlock v) ≡ (get_vexpand v + 1) % 256
unfolding unlock
get_vexpand-unlock v h =
    rw (h, get_vexpand-unset_lock, get_vexpand-unset_expand) (get_vexpand-incr_vexpand v)

wrap_ne : (n : ℕ) → (n == (n + 1) % 256) ≡ false
wrap_ne n = ground arith

or_true : (b : Bool) → (b || true) ≡ true
or_true true = refl
or_true false = refl

same_version : (v : ℕ) → version_compare_expand v v ≡ false
unfolding version_compare_expand mathlib.Core.Bool.xor
same_version v = ground arith

-- A reader that read the version `v` of a free node finds that the prefix may have changed, while a
-- writer that has locked the node splits its prefix with `art_node_truncate_prefix`, after that, and
-- after `art_node_unlock` has stored the version that counts the split. Where the writer unlocks a
-- node that it has not split, the reader finds no change.
pub version_compare_expand-truncate_prefix :
    (an : Node) (off v : ℕ)
    → is_locked v ≡ false
    → is_expanding v ≡ false
    → an.version ≡ set_lock v
    → let an' = (truncate_prefix an off).1 in
      (version_compare_expand v (set_expand an.version) ≡ true)
      × (version_compare_expand v an'.version ≡ true)
      × (version_compare_expand v (unlock an'.version) ≡ true)
      × (version_compare_expand v (unlock an.version) ≡ false)
unfolding version_compare_expand mathlib.Core.Bool.xor truncate_prefix
version_compare_expand-truncate_prefix an off v free stable locked =
    let w = set_expand an.version in
    let shorter = set_prefix_len w (get_prefix_len w - off - 1) in
    let stored = set_offset shorter (off + get_offset shorter + 1) in
    let expanding : is_expanding stored ≡ true =
      is_expanding-set_offset shorter _
      ∙ is_expanding-set_prefix_len w _
      ∙ is_expanding-set_expand an.version in
    let kept : get_vexpand stored ≡ get_vexpand v =
      get_vexpand-set_offset shorter _
      ∙ get_vexpand-set_prefix_len w _
      ∙ get_vexpand-set_expand an.version
      ∙ ap get_vexpand locked
      ∙ get_vexpand-set_lock v in
    let counted : get_vexpand (unlock stored) ≡ (get_vexpand v + 1) % 256 =
      get_vexpand-unlock stored expanding ∙ ap (λ n. (n + 1) % 256) kept in
    (
      rw (stable, is_expanding-set_expand an.version) refl,
      rw (stable, expanding) refl,
      rw (counted, wrap_ne (get_vexpand v)) (or_true _),
      ap (λ u. version_compare_expand v u) (ap unlock locked ∙ unlock-set_lock v free stable)
          ∙ same_version v,
    )
