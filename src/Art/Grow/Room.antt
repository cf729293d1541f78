-- ===== src/Art/Grow/Room.antt =====
-- A node that has grown has room for another child.
use sidle.Base.{
  ℕ, ◌+◌, ◌^◌, ◌<◌, ◌≤◌, ◌≡◌, ◌≢◌, inl, inr, List, Option, none, some, ◌==◌, arith, refl, sym, ap,
  ◌∙◌, Option-cases, get_or, replicate, length, length-replicate, true, if◌then◌else◌,
}
use sidle.Art.Version.{
  NodeType, node4, node16, node48, node256, get_prefix_len, set_prefix_len, get_count, set_count,
  set_type,
}
use sidle.Art.Node.{Node, child_at, find_key, find_slot, is_full_as}
use sidle.Art.Node.Search.{find_key_16-find_key}
use sidle.Art.Node.Insert.{
  IsShape, HasRoom, find_key_range, direct-get_or, eq_of_filled, indexed, slot_of,
}
use sidle.Art.Prefix.{copy_bytes}
use sidle.Art.Prefix.Copy.{length-copy_bytes}
use sidle.Art.Grow.{new_art_node, fill_index, spread, grow_as}
use sidle.Art.Grow.Arrays.{
  find_key-ext, find_from-find_key, fill_index_lem, length-fill_index, length-spread,
}
use sidle.Art.Grow.Words.{get_count-set_count}
use sidle.Art.Grow.Laws.{
  HasKeys, HasMemory, CanGrow, next_type, copied, get_or-replicate, direct-spread,
}

none-ne-some : ◌≢◌ {A = Option ℕ} none (some 0)
none-ne-some e = cc

abbrev index_of : Option ℕ → ℕ
index_of none = 0
index_of (some j) = j + 1

index-fill_index :
    (key : List ℕ) (b : ℕ)
    → 16 ≤ length key
    → HasKeys key
    → get_or (fill_index 16 0 (replicate 256 0) key) b 0 ≡ index_of (find_key 0 16 key b)
index-fill_index key b size (bytes, distinct) =
    let filled =
      fill_index_lem 16 0 b (replicate 256 0) key (length-replicate {A = ℕ} 256 0) bytes
        (λ j k low high. distinct j k low (omega arith)) in
    let found =
      find_from-find_key 16 0 key key b size (λ j. ap (λ a. get_or key a 0) (omega arith)) in
    elim (Option-cases (find_key 0 16 key b)) [
      | inl f ↦ filled ∙ rw (found, f) (get_or-replicate 256 b)
      | inr (j, f) ↦ filled ∙ rw (found, f) refl
    ]

index_of-find_key : (key : List ℕ) (b : ℕ) → index_of (find_key 0 16 key b) ≤ 16
index_of-find_key key b = elim (Option-cases (find_key 0 16 key b)) [
  | inl f ↦ rw f (omega arith)
  | inr (j, f) ↦ let range = find_key_range key 0 16 b j f in rw f (omega arith)
]

set_type_bound : (t : NodeType) → set_type 0 t < 2 ^ 32
unfolding set_type
set_type_bound node4 = omega arith
set_type_bound node16 = omega arith
set_type_bound node48 = omega arith
set_type_bound node256 = omega arith

set_prefix_len_bound : (v w : ℕ) → v < 2 ^ 32 → set_prefix_len v (get_prefix_len w) < 2 ^ 40
unfolding set_prefix_len get_prefix_len
set_prefix_len_bound v w h = omega arith

set_count_bound : (v n : ℕ) → v < 2 ^ 40 → n < 256 → set_count v n < 2 ^ 48
unfolding set_count
set_count_bound v n h k = omega arith

version_bound :
    (t : NodeType) (v n : ℕ)
    → n < 256
    → set_count (set_prefix_len (set_type 0 t) (get_prefix_len v)) n < 2 ^ 48
version_bound t v n h =
    set_count_bound (set_prefix_len (set_type 0 t) (get_prefix_len v)) n
      (set_prefix_len_bound (set_type 0 t) v (set_type_bound t)) h

-- The new node and whatever its version becomes, if the count stays.
unfoldable pub Room : NodeType → Node → Node → ℕ → Type 0
Room t an raw byte =
    (n : Node) × (grow_as t an raw ≡ some n)
    × (n.version < 2 ^ 48)
    × ((v : ℕ)
        → get_count v ≡ get_count n.version
        → IsShape (next_type t) (record n { version = v })
          × HasRoom (next_type t) (record n { version = v }) byte)

pub grow_as-Room :
    (t : NodeType) (an raw : Node) (byte : ℕ)
    → IsShape t an
    → CanGrow t an
    → HasMemory t raw
    → is_full_as t (get_count an.version) ≡ true
    → byte < 256
    → find_slot t an an.version byte ≡ none
    → Room t an raw byte
unfolding Room grow_as find_slot is_full_as new_art_node
grow_as-Room node4 an raw byte (keys, children, few) can (new_keys, new_children) full range
      absent =
    let four : get_count an.version ≡ 4 = ground arith in
    let p = get_prefix_len an.version in
    let counted = get_count-set_count (set_prefix_len (set_type 0 node16) p) 4 (omega arith) in
    let key' = copy_bytes 4 0 raw.key an.key 0 in
    let size = length-copy_bytes 4 0 raw.key an.key 0 ∙ new_keys in
    (
      _,
      refl,
      version_bound node16 an.version 4 (omega arith),
      λ v same.
          let is_four : get_count v ≡ 4 = same ∙ counted in
          (
            (size, length-copy_bytes 4 0 raw.child an.child 0 ∙ new_children, omega arith),
            (
              range,
              ground arith,
              find_key_16-find_key (get_count v) key' byte (omega arith)
                  ∙ ap (λ m. find_key 0 m key' byte) is_four
                  ∙ find_key-ext 4 0 key' an.key byte (omega arith) (omega arith)
                      (λ j h. copied 4 j raw.key an.key (omega arith) h)
                  ∙ ap (λ m. find_key 0 m an.key byte) (sym four)
                  ∙ absent,
            ),
          ),
    )
grow_as-Room node16 an raw byte (keys, children, few) can new_children full range absent =
    let sixteen : get_count an.version ≡ 16 = ground arith in
    let p = get_prefix_len an.version in
    let counted = get_count-set_count (set_prefix_len (set_type 0 node48) p) 16 (omega arith) in
    let index = fill_index 16 0 (replicate 256 0) an.key in
    let gone : find_key 0 16 an.key byte ≡ none =
      ap (λ m. find_key 0 m an.key byte) (sym sixteen)
      ∙ sym (find_key_16-find_key (get_count an.version) an.key byte few)
      ∙ absent in
    (
      _,
      refl,
      version_bound node48 an.version 16 (omega arith),
      λ v same.
          let empty : get_or index byte 0 ≡ 0 =
            index-fill_index an.key byte (omega arith) can ∙ ap index_of gone in
          let is_sixteen : get_count v ≡ 16 = same ∙ counted in
          (
            (
              length-fill_index 16 0 (replicate 256 0) an.key ∙ length-replicate {A = ℕ} 256 0,
              length-copy_bytes 16 0 raw.child an.child 0 ∙ new_children,
              omega arith,
              λ b.
                  omega (
                    arith,
                    index-fill_index an.key b (omega arith) can,
                    index_of-find_key an.key b,
                  ),
            ),
            (range, ground arith, ap slot_of empty),
          ),
    )
grow_as-Room node48 an raw byte shape can memory full range absent =
    let child' = spread 256 0 (replicate 256 0) an.index an.child in
    let gone : indexed an.index an.child byte ≡ none = ap (child_at an.child) absent in
    let empty : get_or child' byte 0 ≡ 0 = eq_of_filled (get_or child' byte 0) (
      sym (direct-get_or child' byte)
      ∙ direct-spread an.index an.child byte range (λ q. none-ne-some (sym gone ∙ q))
      ∙ gone) in
    (
      _,
      refl,
      omega (arith, set_prefix_len_bound (set_type 0 node256) an.version (set_type_bound node256)),
      λ v same. (
        length-spread 256 0 (replicate 256 0) an.index an.child ∙ length-replicate {A = ℕ} 256 0,
        (range, refl, ap (λ x. if x == 0 then none else some byte) empty),
      ),
    )
grow_as-Room node256 an raw byte shape can memory full range absent = elim can [ ]
