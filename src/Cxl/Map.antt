-- ===== src/Cxl/Map.antt =====
-- `mmap_with_cxl` and `mmap_on_cxl` of cxl_allocator.c. `mmap` itself is a parameter, with
-- `MAP_FAILED` as `none`; its file, protection and flags are left out, but for whether the file is
-- the device. The offset into the device is an atomic `size_t`, and no other thread moves it
-- between the two uses of one call.
use sidle.Base.{
  ℕ, ◌+◌, ◌-◌, ◌*◌, ◌/◌, ◌%◌, ◌^◌, ◌≤◌, ◌<◌, ◌≡◌, Bool, true, false, Option, none, some, arith, u64,
  ◌⊎◌, inl, inr, refl, sym, ◌∙◌, Option-cases,
}
use sidle.Cxl.Stride.{Device, cxl_dev, Tickets}
use sidle.Cxl.Init.{Allocator, cxl_min_size}
use sidle.Cxl.Alloc.{pick_device}

-- A mapping: whether it is of the device, its length, and its offset.
pub record Mapping : Type 0 where
  pub device : Bool
  pub length : ℕ
  pub offset : ℕ

advance : Allocator → ℕ → Allocator
advance a length = record a { cxl_offset = u64 (a.cxl_offset + length) }

map_device : Device → (Mapping → Option ℕ) → Allocator → ℕ → Option ℕ × Allocator
unfolding advance
map_device cxl_dev mmap a length =
    (mmap (record { device = true; length = length; offset = a.cxl_offset }), advance a length)
map_device _ mmap a length = (none, a)

unfoldable pub mmap_with_cxl :
    (Mapping → Option ℕ) → Allocator → ℕ → Tickets → Option ℕ × Allocator × Tickets
unfolding map_device
mmap_with_cxl mmap a length t =
    let (d, t') = pick_device a t in let (r, a') = map_device d mmap a length in (r, a', t')

-- `(length + CXL_MIN_SIZE - 1) / CXL_MIN_SIZE * CXL_MIN_SIZE`, in `size_t`
unfoldable pub round_length : ℕ → ℕ
round_length length = u64 (u64 (length + cxl_min_size - 1) / cxl_min_size * cxl_min_size)

-- The fallback maps the caller's file at the caller's offset, with the rounded length.
unfoldable pub mmap_on_cxl : (Mapping → Option ℕ) → Allocator → ℕ → ℕ → ℕ × Option ℕ × Allocator
unfolding advance round_length
mmap_on_cxl mmap a length offset =
    let rounded = round_length length in
    let first = mmap (record { device = true; length = rounded; offset = a.cxl_offset }) in
    let second = mmap (record { device = false; length = rounded; offset = offset }) in
    elim first [ none ↦ (0, second, advance a rounded) | some p ↦ (1, some p, advance a rounded) ]

-- A length is rounded up to a multiple of `CXL_MIN_SIZE`, by less than one such unit, where the sum
-- fits a `size_t`.
round_length_lem :
    (length : ℕ)
    → length + cxl_min_size ≤ 2 ^ 64
    → (round_length length % cxl_min_size ≡ 0)
      × (length ≤ round_length length)
      × (round_length length < length + cxl_min_size)
unfolding round_length
round_length_lem length h = omega arith

-- A mapping of the device at the allocator's offset
abbrev pub at_offset : Allocator → ℕ → Mapping
at_offset a length = record { device = true; length = length; offset = a.cxl_offset }

-- A call of `mmap_on_cxl` by its outcome: with 1 it gives what `mmap` gave for the mapping, and with 0
-- there is none of the device.
abbrev pub Maps : (Mapping → Option ℕ) → Mapping → ℕ → Option ℕ → Type 0
Maps mmap m flag r =
    ((p : ℕ) × (flag ≡ 1) × (mmap m ≡ some p) × (r ≡ some p)) ⊎ ((flag ≡ 0) × (mmap m ≡ none))

mmap_on_cxl-Maps :
    (mmap : Mapping → Option ℕ) (a : Allocator) (length offset : ℕ)
    → let (flag, r, a') = mmap_on_cxl mmap a length offset in
      Maps mmap (at_offset a (round_length length)) flag r
      × (a'.cxl_offset ≡ u64 (a.cxl_offset + round_length length))
unfolding mmap_on_cxl
mmap_on_cxl-Maps mmap a length offset =
    elim (Option-cases (mmap (at_offset a (round_length length)))) [
      | inl e ↦ (inr (ground arith, e), ground arith)
      | inr (p, e) ↦ (inl (p, ground arith, e, ground arith), ground arith)
    ]

-- Two calls of `mmap_on_cxl`, one after the other, each ask `mmap` for a mapping of the device that is
-- at least as long as was wanted, and return it with 1 where they get it. The two mappings do not
-- overlap: the second starts where the first ends, and both start at a multiple of `CXL_MIN_SIZE` if
-- the first does. The lengths and the offset must not reach the end of `size_t`.
pub mmap_on_cxl_disjoint :
    (mmap : Mapping → Option ℕ) (a : Allocator) (length length' offset offset' : ℕ)
    → a.cxl_offset + length + cxl_min_size < 2 ^ 64
    → length' + cxl_min_size ≤ 2 ^ 64
    → a.cxl_offset % cxl_min_size ≡ 0
    → let (flag, r, a') = mmap_on_cxl mmap a length offset in
      let (flag', r', a'') = mmap_on_cxl mmap a' length' offset' in
      (m : Mapping) × (m' : Mapping) × Maps mmap m flag r
      × Maps mmap m' flag' r'
      × (m.device ≡ true)
      × (m'.device ≡ true)
      × (length ≤ m.length)
      × (length' ≤ m'.length)
      × (m.offset + m.length ≡ m'.offset)
      × (m.offset % cxl_min_size ≡ 0)
      × (m'.offset % cxl_min_size ≡ 0)
mmap_on_cxl_disjoint mmap a length length' offset offset' room room' aligned =
    let a' = (mmap_on_cxl mmap a length offset).2 in
    let (maps, moved) = mmap_on_cxl-Maps mmap a length offset in
    let (maps', moved') = mmap_on_cxl-Maps mmap a' length' offset' in
    let (whole, long, short) = round_length_lem length (omega arith) in
    let (whole', long', short') = round_length_lem length' room' in
    let next : a'.cxl_offset ≡ a.cxl_offset + round_length length = moved ∙ omega arith in
    (
      at_offset a (round_length length),
      at_offset a' (round_length length'),
      maps,
      maps',
      refl,
      refl,
      long,
      long',
      sym next,
      aligned,
      omega arith,
    )
