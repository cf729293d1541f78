-- ===== src/Cxl/Stride.antt =====
-- `stride_scheduler` and `gcd` of cxl_allocator.c. The tickets are `size_t`, thread-local; the
-- strides are non-negative `int`s.
pub mod Balance
pub mod Gcd
use sidle.Base.{ℕ, zero, suc, ◌+◌, ◌-◌, ◌%◌, Option, none, some, ltb, ◌==◌, if◌then◌else◌, u64}
use sidle.Base.Int.{ℤ, pos, negsuc, pos_part, neg_part, sub_ℕ}

-- `enum DEVICE_TYPE`
pub data Device : Type 0 where
  cxl_dev local_dev unknown_dev : Device

pub record Strides : Type 0 where
  pub local_stride : ℕ
  pub cxl_stride : ℕ

pub record Tickets : Type 0 where
  pub local_ticket : ℕ
  pub cxl_ticket : ℕ

-- `SIZE_MAX`
abbrev pub size_max : ℕ
size_max = 18446744073709551615

abbrev pub no_tickets : Tickets
no_tickets = record { local_ticket = 0; cxl_ticket = 0 }

-- The first part of `stride_scheduler`.
unfoldable pub choose_device : Strides → Tickets → Device
choose_device s t =
    if s.cxl_stride == 0
    then cxl_dev
    else if s.local_stride == 0
    then local_dev
    else if ltb t.cxl_ticket t.local_ticket
    then cxl_dev
    else local_dev

-- The check that runs before a ticket grows: both start again where it would overflow.
unfoldable pub guard_overflow : ℕ → ℕ → Tickets → Tickets
guard_overflow ticket stride t = if ltb (size_max - ticket) stride then no_tickets else t

-- The `switch` of `stride_scheduler`; the additions are those of `size_t`.
unfoldable pub update_ticket : Strides → Device → Tickets → Tickets
unfolding guard_overflow
update_ticket s cxl_dev t =
    let t' = guard_overflow t.cxl_ticket s.cxl_stride t in
    record t' { cxl_ticket = u64 (t'.cxl_ticket + s.cxl_stride) }
update_ticket s local_dev t =
    let t' = guard_overflow t.local_ticket s.local_stride t in
    record t' { local_ticket = u64 (t'.local_ticket + s.local_stride) }
update_ticket s unknown_dev t = t

unfoldable pub stride_scheduler : Strides → Tickets → Device × Tickets
unfolding choose_device update_ticket
stride_scheduler s t = let d = choose_device s t in (d, update_ticket s d t)

-- The size of an `int` without its sign
abbrev pub magnitude : ℤ → ℕ
magnitude i = pos_part i + neg_part i

-- `a % b` on `int`: the remainder has the sign of `a`.
unfoldable pub rem_ℤ : ℤ → ℤ → ℤ
rem_ℤ (pos a) b = pos (a % magnitude b)
rem_ℤ (negsuc a) b = sub_ℕ 0 (suc a % magnitude b)

-- The loop of `gcd`, with fuel for its rounds; `none` means that the fuel ran out.
unfoldable pub gcd_loop : ℕ → ℤ → ℤ → Option ℤ
unfolding rem_ℤ
gcd_loop zero a b = none
gcd_loop (suc fuel) a b =
    let rest = gcd_loop fuel b (rem_ℤ a b) in if magnitude b == 0 then some a else rest

-- The size of `b` falls in every round, so one round more than it is enough (see `Gcd`).
unfoldable pub gcd : ℤ → ℤ → Option ℤ
unfolding gcd_loop
gcd a b = gcd_loop (suc (magnitude b)) a b
