-- ===== src/Tests/Cxl.antt =====
-- The theorems on cxl_allocator.c at concrete inputs: a device with a quarter of the requests.
use sidle.Base.{
  ℕ, ◌+◌, ◌*◌, ◌%◌, ◌-◌, ◌≤◌, ◌<◌, ◌≡◌, ◌≢◌, ◌⊎◌, refl, Bool, true, false, Option, none, some,
  if◌then◌else◌, ltb, arith,
}
use sidle.Base.Int.{ℤ, pos, negsuc}
use sidle.Cxl.Stride.{
  Strides, Tickets, no_tickets, size_max, gcd, gcd_loop, rem_ℤ, magnitude, stride_scheduler,
}
use sidle.Cxl.Stride.Gcd.{IsGcd, IsSigned, gcd-IsGcd}
use sidle.Cxl.Stride.Balance.{count_cxl, count_cxl_share}
use sidle.Cxl.Init.{Allocator, Replies, running, init_strides, cxl_init}
use sidle.Cxl.Init.Laws.{IsStarted, cxl_init-IsStarted}
use sidle.Cxl.Alloc.{
  Request, Memalign, malloc_with_cxl, calloc_with_cxl, free_with_cxl, realloc_with_cxl,
  posix_memalign_with_cxl, pick_device, serve,
}
use sidle.Cxl.Alloc.Laws.{Gives, Serves, malloc_with_cxl-Serves, free_with_cxl-malloc_with_cxl}
use sidle.Cxl.Map.{Mapping, Maps, mmap_on_cxl, mmap_on_cxl_disjoint}

abbrev quarter : Strides
quarter = record { local_stride = 1; cxl_stride = 3 }

abbrev pub none_on : Strides
none_on = record { local_stride = 1; cxl_stride = 0 }

init_quarter : init_strides 25 ≡ some quarter
unfolding init_strides gcd gcd_loop rem_ℤ
init_quarter = refl

gcd-IsGcd_example :
    (g : ℤ) × (gcd (pos 4) (negsuc 5) ≡ some g)
    × IsGcd 4 6 (magnitude g)
    × IsSigned (pos 4) (negsuc 5) g
gcd-IsGcd_example = gcd-IsGcd (pos 4) (negsuc 5)

count_cxl_share_example :
    (100 * count_cxl quarter 10 no_tickets ≤ 10 * 25 + (100 - 25))
    × (10 * 25 ≤ 100 * count_cxl quarter 10 no_tickets + 25)
count_cxl_share_example =
    count_cxl_share 25 10 quarter (omega arith) (omega arith) init_quarter (omega arith)

abbrev never : Strides
never = record { local_stride = 0; cxl_stride = 1 }

abbrev always : Strides
always = record { local_stride = 1; cxl_stride = 0 }

init_never : init_strides 0 ≡ some never
unfolding init_strides
init_never = refl

init_always : init_strides 100 ≡ some always
unfolding init_strides
init_always = refl

abbrev full_tickets : Tickets
full_tickets = record { local_ticket = size_max; cxl_ticket = size_max - 1 }

abbrev pub closed : Allocator
closed = record {
  kind = false;
  cxl_current_size = 0;
  percentage_on_cxl = 10;
  mmap_start_point = 0;
  mmap_end_point = 0;
  cxl_fd = pos 0;
  cxl_offset = 0;
  strides = none_on;
}

abbrev pub answers : Replies
answers = record { opened = pos 3; mapped = some 4096; kind_error = 0 }

abbrev no_device : Replies
no_device = record { opened = negsuc 0; mapped = none; kind_error = 0 }

cxl_init-IsStarted_example :
    (a' : Allocator) × (cxl_init closed 4194304 (pos 25) answers ≡ running a')
    × IsStarted 4194304 (pos 25) 10 3 4096 a'
cxl_init-IsStarted_example =
    cxl_init-IsStarted closed 4194304 (pos 25) answers 3 4096 refl refl refl refl

abbrev started : Allocator
started = record {
  kind = true;
  cxl_current_size = 4194304;
  percentage_on_cxl = 25;
  mmap_start_point = 4096;
  mmap_end_point = 4198400;
  cxl_fd = pos 3;
  cxl_offset = 0;
  strides = quarter;
}

cxl_init_starts : cxl_init closed 4194304 (pos 25) answers ≡ running started
unfolding cxl_init gcd gcd_loop rem_ℤ
cxl_init_starts = refl

-- Two heaps that hand out addresses in order, each up to a number of bytes.
abbrev opened_region : Allocator
opened_region = record closed {
  kind = true;
  mmap_start_point = 4096;
  mmap_end_point = 8192;
  cxl_fd = pos 3;
  strides = quarter;
}

abbrev Heaps : Type 0
Heaps = ℕ × ℕ

abbrev device_malloc : Bool → ℕ → Request Heaps
device_malloc kind size (used, other) =
    if ltb 4096 (used + size + 1)
    then (none, (used, other))
    else (some (4096 + used), (used + size, other))

abbrev local_malloc : ℕ → Request Heaps
local_malloc size (used, other) =
    if ltb 4000 (other + size) then (none, (used, other)) else (some other, (used, other + size))

abbrev device_calloc : Bool → ℕ → ℕ → Request Heaps
device_calloc kind num size = device_malloc kind (num * size)

abbrev local_calloc : ℕ → ℕ → Request Heaps
local_calloc num size = local_malloc (num * size)

abbrev device_free : Bool → ℕ → Heaps → Heaps
device_free kind p (used, other) = (used - 1, other)

abbrev local_free : ℕ → Heaps → Heaps
local_free p (used, other) = (used, other - 1)

abbrev device_realloc : Bool → ℕ → ℕ → Request Heaps
device_realloc kind p = device_malloc kind

abbrev local_realloc : ℕ → ℕ → Request Heaps
local_realloc p = local_malloc

device-Gives : (q : ℕ) → Gives (device_malloc true 64) q → (4096 ≤ q) × (q < 8192)
device-Gives q (st, h) = ground arith

local-Gives : (q : ℕ) → Gives (local_malloc 64) q → (q < 4096) ⊎ (8192 ≤ q)
local-Gives q (st, h) = ground arith

first_malloc :
    (malloc_with_cxl device_malloc local_malloc opened_region 64 no_tickets (0, 0))
    ≡ some (some 0, record { local_ticket = 1; cxl_ticket = 0 }, (0, 64))
unfolding malloc_with_cxl pick_device stride_scheduler serve sidle.Cxl.Alloc.serve_kind
first_malloc = refl

free_with_cxl-malloc_with_cxl_example :
    (Gives (device_malloc true 64) 0
      × (free_with_cxl device_free local_free opened_region 0 ≡ device_free true 0)
      × (realloc_with_cxl device_realloc local_realloc opened_region 0 128
          ≡ device_realloc true 0 128))
    ⊎ (Gives (local_malloc 64) 0
        × (free_with_cxl device_free local_free opened_region 0 ≡ local_free 0)
        × (realloc_with_cxl device_realloc local_realloc opened_region 0 128 ≡ local_realloc 0 128))
free_with_cxl-malloc_with_cxl_example =
    free_with_cxl-malloc_with_cxl device_malloc local_malloc device_free local_free device_realloc
      local_realloc opened_region 64 128 no_tickets (record { local_ticket = 1; cxl_ticket = 0 })
      (0, 0) (0, 64) 0 device-Gives local-Gives first_malloc

abbrev device_memalign : Bool → Memalign Heaps
device_memalign kind ptr align size st = (12, ptr, st)

abbrev local_memalign : Memalign Heaps
local_memalign ptr align size st = (22, ptr, st)

memalign_fails :
    (posix_memalign_with_cxl device_memalign local_memalign opened_region 0 3 64 no_tickets
      (0, 0)).0.0
    ≢ 0
unfolding posix_memalign_with_cxl
memalign_fails = ground arith

abbrev maps_all : Mapping → Option ℕ
maps_all m = some (4096 + m.offset)

mmap_on_cxl_disjoint_example :
    let (flag, r, a') = mmap_on_cxl maps_all opened_region 5000 0 in
    let (flag', r', a'') = mmap_on_cxl maps_all a' 7000 0 in
    (m : Mapping) × (m' : Mapping) × Maps maps_all m flag r
    × Maps maps_all m' flag' r'
    × (m.device ≡ true)
    × (m'.device ≡ true)
    × (5000 ≤ m.length)
    × (7000 ≤ m'.length)
    × (m.offset + m.length ≡ m'.offset)
    × (m.offset % 2097152 ≡ 0)
    × (m'.offset % 2097152 ≡ 0)
mmap_on_cxl_disjoint_example =
    mmap_on_cxl_disjoint maps_all opened_region 5000 7000 0 0 (omega arith) (omega arith)
      (omega arith)

malloc_with_cxl-Serves_example :
    Serves opened_region no_tickets
      (device_malloc true 1000)
      (local_malloc 1000)
      (0, 0)
      (malloc_with_cxl device_malloc local_malloc opened_region 1000 no_tickets (0, 0))
    × Serves opened_region no_tickets
        (device_calloc true 9 1000)
        (local_calloc 9 1000)
        (0, 0)
        (calloc_with_cxl device_calloc local_calloc opened_region 9 1000 no_tickets (0, 0))
malloc_with_cxl-Serves_example =
    malloc_with_cxl-Serves device_malloc local_malloc device_calloc local_calloc opened_region 9
      1000 no_tickets (0, 0)
