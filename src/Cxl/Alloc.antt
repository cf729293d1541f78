-- ===== src/Cxl/Alloc.antt =====
-- The allocating functions of cxl_allocator.c. memkind and the C library are parameters: each call
-- takes the state of the two heaps and returns the new one. A null pointer is `none`, and what the
-- code prints to stderr is left out.
pub mod Laws
use sidle.Base.{
  ℕ, ◌+◌, Bool, true, false, not, ◌&&◌, Option, none, some, ltb, leb, ◌==◌, if◌then◌else◌,
}
use sidle.Cxl.Stride.{Device, cxl_dev, local_dev, unknown_dev, Tickets, stride_scheduler}
use sidle.Cxl.Init.{Allocator}

-- A request to one of the two heaps.
abbrev pub Request : Type 0 → Type 0
Request St = St → Option ℕ × St

-- `posix_memalign` and its memkind version: the status, what is left in `*memptr`, the heaps.
abbrev pub Memalign : Type 0 → Type 0
Memalign St = ℕ → ℕ → ℕ → St → ℕ × ℕ × St

-- `if (cxl_kind != NULL) dev_type = stride_scheduler();`
unfoldable pub pick_device : Allocator → Tickets → Device × Tickets
pick_device a t = if a.kind then stride_scheduler a.strides t else (unknown_dev, t)

-- The part after the first attempt on the device: local memory, then, unless the device was tried
-- already, the device.
or_cxl : {St : Type 0} → Option ℕ → Request St → Request St
or_cxl none cxl st = cxl st
or_cxl (some p) cxl st = (some p, st)

unfoldable pub serve : {St : Type 0} → Device → Request St → Request St → Request St
unfolding or_cxl
serve cxl_dev cxl local st =
    let (r, st') = cxl st in elim r [ none ↦ local st' | some p ↦ (some p, st') ]
serve local_dev cxl local st = let (r, st') = local st in or_cxl r cxl st'
serve unknown_dev cxl local st = let (r, st') = local st in or_cxl r cxl st'

is_cxl : Device → Bool
is_cxl cxl_dev = true
is_cxl _ = false

-- `ptr >= mmap_start_point && ptr < mmap_end_point`
unfoldable pub in_region : Allocator → ℕ → Bool
in_region a p = leb a.mmap_start_point p && ltb p a.mmap_end_point

-- The same by whether `cxl_kind` is set. Without it memkind would be called with a null pointer, which
-- it does not allow: then there is no outcome.
unfoldable pub serve_kind :
    {St : Type 0} → Bool → Device → Request St → Request St → St → Option (Option ℕ × St)
unfolding serve
serve_kind true d cxl local st = some (serve d cxl local st)
serve_kind false d cxl local st =
    let (r, st') = local st in elim r [ none ↦ none | some p ↦ some (some p, st') ]

pub with_tickets :
    {St : Type 0} → Tickets → Option (Option ℕ × St) → Option (Option ℕ × Tickets × St)
with_tickets t none = none
with_tickets t (some (r, st)) = some (r, t, st)

module _ {St : Type 0} where
  unfoldable pub malloc_with_cxl :
      (Bool → ℕ → Request St)
      → (ℕ → Request St)
      → Allocator
      → ℕ
      → Tickets
      → St
      → Option (Option ℕ × Tickets × St)
  unfolding pick_device serve_kind with_tickets
  malloc_with_cxl memkind_malloc malloc a size t st =
      let (d, t') = pick_device a t in
      with_tickets t' (serve_kind a.kind d (memkind_malloc a.kind size) (malloc size) st)

  unfoldable pub calloc_with_cxl :
      (Bool → ℕ → ℕ → Request St)
      → (ℕ → ℕ → Request St)
      → Allocator
      → ℕ
      → ℕ
      → Tickets
      → St
      → Option (Option ℕ × Tickets × St)
  unfolding pick_device serve_kind with_tickets
  calloc_with_cxl memkind_calloc calloc a num size t st =
      let (d, t') = pick_device a t in
      with_tickets t' (serve_kind a.kind d (memkind_calloc a.kind num size) (calloc num size) st)

  -- A reallocation stays on the heap that holds the pointer.
  unfoldable pub realloc_with_cxl :
      (Bool → ℕ → ℕ → Request St) → (ℕ → ℕ → Request St) → Allocator → ℕ → ℕ → Request St
  unfolding in_region
  realloc_with_cxl memkind_realloc realloc a p new_size =
      if in_region a p then memkind_realloc a.kind p new_size else realloc p new_size

  unfoldable pub free_with_cxl : (Bool → ℕ → St → St) → (ℕ → St → St) → Allocator → ℕ → St → St
  unfolding in_region
  free_with_cxl memkind_free free a p = if in_region a p then memkind_free a.kind p else free p

  -- `posix_memalign_with_cxl` after the choice of the device.
  memalign_local : Device → Memalign St → Memalign St → Memalign St
  unfolding is_cxl
  memalign_local d cxl local ptr align size st =
      let (code, ptr', st') = local ptr align size st in
      if not (code == 0) && not (is_cxl d) then cxl ptr' align size st' else (code, ptr', st')

  memalign_serve : Device → Memalign St → Memalign St → Memalign St
  unfolding memalign_local
  memalign_serve cxl_dev cxl local ptr align size st =
      let (code, ptr', st') = cxl ptr align size st in
      if code == 0 then (code, ptr', st') else memalign_local cxl_dev cxl local ptr' align size st'
  memalign_serve d cxl local ptr align size st = memalign_local d cxl local ptr align size st

  unfoldable pub posix_memalign_with_cxl :
      (Bool → Memalign St)
      → Memalign St
      → Allocator
      → ℕ
      → ℕ
      → ℕ
      → Tickets
      → St
      → (ℕ × ℕ × St) × Tickets
  unfolding pick_device memalign_serve
  posix_memalign_with_cxl memkind_memalign memalign a ptr align size t st =
      let (d, t') = pick_device a t in
      (memalign_serve d (memkind_memalign a.kind) memalign ptr align size st, t')

  -- The `_on_cxl` functions skip the scheduler. Their result says whether the device served.
  unfoldable pub malloc_on_cxl :
      (Bool → ℕ → Request St) → (ℕ → Request St) → Allocator → ℕ → St → ℕ × Option ℕ × St
  malloc_on_cxl memkind_malloc malloc a size st =
      let (r, st') = memkind_malloc a.kind size st in
      let (r', st'') = malloc size st' in
      elim r [ none ↦ (0, r', st'') | some p ↦ (1, some p, st') ]

  unfoldable pub calloc_on_cxl :
      (Bool → ℕ → ℕ → Request St)
      → (ℕ → ℕ → Request St)
      → Allocator
      → ℕ
      → ℕ
      → St
      → ℕ × Option ℕ × St
  calloc_on_cxl memkind_calloc calloc a num size st =
      let (r, st') = memkind_calloc a.kind num size st in
      let (r', st'') = calloc num size st' in
      elim r [ none ↦ (0, r', st'') | some p ↦ (1, some p, st') ]

  unfoldable pub posix_memalign_on_cxl :
      (Bool → Memalign St) → Memalign St → Allocator → Memalign St
  posix_memalign_on_cxl memkind_memalign memalign a ptr align size st =
      let (code, ptr', st') = memkind_memalign a.kind ptr align size st in
      if not (code == 0) && not (size == 0) then memalign ptr' align size st' else (code, ptr', st')
