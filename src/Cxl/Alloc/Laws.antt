-- ===== src/Cxl/Alloc/Laws.antt =====
-- What the allocating functions promise, for any memkind and any C library.
use sidle.Base.{
  ℕ, ◌<◌, ◌≤◌, ◌≡◌, ◌≢◌, ◌⊎◌, Bool, Option, none, some, arith, inl, inr, refl, ap, true, false,
  Bool-cases, Option-cases,
}
use sidle.Cxl.Stride.{Device, cxl_dev, local_dev, unknown_dev, Tickets, stride_scheduler}
use sidle.Cxl.Init.{Allocator}
use sidle.Cxl.Alloc.{
  Request, Memalign, pick_device, serve, serve_kind, with_tickets, malloc_with_cxl, calloc_with_cxl,
  free_with_cxl, realloc_with_cxl, memalign_serve, posix_memalign_with_cxl, malloc_on_cxl,
}

module _ {St : Type 0} where
  -- A request gave this pointer in some state of the heaps.
  abbrev pub Gives : Request St → ℕ → Type 0
  Gives ask p = (st : St) × ((ask st).0 ≡ some p)

  -- Two heaps are asked in turn: the second one only where the first one refuses, in the state that
  -- this leaves, and then its answer is the outcome.
  abbrev pub InTurn : Request St → Request St → St → Option ℕ → St → Type 0
  InTurn first second st r st' =
      ((p : ℕ) × ((first st).0 ≡ some p) × (r ≡ some p) × (st' ≡ (first st).1))
      ⊎ (((first st).0 ≡ none) × (r ≡ (second (first st).1).0) × (st' ≡ (second (first st).1).1))

  -- The order in which the heaps are asked
  abbrev pub IsServed : Device → Request St → Request St → St → Option ℕ → St → Type 0
  IsServed cxl_dev cxl local = InTurn cxl local
  IsServed local_dev cxl local = InTurn local cxl
  IsServed unknown_dev cxl local = InTurn local cxl

  serve-IsServed :
      (d : Device) (cxl local : Request St) (st : St)
      → IsServed d cxl local st (serve d cxl local st).0 (serve d cxl local st).1
  unfolding serve
  serve-IsServed cxl_dev cxl local st = elim (Option-cases (cxl st).0) [
    | inl h ↦ inr (h, rw (h, serve) refl, rw (h, serve) refl)
    | inr (p, h) ↦ inl (p, h, rw (h, serve) refl, rw (h, serve) refl)
  ]
  serve-IsServed local_dev cxl local st = elim (Option-cases (local st).0) [
    | inl h ↦ inr (h, rw h refl, rw h refl)
    | inr (p, h) ↦ inl (p, h, rw h refl, rw h refl)
  ]
  serve-IsServed unknown_dev cxl local st = elim (Option-cases (local st).0) [
    | inl h ↦ inr (h, rw h refl, rw h refl)
    | inr (p, h) ↦ inl (p, h, rw h refl, rw h refl)
  ]

  -- Every outcome of a request, with the tickets after it.
  abbrev pub Serves :
      Allocator → Tickets → Request St → Request St → St → Option (Option ℕ × Tickets × St) → Type 0
  Serves a t cxl local st out =
      ((a.kind ≡ true)
        × (r : Option ℕ) × (st' : St) × (out ≡ some (r, (stride_scheduler a.strides t).1, st'))
        × IsServed (stride_scheduler a.strides t).0 cxl local st r st')
      ⊎ ((a.kind ≡ false)
          × (p : ℕ) × ((local st).0 ≡ some p)
          × (out ≡ some (some p, t, (local st).1)))
      ⊎ ((a.kind ≡ false) × ((local st).0 ≡ none) × (out ≡ none))

  serve_kind-Serves :
      (a : Allocator) (t : Tickets) (cxl local : Request St) (st : St)
      → Serves a t cxl local st
          (with_tickets (pick_device a t).1 (serve_kind a.kind (pick_device a t).0 cxl local st))
  unfolding serve_kind pick_device with_tickets
  serve_kind-Serves a t cxl local st = elim (Bool-cases a.kind) [
    | inl on ↦
        let d = (stride_scheduler a.strides t).0 in
        inl (
          on,
          (serve d cxl local st).0,
          (serve d cxl local st).1,
          rw on refl,
          serve-IsServed d cxl local st,
        )
    | inr off ↦ elim (Option-cases (local st).0) [
      | inl h ↦ inr (inr (off, h, rw (off, h, serve_kind) refl))
      | inr (p, h) ↦ inr (inl (off, p, h, rw (off, h, serve_kind) refl))
    ]
  ]

  serve-some :
      (d : Device) (cxl local : Request St) (st : St) (p : ℕ)
      → (serve d cxl local st).0 ≡ some p
      → Gives cxl p ⊎ Gives local p
  unfolding serve
  serve-some cxl_dev cxl local st p h = elim (Option-cases (cxl st).0) [
    | inl e ↦ inr ((cxl st).1, ground arith)
    | inr (q, e) ↦ inl (st, ground arith)
  ]
  serve-some local_dev cxl local st p h = elim (Option-cases (local st).0) [
    | inl e ↦ inl ((local st).1, ground arith)
    | inr (q, e) ↦ inr (st, ground arith)
  ]
  serve-some unknown_dev cxl local st p h = elim (Option-cases (local st).0) [
    | inl e ↦ inl ((local st).1, ground arith)
    | inr (q, e) ↦ inr (st, ground arith)
  ]

serve_kind-some :
    {St : Type 0} (kind : Bool) (d : Device) (cxl local : Request St) (st : St) (p : ℕ)
    (t t' : Tickets) (st' : St)
    → with_tickets t (serve_kind kind d cxl local st) ≡ some (some p, t', st')
    → Gives cxl p ⊎ Gives local p
unfolding serve_kind with_tickets
serve_kind-some true d cxl local st p t t' st' h =
    let given : (serve d cxl local st).0 ≡ some p =
      ap (λ o. elim o as (λ x. Option ℕ) [ none ↦ none | some x ↦ x.0 ]) h in
    serve-some d cxl local st p given
serve_kind-some false d cxl local st p t t' st' h = elim (Option-cases (local st).0) [
  | inl e ↦ absurd (ground arith)
  | inr (q, e) ↦ inr (st, ground arith)
]

-- Once the allocator has a kind, `malloc_with_cxl` and `calloc_with_cxl` ask first the heap that the
-- scheduler names and then, where that one refuses, the other one; the outcome is the first pointer
-- that they get, and none where both refuse in that order. Before that they ask `malloc` or `calloc`
-- alone: a pointer of these is the outcome, and where they refuse memkind is called with a null kind,
-- which leaves no outcome.
pub malloc_with_cxl-Serves :
    {St : Type 0} (memkind_malloc : Bool → ℕ → Request St) (malloc : ℕ → Request St)
    (memkind_calloc : Bool → ℕ → ℕ → Request St) (calloc : ℕ → ℕ → Request St) (a : Allocator)
    (num size : ℕ) (t : Tickets) (st : St)
    → Serves a t
        (memkind_malloc a.kind size)
        (malloc size)
        st
        (malloc_with_cxl memkind_malloc malloc a size t st)
      × Serves a t
          (memkind_calloc a.kind num size)
          (calloc num size)
          st
          (calloc_with_cxl memkind_calloc calloc a num size t st)
unfolding malloc_with_cxl calloc_with_cxl
malloc_with_cxl-Serves memkind_malloc malloc memkind_calloc calloc a num size t st = (
  serve_kind-Serves a t (memkind_malloc a.kind size) (malloc size) st,
  serve_kind-Serves a t (memkind_calloc a.kind num size) (calloc num size) st,
)

-- A pointer that `malloc_with_cxl` returned is freed, and reallocated, by the heap that it came
-- from. memkind is taken to give pointers inside the mapped region, and `malloc` outside it.
pub free_with_cxl-malloc_with_cxl :
    {St : Type 0} (memkind_malloc : Bool → ℕ → Request St) (malloc : ℕ → Request St)
    (memkind_free : Bool → ℕ → St → St) (free : ℕ → St → St)
    (memkind_realloc : Bool → ℕ → ℕ → Request St) (realloc : ℕ → ℕ → Request St) (a : Allocator)
    (size new_size : ℕ) (t t' : Tickets) (st st' : St) (p : ℕ)
    → ((q : ℕ)
        → Gives (memkind_malloc a.kind size) q
        → (a.mmap_start_point ≤ q) × (q < a.mmap_end_point))
    → ((q : ℕ) → Gives (malloc size) q → (q < a.mmap_start_point) ⊎ (a.mmap_end_point ≤ q))
    → malloc_with_cxl memkind_malloc malloc a size t st ≡ some (some p, t', st')
    → (Gives (memkind_malloc a.kind size) p
        × (free_with_cxl memkind_free free a p ≡ memkind_free a.kind p)
        × (realloc_with_cxl memkind_realloc realloc a p new_size
            ≡ memkind_realloc a.kind p new_size))
      ⊎ (Gives (malloc size) p
          × (free_with_cxl memkind_free free a p ≡ free p)
          × (realloc_with_cxl memkind_realloc realloc a p new_size ≡ realloc p new_size))
unfolding malloc_with_cxl free_with_cxl realloc_with_cxl
free_with_cxl-malloc_with_cxl mm m mf f mr r a size new_size t t' st st' p inside outside h =
    elim (serve_kind-some a.kind (pick_device a t).0 (mm a.kind size) (m size) st p
      (pick_device a t).1 t' st' h) [
        | inl g ↦ let range = inside p g in inl (g, ground arith, ground arith)
        | inr g ↦ let range = outside p g in inr (g, ground arith, ground arith)
      ]

-- The `_on_cxl` functions try the device first: they report 1 with the pointer that memkind gave,
-- and otherwise 0 with whatever local memory answers.
pub malloc_on_cxl_lem :
    {St : Type 0} (memkind_malloc : Bool → ℕ → Request St) (malloc : ℕ → Request St) (a : Allocator)
    (size : ℕ) (st : St)
    → let (flag, r, st') = malloc_on_cxl memkind_malloc malloc a size st in
      let (given, next) = memkind_malloc a.kind size st in
      ((p : ℕ) × (given ≡ some p) × (flag ≡ 1) × (r ≡ some p) × (st' ≡ next))
      ⊎ ((given ≡ none) × (flag ≡ 0) × (r ≡ (malloc size next).0) × (st' ≡ (malloc size next).1))
unfolding malloc_on_cxl
malloc_on_cxl_lem memkind_malloc malloc a size st =
    elim (Option-cases (memkind_malloc a.kind size st).0) [
      | inl e ↦ inr (e, ground arith, ground arith, ground arith)
      | inr (p, e) ↦ inl (p, e, ground arith, ground arith, ground arith)
    ]

module _ {St : Type 0} where
  -- A request ended with an error status in some state.
  abbrev pub Fails : Memalign St → ℕ → ℕ → Type 0
  Fails ask align size = (q : ℕ) × (st : St) × ((ask q align size st).0 ≢ 0)

  memalign_serve-Fails :
      (d : Device) (cxl local : Memalign St) (ptr align size : ℕ) (st : St)
      → (memalign_serve d cxl local ptr align size st).0 ≢ 0
      → Fails cxl align size × Fails local align size
  unfolding memalign_serve
  memalign_serve-Fails cxl_dev cxl local ptr align size st h =
      let (code, q, st') = cxl ptr align size st in
      ((ptr, st, ground arith), (q, st', ground arith))
  memalign_serve-Fails local_dev cxl local ptr align size st h =
      let (code, q, st') = local ptr align size st in
      ((q, st', ground arith), (ptr, st, ground arith))
  memalign_serve-Fails unknown_dev cxl local ptr align size st h =
      let (code, q, st') = local ptr align size st in
      ((q, st', ground arith), (ptr, st, ground arith))

-- `posix_memalign_with_cxl` reports an error only where memkind and the C library both reported one.
pub posix_memalign_with_cxl-Fails :
    {St : Type 0} (memkind_memalign : Bool → Memalign St) (memalign : Memalign St) (a : Allocator)
    (ptr align size : ℕ) (t : Tickets) (st : St)
    → (posix_memalign_with_cxl memkind_memalign memalign a ptr align size t st).0.0 ≢ 0
    → Fails (memkind_memalign a.kind) align size × Fails memalign align size
unfolding posix_memalign_with_cxl
posix_memalign_with_cxl-Fails mm m a ptr align size t st h =
    memalign_serve-Fails (pick_device a t).0 (mm a.kind) m ptr align size st h
