-- ===== src/Cxl/Init.antt =====
-- `cxl_init` of cxl_allocator.c, over the replies of the operating system and of memkind. The
-- messages that it prints and the signal handlers that it registers are left out.
pub mod Laws
use sidle.Base.{
  ℕ, ◌+◌, ◌-◌, ◌*◌, ◌/◌, Bool, true, not, Option, none, some, ltb, leb, ◌==◌, if◌then◌else◌,
}
use sidle.Base.Int.{ℤ, pos, negsuc, ltb_ℤ, pos_part}
use sidle.Cxl.Stride.{Strides, gcd}

-- `CXL_MAX_SIZE` and `CXL_MIN_SIZE`
abbrev pub cxl_max_size : ℕ
cxl_max_size = 32212254720

abbrev pub cxl_min_size : ℕ
cxl_min_size = 2097152

-- The static variables of the file, but for the tickets, which are thread-local. `kind` says
-- whether `cxl_kind` is set, and a null pointer is 0.
pub record Allocator : Type 0 where
  pub kind : Bool
  pub cxl_current_size : ℕ
  pub percentage_on_cxl : ℕ
  pub mmap_start_point : ℕ
  pub mmap_end_point : ℕ
  pub cxl_fd : ℤ
  pub cxl_offset : ℕ
  pub strides : Strides

-- What `open`, `mmap` and `memkind_create_fixed` answer; `none` is `MAP_FAILED`.
pub record Replies : Type 0 where
  pub opened : ℤ
  pub mapped : Option ℕ
  pub kind_error : ℕ

-- `looping` stands for a loop of `gcd` that outlasts its fuel.
pub data InitResult : Type 0 where
  running : Allocator → InitResult
  exit_failure : InitResult
  looping : InitResult

unfoldable pub clamp_size : ℕ → ℕ
clamp_size wanted =
    let below = if ltb cxl_max_size wanted then cxl_max_size else wanted in
    if ltb below cxl_min_size then cxl_min_size else below

-- A percentage that is not positive leaves the variable as it was.
unfoldable pub set_percentage : ℤ → ℕ → ℕ
set_percentage p old =
    if not (ltb_ℤ p (pos 100)) then 100 else if ltb_ℤ (pos 0) p then pos_part p else old

strides_of : ℕ → ℕ → Strides
strides_of p g =
    let multiple = p * (100 - p) / g in
    record { local_stride = multiple / (100 - p); cxl_stride = multiple / p }

unfoldable pub init_strides : ℕ → Option Strides
unfolding strides_of
init_strides p =
    if p == 100
    then some (record { local_stride = 1; cxl_stride = 0 })
    else if p == 0
    then some (record { local_stride = 0; cxl_stride = 1 })
    else elim (gcd (pos p) (pos (100 - p))) [
      | none ↦ none
      | some g ↦ some (strides_of p (pos_part g))
    ]

with_strides : Allocator → Option Strides → InitResult
with_strides a none = looping
with_strides a (some s) = running (record a { strides = s })

-- The part of `cxl_init` that runs once the device is mapped.
unfoldable pub init_mapped : Allocator → ℤ → ℕ → Replies → ℕ → InitResult
unfolding set_percentage init_strides with_strides
init_mapped a percentage size os start =
    let p = set_percentage percentage a.percentage_on_cxl in
    let ready = record a {
      kind = true;
      cxl_current_size = size;
      percentage_on_cxl = p;
      mmap_start_point = start;
      mmap_end_point = start + size;
      cxl_fd = os.opened;
    } in
    if os.kind_error == 0 then with_strides ready (init_strides p) else exit_failure

is_zero : ℤ → Bool
is_zero i = elim i [ pos n ↦ n == 0 | negsuc n ↦ ltb 0 0 ]

unfoldable pub cxl_init : Allocator → ℕ → ℤ → Replies → InitResult
unfolding init_mapped clamp_size is_zero
cxl_init a wanted percentage os =
    if not (is_zero a.cxl_fd)
    then running a
    else if ltb_ℤ os.opened (pos 0)
    then exit_failure
    else elim os.mapped [
      | none ↦ exit_failure
      | some start ↦ init_mapped a percentage (clamp_size wanted) os start
    ]
