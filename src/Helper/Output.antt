-- ===== src/Helper/Output.antt =====
-- The clock words and `little_endian` of src/helper.h, and `timeit` and `print_matrix` of
-- src/helper.cpp. What is printed is returned.
pub mod Laws
use sidle.Base.{
  ℕ, zero, suc, ◌+◌, ◌-◌, ◌*◌, ◌/◌, ◌%◌, ◌^◌, Bool, true, false, Option, none, some, List, [], ◌∷◌,
  u64, get_or, if◌then◌else◌,
}

-- The halves of the counter that `rdtsc` and `rdtscp` leave in `edx` and in `eax`.
abbrev pub high : ℕ → ℕ
high counter = counter / 2 ^ 32 % 2 ^ 32

abbrev pub low : ℕ → ℕ
low counter = counter % 2 ^ 32

-- The high word shifted and the low word have no bit in common: their `|` is their sum.
unfoldable pub util_rdtsc : ℕ → ℕ
util_rdtsc counter = low counter + high counter * 2 ^ 32

unfoldable pub util_rdtsc_start : ℕ → ℕ
util_rdtsc_start counter = low counter + high counter * 2 ^ 32

unfoldable pub util_rdtsc_end : ℕ → ℕ
util_rdtsc_end counter = low counter + high counter * 2 ^ 32

unfoldable pub rdtscp : ℕ → ℕ
rdtscp counter = u64 (high counter * 2 ^ 32 + low counter)

-- The static variables of `timeit`.
pub record Timer : Type 0 where
  pub inited : Bool
  pub last_time_point : ℕ

abbrev pub new_timer : Timer
new_timer = record { inited = false; last_time_point = 0 }

-- A call reads the clock for the span that it prints, and then again for the point that it keeps.
unfoldable pub timeit : ℕ → ℕ → Timer → Option ℕ × Timer
timeit now kept t =
    if t.inited
    then (some (now - t.last_time_point), record t { last_time_point = kept })
    else (none, record { inited = true; last_time_point = kept })

-- The cells of a line of `print_matrix`, from `col_i` on, with `n` columns left.
unfoldable pub print_row : List ℕ → ℕ → ℕ → ℕ → ℕ → List ℕ
print_row cells col_n row_i col_i zero = []
print_row cells col_n row_i col_i (suc n) =
    get_or cells (row_i * col_n + col_i) 0 ∷ print_row cells col_n row_i (col_i + 1) n

unfoldable pub print_rows : List ℕ → ℕ → ℕ → ℕ → List (List ℕ)
print_rows cells col_n row_i zero = []
print_rows cells col_n row_i (suc n) =
    print_row cells col_n row_i 0 col_n ∷ print_rows cells col_n (row_i + 1) n

-- Both overloads print the same way; the cells stand for bytes, or for any numbers.
unfoldable pub print_matrix : List ℕ → ℕ → ℕ → List (List ℕ)
print_matrix cells row_n col_n = print_rows cells col_n 0 row_n
