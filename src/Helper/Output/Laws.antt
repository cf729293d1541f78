-- ===== src/Helper/Output/Laws.antt =====
-- Matrices are printed in the order of their cells, and the counter is read whole.
use sidle.Base.{
  ℕ, zero, suc, ◌+◌, ◌*◌, ◌^◌, ◌≤◌, ◌<◌, ◌≡◌, refl, sym, ◌∙◌, ap, List, [], ◌∷◌, ◌++◌, length, drop,
  take, get_or, take-drop-suc, drop-drop, take-append, take_all, arith,
}
use native.Mathlib.Nat.{zero-add, zero-mul, add-mul, add-zero}
use sidle.Helper.Output.{
  util_rdtsc, util_rdtsc_start, util_rdtsc_end, rdtscp, print_row, print_rows, print_matrix,
}

-- All four readers of the processor's 64-bit counter put its halves together again.
pub readers-IsCounter :
    (counter : ℕ)
    → counter < 2 ^ 64
    → (util_rdtsc counter ≡ counter)
      × (util_rdtsc_start counter ≡ counter)
      × (util_rdtsc_end counter ≡ counter)
      × (rdtscp counter ≡ counter)
unfolding util_rdtsc util_rdtsc_start util_rdtsc_end rdtscp
readers-IsCounter counter h = (omega arith, omega arith, omega arith, omega arith)

print_row-take :
    (cells : List ℕ) (col_n row_i col_i n : ℕ)
    → row_i * col_n + col_i + n ≤ length cells
    → print_row cells col_n row_i col_i n ≡ take n (drop (row_i * col_n + col_i) cells)
unfolding print_row
print_row-take cells col_n row_i col_i zero h = refl
print_row-take cells col_n row_i col_i (suc n) h =
    let next : row_i * col_n + (col_i + 1) ≡ suc (row_i * col_n + col_i) = omega arith in
    let rest = print_row-take cells col_n row_i (col_i + 1) n (omega arith) in
    ap (◌∷◌ (get_or cells (row_i * col_n + col_i) 0)) (rw next at rest)
    ∙ sym (take-drop-suc n (row_i * col_n + col_i) cells 0 (omega arith))

-- The lines of a print, one after the other.
abbrev pub lines : List (List ℕ) → List ℕ
lines [] = []
lines (line ∷ rest) = line ++ lines rest

print_rows-take :
    (cells : List ℕ) (col_n row_i n : ℕ)
    → (row_i + n) * col_n ≤ length cells
    → lines (print_rows cells col_n row_i n) ≡ take (n * col_n) (drop (row_i * col_n) cells)
unfolding print_rows
print_rows-take cells col_n row_i zero h = rw (zero-mul col_n) refl
print_rows-take cells col_n row_i (suc n) h =
    let later : (row_i + suc n) * col_n ≡ row_i * col_n + (col_n + n * col_n) =
      simp (add-mul) (omega arith) in
    let next : (row_i + 1) * col_n ≡ row_i * col_n + col_n = add-mul row_i 1 col_n ∙ omega arith in
    let whole : suc n * col_n ≡ col_n + n * col_n = omega (arith, add-mul 1 n col_n) in
    let shift : row_i + 1 + n ≡ row_i + suc n = omega arith in
    let line = print_row-take cells col_n row_i 0 col_n (omega arith) in
    let rest = print_rows-take cells col_n (row_i + 1) n (rw shift h) in
    rw
      (
        line,
        rest,
        next,
        whole,
        add-zero (row_i * col_n),
        sym (drop-drop (row_i * col_n) col_n cells),
      )
      (take-append col_n (n * col_n) (drop (row_i * col_n) cells))

-- The cells of all lines of `print_matrix`, one after the other, are the cells of a row-major matrix
-- of the given size, each once and in its order.
pub print_matrix-lines :
    (cells : List ℕ) (row_n col_n : ℕ)
    → length cells ≡ row_n * col_n
    → lines (print_matrix cells row_n col_n) ≡ cells
unfolding print_matrix
print_matrix-lines cells row_n col_n h =
    let all =
      print_rows-take cells col_n 0 row_n
        (omega (arith, ap (λ (t : ℕ). t * col_n) (zero-add row_n))) in
    rw (zero-mul col_n) at all ∙ take_all (row_n * col_n) cells (omega arith)
