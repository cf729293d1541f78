-- ===== src/Tests/Helper.antt =====
-- The theorems on the helpers at concrete inputs.
use sidle.Base.{ℕ, ◌≡◌, refl, some, List, [], ◌∷◌, ◌++◌, map, Each, arith}
use sidle.Helper.RangeScan.{column, memcmp, range_scan}
use sidle.Helper.RangeScan.Laws.{IsBefore, range_scan-IsRange}

-- Rows with one column of one byte.
abbrev one_column : ℕ → List ℕ → List (List ℕ)
one_column r fields = (r ∷ []) ∷ []

abbrev the_column : ℕ → List ℕ
the_column r = r ∷ []

abbrev rows : List (List ℕ × ℕ)
rows = (1 ∷ 4 ∷ [], 50) ∷ (1 ∷ 7 ∷ [], 60) ∷ (2 ∷ 0 ∷ [], 70) ∷ []

one_column_readable : (r : ℕ) → column [] (one_column r []) ≡ some (the_column r)
unfolding column
one_column_readable r = refl

range_scan-IsRange_example :
    (front back : List (List ℕ × ℕ)) × (rows ≡ front ++ back)
    × Each (λ (key, row). IsBefore key (1 ∷ 9 ∷ [])) front
    × Each (λ (key, row). ¬ IsBefore key (1 ∷ 9 ∷ [])) back
    × (range_scan 2 (λ bs. bs) (λ bs. bs) one_column (1 ∷ 9 ∷ []) [] rows
        ≡ some (map (λ (key, row). (key, the_column row)) front))
range_scan-IsRange_example =
    range_scan-IsRange 2 (λ bs. bs) (λ bs. bs) one_column the_column [] (1 ∷ 9 ∷ []) refl
      one_column_readable rows (unfold memcmp in omega arith)
