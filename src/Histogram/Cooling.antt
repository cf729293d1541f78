-- ===== src/Histogram/Cooling.antt =====
-- `adjust_for_cooling`: when the access times are halved, the histogram moves down by one bucket.
use native.Mathlib.Numerals.{add-one}
use sidle.Base.{
  ℕ, zero, suc, ◌/◌, ◌≤◌, ◌≡◌, List, [], ◌∷◌, ◌++◌, false, arith, refl, ap, ◌∙◌, get_or, set,
  length,
}
use sidle.Histogram.{Histogram, shift_loop, adjust_for_cooling}

-- The writes of the loop leave the part below its index alone.
shift_loop-cons : (n i x : ℕ) (v : List ℕ) → shift_loop n (suc i) (x ∷ v) ≡ x ∷ shift_loop n i v
unfolding shift_loop
shift_loop-cons zero i x v = refl
shift_loop-cons (suc n) i x v =
    rw (add-one i, add-one (suc i)) (shift_loop-cons n (suc i) x (set v i (get_or v (suc i) 0)))

last_of : ℕ → List ℕ → ℕ
last_of x [] = x
last_of x (y ∷ ys) = last_of y ys

-- The loop moves all entries down by one, and leaves the last one where it is too.
shift_loop_lem : (x : ℕ) (v : List ℕ) → shift_loop (length v) 0 (x ∷ v) ≡ v ++ (last_of x v ∷ [])
unfolding shift_loop last_of
shift_loop_lem x [] = refl
shift_loop_lem x (y ∷ v) =
    shift_loop-cons (length v) 0 y (y ∷ v) ∙ ap (λ w. y ∷ w) (shift_loop_lem y v)

set_last : (v : List ℕ) (a b : ℕ) → set (v ++ (a ∷ [])) (length v) b ≡ v ++ (b ∷ [])
set_last [] a b = refl
set_last (x ∷ v) a b = ap (λ w. x ∷ w) (set_last v a b)

-- Over 16 buckets `adjust_for_cooling` moves every bucket down by one: the lowest is given up and
-- the highest is empty. Both thresholds are halved, a cold threshold that is at most the hot one
-- stays so, and the cooler is done.
pub adjust_for_cooling_lem :
    (h : Histogram) (x : ℕ) (v : List ℕ)
    → h.histogram ≡ x ∷ v
    → length v ≡ 15
    → h.cold_threshold ≤ h.hot_threshold
    → let h' = adjust_for_cooling h in
      (h'.histogram ≡ v ++ (0 ∷ []))
      × (h'.hot_threshold ≡ h.hot_threshold / 2)
      × (h'.cold_threshold ≡ h.cold_threshold / 2)
      × (h'.cold_threshold ≤ h'.hot_threshold)
      × (h'.is_cooling ≡ false)
      × (h'.next_histogram ≡ h.next_histogram)
unfolding adjust_for_cooling
adjust_for_cooling_lem h x v e len c =
    let moved : shift_loop 15 0 (x ∷ v) ≡ v ++ (last_of x v ∷ []) =
      rw (← len) (shift_loop_lem x v) in
    let cut : set (v ++ (last_of x v ∷ [])) 15 0 ≡ v ++ (0 ∷ []) =
      rw (← len) (set_last v (last_of x v) 0) in
    (rw (e, moved) cut, refl, refl, omega arith, refl, refl)
