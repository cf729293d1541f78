-- ===== src/Histogram/Index.antt =====
-- The bucket of an access time.
use native.Mathlib.Numerals.{add-one}
use native.Mathlib.Nat.{pow-suc}
use native.Mathlib.Decide.{dec_lt}
use sidle.Base.{
  ℕ, zero, suc, ◌+◌, ◌*◌, ◌/◌, ◌^◌, ◌≤◌, ◌<◌, ◌≡◌, ◌==◌, inl, inr, Bool-cases, arith, refl, ◌%◌,
  ◌⊎◌,
}
use sidle.Histogram.{idx_loop, get_idx, bucket}

two_pow : (k : ℕ) → 2 ^ (k + 1) ≡ 2 * 2 ^ k
two_pow k = rw (add-one k) (omega (arith, pow-suc 2 k))

-- The logarithm of a number, rounded down.
pub record IsLog (n k : ℕ) : Type 0 where
  pub low : 2 ^ k ≤ n
  pub high : n < 2 ^ (k + 1)

IsLog-half : (n k : ℕ) → IsLog (n / 2) k → IsLog n (k + 1)
IsLog-half n k v = record {
  low = omega (arith, two_pow k, v.low);
  high = omega (arith, two_pow (k + 1), v.high);
}

-- From `num` the loop counts the halvings that leave something, up to its limit.
idx_loop-IsLog :
    (left cnt num : ℕ)
    → 0 < num
    → num < 2 ^ (left + 1)
    → (k : ℕ) × (idx_loop left cnt num ≡ cnt + k) × (k ≤ left) × IsLog num k
unfolding idx_loop
idx_loop-IsLog zero cnt num h lt = (0, omega arith, omega arith, omega arith)
idx_loop-IsLog (suc left) cnt num h lt = elim (Bool-cases (num / 2 == 0)) [
  | inl e ↦ (0, rw e (omega arith), omega arith, ground arith)
  | inr e ↦
      let less : num / 2 < 2 ^ (left + 1) =
        omega (arith, two_pow (left + 1), rw (← add-one left) at lt) in
      let (k, found, few, v) = idx_loop-IsLog left (cnt + 1) (num / 2) (ground arith) less in
      (k + 1, rw e (omega arith), omega arith, IsLog-half num k v)
]

get_idx-IsLog : (a : ℕ) → a < 65535 → (get_idx a ≤ 15) × IsLog (a + 1) (get_idx a)
unfolding get_idx
get_idx-IsLog a h =
    let e : (a + 1) % 65536 ≡ a + 1 = omega arith in
    let (k, found, few, v) = idx_loop-IsLog 15 0 (a + 1) (omega arith) (omega arith) in
    let same : idx_loop 15 0 (a + 1) ≡ k = omega arith in rw (e, same) (few, v)

-- At the largest `uint16_t` the increment of `get_idx` wraps to 0.
get_idx_wraps : get_idx 65535 ≡ 0
unfolding get_idx idx_loop
get_idx_wraps = refl

-- An access time `a` from 2 to 65534 falls into the bucket of the logarithm of `a + 1`, rounded
-- down; 0, 1 and the largest `uint16_t`, 65535, fall into bucket 0. There are 16 buckets.
pub bucket-IsLog :
    (a : ℕ)
    → a < 65536
    → (bucket a < 16)
      × (((1 < a) × (a < 65535) × IsLog (a + 1) (bucket a))
          ⊎ (((a ≤ 1) ⊎ (a ≡ 65535)) × (bucket a ≡ 0)))
unfolding bucket
bucket-IsLog a h = elim (dec_lt a 65535) [
  | yes less ↦ let (few, v) = get_idx-IsLog a less in (ground arith, ground arith)
  | no most ↦
      let e : a ≡ 65535 = omega arith in
      (rw (e, get_idx_wraps) (omega arith), inr (inr e, rw (e, get_idx_wraps)))
]
