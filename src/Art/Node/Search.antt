-- ===== src/Art/Node/Search.antt =====
-- The search for a key: the 16 comparisons of a `node16` at once against the loop of a `node4`.
use native.Mathlib.Nat.{
  add-mul-mod_self_left, mod-eq_of_lt, mod-lt, div-add-mod, pow-succ', mul_assoc, pow-le-pow_right,
  zero-mod,
}
use sidle.Base.{
  ℕ, zero, suc, ◌+◌, ◌*◌, ◌/◌, ◌%◌, ◌^◌, ◌≤◌, ◌<◌, ◌≡◌, List, [], ◌∷◌, Option, none, some, ◌==◌,
  refl, sym, ap, ◌∙◌, if◌then◌else◌, arith, Bool-cases, inl, inr, true, false,
}
use sidle.Art.Node.{find_key, movemask, ctz, find_key_16}

double_mod : (b m p : ℕ) → b < 2 → 0 < p → (b + 2 * m) % (2 * p) ≡ b + 2 * (m % p)
double_mod b m p h k =
    let q = m / p in
    let r = m % p in
    let split : b + 2 * m ≡ b + 2 * r + 2 * p * q =
      omega (arith, div-add-mod m p, mul_assoc 2 p q) in
    rw (split, add-mul-mod_self_left (b + 2 * r) (2 * p) q)
      (mod-eq_of_lt (omega (arith, mod-lt m k)))

-- The position of the lowest bit, counted from `i`, if there is a bit.
unfoldable lowest : ℕ → ℕ → ℕ → Option ℕ
lowest i fuel bits = if bits == 0 then none else some (i + ctz fuel bits)

lowest_zero : (i fuel : ℕ) → lowest i fuel 0 ≡ none
unfolding lowest
lowest_zero i fuel = refl

lowest_odd : (i fuel m : ℕ) → lowest i (suc fuel) (1 + 2 * m) ≡ some i
unfolding lowest ctz
lowest_odd i fuel m =
    let odd : (1 + 2 * m) % 2 == 1 ≡ true = ground arith in
    let some_bit : 1 + 2 * m == 0 ≡ false = ground arith in
    rw (some_bit, odd) (ap some (omega arith))

lowest_even : (i fuel m : ℕ) → lowest i (suc fuel) (0 + 2 * m) ≡ lowest (i + 1) fuel m
unfolding lowest ctz
lowest_even i fuel m =
    let even : (0 + 2 * m) % 2 == 1 ≡ false = ground arith in
    let half : (0 + 2 * m) / 2 ≡ m = omega arith in
    elim (Bool-cases (m == 0)) [
      | inl e ↦ let empty : 0 + 2 * m == 0 ≡ true = ground arith in rw (empty, e)
      | inr e ↦
          let some_bit : 0 + 2 * m == 0 ≡ false = ground arith in
          rw (some_bit, even, half, e) (ap some (omega arith))
    ]

power_pos : (n : ℕ) → 0 < 2 ^ n
power_pos n = omega (arith, pow-le-pow_right {n = 2} (omega arith) {i = 0} {j = n} (omega arith))

masked : (b m n : ℕ) → b < 2 → (b + 2 * m) % 2 ^ suc n ≡ b + 2 * (m % 2 ^ n)
masked b m n h = ap (λ p. (b + 2 * m) % p) (pow-succ' 2 n) ∙ double_mod b m (2 ^ n) h (power_pos n)

-- The lowest of the first `n` bits is where the loop stops.
find_key-lowest :
    (fuel n i : ℕ) (keys : List ℕ) (byte : ℕ)
    → n ≤ fuel
    → find_key i n keys byte ≡ lowest i fuel (movemask keys byte % 2 ^ n)
unfolding find_key movemask
find_key-lowest fuel zero i keys byte h =
    let e : movemask keys byte % 1 ≡ 0 = omega arith in sym (rw e (lowest_zero i fuel))
find_key-lowest zero (suc n) i keys byte h = absurd (omega arith)
find_key-lowest (suc fuel) (suc n) i [] byte h =
    sym (ap (lowest i (suc fuel)) (zero-mod (2 ^ suc n)) ∙ lowest_zero i (suc fuel))
find_key-lowest (suc fuel) (suc n) i (k ∷ keys) byte h =
    let m = movemask keys byte in
    elim (Bool-cases (k == byte)) [
      | inl e ↦ rw e (
          sym
            (ap (lowest i (suc fuel)) (masked 1 m n (omega arith)) ∙ lowest_odd i fuel (m % 2 ^ n)))
      | inr e ↦ rw e (
          find_key-lowest fuel n (i + 1) keys byte (omega arith)
          ∙ sym (
              ap (lowest i (suc fuel)) (masked 0 m n (omega arith))
              ∙ lowest_even i fuel (m % 2 ^ n)))
    ]

lowest_from_zero :
    (fuel bits : ℕ) → (if bits == 0 then none else some (ctz fuel bits)) ≡ lowest 0 fuel bits
unfolding lowest
lowest_from_zero fuel bits = ap (λ c. if bits == 0 then none else some c) (omega arith)

-- The `node16` search, which compares all 16 keys at once and takes the lowest bit of the first
-- `count`, finds the slot that the loop of a `node4` would find, for at most 16 keys.
pub find_key_16-find_key :
    (count : ℕ) (keys : List ℕ) (byte : ℕ)
    → count ≤ 16
    → find_key_16 count keys byte ≡ find_key 0 count keys byte
unfolding find_key_16
find_key_16-find_key count keys byte h =
    lowest_from_zero 16 (movemask keys byte % 2 ^ count)
    ∙ sym (find_key-lowest 16 count 0 keys byte h)
