-- ===== src/Cxl/Stride/Gcd.antt =====
-- `gcd` ends on every input, with the greatest common divisor.
use Prim.Native.Nat.{◌∣◌}
use native.Mathlib.Nat.{dvd_refl, dvd-zero, dvd-mod_iff}
use sidle.Base.{
  ℕ, zero, suc, ◌+◌, ◌%◌, ◌<◌, ◌≡◌, inl, inr, refl, ap, subst, ◌∙◌, ◌==◌, ==_iff, some, arith,
  Bool-cases,
}
use sidle.Base.Int.{ℤ, pos, negsuc, neg_part, sub_ℕ}
use sidle.Cxl.Stride.{magnitude, rem_ℤ, gcd_loop, gcd}

-- What makes a number the greatest common divisor, in the order of divisibility.
pub record IsGcd (a b g : ℕ) : Type 0 where
  pub left : g ∣ a
  pub right : g ∣ b
  pub greatest : (d : ℕ) → d ∣ a → d ∣ b → d ∣ g

IsGcd-zero : (a b : ℕ) → b ≡ 0 → IsGcd a b a
IsGcd-zero a b e = record { left = dvd_refl a; right = rw e (dvd-zero a); greatest = λ d p q. p }

IsGcd-mod : {a b g : ℕ} → IsGcd b (a % b) g → IsGcd a b g
IsGcd-mod {a} {b} {g} v = record {
  left = (dvd-mod_iff g v.left).0 v.right;
  right = v.left;
  greatest = λ d p q. v.greatest d q ((dvd-mod_iff d q).1 p);
}

magnitude-sub_ℕ : (n : ℕ) → magnitude (sub_ℕ 0 n) ≡ n
magnitude-sub_ℕ n = ground arith

magnitude-rem_ℤ : (a b : ℤ) → magnitude (rem_ℤ a b) ≡ magnitude a % magnitude b
unfolding rem_ℤ
magnitude-rem_ℤ (pos a) b = let size : a + 0 ≡ a = omega arith in rw size (omega arith)
magnitude-rem_ℤ (negsuc a) b =
    let size : 0 + suc a ≡ suc a = omega arith in rw size (magnitude-sub_ℕ (suc a % magnitude b))

-- No sign without one in either number.
abbrev pub IsSigned : ℤ → ℤ → ℤ → Type 0
IsSigned a b g = neg_part a ≡ 0 → neg_part b ≡ 0 → neg_part g ≡ 0

rem_ℤ-positive : (a b : ℤ) → neg_part a ≡ 0 → neg_part (rem_ℤ a b) ≡ 0
unfolding rem_ℤ
rem_ℤ-positive (pos a) b h = refl
rem_ℤ-positive (negsuc a) b h = absurd (omega arith)

gcd_loop-IsGcd :
    (fuel : ℕ) (a b : ℤ)
    → magnitude b < fuel
    → (g : ℤ) × (gcd_loop fuel a b ≡ some g)
      × IsGcd (magnitude a) (magnitude b) (magnitude g)
      × IsSigned a b g
unfolding gcd_loop
gcd_loop-IsGcd zero a b h = elim h [ ]
gcd_loop-IsGcd (suc fuel) a b h = elim (Bool-cases (magnitude b == 0)) [
  | inl e ↦
      (a, rw e, IsGcd-zero (magnitude a) (magnitude b) ((==_iff (magnitude b) 0).0 e), λ p q. p)
  | inr e ↦
      let size = magnitude-rem_ℤ a b in
      let falls : magnitude (rem_ℤ a b) < fuel = rw size (ground arith) in
      let (g, found, v, sign) = gcd_loop-IsGcd fuel b (rem_ℤ a b) falls in
      (
        g,
        rw e found,
        IsGcd-mod (subst (λ r. IsGcd (magnitude b) r (magnitude g)) size v),
        λ p q. sign q (rem_ℤ-positive a b p),
      )
]

-- `gcd` returns on any two `int`s, positive, negative or zero, and the size of what it returns is
-- the greatest common divisor of their sizes; it is not negative where neither of them is. The one
-- remainder that C leaves undefined, of the least `int` by -1, counts as 0.
pub gcd-IsGcd :
    (a b : ℤ)
    → (g : ℤ) × (gcd a b ≡ some g)
      × IsGcd (magnitude a) (magnitude b) (magnitude g)
      × IsSigned a b g
unfolding gcd
gcd-IsGcd a b = gcd_loop-IsGcd (suc (magnitude b)) a b (omega arith)

pos-magnitude : (g : ℤ) → neg_part g ≡ 0 → g ≡ pos (magnitude g)
pos-magnitude (pos n) h = ap pos (omega arith)
pos-magnitude (negsuc n) h = absurd (omega arith)

pub gcd-pos : (a b : ℕ) → (g : ℕ) × (gcd (pos a) (pos b) ≡ some (pos g)) × IsGcd a b g
gcd-pos a b =
    let (g, found, v, sign) = gcd-IsGcd (pos a) (pos b) in
    let left : a + 0 ≡ a = omega arith in
    let right : b + 0 ≡ b = omega arith in
    (
      magnitude g,
      found ∙ ap some (pos-magnitude g (sign refl refl)),
      subst (λ x. IsGcd x b (magnitude g)) left
          (subst (λ y. IsGcd (a + 0) y (magnitude g)) right v),
    )
