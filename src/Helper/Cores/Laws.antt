-- ===== src/Helper/Cores/Laws.antt =====
-- The table of cores is a permutation that interleaves the two halves of each block of 24.
use sidle.Base.{
  ℕ, zero, suc, ◌+◌, ◌*◌, ◌/◌, ◌%◌, ◌<◌, ◌≤◌, ◌≡◌, ◌↔◌, refl, ap, sym, ◌∙◌, ==_iff, Bool, true,
  ◌&&◌, get_or, ◌==◌, arith,
}
use sidle.Base.Int.{pos}
use native.Mathlib.Decide.{dec_lt, ℕ_discrete}
use sidle.Helper.Cores.{aborted, bound_to, mapping, bind_to_physical_cores}

-- The core that the table gives: twelve even ones, then twelve odd ones, of each block.
core_of : ℕ → ℕ
core_of t = t / 24 * 24 + t % 12 * 2 + t % 24 / 12

-- Its inverse.
abbrev pub thread_of : ℕ → ℕ
thread_of c = c / 24 * 24 + c % 2 * 12 + c % 24 / 2

both : (a b : Bool) → (a && b) ≡ true → (a ≡ true) × (b ≡ true)
both a b h = ground arith

agree_below : ℕ → Bool
unfolding core_of
agree_below zero = true
agree_below (suc n) = (get_or mapping n 0 == core_of n) && agree_below n

agree_below_lem : (n t : ℕ) → agree_below n ≡ true → t < n → get_or mapping t 0 ≡ core_of t
unfolding agree_below
agree_below_lem zero t h lt = absurd (omega arith)
agree_below_lem (suc n) t h lt =
    let (here, below) = both (get_or mapping n 0 == core_of n) (agree_below n) h in
    elim (ℕ_discrete t n) [
      | yes e ↦ rw e ((==_iff (get_or mapping n 0) (core_of n)).0 here)
      | no ne ↦ agree_below_lem n t below (omega arith)
    ]

all_agree : agree_below 48 ≡ true
unfolding agree_below core_of
all_agree = refl

pub aborts : (t : ℕ) → 48 ≤ t → bind_to_physical_cores (pos t) ≡ aborted
unfolding bind_to_physical_cores
aborts t ge = ground arith

core_lem : (t : ℕ) → t < 48 → bind_to_physical_cores (pos t) ≡ bound_to (core_of t)
unfolding bind_to_physical_cores
core_lem t lt = rw (agree_below_lem 48 t all_agree lt) (ground arith)

bound_lem : (u c : ℕ) → bind_to_physical_cores (pos u) ≡ bound_to c → (u < 48) × (c ≡ core_of u)
unfolding bind_to_physical_cores
bound_lem u c h = elim (dec_lt u 48) [
  | yes lt ↦ (lt, let e : bound_to c ≡ bound_to (core_of u) = sym h ∙ core_lem u lt in ground arith)
  | no ge ↦ absurd (ground arith)
]

thread-core : (t : ℕ) → t < 48 → thread_of (core_of t) ≡ t
unfolding core_of
thread-core t lt = omega arith

core-thread : (c : ℕ) → c < 48 → core_of (thread_of c) ≡ c
unfolding core_of
core-thread c lt = omega arith

first_even : (t : ℕ) → t < 12 → core_of t ≡ 2 * t
unfolding core_of
first_even t lt = omega arith

core_below : (t : ℕ) → t < 48 → core_of t < 48
unfolding core_of
core_below t lt = omega arith

-- Exactly the thread numbers below 48 are bound to a core, every core is below 48, and each core
-- below 48 has exactly one thread number. The first twelve threads get the even cores below 24.
pub bind_to_physical_cores-permutes :
    ((t : ℕ) → t < 48 ↔ ((c : ℕ) × (bind_to_physical_cores (pos t) ≡ bound_to c)))
    × ((t c : ℕ) → bind_to_physical_cores (pos t) ≡ bound_to c → c < 48)
    × ((c : ℕ)
        → c < 48
        → (t : ℕ) × (bind_to_physical_cores (pos t) ≡ bound_to c)
          × ((u : ℕ) → bind_to_physical_cores (pos u) ≡ bound_to c → u ≡ t))
    × ((t : ℕ) → t < 12 → bind_to_physical_cores (pos t) ≡ bound_to (2 * t))
bind_to_physical_cores-permutes = (
  λ t. (λ lt. (core_of t, core_lem t lt), λ (c, h). (bound_lem t c h).0),
  λ t c h. let (lt, e) = bound_lem t c h in rw e (core_below t lt),
  λ c lt. (
    thread_of c,
    let below : thread_of c < 48 = omega arith in
        core_lem (thread_of c) below ∙ ap bound_to (core-thread c lt),
    λ u h. let (below, e) = bound_lem u c h in sym (thread-core u below) ∙ ap thread_of (sym e),
  ),
  λ t lt. core_lem t (omega arith) ∙ ap bound_to (first_even t lt),
)
