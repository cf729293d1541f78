-- ===== src/Cxl/Stride/Balance.antt =====
-- The scheduler keeps to the shares for which the strides were computed.
use native.Mathlib.Nat.{mul-le-mul_right, le_of_mul-le-mul_left, mul-pos}
use sidle.Base.{
  ℕ, zero, suc, ◌+◌, ◌-◌, ◌*◌, ◌<◌, ◌≤◌, ◌≡◌, ap, ◌⊎◌, arith, sym, refl, inl, inr, Bool-cases, ltb,
  true, false, some,
}
use sidle.Cxl.Stride.{
  Device, cxl_dev, local_dev, Strides, Tickets, no_tickets, size_max, choose_device, update_ticket,
  stride_scheduler,
}
use sidle.Cxl.Init.{init_strides}
use sidle.Cxl.Init.Laws.{InProportion, init_strides-InProportion}

is_cxl : Device → ℕ
is_cxl cxl_dev = 1
is_cxl _ = 0

-- How many of the next `n` requests of a thread go to the CXL device.
pub count_cxl : Strides → ℕ → Tickets → ℕ
unfolding is_cxl
count_cxl s zero t = 0
count_cxl s (suc n) t = let (d, t') = stride_scheduler s t in is_cxl d + count_cxl s n t'

-- `c` requests went to the device and `l` to local memory since the tickets were zero.
record Ran (s : Strides) (c l : ℕ) (t : Tickets) : Type 0 where
  cxl_is : t.cxl_ticket ≡ c * s.cxl_stride
  local_is : t.local_ticket ≡ l * s.local_stride
  cxl_low : t.cxl_ticket ≤ c * 100
  local_low : t.local_ticket ≤ l * 100
  cxl_ahead : t.cxl_ticket ≤ t.local_ticket + s.cxl_stride
  local_ahead : t.local_ticket ≤ t.cxl_ticket + s.local_stride

-- A lead of at most one stride, measured in requests.
lead : (a b x y u v : ℕ) → 0 < x * u → x * u ≡ y * v → a * x ≤ b * y + x → a * v ≤ b * u + v
lead a b x y u v positive e h =
    le_of_mul-le-mul_left {k = x * u}
      (omega (arith, mul-le-mul_right (u * v) h, ap (λ (t : ℕ). t * (b * u)) e)) positive

module _ {p : ℕ} {s : Strides} (fit : InProportion p s) where
  step_cxl :
      (c l : ℕ) (t : Tickets)
      → (c + l) * 100 + 100 ≤ size_max
      → Ran s c l t
      → ltb t.cxl_ticket t.local_ticket ≡ true
      → (choose_device s t ≡ cxl_dev) × Ran s (c + 1) l (update_ticket s cxl_dev t)
  unfolding choose_device update_ticket
  step_cxl c l t room r less = ground arith

  step_local :
      (c l : ℕ) (t : Tickets)
      → (c + l) * 100 + 100 ≤ size_max
      → Ran s c l t
      → ltb t.cxl_ticket t.local_ticket ≡ false
      → (choose_device s t ≡ local_dev) × Ran s c (l + 1) (update_ticket s local_dev t)
  unfolding choose_device update_ticket
  step_local c l t room r less = ground arith

  -- After `n` more calls, with the share of them that went to the device.
  abbrev Later : ℕ → ℕ → ℕ → ℕ → Type 0
  Later c l n k = (k ≤ n) × ((t : Tickets) × Ran s (c + k) (l + (n - k)) t)

  Later-cxl : (c l n k : ℕ) → Later (c + 1) l n k → Later c l (suc n) (1 + k)
  Later-cxl c l n k (few, (t, r)) =
      let e : c + 1 + k ≡ c + (1 + k) = omega arith in
      let f : n - k ≡ suc n - (1 + k) = omega arith in (omega arith, (t, rw (← e, ← f) r))

  Later-local : (c l n k : ℕ) → Later c (l + 1) n k → Later c l (suc n) (0 + k)
  Later-local c l n k (few, (t, r)) =
      let e : c + k ≡ c + (0 + k) = omega arith in
      let f : l + 1 + (n - k) ≡ l + (suc n - (0 + k)) = omega arith in
      (omega arith, (t, rw (← e, ← f) r))

  calls-Ran :
      (n c l : ℕ) (t : Tickets)
      → (c + l + n) * 100 ≤ size_max
      → Ran s c l t
      → Later c l n (count_cxl s n t)
  unfolding count_cxl stride_scheduler
  calls-Ran zero c l t room r = (omega arith, (t, ground arith))
  calls-Ran (suc n) c l t room r = elim (Bool-cases (ltb t.cxl_ticket t.local_ticket)) [
    | inl less ↦
        let (chosen, r') = step_cxl c l t (omega arith) r less in
        rw chosen
          (Later-cxl c l n _ (calls-Ran n (c + 1) l (update_ticket s cxl_dev t) (omega arith) r'))
    | inr more ↦
        let (chosen, r') = step_local c l t (omega arith) r more in
        rw chosen (
          Later-local c l n _
            (calls-Ran n c (l + 1) (update_ticket s local_dev t) (omega arith) r'))
  ]

  Ran-share :
      (c l : ℕ) (t : Tickets)
      → 0 < p
      → p < 100
      → Ran s c l t
      → (c * (100 - p) ≤ l * p + (100 - p)) × (l * p ≤ c * (100 - p) + p)
  Ran-share c l t hp hq r = (
    lead c l s.cxl_stride s.local_stride p (100 - p) (mul-pos fit.cxl_positive hp) fit.balance
        (omega arith),
    lead l c s.local_stride s.cxl_stride (100 - p) p (mul-pos fit.local_positive (omega arith))
        (sym fit.balance) (omega arith),
  )

per_cent :
    (c m n p q : ℕ)
    → p + q ≡ 100
    → c + m ≡ n
    → (c * q ≤ m * p + q) × (m * p ≤ c * q + p)
    → (100 * c ≤ n * p + q) × (n * p ≤ 100 * c + p)
per_cent c m n p q whole total (low, high) =
    let e = ap (λ (t : ℕ). c * t) whole in let f = ap (λ (t : ℕ). t * p) total in omega arith

InProportion-share :
    (p n : ℕ) (s : Strides)
    → InProportion p s
    → 0 < p
    → p < 100
    → n * 100 ≤ size_max
    → let c = count_cxl s n no_tickets in (100 * c ≤ n * p + (100 - p)) × (n * p ≤ 100 * c + p)
InProportion-share p n s fit hp hq room =
    let c = count_cxl s n no_tickets in
    let start : Ran s 0 0 no_tickets = omega arith in
    let (few, (t, r)) = calls-Ran fit n 0 0 no_tickets (omega arith) start in
    let share = Ran-share fit (0 + c) (0 + (n - c)) t hp hq r in
    let total = per_cent (0 + c) (0 + (n - c)) n p (100 - p) (omega arith) (omega arith) share in
    omega arith

-- With the strides that `cxl_init` computes for a percentage `p` strictly between 0 and 100, the
-- scheduler sends `p` per cent of the first `n` requests of a thread to the CXL device, to within
-- one request: their number differs from `n * p / 100` by less than 1, for as many requests as run
-- before a ticket can overflow.
pub count_cxl_share :
    (p n : ℕ) (s : Strides)
    → 0 < p
    → p < 100
    → init_strides p ≡ some s
    → n * 100 ≤ size_max
    → let c = count_cxl s n no_tickets in (100 * c ≤ n * p + (100 - p)) × (n * p ≤ 100 * c + p)
count_cxl_share p n s hp hq found room =
    let (s', found', fit) = init_strides-InProportion p hp hq in
    let e : s ≡ s' = cc in InProportion-share p n s (rw e fit) hp hq room

-- At 0 per cent no request goes to the CXL device, and at 100 per cent every one does, whatever
-- the tickets are.
pub count_cxl_extremes :
    (n : ℕ) (t : Tickets) (none_on all_on : Strides)
    → init_strides 0 ≡ some none_on
    → init_strides 100 ≡ some all_on
    → (count_cxl none_on n t ≡ 0) × (count_cxl all_on n t ≡ n)
unfolding count_cxl stride_scheduler init_strides
count_cxl_extremes zero t none_on all_on e f = (refl, refl)
count_cxl_extremes (suc n) t none_on all_on e f = ground (
  arith,
  (count_cxl_extremes n (stride_scheduler none_on t).1 none_on all_on e f).0,
  (count_cxl_extremes n (stride_scheduler all_on t).1 none_on all_on e f).1,
)

-- The ticket of the chosen device grows by its stride, or starts again at that stride where the
-- sum would not fit a `size_t`; then the other ticket starts again at 0.
abbrev pub Charged : ℕ → ℕ → ℕ → ℕ → ℕ → Type 0
Charged mine other stride mine' other' =
    ((mine + stride ≤ size_max) × (mine' ≡ mine + stride) × (other' ≡ other))
    ⊎ ((size_max < mine + stride) × (mine' ≡ stride) × (other' ≡ 0))

-- No ticket wraps: a call charges the device that it returns, by `Charged`.
pub stride_scheduler-Charged :
    (s : Strides) (t : Tickets)
    → s.cxl_stride ≤ size_max
    → s.local_stride ≤ size_max
    → t.cxl_ticket ≤ size_max
    → t.local_ticket ≤ size_max
    → let (d, t') = stride_scheduler s t in
      ((d ≡ cxl_dev)
        × Charged t.cxl_ticket t.local_ticket s.cxl_stride t'.cxl_ticket t'.local_ticket)
      ⊎ ((d ≡ local_dev)
          × Charged t.local_ticket t.cxl_ticket s.local_stride t'.local_ticket t'.cxl_ticket)
unfolding stride_scheduler
stride_scheduler-Charged s t hc hl tc tl = ground arith
