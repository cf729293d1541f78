-- ===== src/Cxl/Init/Laws.antt =====
-- The strides that `cxl_init` computes, and the state in which it leaves the allocator.
use Prim.Native.Nat.{◌∣◌}
use native.Mathlib.Nat.{
  mul-div_assoc, mul-div_cancel_left, le-div_iff_mul-le, le_of_dvd, div-le_self, pos_of_dvd_of_pos,
  mul_comm,
}
use sidle.Base.{
  ℕ, ◌+◌, ◌-◌, ◌*◌, ◌/◌, ◌<◌, ◌≤◌, ◌≡◌, true, none, some, arith, refl, sym, ap, ◌∙◌, ◌==◌, inl, inr,
  Bool-cases, ◌≢◌, ◌⊎◌,
}
use sidle.Base.Int.{ℤ, pos, negsuc, ◌≤ℤ◌}
use sidle.Cxl.Stride.{Strides}
use sidle.Cxl.Stride.Gcd.{IsGcd, gcd-pos}
use sidle.Cxl.Init.{
  Allocator, Replies, running, exit_failure, cxl_max_size, cxl_min_size, clamp_size, set_percentage,
  strides_of, init_strides, cxl_init,
}

-- The strides are in inverse proportion to the shares.
pub record InProportion (p : ℕ) (s : Strides) : Type 0 where
  pub balance : s.cxl_stride * p ≡ s.local_stride * (100 - p)
  pub cxl_positive : 0 < s.cxl_stride
  pub cxl_small : s.cxl_stride < 100
  pub local_positive : 0 < s.local_stride
  pub local_small : s.local_stride < 100

quotient_pos : (a g : ℕ) → g ∣ a → 0 < a → 0 < a / g
quotient_pos a g d h = (le-div_iff_mul-le (pos_of_dvd_of_pos d h)).1 (omega (arith, le_of_dvd h d))

mul-div-div : (a b g : ℕ) → g ∣ a → 0 < b → a * b / g / b ≡ a / g
mul-div-div a b g d h = rw (mul_comm a b, mul-div_assoc g b d) (mul-div_cancel_left (a / g) h)

cross : (a b g : ℕ) → g ∣ a → g ∣ b → b / g * a ≡ a / g * b
cross a b g d e =
    mul_comm (b / g) a
    ∙ sym (mul-div_assoc g a e)
    ∙ ap (λ t. t / g) (mul_comm a b)
    ∙ mul-div_assoc g b d
    ∙ mul_comm b (a / g)

strides_of-InProportion :
    (p g : ℕ) → 0 < p → p < 100 → IsGcd p (100 - p) g → InProportion p (strides_of p g)
unfolding strides_of
strides_of-InProportion p g hp hq v =
    let local = mul-div-div p (100 - p) g v.left (omega arith) in
    let cxl : p * (100 - p) / g / p ≡ (100 - p) / g =
      rw (mul_comm p (100 - p)) (mul-div-div (100 - p) p g v.right hp) in
    record {
      balance = rw (cxl, local) (cross p (100 - p) g v.left v.right);
      cxl_positive = rw cxl (quotient_pos (100 - p) g v.right (omega arith));
      cxl_small = rw cxl (omega (arith, div-le_self (100 - p) g));
      local_positive = rw local (quotient_pos p g v.left hp);
      local_small = rw local (omega (arith, div-le_self p g));
    }

-- For a percentage strictly between 0 and 100 `cxl_init` finds strides in inverse proportion to
-- the shares of the two devices: both are positive and below 100.
pub init_strides-InProportion :
    (p : ℕ) → 0 < p → p < 100 → (s : Strides) × (init_strides p ≡ some s) × InProportion p s
unfolding init_strides
init_strides-InProportion p hp hq =
    let (g, e, v) = gcd-pos p (100 - p) in
    (strides_of p g, ground arith, strides_of-InProportion p g hp hq v)

-- The strides are always found: `gcd` does not loop.
pub init_strides_total : (p : ℕ) → (s : Strides) × (init_strides p ≡ some s)
unfolding init_strides
init_strides_total p =
    let (g, e, v) = gcd-pos p (100 - p) in
    elim (Bool-cases (p == 100)) [
      | inl full ↦ (record { local_stride = 1; cxl_stride = 0 }, rw full)
      | inr part ↦ elim (Bool-cases (p == 0)) [
        | inl none_on ↦ (record { local_stride = 0; cxl_stride = 1 }, rw (part, none_on))
        | inr some_on ↦ (strides_of p g, ground arith)
      ]
    ]

-- The state after a successful start, for the percentage that was wanted and the one from before: the
-- share is the percentage from 1 to 99, 100 from there on, and the one from before for one that is not
-- positive; the size is the wanted one inside the allocator's limits and otherwise the limit that it
-- passes; and the region and the descriptor are what `mmap` and `open` returned.
pub record IsStarted (wanted : ℕ) (percentage : ℤ) (before fd start : ℕ) (a : Allocator)
    : Type 0 where
  pub kind : a.kind ≡ true
  pub descriptor : a.cxl_fd ≡ pos fd
  pub size_low : wanted < cxl_min_size → a.cxl_current_size ≡ cxl_min_size
  pub size_high : cxl_max_size < wanted → a.cxl_current_size ≡ cxl_max_size
  pub size_wanted : cxl_min_size ≤ wanted → wanted ≤ cxl_max_size → a.cxl_current_size ≡ wanted
  pub starts : a.mmap_start_point ≡ start
  pub ends : a.mmap_end_point ≡ start + a.cxl_current_size
  pub share : (p : ℕ) → percentage ≡ pos p → 0 < p → p < 100 → a.percentage_on_cxl ≡ p
  pub share_high : (p : ℕ) → percentage ≡ pos p → 100 ≤ p → a.percentage_on_cxl ≡ 100
  pub share_low : percentage ≤ℤ pos 0 → a.percentage_on_cxl ≡ before
  pub found : init_strides a.percentage_on_cxl ≡ some a.strides

clamp_size_bounds :
    (wanted : ℕ)
    → (wanted < cxl_min_size → clamp_size wanted ≡ cxl_min_size)
      × (cxl_max_size < wanted → clamp_size wanted ≡ cxl_max_size)
      × (cxl_min_size ≤ wanted → wanted ≤ cxl_max_size → clamp_size wanted ≡ wanted)
unfolding clamp_size
clamp_size_bounds wanted = ground arith

set_percentage_lem :
    (i : ℤ) (old : ℕ)
    → ((p : ℕ) → i ≡ pos p → 0 < p → p < 100 → set_percentage i old ≡ p)
      × ((p : ℕ) → i ≡ pos p → 100 ≤ p → set_percentage i old ≡ 100)
      × (i ≤ℤ pos 0 → set_percentage i old ≡ old)
unfolding set_percentage
set_percentage_lem i old =
    (λ p e low high. rw e (ground arith), λ p e high. rw e (ground arith), λ h. ground arith)

-- The first `cxl_init` in a process, where the device opens and maps and memkind accepts the
-- region, runs to its end. It leaves the descriptor and the region that the system gave; as the share
-- the percentage where that is from 1 to 99, 100 where it is higher, and the share from before where
-- it is not positive; the strides of that share; and as the size the wanted one, or the limit that it
-- passes.
pub cxl_init-IsStarted :
    (a : Allocator) (wanted : ℕ) (percentage : ℤ) (os : Replies) (fd start : ℕ)
    → a.cxl_fd ≡ pos 0
    → os.opened ≡ pos fd
    → os.mapped ≡ some start
    → os.kind_error ≡ 0
    → (a' : Allocator) × (cxl_init a wanted percentage os ≡ running a')
      × IsStarted wanted percentage a.percentage_on_cxl fd start a'
unfolding cxl_init
cxl_init-IsStarted a wanted percentage os fd start closed opened mapped kind_ok =
    let p = set_percentage percentage a.percentage_on_cxl in
    let (s, found) = init_strides_total p in
    (
      record a {
        kind = true;
        cxl_current_size = clamp_size wanted;
        percentage_on_cxl = p;
        mmap_start_point = start;
        mmap_end_point = start + clamp_size wanted;
        cxl_fd = os.opened;
        strides = s;
      },
      ground (arith, found),
      let (low, high, between) = clamp_size_bounds wanted in
          let (share, share_high, share_low) = set_percentage_lem percentage a.percentage_on_cxl in
          record {
            kind = refl;
            descriptor = opened;
            size_low = low;
            size_high = high;
            size_wanted = between;
            starts = refl;
            ends = refl;
            share = share;
            share_high = share_high;
            share_low = share_low;
            found = found;
          },
    )

-- `cxl_init` ends the process where the device does not open, is not mapped, or memkind refuses the
-- region. The device is not open yet.
pub cxl_init_fails :
    (a : Allocator) (wanted : ℕ) (percentage : ℤ) (os : Replies)
    → a.cxl_fd ≡ pos 0
    → ((n : ℕ) × (os.opened ≡ negsuc n)) ⊎ (os.mapped ≡ none) ⊎ (os.kind_error ≢ 0)
    → cxl_init a wanted percentage os ≡ exit_failure
unfolding cxl_init
cxl_init_fails a wanted percentage os = ground arith

-- A second `cxl_init` after one that succeeded changes nothing, whatever it asks for, unless the
-- device was opened as descriptor 0.
pub cxl_init_once :
    (a a' : Allocator) (wanted wanted' : ℕ) (percentage percentage' : ℤ) (os os' : Replies)
    → a.cxl_fd ≡ pos 0
    → os.opened ≢ pos 0
    → cxl_init a wanted percentage os ≡ running a'
    → cxl_init a' wanted' percentage' os' ≡ running a'
unfolding cxl_init
cxl_init_once a a' wanted wanted' percentage percentage' os os' = ground arith
