-- ===== src/Helper/Stats/Laws.antt =====
-- The extremes of a vector that is not empty.
use mathlib.Core.List.{Memᴰ}
use sidle.Base.{
  ℕ, zero, suc, ◌-◌, ◌≤◌, ◌≡◌, ◌⊎◌, inl, inr, refl, ap, ◌∙◌, Bool, true, false, none, some, List,
  [], ◌∷◌, length, drop, take, ◌==◌, if◌then◌else◌, Bool-cases, arith,
}
use sidle.Helper.Stats.{min_max, min_max_loop, max, max_loop, max_range, max_range_loop, max_from}

-- What C++ asks of a `<`: it is a strict weak order.
pub record IsStrict {ℓ} {A : Type ℓ} (less : A → A → Bool) : Type ℓ where
  pub asym : (a b : A) → less a b ≡ true → less b a ≡ false
  pub trans : (a b c : A) → less a b ≡ false → less b c ≡ false → less a c ≡ false
  pub irrefl : (a : A) → less a a ≡ false

-- A value of the vector that none exceeds.
pub record IsGreatest {ℓ} {A : Type ℓ} (less : A → A → Bool) (vals : List A) (m : A) : Type ℓ where
  pub member : Memᴰ m vals
  pub bounds : (v : A) → Memᴰ v vals → less m v ≡ false

abbrev pub flip {ℓ} : {A : Type ℓ} → (A → A → Bool) → A → A → Bool
flip less a b = less b a

pub flip-IsStrict {ℓ} : {A : Type ℓ} {less : A → A → Bool} → IsStrict less → IsStrict (flip less)
flip-IsStrict h = record {
  asym = λ a b. h.asym b a;
  trans = λ a b c p q. h.trans c b a q p;
  irrefl = h.irrefl;
}

module _ {ℓ} {A : Type ℓ} {less : A → A → Bool} (strict : IsStrict less) where
  -- One round of the loop.
  step : (m v : A) → A
  step m v = if less m v then v else m

  step_old : (m v : A) → less (step m v) m ≡ false
  unfolding step
  step_old m v = elim (Bool-cases (less m v)) [
    | inl e ↦ rw e (strict.asym m v e)
    | inr e ↦ rw e (strict.irrefl m)
  ]

  step_new : (m v : A) → less (step m v) v ≡ false
  unfolding step
  step_new m v = elim (Bool-cases (less m v)) [ inl e ↦ rw e (strict.irrefl v) | inr e ↦ rw e e ]

  step_either : (m v : A) → (step m v ≡ m) ⊎ (step m v ≡ v)
  unfolding step
  step_either m v = elim (Bool-cases (less m v)) [
    | inl e ↦ rw e (inr refl)
    | inr e ↦ rw e (inl refl)
  ]

  -- The loop never goes down.
  max_loop_ge : (vals : List A) (m : A) → less (max_loop less vals m) m ≡ false
  unfolding max_loop step
  max_loop_ge [] m = strict.irrefl m
  max_loop_ge (v ∷ vals) m =
      strict.trans _ (step m v) m (max_loop_ge vals (step m v)) (step_old m v)

  max_loop_bounds : (vals : List A) (m v : A) → Memᴰ v vals → less (max_loop less vals m) v ≡ false
  unfolding max_loop step
  max_loop_bounds [] m v h = elim h [ ]
  max_loop_bounds (x ∷ vals) m v (Memᴰ.head e) =
      rw e (strict.trans _ (step m x) x (max_loop_ge vals (step m x)) (step_new m x))
  max_loop_bounds (x ∷ vals) m v (Memᴰ.tail h) = max_loop_bounds vals (step m x) v h

  max_loop_member :
      (vals : List A) (m : A) → (max_loop less vals m ≡ m) ⊎ Memᴰ (max_loop less vals m) vals
  unfolding max_loop step
  max_loop_member [] m = inl refl
  max_loop_member (x ∷ vals) m = elim (max_loop_member vals (step m x)) [
    | inl e ↦ elim (step_either m x) [ inl f ↦ inl (e ∙ f) | inr f ↦ inr (Memᴰ.head (e ∙ f)) ]
    | inr h ↦ inr (Memᴰ.tail h)
  ]

  pub max_loop-IsGreatest :
      (v : A) (vals : List A) → IsGreatest less (v ∷ vals) (max_loop less (v ∷ vals) v)
  max_loop-IsGreatest v vals = record {
    member = elim (max_loop_member (v ∷ vals) v) [ inl e ↦ Memᴰ.head e | inr h ↦ h ];
    bounds = max_loop_bounds (v ∷ vals) v;
  }

min_max_loop-split {ℓ} :
    {A : Type ℓ} (less : A → A → Bool) (vals : List A) (a b : A)
    → min_max_loop less vals (a, b) ≡ (max_loop less vals a, max_loop (flip less) vals b)
unfolding min_max_loop max_loop
min_max_loop-split less [] a b = refl
min_max_loop-split less (v ∷ vals) a b = min_max_loop-split less vals _ _

-- For a strict order and a vector that is not empty `min_max` gives a greatest and a least value of
-- the vector, and `max` gives the same greatest value. On the empty vector both fail their
-- assertion.
pub min_max-IsGreatest {ℓ} :
    {A : Type ℓ} (less : A → A → Bool) (v : A) (vals : List A)
    → IsStrict less
    → ((most least : A) × (min_max less (v ∷ vals) ≡ some (most, least))
        × (max less (v ∷ vals) ≡ some most)
        × IsGreatest less (v ∷ vals) most
        × IsGreatest (flip less) (v ∷ vals) least)
      × (min_max less [] ≡ none)
      × (max less [] ≡ none)
unfolding min_max max
min_max-IsGreatest less v vals strict = (
  (
    _,
    _,
    ap some (min_max_loop-split less (v ∷ vals) v v),
    refl,
    max_loop-IsGreatest strict v vals,
    max_loop-IsGreatest (flip-IsStrict strict) v vals,
  ),
  refl,
  refl,
)

max_range_loop-take {ℓ} :
    {A : Type ℓ} (less : A → A → Bool) (n : ℕ) (vals : List A) (m : A)
    → max_range_loop less n vals m ≡ max_loop less (take n vals) m
unfolding max_range_loop max_loop
max_range_loop-take less zero vals m = refl
max_range_loop-take less (suc n) [] m = refl
max_range_loop-take less (suc n) (v ∷ vals) m = max_range_loop-take less n vals _

max_from-take {ℓ} :
    {A : Type ℓ} (less : A → A → Bool) (n : ℕ) (vals : List A)
    → max_from less (suc n) vals ≡ max less (take (suc n) vals)
unfolding max_from max
max_from-take less n [] = refl
max_from-take less n (v ∷ vals) = ap some (max_range_loop-take less (suc n) (v ∷ vals) v)

-- `max_range` between two iterators of a vector, the first not behind the second, gives what `max`
-- gives on a vector with the values between them. It fails its assertion where they are equal.
pub max_range-max {ℓ} :
    {A : Type ℓ} (less : A → A → Bool) (vals : List A) (begin end : ℕ)
    → begin ≤ end
    → end ≤ length vals
    → max_range less vals begin end ≡ max less (take (end - begin) (drop begin vals))
unfolding max_range max
max_range-max less vals begin end le bound = elim (Bool-cases (end == begin)) [
  | inl e ↦ let z : end - begin ≡ 0 = ground arith in rw (e, z) refl
  | inr e ↦
      let z : end - begin ≡ suc (end - begin - 1) = ground arith in
      rw (e, z) (max_from-take less (end - begin - 1) (drop begin vals))
]
