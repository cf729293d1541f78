-- ===== src/Histogram/Round.antt =====
-- One round of the migration trigger over the leaves: an `update` for each, then `refresh`.
use sidle.Base.{
  ℕ, ◌+◌, ◌%◌, ◌^◌, ◌∙◌, ◌≤◌, ◌<◌, ◌≡◌, ◌≢◌, ◌==◌, ==_iff, ◌↔◌, inl, inr, List, [], ◌∷◌, Bool-cases,
  arith, refl, ap, get_or, replicate, length, sum, sum-set, length-set, get_or-set_self,
  get_or-set_ne, get_or-le-sum, if◌then◌else◌,
}
use sidle.Histogram.{Histogram, Hotness, hot, warm, cold, bucket, increment, update, refresh}
use sidle.Histogram.Index.{bucket-IsLog}

pub updates : Histogram → List ℕ → Histogram
updates h [] = h
updates h (a ∷ as_) = updates (update h a).1 as_

-- Every access time is a `uint16_t`.
abbrev pub AreCounts : List ℕ → Type 0
AreCounts [] = Unit {0}
AreCounts (a ∷ as_) = (a < 65536) × AreCounts as_

-- How many of the leaves belong to a bucket.
abbrev pub count_in : ℕ → List ℕ → ℕ
count_in i [] = 0
count_in i (a ∷ as_) = (if bucket a == i then 1 else 0) + count_in i as_

increment_self :
    (v : List ℕ) (i : ℕ)
    → i < length v
    → get_or v i 0 + 1 < 2 ^ 64
    → get_or (increment v i) i 0 ≡ get_or v i 0 + 1
unfolding increment
increment_self v i h fits = rw (get_or-set_self v i _ 0 h) (omega arith)

increment_ne : (v : List ℕ) (i j : ℕ) → i ≢ j → get_or (increment v i) j 0 ≡ get_or v j 0
unfolding increment
increment_ne v i j ne = get_or-set_ne v i j _ 0 ne

length-increment : (v : List ℕ) (i : ℕ) → length (increment v i) ≡ length v
unfolding increment
length-increment v i = length-set v i _

sum-increment :
    (v : List ℕ) (i : ℕ) → i < length v → sum v + 1 < 2 ^ 64 → sum (increment v i) ≡ sum v + 1
unfolding increment
sum-increment v i h fits =
    let small = get_or-le-sum v i in
    let moved = sum-set v i ((get_or v i 0 + 1) % 2 ^ 64) h in omega arith

increment-count :
    (v : List ℕ) (i j : ℕ)
    → i < length v
    → get_or v i 0 + 1 < 2 ^ 64
    → get_or (increment v i) j 0 ≡ get_or v j 0 + (if i == j then 1 else 0)
increment-count v i j h fits = elim (Bool-cases (i == j)) [
  | inl same ↦ rw (same, ← (==_iff i j).0 same) (increment_self v i h fits)
  | inr other ↦ rw other (increment_ne v i j (ground arith) ∙ omega arith)
]

next_histogram-update :
    (h : Histogram) (a : ℕ) → (update h a).1.next_histogram ≡ increment h.next_histogram (bucket a)
unfolding update
next_histogram-update h a = refl

updates-count :
    (as_ : List ℕ) (h : Histogram)
    → AreCounts as_
    → length h.next_histogram ≡ 16
    → sum h.next_histogram + length as_ < 2 ^ 64
    → let h' = updates h as_ in
      (length h'.next_histogram ≡ 16)
      × (sum h'.next_histogram ≡ sum h.next_histogram + length as_)
      × ((j : ℕ) → get_or h'.next_histogram j 0 ≡ get_or h.next_histogram j 0 + count_in j as_)
unfolding updates
updates-count [] h c len fits = (len, omega arith, λ j. omega arith)
updates-count (a ∷ as_) h c len fits =
    let v = h.next_histogram in
    let i = bucket a in
    let inside : i < length v = rw len (bucket-IsLog a c.0).0 in
    let small : get_or v i 0 + 1 < 2 ^ 64 = omega (arith, get_or-le-sum v i) in
    let next = next_histogram-update h a in
    let grown : sum (update h a).1.next_histogram ≡ sum v + 1 =
      rw next (sum-increment v i inside (omega arith)) in
    let (len', sum', count') =
      updates-count as_ (update h a).1 c.1 (rw next (length-increment v i ∙ len)) (omega arith) in
    (
      len',
      omega arith,
      λ j. omega (arith, count' j, ap (λ u. get_or u j 0) next, increment-count v i j inside small),
    )

-- A round over the leaves with access times `as_`, started on an empty next histogram, leaves in
-- bucket `j` of the histogram the number of leaves that belong there, for every `j`; the buckets
-- together hold the total number of leaves, and the next histogram is empty again. The number of
-- leaves fits a `uint64_t`.
pub refresh-updates :
    (h : Histogram) (as_ : List ℕ) (accesses : ℕ)
    → AreCounts as_
    → h.next_histogram ≡ replicate 16 0
    → length as_ < 2 ^ 64
    → let h' = refresh (updates h as_) (length as_) accesses in
      ((j : ℕ) → get_or h'.histogram j 0 ≡ count_in j as_)
      × (sum h'.histogram ≡ h'.total_number)
      × (length h'.histogram ≡ 16)
      × (h'.next_histogram ≡ replicate 16 0)
unfolding refresh
refresh-updates h as_ accesses c empty fits =
    let none_yet : sum h.next_histogram ≡ 0 = rw empty in
    let (len, total, count) = updates-count as_ h c (rw empty) (omega arith) in
    (
      λ j. omega (arith, count j, ap (λ u. get_or u j 0) empty, get_or-le-sum (replicate 16 0) j),
      omega arith,
      len,
      ap (λ n. replicate n 0) len,
    )

-- How warm a class is.
pub heat : Hotness → ℕ
heat hot = 2
heat warm = 1
heat cold = 0

-- `update` calls a leaf hot exactly where its access time is above the hot threshold and, of the
-- others, cold exactly where it is below the cold threshold. A leaf with more accesses is
-- never the colder one.
pub update_hotness :
    (h : Histogram) (a b : ℕ)
    → a ≤ b
    → ((update h a).0 ≡ hot ↔ h.hot_threshold < a)
      × ((update h a).0 ≡ cold ↔ (a ≤ h.hot_threshold) × (a < h.cold_threshold))
      × (heat (update h a).0 ≤ heat (update h b).0)
unfolding update heat
update_hotness h a b c = ground arith
