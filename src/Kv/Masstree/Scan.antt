-- ===== src/Kv/Masstree/Scan.antt =====
-- What a scan of `MasstreeKV` appends, and that `get` agrees with it.
use mathlib.Core.List.{append-nil, append_assoc}
use sidle.Base.{
  ℕ, zero, suc, ◌+◌, ◌≤◌, ◌≡◌, refl, sym, ap, ◌∙◌, true, false, some, List, [], ◌∷◌, ◌++◌, length,
  length-append, take, map, Each, Each-map, inl, inr, Bool-cases, arith,
}
use sidle.Kv.Format.{KeyFormat, ValueFormat}
use sidle.Kv.Format.Bytes.{same_bytes, same_bytes_refl, same_bytes→eq, is_before}
use sidle.Kv.Trees.{Entries, MassTable, IsMap, IsOrdered, lookup, from, in_turn}
use sidle.Kv.Masstree.{MasstreeKv, returned, get, scan, scan_loop}

before_irrefl : (a : List ℕ) → is_before a a ≡ false
before_irrefl [] = refl
before_irrefl (x ∷ a) = let ih = before_irrefl a in ground arith

before_differs : (a b : List ℕ) → is_before a b ≡ true → same_bytes a b ≡ false
before_differs a b h = elim (Bool-cases (same_bytes a b)) [
  | inl e ↦ let p = same_bytes→eq a b e in let q = before_irrefl b in cc
  | inr e ↦ e
]

both {ℓ} :
    {A : Type ℓ} (P Q : A → Type 0) (xs : List A) → Each P xs → Each Q xs → Each (λ x. P x × Q x) xs
both P Q [] h g = tt
both P Q (x ∷ xs) (p, h) (q, g) = ((p, q), both P Q xs h g)

Each-take {ℓ} : {A : Type ℓ} (P : A → Type 0) (n : ℕ) (xs : List A) → Each P xs → Each P (take n xs)
Each-take P zero xs h = tt
Each-take P (suc n) [] h = tt
Each-take P (suc n) (x ∷ xs) (p, h) = (p, Each-take _ n xs h)

Each-from :
    (P : List ℕ × List ℕ → Type 0) (k : List ℕ) (es : Entries) → Each P es → Each P (from k es)
Each-from P k [] h = tt
Each-from P k ((j, v) ∷ es) (p, h) = elim (Bool-cases (is_before j k)) [
  | inl e ↦ rw e (Each-from _ k es h)
  | inr e ↦ rw e (p, Each-from _ k es h)
]

IsOrdered-take : (n : ℕ) (es : Entries) → IsOrdered es → IsOrdered (take n es)
IsOrdered-take zero es h = tt
IsOrdered-take (suc n) [] h = tt
IsOrdered-take (suc n) ((j, v) ∷ es) (p, h) = (Each-take _ n es p, IsOrdered-take n es h)

IsOrdered-from : (k : List ℕ) (es : Entries) → IsOrdered es → IsOrdered (from k es)
IsOrdered-from k [] h = tt
IsOrdered-from k ((j, v) ∷ es) (p, h) = elim (Bool-cases (is_before j k)) [
  | inl e ↦ rw e (IsOrdered-from k es h)
  | inr e ↦ rw e (Each-from _ k es p, IsOrdered-from k es h)
]

from-Each : (k : List ℕ) (es : Entries) → Each (λ (j, v). is_before j k ≡ false) (from k es)
from-Each k [] = tt
from-Each k ((j, v) ∷ es) = elim (Bool-cases (is_before j k)) [
  | inl e ↦ rw e (from-Each k es)
  | inr e ↦ rw e (e, from-Each k es)
]

-- In an ordered list each entry is the one that a search finds.
lookup-Each : (es : Entries) → IsOrdered es → Each (λ (j, v). lookup j es ≡ some v) es
lookup-Each [] h = tt
lookup-Each ((k, v) ∷ es) (p, h) = (
  rw (same_bytes_refl k) refl,
  Each-map (λ (j, w) (b, f). rw (before_differs k j b) f) es (both _ _ es p (lookup-Each es h)),
)

length-take_le {ℓ} : {A : Type ℓ} (n : ℕ) (xs : List A) → length (take n xs) ≤ n
length-take_le zero xs = omega arith
length-take_le (suc n) [] = omega arith
length-take_le (suc n) (x ∷ xs) = omega (arith, length-take_le n xs)

length-map {ℓ κ} :
    {A : Type ℓ} {B : Type κ} (f : A → B) (xs : List A) → length (map f xs) ≡ length xs
length-map f [] = refl
length-map f (x ∷ xs) = ap suc (length-map f xs)

module _ {K V : Type 0} (keys : KeyFormat K) (values : ValueFormat V) (mass : MassTable) where
  -- The pair that an entry of the table stands for.
  abbrev pub decode : List ℕ × List ℕ → K × V
  decode (k, v) = (keys.to_normal_key k, values.read v)

  scan_loop-in_turn :
      (es : Entries) (result : List (K × V))
      → scan_loop mass keys values (in_turn es) result ≡ returned (result ++ map decode es)
  unfolding scan_loop
  scan_loop-in_turn [] result = rw (append-nil result) refl
  scan_loop-in_turn ((k, v) ∷ es) result =
      scan_loop-in_turn es (result ++ (decode (k, v) ∷ []))
      ∙ ap returned (append_assoc result (decode (k, v) ∷ []) _)

  -- A scan appends to its result a pair for each of the first `n` entries of the table that do not
  -- stand before the first key, in the order of their keys and without a repetition. It answers the
  -- length of the whole result, which counts what was there before. `get` finds each of the values
  -- under its key.
  pub scan-get :
      (law : IsMap mass) (kv : MasstreeKv mass) (k_start : K) (n : ℕ) (result : List (K × V))
      → (es : Entries) × (es ≡ take n (from (keys.to_str_key k_start) (law.entries kv.mass_tree)))
        × (scan mass keys values kv k_start n result
            ≡ returned (length result + length es, result ++ map decode es))
        × (length es ≤ n)
        × IsOrdered es
        × Each
            (λ (j, v).
              (is_before j (keys.to_str_key k_start) ≡ false)
              × ((k : K)
                  → keys.to_str_key k ≡ j
                  → (decode (j, v) ≡ (k, values.read v))
                    × ((d : V) → get mass keys values kv k d ≡ (true, values.read v))))
            es
  unfolding scan get
  scan-get law kv k_start n result =
      let start = keys.to_str_key k_start in
      let all = law.entries kv.mass_tree in
      let es = take n (from start all) in
      let sum : length (result ++ map decode es) ≡ length result + length es =
        length-append result (map decode es)
        ∙ ap (λ (m : ℕ). length result + m) (length-map decode es) in
      (
        es,
        refl,
        rw (law.run_scan_lem kv.mass_tree start n, scan_loop-in_turn es result, sum) refl,
        length-take_le n (from start all),
        IsOrdered-take n (from start all) (IsOrdered-from start all (law.ordered kv.mass_tree)),
        Each-map
            (λ (j, v) (late, there). (
              late,
              λ k e. (
                rw (sym e) (ap (λ (t : K). (t, values.read v)) (keys.to_normal_key-to_str_key k)),
                λ d. rw (law.run_get1_lem kv.mass_tree (keys.to_str_key k), e, there) refl,
              ),
            ))
            es
            (both _ _ es (Each-take _ n (from start all) (from-Each start all)) (
              Each-take _ n (from start all)
                (Each-from _ start all (lookup-Each all (law.ordered kv.mass_tree))))),
      )
