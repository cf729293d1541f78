-- ===== src/Helper/RangeScan/Laws.antt =====
-- A range scan over ascending keys gives exactly the entries in front of the end.
use mathlib.Core.List.{append-nil, append_assoc}
use sidle.Base.{
  ℕ, zero, suc, ◌<◌, ◌≡◌, refl, ap, ◌∙◌, inl, inr, ◌⊎◌, ◌↔◌, Each, false, some, List, [], ◌∷◌, ◌++◌,
  length, map, Bool-cases, arith,
}
use sidle.Base.Int.{pos, ◌≤ℤ◌, leb_ℤ}
use sidle.Helper.RangeScan.{memcmp, column, callback, append_value, resume, visit, range_scan}

pub memcmp_trans :
    (n : ℕ) (a b c : List ℕ)
    → length a ≡ n
    → length b ≡ n
    → length c ≡ n
    → memcmp n a b ≤ℤ pos 0
    → memcmp n b c ≤ℤ pos 0
    → memcmp n a c ≤ℤ pos 0
unfolding memcmp
memcmp_trans zero a b c la lb lc p q = omega arith
memcmp_trans (suc n) [] b c la lb lc p q = absurd (omega arith)
memcmp_trans (suc n) (x ∷ a) [] c la lb lc p q = absurd (omega arith)
memcmp_trans (suc n) (x ∷ a) (y ∷ b) [] la lb lc p q = absurd (omega arith)
memcmp_trans (suc n) (x ∷ a) (y ∷ b) (z ∷ c) la lb lc p q =
    let ih = memcmp_trans n a b c (omega arith) (omega arith) (omega arith) in ground (arith, ih)

pub memcmp_flip :
    (n : ℕ) (a b : List ℕ)
    → length a ≡ n
    → length b ≡ n
    → pos 0 ≤ℤ memcmp n a b
    → memcmp n b a ≤ℤ pos 0
unfolding memcmp
memcmp_flip zero a b la lb p = omega arith
memcmp_flip (suc n) [] b la lb p = absurd (omega arith)
memcmp_flip (suc n) (x ∷ a) [] la lb p = absurd (omega arith)
memcmp_flip (suc n) (x ∷ a) (y ∷ b) la lb p =
    let ih = memcmp_flip n a b (omega arith) (omega arith) in ground (arith, ih)

pub memcmp_back :
    (n : ℕ) (a b : List ℕ)
    → length a ≡ n
    → length b ≡ n
    → memcmp n a b ≤ℤ pos 0
    → pos 0 ≤ℤ memcmp n b a
unfolding memcmp
memcmp_back zero a b la lb p = omega arith
memcmp_back (suc n) [] b la lb p = absurd (omega arith)
memcmp_back (suc n) (x ∷ a) [] la lb p = absurd (omega arith)
memcmp_back (suc n) (x ∷ a) (y ∷ b) la lb p =
    let ih = memcmp_back n a b (omega arith) (omega arith) in ground (arith, ih)

-- One byte string stands before another in the dictionary.
abbrev pub IsBefore : List ℕ → List ℕ → Type 0
IsBefore [] b = ⊥
IsBefore (x ∷ a) [] = ⊥
IsBefore (x ∷ a) (y ∷ b) = (x < y) ⊎ ((x ≡ y) × IsBefore a b)

pub memcmp-IsBefore :
    (n : ℕ) (a b : List ℕ)
    → length a ≡ n
    → length b ≡ n
    → (leb_ℤ (pos 0) (memcmp n a b) ≡ false) ↔ IsBefore a b
unfolding memcmp
memcmp-IsBefore zero [] b la lb = (λ h. absurd (ground arith), λ h. elim h [ ])
memcmp-IsBefore zero (x ∷ a) b la lb = absurd (omega arith)
memcmp-IsBefore (suc n) [] b la lb = absurd (omega arith)
memcmp-IsBefore (suc n) (x ∷ a) [] la lb = absurd (omega arith)
memcmp-IsBefore (suc n) (x ∷ a) (y ∷ b) la lb =
    let ih = memcmp-IsBefore n a b (omega arith) (omega arith) in ground (arith, ih)

-- No key stands before one that comes earlier.
abbrev pub IsAscending : ℕ → List (List ℕ) → Type 0
IsAscending n [] = Unit
IsAscending n (k ∷ keys) =
    (length k ≡ n) × Each (λ l. memcmp n k l ≤ℤ pos 0) keys × IsAscending n keys

module _ {ℓ κ μ} {K : Type ℓ} {V : Type κ} {Row : Type μ} (key_size : ℕ)
    (to_normal_key : List ℕ → K) (read_value : List ℕ → V) (snapshot : Row → List ℕ → List (List ℕ))
    (value : Row → List ℕ) (fields end : List ℕ) (long : length end ≡ key_size)
    (readable : (r : Row) → column fields (snapshot r fields) ≡ some (value r)) where
  -- The pair that the result gets for a row.
  abbrev pub entry : List ℕ × Row → K × V
  entry (key, row) = (to_normal_key key, read_value (value row))

  -- How a scan splits the rows that are left.
  record Split (rows : List (List ℕ × Row)) (result : List (K × V)) : Type (ℓ ⊔ κ ⊔ μ) where
    front : List (List ℕ × Row)
    back : List (List ℕ × Row)
    whole : rows ≡ front ++ back
    in_front : Each (λ (key, row). IsBefore key end) front
    behind : Each (λ (key, row). ¬ IsBefore key end) back
    returned :
        visit key_size to_normal_key read_value snapshot end fields rows result
        ≡ some (result ++ map entry front)

  none-IsBefore :
      (key : List ℕ) (rows : List (List ℕ × Row))
      → length key ≡ key_size
      → pos 0 ≤ℤ memcmp key_size key end
      → IsAscending key_size (map (λ (k, row). k) rows)
      → Each (λ l. memcmp key_size key l ≤ℤ pos 0) (map (λ (k, row). k) rows)
      → Each (λ (k, row). ¬ IsBefore k end) rows
  none-IsBefore key [] lk ge asc le = tt
  none-IsBefore key ((k, row) ∷ rows) lk ge (lk', _, asc) (le, more) = (
    λ b.
        let early =
          memcmp_trans key_size end key k long lk lk' (memcmp_flip key_size key end lk long ge)
            le in
        let late = memcmp_back key_size end k long lk' early in
        let strict = (memcmp-IsBefore key_size k end lk' long).1 b in ground arith,
    none-IsBefore key rows lk ge asc more,
  )

  split :
      (rows : List (List ℕ × Row)) (result : List (K × V))
      → IsAscending key_size (map (λ (k, row). k) rows)
      → Split rows result
  unfolding visit resume callback append_value
  split [] result asc = record {
    front = [];
    back = [];
    whole = refl;
    in_front = tt;
    behind = tt;
    returned = rw (append-nil result) refl;
  }
  split ((key, row) ∷ rows) result (lk, le, asc) =
      let rest = split rows (result ++ (entry (key, row) ∷ [])) asc in
      elim (Bool-cases (leb_ℤ (pos 0) (memcmp key_size key end))) [
        | inl e ↦ record {
          front = [];
          back = (key, row) ∷ rows;
          whole = refl;
          in_front = tt;
          behind = (
            λ b. let strict = (memcmp-IsBefore key_size key end lk long).1 b in cc,
            none-IsBefore key rows lk (ground arith) asc le,
          );
          returned = rw (e, append-nil result) refl;
        }
        | inr e ↦ record {
          front = (key, row) ∷ rest.front;
          back = rest.back;
          whole = ap (◌∷◌ (key, row)) rest.whole;
          in_front = ((memcmp-IsBefore key_size key end lk long).0 e, rest.in_front);
          behind = rest.behind;
          returned =
              rw (e, readable row)
                (rest.returned ∙ ap some (append_assoc result (entry (key, row) ∷ []) _));
        }
      ]

  -- A range scan over rows with ascending keys of the key size, whose one column can be read,
  -- returns a pair for each row whose key stands before the end in byte order, in the order of the
  -- rows, and none for another row.
  pub range_scan-IsRange :
      (rows : List (List ℕ × Row))
      → IsAscending key_size (map (λ (k, row). k) rows)
      → (front back : List (List ℕ × Row)) × (rows ≡ front ++ back)
        × Each (λ (key, row). IsBefore key end) front
        × Each (λ (key, row). ¬ IsBefore key end) back
        × (range_scan key_size to_normal_key read_value snapshot end fields rows
            ≡ some (map entry front))
  unfolding range_scan
  range_scan-IsRange rows asc =
      let s = split rows [] asc in (s.front, s.back, s.whole, s.in_front, s.behind, s.returned)
