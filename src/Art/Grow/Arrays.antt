-- ===== src/Art/Grow/Arrays.antt =====
-- The loops that fill the arrays of a node that has grown.
use sidle.Base.{
  ℕ, zero, suc, ◌+◌, ◌-◌, ◌<◌, ◌≤◌, ◌≡◌, ◌≢◌, inl, inr, List, [], ◌∷◌, Option, none, some, ◌==◌,
  ==_iff, arith, refl, sym, ap, ◌∙◌, if◌then◌else◌, Bool-cases, get_or, set, length, length-set,
  get_or-set_self, get_or-set_ne, false,
}
use sidle.Art.Node.{find_key}
use sidle.Art.Grow.{fill_index, spread}

pub find_key-ext :
    (n i : ℕ) (xs ys : List ℕ) (b : ℕ)
    → n ≤ length xs
    → n ≤ length ys
    → ((j : ℕ) → j < n → get_or xs j 0 ≡ get_or ys j 0)
    → find_key i n xs b ≡ find_key i n ys b
unfolding find_key
find_key-ext zero i xs ys b h k e = refl
find_key-ext (suc n) i [] ys b h k e = absurd (omega arith)
find_key-ext (suc n) i (x ∷ xs) [] b h k e = absurd (omega arith)
find_key-ext (suc n) i (x ∷ xs) (y ∷ ys) b h k e =
    let same : x ≡ y = e 0 (omega arith) in
    let rest =
      find_key-ext n (i + 1) xs ys b (omega arith) (omega arith) (λ j l. e (suc j) (omega arith)) in
    rw (same, rest)

pub spread_below :
    (n i b : ℕ) (child index source : List ℕ)
    → b < i
    → get_or (spread n i child index source) b 0 ≡ get_or child b 0
unfolding spread
spread_below zero i b child index source h = refl
spread_below (suc n) i b child index source h = elim (Bool-cases (get_or index i 0 == 0)) [
  | inl e ↦ rw e (spread_below n (i + 1) b child index source (omega arith))
  | inr e ↦ rw e (
      spread_below n (i + 1) b _ index source (omega arith)
      ∙ get_or-set_ne child i b _ 0 (λ q. absurd (omega arith)))
]

spread_here :
    (n i : ℕ) (child index source : List ℕ)
    → i < length child
    → get_or (spread (suc n) i child index source) i 0
      ≡ (if get_or index i 0 == 0 then get_or child i 0 else get_or source (get_or index i 0 - 1) 0)
unfolding spread
spread_here n i child index source h = elim (Bool-cases (get_or index i 0 == 0)) [
  | inl e ↦ rw e (spread_below n (i + 1) i child index source (omega arith))
  | inr e ↦
      rw e (spread_below n (i + 1) i _ index source (omega arith) ∙ get_or-set_self child i _ 0 h)
]

-- A byte of the range gets the child of its index, or stays.
pub spread_lem :
    (n i b : ℕ) (child index source : List ℕ)
    → i ≤ b
    → b < i + n
    → i + n ≤ length child
    → get_or (spread n i child index source) b 0
      ≡ (if get_or index b 0 == 0 then get_or child b 0 else get_or source (get_or index b 0 - 1) 0)
unfolding spread
spread_lem zero i b child index source low high room = absurd (omega arith)
spread_lem (suc n) i b child index source low high room = elim (Bool-cases (i == b)) [
  | inl same ↦ rw (← (==_iff i b).0 same) (spread_here n i child index source (omega arith))
  | inr other ↦ elim (Bool-cases (get_or index i 0 == 0)) [
    | inl e ↦
        rw e (spread_lem n (i + 1) b child index source (ground arith) (omega arith) (omega arith))
    | inr e ↦
        let c = get_or source (get_or index i 0 - 1) 0 in
        rw e (
          spread_lem n (i + 1) b (set child i c) index source (ground arith) (omega arith)
            (omega (arith, length-set child i c))
          ∙ ap (λ x. if get_or index b 0 == 0 then x else get_or source (get_or index b 0 - 1) 0)
              (get_or-set_ne child i b c 0 (λ q. absurd (ground arith))))
  ]
]

-- `find_key` from index `i` of the whole array
pub find_from : ℕ → ℕ → List ℕ → ℕ → Option ℕ
find_from zero i key b = none
find_from (suc n) i key b = if get_or key i 0 == b then some i else find_from n (i + 1) key b

find_from-none :
    (n i : ℕ) (key : List ℕ) (b : ℕ)
    → ((j : ℕ) → i ≤ j → j < i + n → get_or key j 0 ≢ b)
    → find_from n i key b ≡ none
unfolding find_from
find_from-none zero i key b h = refl
find_from-none (suc n) i key b h =
    let no : get_or key i 0 == b ≡ false = ground (arith, h i (omega arith) (omega arith)) in
    rw no (find_from-none n (i + 1) key b (λ j low high. h j (omega arith) (omega arith)))

pub find_from-find_key :
    (n i : ℕ) (pre key : List ℕ) (b : ℕ)
    → n ≤ length key
    → ((j : ℕ) → get_or key j 0 ≡ get_or pre (i + j) 0)
    → find_from n i pre b ≡ find_key i n key b
unfolding find_from find_key
find_from-find_key zero i pre key b h e = refl
find_from-find_key (suc n) i pre [] b h e = absurd (omega arith)
find_from-find_key (suc n) i pre (k ∷ key) b h e =
    let first : k ≡ get_or pre i 0 = e 0 ∙ ap (λ a. get_or pre a 0) (omega arith) in
    let rest =
      find_from-find_key n (i + 1) pre key b (omega arith)
        (λ j. e (suc j) ∙ ap (λ a. get_or pre a 0) (omega arith)) in
    rw (first, rest)

-- The loop over distinct keys, which are bytes, gives each its slot, one up, and no other byte any.
pub fill_index_lem :
    (n i b : ℕ) (index key : List ℕ)
    → length index ≡ 256
    → ((j : ℕ) → get_or key j 0 < 256)
    → ((j k : ℕ) → j < k → k < i + n → get_or key j 0 ≢ get_or key k 0)
    → get_or (fill_index n i index key) b 0
      ≡ (elim (find_from n i key b) [ none ↦ get_or index b 0 | some j ↦ j + 1 ])
unfolding fill_index find_from
fill_index_lem zero i b index key size bytes distinct = refl
fill_index_lem (suc n) i b index key size bytes distinct =
    let k = get_or key i 0 in
    let rest =
      fill_index_lem n (i + 1) b (set index k (i + 1)) key (length-set index k (i + 1) ∙ size) bytes
        (λ j l low high. distinct j l low (omega arith)) in
    elim (Bool-cases (k == b)) [
      | inl e ↦
          let gone : find_from n (i + 1) key b ≡ none =
            find_from-none n (i + 1) key b (λ j low high q.
              distinct i j (omega arith) (omega arith) ((==_iff k b).0 e ∙ sym q)) in
          let wrote : get_or (set index k (i + 1)) b 0 ≡ i + 1 =
            rw (← (==_iff k b).0 e) (get_or-set_self index k (i + 1) 0 (omega (arith, bytes i))) in
          rw e (rest ∙ rw (gone, wrote))
      | inr e ↦ rw e (
          rest
          ∙ ap (λ x. elim (find_from n (i + 1) key b) as (λ o. ℕ) [ none ↦ x | some j ↦ j + 1 ])
              (get_or-set_ne index k b (i + 1) 0 (λ q. absurd (ground arith))))
    ]

pub length-fill_index :
    (n i : ℕ) (index key : List ℕ) → length (fill_index n i index key) ≡ length index
unfolding fill_index
length-fill_index zero i index key = refl
length-fill_index (suc n) i index key =
    length-fill_index n (i + 1) (set index (get_or key i 0) (i + 1)) key
    ∙ length-set index (get_or key i 0) (i + 1)

pub length-spread :
    (n i : ℕ) (child index source : List ℕ) → length (spread n i child index source) ≡ length child
unfolding spread
length-spread zero i child index source = refl
length-spread (suc n) i child index source = elim (Bool-cases (get_or index i 0 == 0)) [
  | inl e ↦ rw e (length-spread n (i + 1) child index source)
  | inr e ↦ rw e (length-spread n (i + 1) _ index source ∙ length-set child i _)
]
