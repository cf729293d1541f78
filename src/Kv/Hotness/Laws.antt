-- ===== src/Kv/Hotness/Laws.antt =====
-- The rows are in order, and account for every access.
use sidle.Base.{
  ℕ, ◌+◌, ◌%◌, ◌^◌, ◌≤◌, ◌<◌, ◌≡◌, refl, ◌∙◌, List, [], ◌∷◌, ◌++◌, sum, Each, Each-map, inl, inr,
  ltb, u16, ◌==◌, Bool-cases, arith,
}
use sidle.Kv.Hotness.Pages.{counts_on, collect-Each}
use sidle.Kv.Hotness.{
  PageHotness, page_id, emplace, collect, summarise, first, insert_row, sort_rows, masstree_hotness,
  art_hotness,
}

abbrev pub accesses : List (ℕ × ℕ) → ℕ
accesses [] = 0
accesses ((address, count) ∷ nodes) = count + accesses nodes

abbrev recorded : PageHotness → ℕ
recorded [] = 0
recorded ((p, counts) ∷ h) = sum counts + recorded h

-- The sum of the totals that stand in front.
abbrev pub totals : List (List ℕ) → ℕ
totals [] = 0
totals (r ∷ rows) = first r + totals rows

sum-snoc : (xs : List ℕ) (n : ℕ) → sum (xs ++ (n ∷ [])) ≡ sum xs + n
sum-snoc [] n = omega arith
sum-snoc (x ∷ xs) n = omega (arith, sum-snoc xs n)

recorded-emplace :
    (page count : ℕ) (h : PageHotness) → recorded (emplace page count h) ≡ recorded h + count
unfolding emplace
recorded-emplace page count [] = omega arith
recorded-emplace page count ((p, counts) ∷ h) =
    let ih = recorded-emplace page count h in
    let here = sum-snoc counts count in
    elim (Bool-cases (page == p)) [ inl e ↦ rw e (omega arith) | inr e ↦ rw e (omega arith) ]

recorded-collect :
    (nodes : List (ℕ × ℕ)) (h : PageHotness)
    → recorded (collect nodes h) ≡ recorded h + accesses nodes
unfolding collect
recorded-collect [] h = omega arith
recorded-collect ((address, count) ∷ nodes) h = omega (
  arith,
  recorded-collect nodes (emplace (page_id address) count h),
  recorded-emplace (page_id address) count h,
)

-- Rows in the order of their totals, the largest first.
abbrev pub IsDescending : List (List ℕ) → Type 0
IsDescending [] = Unit
IsDescending (r ∷ rows) = Each (λ s. first s ≤ first r) rows × IsDescending rows

-- The counts of one page, behind their total.
abbrev pub IsPage : List (ℕ × ℕ) → List ℕ → Type 0
IsPage nodes [] = ⊥
IsPage nodes (n ∷ counts) = (n ≡ sum counts) × ((page : ℕ) × (counts ≡ counts_on page nodes))

Each-insert_row :
    (P : List ℕ → Type 0) (r : List ℕ) (rows : List (List ℕ))
    → P r
    → Each P rows
    → Each P (insert_row r rows)
unfolding insert_row
Each-insert_row P r [] p h = (p, tt)
Each-insert_row P r (s ∷ rows) p (q, h) = elim (Bool-cases (ltb (first r) (first s))) [
  | inl e ↦ rw e (q, Each-insert_row P r rows p h)
  | inr e ↦ rw e (p, (q, h))
]

insert_row-IsDescending :
    (r : List ℕ) (rows : List (List ℕ)) → IsDescending rows → IsDescending (insert_row r rows)
unfolding insert_row
insert_row-IsDescending r [] h = (tt, tt)
insert_row-IsDescending r (s ∷ rows) (below, h) = elim (Bool-cases (ltb (first r) (first s))) [
  | inl e ↦ rw e (Each-insert_row _ r rows (ground arith) below, insert_row-IsDescending r rows h)
  | inr e ↦
      let le : first s ≤ first r = ground arith in
      rw e ((le, Each-map (λ t l. omega arith) rows below), (below, h))
]

totals-insert_row :
    (r : List ℕ) (rows : List (List ℕ)) → totals (insert_row r rows) ≡ first r + totals rows
unfolding insert_row
totals-insert_row r [] = refl
totals-insert_row r (s ∷ rows) = let ih = totals-insert_row r rows in ground arith

-- What holds of sorted rows.
sort_rows_lem :
    (P : List ℕ → Type 0) (rows : List (List ℕ))
    → Each P rows
    → IsDescending (sort_rows rows)
      × (totals (sort_rows rows) ≡ totals rows)
      × Each P (sort_rows rows)
unfolding sort_rows
sort_rows_lem P [] h = (tt, refl, tt)
sort_rows_lem P (r ∷ rows) (p, h) =
    let (d, s, e) = sort_rows_lem P rows h in
    (
      insert_row-IsDescending r (sort_rows rows) d,
      omega (arith, totals-insert_row r (sort_rows rows)),
      Each-insert_row P r (sort_rows rows) p e,
    )

summarise_lem :
    (wrap : ℕ → ℕ) (nodes : List (ℕ × ℕ)) (h : PageHotness)
    → ((n : ℕ) → n ≤ recorded h → wrap n ≡ n)
    → Each (λ (p, counts). counts ≡ counts_on p nodes) h
    → Each (IsPage nodes) (summarise wrap h) × (totals (summarise wrap h) ≡ recorded h)
unfolding summarise
summarise_lem wrap nodes [] small pages = (tt, refl)
summarise_lem wrap nodes ((p, counts) ∷ h) small (here, pages) =
    let (e, t) = summarise_lem wrap nodes h (λ n le. small n (omega arith)) pages in
    let whole = small (sum counts) (omega arith) in (((whole, (p, here)), e), omega arith)

rows_lem :
    (wrap : ℕ → ℕ) (nodes : List (ℕ × ℕ))
    → ((n : ℕ) → n ≤ accesses nodes → wrap n ≡ n)
    → let rows = sort_rows (summarise wrap (collect nodes [])) in
      IsDescending rows × (totals rows ≡ accesses nodes) × Each (IsPage nodes) rows
rows_lem wrap nodes small =
    let all = recorded-collect nodes [] in
    let (e, t) =
      summarise_lem wrap nodes (collect nodes []) (λ n le. small n (omega arith))
        (collect-Each nodes) in
    let (d, s, e') = sort_rows_lem (IsPage nodes) (summarise wrap (collect nodes [])) e in
    (d, s ∙ t ∙ omega arith, e')

-- Where the accesses of all nodes together fit the type of the counts, 16 bits in Masstree and 32 in
-- the radix tree, the rows come with their totals in descending order, each row is the total of the
-- counts of one page and then these counts in the order of the visit, and the totals add up to all
-- accesses.
pub hotness-IsDescending :
    (nodes : List (ℕ × ℕ))
    → (accesses nodes < 2 ^ 16
        → IsDescending (masstree_hotness nodes)
          × (totals (masstree_hotness nodes) ≡ accesses nodes)
          × Each (IsPage nodes) (masstree_hotness nodes))
      × (accesses nodes < 2 ^ 32
          → IsDescending (art_hotness nodes)
            × (totals (art_hotness nodes) ≡ accesses nodes)
            × Each (IsPage nodes) (art_hotness nodes))
unfolding masstree_hotness art_hotness
hotness-IsDescending nodes = (
  λ small. rows_lem u16 nodes (λ n le. omega arith),
  λ small. rows_lem (λ n. n % 2 ^ 32) nodes (λ n le. omega arith),
)
