-- ===== src/Kv/Hotness.antt =====
-- What the destructors of both wrappers write in a build with CAL_NODE_HOTNESS: the access counts of
-- the nodes of each page, behind their total, the pages with the largest totals first.
pub mod Laws
mod Pages
use sidle.Base.{
  ℕ, ◌+◌, ◌/◌, ◌%◌, ◌^◌, Bool, List, [], ◌∷◌, ◌++◌, map, sum, ltb, ◌==◌, u16, if◌then◌else◌,
}

-- A page and the counts of the nodes on it. The order of the pages in the `unordered_map` is not
-- specified; here it is that in which the pages come first.
abbrev pub PageHotness : Type 0
PageHotness = List (ℕ × List ℕ)

abbrev pub page_id : ℕ → ℕ
page_id address = address / 2 ^ 12

-- `hotness[page_id].emplace_back(count)`
unfoldable pub emplace : ℕ → ℕ → PageHotness → PageHotness
emplace page count [] = (page, count ∷ []) ∷ []
emplace page count ((p, counts) ∷ h) =
    let rest = emplace page count h in
    if page == p then (p, counts ++ (count ∷ [])) ∷ h else (p, counts) ∷ rest

-- The visit of all nodes, each with its address and its count.
unfoldable pub collect : List (ℕ × ℕ) → PageHotness → PageHotness
collect [] h = h
collect ((address, count) ∷ nodes) h = collect nodes (emplace (page_id address) count h)

-- The total goes to the front, as a number of the counts' type.
unfoldable pub summarise : (ℕ → ℕ) → PageHotness → List (List ℕ)
summarise wrap [] = []
summarise wrap ((p, counts) ∷ h) = (wrap (sum counts) ∷ counts) ∷ summarise wrap h

abbrev pub first : List ℕ → ℕ
first [] = 0
first (n ∷ ns) = n

unfoldable pub insert_row : List ℕ → List (List ℕ) → List (List ℕ)
insert_row r [] = r ∷ []
insert_row r (s ∷ rows) =
    let rest = insert_row r rows in if ltb (first r) (first s) then s ∷ rest else r ∷ s ∷ rows

-- `std::sort` with the larger total first. The order of rows with one total is not specified.
unfoldable pub sort_rows : List (List ℕ) → List (List ℕ)
sort_rows [] = []
sort_rows (r ∷ rows) = insert_row r (sort_rows rows)

-- Masstree's counts have 16 bits, those of the radix tree 32.
unfoldable pub masstree_hotness : List (ℕ × ℕ) → List (List ℕ)
masstree_hotness nodes = sort_rows (summarise u16 (collect nodes []))

unfoldable pub art_hotness : List (ℕ × ℕ) → List (List ℕ)
art_hotness nodes = sort_rows (summarise (λ n. n % 2 ^ 32) (collect nodes []))
