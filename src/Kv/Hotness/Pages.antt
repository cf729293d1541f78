-- ===== src/Kv/Hotness/Pages.antt =====
-- Each page's counts come together.
use mathlib.Core.List.{append-nil, append_assoc}
use sidle.Base.{
  refl, ℕ, ◌≡◌, sym, ◌∙◌, List, [], ◌∷◌, ◌++◌, Each, Each-map, inl, inr, ◌==◌, Bool-cases, arith,
  if◌then◌else◌, false,
}
use sidle.Kv.Hotness.{PageHotness, page_id, emplace, collect}

-- The counts of the nodes on a page, in the order of the visit.
abbrev pub counts_on : ℕ → List (ℕ × ℕ) → List ℕ
counts_on page [] = []
counts_on page ((address, count) ∷ nodes) =
    let rest = counts_on page nodes in if page_id address == page then count ∷ rest else rest

abbrev entry_of : ℕ → PageHotness → List ℕ
entry_of page [] = []
entry_of page ((p, counts) ∷ h) = let rest = entry_of page h in if p == page then counts else rest

entry_of-emplace :
    (page p count : ℕ) (h : PageHotness)
    → entry_of page (emplace p count h)
      ≡ (if p == page then entry_of page h ++ (count ∷ []) else entry_of page h)
unfolding emplace
entry_of-emplace page p count [] = refl
entry_of-emplace page p count ((q, counts) ∷ h) =
    let ih = entry_of-emplace page p count h in ground arith

entry_of-collect :
    (page : ℕ) (nodes : List (ℕ × ℕ)) (h : PageHotness)
    → entry_of page (collect nodes h) ≡ entry_of page h ++ counts_on page nodes
unfolding collect
entry_of-collect page [] h = sym (append-nil (entry_of page h))
entry_of-collect page ((address, count) ∷ nodes) h =
    entry_of-collect page nodes (emplace (page_id address) count h)
    ∙ elim (Bool-cases (page_id address == page)) [
      | inl e ↦
          rw (entry_of-emplace page (page_id address) count h, e)
            (append_assoc (entry_of page h) (count ∷ []) (counts_on page nodes))
      | inr e ↦ rw (entry_of-emplace page (page_id address) count h, e) refl
    ]

-- No page twice.
abbrev IsDistinct : PageHotness → Type 0
IsDistinct [] = Unit
IsDistinct ((p, counts) ∷ h) = Each (λ (q, c). (p == q) ≡ false) h × IsDistinct h

Each-emplace :
    (P : ℕ → Type 0) (page count : ℕ) (h : PageHotness)
    → P page
    → Each (λ (q, c). P q) h
    → Each (λ (q, c). P q) (emplace page count h)
unfolding emplace
Each-emplace P page count [] p h = (p, tt)
Each-emplace P page count ((q, counts) ∷ h) p (here, rest) = elim (Bool-cases (page == q)) [
  | inl e ↦ rw e (here, rest)
  | inr e ↦ rw e (here, Each-emplace P page count h p rest)
]

emplace-IsDistinct :
    (page count : ℕ) (h : PageHotness) → IsDistinct h → IsDistinct (emplace page count h)
unfolding emplace
emplace-IsDistinct page count [] d = (tt, tt)
emplace-IsDistinct page count ((q, counts) ∷ h) (new, d) = elim (Bool-cases (page == q)) [
  | inl e ↦ rw e (new, d)
  | inr e ↦
      let other : (q == page) ≡ false = ground arith in
      rw e (
        Each-emplace (λ r. (q == r) ≡ false) page count h other new,
        emplace-IsDistinct page count h d,
      )
]

collect-IsDistinct :
    (nodes : List (ℕ × ℕ)) (h : PageHotness) → IsDistinct h → IsDistinct (collect nodes h)
unfolding collect
collect-IsDistinct [] h d = d
collect-IsDistinct ((address, count) ∷ nodes) h d =
    collect-IsDistinct nodes (emplace (page_id address) count h)
      (emplace-IsDistinct (page_id address) count h d)

Each-both :
    {A : Type 0} (P Q : A → Type 0) (xs : List A) → Each P xs → Each Q xs → Each (λ a. P a × Q a) xs
Each-both P Q [] p q = tt
Each-both P Q (x ∷ xs) (p, ps) (q, qs) = ((p, q), Each-both P Q xs ps qs)

entry_of-Each : (h : PageHotness) → IsDistinct h → Each (λ (p, counts). counts ≡ entry_of p h) h
entry_of-Each [] d = tt
entry_of-Each ((p, counts) ∷ h) (new, d) = (
  ground arith,
  Each-map (λ e (other, eq). ground arith) h (Each-both _ _ h new (entry_of-Each h d)),
)

-- Each page's entry has its counts in the order of the visit.
pub collect-Each :
    (nodes : List (ℕ × ℕ)) → Each (λ (p, counts). counts ≡ counts_on p nodes) (collect nodes [])
collect-Each nodes =
    Each-map (λ (p, counts) e. e ∙ entry_of-collect p nodes []) (collect nodes [])
      (entry_of-Each (collect nodes []) (collect-IsDistinct nodes [] tt))
