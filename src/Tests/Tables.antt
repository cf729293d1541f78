-- ===== src/Tests/Tables.antt =====
-- Concrete trees: an ordered list of entries, which obeys the laws of `Kv.Trees`, and a list of keys.
use sidle.Base.{
  ℕ, ◌≡◌, refl, sym, ◌∙◌, Bool, true, false, Option, none, some, List, [], ◌∷◌, Each, Each-map,
  take, inl, inr, if◌then◌else◌, Bool-cases, arith,
}
use sidle.Base.Int.{ℤ, pos}
use sidle.Kv.Format.Bytes.{same_bytes, same_bytes_refl, same_bytes→eq, is_before}
use sidle.Kv.Trees.{ArtTree, MassTable, IsMap, Entries, IsOrdered, lookup, from, in_turn, replaced}

before_trans : (a b c : List ℕ) → is_before a b ≡ true → is_before b c ≡ true → is_before a c ≡ true
before_trans [] b [] p q = cc
before_trans [] [] (z ∷ c) p q = refl
before_trans [] (y ∷ b) (z ∷ c) p q = refl
before_trans (x ∷ a) [] c p q = cc
before_trans (x ∷ a) (y ∷ b) [] p q = cc
before_trans (x ∷ a) (y ∷ b) (z ∷ c) p q = let ih = before_trans a b c in ground (arith, ih)

before_total :
    (a b : List ℕ) → same_bytes a b ≡ false → is_before a b ≡ false → is_before b a ≡ true
before_total [] [] p q = cc
before_total [] (y ∷ b) p q = cc
before_total (x ∷ a) [] p q = refl
before_total (x ∷ a) (y ∷ b) p q = let ih = before_total a b in ground (arith, ih)

abbrev pub put_entry : List ℕ → List ℕ → Entries → Entries
put_entry k v [] = (k, v) ∷ []
put_entry k v ((j, w) ∷ es) =
    let rest = put_entry k v es in
    if same_bytes k j
    then (k, v) ∷ es
    else if is_before k j
    then (k, v) ∷ (j, w) ∷ es
    else (j, w) ∷ rest

abbrev pub drop_entry : List ℕ → Entries → Entries
drop_entry k [] = []
drop_entry k ((j, w) ∷ es) =
    let rest = drop_entry k es in if same_bytes k j then rest else (j, w) ∷ rest

not_both :
    (a b c : List ℕ) → same_bytes a b ≡ false → same_bytes a c ≡ true → same_bytes b c ≡ false
not_both a b c p q = elim (Bool-cases (same_bytes b c)) [
  | inl e ↦
      let ab : a ≡ b = same_bytes→eq a c q ∙ sym (same_bytes→eq b c e) in
      let t : same_bytes a b ≡ true = rw ab (same_bytes_refl b) in cc
  | inr e ↦ e
]

pub lookup-put_entry :
    (k v l : List ℕ) (es : Entries)
    → lookup l (put_entry k v es) ≡ (if same_bytes k l then some v else lookup l es)
lookup-put_entry k v l [] = refl
lookup-put_entry k v l ((j, w) ∷ es) = elim (Bool-cases (same_bytes k j)) [
  | inl e ↦
      let p = same_bytes→eq k j e in
      rw (p, same_bytes_refl j)
        (elim (Bool-cases (same_bytes j l)) [ inl f ↦ rw f refl | inr f ↦ rw f refl ])
  | inr e ↦
      let ih = lookup-put_entry k v l es in
      elim (Bool-cases (is_before k j)) [
        | inl f ↦ rw (e, f) refl
        | inr f ↦
            rw (e, f)
              (elim (Bool-cases (same_bytes k l)) [
                | inl g ↦ rw (not_both k j l e g, g) (rw g at ih)
                | inr g ↦ rw (ih, g) refl
              ])
      ]
]

pub lookup-drop_entry :
    (k l : List ℕ) (es : Entries)
    → lookup l (drop_entry k es) ≡ (if same_bytes k l then none else lookup l es)
lookup-drop_entry k l [] = elim (Bool-cases (same_bytes k l)) [
  | inl f ↦ rw f refl
  | inr f ↦ rw f refl
]
lookup-drop_entry k l ((j, w) ∷ es) =
    let ih = lookup-drop_entry k l es in
    elim (Bool-cases (same_bytes k j)) [
      | inl e ↦
          let p = same_bytes→eq k j e in
          rw e (
            ih ∙ elim (Bool-cases (same_bytes k l)) [
              | inl f ↦ rw f refl
              | inr f ↦ let g : same_bytes j l ≡ false = rw p at f in rw (f, g) refl
            ])
      | inr e ↦ rw e (elim (Bool-cases (same_bytes k l)) [
        | inl g ↦ rw (not_both k j l e g, g) (rw g at ih)
        | inr g ↦ rw (ih, g) refl
      ])
    ]

Each-put_entry :
    (P : List ℕ × List ℕ → Type 0) (k v : List ℕ) (es : Entries)
    → P (k, v)
    → Each P es
    → Each P (put_entry k v es)
Each-put_entry P k v [] p h = (p, tt)
Each-put_entry P k v ((j, w) ∷ es) p (q, h) = elim (Bool-cases (same_bytes k j)) [
  | inl e ↦ rw e (p, h)
  | inr e ↦ elim (Bool-cases (is_before k j)) [
    | inl f ↦ rw (e, f) (p, (q, h))
    | inr f ↦ rw (e, f) (q, Each-put_entry P k v es p h)
  ]
]

pub IsOrdered-put_entry :
    (k v : List ℕ) (es : Entries) → IsOrdered es → IsOrdered (put_entry k v es)
IsOrdered-put_entry k v [] h = (tt, tt)
IsOrdered-put_entry k v ((j, w) ∷ es) (p, h) = elim (Bool-cases (same_bytes k j)) [
  | inl e ↦ let q = same_bytes→eq k j e in rw (q, same_bytes_refl j) (p, h)
  | inr e ↦ elim (Bool-cases (is_before k j)) [
    | inl f ↦ rw (e, f) ((f, Each-map (λ (l, u) g. before_trans k j l f g) es p), (p, h))
    | inr f ↦
        rw (e, f) (Each-put_entry _ k v es (before_total k j e f) p, IsOrdered-put_entry k v es h)
  ]
]

Each-drop_entry :
    (P : List ℕ × List ℕ → Type 0) (k : List ℕ) (es : Entries)
    → Each P es
    → Each P (drop_entry k es)
Each-drop_entry P k [] h = tt
Each-drop_entry P k ((j, w) ∷ es) (q, h) = elim (Bool-cases (same_bytes k j)) [
  | inl e ↦ rw e (Each-drop_entry P k es h)
  | inr e ↦ rw e (q, Each-drop_entry P k es h)
]

pub IsOrdered-drop_entry : (k : List ℕ) (es : Entries) → IsOrdered es → IsOrdered (drop_entry k es)
IsOrdered-drop_entry k [] h = tt
IsOrdered-drop_entry k ((j, w) ∷ es) (p, h) = elim (Bool-cases (same_bytes k j)) [
  | inl e ↦ rw e (IsOrdered-drop_entry k es h)
  | inr e ↦ rw e (Each-drop_entry _ k es p, IsOrdered-drop_entry k es h)
]

pub record Ordered : Type 0 where
  pub list : Entries
  pub ordered : IsOrdered list

abbrev pub is_there : Option (List ℕ) → Bool
is_there none = false
is_there (some v) = true

abbrev pub list_table : MassTable
list_table = record {
  Table = Ordered;
  initialize = λ p. record { list = []; ordered = tt };
  run_get1 = λ t k field. lookup k t.list;
  run_replace = λ t k v. (
    replaced (lookup k t.list),
    record { list = put_entry k v t.list; ordered = IsOrdered-put_entry k v t.list t.ordered },
  );
  run_remove = λ t k. (
    is_there (lookup k t.list),
    record { list = drop_entry k t.list; ordered = IsOrdered-drop_entry k t.list t.ordered },
  );
  run_scan = λ t k n. in_turn (take n (from k t.list));
}

abbrev pub list_table-IsMap : IsMap list_table
list_table-IsMap = record {
  entries = λ t. t.list;
  ordered = λ t. t.ordered;
  entries-initialize = λ p. refl;
  run_get1_lem = λ t k. refl;
  run_replace_entries = λ t k v l. lookup-put_entry k v l t.list;
  run_replace_result = λ t k v. refl;
  run_remove_entries = λ t k l. lookup-drop_entry k l t.list;
  run_scan_lem = λ t k n. refl;
}

-- A tree that is the list of its keys.
abbrev pub find : List ℕ → List (List ℕ) → Option (List ℕ)
find k [] = none
find k (l ∷ ls) = let rest = find k ls in if same_bytes l k then some k else rest

abbrev pub code : Option (List ℕ) → ℤ
code o = elim o [ none ↦ pos 0 | some b ↦ pos 1 ]

abbrev pub key_list : ArtTree
key_list = record {
  Tree = List (List ℕ);
  empty = [];
  adaptive_radix_tree_get = λ t k. find k t;
  adaptive_radix_tree_put = λ t k. (code (find k t), k ∷ t);
}
