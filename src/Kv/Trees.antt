-- ===== src/Kv/Trees.antt =====
-- The operations of the two trees that the wrappers call, with what is documented of Masstree's as
-- laws. The radix tree is in third_party/art/art.cc, Masstree in third_party/masstree-beta.
use sidle.Base.{ℕ, ◌≡◌, Bool, true, Option, none, some, List, [], ◌∷◌, take, Each, if◌then◌else◌}
use sidle.Base.Int.{ℤ}
use sidle.Kv.Format.Bytes.{same_bytes, is_before}

-- `adaptive_radix_tree_get` gives a pointer into the tree, here the bytes from there on, and
-- `adaptive_radix_tree_put` a code.
pub record ArtTree : Type 1 where
  pub Tree : Type 0
  pub empty : Tree
  pub adaptive_radix_tree_get : Tree → List ℕ → Option (List ℕ)
  pub adaptive_radix_tree_put : Tree → List ℕ → ℤ × Tree

-- `result_t` of kvproto.hh
pub data Result : Type 0 where
  not_found retry out_of_date inserted updated found scan_done : Result

-- The operations of `query` on a table. `run_scan` gives what it appends to the request: keys and
-- values in turn.
pub record MassTable : Type 1 where
  pub Table : Type 0
  pub initialize : ℤ → Table
  pub run_get1 : Table → List ℕ → ℕ → Option (List ℕ)
  pub run_replace : Table → List ℕ → List ℕ → Result × Table
  pub run_remove : Table → List ℕ → Bool × Table
  pub run_scan : Table → List ℕ → ℕ → List (List ℕ)

abbrev pub Entries : Type 0
Entries = List (List ℕ × List ℕ)

abbrev pub lookup : List ℕ → Entries → Option (List ℕ)
lookup k [] = none
lookup k ((j, v) ∷ es) = let rest = lookup k es in if same_bytes j k then some v else rest

-- The entries that do not stand before a key.
abbrev pub from : List ℕ → Entries → Entries
from k [] = []
from k ((j, v) ∷ es) = let rest = from k es in if is_before j k then rest else (j, v) ∷ rest

-- Keys and values in turn.
abbrev pub in_turn : Entries → List (List ℕ)
in_turn [] = []
in_turn ((k, v) ∷ es) = k ∷ v ∷ in_turn es

abbrev pub replaced : Option (List ℕ) → Result
replaced none = inserted
replaced (some v) = updated

-- No key twice, and the keys in the order of their bytes.
abbrev pub IsOrdered : Entries → Type 0
IsOrdered [] = Unit
IsOrdered ((k, v) ∷ es) = Each (λ (l, w). is_before k l ≡ true) es × IsOrdered es

-- The table is an ordered map from keys to values.
pub record IsMap (mass : MassTable) : Type 1 where
  pub entries : mass.Table → Entries
  pub ordered : (t : mass.Table) → IsOrdered (entries t)
  pub entries-initialize : (p : ℤ) → entries (mass.initialize p) ≡ []
  pub run_get1_lem : (t : mass.Table) (k : List ℕ) → mass.run_get1 t k 0 ≡ lookup k (entries t)
  pub run_replace_entries :
      (t : mass.Table) (k v l : List ℕ)
      → lookup l (entries (mass.run_replace t k v).1)
        ≡ (if same_bytes k l then some v else lookup l (entries t))
  pub run_replace_result :
      (t : mass.Table) (k v : List ℕ) → (mass.run_replace t k v).0 ≡ replaced (lookup k (entries t))
  pub run_remove_entries :
      (t : mass.Table) (k l : List ℕ)
      → lookup l (entries (mass.run_remove t k).1)
        ≡ (if same_bytes k l then none else lookup l (entries t))
  pub run_scan_lem :
      (t : mass.Table) (k : List ℕ) (n : ℕ)
      → mass.run_scan t k n ≡ in_turn (take n (from k (entries t)))
