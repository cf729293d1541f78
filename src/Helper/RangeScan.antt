-- ===== src/Helper/RangeScan.antt =====
-- The comparisons and `RangeScanCallback` of src/helper.h. The row's `snapshot` is Masstree's and a
-- parameter, as is the reading of a key and of a value from bytes, which are casts.
pub mod Laws
use sidle.Base.{
  ℕ, zero, suc, Bool, ◌&&◌, ◌||◌, Option, none, some, List, [], ◌∷◌, ◌++◌, length, get_elem?,
  get_or, replicate, ltb, ◌==◌, if◌then◌else◌,
}
use sidle.Base.Int.{ℤ, pos, negsuc, leb_ℤ}

-- `memcmp` of the C library, on byte strings that are long enough.
unfoldable pub memcmp : ℕ → List ℕ → List ℕ → ℤ
memcmp zero a b = pos 0
memcmp (suc n) (x ∷ a) (y ∷ b) =
    let rest = memcmp n a b in if x == y then rest else if ltb x y then negsuc 0 else pos 1
memcmp (suc n) a b = pos 0

-- `SortedArrayKeyCompare`, and `StrCompare`, whose assertion is on its second parameter.
unfoldable pub sorted_array_key_compare {ℓ} :
    {K : Type ℓ} → (K → K → Bool) → (List ℕ → K) → List ℕ → List ℕ → Bool
sorted_array_key_compare less read_key left right = less (read_key left) (read_key right)

unfoldable pub str_compare {ℓ} : {S : Type ℓ} → (S → S → Bool) → ℕ → S → S → Option Bool
str_compare less key_seg_size left right =
    if key_seg_size == 1 then some (less left right) else none

-- `RemoveVal`: a value whose bytes are all 0.
unfoldable pub remove_val {ℓ} : {V : Type ℓ} → (List ℕ → V) → ℕ → V
remove_val read_value val_size = read_value (replicate val_size 0)

-- What a call of the callback does: it ends the scan, it ends the program, or it goes on with one
-- more entry.
pub data Answer {ℓ κ} (K : Type ℓ) (V : Type κ) : Type (ℓ ⊔ κ) where
  stopped aborted : Answer K V
  appended : List (K × V) → Answer K V

-- The column that the callback reads: that of the only requested field, or the row's only one. A
-- column that the snapshot lacks is undefined behaviour, here an abort.
unfoldable pub column : List ℕ → List (List ℕ) → Option (List ℕ)
column [] cols = if length cols == 1 then get_elem? cols 0 else none
column (field ∷ []) cols = get_elem? cols field
column (field ∷ fields) cols = none

module _ {ℓ κ μ} {K : Type ℓ} {V : Type κ} {Row : Type μ} (key_size : ℕ)
    (to_normal_key : List ℕ → K) (read_value : List ℕ → V)
    (snapshot : Row → List ℕ → List (List ℕ)) where
  unfoldable pub append_value : List ℕ → Option (List ℕ) → List (K × V) → Answer K V
  append_value key none result = aborted
  append_value key (some col) result =
      appended (result ++ ((to_normal_key key, read_value col) ∷ []))

  -- `operator()` on a row and its key; `fields` is the query's `f_`.
  unfoldable pub callback : List ℕ → List ℕ → List ℕ → Row → List (K × V) → Answer K V
  callback end fields key row result =
      if leb_ℤ (pos 0) (memcmp key_size key end)
      then stopped
      else append_value key (column fields (snapshot row fields)) result

  unfoldable pub resume :
      Answer K V → List (K × V) → (List (K × V) → Option (List (K × V))) → Option (List (K × V))
  resume stopped result rest = some result
  resume aborted result rest = none
  resume (appended result') result rest = rest result'

  -- Masstree's scan, which is not this repository's code: it calls the callback on row after row,
  -- until that answers `false`.
  unfoldable pub visit :
      List ℕ → List ℕ → List (List ℕ × Row) → List (K × V) → Option (List (K × V))
  visit end fields [] result = some result
  visit end fields ((key, row) ∷ rows) result =
      resume (callback end fields key row result) result (visit end fields rows)

  -- The constructor clears the result.
  unfoldable pub range_scan : List ℕ → List ℕ → List (List ℕ × Row) → Option (List (K × V))
  range_scan end fields rows = visit end fields rows []
