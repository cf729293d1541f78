-- ===== src/Kv/Masstree/Laws.antt =====
-- `MasstreeKV` as a map: its answers to any calls of `get`, `insert` and `remove` are those of a
-- map from keys to values.
use mathlib.Core.Option
use sidle.Base.{
  ℕ, ◌≡◌, refl, ◌∙◌, Bool, true, false, Option, none, some, List, [], ◌∷◌, if◌then◌else◌, inl, inr,
  Bool-cases, Option-cases,
}
use sidle.Base.Int.{ℤ}
use sidle.Threshold.{Floats}
use sidle.Strategy.{Widths}
use sidle.Kv.Format.{KeyFormat, ValueFormat}
use sidle.Kv.Format.Bytes.{same_bytes}
use sidle.Kv.Trees.{MassTable, IsMap, lookup, replaced}
use sidle.Kv.Masstree.{
  MasstreeKv, new_masstree_kv, Outcome, returned, is_written, get, insert, remove,
}

-- Calls, and what they answer.
pub data Command {ℓ κ} (K : Type ℓ) (V : Type κ) : Type (ℓ ⊔ κ) where
  get_cmd insert_cmd : K → V → Command K V
  remove_cmd : K → Command K V

pub data Answer {κ} (V : Type κ) : Type κ where
  found : Bool → V → Answer V
  stored : Outcome Bool → Answer V
  removed : Bool → Answer V

module _ {ℓ κ} {K : Type ℓ} {V : Type κ} (keys : KeyFormat K) (values : ValueFormat V) where
  -- The map that the calls promise: `remove` answers true, whether the key was there or not.
  abbrev spec_get : V → Option V → Answer V
  spec_get v none = found false v
  spec_get v (some w) = found true w

  abbrev assign : (K → Option V) → K → Option V → K → Option V
  assign m k o l = if same_bytes (keys.to_str_key k) (keys.to_str_key l) then o else m l

  unfoldable pub spec_run : (K → Option V) → List (Command K V) → List (Answer V)
  spec_run m [] = []
  spec_run m (get_cmd k v ∷ cs) = spec_get v (m k) ∷ spec_run m cs
  spec_run m (insert_cmd k v ∷ cs) = stored (returned true) ∷ spec_run (assign m k (some v)) cs
  spec_run m (remove_cmd k ∷ cs) = removed true ∷ spec_run (assign m k none) cs

  module _ (mass : MassTable) where
    unfoldable pub run : MasstreeKv mass → List (Command K V) → List (Answer V)
    run kv [] = []
    run kv (get_cmd k v ∷ cs) = let (b, w) = get mass keys values kv k v in found b w ∷ run kv cs
    run kv (insert_cmd k v ∷ cs) =
        let (b, kv') = insert mass keys values kv k v in stored b ∷ run kv' cs
    run kv (remove_cmd k ∷ cs) =
        let (b, kv') = remove mass keys values kv k in removed b ∷ run kv' cs

    module _ (law : IsMap mass) where
      -- The table holds the map's values under the map's keys.
      abbrev pub Represents : MasstreeKv mass → (K → Option V) → Type (ℓ)
      Represents kv m =
          (k : K)
          → lookup (keys.to_str_key k) (law.entries kv.mass_tree) ≡ Option.map values.write (m k)

      get_lem :
          (kv : MasstreeKv mass) (m : K → Option V) (k : K) (v : V)
          → Represents kv m
          → found (get mass keys values kv k v).0 (get mass keys values kv k v).1 ≡ spec_get v (m k)
      unfolding get
      get_lem kv m k v h = elim (Option-cases (m k)) [
        | inl e ↦ rw (law.run_get1_lem kv.mass_tree (keys.to_str_key k), h k, e) refl
        | inr (w, e) ↦
            rw (law.run_get1_lem kv.mass_tree (keys.to_str_key k), h k, e, values.read-write w) refl
      ]

      is_written-replaced : (o : Option (List ℕ)) → is_written (replaced o) ≡ true
      is_written-replaced none = refl
      is_written-replaced (some v) = refl

      insert_lem :
          (kv : MasstreeKv mass) (m : K → Option V) (k : K) (v : V)
          → Represents kv m
          → ((insert mass keys values kv k v).0 ≡ returned true)
            × Represents (insert mass keys values kv k v).1 (assign m k (some v))
      unfolding insert
      insert_lem kv m k v h = (
        rw
            (
              law.run_replace_result kv.mass_tree (keys.to_str_key k) (values.write v),
              is_written-replaced (lookup (keys.to_str_key k) (law.entries kv.mass_tree)),
            )
            refl,
        λ l.
            law.run_replace_entries kv.mass_tree (keys.to_str_key k) (values.write v)
              (keys.to_str_key l)
            ∙ elim (Bool-cases (same_bytes (keys.to_str_key k) (keys.to_str_key l))) [
              | inl e ↦ rw e refl
              | inr e ↦ rw e (h l)
            ],
      )

      remove_lem :
          (kv : MasstreeKv mass) (m : K → Option V) (k : K)
          → Represents kv m
          → Represents (remove mass keys values kv k).1 (assign m k none)
      unfolding remove
      remove_lem kv m k h l =
          law.run_remove_entries kv.mass_tree (keys.to_str_key k) (keys.to_str_key l)
          ∙ elim (Bool-cases (same_bytes (keys.to_str_key k) (keys.to_str_key l))) [
            | inl e ↦ rw e refl
            | inr e ↦ rw e (h l)
          ]

      -- Where the table holds a map's values, the answers are those of the map.
      pub run-spec_run :
          (kv : MasstreeKv mass) (m : K → Option V) (cs : List (Command K V))
          → Represents kv m
          → run kv cs ≡ spec_run m cs
      unfolding run spec_run
      run-spec_run kv m [] h = refl
      run-spec_run kv m (get_cmd k v ∷ cs) h = λ i. get_lem kv m k v h i ∷ run-spec_run kv m cs h i
      run-spec_run kv m (insert_cmd k v ∷ cs) h =
          let (b, h') = insert_lem kv m k v h in
          λ i. stored (b i) ∷ run-spec_run (insert mass keys values kv k v).1 _ cs h' i
      run-spec_run kv m (remove_cmd k ∷ cs) h =
          let b : (remove mass keys values kv k).0 ≡ true = unfold remove in refl in
          λ i.
            removed (b i)
            ∷ run-spec_run (remove mass keys values kv k).1 _ cs (remove_lem kv m k h) i

      -- From the construction on, the answers of the wrapper to any sequence of calls are those of a
      -- map from keys to values that is empty at first: `get` finds what was inserted last and not
      -- removed since, and leaves its argument where it finds nothing; `insert` always succeeds, and
      -- `remove` always answers true.
      pub new_masstree_kv-spec_run :
          (floats : Floats) (widths : Widths) (cxl_percentage : ℤ) (max_local : ℕ)
          (cs : List (Command K V))
          → run (new_masstree_kv mass floats widths cxl_percentage max_local) cs
            ≡ spec_run (λ k. none) cs
      unfolding new_masstree_kv
      new_masstree_kv-spec_run floats widths cxl_percentage max_local cs =
          run-spec_run (new_masstree_kv mass floats widths cxl_percentage max_local) (λ k. none) cs
            (λ k. rw (law.entries-initialize cxl_percentage) refl)
