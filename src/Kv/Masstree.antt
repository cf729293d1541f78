-- ===== src/Kv/Masstree.antt =====
-- `MasstreeKV` of src/kv/masstree.h over the operations of its table. The thread information and the
-- query, which only carry the calls, are left out; `assert` and an exception end a call.
pub mod Laws
pub mod Scan
use sidle.Base.{
  ℕ, zero, suc, ◌≡◌, Bool, true, false, Option, none, some, List, [], ◌∷◌, ◌++◌, length,
  if◌then◌else◌,
}
use sidle.Base.Int.{ℤ}
use sidle.Flags
use sidle.Flags.{Flags}
use sidle.Threshold.{Floats, set_hotness_watermarks}
use sidle.Strategy.{Strategy, Widths, sidle_strategy}
use sidle.Kv.Format.{KeyFormat, ValueFormat}
use sidle.Kv.Trees.{MassTable, Result, inserted, updated}
use sidle.Kv.Background.{
  Background, no_background, Worker, migration_trigger, promotion_executor, demotion_executor,
  cooler, threshold_adjuster, Phase, constructed, start_jobs, stop_background,
}

-- How a call ends.
pub data Outcome {ℓ} (A : Type ℓ) : Type ℓ where
  returned : A → Outcome A
  failed_assertion threw : Outcome A

abbrev pub is_written : Result → Bool
is_written inserted = true
is_written updated = true
is_written _ = false

-- The workers of `init_migration_worker`, in a build without the memory detector. The histogram,
-- the thresholds and the tree operations that they are given are left out.
unfoldable pub masstree_workers : ℕ → ℕ → ℕ → List (Option Worker)
masstree_workers basic cooling adjusting =
    some (record { role = migration_trigger; interval = basic })
    ∷ some (record { role = promotion_executor; interval = basic })
    ∷ some (record { role = demotion_executor; interval = basic })
    ∷ some (record { role = cooler; interval = cooling })
    ∷ some (record { role = threshold_adjuster; interval = adjusting })
    ∷ []

module _ (mass : MassTable) where
  -- The wrapper, and the static `strategy_manager` that it sets.
  pub record MasstreeKv : Type 0 where
    pub mass_tree : mass.Table
    pub background : Background
    pub strategy_manager : Strategy

  unfoldable pub new_masstree_kv : Floats → Widths → ℤ → ℕ → MasstreeKv
  new_masstree_kv floats widths cxl_percentage max_local_memory_usage = record {
    mass_tree = mass.initialize cxl_percentage;
    background = no_background;
    strategy_manager = sidle_strategy floats widths max_local_memory_usage cxl_percentage false;
  }

  unfoldable pub init_migration_worker : MasstreeKv → ℤ → ℕ → ℕ → ℕ → ℕ → Flags → MasstreeKv × Flags
  init_migration_worker kv start_tid basic cooling adjusting hot_percentage_lower_bound f =
      let ws = masstree_workers basic cooling adjusting in
      (
        record kv {
          strategy_manager = record kv.strategy_manager {
            threshold_manager =
                set_hotness_watermarks hot_percentage_lower_bound
                  kv.strategy_manager.threshold_manager;
          };
          background = record {
            workers = ws;
            jobs = kv.background.jobs ++ start_jobs start_tid 0 ws;
          };
        },
        constructed ws f,
      )

  -- Without a result the call waits for ever. The destructor, in a build without CAL_NODE_HOTNESS,
  -- is this call.
  unfoldable pub stop_kv :
      (Bool → List Phase → List Phase) → MasstreeKv → Flags → Option (MasstreeKv × Flags)
  stop_kv await kv f = elim (stop_background await kv.background f) [
    | none ↦ none
    | some (b, f') ↦ some (record kv { background = b }, f')
  ]

  module _ {ℓ κ} {K : Type ℓ} {V : Type κ} (keys : KeyFormat K) (values : ValueFormat V) where
    -- The value that `v` has after `get`.
    abbrev pub got : V → Option (List ℕ) → Bool × V
    got v none = (false, v)
    got v (some val_str) = (true, values.read val_str)

    unfoldable pub get : MasstreeKv → K → V → Bool × V
    get kv k v = got v (mass.run_get1 kv.mass_tree (keys.to_str_key k) 0)

    unfoldable pub insert : MasstreeKv → K → V → Outcome Bool × MasstreeKv
    insert kv k v =
        let (res, table) = mass.run_replace kv.mass_tree (keys.to_str_key k) (values.write v) in
        (
          if is_written res then returned true else failed_assertion,
          record kv { mass_tree = table },
        )

    -- What `run_remove` answers is dropped.
    unfoldable pub remove : MasstreeKv → K → Bool × MasstreeKv
    remove kv k =
        (true, record kv { mass_tree = (mass.run_remove kv.mass_tree (keys.to_str_key k)).1 })

    unfoldable pub lower_bound : MasstreeKv → K → V → Outcome (Bool × K × V)
    lower_bound kv k v = threw

    -- The loop of `scan` over the rest of the request. A key with no value behind it fails an
    -- assertion of the request's `as_s`.
    unfoldable pub scan_loop : List (List ℕ) → List (K × V) → Outcome (List (K × V))
    scan_loop [] result = returned result
    scan_loop (k ∷ []) result = failed_assertion
    scan_loop (k ∷ v ∷ req) result =
        scan_loop req (result ++ ((keys.to_normal_key k, values.read v) ∷ []))

    abbrev pub with_size : Outcome (List (K × V)) → Outcome (ℕ × List (K × V))
    with_size (returned result) = returned (length result, result)
    with_size failed_assertion = failed_assertion
    with_size threw = threw

    -- `scan`: what it returns, and the `result` that it extends.
    unfoldable pub scan : MasstreeKv → K → ℕ → List (K × V) → Outcome (ℕ × List (K × V))
    scan kv k_start n result =
        with_size (scan_loop (mass.run_scan kv.mass_tree (keys.to_str_key k_start) n) result)

    unfoldable pub range_scan : MasstreeKv → K → K → List (K × V) → Outcome (ℕ × List (K × V))
    range_scan kv k_start k_end result = threw
