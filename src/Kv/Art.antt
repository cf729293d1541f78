-- ===== src/Kv/Art.antt =====
-- `ARTKV` of src/kv/art_wrapper.h over the operations of its tree, and `new_adaptive_radix_tree` of
-- third_party/art/art.cc, which it calls. The thread information and the query are not used.
use mathlib.Core.Option
use sidle.Base.{ℕ, ◌*◌, Bool, true, false, ◌||◌, Option, none, some, List, [], ◌∷◌, ◌++◌, ◌==◌}
use sidle.Base.Int.{ℤ, pos, negsuc, ◌+ℤ◌}
use sidle.Flags.{Flags}
use sidle.Cxl.Init.{Allocator, Replies, cxl_init, cxl_max_size, running, exit_failure, looping}
use sidle.Threshold.{Floats}
use sidle.Strategy.{Strategy, Widths, sidle_strategy}
use sidle.Kv.Format.{KeyFormat}
use sidle.Kv.Trees.{ArtTree}
use sidle.Kv.Background.{
  Background, no_background, Worker, migration_trigger, promotion_executor, demotion_executor,
  cooler, threshold_adjuster, Phase, constructed, start_jobs, stop_background,
}

-- The workers of `init_migration_worker`, in a build without CAL_NODE_HOTNESS. The histogram, the
-- thresholds and the tree operations that they are given are left out.
unfoldable pub art_workers : ℕ → ℕ → ℕ → List (Option Worker)
art_workers basic cooling adjusting =
    some (record { role = migration_trigger; interval = basic * 5 })
    ∷ some (record { role = promotion_executor; interval = basic })
    ∷ some (record { role = demotion_executor; interval = basic })
    ∷ some (record { role = cooler; interval = cooling * 5 })
    ∷ some (record { role = threshold_adjuster; interval = adjusting })
    ∷ []

-- What `ThreadPool` of thread_pool.h is constructed from: its threads run until it is destroyed, which
-- no code does.
pub record ThreadPool : Type 0 where
  pub threads : ℕ
  pub start_tid : ℤ

-- `init_thread_pool` of art.cc: the pool that it leaves in the static `pool`.
unfoldable pub init_thread_pool : ℤ → ThreadPool
init_thread_pool start_tid = record { threads = 4; start_tid = start_tid }

abbrev is_stored : ℤ → Bool
is_stored (pos n) = n == 0 || n == 1
is_stored (negsuc n) = false

module _ (art : ArtTree) where
  -- The wrapper, the static `strategy_manager`, and the static `pool` of art.cc, once it is started.
  pub record ArtKv : Type 0 where
    pub tree : art.Tree
    pub background : Background
    pub strategy_manager : Strategy
    pub pool : Option ThreadPool

  -- `new_adaptive_radix_tree`, in a build with CXL. Without a result the start of the allocator has
  -- ended the process.
  unfoldable pub new_adaptive_radix_tree :
      Floats → Widths → ℤ → ℕ → Replies → Allocator → Option (art.Tree × Strategy × Allocator)
  new_adaptive_radix_tree floats widths cxl_percentage local_memory_amount os a =
      elim (cxl_init a cxl_max_size cxl_percentage os) [
        | running a' ↦
            some
              (art.empty, sidle_strategy floats widths local_memory_amount cxl_percentage true, a')
        | exit_failure ↦ none
        | looping ↦ none
      ]

  unfoldable pub new_art_kv :
      Floats → Widths → ℤ → ℕ → Replies → Allocator → Option (ArtKv × Allocator)
  new_art_kv floats widths cxl_percentage max_local_memory_usage os a =
      Option.map
        (λ (tree, strategy, a'). (
          record {
            tree = tree;
            background = no_background;
            strategy_manager = strategy;
            pool = none;
          },
          a',
        ))
        (new_adaptive_radix_tree floats widths cxl_percentage max_local_memory_usage os a)

  unfoldable pub init_migration_worker : ArtKv → ℤ → ℕ → ℕ → ℕ → Flags → ArtKv × Flags
  init_migration_worker kv start_tid basic cooling adjusting f =
      let ws = art_workers (basic * 2) (cooling * 3) adjusting in
      (
        record kv {
          background = record {
            workers = ws;
            jobs = kv.background.jobs ++ start_jobs start_tid 0 ws;
          };
          pool = some (init_thread_pool (start_tid +ℤ pos 5));
        },
        constructed ws f,
      )

  -- Without a result the call waits for ever. The destructor, in a build without CAL_NODE_HOTNESS,
  -- is this call and the release of the tree.
  unfoldable pub stop_kv : (Bool → List Phase → List Phase) → ArtKv → Flags → Option (ArtKv × Flags)
  stop_kv await kv f = elim (stop_background await kv.background f) [
    | none ↦ none
    | some (b, f') ↦ some (record kv { background = b }, f')
  ]

  module _ {ℓ κ} {K : Type ℓ} {V : Type κ} (keys : KeyFormat K) (read : List ℕ → V) where
    abbrev pub got : V → Option (List ℕ) → Bool × V
    got v none = (false, v)
    got v (some value) = (true, read value)

    -- The pointer that the tree gives is read as a `V`.
    unfoldable pub get : ArtKv → K → V → Bool × V
    get kv k v = got v (art.adaptive_radix_tree_get kv.tree (keys.to_str_key k))

    -- The value is not stored.
    unfoldable pub insert : ArtKv → K → V → Bool × ArtKv
    insert kv k v =
        let (ret, tree) = art.adaptive_radix_tree_put kv.tree (keys.to_str_key k) in
        (is_stored ret, record kv { tree = tree })

    unfoldable pub remove : ArtKv → K → Bool × ArtKv
    remove kv k = (false, kv)

    unfoldable pub lower_bound : ArtKv → K → V → Bool × K × V
    lower_bound kv k v = (false, k, v)

    unfoldable pub scan : ArtKv → K → ℕ → List (K × V) → ℕ × List (K × V)
    scan kv k_start n result = (0, result)

    unfoldable pub range_scan : ArtKv → K → K → List (K × V) → ℕ × List (K × V)
    range_scan kv k_start k_end result = (0, result)
