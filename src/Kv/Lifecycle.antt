-- ===== src/Kv/Lifecycle.antt =====
-- From `init_migration_worker` to `stop`, for both wrappers.
use sidle.Base.{
  ℕ, ◌+◌, ◌*◌, ◌≤◌, ◌<◌, ◌≡◌, ◌≢◌, refl, ap, Bool, true, false, Option, some, none, List, [], ◌∷◌,
  arith,
}
use sidle.Base.Int.{ℤ, pos, ◌+ℤ◌}
use sidle.Flags
use sidle.Flags.{Flags}
use sidle.Helper.Cores.{bound_to}
use sidle.Kv.Trees.{ArtTree}
use sidle.Kv.Background.{
  Worker, Phase, Job, Background, no_background, Run, Step, constructed, start_jobs, phases,
  stop_background,
}
use sidle.Kv.Background.Laws.{core_at, IsPresent, start_jobs-spreads, stop-returns}
use sidle.Kv.Art
use sidle.Kv.Art.{ArtKv, ThreadPool, art_workers, init_thread_pool}
use sidle.Kv.Masstree

-- The threads take turns, by the flag that is off, until none of them can.
abbrev pub IsSettling : (Bool → List Phase → List Phase) → Type 0
IsSettling await =
    (ps : List Phase)
    → ((n : ℕ) × Run false n ps (await false ps))
      × ((qs : List Phase) → ¬ Step false (await false ps) qs)

-- Five threads on cores of their own.
abbrev pub IsSpread : List Job → Type 0
IsSpread jobs =
    (i j : ℕ)
    → i < j
    → j < 5
    → (c d : ℕ) × (core_at jobs i ≡ some (bound_to c))
      × (core_at jobs j ≡ some (bound_to d))
      × (c ≢ d)

abbrev pool_at : ℤ → Option ThreadPool
pool_at start_tid = some (record { threads = 4; start_tid = start_tid })

abbrev five : Worker → Worker → Worker → Worker → Worker → List (Option Worker)
five v w x y z = some v ∷ some w ∷ some x ∷ some y ∷ some z ∷ []

some-ne-none {ℓ} : {A : Type ℓ} (a : A) → some a ≢ none
some-ne-none a e = cc

abbrev IsFive : List (Option Worker) → Type 0
IsFive ws = (v w x y z : Worker) × (ws ≡ five v w x y z)

five_lem :
    (await : Bool → List Phase → List Phase) (start : ℕ) (ws : List (Option Worker)) (f : Flags)
    → IsFive ws
    → IsSettling await
    → start + 5 ≤ 48
    → let jobs = start_jobs (pos start) 0 ws in
      ((constructed ws f).is_running ≡ true)
      × IsSpread jobs
      × ((f'' : Flags) × (stop_background await
              (record { workers = ws; jobs = jobs })
              (constructed ws f)
            ≡ some (no_background, f''))
          × (f''.is_running ≡ false))
five_lem await start ws f (v, w, x, y, z, e) settles fits =
    let ws' = five v w x y z in
    let jobs = start_jobs (pos start) 0 ws' in
    let there : IsPresent ws' = (
      some-ne-none v,
      (some-ne-none w, (some-ne-none x, (some-ne-none y, (some-ne-none z, tt)))),
    ) in
    let ((n, run), still) = settles (phases jobs) in
    rw e (
      unfold constructed Flags.start in refl,
      (start_jobs-spreads start ws' there).0 fits,
      (stop-returns await v _ jobs (constructed ws' f) n run still).1,
    )

-- The lifecycle of the radix tree's workers: started from a wrapper without any, on five thread
-- numbers below 48, the flag is on and no two of the five threads share a core. Whatever turns the
-- threads take after that, `stop` returns with the flag off, having joined the five threads, and it
-- changes nothing else of the wrapper: the thread pool of the tree, which the start has given four
-- threads from the next thread number on, is still there.
pub art_workers_lem :
    (await : Bool → List Phase → List Phase) (art : ArtTree) (kv : ArtKv art)
    (start basic cooling adjusting : ℕ) (f : Flags)
    → IsSettling await
    → kv.background ≡ no_background
    → start + 5 ≤ 48
    → let (kv', f') = Art.init_migration_worker art kv (pos start) basic cooling adjusting f in
      (f'.is_running ≡ true)
      × IsSpread kv'.background.jobs
      × ((f'' : Flags) × (Art.stop_kv art await kv' f'
            ≡ some (record kv' { background = no_background }, f''))
          × (f''.is_running ≡ false))
      × (kv'.pool ≡ some (record { threads = 4; start_tid = pos (start + 5) }))
unfolding Art.init_migration_worker Art.stop_kv art_workers init_thread_pool ◌+ℤ◌
art_workers_lem await art kv start basic cooling adjusting f settles fresh fits =
    let jobs : kv.background.jobs ≡ [] = ap (λ (b : Background). b.jobs) fresh in
    let ws = art_workers (basic * 2) (cooling * 3) adjusting in
    let five_workers : IsFive ws = (_, _, _, _, _, refl) in
    let (on, spread, (f'', stopped, off)) = five_lem await start ws f five_workers settles fits in
    rw jobs (on, spread, (f'', rw (stopped, Art.stop_kv) refl, off), ap pool_at (ground arith))
