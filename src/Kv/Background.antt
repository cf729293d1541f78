-- ===== src/Kv/Background.antt =====
-- The background workers and their threads, which both wrappers keep in `background_workers` and
-- `background_jobs`: how they start, what a thread does as `run_job` loops, and how they are stopped.
-- An exception of `run_job`, which its thread prints before it ends, is left out.
pub mod Laws
use sidle.Base.{
  ℕ, zero, suc, ◌+◌, Bool, true, false, ◌&&◌, Option, none, some, List, [], ◌∷◌, ◌++◌,
  if◌then◌else◌,
}
use sidle.Base.Int.{ℤ, pos, ◌+ℤ◌}
use sidle.Flags
use sidle.Flags.{Flags}
use sidle.Helper.Cores.{Binding, bind_to_physical_cores}

pub data Role : Type 0 where
  migration_trigger promotion_executor demotion_executor cooler threshold_adjuster : Role

-- A worker, with the interval in milliseconds that its constructor is given.
pub record Worker : Type 0 where
  pub role : Role
  pub interval : ℕ

-- Where a thread stands: at the test of `while (is_running_)`, in a round, or behind the loop.
pub data Phase : Type 0 where
  testing in_round finished : Phase

-- A thread: the index of its worker, what its binding to a core did, and where it stands.
pub record Job : Type 0 where
  pub worker : ℕ
  pub core : Binding
  pub phase : Phase

-- A null pointer in `background_workers` is `none`.
pub record Background : Type 0 where
  pub workers : List (Option Worker)
  pub jobs : List Job

abbrev pub no_background : Background
no_background = record { workers = []; jobs = [] }

-- The constructor of each worker sets the static flag.
unfoldable pub constructed : List (Option Worker) → Flags → Flags
constructed [] f = f
constructed (none ∷ ws) f = constructed ws f
constructed (some w ∷ ws) f = constructed ws (Flags.start f)

-- The loop that starts the threads, from index `i` on: null pointers get none.
unfoldable pub start_jobs : ℤ → ℕ → List (Option Worker) → List Job
start_jobs start_tid i [] = []
start_jobs start_tid i (none ∷ ws) = start_jobs start_tid (i + 1) ws
start_jobs start_tid i (some w ∷ ws) =
    record { worker = i; core = bind_to_physical_cores (start_tid +ℤ pos i); phase = testing }
    ∷ start_jobs start_tid (i + 1) ws

-- The first loop of `stop`.
unfoldable pub stop_workers : List (Option Worker) → Flags → Flags
stop_workers [] f = f
stop_workers (none ∷ ws) f = stop_workers ws f
stop_workers (some w ∷ ws) f = stop_workers ws (Flags.stop f)

-- A turn of one thread, by the flag `is_running_` that it reads. That a round ends is assumed: its
-- waits have time limits.
pub data Turn : Bool → Phase → Phase → Type 0 where
  enter : Turn true testing in_round
  leave : Turn false testing finished
  end_round : {running : Bool} → Turn running in_round testing

-- A turn of any one of the threads.
pub data Step (running : Bool) : List Phase → List Phase → Type 0 where
  here : {p q : Phase} {ps : List Phase} → Turn running p q → Step running (p ∷ ps) (q ∷ ps)
  there : {p : Phase} {ps qs : List Phase} → Step running ps qs → Step running (p ∷ ps) (p ∷ qs)

-- A number of turns.
pub data Run (running : Bool) : ℕ → List Phase → List Phase → Type 0 where
  done : {ps : List Phase} → Run running 0 ps ps
  next :
      {n : ℕ} {ps qs rs : List Phase}
      → Step running ps qs
      → Run running n qs rs
      → Run running (suc n) ps rs

abbrev pub is_finished : Phase → Bool
is_finished finished = true
is_finished _ = false

-- All `join`s return.
abbrev pub joined : List Phase → Bool
joined [] = true
joined (p ∷ ps) = is_finished p && joined ps

abbrev pub phases : List Job → List Phase
phases [] = []
phases (j ∷ js) = j.phase ∷ phases js

-- `stop`: `await` is what the threads do, by the flag, until they stand still. Without a result the
-- call never returns.
unfoldable pub stop_background :
    (Bool → List Phase → List Phase) → Background → Flags → Option (Background × Flags)
stop_background await b f =
    let f' = stop_workers b.workers f in
    if joined (await f'.is_running (phases b.jobs)) then some (no_background, f') else none
