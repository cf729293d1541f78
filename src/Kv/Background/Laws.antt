-- ===== src/Kv/Background/Laws.antt =====
-- Stopping the workers ends every thread, and starting them puts them on cores of their own.
use sidle.Base.{
  ℕ, ◌-◌, zero, suc, ◌+◌, ◌*◌, ◌≤◌, ◌<◌, ◌≡◌, ◌≢◌, refl, sym, ap, ◌∙◌, Bool, true, false, Option,
  none, some, List, [], ◌∷◌, length, Each, arith,
}
use sidle.Base.Int.{pos, ◌+ℤ◌}
use sidle.Helper.Cores.{Binding, aborted, bound_to, bind_to_physical_cores}
use sidle.Flags
use sidle.Flags.{Flags}
use sidle.Kv.Background.{
  Worker, Phase, testing, in_round, finished, Job, no_background, Turn, Step, Run, joined, phases,
  stop_workers, stop_background, start_jobs,
}
use sidle.Helper.Cores.Laws.{aborts, bind_to_physical_cores-permutes}

-- The turns that a thread has left once the flag is off.
abbrev turns_left : Phase → ℕ
turns_left testing = 1
turns_left in_round = 2
turns_left finished = 0

abbrev all_left : List Phase → ℕ
all_left [] = 0
all_left (p ∷ ps) = turns_left p + all_left ps

turn_lem : {p q : Phase} → Turn false p q → turns_left p ≡ turns_left q + 1
turn_lem Turn.leave = refl
turn_lem Turn.end_round = refl

step_lem : {ps qs : List Phase} → Step false ps qs → all_left ps ≡ all_left qs + 1
step_lem (Step.here {p} {q} {ps} t) = omega (arith, turn_lem t)
step_lem (Step.there s) = omega (arith, step_lem s)

run_lem : {n : ℕ} {ps qs : List Phase} → Run false n ps qs → all_left ps ≡ n + all_left qs
run_lem Run.done = omega arith
run_lem (Run.next s r) = omega (arith, step_lem s, run_lem r)

left_bound : (ps : List Phase) → all_left ps ≤ 2 * length ps
left_bound [] = omega arith
left_bound (testing ∷ ps) = omega (arith, left_bound ps)
left_bound (in_round ∷ ps) = omega (arith, left_bound ps)
left_bound (finished ∷ ps) = omega (arith, left_bound ps)

-- A thread that has not ended can take a turn.
progress : (ps : List Phase) → ((qs : List Phase) → ¬ Step false ps qs) → joined ps ≡ true
progress [] h = refl
progress (testing ∷ ps) h = absurd (h _ (Step.here Turn.leave))
progress (in_round ∷ ps) h = absurd (h _ (Step.here Turn.end_round))
progress (finished ∷ ps) h = progress ps (λ qs s. h _ (Step.there s))

stays_off :
    (ws : List (Option Worker)) (f : Flags)
    → f.is_running ≡ false
    → (stop_workers ws f).is_running ≡ false
unfolding stop_workers Flags.stop
stays_off [] f h = h
stays_off (none ∷ ws) f h = stays_off ws f h
stays_off (some w ∷ ws) f h = stays_off ws _ refl

pub turns_off :
    (w : Worker) (ws : List (Option Worker)) (f : Flags)
    → (stop_workers (some w ∷ ws) f).is_running ≡ false
unfolding stop_workers Flags.stop
turns_off w ws f = stays_off ws _ refl

length-phases : (js : List Job) → length (phases js) ≡ length js
length-phases [] = refl
length-phases (j ∷ js) = ap suc (length-phases js)

-- Where there is a worker in front, `stop` turns the flag of the workers off. However the threads
-- then take their turns, they take at most two each, and where they take turns until none of them
-- can, `stop` returns, with no worker and no thread left and the flag off.
pub stop-returns :
    (await : Bool → List Phase → List Phase) (w : Worker) (ws : List (Option Worker))
    (jobs : List Job) (f : Flags) (n : ℕ)
    → Run false n (phases jobs) (await false (phases jobs))
    → ((qs : List Phase) → ¬ Step false (await false (phases jobs)) qs)
    → (n ≤ 2 * length jobs)
      × ((f' : Flags) × (stop_background await (record { workers = some w ∷ ws; jobs = jobs }) f
            ≡ some (no_background, f'))
          × (f'.is_running ≡ false))
unfolding stop_background
stop-returns await w ws jobs f n run still =
    let off = turns_off w ws f in
    let over = progress (await false (phases jobs)) still in
    (
      omega (arith, run_lem run, left_bound (phases jobs), length-phases jobs),
      (stop_workers (some w ∷ ws) f, rw (off, over) refl, off),
    )

-- The number of the core that thread number `i` gets, and that two threads do not share one.
abbrev pub core_at : List Job → ℕ → Option Binding
core_at [] i = none
core_at (j ∷ js) zero = some j.core
core_at (j ∷ js) (suc i) = core_at js i

abbrev pub IsPresent : List (Option Worker) → Type 0
IsPresent ws = Each (λ w. w ≢ none) ws

core_at-start_jobs :
    (start i : ℕ) (ws : List (Option Worker)) (k : ℕ)
    → IsPresent ws
    → k < length ws
    → core_at (start_jobs (pos start) i ws) k ≡ some (bind_to_physical_cores (pos (start + i + k)))
unfolding start_jobs ◌+ℤ◌
core_at-start_jobs start i [] k p h = absurd (omega arith)
core_at-start_jobs start i (none ∷ ws) k (p, ps) h = absurd (p refl)
core_at-start_jobs start i (some w ∷ ws) zero p h =
    let e : pos start +ℤ pos i ≡ pos (start + i + 0) = ground arith in rw e refl
core_at-start_jobs start i (some w ∷ ws) (suc k) (p, ps) h =
    let e : start + (i + 1) + k ≡ start + i + suc k = omega arith in
    rw e at (core_at-start_jobs start (i + 1) ws k ps (omega arith))

-- Threads whose workers are all there, and whose numbers stay below 48, are bound to cores, any two
-- of them to different ones. Where the numbers do not stay below 48, the last thread ends the
-- program.
pub start_jobs-spreads :
    (start : ℕ) (ws : List (Option Worker))
    → IsPresent ws
    → let jobs = start_jobs (pos start) 0 ws in
      (start + length ws ≤ 48
        → (i j : ℕ) → i < j
        → j < length ws
        → (c d : ℕ) × (core_at jobs i ≡ some (bound_to c))
          × (core_at jobs j ≡ some (bound_to d))
          × (c ≢ d))
      × (48 < start + length ws → 0 < length ws → core_at jobs (length ws - 1) ≡ some aborted)
start_jobs-spreads start ws p = (
  λ fits i j lt below.
      let (spread, low, unique, _) = bind_to_physical_cores-permutes in
      let (c, bc) = (spread (start + 0 + i)).0 (omega arith) in
      let (d, bd) = (spread (start + 0 + j)).0 (omega arith) in
      (
        c,
        d,
        core_at-start_jobs start 0 ws i p (omega arith) ∙ ap some bc,
        core_at-start_jobs start 0 ws j p below ∙ ap some bd,
        λ e.
            let (t, _, only) = unique c (low _ c bc) in
            let first : start + 0 + i ≡ t = only _ bc in
            let second : start + 0 + j ≡ t = only _ (bd ∙ ap bound_to (sym e)) in omega arith,
      ),
  λ over some_there.
      core_at-start_jobs start 0 ws (length ws - 1) p (omega arith)
      ∙ ap some (aborts _ (omega arith)),
)
