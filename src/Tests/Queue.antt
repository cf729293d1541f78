-- ===== src/Tests/Queue.antt =====
-- The theorem on `migration_queue`, over a queue that is a list.
use sidle.Base.{ℕ, ◌+◌, ◌≡◌, refl, ap, List, [], ◌∷◌, ◌++◌, length, Option, none, some, arith}
use sidle.Base.Int.{pos}
use sidle.Meta.{promotion, demotion}
use sidle.Queue.{
  ConcurrentQueue, MigrationQueue, get_promotion_queue_length, get_demotion_queue_length,
}
use sidle.Queue.Laws.{IsBag, Inv, Call, gets, get_multis, adds, add_multis, run, queue_length_run}

module _ (A : Type 0) where
  abbrev pub push : List A → A → List A
  push xs a = xs ++ (a ∷ [])

  abbrev pub pop : List A → Option A × List A
  pop [] = (none, [])
  pop (x ∷ xs) = (some x, xs)

  abbrev pub list_queue : ConcurrentQueue A
  list_queue = record { State = List A; enqueue = push; try_dequeue = pop }

  pub append-[] : (xs : List A) → xs ≡ xs ++ []
  append-[] [] = refl
  append-[] (x ∷ xs) = ap (λ ys. x ∷ ys) (append-[] xs)

  pub pop-none : (xs : List A) → (pop xs).0 ≡ none → (pop xs).1 ≡ xs
  pop-none [] h = refl
  pop-none (x ∷ xs) h = absurd (ground arith)

  pub pop-some :
      (xs : List A) (a : A)
      → (pop xs).0 ≡ some a
      → (pre : List A) × (post : List A) × (xs ≡ pre ++ (a ∷ post)) × ((pop xs).1 ≡ pre ++ post)
  pop-some [] a h = absurd (ground arith)
  pop-some (x ∷ xs) a h = ([], xs, cc, refl)

  abbrev pub list_bag : IsBag list_queue
  list_bag = record {
    items = λ xs. xs;
    enqueue_lem = λ xs a. (xs, [], append-[] xs, refl);
    dequeue_none = pop-none;
    dequeue_some = pop-some;
  }

abbrev pub singles : ConcurrentQueue ℕ
singles = list_queue ℕ

abbrev pub doubles : ConcurrentQueue (ℕ × ℕ)
doubles = list_queue (ℕ × ℕ)

abbrev pub empty : MigrationQueue singles doubles
empty = record {
  promotion_queue = [];
  demotion_queue = [];
  promotion_pair_queue = [];
  demotion_pair_queue = [];
  promotion_queue_length = pos 0;
  demotion_queue_length = pos 0;
}

empty-Inv : Inv (list_bag ℕ) (list_bag (ℕ × ℕ)) empty
empty-Inv = record {
  promotions =
      (0, 0, record { count = refl; tasks = tt }, record { count = refl; tasks = tt }, refl);
  demotions =
      (0, 0, record { count = refl; tasks = tt }, record { count = refl; tasks = tt }, refl);
}

abbrev calls : List Call
calls = adds promotion 7 ∷ add_multis demotion (8, 9) ∷ gets promotion ∷ get_multis promotion ∷ []

queue_length_run_example :
    let q' = run singles doubles empty calls in
    (get_promotion_queue_length singles doubles q'
      ≡ length q'.promotion_queue + length q'.promotion_pair_queue)
    × (get_demotion_queue_length singles doubles q'
        ≡ length q'.demotion_queue + length q'.demotion_pair_queue)
queue_length_run_example =
    queue_length_run (list_bag ℕ) (list_bag (ℕ × ℕ)) empty calls empty-Inv
      (λ e. ground arith, (λ e. ground arith, (tt, (tt, tt))))
