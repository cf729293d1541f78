-- ===== src/Queue/Laws.antt =====
-- The length counters of `migration_queue` against the queues that they count.
use sidle.Base.{
  ℕ, ◌+◌, ◌≡◌, ◌≢◌, ◌⊎◌, inl, inr, refl, sym, ap, ◌∙◌, arith, List, [], ◌∷◌, ◌++◌, length,
  length-append, none, some, Option-cases,
}
use sidle.Base.Int.{ℤ, pos, ◌+ℤ◌, ◌-ℤ◌}
use sidle.Meta.{TaskType, promotion, demotion}
use sidle.Queue.{
  ConcurrentQueue, MigrationQueue, get_task, get_multi_task, add_task, add_multi_task,
  get_promotion_queue_length, get_demotion_queue_length, received, less_one,
}

-- What moodycamel documents: an element that is enqueued is kept, somewhere, until it is dequeued
-- once; a dequeue that fails changes nothing.
pub record IsBag {A : Type 0} (queue : ConcurrentQueue A) : Type 0 where
  pub items : queue.State → List A
  pub enqueue_lem :
      (s : queue.State) (a : A)
      → (pre : List A) × (post : List A) × (items s ≡ pre ++ post)
        × (items (queue.enqueue s a) ≡ pre ++ (a ∷ post))
  pub dequeue_none :
      (s : queue.State) → (queue.try_dequeue s).0 ≡ none → items (queue.try_dequeue s).1 ≡ items s
  pub dequeue_some :
      (s : queue.State) (a : A)
      → (queue.try_dequeue s).0 ≡ some a
      → (pre : List A) × (post : List A) × (items s ≡ pre ++ (a ∷ post))
        × (items (queue.try_dequeue s).1 ≡ pre ++ post)

-- Every task has a key that is not the null address.
abbrev pub AllTasks : {A : Type 0} → (A → ℕ) → List A → Type 0
AllTasks key [] = Unit {0}
AllTasks key (a ∷ as_) = (key a ≢ 0) × AllTasks key as_

module _ {A : Type 0} (key : A → ℕ) where
  AllTasks-append : (xs ys : List A) → AllTasks key xs → AllTasks key ys → AllTasks key (xs ++ ys)
  AllTasks-append [] ys h k = k
  AllTasks-append (x ∷ xs) ys h k = (h.0, AllTasks-append xs ys h.1 k)

  AllTasks-split : (xs ys : List A) → AllTasks key (xs ++ ys) → AllTasks key xs × AllTasks key ys
  AllTasks-split [] ys h = (tt, h)
  AllTasks-split (x ∷ xs) ys h = let rest = AllTasks-split xs ys h.1 in ((h.0, rest.0), rest.1)

  length_insert : (xs ys : List A) (a : A) → length (xs ++ (a ∷ ys)) ≡ length (xs ++ ys) + 1
  length_insert xs ys a = omega (arith, length-append xs (a ∷ ys), length-append xs ys)

  module _ {queue : ConcurrentQueue A} (bag : IsBag queue) where
    -- A queue of `n` tasks.
    pub record Holds (n : ℕ) (s : queue.State) : Type 0 where
      pub count : length (bag.items s) ≡ n
      pub tasks : AllTasks key (bag.items s)

    Holds-enqueue :
        (n : ℕ) (s : queue.State) (a : A)
        → key a ≢ 0
        → Holds n s
        → Holds (n + 1) (queue.enqueue s a)
    Holds-enqueue n s a h v =
        let (pre, post, before, after) = bag.enqueue_lem s a in
        let parts = AllTasks-split pre post (rw before at v.tasks) in
        record {
          count = rw (after, length_insert pre post a, ← before) (ap (λ k. k + 1) v.count);
          tasks = rw after (AllTasks-append pre (a ∷ post) parts.0 (h, parts.1));
        }

    -- A dequeue that brings nothing leaves the tasks, and one that brings a task takes it out.
    pub Holds-dequeue :
        (n : ℕ) (s : queue.State) (initial : A)
        → key initial ≡ 0
        → Holds n s
        → let (r, s') = queue.try_dequeue s in
          ((key (received initial r) ≡ 0) × (r ≡ none) × Holds n s')
          ⊎ ((m : ℕ) × (key (received initial r) ≢ 0) × (n ≡ m + 1) × Holds m s')
    Holds-dequeue n s initial zero_key v = elim (Option-cases (queue.try_dequeue s).0) [
      | inl e ↦
          let same = bag.dequeue_none s e in
          inl (rw e zero_key, e, record { count = rw same v.count; tasks = rw same v.tasks })
      | inr (a, e) ↦
          let (pre, post, before, after) = bag.dequeue_some s a e in
          let parts = AllTasks-split pre (a ∷ post) (rw before at v.tasks) in
          inr (
            length (pre ++ post),
            rw e parts.1.0,
            sym v.count ∙ ap length before ∙ length_insert pre post a,
            record {
              count = ap length after;
              tasks = rw after (AllTasks-append pre post parts.0 parts.1.1);
            },
          )
    ]

module _ {single : ConcurrentQueue ℕ} {pairs : ConcurrentQueue (ℕ × ℕ)} (one : IsBag single)
    (two : IsBag pairs) where
  abbrev address : ℕ → ℕ
  address n = n

  abbrev first : ℕ × ℕ → ℕ
  first p = p.0

  -- A counter is the number of tasks in the two queues that share it.
  abbrev Counts : single.State → pairs.State → ℤ → Type 0
  Counts s t n = (a : ℕ) × (b : ℕ) × Holds address one a s × Holds first two b t × (n ≡ pos (a + b))

  pub record Inv (q : MigrationQueue single pairs) : Type 0 where
    pub promotions : Counts q.promotion_queue q.promotion_pair_queue q.promotion_queue_length
    pub demotions : Counts q.demotion_queue q.demotion_pair_queue q.demotion_queue_length

  add_single :
      (s : single.State) (t : pairs.State) (n : ℤ) (task : ℕ)
      → task ≢ 0
      → Counts s t n
      → Counts (single.enqueue s task) t (n +ℤ pos 1)
  unfolding ◌+ℤ◌
  add_single s t n task h (a, b, hs, ht, e) =
      (a + 1, b, Holds-enqueue address one a s task h hs, ht, ground arith)

  add_pair :
      (s : single.State) (t : pairs.State) (n : ℤ) (task : ℕ × ℕ)
      → task.0 ≢ 0
      → Counts s t n
      → Counts s (pairs.enqueue t task) (n +ℤ pos 1)
  unfolding ◌+ℤ◌
  add_pair s t n task h (a, b, hs, ht, e) =
      (a, b + 1, hs, Holds-enqueue first two b t task h ht, ground arith)

  get_single :
      (s : single.State) (t : pairs.State) (n : ℤ)
      → Counts s t n
      → let (r, s') = single.try_dequeue s in Counts s' t (less_one (received 0 r) n)
  unfolding ◌-ℤ◌
  get_single s t n (a, b, hs, ht, e) = elim (Holds-dequeue address one a s 0 refl hs) [
    | inl (zero_key, _, hs') ↦ (a, b, hs', ht, ground arith)
    | inr (m, key, f, hs') ↦ (m, b, hs', ht, ground arith)
  ]

  get_pair :
      (s : single.State) (t : pairs.State) (n : ℤ)
      → Counts s t n
      → let (r, t') = pairs.try_dequeue t in Counts s t' (less_one (first (received (0, 0) r)) n)
  unfolding ◌-ℤ◌
  get_pair s t n (a, b, hs, ht, e) = elim (Holds-dequeue first two b t (0, 0) refl ht) [
    | inl (zero_key, _, ht') ↦ (a, b, hs, ht', ground arith)
    | inr (m, key, f, ht') ↦ (a, m, hs, ht', ground arith)
  ]

-- The calls that a worker makes on the queue.
pub data Call : Type 0 where
  gets get_multis : TaskType → Call
  adds : TaskType → ℕ → Call
  add_multis : TaskType → ℕ × ℕ → Call

-- No worker adds the null address.
abbrev pub IsTask : Call → Type 0
IsTask (adds type task) = task ≢ 0
IsTask (add_multis type task) = task.0 ≢ 0
IsTask _ = Unit {0}

abbrev pub AreTasks : List Call → Type 0
AreTasks [] = Unit {0}
AreTasks (c ∷ cs) = IsTask c × AreTasks cs

module _ (single : ConcurrentQueue ℕ) (pairs : ConcurrentQueue (ℕ × ℕ)) where
  step : MigrationQueue single pairs → Call → MigrationQueue single pairs
  step q (gets type) = (get_task single pairs q type).1
  step q (get_multis type) = (get_multi_task single pairs q type).1
  step q (adds type task) = add_task single pairs q type task
  step q (add_multis type task) = add_multi_task single pairs q type task

  pub run : MigrationQueue single pairs → List Call → MigrationQueue single pairs
  unfolding step
  run q [] = q
  run q (c ∷ cs) = run (step q c) cs

module _ {single : ConcurrentQueue ℕ} {pairs : ConcurrentQueue (ℕ × ℕ)} (one : IsBag single)
    (two : IsBag pairs) where
  step-Inv :
      (q : MigrationQueue single pairs) (c : Call)
      → IsTask c
      → Inv one two q
      → Inv one two (step single pairs q c)
  unfolding step get_task get_multi_task add_task add_multi_task
  step-Inv q (gets promotion) h v = record {
    promotions = get_single one two _ _ _ v.promotions;
    demotions = v.demotions;
  }
  step-Inv q (gets demotion) h v = record {
    promotions = v.promotions;
    demotions = get_single one two _ _ _ v.demotions;
  }
  step-Inv q (get_multis promotion) h v = record {
    promotions = get_pair one two _ _ _ v.promotions;
    demotions = v.demotions;
  }
  step-Inv q (get_multis demotion) h v = record {
    promotions = v.promotions;
    demotions = get_pair one two _ _ _ v.demotions;
  }
  step-Inv q (adds promotion task) h v = record {
    promotions = add_single one two _ _ _ task h v.promotions;
    demotions = v.demotions;
  }
  step-Inv q (adds demotion task) h v = record {
    promotions = v.promotions;
    demotions = add_single one two _ _ _ task h v.demotions;
  }
  step-Inv q (add_multis promotion task) h v = record {
    promotions = add_pair one two _ _ _ task h v.promotions;
    demotions = v.demotions;
  }
  step-Inv q (add_multis demotion task) h v = record {
    promotions = v.promotions;
    demotions = add_pair one two _ _ _ task h v.demotions;
  }

  run-Inv :
      (cs : List Call) (q : MigrationQueue single pairs)
      → AreTasks cs
      → Inv one two q
      → Inv one two (run single pairs q cs)
  unfolding run
  run-Inv [] q h v = v
  run-Inv (c ∷ cs) q h v = run-Inv cs (step single pairs q c) h.1 (step-Inv q c h.0 v)

  -- After any sequence of calls on a queue whose counters are right, none of which adds the null
  -- address, each length that the class reports is the number of tasks in its two queues.
  pub queue_length_run :
      (q : MigrationQueue single pairs) (cs : List Call)
      → Inv one two q
      → AreTasks cs
      → let q' = run single pairs q cs in
        (get_promotion_queue_length single pairs q'
          ≡ length (one.items q'.promotion_queue) + length (two.items q'.promotion_pair_queue))
        × (get_demotion_queue_length single pairs q'
            ≡ length (one.items q'.demotion_queue) + length (two.items q'.demotion_pair_queue))
  unfolding get_promotion_queue_length get_demotion_queue_length
  queue_length_run q cs v h =
      let w = run-Inv cs q h v in
      let (a, b, hs, ht, e) = w.promotions in
      let (c, d, ks, kt, f) = w.demotions in
      (ground (arith, hs.count, ht.count), ground (arith, ks.count, kt.count))
