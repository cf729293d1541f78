-- ===== src/Queue.antt =====
-- `migration_queue` of third_party/sidle_utils/sidle_meta.hh. moodycamel's concurrent queue is not
-- this repository's code: its `enqueue` and `try_dequeue` are parameters, and `Queue.Laws` says what
-- is asked of them. A call runs without interleaving. The lengths are `atomic_int32_t`s, which no
-- run is long enough to overflow, and are integers here.
pub mod Laws
use sidle.Base.{ℕ, Bool, ◌==◌, if◌then◌else◌, Option, none, some}
use sidle.Base.Int.{ℤ, pos, ◌+ℤ◌, ◌-ℤ◌, pos_part}
use sidle.Meta.{TaskType, promotion, demotion}

-- The calls of `moodycamel::ConcurrentQueue` that the class makes. A `try_dequeue` that fails leaves
-- the result variable alone.
pub record ConcurrentQueue (A : Type 0) : Type 1 where
  pub State : Type 0
  pub enqueue : State → A → State
  pub try_dequeue : State → Option A × State

-- What the result variable holds after `try_dequeue`.
abbrev pub received {ℓ} : {A : Type ℓ} → A → Option A → A
received initial none = initial
received initial (some a) = a

-- `if (result != 0) length.fetch_add(-1)`
abbrev pub less_one : ℕ → ℤ → ℤ
less_one result n = if result == 0 then n else n -ℤ pos 1

module _ (single : ConcurrentQueue ℕ) (pairs : ConcurrentQueue (ℕ × ℕ)) where
  pub record MigrationQueue : Type 0 where
    pub promotion_queue : single.State
    pub demotion_queue : single.State
    pub promotion_pair_queue : pairs.State
    pub demotion_pair_queue : pairs.State
    pub promotion_queue_length : ℤ
    pub demotion_queue_length : ℤ

  unfoldable pub get_task : MigrationQueue → TaskType → ℕ × MigrationQueue
  get_task q promotion =
      let (r, st) = single.try_dequeue q.promotion_queue in
      let result = received 0 r in
      (
        result,
        record q {
          promotion_queue = st;
          promotion_queue_length = less_one result q.promotion_queue_length;
        },
      )
  get_task q demotion =
      let (r, st) = single.try_dequeue q.demotion_queue in
      let result = received 0 r in
      (
        result,
        record q {
          demotion_queue = st;
          demotion_queue_length = less_one result q.demotion_queue_length;
        },
      )

  unfoldable pub get_multi_task : MigrationQueue → TaskType → (ℕ × ℕ) × MigrationQueue
  get_multi_task q promotion =
      let (r, st) = pairs.try_dequeue q.promotion_pair_queue in
      let result : ℕ × ℕ = received (0, 0) r in
      (
        result,
        record q {
          promotion_pair_queue = st;
          promotion_queue_length = less_one result.0 q.promotion_queue_length;
        },
      )
  get_multi_task q demotion =
      let (r, st) = pairs.try_dequeue q.demotion_pair_queue in
      let result : ℕ × ℕ = received (0, 0) r in
      (
        result,
        record q {
          demotion_pair_queue = st;
          demotion_queue_length = less_one result.0 q.demotion_queue_length;
        },
      )

  unfoldable pub add_task : MigrationQueue → TaskType → ℕ → MigrationQueue
  add_task q promotion task = record q {
    promotion_queue = single.enqueue q.promotion_queue task;
    promotion_queue_length = q.promotion_queue_length +ℤ pos 1;
  }
  add_task q demotion task = record q {
    demotion_queue = single.enqueue q.demotion_queue task;
    demotion_queue_length = q.demotion_queue_length +ℤ pos 1;
  }

  unfoldable pub add_multi_task : MigrationQueue → TaskType → ℕ × ℕ → MigrationQueue
  add_multi_task q promotion task = record q {
    promotion_pair_queue = pairs.enqueue q.promotion_pair_queue task;
    promotion_queue_length = q.promotion_queue_length +ℤ pos 1;
  }
  add_multi_task q demotion task = record q {
    demotion_pair_queue = pairs.enqueue q.demotion_pair_queue task;
    demotion_queue_length = q.demotion_queue_length +ℤ pos 1;
  }

  -- `std::max(length.load(), 0)`
  unfoldable pub get_promotion_queue_length : MigrationQueue → ℕ
  get_promotion_queue_length q = pos_part q.promotion_queue_length

  unfoldable pub get_demotion_queue_length : MigrationQueue → ℕ
  get_demotion_queue_length q = pos_part q.demotion_queue_length
