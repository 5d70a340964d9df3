-- ===== src/Executor.antt =====
-- include/afina/concurrency/Executor.h and src/concurrency/Executor.cpp: the thread pool. A step is
-- what one thread does while it holds the mutex; tasks run between steps, and what they do, also the
-- exceptions that `perform` drops, is outside. Threads are only counted.
pub mod Invariant
pub mod Turns
pub mod Runs
pub mod Stops
use ts_sem.Prelude.{
  ℕ, zero, suc, ◌+◌, ◌-◌, ◌≡◌, Bool, true, false, not, ◌&&◌, List, [], ◌∷◌, ◌++◌, ◌==◌, ltb, leb,
  if◌then◌else◌, length,
}
use ts_sem.Storage.Lru.Memory.{add64, sub64}

pub data State : Type 0 where
  k_run k_stopping k_stopped : State

pub record Executor (A : Type 0) : Type 0 where
  pub low_watermark : ℕ
  pub hight_watermark : ℕ
  pub max_queue_size : ℕ
  pub sleeping_workers : ℕ
  pub running_threads : ℕ
  pub tasks : List A
  pub state : State

abbrev pub is_run : State → Bool
is_run State.k_run = true
is_run _ = false

module _ {A : Type 0} where
  abbrev pub is_empty : List A → Bool
  is_empty [] = true
  is_empty (_ ∷ _) = false

  -- The constructor, which starts `low` threads.
  unfoldable pub init : ℕ → ℕ → ℕ → Executor A
  init low hight max_queue = record {
    low_watermark = low;
    hight_watermark = hight;
    max_queue_size = max_queue;
    sleeping_workers = low;
    running_threads = low;
    tasks = [];
    state = State.k_run;
  }

  -- Whether the task is accepted, whether a thread starts, and the pool afterwards.
  unfoldable pub execute : A → Executor A → (Bool × Bool) × Executor A
  execute t e =
      let q : Executor A = record e { tasks = e.tasks ++ t ∷ [] } in
      let grown : Executor A = record q {
        running_threads = add64 e.running_threads 1;
        sleeping_workers = add64 e.sleeping_workers 1;
      } in
      if is_run e.state
      then (if ltb (length e.tasks) e.max_queue_size
          then (if e.sleeping_workers == 0
              then (if ltb e.running_threads e.hight_watermark
                  then ((true, true), grown)
                  else ((true, false), q))
              else ((true, false), q))
          else ((false, false), e))
      else ((false, false), e)

  -- The condition under which `perform` waits; `expired` says that the idle time has passed.
  unfoldable pub keeps_waiting : Bool → Executor A → Bool
  keeps_waiting expired e = is_empty e.tasks && (is_run e.state && not expired)

-- What a worker does with its turn.
pub data Turn (A : Type 0) : Type 0 where
  performs : A → Turn A
  exits waits_again : Turn A

module _ {A : Type 0} where
  -- No task, and the pool is about to stop.
  pub leave_stopping : Executor A → Executor A
  leave_stopping e =
      let n : ℕ = sub64 e.running_threads 1 in
      record e { running_threads = n; state = if n == 0 then State.k_stopped else e.state }

  unfoldable pub after_waiting : List A → Executor A → Turn A × Executor A
  unfolding leave_stopping
  after_waiting (t ∷ ts) e = (performs t, record e { tasks = ts })
  after_waiting [] e =
      if is_run e.state
      then (if leb e.low_watermark e.sleeping_workers
          then (exits, record e { running_threads = sub64 e.running_threads 1 })
          else (waits_again, record e { sleeping_workers = add64 e.sleeping_workers 1 }))
      else (exits, leave_stopping e)

  -- The first critical section of `perform`, behind its wait.
  unfoldable pub take_turn : Executor A → Turn A × Executor A
  unfolding after_waiting
  take_turn e = after_waiting e.tasks (record e { sleeping_workers = sub64 e.sleeping_workers 1 })

  -- The second one, after a task.
  pub come_back : Executor A → Executor A
  come_back e = record e { sleeping_workers = add64 e.sleeping_workers 1 }

  pub stop : Executor A → Executor A
  stop e = record e { state = State.k_stopping }

-- The pool with the threads that wait and those that run a task, and the tasks that were ever
-- accepted and taken, in order.
pub record Pool (A : Type 0) : Type 0 where
  pub executor : Executor A
  pub idle : ℕ
  pub busy : ℕ
  pub accepted : List A
  pub taken : List A

module _ {A : Type 0} where
  unfoldable pub started : ℕ → ℕ → ℕ → Pool A
  unfolding init
  started low hight max_queue = record {
    executor = init low hight max_queue;
    idle = low;
    busy = 0;
    accepted = [];
    taken = [];
  }

  unfoldable pub submit_result : A → (Bool × Bool) × Executor A → Pool A → Pool A
  submit_result t ((ok, spawned), e) p = record p {
    executor = e;
    idle = if spawned then suc p.idle else p.idle;
    accepted = if ok then p.accepted ++ t ∷ [] else p.accepted;
  }

  -- A worker that waited has its turn.
  unfoldable pub turn_result : Turn A × Executor A → Pool A → Pool A
  turn_result (performs t, e) p = record p {
    executor = e;
    idle = p.idle - 1;
    busy = suc p.busy;
    taken = p.taken ++ t ∷ [];
  }
  turn_result (exits, e) p = record p { executor = e; idle = p.idle - 1 }
  turn_result (waits_again, e) p = record p { executor = e }

-- What a thread, of the pool or another, can do next.
pub data Step {A : Type 0} : Pool A → Pool A → Type 0 where
  submits : (t : A) (p : Pool A) → Step p (submit_result t (execute t p.executor) p)
  takes :
      (expired : Bool) (p : Pool A) (n : ℕ)
      → p.idle ≡ suc n
      → keeps_waiting expired p.executor ≡ false
      → Step p (turn_result (take_turn p.executor) p)
  finishes :
      (p : Pool A) (n : ℕ)
      → p.busy ≡ suc n
      → Step p (record p { executor = come_back p.executor; idle = suc p.idle; busy = n })
  stops : (p : Pool A) → Step p (record p { executor = stop p.executor })

pub data Steps {A : Type 0} : Pool A → Pool A → Type 0 where
  none : (p : Pool A) → Steps p p
  more : (p q r : Pool A) → Steps p q → Step q r → Steps p r
