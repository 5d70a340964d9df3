-- ===== src/Executor/Invariant.antt =====
-- What every state of the thread pool satisfies.
use mathlib.Core.List.{append_assoc}
use ts_sem.Prelude.{
  ℕ, suc, ◌+◌, ◌≤◌, ◌<◌, ◌^◌, ◌≡◌, refl, ap, ◌∙◌, true, [], ◌∷◌, ◌++◌, ◌==◌, ltb, length, arith,
  length-append, Bool-cases, inl, inr, ltb→lt,
}
use ts_sem.Storage.Lru.Memory.{add64}
use ts_sem.Executor.{State, Pool, is_run, init, execute, started, submit_result}

-- `low`, `hight` and `max_queue` are the constructor's, and `bound` is a number that neither watermark
-- exceeds. The counters are the numbers of threads, which are at most `bound`, and at least `low`
-- while the pool runs; the queue keeps its limit and the order of the tasks; and a stopped pool has
-- no thread and no task.
pub record Sound {A : Type 0} (low hight max_queue bound : ℕ) (p : Pool A) : Type 0 where
  pub low_is : p.executor.low_watermark ≡ low
  pub hight_is : p.executor.hight_watermark ≡ hight
  pub max_is : p.executor.max_queue_size ≡ max_queue
  pub sleeping : p.executor.sleeping_workers ≡ p.idle
  pub running : p.executor.running_threads ≡ p.idle + p.busy
  pub few : p.idle + p.busy ≤ bound
  pub enough : is_run p.executor.state ≡ true → low ≤ p.idle + p.busy
  pub queue : length p.executor.tasks ≤ max_queue
  pub order : p.accepted ≡ p.taken ++ p.executor.tasks
  pub ended : p.executor.state ≡ State.k_stopped → (p.idle + p.busy ≡ 0) × (p.executor.tasks ≡ [])

not_run : (s : State) → is_run s ≡ true → s ≡ State.k_stopped → ⊥
not_run State.k_run h e = cc
not_run State.k_stopping h e = cc
not_run State.k_stopped h e = cc

module _ {A : Type 0} (low hight max_queue bound : ℕ) (le : low ≤ bound) (le' : hight ≤ bound)
    (small : bound < 2 ^ 64) where
  pub started-Sound : Sound {A = A} low hight max_queue bound (started low hight max_queue)
  unfolding started init
  started-Sound = record {
    low_is = refl;
    hight_is = refl;
    max_is = refl;
    sleeping = refl;
    running = omega arith;
    few = omega (arith, le);
    enough = λ e. omega arith;
    queue = omega arith;
    order = refl;
    ended = λ e. cc;
  }

  queued :
      (t : A) (p : Pool A)
      → Sound low hight max_queue bound p
      → is_run p.executor.state ≡ true
      → length p.executor.tasks < max_queue
      → Sound low hight max_queue bound (record p {
        executor = record p.executor { tasks = p.executor.tasks ++ t ∷ [] };
        accepted = p.accepted ++ t ∷ [];
      })
  queued t p i run room = record {
    low_is = i.low_is;
    hight_is = i.hight_is;
    max_is = i.max_is;
    sleeping = i.sleeping;
    running = i.running;
    few = i.few;
    enough = i.enough;
    queue = omega (arith, room, length-append p.executor.tasks (t ∷ []));
    order = ap (λ x. x ++ t ∷ []) i.order ∙ append_assoc p.taken p.executor.tasks (t ∷ []);
    ended = λ e. absurd (not_run p.executor.state run e);
  }

  spawned :
      (p : Pool A)
      → Sound low hight max_queue bound p
      → p.idle + p.busy < hight
      → is_run p.executor.state ≡ true
      → Sound low hight max_queue bound (record p {
        executor = record p.executor {
          running_threads = add64 p.executor.running_threads 1;
          sleeping_workers = add64 p.executor.sleeping_workers 1;
        };
        idle = suc p.idle;
      })
  spawned p i room run = record {
    low_is = i.low_is;
    hight_is = i.hight_is;
    max_is = i.max_is;
    sleeping = omega (arith, i.sleeping, i.few, small, le', room);
    running = omega (arith, i.running, small, le', room);
    few = omega (arith, le', room);
    enough = λ e. omega (arith, i.enough e);
    queue = i.queue;
    order = i.order;
    ended = λ e. absurd (not_run p.executor.state run e);
  }

  pub submits-Sound :
      (t : A) (p : Pool A)
      → Sound low hight max_queue bound p
      → Sound low hight max_queue bound (submit_result t (execute t p.executor) p)
  unfolding submit_result execute
  submits-Sound t p i = elim (Bool-cases (is_run p.executor.state)) [
    | inr f ↦ rw f i
    | inl run ↦ elim (Bool-cases (ltb (length p.executor.tasks) p.executor.max_queue_size)) [
      | inr f ↦ rw (run, f) i
      | inl room ↦
          let q = queued t p i run (omega (arith, ltb→lt _ _ room, i.max_is)) in
          elim (Bool-cases (p.executor.sleeping_workers == 0)) [
            | inr f ↦ rw (run, room, f) q
            | inl z ↦
                elim (Bool-cases (ltb p.executor.running_threads p.executor.hight_watermark)) [
                  | inr f ↦ rw (run, room, z, f) q
                  | inl less ↦
                      rw (run, room, z, less)
                        (spawned _ q (omega (arith, ltb→lt _ _ less, i.hight_is, i.running)) run)
                ]
          ]
    ]
  ]
