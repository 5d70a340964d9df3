-- ===== src/Executor/Turns.antt =====
-- The invariant of the thread pool over a worker's steps and over Stop.
use mathlib.Core.List.{append_assoc}
use ts_sem.Prelude.{
  ℕ, suc, ◌+◌, ◌≤◌, ◌<◌, ◌^◌, ◌≡◌, sym, ap, ◌∙◌, true, List, [], ◌∷◌, ◌++◌, length, arith,
}
use ts_sem.Storage.Lru.Memory.{add64, sub64}
use ts_sem.Executor.{
  State, Pool, is_run, come_back, stop, turn_result, performs, exits, waits_again,
}
use ts_sem.Executor.Invariant.{Sound}

module _ {A : Type 0} (low hight max_queue bound : ℕ) (le : low ≤ bound) (le' : hight ≤ bound)
    (small : bound < 2 ^ 64) where
  -- A worker gets a task.
  pub performs-Sound :
      (t : A) (ts : List A) (p : Pool A) (n : ℕ)
      → Sound low hight max_queue bound p
      → p.idle ≡ suc n
      → p.executor.tasks ≡ t ∷ ts
      → Sound low hight max_queue bound (
          turn_result
            (
              performs t,
              record p.executor {
                sleeping_workers = sub64 p.executor.sleeping_workers 1;
                tasks = ts;
              },
            )
            p)
  unfolding turn_result
  performs-Sound t ts p n i idle e = record {
    low_is = i.low_is;
    hight_is = i.hight_is;
    max_is = i.max_is;
    sleeping = omega (arith, i.sleeping, i.few, small, idle);
    running = omega (arith, i.running, idle);
    few = omega (arith, i.few, idle);
    enough = λ r. omega (arith, i.enough r, idle);
    queue = omega (arith, i.queue, ap length e);
    order = i.order ∙ ap (λ x. p.taken ++ x) e ∙ sym (append_assoc p.taken (t ∷ []) ts);
    ended = λ s. absurd (omega (arith, (i.ended s).0, idle));
  }

  -- A worker leaves: the pool runs and more than `low` threads stay, or it is about to stop.
  pub exits-Sound :
      (p : Pool A) (n : ℕ) (s : State)
      → Sound low hight max_queue bound p
      → p.idle ≡ suc n
      → p.executor.tasks ≡ []
      → (is_run s ≡ true → low ≤ n)
      → (s ≡ State.k_stopped → n + p.busy ≡ 0)
      → Sound low hight max_queue bound (
          turn_result
            (
              exits,
              record p.executor {
                sleeping_workers = sub64 p.executor.sleeping_workers 1;
                running_threads = sub64 p.executor.running_threads 1;
                state = s;
              },
            )
            p)
  unfolding turn_result
  exits-Sound p n s i idle e stay gone = record {
    low_is = i.low_is;
    hight_is = i.hight_is;
    max_is = i.max_is;
    sleeping = omega (arith, i.sleeping, i.few, small, idle);
    running = omega (arith, i.running, i.few, small, idle);
    few = omega (arith, i.few, idle);
    enough = λ r. omega (arith, stay r, idle);
    queue = i.queue;
    order = i.order;
    ended = λ h. (omega (arith, gone h, idle), e);
  }

  pub waits_again-Sound :
      (p : Pool A) (n : ℕ)
      → Sound low hight max_queue bound p
      → p.idle ≡ suc n
      → Sound low hight max_queue bound (
          turn_result
            (
              waits_again,
              record p.executor {
                sleeping_workers = add64 (sub64 p.executor.sleeping_workers 1) 1;
              },
            )
            p)
  unfolding turn_result
  waits_again-Sound p n i idle = record {
    low_is = i.low_is;
    hight_is = i.hight_is;
    max_is = i.max_is;
    sleeping = omega (arith, i.sleeping, i.few, small, idle);
    running = i.running;
    few = i.few;
    enough = i.enough;
    queue = i.queue;
    order = i.order;
    ended = i.ended;
  }

  pub finishes-Sound :
      (p : Pool A) (n : ℕ)
      → Sound low hight max_queue bound p
      → p.busy ≡ suc n
      → Sound low hight max_queue bound
          (record p { executor = come_back p.executor; idle = suc p.idle; busy = n })
  unfolding come_back
  finishes-Sound p n i busy = record {
    low_is = i.low_is;
    hight_is = i.hight_is;
    max_is = i.max_is;
    sleeping = omega (arith, i.sleeping, i.few, small, busy);
    running = omega (arith, i.running, busy);
    few = omega (arith, i.few, busy);
    enough = λ r. omega (arith, i.enough r, busy);
    queue = i.queue;
    order = i.order;
    ended = λ s. absurd (omega (arith, (i.ended s).0, busy));
  }

  pub stops-Sound :
      (p : Pool A)
      → Sound low hight max_queue bound p
      → Sound low hight max_queue bound (record p { executor = stop p.executor })
  unfolding stop
  stops-Sound p i = record {
    low_is = i.low_is;
    hight_is = i.hight_is;
    max_is = i.max_is;
    sleeping = i.sleeping;
    running = i.running;
    few = i.few;
    enough = λ r. cc;
    queue = i.queue;
    order = i.order;
    ended = λ s. cc;
  }
