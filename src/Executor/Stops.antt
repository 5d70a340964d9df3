-- ===== src/Executor/Stops.antt =====
-- Executor::Stop with `await`: its loop waits until no thread is left.
use ts_sem.Prelude.{
  ℕ, zero, suc, ◌+◌, ◌*◌, ◌≤◌, ◌<◌, ◌^◌, ◌≡◌, refl, ap, ◌∙◌, Bool, true, false, ◌&&◌, List, [], ◌∷◌,
  ◌==◌, length, arith, if◌then◌else◌,
}
use ts_sem.Storage.Lru.Memory.{sub64}
use ts_sem.Executor.{
  State, Pool, is_run, is_empty, keeps_waiting, after_waiting, leave_stopping, take_turn, come_back,
  turn_result, stop, started, Step, takes, finishes, stops, Steps,
}
use ts_sem.Executor.Invariant.{Sound}
use ts_sem.Executor.Runs.{Step-Sound, Pool-Sound}

-- The steps of the workers.
pub data WorkerStep {A : Type 0} : Pool A → Pool A → Type 0 where
  has_turn :
      (expired : Bool) (p : Pool A) (n : ℕ)
      → p.idle ≡ suc n
      → keeps_waiting expired p.executor ≡ false
      → WorkerStep p (turn_result (take_turn p.executor) p)
  is_done :
      (p : Pool A) (n : ℕ)
      → p.busy ≡ suc n
      → WorkerStep p (record p { executor = come_back p.executor; idle = suc p.idle; busy = n })

-- However the workers go on, no thread is left at some time, and before that one of them can go on.
pub data EndsAllThreads {A : Type 0} : Pool A → Type 0 where
  none_left : (p : Pool A) → p.executor.running_threads ≡ 0 → EndsAllThreads p
  some_left :
      (p q : Pool A)
      → WorkerStep p q
      → ((r : Pool A) → WorkerStep p r → EndsAllThreads r)
      → EndsAllThreads p

-- What is left to do: a task is taken, run and come back from, and a thread exits.
abbrev left_to_do : {A : Type 0} → Pool A → ℕ
left_to_do p = 3 * length p.executor.tasks + 2 * p.busy + p.idle

WorkerStep-Step : {A : Type 0} (p q : Pool A) → WorkerStep p q → Step p q
WorkerStep-Step _ _ (has_turn expired p n idle goes) = takes expired p n idle goes
WorkerStep-Step _ _ (is_done p n busy) = finishes p n busy

-- A pool that does not run gets on with every step of a worker.
abbrev GetsOn : {A : Type 0} → Pool A → Pool A → Type 0
GetsOn p q = (left_to_do q < left_to_do p) × (is_run q.executor.state ≡ false)

exits_state :
    (b : Bool) (s : State) → is_run s ≡ false → is_run (if b then State.k_stopped else s) ≡ false
exits_state true s h = refl
exits_state false s h = h

module _ {A : Type 0} where
  turn-GetsOn :
      (ts : List A) (p : Pool A) (n : ℕ)
      → p.executor.tasks ≡ ts
      → p.idle ≡ suc n
      → is_run p.executor.state ≡ false
      → GetsOn p (
          turn_result
            (after_waiting ts
              (record p.executor { sleeping_workers = sub64 p.executor.sleeping_workers 1 }))
            p)
  unfolding after_waiting leave_stopping turn_result
  turn-GetsOn (t ∷ ts) p n e idle over = (omega (arith, ap length e, idle), over)
  turn-GetsOn [] p n e idle over = rw over (
    omega (arith, idle),
    exits_state (sub64 p.executor.running_threads 1 == 0) p.executor.state over,
  )

  WorkerStep-GetsOn : (p q : Pool A) → WorkerStep p q → is_run p.executor.state ≡ false → GetsOn p q
  unfolding take_turn come_back
  WorkerStep-GetsOn _ _ (has_turn expired p n idle goes) over =
      turn-GetsOn p.executor.tasks p n refl idle over
  WorkerStep-GetsOn _ _ (is_done p n busy) over = (omega (arith, busy), over)

  goes_on :
      (p : Pool A) (expired : Bool)
      → is_run p.executor.state ≡ false
      → keeps_waiting expired p.executor ≡ false
  unfolding keeps_waiting
  goes_on p expired over = rw over (none_waits (is_empty p.executor.tasks))
    where
      none_waits : (b : Bool) → (b && false) ≡ false
      none_waits true = refl
      none_waits false = refl

module _ {A : Type 0} (low hight max_queue bound : ℕ) (le : low ≤ bound) (le' : hight ≤ bound)
    (small : bound < 2 ^ 64) where
  sound_ends :
      (n : ℕ) (p : Pool A)
      → Sound low hight max_queue bound p
      → is_run p.executor.state ≡ false
      → left_to_do p < n
      → EndsAllThreads p
  sound_ends zero p i over h = absurd (omega (arith, h))
  sound_ends (suc n) p i over h =
      let later : (r : Pool A) → WorkerStep p r → EndsAllThreads r = λ r st.
        let on = WorkerStep-GetsOn p r st over in
        sound_ends n r
          (Step-Sound low hight max_queue bound le le' small p r (WorkerStep-Step p r st) i) on.1
          (omega (arith, on.0, h)) in
      threads p.idle p.busy refl refl later
    where
      threads :
          (idle busy : ℕ)
          → p.idle ≡ idle
          → p.busy ≡ busy
          → ((r : Pool A) → WorkerStep p r → EndsAllThreads r)
          → EndsAllThreads p
      threads zero zero e f later = none_left p (i.running ∙ omega (arith, e, f))
      threads (suc k) busy e f later =
          some_left p _ (has_turn true p k e (goes_on p true over)) later
      threads zero (suc k) e f later = some_left p _ (is_done p k f) later

  -- For watermarks of at most a bound below 2^64, from every pool that a run of steps reaches from
  -- a new one: behind Stop, in whatever order the workers go on, some worker can take its next step
  -- until no thread is left, and that comes after finitely many steps of theirs, so the condition
  -- for which Stop waits, when it is told to, comes true.
  pub stop-EndsAllThreads :
      (p : Pool A)
      → Steps (started low hight max_queue) p
      → EndsAllThreads (record p { executor = stop p.executor })
  unfolding stop
  stop-EndsAllThreads p run =
      let q : Pool A = record p { executor = stop p.executor } in
      let i = Pool-Sound low hight max_queue bound le le' small p run in
      sound_ends (suc (left_to_do q)) q
        (Step-Sound low hight max_queue bound le le' small p q (stops p) i) refl (omega arith)
