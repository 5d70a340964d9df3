-- ===== src/Executor/Runs.antt =====
-- The invariant of the thread pool over whole runs.
use ts_sem.Prelude.{
  ℕ, suc, ◌≤◌, ◌<◌, ◌^◌, ◌≡◌, refl, Bool, true, false, List, [], ◌∷◌, ◌==◌, leb, if◌then◌else◌,
  arith, Bool-cases, inl, inr, ◌⊎◌,
}
use ts_sem.Storage.Lru.Memory.{sub64}
use ts_sem.Executor.{
  State, Pool, Step, Steps, is_run, leave_stopping, after_waiting, take_turn, started, turn_result,
  submits, takes, finishes, stops, none, more,
}
use ts_sem.Executor.Invariant.{Sound, started-Sound, submits-Sound}
use ts_sem.Executor.Turns.{
  performs-Sound, exits-Sound, waits_again-Sound, finishes-Sound, stops-Sound,
}

leb→le : (a b : ℕ) → leb a b ≡ true → a ≤ b
leb→le a b h = ground arith

==→eq : (a b : ℕ) → (a == b) ≡ true → a ≡ b
==→eq a b h = ground arith

stays_halted :
    (b : Bool) (s : State) → is_run s ≡ false → is_run (if b then State.k_stopped else s) ≡ true → ⊥
stays_halted true s h r = cc
stays_halted false s h r = cc

stops_by :
    (b : Bool) (s : State)
    → (if b then State.k_stopped else s) ≡ State.k_stopped
    → (b ≡ true) ⊎ (s ≡ State.k_stopped)
stops_by true s h = inl refl
stops_by false s h = inr h

module _ {A : Type 0} (low hight max_queue bound : ℕ) (le : low ≤ bound) (le' : hight ≤ bound)
    (small : bound < 2 ^ 64) where
  abbrev Good : Pool A → Type 0
  Good = Sound low hight max_queue bound

  -- A worker with no task.
  without_task :
      (p : Pool A) (n : ℕ)
      → Good p
      → p.idle ≡ suc n
      → p.executor.tasks ≡ []
      → Good (
          turn_result
            (after_waiting []
              (record p.executor { sleeping_workers = sub64 p.executor.sleeping_workers 1 }))
            p)
  unfolding after_waiting leave_stopping
  without_task p n i idle e = elim (Bool-cases (is_run p.executor.state)) [
    | inl run ↦
        elim (Bool-cases (leb p.executor.low_watermark (sub64 p.executor.sleeping_workers 1))) [
          | inl many ↦
              rw (run, many)
                (exits-Sound low hight max_queue bound le le' small p n p.executor.state i idle e
                  (λ r. omega (arith, leb→le _ _ many, i.low_is, i.sleeping, i.few, small, idle))
                  (λ s. absurd (omega (arith, (i.ended s).0, idle))))
          | inr few ↦
              rw (run, few) (waits_again-Sound low hight max_queue bound le le' small p n i idle)
        ]
    | inr halted ↦
        let b : Bool = sub64 p.executor.running_threads 1 == 0 in
        rw halted (
          exits-Sound low hight max_queue bound le le' small p n
            (if b then State.k_stopped else p.executor.state) i idle e
            (λ r. absurd (stays_halted b p.executor.state halted r))
            (λ s. elim (stops_by b p.executor.state s) [
              | inl none_left ↦ omega (
                arith,
                ==→eq (sub64 p.executor.running_threads 1) 0 none_left,
                i.running,
                i.few,
                small,
                idle,
              )
              | inr was ↦ absurd (omega (arith, (i.ended was).0, idle))
            ]))
  ]

  takes-Sound :
      (p : Pool A) (n : ℕ) → Good p → p.idle ≡ suc n → Good (turn_result (take_turn p.executor) p)
  unfolding take_turn after_waiting
  takes-Sound p n i idle = by_tasks p.executor.tasks refl
    where
      by_tasks :
          (ts : List A)
          → p.executor.tasks ≡ ts
          → Good (
              turn_result
                (after_waiting ts
                  (record p.executor { sleeping_workers = sub64 p.executor.sleeping_workers 1 }))
                p)
      by_tasks [] e = without_task p n i idle e
      by_tasks (t ∷ ts) e = performs-Sound low hight max_queue bound le le' small t ts p n i idle e

  pub Step-Sound : (p q : Pool A) → Step p q → Good p → Good q
  Step-Sound _ _ (submits t p) i = submits-Sound low hight max_queue bound le le' small t p i
  Step-Sound _ _ (takes expired p n idle goes) i = takes-Sound p n i idle
  Step-Sound _ _ (finishes p n busy) i =
      finishes-Sound low hight max_queue bound le le' small p n i busy
  Step-Sound _ _ (stops p) i = stops-Sound low hight max_queue bound le le' small p i

  pub Steps-Sound : (p q : Pool A) → Steps p q → Good p → Good q
  Steps-Sound _ _ (none p) i = i
  Steps-Sound _ _ (more p q r before step) i = Step-Sound q r step (Steps-Sound p q before i)

  -- For watermarks of at most a bound below 2^64, every pool that a run of steps reaches from a new
  -- one is sound: the counters are the numbers of waiting and of all threads, these are at most the
  -- bound, and at least the low watermark while the pool runs; the queue keeps its limit, the
  -- accepted tasks in order are those that workers took and then those in the queue, and a stopped
  -- pool has neither threads nor tasks.
  pub Pool-Sound : (q : Pool A) → Steps (started low hight max_queue) q → Good q
  Pool-Sound q run = Steps-Sound _ q run (started-Sound low hight max_queue bound le le' small)
