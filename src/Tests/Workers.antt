-- ===== src/Tests/Workers.antt =====
-- A thread pool with watermarks 0 and 2: a task is accepted, a thread starts and takes it, and then
-- the pool is told to stop.
use ts_sem.Prelude.{ℕ, ◌≡◌, refl, false, arith, [], ◌∷◌}
use ts_sem.Executor.{
  Pool, Steps, init, execute, keeps_waiting, after_waiting, take_turn, started, submit_result,
  turn_result, submits, takes, none, more, stop,
}
use ts_sem.Executor.Invariant.{Sound}
use ts_sem.Executor.Runs.{Pool-Sound}
use ts_sem.Executor.Stops.{EndsAllThreads, stop-EndsAllThreads}

abbrev first : Pool ℕ
first = started 0 2 10

abbrev second : Pool ℕ
second = submit_result 7 (execute 7 first.executor) first

abbrev third : Pool ℕ
third = turn_result (take_turn second.executor) second

run : Steps first third
unfolding init execute keeps_waiting after_waiting take_turn started submit_result turn_result
run =
    more first second third (more first first second (none first) (submits 7 first))
      (takes false second 0 refl refl)

-- The task is out of the queue.
third_state : (third.taken ≡ 7 ∷ []) × (third.executor.tasks ≡ []) × (third.busy ≡ 1)
unfolding init execute after_waiting take_turn started submit_result turn_result
third_state = (refl, refl, refl)

Pool-Sound_example : Sound 0 2 10 2 third
Pool-Sound_example = Pool-Sound 0 2 10 2 (omega arith) (omega arith) (omega arith) third run

stop-EndsAllThreads_example : EndsAllThreads (record third { executor = stop third.executor })
stop-EndsAllThreads_example =
    stop-EndsAllThreads 0 2 10 2 (omega arith) (omega arith) (omega arith) third run
