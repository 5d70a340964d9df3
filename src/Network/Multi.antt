-- ===== src/Network/Multi.antt =====
-- src/network/mt_nonblocking/Connection.cpp and Worker.cpp: a connection with a mutex, and what a
-- worker does with an event. The state has a flag beside the storage: whether the worker holds the
-- connection's mutex. A thread that locks its own std::mutex again is undefined.
pub mod Same
pub mod Relock
use ts_sem.Prelude.{
  ℕ, ◌+◌, Bool, true, false, ◌||◌, Option, none, some, List, [], ◌∷◌, ◌++◌, ◌==◌, if◌then◌else◌,
  length,
}
use ts_sem.Prelude.Bytes.{Bytes}
use ts_sem.Run
use ts_sem.Run.{Run, ok, fault, out_of_fuel, Cmd, ◌>>=◌}
use ts_sem.Storage.Api.{StorageApi}
use ts_sem.Execute.{execute, crlf}
use ts_sem.Protocol.Parser.{reset}
use ts_sem.Network.Connection.{
  Connection, Events, Progress, go_on, stop, start, on_error, on_close, read_loop, set_events,
}
use ts_sem.Network.Connection.Write.{
  Written, accepted, nothing, would_block, failed, skip, wait_to_write, int_sum,
}
use ts_sem.Network.Events.{Ready}

module _ {S : Type 0} where
  abbrev pub release : {A : Type 0} → Run (Bool × S) A → Run (Bool × S) A
  release (ok a (held, s)) = ok a (false, s)
  release fault = fault
  release out_of_fuel = out_of_fuel

  -- A block under `std::lock_guard`
  abbrev pub with_lock : {A : Type 0} → Cmd (Bool × S) A → Cmd (Bool × S) A
  with_lock m (true, s) = fault
  with_lock m (false, s) = release (m (true, s))

  abbrev pub beside : {A : Type 0} → Bool → Run S A → Run (Bool × S) A
  beside held (ok a s) = ok a (held, s)
  beside held fault = fault
  beside held out_of_fuel = out_of_fuel

  -- Code that leaves the mutex alone.
  abbrev pub inside : {A : Type 0} → Cmd S A → Cmd (Bool × S) A
  inside m (held, s) = beside held (m s)

  pub mt_start : Connection → Cmd (Bool × S) Connection
  unfolding start
  mt_start c = with_lock (Run.pure (start c))

  pub mt_on_error : Connection → Cmd (Bool × S) Connection
  unfolding on_error
  mt_on_error c = with_lock (Run.pure (on_error c))

  pub mt_on_close : Connection → Cmd (Bool × S) Connection
  unfolding on_close
  mt_on_close c = with_lock (Run.pure (on_close c))

  pub is_alive : Connection → Cmd (Bool × S) Bool
  is_alive c = with_lock (Run.pure c.alive)

-- The response is queued.
pub mt_queue : Bytes → Connection → Connection
mt_queue reply c = record c { responses = c.responses ++ (reply ++ crlf) ∷ [] }

-- "Prepare for the next command"
pub mt_next_command : Connection → Connection
mt_next_command c = record c { command = none; argument = []; parser = reset c.parser }

module _ {S : Type 0} (storage : StorageApi S) (running : ℕ → Bool) where
  -- When the server stops, the command that has run stays.
  pub mt_run_command : Connection → Cmd S Progress
  unfolding mt_queue mt_next_command
  mt_run_command c = elim c.command [
    | none ↦ Run.pure (go_on c)
    | some command ↦
        if c.arg_remains == 0
        then (do
          reply ← execute storage command c.argument
          let d = mt_queue reply c
          Run.pure (if running (length d.responses) then go_on (mt_next_command d) else stop d))
        else Run.pure (go_on c)
  ]

  pub mt_do_read : List Bytes → Connection → Cmd (Bool × S) Connection
  unfolding mt_run_command
  mt_do_read reads c =
      with_lock (inside (do p ← read_loop mt_run_command reads c; Run.pure (set_events p)))

module _ {S : Type 0} where
  -- `OnClose` locks the mutex that DoWrite holds, and so does `OnError` below.
  pub mt_after_write : Bool → ℕ × List Bytes → Connection → Cmd (Bool × S) Connection
  unfolding mt_on_close wait_to_write
  mt_after_write run (start, rs) c =
      let d : Connection = record c { responses = rs; data_start = start } in
      elim rs [
        | [] ↦ if run then Run.pure (record d { events = Events.rd }) else mt_on_close d
        | _ ∷ _ ↦ Run.pure (wait_to_write run d)
      ]

  pub mt_do_write : Bool → Written → Connection → Cmd (Bool × S) Connection
  unfolding skip mt_after_write mt_on_error wait_to_write int_sum
  mt_do_write run w c = with_lock (elim c.responses [
    | [] ↦ Run.fail
    | _ ∷ _ ↦ elim w [
      | accepted n ↦ (do
        start ← int_sum c.data_start n
        mt_after_write run (skip start c.responses) c)
      | nothing ↦ Run.pure (wait_to_write run c)
      | would_block ↦ Run.pure (wait_to_write run c)
      | failed ↦ mt_on_error c
    ]
  ])

-- Behind an event: a connection that epoll does not take again is deleted.
module _ {S : Type 0} where
  abbrev pub rearm : Bool → Connection → Bool → Cmd (Bool × S) (Option Connection)
  rearm rearmed d false = Run.pure none
  rearm true d true = Run.pure (some d)
  rearm false d true = do x ← mt_on_error d; Run.pure none

module _ {S : Type 0} (storage : StorageApi S) where
  -- What the connection makes of an event of its worker.
  pub mt_dispatch : Bool → Ready → Connection → Cmd (Bool × S) Connection
  unfolding mt_on_error mt_on_close mt_do_read mt_do_write
  mt_dispatch run r c =
      if r.err || r.hup then mt_on_error c else if r.rdhup then mt_on_close c else (do
        d ← (if r.readable then mt_do_read storage (λ _. run) r.reads c else Run.pure c)
        if r.writable then mt_do_write run r.written d else Run.pure d)

  -- One event of a worker; `rearmed` is whether epoll takes the connection again. `none` stands for
  -- a connection that is deleted.
  pub work : Bool → Ready → Bool → Connection → Cmd (Bool × S) (Option Connection)
  unfolding mt_dispatch is_alive mt_on_error
  work run r rearmed c = do d ← mt_dispatch run r c; alive ← is_alive d; rearm rearmed d alive
