-- ===== src/Network/Worker.antt =====
-- src/network/mt_nonblocking/Worker.cpp: OnRun of a worker. What epoll_wait returns is an argument,
-- and other threads leave the clients as they are.
pub mod Agrees
use ts_sem.Prelude.{
  ℕ, Bool, true, false, ◌&&◌, ◌||◌, not, Option, none, some, List, [], ◌∷◌, ◌++◌, ◌==◌,
  if◌then◌else◌,
}
use ts_sem.Run
use ts_sem.Run.{Cmd, ◌>>=◌}
use ts_sem.Storage.Api.{StorageApi}
use ts_sem.Network.Connection.{Connection}
use ts_sem.Network.Events.{Client, Ready, is_empty}
use ts_sem.Network.Multi.{work}

-- An event of the workers' epoll: the server wakes its workers, or a client, and whether epoll takes
-- it again behind that.
pub data WorkerEvent : Type 0 where
  signal : WorkerEvent
  of_client : (socket : ℕ) → Ready → (rearmed : Bool) → WorkerEvent

-- The client is watched under its mask again, or deleted.
abbrev pub worker_settle : Client → Option Connection → List Client
worker_settle e none = []
worker_settle e (some d) = record e { connection = d; watched = d.events } ∷ []

module _ {S : Type 0} (storage : StorageApi S) where
  -- The client of an event among those of the list. An event of another is a dangling pointer.
  unfoldable pub worker_client :
      Bool → ℕ → Ready → Bool → List Client → Cmd (Bool × S) (List Client)
  worker_client run socket r rearmed [] = Run.fail
  worker_client run socket r rearmed (e ∷ es) =
      if e.socket == socket
      then (do o ← work storage run r rearmed e.connection; Run.pure (worker_settle e o ++ es))
      else (do rest ← worker_client run socket r rearmed es; Run.pure (e ∷ rest))

  -- The loop over the events of a wake-up.
  unfoldable pub worker_events :
      Bool → List WorkerEvent → List Client → Cmd (Bool × S) (List Client)
  unfolding worker_client
  worker_events run [] conns = Run.pure conns
  worker_events run (signal ∷ es) conns = worker_events run es conns
  worker_events run (of_client socket r rearmed ∷ es) conns = do
    left ← worker_client run socket r rearmed conns
    worker_events run es left

  -- OnRun: the wake-ups, each with the worker's `isRunning` before it and the server's `run`, which its
  -- connections read. `busy` says that the one before had events.
  pub worker_run :
      Bool → List (Bool × Bool × List WorkerEvent) → List Client → Cmd (Bool × S) (List Client)
  unfolding worker_events
  worker_run busy [] conns = Run.pure conns
  worker_run busy ((running, run, events) ∷ rounds) conns =
      if running || (busy && not (is_empty conns))
      then (do
        left ← worker_events run events conns
        worker_run (not (is_empty events)) rounds left)
      else Run.pure conns
