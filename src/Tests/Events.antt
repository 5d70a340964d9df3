-- ===== src/Tests/Events.antt =====
-- The non-blocking servers at concrete inputs.
use ts_sem.Prelude.{ℕ, ◌+◌, ◌≤◌, ◌≡◌, refl, arith, true, false, none, Bool, List, [], ◌∷◌}
use ts_sem.Prelude.Bytes.{codes}
use ts_sem.Run
use ts_sem.Run.{Run, fault, Post}
use ts_sem.Storage.Api.{spec_api}
use ts_sem.Network.Connection.{Events}
use ts_sem.Network.Connection.Write.{accepted, failed}
use ts_sem.Network.Events.{
  Server, Ready, Accepted, Event, stop_signal, acceptable, handle_all, wake_up,
}
use ts_sem.Network.Events.Swept.{wake_up_accepted}
use ts_sem.Network.Multi.{inside, mt_do_write}
use ts_sem.Network.Worker.{WorkerEvent, signal, of_client, worker_events}
use ts_sem.Network.Worker.Agrees.{client_events, clients, worker_events-handle_all}
use ts_sem.Network.Multi.Relock.{mt_do_write_relocks}
use ts_sem.Network.Workers.{
  Shared, no_clients, Moves, create, deliver, finish, forget, creates, delivers, finishes, none,
  more, count, erase, insert,
}
use ts_sem.Network.Workers.Owned.{held_once}
use ts_sem.Tests.Clients.{client, answering}

-- A client that is registered, and one that comes.
abbrev loop : Server
loop = record {
  run = true;
  conns = record { socket = 5; connection = client; watched = Events.rd } ∷ [];
}

abbrev sends_line : Ready
sends_line = record {
  err = false;
  hup = false;
  rdhup = false;
  readable = true;
  writable = false;
  reads = codes "get a\r\n" ∷ [];
  written = accepted 0;
}

abbrev arrives : Accepted
arrives = record { socket = 6; remains = 9; alive = false; added = true }

-- The server is told to stop in the wake-up in which a client comes.
abbrev arrival : List Event
arrival = acceptable (arrives ∷ []) ∷ (stop_signal true ∷ [])

wake_up_accepted_example : wake_up (spec_api 64) arrival loop [] ≡ fault
wake_up_accepted_example = wake_up_accepted (spec_api 64) arrival loop [] tt refl

abbrev told : List WorkerEvent
told = signal ∷ (of_client 5 sends_line true ∷ [])

worker_events-handle_all_example :
    worker_events (spec_api 64) true told loop.conns (false, [])
    ≡ inside
        (λ t.
          Run.and_then
            (handle_all
              (spec_api 64)
              (client_events told)
              (record { run = true; conns = loop.conns })
              t)
            (λ h. Run.pure (clients h)))
        (false, [])
worker_events-handle_all_example =
    worker_events-handle_all (spec_api 64) told loop.conns [] ((refl, refl), tt) (λ e. cc, refl, tt)

mt_do_write_relocks_example :
    ((run : Bool) → mt_do_write run failed answering (false, tt) ≡ fault)
    × ((n : ℕ) → 10 ≤ n → mt_do_write false (accepted n) answering (false, tt) ≡ fault)
mt_do_write_relocks_example = mt_do_write_relocks answering tt (λ e. cc)

-- A client is accepted, reported and freed, and the next one gets its address before it is erased.
abbrev first : Shared
first = finish 7 true (create 7 no_clients)

abbrev freed : Shared
freed = finish 7 false (deliver 7 first)

abbrev reused : Shared
reused = create 7 freed

history : Moves no_clients reused
unfolding no_clients create insert deliver finish erase
history =
    more no_clients freed reused
      (more no_clients (deliver 7 first) freed
        (more no_clients first (deliver 7 first)
          (more no_clients (create 7 no_clients) first
            (more no_clients no_clients (create 7 no_clients) (none no_clients)
              (creates 7 no_clients refl))
            (finishes 7 0 true (create 7 no_clients) refl))
          (delivers 7 0 first refl))
        (finishes 7 0 false (deliver 7 first) refl))
      (creates 7 freed refl)

held_once_example : (count 7 reused.armed + count 7 reused.held ≡ 1) × (count 7 reused.live ≡ 1)
unfolding no_clients create insert deliver finish erase
held_once_example = held_once reused 7 history (omega arith)

-- The rest of the deletion of the first one erases the next one from `conns`.
forgotten : (count 7 (forget 7 reused).live ≡ 1) × ((forget 7 reused).conns ≡ [])
unfolding no_clients create insert deliver finish forget erase
forgotten = (refl, refl)
