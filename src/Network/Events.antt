-- ===== src/Network/Events.antt =====
-- src/network/st_nonblocking/ServerImpl.cpp: the loop over epoll, its clients, and Join. What epoll,
-- accept and the sockets return is an argument. A client's socket stands for the pointer to its
-- connection.
pub mod Registered
pub mod Swept
use ts_sem.Prelude.{
  ℕ, ◌≡◌, Bool, true, false, ◌||◌, not, ◌&&◌, Option, none, some, List, [], ◌∷◌, ◌++◌, ◌==◌,
  if◌then◌else◌,
}
use ts_sem.Prelude.Bytes.{Bytes}
use ts_sem.Run
use ts_sem.Run.{Cmd, ◌>>=◌}
use ts_sem.Storage.Api.{StorageApi}
use ts_sem.Protocol.Parser.{fresh}
use ts_sem.Network.Connection.{Connection, Events, start, on_error, on_close, do_read}
use ts_sem.Network.Connection.Write.{Written, do_write}

-- A connection as the constructor leaves it; `remains` and `alive` are not initialised.
unfoldable pub new_connection : ℕ → Bool → Connection
new_connection remains alive = record {
  events = Events.no_events;
  alive = alive;
  arg_remains = remains;
  parser = fresh false;
  argument = [];
  command = none;
  responses = [];
  data_start = 0;
  buffer = [];
}

-- An element of `conns`, with the mask under which epoll watches its socket.
pub record Client : Type 0 where
  pub socket : ℕ
  pub connection : Connection
  pub watched : Events

pub record Server : Type 0 where
  pub run : Bool
  pub conns : List Client

-- What epoll says of a client, and what read and writev return then.
pub record Ready : Type 0 where
  pub err : Bool
  pub hup : Bool
  pub rdhup : Bool
  pub readable : Bool
  pub writable : Bool
  pub reads : List Bytes
  pub written : Written

-- A socket from accept, the memory of its connection, and whether epoll takes it.
pub record Accepted : Type 0 where
  pub socket : ℕ
  pub remains : ℕ
  pub alive : Bool
  pub added : Bool

-- An event of epoll: the stop signal, whether the two descriptors can be removed then; sockets that
-- wait to be accepted; a client, and whether its mask can be changed.
pub data Event : Type 0 where
  stop_signal : (removed : Bool) → Event
  acceptable : List Accepted → Event
  client_event : (socket : ℕ) → Ready → (changed : Bool) → Event

pub data Handled : Type 0 where
  handled threw : Server → Handled

abbrev pub same_events : Events → Events → Bool
same_events Events.no_events Events.no_events = true
same_events Events.rd Events.rd = true
same_events Events.wr Events.wr = true
same_events Events.rdwr Events.rdwr = true
same_events _ _ = false

-- OnNewConnection for one socket: the connection is started and registered, or deleted again.
pub add_client : Accepted → List Client → List Client
unfolding new_connection
add_client a conns =
    if a.added
    then conns
      ++ record {
        socket = a.socket;
        connection = start (new_connection a.remains a.alive);
        watched = Events.rd;
      }
        ∷ []
    else conns

-- OnNewConnection, until accept returns an error.
pub on_new_connection : List Accepted → List Client → List Client
unfolding add_client
on_new_connection [] conns = conns
on_new_connection (a ∷ as') conns = on_new_connection as' (add_client a conns)

-- "Does it alive?" A connection whose mask cannot be changed is closed and deleted.
unfoldable pub settle : Bool → Client → Connection → List Client
settle changed e d =
    if d.alive
    then (if same_events d.events e.connection.events
        then record e { connection = d } ∷ []
        else (if changed then record e { connection = d; watched = d.events } ∷ [] else []))
    else []

-- Nothing to do for the client: no command, and no responses.
pub is_idle : Connection → Bool
is_idle c = elim c.command [
  | none ↦ elim c.responses [ [] ↦ true | _ ∷ _ ↦ false ]
  | some _ ↦ false
]

module _ {S : Type 0} (storage : StorageApi S) where
  -- What the connection makes of its event.
  unfoldable pub dispatch : Bool → Ready → Connection → Cmd S Connection
  dispatch run r c =
      if r.err || r.hup
      then Run.pure (on_error c)
      else if r.rdhup
      then Run.pure (on_close c)
      else (do
        d ← (if r.readable then do_read storage (λ _. run) r.reads c else Run.pure c)
        if r.writable then do_write run r.written d else Run.pure d)

  -- The client of an event among those of the list. An event of another is a dangling pointer.
  unfoldable pub on_client : Bool → ℕ → Ready → Bool → List Client → Cmd S (List Client)
  unfolding dispatch settle
  on_client run socket r changed [] = Run.fail
  on_client run socket r changed (e ∷ es) =
      if e.socket == socket
      then (do d ← dispatch run r e.connection; Run.pure (settle changed e d ++ es))
      else (do rest ← on_client run socket r changed es; Run.pure (e ∷ rest))

  unfoldable pub handle : Event → Server → Cmd S Handled
  unfolding on_new_connection on_client
  handle (stop_signal removed) v =
      Run.pure
        (if removed then handled (record v { run = false }) else threw (record v { run = false }))
  handle (acceptable as') v =
      Run.pure (handled (record v { conns = on_new_connection as' v.conns }))
  handle (client_event socket r changed) v = do
    conns ← on_client v.run socket r changed v.conns
    Run.pure (handled (record v { conns = conns }))

  -- The loop over the events of a wake-up.
  unfoldable pub handle_all : List Event → Server → Cmd S Handled
  unfolding handle
  handle_all [] v = Run.pure (handled v)
  handle_all (e ∷ es) v = do
    h ← handle e v
    elim h [ handled u ↦ handle_all es u | threw u ↦ Run.pure (threw u) ]

  -- The loop over `conns` behind it. An idle connection is closed, and its deletion makes the
  -- iterator invalid, which the loop then advances.
  pub sweep : List Client → Cmd S (Unit {0})
  unfolding is_idle
  sweep [] = Run.pure tt
  sweep (e ∷ es) = if is_idle e.connection then Run.fail else sweep es

  -- One round of the loop in OnRun.
  pub wake_up : List Event → Server → Cmd S Handled
  unfolding handle_all sweep
  wake_up events v = do
    h ← handle_all events v
    elim h [ handled u ↦ do x ← sweep u.conns; Run.pure (handled u) | threw u ↦ Run.pure (threw u) ]

  -- The loop over `conns` in Join, behind the end of the thread; it deletes what it stands at.
  pub join : Server → Cmd S Server
  join v = elim v.conns [ [] ↦ Run.pure v | _ ∷ _ ↦ Run.fail ]

-- OnRun: the rounds, each with the events of a call of epoll_wait.
abbrev pub is_empty : {A : Type 0} → List A → Bool
is_empty [] = true
is_empty (_ ∷ _) = false

module _ {S : Type 0} (storage : StorageApi S) where
  -- `busy` says that the wake-up before had events.
  pub on_run : Bool → List (List Event) → Server → Cmd S Handled
  unfolding wake_up
  on_run busy [] v = Run.pure (handled v)
  on_run busy (events ∷ rounds) v =
      if v.run || (busy && not (is_empty v.conns))
      then (do
        h ← wake_up storage events v
        elim h [
          | handled u ↦ on_run (not (is_empty events)) rounds u
          | threw u ↦ Run.pure (threw u)
        ])
      else Run.pure (handled v)
