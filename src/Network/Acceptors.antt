-- ===== src/Network/Acceptors.antt =====
-- src/network/mt_nonblocking/ServerImpl.cpp: OnRun of an acceptor, and Join. What epoll and accept
-- return is an argument, and so is what the other acceptor and the workers do to the flag and the
-- clients in between. The list of clients stands for the set `conns`, in no order of its own.
use ts_sem.Prelude.{Bool, true, false, List, [], ◌∷◌, ◌++◌, if◌then◌else◌}
use ts_sem.Run
use ts_sem.Run.{Cmd}
use ts_sem.Network.Connection.{start}
use ts_sem.Network.Events.{Accepted, Client, Server, Handled, handled, threw, new_connection}

-- What other threads do to the server.
abbrev pub Others : Type 0
Others = Server → Server

-- An event of an acceptor: the stop signal, and whether the two descriptors can be removed then;
-- or sockets that wait to be accepted, each with what other threads do before.
pub data Notice : Type 0 where
  stopping : (first_removed second_removed : Bool) → Notice
  waiting : List (Others × Accepted) → Notice

-- The connection is started and registered with the workers' epoll, or deleted again.
pub mt_add_client : Accepted → List Client → List Client
unfolding new_connection start
mt_add_client a conns =
    let c = start (new_connection a.remains a.alive) in
    if a.added
    then conns ++ record { socket = a.socket; connection = c; watched = c.events } ∷ []
    else conns

-- Until accept returns an error.
pub accept_all : List (Others × Accepted) → Server → Server
unfolding mt_add_client
accept_all [] v = v
accept_all ((others, a) ∷ as') v =
    let u = others v in accept_all as' (record u { conns = mt_add_client a u.conns })

pub notice : Notice → Server → Handled
unfolding accept_all
notice (stopping true true) v = handled (record v { run = false })
notice (stopping true false) v = threw (record v { run = false })
notice (stopping false _) v = threw (record v { run = false })
notice (waiting as') v = handled (accept_all as' v)

-- The events of a wake-up. The stop signal does not end this loop.
pub notice_all : List (Others × Notice) → Server → Handled
unfolding notice
notice_all [] v = handled v
notice_all ((others, e) ∷ es) v = elim (notice e (others v)) [
  | handled u ↦ notice_all es u
  | threw u ↦ threw u
]

-- The loop of OnRun over the wake-ups, while the flag is set.
pub accept_loop : List (Others × List (Others × Notice)) → Server → Handled
unfolding notice_all
accept_loop [] v = handled v
accept_loop ((others, events) ∷ rounds) v =
    let w = others v in
    if w.run
    then (elim (notice_all events w) [ handled u ↦ accept_loop rounds u | threw u ↦ threw u ])
    else handled w

-- OnRun behind the two registrations with epoll.
pub accept_run : List (Others × List (Others × Notice)) → Server → Handled
unfolding accept_loop
accept_run rounds v = accept_loop rounds (record v { run = true })

-- The loop over `conns` in Join deletes what it stands at and then advances.
pub mt_join : {S : Type 0} → Server → Cmd S Server
mt_join v = elim v.conns [ [] ↦ Run.pure v | _ ∷ _ ↦ Run.fail ]
