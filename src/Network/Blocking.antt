-- ===== src/Network/Blocking.antt =====
-- src/network/st_blocking/ServerImpl.cpp and src/network/mt_blocking/ServerImpl.cpp: a client is
-- served by reads that block, and replies are sent at once. The state of a client is the `Connection`
-- of the non-blocking server without its events: `responses` are the replies that `send` took.
use ts_sem.Prelude.{
  ℕ, suc, Bool, ◌||◌, Option, none, some, List, [], ◌∷◌, ◌==◌, if◌then◌else◌, length, is_some,
}
use ts_sem.Prelude.Bytes.{Bytes}
use ts_sem.Run
use ts_sem.Run.{Cmd, ◌>>=◌}
use ts_sem.Storage.Api.{StorageApi}
use ts_sem.Execute.{execute}
use ts_sem.Protocol.Parser.{reset}
use ts_sem.Executor
use ts_sem.Executor.{Executor}
use ts_sem.Network.Connection.{
  Connection, Progress, go_on, leave, stop, threw, respond, process, next_read,
}

-- The connection when the loops are left, in whatever way.
abbrev pub left_with : Progress → Connection
left_with (go_on c) = c
left_with (leave c) = c
left_with (stop c) = c
left_with (threw c) = c

-- "Prepare for the next command", behind the `catch`
pub clean_up : Connection → Connection
clean_up c = record c { command = none; argument = []; parser = reset c.parser }

-- What a client got, and the state behind it.
abbrev pub served : Progress → List Bytes × Connection
served p = ((left_with p).responses, clean_up (left_with p))

-- `sends n` is whether `send` takes the `n`-th reply.
module _ {S : Type 0} (storage : StorageApi S) (sends : ℕ → Bool) where
  pub send_reply : Connection → Cmd S Progress
  send_reply c = elim c.command [
    | none ↦ Run.pure (go_on c)
    | some command ↦
        if c.arg_remains == 0
        then (do
          reply ← execute storage command c.argument
          let d = respond reply c
          Run.pure (if sends (length d.responses) then go_on d else threw c))
        else Run.pure (go_on c)
  ]

  -- The loop over `read` in the single-threaded server. Every read starts at the buffer's beginning.
  pub st_read_loop : List Bytes → Connection → Cmd S Progress
  unfolding send_reply
  st_read_loop [] c = Run.pure (go_on c)
  st_read_loop ([] ∷ reads) c = Run.pure (go_on c)
  st_read_loop ((x ∷ xs) ∷ reads) c =
      let d : Connection = record c { buffer = x ∷ xs } in
      do
        p ← process send_reply (suc (length d.buffer)) d
        next_read send_reply (st_read_loop reads) p

  -- A client of the single-threaded server, with a new socket.
  pub st_serve : List Bytes → Connection → Cmd S (List Bytes × Connection)
  unfolding st_read_loop clean_up
  st_serve reads c = do p ← st_read_loop reads (record c { responses = [] }); Run.pure (served p)

  -- OnRun of the single-threaded server: what `accept` returns while the server runs, with the reads
  -- of each client, or an error. The state is the one of the client before.
  pub st_on_run : List (Option (List Bytes)) → Connection → Cmd S (List (List Bytes) × Connection)
  unfolding st_serve
  st_on_run [] c = Run.pure ([], c)
  st_on_run (none ∷ accepts) c = st_on_run accepts c
  st_on_run (some reads ∷ accepts) c = do
    r ← st_serve reads c
    rest ← st_on_run accepts r.1
    Run.pure (r.0 ∷ rest.0, rest.1)

  -- The same loop in ProcessConnection of the multithreaded server. The Boolean beside a read is the
  -- flag `running` after it: a server that stops goes on with a command that has begun.
  pub mt_read_loop : List (Bytes × Bool) → Connection → Cmd S Progress
  mt_read_loop [] c = Run.pure (go_on c)
  mt_read_loop (([], running) ∷ reads) c = Run.pure (go_on c)
  mt_read_loop ((x ∷ xs, running) ∷ reads) c =
      let d : Connection = record c { buffer = x ∷ xs } in
      if running || is_some c.command
      then (do
        p ← process send_reply (suc (length d.buffer)) d
        next_read send_reply (mt_read_loop reads) p)
      else Run.pure (go_on c)

  pub process_connection : List (Bytes × Bool) → Connection → Cmd S (List Bytes × Connection)
  unfolding mt_read_loop
  process_connection reads c = do p ← mt_read_loop reads c; Run.pure (served p)

-- OnRun of the multithreaded server: what `accept` returns while the server runs, a socket or an
-- error, each with what other threads do to the pool before. A socket that the pool refuses is
-- closed; the second part of the result is the list of these.
pub mt_on_run : List ((Executor ℕ → Executor ℕ) × Option ℕ) → Executor ℕ → Executor ℕ × List ℕ
mt_on_run [] pool = (pool, [])
mt_on_run ((others, none) ∷ accepts) pool = mt_on_run accepts (others pool)
mt_on_run ((others, some socket) ∷ accepts) pool =
    let r = Executor.execute socket (others pool) in
    let rest = mt_on_run accepts r.1 in (rest.0, if r.0.0 then rest.1 else socket ∷ rest.1)
