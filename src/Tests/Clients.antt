-- ===== src/Tests/Clients.antt =====
-- A client's connection over the cache of Cache.antt: runs of DoRead and DoWrite.
use ts_sem.Prelude.{◌≡◌, ◌≢◌, refl, true, false, none, List, [], ◌∷◌, ◌++◌, ◌==◌, arith, take}
use ts_sem.Prelude.Bytes.{Bytes, codes}
use ts_sem.Prelude.Int.{pos}
use ts_sem.Run
use ts_sem.Run.{ok, Within}
use ts_sem.Execute.{Command, execute}
use ts_sem.Network.Connection.Request.{waiting, replied}
use ts_sem.Network.Connection.Pieces.{Same}
use ts_sem.Network.Connection.Pieces.Requests.{do_read-set, read_loop_pieces}
use ts_sem.Storage.Api.{lru_api}
use ts_sem.Tests.Cache.{state}
use ts_sem.Protocol.Parser.{fresh}
use ts_sem.Network.Connection.{Connection, Events, run_command, read_loop, do_read}
use ts_sem.Network.Connection.Loop.{Awaits, Drained}
use ts_sem.Network.Connection.Drain.{Exhausts, Reached, read_loop-Drained}
use ts_sem.Network.Connection.Write.{do_write, do_write-sends, offered, pending, StartsIn, accepted}

abbrev pub client : Connection
client = record {
  events = Events.rd;
  alive = true;
  arg_remains = 0;
  parser = fresh false;
  argument = [];
  command = none;
  responses = [];
  data_start = 0;
  buffer = [];
}

abbrev input : List Bytes
input = codes "set a 0 0 2\r\nx" ∷ (codes "y\r\nget a\r\n" ∷ [])

abbrev pub answering : Connection
answering = record client {
  responses = codes "STORED\r\n" ∷ (codes "END\r\n" ∷ []);
  data_start = 3;
}

read_loop-Drained_example :
    Within
      (Exhausts lru_api state)
      (read_loop (run_command lru_api (λ n. true)) input client state)
      (λ p t. Drained Awaits p × Reached lru_api state t)
unfolding fresh
read_loop-Drained_example = read_loop-Drained lru_api (λ n. true) input client state refl refl

do_write-sends_example :
    (d : Connection) × (do_write true (accepted 6) answering tt ≡ ok d tt)
    × (take 6 (offered answering) ++ pending d ≡ pending answering)
    × StartsIn d.data_start d.responses
    × (d.responses ≡ [] → d.events ≡ Events.rd)
    × (d.responses ≢ [] → d.events ≡ Events.rdwr)
unfolding offered
do_write-sends_example =
    do_write-sends answering (omega arith) true 6 (omega arith) (omega arith) (λ e. cc)

-- The value of the request is "xy" with the line end behind it.
do_read-set_example :
    do_read lru_api
      (λ n. true)
      (codes "set a 7" ∷ (codes " 0 2\r\nx" ∷ (codes "y\r\n" ∷ [])))
      (waiting client true)
      state
    ≡ Run.and_then
        (execute lru_api
          (Command.set (record { key = codes "a"; flags = 7; expire = pos 0 }))
          (codes "xy\r\n")
          state)
        (λ reply. Run.pure (replied client reply))
do_read-set_example =
    do_read-set lru_api client (codes "a") (codes "7") 48 [] (codes "2") (codes "xy") true state
      (refl, refl, tt) (refl, tt) (omega arith) (refl, tt) (omega arith) (refl, tt) (omega arith)
      refl (omega arith) (codes "set a 7") (codes " 0 2\r\nx" ∷ (codes "y\r\n" ∷ [])) (omega arith)
      (omega arith, (omega arith, tt)) refl

-- The server stops behind the first reply.
read_loop_pieces_example :
    Same
      (read_loop (run_command lru_api (λ n. n == 0)) (codes "get a\r\nget b\r\n" ∷ []) client state)
      (read_loop
        (run_command lru_api (λ n. n == 0))
        (codes "get a\r" ∷ (codes "\nget " ∷ (codes "b\r\n" ∷ [])))
        client
        state)
unfolding fresh
read_loop_pieces_example =
    read_loop_pieces lru_api (λ n. n == 0) (codes "get a\r") (codes "\nget " ∷ (codes "b\r\n" ∷ []))
      client state refl (omega arith) (omega arith, (omega arith, tt))
