-- ===== src/Network/Connection.antt =====
-- src/network/st_nonblocking/Connection.h and Connection.cpp: a client's connection. The socket is
-- outside: what `read` returns and how much `writev` takes are arguments. The log is left out.
pub mod Loop
pub mod Drain
pub mod Write
pub mod Request
pub mod SetRequest
pub mod Pieces
use Prim.Native.Nat.{min}
use ts_sem.Prelude.{
  ℕ, zero, suc, ◌+◌, ◌-◌, Bool, true, false, Option, none, some, List, [], ◌∷◌, ◌++◌, ◌==◌, ltb,
  leb, if◌then◌else◌, length, take, drop,
}
use ts_sem.Prelude.Bytes.{Bytes}
use ts_sem.Run
use ts_sem.Run.{Cmd, out_of_fuel, ◌>>=◌}
use ts_sem.Storage.Api.{StorageApi}
use ts_sem.Storage.Lru.Memory.{add64}
use ts_sem.Execute.{Command, execute, crlf}
use ts_sem.Protocol.Parser
use ts_sem.Protocol.Parser.{Parser, Parsed, Built, parse, build, reset}

-- The masks under which epoll watches; `no_events` before Start.
pub data Events : Type 0 where
  no_events rd wr rdwr : Events

-- `buffer` is the first `readed_bytes` bytes of `client_buffer`.
pub record Connection : Type 0 where
  pub events : Events
  pub alive : Bool
  pub arg_remains : ℕ
  pub parser : Parser
  pub argument : Bytes
  pub command : Option Command
  pub responses : List Bytes
  pub data_start : ℕ
  pub buffer : Bytes

unfoldable pub start : Connection → Connection
start c = record c { events = Events.rd; alive = true }

-- `if (alive) alive = false`
unfoldable pub on_error : Connection → Connection
on_error c = record c { alive = false }

unfoldable pub on_close : Connection → Connection
on_close c = record c { alive = false }

-- Where the code stands: it goes on, leaves the inner loop, returns, or an exception is on its way.
pub data Progress : Type 0 where
  go_on leave stop threw : Connection → Progress

pub consume : ℕ → Connection → Progress
consume n c = if n == 0 then leave c else go_on (record c { buffer = drop n c.buffer })

pub with_line_end : ℕ → ℕ
with_line_end n = if ltb 0 n then add64 n 2 else n

module _ {S : Type 0} where
  -- A command line is complete after `n` bytes.
  pub on_built : Connection → ℕ → Built → Cmd S Progress
  unfolding consume with_line_end
  on_built c n (Parser.built o body) =
      Run.pure (consume n (record c { command = o; arg_remains = with_line_end body }))
  -- Build has set its argument when it throws.
  on_built c n (Parser.build_threw e) = Run.pure (threw (record c { arg_remains = c.parser.bytes }))
  on_built c n Parser.build_undefined = Run.fail

  pub on_parsed : Connection → Parsed → Cmd S Progress
  unfolding on_built consume
  on_parsed c (Parser.done q n) =
      let d : Connection = record c { parser = q } in
      if q.parse_complete then on_built d n (build q c.arg_remains) else Run.pure (consume n d)
  on_parsed c (Parser.threw q e) = Run.pure (threw (record c { parser = q }))
  on_parsed c Parser.overflowed = Run.fail

  pub get_command : Connection → Cmd S Progress
  unfolding on_parsed
  get_command c = elim c.command [
    | none ↦ on_parsed c (parse c.buffer c.parser)
    | some _ ↦ Run.pure (go_on c)
  ]

pub fill : ℕ → Connection → Connection
fill n c = record c {
  argument = c.argument ++ take n c.buffer;
  buffer = drop n c.buffer;
  arg_remains = c.arg_remains - n;
}

-- The argument of the command that waits for it.
pub fill_argument : Connection → Connection
unfolding fill
fill_argument c = elim c.command [
  | none ↦ c
  | some _ ↦ if ltb 0 c.arg_remains then fill (min c.arg_remains (length c.buffer)) c else c
]

-- The reply is queued, and the next command awaited.
unfoldable pub respond : Bytes → Connection → Connection
respond reply c = record c {
  responses = c.responses ++ (reply ++ crlf) ∷ [];
  command = none;
  argument = [];
  parser = reset c.parser;
}

-- `running n` is what a load of the server's flag `run` gives when `n` responses are queued.
module _ {S : Type 0} (storage : StorageApi S) (running : ℕ → Bool) where
  unfoldable pub run_command : Connection → Cmd S Progress
  unfolding respond
  run_command c = elim c.command [
    | none ↦ Run.pure (go_on c)
    | some command ↦
        if c.arg_remains == 0
        then (do
          reply ← execute storage command c.argument
          let d = respond reply c
          Run.pure (if running (length d.responses) then go_on d else stop d))
        else Run.pure (go_on c)
  ]

-- The loops, with what becomes of a command that may be complete.
module _ {S : Type 0} (answer : Connection → Cmd S Progress) where
  pub after_command : Progress → Cmd S Progress
  unfolding fill_argument
  after_command (go_on c) = answer (fill_argument c)
  after_command p = Run.pure p

  -- The body of `while (readed_bytes > 0)`
  pub round : Connection → Cmd S Progress
  unfolding get_command after_command
  round c = do p ← get_command c; after_command p

  -- Where the loop goes after a round. A `break` ends it as the condition does.
  abbrev pub again : (Connection → Cmd S Progress) → Progress → Cmd S Progress
  again loop (go_on c) = loop c
  again loop (leave c) = Run.pure (go_on c)
  again loop p = Run.pure p

  pub process : ℕ → Connection → Cmd S Progress
  unfolding round
  process zero c = λ s. out_of_fuel
  process (suc fuel) c =
      if ltb 0 (length c.buffer)
      then (do p ← round c; again (process fuel) p)
      else Run.pure (go_on c)

  abbrev pub next_read : (Connection → Cmd S Progress) → Progress → Cmd S Progress
  next_read loop (go_on c) = loop c
  next_read loop p = Run.pure p

  -- The loop over `read`, which returns the byte strings of the list and then no more. A round of the
  -- inner loop takes a byte at least.
  pub read_loop : List Bytes → Connection → Cmd S Progress
  unfolding process
  read_loop [] c = Run.pure (go_on c)
  read_loop ([] ∷ reads) c = Run.pure (go_on c)
  read_loop ((x ∷ xs) ∷ reads) c =
      let d : Connection = record c { buffer = c.buffer ++ x ∷ xs } in
      do p ← process (suc (length d.buffer)) d; next_read (read_loop reads) p

abbrev pub set_events : Progress → Connection
set_events (go_on c) = record c {
  events = elim c.responses [ [] ↦ Events.rd | _ ∷ _ ↦ Events.rdwr ];
}
set_events (leave c) = c
set_events (stop c) = record c { events = Events.wr }
set_events (threw c) = c

module _ {S : Type 0} (storage : StorageApi S) (running : ℕ → Bool) where
  unfoldable pub do_read : List Bytes → Connection → Cmd S Connection
  unfolding run_command read_loop
  do_read reads c = do p ← read_loop (run_command storage running) reads c; Run.pure (set_events p)
