-- ===== src/Network/Connection/Request.antt =====
-- A command line and its argument in one read: from the bytes to the command on the storage.
use Prim.Native.Nat.{min}
use ts_sem.Prelude.{
  ℕ, suc, ◌+◌, ◌-◌, ◌^◌, ◌<◌, ◌≡◌, refl, sym, ap, ◌∙◌, Bool, true, false, none, some, List, [], ◌∷◌,
  ◌++◌, ◌==◌, if◌then◌else◌, length, drop, take_all, drop_all, arith, lt→ltb,
}
use ts_sem.Prelude.Bytes.{Bytes}
use ts_sem.Run
use ts_sem.Run.{Run, Cmd, ok}
use ts_sem.Storage.Api.{StorageApi}
use ts_sem.Execute.{Command, execute, crlf}
use ts_sem.Protocol.Parser.{Parser, parse, build, reset, fresh, done, built}
use ts_sem.Network.Connection.{
  Connection, Progress, Events, go_on, again, consume, with_line_end, on_built, on_parsed,
  get_command, fill, fill_argument, respond, run_command, after_command, round, process, next_read,
  read_loop, set_events,
}

with_line_end_small : (n : ℕ) → 0 < n → n < 2 ^ 32 → with_line_end n ≡ n + 2
unfolding with_line_end
with_line_end_small n positive small = rw (lt→ltb 0 n positive) (omega (arith, small))

pub consume_some :
    (k : ℕ) (c : Connection) → 0 < k → consume k c ≡ go_on (record c { buffer = drop k c.buffer })
unfolding consume
consume_some k c positive =
    let nonzero : (k == 0) ≡ false = ground (arith, positive) in rw nonzero refl

module _ {S : Type 0} (answer : Connection → Cmd S Progress) (c : Connection) where
  -- The command that a line has built, before its argument is there.
  abbrev begun : Command → ℕ → Parser → Bytes → Connection
  begun m n q arg = record c { command = some m; arg_remains = n + 2; parser = q; buffer = arg }

  -- A round on a complete line with the argument behind it.
  round_line :
      (line arg : Bytes) (m : Command) (q p : Parser) (k n : ℕ) (s : S)
      → parse line p ≡ done q k
      → q.parse_complete ≡ true
      → build q c.arg_remains ≡ built (some m) n
      → 0 < k
      → 0 < n
      → n < 2 ^ 32
      → drop k line ≡ arg
      → round answer (record c { command = none; parser = p; buffer = line }) s
        ≡ answer (fill_argument (begun m n q arg)) s
  unfolding round get_command on_parsed on_built after_command consume with_line_end
  round_line line arg m q p k n s parsed complete made positive some_n small cut =
      let d : Connection = record c { command = none; parser = q; buffer = line } in
      let e : Connection = record d { command = some m; arg_remains = n + 2 } in
      ap
        (λ r.
          Run.and_then (on_parsed (record c { command = none; parser = p; buffer = line }) r s)
            (after_command answer))
        parsed
      ∙ ap
          (λ b.
            Run.and_then
              ((if b then on_built d k (build q c.arg_remains) else Run.pure (consume k d)) s)
              (after_command answer))
          complete
      ∙ ap (λ r. Run.and_then (on_built d k r s) (after_command answer)) made
      ∙ ap
          (λ a. after_command answer (consume k (record d { command = some m; arg_remains = a })) s)
          (with_line_end_small n some_n small)
      ∙ ap (λ p. after_command answer p s) (consume_some k e positive)
      ∙ ap (λ b. answer (fill_argument (record e { buffer = b })) s) cut

-- The command with its argument, all of which is there.
abbrev filled : Connection → Command → Parser → Bytes → Connection
filled c m q arg = record c {
  command = some m;
  arg_remains = 0;
  parser = q;
  argument = arg;
  buffer = [];
}

fill_argument_all :
    (c : Connection) (m : Command) (q : Parser) (arg : Bytes)
    → c.argument ≡ []
    → 0 < length arg
    → fill_argument
        (record c { command = some m; arg_remains = length arg; parser = q; buffer = arg })
      ≡ filled c m q arg
unfolding fill_argument fill
fill_argument_all c m q arg none_yet positive =
    let all : min (length arg) (length arg) ≡ length arg = omega arith in
    let rest : length arg - length arg ≡ 0 = omega arith in
    rw (lt→ltb 0 (length arg) positive, all, take_all, drop_all, rest, none_yet) refl

-- A connection that waits for a command, with nothing in its buffer.
abbrev pub waiting : Connection → Bool → Connection
waiting c b = record c { command = none; argument = []; parser = fresh b; buffer = [] }

-- It has one more reply to write, and then epoll is to watch for that.
abbrev pub queued : Connection → Bytes → Connection
queued c reply = record (waiting c false) {
  arg_remains = 0;
  responses = c.responses ++ (reply ++ crlf) ∷ [];
}

abbrev pub replied : Connection → Bytes → Connection
replied c reply = record (queued c reply) { events = Events.rdwr }

module _ {S : Type 0} (storage : StorageApi S) (c : Connection) where
  abbrev answer : Connection → Cmd S Progress
  answer = run_command storage (λ n. true)

  run_filled :
      (m : Command) (q : Parser) (arg : Bytes) (s : S)
      → answer (filled c m q arg) s
        ≡ Run.and_then
            (execute storage m arg s)
            (λ reply. Run.pure (go_on (respond reply (filled c m q arg))))
  unfolding run_command
  run_filled m q arg s = refl

  events_set :
      (rs : List Bytes) (r : Bytes)
      → (elim (rs ++ r ∷ []) as (λ _. Events) [ [] ↦ Events.rd | _ ∷ _ ↦ Events.rdwr ])
        ≡ Events.rdwr
  events_set [] r = refl
  events_set (x ∷ rs) r = refl

  -- Behind the command nothing is left to do.
  loops_end :
      (fuel : ℕ) (m : Command) (q : Parser) (arg : Bytes) (run : Run S Bytes)
      → reset q ≡ fresh false
      → Run.and_then
          (Run.and_then
            (Run.and_then run (λ reply. Run.pure (go_on (respond reply (filled c m q arg)))))
            (again answer (process answer (suc fuel))))
          (next_read answer (read_loop answer []))
        ≡ Run.and_then run (λ reply. Run.pure (go_on (queued c reply)))
  unfolding process read_loop respond
  loops_end fuel m q arg (ok reply t) e =
      ap (λ p. ok (go_on (record (queued c reply) { parser = p })) t) e
  loops_end fuel m q arg Run.fault e = refl
  loops_end fuel m q arg Run.out_of_fuel e = refl

  -- What DoRead makes of the queued reply.
  pub queued-replied :
      (run : Run S Bytes)
      → Run.and_then
          (Run.and_then run (λ reply. Run.pure (go_on (queued c reply))))
          (λ p. Run.pure (set_events p))
        ≡ Run.and_then run (λ reply. Run.pure (replied c reply))
  queued-replied (ok reply t) =
      ap (λ w. ok (record (queued c reply) { events = w }) t)
        (events_set c.responses (reply ++ crlf))
  queued-replied Run.fault = refl
  queued-replied Run.out_of_fuel = refl

  -- A line and the argument behind it in one read.
  pub read_loop_line :
      (x : ℕ) (xs arg : Bytes) (m : Command) (q : Parser) (b : Bool) (k n : ℕ) (s : S)
      → parse (x ∷ xs) (fresh b) ≡ done q k
      → q.parse_complete ≡ true
      → build q c.arg_remains ≡ built (some m) n
      → 0 < k
      → 0 < n
      → n < 2 ^ 32
      → drop k (x ∷ xs) ≡ arg
      → length arg ≡ n + 2
      → reset q ≡ fresh false
      → read_loop answer ((x ∷ xs) ∷ []) (waiting c b) s
        ≡ Run.and_then (execute storage m arg s) (λ reply. Run.pure (go_on (queued c reply)))
  unfolding read_loop process
  read_loop_line x xs arg m q b k n s parsed complete made positive some_n small cut long
        again_new =
      let here : Connection = record (waiting c b) { buffer = x ∷ xs } in
      let then_again : Progress → Cmd S Progress =
        again answer (process answer (suc (length xs))) in
      let onward : Run S Progress → Run S Progress =
        λ r. Run.and_then r (next_read answer (read_loop answer [])) in
      ap
        (λ t. onward (
          (if t
              then (λ u. Run.and_then (round answer here u) then_again)
              else Run.pure (go_on here))
            s))
        (lt→ltb 0 (suc (length xs)) (omega arith))
      ∙ ap (λ r. onward (Run.and_then r then_again))
          (round_line answer (waiting c b) (x ∷ xs) arg m q (fresh b) k n s parsed complete made
              positive some_n small cut
            ∙ ap
                (λ a.
                  answer
                    (fill_argument (record (waiting c b) {
                      command = some m;
                      arg_remains = a;
                      parser = q;
                      buffer = arg;
                    }))
                    s)
                (sym long)
            ∙ ap (λ d. answer d s)
                (fill_argument_all (waiting c b) m q arg refl (omega (arith, long)))
            ∙ run_filled m q arg s)
      ∙ loops_end (length xs) m q arg (execute storage m arg s) again_new
