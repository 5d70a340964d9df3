-- ===== src/Network/Connection/Pieces/Requests.antt =====
-- DoRead in pieces, over a storage.
use ts_sem.Prelude.{
  ℕ, ◌-◌, ◌^◌, ◌<◌, ◌≡◌, refl, sym, ap, subst, ◌∙◌, Bool, true, List, [], ◌∷◌, ◌++◌, length,
}
use ts_sem.Prelude.Bytes.{Bytes, codes}
use ts_sem.Prelude.Int.{pos}
use ts_sem.Run
use ts_sem.Run.{Run, Cmd, ok, fault, out_of_fuel}
use ts_sem.Storage.Api.{StorageApi}
use ts_sem.Execute.{Command, execute, crlf}
use ts_sem.Protocol.Parser.{fresh}
use ts_sem.Protocol.Parser.Fields.{IsWord, IsDigits, value, digit_sum}
use ts_sem.Protocol.Parser.Lines.{put_line}
use ts_sem.Network.Connection.{
  Connection, Progress, go_on, leave, stop, threw, run_command, read_loop, set_events, do_read,
}
use ts_sem.Network.Connection.Loop.{Awaits}
use ts_sem.Network.Connection.Request.{waiting, queued, replied, queued-replied}
use ts_sem.Network.Connection.SetRequest.{performed, read_loop-set}
use ts_sem.Network.Connection.Pieces.{Same, blurred}
use ts_sem.Network.Connection.Pieces.Round.{round-Splits}
use ts_sem.Network.Connection.Pieces.Reads.{IsPieces, joined, read_loop-joined}
use ts_sem.Network.Connection.Pieces.Answer.{run_command-Uniform, run_command-Idles}
use ts_sem.Network.Connection.Drain.{any_command_waits}

-- A run that goes on is known by its blurred result.
reflect_go_on :
    {S : Type 0} (r : Run S Progress) (d : Connection) (t : S)
    → blurred r ≡ ok (go_on d) t
    → r ≡ ok (go_on d) t
reflect_go_on (ok (go_on e) u) d t h = h
reflect_go_on (ok (leave e) u) d t h = cc
reflect_go_on (ok (stop e) u) d t h = cc
reflect_go_on (ok (threw e) u) d t h = cc
reflect_go_on fault d t h = cc
reflect_go_on out_of_fuel d t h = cc

reflect_fault : {S : Type 0} (r : Run S Progress) → blurred r ≡ fault → r ≡ fault
reflect_fault (ok p u) h = cc
reflect_fault fault h = refl
reflect_fault out_of_fuel h = cc

reflect_out_of_fuel : {S : Type 0} (r : Run S Progress) → blurred r ≡ out_of_fuel → r ≡ out_of_fuel
reflect_out_of_fuel (ok p u) h = cc
reflect_out_of_fuel fault h = cc
reflect_out_of_fuel out_of_fuel h = refl

reflect :
    {S A : Type 0} (f : A → Connection) (run : Run S A) (r : Run S Progress)
    → Same (Run.and_then run (λ a. Run.pure (go_on (f a)))) r
    → r ≡ Run.and_then run (λ a. Run.pure (go_on (f a)))
reflect f (ok a t) r h = reflect_go_on r (f a) t (sym h)
reflect f fault r h = reflect_fault r (sym h)
reflect f out_of_fuel r h = reflect_out_of_fuel r (sym h)

module _ {S : Type 0} (storage : StorageApi S) where
  -- Over any storage, from a connection that waits for the rest of a line or of an argument,
  -- whatever the bytes and the server's flag: the loops of DoRead do the same with the bytes in any
  -- non-empty pieces that the calls of read return as with all of them in one, up to what stays in
  -- the buffer after a stop or an exception.
  pub read_loop_pieces :
      (running : ℕ → Bool) (a : Bytes) (bs : List Bytes) (c : Connection) (s : S)
      → Awaits c
      → 0 < length a
      → IsPieces bs
      → Same
          (read_loop (run_command storage running) ((a ++ joined bs) ∷ []) c s)
          (read_loop (run_command storage running) (a ∷ bs) c s)
  read_loop_pieces running a bs c s w ha h =
      let answer = run_command storage running in
      read_loop-joined (Unit {0}) Awaits answer (any_command_waits storage running)
        (round-Splits answer (run_command-Uniform storage running)
          (run_command-Idles storage running))
        a bs c s w ha h

  -- Over any storage, while the server runs, from a connection that waits for a command: a Set
  -- line, with a word as key, digits for flags, expiration time and size that stay below 2^32, 2^31
  -- as a digit sum, and 2^32, and behind it as many bytes as announced, at least one, and a line
  -- end, all of it in any non-empty pieces that the calls of read return, does what the Set command
  -- does with these bytes and the line end as its argument, and leaves a connection that waits for
  -- a command, with the reply queued.
  pub do_read-set :
      (c : Connection) (key flags : Bytes) (e : ℕ) (es size body : Bytes) (b : Bool) (s : S)
      → IsWord key
      → IsDigits flags
      → value 0 flags < 2 ^ 32
      → IsDigits (e ∷ es)
      → digit_sum (e - b'0') es < 2 ^ 31
      → IsDigits size
      → value 0 size < 2 ^ 32
      → length body ≡ value 0 size
      → 0 < length body
      → (p : Bytes) (ps : List Bytes) → 0 < length p
      → IsPieces ps
      → p ++ joined ps ≡ put_line (codes "set") key flags e es size (body ++ crlf)
      → do_read storage (λ n. true) (p ∷ ps) (waiting c b) s
        ≡ Run.and_then
            (execute storage
              (Command.set (record {
                key = key;
                flags = value 0 flags;
                expire = pos (digit_sum (e - b'0') es);
              }))
              (body ++ crlf)
              s)
            (λ reply. Run.pure (replied c reply))
  unfolding do_read fresh
  do_read-set c key flags e es size body b s kw fd fs ed esm sd ss announced positive p ps hp h
        whole =
      let answer = run_command storage (λ n. true) in
      let run =
        performed storage c key flags e es size body b s kw fd fs ed esm sd ss announced positive in
      let line =
        read_loop-set storage c key flags e es size body b s kw fd fs ed esm sd ss announced
          positive in
      let one : read_loop answer ((p ++ joined ps) ∷ []) (waiting c b) s
          ≡ Run.and_then run (λ reply. Run.pure (go_on (queued c reply))) =
        ap (λ x. read_loop answer (x ∷ []) (waiting c b) s) whole ∙ line in
      let pieces : read_loop answer (p ∷ ps) (waiting c b) s
          ≡ Run.and_then run (λ reply. Run.pure (go_on (queued c reply))) =
        reflect (queued c) run (read_loop answer (p ∷ ps) (waiting c b) s) (
          subst (λ r. Same r (read_loop answer (p ∷ ps) (waiting c b) s)) one
            (read_loop_pieces (λ n. true) p ps (waiting c b) s refl hp h)) in
      ap (λ r. Run.and_then r (λ q. Run.pure (set_events q))) pieces ∙ queued-replied storage c run
