-- ===== src/Network/Connection/Pieces/Second.antt =====
-- The second piece of a line, when the first is read.
use ts_sem.Prelude.{
  ℕ, ◌+◌, ◌<◌, ◌≡◌, refl, ap, ◌∙◌, Bool, true, false, none, ◌++◌, ◌==◌, if◌then◌else◌, length, drop,
  arith, drop_prefix,
}
use ts_sem.Prelude.Bytes.{Bytes}
use ts_sem.Run
use ts_sem.Run.{Run, Cmd, ok, fault, out_of_fuel}
use ts_sem.Protocol.Parser
use ts_sem.Protocol.Parser.{Parser, Parsed, Built, parse, build}
use ts_sem.Protocol.Parser.Stream.{shift}
use ts_sem.Protocol.Parser.Progress.{Advances}
use ts_sem.Network.Connection.{
  Connection, Progress, fill_argument, after_command, on_parsed, on_built, consume, with_line_end,
}
use ts_sem.Network.Connection.Pieces.{Same, blurred}

module _ {S : Type 0} (answer : Connection → Cmd S Progress) where
  -- All of the first piece was read, and no line is complete.
  module _ (k : ℕ) (c : Connection) (q : Parser) (b : Bytes) (s : S)
      (whole : k ≡ length c.buffer) where
    abbrev next_piece : Connection
    next_piece = record c { command = none; parser = q; buffer = b }

    abbrev both_pieces : Connection
    both_pieces = record c { command = none; buffer = c.buffer ++ b }

    rest_drop : (n : ℕ) → drop (k + n) (c.buffer ++ b) ≡ drop n b
    rest_drop n = ap (λ j. drop (j + n) (c.buffer ++ b)) whole ∙ drop_prefix c.buffer b n

    consumed-Same :
        (d : Connection) (n : ℕ)
        → 0 < n
        → Same
            (after_command answer (consume (k + n) (record d { buffer = c.buffer ++ b })) s)
            (after_command answer (consume n (record d { buffer = b })) s)
    unfolding after_command consume
    consumed-Same d n positive =
        let nonzero : (n == 0) ≡ false = ground (arith, positive) in
        let nonzero' : (k + n == 0) ≡ false = ground (arith, positive) in
        rw (nonzero, nonzero')
          (ap (λ x. blurred (answer (fill_argument (record d { buffer = x })) s)) (rest_drop n))

    built-Same :
        (r : Built) (p : Parser) (n : ℕ)
        → 0 < n
        → Same
            (Run.and_then
              (on_built (record both_pieces { parser = p }) (k + n) r s)
              (after_command answer))
            (Run.and_then
              (on_built (record next_piece { parser = p }) n r s)
              (after_command answer))
    unfolding on_built after_command
    built-Same (Parser.built o body) p n positive =
        consumed-Same (record c { command = o; arg_remains = with_line_end body; parser = p }) n
          positive
    built-Same (Parser.build_threw e) p n positive = refl
    built-Same Parser.build_undefined p n positive = refl

    chosen-Same :
        (t : Bool) (p : Parser) (n : ℕ)
        → 0 < n
        → Same
            (Run.and_then
              ((if t
                  then on_built (record both_pieces { parser = p }) (k + n) (build p c.arg_remains)
                  else Run.pure (consume (k + n) (record both_pieces { parser = p })))
                s)
              (after_command answer))
            (Run.and_then
              ((if t
                  then on_built (record next_piece { parser = p }) n (build p c.arg_remains)
                  else Run.pure (consume n (record next_piece { parser = p })))
                s)
              (after_command answer))
    chosen-Same true p n positive = built-Same (build p c.arg_remains) p n positive
    chosen-Same false p n positive =
        consumed-Same (record c { command = none; parser = p }) n positive

    pub parsed-Same :
        (r : Parsed)
        → Advances b r
        → Same
            (Run.and_then (on_parsed both_pieces (shift k r) s) (after_command answer))
            (Run.and_then (on_parsed next_piece r s) (after_command answer))
    unfolding on_parsed after_command
    parsed-Same (Parser.done p n) (positive, le, line) = chosen-Same p.parse_complete p n positive
    parsed-Same (Parser.threw p e) h = refl
    parsed-Same Parser.overflowed h = refl
