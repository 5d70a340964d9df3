-- ===== src/Network/Connection/Pieces/Round.antt =====
-- A round of the inner loop on input that comes in two pieces.
use ts_sem.Prelude.{
  ℕ, ◌≤◌, ◌<◌, ◌≡◌, refl, sym, ap, subst, ◌∙◌, ◌⊎◌, inl, inr, Bool, true, false, Option, none, some,
  [], ◌==◌, if◌then◌else◌, length, drop, arith, Bool-cases, drop-append, drop_all,
}
use ts_sem.Prelude.Bytes.{Bytes}
use ts_sem.Run
use ts_sem.Run.{Run, Cmd, ok, fault, out_of_fuel}
use ts_sem.Execute.{Command}
use ts_sem.Protocol.Parser
use ts_sem.Protocol.Parser.{Parser, Parsed, Built, parse, build}
use ts_sem.Protocol.Parser.Stream.{
  and_then_parse, shift, parse-append, complete_stops, Counts, parse-Counts,
}
use ts_sem.Protocol.Parser.Progress.{Advances, parse-Advances}
use ts_sem.Network.Connection.{
  Connection, Progress, go_on, fill_argument, round, get_command, after_command, on_parsed,
  on_built, consume, with_line_end,
}
use ts_sem.Network.Connection.Loop.{Waits}
use ts_sem.Network.Connection.Pieces.{blurred, extend, extended, Split, Splits}
use ts_sem.Network.Connection.Pieces.Fill.{fill_argument-extend}
use ts_sem.Network.Connection.Pieces.Second.{parsed-Same}

module _ {S : Type 0} (answer : Connection → Cmd S Progress) where
  -- What is done with a command does not depend on the buffer,
  abbrev pub Uniform : Type 0
  Uniform =
      (c : Connection) (b : Bytes) (s : S)
      → answer (extend b c) s ≡ Run.and_then (answer c s) (λ p. Run.pure (extended b p))

  -- and nothing is done without a command with its argument.
  abbrev pub Idles : Type 0
  Idles =
      (c : Connection) (s : S)
      → (c.command ≡ none) ⊎ (0 < c.arg_remains)
      → answer c s ≡ ok (go_on c) s

module _ {S : Type 0} (answer : Connection → Cmd S Progress) (uniform : Uniform answer)
    (idles : Idles answer) where
  round-some :
      (m : Command) (c : Connection) (s : S)
      → c.command ≡ some m
      → round answer c s ≡ answer (fill_argument c) s
  unfolding round get_command after_command
  round-some m c s e = rw e refl

  answer-Split :
      (o : Option Command) (c : Connection) (b : Bytes) (s : S)
      → Split answer b s
          (answer (fill_argument (extend b (record c { command = o }))) s)
          (answer (fill_argument (record c { command = o })) s)
  unfolding fill_argument
  answer-Split none c b s = inl (ap blurred (uniform (record c { command = none }) b s))
  answer-Split (some m) c b s = elim (fill_argument-extend (some m) c b) [
    | inl e ↦ inl (
        ap blurred
          (ap (λ d. answer d s) e ∙ uniform (fill_argument (record c { command = some m })) b s))
    | inr (e, more, kept, f) ↦ inr (
      fill_argument (record c { command = some m }),
      idles (fill_argument (record c { command = some m })) s (inr more),
      e,
      ap (λ d. blurred (answer d s)) f
          ∙ sym (
              ap blurred
                (round-some m (extend b (fill_argument (record c { command = some m }))) s kept)),
    )
  ]

  -- A line that has built a command.
  on_built-Split :
      (r : Built) (k : ℕ) (c : Connection) (b : Bytes) (s : S)
      → 0 < k
      → k ≤ length c.buffer
      → Split answer b s
          (Run.and_then (on_built (extend b c) k r s) (after_command answer))
          (Run.and_then (on_built c k r s) (after_command answer))
  unfolding on_built after_command consume
  on_built-Split (Parser.built o body) k c b s positive le =
      let nonzero : (k == 0) ≡ false = ground (arith, positive) in
      let a = with_line_end body in
      rw nonzero (
        subst
          (λ x.
            Split answer b s
              (answer (fill_argument (record c { command = o; arg_remains = a; buffer = x })) s)
              (answer
                (fill_argument
                  (record c { command = o; arg_remains = a; buffer = drop k c.buffer }))
                s))
          (sym (drop-append k c.buffer b le))
          (answer-Split o (record c { arg_remains = a; buffer = drop k c.buffer }) b s))
  on_built-Split (Parser.build_threw e) k c b s positive le = inl refl
  on_built-Split Parser.build_undefined k c b s positive le = inl refl

  parse_stops :
      (b : Bytes) (q : Parser) (k : ℕ)
      → q.parse_complete ≡ true
      → shift k (parse b q) ≡ Parser.done q k
  unfolding parse
  parse_stops b q k e =
      ap (shift k) (complete_stops b 0 q e) ∙ ap (λ n. Parser.done q n) (omega arith)

  -- All of the first piece is taken, and the connection waits.
  all_consumed :
      (k : ℕ) (c : Connection) (s : S)
      → 0 < k
      → k ≡ length c.buffer
      → let d : Connection = record c { command = none } in
        after_command answer (consume k d) s ≡ ok (go_on (record d { buffer = [] })) s
  unfolding after_command consume fill_argument
  all_consumed k c s positive whole =
      let nonzero : (k == 0) ≡ false = ground (arith, positive) in
      let dropped : drop k c.buffer ≡ [] = ap (λ j. drop j c.buffer) whole ∙ drop_all c.buffer in
      rw nonzero (
        ap (λ x. answer (record c { command = none; buffer = x }) s) dropped
        ∙ idles (record c { command = none; buffer = [] }) s (inl refl))

  -- What follows on a parsed piece.
  abbrev continued : ℕ → Parser → S → Bool → Connection → Run S Progress
  continued k q s t c =
      Run.and_then ((if t then on_built c k (build q c.arg_remains) else Run.pure (consume k c)) s)
        (after_command answer)

  -- A line whose first piece is parsed.
  on_parsed-Split :
      (r : Parsed) (c : Connection) (b : Bytes) (s : S)
      → Advances c.buffer r
      → Counts c.buffer 0 r
      → 0 < length b
      → let d : Connection = record c { command = none } in
        Split answer b s
          (Run.and_then (on_parsed (extend b d) (and_then_parse b r) s) (after_command answer))
          (Run.and_then (on_parsed d r s) (after_command answer))
  unfolding on_parsed after_command round get_command
  on_parsed-Split (Parser.threw q e) c b s adv cnt h = inl refl
  on_parsed-Split Parser.overflowed c b s adv cnt h = inl refl
  on_parsed-Split (Parser.done q k) c b s (positive, le, line) (_, _, all) h =
      let d : Connection = record c { command = none; parser = q } in
      elim (Bool-cases q.parse_complete) [
        | inl e ↦
            subst
              (λ r.
                Split answer b s
                  (Run.and_then (on_parsed (extend b (record c { command = none })) r s)
                    (after_command answer))
                  (continued k q s q.parse_complete d))
              (sym (parse_stops b q k e))
              (subst (λ t. Split answer b s (continued k q s t (extend b d)) (continued k q s t d))
                (sym e) (on_built-Split (build q c.arg_remains) k d b s positive le))
        | inr e ↦
            let whole : k ≡ length c.buffer = omega (arith, all e) in
            inr (
              record d { buffer = [] },
              ap (λ t. continued k q s t d) e ∙ all_consumed k d s positive whole,
              refl,
              parsed-Same answer k c q b s whole (parse b q) (parse-Advances b q e h),
            )
      ]

  round-Split_any :
      (o : Option Command) (c : Connection) (b : Bytes) (s : S)
      → Waits o c.parser c.arg_remains
      → 0 < length c.buffer
      → 0 < length b
      → Split answer b s
          (round answer (extend b (record c { command = o })) s)
          (round answer (record c { command = o }) s)
  unfolding round get_command after_command
  round-Split_any (some m) c b s w full h = answer-Split (some m) c b s
  round-Split_any none c b s w full h =
      let d : Connection = record c { command = none } in
      subst
        (λ r.
          Split answer b s (Run.and_then (on_parsed (extend b d) r s) (after_command answer))
            (Run.and_then (on_parsed d (parse c.buffer c.parser) s) (after_command answer)))
        (sym (parse-append c.buffer b c.parser))
        (on_parsed-Split (parse c.buffer c.parser) c b s (parse-Advances c.buffer c.parser w full)
          (parse-Counts c.buffer c.parser) h)

  -- A round over more input goes as the round before it, or takes the place of the next one.
  pub round-Splits : Splits answer
  round-Splits c b s w full h = round-Split_any c.command c b s w full h
