-- ===== src/Network/Connection/Loop.antt =====
-- The loops of a connection, whatever becomes of its commands: they end, and nothing that was read
-- stays in the buffer.
use Prim.Native.Nat.{min}
use ts_sem.Prelude.{
  ℕ, zero, suc, ◌≤◌, ◌<◌, ◌≡◌, refl, Bool, true, false, Option, none, some, List, [], ◌∷◌, ◌++◌,
  ◌==◌, ltb, if◌then◌else◌, length, drop, arith, length-drop, Bool-cases, inl, inr, lt→ltb, ltb→lt,
  ltb→le,
}
use ts_sem.Prelude.Bytes.{Bytes}
use ts_sem.Run
use ts_sem.Run.{Run, Cmd, Within, Within-bind, Within_left}
use ts_sem.Execute.{Command}
use ts_sem.Protocol.Parser
use ts_sem.Protocol.Parser.{Parser, Parsed, Built, parse, build, reset}
use ts_sem.Protocol.Parser.Progress.{Advances, parse-Advances, Gives, build-Gives}
use ts_sem.Network.Connection.{
  Connection, Progress, go_on, leave, stop, threw, consume, with_line_end, on_built, on_parsed,
  get_command, fill, fill_argument, after_command, round, again, process, next_read, read_loop,
}

abbrev pub Waits : Option Command → Parser → ℕ → Type 0
Waits none p n = p.parse_complete ≡ false
Waits (some _) p n = 0 < n

-- Between two rounds a connection waits for the rest of a command line, or for the rest of an argument.
abbrev pub Awaits : Connection → Type 0
Awaits c = Waits c.command c.parser c.arg_remains

-- What a round of the inner loop may do with a buffer of `n` bytes: it takes some, and it never
-- leaves the loop by `break`. After a stop `Q` holds.
abbrev pub Takes : (Connection → Type 0) → ℕ → Progress → Type 0
Takes Q n (go_on d) = Awaits d × (length d.buffer < n)
Takes Q n (leave d) = ⊥
Takes Q n (stop d) = Q d
Takes Q n (threw d) = Unit {0}

-- What the inner loop leaves.
abbrev pub Drained : (Connection → Type 0) → Progress → Type 0
Drained Q (go_on d) = Awaits d × (d.buffer ≡ [])
Drained Q (leave d) = ⊥
Drained Q (stop d) = Q d
Drained Q (threw d) = Unit {0}

-- The same as `Awaits` before the command has run: a command without argument may be there.
abbrev Between : Connection → Type 0
Between d = d.command ≡ none → d.parser.parse_complete ≡ false

-- What the loops want of `answer`, for a connection whose command is `o`, from states where `G` holds.
abbrev pub Answers :
    {S : Type 0}
    → Type 0
    → (S → Type 0)
    → (Connection → Type 0)
    → (Connection → Cmd S Progress)
    → Type 0
Answers {S} F G Q answer =
    (o : Option Command) (n : ℕ) (c : Connection) (s : S)
    → (o ≡ none → c.parser.parse_complete ≡ false)
    → length c.buffer < n
    → G s
    → Within F (answer (record c { command = o }) s) (λ p t. Takes Q n p × G t)

module _ {S : Type 0} (F : Type 0) (G : S → Type 0) (Q : Connection → Type 0)
    (answer : Connection → Cmd S Progress) (answers : Answers F G Q answer) where
  -- The argument of a waiting command takes bytes from the buffer.
  fill_argument-some :
      (m : Command) (n : ℕ) (c : Connection) (s : S)
      → 0 < c.arg_remains
      → 0 < length c.buffer
      → length c.buffer ≤ n
      → G s
      → Within F
          (answer (fill_argument (record c { command = some m })) s)
          (λ p t. Takes Q n p × G t)
  unfolding fill_argument fill
  fill_argument-some m n c s pos full le k0 =
      let k = min c.arg_remains (length c.buffer) in
      rw (lt→ltb 0 c.arg_remains pos) (
        answers (some m) n (fill k (record c { command = some m })) s (λ e. cc)
          (omega (arith, length-drop k c.buffer)) k0)

  -- After a command line, with or without an argument behind it.
  fill_argument-any :
      (o : Option Command) (n : ℕ) (c : Connection) (s : S)
      → (o ≡ none → c.parser.parse_complete ≡ false)
      → length c.buffer < n
      → G s
      → Within F (answer (fill_argument (record c { command = o })) s) (λ p t. Takes Q n p × G t)
  unfolding fill_argument fill
  fill_argument-any none n c s h less k0 = answers none n c s h less k0
  fill_argument-any (some m) n c s h less k0 = elim (Bool-cases (ltb 0 c.arg_remains)) [
    | inl e ↦
        let k = min c.arg_remains (length c.buffer) in
        rw e (
          answers (some m) n (fill k (record c { command = some m })) s (λ e. cc)
            (omega (arith, length-drop k c.buffer)) k0)
    | inr e ↦ rw e (answers (some m) n c s h less k0)
  ]

  consumed :
      (k n : ℕ) (c : Connection) (s : S)
      → Between c
      → 0 < k
      → k ≤ n
      → length c.buffer ≡ n
      → G s
      → Within F (after_command answer (consume k c) s) (λ p t. Takes Q n p × G t)
  unfolding after_command consume
  consumed k n c s h pos le e k0 =
      let nonzero : (k == 0) ≡ false = ground arith in
      rw nonzero (
        fill_argument-any c.command n (record c { buffer = drop k c.buffer }) s h
          (omega (arith, length-drop k c.buffer)) k0)

  on_built-Takes :
      (b : Built) (k : ℕ) (c : Connection) (s : S)
      → Gives b
      → 0 < k
      → k ≤ length c.buffer
      → G s
      → Within F
          (Run.and_then (on_built c k b s) (after_command answer))
          (λ p t. Takes Q (length c.buffer) p × G t)
  unfolding on_built after_command
  on_built-Takes (Parser.built none body) k c s g pos le k0 = cc
  on_built-Takes (Parser.built (some m) body) k c s g pos le k0 =
      consumed k (length c.buffer) (record c { command = some m; arg_remains = with_line_end body })
        s (λ e. cc) pos le refl k0
  on_built-Takes (Parser.build_threw e) k c s g pos le k0 = (tt, k0)
  on_built-Takes Parser.build_undefined k c s g pos le k0 = tt

  on_complete :
      (b : Bool) (q : Parser) (k : ℕ) (c : Connection) (s : S)
      → c.command ≡ none
      → Advances c.buffer (Parser.done q k)
      → q.parse_complete ≡ b
      → G s
      → let d : Connection = record c { parser = q } in
        Within F
          (Run.and_then
            ((if b then on_built d k (build q c.arg_remains) else Run.pure (consume k d)) s)
            (after_command answer))
          (λ p t. Takes Q (length c.buffer) p × G t)
  on_complete true q k c s e (pos, le, line) t k0 =
      on_built-Takes (build q c.arg_remains) k (record c { parser = q }) s
        (build-Gives q c.arg_remains (line t)) pos le k0
  on_complete false q k c s e (pos, le, line) f k0 =
      consumed k (length c.buffer) (record c { parser = q }) s (λ _. f) pos le refl k0

  on_parsed-Takes :
      (r : Parsed) (c : Connection) (s : S)
      → c.command ≡ none
      → Advances c.buffer r
      → G s
      → Within F
          (Run.and_then (on_parsed c r s) (after_command answer))
          (λ p t. Takes Q (length c.buffer) p × G t)
  unfolding on_parsed after_command
  on_parsed-Takes (Parser.done q k) c s e h k0 = on_complete q.parse_complete q k c s e h refl k0
  on_parsed-Takes (Parser.threw q x) c s e h k0 = (tt, k0)
  on_parsed-Takes Parser.overflowed c s e h k0 = tt

  -- A round between commands, and one inside an argument.
  pub round-Keeps :
      (o : Option Command) (c : Connection) (s : S)
      → Waits o c.parser c.arg_remains
      → 0 < length c.buffer
      → G s
      → Within F
          (round answer (record c { command = o }) s)
          (λ p t. Takes Q (length c.buffer) p × G t)
  unfolding round get_command after_command
  round-Keeps none c s w full k0 =
      on_parsed-Takes (parse c.buffer c.parser) (record c { command = none }) s refl
        (parse-Advances c.buffer c.parser w full) k0
  round-Keeps (some m) c s w full k0 =
      fill_argument-some m (length c.buffer) c s w full (omega arith) k0

  pub process-Drained :
      (fuel : ℕ) (c : Connection) (s : S)
      → Awaits c
      → length c.buffer < fuel
      → G s
      → Within F (process answer fuel c s) (λ p t. Drained Q p × G t)
  unfolding process
  process-Drained zero c s w le k0 = absurd (omega (arith, le))
  process-Drained (suc fuel) c s w le k0 = elim (Bool-cases (ltb 0 (length c.buffer))) [
    | inl e ↦ rw e (
        Within-bind F (round answer c s) _ (λ p t. Takes Q (length c.buffer) p × G t) _
          (round-Keeps c.command c s w (ltb→lt 0 _ e) k0)
          (λ p t h.
            next fuel (length c.buffer) p t h.0 (omega (arith, le)) (process-Drained fuel) h.1))
    | inr e ↦ rw e ((w, empty c.buffer (ltb→le 0 _ e)), k0)
  ]
    where
      empty : (b : Bytes) → length b ≤ 0 → b ≡ []
      empty [] h = refl
      empty (x ∷ b) h = absurd (omega (arith, h))

      next :
          (fuel n : ℕ) (p : Progress) (t : S)
          → Takes Q n p
          → n ≤ fuel
          → ((d : Connection) (u : S)
              → Awaits d
              → length d.buffer < fuel
              → G u
              → Within F (process answer fuel d u) (λ p t. Drained Q p × G t))
          → G t
          → Within F (again answer (process answer fuel) p t) (λ p t. Drained Q p × G t)
      next fuel n (go_on d) t h le rec k = rec d t h.0 (omega (arith, h.1)) k
      next fuel n (leave d) t h le rec k = absurd h
      next fuel n (stop d) t h le rec k = (h, k)
      next fuel n (threw d) t h le rec k = (tt, k)

  read_loop_step :
      (reads : List Bytes) (p : Progress) (t : S)
      → Drained Q p
      → ((d : Connection) (u : S)
          → Awaits d
          → d.buffer ≡ []
          → G u
          → Within F (read_loop answer reads d u) (λ p t. Drained Q p × G t))
      → G t
      → Within F (next_read answer (read_loop answer reads) p t) (λ p t. Drained Q p × G t)
  read_loop_step reads (go_on d) t h rec k = rec d t h.0 h.1 k
  read_loop_step reads (leave d) t h rec k = absurd h
  read_loop_step reads (stop d) t h rec k = (h, k)
  read_loop_step reads (threw d) t h rec k = (tt, k)

  -- The loop over the calls of read.
  pub loop-Drained :
      (reads : List Bytes) (c : Connection) (s : S)
      → Awaits c
      → c.buffer ≡ []
      → G s
      → Within F (read_loop answer reads c s) (λ p t. Drained Q p × G t)
  unfolding read_loop
  loop-Drained [] c s w e k = ((w, e), k)
  loop-Drained ([] ∷ reads) c s w e k = ((w, e), k)
  loop-Drained ((x ∷ xs) ∷ reads) c s w e k =
      let d : Connection = record c { buffer = c.buffer ++ x ∷ xs } in
      Within-bind F (process answer (suc (length d.buffer)) d s) _ (λ p t. Drained Q p × G t) _
        (process-Drained (suc (length d.buffer)) d s w (omega arith) k)
        (λ p t h. read_loop_step reads p t h.0 (loop-Drained reads) h.1)

-- The same where nothing is said of the states.
abbrev pub Always : {S : Type 0} → S → Type 0
Always s = Unit {0}

module _ {S : Type 0} (F : Type 0) (Q : Connection → Type 0) (answer : Connection → Cmd S Progress)
    (answers : Answers F Always Q answer) where
  pub round-Takes :
      (o : Option Command) (c : Connection) (s : S)
      → Waits o c.parser c.arg_remains
      → 0 < length c.buffer
      → Within F (round answer (record c { command = o }) s) (λ p _. Takes Q (length c.buffer) p)
  round-Takes o c s w full =
      Within_left F (round answer (record c { command = o }) s) _ _
        (round-Keeps F Always Q answer answers o c s w full tt)
