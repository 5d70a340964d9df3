-- ===== src/Protocol/Parser/Progress.antt =====
-- What one call of Parse and Build achieves for their caller.
use ts_sem.Prelude.{
  ℕ, suc, ◌≤◌, ◌<◌, ◌≡◌, refl, sym, subst, Bool, true, false, List, [], ◌∷◌, length, arith,
  Bool-cases, inl, inr, is_some, if◌then◌else◌,
}
use ts_sem.Prelude.Bytes.{Bytes}
use ts_sem.Execute
use ts_sem.Execute.{Command}
use ts_sem.Protocol.Parser.{
  Parser, State, Outcome, Parsed, Built, on_next, next, throw, undefined, done, threw, overflowed,
  built, build_threw, build_undefined, step, dispatch, step_name, step_put_key, step_get_key,
  step_flags, step_expr_time_start, step_expr_time, step_bytes, step_lf, parse_loop, parse,
  insert_with, build_command, build,
}
use ts_sem.Protocol.Parser.Stream.{Counts, parse_loop-Counts, loop_stops, loop_steps}

-- A complete command leaves the parser in the state for the line end.
abbrev pub EndsLine : Parser → Type 0
EndsLine q = q.parse_complete ≡ true → q.state ≡ State.s_lf

abbrev OutcomeEnds : Outcome → Type 0
OutcomeEnds (next q) = EndsLine q
OutcomeEnds _ = Unit {0}

abbrev is_line_end : State → Bool
is_line_end State.s_lf = true
is_line_end _ = false

-- `OutcomeEnds` as a test.
abbrev outcome_ends : Outcome → Bool
outcome_ends (next q) = if q.parse_complete then is_line_end q.state else true
outcome_ends _ = true

outcome_ends-OutcomeEnds : (o : Outcome) → outcome_ends o ≡ true → OutcomeEnds o
outcome_ends-OutcomeEnds (next q) h = λ e. line_end q.state (ground (arith, h, e))
  where
    line_end : (s : State) → is_line_end s ≡ true → s ≡ State.s_lf
    line_end State.s_lf h = refl
    line_end _ h = cc
outcome_ends-OutcomeEnds (throw q e) h = tt
outcome_ends-OutcomeEnds undefined h = tt

dispatch-ends :
    (s : State) (p : Parser) (c at : ℕ)
    → p.state ≡ s
    → p.parse_complete ≡ false
    → outcome_ends (dispatch s p c at) ≡ true
unfolding dispatch step_name step_put_key step_get_key step_flags step_expr_time_start
    step_expr_time step_bytes step_lf
dispatch-ends State.s_lf p c at e h = ground (arith, h, e)
dispatch-ends _ p c at e h = ground (arith, h)

abbrev ParsedEnds : Parsed → Type 0
ParsedEnds (done q n) = EndsLine q
ParsedEnds _ = Unit {0}

on_next-ends :
    (o : Outcome) (go : Parser → Parsed)
    → OutcomeEnds o
    → ((q : Parser) → EndsLine q → ParsedEnds (go q))
    → ParsedEnds (on_next o go)
on_next-ends (next q) go h k = k q h
on_next-ends (throw q e) go h k = tt
on_next-ends undefined go h k = tt

parse_loop-nil_ends : (at : ℕ) (p : Parser) → EndsLine p → ParsedEnds (parse_loop [] at p)
unfolding parse_loop
parse_loop-nil_ends at p h = h

step-ends : (p : Parser) (c at : ℕ) → p.parse_complete ≡ false → OutcomeEnds (step p c at)
unfolding step
step-ends p c at e = outcome_ends-OutcomeEnds _ (dispatch-ends p.state p c at refl e)

parse_loop-ends : (a : Bytes) (at : ℕ) (p : Parser) → EndsLine p → ParsedEnds (parse_loop a at p)
parse_loop-ends [] at p h = parse_loop-nil_ends at p h
parse_loop-ends (c ∷ a) at p h = elim (Bool-cases p.parse_complete) [
  | inl e ↦ subst ParsedEnds (sym (loop_stops c a at p e)) h
  | inr e ↦
      subst ParsedEnds (sym (loop_steps c a at p e))
        (on_next-ends (step p c at) _ (step-ends p c at e) (λ q k. parse_loop-ends a (suc at) q k))
]

-- A call reads something, at most the input, and ends in the right state.
abbrev pub Advances : Bytes → Parsed → Type 0
Advances a (done q n) = (0 < n) × (n ≤ length a) × EndsLine q
Advances a _ = Unit {0}

pub parse-Advances :
    (a : Bytes) (p : Parser) → p.parse_complete ≡ false → 0 < length a → Advances a (parse a p)
unfolding parse
parse-Advances [] p idle h = absurd (omega (arith, h))
parse-Advances (c ∷ a) p idle h0 =
    both (parse_loop (c ∷ a) 0 p)
      (subst Read (sym (loop_steps c a 0 p idle))
        (first (step p c 0) _ (λ q. parse_loop-Counts a 1 q)))
      (parse_loop-ends (c ∷ a) 0 p (λ e. cc))
  where
    Read : Parsed → Type 0
    Read (done q n) = (0 < n) × (n ≤ suc (length a))
    Read _ = Unit {0}

    weaken : (r : Parsed) → Counts a 1 r → Read r
    weaken (done q n) h = (omega (arith, h.0), omega (arith, h.1))
    weaken (threw q e) h = tt
    weaken overflowed h = tt

    first :
        (o : Outcome) (go : Parser → Parsed)
        → ((q : Parser) → Counts a 1 (go q))
        → Read (on_next o go)
    first (next q) go h = weaken (go q) (h q)
    first (throw q e) go h = tt
    first undefined go h = tt

    both : (r : Parsed) → Read r → ParsedEnds r → Advances (c ∷ a) r
    both (done q n) h k = (h.0, h.1, k)
    both (threw q e) h k = tt
    both overflowed h k = tt

-- Build gives a command, not null.
abbrev pub Gives : Built → Type 0
Gives (built o n) = is_some o ≡ true
Gives _ = Unit {0}

abbrev gives : Built → Bool
gives (built o n) = is_some o
gives _ = true

gives-Gives : (b : Built) → gives b ≡ true → Gives b
gives-Gives (built o n) h = h
gives-Gives (build_threw e) h = tt
gives-Gives build_undefined h = tt

gives-insert_with :
    (make : Execute.InsertCommand → Command) (p : Parser) (ks : List Bytes)
    → gives (insert_with make p ks) ≡ true
unfolding insert_with
gives-insert_with make p [] = refl
gives-insert_with make p (k ∷ ks) = refl

gives-build_command : (p : Parser) → gives (build_command p) ≡ true
unfolding build_command
gives-build_command p = ground (
  arith,
  gives-insert_with Command.set p p.keys,
  gives-insert_with Command.add p p.keys,
  gives-insert_with Command.append p p.keys,
)

-- After a complete command Build does not return null.
pub build-Gives : (p : Parser) (n : ℕ) → p.state ≡ State.s_lf → Gives (build p n)
unfolding build
build-Gives p n e = rw (e, build) (gives-Gives _ (gives-build_command p))
