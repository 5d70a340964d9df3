-- ===== src/Protocol/Parser/Stream.antt =====
-- Parse over input that arrives in pieces.
use ts_sem.Prelude.{
  ℕ, suc, ◌+◌, ◌≤◌, ◌≡◌, refl, sym, ap, subst, ◌∙◌, true, false, [], ◌∷◌, ◌++◌, length, arith,
  if◌then◌else◌, Bool-cases, inl, inr,
}
use ts_sem.Prelude.Bytes.{Bytes}
use ts_sem.Protocol.Parser.{
  Parser, State, Error, Outcome, Parsed, on_next, next, throw, undefined, done, threw, overflowed,
  invalid_char, step, dispatch, parse_loop, parse,
}

-- The loop goes on with more input.
abbrev pub resume : Bytes → Parsed → Parsed
resume b (done q n) = parse_loop b n q
resume b (threw q e) = threw q e
resume b overflowed = overflowed

module _ (c : ℕ) (cs : Bytes) (at : ℕ) (p : Parser) where
  pub loop_stops : p.parse_complete ≡ true → parse_loop (c ∷ cs) at p ≡ done p at
  unfolding parse_loop
  loop_stops e =
      ap (λ b. if b then done p at else on_next (step p c at) (λ q. parse_loop cs (suc at) q)) e

  pub loop_steps :
      p.parse_complete ≡ false
      → parse_loop (c ∷ cs) at p ≡ on_next (step p c at) (λ q. parse_loop cs (suc at) q)
  unfolding parse_loop
  loop_steps e =
      ap (λ b. if b then done p at else on_next (step p c at) (λ q. parse_loop cs (suc at) q)) e

loop-nil : (at : ℕ) (p : Parser) → parse_loop [] at p ≡ done p at
unfolding parse_loop
loop-nil at p = refl

pub complete_stops :
    (b : Bytes) (at : ℕ) (p : Parser) → p.parse_complete ≡ true → parse_loop b at p ≡ done p at
complete_stops [] at p e = loop-nil at p
complete_stops (c ∷ b) at p e = loop_stops c b at p e

on_next-resume :
    (b : Bytes) (o : Outcome) (go go' : Parser → Parsed)
    → ((q : Parser) → go q ≡ resume b (go' q))
    → on_next o go ≡ resume b (on_next o go')
on_next-resume b (next q) go go' h = h q
on_next-resume b (throw q e) go go' h = refl
on_next-resume b undefined go go' h = refl

-- The loop over a first piece, then over a second.
pub parse_loop-append :
    (a b : Bytes) (at : ℕ) (p : Parser) → parse_loop (a ++ b) at p ≡ resume b (parse_loop a at p)
parse_loop-append [] b at p = ap (resume b) (sym (loop-nil at p))
parse_loop-append (c ∷ a) b at p = elim (Bool-cases p.parse_complete) [
  | inl e ↦
      loop_stops c (a ++ b) at p e
      ∙ sym (ap (resume b) (loop_stops c a at p e) ∙ complete_stops b at p e)
  | inr e ↦
      loop_steps c (a ++ b) at p e
      ∙ on_next-resume b (step p c at) _ _ (λ q. parse_loop-append a b (suc at) q)
      ∙ sym (ap (resume b) (loop_steps c a at p e))
]

-- An error names the position in its own call.
abbrev pub shift_error : ℕ → Error → Error
shift_error n (invalid_char c at) = invalid_char c (n + at)
shift_error n e = e

abbrev pub shift : ℕ → Parsed → Parsed
shift n (done q m) = done q (n + m)
shift n (threw q e) = threw q (shift_error n e)
shift n overflowed = overflowed

abbrev shift_outcome : ℕ → Outcome → Outcome
shift_outcome n (next q) = next q
shift_outcome n (throw q e) = throw q (shift_error n e)
shift_outcome n undefined = undefined

dispatch-shift :
    (s : State) (n : ℕ) (p : Parser) (c at : ℕ)
    → dispatch s p c (n + at) ≡ shift_outcome n (dispatch s p c at)
unfolding dispatch
dispatch-shift State.s_name n p c at = ground arith
dispatch-shift _ n p c at = ground arith

step-shift : (n : ℕ) (p : Parser) (c at : ℕ) → step p c (n + at) ≡ shift_outcome n (step p c at)
unfolding step
step-shift n p c at = dispatch-shift p.state n p c at

on_next-shift :
    (n : ℕ) (o : Outcome) (go go' : Parser → Parsed)
    → ((q : Parser) → go q ≡ shift n (go' q))
    → on_next (shift_outcome n o) go ≡ shift n (on_next o go')
on_next-shift n (next q) go go' h = h q
on_next-shift n (throw q e) go go' h = refl
on_next-shift n undefined go go' h = refl

-- Where the loop starts only shifts what it counts.
parse_loop-shift :
    (b : Bytes) (n at : ℕ) (p : Parser) → parse_loop b (n + at) p ≡ shift n (parse_loop b at p)
parse_loop-shift [] n at p = loop-nil (n + at) p ∙ sym (ap (shift n) (loop-nil at p))
parse_loop-shift (c ∷ b) n at p = elim (Bool-cases p.parse_complete) [
  | inl e ↦ loop_stops c b (n + at) p e ∙ sym (ap (shift n) (loop_stops c b at p e))
  | inr e ↦
      loop_steps c b (n + at) p e
      ∙ ap (λ o. on_next o (λ q. parse_loop b (suc (n + at)) q)) (step-shift n p c at)
      ∙ on_next-shift n (step p c at) _ _
          (λ q. ap (λ m. parse_loop b m q) (omega arith) ∙ parse_loop-shift b n (suc at) q)
      ∙ sym (ap (shift n) (loop_steps c b at p e))
]

-- The next call of Parse with the next piece.
abbrev pub and_then_parse : Bytes → Parsed → Parsed
and_then_parse b (done q n) = shift n (parse b q)
and_then_parse b (threw q e) = threw q e
and_then_parse b overflowed = overflowed

-- Input in two pieces, in two calls of Parse, gives the same parser, the same error up to the
-- position it names, and the same number of bytes as in one call.
pub parse-append : (a b : Bytes) (p : Parser) → parse (a ++ b) p ≡ and_then_parse b (parse a p)
unfolding parse
parse-append a b p = parse_loop-append a b 0 p ∙ again (parse_loop a 0 p)
  where
    again : (r : Parsed) → resume b r ≡ and_then_parse b r
    again (done q n) = ap (λ m. parse_loop b m q) (omega arith) ∙ parse_loop-shift b n 0 q
    again (threw q e) = refl
    again overflowed = refl

-- What a loop says of its count: at most the input is read, and all of it unless a command is
-- complete.
abbrev pub Counts : Bytes → ℕ → Parsed → Type 0
Counts a at (done q n) =
    (at ≤ n) × (n ≤ at + length a) × (q.parse_complete ≡ false → n ≡ at + length a)
Counts a at _ = Unit {0}

pub parse_loop-Counts : (a : Bytes) (at : ℕ) (p : Parser) → Counts a at (parse_loop a at p)
parse_loop-Counts [] at p =
    subst (Counts [] at) (sym (loop-nil at p)) (omega arith, omega arith, λ e. omega arith)
parse_loop-Counts (c ∷ a) at p = elim (Bool-cases p.parse_complete) [
  | inl e ↦
      subst (Counts (c ∷ a) at) (sym (loop_stops c a at p e)) (omega arith, omega arith, λ f. cc)
  | inr e ↦
      subst (Counts (c ∷ a) at) (sym (loop_steps c a at p e))
        (later (step p c at) _ (λ q. parse_loop-Counts a (suc at) q))
]
  where
    weaken : (r : Parsed) → Counts a (suc at) r → Counts (c ∷ a) at r
    weaken (done q n) h = (omega arith, omega arith, λ e. omega (arith, h.2 e))
    weaken (threw q e) h = tt
    weaken overflowed h = tt

    later :
        (o : Outcome) (go : Parser → Parsed)
        → ((q : Parser) → Counts a (suc at) (go q))
        → Counts (c ∷ a) at (on_next o go)
    later (next q) go h = weaken (go q) (h q)
    later (throw q e) go h = tt
    later undefined go h = tt

-- Where Parse does not throw, it reads at most the input, and all of it where no command is
-- complete.
pub parse-Counts : (a : Bytes) (p : Parser) → Counts a 0 (parse a p)
unfolding parse
parse-Counts a p = parse_loop-Counts a 0 p
