-- ===== src/Network/Connection/Pieces/Loops.antt =====
-- The inner loop on input that comes in two pieces: it needs no more fuel, and does the same.
use ts_sem.Prelude.{
  ℕ, zero, suc, ◌+◌, ◌≤◌, ◌<◌, ◌≡◌, refl, sym, ap, subst, ◌∙◌, inl, inr, [], ◌∷◌, ◌++◌, ltb, length,
  arith, Bool-cases, ltb→lt, ltb→le, length-append,
}
use ts_sem.Prelude.Bytes.{Bytes}
use ts_sem.Run
use ts_sem.Run.{Run, Cmd, Within, ok, fault, out_of_fuel}
use ts_sem.Network.Connection.{
  Connection, Progress, go_on, leave, stop, threw, round, again, process, next_read,
}
use ts_sem.Network.Connection.Loop.{Awaits, Takes, Answers, Always, round-Takes}
use ts_sem.Network.Connection.Pieces.{
  extend, extended, blurred, Same, and_then_assoc, Same-bind, Same-after, drain, process-step,
  process-nil, process_empty, again-Blurs, Splits,
}

nil_of_length : (b : Bytes) → length b ≤ 0 → b ≡ []
nil_of_length [] h = refl
nil_of_length (x ∷ b) h = absurd (omega (arith, h))

module _ {S : Type 0} (F : Type 0) (Q : Connection → Type 0) (answer : Connection → Cmd S Progress)
    (answers : Answers F Always Q answer) where
  -- Behind a round, where the loops with the fuels `f` and `g` agree.
  again_agrees :
      (f g n : ℕ) (r : Run S Progress)
      → ((d : Connection) (t : S)
          → Awaits d
          → length d.buffer < n
          → process answer f d t ≡ process answer g d t)
      → Within F r (λ p _. Takes Q n p)
      → Run.and_then r (again answer (process answer f))
        ≡ Run.and_then r (again answer (process answer g))
  again_agrees f g n (ok (go_on d) t) rec h = rec d t h.0 h.1
  again_agrees f g n (ok (leave d) t) rec h = refl
  again_agrees f g n (ok (stop d) t) rec h = refl
  again_agrees f g n (ok (threw d) t) rec h = refl
  again_agrees f g n fault rec h = refl
  again_agrees f g n out_of_fuel rec h = refl

  -- More fuel changes nothing.
  pub process_fuel :
      (f g : ℕ) (c : Connection) (s : S)
      → Awaits c
      → length c.buffer < f
      → length c.buffer < g
      → process answer f c s ≡ process answer g c s
  process_fuel zero g c s w h k = absurd (omega (arith, h))
  process_fuel (suc f) zero c s w h k = absurd (omega (arith, k))
  process_fuel (suc f) (suc g) c s w h k = elim (Bool-cases (ltb 0 (length c.buffer))) [
    | inl full ↦
        let positive = ltb→lt 0 (length c.buffer) full in
        process-step answer f c s positive
        ∙ again_agrees f g (length c.buffer) (round answer c s)
            (λ d t v i. process_fuel f g d t v (omega (arith, h, i)) (omega (arith, k, i)))
            (round-Takes F Q answer answers c.command c s w positive)
        ∙ sym (process-step answer g c s positive)
    | inr over ↦
        let e = nil_of_length c.buffer (ltb→le 0 (length c.buffer) over) in
        process-nil answer f c s e ∙ sym (process-nil answer g c s e)
  ]

  module _ (splits : Splits answer) where
    -- The loop over more input, against the loop and then the loop over the rest.
    abbrev later : Bytes → Progress → Cmd S Progress
    later b = next_read answer (λ d. drain answer (extend b d))

    after_round :
        (n m : ℕ) (b : Bytes) (p : Progress) (s : S)
        → Takes Q n p
        → n ≤ m
        → ((d : Connection) (t : S)
            → Awaits d
            → length d.buffer < n
            → Same (drain answer (extend b d) t) (Run.and_then (drain answer d t) (later b)))
        → Same
            (again answer (process answer (m + length b)) (extended b p) s)
            (Run.and_then (again answer (process answer m) p s) (later b))
    after_round n m b (go_on d) s h le rec =
        let big = length-append d.buffer b in
        rw
          (
            process_fuel (m + length b) (suc (length (extend b d).buffer)) (extend b d) s h.0
                (omega (arith, big, h.1, le)) (omega arith),
            process_fuel m (suc (length d.buffer)) d s h.0 (omega (arith, h.1, le)) (omega arith),
          )
          (rec d s h.0 h.1)
    after_round n m b (leave d) s h le rec = absurd h
    after_round n m b (stop d) s h le rec = refl
    after_round n m b (threw d) s h le rec = refl

    drain-nil :
        (c : Connection) (b : Bytes) (s : S)
        → c.buffer ≡ []
        → Same (drain answer (extend b c) s) (Run.and_then (drain answer c s) (later b))
    drain-nil c b s e = rw (process-nil answer (length c.buffer) c s e) refl

    -- The round over more input goes as the round before it.
    in_step :
        (c : Connection) (b : Bytes) (s : S)
        → Awaits c
        → 0 < length c.buffer
        → Same
            (round answer (extend b c) s)
            (Run.and_then (round answer c s) (λ p. Run.pure (extended b p)))
        → ((d : Connection) (t : S)
            → Awaits d
            → length d.buffer < length c.buffer
            → Same (drain answer (extend b d) t) (Run.and_then (drain answer d t) (later b)))
        → Same
            (Run.and_then
              (round answer (extend b c) s)
              (again answer (process answer (length c.buffer + length b))))
            (Run.and_then (drain answer c s) (later b))
    in_step c b s w positive same rec =
        let l = length c.buffer in
        let k = again answer (process answer (l + length b)) in
        let split = process-step answer l c s positive in
        Same-bind k (again-Blurs answer (process answer (l + length b)))
          (round answer (extend b c) s) _ same
        ∙ ap blurred (and_then_assoc (round answer c s) (λ p. Run.pure (extended b p)) k)
        ∙ Same-after F (round answer c s) (λ p _. Takes Q l p) (λ p. k (extended b p))
            (λ p t. Run.and_then (again answer (process answer l) p t) (later b))
            (round-Takes F Q answer answers c.command c s w positive)
            (λ p t h. after_round l l b p t h (omega arith) rec)
        ∙ sym (
            ap blurred (
              ap (λ r. Run.and_then r (later b)) split
              ∙ and_then_assoc (round answer c s) (again answer (process answer l)) (later b)))

    -- The round over more input takes the place of the next round.
    across :
        (c d : Connection) (b : Bytes) (s : S)
        → Awaits c
        → 0 < length c.buffer
        → 0 < length b
        → round answer c s ≡ ok (go_on d) s
        → d.buffer ≡ []
        → Same (round answer (extend b c) s) (round answer (extend b d) s)
        → Same
            (Run.and_then
              (round answer (extend b c) s)
              (again answer (process answer (length c.buffer + length b))))
            (Run.and_then (drain answer c s) (later b))
    across c d b s w positive nonempty run e same =
        let l = length c.buffer in
        let m = l + length b in
        let taken =
          subst (λ r. Within F r (λ p _. Takes Q l p)) run
            (round-Takes F Q answer answers c.command c s w positive) in
        let rest : length (extend b d).buffer ≡ length b = ap (λ x. length (x ++ b)) e in
        Same-bind (again answer (process answer m)) (again-Blurs answer (process answer m))
          (round answer (extend b c) s) (round answer (extend b d) s) same
        ∙ ap blurred (
            sym (process-step answer m (extend b d) s (omega (arith, rest, nonempty)))
            ∙ process_fuel (suc m) (suc (length (extend b d).buffer)) (extend b d) s taken.0
                (omega (arith, rest)) (omega arith))
        ∙ sym (
            ap blurred (
              ap (λ r. Run.and_then r (later b))
                (process-step answer l c s positive
                  ∙ ap (λ r. Run.and_then r (again answer (process answer l))) run
                  ∙ process_empty answer l d s positive e)))

    pub drain-extend :
        (n : ℕ) (c : Connection) (b : Bytes) (s : S)
        → Awaits c
        → length c.buffer < n
        → 0 < length b
        → Same (drain answer (extend b c) s) (Run.and_then (drain answer c s) (later b))
    drain-extend zero c b s w h nonempty = absurd (omega (arith, h))
    drain-extend (suc n) c b s w h nonempty = elim (Bool-cases (ltb 0 (length c.buffer))) [
      | inr over ↦ drain-nil c b s (nil_of_length c.buffer (ltb→le 0 (length c.buffer) over))
      | inl full ↦
          let positive = ltb→lt 0 (length c.buffer) full in
          let l = length c.buffer in
          let big = length-append c.buffer b in
          let start =
            process_fuel (suc (length (extend b c).buffer)) (suc (l + length b)) (extend b c) s w
              (omega arith) (omega (arith, big))
            ∙ process-step answer (l + length b) (extend b c) s (omega (arith, big, positive)) in
          ap blurred start ∙ elim (splits c b s w positive nonempty) [
            | inl same ↦
                in_step c b s w positive same
                  (λ d t v i. drain-extend n d b t v (omega (arith, h, i)) nonempty)
            | inr (d, run, e, same) ↦ across c d b s w positive nonempty run e same
          ]
    ]
