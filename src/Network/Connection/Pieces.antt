-- ===== src/Network/Connection/Pieces.antt =====
-- DoRead on input that comes in other pieces.
pub mod Loops
pub mod Fill
pub mod Second
pub mod Round
pub mod Reads
pub mod Answer
pub mod Requests
use Prim.Native.Nat.{min}
use ts_sem.Prelude.{
  ℕ, zero, suc, ◌+◌, ◌-◌, ◌≤◌, ◌<◌, ◌≡◌, refl, sym, ap, subst, ◌∙◌, ◌⊎◌, inl, inr, Bool, true,
  false, Option, none, some, List, [], ◌∷◌, ◌++◌, ◌==◌, ltb, if◌then◌else◌, length, take, drop,
  arith, Bool-cases, lt→ltb, ltb→lt, ltb→le, length-append,
}
use ts_sem.Prelude.Bytes.{Bytes}
use ts_sem.Run
use ts_sem.Run.{Run, Cmd, Within, ok, fault, out_of_fuel}
use ts_sem.Execute.{Command}
use ts_sem.Network.Connection.{
  Connection, Progress, go_on, leave, stop, threw, round, again, process, next_read, read_loop,
}
use ts_sem.Network.Connection.Loop.{Awaits, Takes, Answers, round-Takes}

-- Where it stands, up to what stays in the buffer when the loops are left.
abbrev pub blur : Progress → Progress
blur (go_on c) = go_on c
blur (leave c) = leave c
blur (stop c) = stop (record c { buffer = [] })
blur (threw c) = threw (record c { buffer = [] })

-- The connection with more bytes in its buffer.
abbrev pub extend : Bytes → Connection → Connection
extend b c = record c { buffer = c.buffer ++ b }

abbrev pub extended : Bytes → Progress → Progress
extended b (go_on c) = go_on (extend b c)
extended b (leave c) = leave (extend b c)
extended b (stop c) = stop (extend b c)
extended b (threw c) = threw (extend b c)

module _ {S : Type 0} where
  abbrev pub blurred : Run S Progress → Run S Progress
  blurred r = Run.and_then r (λ p. Run.pure (blur p))

  -- The same run, up to what stays in the buffer.
  abbrev pub Same : Run S Progress → Run S Progress → Type 0
  Same r t = blurred r ≡ blurred t

  pub and_then_assoc :
      {A B C : Type 0} (r : Run S A) (f : A → Cmd S B) (g : B → Cmd S C)
      → Run.and_then (Run.and_then r f) g ≡ Run.and_then r (λ a t. Run.and_then (f a t) g)
  and_then_assoc (ok a s) f g = refl
  and_then_assoc fault f g = refl
  and_then_assoc out_of_fuel f g = refl

  -- What goes on in the same way behind a blurred result.
  abbrev pub Blurs : (Progress → Cmd S Progress) → Type 0
  Blurs k = (p : Progress) (s : S) → Same (k p s) (k (blur p) s)

  blur-first :
      (k : Progress → Cmd S Progress)
      → Blurs k
      → (r : Run S Progress)
      → Same (Run.and_then r k) (Run.and_then (Run.and_then r (λ p. Run.pure (blur p))) k)
  blur-first k h (ok p s) = h p s
  blur-first k h fault = refl
  blur-first k h out_of_fuel = refl

  pub Same-bind :
      (k : Progress → Cmd S Progress)
      → Blurs k
      → (r t : Run S Progress) → Same r t
      → Same (Run.and_then r k) (Run.and_then t k)
  Same-bind k h r t e =
      blur-first k h r
      ∙ ap (λ x. Run.and_then (Run.and_then x k) (λ p. Run.pure (blur p))) e
      ∙ sym (blur-first k h t)

  -- After a run of which `P` is known.
  pub Same-after :
      (F : Type 0) (r : Run S Progress) (P : Progress → S → Type 0)
      (f g : Progress → Cmd S Progress)
      → Within F r P
      → ((p : Progress) (s : S) → P p s → Same (f p s) (g p s))
      → Same (Run.and_then r f) (Run.and_then r g)
  Same-after F (ok p s) P f g h k = k p s h
  Same-after F fault P f g h k = refl
  Same-after F out_of_fuel P f g h k = refl

-- The inner loop with all the fuel that it needs.
abbrev pub drain : {S : Type 0} → (Connection → Cmd S Progress) → Connection → Cmd S Progress
drain answer c = process answer (suc (length c.buffer)) c

module _ {S : Type 0} (answer : Connection → Cmd S Progress) where
  pub process-step :
      (fuel : ℕ) (c : Connection) (s : S)
      → 0 < length c.buffer
      → process answer (suc fuel) c s
        ≡ Run.and_then (round answer c s) (again answer (process answer fuel))
  unfolding process
  process-step fuel c s full = rw (lt→ltb 0 (length c.buffer) full) refl

  pub process-nil :
      (fuel : ℕ) (c : Connection) (s : S)
      → c.buffer ≡ []
      → process answer (suc fuel) c s ≡ ok (go_on c) s
  unfolding process
  process-nil fuel c s e =
      let none_left : ltb 0 (length c.buffer) ≡ false = ap (λ b. ltb 0 (length b)) e in
      rw none_left refl

  pub process_empty :
      (fuel : ℕ) (c : Connection) (s : S)
      → 0 < fuel
      → c.buffer ≡ []
      → process answer fuel c s ≡ ok (go_on c) s
  process_empty zero c s h e = absurd (omega (arith, h))
  process_empty (suc fuel) c s h e = process-nil fuel c s e

  pub again-Blurs : (loop : Connection → Cmd S Progress) → Blurs (again answer loop)
  again-Blurs loop (go_on c) s = refl
  again-Blurs loop (leave c) s = refl
  again-Blurs loop (stop c) s = refl
  again-Blurs loop (threw c) s = refl

  pub next_read-Blurs : (loop : Connection → Cmd S Progress) → Blurs (next_read answer loop)
  next_read-Blurs loop (go_on c) s = refl
  next_read-Blurs loop (leave c) s = refl
  next_read-Blurs loop (stop c) s = refl
  next_read-Blurs loop (threw c) s = refl

  -- A run over more input goes as the run before it, or as the next round.
  abbrev pub Split : Bytes → S → Run S Progress → Run S Progress → Type 0
  Split b s big small =
      Same big (Run.and_then small (λ p. Run.pure (extended b p)))
      ⊎ ((d : Connection) × (small ≡ ok (go_on d) s)
          × (d.buffer ≡ [])
          × Same big (round answer (extend b d) s))

  abbrev pub Splits : Type 0
  Splits =
      (c : Connection) (b : Bytes) (s : S)
      → Awaits c
      → 0 < length c.buffer
      → 0 < length b
      → Split b s (round answer (extend b c) s) (round answer c s)
