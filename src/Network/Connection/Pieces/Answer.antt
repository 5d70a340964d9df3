-- ===== src/Network/Connection/Pieces/Answer.antt =====
-- What a connection does with a command, whatever else is in its buffer.
use ts_sem.Prelude.{
  ℕ, ◌<◌, ◌≡◌, refl, ap, ◌⊎◌, inl, inr, Bool, true, false, Option, none, some, ◌==◌, if◌then◌else◌,
  length, arith, Bool-cases,
}
use ts_sem.Prelude.Bytes.{Bytes}
use ts_sem.Run
use ts_sem.Run.{Run, Cmd, ok, fault, out_of_fuel}
use ts_sem.Storage.Api.{StorageApi}
use ts_sem.Execute.{Command, execute}
use ts_sem.Network.Connection.{Connection, go_on, stop, respond, run_command}
use ts_sem.Network.Connection.Pieces.{extend, extended}
use ts_sem.Network.Connection.Pieces.Round.{Uniform, Idles}

module _ {S : Type 0} (storage : StorageApi S) (running : ℕ → Bool) where
  extended-goes :
      (t : Bool) (b : Bytes) (d : Connection)
      → (if t then go_on (extend b d) else stop (extend b d))
        ≡ extended b (if t then go_on d else stop d)
  extended-goes true b d = refl
  extended-goes false b d = refl

  -- The reply is queued in the same way.
  responded :
      (r : Run S Bytes) (c : Connection) (b : Bytes)
      → Run.and_then r (λ reply.
        let d = respond reply (extend b c) in
        Run.pure (if running (length d.responses) then go_on d else stop d))
        ≡ Run.and_then
            (Run.and_then r (λ reply.
              let d = respond reply c in
              Run.pure (if running (length d.responses) then go_on d else stop d)))
            (λ p. Run.pure (extended b p))
  unfolding respond
  responded (ok reply t) c b =
      let d = respond reply c in ap (λ p. ok p t) (extended-goes (running (length d.responses)) b d)
  responded fault c b = refl
  responded out_of_fuel c b = refl

  uniform_any :
      (o : Option Command) (c : Connection) (b : Bytes) (s : S)
      → run_command storage running (extend b (record c { command = o })) s
        ≡ Run.and_then
            (run_command storage running (record c { command = o }) s)
            (λ p. Run.pure (extended b p))
  unfolding run_command
  uniform_any none c b s = refl
  uniform_any (some m) c b s = elim (Bool-cases (c.arg_remains == 0)) [
    | inl e ↦ rw e (responded (execute storage m c.argument s) (record c { command = some m }) b)
    | inr e ↦ rw e refl
  ]

  pub run_command-Uniform : Uniform (run_command storage running)
  run_command-Uniform c b s = uniform_any c.command c b s

  idles_any :
      (o : Option Command) (c : Connection) (s : S)
      → (o ≡ none) ⊎ (0 < c.arg_remains)
      → run_command storage running (record c { command = o }) s
        ≡ ok (go_on (record c { command = o })) s
  unfolding run_command
  idles_any none c s h = refl
  idles_any (some m) c s (inl e) = cc
  idles_any (some m) c s (inr more) =
      let waits : (c.arg_remains == 0) ≡ false = ground (arith, more) in rw waits refl

  pub run_command-Idles : Idles (run_command storage running)
  run_command-Idles c s h = idles_any c.command c s h
