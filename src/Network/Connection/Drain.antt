-- ===== src/Network/Connection/Drain.antt =====
-- DoRead: the loops end where the commands do, and nothing that was read stays in the buffer.
use ts_sem.Prelude.{
  ℕ, ◌<◌, ◌≡◌, refl, Bool, true, false, none, some, List, [], ◌==◌, if◌then◌else◌, length, arith,
  Bool-cases, inl, inr,
}
use ts_sem.Prelude.Bytes.{Bytes}
use ts_sem.Run.{Run, Within, Within-bind, ok, fault, out_of_fuel}
use ts_sem.Storage.Api.{StorageApi}
use ts_sem.Execute.{Command, execute}
use ts_sem.Protocol.Parser.{reset}
use ts_sem.Network.Connection.{Connection, go_on, stop, respond, run_command, read_loop}
use ts_sem.Network.Connection.Loop.{Awaits, Takes, Drained, Answers, Always, loop-Drained}

module _ {S : Type 0} (storage : StorageApi S) where
  -- `t` is reached from `s` by commands.
  pub data Reached (s : S) : S → Type 0 where
    start : Reached s s
    next :
        (m : Command) (args reply : Bytes) (t u : S)
        → Reached s t
        → execute storage m args t ≡ ok reply u
        → Reached s u

  -- From `s`, commands reach a state in which a command uses up the fuel of its loops.
  abbrev pub Exhausts : S → Type 0
  Exhausts s =
      (t : S) × (m : Command) × (args : Bytes) × Reached s t
      × (execute storage m args t ≡ out_of_fuel)

  module _ (running : ℕ → Bool) (F : Type 0) (G : S → Type 0)
      (keeps : (m : Command) (args : Bytes) (s : S)
        → G s
        → Within F (execute storage m args s) (λ _ t. G t)) where
    answered :
        (b : Bool) (n : ℕ) (d : Connection)
        → Awaits d
        → length d.buffer < n
        → Takes Awaits n (if b then go_on d else stop d)
    answered true n d a h = (a, h)
    answered false n d a h = a

    -- Whatever becomes of a command, the connection waits behind it.
    pub run_command-Answers : Answers F G Awaits (run_command storage running)
    unfolding run_command respond reset
    run_command-Answers none n c s h less k = ((h refl, less), k)
    run_command-Answers (some m) n c s h less k = elim (Bool-cases (c.arg_remains == 0)) [
      | inl e ↦ rw e (
          Within-bind F (execute storage m c.argument s) _ (λ _ t. G t)
            (λ p t. Takes Awaits n p × G t) (keeps m c.argument s k)
            (λ reply t i. (answered _ n _ refl less, i)))
      | inr e ↦ rw e ((ground arith, less), k)
    ]

  pub any_command_waits :
      (running : ℕ → Bool) → Answers (Unit {0}) Always Awaits (run_command storage running)
  any_command_waits running =
      run_command-Answers running (Unit {0}) Always (λ m args s k. any (execute storage m args s))
    where
      any : (r : Run S Bytes) → Within (Unit {0}) r (λ _ t. Always t)
      any (ok a t) = tt
      any fault = tt
      any out_of_fuel = tt

  keeps_reached :
      (s : S) (m : Command) (args : Bytes) (t : S)
      → Reached s t
      → (r : Run S Bytes) → execute storage m args t ≡ r
      → Within (Exhausts s) r (λ _ u. Reached s u)
  keeps_reached s m args t k (ok reply u) e = next m args reply t u k e
  keeps_reached s m args t k fault e = tt
  keeps_reached s m args t k out_of_fuel e = (t, m, args, k, e)

  -- Over any storage, from a connection that waits for the rest of a line or of an argument and has
  -- an empty buffer, whatever the calls of read return and the server's flag is: the loops of
  -- DoRead use up their fuel only where a command does, in a state to which commands lead from the
  -- first one; else they end, in a state to which commands lead, in an exception, in a stop, or
  -- with an empty buffer and a connection that waits again, unless a command or the parser is
  -- undefined.
  pub read_loop-Drained :
      (running : ℕ → Bool) (reads : List Bytes) (c : Connection) (s : S)
      → Awaits c
      → c.buffer ≡ []
      → Within
          (Exhausts s)
          (read_loop (run_command storage running) reads c s)
          (λ p t. Drained Awaits p × Reached s t)
  read_loop-Drained running reads c s w e =
      loop-Drained (Exhausts s) (Reached s) Awaits (run_command storage running)
        (run_command-Answers running (Exhausts s) (Reached s)
          (λ m args t k. keeps_reached s m args t k (execute storage m args t) refl))
        reads c s w e start
