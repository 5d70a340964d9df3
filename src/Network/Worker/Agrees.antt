-- ===== src/Network/Worker/Agrees.antt =====
-- While the server runs, a worker does with its clients what the single-threaded loop does.
use ts_sem.Prelude.{
  ℕ, ◌≡◌, refl, sym, ap, ◌∙◌, Bool, true, false, none, some, List, [], ◌∷◌, ◌++◌, ◌==◌, ◌≢◌,
  Bool-cases, inl, inr, if◌then◌else◌,
}
use ts_sem.Run
use ts_sem.Run.{Run, Cmd, ok, fault, out_of_fuel, ◌>>=◌}
use ts_sem.Storage.Api.{StorageApi}
use ts_sem.Network.Connection.{Connection}
use ts_sem.Network.Connection.Write.{failed}
use ts_sem.Network.Events.{
  Client, Server, Ready, Event, client_event, Handled, handled, threw, same_events, settle,
  dispatch, on_client, handle, handle_all,
}
use ts_sem.Network.Events.Registered.{
  IsRegistered, AreRegistered, Leads, same_events_sound, on_client-AreRegistered,
}
use ts_sem.Network.Multi.{beside, inside}
use ts_sem.Network.Multi.Same.{kept, work-dispatch, bind_agrees}
use ts_sem.Network.Worker.{
  WorkerEvent, signal, of_client, worker_settle, worker_client, worker_events,
}

-- No writev fails, and epoll takes every client again.
abbrev pub AreFine : List WorkerEvent → Type 0
AreFine [] = Unit {0}
AreFine (signal ∷ es) = AreFine es
AreFine (of_client socket r rearmed ∷ es) = (r.written ≢ failed) × (rearmed ≡ true) × AreFine es

-- The events of clients, for the other loop.
abbrev pub client_events : List WorkerEvent → List Event
client_events [] = []
client_events (signal ∷ es) = client_events es
client_events (of_client socket r rearmed ∷ es) = client_event socket r rearmed ∷ client_events es

abbrev pub clients : Handled → List Client
clients (handled v) = v.conns
clients (threw v) = v.conns

by_flags :
    (a same : Bool) (e : Client) (d : Connection)
    → (same ≡ true → e.watched ≡ d.events)
    → worker_settle e (if a then some d else none) ≡ (
        if a
        then (if same
            then record e { connection = d } ∷ []
            else record e { connection = d; watched = d.events } ∷ [])
        else [])
by_flags false same e d h = refl
by_flags true false e d h = refl
by_flags true true e d h = ap (λ w. record e { connection = d; watched = w } ∷ []) (sym (h refl))

worker_settle-settle :
    (e : Client) (d : Connection) → IsRegistered e → worker_settle e (kept true d) ≡ settle true e d
unfolding settle
worker_settle-settle e d h =
    by_flags d.alive (same_events d.events e.connection.events) e d
      (λ same. h.1 ∙ sym (same_events_sound d.events e.connection.events same))

-- A bind of which the values are known to satisfy `P`.
bind_under :
    {S A B : Type 0} (m : Run S A) (P : A → Type 0) (f : A → Cmd (Bool × S) B) (g : A → Cmd S B)
    → Leads m P
    → ((a : A) (s : S) → P a → f a (false, s) ≡ beside false (g a s))
    → Run.and_then (beside false m) f ≡ beside false (Run.and_then m g)
bind_under (ok a s) P f g h k = k a s h
bind_under fault P f g h k = refl
bind_under out_of_fuel P f g h k = refl

module _ {S : Type 0} (storage : StorageApi S) where
  worker_client-on_client :
      (socket : ℕ) (r : Ready) (conns : List Client) (s : S)
      → AreRegistered conns
      → r.written ≢ failed
      → worker_client storage true socket r true conns (false, s)
        ≡ beside false (on_client storage true socket r true conns s)
  unfolding worker_client on_client
  worker_client-on_client socket r [] s h n = refl
  worker_client-on_client socket r (e ∷ es) s h n = elim (Bool-cases (e.socket == socket)) [
    | inl this ↦ rw this (
        ap (λ m. Run.and_then m (λ o. Run.pure (worker_settle e o ++ es)))
          (work-dispatch storage r true e.connection s n)
        ∙ assoc (dispatch storage true r e.connection s))
    | inr other ↦ rw other (
        ap (λ m. Run.and_then m (λ rest. Run.pure (e ∷ rest)))
          (worker_client-on_client socket r es s h.1 n)
        ∙ bind_agrees storage (on_client storage true socket r true es s) _ _ (λ a t. refl))
  ]
    where
      assoc :
          (m : Run S Connection)
          → Run.and_then
              (beside false (Run.and_then m (λ d. Run.pure (kept true d))))
              (λ o. Run.pure (worker_settle e o ++ es))
            ≡ beside false (Run.and_then m (λ d. Run.pure (settle true e d ++ es)))
      assoc (ok d t) = ap (λ l. ok (l ++ es) (false, t)) (worker_settle-settle e d h.0)
      assoc fault = refl
      assoc out_of_fuel = refl

  abbrev server : List Client → Server
  server conns = record { run = true; conns = conns }

  -- The loop goes on behind an event of a client.
  goes_on :
      (m : Run S (List Client)) (es : List Event)
      → Run.and_then m (λ left t.
        Run.and_then (handle_all storage es (server left) t) (λ h. Run.pure (clients h)))
        ≡ Run.and_then
            (Run.and_then
              (Run.and_then m (λ left. Run.pure (handled (server left))))
              (λ h. elim h [ handled u ↦ handle_all storage es u | threw u ↦ Run.pure (threw u) ]))
            (λ h. Run.pure (clients h))
  goes_on (ok left t) es = refl
  goes_on fault es = refl
  goes_on out_of_fuel es = refl

  -- While the server runs, from clients that are alive and watched by epoll under the masks that
  -- they want, for the events of a wake-up in which no writev fails and epoll takes every client
  -- again: a worker, with the mutex of each connection free before and after, leaves the clients
  -- and the storage that the loop of the single-threaded server leaves behind the same events of
  -- clients, and goes wrong where that does.
  pub worker_events-handle_all :
      (es : List WorkerEvent) (conns : List Client) (s : S)
      → AreRegistered conns
      → AreFine es
      → worker_events storage true es conns (false, s)
        ≡ inside
            (λ t.
              Run.and_then
                (handle_all storage (client_events es) (record { run = true; conns = conns }) t)
                (λ h. Run.pure (clients h)))
            (false, s)
  unfolding worker_events handle_all handle
  worker_events-handle_all [] conns s h f = refl
  worker_events-handle_all (signal ∷ es) conns s h f = worker_events-handle_all es conns s h f
  worker_events-handle_all (of_client socket r rearmed ∷ es) conns s h (n, again, f) =
      let m = on_client storage true socket r true conns s in
      ap
        (λ b.
          Run.and_then (worker_client storage true socket r b conns (false, s))
            (worker_events storage true es))
        again
      ∙ ap (λ x. Run.and_then x (worker_events storage true es))
          (worker_client-on_client socket r conns s h n)
      ∙ bind_under m AreRegistered (worker_events storage true es) _
          (on_client-AreRegistered storage true socket r true conns s h)
          (λ left t k. worker_events-handle_all es left t k f)
      ∙ ap (λ x. beside false x) (goes_on m (client_events es))
      ∙ ap
          (λ b. beside false (
            Run.and_then
              (handle_all storage (client_event socket r b ∷ client_events es) (server conns) s)
              (λ h. Run.pure (clients h))))
          (sym again)
