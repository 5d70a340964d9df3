-- ===== src/Network/Events/Swept.antt =====
-- A client that was accepted does not outlive the wake-up.
use ts_sem.Prelude.{
  ◌≡◌, refl, Bool, true, false, ◌||◌, List, [], ◌∷◌, ◌++◌, Bool-cases, inl, inr, arith,
}
use ts_sem.Run.{ok, fault}
use ts_sem.Storage.Api.{StorageApi}
use ts_sem.Network.Connection.{start}
use ts_sem.Network.Events.{
  Client, Server, Accepted, Event, acceptable, stop_signal, client_event, handled, new_connection,
  add_client, on_new_connection, is_idle, handle, handle_all, sweep, wake_up,
}

-- Some socket was taken by epoll.
abbrev pub any_added : List Accepted → Bool
any_added [] = false
any_added (a ∷ as') = a.added || any_added as'

any_added-append :
    (as' bs : List Accepted) → any_added (as' ++ bs) ≡ (any_added as' || any_added bs)
any_added-append [] bs = refl
any_added-append (a ∷ as') bs = ground (arith, any_added-append as' bs)

-- The clients that come in a wake-up.
abbrev pub arrivals : List Event → List Accepted
arrivals [] = []
arrivals (acceptable as' ∷ es) = as' ++ arrivals es
arrivals (stop_signal removed ∷ es) = arrivals es
arrivals (client_event socket r changed ∷ es) = arrivals es

-- The events are clients that come, and stop signals with which the descriptors are removed.
abbrev pub OnlyAccepts : List Event → Type 0
OnlyAccepts [] = Unit {0}
OnlyAccepts (acceptable as' ∷ es) = OnlyAccepts es
OnlyAccepts (stop_signal true ∷ es) = OnlyAccepts es
OnlyAccepts (stop_signal false ∷ es) = ⊥
OnlyAccepts (client_event socket r changed ∷ es) = ⊥

abbrev pub any_idle : List Client → Bool
any_idle [] = false
any_idle (e ∷ es) = is_idle e.connection || any_idle es

any_idle-append : (xs ys : List Client) → any_idle (xs ++ ys) ≡ (any_idle xs || any_idle ys)
any_idle-append [] ys = refl
any_idle-append (x ∷ xs) ys = ground (arith, any_idle-append xs ys)

add_client-idle :
    (a : Accepted) (conns : List Client)
    → any_idle (add_client a conns) ≡ (any_idle conns || a.added)
unfolding add_client is_idle start new_connection
add_client-idle a conns = elim (Bool-cases a.added) [
  | inl e ↦ rw (e, any_idle-append) refl
  | inr e ↦ rw e (ground arith)
]

on_new_connection-idle :
    (as' : List Accepted) (conns : List Client)
    → any_idle (on_new_connection as' conns) ≡ (any_idle conns || any_added as')
unfolding on_new_connection
on_new_connection-idle [] conns = ground arith
on_new_connection-idle (a ∷ as') conns =
    ground (arith, on_new_connection-idle as' (add_client a conns), add_client-idle a conns)

module _ {S : Type 0} (storage : StorageApi S) where
  sweep_idle : (conns : List Client) (s : S) → any_idle conns ≡ true → sweep storage conns s ≡ fault
  unfolding sweep
  sweep_idle [] s h = cc
  sweep_idle (e ∷ es) s h = elim (Bool-cases (is_idle e.connection)) [
    | inl idle ↦ rw idle refl
    | inr busy ↦ rw busy (sweep_idle es s (ground (arith, h, busy)))
  ]

  handled_accepts :
      (es : List Event) (v : Server) (s : S)
      → OnlyAccepts es
      → (u : Server) × (handle_all storage es v s ≡ ok (handled u) s)
        × (any_idle u.conns ≡ (any_idle v.conns || any_added (arrivals es)))
  unfolding handle_all handle
  handled_accepts [] v s h = (v, refl, ground arith)
  handled_accepts (stop_signal true ∷ es) v s h = handled_accepts es (record v { run = false }) s h
  handled_accepts (stop_signal false ∷ es) v s h = absurd h
  handled_accepts (client_event socket r changed ∷ es) v s h = absurd h
  handled_accepts (acceptable as' ∷ es) v s h =
      let next = on_new_connection as' v.conns in
      let (u, run, idle) = handled_accepts es (record v { conns = next }) s h in
      (
        u,
        run,
        ground
            (arith, idle, on_new_connection-idle as' v.conns, any_added-append as' (arrivals es)),
      )

  -- A round of the loop over epoll whose events are only clients that come and stop signals with
  -- which the descriptors are removed, where epoll takes one of the clients, is undefined: the loop
  -- over the connections deletes the new one, which has no command yet, and advances the iterator
  -- that stands at it.
  pub wake_up_accepted :
      (es : List Event) (v : Server) (s : S)
      → OnlyAccepts es
      → any_added (arrivals es) ≡ true
      → wake_up storage es v s ≡ fault
  unfolding wake_up
  wake_up_accepted es v s only h =
      let (u, run, idle) = handled_accepts es v s only in
      rw (run, sweep_idle u.conns s (ground (arith, idle, h))) refl
