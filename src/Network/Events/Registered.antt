-- ===== src/Network/Events/Registered.antt =====
-- The clients of the loop over epoll.
use ts_sem.Prelude.{
  ℕ, ◌≡◌, refl, sym, ◌∙◌, Bool, true, List, [], ◌∷◌, ◌++◌, ◌==◌, Bool-cases, inl, inr,
}
use ts_sem.Run
use ts_sem.Run.{Run, Cmd, ok, fault, out_of_fuel, ◌>>=◌}
use ts_sem.Storage.Api.{StorageApi}
use ts_sem.Network.Connection.{Connection, Events}
use ts_sem.Network.Events.{Client, Ready, same_events, settle, dispatch, on_client}

-- A client is alive, and epoll watches it under the mask that it wants.
abbrev pub IsRegistered : Client → Type 0
IsRegistered e = (e.connection.alive ≡ true) × (e.watched ≡ e.connection.events)

abbrev pub AreRegistered : List Client → Type 0
AreRegistered [] = Unit {0}
AreRegistered (e ∷ es) = IsRegistered e × AreRegistered es

-- If the run ends, its value satisfies `P`.
abbrev pub Leads : {S A : Type 0} → Run S A → (A → Type 0) → Type 0
Leads (ok a s) P = P a
Leads fault P = Unit {0}
Leads out_of_fuel P = Unit {0}

Leads-bind :
    {S A B : Type 0} (m : Run S A) (f : A → Cmd S B) (P : A → Type 0) (Q : B → Type 0)
    → Leads m P
    → ((a : A) (s : S) → P a → Leads (f a s) Q)
    → Leads (Run.and_then m f) Q
Leads-bind (ok a s) f P Q h k = k a s h
Leads-bind fault f P Q h k = tt
Leads-bind out_of_fuel f P Q h k = tt

Leads-any : {S A : Type 0} (m : Run S A) → Leads m (λ _. Unit {0})
Leads-any (ok a s) = tt
Leads-any fault = tt
Leads-any out_of_fuel = tt

pub append-AreRegistered :
    (xs ys : List Client) → AreRegistered xs → AreRegistered ys → AreRegistered (xs ++ ys)
append-AreRegistered [] ys h k = k
append-AreRegistered (x ∷ xs) ys h k = (h.0, append-AreRegistered xs ys h.1 k)

pub same_events_sound : (a b : Events) → same_events a b ≡ true → a ≡ b
same_events_sound Events.no_events Events.no_events h = refl
same_events_sound Events.rd Events.rd h = refl
same_events_sound Events.wr Events.wr h = refl
same_events_sound Events.rdwr Events.rdwr h = refl
same_events_sound Events.no_events Events.rd h = cc
same_events_sound Events.no_events Events.wr h = cc
same_events_sound Events.no_events Events.rdwr h = cc
same_events_sound Events.rd Events.no_events h = cc
same_events_sound Events.rd Events.wr h = cc
same_events_sound Events.rd Events.rdwr h = cc
same_events_sound Events.wr Events.no_events h = cc
same_events_sound Events.wr Events.rd h = cc
same_events_sound Events.wr Events.rdwr h = cc
same_events_sound Events.rdwr Events.no_events h = cc
same_events_sound Events.rdwr Events.rd h = cc
same_events_sound Events.rdwr Events.wr h = cc

settle-AreRegistered :
    (changed : Bool) (e : Client) (d : Connection)
    → IsRegistered e
    → AreRegistered (settle changed e d)
unfolding settle
settle-AreRegistered changed e d h = elim (Bool-cases d.alive) [
  | inr a ↦ rw a tt
  | inl a ↦ elim (Bool-cases (same_events d.events e.connection.events)) [
    | inl same ↦
        rw (a, same) ((refl, h.1 ∙ sym (same_events_sound d.events e.connection.events same)), tt)
    | inr other ↦ elim (Bool-cases changed) [
      | inl c ↦ rw (a, other, c) ((refl, refl), tt)
      | inr c ↦ rw (a, other, c) tt
    ]
  ]
]

module _ {S : Type 0} (storage : StorageApi S) where
  pub on_client-AreRegistered :
      (run : Bool) (socket : ℕ) (r : Ready) (changed : Bool) (conns : List Client) (s : S)
      → AreRegistered conns
      → Leads (on_client storage run socket r changed conns s) AreRegistered
  unfolding on_client
  on_client-AreRegistered run socket r changed [] s h = tt
  on_client-AreRegistered run socket r changed (e ∷ es) s h =
      elim (Bool-cases (e.socket == socket)) [
        | inl this ↦ rw this (
            Leads-bind (dispatch storage run r e.connection s) _ (λ _. Unit {0}) AreRegistered
              (Leads-any _)
              (λ d t _.
                append-AreRegistered (settle changed e d) es (settle-AreRegistered changed e d h.0)
                  h.1))
        | inr other ↦ rw other (
            Leads-bind (on_client storage run socket r changed es s) _ AreRegistered AreRegistered
              (on_client-AreRegistered run socket r changed es s h.1) (λ rest t k. (h.0, k)))
      ]
