-- ===== src/Run.antt =====
-- Runs of imperative code over a state: a value and the state after it, a fault (a null or dangling
-- pointer, which C++ leaves undefined), or a loop that has used up its fuel.
use ts_sem.Prelude.{◌≡◌, refl, sym, subst}

pub data Run (S A : Type 0) : Type 0 where
  ok : A → S → Run S A
  fault : Run S A
  out_of_fuel : Run S A

abbrev pub Cmd : Type 0 → Type 0 → Type 0
Cmd S A = S → Run S A

module _ {S : Type 0} where
  abbrev pub pure : {A : Type 0} → A → Cmd S A
  pure a s = ok a s

  abbrev pub fail : {A : Type 0} → Cmd S A
  fail s = fault

  abbrev pub and_then : {A B : Type 0} → Run S A → (A → Cmd S B) → Run S B
  and_then (ok a s) k = k a s
  and_then fault k = fault
  and_then out_of_fuel k = out_of_fuel

  infixl 5 ◌>>=◌ ◌>>◌
  abbrev pub ◌>>=◌ : {A B : Type 0} → Cmd S A → (A → Cmd S B) → Cmd S B
  ◌>>=◌ m k s = and_then (m s) k

  abbrev pub ◌>>◌ : {A B : Type 0} → Cmd S A → Cmd S B → Cmd S B
  m >> k = m >>= λ _. k

  abbrev pub get_state : Cmd S S
  get_state s = ok s s

  abbrev pub modify : (S → S) → Cmd S (Unit {0})
  modify f s = ok tt (f s)

  -- The run ends with the value `a` in a state that satisfies `P`.
  abbrev pub Ends : {A : Type 0} → Run S A → A → (S → Type 0) → Type 0
  Ends r a P = (s : S) × (r ≡ ok a s) × P s

-- Two runs that do the same: both end, with one value and in related states, or both go wrong alike.
abbrev pub Sim : {S T A : Type 0} → (S → T → Type 0) → Run S A → Run T A → Type 0
Sim R (ok a s) (ok b t) = (a ≡ b) × R s t
Sim R fault fault = Unit {0}
Sim R out_of_fuel out_of_fuel = Unit {0}
Sim R _ _ = ⊥

module _ {S T A : Type 0} (R : S → T → Type 0) where
  pub Sim-ok : (a : A) {s : S} {t : T} (m : Run S A) → m ≡ ok a s → R s t → Sim R m (ok a t)
  Sim-ok a {s} {t} m e r = subst (λ x. Sim R x (ok a t)) (sym e) (refl, r)

  pub Sim-fault : (m : Run S A) → m ≡ fault → Sim R m fault
  Sim-fault m e = subst (λ x. Sim R x fault) (sym e) tt

-- A run whose value and state satisfy `P` if it ends, and that uses up its fuel only where `F` holds.
abbrev pub Within : {S A : Type 0} → Type 0 → Run S A → (A → S → Type 0) → Type 0
Within F (ok a s) P = P a s
Within F fault P = Unit {0}
Within F out_of_fuel P = F

-- A run that does not use up its fuel, and whose value and state satisfy `P` if it ends.
abbrev pub Post : {S A : Type 0} → Run S A → (A → S → Type 0) → Type 0
Post r P = Within ⊥ r P

module _ {S A B : Type 0} where
  pub Within-bind :
      (F : Type 0) (m : Run S A) (f : A → Cmd S B) (P : A → S → Type 0) (Q : B → S → Type 0)
      → Within F m P
      → ((a : A) (s : S) → P a s → Within F (f a s) Q)
      → Within F (and_then m f) Q
  Within-bind F (ok a s) f P Q h k = k a s h
  Within-bind F fault f P Q h k = tt
  Within-bind F out_of_fuel f P Q h k = h

pub Within_left :
    {S A : Type 0} (F : Type 0) (r : Run S A) (P Q : A → S → Type 0)
    → Within F r (λ a s. P a s × Q a s)
    → Within F r P
Within_left F (ok a s) P Q h = h.0
Within_left F fault P Q h = tt
Within_left F out_of_fuel P Q h = h
