-- ===== src/Storage/Simulation.antt =====
-- The cache does on its nodes what the specification does on its entries, operation by operation.
use mathlib.Core.Option.{some-injective}
use ts_sem.Prelude.{
  ℕ, ◌≤◌, ◌<◌, ◌^◌, ◌≡◌, refl, sym, ◌∙◌, ◌⊎◌, inl, inr, true, false, some, arith, length,
  Bool-cases, Option-cases, ltb, is_some, subst, Bool, if◌then◌else◌, ltb→lt, ltb→le,
}
use ts_sem.Prelude.Bytes.{Bytes}
use ts_sem.Run.{Run, ok, fault, Sim, Sim-ok, Sim-fault}
use ts_sem.Storage.Api.{StorageApi, shrinks, result, spec_api, lru_api}
use ts_sem.Storage.Spec
use ts_sem.Storage.Spec.{Entries, total, lookup, remove}
use ts_sem.Storage.Lru.Memory.{Lru}
use ts_sem.Storage.Lru.Segment.{Cells}
use ts_sem.Storage.Lru.Delete.{delete-remove}
use ts_sem.Storage.Lru.Insert.{IsSized}
use ts_sem.Storage.Lru.Rep.{entries, Rep, Models}
use ts_sem.Storage.Lru.Refines.{
  Implements, DoesNotShrink, put_refines, set_refines, put_if_absent_refines, get_refines,
  put_shrinks,
}

-- The cache state `s` holds the entries `es`.
abbrev pub Holds : ℕ → Lru → Entries → Type 0
Holds max s es = Models max es s

-- What a client may assume of a storage that is used in place of the specification: related states
-- stay related, and results agree.
pub record Simulates (max : ℕ) {S : Type 0} (api : StorageApi S) (R : S → Entries → Type 0)
    : Type 0 where
  pub within : (s : S) (es : Entries) → R s es → total es ≤ max
  pub put :
      (k v : Bytes) (s : S) (es : Entries)
      → IsSized k v
      → R s es
      → Sim R (api.put k v s) ((spec_api max).put k v es)
  pub put_if_absent :
      (k v : Bytes) (s : S) (es : Entries)
      → IsSized k v
      → R s es
      → Sim R (api.put_if_absent k v s) ((spec_api max).put_if_absent k v es)
  pub set :
      (k v : Bytes) (s : S) (es : Entries)
      → IsSized k v
      → R s es
      → Sim R (api.set k v s) ((spec_api max).set k v es)
  pub delete :
      (k : Bytes) (s : S) (es : Entries)
      → R s es
      → Sim R (api.delete k s) ((spec_api max).delete k es)
  pub get :
      (k out : Bytes) (s : S) (es : Entries)
      → R s es
      → Sim R (api.get k out s) ((spec_api max).get k out es)

module _ {max : ℕ} (k v : Bytes) {s : Lru} (cs : Cells) (r : Rep max s cs) where
  shrink_cases :
      ((shrinks max k v (entries cs) ≡ false) × DoesNotShrink k cs r v)
      ⊎ ((shrinks max k v (entries cs) ≡ true)
          × ((w : Bytes) × (lookup k (entries cs) ≡ some w) × (length v < length w)))
  shrink_cases = elim (Option-cases (lookup k (entries cs))) [
    | inl e ↦ inl (rw (e, shrinks) refl, λ w h. cc)
    | inr (w, e) ↦ elim (Bool-cases (ltb (length v) (length w))) [
      | inl t ↦ inr (rw (e, shrinks) t, (w, e, ltb→lt _ _ t))
      | inr f ↦ inl (
        rw (e, shrinks) f,
        λ x h. subst (λ y. length y ≤ length v) (some-injective w x (sym e ∙ h)) (ltb→le _ _ f),
      )
    ]
  ]

  -- An operation that is right for longer values and faults for shorter ones simulates `spec_api`.
  guarded :
      (m : Run Lru Bool) (spec : Bool × Entries)
      → (DoesNotShrink k cs r v → Implements max m spec)
      → ((w : Bytes) → lookup k (entries cs) ≡ some w → length v < length w → m ≡ fault)
      → Sim (Holds max) m (if shrinks max k v (entries cs) then fault else ok spec.0 spec.1)
  guarded m spec good bad = elim shrink_cases [
    | inl (e, grows) ↦ let (t, run, rep) = good grows in rw e (Sim-ok (Holds max) spec.0 m run rep)
    | inr (e, (w, held, lt)) ↦ rw e (Sim-fault (Holds max) m (bad w held lt))
  ]

module _ {max : ℕ} {A : Type 0} where
  plain :
      (m : Run Lru A) (spec : A × Entries) → Implements max m spec → Sim (Holds max) m (result spec)
  plain m (a, es) (t, run, rep) = Sim-ok (Holds max) a m run rep

-- For a capacity below 2^63 SimpleLRU simulates the specification as a storage: in related states
-- every operation gives the same result and related states, with lengths that add up to less than
-- 2^64 for the three that store, or it is undefined where the specification is, which is where a
-- present key gets a shorter value.
pub lru_simulates : (max : ℕ) → max < 2 ^ 63 → Simulates max lru_api (Holds max)
lru_simulates max small = record {
  within = λ s es (cs, r, e). subst (λ x. total x ≤ max) e (omega (arith, r.sized));
  put = λ k v s es sz (cs, r, e).
      subst (λ x. Sim (Holds max) (lru_api.put k v s) ((spec_api max).put k v x)) e
        (guarded k v cs r _ (Spec.put max k v (entries cs)) (λ g. put_refines k cs r v sz g)
          (λ w h lt. (put_shrinks k cs r v w h lt small).0));
  put_if_absent = λ k v s es sz (cs, r, e).
      subst
        (λ x. Sim (Holds max) (lru_api.put_if_absent k v s) ((spec_api max).put_if_absent k v x)) e
        (plain _ (Spec.put_if_absent max k v (entries cs)) (put_if_absent_refines k cs r v sz));
  set = λ k v s es sz (cs, r, e).
      subst (λ x. Sim (Holds max) (lru_api.set k v s) ((spec_api max).set k v x)) e
        (guarded k v cs r _ (Spec.set max k v (entries cs)) (λ g. set_refines k cs r v sz g)
          (λ w h lt. (put_shrinks k cs r v w h lt small).1));
  delete = λ k s es (cs, r, e).
      subst (λ x. Sim (Holds max) (lru_api.delete k s) ((spec_api max).delete k x)) e
        (plain _ (is_some (lookup k (entries cs)), remove k (entries cs)) (delete-remove k cs r));
  get = λ k out s es (cs, r, e).
      subst (λ x. Sim (Holds max) (lru_api.get k out s) ((spec_api max).get k out x)) e
        (plain _ (Spec.get k out (entries cs)) (get_refines k cs r out));
}
