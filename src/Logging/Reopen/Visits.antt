-- ===== src/Logging/Reopen/Visits.antt =====
-- The search of reopen_all ends, and visits every sink that can be reached.
use ts_sem.Prelude.{
  ℕ, zero, suc, ◌+◌, ◌≤◌, ◌<◌, ◌≡◌, refl, ap, Bool, true, Option, none, some, List, [], ◌∷◌, ◌++◌,
  length, arith, length-append, Bool-cases, Option-cases, inl, inr,
}
use ts_sem.Logging.Reopen.{
  has, also, first_visit, reopen_loop, inner_count, unseen_count, reopen_all,
}
use ts_sem.Logging.Reopen.Seen.{
  has-append, Within, IsDistinct, Visited, unseen_cons, unseen_first, end_of_queue, seen_again,
  through_inner, past_other, at_file,
}

module _ (inner : ℕ → Option (List ℕ)) (is_file : ℕ → Bool) where
  -- A sink that can be reached from a list of sinks.
  pub data Reach (start : List ℕ) : ℕ → Type 0 where
    here : (x : ℕ) → has x start ≡ true → Reach start x
    inside :
        (x y : ℕ) (more : List ℕ)
        → Reach start x
        → inner x ≡ some more
        → has y more ≡ true
        → Reach start y

  -- `known` has the inner sinks of its sinks.
  abbrev pub IsClosed : List ℕ → Type 0
  IsClosed known =
      (x : ℕ) (more : List ℕ) → has x known ≡ true → inner x ≡ some more → Within more known

  -- How much fuel the loop wants.
  abbrev fuel_for : List ℕ → List ℕ → List ℕ → ℕ
  fuel_for known sinks seen = length sinks + unseen_count inner is_file known seen

  abbrev LoopVisits : ℕ → List ℕ → List ℕ → Type 0
  LoopVisits fuel sinks seen =
      (out : List ℕ) × (all : List ℕ) × (reopen_loop inner is_file fuel sinks seen ≡ some out)
      × Visited inner is_file sinks seen out all

  loop-Visited :
      (known : List ℕ)
      → IsClosed known
      → (fuel : ℕ) (sinks seen : List ℕ) → Within sinks known
      → fuel_for known sinks seen < fuel
      → LoopVisits fuel sinks seen
  unfolding reopen_loop first_visit
  loop-Visited known closed zero sinks seen w lt = absurd (omega (arith, lt))
  loop-Visited known closed (suc fuel) [] seen w lt =
      ([], seen, refl, end_of_queue inner is_file seen)
  loop-Visited known closed (suc fuel) (s ∷ sinks) seen w lt =
      let mine : has s known ≡ true = w s (ground arith) in
      let others : Within sinks known = λ x h. w x (ground (arith, h)) in
      let less = unseen_cons inner is_file s known seen in
      elim (Bool-cases (has s seen)) [
        | inl old ↦
            let (out, all, run, v) =
              loop-Visited known closed fuel sinks seen others (omega (arith, lt)) in
            (out, all, rw old run, seen_again inner is_file s sinks seen out all old v)
        | inr new ↦ elim (Option-cases (inner s)) [
          | inr (more, e) ↦
              let first : unseen_count inner is_file known (s ∷ seen) + length more
                  ≤ unseen_count inner is_file known seen =
                omega (
                  arith,
                  unseen_first inner is_file s known seen mine new,
                  ap (inner_count inner is_file) e,
                ) in
              let (out, all, run, v) =
                loop-Visited known closed fuel (sinks ++ more) (s ∷ seen)
                  (λ x h. elim (Bool-cases (has x more)) [
                    | inl q ↦ closed s more mine e x q
                    | inr q ↦ others x (ground (arith, h, q, has-append x sinks more))
                  ])
                  (omega (arith, lt, first, length-append sinks more)) in
              (
                out,
                all,
                rw (new, e, first_visit) run,
                through_inner inner is_file s sinks seen out all more e v,
              )
          | inl e ↦
              let (out, all, run, v) =
                loop-Visited known closed fuel sinks (s ∷ seen) others (omega (arith, lt, less)) in
              elim (Bool-cases (is_file s)) [
                | inl f ↦ (
                  s ∷ out,
                  all,
                  rw (new, e, f, first_visit) (ap (also s) run),
                  at_file inner is_file s sinks seen out all new e f v,
                )
                | inr f ↦ (
                  out,
                  all,
                  rw (new, e, f, first_visit) run,
                  past_other inner is_file s sinks seen out all e f v,
                )
              ]
        ]
      ]

  reached :
      (start out all : List ℕ)
      → Visited inner is_file start [] out all
      → (x : ℕ) → Reach start x
      → has x all ≡ true
  reached start out all v _ (here x h) = v.covers_sinks x h
  reached start out all v _ (inside x y more r e m) =
      v.covers_inner x more (reached start out all v x r) refl e y m

  -- Where the sinks inside of known sinks are known, and those at the start too, the search of
  -- reopen_all ends: no sink is reopened twice, only files are, and every file that can be reached
  -- from the start is.
  pub reopen_all-once :
      (known start : List ℕ)
      → IsClosed known
      → Within start known
      → (out : List ℕ) × (reopen_all inner is_file known start ≡ some out)
        × IsDistinct out
        × ((x : ℕ) → has x out ≡ true → (is_file x ≡ true) × (inner x ≡ none))
        × ((x : ℕ) → Reach start x → is_file x ≡ true → inner x ≡ none → has x out ≡ true)
  unfolding reopen_all
  reopen_all-once known start closed w =
      let (out, all, run, v) =
        loop-Visited known closed (suc (length start + unseen_count inner is_file known [])) start
          [] w (omega arith) in
      (
        out,
        run,
        v.distinct,
        λ x h. (v.files x h, v.no_dist x h),
        λ x r f e. v.covers_files x (reached start out all v x r) refl e f,
      )
