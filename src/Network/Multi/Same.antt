-- ===== src/Network/Multi/Same.antt =====
-- While the server runs, the connection with a mutex does what the single-threaded one does.
use mathlib.Core.Path.{fun_ext}
use ts_sem.Prelude.{
  ℕ, ◌+◌, ◌^◌, ltb, ◌≡◌, refl, ap, Bool, true, false, ◌||◌, if◌then◌else◌, Bool-cases, inl, inr,
  Option, none, some, List, [], ◌∷◌, ◌≢◌, ◌∙◌,
}
use ts_sem.Prelude.Bytes.{Bytes}
use ts_sem.Run
use ts_sem.Run.{Run, Cmd, ok, fault, out_of_fuel}
use ts_sem.Storage.Api.{StorageApi}
use ts_sem.Network.Connection.{Connection, run_command, respond, do_read, read_loop, set_events}
use ts_sem.Network.Connection.Write.{
  Written, accepted, nothing, would_block, failed, do_write, after_write, skip, int_sum,
}
use ts_sem.Network.Events.{Ready, dispatch}
use ts_sem.Network.Multi.{
  with_lock, release, beside, inside, mt_queue, mt_next_command, mt_run_command, mt_do_read,
  mt_after_write, mt_do_write, mt_dispatch, mt_on_error, mt_on_close, is_alive, rearm, work,
}

module _ {S : Type 0} (storage : StorageApi S) where
  commands_agree :
      (c : Connection) → mt_run_command storage (λ n. true) c ≡ run_command storage (λ n. true) c
  unfolding mt_run_command run_command respond mt_queue mt_next_command
  commands_agree c = refl

  released :
      {A : Type 0} (m : Cmd S A) (s : S) → with_lock (inside m) (false, s) ≡ inside m (false, s)
  released m s = any (m s)
    where
      any : {A : Type 0} (r : Run S A) → release (beside true r) ≡ beside false r
      any (ok a t) = refl
      any fault = refl
      any out_of_fuel = refl

  mt_do_read-do_read :
      (reads : List Bytes) (c : Connection) (s : S)
      → mt_do_read storage (λ n. true) reads c (false, s)
        ≡ inside (do_read storage (λ n. true) reads c) (false, s)
  unfolding mt_do_read do_read
  mt_do_read-do_read reads c s =
      released
        (λ t.
          Run.and_then (read_loop (mt_run_command storage (λ n. true)) reads c t)
            (λ p. Run.pure (set_events p)))
        s
      ∙ ap
          (λ answer.
            inside (λ t. Run.and_then (read_loop answer reads c t) (λ p. Run.pure (set_events p)))
              (false, s))
          (fun_ext commands_agree)

module _ {S : Type 0} where
  after_writes_agree :
      (q : ℕ × List Bytes) (c : Connection) (s : S)
      → release (mt_after_write true q c (true, s)) ≡ ok (after_write true q c) (false, s)
  unfolding mt_after_write after_write
  after_writes_agree (start, []) c s = refl
  after_writes_agree (start, r ∷ rs) c s = refl

  mt_do_write-do_write :
      (w : Written) (c : Connection) (s : S)
      → w ≢ failed
      → mt_do_write true w c (false, s) ≡ inside (do_write true w c) (false, s)
  unfolding mt_do_write do_write int_sum
  mt_do_write-do_write w c s n = written c.responses w n
    where
      written :
          (rs : List Bytes) (v : Written)
          → v ≢ failed
          → mt_do_write true v (record c { responses = rs }) (false, s)
            ≡ inside (do_write true v (record c { responses = rs })) (false, s)
      written [] v m = refl
      written (r ∷ rs) (accepted n) m = elim (Bool-cases (ltb (c.data_start + n) (2 ^ 31))) [
        | inl e ↦ rw e (
            after_writes_agree (skip (c.data_start + n) (r ∷ rs)) (record c { responses = r ∷ rs })
              s)
        | inr e ↦ rw e refl
      ]
      written (r ∷ rs) nothing m = refl
      written (r ∷ rs) would_block m = refl
      written (r ∷ rs) failed m = absurd (m refl)

-- What is left of a connection: it is alive, and epoll takes it again.
abbrev pub kept : Bool → Connection → Option Connection
kept rearmed d = if d.alive then (if rearmed then some d else none) else none

module _ {S : Type 0} (storage : StorageApi S) where
  pub bind_agrees :
      {A B : Type 0} (m : Run S A) (f : A → Cmd (Bool × S) B) (g : A → Cmd S B)
      → ((a : A) (s : S) → f a (false, s) ≡ beside false (g a s))
      → Run.and_then (beside false m) f ≡ beside false (Run.and_then m g)
  bind_agrees (ok a s) f g h = h a s
  bind_agrees fault f g h = refl
  bind_agrees out_of_fuel f g h = refl

  reads_agree :
      (readable : Bool) (reads : List Bytes) (c : Connection) (s : S)
      → (if readable then mt_do_read storage (λ n. true) reads c else Run.pure c) (false, s)
        ≡ beside false ((if readable then do_read storage (λ n. true) reads c else Run.pure c) s)
  reads_agree true reads c s = mt_do_read-do_read storage reads c s
  reads_agree false reads c s = refl

  writes_agree :
      (writable : Bool) (w : Written) (c : Connection) (s : S)
      → w ≢ failed
      → (if writable then mt_do_write true w c else Run.pure c) (false, s)
        ≡ beside false ((if writable then do_write true w c else Run.pure c) s)
  writes_agree true w c s n = mt_do_write-do_write w c s n
  writes_agree false w c s n = refl

  mt_dispatch-dispatch :
      (r : Ready) (c : Connection) (s : S)
      → r.written ≢ failed
      → mt_dispatch storage true r c (false, s) ≡ inside (dispatch storage true r c) (false, s)
  unfolding mt_dispatch mt_on_error mt_on_close dispatch
  mt_dispatch-dispatch r c s n = elim (Bool-cases (r.err || r.hup)) [
    | inl e ↦ rw e refl
    | inr e ↦ elim (Bool-cases r.rdhup) [
      | inl h ↦ rw (e, h) refl
      | inr h ↦
          rw (e, h)
            (ap
                (λ m.
                  Run.and_then m
                    (λ d. if r.writable then mt_do_write true r.written d else Run.pure d))
                (reads_agree r.readable r.reads c s)
              ∙ bind_agrees
                  ((if r.readable then do_read storage (λ _. true) r.reads c else Run.pure c) s) _ _
                  (λ d t. writes_agree r.writable r.written d t n))
    ]
  ]

  rearm_agrees :
      (rearmed : Bool) (d : Connection) (s : S)
      → Run.and_then (is_alive d (false, s)) (rearm rearmed d) ≡ ok (kept rearmed d) (false, s)
  unfolding is_alive mt_on_error
  rearm_agrees rearmed d s = alive d.alive rearmed
    where
      alive :
          (a r : Bool)
          → rearm r d a (false, s)
            ≡ ok (if a then (if r then some d else none) else none) (false, s)
      alive false r = refl
      alive true true = refl
      alive true false = refl

  -- While the server runs and no writev fails, what a worker makes of an event is what the single-
  -- threaded server makes of it, with the mutex free before and after; the connection is kept where
  -- it is alive and epoll takes it again.
  pub work-dispatch :
      (r : Ready) (rearmed : Bool) (c : Connection) (s : S)
      → r.written ≢ failed
      → work storage true r rearmed c (false, s)
        ≡ inside
            (λ t. Run.and_then (dispatch storage true r c t) (λ d. Run.pure (kept rearmed d)))
            (false, s)
  unfolding work
  work-dispatch r rearmed c s n =
      ap (λ m. Run.and_then m (λ d t. Run.and_then (is_alive d t) (rearm rearmed d)))
        (mt_dispatch-dispatch r c s n)
      ∙ bind_agrees (dispatch storage true r c s) _ _ (rearm_agrees rearmed)
