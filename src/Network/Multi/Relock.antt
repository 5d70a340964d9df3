-- ===== src/Network/Multi/Relock.antt =====
-- The connection locks its mutex twice.
use ts_sem.Prelude.{
  ℕ, ◌+◌, ◌-◌, ◌^◌, ltb, Bool-cases, inl, inr, ◌≤◌, ◌≡◌, refl, ap, Bool, true, false, List, [], ◌∷◌,
  ◌≢◌, length, drop, arith, le→leb, length-append, length-drop,
}
use ts_sem.Prelude.Bytes.{Bytes}
use ts_sem.Run.{fault}
use ts_sem.Network.Connection.{Connection}
use ts_sem.Network.Connection.Write.{concat, pending, accepted, failed, skip, int_sum}
use ts_sem.Network.Multi.{release, mt_after_write, mt_do_write, mt_on_error, mt_on_close}

skip_all : (n : ℕ) (rs : List Bytes) → length (concat rs) ≤ n → (skip n rs).1 ≡ []
unfolding skip
skip_all n [] h = refl
skip_all n (r ∷ rs) h =
    rw (le→leb (length r) n (omega (arith, h, length-append r (concat rs))))
      (skip_all (n - length r) rs (omega (arith, h, length-append r (concat rs))))

module _ {S : Type 0} where
  after_write_stopped :
      (q : ℕ × List Bytes) (c : Connection) (s : S)
      → q.1 ≡ []
      → mt_after_write false q c (true, s) ≡ fault
  unfolding mt_after_write mt_on_close
  after_write_stopped (start, []) c s e = refl
  after_write_stopped (start, r ∷ rs) c s e = cc

  -- DoWrite of the connection with a mutex is undefined for a non-empty queue where writev fails,
  -- and also where it takes all that is pending after the server has stopped: OnError and OnClose
  -- lock the mutex that DoWrite holds.
  pub mt_do_write_relocks :
      (c : Connection) (s : S)
      → c.responses ≢ []
      → ((run : Bool) → mt_do_write run failed c (false, s) ≡ fault)
        × ((n : ℕ) → length (pending c) ≤ n → mt_do_write false (accepted n) c (false, s) ≡ fault)
  unfolding mt_do_write mt_on_error int_sum
  mt_do_write_relocks c s n = (λ run. at_error c.responses run n, λ m h. at_end c.responses m n h)
    where
      at_error :
          (rs : List Bytes) (run : Bool)
          → rs ≢ []
          → mt_do_write run failed (record c { responses = rs }) (false, s) ≡ fault
      at_error [] run k = absurd (k refl)
      at_error (r ∷ rs) run k = refl

      at_end :
          (rs : List Bytes) (m : ℕ)
          → rs ≢ []
          → length (drop c.data_start (concat rs)) ≤ m
          → mt_do_write false (accepted m) (record c { responses = rs }) (false, s) ≡ fault
      at_end [] m k h = absurd (k refl)
      at_end (r ∷ rs) m k h = elim (Bool-cases (ltb (c.data_start + m) (2 ^ 31))) [
        | inr e ↦ rw e refl
        | inl e ↦ rw e (
            ap release (
              after_write_stopped (skip (c.data_start + m) (r ∷ rs))
                (record c { responses = r ∷ rs }) s
                (skip_all (c.data_start + m) (r ∷ rs)
                  (omega (arith, h, length-drop c.data_start (concat (r ∷ rs)))))))
      ]
