-- ===== src/Network/Connection/Write.antt =====
-- DoWrite: which bytes leave the queue.
use mathlib.Core.List.{append_assoc}
use ts_sem.Prelude.{
  ℕ, zero, suc, ◌+◌, ◌-◌, ◌^◌, ltb, lt→ltb, ◌≤◌, ◌<◌, ◌≡◌, refl, sym, ap, ◌∙◌, Bool, true, false,
  List, [], ◌∷◌, ◌++◌, leb, if◌then◌else◌, length, take, drop, length-drop, take-append-drop, arith,
  length-append, Bool-cases, inl, inr, ◌≢◌,
}
use ts_sem.Prelude.Bytes.{Bytes}
use ts_sem.Run
use ts_sem.Run.{Run, ok, Cmd, ◌>>=◌}
use ts_sem.Network.Connection.{Connection, Events, on_error, on_close}

abbrev pub concat : List Bytes → Bytes
concat [] = []
concat (r ∷ rs) = r ++ concat rs

-- What is queued and not yet written.
abbrev pub pending : Connection → Bytes
pending c = drop c.data_start (concat c.responses)

abbrev pub resp_buf_size : ℕ
resp_buf_size = 64

-- The bytes of the `iovec`s that `writev` gets.
unfoldable pub offered : Connection → Bytes
offered c = drop c.data_start (concat (take resp_buf_size c.responses))

-- What `writev` returns: a positive number, 0, or an error, which may be EAGAIN.
pub data Written : Type 0 where
  accepted : ℕ → Written
  nothing would_block failed : Written

-- The loop that skips the responses that are written. The fuel is the queue itself.
unfoldable pub skip : ℕ → List Bytes → ℕ × List Bytes
skip n [] = (n, [])
skip n (r ∷ rs) =
    let rest = skip (n - length r) rs in if leb (length r) n then rest else (n, r ∷ rs)

unfoldable pub wait_to_write : Bool → Connection → Connection
wait_to_write run c = record c { events = if run then Events.rdwr else Events.wr }

unfoldable pub after_write : Bool → ℕ × List Bytes → Connection → Connection
unfolding on_close wait_to_write
after_write run (start, rs) c =
    let d : Connection = record c { responses = rs; data_start = start } in
    elim rs [
      | [] ↦ if run then record d { events = Events.rd } else on_close d
      | _ ∷ _ ↦ wait_to_write run d
    ]

-- `data_start += written`, where both are of type `int`.
unfoldable pub int_sum : {S : Type 0} → ℕ → ℕ → Cmd S ℕ
int_sum m n = if ltb (m + n) (2 ^ 31) then Run.pure (m + n) else Run.fail

-- `run` is the value of the server's flag. The assertion wants a response in the queue.
unfoldable pub do_write : {S : Type 0} → Bool → Written → Connection → Cmd S Connection
unfolding skip after_write on_error wait_to_write int_sum
do_write run w c = elim c.responses [
  | [] ↦ Run.fail
  | _ ∷ _ ↦ elim w [
    | accepted n ↦ (do
      start ← int_sum c.data_start n
      Run.pure (after_write run (skip start c.responses) c))
    | nothing ↦ Run.pure (wait_to_write run c)
    | would_block ↦ Run.pure (wait_to_write run c)
    | failed ↦ Run.pure (on_error c)
  ]
]

-- `data_start` stands inside the first response of the queue.
abbrev pub StartsIn : ℕ → List Bytes → Type 0
StartsIn n [] = n ≡ 0
StartsIn n (r ∷ rs) = n < length r

drop-append_long : (n : ℕ) (r x : Bytes) → length r ≤ n → drop n (r ++ x) ≡ drop (n - length r) x
drop-append_long n [] x h = ap (λ m. drop m x) (omega arith)
drop-append_long zero (b ∷ r) x h = absurd (omega arith)
drop-append_long (suc n) (b ∷ r) x h =
    drop-append_long n r x (omega (arith, h)) ∙ ap (λ m. drop m x) (omega arith)

drop-append_short : (n : ℕ) (r x : Bytes) → n ≤ length r → drop n (r ++ x) ≡ drop n r ++ x
drop-append_short zero r x h = refl
drop-append_short (suc n) [] x h = absurd (omega (arith, h))
drop-append_short (suc n) (b ∷ r) x h = drop-append_short n r x (omega (arith, h))

take-append_short : (n : ℕ) (r x : Bytes) → n ≤ length r → take n (r ++ x) ≡ take n r
take-append_short zero r x h = refl
take-append_short (suc n) [] x h = absurd (omega (arith, h))
take-append_short (suc n) (b ∷ r) x h = ap (◌∷◌ b) (take-append_short n r x (omega (arith, h)))

drop-nil : (n : ℕ) → drop {A = ℕ} n [] ≡ []
drop-nil zero = refl
drop-nil (suc n) = refl

drop-drop : (m n : ℕ) (x : Bytes) → drop n (drop m x) ≡ drop (m + n) x
drop-drop zero n x = ap (λ k. drop k x) (omega arith)
drop-drop (suc m) n [] = drop-nil n ∙ sym (drop-nil (suc m + n))
drop-drop (suc m) n (b ∷ x) =
    let e : suc (m + n) ≡ suc m + n = omega arith in drop-drop m n x ∙ ap (λ k. drop k (b ∷ x)) e

concat-take-drop : (n : ℕ) (rs : List Bytes) → concat rs ≡ concat (take n rs) ++ concat (drop n rs)
concat-take-drop zero rs = refl
concat-take-drop (suc n) [] = refl
concat-take-drop (suc n) (r ∷ rs) =
    ap (λ x. r ++ x) (concat-take-drop n rs) ∙ sym (append_assoc r _ _)

-- The loop keeps what is pending and leaves a start inside the first response.
skip-pending :
    (n : ℕ) (rs : List Bytes)
    → n ≤ length (concat rs)
    → (drop (skip n rs).0 (concat (skip n rs).1) ≡ drop n (concat rs))
      × StartsIn (skip n rs).0 (skip n rs).1
unfolding skip
skip-pending n [] h = (refl, omega (arith, h))
skip-pending n (r ∷ rs) h = elim (Bool-cases (leb (length r) n)) [
  | inl e ↦
      let le : length r ≤ n = ground arith in
      let (same, starts) =
        skip-pending (n - length r) rs (omega (arith, h, length-append r (concat rs))) in
      rw e (same ∙ sym (drop-append_long n r (concat rs) le), starts)
  | inr e ↦ rw e (refl, ground arith)
]

-- What the end of DoWrite leaves of a start `m` and a queue `rs`.
abbrev Leaves : Bool → ℕ → List Bytes → Connection → Type 0
Leaves run m rs d =
    (pending d ≡ drop m (concat rs))
    × (StartsIn m rs → StartsIn d.data_start d.responses)
    × (d.responses ≡ [] → (if run then d.events ≡ Events.rd else d.alive ≡ false))
    × (d.responses ≢ [] → d.events ≡ (if run then Events.rdwr else Events.wr))

after_write-Leaves :
    (run : Bool) (m : ℕ) (rs : List Bytes) (c : Connection)
    → Leaves run m rs (after_write run (m, rs) c)
unfolding after_write on_close wait_to_write
after_write-Leaves true m [] c = (refl, λ h. h, λ e. refl, λ n. absurd (n refl))
after_write-Leaves false m [] c = (refl, λ h. h, λ e. refl, λ n. absurd (n refl))
after_write-Leaves run m (r ∷ rs) c = (refl, λ h. h, λ e. cc, λ n. refl)

queue_some :
    (rs : List Bytes) (m : Cmd (Unit {0}) Connection) (d : Connection)
    → rs ≢ []
    → m tt ≡ ok d tt
    → (elim rs as (λ x. Cmd (Unit {0}) Connection) [ [] ↦ Run.fail | _ ∷ _ ↦ m ]) tt ≡ ok d tt
queue_some [] m d n e = absurd (n refl)
queue_some (r ∷ rs) m d n e = e

module _ (c : Connection) (starts : StartsIn c.data_start c.responses) where
  start_le : c.data_start ≤ length (concat (take resp_buf_size c.responses))
  start_le = inside c.data_start c.responses starts
    where
      inside :
          (n : ℕ) (rs : List Bytes) → StartsIn n rs → n ≤ length (concat (take resp_buf_size rs))
      inside n [] h = omega (arith, h)
      inside n (r ∷ rs) h = omega (arith, h, length-append r (concat (take 63 rs)))

  -- What is offered is the beginning of what is pending.
  pending-offered : pending c ≡ offered c ++ concat (drop resp_buf_size c.responses)
  unfolding offered
  pending-offered =
      ap (drop c.data_start) (concat-take-drop resp_buf_size c.responses)
      ∙ drop-append_short c.data_start (concat (take resp_buf_size c.responses)) _ start_le

  -- For a non-empty queue whose first response is written up to a place inside it, when writev
  -- takes `n` of the offered bytes and the place plus `n` is below 2^31: these and what is pending
  -- afterwards are what was pending before, the place is inside the first response again, or 0 for
  -- an empty queue, and the connection waits to read or is closed for an empty queue, and waits to
  -- write otherwise.
  pub do_write-sends :
      (run : Bool) (n : ℕ)
      → n ≤ length (offered c)
      → c.data_start + n < 2 ^ 31
      → c.responses ≢ []
      → (d : Connection) × (do_write run (accepted n) c tt ≡ ok d tt)
        × (take n (offered c) ++ pending d ≡ pending c)
        × StartsIn d.data_start d.responses
        × (d.responses ≡ [] → (if run then d.events ≡ Events.rd else d.alive ≡ false))
        × (d.responses ≢ [] → d.events ≡ (if run then Events.rdwr else Events.wr))
  unfolding do_write offered int_sum
  do_write-sends run n le small some =
      let whole = pending-offered in
      let fits : c.data_start + n ≤ length (concat c.responses) = omega (
        arith,
        length-drop c.data_start (concat c.responses),
        start_le,
        ap length whole,
        length-append (offered c) (concat (drop resp_buf_size c.responses)),
        length-drop c.data_start (concat (take resp_buf_size c.responses)),
        ap length (concat-take-drop resp_buf_size c.responses),
        length-append (concat (take resp_buf_size c.responses))
            (concat (drop resp_buf_size c.responses)),
      ) in
      let (same, starts') = skip-pending (c.data_start + n) c.responses fits in
      let next = skip (c.data_start + n) c.responses in
      let (kept, begins, idle, busy) = after_write-Leaves run next.0 next.1 c in
      let left = kept ∙ same ∙ sym (drop-drop c.data_start n (concat c.responses)) in
      let first : take n (offered c) ≡ take n (pending c) =
        sym (ap (take n) whole ∙ take-append_short n (offered c) _ le) in
      (
        after_write run next c,
        queue_some c.responses
            (int_sum c.data_start n >>= λ start.
              Run.pure (after_write run (skip start c.responses) c))
            (after_write run next c) some (rw (lt→ltb (c.data_start + n) (2 ^ 31) small) refl),
        ap (λ x. x ++ pending (after_write run next c)) first
            ∙ ap (λ x. take n (pending c) ++ x) left
            ∙ take-append-drop n (pending c),
        begins starts',
        idle,
        busy,
      )
