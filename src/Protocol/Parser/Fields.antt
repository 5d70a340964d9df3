-- ===== src/Protocol/Parser/Fields.antt =====
-- The loop of Parse over one field of a command line.
use ts_sem.Prelude.{
  ℕ, suc, ◌+◌, ◌-◌, ◌*◌, ◌^◌, ◌≤◌, ◌<◌, ◌≡◌, refl, sym, ap, ◌∙◌, Bool, true, false, List, [], ◌∷◌,
  ◌++◌, ◌==◌, length, arith,
}
use mathlib.Core.List.{append_assoc, append-nil}
use ts_sem.Prelude.Bytes.{Bytes}
use ts_sem.Prelude.Int.{ℤ, pos, ◌+ℤ◌}
use ts_sem.Protocol.Parser.Stream.{loop_steps}
use ts_sem.Protocol.Parser.{
  Parser, State, next, space, cr, is_digit, push_digit, push_expire, step, step_name, step_put_key,
  step_get_key, step_flags, step_expr_time_start, step_expr_time, step_bytes, parse_loop, on_next,
}

-- A parser in the middle of a line.
abbrev pub mid : State → Bytes → List Bytes → ℕ → ℤ → ℕ → Bool → Bytes → Parser
mid st nm ks fl et by ng ck = record {
  state = st;
  name = nm;
  keys = ks;
  flags = fl;
  exprtime = et;
  bytes = by;
  negative = ng;
  cur_key = ck;
  parse_complete = false;
}

-- No byte of a word is a space or a carriage return.
abbrev pub IsWord : Bytes → Type 0
IsWord [] = Unit {0}
IsWord (c ∷ cs) = ((c == space) ≡ false) × ((c == cr) ≡ false) × IsWord cs

abbrev pub IsDigits : Bytes → Type 0
IsDigits [] = Unit {0}
IsDigits (c ∷ cs) = (is_digit c ≡ true) × IsDigits cs

-- The number that digits stand for, behind digits that stand for `n`.
abbrev pub value : ℕ → Bytes → ℕ
value n [] = n
value n (d ∷ ds) = value (n * 10 + (d - b'0')) ds

-- The sum of the digits, added to `n`.
abbrev pub digit_sum : ℕ → Bytes → ℕ
digit_sum n [] = n
digit_sum n (d ∷ ds) = digit_sum (n + (d - b'0')) ds

pub value-le : (n : ℕ) (ds : Bytes) → n ≤ value n ds
value-le n [] = omega arith
value-le n (d ∷ ds) = omega (arith, value-le (n * 10 + (d - b'0')) ds)

pub digit_sum-le : (n : ℕ) (ds : Bytes) → n ≤ digit_sum n ds
digit_sum-le n [] = omega arith
digit_sum-le n (d ∷ ds) = omega (arith, digit_sum-le (n + (d - b'0')) ds)

-- One byte of a line that goes on.
pub loop_next :
    (c : ℕ) (cs : Bytes) (at : ℕ) (p q : Parser)
    → p.parse_complete ≡ false
    → step p c at ≡ next q
    → parse_loop (c ∷ cs) at p ≡ parse_loop cs (suc at) q
loop_next c cs at p q live e =
    loop_steps c cs at p live ∙ ap (λ o. on_next o (λ r. parse_loop cs (suc at) r)) e

module _ (nm : Bytes) (ks : List Bytes) (fl : ℕ) (et : ℤ) (by : ℕ) (ng : Bool) (ck : Bytes)
    (c at : ℕ) where
  name_byte :
      (c == space) ≡ false
      → (c == cr) ≡ false
      → step (mid State.s_name nm ks fl et by ng ck) c at
        ≡ next (mid State.s_name (nm ++ c ∷ []) ks fl et by ng ck)
  unfolding step step_name
  name_byte h k = rw (h, k) refl

  put_key_byte :
      (c == space) ≡ false
      → step (mid State.sp_key nm ks fl et by ng ck) c at
        ≡ next (mid State.sp_key nm ks fl et by ng (ck ++ c ∷ []))
  unfolding step step_put_key
  put_key_byte h = rw h refl

  get_key_byte :
      (c == space) ≡ false
      → (c == cr) ≡ false
      → step (mid State.sg_key nm ks fl et by ng ck) c at
        ≡ next (mid State.sg_key nm ks fl et by ng (ck ++ c ∷ []))
  unfolding step step_get_key
  get_key_byte h k = rw (h, k) refl

  flags_digit :
      is_digit c ≡ true
      → fl * 10 + (c - b'0') < 2 ^ 32
      → step (mid State.sp_flags nm ks fl et by ng ck) c at
        ≡ next (mid State.sp_flags nm ks (fl * 10 + (c - b'0')) et by ng ck)
  unfolding step step_flags push_digit
  flags_digit d small = ground arith

  bytes_digit :
      is_digit c ≡ true
      → by * 10 + (c - b'0') < 2 ^ 32
      → step (mid State.sp_bytes nm ks fl et by ng ck) c at
        ≡ next (mid State.sp_bytes nm ks fl et (by * 10 + (c - b'0')) ng ck)
  unfolding step step_bytes push_digit
  bytes_digit d small = ground arith

  pub start_digit :
      is_digit c ≡ true
      → step (mid State.sp_expr_time_start nm ks fl et by ng ck) c at
        ≡ next (mid State.sp_expr_time nm ks fl (pos (c - b'0')) by ng ck)
  unfolding step step_expr_time_start
  start_digit d = ground arith

  expire_digit :
      (t : ℕ)
      → is_digit c ≡ true
      → t + (c - b'0') < 2 ^ 31
      → step (mid State.sp_expr_time nm ks fl (pos t) by false ck) c at
        ≡ next (mid State.sp_expr_time nm ks fl (pos (t + (c - b'0'))) by false ck)
  unfolding step step_expr_time push_expire ◌+ℤ◌
  expire_digit t d small = ground arith

-- The loop over all bytes of a field, up to the byte that ends it.
module _ (rest : Bytes) (nm : Bytes) (ks : List Bytes) where
  move : {m n : ℕ} {p q : Parser} → m ≡ n → p ≡ q → parse_loop rest m p ≡ parse_loop rest n q
  move e f = cc

  pub read_name :
      (w n ck : Bytes) (fl : ℕ) (et : ℤ) (by : ℕ) (ng : Bool) (at : ℕ)
      → IsWord w
      → parse_loop (w ++ rest) at (mid State.s_name n ks fl et by ng ck)
        ≡ parse_loop rest (at + length w) (mid State.s_name (n ++ w) ks fl et by ng ck)
  read_name [] n ck fl et by ng at h =
      move (omega arith) (ap (λ x. mid State.s_name x ks fl et by ng ck) (sym (append-nil n)))
  read_name (c ∷ w) n ck fl et by ng at h =
      loop_next c (w ++ rest) at _ _ refl (name_byte n ks fl et by ng ck c at h.0 h.1)
      ∙ read_name w (n ++ c ∷ []) ck fl et by ng (suc at) h.2
      ∙ move (omega arith)
          (ap (λ x. mid State.s_name x ks fl et by ng ck) (append_assoc n (c ∷ []) w))

  pub read_put_key :
      (w ck : Bytes) (fl : ℕ) (et : ℤ) (by : ℕ) (ng : Bool) (at : ℕ)
      → IsWord w
      → parse_loop (w ++ rest) at (mid State.sp_key nm ks fl et by ng ck)
        ≡ parse_loop rest (at + length w) (mid State.sp_key nm ks fl et by ng (ck ++ w))
  read_put_key [] ck fl et by ng at h =
      move (omega arith) (ap (λ x. mid State.sp_key nm ks fl et by ng x) (sym (append-nil ck)))
  read_put_key (c ∷ w) ck fl et by ng at h =
      loop_next c (w ++ rest) at _ _ refl (put_key_byte nm ks fl et by ng ck c at h.0)
      ∙ read_put_key w (ck ++ c ∷ []) fl et by ng (suc at) h.2
      ∙ move (omega arith)
          (ap (λ x. mid State.sp_key nm ks fl et by ng x) (append_assoc ck (c ∷ []) w))

  pub read_get_key :
      (w ck : Bytes) (fl : ℕ) (et : ℤ) (by : ℕ) (ng : Bool) (at : ℕ)
      → IsWord w
      → parse_loop (w ++ rest) at (mid State.sg_key nm ks fl et by ng ck)
        ≡ parse_loop rest (at + length w) (mid State.sg_key nm ks fl et by ng (ck ++ w))
  read_get_key [] ck fl et by ng at h =
      move (omega arith) (ap (λ x. mid State.sg_key nm ks fl et by ng x) (sym (append-nil ck)))
  read_get_key (c ∷ w) ck fl et by ng at h =
      loop_next c (w ++ rest) at _ _ refl (get_key_byte nm ks fl et by ng ck c at h.0 h.1)
      ∙ read_get_key w (ck ++ c ∷ []) fl et by ng (suc at) h.2
      ∙ move (omega arith)
          (ap (λ x. mid State.sg_key nm ks fl et by ng x) (append_assoc ck (c ∷ []) w))

  pub read_flags :
      (ds : Bytes) (fl : ℕ) (et : ℤ) (by : ℕ) (ng : Bool) (ck : Bytes) (at : ℕ)
      → IsDigits ds
      → value fl ds < 2 ^ 32
      → parse_loop (ds ++ rest) at (mid State.sp_flags nm ks fl et by ng ck)
        ≡ parse_loop rest (at + length ds) (mid State.sp_flags nm ks (value fl ds) et by ng ck)
  read_flags [] fl et by ng ck at h small = move (omega arith) refl
  read_flags (d ∷ ds) fl et by ng ck at h small =
      let more = value-le (fl * 10 + (d - b'0')) ds in
      loop_next d (ds ++ rest) at _ _ refl
        (flags_digit nm ks fl et by ng ck d at h.0 (omega (arith, more)))
      ∙ read_flags ds (fl * 10 + (d - b'0')) et by ng ck (suc at) h.1 small
      ∙ move (omega arith) refl

  pub read_bytes :
      (ds : Bytes) (fl : ℕ) (et : ℤ) (by : ℕ) (ng : Bool) (ck : Bytes) (at : ℕ)
      → IsDigits ds
      → value by ds < 2 ^ 32
      → parse_loop (ds ++ rest) at (mid State.sp_bytes nm ks fl et by ng ck)
        ≡ parse_loop rest (at + length ds) (mid State.sp_bytes nm ks fl et (value by ds) ng ck)
  read_bytes [] fl et by ng ck at h small = move (omega arith) refl
  read_bytes (d ∷ ds) fl et by ng ck at h small =
      let more = value-le (by * 10 + (d - b'0')) ds in
      loop_next d (ds ++ rest) at _ _ refl
        (bytes_digit nm ks fl et by ng ck d at h.0 (omega (arith, more)))
      ∙ read_bytes ds fl et (by * 10 + (d - b'0')) ng ck (suc at) h.1 small
      ∙ move (omega arith) refl

  pub read_expire :
      (ds : Bytes) (fl t by : ℕ) (ck : Bytes) (at : ℕ)
      → IsDigits ds
      → digit_sum t ds < 2 ^ 31
      → parse_loop (ds ++ rest) at (mid State.sp_expr_time nm ks fl (pos t) by false ck)
        ≡ parse_loop rest
            (at + length ds)
            (mid State.sp_expr_time nm ks fl (pos (digit_sum t ds)) by false ck)
  read_expire [] fl t by ck at h small = move (omega arith) refl
  read_expire (d ∷ ds) fl t by ck at h small =
      let more = digit_sum-le (t + (d - b'0')) ds in
      loop_next d (ds ++ rest) at _ _ refl
        (expire_digit nm ks fl (pos t) by false ck d at t h.0 (omega (arith, more)))
      ∙ read_expire ds fl (t + (d - b'0')) by ck (suc at) h.1 small
      ∙ move (omega arith) refl
