-- ===== src/Network/Connection/Pieces/Fill.antt =====
-- fill_argument on input that comes in two pieces.
use Prim.Native.Nat.{min}
use mathlib.Core.List.{append_assoc}
use ts_sem.Prelude.{
  ◌+◌, ◌-◌, ◌<◌, ◌≡◌, refl, sym, ap, ◌∙◌, ◌⊎◌, inl, inr, Option, none, some, [], ◌++◌, ltb, length,
  take, drop, arith, Bool-cases, lt→ltb, ltb→lt, ltb→le, length-append, take-append, drop-append,
  take_prefix, drop_prefix, take_all, drop_all,
}
use ts_sem.Prelude.Bytes.{Bytes}
use ts_sem.Execute.{Command}
use ts_sem.Network.Connection.{Connection, fill, fill_argument}
use ts_sem.Network.Connection.Pieces.{extend}

-- A command with a part of its argument, when all of the buffer is taken.
abbrev partly : Command → Connection → Connection
partly m c = record c {
  command = some m;
  argument = c.argument ++ c.buffer;
  buffer = [];
  arg_remains = c.arg_remains - length c.buffer;
}

-- The argument is longer than the buffer: it is filled in two steps.
module _ (m : Command) (c : Connection) (b : Bytes) (lt : length c.buffer < c.arg_remains) where
  fill_argument-partly : fill_argument (record c { command = some m }) ≡ partly m c
  unfolding fill_argument fill
  fill_argument-partly =
      let all : min c.arg_remains (length c.buffer) ≡ length c.buffer = omega (arith, lt) in
      rw (lt→ltb 0 c.arg_remains (omega (arith, lt)), all, take_all c.buffer, drop_all c.buffer)
        refl

  fill_argument_rest :
      fill_argument (extend b (record c { command = some m }))
      ≡ fill_argument (extend b (partly m c))
  unfolding fill_argument fill
  fill_argument_rest =
      let n = c.arg_remains in
      let r = length c.buffer in
      let j = min (n - r) (length b) in
      let k : min n (length (c.buffer ++ b)) ≡ r + j =
        omega (arith, length-append c.buffer b, lt) in
      let left : n - (r + j) ≡ n - r - j = omega (arith, lt) in
      rw
        (
          lt→ltb 0 n (omega (arith, lt)),
          lt→ltb 0 (n - r) (omega (arith, lt)),
          k,
          take_prefix c.buffer b j,
          drop_prefix c.buffer b j,
          left,
        )
        (ap
          (λ a. record c {
            command = some m;
            argument = a;
            buffer = drop j b;
            arg_remains = n - r - j;
          })
          (sym (append_assoc c.argument c.buffer (take j b))))

-- Filling from more input is filling, with more input left; or the argument waits for more, and is
-- filled again.
abbrev pub Refills : Bytes → Connection → Type 0
Refills b c =
    (fill_argument (extend b c) ≡ extend b (fill_argument c))
    ⊎ (((fill_argument c).buffer ≡ [])
        × (0 < (fill_argument c).arg_remains)
        × ((fill_argument c).command ≡ c.command)
        × (fill_argument (extend b c) ≡ fill_argument (extend b (fill_argument c))))

pub fill_argument-extend :
    (o : Option Command) (c : Connection) (b : Bytes) → Refills b (record c { command = o })
unfolding fill_argument fill
fill_argument-extend none c b = inl refl
fill_argument-extend (some m) c b = elim (Bool-cases (ltb 0 c.arg_remains)) [
  | inr e ↦ rw e (inl refl)
  | inl e ↦ elim (Bool-cases (ltb (length c.buffer) c.arg_remains)) [
    | inr enough ↦
        let n = c.arg_remains in
        let le = ltb→le (length c.buffer) n enough in
        let k1 : min n (length (c.buffer ++ b)) ≡ n = omega (arith, length-append c.buffer b, le) in
        let k2 : min n (length c.buffer) ≡ n = omega (arith, le) in
        rw (e, k1, k2, take-append n c.buffer b le, drop-append n c.buffer b le) (inl refl)
    | inl short ↦
        let lt = ltb→lt (length c.buffer) c.arg_remains short in
        let small = fill_argument-partly m c b lt in
        inr (
          ap (λ d. d.buffer) small,
          rw small (omega (arith, lt)),
          ap (λ d. d.command) small,
          fill_argument_rest m c b lt ∙ ap (λ d. fill_argument (extend b d)) (sym small),
        )
  ]
]
