-- ===== src/Network/Connection/Pieces/Reads.antt =====
-- DoRead, whatever the pieces are in which the input comes.
use mathlib.Core.List.{append_assoc, append-nil}
use ts_sem.Prelude.{
  suc, ◌<◌, ◌≡◌, refl, sym, ap, ◌∙◌, List, [], ◌∷◌, ◌++◌, length, arith, length-append,
}
use ts_sem.Prelude.Bytes.{Bytes}
use ts_sem.Run
use ts_sem.Run.{Run, Cmd, ok, fault, out_of_fuel}
use ts_sem.Network.Connection.{
  Connection, Progress, go_on, leave, stop, threw, next_read, read_loop,
}
use ts_sem.Network.Connection.Loop.{Awaits, Answers, Always}
use ts_sem.Network.Connection.Pieces.{
  Same, blurred, extend, drain, Splits, Same-bind, next_read-Blurs, and_then_assoc,
}
use ts_sem.Network.Connection.Pieces.Loops.{drain-extend}

-- Every piece has a byte.
abbrev pub IsPieces : List Bytes → Type 0
IsPieces [] = Unit {0}
IsPieces (b ∷ bs) = (0 < length b) × IsPieces bs

abbrev pub joined : List Bytes → Bytes
joined [] = []
joined (b ∷ bs) = b ++ joined bs

and_then_ext :
    {S A B : Type 0} (r : Run S A) (f g : A → Cmd S B)
    → ((a : A) (s : S) → f a s ≡ g a s)
    → Run.and_then r f ≡ Run.and_then r g
and_then_ext (ok a s) f g h = h a s
and_then_ext fault f g h = refl
and_then_ext out_of_fuel f g h = refl

module _ {S : Type 0} (F : Type 0) (Q : Connection → Type 0) (answer : Connection → Cmd S Progress)
    (answers : Answers F Always Q answer) (splits : Splits answer) where
  read_loop-cons :
      (b : Bytes) (reads : List Bytes) (c : Connection) (s : S)
      → 0 < length b
      → read_loop answer (b ∷ reads) c s
        ≡ Run.and_then (drain answer (extend b c) s) (next_read answer (read_loop answer reads))
  unfolding read_loop
  read_loop-cons [] reads c s h = absurd (omega (arith, h))
  read_loop-cons (x ∷ b) reads c s h = refl

  -- A second read, behind the first.
  second_read :
      (b : Bytes) (reads : List Bytes) (p : Progress) (s : S)
      → 0 < length b
      → Run.and_then
          (next_read answer (λ d. drain answer (extend b d)) p s)
          (next_read answer (read_loop answer reads))
        ≡ next_read answer (read_loop answer (b ∷ reads)) p s
  second_read b reads (go_on d) s h = sym (read_loop-cons b reads d s h)
  second_read b reads (leave d) s h = refl
  second_read b reads (stop d) s h = refl
  second_read b reads (threw d) s h = refl

  -- One read in place of two.
  read_loop-append :
      (a b : Bytes) (reads : List Bytes) (c : Connection) (s : S)
      → Awaits c
      → 0 < length a
      → 0 < length b
      → Same (read_loop answer ((a ++ b) ∷ reads) c s) (read_loop answer (a ∷ b ∷ reads) c s)
  read_loop-append a b reads c s w ha hb =
      let onward = next_read answer (read_loop answer reads) in
      let d = extend a c in
      let later : Progress → Cmd S Progress = next_read answer (λ e. drain answer (extend b e)) in
      ap blurred (
        read_loop-cons (a ++ b) reads c s (omega (arith, length-append a b, ha))
        ∙ ap (λ x. Run.and_then (drain answer (record c { buffer = x }) s) onward)
            (sym (append_assoc c.buffer a b)))
      ∙ Same-bind onward (next_read-Blurs answer (read_loop answer reads))
          (drain answer (extend b d) s) (Run.and_then (drain answer d s) later)
          (drain-extend F Q answer answers splits (suc (length d.buffer)) d b s w (omega arith) hb)
      ∙ ap blurred (
          and_then_assoc (drain answer d s) later onward
          ∙ and_then_ext (drain answer d s) _ _ (λ p t. second_read b reads p t hb)
          ∙ sym (read_loop-cons a (b ∷ reads) c s ha))

  -- One read in place of all.
  pub read_loop-joined :
      (a : Bytes) (bs : List Bytes) (c : Connection) (s : S)
      → Awaits c
      → 0 < length a
      → IsPieces bs
      → Same (read_loop answer ((a ++ joined bs) ∷ []) c s) (read_loop answer (a ∷ bs) c s)
  read_loop-joined a [] c s w ha h =
      ap (λ x. blurred (read_loop answer (x ∷ []) c s)) (append-nil a)
  read_loop-joined a (b ∷ bs) c s w ha (hb, h) =
      ap (λ x. blurred (read_loop answer (x ∷ []) c s)) (sym (append_assoc a b (joined bs)))
      ∙ read_loop-joined (a ++ b) bs c s w (omega (arith, length-append a b, ha)) h
      ∙ read_loop-append a b bs c s w ha hb
