-- ===== src/Logging/Pattern.antt =====
-- ServiceImpl::create: the message pattern of a new logger, with the variables `%X{key}` of a
-- diagnostic context. An iterator that is read or moved past the end is undefined.
use ts_sem.Prelude.{
  ℕ, zero, suc, ◌<◌, ◌≡◌, refl, ap, ◌∙◌, Bool, true, false, Option, none, some, List, [], ◌∷◌, ◌++◌,
  ◌==◌, if◌then◌else◌, length, arith, length-append,
}
use mathlib.Core.List.{append_assoc}
use ts_sem.Prelude.Bytes.{Bytes, bytes_eq, codes}

pub data Compiled : Type 0 where
  text : Bytes → Compiled
  undefined unfinished : Compiled

-- What `ss` holds already stands in front.
abbrev pub after : Bytes → Compiled → Compiled
after out (text t) = text (out ++ t)
after out undefined = undefined
after out unfinished = unfinished

abbrev pub percent : ℕ
percent = 37

abbrev pub letter_x : ℕ
letter_x = 88

abbrev pub open_brace : ℕ
open_brace = 123

abbrev pub close_brace : ℕ
close_brace = 125

abbrev pub cons_key : ℕ → Option (Bytes × Bytes) → Option (Bytes × Bytes)
cons_key c none = none
cons_key c (some (key, rest)) = some (c ∷ key, rest)

-- `find(it, end, '}')`: what stands in front of the brace, and what stands behind it.
pub find_brace : Bytes → Option (Bytes × Bytes)
find_brace [] = none
find_brace (c ∷ cs) =
    let rest = find_brace cs in if c == close_brace then some ([], cs) else cons_key c rest

-- `mdc.find(key)`
unfoldable pub has_key : Bytes → List (Bytes × Bytes) → Bool
has_key k [] = false
has_key k ((j, v) ∷ mdc) = if bytes_eq j k then true else has_key k mdc

-- The parts of the loop's body, with `go` for the rounds that follow. At the brace of "%X{", with
-- `es` behind it. The name of the variable is written, not its value.
pub at_brace : List (Bytes × Bytes) → (Bytes → Compiled) → Bytes → Option (Bytes × Bytes) → Compiled
at_brace mdc go es none = after (codes "%X{{") (go es)
at_brace mdc go es (some (key, rest)) =
    if has_key key mdc then after key (go rest) else after (codes "%X{{") (go es)

-- Behind "%X"
pub at_x : List (Bytes × Bytes) → (Bytes → Compiled) → Bytes → Compiled
unfolding at_brace
at_x mdc go [] = undefined
at_x mdc go (e ∷ es) =
    if e == open_brace
    then at_brace mdc go es (find_brace es)
    else after (codes "%X" ++ e ∷ []) (go es)

-- Behind a percent sign
pub at_percent : List (Bytes × Bytes) → (Bytes → Compiled) → Bytes → Compiled
unfolding at_x
at_percent mdc go [] = undefined
at_percent mdc go (d ∷ ds) =
    if d == letter_x then at_x mdc go ds else after (percent ∷ d ∷ []) (go ds)

-- The loop over the pattern, from `it` on.
pub compile_loop : List (Bytes × Bytes) → ℕ → Bytes → Compiled
unfolding at_percent
compile_loop mdc zero pattern = unfinished
compile_loop mdc (suc fuel) [] = text []
compile_loop mdc (suc fuel) (c ∷ cs) =
    let go : Bytes → Compiled = compile_loop mdc fuel in
    if c == percent then at_percent mdc go cs else after (c ∷ []) (go cs)

pub compile : List (Bytes × Bytes) → Bytes → Compiled
unfolding compile_loop
compile mdc pattern = compile_loop mdc (suc (length pattern)) pattern

-- What spdlog needs to make a logger, and what `create` takes of an existing one.
pub record Logger (Sink Level : Type 0) : Type 0 where
  pub name : Bytes
  pub sinks : List Sink
  pub level : Level
  pub pattern : Bytes

-- A logger with the sinks and the level of its base and the compiled pattern.
pub create :
    {Sink Level : Type 0} → Logger Sink Level → List (Bytes × Bytes) → Option (Logger Sink Level)
unfolding compile
create base mdc = elim (compile mdc base.pattern) [
  | text t ↦ some (record base { pattern = t })
  | undefined ↦ none
  | unfinished ↦ none
]

-- A pattern that has a meaning: plain text, conversions of spdlog, and variables.
pub data Piece : Type 0 where
  plain conversion : ℕ → Piece
  variable : Bytes → Piece

abbrev pub HasNoBrace : Bytes → Type 0
HasNoBrace [] = Unit {0}
HasNoBrace (c ∷ cs) = ((c == close_brace) ≡ false) × HasNoBrace cs

abbrev pub IsPiece : List (Bytes × Bytes) → Piece → Type 0
IsPiece mdc (plain c) = (c == percent) ≡ false
IsPiece mdc (conversion c) = (c == letter_x) ≡ false
IsPiece mdc (variable k) = HasNoBrace k × (has_key k mdc ≡ true)

abbrev pub ArePieces : List (Bytes × Bytes) → List Piece → Type 0
ArePieces mdc [] = Unit {0}
ArePieces mdc (p ∷ ps) = IsPiece mdc p × ArePieces mdc ps

abbrev pub written : Piece → Bytes
written (plain c) = c ∷ []
written (conversion c) = percent ∷ c ∷ []
written (variable k) = codes "%X{" ++ (k ++ close_brace ∷ [])

abbrev pub meant : Piece → Bytes
meant (variable k) = k
meant p = written p

abbrev pub all_written : List Piece → Bytes
all_written [] = []
all_written (p ∷ ps) = written p ++ all_written ps

abbrev pub all_meant : List Piece → Bytes
all_meant [] = []
all_meant (p ∷ ps) = meant p ++ all_meant ps

find_brace-key :
    (k rest : Bytes) → HasNoBrace k → find_brace (k ++ close_brace ∷ rest) ≡ some (k, rest)
unfolding find_brace
find_brace-key [] rest h = refl
find_brace-key (c ∷ k) rest h = rw (find_brace-key k rest h.1, h.0) refl

module _ (mdc : List (Bytes × Bytes)) where
  piece_step :
      (fuel : ℕ) (p : Piece) (rest : Bytes)
      → IsPiece mdc p
      → compile_loop mdc (suc fuel) (written p ++ rest)
        ≡ after (meant p) (compile_loop mdc fuel rest)
  unfolding compile_loop at_percent at_x at_brace
  piece_step fuel (plain c) rest h = rw h refl
  piece_step fuel (conversion c) rest h = rw h refl
  piece_step fuel (variable k) rest h =
      rw (append_assoc k (close_brace ∷ []) rest, find_brace-key k rest h.0, at_brace, h.1) refl

  written_long : (p : Piece) → 0 < length (written p)
  written_long (plain c) = omega arith
  written_long (conversion c) = omega arith
  written_long (variable k) = omega arith

  compile_loop-nil : (fuel : ℕ) → compile_loop mdc (suc fuel) [] ≡ text []
  unfolding compile_loop
  compile_loop-nil fuel = refl

  loop-pieces :
      (fuel : ℕ) (ps : List Piece)
      → ArePieces mdc ps
      → length (all_written ps) < fuel
      → compile_loop mdc fuel (all_written ps) ≡ text (all_meant ps)
  loop-pieces zero ps h lt = absurd (omega (arith, lt))
  loop-pieces (suc fuel) [] h lt = compile_loop-nil fuel
  loop-pieces (suc fuel) (p ∷ ps) h lt =
      piece_step fuel p (all_written ps) h.0
      ∙ ap (after (meant p)) (
          loop-pieces fuel ps h.1
            (omega (arith, lt, written_long p, length-append (written p) (all_written ps))))

  -- A pattern of plain characters, of conversions that are a percent sign and a character other
  -- than `X`, and of variables with a key that the context has and that contains no closing brace,
  -- is compiled to the end; characters and conversions stay, and a variable is replaced by its key.
  pub compile-pieces :
      (ps : List Piece) → ArePieces mdc ps → compile mdc (all_written ps) ≡ text (all_meant ps)
  unfolding compile
  compile-pieces ps h = loop-pieces (suc (length (all_written ps))) ps h (omega arith)
