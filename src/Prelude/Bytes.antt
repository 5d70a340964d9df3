-- ===== src/Prelude/Bytes.antt =====
-- A std::string as the list of its bytes, and its equality test.
use Prim.Native.Char.{code}
use Prim.Native.String.{String}
use mathlib.Core.Bool.{Bool, true, false, ◌&&◌}
use mathlib.Core.List.{List, [], ◌∷◌}
use mathlib.Core.Path.{◌≡◌, refl}
use Prim.Native.Nat.{ℕ}
use native.Mathlib.Omega.{arith}
use ts_sem.Prelude.Tests.{◌==◌}

abbrev pub Bytes : Type 0
Bytes = List ℕ

-- The bytes of an ASCII literal.
abbrev pub codes : String → Bytes
codes String.[] = []
codes (String.◌∷◌ c s) = code c ∷ codes s

unfoldable pub bytes_eq : Bytes → Bytes → Bool
bytes_eq [] [] = true
bytes_eq [] (b ∷ bs) = false
bytes_eq (a ∷ as') [] = false
bytes_eq (a ∷ as') (b ∷ bs) = (a == b) && bytes_eq as' bs

pub bytes_eq_refl : (a : Bytes) → bytes_eq a a ≡ true
unfolding bytes_eq
bytes_eq_refl [] = refl
bytes_eq_refl (x ∷ xs) = ground (arith, bytes_eq_refl xs)

pub eq_of_bytes_eq : (a b : Bytes) → bytes_eq a b ≡ true → a ≡ b
unfolding bytes_eq
eq_of_bytes_eq [] [] h = refl
eq_of_bytes_eq [] (b ∷ bs) h = cc
eq_of_bytes_eq (a ∷ as') [] h = cc
eq_of_bytes_eq (a ∷ as') (b ∷ bs) h = ground (arith, eq_of_bytes_eq as' bs)

pub bytes_eq_comm : (a b : Bytes) → bytes_eq a b ≡ bytes_eq b a
unfolding bytes_eq
bytes_eq_comm [] [] = refl
bytes_eq_comm [] (b ∷ bs) = refl
bytes_eq_comm (a ∷ as') [] = refl
bytes_eq_comm (a ∷ as') (b ∷ bs) = ground (arith, bytes_eq_comm as' bs)
