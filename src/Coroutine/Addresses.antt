-- ===== src/Coroutine/Addresses.antt =====
-- Lists of addresses of contexts.
use ts_sem.Prelude.{ℕ, ◌<◌, ◌≡◌, refl, Bool, true, false, ◌||◌, List, [], ◌∷◌, ◌++◌, ◌==◌, arith}
use ts_sem.Coroutine.Memory.{Ptr}

abbrev pub Ptrs : Type 0
Ptrs = List Ptr

-- The first address, or where the chain ends; the last, or what stands before.
abbrev pub first : Ptrs → Ptr → Ptr
first [] e = e
first (a ∷ xs) e = a

abbrev pub last : Ptr → Ptrs → Ptr
last p [] = p
last p (a ∷ xs) = last a xs

abbrev pub has : Ptr → Ptrs → Bool
has a [] = false
has a (x ∷ xs) = (a == x) || has a xs

abbrev pub Distinct : Ptrs → Type 0
Distinct [] = Unit {0}
Distinct (a ∷ xs) = (has a xs ≡ false) × Distinct xs

abbrev pub Disjoint : Ptrs → Ptrs → Type 0
Disjoint [] ys = Unit {0}
Disjoint (x ∷ xs) ys = (has x ys ≡ false) × Disjoint xs ys

abbrev pub Below : Ptr → Ptrs → Type 0
Below n [] = Unit {0}
Below n (a ∷ xs) = (a < n) × Below n xs

pub has-append : (a : Ptr) (xs ys : Ptrs) → has a (xs ++ ys) ≡ (has a xs || has a ys)
has-append a [] ys = refl
has-append a (x ∷ xs) ys = ground (arith, has-append a xs ys)

pub first-append : (xs ys : Ptrs) (e : Ptr) → first (xs ++ ys) e ≡ first xs (first ys e)
first-append [] ys e = refl
first-append (x ∷ xs) ys e = refl

pub has-last : (a : Ptr) (xs : Ptrs) → has (last a xs) (a ∷ xs) ≡ true
has-last a [] = ground arith
has-last a (x ∷ xs) = ground (arith, has-last x xs)

pub Disjoint-has : (a : Ptr) (xs ys : Ptrs) → Disjoint xs ys → has a xs ≡ true → has a ys ≡ false
Disjoint-has a [] ys d h = cc
Disjoint-has a (x ∷ xs) ys d h = ground (arith, Disjoint-has a xs ys d.1)

pub Disjoint-has_right :
    (a : Ptr) (xs ys : Ptrs) → Disjoint xs ys → has a ys ≡ true → has a xs ≡ false
Disjoint-has_right a [] ys d h = refl
Disjoint-has_right a (x ∷ xs) ys d h = ground (arith, Disjoint-has_right a xs ys d.1)

pub Disjoint-tail : (xs : Ptrs) (a : Ptr) (ys : Ptrs) → Disjoint xs (a ∷ ys) → Disjoint xs ys
Disjoint-tail [] a ys d = tt
Disjoint-tail (x ∷ xs) a ys d = (ground arith, Disjoint-tail xs a ys d.1)

pub Distinct-split :
    (xs ys : Ptrs) → Distinct (xs ++ ys) → Distinct xs × Distinct ys × Disjoint xs ys
Distinct-split [] ys d = (tt, d, tt)
Distinct-split (x ∷ xs) ys d =
    let r = Distinct-split xs ys d.1 in ground (arith, has-append x xs ys, r.0, r.1, r.2)

pub Distinct-join :
    (xs ys : Ptrs) → Distinct xs → Distinct ys → Disjoint xs ys → Distinct (xs ++ ys)
Distinct-join [] ys d e f = e
Distinct-join (x ∷ xs) ys d e f = ground (arith, has-append x xs ys, Distinct-join xs ys d.1 e f.1)

pub Below-split : (n : ℕ) (xs ys : Ptrs) → Below n (xs ++ ys) → Below n xs × Below n ys
Below-split n [] ys b = (tt, b)
Below-split n (x ∷ xs) ys b = let r = Below-split n xs ys b.1 in ((b.0, r.0), r.1)

pub Below-join : (n : ℕ) (xs ys : Ptrs) → Below n xs → Below n ys → Below n (xs ++ ys)
Below-join n [] ys b c = c
Below-join n (x ∷ xs) ys b c = (b.0, Below-join n xs ys b.1 c)

-- One address is among the list and the other is not.
pub ne_of_has : (a b : Ptr) (xs : Ptrs) → has a xs ≡ false → has b xs ≡ true → (a == b) ≡ false
ne_of_has a b xs out is_in = ground arith
