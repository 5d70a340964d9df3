-- ===== src/Logging/Select.antt =====
-- ServiceImpl::select: the logger of a name or of its nearest ancestor. `get` is `spdlog::get`.
use ts_sem.Prelude.{
  ℕ, zero, suc, ◌<◌, ◌≡◌, refl, ap, ◌∙◌, false, Option, none, some, List, [], ◌∷◌, ◌++◌, ◌==◌,
  if◌then◌else◌, length, take, arith, length-append, Option-cases, inl, inr,
}
use ts_sem.Prelude.Bytes.{Bytes}

abbrev pub dot : ℕ
dot = 46

-- `find_last_of('.')`
pub find_last_dot : Bytes → Option ℕ
find_last_dot [] = none
find_last_dot (c ∷ cs) = elim (find_last_dot cs) [
  | some i ↦ some (suc i)
  | none ↦ if c == dot then some 0 else none
]

-- The name in front of the last dot, and nothing for a name without a dot.
pub parent : Bytes → Bytes
unfolding find_last_dot
parent name = elim (find_last_dot name) [ none ↦ take 0 name | some i ↦ take i name ]

module _ {L : Type 0} (get : Bytes → Option L) (root : L) where
  -- The loop; `none` stands for fuel that is used up.
  pub select_loop : ℕ → Bytes → Option L
  unfolding parent
  select_loop zero name = none
  select_loop (suc fuel) name =
      let rest = select_loop fuel (parent name) in
      elim (get name) [
        | some l ↦ some l
        | none ↦ elim (parent name) [ [] ↦ some root | _ ∷ _ ↦ rest ]
      ]

  -- Every round cuts the name.
  pub select : Bytes → Option L
  unfolding select_loop
  select name = select_loop (suc (length name)) name

  -- The first name of a list that has a logger.
  abbrev pub first_registered : List Bytes → L
  first_registered [] = root
  first_registered (n ∷ ns) = elim (get n) [ some l ↦ l | none ↦ first_registered ns ]

-- A name of segments, the last segment first.
abbrev pub dotted : Bytes → List Bytes → Bytes
dotted s [] = s
dotted s (t ∷ ts) = dotted t ts ++ dot ∷ s

-- The name itself, its parent, and so on.
abbrev pub ancestors : Bytes → List Bytes → List Bytes
ancestors s [] = s ∷ []
ancestors s (t ∷ ts) = dotted s (t ∷ ts) ∷ ancestors t ts

abbrev pub HasNoDot : Bytes → Type 0
HasNoDot [] = Unit {0}
HasNoDot (c ∷ cs) = ((c == dot) ≡ false) × HasNoDot cs

-- Segments are not empty and have no dot.
abbrev pub AreSegments : Bytes → List Bytes → Type 0
AreSegments s [] = HasNoDot s × (0 < length s)
AreSegments s (t ∷ ts) = HasNoDot s × (0 < length s) × AreSegments t ts

find_last_dot-none : (s : Bytes) → HasNoDot s → find_last_dot s ≡ none
unfolding find_last_dot
find_last_dot-none [] h = refl
find_last_dot-none (c ∷ s) h = rw (find_last_dot-none s h.1, h.0) refl

find_last_dot-dot : (s : Bytes) → HasNoDot s → find_last_dot (dot ∷ s) ≡ some 0
unfolding find_last_dot
find_last_dot-dot s h = rw (find_last_dot-none s h) refl

find_last_dot-append :
    (xs s : Bytes) → HasNoDot s → find_last_dot (xs ++ dot ∷ s) ≡ some (length xs)
unfolding find_last_dot
find_last_dot-append [] s h = find_last_dot-dot s h
find_last_dot-append (x ∷ xs) s h = rw (find_last_dot-append xs s h) refl

take-length_append : (xs ys : Bytes) → take (length xs) (xs ++ ys) ≡ xs
take-length_append [] ys = refl
take-length_append (x ∷ xs) ys = ap (◌∷◌ x) (take-length_append xs ys)

parent-single : (s : Bytes) → HasNoDot s → parent s ≡ []
unfolding parent
parent-single s h = rw (find_last_dot-none s h, parent) refl

parent-dotted : (xs s : Bytes) → HasNoDot s → parent (xs ++ dot ∷ s) ≡ xs
unfolding parent
parent-dotted xs s h = rw (find_last_dot-append xs s h, parent) (take-length_append xs (dot ∷ s))

module _ {L : Type 0} (get : Bytes → Option L) (root : L) where
  loop_found :
      (fuel : ℕ) (name : Bytes) (l : L)
      → get name ≡ some l
      → select_loop get root (suc fuel) name ≡ some l
  unfolding select_loop
  loop_found fuel name l e = rw (e, select_loop) refl

  loop_root :
      (fuel : ℕ) (name : Bytes)
      → get name ≡ none
      → parent name ≡ []
      → select_loop get root (suc fuel) name ≡ some root
  unfolding select_loop
  loop_root fuel name e p = rw (e, p, select_loop) refl

  loop_parent :
      (fuel : ℕ) (name up : Bytes)
      → get name ≡ none
      → parent name ≡ up
      → 0 < length up
      → select_loop get root (suc fuel) name ≡ select_loop get root fuel up
  unfolding select_loop
  loop_parent fuel name [] e p h = absurd (omega (arith, h))
  loop_parent fuel name (c ∷ up) e p h = rw (e, p, select_loop) (ap (select_loop get root fuel) p)

  dotted_long : (s : Bytes) (ts : List Bytes) → AreSegments s ts → 0 < length (dotted s ts)
  dotted_long s [] h = h.1
  dotted_long s (t ∷ ts) h = omega (arith, length-append (dotted t ts) (dot ∷ s))

  loop_nearest :
      (fuel : ℕ) (s : Bytes) (ts : List Bytes)
      → AreSegments s ts
      → length (dotted s ts) < fuel
      → select_loop get root fuel (dotted s ts) ≡ some (first_registered get root (ancestors s ts))
  loop_nearest zero s ts h lt = absurd (omega (arith, lt))
  loop_nearest (suc fuel) s [] h lt = elim (Option-cases (get s)) [
    | inl e ↦ rw e (loop_root fuel s e (parent-single s h.0))
    | inr (l, e) ↦ rw e (loop_found fuel s l e)
  ]
  loop_nearest (suc fuel) s (t ∷ ts) h lt = elim (Option-cases (get (dotted s (t ∷ ts)))) [
    | inl e ↦ rw e (
        loop_parent fuel (dotted s (t ∷ ts)) (dotted t ts) e (parent-dotted (dotted t ts) s h.0)
          (dotted_long t ts h.2)
        ∙ loop_nearest fuel t ts h.2 (omega (arith, lt, length-append (dotted t ts) (dot ∷ s))))
    | inr (l, e) ↦ rw e (loop_found fuel (dotted s (t ∷ ts)) l e)
  ]

  -- For a name of non-empty segments without dots, `select` gives the logger that is registered for
  -- the name or else for its nearest ancestor, and the root logger where neither the name nor an
  -- ancestor has one.
  pub select-nearest :
      (s : Bytes) (ts : List Bytes)
      → AreSegments s ts
      → select get root (dotted s ts) ≡ some (first_registered get root (ancestors s ts))
  unfolding select
  select-nearest s ts h = loop_nearest (suc (length (dotted s ts))) s ts h (omega arith)
