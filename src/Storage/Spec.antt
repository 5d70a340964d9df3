-- ===== src/Storage/Spec.antt =====
-- What a size-bounded storage with least-recently-used eviction promises, over a list of entries,
-- the last used first. It knows nothing of nodes, pointers and the order in which victims go.
use ts_sem.Prelude.{
  ℕ, ◌+◌, ◌-◌, ◌≤◌, ◌<◌, ◌≡◌, refl, Bool, true, false, Option, none, some, List, [], ◌∷◌, ◌++◌, ltb,
  leb, if◌then◌else◌, length, arith, Bool-cases, inl, inr, ap, ◌∙◌,
}
use ts_sem.Prelude.Bytes.{Bytes, bytes_eq, bytes_eq_refl, bytes_eq_comm, eq_of_bytes_eq}

abbrev pub Entry : Type 0
Entry = Bytes × Bytes

abbrev pub Entries : Type 0
Entries = List Entry

abbrev pub weight : Entry → ℕ
weight (k, v) = length k + length v

abbrev pub total : Entries → ℕ
total [] = 0
total (e ∷ es) = weight e + total es

unfoldable pub lookup : Bytes → Entries → Option Bytes
lookup k [] = none
lookup k ((j, v) ∷ es) = if bytes_eq j k then some v else lookup k es

unfoldable pub remove : Bytes → Entries → Entries
remove k [] = []
remove k ((j, v) ∷ es) = if bytes_eq j k then remove k es else (j, v) ∷ remove k es

-- The longest prefix, so the last used entries, that fits into the budget.
unfoldable pub fit : ℕ → Entries → Entries
fit b [] = []
fit b (e ∷ es) = let rest = fit (b - weight e) es in if leb (weight e) b then e ∷ rest else []

-- No key stands twice.
abbrev pub Unique : Entries → Type 0
Unique [] = Unit {0}
Unique ((k, v) ∷ es) = (lookup k es ≡ none) × Unique es

-- A new entry in front, with what fits of the others behind it; refused if it is larger than `max`.
abbrev pub insert_front : ℕ → Bytes → Bytes → Entries → Bool × Entries
insert_front max k v es =
    if ltb max (weight (k, v)) then (false, es) else (true, (k, v) ∷ fit (max - weight (k, v)) es)

-- A new value for a key that holds `w`. The entry comes to the front also where it is refused.
abbrev pub replace_front : ℕ → Bytes → Bytes → Bytes → Entries → Bool × Entries
replace_front max k v w es =
    if ltb max (weight (k, v))
    then (false, (k, w) ∷ es)
    else (true, (k, v) ∷ fit (max - weight (k, v)) es)

abbrev pub put : ℕ → Bytes → Bytes → Entries → Bool × Entries
put max k v es = elim (lookup k es) [
  | none ↦ insert_front max k v es
  | some w ↦ replace_front max k v w (remove k es)
]

abbrev pub put_if_absent : ℕ → Bytes → Bytes → Entries → Bool × Entries
put_if_absent max k v es = elim (lookup k es) [
  | none ↦ insert_front max k v es
  | some _ ↦ (false, es)
]

abbrev pub set : ℕ → Bytes → Bytes → Entries → Bool × Entries
set max k v es = elim (lookup k es) [
  | none ↦ (false, es)
  | some w ↦ replace_front max k v w (remove k es)
]

-- The result, what the caller's variable holds after the call, and the entries.
abbrev pub get : Bytes → Bytes → Entries → (Bool × Bytes) × Entries
get k out es = elim (lookup k es) [
  | none ↦ ((false, out), es)
  | some v ↦ ((true, v), (k, v) ∷ remove k es)
]

pub lookup-nil : (k : Bytes) → lookup k [] ≡ none
unfolding lookup
lookup-nil k = refl

pub lookup-cons_none :
    (k j v : Bytes) (es : Entries) → lookup k ((j, v) ∷ es) ≡ none → bytes_eq j k ≡ false
unfolding lookup
lookup-cons_none k j v es h = ground arith

pub lookup-append_none :
    (k : Bytes) (xs ys : Entries) → lookup k xs ≡ none → lookup k (xs ++ ys) ≡ lookup k ys
unfolding lookup
lookup-append_none k [] ys h = refl
lookup-append_none k ((j, v) ∷ xs) ys h = ground (arith, lookup-append_none k xs ys)

pub lookup-append_some :
    (k v : Bytes) (xs ys : Entries) → lookup k xs ≡ some v → lookup k (xs ++ ys) ≡ some v
unfolding lookup
lookup-append_some k v [] ys h = cc
lookup-append_some k v ((j, w) ∷ xs) ys h = ground (arith, lookup-append_some k v xs ys)

pub lookup-remove :
    (k j : Bytes) (es : Entries)
    → lookup k (remove j es) ≡ (if bytes_eq j k then none else lookup k es)
unfolding lookup remove
lookup-remove k j [] = ground arith
lookup-remove k j ((i, v) ∷ es) =
    ground (arith, lookup-remove k j es, eq_of_bytes_eq i j, eq_of_bytes_eq i k, eq_of_bytes_eq j k)

pub remove-absent : (k : Bytes) (es : Entries) → lookup k es ≡ none → remove k es ≡ es
unfolding lookup remove
remove-absent k [] h = refl
remove-absent k ((j, v) ∷ es) h = ground (arith, remove-absent k es)

lookup-middle_none :
    (j k v : Bytes) (xs ys : Entries)
    → lookup j (xs ++ (k, v) ∷ ys) ≡ none
    → (bytes_eq k j ≡ false) × (lookup j (xs ++ ys) ≡ none)
unfolding lookup
lookup-middle_none j k v [] ys h = ground arith
lookup-middle_none j k v ((i, w) ∷ xs) ys h = ground (arith, lookup-middle_none j k v xs ys)

-- What the middle entry of a list without repeated keys tells of the rest.
pub Unique-middle :
    (k v : Bytes) (xs ys : Entries)
    → Unique (xs ++ (k, v) ∷ ys)
    → (lookup k xs ≡ none)
      × (lookup k ys ≡ none)
      × Unique (xs ++ ys)
      × (remove k (xs ++ (k, v) ∷ ys) ≡ xs ++ ys)
      × (lookup k (xs ++ (k, v) ∷ ys) ≡ some v)
unfolding lookup remove
Unique-middle k v [] ys u =
    (refl, u.0, u.1, rw (bytes_eq_refl k) (remove-absent k ys u.0), rw (bytes_eq_refl k) refl)
Unique-middle k v ((j, w) ∷ xs) ys u =
    let r = Unique-middle k v xs ys u.1 in
    let m = lookup-middle_none j k v xs ys u.0 in
    ground (arith, r.0, r.1, r.2, r.3, r.4, m.0, m.1, bytes_eq_comm j k)

pub total-append : (xs ys : Entries) → total (xs ++ ys) ≡ total xs + total ys
total-append [] ys = omega arith
total-append (x ∷ xs) ys = omega (arith, total-append xs ys)

pub total-fit : (b : ℕ) (es : Entries) → total (fit b es) ≤ b
unfolding fit
total-fit b [] = omega arith
total-fit b (e ∷ es) = ground (arith, total-fit (b - weight e) es)

pub fit-all : (b : ℕ) (es : Entries) → total es ≤ b → fit b es ≡ es
unfolding fit
fit-all b [] h = refl
fit-all b (e ∷ es) h = ground (arith, fit-all (b - weight e) es)

-- Where the whole does not fit, the last entry goes.
pub fit-snoc :
    (b : ℕ) (es : Entries) (e : Entry) → b < total (es ++ e ∷ []) → fit b (es ++ e ∷ []) ≡ fit b es
unfolding fit
fit-snoc b [] e h = ground arith
fit-snoc b (x ∷ es) e h = ground (arith, fit-snoc (b - weight x) es e)

pub lookup-prefix_none :
    (k : Bytes) (xs ys : Entries) → lookup k (xs ++ ys) ≡ none → lookup k xs ≡ none
unfolding lookup
lookup-prefix_none k [] ys h = refl
lookup-prefix_none k ((j, v) ∷ xs) ys h = ground (arith, lookup-prefix_none k xs ys)

-- A stored value is no longer than all entries together.
pub lookup-le-total :
    (k w : Bytes) (es : Entries) → lookup k es ≡ some w → length k + length w ≤ total es
unfolding lookup
lookup-le-total k w [] h = cc
lookup-le-total k w ((j, v) ∷ es) h = elim (Bool-cases (bytes_eq j k)) [
  | inl e ↦
      let same : v ≡ w = ground arith in
      omega (arith, ap length same, ap length (eq_of_bytes_eq j k e))
  | inr e ↦ omega (arith, lookup-le-total k w es (ground arith))
]

-- Touching a present entry keeps what every key finds.
pub lookup-touched :
    (j k w : Bytes) (es : Entries)
    → lookup k es ≡ some w
    → lookup j ((k, w) ∷ remove k es) ≡ lookup j es
unfolding lookup
lookup-touched j k w es h = ground (arith, lookup-remove j k es, eq_of_bytes_eq k j)

pub lookup-front : (k w : Bytes) (es : Entries) → lookup k ((k, w) ∷ es) ≡ some w
unfolding lookup
lookup-front k w es = rw (bytes_eq_refl k)

pub remove-touched : (k w : Bytes) (es : Entries) → remove k ((k, w) ∷ remove k es) ≡ remove k es
unfolding remove
remove-touched k w es =
    rw (bytes_eq_refl k)
      (remove-absent k (remove k es) (lookup-remove k k es ∙ rw (bytes_eq_refl k) refl))
