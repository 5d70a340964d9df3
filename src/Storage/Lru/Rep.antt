-- ===== src/Storage/Lru/Rep.antt =====
-- Which list of cells a SimpleLRU stands for, and what the index then finds.
use ts_sem.Prelude.{
  ℕ, ◌+◌, ◌<◌, ◌^◌, ◌≡◌, refl, ap, subst, inl, inr, false, Option, none, some, [], ◌∷◌, ◌++◌, ◌==◌,
  if◌then◌else◌, length, arith, Bool-cases,
}
use ts_sem.Prelude.Bytes.{Bytes, bytes_eq, bytes_eq_refl, eq_of_bytes_eq}
use ts_sem.Storage.Spec.{Entries, total, lookup, remove, Unique, total-append, Unique-middle}
use ts_sem.Storage.Lru.Memory.{Ptr, null, Lru}
use ts_sem.Storage.Lru.Index
use ts_sem.Storage.Lru.Segment.{
  Cell, Cells, node_of, first, last, has, Seg, Distinct, Disjoint, Disjoint-tail,
  Disjoint-has_right, Distinct-split, Seg-split, Seg-cell,
}

abbrev pub entries : Cells → Entries
entries [] = []
entries (c ∷ cs) = (c.key, c.value) ∷ entries cs

pub entries-append : (xs ys : Cells) → entries (xs ++ ys) ≡ entries xs ++ entries ys
entries-append [] ys = refl
entries-append (x ∷ xs) ys = ap (◌∷◌ (x.key, x.value)) (entries-append xs ys)

-- The address of the cell with a key.
unfoldable pub find_cell : Bytes → Cells → Option Ptr
find_cell k [] = none
find_cell k (c ∷ cs) = if bytes_eq c.key k then some c.addr else find_cell k cs

abbrev pub Below : Ptr → Cells → Type 0
Below n [] = Unit {0}
Below n (c ∷ cs) = (c.addr < n) × Below n cs

-- The state `s` is well formed and holds the cells `cs`, the last used first, within `max` bytes.
pub record Rep (max : ℕ) (s : Lru) (cs : Cells) : Type 0 where
  pub chain : Seg s.heap null cs null
  pub head : s.lru_head ≡ first cs null
  pub tail : s.lru_tail ≡ last null cs
  pub distinct : Distinct cs
  pub unique : Unique (entries cs)
  pub index : (k : Bytes) → Index.find k s.lru_index ≡ find_cell k cs
  pub limit : s.max_size ≡ max
  pub sized : s.free_size + total (entries cs) ≡ max
  pub small : max < 2 ^ 64
  pub fresh : Below s.next_address cs
  pub count : length cs < s.next_address
  pub no_leak : (q : Ptr) → has q cs ≡ false → s.heap q ≡ none

-- A well-formed state whose contents are the entries `es`.
abbrev pub Models : ℕ → Entries → Lru → Type 0
Models max es s = (cs : Cells) × Rep max s cs × (entries cs ≡ es)

-- A cell with the key `k`, and the cells before and behind it.
pub record Found (k : Bytes) (a : Ptr) (cs : Cells) : Type 0 where
  pub before : Cells
  pub cell : Cell
  pub behind : Cells
  pub whole : cs ≡ before ++ cell ∷ behind
  pub at : cell.addr ≡ a
  pub named : cell.key ≡ k

pub Found-cell : (k : Bytes) (a : Ptr) (cs : Cells) → find_cell k cs ≡ some a → Found k a cs
unfolding find_cell
Found-cell k a [] h = cc
Found-cell k a (c ∷ cs) h = elim (Bool-cases (bytes_eq c.key k)) [
  | inl e ↦ record {
    before = [];
    cell = c;
    behind = cs;
    whole = refl;
    at = ground (arith, eq_of_bytes_eq c.key k);
    named = eq_of_bytes_eq c.key k e;
  }
  | inr e ↦
      let f = Found-cell k a cs (ground arith) in
      record {
        before = c ∷ f.before;
        cell = f.cell;
        behind = f.behind;
        whole = ap (◌∷◌ c) f.whole;
        at = f.at;
        named = f.named;
      }
]

pub find_cell-absent :
    (k : Bytes) (cs : Cells) → find_cell k cs ≡ none → lookup k (entries cs) ≡ none
unfolding find_cell lookup
find_cell-absent k [] h = refl
find_cell-absent k (c ∷ cs) h = ground (arith, find_cell-absent k cs)

-- Finding in the list without the middle cell.
pub find_cell-middle :
    (k : Bytes) (xs : Cells) (c : Cell) (ys : Cells)
    → find_cell k (xs ++ ys)
      ≡ (if bytes_eq c.key k then find_cell k (xs ++ ys) else find_cell k (xs ++ c ∷ ys))
unfolding find_cell
find_cell-middle k [] c ys = ground arith
find_cell-middle k (x ∷ xs) c ys = ground (arith, find_cell-middle k xs c ys)

pub find_cell-here :
    (xs : Cells) (c : Cell) (ys : Cells)
    → lookup c.key (entries xs) ≡ none
    → find_cell c.key (xs ++ c ∷ ys) ≡ some c.addr
unfolding find_cell lookup
find_cell-here [] c ys h = rw (bytes_eq_refl c.key)
find_cell-here (x ∷ xs) c ys h = ground (arith, find_cell-here xs c ys)

pub find_cell-none : (k : Bytes) (cs : Cells) → lookup k (entries cs) ≡ none → find_cell k cs ≡ none
unfolding find_cell lookup
find_cell-none k [] h = refl
find_cell-none k (c ∷ cs) h = ground (arith, find_cell-none k cs)

pub Below-split : (n : ℕ) (xs ys : Cells) → Below n (xs ++ ys) → Below n xs × Below n ys
Below-split n [] ys b = (tt, b)
Below-split n (x ∷ xs) ys b = let r = Below-split n xs ys b.1 in ((b.0, r.0), r.1)

pub Below-join : (n : ℕ) (xs ys : Cells) → Below n xs → Below n ys → Below n (xs ++ ys)
Below-join n [] ys b c = c
Below-join n (x ∷ xs) ys b c = (b.0, Below-join n xs ys b.1 c)

-- The parts of a state that holds a middle cell.
module _ {max : ℕ} {s : Lru} (xs : Cells) (c : Cell) (ys : Cells)
    (r : Rep max s (xs ++ c ∷ ys)) where
  pub total-middle :
      total (entries (xs ++ c ∷ ys)) ≡ total (entries (xs ++ ys)) + (length c.key + length c.value)
  total-middle = omega (
    arith,
    ap total (entries-append xs (c ∷ ys)),
    ap total (entries-append xs ys),
    total-append (entries xs) (entries (c ∷ ys)),
    total-append (entries xs) (entries ys),
  )

  pub middle_node : s.heap c.addr ≡ some (node_of c (first ys null) (last null xs))
  middle_node = Seg-cell s.heap null xs c ys null r.chain

  pub middle_live : (c.addr == null) ≡ false
  middle_live = (Seg-split s.heap null xs (c ∷ ys) null r.chain).1.0

  pub middle-Distinct :
      Distinct xs × Distinct ys × Disjoint xs ys × (has c.addr xs ≡ false) × (has c.addr ys ≡ false)
  middle-Distinct =
      let d = Distinct-split xs (c ∷ ys) r.distinct in
      (
        d.0,
        d.1.1,
        Disjoint-tail xs c ys d.2,
        Disjoint-has_right c.addr xs (c ∷ ys) d.2 (ground arith),
        d.1.0,
      )

  pub middle-Unique :
      (lookup c.key (entries xs) ≡ none)
      × (lookup c.key (entries ys) ≡ none)
      × Unique (entries xs ++ entries ys)
      × (remove c.key (entries xs ++ entries (c ∷ ys)) ≡ entries xs ++ entries ys)
      × (lookup c.key (entries xs ++ entries (c ∷ ys)) ≡ some c.value)
  middle-Unique =
      Unique-middle c.key c.value (entries xs) (entries ys)
        (subst Unique (entries-append xs (c ∷ ys)) r.unique)
