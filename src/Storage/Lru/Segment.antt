-- ===== src/Storage/Lru/Segment.antt =====
-- Doubly linked segments of nodes on the heap, and what writes through pointers do to them.
use ts_sem.Prelude.{
  ◌≡◌, refl, Bool, true, false, ◌||◌, some, List, [], ◌∷◌, ◌++◌, ◌==◌, arith, ◌∙◌, Option,
}
use ts_sem.Prelude.Bytes.{Bytes}
use ts_sem.Storage.Lru.Memory.{
  Ptr, null, Node, Heap, on_node, update_at, write_at, with_next, with_prev,
}

-- A node without its links.
pub record Cell : Type 0 where
  pub addr : Ptr
  pub key : Bytes
  pub value : Bytes

abbrev pub Cells : Type 0
Cells = List Cell

abbrev pub node_of : Cell → Ptr → Ptr → Node
node_of c q p = record { key = c.key; value = c.value; next = q; prev = p }

-- The address of the first cell, or where the segment ends; that of the last, or what stands before.
abbrev pub first : Cells → Ptr → Ptr
first [] e = e
first (c ∷ cs) e = c.addr

abbrev pub last : Ptr → Cells → Ptr
last p [] = p
last p (c ∷ cs) = last c.addr cs

abbrev pub has : Ptr → Cells → Bool
has a [] = false
has a (c ∷ cs) = (a == c.addr) || has a cs

-- From the first cell on, `next` leads through the cells to `e`, and `prev` leads back to `p`.
abbrev pub Seg : Heap → Ptr → Cells → Ptr → Type 0
Seg h p [] e = Unit {0}
Seg h p (c ∷ cs) e =
    ((c.addr == null) ≡ false) × (h c.addr ≡ some (node_of c (first cs e) p)) × Seg h c.addr cs e

abbrev pub Distinct : Cells → Type 0
Distinct [] = Unit {0}
Distinct (c ∷ cs) = (has c.addr cs ≡ false) × Distinct cs

abbrev pub Disjoint : Cells → Cells → Type 0
Disjoint [] ys = Unit {0}
Disjoint (x ∷ xs) ys = (has x.addr ys ≡ false) × Disjoint xs ys

pub has-append : (a : Ptr) (xs ys : Cells) → has a (xs ++ ys) ≡ (has a xs || has a ys)
has-append a [] ys = refl
has-append a (x ∷ xs) ys = ground (arith, has-append a xs ys)

pub first-append : (xs ys : Cells) (e : Ptr) → first (xs ++ ys) e ≡ first xs (first ys e)
first-append [] ys e = refl
first-append (x ∷ xs) ys e = refl

pub last-append : (p : Ptr) (xs ys : Cells) → last p (xs ++ ys) ≡ last (last p xs) ys
last-append p [] ys = refl
last-append p (x ∷ xs) ys = last-append x.addr xs ys

-- The last address is among the cells.
pub has-last : (c : Cell) (cs : Cells) → has (last c.addr cs) (c ∷ cs) ≡ true
has-last c [] = ground arith
has-last c (d ∷ cs) = ground (arith, has-last d cs)

pub Disjoint-has : (a : Ptr) (xs ys : Cells) → Disjoint xs ys → has a xs ≡ true → has a ys ≡ false
Disjoint-has a [] ys d h = cc
Disjoint-has a (x ∷ xs) ys d h = ground (arith, Disjoint-has a xs ys d.1)

-- The same with the two lists exchanged.
pub Disjoint-has_right :
    (a : Ptr) (xs ys : Cells) → Disjoint xs ys → has a ys ≡ true → has a xs ≡ false
Disjoint-has_right a [] ys d h = refl
Disjoint-has_right a (x ∷ xs) ys d h = ground (arith, Disjoint-has_right a xs ys d.1)

pub Disjoint-tail : (xs : Cells) (c : Cell) (ys : Cells) → Disjoint xs (c ∷ ys) → Disjoint xs ys
Disjoint-tail [] c ys d = tt
Disjoint-tail (x ∷ xs) c ys d = (ground arith, Disjoint-tail xs c ys d.1)

pub Distinct-split :
    (xs ys : Cells) → Distinct (xs ++ ys) → Distinct xs × Distinct ys × Disjoint xs ys
Distinct-split [] ys d = (tt, d, tt)
Distinct-split (x ∷ xs) ys d =
    let r = Distinct-split xs ys d.1 in ground (arith, has-append x.addr xs ys, r.0, r.1, r.2)

pub Distinct-join :
    (xs ys : Cells) → Distinct xs → Distinct ys → Disjoint xs ys → Distinct (xs ++ ys)
Distinct-join [] ys d e f = e
Distinct-join (x ∷ xs) ys d e f =
    ground (arith, has-append x.addr xs ys, Distinct-join xs ys d.1 e f.1)

-- One address is among the cells and the other is not.
pub ne_of_has : (a b : Ptr) (cs : Cells) → has a cs ≡ false → has b cs ≡ true → (a == b) ≡ false
ne_of_has a b cs out is_in = ground arith

pub update_at-other :
    (h : Heap) (p : Ptr) (f : Node → Node) (q : Ptr) → (q == p) ≡ false → update_at h p f q ≡ h q
unfolding update_at
update_at-other h p f q e = rw e

pub update_at_self :
    (h : Heap) (p : Ptr) (f : Node → Node) (n : Node)
    → h p ≡ some n
    → update_at h p f p ≡ some (f n)
unfolding update_at on_node
update_at_self h p f n e = ground arith

module _ (h : Heap) where
  pub Seg-split :
      (p : Ptr) (xs ys : Cells) (e : Ptr)
      → Seg h p (xs ++ ys) e
      → Seg h p xs (first ys e) × Seg h (last p xs) ys e
  Seg-split p [] ys e s = (tt, s)
  Seg-split p (x ∷ xs) ys e s =
      let r = Seg-split x.addr xs ys e s.2 in
      ((s.0, ground (arith, first-append xs ys e), r.0), r.1)

  pub Seg-join :
      (p : Ptr) (xs ys : Cells) (e : Ptr)
      → Seg h p xs (first ys e)
      → Seg h (last p xs) ys e
      → Seg h p (xs ++ ys) e
  Seg-join p [] ys e s t = t
  Seg-join p (x ∷ xs) ys e s t =
      (s.0, ground (arith, first-append xs ys e), Seg-join x.addr xs ys e s.2 t)

  -- A write outside the segment leaves it as it was.
  pub Seg-update :
      (a : Ptr) (f : Node → Node) (p : Ptr) (cs : Cells) (e : Ptr)
      → has a cs ≡ false
      → Seg h p cs e
      → Seg (update_at h a f) p cs e
  unfolding update_at
  Seg-update a f p [] e out s = tt
  Seg-update a f p (c ∷ cs) e out s = ground (arith, Seg-update a f c.addr cs e (ground arith) s.2)

  pub Seg-write :
      (a : Ptr) (o : Option Node) (p : Ptr) (cs : Cells) (e : Ptr)
      → has a cs ≡ false
      → Seg h p cs e
      → Seg (write_at h a o) p cs e
  unfolding write_at
  Seg-write a o p [] e out s = tt
  Seg-write a o p (c ∷ cs) e out s = ground (arith, Seg-write a o c.addr cs e (ground arith) s.2)

  -- `prev` of the first cell is redirected.
  pub Seg-with_prev :
      (q p : Ptr) (c : Cell) (cs : Cells) (e : Ptr)
      → has c.addr cs ≡ false
      → Seg h p (c ∷ cs) e
      → Seg (update_at h c.addr (with_prev q)) q (c ∷ cs) e
  unfolding update_at on_node
  Seg-with_prev q p c cs e out s =
      (s.0, ground arith, Seg-update c.addr (with_prev q) c.addr cs e out s.2)

  -- `next` of the last cell is redirected.
  pub Seg-with_next :
      (q p : Ptr) (c : Cell) (cs : Cells) (e : Ptr)
      → Distinct (c ∷ cs)
      → Seg h p (c ∷ cs) e
      → Seg (update_at h (last c.addr cs) (with_next q)) p (c ∷ cs) q
  unfolding update_at on_node
  Seg-with_next q p c [] e d s = (s.0, ground arith, tt)
  Seg-with_next q p c (x ∷ cs) e d s = (
    s.0,
    update_at-other h _ _ c.addr (ne_of_has _ _ (x ∷ cs) d.0 (has-last x cs)) ∙ s.1,
    Seg-with_next q c.addr x cs e d.1 s.2,
  )

  -- A heap that holds the same nodes holds the same segment.
  pub Seg-frame :
      (g : Heap) (p : Ptr) (cs : Cells) (e : Ptr)
      → ((q : Ptr) → has q cs ≡ true → g q ≡ h q)
      → Seg h p cs e
      → Seg g p cs e
  Seg-frame g p [] e same s = tt
  Seg-frame g p (c ∷ cs) e same s = (
    s.0,
    same c.addr (ground arith) ∙ s.1,
    Seg-frame g c.addr cs e (λ q i. same q (ground arith)) s.2,
  )

  -- The cell behind `xs` is on the heap, with the links that its place gives it.
  pub Seg-cell :
      (p : Ptr) (xs : Cells) (c : Cell) (ys : Cells) (e : Ptr)
      → Seg h p (xs ++ c ∷ ys) e
      → h c.addr ≡ some (node_of c (first ys e) (last p xs))
  Seg-cell p xs c ys e s = (Seg-split p xs (c ∷ ys) e s).1.1

  pub last-ne_null :
      (p : Ptr) (c : Cell) (cs : Cells) (e : Ptr)
      → Seg h p (c ∷ cs) e
      → (last c.addr cs == null) ≡ false
  last-ne_null p c [] e s = s.0
  last-ne_null p c (x ∷ cs) e s = last-ne_null c.addr x cs e s.2

  -- The last node is on the heap.
  pub last_node :
      (p : Ptr) (c : Cell) (cs : Cells) (e : Ptr)
      → Seg h p (c ∷ cs) e
      → (n : Node) × (h (last c.addr cs) ≡ some n)
  last_node p c [] e s = (_, s.1)
  last_node p c (x ∷ cs) e s = last_node c.addr x cs e s.2

  -- The last node has a predecessor where the first one has.
  pub last_prev :
      (p : Ptr) (c : Cell) (cs : Cells) (e : Ptr)
      → (p == null) ≡ false
      → Seg h p (c ∷ cs) e
      → (n : Node) × (h (last c.addr cs) ≡ some n) × ((n.prev == null) ≡ false)
  last_prev p c [] e live s = (_, s.1, live)
  last_prev p c (x ∷ cs) e live s = last_prev c.addr x cs e s.0 s.2
