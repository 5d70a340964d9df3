-- ===== src/Storage/Lru/Teardown/Round.antt =====
-- A round of the loop in the destructor of SimpleLRU.
use ts_sem.Prelude.{
  ℕ, suc, ◌≡◌, refl, sym, ap, ◌∙◌, inl, inr, ◌⊎◌, true, false, Option, none, some, [], ◌∷◌, ◌++◌,
  ◌==◌, arith, if◌then◌else◌, Bool-cases,
}
use ts_sem.Run
use ts_sem.Run.{ok, Ends, ◌>>=◌, ◌>>◌}
use ts_sem.Storage.Lru.Memory.{
  Ptr, null, Node, Heap, Lru, update_at, write_at, with_next, destroy, load, set_next, set_tail,
}
use ts_sem.Storage.Lru.{teardown_loop}
use ts_sem.Storage.Lru.Segment.{
  Cell, Cells, node_of, first, last, has, has-append, Seg, Distinct, Disjoint, Distinct-split,
  Disjoint-has, Disjoint-has_right, Seg-join, Seg-frame, Seg-update, update_at_self,
  update_at-other, Seg-split, last-append, first-append,
}
use ts_sem.Storage.Lru.Links.{load-ok, modify_node-ok}
use ts_sem.Storage.Lru.Delete.{destroy-ok}

-- What the loop has left: the cells `xs`, the last of which the tail points to, and perhaps one more
-- behind them.
abbrev pub Rest : Option Cell → Cells
Rest none = []
Rest (some d) = d ∷ []

pub record Standing (s : Lru) (xs : Cells) (o : Option Cell) : Type 0 where
  pub chain : Seg s.heap null (xs ++ Rest o) null
  pub head : s.lru_head ≡ first (xs ++ Rest o) null
  pub tail : s.lru_tail ≡ last null xs
  pub distinct : Distinct (xs ++ Rest o)
  pub no_leak : (q : Ptr) → has q (xs ++ Rest o) ≡ false → s.heap q ≡ none

-- Every list is empty or has a last element.
pub Cells-cases : (xs : Cells) → (xs ≡ []) ⊎ ((ys : Cells) × (c : Cell) × (xs ≡ ys ++ c ∷ []))
Cells-cases [] = inl refl
Cells-cases (x ∷ xs) = elim (Cells-cases xs) [
  | inl e ↦ inr ([], x, ap (◌∷◌ x) e)
  | inr (ys, c, e) ↦ inr (x ∷ ys, c, ap (◌∷◌ x) e)
]

-- Destroying what stands at the end of the list, if anything does.
pub destroy-Rest :
    (o : Option Cell) (p : Ptr) (f : ℕ) (s : Lru)
    → Seg s.heap p (Rest o) null
    → (g : Heap) × (destroy (suc (suc f)) (first (Rest o) null) s ≡ ok tt (record s { heap = g }))
      × ((q : Ptr) → has q (Rest o) ≡ false → g q ≡ s.heap q)
      × ((q : Ptr) → has q (Rest o) ≡ true → g q ≡ none)
unfolding destroy write_at
destroy-Rest none p f s sg = (s.heap, refl, λ q h. refl, λ q h. cc)
destroy-Rest (some d) p f s sg = (
  write_at s.heap d.addr none,
  destroy-ok f d.addr s _ sg.0 sg.1 refl,
  λ q h. ground (arith, h),
  λ q h. ground (arith, h),
)

-- One round destroys what stands behind the tail and moves the tail.
module _ (s : Lru) (xs : Cells) (c : Cell) (o : Option Cell) (v : Standing s (xs ++ c ∷ []) o) where
  pub both :
      Seg s.heap null (xs ++ c ∷ []) (first (Rest o) null)
      × Seg s.heap (last null (xs ++ c ∷ [])) (Rest o) null
  both = Seg-split s.heap null (xs ++ c ∷ []) (Rest o) null v.chain

  front : Seg s.heap null xs c.addr × Seg s.heap (last null xs) (c ∷ []) (first (Rest o) null)
  front = Seg-split s.heap null xs (c ∷ []) (first (Rest o) null) both.0

  pub apart : Distinct (xs ++ c ∷ []) × Distinct (Rest o) × Disjoint (xs ++ c ∷ []) (Rest o)
  apart = Distinct-split (xs ++ c ∷ []) (Rest o) v.distinct

  inner_apart : Distinct xs × Distinct (c ∷ []) × Disjoint xs (c ∷ [])
  inner_apart = Distinct-split xs (c ∷ []) apart.0

  at_tail : s.lru_tail ≡ c.addr
  at_tail = v.tail ∙ last-append null xs (c ∷ [])

  pub in_front : has c.addr (xs ++ c ∷ []) ≡ true
  in_front = ground (arith, has-append c.addr xs (c ∷ []))

  -- The state after the round, for the heap `g` that the destruction leaves.
  abbrev pub shrunk : Heap → Lru
  shrunk g = record s { heap = update_at g c.addr (with_next null); lru_tail = last null xs }

  pub round_runs :
      (fuel : ℕ) (g : Heap)
      → destroy (suc (suc s.next_address)) (first (Rest o) null) s ≡ ok tt (record s { heap = g })
      → g c.addr ≡ s.heap c.addr
      → teardown_loop (suc fuel) s ≡ teardown_loop fuel (shrunk g)
  unfolding teardown_loop
  round_runs fuel g run same =
      let node : s.heap c.addr ≡ some (node_of c (first (Rest o) null) (last null xs)) =
        front.1.1 in
      let live : (c.addr == null) ≡ false = front.1.0 in
      let tail_of : Node → Run.Cmd Lru (Unit {0}) = λ m. set_tail m.prev >> teardown_loop fuel in
      let rest : Ptr → Node → Run.Cmd Lru (Unit {0}) =
        λ p m. destroy (suc (suc s.next_address)) m.next >> (set_next p null >> tail_of m) in
      let n = node_of c (first (Rest o) null) (last null xs) in
      ap (λ p. if p == null then Run.pure tt s else (load p >>= rest p) s) at_tail
      ∙ ap (λ b. if b then Run.pure tt s else (load c.addr >>= rest c.addr) s) live
      ∙ ap (λ r. Run.and_then r (rest c.addr)) (load-ok c.addr s live node)
      ∙ ap (λ r. Run.and_then r (λ _. set_next c.addr null >> tail_of n)) run
      ∙ ap (λ r. Run.and_then r (λ _. tail_of n))
          (modify_node-ok c.addr (with_next null) (record s { heap = g }) live (same ∙ node))

  pub round_stands :
      (g : Heap)
      → ((q : Ptr) → has q (Rest o) ≡ false → g q ≡ s.heap q)
      → ((q : Ptr) → has q (Rest o) ≡ true → g q ≡ none)
      → Standing (shrunk g) xs (some c)
  unfolding update_at
  round_stands g same gone =
      let outside : has c.addr xs ≡ false =
        Disjoint-has_right c.addr xs (c ∷ []) inner_apart.2 (ground arith) in
      let kept : (q : Ptr) → has q (xs ++ c ∷ []) ≡ true → g q ≡ s.heap q =
        λ q h. same q (Disjoint-has q (xs ++ c ∷ []) (Rest o) apart.2 h) in
      record {
        chain =
            Seg-join (shrunk g).heap null xs (c ∷ []) null
              (Seg-update g c.addr (with_next null) null xs c.addr outside (
                Seg-frame s.heap g null xs c.addr
                  (λ q h. kept q (ground (arith, h, has-append q xs (c ∷ [])))) front.0))
              (
                front.1.0,
                update_at_self g c.addr (with_next null) _ (kept c.addr in_front ∙ front.1.1),
                tt,
              );
        head =
            v.head
            ∙ first-append (xs ++ c ∷ []) (Rest o) null
            ∙ first-append xs (c ∷ []) (first (Rest o) null)
            ∙ sym (first-append xs (c ∷ []) null);
        tail = refl;
        distinct = apart.0;
        no_leak = λ q h. elim (Bool-cases (has q (Rest o))) [
          | inl i ↦ update_at-other g c.addr (with_next null) q (elsewhere q h) ∙ gone q i
          | inr i ↦
              update_at-other g c.addr (with_next null) q (elsewhere q h)
              ∙ same q i
              ∙ v.no_leak q (ground (arith, h, i, has-append q (xs ++ c ∷ []) (Rest o)))
        ];
      }
    where
      elsewhere : (q : Ptr) → has q (xs ++ c ∷ []) ≡ false → (q == c.addr) ≡ false
      elsewhere q h = ground (arith, h, has-append q xs (c ∷ []))
