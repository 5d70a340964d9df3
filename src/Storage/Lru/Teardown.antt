-- ===== src/Storage/Lru/Teardown.antt =====
-- The destructor of SimpleLRU empties the heap.
pub mod Round
use ts_sem.Prelude.{
  ℕ, zero, suc, ◌+◌, ◌≤◌, ◌<◌, ◌≡◌, refl, sym, ap, subst, ◌∙◌, inl, inr, ◌⊎◌, Bool, true, false,
  ◌||◌, Option, none, some, List, [], ◌∷◌, ◌++◌, ◌==◌, arith, if◌then◌else◌, Bool-cases, length,
  length-append,
}
use mathlib.Core.List.{append-nil}
use ts_sem.Run
use ts_sem.Run.{ok, Ends, ◌>>=◌, ◌>>◌}
use ts_sem.Storage.Lru.Memory.{
  Ptr, null, Node, Heap, Lru, update_at, write_at, with_next, destroy, free, load, set_next,
  set_tail, set_head,
}
use ts_sem.Storage.Lru.{teardown, teardown_loop}
use ts_sem.Storage.Lru.Segment.{
  Cell, Cells, node_of, first, last, has, has-append, Seg, Distinct, Disjoint, Distinct-split,
  Disjoint-has, Disjoint-has_right, Seg-join, Seg-frame, Seg-update, update_at_self,
  update_at-other, Seg-split, Seg-write, Seg-with_next, last-append, first-append, has-last,
  last-ne_null,
}
use ts_sem.Storage.Lru.Links.{SameOutside, load-ok, modify_node-ok}
use ts_sem.Storage.Lru.Rep.{Rep}
use ts_sem.Storage.Lru.Delete.{destroy-ok}
use ts_sem.Storage.Lru.Teardown.Round.{
  Rest, Standing, Cells-cases, destroy-Rest, both, apart, in_front, shrunk, round_runs,
  round_stands,
}

stands_empty : (fuel : ℕ) (s : Lru) → s.lru_tail ≡ null → teardown_loop (suc fuel) s ≡ ok tt s
unfolding teardown_loop
stands_empty fuel s e =
    ap
      (λ p.
        if p == null
        then Run.pure tt s
        else (do
          n ← load p
          destroy (suc (suc s.next_address)) n.next
          set_next p null
          set_tail n.prev
          teardown_loop fuel)
            s)
      e

-- Where the loop stops.
abbrev Stops : ℕ → Lru → Type 0
Stops fuel s = (t : Lru) × (o : Option Cell) × (teardown_loop fuel s ≡ ok tt t) × Standing t [] o

loop_Stops :
    (fuel : ℕ) (s : Lru) (xs : Cells) (o : Option Cell)
    → Standing s xs o
    → length xs < fuel
    → Stops fuel s
loop_Stops zero s xs o v lt = absurd (omega (arith, lt))
loop_Stops (suc fuel) s xs o v lt = elim (Cells-cases xs) [
  | inl e ↦
      let w : Standing s [] o = subst (λ ys. Standing s ys o) e v in
      (s, o, stands_empty fuel s w.tail, w)
  | inr (ys, c, e) ↦
      let w : Standing s (ys ++ c ∷ []) o = subst (λ zs. Standing s zs o) e v in
      let (g, run, same, gone) =
        destroy-Rest o (last null (ys ++ c ∷ [])) s.next_address s (both s ys c o w).1 in
      let alone =
        Disjoint-has c.addr (ys ++ c ∷ []) (Rest o) (apart s ys c o w).2 (in_front s ys c o w) in
      let (t, o', rest, k) =
        loop_Stops fuel (shrunk s ys c o w g) ys (some c) (round_stands s ys c o w g same gone)
          (omega (arith, lt, ap length e, length-append ys (c ∷ []))) in
      (t, o', round_runs s ys c o w fuel g run (same c.addr alone) ∙ rest, k)
]

at_start :
    (max : ℕ) (s : Lru) (cs : Cells) → Rep max s cs → Standing (record s { lru_index = [] }) cs none
at_start max s cs r =
    let whole : cs ≡ cs ++ [] = sym (append-nil cs) in
    record {
      chain = subst (λ ys. Seg s.heap null ys null) whole r.chain;
      head = subst (λ ys. s.lru_head ≡ first ys null) whole r.head;
      tail = r.tail;
      distinct = subst Distinct whole r.distinct;
      no_leak = subst (λ ys. (q : Ptr) → has q ys ≡ false → s.heap q ≡ none) whole r.no_leak;
    }

-- In a well-formed state the destructor ends, without a read or write through a null or dangling
-- pointer and without freeing a node twice, and leaves no node on the heap.
pub teardown_empties :
    (max : ℕ) (s : Lru) (cs : Cells)
    → Rep max s cs
    → Ends
        (teardown s)
        tt
        (λ t. ((q : Ptr) → t.heap q ≡ none) × (t.lru_head ≡ null) × (t.lru_tail ≡ null))
unfolding teardown
teardown_empties max s cs r =
    let (t, o, run, v) =
      loop_Stops (suc s.next_address) (record s { lru_index = [] }) cs none (at_start max s cs r)
        (omega (arith, r.count)) in
    let (g, drop_head, same, gone) = destroy-Rest o null t.next_address t v.chain in
    (
      record t { heap = g; lru_head = null },
      ap
            (λ m. Run.and_then m (λ x. Run.get_state >>= λ u.
              destroy (suc (suc u.next_address)) u.lru_head >> set_head null))
            run
          ∙ ap (λ p. Run.and_then (destroy (suc (suc t.next_address)) p t) (λ x. set_head null))
              v.head
          ∙ ap (λ m. Run.and_then m (λ x. set_head null)) drop_head,
      (
        λ q. elim (Bool-cases (has q (Rest o))) [
          | inl i ↦ gone q i
          | inr i ↦ same q i ∙ v.no_leak q i
        ],
        refl,
        v.tail,
      ),
    )
