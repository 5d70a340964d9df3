-- ===== src/Storage/Lru/Delete.antt =====
-- SimpleLRU::Delete.
use ts_sem.Prelude.{
  ℕ, suc, ◌≡◌, refl, sym, subst, ◌∙◌, inl, inr, true, false, none, some, ◌∷◌, ◌++◌, ◌==◌, arith,
  Bool-cases, length-append, Option-cases, is_some,
}
use ts_sem.Prelude.Bytes.{Bytes, bytes_eq, eq_of_bytes_eq}
use ts_sem.Run.{ok, Ends}
use ts_sem.Storage.Spec.{lookup, remove, lookup-append_none, remove-absent}
use ts_sem.Storage.Lru.Memory.{
  Ptr, null, Node, Heap, Lru, add64, size_of, update_at, write_at, with_next, destroy, free,
}
use ts_sem.Storage.Lru.Index
use ts_sem.Storage.Lru.Index.{find-erase}
use ts_sem.Storage.Lru.{unlink, delete}
use ts_sem.Storage.Lru.Segment.{
  Cell, Cells, node_of, first, last, has, has-append, Seg, Distinct-join, Disjoint-has,
  Disjoint-has_right, update_at-other, update_at_self, Seg-split, Seg-join, Seg-frame, Seg-update,
  Seg-write, first-append, last-append,
}
use ts_sem.Storage.Lru.Links.{
  SameOutside, load-ok, modify_node-ok, detach_next-Seg, detach_prev-Seg,
}
use ts_sem.Storage.Lru.Rep.{
  entries, entries-append, find_cell, Rep, Models, Found, Found-cell, find_cell-absent,
  find_cell-middle, find_cell-here, find_cell-none, Below-split, Below-join, total-middle,
  middle_node, middle_live, middle-Distinct, middle-Unique,
}

pub destroy-ok :
    (f : ℕ) (p : Ptr) (s : Lru) (n : Node)
    → (p == null) ≡ false
    → s.heap p ≡ some n
    → n.next ≡ null
    → destroy (suc (suc f)) p s ≡ ok tt (record s { heap = write_at s.heap p none })
unfolding destroy free
destroy-ok f p s n live e end = rw (live, load-ok p s live e, load-ok p s live e, end)

-- The heap before and after a node is unlinked: what changed in each stage, by address.
record Stages (xs : Cells) (c : Cell) (ys : Cells) (h g1 g3 : Heap) : Type 0 where
  first_stage : SameOutside ys h g1
  second_stage : SameOutside xs (update_at g1 c.addr (with_next null)) g3
  chain_before : Seg g3 null xs (first ys null)
  chain_behind : Seg g1 (last null xs) ys null

module _ {max : ℕ} {s : Lru} (xs : Cells) (c : Cell) (ys : Cells)
    (r : Rep max s (xs ++ c ∷ ys)) where
  pub gone : (k : Bytes) → c.key ≡ k → lookup k (entries (xs ++ ys)) ≡ none
  gone k e =
      let u = middle-Unique xs c ys r in
      subst (λ j. lookup j (entries (xs ++ ys)) ≡ none) e
        (rw (entries-append xs ys) (lookup-append_none c.key (entries xs) (entries ys) u.0 ∙ u.1))

  index_after : (k : Bytes) → Index.find k (Index.erase c.key s.lru_index) ≡ find_cell k (xs ++ ys)
  index_after k = elim (Bool-cases (bytes_eq c.key k)) [
    | inl e ↦
        find-erase k c.key s.lru_index
        ∙ rw e (sym (find_cell-none k (xs ++ ys) (gone k (eq_of_bytes_eq c.key k e))))
    | inr e ↦ find-erase k c.key s.lru_index ∙ ground (arith, r.index k, find_cell-middle k xs c ys)
  ]

  module _ {g1 g3 : Heap} (st : Stages xs c ys s.heap g1 g3) where
    final_chain : Seg (write_at g3 c.addr none) null (xs ++ ys) null
    final_chain =
        let d = middle-Distinct xs c ys r in
        Seg-join _ null xs ys null (Seg-write g3 c.addr none null xs _ d.3 st.chain_before) (
          Seg-write g3 c.addr none _ ys null d.4 (
            Seg-frame _ g3 _ ys null (λ q i. st.second_stage q (Disjoint-has_right q xs ys d.2 i))
              (Seg-update g1 c.addr (with_next null) _ ys null d.4 st.chain_behind)))

    final_no_leak : (q : Ptr) → has q (xs ++ ys) ≡ false → write_at g3 c.addr none q ≡ none
    unfolding write_at
    final_no_leak q o = elim (Bool-cases (q == c.addr)) [
      | inl e ↦ rw e refl
      | inr e ↦ rw e (
          st.second_stage q (ground (arith, has-append q xs ys))
          ∙ update_at-other g1 c.addr _ q e
          ∙ st.first_stage q (ground (arith, has-append q xs ys))
          ∙ r.no_leak q (ground (arith, has-append q xs ys, has-append q xs (c ∷ ys))))
    ]

    final-Rep :
        (t1 t3 : Ptr)
        → t1 ≡ last (last null xs) ys
        → t3 ≡ first xs (first ys null)
        → Rep max
            (record s {
              free_size = add64 s.free_size (size_of c.key c.value);
              lru_index = Index.erase c.key s.lru_index;
              lru_tail = t1;
              lru_head = t3;
              heap = write_at g3 c.addr none;
            })
            (xs ++ ys)
    final-Rep t1 t3 e1 e3 =
        let d = middle-Distinct xs c ys r in
        let u = middle-Unique xs c ys r in
        let b = Below-split s.next_address xs (c ∷ ys) r.fresh in
        record {
          chain = final_chain;
          head = e3 ∙ sym (first-append xs ys null);
          tail = e1 ∙ sym (last-append null xs ys);
          distinct = Distinct-join xs ys d.0 d.1 d.2;
          unique = rw (entries-append xs ys) u.2;
          index = index_after;
          limit = r.limit;
          sized = omega (arith, total-middle xs c ys r, r.sized, r.small);
          small = r.small;
          fresh = Below-join s.next_address xs ys b.0 b.1.1;
          count = omega (arith, r.count, length-append xs (c ∷ ys), length-append xs ys);
          no_leak = final_no_leak;
        }

  -- Unlinking destroys the one node, and the other cells stay as they are and in order.
  pub unlink-Rep : Ends (unlink c.key c.addr s) true (λ t. Rep max t (xs ++ ys))
  unfolding unlink
  unlink-Rep =
      let d = middle-Distinct xs c ys r in
      let n : Node = node_of c (first ys null) (last null xs) in
      let live = middle_live xs c ys r in
      let here = middle_node xs c ys r in
      let parts = Seg-split s.heap null xs (c ∷ ys) null r.chain in
      let s1 : Lru = record s {
        free_size = add64 s.free_size (size_of c.key c.value);
        lru_index = Index.erase c.key s.lru_index;
      } in
      let (g1, t1, eq1, seg1, tl1, same1) =
        detach_next-Seg s1 n c.addr ys refl parts.1.2 d.1 (r.tail ∙ last-append null xs (c ∷ ys)) in
      let s2 : Lru = record s1 { heap = g1; lru_tail = t1 } in
      let here2 = same1 c.addr d.4 ∙ here in
      let eq2 = modify_node-ok c.addr (with_next null) s2 live here2 in
      let s3 : Lru = record s2 { heap = update_at g1 c.addr (with_next null) } in
      let (g3, t3, eq3, seg3, hd3, same3) =
        detach_prev-Seg s3 n (first ys null) c.addr xs refl
          (Seg-update g1 c.addr (with_next null) null xs c.addr d.3 (
            Seg-frame s.heap g1 null xs c.addr (λ q i. same1 q (Disjoint-has q xs ys d.2 i))
              parts.0))
          d.0 (r.head ∙ first-append xs (c ∷ ys) null) in
      let s4 : Lru = record s3 { heap = g3; lru_head = t3 } in
      let eq4 =
        destroy-ok s.next_address c.addr s4 (with_next null n) live
          (same3 c.addr d.3 ∙ update_at_self g1 c.addr (with_next null) n here2) refl in
      (
        record s4 { heap = write_at g3 c.addr none },
        rw (load-ok c.addr s live here, eq1, eq2, eq3, eq4) refl,
        final-Rep
            (record {
              first_stage = same1;
              second_stage = same3;
              chain_before = seg3;
              chain_behind = seg1;
            })
            t1 t3 tl1 hd3,
      )

  -- Delete of the key of a cell takes out that cell.
  pub delete-middle : Ends (delete c.key s) true (λ t. Rep max t (xs ++ ys))
  unfolding delete
  delete-middle =
      rw (r.index c.key ∙ find_cell-here xs c ys (middle-Unique xs c ys r).0, delete) unlink-Rep

delete-Found :
    {max : ℕ} {s : Lru} (k : Bytes) (cs : Cells) {a : Ptr}
    → Rep max s cs
    → Found k a cs
    → Ends (delete k s) (is_some (lookup k (entries cs))) (Models max (remove k (entries cs)))
delete-Found {max} {s} k cs r f =
    let record { before = xs; cell = c; behind = ys; whole = w; at = _; named = e } = f in
    let r' : Rep max s (xs ++ c ∷ ys) = subst (Rep max s) w r in
    let u = middle-Unique xs c ys r' in
    let (t, run, rep) = delete-middle xs c ys r' in
    rw (w, ← e, entries-append xs (c ∷ ys), u.4, u.3)
      (t, run, (xs ++ ys, rep, entries-append xs ys))

-- In a well-formed state Delete removes the entry of the key, keeps the others in order in a well-
-- formed state, and returns whether there was such an entry.
pub delete-remove :
    {max : ℕ} {s : Lru} (k : Bytes) (cs : Cells)
    → Rep max s cs
    → Ends (delete k s) (is_some (lookup k (entries cs))) (Models max (remove k (entries cs)))
unfolding delete
delete-remove {s} k cs r = elim (Option-cases (find_cell k cs)) [
  | inl e ↦
      let gone = find_cell-absent k cs e in
      rw (r.index k ∙ e, delete, gone, remove-absent k (entries cs) gone) (s, refl, (cs, r, refl))
  | inr (a, e) ↦ delete-Found k cs r (Found-cell k a cs e)
]
