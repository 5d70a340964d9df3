-- ===== src/Storage/Lru/Touch.antt =====
-- SimpleLRU::MoveToHead.
use ts_sem.Prelude.{
  ℕ, ◌≡◌, refl, sym, ap, subst, ◌∙◌, inl, inr, false, none, some, [], ◌∷◌, ◌++◌, ◌==◌, arith,
  Bool-cases, length-append,
}
use ts_sem.Prelude.Bytes.{Bytes, bytes_eq, eq_of_bytes_eq}
use ts_sem.Run.{Ends}
use ts_sem.Storage.Spec.{Unique, lookup-nil}
use ts_sem.Storage.Lru.Memory.{
  Ptr, null, Node, Heap, Lru, modify_node, update_at, with_next, with_prev,
}
use ts_sem.Storage.Lru.Index
use ts_sem.Storage.Lru.{relink_head}
use ts_sem.Storage.Lru.Segment.{
  Cell, Cells, node_of, first, last, has, has-append, has-last, Seg, Distinct-join, Disjoint-has,
  update_at-other, update_at_self, Seg-split, Seg-join, Seg-frame, Seg-update, Seg-with_prev,
  Seg-with_next, last-append, ne_of_has, last_node, last_prev, last-ne_null,
}
use ts_sem.Storage.Lru.Links.{SameOutside, load-ok, modify_node-ok, detach_next-Seg}
use ts_sem.Storage.Lru.Delete.{gone}
use ts_sem.Storage.Lru.Rep.{
  entries-append, find_cell, Rep, find_cell-middle, find_cell-here, Below-split, Below-join,
  total-middle, middle_node, middle_live, middle-Distinct, middle-Unique,
}

-- The heap after the writes that put the node `a` in front of `x`, where `l` was before `a` and `q`
-- behind it.
abbrev relinked : Heap → (a x l q : Ptr) → Heap
relinked g a x l q =
    update_at
      (update_at
        (update_at (update_at (update_at g x (with_prev a)) l (with_next null)) l (with_next q)) a
        (with_next x))
      a (with_prev null)

-- The cells `x ∷ xs` stand before the cell `c`, and `ys` behind it.
module _ {max : ℕ} {s : Lru} (x : Cell) (xs : Cells) (c : Cell) (ys : Cells)
    (r : Rep max s ((x ∷ xs) ++ c ∷ ys)) (g : Heap) (same : SameOutside ys s.heap g)
    (back : Seg g (last x.addr xs) ys null) where
  abbrev final : Heap
  final = relinked g c.addr x.addr (last x.addr xs) (first ys null)

  c_ne_x : (c.addr == x.addr) ≡ false
  c_ne_x = let d = middle-Distinct (x ∷ xs) c ys r in ground (arith, d.3)

  c_ne_last : (c.addr == last x.addr xs) ≡ false
  c_ne_last = ne_of_has c.addr _ (x ∷ xs) (middle-Distinct (x ∷ xs) c ys r).3 (has-last x xs)

  front1 : Seg g null (x ∷ xs) c.addr
  front1 =
      Seg-frame s.heap g null (x ∷ xs) c.addr
        (λ q i. same q (Disjoint-has q (x ∷ xs) ys (middle-Distinct (x ∷ xs) c ys r).2 i))
        (Seg-split s.heap null (x ∷ xs) (c ∷ ys) null r.chain).0

  front2 : Seg (update_at g x.addr (with_prev c.addr)) c.addr (x ∷ xs) c.addr
  front2 = Seg-with_prev g c.addr null x xs c.addr (middle-Distinct (x ∷ xs) c ys r).0.0 front1

  front3 :
      Seg
        (update_at (update_at g x.addr (with_prev c.addr)) (last x.addr xs) (with_next null))
        c.addr
        (x ∷ xs)
        null
  front3 = Seg-with_next _ null c.addr x xs c.addr (middle-Distinct (x ∷ xs) c ys r).0 front2

  front4 :
      Seg
        (update_at
          (update_at (update_at g x.addr (with_prev c.addr)) (last x.addr xs) (with_next null))
          (last x.addr xs)
          (with_next (first ys null)))
        c.addr
        (x ∷ xs)
        (first ys null)
  front4 =
      Seg-with_next _ (first ys null) c.addr x xs null (middle-Distinct (x ∷ xs) c ys r).0 front3

  x_out : has x.addr ys ≡ false
  x_out = Disjoint-has x.addr (x ∷ xs) ys (middle-Distinct (x ∷ xs) c ys r).2 (ground arith)

  last_out : has (last x.addr xs) ys ≡ false
  last_out = Disjoint-has _ (x ∷ xs) ys (middle-Distinct (x ∷ xs) c ys r).2 (has-last x xs)

  -- An address that is none of the three keeps its node.
  relinked-other :
      (q : Ptr)
      → (q == c.addr) ≡ false
      → (q == x.addr) ≡ false
      → (q == last x.addr xs) ≡ false
      → final q ≡ g q
  relinked-other q c x l =
      update_at-other _ _ _ q c
      ∙ update_at-other _ _ _ q c
      ∙ update_at-other _ _ _ q l
      ∙ update_at-other _ _ _ q l
      ∙ update_at-other _ _ _ q x

  -- The node of `c` before its own links are written.
  moved_node :
      (update_at
          (update_at (update_at g x.addr (with_prev c.addr)) (last x.addr xs) (with_next null))
          (last x.addr xs)
          (with_next (first ys null)))
        c.addr
      ≡ some (node_of c (first ys null) (last x.addr xs))
  moved_node =
      update_at-other _ _ _ c.addr c_ne_last
      ∙ update_at-other _ _ _ c.addr c_ne_last
      ∙ update_at-other _ _ _ c.addr c_ne_x
      ∙ same c.addr (middle-Distinct (x ∷ xs) c ys r).4
      ∙ middle_node (x ∷ xs) c ys r

  final_chain : Seg final null (c ∷ (x ∷ xs) ++ ys) null
  final_chain =
      let d = middle-Distinct (x ∷ xs) c ys r in
      (
        middle_live (x ∷ xs) c ys r,
        update_at_self _ c.addr (with_prev null) _
            (update_at_self _ c.addr (with_next x.addr) _ moved_node),
        Seg-join final c.addr (x ∷ xs) ys null
            (Seg-update _ c.addr (with_prev null) c.addr (x ∷ xs) _ d.3
              (Seg-update _ c.addr (with_next x.addr) c.addr (x ∷ xs) _ d.3 front4))
            (Seg-update _ c.addr (with_prev null) _ ys null d.4 (
              Seg-update _ c.addr (with_next x.addr) _ ys null d.4 (
                Seg-update _ _ _ _ ys null last_out
                  (Seg-update _ _ _ _ ys null last_out (Seg-update _ _ _ _ ys null x_out back))))),
      )

  final_no_leak : (q : Ptr) → has q (c ∷ (x ∷ xs) ++ ys) ≡ false → final q ≡ none
  final_no_leak q o =
      let apart : (has q (x ∷ xs) ≡ false) × (has q ys ≡ false) =
        ground (arith, has-append q (x ∷ xs) ys) in
      relinked-other q (ground arith) (ground arith)
        (ne_of_has q _ (x ∷ xs) apart.0 (has-last x xs))
      ∙ same q apart.1
      ∙ r.no_leak q (ground (arith, has-append q (x ∷ xs) (c ∷ ys), apart.0, apart.1))

  final_index : (k : Bytes) → Index.find k s.lru_index ≡ find_cell k (c ∷ (x ∷ xs) ++ ys)
  final_index k = r.index k ∙ elim (Bool-cases (bytes_eq c.key k)) [
    | inl e ↦
        let j = eq_of_bytes_eq c.key k e in
        subst (λ i. find_cell i ((x ∷ xs) ++ c ∷ ys) ≡ find_cell i (c ∷ (x ∷ xs) ++ ys)) j
          (find_cell-here (x ∷ xs) c ys (middle-Unique (x ∷ xs) c ys r).0
            ∙ sym (find_cell-here [] c ((x ∷ xs) ++ ys) (lookup-nil c.key)))
    | inr e ↦
        ground (arith, find_cell-middle k (x ∷ xs) c ys, find_cell-middle k [] c ((x ∷ xs) ++ ys))
  ]

  final-Rep :
      (t : Ptr)
      → t ≡ last (last x.addr xs) ys
      → Rep max (record s { lru_tail = t; lru_head = c.addr; heap = final }) (c ∷ (x ∷ xs) ++ ys)
  final-Rep t e =
      let d = middle-Distinct (x ∷ xs) c ys r in
      let u = middle-Unique (x ∷ xs) c ys r in
      let b = Below-split s.next_address (x ∷ xs) (c ∷ ys) r.fresh in
      record {
        chain = final_chain;
        head = refl;
        tail = e ∙ sym (last-append x.addr xs ys);
        distinct = (
          ground (arith, has-append c.addr (x ∷ xs) ys, d.3, d.4),
          Distinct-join (x ∷ xs) ys d.0 d.1 d.2,
        );
        unique =
            (gone (x ∷ xs) c ys r c.key refl, subst Unique (sym (entries-append (x ∷ xs) ys)) u.2);
        index = final_index;
        limit = r.limit;
        sized = omega (arith, total-middle (x ∷ xs) c ys r, r.sized);
        small = r.small;
        fresh = (b.1.0, Below-join s.next_address (x ∷ xs) ys b.0 b.1.1);
        count = omega (arith, r.count, length-append xs (c ∷ ys), length-append xs ys);
        no_leak = final_no_leak;
      }

-- In a well-formed state whose cells are `x`, `xs`, `c` and `ys` in this order, the pointer updates
-- of MoveToHead on the node of `c` end in a well-formed state whose cells are `c`, `x`, `xs` and
-- `ys`.
pub relink_head-Rep :
    {max : ℕ} {s : Lru} (x : Cell) (xs : Cells) (c : Cell) (ys : Cells)
    → Rep max s ((x ∷ xs) ++ c ∷ ys)
    → Ends (relink_head c.addr s) tt (λ t. Rep max t (c ∷ (x ∷ xs) ++ ys))
unfolding relink_head
relink_head-Rep {max} {s} x xs c ys r =
    let d = middle-Distinct (x ∷ xs) c ys r in
    let n : Node = node_of c (first ys null) (last x.addr xs) in
    let live = middle_live (x ∷ xs) c ys r in
    let here = middle_node (x ∷ xs) c ys r in
    let parts = Seg-split s.heap null (x ∷ xs) (c ∷ ys) null r.chain in
    let (g, t, eq1, back, tl, same) =
      detach_next-Seg s n c.addr ys refl parts.1.2 d.1 (r.tail ∙ last-append x.addr xs (c ∷ ys)) in
    let s1 : Lru = record s { heap = g; lru_tail = t } in
    let f1 = front1 x xs c ys r g same back in
    let f2 = front2 x xs c ys r g same back in
    let f3 = front3 x xs c ys r g same back in
    let f4 = front4 x xs c ys r g same back in
    let l = last x.addr xs in
    let l_live = last-ne_null g null x xs c.addr f1 in
    let g2 : Heap = update_at g x.addr (with_prev c.addr) in
    let eq2 = modify_node-ok x.addr (with_prev c.addr) s1 f1.0 f1.1 in
    let s2 : Lru = record s1 { heap = g2 } in
    let eq3 = modify_node-ok l (with_next null) s2 l_live (last_node g2 c.addr x xs c.addr f2).1 in
    let g3 : Heap = update_at g2 l (with_next null) in
    let s3 : Lru = record s2 { heap = g3 } in
    let eq4 =
      modify_node-ok l (with_next (first ys null)) s3 l_live (last_node g3 c.addr x xs null f3).1 in
    let g4 : Heap = update_at g3 l (with_next (first ys null)) in
    let s4 : Lru = record s3 { heap = g4 } in
    let moved = moved_node x xs c ys r g same back in
    let eq5 = modify_node-ok c.addr (with_next x.addr) s4 live moved in
    let g5 : Heap = update_at g4 c.addr (with_next x.addr) in
    let s5 : Lru = record s4 { heap = g5; lru_head = c.addr } in
    let front5 = Seg-update g4 c.addr (with_next x.addr) c.addr (x ∷ xs) (first ys null) d.3 f4 in
    let (m, at_last, m_prev) = last_prev g5 c.addr x xs (first ys null) live front5 in
    let eq6 = load-ok l s5 l_live at_last in
    let eq7 =
      modify_node-ok c.addr (with_prev null) s5 live
        (update_at_self g4 c.addr (with_next x.addr) _ moved) in
    (
      record s {
        lru_tail = t;
        lru_head = c.addr;
        heap = relinked g c.addr x.addr l (first ys null);
      },
      rw
          (
            load-ok c.addr s live here,
            eq1,
            ap (λ p. modify_node p (with_prev c.addr) s1) r.head ∙ eq2,
            eq3,
            eq4,
            ap (λ p. modify_node c.addr (with_next p) s4) r.head ∙ eq5,
            eq6,
            m_prev,
            eq7,
          )
          refl,
      final-Rep x xs c ys r g same back t tl,
    )
