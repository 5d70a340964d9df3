-- ===== src/Storage/Lru/Links.antt =====
-- The pointer updates that Delete and MoveToHead share, on the segments beside the node.
use ts_sem.Prelude.{◌≡◌, refl, false, some, [], ◌∷◌, ◌==◌, arith}
use ts_sem.Run.{ok, fault}
use ts_sem.Storage.Lru.Memory.{
  Ptr, null, Node, Heap, Lru, load, modify_node, update_at, with_next, with_prev,
}
use ts_sem.Storage.Lru.{detach_next, detach_prev}
use ts_sem.Storage.Lru.Segment.{
  Cells, first, last, has, Seg, Distinct, has-last, update_at-other, ne_of_has, Seg-with_prev,
  Seg-with_next, last-ne_null, last_node,
}

-- `g` differs from `h` at most at the nodes of the cells.
abbrev pub SameOutside : Cells → Heap → Heap → Type 0
SameOutside cs h g = (q : Ptr) → has q cs ≡ false → g q ≡ h q

pub load-ok :
    (p : Ptr) (s : Lru) {n : Node} → (p == null) ≡ false → s.heap p ≡ some n → load p s ≡ ok n s
unfolding load
load-ok p s live e = rw (live, e)

pub load-null : (p : Ptr) (s : Lru) → p ≡ null → load p s ≡ fault
unfolding load
load-null p s e = rw e

pub modify_node-ok :
    (p : Ptr) (f : Node → Node) (s : Lru) {n : Node}
    → (p == null) ≡ false
    → s.heap p ≡ some n
    → modify_node p f s ≡ ok tt (record s { heap = update_at s.heap p f })
unfolding modify_node
modify_node-ok p f s live e = rw (live, e)

module _ (s : Lru) (n : Node) where
  -- The segment behind the node is led back to its predecessor, and the tail is right again.
  pub detach_next-Seg :
      (a : Ptr) (ys : Cells)
      → n.next ≡ first ys null
      → Seg s.heap a ys null
      → Distinct ys
      → s.lru_tail ≡ last a ys
      → (g : Heap) × (t : Ptr) × (detach_next n s ≡ ok tt (record s { heap = g; lru_tail = t }))
        × Seg g n.prev ys null
        × (t ≡ last n.prev ys)
        × SameOutside ys s.heap g
  unfolding detach_next
  detach_next-Seg a [] e sg d tl = (s.heap, n.prev, rw e refl, tt, refl, λ q o. refl)
  detach_next-Seg a (y ∷ ys) e sg d tl = (
    update_at s.heap y.addr (with_prev n.prev),
    s.lru_tail,
    rw (e, sg.0) (modify_node-ok y.addr (with_prev n.prev) s sg.0 sg.1),
    Seg-with_prev s.heap n.prev a y ys null d.0 sg,
    tl,
    λ q o. update_at-other s.heap y.addr (with_prev n.prev) q (ground arith),
  )

  -- The segment before the node ends at `q`, and the head is right again.
  pub detach_prev-Seg :
      (q a : Ptr) (xs : Cells)
      → n.prev ≡ last null xs
      → Seg s.heap null xs a
      → Distinct xs
      → s.lru_head ≡ first xs a
      → (g : Heap) × (t : Ptr) × (detach_prev n q s ≡ ok tt (record s { heap = g; lru_head = t }))
        × Seg g null xs q
        × (t ≡ first xs q)
        × SameOutside xs s.heap g
  unfolding detach_prev
  detach_prev-Seg q a [] e sg d hd = (s.heap, q, rw e refl, tt, refl, λ r o. refl)
  detach_prev-Seg q a (x ∷ xs) e sg d hd =
      let live = last-ne_null s.heap null x xs a sg in
      (
        update_at s.heap (last x.addr xs) (with_next q),
        s.lru_head,
        rw (e, live)
            (modify_node-ok (last x.addr xs) (with_next q) s live
              (last_node s.heap null x xs a sg).1),
        Seg-with_next s.heap q null x xs a d sg,
        hd,
        λ r o.
            update_at-other s.heap (last x.addr xs) (with_next q) r
              (ne_of_has r _ (x ∷ xs) o (has-last x xs)),
      )
