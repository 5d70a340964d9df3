-- ===== src/Storage/Lru/Insert.antt =====
-- SimpleLRU::PutInHead.
use mathlib.Core.Path.{ap₂}
use ts_sem.Prelude.{
  ℕ, suc, ◌+◌, ◌-◌, ◌≤◌, ◌<◌, ◌^◌, ◌≡◌, refl, sym, ap, ◌∙◌, inl, inr, false, Option, none, some, [],
  ◌∷◌, ◌==◌, ltb, length, arith, Bool-cases, ltb→le,
}
use ts_sem.Prelude.Bytes.{Bytes}
use ts_sem.Run.{ok, Ends}
use ts_sem.Storage.Spec.{weight, lookup, fit, insert_front, lookup-prefix_none}
use ts_sem.Storage.Lru.Memory.{
  Ptr, null, Node, Heap, Lru, sub64, size_of, update_at, write_at, with_next, with_prev, new_node,
}
use ts_sem.Storage.Lru.Index
use ts_sem.Storage.Lru.Index.{find-emplace}
use ts_sem.Storage.Lru.{attach, link_head, put_in_head, rounds}
use ts_sem.Storage.Lru.Segment.{
  Cell, Cells, node_of, last, has, Seg, update_at-other, update_at_self, Seg-update, Seg-write,
  Seg-with_prev,
}
use ts_sem.Storage.Lru.Links.{modify_node-ok}
use ts_sem.Storage.Lru.Evict.{evict-fit}
use ts_sem.Storage.Lru.Rep.{entries, entries-append, find_cell, find_cell-none, Below, Rep, Models}

-- The length of a string and of two strings together is a `size_t`.
abbrev pub IsSized : Bytes → Bytes → Type 0
IsSized k v = length k + length v < 2 ^ 64

Below-has : (n : ℕ) (cs : Cells) → Below n cs → has n cs ≡ false
Below-has n [] b = refl
Below-has n (c ∷ cs) b = ground (arith, Below-has n cs b.1)

Below-suc : (n : ℕ) (cs : Cells) → Below n cs → Below (suc n) cs
Below-suc n [] b = tt
Below-suc n (c ∷ cs) b = (omega arith, Below-suc n cs b.1)

abbrev new_cell : Lru → Bytes → Bytes → Cell
new_cell s k v = record { addr = s.next_address; key = k; value = v }

-- The heap with the new node in front of the cells.
abbrev linked : Lru → Bytes → Bytes → Cells → Heap
linked s k v [] = write_at s.heap s.next_address (some (node_of (new_cell s k v) null null))
linked s k v (d ∷ ds) =
    update_at
      (update_at (write_at s.heap s.next_address (some (node_of (new_cell s k v) null null))) d.addr
        (with_prev s.next_address))
      s.next_address (with_next d.addr)

abbrev linked_tail : Lru → Cells → Ptr
linked_tail s [] = s.next_address
linked_tail s (d ∷ ds) = s.lru_tail

abbrev after_link : Lru → Bytes → Bytes → Cells → Lru
after_link s k v ds = record s {
  free_size = sub64 s.free_size (size_of k v);
  lru_head = s.next_address;
  lru_tail = linked_tail s ds;
  lru_index = Index.emplace k s.next_address s.lru_index;
  heap = linked s k v ds;
  next_address = suc s.next_address;
}

abbrev allocated : Lru → Bytes → Bytes → Lru
allocated s k v = record s {
  heap = write_at s.heap s.next_address (some (node_of (new_cell s k v) null null));
  next_address = suc s.next_address;
}

write_at_self : (h : Heap) (p : Ptr) (o : Option Node) → write_at h p o p ≡ o
unfolding write_at
write_at_self h p o = ground arith

module _ {max : ℕ} {s : Lru} (k v : Bytes) where
  new_live : (ds : Cells) → Rep max s ds → (s.next_address == null) ≡ false
  new_live ds r = ground (arith, r.count)

  new_out : (ds : Cells) → Rep max s ds → has s.next_address ds ≡ false
  new_out ds r = Below-has s.next_address ds r.fresh

  linked_chain : (ds : Cells) → Rep max s ds → Seg (linked s k v ds) null (new_cell s k v ∷ ds) null
  unfolding write_at
  linked_chain [] r = (new_live [] r, ground arith, tt)
  linked_chain (d ∷ ds) r =
      let p = s.next_address in
      let out = new_out (d ∷ ds) r in
      (
        new_live (d ∷ ds) r,
        update_at_self _ p (with_next d.addr) (node_of (new_cell s k v) null null)
            (update_at-other _ d.addr (with_prev p) p (ground arith) ∙ ground arith),
        Seg-update _ p (with_next d.addr) p (d ∷ ds) null out (
            Seg-with_prev _ p null d ds null r.distinct.0
              (Seg-write s.heap p _ null (d ∷ ds) null out r.chain)),
      )

  linked_no_leak :
      (ds : Cells) (q : Ptr)
      → Rep max s ds
      → has q (new_cell s k v ∷ ds) ≡ false
      → linked s k v ds q ≡ none
  unfolding write_at
  linked_no_leak [] q r o = ground (arith, r.no_leak q refl)
  linked_no_leak (d ∷ ds) q r o =
      update_at-other _ s.next_address _ q (ground arith)
      ∙ update_at-other _ d.addr _ q (ground arith)
      ∙ ground (arith, r.no_leak q)

  linked_last : (ds : Cells) → Rep max s ds → linked_tail s ds ≡ last s.next_address ds
  linked_last [] r = refl
  linked_last (d ∷ ds) r = r.tail

  link_head-run : (ds : Cells) → Rep max s ds → link_head k v s ≡ ok tt (after_link s k v ds)
  unfolding link_head attach new_node
  link_head-run [] r =
      let eq : attach s.next_address s.lru_head (allocated s k v)
          ≡ ok tt
              (record (allocated s k v) { lru_head = s.next_address; lru_tail = s.next_address }) =
        ap (λ q. attach s.next_address q (allocated s k v)) r.head in
      rw eq refl
  link_head-run (d ∷ ds) r =
      let t = allocated s k v in
      let p = s.next_address in
      let out = new_out (d ∷ ds) r in
      let old =
        Seg-write s.heap p (some (node_of (new_cell s k v) null null)) null (d ∷ ds) null out
          r.chain in
      let eq1 = modify_node-ok d.addr (with_prev p) t old.0 old.1 in
      let eq2 =
        modify_node-ok p (with_next d.addr)
          (record t { heap = update_at t.heap d.addr (with_prev p) })
          {n = node_of (new_cell s k v) null null} (new_live (d ∷ ds) r)
          (update_at-other _ d.addr (with_prev p) p (ground arith) ∙ write_at_self s.heap p _) in
      let eq : attach p s.lru_head t
          ≡ ok tt (record t { lru_head = p; heap = linked s k v (d ∷ ds) }) =
        ap (λ q. attach p q t) r.head ∙ rw (old.0, eq1, eq2) refl in
      rw eq refl

  linked_index :
      (ds : Cells)
      → Rep max s ds
      → lookup k (entries ds) ≡ none
      → (j : Bytes)
      → Index.find j (Index.emplace k s.next_address s.lru_index)
        ≡ find_cell j (new_cell s k v ∷ ds)
  unfolding find_cell
  linked_index ds r absent j =
      find-emplace j k s.next_address s.lru_index (r.index k ∙ find_cell-none k ds absent)
      ∙ ground (arith, r.index j)

  linked_Rep :
      (ds : Cells)
      → Rep max s ds
      → lookup k (entries ds) ≡ none
      → IsSized k v
      → weight (k, v) ≤ s.free_size
      → Rep max (after_link s k v ds) (new_cell s k v ∷ ds)
  linked_Rep ds r absent sz room = record {
    chain = linked_chain ds r;
    head = refl;
    tail = linked_last ds r;
    distinct = (new_out ds r, r.distinct);
    unique = (absent, r.unique);
    index = linked_index ds r absent;
    limit = r.limit;
    sized = omega (arith, r.sized, r.small);
    small = r.small;
    fresh = (omega arith, Below-suc s.next_address ds r.fresh);
    count = omega (arith, r.count);
    no_leak = λ q o. linked_no_leak ds q r o;
  }

  link_head-Rep :
      (ds : Cells)
      → Rep max s ds
      → lookup k (entries ds) ≡ none
      → IsSized k v
      → weight (k, v) ≤ s.free_size
      → Ends (link_head k v s) tt (Models max ((k, v) ∷ entries ds))
  link_head-Rep ds r absent sz room = (
    after_link s k v ds,
    link_head-run ds r,
    (new_cell s k v ∷ ds, linked_Rep ds r absent sz room, refl),
  )

pub size_of-weight : (k v : Bytes) → IsSized k v → size_of k v ≡ weight (k, v)
size_of-weight k v h = omega arith

-- PutInHead of a new key: the last used entries that fit stay behind the new one.
pub put_in_head-insert :
    {max : ℕ} {s : Lru} (k v : Bytes) (cs : Cells)
    → Rep max s cs
    → lookup k (entries cs) ≡ none
    → IsSized k v
    → Ends
        (put_in_head k v s)
        (insert_front max k v (entries cs)).0
        (Models max (insert_front max k v (entries cs)).1)
unfolding put_in_head
put_in_head-insert {max} {s} k v cs r absent sz =
    let size = size_of-weight k v sz in
    let test : ltb s.max_size (size_of k v) ≡ ltb max (weight (k, v)) = ap₂ ltb r.limit size in
    elim (Bool-cases (ltb max (weight (k, v)))) [
      | inl e ↦ rw (test, e) (s, refl, (cs, r, refl))
      | inr e ↦
          let room = ltb→le max (weight (k, v)) e in
          let (t, run, (ds, gone, w, rep, kept, free)) =
            evict-fit (rounds s) (size_of k v) cs r (omega arith) (omega (arith, r.count)) in
          let absent' : lookup k (entries ds) ≡ none =
            lookup-prefix_none k (entries ds) (entries gone)
              (sym (ap (lookup k) (ap entries w ∙ entries-append ds gone)) ∙ absent) in
          let kept' = kept ∙ ap (λ n. fit (max - n) (entries cs)) size in
          let (u, run', (es, rep', out)) =
            link_head-Rep {s = t} k v ds rep absent' sz (omega arith) in
          rw (test, e, run, run') (u, refl, (es, rep', out ∙ ap (◌∷◌ (k, v)) kept'))
    ]
