-- ===== src/Storage/Lru/Overwrite.antt =====
-- The second half of SimpleLRU::Put and SimpleLRU::Set, for a key that is in front already.
use mathlib.Core.Path.{ap₂}
use ts_sem.Prelude.{
  ℕ, ◌+◌, ◌-◌, ◌≤◌, ◌<◌, ◌^◌, ◌≡◌, refl, ap, subst, ◌∙◌, inl, inr, true, false, [], ◌∷◌, ◌++◌, ltb,
  leb, length, arith, Bool-cases, ltb→le, le→leb, le→ltb,
}
use ts_sem.Prelude.Bytes.{Bytes}
use ts_sem.Run.{ok, fault, Ends}
use ts_sem.Storage.Spec.{weight, fit, replace_front}
use ts_sem.Storage.Lru.Memory.{null, Lru, sub64, size_of, load, update_at, with_value}
use ts_sem.Storage.Lru.{overwrite, rounds, evict}
use ts_sem.Storage.Lru.Segment.{
  Cell, Cells, node_of, first, update_at-other, update_at_self, Seg-update,
}
use ts_sem.Storage.Lru.Links.{load-ok, modify_node-ok}
use ts_sem.Storage.Lru.Evict.{evict-fit, evict_fault}
use ts_sem.Storage.Lru.Insert.{IsSized, size_of-weight}
use ts_sem.Storage.Lru.Rep.{entries, find_cell, Rep, Models}

abbrev revalued : Lru → Cell → Bytes → ℕ → Lru
revalued t c v delta = record t {
  free_size = sub64 t.free_size delta;
  heap = update_at t.heap c.addr (with_value v);
}

module _ {max : ℕ} {t : Lru} (c : Cell) (ds : Cells) (v : Bytes) where
  -- The front cell takes a value that is longer by `delta`.
  revalued-Rep :
      (delta : ℕ)
      → Rep max t (c ∷ ds)
      → length v ≡ length c.value + delta
      → delta ≤ t.free_size
      → Rep max (revalued t c v delta) (record c { value = v } ∷ ds)
  unfolding find_cell
  revalued-Rep delta r longer room = record {
    chain = (
      r.chain.0,
      update_at_self t.heap c.addr (with_value v) _ r.chain.1,
      Seg-update t.heap c.addr (with_value v) c.addr ds null r.distinct.0 r.chain.2,
    );
    head = r.head;
    tail = r.tail;
    distinct = r.distinct;
    unique = r.unique;
    index = r.index;
    limit = r.limit;
    sized = omega (arith, r.sized, r.small);
    small = r.small;
    fresh = r.fresh;
    count = r.count;
    no_leak = λ q o. update_at-other t.heap c.addr (with_value v) q (ground arith) ∙ r.no_leak q o;
  }

module _ {max : ℕ} {s : Lru} (c : Cell) (rest : Cells) (v : Bytes) (r : Rep max s (c ∷ rest))
    (sz : IsSized c.key v) where
  old_size : size_of c.key c.value ≡ weight (c.key, c.value)
  old_size = omega (arith, r.sized, r.small)

  size_test : ltb s.max_size (size_of c.key v) ≡ ltb max (weight (c.key, v))
  size_test = ap₂ ltb r.limit (size_of-weight c.key v sz)

  too_big : ltb max (weight (c.key, v)) ≡ true → overwrite c.addr c.key v s ≡ ok false s
  unfolding overwrite
  too_big e = rw (size_test, e) refl

  loaded : load c.addr s ≡ ok (node_of c (first rest null) null) s
  loaded = load-ok c.addr s r.chain.0 r.chain.1

  -- What the code subtracts, for a value that is not shorter than the old one.
  delta_grown :
      length c.value ≤ length v
      → sub64 (size_of c.key v) (size_of c.key c.value) ≡ length v - length c.value
  delta_grown le = omega (arith, sz, r.sized, r.small)

  -- For a shorter value the difference is negative, and the comparison takes it as unsigned.
  delta_shrunk :
      length v < length c.value
      → sub64 (size_of c.key v) (size_of c.key c.value) ≡ 2 ^ 64 - (length c.value - length v)
  delta_shrunk lt = omega (arith, sz, r.sized, r.small)

  fit_front :
      length c.value ≤ length v
      → weight (c.key, v) ≤ max
      → fit (max - (length v - length c.value)) (entries (c ∷ rest))
        ≡ (c.key, c.value) ∷ fit (max - weight (c.key, v)) (entries rest)
  unfolding fit
  fit_front le room =
      let budget : max - (length v - length c.value) - weight (c.key, c.value)
          ≡ max - weight (c.key, v) =
        omega arith in
      let fits : leb (weight (c.key, c.value)) (max - (length v - length c.value)) ≡ true =
        le→leb _ _ (omega arith) in
      rw (fits, budget) refl

  overwrite_fits :
      length c.value ≤ length v
      → ltb max (weight (c.key, v)) ≡ false
      → Ends
          (overwrite c.addr c.key v s)
          true
          (Models max ((c.key, v) ∷ fit (max - weight (c.key, v)) (entries rest)))
  unfolding overwrite
  overwrite_fits le e =
      let room = ltb→le max (weight (c.key, v)) e in
      let delta = delta_grown le in
      let (t, run, (ds, gone, w, rep, kept, free)) =
        evict-fit (rounds s) (sub64 (size_of c.key v) (size_of c.key c.value)) (c ∷ rest) r
          (omega arith) (omega (arith, r.count)) in
      let kept' : entries ds ≡ (c.key, c.value) ∷ fit (max - weight (c.key, v)) (entries rest) =
        kept ∙ ap (λ n. fit (max - n) (entries (c ∷ rest))) delta ∙ fit_front le room in
      finish t run ds gone w rep kept' free
    where
      finish :
          (t : Lru)
          → evict (rounds s) (sub64 (size_of c.key v) (size_of c.key c.value)) s ≡ ok tt t
          → (ds gone : Cells) → c ∷ rest ≡ ds ++ gone
          → Rep max t ds
          → entries ds ≡ (c.key, c.value) ∷ fit (max - weight (c.key, v)) (entries rest)
          → sub64 (size_of c.key v) (size_of c.key c.value) ≤ t.free_size
          → Ends
              (overwrite c.addr c.key v s)
              true
              (Models max ((c.key, v) ∷ fit (max - weight (c.key, v)) (entries rest)))
      finish t run [] gone w rep kept free = cc
      finish t run (d ∷ ds) gone w rep kept free =
          let same : d ≡ c = cc in
          let tail_kept : entries ds ≡ fit (max - weight (c.key, v)) (entries rest) = cc in
          let rep' : Rep max t (c ∷ ds) = subst (λ x. Rep max t (x ∷ ds)) same rep in
          let delta = sub64 (size_of c.key v) (size_of c.key c.value) in
          let t1 : Lru = record t { free_size = sub64 t.free_size delta } in
          (
            revalued t c v delta,
            rw
                (
                  size_test,
                  e,
                  loaded,
                  run,
                  modify_node-ok c.addr (with_value v) t1 rep'.chain.0 rep'.chain.1,
                )
                refl,
            (
              record c { value = v } ∷ ds,
              revalued-Rep c ds v delta rep' (omega (arith, delta_grown le)) free,
              ap (◌∷◌ (c.key, v)) tail_kept,
            ),
          )

  -- A value that is not shorter than the old one: as the specification says, also where it is refused.
  pub overwrite-replace :
      length c.value ≤ length v
      → Ends
          (overwrite c.addr c.key v s)
          (replace_front max c.key v c.value (entries rest)).0
          (Models max (replace_front max c.key v c.value (entries rest)).1)
  overwrite-replace le = elim (Bool-cases (ltb max (weight (c.key, v)))) [
    | inl e ↦ rw (e, too_big e) (s, refl, (c ∷ rest, r, refl))
    | inr e ↦ rw e (overwrite_fits le e)
  ]

  -- A shorter value: the loop evicts every node, this one too, and reads through the null tail.
  pub overwrite_shrinks :
      max < 2 ^ 63 → length v < length c.value → overwrite c.addr c.key v s ≡ fault
  unfolding overwrite
  overwrite_shrinks small lt =
      let fits : ltb max (weight (c.key, v)) ≡ false =
        le→ltb max (weight (c.key, v)) (omega (arith, r.sized)) in
      let stuck =
        evict_fault (rounds s) (sub64 (size_of c.key v) (size_of c.key c.value)) (c ∷ rest) r
          (omega (arith, delta_shrunk lt, r.sized)) (omega (arith, r.count)) in
      rw (size_test, fits, loaded, stuck) refl
