-- ===== src/Storage/Lru/Refines.antt =====
-- The operations of SimpleLRU against the specification of Storage.h.
use mathlib.Core.Option.{some-injective}
use ts_sem.Prelude.{
  ℕ, ◌≤◌, ◌<◌, ◌^◌, ◌≡◌, refl, sym, ap, subst, ◌∙◌, inl, inr, none, some, ◌⊎◌, [], ◌∷◌, ◌++◌,
  length, arith, Option-cases,
}
use ts_sem.Prelude.Bytes.{Bytes}
use ts_sem.Run.{Run, ok, fault, Ends}
use ts_sem.Storage.Spec
use ts_sem.Storage.Spec.{Entries, lookup, remove}
use ts_sem.Storage.Lru.Memory.{Ptr, Lru}
use ts_sem.Storage.Lru.Index
use ts_sem.Storage.Lru.{init, move_to_head, put, put_if_absent, set, get, overwrite}
use ts_sem.Storage.Lru.Segment.{Cell, Cells}
use ts_sem.Storage.Lru.Links.{load-ok}
use ts_sem.Storage.Lru.Front.{move_to_head-middle, move_to_head-absent}
use ts_sem.Storage.Lru.Insert.{IsSized, put_in_head-insert}
use ts_sem.Storage.Lru.Overwrite.{overwrite-replace, overwrite_shrinks}
use ts_sem.Storage.Lru.Rep.{
  entries, entries-append, find_cell, find_cell-absent, Found-cell, Found, Rep, Models,
  middle-Unique,
}

-- The run gives the result of the specification and a well-formed state with its entries.
abbrev pub Implements : {A : Type 0} → ℕ → Run Lru A → A × Entries → Type 0
Implements max r spec = Ends r spec.0 (Models max spec.1)

-- A present key after MoveToHead.
record Front (max : ℕ) (k : Bytes) (s : Lru) (cs : Cells) : Type 0 where
  cell : Cell
  rest : Cells
  moved : Lru
  run : move_to_head k s ≡ ok (some cell.addr) moved
  rep : Rep max moved (cell ∷ rest)
  named : cell.key ≡ k
  held : lookup k (entries cs) ≡ some cell.value
  others : remove k (entries cs) ≡ entries rest

to_front :
    {max : ℕ} {s : Lru} (k : Bytes) (cs : Cells) {a : Ptr}
    → Rep max s cs
    → Found k a cs
    → Front max k s cs
to_front {max} {s} k cs r f =
    let record { before = xs; cell = c; behind = ys; whole = w; at = _; named = e } = f in
    let r' : Rep max s (xs ++ c ∷ ys) = subst (Rep max s) w r in
    let u = middle-Unique xs c ys r' in
    let (t, run, rep) = move_to_head-middle xs c ys r' in
    let all : entries cs ≡ entries xs ++ entries (c ∷ ys) =
      ap entries w ∙ entries-append xs (c ∷ ys) in
    record {
      cell = c;
      rest = xs ++ ys;
      moved = t;
      run = ap (λ j. move_to_head j s) (sym e) ∙ run;
      rep = rep;
      named = e;
      held = rw (← e, all) u.4;
      others = rw (← e, all) (u.3 ∙ sym (entries-append xs ys));
    }

-- A key is absent, and MoveToHead changes nothing, or it is in front afterwards.
module _ {max : ℕ} {s : Lru} (k : Bytes) (cs : Cells) (r : Rep max s cs) where
  Front-cases : ((find_cell k cs ≡ none) × (lookup k (entries cs) ≡ none)) ⊎ Front max k s cs
  Front-cases = elim (Option-cases (find_cell k cs)) [
    | inl e ↦ inl (e, find_cell-absent k cs e)
    | inr (a, e) ↦ inr (to_front k cs r (Found-cell k a cs e))
  ]

  -- Where the key is present its value is not longer than `v`.
  abbrev pub DoesNotShrink : Bytes → Type 0
  DoesNotShrink v = (w : Bytes) → lookup k (entries cs) ≡ some w → length w ≤ length v

  overwrite-Front :
      (v : Bytes) (f : Front max k s cs)
      → IsSized k v
      → DoesNotShrink v
      → Implements max
          (overwrite f.cell.addr k v f.moved)
          (Spec.replace_front max k v f.cell.value (entries f.rest))
  overwrite-Front v f sz grows =
      subst
        (λ j.
          Implements max (overwrite f.cell.addr j v f.moved)
            (Spec.replace_front max j v f.cell.value (entries f.rest)))
        f.named
        (overwrite-replace f.cell f.rest v f.rep (subst (λ j. IsSized j v) (sym f.named) sz)
          (grows f.cell.value f.held))

  -- In a well-formed cache state with the entries of the cells `cs`, for a key and a value whose
  -- lengths add up to less than 2^64 and where a value that is present for the key is not longer
  -- than the new one, Put ends with the result of the specification, in a well-formed state with
  -- the specification's entries: a new entry or the new value in front, then the last used entries
  -- that fit.
  pub put_refines :
      (v : Bytes)
      → IsSized k v
      → DoesNotShrink v
      → Implements max (put k v s) (Spec.put max k v (entries cs))
  unfolding put
  put_refines v sz grows = elim Front-cases [
    | inl (e, gone) ↦
        rw (gone, Spec.put, move_to_head-absent k cs r e) (put_in_head-insert k v cs r gone sz)
    | inr f ↦ rw (f.held, Spec.put, f.others, f.run) (overwrite-Front v f sz grows)
  ]

  -- In a well-formed cache state, for a key and a value whose lengths add up to less than 2^64 and
  -- where a value that is present for the key is not longer than the new one, Set ends with the
  -- result and the entries of the specification: nothing happens for an absent key, and a present
  -- one comes to the front with the new value and with the last used entries that fit behind it.
  pub set_refines :
      (v : Bytes)
      → IsSized k v
      → DoesNotShrink v
      → Implements max (set k v s) (Spec.set max k v (entries cs))
  unfolding set
  set_refines v sz grows = elim Front-cases [
    | inl (e, gone) ↦ rw (gone, Spec.set, move_to_head-absent k cs r e) (s, refl, (cs, r, refl))
    | inr f ↦ rw (f.held, Spec.set, f.others, f.run) (overwrite-Front v f sz grows)
  ]

  -- In a well-formed state, for a key and a value whose lengths add up to less than 2^64,
  -- PutIfAbsent ends with the result and the entries of the specification, in a well-formed state:
  -- a present key changes nothing, an absent one is inserted in front and what does not fit is
  -- evicted.
  pub put_if_absent_refines :
      (v : Bytes)
      → IsSized k v
      → Implements max (put_if_absent k v s) (Spec.put_if_absent max k v (entries cs))
  unfolding put_if_absent
  put_if_absent_refines v sz = elim (Option-cases (find_cell k cs)) [
    | inl e ↦
        let gone = find_cell-absent k cs e in
        rw (gone, Spec.put_if_absent, r.index k ∙ e, put_if_absent)
          (put_in_head-insert k v cs r gone sz)
    | inr (a, e) ↦
        let f = to_front k cs r (Found-cell k a cs e) in
        rw (f.held, Spec.put_if_absent, r.index k ∙ e, put_if_absent) (s, refl, (cs, r, refl))
  ]

  -- In a well-formed state Get ends with the result and the entries of the specification, in a
  -- well-formed state: the value of a present key, which comes to the front, and for an absent key
  -- what the caller's variable held.
  pub get_refines : (out : Bytes) → Implements max (get k out s) (Spec.get k out (entries cs))
  unfolding get
  get_refines out = elim Front-cases [
    | inl (e, gone) ↦ rw (gone, Spec.get, move_to_head-absent k cs r e) (s, refl, (cs, r, refl))
    | inr f ↦
        rw
          (
            f.held,
            Spec.get,
            f.others,
            f.run,
            load-ok f.cell.addr f.moved f.rep.chain.0 f.rep.chain.1,
          )
          (
            f.moved,
            refl,
            (f.cell ∷ f.rest, f.rep, ap (λ j. (j, f.cell.value) ∷ entries f.rest) f.named),
          )
  ]

  -- In a well-formed cache with a capacity below 2^63, Put and Set of a value that is shorter than
  -- the one which the key holds are undefined: the eviction loop empties the cache and reads
  -- through the null tail.
  pub put_shrinks :
      (v w : Bytes)
      → lookup k (entries cs) ≡ some w
      → length v < length w
      → max < 2 ^ 63
      → (put k v s ≡ fault) × (set k v s ≡ fault)
  unfolding put set
  put_shrinks v w held lt small = elim Front-cases [
    | inl (e, gone) ↦ cc
    | inr f ↦
        let longer : length v < length f.cell.value =
          subst (λ x. length v < length x) (some-injective _ _ (sym held ∙ f.held)) lt in
        let sz : IsSized f.cell.key v = omega (arith, f.rep.sized) in
        let crash = overwrite_shrinks f.cell f.rest v f.rep sz small longer in
        rw (f.run, ← f.named) (crash, crash)
  ]

-- A new cache is empty.
pub init-Rep : (max : ℕ) → max < 2 ^ 64 → Rep max (init max) []
unfolding init find_cell
init-Rep max small = record {
  chain = tt;
  head = refl;
  tail = refl;
  distinct = tt;
  unique = tt;
  index = Index.find-nil;
  limit = refl;
  sized = omega arith;
  small = small;
  fresh = tt;
  count = omega arith;
  no_leak = λ q o. refl;
}
