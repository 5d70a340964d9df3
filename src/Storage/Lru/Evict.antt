-- ===== src/Storage/Lru/Evict.antt =====
-- The loops `while (_free_size < need) Delete(_lru_tail->key);`.
use mathlib.Core.List.{append-nil, append_assoc}
use ts_sem.Prelude.{
  ℕ, zero, suc, ◌-◌, ◌≤◌, ◌<◌, ◌≡◌, refl, sym, ap, subst, ◌∙◌, ◌⊎◌, inl, inr, true, [], ◌∷◌, ◌++◌,
  ltb, length, arith, Bool-cases, length-append, ltb→lt, ltb→le, lt→ltb,
}
use ts_sem.Run.{ok, fault, Ends}
use ts_sem.Storage.Spec.{total, fit, fit-all, fit-snoc}
use ts_sem.Storage.Lru.Memory.{null, Lru, load}
use ts_sem.Storage.Lru.{evict}
use ts_sem.Storage.Lru.Segment.{Cell, Cells, last, last-append, node_of}
use ts_sem.Storage.Lru.Links.{load-ok, load-null}
use ts_sem.Storage.Lru.Delete.{delete-middle}
use ts_sem.Storage.Lru.Rep.{entries, entries-append, Rep, middle_node, middle_live}

-- A list is empty or has a last cell.
snoc_view : (cs : Cells) → (cs ≡ []) ⊎ ((xs : Cells) × (c : Cell) × (cs ≡ xs ++ c ∷ []))
snoc_view [] = inl refl
snoc_view (c ∷ cs) = elim (snoc_view cs) [
  | inl e ↦ inr ([], c, ap (◌∷◌ c) e)
  | inr (xs, d, e) ↦ inr (c ∷ xs, d, ap (◌∷◌ c) e)
]

-- What the loop leaves: a prefix of the cells.
abbrev pub Kept : ℕ → Cells → ℕ → Lru → Type 0
Kept max cs need t =
    (ds : Cells) × (gone : Cells) × (cs ≡ ds ++ gone)
    × Rep max t ds
    × (entries ds ≡ fit (max - need) (entries cs))
    × (need ≤ t.free_size)

module _ {max : ℕ} where
  -- A round with too little space destroys the last node, the one that was not used for longest.
  evict_round :
      {s : Lru} (fuel need : ℕ) (xs : Cells) (c : Cell)
      → Rep max s (xs ++ c ∷ [])
      → ltb s.free_size need ≡ true
      → (t : Lru) × (evict (suc fuel) need s ≡ evict fuel need t) × Rep max t xs
  unfolding evict
  evict_round {s} fuel need xs c r less =
      let (t, run, rep) = delete-middle xs c [] r in
      let at_tail : s.lru_tail ≡ c.addr = r.tail ∙ last-append null xs (c ∷ []) in
      let read : load s.lru_tail s ≡ ok (node_of c null (last null xs)) s =
        ap (λ p. load p s) at_tail
        ∙ load-ok c.addr s (middle_live xs c [] r) (middle_node xs c [] r) in
      (t, rw (less, read, run) refl, subst (Rep max t) (append-nil xs) rep)

  -- In a well-formed state, for a need of at most the capacity and with fuel for more rounds than
  -- there are cells, the eviction loop ends with at least that much free space, in a well-formed
  -- state with a prefix of the cells, which holds the longest prefix of the entries that leaves the
  -- space.
  pub evict-fit :
      (fuel need : ℕ) {s : Lru} (cs : Cells)
      → Rep max s cs
      → need ≤ max
      → length cs < fuel
      → Ends (evict fuel need s) tt (Kept max cs need)
  unfolding evict
  evict-fit zero need cs r le enough = absurd (omega arith)
  evict-fit (suc fuel) need {s} cs r le enough = elim (Bool-cases (ltb s.free_size need)) [
    | inr e ↦
        let room = ltb→le s.free_size need e in
        rw e (
          s,
          refl,
          (
            cs,
            [],
            sym (append-nil cs),
            r,
            sym (fit-all (max - need) (entries cs) (omega (arith, r.sized))),
            room,
          ),
        )
    | inl e ↦ elim (snoc_view cs) [
      | inl none_left ↦
          absurd (
            omega
              (arith, r.sized, ap (λ l. total (entries l)) none_left, ltb→lt s.free_size need e))
      | inr (xs, c, w) ↦
          let r' : Rep max s (xs ++ c ∷ []) = subst (Rep max s) w r in
          let (t, run, rep) = evict_round fuel need xs c r' e in
          let (u, more, (ds, gone, w', rep', kept, room)) =
            evict-fit fuel need xs rep le (omega (arith, ap length w, length-append xs (c ∷ []))) in
          (
            u,
            run ∙ more,
            (
              ds,
              gone ++ c ∷ [],
              w ∙ ap (λ l. l ++ c ∷ []) w' ∙ append_assoc ds gone (c ∷ []),
              rep',
              kept
                  ∙ sym (
                      ap (fit (max - need)) (ap entries w ∙ entries-append xs (c ∷ []))
                      ∙ fit-snoc (max - need) (entries xs) (c.key, c.value)
                          (omega (
                            arith,
                            r.sized,
                            ap (λ l. total (entries l)) w,
                            ap total (entries-append xs (c ∷ [])),
                            ltb→lt s.free_size need e,
                          ))),
              room,
            ),
          )
    ]
  ]

  -- In a well-formed state, for a need of more than the capacity and with fuel for more rounds than
  -- there are cells, the eviction loop reads through a null pointer.
  pub evict_fault :
      (fuel need : ℕ) {s : Lru} (cs : Cells)
      → Rep max s cs
      → max < need
      → length cs < fuel
      → evict fuel need s ≡ fault
  unfolding evict
  evict_fault zero need cs r lt enough = absurd (omega arith)
  evict_fault (suc fuel) need {s} cs r lt enough =
      let less = lt→ltb s.free_size need (omega (arith, r.sized)) in
      elim (snoc_view cs) [
        | inl e ↦ rw (less, load-null s.lru_tail s (r.tail ∙ ap (last null) e)) refl
        | inr (xs, c, w) ↦
            let r' : Rep max s (xs ++ c ∷ []) = subst (Rep max s) w r in
            let (t, run, rep) = evict_round fuel need xs c r' less in
            run
            ∙ evict_fault fuel need xs rep lt
                (omega (arith, ap length w, length-append xs (c ∷ [])))
      ]
