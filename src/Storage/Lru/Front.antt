-- ===== src/Storage/Lru/Front.antt =====
-- SimpleLRU::MoveToHead for any key.
use ts_sem.Prelude.{ℕ, ◌≡◌, refl, ap, ◌∙◌, none, some, [], ◌∷◌, ◌++◌}
use ts_sem.Prelude.Bytes.{Bytes, bytes_eq_refl}
use ts_sem.Run.{ok, Ends}
use ts_sem.Storage.Spec.{lookup-nil, lookup-cons_none}
use ts_sem.Storage.Lru.Memory.{null, Lru, load}
use ts_sem.Storage.Lru.{move_to_head}
use ts_sem.Storage.Lru.Segment.{Cell, Cells, node_of, first}
use ts_sem.Storage.Lru.Links.{load-ok}
use ts_sem.Storage.Lru.Rep.{
  entries, find_cell, Rep, find_cell-here, middle_node, middle_live, middle-Unique,
}
use ts_sem.Storage.Lru.Touch.{relink_head-Rep}

module _ {max : ℕ} {s : Lru} where
  -- The cell with the key comes to the front, and the iterator points at it.
  pub move_to_head-middle :
      (xs : Cells) (c : Cell) (ys : Cells)
      → Rep max s (xs ++ c ∷ ys)
      → Ends (move_to_head c.key s) (some c.addr) (λ t. Rep max t (c ∷ xs ++ ys))
  unfolding move_to_head
  move_to_head-middle [] c ys r =
      let at_head : load s.lru_head s ≡ ok (node_of c (first ys null) null) s =
        ap (λ p. load p s) r.head
        ∙ load-ok c.addr s (middle_live [] c ys r) (middle_node [] c ys r) in
      (
        s,
        rw
            (
              r.index c.key ∙ find_cell-here [] c ys (lookup-nil c.key),
              move_to_head,
              at_head,
              bytes_eq_refl c.key,
            )
            refl,
        r,
      )
  move_to_head-middle (x ∷ xs) c ys r =
      let u = middle-Unique (x ∷ xs) c ys r in
      let at_head : load s.lru_head s ≡ ok (node_of x (first (xs ++ c ∷ ys) null) null) s =
        ap (λ p. load p s) r.head ∙ load-ok x.addr s r.chain.0 r.chain.1 in
      let (t, run, rep) = relink_head-Rep x xs c ys r in
      (
        t,
        rw
            (
              r.index c.key ∙ find_cell-here (x ∷ xs) c ys u.0,
              move_to_head,
              at_head,
              lookup-cons_none c.key x.key x.value (entries xs) u.0,
              run,
            )
            refl,
        rep,
      )

  -- A key that is not there leaves everything as it was.
  pub move_to_head-absent :
      (k : Bytes) (cs : Cells) → Rep max s cs → find_cell k cs ≡ none → move_to_head k s ≡ ok none s
  unfolding move_to_head
  move_to_head-absent k cs r e = rw (r.index k ∙ e, move_to_head) refl
