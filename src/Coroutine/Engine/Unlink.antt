-- ===== src/Coroutine/Engine/Unlink.antt =====
-- The list of coroutines without the one that has ended.
use ts_sem.Prelude.{
  ℕ, ◌≡◌, ◌<◌, refl, sym, ◌∙◌, subst, true, false, some, [], ◌∷◌, ◌++◌, ◌==◌, arith, ==-refl,
  if◌then◌else◌,
}
use ts_sem.Run
use ts_sem.Run.{ok, Ends, ◌>>=◌, ◌>>◌}
use ts_sem.Coroutine.Memory.{
  Ptr, null, Context, Contexts, Engine, load, modify, update_at, with_next, with_prev,
}
use ts_sem.Coroutine.Engine.{unlink}
use ts_sem.Coroutine.Addresses.{
  Ptrs, first, last, has, has-last, Distinct, Distinct-split, Disjoint-has, Disjoint-has_right,
  Disjoint-tail, ne_of_has, first-append, Below,
}
use ts_sem.Coroutine.Engine.Chain.{
  Held, Held-update, Linked, Chain, Chain-split, Chain-join, Chain-frame, Chain-with_prev,
  Chain-with_next, Chain-last, update_at-other,
}
use ts_sem.Coroutine.Engine.Save.{load-ok, modify-ok}

-- `g` differs from `h` at most at the contexts of the list, and holds all that `h` holds.
record Changes (xs : Ptrs) (h g : Contexts) : Type 0 where
  outside : (q : Ptr) → has q xs ≡ false → g q ≡ h q
  holds : (q : Ptr) → Held h q → Held g q

module _ (s : Engine) where
  -- The chain before the coroutine ends at `q`.
  unlink_before :
      (e q a : Ptr) (xs : Ptrs)
      → e ≡ last null xs
      → Chain s.contexts null xs a
      → Distinct xs
      → (g : Contexts) × ((if e == null then Run.pure tt else modify e (with_next q)) s
          ≡ ok tt (record s { contexts = g }))
        × Chain g null xs q
        × Changes xs s.contexts g
  unlink_before e q a [] eq ch d =
      (s.contexts, rw eq refl, tt, record { outside = λ r o. refl; holds = λ r k. k })
  unlink_before e q a (x ∷ xs) eq ch d =
      let l = Chain-last s.contexts null x xs a ch in
      (
        update_at s.contexts (last x xs) (with_next q),
        rw (eq, l.live) (modify-ok (last x xs) (with_next q) s l.live l.at),
        Chain-with_next s.contexts q null x xs a d ch,
        record {
          outside = λ r o.
              update_at-other s.contexts (last x xs) (with_next q) r
                (ne_of_has r _ (x ∷ xs) o (has-last x xs));
          holds = λ r k. Held-update s.contexts (last x xs) (with_next q) r (λ c h. h) k;
        },
      )

  -- The chain behind the coroutine begins at `p`.
  unlink_behind :
      (e p a : Ptr) (ys : Ptrs)
      → e ≡ first ys null
      → Chain s.contexts a ys null
      → Distinct ys
      → (g : Contexts) × ((if e == null then Run.pure tt else modify e (with_prev p)) s
          ≡ ok tt (record s { contexts = g }))
        × Chain g p ys null
        × Changes ys s.contexts g
  unlink_behind e p a [] eq ch d =
      (s.contexts, rw eq refl, tt, record { outside = λ r o. refl; holds = λ r k. k })
  unlink_behind e p a (y ∷ ys) eq ch d = (
    update_at s.contexts y (with_prev p),
    rw (eq, ch.0.live) (modify-ok y (with_prev p) s ch.0.live ch.0.at),
    Chain-with_prev s.contexts p a y ys null d.0 ch,
    record {
      outside = λ r o. update_at-other s.contexts y (with_prev p) r (ground arith);
      holds = λ r k. Held-update s.contexts y (with_prev p) r (λ c h. h) k;
    },
  )

  -- The head of the list moves on where the coroutine is the head.
  move_head :
      (p : Ptr) (xs ys : Ptrs) (c : Context)
      → s.contexts p ≡ some c
      → (p == null) ≡ false
      → c.next ≡ first ys null
      → has p xs ≡ false
      → s.alive ≡ first xs p
      → s.cur_routine ≡ p
      → (a : Ptr) × ((if s.alive == s.cur_routine
              then (do a ← load s.alive; Run.modify λ t. record t { alive = a.next })
              else Run.pure tt)
            s
          ≡ ok tt (record s { alive = a }))
        × (a ≡ first xs (first ys null))
  move_head p [] ys c at live next out al cur =
      let same : (s.alive == s.cur_routine) ≡ true = rw (al, cur) (==-refl p) in
      let loaded : load s.alive s ≡ ok c s =
        load-ok s.alive s (rw al live) (subst (λ x. s.contexts x ≡ some c) (sym al) at) in
      (c.next, rw (same, loaded) refl, next)
  move_head p (x ∷ xs) ys c at live next out al cur =
      let ne : (x == p) ≡ false = ground (arith, out) in
      let other : (s.alive == s.cur_routine) ≡ false = rw (al, cur) ne in
      (s.alive, rw other refl, al)

-- The coroutines `xs` are linked from `a` on, and the idle context `i` stands apart from them.
pub record Ready (h : Contexts) (a n i : Ptr) (xs : Ptrs) : Type 0 where
  pub chain : Chain h null xs null
  pub head : a ≡ first xs null
  pub distinct : Distinct xs
  pub fresh : Below n xs
  pub idle : Held h i
  pub apart : has i xs ≡ false
  pub early : i < n

-- A started engine with the coroutines `xs`, the last run first.
abbrev pub Waiting : Ptrs → Engine → Type 0
Waiting xs s =
    Ready s.contexts s.alive s.next_address s.idle_ctx xs × ((s.stack_bottom == 0) ≡ false)

-- The coroutine in control is `p`.
abbrev pub Controls : Ptrs → Ptr → ℕ → Engine → Type 0
Controls xs p n s = Waiting xs s × (s.cur_routine ≡ p) × (s.next_address ≡ n)

-- What unlinking the coroutine between `xs` and `ys` leads to.
pub record Unlinked (s : Engine) (p : Ptr) (c : Context) (xs ys : Ptrs) (t : Engine) : Type 0 where
  pub bottom : t.stack_bottom ≡ s.stack_bottom
  pub idle : t.idle_ctx ≡ s.idle_ctx
  pub next_free : t.next_address ≡ s.next_address
  pub chain : Chain t.contexts null (xs ++ ys) null
  pub head : t.alive ≡ first (xs ++ ys) null
  pub same : t.contexts p ≡ some c
  pub holds : (q : Ptr) → Held s.contexts q → Held t.contexts q

module _ (s : Engine) (xs : Ptrs) (p : Ptr) (ys : Ptrs) (w : Waiting (xs ++ p ∷ ys) s) where
  pub middle-Distinct :
      Distinct xs
      × Distinct ys
      × (has p xs ≡ false)
      × (has p ys ≡ false)
      × ((q : Ptr) → has q xs ≡ true → has q ys ≡ false)
      × ((q : Ptr) → has q ys ≡ true → has q xs ≡ false)
  middle-Distinct =
      let d = Distinct-split xs (p ∷ ys) w.0.distinct in
      let t = Disjoint-tail xs p ys d.2 in
      (
        d.0,
        d.1.1,
        Disjoint-has_right p xs (p ∷ ys) d.2 (ground arith),
        d.1.0,
        λ q. Disjoint-has q xs ys t,
        λ q. Disjoint-has_right q xs ys t,
      )

  pub middle : Linked s.contexts (last null xs) p (first ys null)
  middle = (Chain-split s.contexts null xs (p ∷ ys) null w.0.chain).1.0

  pub unlink-Unlinked : s.cur_routine ≡ p → Ends (unlink p s) tt (Unlinked s p middle.node xs ys)
  unfolding unlink
  unlink-Unlinked cur =
      let l = middle in
      let parts = Chain-split s.contexts null xs (p ∷ ys) null w.0.chain in
      let (dx, dy, px, py, xy, yx) = middle-Distinct in
      let (g1, eq1, ch1, k1) = unlink_before s l.node.prev l.node.next p xs l.back parts.0 dx in
      let s1 : Engine = record s { contexts = g1 } in
      let at1 = k1.outside p px ∙ l.at in
      let (g2, eq2, ch2, k2) =
        unlink_behind s1 l.node.next l.node.prev p ys l.forth
          (Chain-frame s.contexts g1 p ys null (λ q i. k1.outside q (yx q i)) parts.1.1) dy in
      let s2 : Engine = record s1 { contexts = g2 } in
      let at2 = k2.outside p py ∙ at1 in
      let (a, eq3, hd) =
        move_head s2 p xs ys l.node at2 l.live l.forth px (w.0.head ∙ first-append xs (p ∷ ys) null)
          cur in
      (
        record s2 { alive = a },
        rw (load-ok p s l.live l.at, eq1, load-ok p s1 l.live at1, eq2) eq3,
        record {
          bottom = refl;
          idle = refl;
          next_free = refl;
          chain =
              Chain-join g2 null xs ys null
                (Chain-frame g1 g2 null xs _ (λ q i. k2.outside q (xy q i))
                  (subst (Chain g1 null xs) l.forth ch1))
                (subst (λ q. Chain g2 q ys null) l.back ch2);
          head = hd ∙ sym (first-append xs ys null);
          same = at2;
          holds = λ q k. k2.holds q (k1.holds q k);
        },
      )
