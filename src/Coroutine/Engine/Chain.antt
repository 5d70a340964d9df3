-- ===== src/Coroutine/Engine/Chain.antt =====
-- The list of coroutines, linked through the contexts on the heap, and what writes through pointers
-- do to it.
use ts_sem.Prelude.{
  ◌<◌, ◌≡◌, refl, subst, ◌∙◌, inl, inr, true, false, Option, some, [], ◌∷◌, ◌++◌, ◌==◌, length,
  arith, Bool-cases, ==_iff,
}
use ts_sem.Coroutine.Addresses.{Ptrs, first, last, has, Distinct, first-append, has-last, ne_of_has}
use ts_sem.Coroutine.Memory.{
  Ptr, null, Context, Contexts, update_at, write_at, with_next, with_prev,
}

-- A context with a block of its size and a stack that does not begin at 0.
abbrev pub Sound : Context → Type 0
Sound c = (0 < c.low) × (length c.stack ≡ c.size)

-- A context that is on the heap.
pub record Held (h : Contexts) (a : Ptr) : Type 0 where
  pub context : Context
  pub live : (a == null) ≡ false
  pub at : h a ≡ some context
  pub sound : Sound context

-- The same with the links `p` and `q`.
pub record Linked (h : Contexts) (p a q : Ptr) : Type 0 where
  pub node : Context
  pub live : (a == null) ≡ false
  pub at : h a ≡ some node
  pub sound : Sound node
  pub back : node.prev ≡ p
  pub forth : node.next ≡ q

-- From the first address on, `next` leads through the contexts to `e`, and `prev` leads back to `p`.
abbrev pub Chain : Contexts → Ptr → Ptrs → Ptr → Type 0
Chain h p [] e = Unit {0}
Chain h p (a ∷ xs) e = Linked h p a (first xs e) × Chain h a xs e

pub update_at-other :
    (h : Contexts) (p : Ptr) (f : Context → Context) (q : Ptr)
    → (q == p) ≡ false
    → update_at h p f q ≡ h q
unfolding update_at
update_at-other h p f q e = rw e

pub update_at_self :
    (h : Contexts) (p : Ptr) (f : Context → Context) (c : Context)
    → h p ≡ some c
    → update_at h p f p ≡ some (f c)
unfolding update_at
update_at_self h p f c e = ground arith

module _ (h : Contexts) where
  pub Held-frame : (g : Contexts) (a : Ptr) → g a ≡ h a → Held h a → Held g a
  Held-frame g a same k = record {
    context = k.context;
    live = k.live;
    at = same ∙ k.at;
    sound = k.sound;
  }

  pub Linked-Held : (p a q : Ptr) → Linked h p a q → Held h a
  Linked-Held p a q l = record { context = l.node; live = l.live; at = l.at; sound = l.sound }

  -- A change anywhere that leaves every context sound.
  pub Held-update :
      (b : Ptr) (f : Context → Context) (a : Ptr)
      → ((c : Context) → Sound c → Sound (f c))
      → Held h a
      → Held (update_at h b f) a
  Held-update b f a keep k = elim (Bool-cases (a == b)) [
    | inl e ↦
        subst (λ c. Held (update_at h c f) a) ((==_iff a b).0 e)
          (record {
            context = f k.context;
            live = k.live;
            at = update_at_self h a f k.context k.at;
            sound = keep k.context k.sound;
          })
    | inr e ↦ Held-frame (update_at h b f) a (update_at-other h b f a e) k
  ]

  pub Linked-frame : (g : Contexts) (p a q : Ptr) → g a ≡ h a → Linked h p a q → Linked g p a q
  Linked-frame g p a q same l = record {
    node = l.node;
    live = l.live;
    at = same ∙ l.at;
    sound = l.sound;
    back = l.back;
    forth = l.forth;
  }

  pub Linked-with_prev :
      (p a q r : Ptr) → Linked h p a q → Linked (update_at h a (with_prev r)) r a q
  Linked-with_prev p a q r l = record {
    node = with_prev r l.node;
    live = l.live;
    at = update_at_self h a (with_prev r) l.node l.at;
    sound = l.sound;
    back = refl;
    forth = l.forth;
  }

  pub Linked-with_next :
      (p a q r : Ptr) → Linked h p a q → Linked (update_at h a (with_next r)) p a r
  Linked-with_next p a q r l = record {
    node = with_next r l.node;
    live = l.live;
    at = update_at_self h a (with_next r) l.node l.at;
    sound = l.sound;
    back = l.back;
    forth = refl;
  }

  pub Chain-split :
      (p : Ptr) (xs ys : Ptrs) (e : Ptr)
      → Chain h p (xs ++ ys) e
      → Chain h p xs (first ys e) × Chain h (last p xs) ys e
  Chain-split p [] ys e s = (tt, s)
  Chain-split p (x ∷ xs) ys e s =
      let r = Chain-split x xs ys e s.1 in ((rw (← first-append xs ys e) s.0, r.0), r.1)

  pub Chain-join :
      (p : Ptr) (xs ys : Ptrs) (e : Ptr)
      → Chain h p xs (first ys e)
      → Chain h (last p xs) ys e
      → Chain h p (xs ++ ys) e
  Chain-join p [] ys e s t = t
  Chain-join p (x ∷ xs) ys e s t = (rw (first-append xs ys e) s.0, Chain-join x xs ys e s.1 t)

  -- A heap that holds the same contexts holds the same chain.
  pub Chain-frame :
      (g : Contexts) (p : Ptr) (xs : Ptrs) (e : Ptr)
      → ((q : Ptr) → has q xs ≡ true → g q ≡ h q)
      → Chain h p xs e
      → Chain g p xs e
  Chain-frame g p [] e same s = tt
  Chain-frame g p (x ∷ xs) e same s = (
    Linked-frame g p x (first xs e) (same x (ground arith)) s.0,
    Chain-frame g x xs e (λ q i. same q (ground arith)) s.1,
  )

  pub Chain-update :
      (a : Ptr) (f : Context → Context) (p : Ptr) (xs : Ptrs) (e : Ptr)
      → has a xs ≡ false
      → Chain h p xs e
      → Chain (update_at h a f) p xs e
  Chain-update a f p xs e out s =
      Chain-frame (update_at h a f) p xs e
        (λ q i. update_at-other h a f q (ground (arith, ne_of_has a q xs out i))) s

  pub Chain-write :
      (a : Ptr) (o : Option Context) (p : Ptr) (xs : Ptrs) (e : Ptr)
      → has a xs ≡ false
      → Chain h p xs e
      → Chain (write_at h a o) p xs e
  unfolding write_at
  Chain-write a o p xs e out s =
      Chain-frame (write_at h a o) p xs e (λ q i. ground (arith, ne_of_has a q xs out i)) s

  -- `prev` of the first context is redirected.
  pub Chain-with_prev :
      (q p a : Ptr) (xs : Ptrs) (e : Ptr)
      → has a xs ≡ false
      → Chain h p (a ∷ xs) e
      → Chain (update_at h a (with_prev q)) q (a ∷ xs) e
  Chain-with_prev q p a xs e out s =
      (Linked-with_prev p a (first xs e) q s.0, Chain-update a (with_prev q) a xs e out s.1)

  -- `next` of the last context is redirected.
  pub Chain-with_next :
      (q p a : Ptr) (xs : Ptrs) (e : Ptr)
      → Distinct (a ∷ xs)
      → Chain h p (a ∷ xs) e
      → Chain (update_at h (last a xs) (with_next q)) p (a ∷ xs) q
  Chain-with_next q p a [] e d s = (Linked-with_next p a e q s.0, tt)
  Chain-with_next q p a (x ∷ xs) e d s = (
    Linked-frame _ p a x (update_at-other h _ _ a (ne_of_has _ _ (x ∷ xs) d.0 (has-last x xs))) s.0,
    Chain-with_next q a x xs e d.1 s.1,
  )

  pub Chain-last : (p a : Ptr) (xs : Ptrs) (e : Ptr) → Chain h p (a ∷ xs) e → Held h (last a xs)
  Chain-last p a [] e s = Linked-Held p a e s.0
  Chain-last p a (x ∷ xs) e s = Chain-last a x xs e s.1
