-- ===== src/Coroutine/Engine/Save.antt =====
-- Engine::Store and Engine::Restore.
use ts_sem.Prelude.{
  ℕ, zero, suc, ◌-◌, ◌<◌, ◌≡◌, refl, inl, inr, false, some, ◌==◌, ltb, leb, ◌&&◌, length, take,
  arith, Bool-cases,
}
use ts_sem.Run.{ok}
use ts_sem.Coroutine.Memory.{Ptr, null, Context, Engine, load, modify, update_at, copy_to}
use ts_sem.Coroutine.Engine.{Machine, measured, region, with_block, store, restore}
use ts_sem.Coroutine.Engine.Chain.{Sound}

-- The stack's end is not at 0, a call takes at least a byte, and a new block has the size asked for.
pub record Sane (m : Machine) : Type 0 where
  pub end : (s : Engine) → 0 < m.store_end s
  pub grows : 0 < m.frame
  pub blocks : (n : ℕ) → length (m.new_block n) ≡ n

pub load-ok :
    (p : Ptr) (s : Engine) {c : Context}
    → (p == null) ≡ false
    → s.contexts p ≡ some c
    → load p s ≡ ok c s
unfolding load
load-ok p s live e = rw (live, e)

pub modify-ok :
    (p : Ptr) (f : Context → Context) (s : Engine) {c : Context}
    → (p == null) ≡ false
    → s.contexts p ≡ some c
    → modify p f s ≡ ok tt (record s { contexts = update_at s.contexts p f })
unfolding modify
modify-ok p f s live e = rw (live, e)

-- What Store makes of a context.
abbrev pub saved : Machine → ℕ → ℕ → Context → Context
saved m e bottom c = with_block m (measured e bottom c)

abbrev pub overwritten : Context → (ℕ → ℕ) → ℕ → ℕ
overwritten d mem = copy_to d.low (take (region d) d.stack) mem

module _ (m : Machine) where
  pub store_eq :
      (p : Ptr) (s : Engine) {c : Context}
      → (p == null) ≡ false
      → s.contexts p ≡ some c
      → let d = saved m (m.store_end s) s.stack_bottom c in
        store m p s
        ≡ ok tt (record s {
          contexts = update_at s.contexts p (λ _. d);
          memory = overwritten d s.memory;
        })
  unfolding store
  store_eq p s {c} live e =
      rw (load-ok p s live e, modify-ok p (λ _. saved m (m.store_end s) s.stack_bottom c) s live e)
        refl

  with_block-Sound : Sane m → (c : Context) → Sound c → Sound (with_block m c)
  unfolding with_block
  with_block-Sound k c h = elim (Bool-cases (ltb c.size (region c))) [
    | inl e ↦ rw e (h.0, k.blocks (region c))
    | inr e ↦ rw e h
  ]

  measured-Sound :
      (e bottom : ℕ)
      → 0 < e
      → (bottom == 0) ≡ false
      → (c : Context) → length c.stack ≡ c.size
      → Sound (measured e bottom c)
  unfolding measured
  measured-Sound e bottom ne nz c h = elim (Bool-cases (ltb bottom e)) [
    | inl below ↦ rw below (ground arith, h)
    | inr above ↦ rw above (ne, h)
  ]

  -- Store makes a context sound whose block has its size.
  pub saved-Sound :
      Sane m
      → (e bottom : ℕ) → 0 < e
      → (bottom == 0) ≡ false
      → (c : Context) → length c.stack ≡ c.size
      → Sound (saved m e bottom c)
  saved-Sound k e bottom ne nz c h =
      with_block-Sound k (measured e bottom c) (measured-Sound e bottom ne nz c h)

-- Restore copies the block onto the stack, however deep it is called.
pub restore_eq :
    (fuel frame e : ℕ) (p : Ptr) (s : Engine) {c : Context}
    → 0 < frame
    → e < fuel
    → (p == null) ≡ false
    → s.contexts p ≡ some c
    → 0 < c.low
    → restore fuel frame e p s
      ≡ ok p (record s { memory = copy_to c.low (take c.size c.stack) s.memory })
unfolding restore
restore_eq zero frame e p s g f live at low = absurd (omega (arith, f))
restore_eq (suc fuel) frame e p s {c} g f live at low =
    elim (Bool-cases (leb c.low e && leb e c.hight)) [
      | inl i ↦
          rw (load-ok p s live at, i)
            (restore_eq fuel frame (e - frame) p s g (ground (arith, f, g, low)) live at low)
      | inr i ↦ rw (load-ok p s live at, i) refl
    ]
