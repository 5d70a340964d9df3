-- ===== src/Coroutine/Memory.antt =====
-- The machine stack, as bytes at addresses, and the contexts of coroutines on the heap. The saved
-- registers of a context, by which its coroutine goes on, are outside.
use ts_sem.Prelude.{
  ℕ, zero, suc, ◌+◌, ◌≡◌, refl, ap, ◌∙◌, Option, none, some, [], ◌∷◌, ◌==◌, if◌then◌else◌, length,
  arith, ◌≤◌, ◌<◌,
}
use ts_sem.Prelude.Bytes.{Bytes}
use ts_sem.Run
use ts_sem.Run.{fault, ok}

abbrev pub Ptr : Type 0
Ptr = ℕ

abbrev pub null : Ptr
null = 0

-- A coroutine: where its stack begins and ends, the block for the copy of the stack and its size,
-- and the links of the list of coroutines.
pub record Context : Type 0 where
  pub low : ℕ
  pub hight : ℕ
  pub stack : Bytes
  pub size : ℕ
  pub prev : Ptr
  pub next : Ptr

abbrev pub Contexts : Type 0
Contexts = Ptr → Option Context

pub record Engine : Type 0 where
  pub stack_bottom : ℕ
  pub cur_routine : Ptr
  pub alive : Ptr
  pub idle_ctx : Ptr
  pub contexts : Contexts
  pub next_address : Ptr
  pub memory : ℕ → ℕ

abbrev pub Cmd : Type 0 → Type 0
Cmd = Run.Cmd Engine

abbrev pub on_context : (Context → Context) → Option Context → Option Context
on_context f none = none
on_context f (some c) = some (f c)

unfoldable pub update_at : Contexts → Ptr → (Context → Context) → Contexts
update_at h p f q = if q == p then on_context f (h q) else h q

unfoldable pub write_at : Contexts → Ptr → Option Context → Contexts
write_at h p c q = if q == p then c else h q

-- `*p`
unfoldable pub load : Ptr → Cmd Context
load p s = if p == null then fault else elim (s.contexts p) [ none ↦ fault | some c ↦ ok c s ]

unfoldable pub modify : Ptr → (Context → Context) → Cmd (Unit {0})
modify p f s = if p == null then fault else elim (s.contexts p) [
  | none ↦ fault
  | some _ ↦ ok tt (record s { contexts = update_at s.contexts p f })
]

abbrev pub with_next : Ptr → Context → Context
with_next q c = record c { next = q }

abbrev pub with_prev : Ptr → Context → Context
with_prev q c = record c { prev = q }

-- `new context()`
unfoldable pub new_context : Cmd Ptr
new_context s = ok s.next_address (record s {
  contexts =
      write_at s.contexts s.next_address
        (some (record { low = 0; hight = 0; stack = []; size = 0; prev = null; next = null }));
  next_address = suc s.next_address;
})

unfoldable pub delete : Ptr → Cmd (Unit {0})
delete p s = if p == null then fault else elim (s.contexts p) [
  | none ↦ fault
  | some _ ↦ ok tt (record s { contexts = write_at s.contexts p none })
]

-- `memcpy(a, b, …)` with the bytes at `b`
unfoldable pub copy_to : ℕ → Bytes → (ℕ → ℕ) → ℕ → ℕ
copy_to a [] m = m
copy_to a (x ∷ xs) m = copy_to (suc a) xs (λ q. if q == a then x else m q)

-- The bytes from an address on.
abbrev pub bytes_at : ℕ → ℕ → (ℕ → ℕ) → Bytes
bytes_at a zero m = []
bytes_at a (suc n) m = m a ∷ bytes_at (suc a) n m

pub copy_to-below : (a : ℕ) (xs : Bytes) (m : ℕ → ℕ) (q : ℕ) → q < a → copy_to a xs m q ≡ m q
unfolding copy_to
copy_to-below a [] m q h = refl
copy_to-below a (x ∷ xs) m q h =
    copy_to-below (suc a) xs (λ r. if r == a then x else m r) q (omega (arith, h))
    ∙ ground (arith, h)

pub copy_to-above :
    (a : ℕ) (xs : Bytes) (m : ℕ → ℕ) (q : ℕ) → a + length xs ≤ q → copy_to a xs m q ≡ m q
unfolding copy_to
copy_to-above a [] m q h = refl
copy_to-above a (x ∷ xs) m q h =
    copy_to-above (suc a) xs (λ r. if r == a then x else m r) q (omega (arith, h))
    ∙ ground (arith, h)

-- What was copied stands there.
pub bytes_at-copy_to :
    (a : ℕ) (xs : Bytes) (m : ℕ → ℕ) → bytes_at a (length xs) (copy_to a xs m) ≡ xs
unfolding copy_to
bytes_at-copy_to a [] m = refl
bytes_at-copy_to a (x ∷ xs) m =
    let m' : ℕ → ℕ = λ q. if q == a then x else m q in
    let first : copy_to (suc a) xs m' a ≡ x =
      copy_to-below (suc a) xs m' a (omega arith) ∙ ground arith in
    ap (λ y. y ∷ bytes_at (suc a) (length xs) (copy_to (suc a) xs m')) first
    ∙ ap (◌∷◌ x) (bytes_at-copy_to (suc a) xs m')
