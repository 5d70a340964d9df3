-- ===== src/Coroutine/Engine.antt =====
-- The member functions of the coroutine engine. A function that leaves by `longjmp` ends with the
-- context that goes on.
pub mod Chain
pub mod Save
pub mod Unlink
pub mod Finish
pub mod Start
use ts_sem.Prelude.{
  ℕ, zero, suc, ◌-◌, ◌%◌, ◌^◌, Bool, true, false, ◌&&◌, not, Option, none, some, List, [], ◌∷◌,
  ◌==◌, ltb, leb, if◌then◌else◌, take,
}
use ts_sem.Prelude.Bytes.{Bytes}
use ts_sem.Run
use ts_sem.Run.{fault, ok, out_of_fuel, ◌>>=◌, ◌>>◌}
use ts_sem.Coroutine.Memory.{
  Ptr, null, Context, Engine, Cmd, load, modify, with_next, with_prev, new_context, delete, copy_to,
}

-- What the machine gives: the address of the local variable in Store and in the first call of
-- Restore, in a state, how far the stack grows by a call of Restore, and what a new block holds.
pub record Machine : Type 0 where
  pub store_end : Engine → ℕ
  pub restore_end : Engine → ℕ
  pub frame : ℕ
  pub new_block : ℕ → Bytes

-- The region between the bottom of the stack and its end `e`, and a block that is large enough.
unfoldable pub measured : ℕ → ℕ → Context → Context
measured e bottom c =
    if ltb bottom e
    then record c { hight = e; low = bottom }
    else record c { low = e; hight = bottom }

-- `Hight - Low` in 32 bits
unfoldable pub region : Context → ℕ
region c = (c.hight - c.low) % 2 ^ 32

unfoldable pub with_block : Machine → Context → Context
unfolding region
with_block m c =
    if ltb c.size (region c)
    then record c { stack = m.new_block (region c); size = region c }
    else c

-- Store. The block is copied over the stack.
unfoldable pub store : Machine → Ptr → Cmd (Unit {0})
unfolding measured with_block region
store m p s =
    (do
      c ← load p
      let d = with_block m (measured (m.store_end s) s.stack_bottom c)
      modify p (λ _. d)
      Run.modify λ t. record t { memory = copy_to d.low (take (region d) d.stack) t.memory })
      s

-- Store as the members call it. The bytes from Low to Hight are the frames of Store and of its
-- callers, with their return addresses and local variables: where there are any, the copy overwrites
-- them with the bytes of the block, and what follows is undefined.
unfoldable pub save : Machine → Ptr → Cmd (Unit {0})
unfolding store region
save m p = do store m p; c ← load p; if region c == 0 then Run.pure tt else Run.fail

-- Restore, called at the stack's end `e`; it calls itself until the end lies outside of the region.
unfoldable pub restore : ℕ → ℕ → ℕ → Ptr → Cmd Ptr
restore zero frame e p = λ s. out_of_fuel
restore (suc fuel) frame e p =
    let deeper = restore fuel frame (e - frame) p in
    (do
      c ← load p
      if leb c.low e && leb e c.hight then deeper else (do
        Run.modify λ t. record t { memory = copy_to c.low (take c.size c.stack) t.memory }
        Run.pure p))

-- Enter. The stack's end falls by a byte at least with every call.
unfoldable pub enter : Machine → Ptr → Cmd Ptr
unfolding save restore
enter m p s =
    (do
      if not (s.cur_routine == null) && not (s.cur_routine == s.idle_ctx)
          then save m s.cur_routine
          else Run.pure tt
      Run.modify λ t. record t { cur_routine = p }
      t ← Run.get_state
      restore (suc (m.restore_end t)) m.frame (m.restore_end t) p)
      s

abbrev pub entered : Machine → Ptr → Cmd (Option Ptr)
entered m p = do q ← enter m p; Run.pure (some q)

-- `cur_routine != alive && alive`
abbrev pub yield_head : Machine → Cmd (Option Ptr)
yield_head m s =
    if not (s.cur_routine == s.alive) && not (s.alive == null)
    then entered m s.alive s
    else ok none s

-- yield, which ends with `none` where it returns at once.
unfoldable pub yield : Machine → Cmd (Option Ptr)
unfolding enter
yield m s =
    if s.cur_routine == s.alive
    then (do c ← load s.alive; if not (c.next == null) then entered m c.next else yield_head m) s
    else yield_head m s

unfoldable pub sched : Machine → Ptr → Cmd (Option Ptr)
unfolding yield enter
sched m p s =
    if s.cur_routine == p then ok none s else if not (p == null) then entered m p s else yield m s

-- The list of coroutines gets a new head.
unfoldable pub push : Ptr → Cmd (Unit {0})
push p s =
    (do
      modify p (with_next s.alive)
      Run.modify λ t. record t { alive = p }
      if s.alive == null then Run.pure tt else modify s.alive (with_prev p))
      s

-- run, up to its first return: a new context, or null before `start`.
unfoldable pub run : Machine → Cmd Ptr
unfolding save push
run m s =
    if s.stack_bottom == 0 then ok null s else (do p ← new_context; save m p; push p; Run.pure p) s

-- The end of a coroutine in run, behind the call of its function: the context leaves the list.
unfoldable pub unlink : Ptr → Cmd (Unit {0})
unlink p = do
  c ← load p
  if c.prev == null then Run.pure tt else modify c.prev (with_next c.next)
  d ← load p
  if d.next == null then Run.pure tt else modify d.next (with_prev d.prev)
  s ← Run.get_state
  if s.alive == s.cur_routine
      then (do a ← load s.alive; Run.modify λ t. record t { alive = a.next })
      else Run.pure tt

unfoldable pub finish : Machine → Ptr → Cmd Ptr
unfolding unlink restore
finish m p = do
  unlink p
  Run.modify λ t. record t { cur_routine = null }
  modify p (λ c. record c { prev = null; next = null })
  delete p
  s ← Run.get_state
  restore (suc (m.restore_end s)) m.frame (m.restore_end s) s.idle_ctx

-- "Shutdown runtime"
unfoldable pub shut_down : Cmd (Unit {0})
unfolding delete
shut_down = do s ← Run.get_state; delete s.idle_ctx; Run.modify λ t. record t { stack_bottom = 0 }

-- The end of start, where no other context goes on.
abbrev pub or_shut_down : Option Ptr → Cmd (Option Ptr)
or_shut_down (some p) = Run.pure (some p)
or_shut_down none = do shut_down; Run.pure none

-- start, up to where it gives control away: `bottom` is the address of its local variable.
unfoldable pub start : Machine → ℕ → Cmd (Option Ptr)
unfolding run sched save
start m bottom = do
  Run.modify λ t. record t { stack_bottom = bottom }
  p ← run m
  idle ← new_context
  Run.modify λ t. record t { idle_ctx = idle }
  next ← (if p == null then Run.pure none else (do save m idle; sched m p))
  or_shut_down next

-- start, when the idle context gets control: it looks for another coroutine.
unfoldable pub resume_idle : Machine → Cmd (Option Ptr)
unfolding yield
resume_idle m = do next ← yield m; or_shut_down next
