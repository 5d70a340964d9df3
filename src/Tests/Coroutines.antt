-- ===== src/Tests/Coroutines.antt =====
-- The coroutine engine at concrete contexts.
use ts_sem.Prelude.{ℕ, zero, suc, none, some, [], ◌∷◌, ◌==◌, if◌then◌else◌}
use ts_sem.Prelude.Bytes.{Bytes}
use ts_sem.Coroutine.Memory.{Ptr, null, Context, Engine}
use ts_sem.Coroutine.Engine.{Machine}

abbrev zeros : ℕ → Bytes
zeros zero = []
zeros (suc n) = 0 ∷ zeros n

abbrev machine : Machine
machine = record { store_end = λ s. 10; restore_end = λ s. 9; frame = 3; new_block = zeros }

-- Before start.
abbrev unused : Engine
unused = record {
  stack_bottom = 0;
  cur_routine = null;
  alive = null;
  idle_ctx = null;
  contexts = λ p. none;
  next_address = 1;
  memory = λ a. 7;
}

abbrev context : Ptr → Ptr → Context
context p q = record {
  low = 10;
  hight = 14;
  stack = 1 ∷ 2 ∷ 3 ∷ 4 ∷ [];
  size = 4;
  prev = p;
  next = q;
}

-- The coroutines 1, 2 and 3, and the idle context 4.
abbrev three : Engine
three = record unused {
  stack_bottom = 14;
  cur_routine = 1;
  alive = 1;
  idle_ctx = 4;
  contexts = λ p.
      if p == 1
      then some (context 0 2)
      else if p == 2
      then some (context 1 3)
      else if p == 3
      then some (context 2 0)
      else if p == 4
      then some (context 0 0)
      else none;
  next_address = 5;
}

-- The coroutine in the middle of the list has ended.
abbrev ended : Engine
ended = record three { cur_routine = 2 }

abbrev written : Engine
written = record three { memory = λ a. 8 }
