-- ===== src/Coroutine/Engine/Start.antt =====
-- Engine::start, which saves the stack on which it runs.
use ts_sem.Prelude.{ℕ, ◌+◌, ◌^◌, ◌<◌}
use ts_sem.Coroutine.Memory.{Engine}
use ts_sem.Coroutine.Engine.{Machine}

-- The stack grows downwards from `bottom`, and has less than 4 GB.
abbrev pub GrowsBelow : Machine → ℕ → Type 0
GrowsBelow m bottom = (s : Engine) → (m.store_end s < bottom) × (bottom < m.store_end s + 2 ^ 32)
