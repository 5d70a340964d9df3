-- ===== src/Coroutine/Engine/Finish.antt =====
-- The end of a coroutine in Engine::run: it leaves the list, and the idle context goes on.
use ts_sem.Coroutine.Memory.{Engine}
