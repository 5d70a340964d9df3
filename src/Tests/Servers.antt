-- ===== src/Tests/Servers.antt =====
-- The blocking servers over the specification with 64 bytes, and starts of servers.
use ts_sem.Prelude.{true, none, some, [], ◌∷◌}
use ts_sem.Network.Listen.{
  Calls, st_blocking_start, mt_blocking_start, st_nonblocking_start, mt_nonblocking_start,
}
use ts_sem.Network.Listen.Leaks.{Keeps, Leaves, left_open, mt_left_open, start-Leaves}

-- The event descriptor is refused.
abbrev refused : Calls
refused = record {
  sigmask = true;
  socket = some 3;
  setsockopt = true;
  bind = true;
  get_flags = true;
  set_flags = true;
  listen = true;
  eventfd = none;
  epoll_create = some 4;
  epoll_add = true;
}

start-Leaves_example :
    Keeps (1 ∷ []) (st_blocking_start refused (1 ∷ []))
    × Keeps (1 ∷ []) (mt_blocking_start refused (1 ∷ []))
    × Leaves left_open 2 (1 ∷ []) (st_nonblocking_start refused (1 ∷ []))
    × Leaves mt_left_open 3 (1 ∷ []) (mt_nonblocking_start refused (1 ∷ []))
start-Leaves_example = start-Leaves refused (1 ∷ [])
