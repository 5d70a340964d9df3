-- ===== src/Network/Listen/Leaks.antt =====
-- Which descriptors stay open when a server does not start.
use ts_sem.Prelude.{
  ℕ, ◌≡◌, refl, Bool, true, false, Option, none, some, List, ◌∷◌, arith, ==-refl, ◌+◌, length,
}
use ts_sem.Network.Listen.{
  Calls, Opened, StartError, ok, failed, close, st_blocking_start, mt_blocking_start,
  make_socket_non_blocking, st_nonblocking_start, mt_nonblocking_start, setsockopt_failed,
  bind_failed, get_flags_failed, set_flags_failed, listen_failed, no_event_fd, no_epoll,
  epoll_add_failed,
}

-- A server that starts has its socket, and one that does not has opened nothing.
abbrev pub Keeps : List ℕ → Opened ℕ → Type 0
Keeps fds (ok fd now) = now ≡ fd ∷ fds
Keeps fds (failed e now) = now ≡ fds

close-head : (fd : ℕ) (fds : List ℕ) → close fd (fd ∷ fds) ≡ fds
close-head fd fds = rw (==-refl fd) refl

-- A blocking server that starts has opened its socket and nothing else, and one that does not start
-- leaves the descriptors as they were, whichever of the calls fails.
blocking_start-Keeps :
    (c : Calls) (fds : List ℕ)
    → Keeps fds (st_blocking_start c fds) × Keeps fds (mt_blocking_start c fds)
unfolding st_blocking_start mt_blocking_start
blocking_start-Keeps c fds = (
  st c.sigmask c.socket c.setsockopt c.bind c.listen,
  st c.sigmask c.socket c.setsockopt c.bind c.listen,
)
  where
    st :
        (m : Bool) (s : Option ℕ) (o b l : Bool)
        → Keeps fds (
            st_blocking_start
              (record c { sigmask = m; socket = s; setsockopt = o; bind = b; listen = l })
              fds)
    st false s o b l = refl
    st true none o b l = refl
    st true (some fd) false b l = close-head fd fds
    st true (some fd) true false l = close-head fd fds
    st true (some fd) true true false = close-head fd fds
    st true (some fd) true true true = refl

-- How many descriptors of a non-blocking server stay open behind an exception.
abbrev pub left_open : StartError → ℕ
left_open get_flags_failed = 1
left_open set_flags_failed = 1
left_open no_epoll = 1
left_open no_event_fd = 1
left_open e = 0

-- In the multithreaded server the epoll descriptor comes before the event descriptor.
abbrev pub mt_left_open : StartError → ℕ
mt_left_open no_event_fd = 2
mt_left_open epoll_add_failed = 3
mt_left_open e = left_open e

abbrev pub Leaves : {A : Type 0} → (StartError → ℕ) → ℕ → List ℕ → Opened A → Type 0
Leaves count n fds (ok a now) = length now ≡ n + length fds
Leaves count n fds (failed e now) = length now ≡ count e + length fds

module _ (fds : List ℕ) where
  closed :
      (A : Type 0) (count : StartError → ℕ) (n fd : ℕ) (e : StartError)
      → count e ≡ 0
      → Leaves {A = A} count n fds (failed e (close fd (fd ∷ fds)))
  closed A count n fd e z = rw (close-head fd fds, z) (omega arith)

  st_descriptors :
      (c : Calls) (m : Bool) (s : Option ℕ) (o b g f l : Bool) (v : Option ℕ)
      → Leaves left_open 2 fds (
          st_nonblocking_start
            (record c {
              sigmask = m;
              socket = s;
              setsockopt = o;
              bind = b;
              get_flags = g;
              set_flags = f;
              listen = l;
              eventfd = v;
            })
            fds)
  unfolding st_nonblocking_start make_socket_non_blocking
  st_descriptors c false s o b g f l v = omega arith
  st_descriptors c true none o b g f l v = omega arith
  st_descriptors c true (some fd) false b g f l v =
      closed (ℕ × ℕ) left_open 2 fd setsockopt_failed refl
  st_descriptors c true (some fd) true false g f l v =
      closed (ℕ × ℕ) left_open 2 fd bind_failed refl
  st_descriptors c true (some fd) true true false f l v = omega arith
  st_descriptors c true (some fd) true true true false l v = omega arith
  st_descriptors c true (some fd) true true true true false v =
      closed (ℕ × ℕ) left_open 2 fd listen_failed refl
  st_descriptors c true (some fd) true true true true true none = omega arith
  st_descriptors c true (some fd) true true true true true (some e) = omega arith

  mt_descriptors :
      (c : Calls) (m : Bool) (s : Option ℕ) (o b g f l : Bool) (ep v : Option ℕ) (a : Bool)
      → Leaves mt_left_open 3 fds (
          mt_nonblocking_start
            (record c {
              sigmask = m;
              socket = s;
              setsockopt = o;
              bind = b;
              get_flags = g;
              set_flags = f;
              listen = l;
              eventfd = v;
              epoll_create = ep;
              epoll_add = a;
            })
            fds)
  unfolding mt_nonblocking_start make_socket_non_blocking
  mt_descriptors c false s o b g f l ep v a = omega arith
  mt_descriptors c true none o b g f l ep v a = omega arith
  mt_descriptors c true (some fd) false b g f l ep v a =
      closed (ℕ × ℕ × ℕ) mt_left_open 3 fd setsockopt_failed refl
  mt_descriptors c true (some fd) true false g f l ep v a =
      closed (ℕ × ℕ × ℕ) mt_left_open 3 fd bind_failed refl
  mt_descriptors c true (some fd) true true false f l ep v a = omega arith
  mt_descriptors c true (some fd) true true true false l ep v a = omega arith
  mt_descriptors c true (some fd) true true true true false ep v a =
      closed (ℕ × ℕ × ℕ) mt_left_open 3 fd listen_failed refl
  mt_descriptors c true (some fd) true true true true true none v a = omega arith
  mt_descriptors c true (some fd) true true true true true (some p) none a = omega arith
  mt_descriptors c true (some fd) true true true true true (some p) (some e) false = omega arith
  mt_descriptors c true (some fd) true true true true true (some p) (some e) true = omega arith

-- A blocking server that starts has opened its socket and nothing else, and one that does not start
-- leaves the descriptors as they were. A non-blocking server that starts has two descriptors more,
-- and the multithreaded one three; where the start fails, one stays open for a failure in the flags
-- of the socket, for one of epoll_create1, and for eventfd in the single-threaded server, two for
-- eventfd in the multithreaded one, three for epoll_ctl, and none otherwise.
pub start-Leaves :
    (c : Calls) (fds : List ℕ)
    → Keeps fds (st_blocking_start c fds)
      × Keeps fds (mt_blocking_start c fds)
      × Leaves left_open 2 fds (st_nonblocking_start c fds)
      × Leaves mt_left_open 3 fds (mt_nonblocking_start c fds)
start-Leaves c fds = (
  (blocking_start-Keeps c fds).0,
  (blocking_start-Keeps c fds).1,
  st_descriptors fds c c.sigmask c.socket c.setsockopt c.bind c.get_flags c.set_flags c.listen
      c.eventfd,
  mt_descriptors fds c c.sigmask c.socket c.setsockopt c.bind c.get_flags c.set_flags c.listen
      c.epoll_create c.eventfd c.epoll_add,
)
