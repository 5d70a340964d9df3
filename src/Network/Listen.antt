-- ===== src/Network/Listen.antt =====
-- Start of the four servers (src/network/*/ServerImpl.cpp): the calls that open the server's socket
-- and what else it needs. What the system returns is an argument; the state is the list of the
-- descriptors that are open.
pub mod Leaks
use ts_sem.Prelude.{
  ℕ, zero, suc, Bool, true, false, Option, none, some, List, [], ◌∷◌, ◌==◌, if◌then◌else◌,
}

pub data StartError : Type 0 where
  mask_failed no_socket setsockopt_failed bind_failed get_flags_failed set_flags_failed : StartError
  listen_failed no_event_fd no_epoll epoll_add_failed : StartError

-- The results of the calls: whether a call succeeds, or the descriptor that it gives.
pub record Calls : Type 0 where
  pub sigmask : Bool
  pub socket : Option ℕ
  pub setsockopt : Bool
  pub bind : Bool
  pub get_flags : Bool
  pub set_flags : Bool
  pub listen : Bool
  pub eventfd : Option ℕ
  pub epoll_create : Option ℕ
  pub epoll_add : Bool

pub data Opened (A : Type 0) : Type 0 where
  ok : A → List ℕ → Opened A
  failed : StartError → List ℕ → Opened A

abbrev pub Sys : Type 0 → Type 0
Sys A = List ℕ → Opened A

abbrev pub pure : {A : Type 0} → A → Sys A
pure a fds = ok a fds

abbrev pub and_then : {A B : Type 0} → Opened A → (A → Sys B) → Opened B
and_then (ok a fds) k = k a fds
and_then (failed e fds) k = failed e fds

infixl 5 ◌>>=◌ ◌>>◌
abbrev pub ◌>>=◌ : {A B : Type 0} → Sys A → (A → Sys B) → Sys B
◌>>=◌ m k fds = and_then (m fds) k

abbrev pub ◌>>◌ : {A B : Type 0} → Sys A → Sys B → Sys B
m >> k = m >>= λ _. k

-- `close`
abbrev pub close : ℕ → List ℕ → List ℕ
close fd [] = []
close fd (x ∷ fds) = if x == fd then fds else x ∷ close fd fds

-- A call that throws where it fails.
abbrev pub check : Bool → StartError → Sys (Unit {0})
check true e = pure tt
check false e = failed e

-- A call that closes the descriptor and throws where it fails.
abbrev pub check_or_close : Bool → ℕ → StartError → Sys (Unit {0})
check_or_close true fd e fds = ok tt fds
check_or_close false fd e fds = failed e (close fd fds)

-- A call that opens a descriptor, or throws.
abbrev pub open_fd : Option ℕ → StartError → Sys ℕ
open_fd none e fds = failed e fds
open_fd (some fd) e fds = ok fd (fd ∷ fds)

pub st_blocking_start : Calls → Sys ℕ
st_blocking_start c = do
  check c.sigmask mask_failed
  fd ← open_fd c.socket no_socket
  check_or_close c.setsockopt fd setsockopt_failed
  check_or_close c.bind fd bind_failed
  check_or_close c.listen fd listen_failed
  pure fd

pub mt_blocking_start : Calls → Sys ℕ
mt_blocking_start c = do
  check c.sigmask mask_failed
  fd ← open_fd c.socket no_socket
  check_or_close c.setsockopt fd setsockopt_failed
  check_or_close c.bind fd bind_failed
  check_or_close c.listen fd listen_failed
  pure fd

-- `make_socket_non_blocking`
pub make_socket_non_blocking : Calls → Sys (Unit {0})
make_socket_non_blocking c = do
  check c.get_flags get_flags_failed
  check c.set_flags set_flags_failed

-- The socket and the event descriptor.
pub st_nonblocking_start : Calls → Sys (ℕ × ℕ)
unfolding make_socket_non_blocking
st_nonblocking_start c = do
  check c.sigmask mask_failed
  fd ← open_fd c.socket no_socket
  check_or_close c.setsockopt fd setsockopt_failed
  check_or_close c.bind fd bind_failed
  make_socket_non_blocking c
  check_or_close c.listen fd listen_failed
  event ← open_fd c.eventfd no_event_fd
  pure (fd, event)

-- The socket, the workers' epoll and the event descriptor; then the workers and acceptors start.
pub mt_nonblocking_start : Calls → Sys (ℕ × ℕ × ℕ)
unfolding make_socket_non_blocking
mt_nonblocking_start c = do
  check c.sigmask mask_failed
  fd ← open_fd c.socket no_socket
  check_or_close c.setsockopt fd setsockopt_failed
  check_or_close c.bind fd bind_failed
  make_socket_non_blocking c
  check_or_close c.listen fd listen_failed
  data_epoll ← open_fd c.epoll_create no_epoll
  event ← open_fd c.eventfd no_event_fd
  check c.epoll_add epoll_add_failed
  pure (fd, data_epoll, event)
