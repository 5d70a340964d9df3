-- ===== src/Network/Workers.antt =====
-- src/network/mt_nonblocking: connections between the acceptors, epoll and the workers. A connection
-- is registered with EPOLLONESHOT, so an event takes it out of epoll until a worker puts it back. A
-- number stands for the pointer to a connection.
pub mod Owned
use ts_sem.Prelude.{
  ℕ, suc, ◌+◌, ◌≡◌, Bool, true, false, List, [], ◌∷◌, ◌++◌, ◌==◌, ltb, if◌then◌else◌,
}

-- The connections that are allocated; `conns` of the server; the connections that epoll may report;
-- those that an acceptor or a worker is at; and those that are freed and not yet erased from `conns`.
pub record Shared : Type 0 where
  pub live : List ℕ
  pub conns : List ℕ
  pub armed : List ℕ
  pub held : List ℕ
  pub freed : List ℕ

unfoldable pub no_clients : Shared
no_clients = record { live = []; conns = []; armed = []; held = []; freed = [] }

abbrev pub count : ℕ → List ℕ → ℕ
count x [] = 0
count x (y ∷ ys) = if x == y then suc (count x ys) else count x ys

-- `conns.erase`
unfoldable pub erase : ℕ → List ℕ → List ℕ
erase x [] = []
erase x (y ∷ ys) = if x == y then ys else y ∷ erase x ys

-- `conns.insert`, into a set.
unfoldable pub insert : ℕ → List ℕ → List ℕ
insert x xs = if ltb 0 (count x xs) then xs else x ∷ xs

-- An acceptor makes a connection.
unfoldable pub create : ℕ → Shared → Shared
unfolding insert
create x g = record g { live = x ∷ g.live; conns = insert x g.conns; held = x ∷ g.held }

-- epoll reports a connection to a worker.
unfoldable pub deliver : ℕ → Shared → Shared
unfolding erase
deliver x g = record g { armed = erase x g.armed; held = x ∷ g.held }

-- An acceptor or a worker is done with a connection: epoll takes it, or it is closed and freed.
unfoldable pub finish : ℕ → Bool → Shared → Shared
unfolding erase
finish x true g = record g { armed = x ∷ g.armed; held = erase x g.held }
finish x false g = record g { live = erase x g.live; held = erase x g.held; freed = x ∷ g.freed }

-- The rest of DeleteConnection, under the lock. The address may be in use again.
unfoldable pub forget : ℕ → Shared → Shared
unfolding erase
forget x g = record g { conns = erase x g.conns; freed = erase x g.freed }

-- What the threads do, in any order. `new` gives an address at which no connection is allocated.
pub data Move : Shared → Shared → Type 0 where
  creates : (x : ℕ) (g : Shared) → count x g.live ≡ 0 → Move g (create x g)
  delivers : (x n : ℕ) (g : Shared) → count x g.armed ≡ suc n → Move g (deliver x g)
  finishes :
      (x n : ℕ) (taken : Bool) (g : Shared) → count x g.held ≡ suc n → Move g (finish x taken g)
  forgets : (x n : ℕ) (g : Shared) → count x g.freed ≡ suc n → Move g (forget x g)

pub data Moves : Shared → Shared → Type 0 where
  none : (g : Shared) → Moves g g
  more : (f g h : Shared) → Moves f g → Move g h → Moves f h
