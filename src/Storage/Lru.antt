-- ===== src/Storage/Lru.antt =====
-- src/storage/SimpleLRU.h and SimpleLRU.cpp: the member functions, over an explicit heap of nodes.
pub mod Memory
pub mod Index
pub mod Segment
pub mod Links
pub mod Rep
pub mod Delete
pub mod Evict
pub mod Touch
pub mod Front
pub mod Insert
pub mod Overwrite
pub mod Refines
pub mod Teardown
use ts_sem.Prelude.{
  ℕ, zero, suc, Bool, true, false, Option, none, some, [], ◌==◌, ltb, if◌then◌else◌,
}
use ts_sem.Prelude.Bytes.{Bytes, bytes_eq}
use ts_sem.Run
use ts_sem.Run.{out_of_fuel, ◌>>=◌, ◌>>◌}
use Memory.{
  Ptr, null, Node, Lru, Cmd, add64, sub64, size_of, load, set_next, set_prev, set_value, set_head,
  set_tail, set_free, set_index, destroy, new_node,
}
use Index

-- `SimpleLRU(max_size)`
pub init : ℕ → Lru
init max = record {
  max_size = max;
  free_size = max;
  lru_head = null;
  lru_tail = null;
  lru_index = [];
  heap = λ _. none;
  next_address = 1;
}

-- What follows the node `n` gets the predecessor of `n`: the next node, or the tail pointer.
pub detach_next : Node → Cmd (Unit {0})
detach_next n = if n.next == null then set_tail n.prev else set_prev n.next n.prev

-- What stands before the node `n` gets its successor `q`: the previous node, or the head pointer.
pub detach_prev : Node → Ptr → Cmd (Unit {0})
detach_prev n q = if n.prev == null then set_head q else set_next n.prev q

-- Unlinks the node at `a`, which is not the head, and puts it in front.
pub relink_head : Ptr → Cmd (Unit {0})
relink_head a = do
  n ← load a
  detach_next n
  s ← Run.get_state
  set_prev s.lru_head a
  set_next n.prev null
  set_next n.prev n.next
  set_next a s.lru_head
  set_head a
  p ← load n.prev
  if p.prev == null then set_prev n.prev a else Run.pure tt
  set_prev a null

-- The iterator that is returned is the address of the node, `none` for `end()`.
pub move_to_head : Bytes → Cmd (Option Ptr)
unfolding relink_head
move_to_head k s = elim (Index.find k s.lru_index) [
  | none ↦ Run.pure none s
  | some a ↦
      (do
        h ← load s.lru_head
        if bytes_eq h.key k then Run.pure tt else relink_head a
        Run.pure (some a))
        s
]

-- Unlinks and destroys the node at `a`.
pub unlink : Bytes → Ptr → Cmd Bool
unlink k a = do
  n ← load a
  s ← Run.get_state
  set_free (add64 s.free_size (size_of n.key n.value))
  set_index (Index.erase k s.lru_index)
  detach_next n
  set_next a null
  detach_prev n n.next
  destroy (suc (suc s.next_address)) a
  Run.pure true

pub delete : Bytes → Cmd Bool
unfolding unlink
delete k s = elim (Index.find k s.lru_index) [ none ↦ Run.pure false s | some a ↦ unlink k a s ]

-- `while (_free_size < need) Delete(_lru_tail->key);`
pub evict : ℕ → ℕ → Cmd (Unit {0})
evict zero need s = out_of_fuel
evict (suc fuel) need s =
    let round = λ (t : Lru). (do n ← load t.lru_tail; delete n.key; evict fuel need) t in
    if ltb s.free_size need then round s else Run.pure tt s

-- A round removes a node, and with no node left the next round faults: fuel for as many rounds as
-- nodes were ever allocated, and one more, is enough.
abbrev pub rounds : Lru → ℕ
rounds s = suc s.next_address

-- Puts the new node at `p` in front of the old head.
pub attach : Ptr → Ptr → Cmd (Unit {0})
attach p old =
    if old == null then set_head p >> set_tail p else set_prev old p >> set_next p old >> set_head p

pub link_head : Bytes → Bytes → Cmd (Unit {0})
link_head k v = do
  s ← Run.get_state
  p ← new_node k v
  attach p s.lru_head
  set_index (Index.emplace k p s.lru_index)
  set_free (sub64 s.free_size (size_of k v))

pub put_in_head : Bytes → Bytes → Cmd Bool
unfolding link_head
put_in_head k v s =
    if ltb s.max_size (size_of k v)
    then Run.pure false s
    else (do evict (rounds s) (size_of k v); link_head k v; Run.pure true) s

-- The second half of `Put` and of `Set`: the node at `a` is in front already.
pub overwrite : Ptr → Bytes → Bytes → Cmd Bool
overwrite a k v s =
    if ltb s.max_size (size_of k v)
    then Run.pure false s
    else (do
      n ← load a
      let delta = sub64 (size_of k v) (size_of n.key n.value)
      evict (rounds s) delta
      t ← Run.get_state
      set_free (sub64 t.free_size delta)
      set_value a v
      Run.pure true)
        s

put_found : Bytes → Bytes → Option Ptr → Cmd Bool
put_found k v none = put_in_head k v
put_found k v (some a) = overwrite a k v

pub put : Bytes → Bytes → Cmd Bool
unfolding put_found
put k v = do it ← move_to_head k; put_found k v it

pub put_if_absent : Bytes → Bytes → Cmd Bool
put_if_absent k v s = elim (Index.find k s.lru_index) [
  | none ↦ put_in_head k v s
  | some _ ↦ Run.pure false s
]

set_found : Bytes → Bytes → Option Ptr → Cmd Bool
set_found k v none = Run.pure false
set_found k v (some a) = overwrite a k v

pub set : Bytes → Bytes → Cmd Bool
unfolding set_found
set k v = do it ← move_to_head k; set_found k v it

get_found : Bytes → Option Ptr → Cmd (Bool × Bytes)
get_found out none = Run.pure (false, out)
get_found out (some a) = do n ← load a; Run.pure (true, n.value)

-- `out` is what the caller's variable holds before the call, and the result's second part after it.
pub get : Bytes → Bytes → Cmd (Bool × Bytes)
unfolding get_found
get k out = do it ← move_to_head k; get_found out it

-- The loop of the destructor, from the tail on: what stands behind the tail is destroyed.
pub teardown_loop : ℕ → Cmd (Unit {0})
teardown_loop zero s = out_of_fuel
teardown_loop (suc fuel) s =
    if s.lru_tail == null
    then Run.pure tt s
    else (do
      n ← load s.lru_tail
      destroy (suc (suc s.next_address)) n.next
      set_next s.lru_tail null
      set_tail n.prev
      teardown_loop fuel)
        s

-- The destructor.
pub teardown : Cmd (Unit {0})
unfolding teardown_loop
teardown s =
    (do
      set_index []
      teardown_loop (rounds s)
      t ← Run.get_state
      destroy (suc (suc t.next_address)) t.lru_head
      set_head null)
      s
