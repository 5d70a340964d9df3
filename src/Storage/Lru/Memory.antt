-- ===== src/Storage/Lru/Memory.antt =====
-- The objects of a SimpleLRU: the nodes on the heap, the fields, and reads and writes through
-- pointers. An allocation takes the next unused address; `new` does not fail. A `size_t` is a number
-- below 2^64, with the wrap-around written out.
use ts_sem.Prelude.{
  ℕ, zero, suc, ◌+◌, ◌-◌, ◌%◌, ◌^◌, Option, none, some, List, ◌==◌, if◌then◌else◌, length,
}
use ts_sem.Prelude.Bytes.{Bytes}
use ts_sem.Run
use ts_sem.Run.{Run, ok, fault, out_of_fuel, ◌>>=◌, ◌>>◌}

abbrev pub Ptr : Type 0
Ptr = ℕ

abbrev pub null : Ptr
null = 0

pub record Node : Type 0 where
  pub key : Bytes
  pub value : Bytes
  pub next : Ptr
  pub prev : Ptr

abbrev pub Heap : Type 0
Heap = Ptr → Option Node

-- `_lru_index` maps a key to the address of its node; `next_address` belongs to the allocator.
pub record Lru : Type 0 where
  pub max_size : ℕ
  pub free_size : ℕ
  pub lru_head : Ptr
  pub lru_tail : Ptr
  pub lru_index : List (Bytes × Ptr)
  pub heap : Heap
  pub next_address : Ptr

abbrev pub Cmd : Type 0 → Type 0
Cmd = Run.Cmd Lru

abbrev pub add64 : ℕ → ℕ → ℕ
add64 a b = (a + b) % 2 ^ 64

abbrev pub sub64 : ℕ → ℕ → ℕ
sub64 a b = (a + 2 ^ 64 - b) % 2 ^ 64

-- `key.length() + value.length()`
abbrev pub size_of : Bytes → Bytes → ℕ
size_of k v = add64 (length k) (length v)

unfoldable pub on_node : (Node → Node) → Option Node → Option Node
on_node f none = none
on_node f (some n) = some (f n)

unfoldable pub update_at : Heap → Ptr → (Node → Node) → Heap
update_at h p f q = if q == p then on_node f (h q) else h q

unfoldable pub write_at : Heap → Ptr → Option Node → Heap
write_at h p c q = if q == p then c else h q

-- `*p`
unfoldable pub load : Ptr → Cmd Node
load p s = if p == null then fault else elim (s.heap p) [ none ↦ fault | some n ↦ ok n s ]

unfoldable pub modify_node : Ptr → (Node → Node) → Cmd (Unit {0})
modify_node p f s = if p == null then fault else elim (s.heap p) [
  | none ↦ fault
  | some _ ↦ ok tt (record s { heap = update_at s.heap p f })
]

abbrev pub with_next : Ptr → Node → Node
with_next q n = record n { next = q }

abbrev pub with_prev : Ptr → Node → Node
with_prev q n = record n { prev = q }

abbrev pub with_value : Bytes → Node → Node
with_value v n = record n { value = v }

-- `p->next = q`, `p->prev = q`, `p->value = v`, with no destruction of the old pointee
abbrev pub set_next : Ptr → Ptr → Cmd (Unit {0})
set_next p q = modify_node p (with_next q)

abbrev pub set_prev : Ptr → Ptr → Cmd (Unit {0})
set_prev p q = modify_node p (with_prev q)

abbrev pub set_value : Ptr → Bytes → Cmd (Unit {0})
set_value p v = modify_node p (with_value v)

abbrev pub set_head : Ptr → Cmd (Unit {0})
set_head p = Run.modify λ s. record s { lru_head = p }

abbrev pub set_tail : Ptr → Cmd (Unit {0})
set_tail p = Run.modify λ s. record s { lru_tail = p }

abbrev pub set_free : ℕ → Cmd (Unit {0})
set_free n = Run.modify λ s. record s { free_size = n }

abbrev pub set_index : List (Bytes × Ptr) → Cmd (Unit {0})
set_index m = Run.modify λ s. record s { lru_index = m }

unfoldable pub free : Ptr → Cmd (Unit {0})
free p = do load p; Run.modify λ s. record s { heap = write_at s.heap p none }

-- What `unique_ptr` does to a pointee that it drops: the destructor of the node drops `next` in turn.
unfoldable pub destroy : ℕ → Ptr → Cmd (Unit {0})
destroy zero p = λ s. out_of_fuel
destroy (suc fuel) p = if p == null then Run.pure tt else do n ← load p; free p; destroy fuel n.next

unfoldable pub new_node : Bytes → Bytes → Cmd Ptr
new_node k v s = ok s.next_address (record s {
  heap =
      write_at s.heap s.next_address
        (some (record { key = k; value = v; next = null; prev = null }));
  next_address = suc s.next_address;
})
