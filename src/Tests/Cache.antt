-- ===== src/Tests/Cache.antt =====
-- A cache of 64 bytes that holds "a" ↦ "1" and "b" ↦ "22", "b" the last used.
use ts_sem.Prelude.{refl, none, some, [], ◌∷◌, ◌==◌, if◌then◌else◌, arith}
use ts_sem.Prelude.Bytes.{Bytes, codes, bytes_eq}
use ts_sem.Storage.Spec.{lookup}
use ts_sem.Storage.Lru.Memory.{Lru, Heap}
use ts_sem.Storage.Lru.Index
use ts_sem.Storage.Lru.Segment.{Cells}
use ts_sem.Storage.Lru.Rep.{Rep, find_cell}

abbrev pub a : Bytes
a = codes "a"

abbrev pub b : Bytes
b = codes "b"

abbrev pub one : Bytes
one = codes "1"

abbrev pub two : Bytes
two = codes "22"

abbrev pub cells : Cells
cells = record { addr = 2; key = b; value = two } ∷ (record { addr = 1; key = a; value = one } ∷ [])

abbrev pub memory : Heap
memory q =
    if q == 1
    then some (record { key = a; value = one; next = 0; prev = 2 })
    else if q == 2
    then some (record { key = b; value = two; next = 1; prev = 0 })
    else none

abbrev pub state : Lru
state = record {
  max_size = 64;
  free_size = 59;
  lru_head = 2;
  lru_tail = 1;
  lru_index = (b, 2) ∷ ((a, 1) ∷ []);
  heap = memory;
  next_address = 3;
}

pub state-Rep : Rep 64 state cells
unfolding Index.find find_cell lookup bytes_eq
state-Rep = record {
  chain = (refl, refl, (refl, refl, tt));
  head = refl;
  tail = refl;
  distinct = (refl, (refl, tt));
  unique = (refl, (refl, tt));
  index = λ k. refl;
  limit = refl;
  sized = refl;
  small = omega arith;
  fresh = (omega arith, (omega arith, tt));
  count = omega arith;
  no_leak = λ q h. ground (arith, h);
}
