-- ===== src/Tests/Lists.antt =====
-- The theorems on SimpleLRU at the cache of Cache.antt.
use ts_sem.Prelude.{◌≤◌, ◌≡◌, refl, true, some, none, [], ◌∷◌, length, arith}
use ts_sem.Prelude.Bytes.{Bytes, codes, bytes_eq}
use mathlib.Core.Option.{some-injective}
use ts_sem.Prelude.{subst}
use ts_sem.Run.{Ends, fault}
use ts_sem.Storage.Spec
use ts_sem.Storage.Spec.{Entries, lookup, remove}
use ts_sem.Storage.Lru
use ts_sem.Storage.Lru.Rep.{Models, entries}
use ts_sem.Storage.Lru.Memory.{Ptr, null}
use ts_sem.Storage.Lru.Teardown.{teardown_empties}
use ts_sem.Storage.Lru.Delete.{delete-remove}
use ts_sem.Storage.Lru.Refines.{
  put_refines, set_refines, put_if_absent_refines, get_refines, put_shrinks,
}
use ts_sem.Storage.Simulation.{lru_simulates, Simulates, Holds}
use ts_sem.Storage.Api.{lru_api}
use ts_sem.Tests.Cache.{a, b, one, two, cells, state, state-Rep}

abbrev three : Bytes
three = codes "333"

longer : (w : Bytes) → lookup a (entries cells) ≡ some w → length w ≤ length three
unfolding lookup bytes_eq
longer w e = subst (λ x. length x ≤ 3) (some-injective one w e) (omega arith)

found : lookup b (entries cells) ≡ some two
unfolding lookup bytes_eq
found = refl

put_refines_example :
    Ends
      (Lru.put a three state)
      (Spec.put 64 a three (entries cells)).0
      (Models 64 (Spec.put 64 a three (entries cells)).1)
put_refines_example = put_refines a cells state-Rep three (omega arith) longer

-- The entry of the key comes to the front with its new value.
put_entries : Spec.put 64 a three (entries cells) ≡ (true, (a, three) ∷ ((b, two) ∷ []))
unfolding lookup remove bytes_eq Spec.fit
put_entries = refl

set_refines_example :
    Ends
      (Lru.set a three state)
      (Spec.set 64 a three (entries cells)).0
      (Models 64 (Spec.set 64 a three (entries cells)).1)
set_refines_example = set_refines a cells state-Rep three (omega arith) longer

put_if_absent_refines_example :
    Ends
      (Lru.put_if_absent three two state)
      (Spec.put_if_absent 64 three two (entries cells)).0
      (Models 64 (Spec.put_if_absent 64 three two (entries cells)).1)
put_if_absent_refines_example = put_if_absent_refines three cells state-Rep two (omega arith)

get_refines_example :
    Ends
      (Lru.get a three state)
      (Spec.get a three (entries cells)).0
      (Models 64 (Spec.get a three (entries cells)).1)
get_refines_example = get_refines a cells state-Rep three

put_shrinks_example : (Lru.put b one state ≡ fault) × (Lru.set b one state ≡ fault)
put_shrinks_example = put_shrinks b cells state-Rep one two found (omega arith) (omega arith)

delete-remove_example : Ends (Lru.delete b state) true (Models 64 (remove b (entries cells)))
unfolding lookup bytes_eq
delete-remove_example = delete-remove b cells state-Rep

lru_simulates_example : Simulates 64 lru_api (Holds 64)
lru_simulates_example = lru_simulates 64 (omega arith)

teardown_empties_example :
    Ends
      (Lru.teardown state)
      tt
      (λ t. ((q : Ptr) → t.heap q ≡ none) × (t.lru_head ≡ null) × (t.lru_tail ≡ null))
teardown_empties_example = teardown_empties 64 state cells state-Rep
