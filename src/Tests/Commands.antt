-- ===== src/Tests/Commands.antt =====
-- The theorems on the commands, over the cache of Cache.antt and over its entries.
use ts_sem.Prelude.{◌≡◌, refl, some, [], ◌∷◌, ◌++◌}
use ts_sem.Prelude.Bytes.{codes, bytes_eq}
use ts_sem.Prelude.Int.{pos}
use ts_sem.Run.{Ends, ok}
use ts_sem.Storage.Spec
use ts_sem.Storage.Spec.{Entries, lookup, remove}
use ts_sem.Storage.Api.{spec_api}
use ts_sem.Storage.Lru.Rep.{entries}
use ts_sem.Execute.{item, decimal, InsertCommand, execute_append, execute_get, stored}
use ts_sem.Execute.Reply.{append_present, execute_get-items, items, SameLookups}
use ts_sem.Tests.Cache.{a, one, two, cells}

abbrev insert_a : InsertCommand
insert_a = record { key = a; flags = 0; expire = pos 0 }

abbrev contents : Entries
contents = entries cells

has_a : lookup a contents ≡ some one
unfolding lookup bytes_eq
has_a = refl

append_present_example :
    execute_append (spec_api 64) insert_a two contents
    ≡ ok stored (Spec.replace_front 64 a (one ++ two) one (remove a contents)).1
append_present_example = append_present 64 insert_a two one contents has_a

execute_get-items_example :
    Ends
      (execute_get (spec_api 64) (a ∷ (codes "c" ∷ [])) contents)
      (items (a ∷ (codes "c" ∷ [])) contents ++ codes "END")
      (SameLookups contents)
execute_get-items_example = execute_get-items 64 (a ∷ (codes "c" ∷ [])) contents

-- The reply that this is.
items_text : items (a ∷ (codes "c" ∷ [])) contents ≡ codes "VALUE a 0 1\r\n1\r\n"
unfolding lookup bytes_eq item decimal
items_text = refl
