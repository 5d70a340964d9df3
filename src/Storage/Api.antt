-- ===== src/Storage/Api.antt =====
-- include/afina/Storage.h: the interface that commands use, its specification over entries, and the
-- two implementations of src/storage.
use ts_sem.Prelude.{ℕ, Bool, false, none, some, if◌then◌else◌, ltb, length, is_some}
use ts_sem.Prelude.Bytes.{Bytes}
use ts_sem.Run.{Run, Cmd, ok, fault}
use ts_sem.Storage.Spec
use ts_sem.Storage.Spec.{Entries, weight, lookup, remove}
use ts_sem.Storage.Lru
use ts_sem.Storage.Lru.Memory.{Lru}

-- `get` takes what the caller's variable holds and returns what it holds afterwards.
pub record StorageApi (S : Type 0) : Type 0 where
  pub put : Bytes → Bytes → Cmd S Bool
  pub put_if_absent : Bytes → Bytes → Cmd S Bool
  pub set : Bytes → Bytes → Cmd S Bool
  pub delete : Bytes → Cmd S Bool
  pub get : Bytes → Bytes → Cmd S (Bool × Bytes)

abbrev pub result : {A : Type 0} → A × Entries → Run Entries A
result (a, es) = ok a es

-- The one input at which the cache leaves the specification: a shorter value for a present key.
abbrev pub shrinks : ℕ → Bytes → Bytes → Entries → Bool
shrinks max k v es = elim (lookup k es) [ none ↦ false | some w ↦ ltb (length v) (length w) ]

-- The specification as a storage of its own, undefined where the cache is.
abbrev pub spec_api : ℕ → StorageApi Entries
spec_api max = record {
  put = λ k v es. if shrinks max k v es then fault else result (Spec.put max k v es);
  put_if_absent = λ k v es. result (Spec.put_if_absent max k v es);
  set = λ k v es. if shrinks max k v es then fault else result (Spec.set max k v es);
  delete = λ k es. ok (is_some (lookup k es)) (remove k es);
  get = λ k out es. result (Spec.get k out es);
}

abbrev pub lru_api : StorageApi Lru
lru_api = record {
  put = Lru.put;
  put_if_absent = Lru.put_if_absent;
  set = Lru.set;
  delete = Lru.delete;
  get = Lru.get;
}
