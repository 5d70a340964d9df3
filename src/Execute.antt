-- ===== src/Execute.antt =====
-- src/execute and include/afina/execute: the commands, over any storage with the interface of
-- include/afina/Storage.h. What they print to the standard output is left out.
pub mod Reply
use ts_sem.Prelude.{
  ℕ, zero, suc, ◌+◌, ◌/◌, ◌%◌, Bool, true, false, List, [], ◌∷◌, ◌++◌, ◌==◌, ltb, if◌then◌else◌,
  length,
}
use ts_sem.Prelude.Bytes.{Bytes, codes}
use ts_sem.Prelude.Int.{ℤ}
use ts_sem.Run
use ts_sem.Run.{Cmd, ◌>>=◌, ◌>>◌}
use ts_sem.Storage.Api.{StorageApi}

-- `_key`, `_flags` and `_expire` of an insert command
pub record InsertCommand : Type 0 where
  pub key : Bytes
  pub flags : ℕ
  pub expire : ℤ

-- One constructor for each class that implements Execute.
pub data Command : Type 0 where
  set add append replace : InsertCommand → Command
  get : List Bytes → Command
  stats : Command

-- What `ostream << n` writes for an unsigned number. The fuel is a bound on the number of digits.
decimal_loop : ℕ → ℕ → Bytes → Bytes
decimal_loop zero n out = out
decimal_loop (suc fuel) n out =
    let digit = n % 10 + b'0' in
    let rest = decimal_loop fuel (n / 10) (digit ∷ out) in if ltb n 10 then digit ∷ out else rest

unfoldable pub decimal : ℕ → Bytes
unfolding decimal_loop
decimal n = decimal_loop (suc n) n []

abbrev pub stored : Bytes
stored = codes "STORED"

abbrev pub not_stored : Bytes
not_stored = codes "NOT_STORED"

abbrev pub crlf : Bytes
crlf = 13 ∷ 10 ∷ []

-- "VALUE <key> 0 <size>\r\n<value>\r\n"
unfoldable pub item : Bytes → Bytes → Bytes
item k v = codes "VALUE " ++ (k ++ (codes " 0 " ++ (decimal (length v) ++ (crlf ++ (v ++ crlf)))))

module _ {S : Type 0} (storage : StorageApi S) where
  pub execute_set : InsertCommand → Bytes → Cmd S Bytes
  execute_set c args = do storage.put c.key args; Run.pure stored

  pub execute_add : InsertCommand → Bytes → Cmd S Bytes
  execute_add c args = do
    done ← storage.put_if_absent c.key args
    Run.pure (if done then stored else not_stored)

  pub append_found : InsertCommand → Bytes → Bool × Bytes → Cmd S Bytes
  append_found c args (false, value) = Run.pure not_stored
  append_found c args (true, value) = do storage.put c.key (value ++ args); Run.pure stored

  pub execute_append : InsertCommand → Bytes → Cmd S Bytes
  unfolding append_found
  execute_append c args = do found ← storage.get c.key []; append_found c args found

  pub replace_found : InsertCommand → Bytes → Bool × Bytes → Cmd S Bytes
  replace_found c args (false, value) = Run.pure not_stored
  replace_found c args (true, value) = do storage.set c.key args; Run.pure stored

  pub execute_replace : InsertCommand → Bytes → Cmd S Bytes
  unfolding replace_found
  execute_replace c args = do found ← storage.get c.key []; replace_found c args found

  -- The loop over the keys. `value` is one variable for all rounds.
  pub get_loop : List Bytes → Bytes → Bytes → Cmd S Bytes
  get_loop [] value out = Run.pure (out ++ codes "END")
  get_loop (k ∷ ks) value out = do
    found ← storage.get k value
    get_loop ks found.1 (if found.0 then out ++ item k found.1 else out)

  pub execute_get : List Bytes → Cmd S Bytes
  unfolding get_loop
  execute_get ks = get_loop ks [] []

  pub execute_stats : Cmd S Bytes
  execute_stats = Run.pure (codes "END")

  -- The virtual method `Execute`: the reply to the command, without the last line end.
  pub execute : Command → Bytes → Cmd S Bytes
  unfolding execute_set execute_add execute_append execute_replace execute_get execute_stats
  execute (set c) args = execute_set c args
  execute (add c) args = execute_add c args
  execute (append c) args = execute_append c args
  execute (replace c) args = execute_replace c args
  execute (get ks) args = execute_get ks
  execute stats args = execute_stats
