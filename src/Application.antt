-- ===== src/Application.antt =====
-- src/main.cpp: the choice of the parts by the command line, their start and stop, and `main`. The
-- calls that the parts get are recorded in order.
pub mod Options
use ts_sem.Prelude.{
  ℕ, suc, ◌+◌, take, ◌≡◌, Bool, true, false, Option, none, some, List, [], ◌∷◌, ◌++◌, ◌==◌, ◌&&◌,
  not, if◌then◌else◌,
}
use ts_sem.Prelude.Bytes.{Bytes, bytes_eq, codes}
use ts_sem.Prelude.Int.{ℤ, pos, negsuc}
use ts_sem.Logging.Config.{Appender, AppenderType, Level, LoggerConfig, Config}

pub data StorageType : Type 0 where
  simple_lru thread_safe_lru : StorageType

pub data NetworkType : Type 0 where
  st_blocking mt_blocking st_nonblock mt_nonblock : NetworkType

pub record Application : Type 0 where
  pub log_config : Config
  pub storage : StorageType
  pub server : NetworkType

pub data Configured : Type 0 where
  ok : Application → Configured
  unknown_storage unknown_network : Configured

-- An appender as its constructor leaves it, with the type and the colour that `Configure` sets.
-- `history` is what the field that nothing initialises holds.
unfoldable pub console_appender : ℤ → Appender
console_appender history = record {
  kind = AppenderType.stdout;
  color = true;
  file = [];
  suffix = [];
  rotate_at_hours = negsuc 0;
  rotate_at_mins = negsuc 0;
  rotate_at_size = 0;
  history_to_keep = history;
  ident = [];
  option = pos 0;
  facility = pos 0;
}

unfoldable pub root_logger : LoggerConfig
root_logger = record {
  level = Level.debug;
  format = codes "[%H:%M:%S %z] [thread %t] [%n] [%l] %v";
  appenders = codes "console" ∷ [];
}

unfoldable pub default_config : ℤ → Config
unfolding console_appender root_logger
default_config history = record {
  appenders = (codes "console", console_appender history) ∷ [];
  loggers = (codes "root", root_logger) ∷ [];
}

abbrev pub with_default : Bytes → Option Bytes → Bytes
with_default d none = d
with_default d (some o) = o

unfoldable pub storage_of : Bytes → Option StorageType
storage_of t =
    if bytes_eq t (codes "st_lru")
    then some simple_lru
    else if bytes_eq t (codes "mt_lru")
    then some thread_safe_lru
    else none

unfoldable pub network_of : Bytes → Option NetworkType
network_of t =
    if bytes_eq t (codes "st_block")
    then some st_blocking
    else if bytes_eq t (codes "mt_block")
    then some mt_blocking
    else if bytes_eq t (codes "st_nonblock")
    then some st_nonblock
    else if bytes_eq t (codes "mt_nonblock")
    then some mt_nonblock
    else none

-- The values of the options `storage` and `network`, where they are given.
unfoldable pub configure : ℤ → Option Bytes → Option Bytes → Configured
unfolding storage_of network_of default_config
configure history storage network = elim (storage_of (with_default (codes "st_lru") storage)) [
  | none ↦ unknown_storage
  | some s ↦ elim (network_of (with_default (codes "st_block") network)) [
    | none ↦ unknown_network
    | some n ↦ ok (record { log_config = default_config history; storage = s; server = n })
  ]
]

-- Calls of the parts.
pub data Call : Type 0 where
  log_start log_stop storage_start storage_stop server_stop server_join : Call
  server_start : (port n_accept n_workers : ℕ) → Call

pub start_calls : List Call
start_calls = log_start ∷ storage_start ∷ server_start 8080 2 2 ∷ []

pub stop_calls : List Call
stop_calls = server_stop ∷ server_join ∷ storage_stop ∷ log_stop ∷ []

-- What the command line parser returns.
pub data CommandLine : Type 0 where
  help invalid : CommandLine
  given : Option Bytes → Option Bytes → CommandLine

-- A return of `sem_wait`, and whether `stop_reason` was 0 before.
pub data Woken : Type 0 where
  posted interrupted failed : Woken

-- The loop that waits: how many of the returns it takes.
pub wait_loop : List (Bool × Woken) → ℕ
wait_loop [] = 0
wait_loop ((false, w) ∷ ws) = 0
wait_loop ((true, interrupted) ∷ ws) = 1 + wait_loop ws
wait_loop ((true, w) ∷ ws) = 1

-- How `main` ends, with the calls so far. An exception of `Configure` is not caught.
pub data Ended : Type 0 where
  returned : ℕ → List Call → Ended
  terminated : Ended

-- `throws` is how many calls come back before one throws, if one does; that too ends with 0.
pub main : ℤ → CommandLine → Option ℕ → Ended
unfolding configure start_calls stop_calls
main history help throws = returned 0 []
main history invalid throws = returned 1 []
main history (given s n) throws = elim (configure history s n) [
  | ok app ↦ elim throws [
    | none ↦ returned 0 (start_calls ++ stop_calls)
    | some k ↦ returned 0 (take (suc k) (start_calls ++ stop_calls))
  ]
  | unknown_storage ↦ terminated
  | unknown_network ↦ terminated
]
