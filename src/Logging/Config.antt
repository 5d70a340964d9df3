-- ===== src/Logging/Config.antt =====
-- include/afina/logging/Config.h. A `std::map` is the list of its entries.
use ts_sem.Prelude.{ℕ, Bool, List}
use ts_sem.Prelude.Bytes.{Bytes}
use ts_sem.Prelude.Int.{ℤ}

-- An uninitialised `type` may be none of the enumerators.
pub data AppenderType : Type 0 where
  stdout stderr file daily sized syslog invalid : AppenderType

pub record Appender : Type 0 where
  pub kind : AppenderType
  pub color : Bool
  pub file : Bytes
  pub suffix : Bytes
  pub rotate_at_hours : ℤ
  pub rotate_at_mins : ℤ
  pub rotate_at_size : ℕ
  pub history_to_keep : ℤ
  pub ident : Bytes
  pub option : ℤ
  pub facility : ℤ

pub data Level : Type 0 where
  critical error warning info debug trace : Level

pub record LoggerConfig : Type 0 where
  pub level : Level
  pub format : Bytes
  pub appenders : List Bytes

pub record Config : Type 0 where
  pub appenders : List (Bytes × Appender)
  pub loggers : List (Bytes × LoggerConfig)
