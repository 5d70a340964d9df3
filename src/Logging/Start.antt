-- ===== src/Logging/Start.antt =====
-- ServiceImpl::Start: the sinks of the appenders, the loggers, and the root logger. The objects of
-- spdlog, and its registry of loggers, are behind an interface.
pub mod Registered
use ts_sem.Prelude.{
  ℕ, ◌≡◌, Bool, true, false, Option, none, some, List, [], ◌∷◌, if◌then◌else◌, map,
}
use ts_sem.Prelude.Bytes.{Bytes, bytes_eq, codes}
use ts_sem.Prelude.Int.{ℤ}
use ts_sem.Logging.Config
use ts_sem.Logging.Config.{Appender, AppenderType, Level, LoggerConfig, Config}

pub data SpdLevel : Type 0 where
  trace debug info warn err critical : SpdLevel

-- A logger of spdlog: its name, its sink, which may be null, and what Start sets.
pub record SpdLogger (Sink : Type 0) : Type 0 where
  pub name : Bytes
  pub sink : Option Sink
  pub level : SpdLevel
  pub pattern : Bytes
  pub flush_on : SpdLevel

-- The parts of spdlog that Start uses. `register` throws where the name is taken.
pub record Spdlog (Sink Registry : Type 0) : Type 0 where
  pub stdout : Sink
  pub stderr : Sink
  pub ansicolor : Sink → Sink
  pub file : Bytes → Sink
  pub daily : Bytes → ℤ → ℤ → Sink
  pub rotating : Bytes → ℕ → ℤ → Sink
  pub syslog : Bytes → ℤ → ℤ → Sink
  pub dist : List (Option Sink) → Sink
  pub get : Bytes → Registry → Option (SpdLogger Sink)
  pub register : SpdLogger Sink → Registry → Option Registry

pub data StartError : Type 0 where
  invalid_appender name_taken no_root : StartError

pub data Started (A : Type 0) : Type 0 where
  ok : A → Started A
  error : StartError → Started A

abbrev pub bind : {A B : Type 0} → Started A → (A → Started B) → Started B
bind (ok a) k = k a
bind (error e) k = error e

unfoldable pub level_of : Level → SpdLevel
level_of Level.trace = SpdLevel.trace
level_of Level.debug = SpdLevel.debug
level_of Level.info = SpdLevel.info
level_of Level.warning = SpdLevel.warn
level_of Level.error = SpdLevel.err
level_of Level.critical = SpdLevel.critical

module _ {Sink Registry : Type 0} (spd : Spdlog Sink Registry) where
  unfoldable pub sink_of : AppenderType → Appender → Started Sink
  sink_of AppenderType.stdout a = ok (if a.color then spd.ansicolor spd.stdout else spd.stdout)
  sink_of AppenderType.stderr a = ok (if a.color then spd.ansicolor spd.stderr else spd.stderr)
  sink_of AppenderType.file a = ok (spd.file a.file)
  sink_of AppenderType.daily a = ok (spd.daily a.file a.rotate_at_hours a.rotate_at_mins)
  sink_of AppenderType.sized a = ok (spd.rotating a.file a.rotate_at_size a.history_to_keep)
  sink_of AppenderType.syslog a = ok (spd.syslog a.ident a.option a.facility)
  sink_of AppenderType.invalid a = error invalid_appender

  -- The loop over the appenders; the first entry of a name counts, and a map has one.
  unfoldable pub build_sinks : List (Bytes × Appender) → Started (List (Bytes × Sink))
  unfolding sink_of
  build_sinks [] = ok []
  build_sinks ((name, a) ∷ as') =
      bind (sink_of a.kind a) λ s. bind (build_sinks as') λ rest. ok ((name, s) ∷ rest)

  -- `results[name]`, which is null for a name that is not there
  unfoldable pub result : Bytes → List (Bytes × Sink) → Option Sink
  result k [] = none
  result k ((j, s) ∷ rs) = if bytes_eq j k then some s else result k rs

  unfoldable pub sink_for : List (Bytes × Sink) → List Bytes → Option Sink
  unfolding result
  sink_for rs [] = none
  sink_for rs (n ∷ []) = result n rs
  sink_for rs (n ∷ m ∷ ns) = some (spd.dist (map (λ j. result j rs) (n ∷ m ∷ ns)))

  unfoldable pub make_logger : List (Bytes × Sink) → Bytes → LoggerConfig → SpdLogger Sink
  unfolding sink_for level_of
  make_logger rs name l = record {
    name = name;
    sink = sink_for rs l.appenders;
    level = level_of l.level;
    pattern = l.format;
    flush_on = SpdLevel.err;
  }

  abbrev pub registered : Option Registry → Started Registry
  registered none = error name_taken
  registered (some r) = ok r

  -- The loop over the loggers
  pub register_loggers :
      List (Bytes × Sink) → List (Bytes × LoggerConfig) → Registry → Started Registry
  unfolding make_logger
  register_loggers rs [] r = ok r
  register_loggers rs ((name, l) ∷ ls) r =
      bind (registered (spd.register (make_logger rs name l) r)) (register_loggers rs ls)

  pub find_root : Registry → Started (Registry × SpdLogger Sink)
  find_root r = elim (spd.get (codes "root") r) [ none ↦ error no_root | some l ↦ ok (r, l) ]

  -- The registry afterwards, and the root logger.
  pub start : Config → Registry → Started (Registry × SpdLogger Sink)
  unfolding build_sinks register_loggers find_root
  start cfg r =
      bind (build_sinks cfg.appenders) λ rs. bind (register_loggers rs cfg.loggers r) find_root
