-- ===== src/Application/Options.antt =====
-- The configuration that the options lead to.
use ts_sem.Prelude.{
  ◌≡◌, refl, sym, ap, subst, ◌∙◌, true, false, Option, none, some, List, [], ◌∷◌, if◌then◌else◌,
  arith, Bool-cases, is_some, inl, inr,
}
use ts_sem.Prelude.Bytes.{Bytes, bytes_eq, codes, eq_of_bytes_eq}
use ts_sem.Prelude.Int.{ℤ}
use ts_sem.Logging.Start.{
  Spdlog, SpdLogger, SpdLevel, Started, build_sinks, sink_of, start, make_logger, level_of,
  sink_for, result,
}
use ts_sem.Logging.Start.Registered.{Registers, config_of, start-Ends}
use ts_sem.Application.{
  Application, Configured, ok, unknown_storage, unknown_network, StorageType, NetworkType,
  with_default, storage_of, network_of, default_config, console_appender, root_logger, configure,
}

-- The logger that the server gets under any name below "root".
abbrev pub console_logger : {Sink Registry : Type 0} → Spdlog Sink Registry → SpdLogger Sink
console_logger spd = record {
  name = codes "root";
  sink = some (spd.ansicolor spd.stdout);
  level = SpdLevel.debug;
  pattern = codes "[%H:%M:%S %z] [thread %t] [%n] [%l] %v";
  flush_on = SpdLevel.err;
}

configure-log_config :
    (history : ℤ) (storage network : Option Bytes) (app : Application)
    → configure history storage network ≡ ok app
    → app.log_config ≡ default_config history
unfolding configure
configure-log_config history storage network app e =
    kinds (storage_of (with_default (codes "st_lru") storage))
      (network_of (with_default (codes "st_block") network)) e
  where
    kinds :
        (s : Option StorageType) (n : Option NetworkType)
        → (elim s as (λ _. Configured) [
          | none ↦ unknown_storage
          | some a ↦ elim n [
            | none ↦ unknown_network
            | some b ↦ ok (record { log_config = default_config history; storage = a; server = b })
          ]
        ])
          ≡ ok app
        → app.log_config ≡ default_config history
    kinds none n h = cc
    kinds (some a) none h = cc
    kinds (some a) (some b) h = ground (arith, h)

-- Over a registry of loggers that keeps its laws and has no root logger, for options that Configure
-- accepts, the logging service starts with the configuration, and the root logger is the one on the
-- coloured standard output with level debug.
pub configure-start :
    {Sink Registry : Type 0} (spd : Spdlog Sink Registry) (r : Registry) (history : ℤ)
    (storage network : Option Bytes) (app : Application)
    → Registers spd
    → spd.get (codes "root") r ≡ none
    → configure history storage network ≡ ok app
    → (t : Registry) × (start spd app.log_config r ≡ Started.ok (t, console_logger spd))
      × (spd.get (codes "root") t ≡ some (console_logger spd))
unfolding default_config console_appender root_logger build_sinks sink_of result make_logger
    sink_for level_of bytes_eq
configure-start {Sink} {Registry} spd r history storage network app laws new e =
    let cfg = default_config history in
    let rs : List (Bytes × Sink) = (codes "console", spd.ansicolor spd.stdout) ∷ [] in
    let (t, get, out) = start-Ends spd laws cfg r rs refl (refl, tt) only_root in
    (
      t,
      ap (λ c. start spd c r) (configure-log_config history storage network app e) ∙ out,
      get (codes "root"),
    )
  where
    only_root :
        (k : Bytes)
        → is_some (config_of k (default_config history).loggers) ≡ true
        → spd.get k r ≡ none
    only_root k h = elim (Bool-cases (bytes_eq (codes "root") k)) [
      | inl q ↦ subst (λ j. spd.get j r ≡ none) (eq_of_bytes_eq (codes "root") k q) new
      | inr q ↦
          let both : true ≡ false =
            sym h ∙ ap (λ b. is_some (if b then some root_logger else none)) q in
          cc
    ]
