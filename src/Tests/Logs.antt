-- ===== src/Tests/Logs.antt =====
-- Logging with a small registry: a sink is a number, and the registry is a list of loggers.
use mathlib.Core.Option.{some-injective}
use ts_sem.Prelude.{
  ℕ, ◌+◌, ◌≡◌, refl, sym, ap, subst, ◌∙◌, Bool, true, Option, none, some, List, [], ◌∷◌, ◌==◌,
  if◌then◌else◌, length, arith, Option-cases, Bool-cases, inl, inr, is_some,
}
use ts_sem.Prelude.Bytes.{Bytes, bytes_eq, codes}
use ts_sem.Prelude.Int.{pos}
use ts_sem.Logging.Select.{select, select-nearest}
use ts_sem.Logging.Pattern
use ts_sem.Logging.Pattern.{Piece, compile, all_written, all_meant, compile-pieces, has_key}
use ts_sem.Logging.Config.{Config, Level}
use ts_sem.Logging.Start.{SpdLogger, Spdlog, start, Started, build_sinks, sink_of}
use ts_sem.Logging.Start.Registered.{Registers, Ends, start-Ends}
use ts_sem.Logging.Reopen.{reopen_all, has}
use ts_sem.Logging.Reopen.Seen.{IsDistinct}
use ts_sem.Logging.Reopen.Visits.{Reach, IsClosed, reopen_all-once}
use ts_sem.Application.{
  configure, default_config, console_appender, storage_of, network_of, thread_safe_lru, mt_nonblock,
}
use ts_sem.Application.Options.{configure-start, console_logger}

-- A logger "a" is there; "a.b.c" is asked for.
abbrev get_a : Bytes → Option ℕ
get_a name = if bytes_eq name (codes "a") then some 1 else none

select-nearest_example : select get_a 0 (codes "a.b.c") ≡ some 1
unfolding bytes_eq
select-nearest_example =
    select-nearest get_a 0 (codes "c") (codes "b" ∷ (codes "a" ∷ []))
      ((refl, tt), omega arith, ((refl, tt), omega arith, ((refl, tt), omega arith)))

compile-pieces_example :
    compile ((codes "key", codes "value") ∷ []) (codes "x%v%X{key}") ≡ Pattern.text (codes "x%vkey")
unfolding has_key bytes_eq
compile-pieces_example =
    compile-pieces ((codes "key", codes "value") ∷ [])
      (Piece.plain 120 ∷ (Piece.conversion 118 ∷ (Piece.variable (codes "key") ∷ [])))
      (refl, (refl, (((refl, (refl, (refl, tt))), refl), tt)))

abbrev Loggers : Type 0
Loggers = List (SpdLogger ℕ)

abbrev find_logger : Bytes → Loggers → Option (SpdLogger ℕ)
find_logger k [] = none
find_logger k (l ∷ r) = if bytes_eq l.name k then some l else find_logger k r

abbrev added : SpdLogger ℕ → Loggers → Option (SpdLogger ℕ) → Option Loggers
added l r none = some (l ∷ r)
added l r (some m) = none

abbrev add_logger : SpdLogger ℕ → Loggers → Option Loggers
add_logger l r = added l r (find_logger l.name r)

abbrev small_spd : Spdlog ℕ Loggers
small_spd = record {
  stdout = 1;
  stderr = 2;
  ansicolor = λ s. s + 10;
  file = λ f. 20 + length f;
  daily = λ f h m. 40 + length f;
  rotating = λ f n h. 60 + length f;
  syslog = λ i o f. 80;
  dist = λ ss. 100 + length ss;
  get = find_logger;
  register = add_logger;
}

add_logger-find :
    (l : SpdLogger ℕ) (r t : Loggers) (k : Bytes)
    → find_logger l.name r ≡ none
    → add_logger l r ≡ some t
    → find_logger k t ≡ (if bytes_eq l.name k then some l else find_logger k r)
add_logger-find l r t k new e =
    let same : l ∷ r ≡ t = some-injective (l ∷ r) t (sym (ap (added l r) new) ∙ e) in
    subst (λ u. find_logger k u ≡ (if bytes_eq l.name k then some l else find_logger k r)) same refl

add_logger_taken :
    (l m : SpdLogger ℕ) (r t : Loggers)
    → find_logger l.name r ≡ some m
    → add_logger l r ≡ some t
    → ⊥
add_logger_taken l m r t old e = let both : none ≡ some t = sym (ap (added l r) old) ∙ e in cc

small_spd-Registers : Registers small_spd
small_spd-Registers = record {
  accepts = λ l r new. ap (λ o. is_some (added l r o)) new;
  finds = λ l r t k e. elim (Option-cases (find_logger l.name r)) [
    | inl new ↦ add_logger-find l r t k new e
    | inr (m, old) ↦ absurd (add_logger_taken l m r t old e)
  ];
}

-- Two loggers, one of them with two sinks.
abbrev two_loggers : Config
two_loggers = record {
  appenders = (default_config (pos 0)).appenders;
  loggers =
      (
        codes "root",
        record { level = Level.debug; format = codes "%v"; appenders = codes "console" ∷ [] },
      )
      ∷ ((
        codes "net",
        record {
          level = Level.error;
          format = codes "%l";
          appenders = codes "console" ∷ (codes "other" ∷ []);
        },
      )
          ∷ []);
}

abbrev sinks : List (Bytes × ℕ)
sinks = (codes "console", 11) ∷ []

start-Ends_example : Ends small_spd sinks two_loggers.loggers [] (start small_spd two_loggers [])
unfolding build_sinks sink_of default_config console_appender bytes_eq
start-Ends_example =
    start-Ends small_spd small_spd-Registers two_loggers [] sinks refl (refl, (refl, tt))
      (λ k h. refl)

configure-start_example :
    (t : Loggers) × (start small_spd (default_config (pos 7)) []
      ≡ Started.ok (t, console_logger small_spd))
    × (small_spd.get (codes "root") t ≡ some (console_logger small_spd))
unfolding configure storage_of network_of bytes_eq default_config
configure-start_example =
    configure-start small_spd [] (pos 7) (some (codes "mt_lru")) (some (codes "mt_nonblock"))
      (record {
        log_config = default_config (pos 7);
        storage = thread_safe_lru;
        server = mt_nonblock;
      })
      small_spd-Registers refl refl

-- The sink 1 holds 2 and 3, the sink 2 holds 1 and 3, and 3 is a file.
abbrev inner_sinks : ℕ → Option (List ℕ)
inner_sinks s = if s == 1 then some (2 ∷ (3 ∷ [])) else if s == 2 then some (1 ∷ (3 ∷ [])) else none

abbrev is_log_file : ℕ → Bool
is_log_file s = s == 3

inner_sinks-IsClosed : IsClosed inner_sinks is_log_file (1 ∷ (2 ∷ (3 ∷ [])))
inner_sinks-IsClosed x more h e y m = elim (Bool-cases (x == 1)) [
  | inl p ↦
      let it : 2 ∷ (3 ∷ []) ≡ more = some-injective (2 ∷ (3 ∷ [])) more (rw (sym e, p) refl) in
      known y (2 ∷ (3 ∷ [])) (λ h. ground (arith, h)) more it m
  | inr p ↦ elim (Bool-cases (x == 2)) [
    | inl q ↦
        let it : 1 ∷ (3 ∷ []) ≡ more = some-injective (1 ∷ (3 ∷ [])) more (rw (sym e, p, q) refl) in
        known y (1 ∷ (3 ∷ [])) (λ h. ground (arith, h)) more it m
    | inr q ↦ absurd (nothing (rw (p, q) refl))
  ]
]
  where
    known :
        (y : ℕ) (xs : List ℕ)
        → (has y xs ≡ true → has y (1 ∷ (2 ∷ (3 ∷ []))) ≡ true)
        → (ms : List ℕ) → xs ≡ ms
        → has y ms ≡ true
        → has y (1 ∷ (2 ∷ (3 ∷ []))) ≡ true
    known y xs f ms same h = f (ap (has y) same ∙ h)

    nothing : inner_sinks x ≡ none → ⊥
    nothing n = let both : none ≡ some more = sym n ∙ e in cc

reopen_all-once_example :
    (out : List ℕ) × (reopen_all inner_sinks is_log_file (1 ∷ (2 ∷ (3 ∷ []))) (1 ∷ []) ≡ some out)
    × IsDistinct out
    × ((x : ℕ) → has x out ≡ true → (is_log_file x ≡ true) × (inner_sinks x ≡ none))
    × ((x : ℕ)
        → Reach inner_sinks is_log_file (1 ∷ []) x
        → is_log_file x ≡ true
        → inner_sinks x ≡ none
        → has x out ≡ true)
reopen_all-once_example =
    reopen_all-once inner_sinks is_log_file (1 ∷ (2 ∷ (3 ∷ []))) (1 ∷ []) inner_sinks-IsClosed
      (λ x h. ground (arith, h))
