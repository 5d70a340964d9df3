-- ===== src/Logging/Start/Registered.antt =====
-- What Start leaves in the registry of loggers.
use ts_sem.Prelude.{
  ◌≢◌, subst, ◌≡◌, refl, sym, ap, ◌∙◌, Bool, true, false, Option, none, some, List, [], ◌∷◌,
  if◌then◌else◌, Bool-cases, Option-cases, inl, inr, is_some,
}
use ts_sem.Prelude.Bytes.{Bytes, bytes_eq, codes, eq_of_bytes_eq, bytes_eq_refl}
use ts_sem.Logging.Config.{Appender, AppenderType, LoggerConfig, Config}
use ts_sem.Logging.Start.{
  SpdLogger, Spdlog, Started, ok, error, no_root, bind, build_sinks, make_logger, registered,
  register_loggers, find_root, start,
}

-- What spdlog documents of its registry: a new name is accepted, and found from then on; the other
-- names are as before.
pub record Registers {Sink Registry : Type 0} (spd : Spdlog Sink Registry) : Type 0 where
  pub accepts :
      (l : SpdLogger Sink) (r : Registry)
      → spd.get l.name r ≡ none
      → is_some (spd.register l r) ≡ true
  pub finds :
      (l : SpdLogger Sink) (r t : Registry) (k : Bytes)
      → spd.register l r ≡ some t
      → spd.get k t ≡ (if bytes_eq l.name k then some l else spd.get k r)

abbrev pub config_of : Bytes → List (Bytes × LoggerConfig) → Option LoggerConfig
config_of k [] = none
config_of k ((j, l) ∷ ls) = if bytes_eq j k then some l else config_of k ls

-- The keys of a map.
abbrev pub UniqueNames : List (Bytes × LoggerConfig) → Type 0
UniqueNames [] = Unit {0}
UniqueNames ((k, l) ∷ ls) = (config_of k ls ≡ none) × UniqueNames ls

abbrev pub AllValid : List (Bytes × Appender) → Type 0
AllValid [] = Unit {0}
AllValid ((k, a) ∷ as') = (a.kind ≢ AppenderType.invalid) × AllValid as'

module _ {Sink Registry : Type 0} (spd : Spdlog Sink Registry) where
  -- The logger that the configuration asks for under a name, or what was there before.
  abbrev pub chosen :
      List (Bytes × Sink) → Option LoggerConfig → Bytes → Registry → Option (SpdLogger Sink)
  chosen rs (some l) k r = some (make_logger spd rs k l)
  chosen rs none k r = spd.get k r

  abbrev pub expected :
      List (Bytes × Sink) → List (Bytes × LoggerConfig) → Registry → Bytes → Option (SpdLogger Sink)
  expected rs ls r k = chosen rs (config_of k ls) k r

  -- The root logger is there or Start throws.
  abbrev pub Ends :
      List (Bytes × Sink)
      → List (Bytes × LoggerConfig)
      → Registry
      → Started (Registry × SpdLogger Sink)
      → Type 0
  Ends rs ls r out =
      (t : Registry) × ((k : Bytes) → spd.get k t ≡ expected rs ls r k)
      × (out
          ≡ (elim (expected rs ls r (codes "root")) [ none ↦ error no_root | some l ↦ ok (t, l) ]))

  -- Registering a logger keeps the names of the later ones free, and does not hide them.
  module _ (name : Bytes) (rs : List (Bytes × Sink)) (made : SpdLogger Sink)
      (ls : List (Bytes × LoggerConfig)) (r t : Registry) (once : config_of name ls ≡ none)
      (found : (k : Bytes)
        → spd.get k t ≡ (if bytes_eq name k then some made else spd.get k r)) where
    absent_for : (k : Bytes) → bytes_eq name k ≡ true → config_of k ls ≡ none
    absent_for k e = subst (λ j. config_of j ls ≡ none) (eq_of_bytes_eq name k e) once

    still_free :
        (l : LoggerConfig)
        → ((k : Bytes) → is_some (config_of k ((name, l) ∷ ls)) ≡ true → spd.get k r ≡ none)
        → (k : Bytes) → is_some (config_of k ls) ≡ true
        → spd.get k t ≡ none
    still_free l new k h = elim (Bool-cases (bytes_eq name k)) [
      | inl e ↦ absurd (nothing (absent_for k e) h)
      | inr e ↦ found k ∙ ap (λ b. if b then some made else spd.get k r) e ∙ new k (rw e h)
    ]
      where
        nothing : config_of k ls ≡ none → is_some (config_of k ls) ≡ true → ⊥
        nothing a b = cc

    merged :
        (l : LoggerConfig)
        → made ≡ make_logger spd rs name l
        → (k : Bytes) → expected rs ls t k ≡ expected rs ((name, l) ∷ ls) r k
    merged l is_made k = elim (Bool-cases (bytes_eq name k)) [
      | inl e ↦
          ap (λ o. chosen rs o k t) (absent_for k e)
          ∙ found k
          ∙ ap (λ b. if b then some made else spd.get k r) e
          ∙ ap some (is_made ∙ ap (λ j. make_logger spd rs j l) (eq_of_bytes_eq name k e))
          ∙ sym (opened true e)
      | inr e ↦
          same (config_of k ls) (found k ∙ ap (λ b. if b then some made else spd.get k r) e)
          ∙ sym (opened false e)
    ]
      where
        opened :
            (b : Bool)
            → bytes_eq name k ≡ b
            → expected rs ((name, l) ∷ ls) r k
              ≡ chosen rs (if b then some l else config_of k ls) k r
        opened b e = ap (λ x. chosen rs (if x then some l else config_of k ls) k r) e

        same :
            (o : Option LoggerConfig)
            → spd.get k t ≡ spd.get k r
            → chosen rs o k t ≡ chosen rs o k r
        same none h = h
        same (some m) h = refl

  module _ (laws : Registers spd) where
    register_loggers-expected :
        (rs : List (Bytes × Sink)) (ls : List (Bytes × LoggerConfig)) (r : Registry)
        → UniqueNames ls
        → ((k : Bytes) → is_some (config_of k ls) ≡ true → spd.get k r ≡ none)
        → (t : Registry) × (register_loggers spd rs ls r ≡ ok t)
          × ((k : Bytes) → spd.get k t ≡ expected rs ls r k)
    unfolding register_loggers
    register_loggers-expected rs [] r u new = (r, refl, λ k. refl)
    register_loggers-expected rs ((name, l) ∷ ls) r u new =
        let made = make_logger spd rs name l in
        let free : spd.get name r ≡ none = new name (rw (bytes_eq_refl name) refl) in
        elim (Option-cases (spd.register made r)) [
          | inl e ↦ absurd (taken (laws.accepts made r free) e)
          | inr (t, e) ↦
              let found : (k : Bytes)
                  → spd.get k t ≡ (if bytes_eq name k then some made else spd.get k r) =
                λ k. laws.finds made r t k e in
              let (v, run, get) =
                register_loggers-expected rs ls t u.1
                  (still_free name rs made ls r t u.0 found l new) in
              (
                v,
                ap (λ x. bind (registered spd x) (register_loggers spd rs ls)) e ∙ run,
                λ k. get k ∙ merged name rs made ls r t u.0 found l refl k,
              )
        ]
      where
        taken :
            is_some (spd.register (make_logger spd rs name l) r) ≡ true
            → spd.register (make_logger spd rs name l) r ≡ none
            → ⊥
        taken h e = cc

    -- Over a registry of loggers that keeps its laws, where the appenders have sinks, the names in
    -- the configuration are distinct and free in the registry: Start registers for every name the
    -- logger that the configuration describes and leaves the other names alone, and then ends with
    -- the root logger, or with an exception where there is none.
    pub start-Ends :
        (cfg : Config) (r : Registry) (rs : List (Bytes × Sink))
        → build_sinks spd cfg.appenders ≡ ok rs
        → UniqueNames cfg.loggers
        → ((k : Bytes) → is_some (config_of k cfg.loggers) ≡ true → spd.get k r ≡ none)
        → Ends rs cfg.loggers r (start spd cfg r)
    unfolding start find_root
    start-Ends cfg r rs e u new =
        let (t, run, get) = register_loggers-expected rs cfg.loggers r u new in
        (
          t,
          get,
          ap (λ x. bind x (λ rs'. bind (register_loggers spd rs' cfg.loggers r) (find_root spd))) e
              ∙ ap (λ x. bind x (find_root spd)) run
              ∙ ap
                  (λ x. elim x as (λ _. Started (Registry × SpdLogger Sink)) [
                    | none ↦ error no_root
                    | some l ↦ ok (t, l)
                  ])
                  (get (codes "root")),
        )
