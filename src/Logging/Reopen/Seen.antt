-- ===== src/Logging/Reopen/Seen.antt =====
-- What the search of reopen_all leaves of a queue, sink by sink.
use mathlib.Core.Option.{some-injective}
use ts_sem.Prelude.{
  ℕ, ◌+◌, ◌≤◌, ◌≡◌, refl, sym, ap, subst, ◌∙◌, Bool, true, false, ◌||◌, Option, none, some, List,
  [], ◌∷◌, ◌++◌, ◌==◌, arith, Bool-cases, inl, inr,
}
use ts_sem.Logging.Reopen.{has, inner_count, unseen_count}

pub has-append : (x : ℕ) (xs ys : List ℕ) → has x (xs ++ ys) ≡ (has x xs || has x ys)
has-append x [] ys = refl
has-append x (z ∷ xs) ys = ground (arith, has-append x xs ys)

abbrev pub Within : List ℕ → List ℕ → Type 0
Within xs ys = (x : ℕ) → has x xs ≡ true → has x ys ≡ true

abbrev pub IsDistinct : List ℕ → Type 0
IsDistinct [] = Unit {0}
IsDistinct (x ∷ xs) = (has x xs ≡ false) × IsDistinct xs

module _ (inner : ℕ → Option (List ℕ)) (is_file : ℕ → Bool) where
  -- What the loop leaves of a queue and the sinks that are seen: the files `out` are new and
  -- distinct, and `all` has what was seen, what was in the queue, and what is inside of its new sinks.
  pub record Visited (sinks seen out all : List ℕ) : Type 0 where
    pub files : (x : ℕ) → has x out ≡ true → is_file x ≡ true
    pub no_dist : (x : ℕ) → has x out ≡ true → inner x ≡ none
    pub fresh : (x : ℕ) → has x out ≡ true → has x seen ≡ false
    pub distinct : IsDistinct out
    pub covers_out : Within out all
    pub covers_seen : Within seen all
    pub covers_sinks : Within sinks all
    pub covers_inner :
        (x : ℕ) (more : List ℕ)
        → has x all ≡ true
        → has x seen ≡ false
        → inner x ≡ some more
        → Within more all
    pub covers_files :
        (x : ℕ)
        → has x all ≡ true
        → has x seen ≡ false
        → inner x ≡ none
        → is_file x ≡ true
        → has x out ≡ true

  pub unseen_cons :
      (s : ℕ) (known seen : List ℕ)
      → unseen_count inner is_file known (s ∷ seen) ≤ unseen_count inner is_file known seen
  unseen_cons s [] seen = omega arith
  unseen_cons s (x ∷ known) seen = ground (arith, unseen_cons s known seen)

  pub unseen_first :
      (s : ℕ) (known seen : List ℕ)
      → has s known ≡ true
      → has s seen ≡ false
      → unseen_count inner is_file known (s ∷ seen) + inner_count inner is_file (inner s)
        ≤ unseen_count inner is_file known seen
  unseen_first s [] seen h n = cc
  unseen_first s (x ∷ known) seen h n = elim (Bool-cases (s == x)) [
    | inl e ↦
        let same : s ≡ x = ground (arith, e) in
        let here_first : inner_count inner is_file (inner s) ≡ inner_count inner is_file (inner x) =
          ap (λ y. inner_count inner is_file (inner y)) same in
        let unseen : has x seen ≡ false = ap (λ y. has y seen) (sym same) ∙ n in
        ground (arith, e, unseen, here_first, unseen_cons s known seen)
    | inr e ↦ ground (arith, e, h, unseen_first s known seen (ground (arith, e, h)) n)
  ]

  pub end_of_queue : (seen : List ℕ) → Visited [] seen [] seen
  end_of_queue seen = record {
    files = λ x h. cc;
    no_dist = λ x h. cc;
    fresh = λ x h. cc;
    distinct = tt;
    covers_out = λ x h. cc;
    covers_seen = λ x h. h;
    covers_sinks = λ x h. cc;
    covers_inner = λ x more h n e. cc;
    covers_files = λ x h n e f. cc;
  }

  -- The sink was seen before.
  pub seen_again :
      (s : ℕ) (sinks seen out all : List ℕ)
      → has s seen ≡ true
      → Visited sinks seen out all
      → Visited (s ∷ sinks) seen out all
  seen_again s sinks seen out all e v = record {
    files = v.files;
    no_dist = v.no_dist;
    fresh = v.fresh;
    distinct = v.distinct;
    covers_out = v.covers_out;
    covers_seen = v.covers_seen;
    covers_sinks = λ x h. elim (Bool-cases (x == s)) [
      | inl q ↦
          let same : s ≡ x = ground (arith, q) in
          v.covers_seen x (ap (λ y. has y seen) (sym same) ∙ e)
      | inr q ↦ v.covers_sinks x (ground (arith, q, h))
    ];
    covers_inner = v.covers_inner;
    covers_files = v.covers_files;
  }

  not_in_cons :
      (x s : ℕ) (seen : List ℕ) → (x == s) ≡ false → has x seen ≡ false → has x (s ∷ seen) ≡ false
  not_in_cons x s seen a b = rw (a, b) refl

  -- A new sink, whatever it is.
  pub through_inner :
      (s : ℕ) (sinks seen out all more : List ℕ)
      → inner s ≡ some more
      → Visited (sinks ++ more) (s ∷ seen) out all
      → Visited (s ∷ sinks) seen out all
  through_inner s sinks seen out all more e v = record {
    files = v.files;
    no_dist = v.no_dist;
    fresh = λ x h. ground (arith, v.fresh x h);
    distinct = v.distinct;
    covers_out = v.covers_out;
    covers_seen = λ x h. v.covers_seen x (ground (arith, h));
    covers_sinks = λ x h. elim (Bool-cases (x == s)) [
      | inl q ↦ v.covers_seen x (ground (arith, q))
      | inr q ↦ v.covers_sinks x (ground (arith, q, h, has-append x sinks more))
    ];
    covers_inner = λ x ms h n f. elim (Bool-cases (x == s)) [
      | inl q ↦
          let same : x ≡ s = ground (arith, q) in
          let it : ms ≡ more = some-injective ms more (sym f ∙ ap inner same ∙ e) in
          λ y m. v.covers_sinks y (ground (arith, has-append y sinks more, sym (ap (has y) it) ∙ m))
      | inr q ↦ v.covers_inner x ms h (not_in_cons x s seen q n) f
    ];
    covers_files = λ x h n f g. elim (Bool-cases (x == s)) [
      | inl q ↦
          let same : x ≡ s = ground (arith, q) in
          let both : none ≡ some more = sym f ∙ ap inner same ∙ e in cc
      | inr q ↦ v.covers_files x h (not_in_cons x s seen q n) f g
    ];
  }

  -- A sink that holds no others and is no file.
  pub past_other :
      (s : ℕ) (sinks seen out all : List ℕ)
      → inner s ≡ none
      → is_file s ≡ false
      → Visited sinks (s ∷ seen) out all
      → Visited (s ∷ sinks) seen out all
  past_other s sinks seen out all e nofile v = record {
    files = v.files;
    no_dist = v.no_dist;
    fresh = λ x h. ground (arith, v.fresh x h);
    distinct = v.distinct;
    covers_out = v.covers_out;
    covers_seen = λ x h. v.covers_seen x (ground (arith, h));
    covers_sinks = λ x h. elim (Bool-cases (x == s)) [
      | inl q ↦ v.covers_seen x (ground (arith, q))
      | inr q ↦ v.covers_sinks x (ground (arith, q, h))
    ];
    covers_inner = λ x ms h n f. elim (Bool-cases (x == s)) [
      | inl q ↦
          let same : x ≡ s = ground (arith, q) in
          let both : some ms ≡ none = sym f ∙ ap inner same ∙ e in cc
      | inr q ↦ v.covers_inner x ms h (not_in_cons x s seen q n) f
    ];
    covers_files = λ x h n f g. elim (Bool-cases (x == s)) [
      | inl q ↦
          let same : x ≡ s = ground (arith, q) in
          let both : true ≡ false = sym g ∙ ap is_file same ∙ nofile in cc
      | inr q ↦ v.covers_files x h (not_in_cons x s seen q n) f g
    ];
  }

  -- A file.
  pub at_file :
      (s : ℕ) (sinks seen out all : List ℕ)
      → has s seen ≡ false
      → inner s ≡ none
      → is_file s ≡ true
      → Visited sinks (s ∷ seen) out all
      → Visited (s ∷ sinks) seen (s ∷ out) all
  at_file s sinks seen out all new e file v = record {
    files = λ x h. at_head x h (λ y. is_file y ≡ true) file (v.files x);
    no_dist = λ x h. at_head x h (λ y. inner y ≡ none) e (v.no_dist x);
    fresh = λ x h. at_head x h (λ y. has y seen ≡ false) new (λ m. ground (arith, v.fresh x m));
    distinct = (s_fresh (has s out) refl, v.distinct);
    covers_out = λ x h.
        at_head x h (λ y. has y all ≡ true) (v.covers_seen s (ground arith)) (v.covers_out x);
    covers_seen = λ x h. v.covers_seen x (ground (arith, h));
    covers_sinks = λ x h. elim (Bool-cases (x == s)) [
      | inl q ↦ v.covers_seen x (ground (arith, q))
      | inr q ↦ v.covers_sinks x (ground (arith, q, h))
    ];
    covers_inner = λ x ms h n f. elim (Bool-cases (x == s)) [
      | inl q ↦
          let same : x ≡ s = ground (arith, q) in
          let both : some ms ≡ none = sym f ∙ ap inner same ∙ e in cc
      | inr q ↦ v.covers_inner x ms h (not_in_cons x s seen q n) f
    ];
    covers_files = λ x h n f g. elim (Bool-cases (x == s)) [
      | inl q ↦ ground (arith, q)
      | inr q ↦ ground (arith, q, v.covers_files x h (not_in_cons x s seen q n) f g)
    ];
  }
    where
      at_head :
          (x : ℕ) → has x (s ∷ out) ≡ true → (P : ℕ → Type 0) → P s → (has x out ≡ true → P x) → P x
      at_head x h P at_s there = elim (Bool-cases (x == s)) [
        | inl q ↦ let same : s ≡ x = ground (arith, q) in subst P same at_s
        | inr q ↦ there (ground (arith, q, h))
      ]

      s_fresh : (b : Bool) → has s out ≡ b → has s out ≡ false
      s_fresh true h = ground (arith, v.fresh s h)
      s_fresh false h = h
