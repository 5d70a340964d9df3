-- ===== src/Logging/Reopen.antt =====
-- ServiceImpl::reopen_all: a search through the sinks of all loggers and the sinks inside of
-- distribution sinks. A sink is its address; `inner` are the sinks of a distribution sink, and
-- `is_file` says whether another sink is a log file.
pub mod Seen
pub mod Visits
use ts_sem.Prelude.{
  ℕ, zero, suc, ◌+◌, Bool, true, false, ◌||◌, Option, none, some, List, [], ◌∷◌, ◌++◌, ◌==◌,
  if◌then◌else◌, length,
}

abbrev pub has : ℕ → List ℕ → Bool
has x [] = false
has x (y ∷ ys) = (x == y) || has x ys

abbrev pub also : ℕ → Option (List ℕ) → Option (List ℕ)
also x none = none
also x (some xs) = some (x ∷ xs)

module _ (inner : ℕ → Option (List ℕ)) (is_file : ℕ → Bool) where
  -- A sink that is seen for the first time; `go` is the rest of the loop.
  pub first_visit : ℕ → List ℕ → List ℕ → (List ℕ → List ℕ → Option (List ℕ)) → Option (List ℕ)
  first_visit s sinks seen go = elim (inner s) [
    | some more ↦ go (sinks ++ more) (s ∷ seen)
    | none ↦ if is_file s then also s (go sinks (s ∷ seen)) else go sinks (s ∷ seen)
  ]

  -- The files that are reopened, in order; `none` stands for fuel that is used up.
  pub reopen_loop : ℕ → List ℕ → List ℕ → Option (List ℕ)
  unfolding first_visit
  reopen_loop zero sinks seen = none
  reopen_loop (suc fuel) [] seen = some []
  reopen_loop (suc fuel) (s ∷ sinks) seen =
      if has s seen
      then reopen_loop fuel sinks seen
      else first_visit s sinks seen (reopen_loop fuel)

  abbrev pub inner_count : Option (List ℕ) → ℕ
  inner_count none = 0
  inner_count (some more) = length more

  -- How many sinks the sinks of a list hold that are not seen.
  abbrev pub unseen_count : List ℕ → List ℕ → ℕ
  unseen_count [] seen = 0
  unseen_count (x ∷ xs) seen =
      (if has x seen then 0 else inner_count (inner x)) + unseen_count xs seen

  -- `known` are the sinks that there are. A sink is put into the queue at the start, or by the first
  -- visit of the sink that holds it.
  pub reopen_all : List ℕ → List ℕ → Option (List ℕ)
  unfolding reopen_loop
  reopen_all known sinks = reopen_loop (suc (length sinks + unseen_count known [])) sinks []
