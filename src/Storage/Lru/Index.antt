-- ===== src/Storage/Lru/Index.antt =====
-- `_lru_index`, a std::map from keys to nodes, as an association list. The order of its entries is
-- never read. A key is a reference to the key of its node, which is `const`, so the entry holds a copy.
use ts_sem.Prelude.{ℕ, ◌≡◌, refl, Option, none, some, List, [], ◌∷◌, if◌then◌else◌, arith}
use ts_sem.Prelude.Bytes.{Bytes, bytes_eq, eq_of_bytes_eq}

unfoldable pub find : Bytes → List (Bytes × ℕ) → Option ℕ
find k [] = none
find k ((j, p) ∷ m) = if bytes_eq j k then some p else find k m

pub erase : Bytes → List (Bytes × ℕ) → List (Bytes × ℕ)
erase k [] = []
erase k ((j, p) ∷ m) = if bytes_eq j k then erase k m else (j, p) ∷ erase k m

-- `emplace` does nothing where the key is present.
pub emplace : Bytes → ℕ → List (Bytes × ℕ) → List (Bytes × ℕ)
unfolding find
emplace k p m = elim (find k m) [ none ↦ (k, p) ∷ m | some _ ↦ m ]

pub find-nil : (k : Bytes) → find k [] ≡ none
unfolding find
find-nil k = refl

pub find-erase :
    (k j : Bytes) (m : List (Bytes × ℕ))
    → find k (erase j m) ≡ (if bytes_eq j k then none else find k m)
unfolding find erase
find-erase k j [] = ground arith
find-erase k j ((i, p) ∷ m) =
    ground (arith, find-erase k j m, eq_of_bytes_eq i j, eq_of_bytes_eq i k, eq_of_bytes_eq j k)

-- Where the key is new, `emplace` adds its entry and no other.
pub find-emplace :
    (k j : Bytes) (p : ℕ) (m : List (Bytes × ℕ))
    → find j m ≡ none
    → find k (emplace j p m) ≡ (if bytes_eq j k then some p else find k m)
unfolding emplace find
find-emplace k j p m h = ground arith
