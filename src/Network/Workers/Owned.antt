-- ===== src/Network/Workers/Owned.antt =====
-- A connection has one owner, and is not used when it is deleted.
use ts_sem.Prelude.{
  ℕ, ◌+◌, ◌-◌, ◌≤◌, ◌<◌, ◌≡◌, refl, sym, ap, ◌∙◌, true, false, List, [], ◌∷◌, ◌==◌, Bool-cases, inl,
  inr, arith,
}
use ts_sem.Network.Workers.{
  Shared, no_clients, count, erase, create, deliver, finish, forget, Move, creates, delivers,
  finishes, forgets, Moves, none, more,
}

count-erase : (x : ℕ) (ys : List ℕ) → count x (erase x ys) ≡ count x ys - 1
unfolding erase
count-erase x [] = refl
count-erase x (y ∷ ys) = ground (arith, count-erase x ys)

count-erase_other : (x y : ℕ) (zs : List ℕ) → (x == y) ≡ false → count x (erase y zs) ≡ count x zs
unfolding erase
count-erase_other x y [] n = refl
count-erase_other x y (z ∷ zs) n = ground (arith, count-erase_other x y zs n, n)

count_same : (y x : ℕ) (zs : List ℕ) → (y == x) ≡ true → count y zs ≡ count x zs
count_same y x zs e = let same : y ≡ x = ground (arith, e) in ap (λ z. count z zs) same

erase_same : (y x : ℕ) (zs : List ℕ) → (y == x) ≡ true → count y (erase x zs) ≡ count y zs - 1
erase_same y x zs e =
    let same : y ≡ x = ground (arith, e) in
    ap (λ z. count y (erase z zs)) (sym same) ∙ count-erase y zs

-- An allocated connection is in epoll or at one thread, once.
abbrev pub AreOwned : Shared → Type 0
AreOwned g = (x : ℕ) → (count x g.armed + count x g.held ≡ count x g.live) × (count x g.live ≤ 1)

Move-AreOwned : (g h : Shared) → AreOwned g → Move g h → AreOwned h
unfolding create deliver finish forget
Move-AreOwned g _ o (creates x _ new) = λ y. elim (Bool-cases (y == x)) [
  | inl e ↦
      let same : y ≡ x = ground (arith, e) in
      let free : count y g.live ≡ 0 = ap (λ z. count z g.live) same ∙ new in
      rw e (omega (arith, (o y).0, free), omega (arith, free))
  | inr e ↦ rw e (o y)
]
Move-AreOwned g _ o (delivers x n _ is_armed) = λ y. elim (Bool-cases (y == x)) [
  | inl e ↦
      rw (e, erase_same y x g.armed e)
        (omega (arith, (o y).0, count_same y x g.armed e, is_armed), (o y).1)
  | inr e ↦ rw (e, count-erase_other y x g.armed e) (o y)
]
Move-AreOwned g _ o (finishes x n true _ at_thread) = λ y. elim (Bool-cases (y == x)) [
  | inl e ↦
      rw (e, erase_same y x g.held e)
        (omega (arith, (o y).0, count_same y x g.held e, at_thread), (o y).1)
  | inr e ↦ rw (e, count-erase_other y x g.held e) (o y)
]
Move-AreOwned g _ o (finishes x n false _ at_thread) = λ y. elim (Bool-cases (y == x)) [
  | inl e ↦
      rw (erase_same y x g.held e, erase_same y x g.live e)
        (
          omega (arith, (o y).0, (o y).1, count_same y x g.held e, at_thread),
          omega (arith, (o y).1),
        )
  | inr e ↦ rw (count-erase_other y x g.held e, count-erase_other y x g.live e) (o y)
]
Move-AreOwned g _ o (forgets x n _ is_freed) = o

Moves-AreOwned : (g h : Shared) → AreOwned g → Moves g h → AreOwned h
Moves-AreOwned g _ o (none _) = o
Moves-AreOwned g h o (more _ m _ steps last) = Move-AreOwned m h (Moves-AreOwned g m o steps) last

-- Whatever acceptors and workers do, in any order, from a server without clients, where `new` gives
-- an address at which no connection is allocated, a freed one perhaps that is not yet erased from
-- `conns`: a connection that epoll may report or that a thread is at is in one of these places
-- only, once, and is allocated.
pub held_once :
    (g : Shared) (x : ℕ)
    → Moves no_clients g
    → 0 < count x g.armed + count x g.held
    → (count x g.armed + count x g.held ≡ 1) × (count x g.live ≡ 1)
unfolding no_clients
held_once g x steps used =
    let (owned, one) = Moves-AreOwned no_clients g (λ y. (refl, omega arith)) steps x in
    (omega (arith, owned, one, used), omega (arith, owned, one, used))
