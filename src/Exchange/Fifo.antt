-- ===== src/Exchange/Fifo.antt =====
-- js/src/Exchange/Exchange.ts against its specification: whatever the order of the calls, the n-th
-- take and the n-th give get the n-th item of the factory.
use interop.Base.{
  ℕ, zero, suc, ◌+◌, ◌≡◌, refl, ap, Bool, true, false, not, List, [], ◌∷◌, ◌++◌, arith,
}
use native.Mathlib.Nat.{zero-add, suc-add}
use interop.Exchange.{Exchange, new_exchange, set, take, give}

-- A call of either side.
pub data Call : Type 0 where
  takes gives : Call

unfoldable pub takes_in : List Call → ℕ
takes_in [] = 0
takes_in (takes ∷ cs) = suc (takes_in cs)
takes_in (gives ∷ cs) = takes_in cs

unfoldable pub gives_in : List Call → ℕ
gives_in [] = 0
gives_in (takes ∷ cs) = gives_in cs
gives_in (gives ∷ cs) = suc (gives_in cs)

module _ {T S : Type 0} (factory : S → T × S) where
  unfoldable pub step : Call → Exchange T S → T × Exchange T S
  unfolding take give
  step takes = take factory
  step gives = give factory

  -- The results of calls in a row, and the exchange that they leave.
  unfoldable pub run : List Call → Exchange T S → List T × Exchange T S
  unfolding step
  run [] x = ([], x)
  run (c ∷ cs) x = let r = step c x in let rs = run cs r.1 in (r.0 ∷ rs.0, rs.1)

  -- The factory's n-th item, counted from a state of it.
  unfoldable pub item : S → ℕ → T
  item s zero = (factory s).0
  item s (suc n) = item (factory s).1 n

  -- The specification: two counters, and no buffer.
  unfoldable pub pairing : S → List Call → ℕ → ℕ → List T
  unfolding item
  pairing s [] t g = []
  pairing s (takes ∷ cs) t g = item s t ∷ pairing s cs (suc t) g
  pairing s (gives ∷ cs) t g = item s g ∷ pairing s cs t (suc g)

  unfoldable pub advance : S → ℕ → S
  advance s zero = s
  advance s (suc n) = advance (factory s).1 n

  unfoldable pub items : S → ℕ → List T
  items s zero = []
  items s (suc n) = (factory s).0 ∷ items (factory s).1 n

  advance-item : (s : S) (n : ℕ) → factory (advance s n) ≡ (item s n, advance s (suc n))
  unfolding advance item
  advance-item s zero = refl
  advance-item s (suc n) = advance-item (factory s).1 n

  items-snoc : (s : S) (n : ℕ) → items s n ++ item s n ∷ [] ≡ items s (suc n)
  unfolding items item
  items-snoc s zero = refl
  items-snoc s (suc n) = ap (◌∷◌ (factory s).0) (items-snoc (factory s).1 n)

  -- `side` is ahead by `n` calls, and `s` is the factory's state before the first of them.
  unfoldable pub ahead : Bool → S → ℕ → Exchange T S
  unfolding items advance
  ahead ahead_of s n = record { buffer = items s n; side = ahead_of; source = advance s n }

  item-advance : (s : S) (m n : ℕ) → item (advance s m) n ≡ item s (m + n)
  unfolding item advance
  item-advance s zero n = rw (zero-add n)
  item-advance s (suc m) n = rw (suc-add m n) (item-advance (factory s).1 m n)

  advance-suc : (s : S) (m : ℕ) → advance (advance s m) 1 ≡ advance s (suc m)
  unfolding advance
  advance-suc s zero = refl
  advance-suc s (suc m) = advance-suc (factory s).1 m

  -- The side that is ahead gets a new item.
  set_ahead :
      (b : Bool) (s : S) (n : ℕ)
      → set factory b (ahead (not b) s n) ≡ (item s n, ahead (not b) s (suc n))
  unfolding set ahead item
  set_ahead true s zero = refl
  set_ahead false s zero = refl
  set_ahead true s (suc n) = rw (advance-item s (suc n)) (rw (← items-snoc s (suc n)))
  set_ahead false s (suc n) = rw (advance-item s (suc n)) (rw (← items-snoc s (suc n)))

  -- The side that is behind gets the oldest item; with none left it comes ahead.
  set_behind :
      (b : Bool) (s : S) (n : ℕ)
      → set factory b (ahead b s (suc n)) ≡ (item s 0, ahead b (advance s 1) n)
  unfolding set ahead item advance items
  set_behind true s n = refl
  set_behind false s n = refl

  set_level : (b : Bool) (s : S) → set factory b (ahead b s 0) ≡ (item s 0, ahead (not b) s 1)
  unfolding set ahead item advance items
  set_level b s = refl

  -- After `t` takes and `g` gives, the side with more calls is ahead by the difference.
  pub data IsAhead (s : S) (x : Exchange T S) (t g : ℕ) : Type 0 where
    of_gives : (n : ℕ) → g ≡ t + n → x ≡ ahead true (advance s t) n → IsAhead s x t g
    of_takes : (n : ℕ) → t ≡ g + n → x ≡ ahead false (advance s g) n → IsAhead s x t g

  -- What a call does to exchange `x`: its result, and the counters after it.
  abbrev pub Counted : S → ℕ → ℕ → T × Exchange T S → T → Type 0
  Counted s t g r n = (r.0 ≡ n) × IsAhead s r.1 t g

  pub step_takes :
      (s : S) (x : Exchange T S) (t g : ℕ)
      → IsAhead s x t g
      → Counted s (suc t) g (take factory x) (item s t)
  unfolding take
  step_takes s x t g (of_gives zero e a) =
      rw (a, set_level true (advance s t), item-advance s t 0)
        (ground arith, of_takes 1 (omega arith) (rw (show)))
    where
      show : t ≡ g
      show = omega arith
  step_takes s x t g (of_gives (suc n) e a) =
      rw (a, set_behind true (advance s t) n, item-advance s t 0, advance-suc s t)
        (ground arith, of_gives n (omega arith) refl)
  step_takes s x t g (of_takes n e a) =
      rw (a, set_ahead true (advance s g) n, item-advance s g n)
        (ground arith, of_takes (suc n) (omega arith) refl)

  pub step_gives :
      (s : S) (x : Exchange T S) (t g : ℕ)
      → IsAhead s x t g
      → Counted s t (suc g) (give factory x) (item s g)
  unfolding give
  step_gives s x t g (of_takes zero e a) =
      rw (a, set_level false (advance s g), item-advance s g 0)
        (ground arith, of_gives 1 (omega arith) (rw (show)))
    where
      show : g ≡ t
      show = omega arith
  step_gives s x t g (of_takes (suc n) e a) =
      rw (a, set_behind false (advance s g) n, item-advance s g 0, advance-suc s g)
        (ground arith, of_takes n (omega arith) refl)
  step_gives s x t g (of_gives n e a) =
      rw (a, set_ahead false (advance s t) n, item-advance s t n)
        (ground arith, of_gives (suc n) (omega arith) refl)

  pub new_IsAhead : (s : S) → IsAhead s (new_exchange factory s) 0 0
  unfolding new_exchange ahead items advance
  new_IsAhead s = of_takes 0 (omega arith) refl

  run-pairing_from :
      (s : S) (x : Exchange T S) (cs : List Call) (t g : ℕ)
      → IsAhead s x t g
      → (run cs x).0 ≡ pairing s cs t g
  unfolding run pairing
  run-pairing_from s x [] t g h = refl
  run-pairing_from s x (takes ∷ cs) t g h =
      let now = step_takes s x t g h in
      rw (now.0, run-pairing_from s (take factory x).1 cs (suc t) g now.1)
  run-pairing_from s x (gives ∷ cs) t g h =
      let now = step_gives s x t g h in
      rw (now.0, run-pairing_from s (give factory x).1 cs t (suc g) now.1)

  -- Whatever the order of the calls on an exchange, the n-th take and the n-th give both get the
  -- n-th item that the factory makes.
  pub run-pairing :
      (s : S) (cs : List Call) → (run cs (new_exchange factory s)).0 ≡ pairing s cs 0 0
  run-pairing s cs = run-pairing_from s _ cs 0 0 (new_IsAhead s)
