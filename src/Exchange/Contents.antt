-- ===== src/Exchange/Contents.antt =====
-- What `given` and `taken` of js/src/Exchange/Exchange.ts show after any calls.
use interop.Base.{ℕ, zero, suc, ◌+◌, ◌≡◌, refl, List, [], ◌∷◌, drop}
use native.Mathlib.Nat.{zero-add, add-zero, add-suc, suc-add}
use interop.Exchange.{Exchange, new_exchange, take, give, taken, given}
use interop.Exchange.Fifo.{
  Call, takes, gives, takes_in, gives_in, run, items, advance, IsAhead, of_gives, of_takes, ahead,
  step_takes, step_gives, new_IsAhead,
}

module _ {T S : Type 0} (factory : S → T × S) where
  run_IsAhead :
      (s : S) (x : Exchange T S) (cs : List Call) (t g : ℕ)
      → IsAhead factory s x t g
      → IsAhead factory s (run factory cs x).1 (t + takes_in cs) (g + gives_in cs)
  unfolding run takes_in gives_in
  run_IsAhead s x [] t g h = rw (add-zero t, add-zero g) h
  run_IsAhead s x (takes ∷ cs) t g h =
      let more = run_IsAhead s (take factory x).1 cs (suc t) g (step_takes factory s x t g h).1 in
      rw (add-suc t (takes_in cs), ← suc-add t (takes_in cs)) more
  run_IsAhead s x (gives ∷ cs) t g h =
      let more = run_IsAhead s (give factory x).1 cs t (suc g) (step_gives factory s x t g h).1 in
      rw (add-suc g (gives_in cs), ← suc-add g (gives_in cs)) more

  drop-items :
      (s : S) (m n : ℕ) → drop m (items factory s (m + n)) ≡ items factory (advance factory s m) n
  unfolding items advance
  drop-items s zero n = rw (zero-add n)
  drop-items s (suc m) n = rw (suc-add m n) (drop-items (factory s).1 m n)

  drop_nil : (n : ℕ) → drop {A = T} n [] ≡ []
  drop_nil zero = refl
  drop_nil (suc n) = refl

  drop-items_all : (s : S) (m n : ℕ) → drop (m + n) (items factory s m) ≡ []
  unfolding items
  drop-items_all s zero n = rw (zero-add n) (drop_nil n)
  drop-items_all s (suc m) n = rw (suc-add m n) (drop-items_all (factory s).1 m n)

  given-IsAhead :
      (s : S) (x : Exchange T S) (t g : ℕ)
      → IsAhead factory s x t g
      → given x ≡ drop t (items factory s g)
  unfolding given ahead
  given-IsAhead s x t g (of_gives n e a) = rw (a, e, drop-items s t n)
  given-IsAhead s x t g (of_takes n e a) = rw (a, e, drop-items_all s g n)

  pub taken-IsAhead :
      (s : S) (x : Exchange T S) (t g : ℕ)
      → IsAhead factory s x t g
      → taken x ≡ drop g (items factory s t)
  unfolding taken ahead
  taken-IsAhead s x t g (of_gives n e a) = rw (a, e, drop-items_all s t n)
  taken-IsAhead s x t g (of_takes n e a) = rw (a, e, drop-items s g n)

  -- After any calls, given shows the items given and not taken yet, and taken those taken and not
  -- given yet, oldest first.
  pub given-taken-run :
      (s : S) (cs : List Call)
      → let x = (run factory cs (new_exchange factory s)).1 in
        (given x ≡ drop (takes_in cs) (items factory s (gives_in cs)))
        × (taken x ≡ drop (gives_in cs) (items factory s (takes_in cs)))
  given-taken-run s cs =
      let h : IsAhead factory s (run factory cs (new_exchange factory s)).1 (takes_in cs)
          (gives_in cs) =
        rw (zero-add (takes_in cs), zero-add (gives_in cs)) at
          (run_IsAhead s _ cs 0 0 (new_IsAhead factory s)) in
      (given-IsAhead s _ _ _ h, taken-IsAhead s _ _ _ h)
