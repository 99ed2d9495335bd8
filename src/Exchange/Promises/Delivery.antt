-- ===== src/Exchange/Promises/Delivery.antt =====
-- What a promise exchange delivers: the n-th take's promise is settled with the n-th object given.
use native.Mathlib.Nat.{zero-add}
use native.Mathlib.Numerals.{add-one}
use interop.Base.{
  ℕ, zero, suc, ◌+◌, ◌≡◌, refl, List, [], ◌∷◌, ◌++◌, length, none, some, get_elem?, arith,
  length-append, if◌then◌else◌, ◌==◌, append_assoc, ◌∙◌, append-nil,
}
use mathlib.Core.Option
use interop.Promise.{Outcome, fulfilled, settle, outcome_of, new_promise, outcome_of-settle}
use interop.Exchange.Fifo
use interop.Exchange.Fifo.{IsAhead, item, Call}
use interop.Exchange.Promises.{PromiseExchange, create_promise_exchange, give, take}

pub data Op (T : Type 0) : Type 0 where
  gives : T → Op T
  takes : Op T

module _ {T E : Type 0} where
  -- The promises that the takes among the calls return, and the exchange that the calls leave.
  pub run : List (Op T) → PromiseExchange T E → List ℕ × PromiseExchange T E
  run [] x = ([], x)
  run (gives obj ∷ ops) x = run ops (give obj x)
  run (takes ∷ ops) x = let r = take x in let rs = run ops r.1 in (r.0 ∷ rs.0, rs.1)

module _ {T : Type 0} where
  unfoldable pub objects : List (Op T) → List T
  objects [] = []
  objects (gives obj ∷ ops) = obj ∷ objects ops
  objects (takes ∷ ops) = objects ops

  -- The takes of the calls are numbered from `t`.
  unfoldable pub promises : ℕ → List (Op T) → List ℕ
  promises t [] = []
  promises t (gives obj ∷ ops) = promises t ops
  promises t (takes ∷ ops) = t ∷ promises (suc t) ops

item-new_promise : (s n : ℕ) → item new_promise s n ≡ s + n
unfolding item
item-new_promise s zero = omega arith
item-new_promise s (suc n) = omega (arith, item-new_promise (suc s) n)

get_elem?-snoc {ℓ} :
    {A : Type ℓ} (xs : List A) (y : A) (n : ℕ)
    → get_elem? (xs ++ y ∷ []) n ≡ (if length xs == n then some y else get_elem? xs n)
get_elem?-snoc [] y zero = refl
get_elem?-snoc [] y (suc n) = ground arith
get_elem?-snoc (x ∷ xs) y zero = ground arith
get_elem?-snoc (x ∷ xs) y (suc n) = ground (arith, get_elem?-snoc xs y n)

get_elem?-past {ℓ} : {A : Type ℓ} (xs : List A) → get_elem? xs (length xs) ≡ none
get_elem?-past [] = refl
get_elem?-past (x ∷ xs) = get_elem?-past xs

module _ {T E : Type 0} where
  -- After `t` takes and the objects `given`: the exchange stands between the counters, and exactly
  -- the promises of the objects are settled.
  pub record Delivers (x : PromiseExchange T E) (t : ℕ) (given : List T) : Type 0 where
    pub ahead : IsAhead new_promise 0 x.exchange t (length given)
    pub settled : (n : ℕ) → outcome_of n x.outcomes ≡ Option.map fulfilled (get_elem? given n)

  pub create-Delivers : Delivers create_promise_exchange 0 []
  unfolding create_promise_exchange outcome_of
  create-Delivers = record { ahead = Fifo.new_IsAhead new_promise 0; settled = λ n. refl }

  settle-Delivers :
      (p n : ℕ) (given : List T) (obj : T) (outcomes : List (ℕ × Outcome T E))
      → p ≡ length given
      → ((m : ℕ) → outcome_of m outcomes ≡ Option.map fulfilled (get_elem? given m))
      → outcome_of n (settle p (fulfilled obj) outcomes)
        ≡ Option.map fulfilled (get_elem? (given ++ obj ∷ []) n)
  settle-Delivers p n given obj outcomes e h =
      rw
        (e, outcome_of-settle (length given) n (fulfilled obj) outcomes, get_elem?-snoc given obj n)
        (rw (h (length given), get_elem?-past given) (ground (arith, h n)))

  pub give-Delivers :
      (x : PromiseExchange T E) (t : ℕ) (given : List T) (obj : T)
      → Delivers x t given
      → Delivers (give obj x) t (given ++ obj ∷ [])
  unfolding give
  give-Delivers x t given obj d =
      let now = Fifo.step_gives new_promise 0 x.exchange t (length given) d.ahead in
      record {
        ahead = rw (length-append given (obj ∷ []), add-one (length given)) now.1;
        settled = λ n.
            settle-Delivers _ n given obj x.outcomes
              (now.0 ∙ item-new_promise 0 (length given) ∙ zero-add _) d.settled;
      }

  pub take-Delivers :
      (x : PromiseExchange T E) (t : ℕ) (given : List T)
      → Delivers x t given
      → ((take x).0 ≡ t) × Delivers (take x).1 (suc t) given
  unfolding take
  take-Delivers x t given d =
      let now = Fifo.step_takes new_promise 0 x.exchange t (length given) d.ahead in
      (now.0 ∙ item-new_promise 0 t ∙ zero-add t, record { ahead = now.1; settled = d.settled })

  run-Delivers :
      (ops : List (Op T)) (x : PromiseExchange T E) (t : ℕ) (given : List T)
      → Delivers x t given
      → ((run ops x).0 ≡ promises t ops)
        × ((n : ℕ)
            → outcome_of n (run ops x).1.outcomes
              ≡ Option.map fulfilled (get_elem? (given ++ objects ops) n))
  unfolding run promises objects
  run-Delivers [] x t given d = (refl, rw (append-nil given) d.settled)
  run-Delivers (gives obj ∷ ops) x t given d =
      rw (← append_assoc given (obj ∷ []) (objects ops))
        (run-Delivers ops (give obj x) t (given ++ obj ∷ []) (give-Delivers x t given obj d))
  run-Delivers (takes ∷ ops) x t given d =
      let (p, d') = take-Delivers x t given d in
      let (ps, os) = run-Delivers ops (take x).1 (suc t) given d' in (rw (p, ps), os)

  -- Whatever the order of the calls on a promise exchange: the n-th take returns promise n, and
  -- promise n is settled exactly when an n-th object has been given, with that object.
  pub run-delivery :
      (ops : List (Op T))
      → ((run {E = E} ops create_promise_exchange).0 ≡ promises 0 ops)
        × ((n : ℕ)
            → outcome_of n (run {E = E} ops create_promise_exchange).1.outcomes
              ≡ Option.map fulfilled (get_elem? (objects ops) n))
  run-delivery ops = run-Delivers ops create_promise_exchange 0 [] create-Delivers
