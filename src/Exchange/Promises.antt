-- ===== src/Exchange/Promises.antt =====
-- js/src/Exchange/PromiseExchange.ts: an exchange of promises. `give` settles the promise that its
-- side of the exchange hands it, `take` returns one.
pub mod Delivery
use interop.Base.{
  ℕ, zero, suc, ◌≡◌, refl, List, [], ◌∷◌, ◌++◌, length, Option, none, some, get_elem?,
}
use interop.Exchange
use interop.Exchange.{Exchange}
use interop.Promise.{Outcome, fulfilled, rejected, settle, outcome_of, new_promise}

pub record PromiseExchange (T E : Type 0) : Type 0 where
  pub exchange : Exchange ℕ ℕ
  pub outcomes : List (ℕ × Outcome T E)

module _ {T E : Type 0} where
  unfoldable pub create_promise_exchange : PromiseExchange T E
  create_promise_exchange = record { exchange = Exchange.new_exchange new_promise 0; outcomes = [] }

  unfoldable pub give : T → PromiseExchange T E → PromiseExchange T E
  give obj x =
      let (p, exchange) = Exchange.give new_promise x.exchange in
      record { exchange = exchange; outcomes = settle p (fulfilled obj) x.outcomes }

  unfoldable pub take : PromiseExchange T E → ℕ × PromiseExchange T E
  take x =
      let (p, exchange) = Exchange.take new_promise x.exchange in
      (p, record x { exchange = exchange })

  -- `taken().forEach(t => t.reject(error))`, as js/src/createWebSocketConn.ts calls it.
  unfoldable pub reject_each : E → List ℕ → List (ℕ × Outcome T E) → List (ℕ × Outcome T E)
  reject_each error [] outcomes = outcomes
  reject_each error (p ∷ ps) outcomes = reject_each error ps (settle p (rejected error) outcomes)

  unfoldable pub reject_taken : E → PromiseExchange T E → PromiseExchange T E
  unfolding reject_each
  reject_taken error x = record x {
    outcomes = reject_each error (Exchange.taken x.exchange) x.outcomes;
  }
