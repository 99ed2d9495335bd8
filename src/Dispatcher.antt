-- ===== src/Dispatcher.antt =====
-- js/src/Dispatcher/createDecodingDispatcher.ts: routes in order of subscription, of which a dispatch
-- takes the first that matches. A route object is known by its identity, a number that `handle` makes
-- afresh. A matcher is taken to be a function of the message; a handler's call has a result of the
-- type R, in which a caller reads what the handler does.
pub mod Routes
mod Tests
use interop.Base.{
  ℕ, suc, Bool, true, false, List, [], ◌∷◌, ◌++◌, ◌==◌, if◌then◌else◌, Option, none, some,
}
use interop.Headers.{Headers}
use interop.Message.{Message}

-- The value that an asynchronous decoder resolves to, or the error that it throws.
pub data Decoded (V E : Type 0) : Type 0 where
  decoded : V → Decoded V E
  failed : E → Decoded V E

pub record Route (V R : Type 0) : Type 0 where
  pub id : ℕ
  pub matcher : Message → Bool
  pub handler : V → Headers → R

pub record Dispatcher (V R : Type 0) : Type 0 where
  pub routes : List (Route V R)
  pub next_id : ℕ

pub data Dispatched (R E : Type 0) : Type 0 where
  ignored : Dispatched R E
  handled : R → Dispatched R E
  threw : E → Dispatched R E

module _ {V R : Type 0} where
  unfoldable pub create_decoding_dispatcher : Dispatcher V R
  create_decoding_dispatcher = record { routes = []; next_id = 0 }

  -- `handle` returns the route that its unsubscriber holds.
  unfoldable pub handle : (Message → Bool) → (V → Headers → R) → Dispatcher V R → ℕ × Dispatcher V R
  handle matcher handler d =
      let route : Route V R = record { id = d.next_id; matcher = matcher; handler = handler } in
      (d.next_id, record { routes = d.routes ++ route ∷ []; next_id = suc d.next_id })

  -- `indexOf(route) !== -1`
  unfoldable pub subscribed : ℕ → List (Route V R) → Bool
  subscribed id [] = false
  subscribed id (r ∷ rs) = if r.id == id then true else subscribed id rs

  unfoldable pub remove_route : ℕ → List (Route V R) → List (Route V R)
  remove_route id [] = []
  remove_route id (r ∷ rs) = if r.id == id then rs else r ∷ remove_route id rs

  -- `splice(-1, 1)`
  unfoldable pub remove_last : List (Route V R) → List (Route V R)
  remove_last [] = []
  remove_last (r ∷ []) = []
  remove_last (r ∷ s ∷ rs) = r ∷ remove_last (s ∷ rs)

  -- `routes.splice(routes.indexOf(route), 1)`, where `indexOf` is -1 for a route that is gone.
  unfoldable pub unsubscribe : ℕ → Dispatcher V R → Dispatcher V R
  unsubscribe id d = record d {
    routes = if subscribed id d.routes then remove_route id d.routes else remove_last d.routes;
  }

  abbrev pub call : {E : Type 0} → Message → (V → Headers → R) → Decoded V E → Dispatched R E
  call message handler (decoded event) = handled (handler event message.headers)
  call message handler (failed e) = threw e

  unfoldable pub dispatch_routes :
      {E : Type 0} → (Message → Decoded V E) → Message → List (Route V R) → Dispatched R E
  dispatch_routes decoder message [] = ignored
  dispatch_routes decoder message (route ∷ routes) =
      if route.matcher message
      then call message route.handler (decoder message)
      else dispatch_routes decoder message routes

  unfoldable pub dispatch :
      {E : Type 0} → (Message → Decoded V E) → Message → Dispatcher V R → Dispatched R E
  unfolding dispatch_routes
  dispatch decoder message d = dispatch_routes decoder message d.routes
