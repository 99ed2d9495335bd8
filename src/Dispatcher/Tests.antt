-- ===== src/Dispatcher/Tests.antt =====
-- Dispatchers at concrete routes.
use interop.Base.{ℕ, ◌≡◌, refl, Bool, true, false, List, [], ◌∷◌, arith, length}
use interop.Headers.{Headers}
use interop.Message.{Message}
use interop.Dispatcher.{Route, Dispatcher, Decoded, decoded, handle, unsubscribe, dispatch}
use interop.Dispatcher.Routes.{
  DispatchCases, dispatch_cases, IsValid, unsubscribe-IsValid, unsubscribe_twice,
}

abbrev empty : Message
empty = record { headers = []; body = [] }

abbrev never : Message → Bool
never m = false

abbrev always : Message → Bool
always m = true

abbrev keep_event : ℕ → Headers → ℕ
keep_event event headers = event

abbrev decode_length : Message → Decoded ℕ ℕ
decode_length m = decoded (length m.body)

abbrev two_routes : Dispatcher ℕ ℕ
two_routes = record {
  routes =
      record { id = 0; matcher = never; handler = keep_event }
      ∷ record { id = 3; matcher = always; handler = keep_event }
      ∷ [];
  next_id = 4;
}

abbrev one_route : List (Route ℕ ℕ)
one_route = record { id = 0; matcher = never; handler = keep_event } ∷ []

dispatch_cases_example :
    DispatchCases decode_length empty two_routes.routes (dispatch decode_length empty two_routes)
dispatch_cases_example = dispatch_cases decode_length empty two_routes

two_routes-IsValid : IsValid two_routes
two_routes-IsValid = omega arith

unsubscribe_twice_example :
    let (id, d') = handle always keep_event two_routes in
    (unsubscribe id (unsubscribe id d')).routes ≡ one_route
unsubscribe_twice_example =
    unsubscribe_twice always keep_event two_routes one_route
      (record { id = 3; matcher = always; handler = keep_event }) two_routes-IsValid refl

two_routes_unsubscribed-IsValid : IsValid (unsubscribe 3 two_routes)
two_routes_unsubscribed-IsValid = unsubscribe-IsValid 3 two_routes two_routes-IsValid
