-- ===== src/EventDispatcher/Delivery.antt =====
-- An event from its JSON content to the handler of a named subscriber of
-- js/src/Dispatcher/createRpcEventDispatcher.ts.
use interop.Base.{
  subst, ℕ, ◌≡◌, ◌≤◌, refl, ap, Bool, true, List, [], ◌∷◌, Str, str_eq, codes, Option, none, some,
  All,
}
use interop.Text.{Platform}
use interop.Header
use interop.Headers.{Headers, get}
use interop.Message.{Message}
use interop.Dispatcher.{
  Dispatched, Decoded, decoded, Dispatcher, dispatch, create_decoding_dispatcher,
}
use interop.Values.{Value, field_of}
use interop.Content.{Runtime, json_type, is_json, call_unmarshal}
use interop.Decoder.{
  DecodeError, create_decoder, type_of_name, find_type, unmarshal_of, unmarshalled,
}
use interop.Delivery.Content.{get-with_content, with_content, get-content_type, json_unmarshal-text}
use interop.Subscribers.{GuardSource, Checked}
use interop.Subscribers.Routing.{Subscription, subscribe_all, RouteCases, dispatch-subscribe_all}
use interop.EventDispatcher.{
  a_source, Source, named_subscribers, find_subscriber, subscribe_named, RpcEventDispatcher,
  create_rpc_event_dispatcher,
}
use interop.EventDispatcher.Overloads.{
  chosen, chosen_decoder, chosen_source, create_rpc_event_dispatcher_lem,
}

pub handlers_of : {R : Type 0} → List (Subscription Value R) → List (Str × (Value → Headers → R))
handlers_of [] = []
handlers_of (s ∷ subscriptions) = (s.name, s.handler) ∷ handlers_of subscriptions

module _ {R : Type 0} (platform : Platform) (subscribers : List (Str × GuardSource Value)) where
  -- The name of a subscription has its guard among the subscribers.
  abbrev pub IsNamed : Subscription Value R → Type 0
  IsNamed s = find_subscriber s.name subscribers ≡ some s.source

  -- Handlers are given to named subscribers one after the other.
  unfoldable pub subscribe_each :
      List (Str × (Value → Headers → R))
      → Dispatcher Value (Checked R)
      → Option (Dispatcher Value (Checked R))
  unfolding subscribe_named
  subscribe_each [] d = some d
  subscribe_each ((name, handler) ∷ handlers) d =
      elim (subscribe_named platform subscribers name handler d) [
        | none ↦ none
        | some (id, d') ↦ subscribe_each handlers d'
      ]

  subscribe_each-named :
      (subscriptions : List (Subscription Value R)) (d : Dispatcher Value (Checked R))
      → All IsNamed subscriptions
      → subscribe_each (handlers_of subscriptions) d ≡ some (subscribe_all platform subscriptions d)
  unfolding subscribe_each handlers_of subscribe_all subscribe_named
  subscribe_each-named [] d h = refl
  subscribe_each-named (s ∷ subscriptions) d (h, hs) =
      rw (h, subscribe_each) (subscribe_each-named subscriptions _ hs)

module _ {E : Type 0} (runtime : Runtime E) where
  decode_json_type :
      (headers : Headers) (v : Value) (text : Str)
      → is_json v ≡ true
      → runtime.json.stringify v ≡ decoded (some text)
      → create_decoder runtime
          (json_type ∷ [])
          (with_content headers (codes "application/json") (runtime.platform.encode text))
        ≡ decoded v
  unfolding create_decoder type_of_name call_unmarshal find_type unmarshal_of field_of str_eq
  decode_json_type headers v text j e =
      rw
        (
          get-content_type headers (codes "application/json") (runtime.platform.encode text),
          create_decoder,
        )
        (ap unmarshalled (json_unmarshal-text runtime v text j e))

module _ {R E : Type 0} (runtime : Runtime E)
    (decoders : ℕ → Message → Decoded Value (DecodeError E)) (guards : ℕ → Value → Bool) where
  -- For a source of named subscribers and fuel of at least two, createRpcEventDispatcher makes a
  -- dispatcher. Handlers can be subscribed one after the other by names that the source has. Then
  -- of a message with the JSON text of a value that JSON can carry: either its class is the event
  -- of none of the subscriptions, and it is ignored; or the first subscription for its class has
  -- it: the value fails the guard of its name, which is an error that names the event, or it
  -- passes the guard and is handed to the handler with the headers.
  pub event-delivered :
      (fuel : ℕ) (source : Source) (subscriptions : List (Subscription Value R)) (headers : Headers)
      (v : Value) (text : Str)
      → 2 ≤ fuel
      → All (IsNamed runtime.platform (named_subscribers guards source)) subscriptions
      → is_json v ≡ true
      → runtime.json.stringify v ≡ decoded (some text)
      → let m = with_content headers (codes "application/json") (runtime.platform.encode text) in
        (d : RpcEventDispatcher (Checked R) E) × (create_rpc_event_dispatcher runtime decoders
            guards fuel
            (a_source source)
            none
          ≡ some d)
        × (subscribers : List (Str × GuardSource Value)) × (d.subscribers ≡ some subscribers)
        × (subscribed : Dispatcher Value (Checked R)) × (subscribe_each runtime.platform subscribers
              (handlers_of subscriptions)
              d.events.dispatcher
            ≡ some subscribed)
        × RouteCases
            (get Header.class headers)
            (decoded v)
            m.headers
            subscriptions
            (dispatch d.events.decoder m subscribed)
  unfolding chosen_decoder chosen_source str_eq
  event-delivered fuel source subscriptions headers v text l named j e =
      let subscribers = named_subscribers guards source in
      let m = with_content headers (codes "application/json") (runtime.platform.encode text) in
      (
        chosen runtime decoders guards (a_source source) none,
        create_rpc_event_dispatcher_lem runtime decoders guards fuel (a_source source) none l,
        subscribers,
        refl,
        subscribe_all runtime.platform subscriptions create_decoding_dispatcher,
        subscribe_each-named runtime.platform subscribers subscriptions create_decoding_dispatcher
            named,
        subst
            (λ class.
              RouteCases class (decoded v) m.headers subscriptions (dispatched m subscriptions))
            (get-with_content Header.class headers (codes "application/json")
              (runtime.platform.encode text) refl refl)
            (subst
              (λ decoding.
                RouteCases (get Header.class m.headers) decoding m.headers subscriptions
                  (dispatched m subscriptions))
              (decode_json_type runtime headers v text j e)
              (dispatch-subscribe_all runtime.platform (create_decoder runtime (json_type ∷ []))
                subscriptions m)),
      )
    where
      dispatched : Message → List (Subscription Value R) → Dispatched (Checked R) (DecodeError E)
      dispatched m subscriptions =
          dispatch (create_decoder runtime (json_type ∷ [])) m
            (subscribe_all runtime.platform subscriptions create_decoding_dispatcher)
