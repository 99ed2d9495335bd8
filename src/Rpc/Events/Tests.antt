-- ===== src/Rpc/Events/Tests.antt =====
-- A reactor that receives a concrete event.
use interop.Base.{str_eq, ℕ, ◌≡◌, refl, arith, Bool, true, List, [], ◌∷◌, Str, codes, some, none}
use interop.Header
use interop.Headers.{Headers, get}
use interop.Message.{Message}
use interop.Dispatcher.{Decoded, failed, Dispatcher}
use interop.Values.{Value, boolean, is_string_value}
use interop.Content.{is_json}
use interop.Content.Literals.{literal_runtime}
use interop.Decoder.{DecodeError, no_content_type}
use interop.Delivery.Content.{with_content}
use interop.Subscribers.{GuardSource, only_guard, Checked}
use interop.Subscribers.Routing.{Subscription}
use interop.EventDispatcher.{
  Source, a_source, own_name, named_subscribers, find_subscriber, RpcEventDispatcher,
  create_rpc_event_dispatcher,
}
use interop.EventDispatcher.Delivery.{subscribe_each, handlers_of}
use interop.Rpc.{Reactor, create_rpc_reactor, receive_all}
use interop.Rpc.Events.{EventCases, Ran, raised, DispatchError, dispatch_with, event-received}

abbrev no_decoders : ℕ → Message → Decoded Value (DecodeError ℕ)
no_decoders f m = failed no_content_type

abbrev only_texts : ℕ → Value → Bool
only_texts f = is_string_value

abbrev names : Source
names = (codes "named", own_name 4) ∷ []

-- A handler that throws 7.
abbrev throw_seven : Value → Headers → Ran Value ℕ
throw_seven v headers = raised 7

abbrev on_named : List (Subscription Value (Ran Value ℕ))
on_named =
    record { name = codes "named"; source = only_guard (only_texts 4); handler = throw_seven } ∷ []

abbrev named : Headers
named = (Header.class, codes "named") ∷ []

abbrev event : Message
event = with_content named (codes "application/json") (codes "true")

abbrev new_reactor : Reactor (DispatchError (DecodeError ℕ) ℕ)
new_reactor = create_rpc_reactor 0

-- The event fails its guard, and the messages behind it are not received.
event-received_example :
    (d : RpcEventDispatcher (Checked (Ran Value ℕ)) ℕ) × (create_rpc_event_dispatcher
        literal_runtime no_decoders only_texts 2
        (a_source names)
        none
      ≡ some d)
    × (subscribers : List (Str × GuardSource Value)) × (d.subscribers ≡ some subscribers)
    × (subscribed : Dispatcher Value (Checked (Ran Value ℕ))) × (subscribe_each
          literal_runtime.platform subscribers
          (handlers_of on_named)
          d.events.dispatcher
        ≡ some subscribed)
    × (let dispatch = dispatch_with d.events.decoder subscribed in
        EventCases literal_runtime.platform
          (some (codes "named"))
          (boolean true)
          on_named
          dispatch
          event
          (event ∷ [])
          new_reactor
          (receive_all literal_runtime.platform dispatch (event ∷ event ∷ []) new_reactor))
unfolding get str_eq is_json find_subscriber named_subscribers create_rpc_reactor
event-received_example =
    event-received literal_runtime no_decoders only_texts 2 names on_named named (boolean true)
      (codes "true") (codes "named") (event ∷ []) new_reactor (omega arith) (refl, tt) refl refl
      refl refl refl
