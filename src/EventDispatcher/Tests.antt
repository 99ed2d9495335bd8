-- ===== src/EventDispatcher/Tests.antt =====
-- Event dispatchers of concrete arguments.
use interop.Base.{ℕ, ◌≡◌, refl, arith, Bool, true, List, [], ◌∷◌, Str, str_eq, codes, none, some}
use interop.Text.Canonical.{ascii_only}
use interop.Header
use interop.Headers.{Headers, get, set}
use interop.Message.{Message}
use interop.Dispatcher.{Decoded, decoded, failed, Dispatcher, dispatch}
use interop.Values.{Value, boolean, is_string_value}
use interop.Content.{is_json}
use interop.Content.Literals.{literal_runtime}
use interop.Decoder.{DecodeError, no_content_type}
use interop.Delivery.Content.{with_content}
use interop.Subscribers.{GuardSource, prefixed, Checked}
use interop.Subscribers.Routing.{Subscription, RouteCases}
use interop.EventDispatcher.{
  a_source, Source, own_name, event_name, named_subscribers, find_subscriber, RpcEventDispatcher,
  create_rpc_event_dispatcher,
}
use interop.EventDispatcher.Overloads.{chosen, create_rpc_event_dispatcher_lem}
use interop.EventDispatcher.Delivery.{subscribe_each, handlers_of, event-delivered}

abbrev no_decoders : ℕ → Message → Decoded Value (DecodeError ℕ)
no_decoders f m = failed no_content_type

abbrev only_booleans : ℕ → Value → Bool
only_booleans f (boolean b) = true
only_booleans f v = is_string_value v

abbrev doors : Source
doors = (codes "opened", own_name 5) ∷ (codes "closed", event_name (codes "door.closed") 5) ∷ []

abbrev keep_value : Value → Headers → Value
keep_value v headers = v

abbrev on_closed : List (Subscription Value Value)
on_closed =
    record {
      name = codes "closed";
      source = prefixed (codes "door.closed") (only_booleans 5);
      handler = keep_value;
    }
    ∷ []

abbrev closed : Headers
closed = (Header.class, codes "door.closed") ∷ []

create_rpc_event_dispatcher_lem_example :
    create_rpc_event_dispatcher literal_runtime no_decoders only_booleans {R = ℕ} 2
      (a_source doors)
      none
    ≡ some (chosen literal_runtime no_decoders only_booleans (a_source doors) none)
create_rpc_event_dispatcher_lem_example =
    create_rpc_event_dispatcher_lem literal_runtime no_decoders only_booleans 2 (a_source doors)
      none (omega arith)

event-delivered_example :
    let m = with_content closed (codes "application/json") (codes "true") in
    (d : RpcEventDispatcher (Checked Value) ℕ) × (create_rpc_event_dispatcher literal_runtime
        no_decoders only_booleans 2
        (a_source doors)
        none
      ≡ some d)
    × (subscribers : List (Str × GuardSource Value)) × (d.subscribers ≡ some subscribers)
    × (subscribed : Dispatcher Value (Checked Value)) × (subscribe_each ascii_only subscribers
          (handlers_of on_closed)
          d.events.dispatcher
        ≡ some subscribed)
    × RouteCases
        (some (codes "door.closed"))
        (decoded (boolean true))
        m.headers
        on_closed
        (dispatch d.events.decoder m subscribed)
unfolding get str_eq is_json find_subscriber named_subscribers set
event-delivered_example =
    event-delivered literal_runtime no_decoders only_booleans 2 doors on_closed closed
      (boolean true) (codes "true") (omega arith) (refl, tt) refl refl
