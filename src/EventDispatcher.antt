-- ===== src/EventDispatcher.antt =====
-- js/src/Dispatcher/createRpcEventDispatcher.ts, createEventDispatcher.ts and createDispatcher.ts: which
-- decoder and which named subscribers a dispatcher has by the type of the arguments. A function is known
-- by its number; what decoders and guards do is given by number. The recursion takes fuel.
pub mod Overloads
pub mod Delivery
mod Tests
use interop.Base.{
  ℕ, zero, suc, Bool, true, false, ◌&&◌, List, [], ◌∷◌, Str, str_eq, codes, if◌then◌else◌, Option,
  none, some, not,
}
use mathlib.Core.Option
use mathlib.Core.List
use interop.Headers.{Headers}
use interop.Message.{Message}
use interop.Dispatcher.{Decoded, decoded, failed, Dispatcher, create_decoding_dispatcher}
use interop.Values.{
  Value, string, function, array, object, Fields, no_own, field, no_elements, element,
  is_content_type, is_function,
}
use interop.Content.{Runtime, json_type, make}
use interop.Decoder.{DecodeError, unmarshal_error, create_decoder, null_decoder}
use interop.Text.{Platform}
use interop.Subscribers.{GuardSource, only_guard, prefixed, Checked, subscribe}

-- An entry of a source: a guard, or the name of an event and a guard.
pub data NamedGuard : Type 0 where
  own_name : ℕ → NamedGuard
  event_name : Str → ℕ → NamedGuard

abbrev pub Source : Type 0
Source = List (Str × NamedGuard)

-- A content type has a name and the functions of its marshaler.
pub data Argument : Type 0 where
  a_decoder : ℕ → Argument
  a_content_type : Str → ℕ → ℕ → Argument
  a_source : Source → Argument

abbrev pub guard_value : NamedGuard → Value
guard_value (own_name guard) = function guard
guard_value (event_name name guard) =
    array (element (string name) (element (function guard) no_elements))

unfoldable pub source_fields : Source → Fields
source_fields [] = no_own
source_fields ((name, guard) ∷ source) = field name (guard_value guard) (source_fields source)

unfoldable pub value_of : Argument → Value
unfolding source_fields
value_of (a_decoder f) = function f
value_of (a_content_type name marshal unmarshal) = make name marshal unmarshal
value_of (a_source source) = object (source_fields source)

abbrev pub source_of : Argument → Option Source
source_of (a_source source) = some source
source_of _ = none

-- A new dispatcher with its decoder.
pub record Decoding (V R E : Type 0) : Type 0 where
  pub decoder : Message → Decoded V E
  pub dispatcher : Dispatcher V R

module _ {R E : Type 0} where
  abbrev pub create_event_dispatcher : {V : Type 0} → (Message → Decoded V E) → Decoding V R E
  create_event_dispatcher decoder = record {
    decoder = decoder;
    dispatcher = create_decoding_dispatcher;
  }

  -- Both creators without an argument.
  abbrev pub create_plain_dispatcher : Decoding Message R E
  create_plain_dispatcher = create_event_dispatcher null_decoder

abbrev pub guard_source : (ℕ → Value → Bool) → NamedGuard → GuardSource Value
guard_source guards (own_name guard) = only_guard (guards guard)
guard_source guards (event_name name guard) = prefixed name (guards guard)

-- The names of the subscribers, with what createNamedSubscribers subscribes them to.
unfoldable pub named_subscribers : (ℕ → Value → Bool) → Source → List (Str × GuardSource Value)
named_subscribers guards [] = []
named_subscribers guards ((name, guard) ∷ source) =
    (name, guard_source guards guard) ∷ named_subscribers guards source

-- `namedSubscribers[name]`
unfoldable pub find_subscriber : Str → List (Str × GuardSource Value) → Option (GuardSource Value)
unfolding str_eq
find_subscriber name [] = none
find_subscriber name ((n, source) ∷ subscribers) =
    if str_eq n name then some source else find_subscriber name subscribers

-- The call of a named subscriber; `none` is the TypeError of one that there is not.
unfoldable pub subscribe_named :
    {R : Type 0}
    → Platform
    → List (Str × GuardSource Value)
    → Str
    → (Value → Headers → R)
    → Dispatcher Value (Checked R)
    → Option (ℕ × Dispatcher Value (Checked R))
unfolding find_subscriber
subscribe_named platform subscribers name handler d =
    Option.map (λ source. subscribe platform name source handler d)
      (find_subscriber name subscribers)

pub record RpcEventDispatcher (R E : Type 0) : Type 0 where
  pub events : Decoding Value R (DecodeError E)
  pub subscribers : Option (List (Str × GuardSource Value))

module _ {E : Type 0} (runtime : Runtime E) (decoders : ℕ → Message → Decoded Value (DecodeError E))
    (guards : ℕ → Value → Bool) where
  -- The call of `decoder` as a function.
  abbrev pub as_decoder : Argument → Message → Decoded Value (DecodeError E)
  as_decoder (a_decoder f) m = decoders f m
  as_decoder _ m = failed (unmarshal_error runtime.type_error)

  -- `x`
  unfoldable pub decoder_of : Argument → Message → Decoded Value (DecodeError E)
  unfolding value_of is_content_type
  decoder_of decoder =
      if is_content_type (value_of decoder)
      then create_decoder runtime (value_of decoder ∷ [])
      else as_decoder decoder

  unfoldable pub create_rpc_event_dispatcher :
      {R : Type 0} → ℕ → Argument → Option Source → Option (RpcEventDispatcher R E)
  unfolding value_of is_content_type decoder_of named_subscribers
  create_rpc_event_dispatcher zero decoder source = none
  create_rpc_event_dispatcher (suc n) decoder source =
      let again =
        create_rpc_event_dispatcher n (a_content_type (codes "application/json") 0 1)
          (source_of decoder) in
      if not (is_function (value_of decoder)) && not (is_content_type (value_of decoder))
      then again
      else some (record {
        events = create_event_dispatcher (decoder_of decoder);
        subscribers = Option.map (named_subscribers guards) source;
      })
