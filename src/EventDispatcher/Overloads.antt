-- ===== src/EventDispatcher/Overloads.antt =====
-- Which dispatcher the arguments of js/src/Dispatcher/createRpcEventDispatcher.ts make.
use interop.Base.{
  ℕ, zero, suc, ◌≡◌, ◌≤◌, refl, arith, Bool, true, false, [], ◌∷◌, Str, str_eq, codes, Option, some,
  Bool-cases, inl, inr,
}
use mathlib.Core.Option
use interop.Message.{Message}
use interop.Dispatcher.{Decoded}
use interop.Values.{Value, is_content_type, is_marshaler, field_of, is_string_value}
use interop.Content.{Runtime, json_type, make}
use interop.Decoder.{DecodeError, create_decoder}
use interop.EventDispatcher.{
  Argument, a_decoder, a_content_type, a_source, own_name, event_name, Source, source_fields,
  value_of, decoder_of, named_subscribers, RpcEventDispatcher, create_event_dispatcher,
  create_rpc_event_dispatcher,
}

-- No entry of a source is a text.
field_of-source_fields :
    (key : Str) (source : Source) → is_string_value (field_of key (source_fields source)) ≡ false
unfolding field_of source_fields
field_of-source_fields key [] = refl
field_of-source_fields key ((name, own_name f) ∷ source) = elim (Bool-cases (str_eq name key)) [
  | inl hit ↦ rw hit refl
  | inr miss ↦ rw miss (field_of-source_fields key source)
]
field_of-source_fields key ((name, event_name s f) ∷ source) = elim (Bool-cases (str_eq name key)) [
  | inl hit ↦ rw hit refl
  | inr miss ↦ rw miss (field_of-source_fields key source)
]

pub value_of-source : (source : Source) → is_content_type (value_of (a_source source)) ≡ false
unfolding value_of is_content_type
value_of-source source = rw (field_of-source_fields (codes "name") source) refl

pub value_of-content_type :
    (name : Str) (marshal unmarshal : ℕ)
    → is_content_type (value_of (a_content_type name marshal unmarshal)) ≡ true
unfolding value_of is_content_type is_marshaler field_of str_eq
value_of-content_type name marshal unmarshal = refl

module _ {E : Type 0} (runtime : Runtime E) (decoders : ℕ → Message → Decoded Value (DecodeError E))
    (guards : ℕ → Value → Bool) where
  -- The decoder that the first argument stands for.
  unfoldable pub chosen_decoder : Argument → Message → Decoded Value (DecodeError E)
  chosen_decoder (a_decoder f) = decoders f
  chosen_decoder (a_content_type name marshal unmarshal) =
      create_decoder runtime (make name marshal unmarshal ∷ [])
  chosen_decoder (a_source source) = create_decoder runtime (json_type ∷ [])

  -- The source of the named subscribers.
  unfoldable pub chosen_source : Argument → Option Source → Option Source
  chosen_source (a_decoder f) source = source
  chosen_source (a_content_type name marshal unmarshal) source = source
  chosen_source (a_source first) source = some first

  abbrev pub chosen : {R : Type 0} → Argument → Option Source → RpcEventDispatcher R E
  chosen decoder source = record {
    events = create_event_dispatcher (chosen_decoder decoder);
    subscribers = Option.map (named_subscribers guards) (chosen_source decoder source);
  }

  with_content_type :
      {R : Type 0} (n : ℕ) (name : Str) (marshal unmarshal : ℕ) (source : Option Source)
      → create_rpc_event_dispatcher runtime decoders guards {R = R}
          (suc n)
          (a_content_type name marshal unmarshal)
          source
        ≡ some (chosen (a_content_type name marshal unmarshal) source)
  unfolding create_rpc_event_dispatcher chosen_decoder chosen_source decoder_of value_of
      is_content_type is_marshaler field_of str_eq
  with_content_type n name marshal unmarshal source = refl

  -- With fuel of at least two createRpcEventDispatcher returns: a decoder function is used as it
  -- is, a content type is used to make the decoder, and a source takes the JSON content type for
  -- the decoder and is itself the source of the named subscribers, whatever the second argument.
  pub create_rpc_event_dispatcher_lem :
      {R : Type 0} (fuel : ℕ) (decoder : Argument) (source : Option Source)
      → 2 ≤ fuel
      → create_rpc_event_dispatcher runtime decoders guards {R = R} fuel decoder source
        ≡ some (chosen decoder source)
  unfolding create_rpc_event_dispatcher chosen_decoder chosen_source decoder_of value_of
  create_rpc_event_dispatcher_lem zero decoder source l = absurd (omega (arith, l))
  create_rpc_event_dispatcher_lem (suc zero) decoder source l = absurd (omega (arith, l))
  create_rpc_event_dispatcher_lem (suc (suc n)) (a_decoder f) source l = refl
  create_rpc_event_dispatcher_lem (suc (suc n)) (a_content_type name marshal unmarshal) source l =
      with_content_type (suc n) name marshal unmarshal source
  create_rpc_event_dispatcher_lem (suc (suc n)) (a_source first) source l =
      rw (value_of-source first) (with_content_type n (codes "application/json") 0 1 (some first))
