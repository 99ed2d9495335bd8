-- ===== src/Rpc/Events.antt =====
-- The events that js/src/RpcClient/RpcReactor.ts receives, handed to a dispatcher of
-- js/src/Dispatcher/createRpcEventDispatcher.ts as its `dispatch`.
mod Tests
use interop.Base.{
  false, sym, subst, ◌⊎◌, inl, inr, ℕ, ◌≡◌, ◌≤◌, refl, ◌∙◌, ap, Bool, true, List, [], ◌∷◌, ◌++◌,
  Str, str_eq, codes, Option, none, some, All,
}
use interop.Text.{Platform}
use interop.Header
use interop.Headers.{Headers, get}
use interop.Message.{Message}
use interop.Dispatcher
use interop.Dispatcher.{Decoded, decoded, Dispatcher, Dispatched, ignored, handled, threw, dispatch}
use interop.Values.{Value}
use interop.Content.{Runtime, is_json}
use interop.Decoder.{DecodeError}
use interop.Delivery.Content.{with_content, get-with_content}
use interop.Subscribers.{GuardSource, Checked, checked, type_check_failed}
use interop.Subscribers.Routing.{Subscription, RouteCases, IsNotFor, IsFirstFor}
use interop.EventDispatcher.{
  Source, a_source, named_subscribers, RpcEventDispatcher, create_rpc_event_dispatcher,
}
use interop.EventDispatcher.Delivery.{IsNamed, subscribe_each, handlers_of, event-delivered}
use interop.Rpc.{Reactor, caught, receive, receive_event, receive_all}

-- What a handler comes to when it is called: it returns, which may be a promise that nothing waits
-- for, or throws.
pub data Ran (X H : Type 0) : Type 0 where
  returned : X → Ran X H
  raised : H → Ran X H

-- What a dispatch throws: the error of the decoder, that of a guard with the name of the event, or that
-- of the handler.
pub data DispatchError (E H : Type 0) : Type 0 where
  decoder_error : E → DispatchError E H
  guard_error : Str → DispatchError E H
  handler_error : H → DispatchError E H

abbrev pub error_of :
    {X H E : Type 0} → Dispatched (Checked (Ran X H)) E → Option (DispatchError E H)
error_of ignored = none
error_of (handled (checked (returned x))) = none
error_of (handled (checked (raised h))) = some (handler_error h)
error_of (handled (type_check_failed name)) = some (guard_error name)
error_of (threw e) = some (decoder_error e)

abbrev pub dispatch_with :
    {V X H E : Type 0}
    → (Message → Decoded V E)
    → Dispatcher V (Checked (Ran X H))
    → Message
    → Option (DispatchError E H)
dispatch_with decoder d m = error_of (dispatch decoder m d)

module _ (platform : Platform) {E : Type 0} where
  abbrev pub told : Message → Reactor E → Reactor E
  told m s = record s { dispatched = s.dispatched ++ m ∷ [] }

  after_event : (Message → Option E) → Option E → Message → List Message → Reactor E → Reactor E
  after_event dispatch none m after s = receive_all platform dispatch after (told m s)
  after_event dispatch (some e) m after s = record (told m s) { ended = some (caught e) }

  receive_all-ended :
      (dispatch : Message → Option E) (after : List Message) (e : E) (m : Message) (s : Reactor E)
      → receive_all platform dispatch after (record (told m s) { ended = some (caught e) })
        ≡ record (told m s) { ended = some (caught e) }
  unfolding receive_all receive
  receive_all-ended dispatch [] e m s = refl
  receive_all-ended dispatch (n ∷ after) e m s = receive_all-ended dispatch after e m s

  receive_all-event :
      (dispatch : Message → Option E) (result : Option E) (m : Message) (after : List Message)
      (s : Reactor E) (class_name : Str)
      → s.ended ≡ none
      → get Header.id m.headers ≡ none
      → get Header.class m.headers ≡ some class_name
      → dispatch m ≡ result
      → receive_all platform dispatch (m ∷ after) s ≡ after_event dispatch result m after s
  unfolding receive_all receive receive_event after_event
  receive_all-event dispatch none m after s class_name running no_id has_class e =
      rw (running, no_id, has_class, e, receive, receive_event)
        (ap (λ x. receive_all platform dispatch after (record (told m s) { ended = x })) running)
  receive_all-event dispatch (some error) m after s class_name running no_id has_class e =
      rw (running, no_id, has_class, e, receive, receive_event)
        (receive_all-ended dispatch after error m s)

decoded-injective : {V E : Type 0} {v w : V} → ◌≡◌ {A = Decoded V E} (decoded v) (decoded w) → v ≡ w
decoded-injective e = cc e

module _ (platform : Platform) {E : Type 0} where
  -- The loop is over with an error, and no message behind the event is received.
  abbrev pub Ends : Message → Reactor E → Reactor E → E → Type 0
  Ends m s t e = t ≡ record (told platform m s) { ended = some (caught e) }

  -- The loop goes on with the messages behind the event.
  abbrev pub GoesOn : (Message → Option E) → Message → List Message → Reactor E → Reactor E → Type 0
  GoesOn dispatch m after s t = t ≡ receive_all platform dispatch after (told platform m s)

module _ (platform : Platform) {X H E : Type 0} where
  -- What becomes of the loop by an event of a class with a value, whose first subscription has it.
  abbrev pub EventCases :
      Option Str
      → Value
      → List (Subscription Value (Ran X H))
      → (Message → Option (DispatchError E H))
      → Message
      → List Message
      → Reactor (DispatchError E H)
      → Reactor (DispatchError E H)
      → Type 0
  EventCases class v subscriptions dispatch m after s t =
      (All (IsNotFor class) subscriptions × GoesOn platform dispatch m after s t)
      ⊎ ((chosen : Subscription Value (Ran X H)) × (event : Str) × (guard : Value → Bool)
          × IsFirstFor class subscriptions chosen event guard
          × (((guard v ≡ false) × Ends platform m s t (guard_error event))
              ⊎ ((guard v ≡ true)
                  × (((h : H) × (chosen.handler v m.headers ≡ raised h)
                        × Ends platform m s t (handler_error h))
                      ⊎ ((x : X) × (chosen.handler v m.headers ≡ returned x)
                          × GoesOn platform dispatch m after s t)))))

  -- What is dispatched to a subscription decides what the loop does.
  event_cases :
      (class : Option Str) (v : Value) (subscriptions : List (Subscription Value (Ran X H)))
      (dispatch : Message → Option (DispatchError E H)) (m : Message) (after : List Message)
      (s : Reactor (DispatchError E H)) (result : Dispatched (Checked (Ran X H)) E)
      → RouteCases class (decoded v) m.headers subscriptions result
      → EventCases class v subscriptions dispatch m after s
          (after_event platform dispatch (error_of result) m after s)
  unfolding after_event
  event_cases class v subscriptions dispatch m after s result (inl (none_for, e)) =
      rw e (inl (none_for, refl))
  event_cases class v subscriptions dispatch m after s result
        (inr (chosen, event, guard, first, inl (error, wrong, e))) =
      absurd (cc wrong)
  event_cases class v subscriptions dispatch m after s result
        (inr (chosen, event, guard, first, inr (inl (w, same, bad, e)))) =
      rw e (inr (chosen, event, guard, first, inl (ap guard (decoded-injective same) ∙ bad, refl)))
  event_cases class v subscriptions dispatch m after s result
        (inr (chosen, event, guard, first, inr (inr (w, same, good, e)))) =
      inr (
        chosen,
        event,
        guard,
        first,
        inr (
          ap guard (decoded-injective same) ∙ good,
          go (chosen.handler v m.headers) refl (
              e
              ∙ ap (λ x. handled (checked (chosen.handler x m.headers)))
                  (sym (decoded-injective same))),
        ),
      )
    where
      go :
          (ran : Ran X H)
          → chosen.handler v m.headers ≡ ran
          → result ≡ handled (checked (chosen.handler v m.headers))
          → ((h : H) × (chosen.handler v m.headers ≡ raised h)
              × Ends platform m s
                  (after_event platform dispatch (error_of result) m after s)
                  (handler_error h))
            ⊎ ((x : X) × (chosen.handler v m.headers ≡ returned x)
                × GoesOn platform dispatch m after s
                    (after_event platform dispatch (error_of result) m after s))
      go (raised h) ran e = inl (h, ran, rw (e, ran) refl)
      go (returned x) ran e = inr (x, ran, rw (e, ran) refl)

module _ {X H E : Type 0} (runtime : Runtime E)
    (decoders : ℕ → Message → Decoded Value (DecodeError E)) (guards : ℕ → Value → Bool) where
  -- A reactor whose read loop is running has for its dispatch that of a dispatcher that
  -- createRpcEventDispatcher made of a source, with fuel of at least two, and with handlers
  -- subscribed by names of the source. It receives a message with a class, no id and the JSON text
  -- of a value that JSON can carry, and then other messages. If the class is the event of no
  -- subscription, the loop goes on with the others. Else the first subscription for the class has
  -- the event: if the value fails its guard, the loop ends with the error for the event; if its
  -- handler throws, the loop ends with that error; and if its handler returns, the loop goes on.
  -- When the loop ends none of the others is received.
  pub event-received :
      (fuel : ℕ) (source : Source) (subscriptions : List (Subscription Value (Ran X H)))
      (headers : Headers) (v : Value) (text class_name : Str) (after : List Message)
      (s : Reactor (DispatchError (DecodeError E) H))
      → 2 ≤ fuel
      → All (IsNamed runtime.platform (named_subscribers guards source)) subscriptions
      → is_json v ≡ true
      → runtime.json.stringify v ≡ decoded (some text)
      → s.ended ≡ none
      → get Header.id headers ≡ none
      → get Header.class headers ≡ some class_name
      → let m = with_content headers (codes "application/json") (runtime.platform.encode text) in
        (d : RpcEventDispatcher (Checked (Ran X H)) E) × (create_rpc_event_dispatcher runtime
            decoders guards fuel
            (a_source source)
            none
          ≡ some d)
        × (subscribers : List (Str × GuardSource Value)) × (d.subscribers ≡ some subscribers)
        × (subscribed : Dispatcher Value (Checked (Ran X H))) × (subscribe_each runtime.platform
              subscribers
              (handlers_of subscriptions)
              d.events.dispatcher
            ≡ some subscribed)
        × (let dispatch = dispatch_with d.events.decoder subscribed in
            EventCases runtime.platform
              (some class_name)
              v
              subscriptions
              dispatch
              m
              after
              s
              (receive_all runtime.platform dispatch (m ∷ after) s))
  unfolding str_eq
  event-received fuel source subscriptions headers v text class_name after s l named j e running
        no_id has_class =
      let body = runtime.platform.encode text in
      let m = with_content headers (codes "application/json") body in
      let (d, made, subscribers, theirs, subscribed, each, routed) =
        event-delivered runtime decoders guards fuel source subscriptions headers v text l named j
          e in
      let dispatch = dispatch_with d.events.decoder subscribed in
      (
        d,
        made,
        subscribers,
        theirs,
        subscribed,
        each,
        subst (EventCases runtime.platform (some class_name) v subscriptions dispatch m after s)
            (sym (
              receive_all-event runtime.platform dispatch (dispatch m) m after s class_name running
                (get-with_content Header.id headers (codes "application/json") body refl refl
                  ∙ no_id)
                (get-with_content Header.class headers (codes "application/json") body refl refl
                  ∙ has_class)
                refl))
            (event_cases runtime.platform (some class_name) v subscriptions dispatch m after s _ (
              subst
                (λ class.
                  RouteCases class (decoded v) m.headers subscriptions
                    (Dispatcher.dispatch d.events.decoder m subscribed))
                has_class routed)),
      )
