-- ===== src/Subscribers/Routing.antt =====
-- Which handler of the subscribers of js/src/Dispatcher/createNamedSubscribers.ts an event gets.
use interop.Base.{
  Bool, true, false, Option, none, some, ◌≢◌, ◌⊎◌, ◌↔◌, All, subst, str_eq_iff, ◌≡◌, refl, sym, ap,
  ◌∙◌, List, [], ◌∷◌, ◌++◌, Str, if◌then◌else◌, Bool-cases, inl, inr,
}
use mathlib.Core.Bool.{true≢false}
use mathlib.Core.Option.{some-injective}
use interop.Text.{Platform}
use interop.Header
use interop.Headers.{Headers, get}
use interop.Message.{Message}
use interop.Messages.{message_class, message_class_lem}
use interop.Dispatcher
use interop.Dispatcher.{
  Dispatcher, Route, Decoded, decoded, failed, Dispatched, ignored, handled, threw, call,
  dispatch_routes, dispatch, create_decoding_dispatcher,
}
use interop.Subscribers.{
  only_guard, prefixed, type_check_failed, checked, GuardSource, split_prefix, Checked, check,
  is_text, subscribe,
}

-- A name, its guard and a handler.
pub record Subscription (V R : Type 0) : Type 0 where
  pub name : Str
  pub source : GuardSource V
  pub handler : V → Headers → R

module _ {R E : Type 0} where
  abbrev otherwise : Dispatched R E → Dispatched R E → Dispatched R E
  otherwise ignored y = y
  otherwise (handled r) y = handled r
  otherwise (threw e) y = threw e

module _ {V R E : Type 0} (decoder : Message → Decoded V E) (m : Message) where
  otherwise-call :
      (h : V → Headers → R) (y : Dispatched R E)
      → otherwise (call m h (decoder m)) y ≡ call m h (decoder m)
  otherwise-call h y = go (decoder m)
    where
      go : (x : Decoded V E) → otherwise (call m h x) y ≡ call m h x
      go (decoded v) = refl
      go (failed e) = refl

  dispatch_routes-append :
      (rs ts : List (Route V R))
      → dispatch_routes decoder m (rs ++ ts)
        ≡ otherwise (dispatch_routes decoder m rs) (dispatch_routes decoder m ts)
  unfolding dispatch_routes
  dispatch_routes-append [] ts = refl
  dispatch_routes-append (r ∷ rs) ts = elim (Bool-cases (r.matcher m)) [
    | inl hit ↦ rw hit (sym (otherwise-call r.handler _))
    | inr miss ↦ rw miss (dispatch_routes-append rs ts)
  ]

  dispatch_routes-one :
      (r : Route V R) (z : Dispatched R E)
      → otherwise (dispatch_routes decoder m (r ∷ [])) z
        ≡ (if r.matcher m then call m r.handler (decoder m) else z)
  unfolding dispatch_routes
  dispatch_routes-one r z = elim (Bool-cases (r.matcher m)) [
    | inl hit ↦ rw hit (otherwise-call r.handler z)
    | inr miss ↦ rw miss refl
  ]

otherwise_ignored : {R E : Type 0} (x : Dispatched R E) → otherwise x ignored ≡ x
otherwise_ignored ignored = refl
otherwise_ignored (handled r) = refl
otherwise_ignored (threw e) = refl

otherwise_assoc :
    {R E : Type 0} (x y z : Dispatched R E)
    → otherwise (otherwise x y) z ≡ otherwise x (otherwise y z)
otherwise_assoc ignored y z = refl
otherwise_assoc (handled r) y z = refl
otherwise_assoc (threw e) y z = refl

module _ (platform : Platform) {V R : Type 0} where
  unfoldable pub subscribe_all :
      List (Subscription V R) → Dispatcher V (Checked R) → Dispatcher V (Checked R)
  subscribe_all [] d = d
  subscribe_all (s ∷ subscriptions) d =
      subscribe_all subscriptions (subscribe platform s.name s.source s.handler d).1

-- The event and the guard that a subscription is for: its name, or the one given with the guard.
pub data IsFor {V R : Type 0} (s : Subscription V R) (event : Str) (guard : V → Bool) : Type 0 where
  own_name : s.source ≡ only_guard guard → s.name ≡ event → IsFor s event guard
  other_name : s.source ≡ prefixed event guard → IsFor s event guard

-- The class of a message is not the event of a subscription.
abbrev pub IsNotFor : {V R : Type 0} → Option Str → Subscription V R → Type 0
IsNotFor {V} class s =
    (event : Str) × (guard : V → Bool) × IsFor s event guard × (class ≢ some event)

-- The first subscription for the class of a message.
pub record IsFirstFor {V R : Type 0} (class : Option Str) (subscriptions : List (Subscription V R))
    (s : Subscription V R) (event : Str) (guard : V → Bool) : Type 0 where
  pub before : List (Subscription V R)
  pub after : List (Subscription V R)
  pub split : subscriptions ≡ before ++ s ∷ after
  pub not_before : All (IsNotFor class) before
  pub is_for : IsFor s event guard
  pub has_class : class ≡ some event

module _ {V R E : Type 0} where
  -- What a subscriber makes of a message by what the decoder makes of it.
  abbrev pub Guards :
      Decoded V E
      → Headers
      → Str
      → (V → Bool)
      → (V → Headers → R)
      → Dispatched (Checked R) E
      → Type 0
  Guards decoding headers event guard handler result =
      ((error : E) × (decoding ≡ failed error) × (result ≡ threw error))
      ⊎ (((v : V) × (decoding ≡ decoded v)
            × (guard v ≡ false)
            × (result ≡ handled (type_check_failed event)))
          ⊎ ((v : V) × (decoding ≡ decoded v)
              × (guard v ≡ true)
              × (result ≡ handled (checked (handler v headers)))))

  -- What becomes of a message: it is ignored, or the first subscription for its class has it.
  abbrev pub RouteCases :
      Option Str
      → Decoded V E
      → Headers
      → List (Subscription V R)
      → Dispatched (Checked R) E
      → Type 0
  RouteCases class decoding headers subscriptions result =
      (All (IsNotFor class) subscriptions × (result ≡ ignored))
      ⊎ ((s : Subscription V R) × (event : Str) × (guard : V → Bool) × IsFirstFor class
            subscriptions s event guard
          × Guards decoding headers event guard s.handler result)

  check-Guards :
      (decoding : Decoded V E) (m : Message) (event : Str) (guard : V → Bool)
      (handler : V → Headers → R)
      → Guards decoding m.headers event guard handler (call m (check event guard handler) decoding)
  unfolding check
  check-Guards (failed error) m event guard handler = inl (error, refl, refl)
  check-Guards (decoded v) m event guard handler = elim (Bool-cases (guard v)) [
    | inl good ↦ inr (inr (v, refl, good, rw good refl))
    | inr bad ↦ inr (inl (v, refl, bad, rw bad refl))
  ]

split_prefix-IsFor :
    {V R : Type 0} (s : Subscription V R)
    → IsFor s (split_prefix s.name s.source).0 (split_prefix s.name s.source).1
unfolding split_prefix
split_prefix-IsFor s = go s.source refl
  where
    go :
        (source : GuardSource _)
        → s.source ≡ source
        → IsFor s (split_prefix s.name s.source).0 (split_prefix s.name s.source).1
    go (only_guard guard) e = rw e (own_name refl refl)
    go (prefixed name guard) e = rw e (other_name refl)

is_text_iff :
    (class : Option Str) (event : Str) → (is_text class event ≡ true) ↔ (class ≡ some event)
unfolding is_text
is_text_iff none event = (λ h. absurd (cc h), λ h. absurd (cc h))
is_text_iff (some t) event =
    (λ h. ap some ((str_eq_iff t event).0 h), λ h. (str_eq_iff t event).1 (some-injective _ _ h))

module _ (platform : Platform) {V R E : Type 0} (decoder : Message → Decoded V E) where
  -- The handler of the first subscription to the class of the message.
  unfoldable route : List (Subscription V R) → Message → Dispatched (Checked R) E
  route [] m = ignored
  route (s ∷ subscriptions) m =
      let event = split_prefix s.name s.source in
      if is_text (get Header.class m.headers) event.0
      then call m (check event.0 event.1 s.handler) (decoder m)
      else route subscriptions m

  subscribe_all-route :
      (subscriptions : List (Subscription V R)) (d : Dispatcher V (Checked R)) (m : Message)
      → dispatch_routes decoder m (subscribe_all platform subscriptions d).routes
        ≡ otherwise (dispatch_routes decoder m d.routes) (route subscriptions m)
  unfolding subscribe_all route subscribe dispatch_routes Dispatcher.handle
  subscribe_all-route [] d m = sym (otherwise_ignored _)
  subscribe_all-route (s ∷ subscriptions) d m =
      subscribe_all-route subscriptions _ m
      ∙ rw (dispatch_routes-append decoder m d.routes _) (
          otherwise_assoc (dispatch_routes decoder m d.routes) _ _
          ∙ ap (otherwise (dispatch_routes decoder m d.routes)) (
              dispatch_routes-one decoder m
                (record {
                  id = d.next_id;
                  matcher =
                      λ x. is_text (message_class platform x) (split_prefix s.name s.source).0;
                  handler =
                      check (split_prefix s.name s.source).0 (split_prefix s.name s.source).1
                        s.handler;
                })
                (route subscriptions m)
              ∙ rw (message_class_lem platform m) refl))

  route-RouteCases :
      (subscriptions : List (Subscription V R)) (m : Message)
      → RouteCases
          (get Header.class m.headers)
          (decoder m)
          m.headers
          subscriptions
          (route subscriptions m)
  unfolding route
  route-RouteCases [] m = inl (tt, refl)
  route-RouteCases (s ∷ subscriptions) m =
      let (event, guard) = split_prefix s.name s.source in
      let class = get Header.class m.headers in
      elim (Bool-cases (is_text class event)) [
        | inl hit ↦
            rw (hit, route)
              (inr (
                s,
                event,
                guard,
                record {
                  before = [];
                  after = subscriptions;
                  split = refl;
                  not_before = tt;
                  is_for = split_prefix-IsFor s;
                  has_class = (is_text_iff class event).0 hit;
                },
                check-Guards (decoder m) m event guard s.handler,
              ))
        | inr miss ↦
            let other : IsNotFor class s = (
              event,
              guard,
              split_prefix-IsFor s,
              λ e. true≢false (sym ((is_text_iff class event).1 e) ∙ miss),
            ) in
            rw (miss, route) (later other (route-RouteCases subscriptions m))
      ]
    where
      later :
          {result : Dispatched (Checked R) E}
          → IsNotFor (get Header.class m.headers) s
          → RouteCases (get Header.class m.headers) (decoder m) m.headers subscriptions result
          → RouteCases (get Header.class m.headers) (decoder m) m.headers (s ∷ subscriptions) result
      later other (inl (none_for, e)) = inl ((other, none_for), e)
      later other (inr (chosen, event, guard, first, outcome)) = inr (
        chosen,
        event,
        guard,
        record {
          before = s ∷ first.before;
          after = first.after;
          split = ap (◌∷◌ s) first.split;
          not_before = (other, first.not_before);
          is_for = first.is_for;
          has_class = first.has_class;
        },
        outcome,
      )

  -- On a new dispatcher, handlers are subscribed under names. Then either the class of a message
  -- is that of none of the subscriptions, where each is for its name or the one given with its
  -- guard, and the message is ignored; or there is a first subscription for its class, and the
  -- dispatch fails with the decoder's error, or comes to the error for the event if the value
  -- fails the guard, and else to what the handler does with the value and the headers.
  pub dispatch-subscribe_all :
      (subscriptions : List (Subscription V R)) (m : Message)
      → RouteCases
          (get Header.class m.headers)
          (decoder m)
          m.headers
          subscriptions
          (dispatch decoder m (subscribe_all platform subscriptions create_decoding_dispatcher))
  unfolding dispatch create_decoding_dispatcher dispatch_routes
  dispatch-subscribe_all subscriptions m =
      subst (RouteCases (get Header.class m.headers) (decoder m) m.headers subscriptions)
        (sym (subscribe_all-route subscriptions create_decoding_dispatcher m))
        (route-RouteCases subscriptions m)
