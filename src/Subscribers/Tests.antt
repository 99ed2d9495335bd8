-- ===== src/Subscribers/Tests.antt =====
-- Named subscribers at concrete events.
use interop.Base.{refl, some, ℕ, ◌≡◌, Bool, List, [], ◌∷◌, codes, length, leb, str_eq}
use interop.Text.Canonical.{ascii_only}
use interop.Header
use interop.Headers.{Headers, get}
use interop.Message.{Message}
use interop.Messages.{message_class}
use interop.Text.{canonicalize_key}
use interop.Dispatcher
use interop.Dispatcher.{Decoded, decoded, dispatch, create_decoding_dispatcher, handled}
use interop.Subscribers.{
  only_guard, prefixed, type_check_failed, split_prefix, is_text, check, subscribe,
}
use interop.Subscribers.Routing.{Subscription, subscribe_all, RouteCases, dispatch-subscribe_all}

abbrev body_length : Message → Decoded ℕ ℕ
body_length m = decoded (length m.body)

abbrev is_short : ℕ → Bool
is_short n = leb n 2

abbrev keep : ℕ → Headers → ℕ
keep n headers = n

abbrev two_events : List (Subscription ℕ ℕ)
two_events =
    record { name = codes "opened"; source = only_guard is_short; handler = keep }
    ∷ record {
      name = codes "closed";
      source = prefixed (codes "app.closed") is_short;
      handler = keep;
    }
    ∷ []

abbrev closed_event : Message
closed_event = record { headers = (Header.class, codes "app.closed") ∷ []; body = codes "long" }

dispatch-subscribe_all_example :
    RouteCases (some (codes "app.closed")) (decoded 4) closed_event.headers two_events (
      dispatch body_length closed_event
        (subscribe_all ascii_only two_events create_decoding_dispatcher))
unfolding get str_eq
dispatch-subscribe_all_example =
    dispatch-subscribe_all ascii_only body_length two_events closed_event

-- An event that fails its guard.
guard_fails :
    dispatch body_length closed_event
      (subscribe_all ascii_only two_events create_decoding_dispatcher)
    ≡ handled (type_check_failed (codes "app.closed"))
unfolding dispatch subscribe_all subscribe split_prefix is_text check str_eq message_class get
    canonicalize_key Dispatcher.handle create_decoding_dispatcher
guard_fails = refl
