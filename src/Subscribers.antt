-- ===== src/Subscribers.antt =====
-- js/src/Dispatcher/createDecodingEventDispatcher.ts and createNamedSubscribers.ts, with splitPrefix of
-- js/src/utilities.ts, over the dispatcher of js/src/Dispatcher/createDecodingDispatcher.ts. A regular
-- expression is the function that tests a text; one that keeps a state (`g`, `y`) is none.
pub mod Routing
mod Tests
use interop.Base.{
  ℕ, Bool, true, false, List, [], ◌∷◌, Str, codes, str_eq, if◌then◌else◌, Option, none, some,
}
use interop.Text.{Platform}
use interop.Headers.{Headers}
use interop.Message.{Message}
use interop.Messages.{message_class}
use interop.Dispatcher
use interop.Dispatcher.{Dispatcher}

pub data Matcher : Type 0 where
  class_name : Str → Matcher
  pattern_test : (Str → Bool) → Matcher
  predicate : (Message → Bool) → Matcher

-- `===` of a value that may be `undefined` and a text.
unfoldable pub is_text : Option Str → Str → Bool
is_text none s = false
is_text (some t) s = str_eq t s

-- What a regular expression reads of a value.
abbrev pub to_text : Option Str → Str
to_text none = codes "undefined"
to_text (some t) = t

-- OptionalPrefix of a guard on events.
pub data GuardSource (V : Type 0) : Type 0 where
  only_guard : (V → Bool) → GuardSource V
  prefixed : Str → (V → Bool) → GuardSource V

unfoldable pub split_prefix : {V : Type 0} → Str → GuardSource V → Str × (V → Bool)
split_prefix default_prefix (only_guard guard) = (default_prefix, guard)
split_prefix default_prefix (prefixed name guard) = (name, guard)

-- What a guarded handler comes to; the error names the event.
pub data Checked (R : Type 0) : Type 0 where
  type_check_failed : Str → Checked R
  checked : R → Checked R

unfoldable pub check :
    {V R : Type 0} → Str → (V → Bool) → (V → Headers → R) → V → Headers → Checked R
check event_name guard handler obj headers =
    if guard obj then checked (handler obj headers) else type_check_failed event_name

module _ (platform : Platform) where
  unfoldable pub matches : Matcher → Message → Bool
  unfolding is_text
  matches (class_name name) m = is_text (message_class platform m) name
  matches (pattern_test test) m = test (to_text (message_class platform m))
  matches (predicate accepts) m = accepts m

  module _ {V R : Type 0} where
    -- `handle` of an event dispatcher.
    unfoldable pub handle : Matcher → (V → Headers → R) → Dispatcher V R → ℕ × Dispatcher V R
    handle matcher handler d = Dispatcher.handle (matches matcher) handler d

    -- A named subscriber, on the dispatcher that it was made with.
    unfoldable pub subscribe :
        Str
        → GuardSource V
        → (V → Headers → R)
        → Dispatcher V (Checked R)
        → ℕ × Dispatcher V (Checked R)
    subscribe name source handler d =
        let (event_name, guard) = split_prefix name source in
        Dispatcher.handle (λ m. is_text (message_class platform m) event_name)
          (check event_name guard handler) d
