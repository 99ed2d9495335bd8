-- ===== src/Events/Tests.antt =====
-- Listeners at concrete events, among them those of createConstrainedEventTarget.spec.ts.
use interop.Base.{
  inl, str_eq, ℕ, List, Str, ◌++◌, ◌==◌, if◌then◌else◌, ◌≡◌, refl, sym, true, [], ◌∷◌, none, some,
  codes,
}
use mathlib.Core.Option.{none-ne-some}
use interop.Events.{
  Options, omitted, options, Listeners, Running, Body, add_event_listener, dispatch_event,
  listener_error, type_error, remove_event_listener, stack_of,
}
use interop.Events.Laws.{registered, or_none}
use interop.Prototype.{is_one_of}
use interop.Events.Dispatch.{
  DispatchCases, noted_dispatch, outcome, called, dispatch_event-called, Delivered,
  dispatch_event-Delivered, dispatch_event-duplicate,
}

abbrev append : Str
append = codes "append"

abbrev for_good : Options
for_good = record { capture = none; once = none }

abbrev only_once : Options
only_once = record { capture = none; once = some true }

abbrev two_listeners : Listeners
two_listeners = (append, (1, only_once) ∷ (2, for_good) ∷ []) ∷ []

abbrev running : Listeners → Running (Unit {0})
running ls = record { default_prevented = none; listeners = ls; world = tt }

-- Listeners that do nothing.
abbrev idle : Body Str (Unit {0})
idle l type s = (none, s)

-- Listeners that remove the second, and add another.
abbrev busy : Body Str (Unit {0})
busy l type s = (
  none,
  record s {
    listeners =
        or_none
          (add_event_listener type 3 omitted (remove_event_listener type 2 omitted s.listeners));
  },
)

-- A first listener that throws.
abbrev throwing : Body Str (Unit {0})
throwing l type s = (if l == 1 then some (codes "no") else none, s)

dispatch_event-called_example : DispatchCases busy append (running two_listeners)
unfolding stack_of
dispatch_event-called_example = dispatch_event-called busy append (running two_listeners)

called_in_order : called busy append (running two_listeners) ≡ (1, none) ∷ (2, none) ∷ []
unfolding dispatch_event
called_in_order = refl

called_until_error : noted_dispatch throwing append (running two_listeners) ≡ (
  inl (listener_error (codes "no")),
  record {
    default_prevented = none;
    listeners = (append, (2, for_good) ∷ []) ∷ [];
    world = ((1, some (codes "no")) ∷ [], tt);
  },
)
unfolding dispatch_event
called_until_error = refl

inherited_thrown : outcome idle (codes "constructor") (running two_listeners) ≡ inl type_error
unfolding dispatch_event is_one_of str_eq
inherited_thrown = refl

inherited_not_added : add_event_listener (codes "constructor") 1 omitted two_listeners ≡ none
unfolding add_event_listener is_one_of str_eq
inherited_not_added = refl

dispatch_event-Delivered_example : Delivered idle append (running two_listeners)
unfolding stack_of
dispatch_event-Delivered_example =
    dispatch_event-Delivered idle append (running two_listeners) (λ h. none-ne-some _ (sym h.0))
      (λ l type s. refl) (λ l type s. refl) ((refl, tt), (tt, tt))

dispatch_once :
    called idle append (dispatch_event idle append (running two_listeners)).1 ≡ (2, none) ∷ []
unfolding dispatch_event
dispatch_once = refl

-- A listener that dispatches the event again is not called again if it was added with `once`.
abbrev again : Body Str (List ℕ)
again l type s =
    (none, if l == 1 then (dispatch_event note type (note l type s).1).1 else (note l type s).1)
  where
    note : Body Str (List ℕ)
    note l type s = (none, record s { world = s.world ++ l ∷ [] })

dispatch_again :
    (dispatch_event again append
      (record { default_prevented = none; listeners = two_listeners; world = [] })).1.world
    ≡ 1 ∷ 2 ∷ 2 ∷ []
unfolding dispatch_event
dispatch_again = refl

abbrev twice : Listeners
twice = or_none (
    add_event_listener append 7 (options only_once)
      (or_none (add_event_listener append 7 omitted [])))

dispatch_event-duplicate_example :
    registered append (dispatch_event idle append (running twice)).1.listeners ≡ (7, only_once) ∷ []
unfolding add_event_listener is_one_of str_eq
dispatch_event-duplicate_example =
    dispatch_event-duplicate idle append (running twice) 7 for_good only_once (λ l type s. refl)
      (λ l type s. refl) refl refl refl refl
