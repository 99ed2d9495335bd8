-- ===== src/Events.antt =====
-- js/src/ConstrainedEventTarget/createConstrainedEventTarget.ts: listeners by type of event. A
-- listener is known by its identity, which is all that `===` compares. What the listeners do when
-- they are called is a parameter of a dispatch.
pub mod Laws
pub mod Loop
pub mod Dispatch
mod Tests
use interop.Base.{
  ℕ, ◌≡◌, Bool, true, false, not, ◌&&◌, List, [], ◌∷◌, ◌++◌, Str, str_eq, same, ◌==◌, if◌then◌else◌,
  Option, none, some, ◌⊎◌, inl, inr,
}
use interop.Prototype.{inherited_names, is_one_of}

-- The fields of AddEventListenerOptions that the code reads, where `none` is `undefined`.
pub record Options : Type 0 where
  pub capture : Option Bool
  pub once : Option Bool

-- `options?: boolean | AddEventListenerOptions`
pub data OptionsArgument : Type 0 where
  omitted : OptionsArgument
  use_capture : Bool → OptionsArgument
  options : Options → OptionsArgument

abbrev pub Stack : Type 0
Stack = List (ℕ × Options)

-- The own properties of `listeners`, as `listeners[type] ||= []` fills it.
abbrev pub Listeners : Type 0
Listeners = List (Str × Stack)

abbrev pub truthy : Option Bool → Bool
truthy none = false
truthy (some b) = b

-- `typeof options === 'object' ? options : {capture: options}`
abbrev pub normalize : OptionsArgument → Options
normalize omitted = record { capture = none; once = none }
normalize (use_capture b) = record { capture = some b; once = none }
normalize (options o) = o

-- The stack at `listeners[type]`, where `none` is that there is no own property.
unfoldable pub stack_of : Str → Listeners → Option Stack
unfolding str_eq
stack_of type [] = none
stack_of type ((t, stack) ∷ ls) = if str_eq t type then some stack else stack_of type ls

unfoldable pub put_stack : Str → Stack → Listeners → Listeners
unfolding str_eq
put_stack type stack [] = (type, stack) ∷ []
put_stack type stack ((t, s) ∷ ls) =
    if str_eq t type then (t, stack) ∷ ls else (t, s) ∷ put_stack type stack ls

abbrev pub or_empty : Option Stack → Stack
or_empty none = []
or_empty (some stack) = stack

-- `listeners[type]` is no stack but what every object has under that name from Object.prototype.
unfoldable pub inherits : Str → Listeners → Bool
unfolding stack_of
inherits type ls = elim (stack_of type ls) [
  | none ↦ is_one_of type inherited_names
  | some stack ↦ false
]

-- An inherited property counts as true and has no `push`: a TypeError, which is `none`.
unfoldable pub add_event_listener : Str → ℕ → OptionsArgument → Listeners → Option Listeners
unfolding inherits put_stack
add_event_listener type listener argument ls =
    if inherits type ls
    then none
    else some
        (put_stack type (or_empty (stack_of type ls) ++ (listener, normalize argument) ∷ []) ls)

-- `!o.capture === !capture`
abbrev pub same_phase : Option Bool → Option Bool → Bool
same_phase a b = same (not (truthy a)) (not (truthy b))

-- The loop that removes the first entry of a listener in a phase.
unfoldable pub splice_first : ℕ → Option Bool → Stack → Stack
splice_first listener capture [] = []
splice_first listener capture ((l, o) ∷ stack) =
    if l == listener && same_phase o.capture capture
    then stack
    else (l, o) ∷ splice_first listener capture stack

-- An inherited property has nothing at index 0, so the loop over it ends at once.
unfoldable pub remove_event_listener : Str → ℕ → OptionsArgument → Listeners → Listeners
unfolding stack_of put_stack splice_first
remove_event_listener type listener argument ls = elim (stack_of type ls) [
  | none ↦ ls
  | some stack ↦ put_stack type (splice_first listener (normalize argument).capture stack) ls
]

-- What there is while listeners run: `defaultPrevented` of the event, the listeners that are registered,
-- and whatever else the listeners change.
pub record Running (W : Type 0) : Type 0 where
  pub default_prevented : Option Bool
  pub listeners : Listeners
  pub world : W

-- What a dispatch throws: a TypeError of its own, or what a listener has thrown.
pub data Thrown (X : Type 0) : Type 0 where
  type_error : Thrown X
  listener_error : X → Thrown X

-- What a listener does when it is called with an event of a type. It may add and remove listeners,
-- dispatch events and change the rest; and it may throw, with the error beside what it has changed.
abbrev pub Body : Type 0 → Type 0 → Type 0
Body X W = ℕ → Str → Running W → Option X × Running W

module _ {X : Type 0} {W : Type 0} (body : Body X W) where
  -- `if (o.once) target.removeEventListener(event.type, l, o)`
  abbrev pub drop_once : Bool → Str → ℕ → Options → Running W → Running W
  drop_once once type l o s =
      if once
      then record s { listeners = remove_event_listener type l (options o) s.listeners }
      else s

  -- The `forEach` over the copy of the stack; an error of a listener ends it.
  unfoldable pub dispatch_each : Str → Stack → Running W → Option X × Running W
  unfolding remove_event_listener
  dispatch_each type [] s = (none, s)
  dispatch_each type ((l, o) ∷ copy) s =
      let (error, s') = body l type (drop_once (truthy o.once) type l o s) in
      elim error [ none ↦ dispatch_each type copy s' | some x ↦ (some x, s') ]

  -- `return !event.defaultPrevented`
  abbrev pub result_of : Option X × Running W → (Thrown X ⊎ Bool) × Running W
  result_of (none, s) = (inr (not (truthy s.default_prevented)), s)
  result_of (some x, s) = (inl (listener_error x), s)

  -- An inherited property has no `slice`: a TypeError.
  unfoldable pub dispatch_event : Str → Running W → (Thrown X ⊎ Bool) × Running W
  unfolding inherits dispatch_each
  dispatch_event type s =
      if inherits type s.listeners then (inl type_error, s) else elim (stack_of type s.listeners) [
        | none ↦ (inr true, s)
        | some stack ↦ result_of (dispatch_each type stack s)
      ]
