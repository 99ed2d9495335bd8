-- ===== src/Events/Laws.antt =====
-- Which listeners are registered after a listener is added or removed.
use interop.Base.{
  ℕ, ◌≡◌, refl, ap, ◌∙◌, Bool, true, false, ◌&&◌, [], ◌∷◌, ◌++◌, Str, str_eq, ◌==◌, if◌then◌else◌,
  Option, none, some, arith, str_eq_iff, Bool-cases, inl, inr, Option-cases, All,
}
use interop.Events.{
  Options, Stack, Listeners, OptionsArgument, normalize, stack_of, inherits, put_stack,
  splice_first, add_event_listener, remove_event_listener, same_phase, or_empty,
}

pub stack_of-put_stack :
    (type type' : Str) (stack : Stack) (ls : Listeners)
    → stack_of type' (put_stack type stack ls)
      ≡ (if str_eq type type' then some stack else stack_of type' ls)
unfolding stack_of put_stack
stack_of-put_stack type type' stack [] = refl
stack_of-put_stack type type' stack ((t, s) ∷ ls) = ground (
  arith,
  stack_of-put_stack type type' stack ls,
  str_eq_iff t type,
  str_eq_iff t type',
  str_eq_iff type type',
)

-- The listeners after an addition that does not throw.
abbrev pub or_none : Option Listeners → Listeners
or_none none = []
or_none (some ls) = ls

-- The listeners of a type, in order of addition.
abbrev pub registered : Str → Listeners → Stack
registered type ls = or_empty (stack_of type ls)

pub registered-add :
    (type type' : Str) (listener : ℕ) (argument : OptionsArgument) (ls : Listeners)
    → inherits type ls ≡ false
    → registered type' (or_none (add_event_listener type listener argument ls)) ≡ (
        if str_eq type type'
        then registered type' ls ++ (listener, normalize argument) ∷ []
        else registered type' ls)
unfolding add_event_listener
registered-add type type' listener argument ls own = rw own (
    rw
      (stack_of-put_stack type type'
        (or_empty (stack_of type ls) ++ (listener, normalize argument) ∷ []) ls)
      (ground (arith, str_eq_iff type type')))

pub registered-remove :
    (type type' : Str) (listener : ℕ) (argument : OptionsArgument) (ls : Listeners)
    → registered type' (remove_event_listener type listener argument ls) ≡ (
        if str_eq type type'
        then splice_first listener (normalize argument).capture (registered type' ls)
        else registered type' ls)
unfolding remove_event_listener
registered-remove type type' listener argument ls = elim (Option-cases (stack_of type ls)) [
  | inl absent ↦
      rw (absent, remove_event_listener)
        (unfold splice_first in ground (arith, str_eq_iff type type'))
  | inr (stack, present) ↦
      rw (present, remove_event_listener)
        (rw
          (stack_of-put_stack type type' (splice_first listener (normalize argument).capture stack)
            ls)
          (ground (arith, str_eq_iff type type')))
]

abbrev pub same_entry : ℕ × Options → ℕ × Options → Bool
same_entry (l, o) (l', o') = l == l' && same_phase o.capture o'.capture

pub same_entry_self : (e : ℕ × Options) → same_entry e e ≡ true
same_entry_self (l, o) = ground arith

splice_first-last :
    (l : ℕ) (o : Options) (stack : Stack)
    → All (λ e. same_entry e (l, o) ≡ false) stack
    → splice_first l o.capture (stack ++ (l, o) ∷ []) ≡ stack
unfolding splice_first
splice_first-last l o [] h = rw (same_entry_self (l, o)) refl
splice_first-last l o ((k, p) ∷ stack) (h, hs) =
    rw (h, splice_first) (ap (◌∷◌ (k, p)) (splice_first-last l o stack hs))

-- Under a type that is not inherited, a listener that is added and removed again, with the same options, leaves the listeners of every
-- type as they were, if it did not stand in that phase before.
pub registered-remove-add :
    (type type' : Str) (l : ℕ) (argument : OptionsArgument) (ls : Listeners)
    → inherits type ls ≡ false
    → All (λ e. same_entry e (l, normalize argument) ≡ false) (registered type ls)
    → registered type'
        (remove_event_listener type l argument (or_none (add_event_listener type l argument ls)))
      ≡ registered type' ls
registered-remove-add type type' l argument ls own fresh =
    registered-remove type type' l argument (or_none (add_event_listener type l argument ls))
    ∙ rw (registered-add type type' l argument ls own) (elim (Bool-cases (str_eq type type')) [
      | inl hit ↦ rw hit (
          splice_first-last l (normalize argument) (registered type' ls)
            (rw ((str_eq_iff type type').0 hit) at fresh))
      | inr miss ↦ rw miss refl
    ])
