-- ===== src/Events/Dispatch.antt =====
-- What listeners a dispatch calls, and which are left.
use interop.Base.{
  Bool, ℕ, ◌≡◌, refl, sym, ap, ◌∙◌, true, false, List, [], ◌∷◌, ◌++◌, Str, str_eq, same, arith,
  str_eq_refl, Bool-cases, inl, inr, Option-cases, Option, none, some, ◌⊎◌, not,
}
use mathlib.Core.Bool.{true≢false}
use mathlib.Core.Option.{none-ne-some}
use interop.Events.{
  Options, Stack, options, truthy, stack_of, splice_first, Running, Body, drop_once, dispatch_each,
  dispatch_event, Thrown, type_error, listener_error, Listeners,
}
use interop.Prototype.{inherited_names, is_one_of}
use interop.Events.Laws.{registered, registered-remove, same_entry}
use interop.Events.Loop.{
  lasting, IsDistinct, noted, quiet, Keeps, Returns, all, up_to, dispatch_each-left,
  dispatch_each-other, dispatch_each-Returns, dispatch_each_next, result_of-state,
  result_of-returned, dispatch_event-stack, dispatch_event-none, dispatch_each-Calls,
  result_of-threw,
}

-- A dispatch with its calls noted.
abbrev pub noted_dispatch :
    {X : Type 0} {W : Type 0}
    → Body X W
    → Str
    → Running W
    → (Thrown X ⊎ Bool) × Running (List (ℕ × Option X) × W)
noted_dispatch body type s = dispatch_event (noted body) type (record {
  default_prevented = s.default_prevented;
  listeners = s.listeners;
  world = ([], s.world);
})

-- The listeners that a dispatch calls, in order, each with what it threw.
abbrev pub called : {X : Type 0} {W : Type 0} → Body X W → Str → Running W → List (ℕ × Option X)
called body type s = (noted_dispatch body type s).1.world.0

-- How a dispatch ends.
abbrev pub outcome : {X : Type 0} {W : Type 0} → Body X W → Str → Running W → Thrown X ⊎ Bool
outcome body type s = (noted_dispatch body type s).0

-- A type without listeners of its own that is a name of Object.prototype.
abbrev pub Inherited : Str → Listeners → Type 0
Inherited type ls = (stack_of type ls ≡ none) × (is_one_of type inherited_names ≡ true)

module _ {X W : Type 0} (body : Body X W) (type : Str) where
  -- What a dispatch of an event calls, and how it ends.
  pub data DispatchCases (s : Running W) : Type 0 where
    -- There is no stack but an inherited property: a TypeError, and nobody is called.
    no_stack :
        Inherited type s.listeners
        → called body type s ≡ []
        → outcome body type s ≡ inl type_error
        → DispatchCases s
    -- Everybody returns.
    all_called :
        (result : Bool)
        → ¬ Inherited type s.listeners
        → called body type s ≡ quiet (registered type s.listeners)
        → outcome body type s ≡ inr result
        → DispatchCases s
    -- A listener throws, and those after it are not called.
    thrown :
        (before : Stack) (l : ℕ) (o : Options) (after : Stack) (x : X)
        → ¬ Inherited type s.listeners
        → registered type s.listeners ≡ before ++ (l, o) ∷ after
        → called body type s ≡ quiet before ++ (l, some x) ∷ []
        → outcome body type s ≡ inl (listener_error x)
        → DispatchCases s

  -- An event is dispatched, whatever its listeners do when they are called: add and remove
  -- listeners, dispatch other events, or throw. If its type has no listeners of its own but is a
  -- name of Object.prototype, the dispatch throws a TypeError and calls nobody. Otherwise the
  -- listeners that were registered under the type when the dispatch began are called, each entry
  -- once and in order of addition, and the dispatch returns; or this goes as far as the first of
  -- them that throws, the dispatch throws its error, and those after it are not called.
  pub dispatch_event-called : (s : Running W) → DispatchCases s
  dispatch_event-called s =
      let start : Running (List (ℕ × Option X) × W) = record {
        default_prevented = s.default_prevented;
        listeners = s.listeners;
        world = ([], s.world);
      } in
      elim (Option-cases (stack_of type s.listeners)) [
        | inl absent ↦
            let whole = dispatch_event-none (noted body) type start absent in
            elim (Bool-cases (is_one_of type inherited_names)) [
              | inl of_all ↦
                  no_stack (absent, of_all) (ap (λ r. r.1.world.0) whole)
                    (ap (λ r. r.0) whole ∙ rw of_all refl)
              | inr own ↦
                  all_called true (λ h. true≢false (sym h.1 ∙ own))
                    (ap (λ r. r.1.world.0) whole ∙ rw absent refl)
                    (ap (λ r. r.0) whole ∙ rw own refl)
            ]
        | inr (stack, present) ↦
            let run = dispatch_each (noted body) type stack start in
            let whole = dispatch_event-stack (noted body) type stack start present in
            let all_calls : called body type s ≡ run.1.world.0 =
              ap (λ r. r.1.world.0) whole
              ∙ ap (λ t. t.world.0) (result_of-state (noted body) run) in
            let own : ¬ Inherited type s.listeners = λ h. none-ne-some _ (sym h.0 ∙ present) in
            let these : registered type s.listeners ≡ stack = rw present refl in
            let (calls, (all_noted, rest)) = dispatch_each-Calls body type stack start in
            elim rest [
              | all c e ↦
                  all_called (not (truthy run.1.default_prevented)) own
                    (all_calls ∙ all_noted ∙ c ∙ ap quiet (sym these))
                    (ap (λ r. r.0) whole ∙ result_of-returned (noted body) run e)
              | up_to before l o after x c calls_of e ↦
                  thrown before l o after x own (these ∙ c) (all_calls ∙ all_noted ∙ calls_of)
                    (ap (λ r. r.0) whole ∙ result_of-threw (noted body) run x e)
            ]
      ]

-- What a dispatch leaves: the listeners of the event's type that are not `once`, and those of other
-- types.
pub record Delivered {X W : Type 0} (body : Body X W) (type : Str) (s : Running W) : Type 0 where
  pub all_called : called body type s ≡ quiet (registered type s.listeners)
  pub result : Bool
  pub returned : (dispatch_event body type s).0 ≡ inr result
  pub left :
      registered type (dispatch_event body type s).1.listeners
      ≡ lasting (registered type s.listeners)
  pub others :
      (type' : Str)
      → str_eq type type' ≡ false
      → registered type' (dispatch_event body type s).1.listeners ≡ registered type' s.listeners

module _ {X W : Type 0} (body : Body X W) (returns : Returns body) where
  -- Listeners that return are all called.
  dispatch_event-all :
      (type : Str) (s : Running W) → called body type s ≡ quiet (registered type s.listeners)
  dispatch_event-all type s =
      let start : Running (List (ℕ × Option X) × W) = record {
        default_prevented = s.default_prevented;
        listeners = s.listeners;
        world = ([], s.world);
      } in
      elim (Option-cases (stack_of type s.listeners)) [
        | inl absent ↦
            ap (λ r. r.1.world.0) (dispatch_event-none (noted body) type start absent)
            ∙ rw absent refl
        | inr (stack, present) ↦
            let run = dispatch_each (noted body) type stack start in
            let (calls, (all_noted, rest)) = dispatch_each-Calls body type stack start in
            let these : registered type s.listeners ≡ stack = rw present refl in
            elim rest [
              | all c e ↦
                  ap (λ r. r.1.world.0) (dispatch_event-stack (noted body) type stack start present)
                  ∙ ap (λ t. t.world.0) (result_of-state (noted body) run)
                  ∙ all_noted
                  ∙ c
                  ∙ ap quiet (sym these)
              | up_to before l o after x c calls_of e ↦ absurd (
                  cc (
                    sym
                      (dispatch_each-Returns (noted body) type stack start (λ k t u. returns k t _))
                    ∙ e))
            ]
      ]

-- An event's type has listeners of its own or is no name of Object.prototype, no listener stands
-- twice in a phase under it, and the listeners return and add and remove none. Then a dispatch
-- returns, has called every listener of that type once, in order of addition, drops exactly the
-- once ones among them, and changes nothing under other types.
pub dispatch_event-Delivered :
    {X W : Type 0} (body : Body X W) (type : Str) (s : Running W)
    → ¬ Inherited type s.listeners
    → Returns body
    → Keeps body
    → IsDistinct (registered type s.listeners)
    → Delivered body type s
dispatch_event-Delivered body type s own returns keeps d =
    elim (Option-cases (stack_of type s.listeners)) [
      | inl absent ↦
          let not_inherited : is_one_of type inherited_names ≡ false =
            elim (Bool-cases (is_one_of type inherited_names)) [
              | inl of_all ↦ absurd (own (absent, of_all))
              | inr other ↦ other
            ] in
          let whole = dispatch_event-none body type s absent in
          record {
            all_called = dispatch_event-all body returns type s;
            result = true;
            returned = ap (λ r. r.0) whole ∙ rw not_inherited refl;
            left =
                ap (λ r. registered type r.1.listeners) whole ∙ rw absent (unfold lasting in refl);
            others = λ t n. ap (λ r. registered t r.1.listeners) whole;
          }
      | inr (stack, present) ↦
          let same : registered type s.listeners ≡ stack = rw present refl in
          let run = dispatch_each body type stack s in
          let whole : (dispatch_event body type s).1 ≡ run.1 =
            ap (λ r. r.1) (dispatch_event-stack body type stack s present)
            ∙ result_of-state body run in
          record {
            all_called = dispatch_event-all body returns type s;
            result = not (truthy run.1.default_prevented);
            returned =
                ap (λ r. r.0) (dispatch_event-stack body type stack s present)
                ∙ result_of-returned body run (dispatch_each-Returns body type stack s returns);
            left =
                ap (λ t. registered type t.listeners) whole
                ∙ dispatch_each-left body keeps returns type [] stack s same (rw same at d)
                ∙ ap lasting (sym same);
            others = λ t n.
                ap (λ u. registered t u.listeners) whole
                ∙ dispatch_each-other body keeps returns type t stack s n;
          }
    ]

-- If a listener was added for good and then once more with once, in the same phase, and returns
-- without adding or removing a listener, a dispatch drops the entry that was to stay and keeps the
-- one that was to go.
pub dispatch_event-duplicate :
    {X W : Type 0} (body : Body X W) (type : Str) (s : Running W) (l : ℕ) (o o' : Options)
    → Returns body
    → Keeps body
    → registered type s.listeners ≡ (l, o) ∷ (l, o') ∷ []
    → truthy o.once ≡ false
    → truthy o'.once ≡ true
    → same_entry (l, o) (l, o') ≡ true
    → registered type (dispatch_event body type s).1.listeners ≡ (l, o') ∷ []
unfolding dispatch_each splice_first
dispatch_event-duplicate {W = W} body type s l o o' returns keeps e stays once same =
    elim (Option-cases (stack_of type s.listeners)) [
      | inl absent ↦ absurd (ground arith)
      | inr (stack, present) ↦
          let whole : stack ≡ (l, o) ∷ (l, o') ∷ [] = ground arith in
          let t : Running W = (body l type (drop_once body (truthy o.once) type l o s)).1 in
          let t_same : registered type t.listeners ≡ (l, o) ∷ (l, o') ∷ [] =
            ap (registered type) (keeps l type _) ∙ rw stays e in
          ap (λ r. registered type r.1.listeners) (dispatch_event-stack body type stack s present)
          ∙ ap (registered type)
              (ap (λ u. u.listeners) (result_of-state body (dispatch_each body type stack s)))
          ∙ ap (λ c. registered type (dispatch_each body type c s).1.listeners) whole
          ∙ ap (λ r. registered type r.1.listeners)
              (dispatch_each_next body type l o ((l, o') ∷ []) s (returns l type _))
          ∙ ap (λ r. registered type r.1.listeners)
              (dispatch_each_next body type l o' [] t (returns l type _))
          ∙ ap (registered type) (keeps l type _)
          ∙ rw once (
              registered-remove type type l (options o') t.listeners
              ∙ rw (str_eq_refl type) (rw t_same (rw same refl)))
    ]
