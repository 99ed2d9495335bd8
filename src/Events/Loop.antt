-- ===== src/Events/Loop.antt =====
-- The loop over the listeners of a type: what it calls, and which listeners it leaves.
use interop.Base.{
  Bool, ◌&&◌, ℕ, ◌≡◌, refl, sym, ap, ◌∙◌, true, false, List, [], ◌∷◌, ◌++◌, map, Str, str_eq,
  if◌then◌else◌, arith, str_eq_refl, Bool-cases, inl, inr, Option-cases, All, append_assoc,
  append-nil, Option, none, some, subst, not,
}
use interop.Events.{
  Options, Stack, options, truthy, stack_of, splice_first, Running, Body, drop_once, dispatch_each,
  dispatch_event, type_error, listener_error, inherits, result_of,
}
use interop.Prototype.{inherited_names, is_one_of}
use interop.Events.Laws.{registered, registered-remove, same_entry, same_entry_self}

-- What is left of a stack whose listeners have been called: the entries that are not `once`.
unfoldable pub lasting : Stack → Stack
lasting [] = []
lasting ((l, o) ∷ stack) = if truthy o.once then lasting stack else (l, o) ∷ lasting stack

-- No listener stands twice in a phase.
abbrev pub IsDistinct : Stack → Type 0
IsDistinct [] = Unit {0}
IsDistinct (e ∷ stack) = All (λ d. same_entry e d ≡ false) stack × IsDistinct stack

All-middle :
    {A : Type 0} (P : A → Type 0) (xs : List A) (y : A) (ys : List A)
    → All P (xs ++ y ∷ ys)
    → P y × All P (xs ++ ys)
All-middle P [] y ys h = h
All-middle P (x ∷ xs) y ys (h, hs) = let (p, q) = All-middle P xs y ys hs in (p, (h, q))

IsDistinct-remove :
    (kept copy : Stack) (e : ℕ × Options)
    → IsDistinct (kept ++ e ∷ copy)
    → IsDistinct (kept ++ copy)
IsDistinct-remove [] copy e d = d.1
IsDistinct-remove (k ∷ kept) copy e (a, d) =
    ((All-middle _ kept e copy a).1, IsDistinct-remove kept copy e d)

splice_first-middle :
    (kept copy : Stack) (l : ℕ) (o : Options)
    → IsDistinct (kept ++ (l, o) ∷ copy)
    → splice_first l o.capture (kept ++ (l, o) ∷ copy) ≡ kept ++ copy
unfolding splice_first
splice_first-middle [] copy l o d = rw (same_entry_self (l, o)) refl
splice_first-middle ((k, p) ∷ kept) copy l o (a, d) =
    rw ((All-middle _ kept (l, o) copy a).0, splice_first)
      (ap (◌∷◌ (k, p)) (splice_first-middle kept copy l o d))

-- The calls are noted beside whatever the listeners do: who was called, and what it threw.
abbrev pub noted : {X : Type 0} {W : Type 0} → Body X W → Body X (List (ℕ × Option X) × W)
noted body l type s =
    let (error, t) = body l type (record {
      default_prevented = s.default_prevented;
      listeners = s.listeners;
      world = s.world.1;
    }) in
    (
      error,
      record {
        default_prevented = t.default_prevented;
        listeners = t.listeners;
        world = (s.world.0 ++ (l, error) ∷ [], t.world);
      },
    )

-- The calls of listeners that return.
abbrev pub quiet : {X : Type 0} → Stack → List (ℕ × Option X)
quiet stack = map (λ e. (e.0, none)) stack

-- Listeners that neither add nor remove listeners.
abbrev pub Keeps : {X : Type 0} {W : Type 0} → Body X W → Type 0
Keeps {X} {W} body =
    (l : ℕ) (type : Str) (s : Running W) → (body l type s).1.listeners ≡ s.listeners

-- Listeners that do not throw.
abbrev pub Returns : {X : Type 0} {W : Type 0} → Body X W → Type 0
Returns {X} {W} body = (l : ℕ) (type : Str) (s : Running W) → (body l type s).0 ≡ none

module _ {X W : Type 0} (body : Body X W) where
  drop_once_world :
      (once : Bool) (type : Str) (l : ℕ) (o : Options) (s : Running W)
      → (drop_once body once type l o s).world ≡ s.world
  drop_once_world true type l o s = refl
  drop_once_world false type l o s = refl

  drop_once-registered :
      (once : Bool) (type type' : Str) (l : ℕ) (o : Options) (s : Running W)
      → registered type' (drop_once body once type l o s).listeners ≡ (
          if str_eq type type' && once
          then splice_first l o.capture (registered type' s.listeners)
          else registered type' s.listeners)
  drop_once-registered true type type' l o s =
      registered-remove type type' l (options o) s.listeners ∙ ground arith
  drop_once-registered false type type' l o s = ground arith

  -- A listener that returns lets the loop go on.
  pub dispatch_each_next :
      (type : Str) (l : ℕ) (o : Options) (copy : Stack) (s : Running W)
      → (body l type (drop_once body (truthy o.once) type l o s)).0 ≡ none
      → dispatch_each body type ((l, o) ∷ copy) s
        ≡ dispatch_each body type copy (body l type (drop_once body (truthy o.once) type l o s)).1
  unfolding dispatch_each
  dispatch_each_next type l o copy s e = rw (e, dispatch_each) refl

  -- A listener that throws ends it.
  dispatch_each_stop :
      (type : Str) (l : ℕ) (o : Options) (copy : Stack) (s : Running W) (x : X)
      → (body l type (drop_once body (truthy o.once) type l o s)).0 ≡ some x
      → dispatch_each body type ((l, o) ∷ copy) s
        ≡ (some x, (body l type (drop_once body (truthy o.once) type l o s)).1)
  unfolding dispatch_each
  dispatch_each_stop type l o copy s x e = rw (e, dispatch_each) refl

  pub dispatch_each-Returns :
      (type : Str) (copy : Stack) (s : Running W)
      → Returns body
      → (dispatch_each body type copy s).0 ≡ none
  unfolding dispatch_each
  dispatch_each-Returns type [] s returns = refl
  dispatch_each-Returns type ((l, o) ∷ copy) s returns =
      ap (λ r. r.0) (dispatch_each_next type l o copy s (returns l type _))
      ∙ dispatch_each-Returns type copy _ returns

  pub result_of-state : (r : Option X × Running W) → (result_of body r).1 ≡ r.1
  result_of-state (none, s) = refl
  result_of-state (some x, s) = refl

  pub result_of-returned :
      (r : Option X × Running W)
      → r.0 ≡ none
      → (result_of body r).0 ≡ inr (not (truthy r.1.default_prevented))
  result_of-returned (none, s) e = refl
  result_of-returned (some x, s) e = absurd (cc e)

  pub result_of-threw :
      (r : Option X × Running W) (x : X)
      → r.0 ≡ some x
      → (result_of body r).0 ≡ inl (listener_error x)
  result_of-threw (none, s) x e = absurd (cc e)
  result_of-threw (some y, s) x e = ground arith

  -- A type with a stack has its listeners called.
  pub dispatch_event-stack :
      (type : Str) (stack : Stack) (s : Running W)
      → stack_of type s.listeners ≡ some stack
      → dispatch_event body type s ≡ result_of body (dispatch_each body type stack s)
  unfolding dispatch_event
  dispatch_event-stack type stack s present = rw (present, dispatch_event, inherits) refl

  -- A type without one has none, and throws if it is inherited.
  pub dispatch_event-none :
      (type : Str) (s : Running W)
      → stack_of type s.listeners ≡ none
      → dispatch_event body type s
        ≡ (if is_one_of type inherited_names then inl type_error else inr true, s)
  unfolding dispatch_event
  dispatch_event-none type s absent =
      rw (absent, dispatch_event, inherits)
        (elim (Bool-cases (is_one_of type inherited_names)) [
          | inl of_all ↦ rw of_all refl
          | inr own ↦ rw own refl
        ])

  module _ (keeps : Keeps body) (returns : Returns body) where
    pub dispatch_each-left :
        (type : Str) (kept copy : Stack) (s : Running W)
        → registered type s.listeners ≡ kept ++ copy
        → IsDistinct (kept ++ copy)
        → registered type (dispatch_each body type copy s).1.listeners ≡ kept ++ lasting copy
    unfolding dispatch_each lasting
    dispatch_each-left type kept [] s e d = e
    dispatch_each-left type kept ((l, o) ∷ copy) s e d =
        ap (λ r. registered type r.1.listeners)
          (dispatch_each_next type l o copy s (returns l type _))
        ∙ elim (Bool-cases (truthy o.once)) [
          | inl once ↦
              rw (once, lasting)
                (dispatch_each-left type kept copy (body l type (drop_once body true type l o s)).1
                  (ap (registered type) (keeps l type _)
                    ∙ drop_once-registered true type type l o s
                    ∙ rw (str_eq_refl type) (rw e (splice_first-middle kept copy l o d)))
                  (IsDistinct-remove kept copy (l, o) d))
          | inr stays ↦
              rw (stays, lasting)
                (dispatch_each-left type (kept ++ (l, o) ∷ []) copy (body l type s).1
                    (ap (registered type) (keeps l type s)
                      ∙ e
                      ∙ sym (append_assoc kept ((l, o) ∷ []) copy))
                    (rw (append_assoc kept ((l, o) ∷ []) copy) d)
                  ∙ append_assoc kept ((l, o) ∷ []) (lasting copy))
        ]

    pub dispatch_each-other :
        (type type' : Str) (copy : Stack) (s : Running W)
        → str_eq type type' ≡ false
        → registered type' (dispatch_each body type copy s).1.listeners
          ≡ registered type' s.listeners
    unfolding dispatch_each
    dispatch_each-other type type' [] s n = refl
    dispatch_each-other type type' ((l, o) ∷ copy) s n =
        ap (λ r. registered type' r.1.listeners)
          (dispatch_each_next type l o copy s (returns l type _))
        ∙ dispatch_each-other type type' copy
            (body l type (drop_once body (truthy o.once) type l o s)).1 n
        ∙ ap (registered type') (keeps l type _)
        ∙ drop_once-registered (truthy o.once) type type' l o s
        ∙ rw n refl

-- What a loop over a stack calls: all of it, or as far as the first listener that throws.
pub data Calls {X : Type 0} (stack : Stack) (calls : List (ℕ × Option X)) (error : Option X)
    : Type 0 where
  all : calls ≡ quiet stack → error ≡ none → Calls stack calls error
  up_to :
      (before : Stack) (l : ℕ) (o : Options) (after : Stack) (x : X)
      → stack ≡ before ++ (l, o) ∷ after
      → calls ≡ quiet before ++ (l, some x) ∷ []
      → error ≡ some x
      → Calls stack calls error

Calls-cons :
    {X : Type 0} (l : ℕ) (o : Options) (stack : Stack) (calls : List (ℕ × Option X))
    (error : Option X)
    → Calls stack calls error
    → Calls ((l, o) ∷ stack) ((l, none) ∷ calls) error
Calls-cons l o stack calls error (all c e) = all (ap (◌∷◌ (l, none)) c) e
Calls-cons l o stack calls error (up_to before k p after x s c e) =
    up_to ((l, o) ∷ before) k p after x (ap (◌∷◌ (l, o)) s) (ap (◌∷◌ (l, none)) c) e

module _ {X W : Type 0} (body : Body X W) (type : Str) where
  pub dispatch_each-Calls :
      (copy : Stack) (s : Running (List (ℕ × Option X) × W))
      → (calls : List (ℕ × Option X)) × (((dispatch_each (noted body) type copy s).1.world.0
            ≡ s.world.0 ++ calls)
          × Calls copy calls (dispatch_each (noted body) type copy s).0)
  unfolding dispatch_each
  dispatch_each-Calls [] s = ([], (sym (append-nil s.world.0), all refl refl))
  dispatch_each-Calls ((l, o) ∷ copy) s =
      let s1 = drop_once (noted body) (truthy o.once) type l o s in
      let same : s1.world ≡ s.world = drop_once_world (noted body) (truthy o.once) type l o s in
      let s2 = (noted body l type s1).1 in
      elim (Option-cases (noted body l type s1).0) [
        | inl returned ↦
            let next = dispatch_each_next (noted body) type l o copy s returned in
            let (calls, (all_noted, rest)) = dispatch_each-Calls copy s2 in
            (
              (l, none) ∷ calls,
              (
                ap (λ r. r.1.world.0) next
                    ∙ all_noted
                    ∙ ap (λ w. (w.0 ++ (l, (noted body l type s1).0) ∷ []) ++ calls) same
                    ∙ ap (λ e. (s.world.0 ++ (l, e) ∷ []) ++ calls) returned
                    ∙ append_assoc s.world.0 ((l, none) ∷ []) calls,
                subst (Calls ((l, o) ∷ copy) ((l, none) ∷ calls)) (sym (ap (λ r. r.0) next))
                    (Calls-cons l o copy calls _ rest),
              ),
            )
        | inr (x, thrown) ↦
            let stop = dispatch_each_stop (noted body) type l o copy s x thrown in
            (
              (l, some x) ∷ [],
              (
                ap (λ r. r.1.world.0) stop
                    ∙ ap (λ w. w.0 ++ (l, (noted body l type s1).0) ∷ []) same
                    ∙ ap (λ e. s.world.0 ++ (l, e) ∷ []) thrown,
                up_to [] l o copy x refl refl (ap (λ r. r.0) stop),
              ),
            )
      ]
