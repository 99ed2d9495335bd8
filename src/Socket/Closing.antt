-- ===== src/Socket/Closing.antt =====
-- What a close and the loss of a socket make of the state of js/src/PersistentWebSocket.ts, whatever the
-- listeners do.
use interop.Base.{ℕ, suc, ◌≡◌, ◌∙◌, refl, ap, [], ◌∷◌, ◌++◌, Bool-cases, Option-cases, inl, inr}
use interop.Promise.{fulfilled, rejected, outcome_of, settle}
use interop.Socket.{
  State, ReadyState, Reaction, stay_silent, call_close, react, emit, settle_promise,
  set_connect_timer, dispatches_close, open_state, Options, connecting, open_state, closed, remove,
  is_open, close_promised, close, on_close, connection_closed,
}

pub close_unopened :
    (s : State) → s.ready_state ≡ connecting → close s ≡ record s { ready_state = closed }
unfolding close
close_unopened s r = rw (r, close) refl

pub close_state :
    (s : State)
    → close s
      ≡ record s { ready_state = closed; effects = (close s).effects; closing = (close s).closing }
unfolding close
close_state s = elim (Bool-cases (is_open s.ready_state)) [
  | inl was ↦ elim (Option-cases (outcome_of s.promise s.outcomes)) [
    | inl waits ↦ rw (was, close) (rw (waits, close_promised) refl)
    | inr (fulfilled ws, has) ↦ rw (was, close) (rw (has, close_promised) refl)
    | inr (rejected e, has) ↦ rw (was, close) (rw (has, close_promised) refl)
  ]
  | inr other ↦ rw (other, close) refl
]

-- Listeners that close the socket change what the promise and the browser will do, and `readyState`.
pub react_state :
    (reaction : Reaction) (s : State)
    → let t = react reaction s in
      t ≡ record s { ready_state = t.ready_state; effects = t.effects; closing = t.closing }
react_state stay_silent s = refl
react_state call_close s = close_state s ∙ rw (close_state s) refl

-- What the loss of an open connection leaves, whatever the listeners do.
abbrev pub LeftOpen : ℕ → State → State → Type 0
LeftOpen ws s t = t ≡ record s {
  ready_state = connecting;
  dialing = remove ws s.dialing;
  established = remove ws s.established;
  timeouts = remove ws s.timeouts;
  promise = suc s.promise;
  timers = suc s.timers;
  effects = t.effects;
  closing = t.closing;
}

pub on_close_open_state :
    (o : Options) (reaction : Reaction) (ws : ℕ) (s : State)
    → s.ready_state ≡ open_state
    → LeftOpen ws s (on_close o reaction ws s)
unfolding on_close
on_close_open_state o reaction ws s r =
    rw (r, on_close)
      (ap (λ t. record (set_connect_timer 0 t) { ready_state = connecting })
        (react_state reaction (
          emit (dispatches_close ws) (record s {
            dialing = remove ws s.dialing;
            established = remove ws s.established;
            timeouts = remove ws s.timeouts;
            promise = suc s.promise;
          }))))

-- While it is closed, the listeners do nothing more by closing it.
pub react_closed : (reaction : Reaction) (s : State) → s.ready_state ≡ closed → react reaction s ≡ s
unfolding close
react_closed stay_silent s r = refl
react_closed call_close s r = rw (r, close) refl

pub on_close_closed_state :
    (o : Options) (reaction : Reaction) (ws : ℕ) (s : State)
    → s.ready_state ≡ closed
    → on_close o reaction ws s ≡ record s {
      dialing = remove ws s.dialing;
      established = remove ws s.established;
      timeouts = remove ws s.timeouts;
      outcomes = settle s.promise (rejected connection_closed) s.outcomes;
      effects = s.effects ++ dispatches_close ws ∷ [];
    }
unfolding on_close
on_close_closed_state o reaction ws s r =
    rw (r, on_close)
      (ap (settle_promise (rejected connection_closed))
          (react_closed reaction (told s.ready_state) r)
        ∙ ap (λ ready. settle_promise (rejected connection_closed) (told ready)) r)
  where
    told : ReadyState → State
    told ready = emit (dispatches_close ws) (record s {
      ready_state = ready;
      dialing = remove ws s.dialing;
      established = remove ws s.established;
      timeouts = remove ws s.timeouts;
    })
