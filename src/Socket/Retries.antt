-- ===== src/Socket/Retries.antt =====
-- How often js/src/PersistentWebSocket.ts tries to connect, and what closes it.
use interop.Base.{
  ℕ, zero, suc, ◌<◌, ◌≡◌, refl, ap, ◌⊎◌, true, false, [], ◌∷◌, ◌++◌, Option, none, some, ℤ, pos,
  negsuc, arith,
}
use interop.Promise.{rejected, outcome_of, outcome_of-settle}
use interop.Socket.{
  State, stay_silent, Options, connecting, open_state, closed, remove, on_open, close, on_close,
  on_timer, create_persistent_web_socket, opens, fires, user_closes, Reach, next, reached,
  max_retries_exceeded,
}
use interop.Socket.Closing.{close_unopened}
use interop.Socket.Connections.{remove_only}

-- The state after k attempts have failed, none having opened, and the next one has begun.
unfoldable pub after_failures : Options → ℕ → State
after_failures o zero = create_persistent_web_socket o
after_failures o (suc k) = on_timer o (on_close o stay_silent k (after_failures o k))

-- Socket k is being dialed, after k failures.
pub record Trying (k : ℕ) (s : State) : Type 0 where
  pub ready : s.ready_state ≡ connecting
  pub failed : s.attempts ≡ k
  pub only : s.dialing ≡ k ∷ []
  pub none_open : s.established ≡ []
  pub count : s.sockets ≡ suc k
  pub idle : s.timers ≡ 0
  pub waiting : outcome_of s.promise s.outcomes ≡ none

create-Trying : (o : Options) → Trying 0 (create_persistent_web_socket o)
unfolding create_persistent_web_socket outcome_of
create-Trying o = record {
  ready = refl;
  failed = refl;
  only = refl;
  none_open = refl;
  count = refl;
  idle = refl;
  waiting = refl;
}

on_close-waits :
    (o : Options) (s : State) (k : ℕ)
    → Trying k s
    → reached k o.max_retries ≡ false
    → Trying (suc k) (on_timer o (on_close o stay_silent k s))
unfolding on_close on_timer remove
on_close-waits o s k t more =
    let more' : reached s.attempts o.max_retries ≡ false = rw t.failed more in
    rw (t.ready, on_close)
      (rw more' (record {
        ready = refl;
        failed = ap suc t.failed;
        only = rw (t.only, t.count) (ground arith);
        none_open = rw t.none_open refl;
        count = ap suc t.count;
        idle = rw t.idle refl;
        waiting = t.waiting;
      }))

abbrev NotReached : Options → ℕ → Type 0
NotReached o k = (j : ℕ) → j < k → reached j o.max_retries ≡ false

after_failures-Trying : (o : Options) (k : ℕ) → NotReached o k → Trying k (after_failures o k)
unfolding after_failures
after_failures-Trying o zero h = create-Trying o
after_failures-Trying o (suc k) h =
    on_close-waits o (after_failures o k) k (after_failures-Trying o k (λ j l. h j (omega arith)))
      (h k (omega arith))

-- It has given up: no socket, no timer, and the promise rejected.
pub record GaveUp (s : State) : Type 0 where
  pub ready : s.ready_state ≡ closed
  pub no_dialing : s.dialing ≡ []
  pub no_timer : s.timers ≡ 0
  pub failure : outcome_of s.promise s.outcomes ≡ some (rejected max_retries_exceeded)

on_close-GaveUp :
    (o : Options) (s : State) (k : ℕ)
    → Trying k s
    → reached k o.max_retries ≡ true
    → GaveUp (on_close o stay_silent k s)
      × ((on_close o stay_silent k s).sockets ≡ suc k)
      × ((on_close o stay_silent k s).effects ≡ s.effects)
unfolding on_close
on_close-GaveUp o s k t over =
    let over' : reached s.attempts o.max_retries ≡ true = rw t.failed over in
    rw (t.ready, on_close)
      (rw over' (
        rw (close_unopened counted t.ready) (
          record {
            ready = refl;
            no_dialing = rw t.only (remove_only k);
            no_timer = t.idle;
            failure = ground (
              arith,
              outcome_of-settle s.promise s.promise (rejected max_retries_exceeded) s.outcomes,
              t.waiting,
            );
          },
          t.count,
          refl,
        )))
  where
    counted : State
    counted = record s {
      attempts = suc s.attempts;
      dialing = remove k s.dialing;
      established = remove k s.established;
      timeouts = remove k s.timeouts;
    }

reached-ne : (m : Option ℤ) (j n : ℕ) → m ≡ some (pos n) → j < n → reached j m ≡ false
reached-ne m j n e h = ground arith

reached-eq : (m : Option ℤ) (n : ℕ) → m ≡ some (pos n) → reached n m ≡ true
reached-eq m n e = ground arith

-- With maxRetries n, n failures are followed by another attempt each, and failure n + 1 ends it: n
-- + 1 sockets were made, no timer is left, the promise is rejected, and no event is dispatched.
pub max_retries_lem :
    (o : Options) (n : ℕ)
    → o.max_retries ≡ some (pos n)
    → let s = after_failures o n in
      Trying n s
      × GaveUp (on_close o stay_silent n s)
      × ((on_close o stay_silent n s).sockets ≡ suc n)
      × ((on_close o stay_silent n s).effects ≡ s.effects)
max_retries_lem o n e =
    let t = after_failures-Trying o n (λ j l. reached-ne o.max_retries j n e l) in
    let (g, c, f) = on_close-GaveUp o (after_failures o n) n t (reached-eq o.max_retries n e) in
    (t, g, c, f)

abbrev pub IsUnlimited : Option ℤ → Type 0
IsUnlimited m = (m ≡ none) ⊎ ((n : ℕ) × (m ≡ some (negsuc n)))

-- With a negative maxRetries, or none, the persistent web socket never gives up: after any number
-- of failures the next attempt is being made.
pub unlimited_retries :
    (o : Options) (k : ℕ) → IsUnlimited o.max_retries → Trying k (after_failures o k)
unlimited_retries o k u = after_failures-Trying o k (λ j l. never j)
  where
    never : (j : ℕ) → reached j o.max_retries ≡ false
    never j = ground arith

-- A close while connecting does not last: in any reachable state in which a socket is being
-- dialed, that socket may still open after the close, and then readyState is open again.
pub close-on_open :
    (o : Options) (s : State) (ws : ℕ)
    → Reach o s
    → s.ready_state ≡ connecting
    → s.dialing ≡ ws ∷ []
    → Reach o (on_open stay_silent ws (close s))
      × ((close s).ready_state ≡ closed)
      × ((on_open stay_silent ws (close s)).ready_state ≡ open_state)
unfolding on_open
close-on_open o s ws r c d =
    let still : (close s).dialing ≡ ws ∷ [] = rw (close_unopened s c) d in
    (
      next (next r user_closes) (opens stay_silent ws [] [] still),
      rw (close_unopened s c) refl,
      refl,
    )

-- A close while connecting does not stop the timer that connects again: in any reachable state
-- with such a timer, a socket may be dialed after the close.
pub close-on_timer :
    (o : Options) (s : State) (n : ℕ)
    → Reach o s
    → s.ready_state ≡ connecting
    → s.timers ≡ suc n
    → Reach o (on_timer o (close s))
      × ((on_timer o (close s)).dialing ≡ s.dialing ++ s.sockets ∷ [])
unfolding on_timer
close-on_timer o s n r c t =
    let still : (close s).timers ≡ suc n = rw (close_unopened s c) t in
    (next (next r user_closes) (fires n still), rw (close_unopened s c) refl)
