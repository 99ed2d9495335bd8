-- ===== src/Socket/Handlers.antt =====
-- That each handler of js/src/PersistentWebSocket.ts keeps its invariant.
use interop.Base.{
  ℕ, suc, ◌≤◌, ◌<◌, ◌≡◌, ◌∙◌, refl, ap, false, [], ◌∷◌, Option, none, some, ℤ, pos, length, arith,
  Bool-cases, inl, inr,
}
use interop.Promise.{Outcome, fulfilled, rejected, outcome_of, settle, outcome_of-settle}
use interop.Socket.{
  State, Reaction, stay_silent, call_close, react, opened, call_back, open_state, Options,
  connecting, open_state, closed, remove, on_open, close, on_close, on_timer, on_timeout,
  create_persistent_web_socket, reached, SocketError, connection_closed, max_retries_exceeded,
}
use interop.Socket.Connections.{Inv, no_timeout, remove_only}
use interop.Socket.Closing.{close_state, close_unopened, on_close_closed_state, on_close_open_state}

pub create-Inv : (o : Options) → Inv o (create_persistent_web_socket o)
unfolding create_persistent_web_socket outcome_of
create-Inv o = record {
  single = omega arith;
  timely = inr refl;
  fresh = λ p h. refl;
  promised = λ e. absurd (cc e);
  trying = λ e. omega arith;
  pending = λ h. refl;
  reset = λ e. refl;
  bounded = λ n m e. omega arith;
}

not_reached : (m : Option ℤ) (a n : ℕ) → m ≡ some (pos n) → reached a m ≡ false → a ≤ n → suc a ≤ n
not_reached m a n e h l = ground arith

module _ (o : Options) (s : State) (v : Inv o s) where
  settled_fresh :
      (r : Outcome ℕ SocketError) (p : ℕ)
      → s.promise < p
      → outcome_of p (settle s.promise r s.outcomes) ≡ none
  settled_fresh r p h = ground (arith, outcome_of-settle s.promise p r s.outcomes, v.fresh p h)

  opened-Inv :
      (ws : ℕ) → s.dialing ≡ ws ∷ [] → s.established ≡ [] → s.timers ≡ 0 → Inv o (opened ws s)
  opened-Inv ws d e t =
      let before : outcome_of s.promise s.outcomes ≡ none =
        v.pending (omega (arith, ap length d)) in
      record {
        single = rw (d, e, t, remove_only ws) (omega arith);
        timely = inl (no_timeout o s v ws (inr d));
        fresh = settled_fresh (fulfilled ws);
        promised = λ _. (
          ws,
          rw e refl,
          ground (arith, outcome_of-settle s.promise s.promise (fulfilled ws) s.outcomes),
        );
        trying = λ q. absurd (cc q);
        pending = λ q. absurd (omega (arith, rw (d, t, remove_only ws) at q));
        reset = λ _. refl;
        bounded = λ n m q. absurd (cc q);
      }

  -- What is left when the only socket is gone.
  abbrev pub Gone : ℕ → Type 0
  Gone ws =
      (remove ws s.dialing ≡ [])
      × (remove ws s.established ≡ [])
      × (s.timers ≡ 0)
      × (remove ws s.timeouts ≡ [])

  pub on_close_open-Inv :
      (reaction : Reaction) (ws : ℕ)
      → s.ready_state ≡ open_state
      → Gone ws
      → Inv o (on_close o reaction ws s)
  on_close_open-Inv reaction ws r (d, e, t, x) =
      rw (on_close_open_state o reaction ws s r) (record {
        single = rw (d, e, t) (omega arith);
        timely = inl x;
        fresh = λ p h. v.fresh p (omega arith);
        promised = λ q. absurd (cc q);
        trying = λ q. rw (d, t) refl;
        pending = λ q. v.fresh (suc s.promise) (omega arith);
        reset = λ q. absurd (cc q);
        bounded = λ n m q. omega (arith, v.reset r);
      })

  pub on_close_closed-Inv :
      (reaction : Reaction) (ws : ℕ)
      → s.ready_state ≡ closed
      → Gone ws
      → Inv o (on_close o reaction ws s)
  on_close_closed-Inv reaction ws r (d, e, t, x) =
      rw (on_close_closed_state o reaction ws s r) (record {
        single = rw (d, e, t) (omega arith);
        timely = inl x;
        fresh = settled_fresh (rejected connection_closed);
        promised = λ q. absurd (cc (r, q));
        trying = λ q. absurd (cc (r, q));
        pending = λ q. absurd (omega (arith, rw (d, t) at q));
        reset = λ q. absurd (cc (r, q));
        bounded = λ n m q. absurd (cc (r, q));
      })

  pub on_close_connecting-Inv :
      (reaction : Reaction) (ws : ℕ)
      → s.ready_state ≡ connecting
      → Gone ws
      → Inv o (on_close o reaction ws s)
  unfolding on_close
  on_close_connecting-Inv reaction ws r (d, e, t, x) =
      elim (Bool-cases (reached s.attempts o.max_retries)) [
        | inl over ↦
            rw (r, on_close)
              (rw over (
                rw (close_unopened counted r) (record {
                  single = rw (d, e, t) (omega arith);
                  timely = inl x;
                  fresh = settled_fresh (rejected max_retries_exceeded);
                  promised = λ q. absurd (cc q);
                  trying = λ q. absurd (cc q);
                  pending = λ q. absurd (omega (arith, rw (d, t) at q));
                  reset = λ q. absurd (cc q);
                  bounded = λ n m q. absurd (cc q);
                })))
        | inr more ↦
            rw (r, on_close)
              (rw more (record {
                single = rw (d, e, t) (omega arith);
                timely = inl x;
                fresh = v.fresh;
                promised = λ q. absurd (cc q);
                trying = λ q. rw (d, t) refl;
                pending = λ q. v.pending (v.trying r);
                reset = λ q. absurd (cc q);
                bounded = λ n m q. not_reached o.max_retries s.attempts n m more (v.bounded n m r);
              }))
      ]
    where
      counted : State
      counted = record s {
        attempts = suc s.attempts;
        dialing = remove ws s.dialing;
        established = remove ws s.established;
        timeouts = remove ws s.timeouts;
      }

  pub on_timer-Inv : s.dialing ≡ [] → s.established ≡ [] → s.timers ≡ 1 → Inv o (on_timer o s)
  unfolding on_timer
  on_timer-Inv d e t = record {
    single = rw (d, e, t) (omega arith);
    timely = inr (rw (none_timed, d) refl);
    fresh = v.fresh;
    promised = λ q. absurd (no_socket (v.promised q));
    trying = λ q. rw (d, t) refl;
    pending = λ q. v.pending (omega (arith, ap length d));
    reset = v.reset;
    bounded = v.bounded;
  }
    where
      none_timed : s.timeouts ≡ []
      none_timed = elim v.timely [ inl none_left ↦ none_left | inr same ↦ same ∙ d ]

      no_socket :
          (ws : ℕ) × (s.established ≡ ws ∷ [])
            × (outcome_of s.promise s.outcomes ≡ some (fulfilled ws))
          → ⊥
      no_socket (ws, p, _) = cc (e, p)

  -- A close by the user changes `readyState` alone, and asks the browser to close an open socket.
  pub close-Inv : Inv o (close s)
  close-Inv = rw (close_state s) (record {
    single = v.single;
    timely = v.timely;
    fresh = v.fresh;
    promised = λ q. absurd (cc q);
    trying = λ q. absurd (cc q);
    pending = v.pending;
    reset = λ q. absurd (cc q);
    bounded = λ n m q. absurd (cc q);
  })

  pub react-Inv : (reaction : Reaction) → Inv o (react reaction s)
  react-Inv stay_silent = v
  react-Inv call_close = close-Inv

  -- A timeout asks the browser to close the socket that is dialed; its close is another event.
  pub on_timeout-Inv : (ws : ℕ) → (s.dialing ≡ ws ∷ []) → Inv o (on_timeout ws s)
  unfolding on_timeout
  on_timeout-Inv ws d = record {
    single = v.single;
    timely = inl (no_timeout o s v ws (inr d));
    fresh = v.fresh;
    promised = v.promised;
    trying = v.trying;
    pending = v.pending;
    reset = v.reset;
    bounded = v.bounded;
  }

-- An open keeps it, also if a listener closes the socket at once.
pub on_open-Inv :
    (o : Options) (reaction : Reaction) (s : State) (v : Inv o s) (ws : ℕ)
    → s.dialing ≡ ws ∷ []
    → s.established ≡ []
    → s.timers ≡ 0
    → Inv o (on_open reaction ws s)
unfolding on_open
on_open-Inv o reaction s v ws d e t =
    called_back (react-Inv o (opened ws s) (opened-Inv o s v ws d e t) reaction)
  where
    called_back : {t : State} → Inv o t → Inv o (call_back ws s.promise t)
    called_back u = record {
      single = u.single;
      timely = u.timely;
      fresh = u.fresh;
      promised = u.promised;
      trying = u.trying;
      pending = u.pending;
      reset = u.reset;
      bounded = u.bounded;
    }
