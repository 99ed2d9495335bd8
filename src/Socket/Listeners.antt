-- ===== src/Socket/Listeners.antt =====
-- What listeners of js/src/PersistentWebSocket.ts that close it in a dispatch come to.
use interop.Base.{ℕ, suc, ◌≡◌, refl, sym, ap, ◌∙◌, [], ◌∷◌, ◌++◌, List, none, arith, append_assoc}
use interop.Promise.{outcome_of}
use interop.Socket.{
  State, Options, Effect, connecting, open_state, remove, close, close_promised, on_open, on_close,
  on_timer, closes_of, closes_socket, call_close, stay_silent, loses, fires, opens, Reach, next,
  emit, dispatches_close, opened,
}
use interop.Socket.Connections.{remove_only}
use interop.Socket.Closing.{on_close_open_state, LeftOpen}
use interop.Socket.Invariant.{Reach-Inv, established_alone}

-- A close while the promise is pending waits for it.
close_pending :
    (s : State)
    → s.ready_state ≡ open_state
    → outcome_of s.promise s.outcomes ≡ none
    → (close s).closing ≡ s.closing ++ s.promise ∷ []
unfolding close close_promised
close_pending s r e = rw (r, close) (rw (e, close_promised) refl)

closes_of-last :
    (ws p : ℕ) (ps : List ℕ)
    → closes_of ws p (ps ++ p ∷ []) ≡ closes_of ws p ps ++ closes_socket ws ∷ []
unfolding closes_of
closes_of-last ws p [] = ground arith
closes_of-last ws p (q ∷ ps) = ground (arith, closes_of-last ws p ps)

-- The next socket has opened, and is asked to close.
pub record OpenAgain (o : Options) (ws : ℕ) (u : State) : Type 0 where
  pub reached : Reach o u
  pub ready : u.ready_state ≡ open_state
  pub only : u.established ≡ ws ∷ []
  pub asked : (before : List Effect) × (u.effects ≡ before ++ closes_socket ws ∷ [])

module _ (o : Options) (s : State) (ws : ℕ) (reach : Reach o s) where
  lost_closing :
      s.ready_state ≡ open_state
      → (on_close o call_close ws s).closing ≡ s.closing ++ suc s.promise ∷ []
  unfolding on_close
  lost_closing r =
      rw (r, on_close)
        (close_pending
          (emit (dispatches_close ws) (record s {
            dialing = remove ws s.dialing;
            established = remove ws s.established;
            timeouts = remove ws s.timeouts;
            promise = suc s.promise;
          }))
          r ((Reach-Inv o s reach).fresh (suc s.promise) (omega arith)))

  -- An open persistent web socket, in any reachable state, loses its connection, and a listener of
  -- the close event closes it. It is not closed: it is connecting, with the timer that connects
  -- again. When the timer has fired and the next socket opens, it is open again with that socket,
  -- and the browser is asked to close it.
  pub close-again :
      s.ready_state ≡ open_state
      → s.established ≡ ws ∷ []
      → let t = on_close o call_close ws s in
        (t.ready_state ≡ connecting)
        × (t.timers ≡ 1)
        × OpenAgain o s.sockets (on_open stay_silent s.sockets (on_timer o t))
  unfolding on_timer on_open remove
  close-again r e = (
    ap (λ x. x.ready_state) left,
    timer,
    record {
      reached =
          next (next (next reach (loses call_close ws [] [] e)) (fires 0 timer))
            (opens stay_silent s.sockets [] [] dialed);
      ready = refl;
      only = rw (ap (λ x. x.established) left) (rw e (rw (remove_only ws) refl));
      asked = (
        (opened s.sockets (on_timer o t)).effects ++ closes_of s.sockets (suc s.promise) s.closing,
        ap (◌++◌ (opened s.sockets (on_timer o t)).effects) called
            ∙ sym (
                append_assoc (opened s.sockets (on_timer o t)).effects
                  (closes_of s.sockets (suc s.promise) s.closing) (closes_socket s.sockets ∷ [])),
      );
    },
  )
    where
      t : State
      t = on_close o call_close ws s

      left : LeftOpen ws s t
      left = on_close_open_state o call_close ws s r

      alone : (s.dialing ≡ []) × (s.established ≡ ws ∷ []) × (s.timers ≡ 0)
      alone = established_alone o s (Reach-Inv o s reach) ws [] [] e

      timer : t.timers ≡ 1
      timer = ap (λ x. x.timers) left ∙ ap suc alone.2

      dialed : (on_timer o t).dialing ≡ s.sockets ∷ []
      dialed = rw left (rw alone.0 refl)

      called :
          closes_of s.sockets t.promise t.closing
          ≡ closes_of s.sockets (suc s.promise) s.closing ++ closes_socket s.sockets ∷ []
      called =
          ap (λ p. closes_of s.sockets p t.closing) (ap (λ x. x.promise) left)
          ∙ ap (closes_of s.sockets (suc s.promise)) (lost_closing r)
          ∙ closes_of-last s.sockets (suc s.promise) s.closing
