-- ===== src/Socket/Invariant.antt =====
-- What holds of js/src/PersistentWebSocket.ts in every state that it can reach.
use interop.Base.{ℕ, ◌≡◌, ◌≢◌, refl, ap, sym, ◌∙◌, inl, inr, List, [], ◌∷◌, ◌++◌, length, arith}
use interop.Socket.{
  State, Reaction, Options, ReadyState, connecting, open_state, closed, remove, on_close, Step,
  opens, drops, loses, fires, times_out, user_closes, Reach, start, next,
}
use interop.Socket.Handlers.{
  Gone, create-Inv, on_open-Inv, on_close_open-Inv, on_close_closed-Inv, on_close_connecting-Inv,
  on_timer-Inv, close-Inv, on_timeout-Inv,
}
use interop.Socket.Connections.{Inv, only_one, nil_of_length, remove_only, no_timeout}

module _ (o : Options) (s : State) (v : Inv o s) where
  -- The only socket stands alone.
  pub dialing_alone :
      (ws : ℕ) (before after : List ℕ)
      → s.dialing ≡ before ++ ws ∷ after
      → (s.dialing ≡ ws ∷ []) × (s.established ≡ []) × (s.timers ≡ 0)
  dialing_alone ws before after e =
      let d : s.dialing ≡ ws ∷ [] =
        only_one s.dialing before after ws e (omega (arith, v.single)) in
      (
        d,
        nil_of_length s.established (omega (arith, v.single, ap length d)),
        omega (arith, v.single, ap length d),
      )

  pub established_alone :
      (ws : ℕ) (before after : List ℕ)
      → s.established ≡ before ++ ws ∷ after
      → (s.dialing ≡ []) × (s.established ≡ ws ∷ []) × (s.timers ≡ 0)
  established_alone ws before after e =
      let d : s.established ≡ ws ∷ [] =
        only_one s.established before after ws e (omega (arith, v.single)) in
      (
        nil_of_length s.dialing (omega (arith, v.single, ap length d)),
        d,
        omega (arith, v.single, ap length d),
      )

  not_open_dialing : (ws : ℕ) → s.dialing ≡ ws ∷ [] → s.ready_state ≢ open_state
  not_open_dialing ws d r =
      let (u, e, _) = v.promised r in omega (arith, v.single, ap length d, ap length e)

  -- A timeout is that of the socket that is dialed.
  pub timeout_dialing :
      (ws : ℕ) (before after : List ℕ) → s.timeouts ≡ before ++ ws ∷ after → s.dialing ≡ ws ∷ []
  timeout_dialing ws before after e = elim v.timely [
    | inl none_left ↦ absurd (not_nil before (sym none_left ∙ e))
    | inr same ↦ (dialing_alone ws before after (sym same ∙ e)).0
  ]
    where
      not_nil : (before : List ℕ) → [] ≡ before ++ ws ∷ after → ⊥
      not_nil [] h = cc h
      not_nil (b ∷ before) h = cc h

  dropped-Inv :
      (reaction : Reaction) (ws : ℕ) (before after : List ℕ)
      → s.dialing ≡ before ++ ws ∷ after
      → Inv o (on_close o reaction ws s)
  dropped-Inv reaction ws before after e = go s.ready_state refl
    where
      alone : (s.dialing ≡ ws ∷ []) × (s.established ≡ []) × (s.timers ≡ 0)
      alone = dialing_alone ws before after e

      gone : Gone o s v ws
      gone = (
        rw alone.0 (remove_only ws),
        rw alone.1 (unfold remove in refl),
        alone.2,
        no_timeout o s v ws (inr alone.0),
      )

      go : (r : ReadyState) → s.ready_state ≡ r → Inv o (on_close o reaction ws s)
      go connecting r = on_close_connecting-Inv o s v reaction ws r gone
      go open_state r = absurd (not_open_dialing ws alone.0 r)
      go closed r = on_close_closed-Inv o s v reaction ws r gone

  lost-Inv :
      (reaction : Reaction) (ws : ℕ) (before after : List ℕ)
      → s.established ≡ before ++ ws ∷ after
      → Inv o (on_close o reaction ws s)
  lost-Inv reaction ws before after e = go s.ready_state refl
    where
      alone : (s.dialing ≡ []) × (s.established ≡ ws ∷ []) × (s.timers ≡ 0)
      alone = established_alone ws before after e

      gone : Gone o s v ws
      gone = (
        rw alone.0 (unfold remove in refl),
        rw alone.1 (remove_only ws),
        alone.2,
        no_timeout o s v ws (inl alone.0),
      )

      go : (r : ReadyState) → s.ready_state ≡ r → Inv o (on_close o reaction ws s)
      go connecting r = absurd (omega (arith, v.trying r, ap length alone.0, alone.2))
      go open_state r = on_close_open-Inv o s v reaction ws r gone
      go closed r = on_close_closed-Inv o s v reaction ws r gone

-- Whatever the sockets, the timers and the user do, the invariant is kept.
pub Step-Inv : {o : Options} {s t : State} → Inv o s → Step o s t → Inv o t
Step-Inv {o} {s} v (opens r ws before after e) =
    let (d, g, t) = dialing_alone o s v ws before after e in on_open-Inv o r s v ws d g t
Step-Inv {o} {s} v (drops r ws before after e) = dropped-Inv o s v r ws before after e
Step-Inv {o} {s} v (loses r ws before after e) = lost-Inv o s v r ws before after e
Step-Inv {o} {s} v (fires n e) =
    on_timer-Inv o s v (nil_of_length s.dialing (omega (arith, v.single)))
      (nil_of_length s.established (omega (arith, v.single))) (omega (arith, v.single))
Step-Inv {o} {s} v (times_out ws before after e) =
    on_timeout-Inv o s v ws (timeout_dialing o s v ws before after e)
Step-Inv {o} {s} v user_closes = close-Inv o s v

-- In every state that the persistent web socket can reach, also if listeners close it in a
-- dispatch: one connection is made or kept at a time; the connect timeouts that are left are those
-- of the socket that is being dialed; while the socket is open its promise has the established
-- socket; while it is connecting an attempt is under way or will be made, the promise is pending,
-- and no more than maxRetries attempts have failed.
pub Reach-Inv : (o : Options) (s : State) → Reach o s → Inv o s
Reach-Inv o s start = create-Inv o
Reach-Inv o s (next r step) = Step-Inv (Reach-Inv o _ r) step
