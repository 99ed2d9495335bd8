-- ===== src/Socket/Connections.antt =====
-- The invariant of js/src/PersistentWebSocket.ts: what connections, timers and timeouts there are, and
-- what its promise has.
use interop.Base.{
  ℕ, ◌+◌, ◌≤◌, ◌<◌, ◌≡◌, ◌⊎◌, refl, ap, List, [], ◌∷◌, ◌++◌, none, some, pos, length, length-append,
  arith, inl, inr,
}
use interop.Promise.{fulfilled, outcome_of}
use interop.Socket.{State, Options, connecting, open_state, remove}

pub record Inv (o : Options) (s : State) : Type 0 where
  -- One connection is made or kept at a time.
  pub single : length s.dialing + length s.established + s.timers ≤ 1
  -- The timeouts that are left are those of the sockets that are dialed.
  pub timely : (s.timeouts ≡ []) ⊎ (s.timeouts ≡ s.dialing)
  pub fresh : (p : ℕ) → s.promise < p → outcome_of p s.outcomes ≡ none
  -- While the socket is open, the promise has the one that is established.
  pub promised :
      s.ready_state ≡ open_state
      → (ws : ℕ) × (s.established ≡ ws ∷ [])
        × (outcome_of s.promise s.outcomes ≡ some (fulfilled ws))
  -- While it is connecting, an attempt is under way or will be made.
  pub trying : s.ready_state ≡ connecting → length s.dialing + s.timers ≡ 1
  pub pending : length s.dialing + s.timers ≡ 1 → outcome_of s.promise s.outcomes ≡ none
  pub reset : s.ready_state ≡ open_state → s.attempts ≡ 0
  pub bounded : (n : ℕ) → o.max_retries ≡ some (pos n) → s.ready_state ≡ connecting → s.attempts ≤ n

pub only_one :
    (xs before after : List ℕ) (ws : ℕ) → xs ≡ before ++ ws ∷ after → length xs ≤ 1 → xs ≡ ws ∷ []
only_one [] [] after ws e h = absurd (cc e)
only_one [] (b ∷ before) after ws e h = absurd (cc e)
only_one (x ∷ []) [] after ws e h = cc
only_one (x ∷ []) (b ∷ before) after ws e h =
    absurd (omega (arith, ap length e, length-append before (ws ∷ after)))
only_one (x ∷ y ∷ xs) before after ws e h = absurd (omega arith)

pub nil_of_length : (xs : List ℕ) → length xs ≡ 0 → xs ≡ []
nil_of_length [] h = refl
nil_of_length (x ∷ xs) h = absurd (omega arith)

pub remove_only : (ws : ℕ) → remove ws (ws ∷ []) ≡ []
unfolding remove
remove_only ws = ground arith

module _ (o : Options) (s : State) (v : Inv o s) where
  -- A socket that is dialed alone, or is gone, leaves no timeout.
  pub no_timeout : (ws : ℕ) → (s.dialing ≡ []) ⊎ (s.dialing ≡ ws ∷ []) → remove ws s.timeouts ≡ []
  unfolding remove
  no_timeout ws (inl d) = elim v.timely [
    | inl none_left ↦ rw none_left refl
    | inr same ↦ rw (same, d) refl
  ]
  no_timeout ws (inr d) = elim v.timely [
    | inl none_left ↦ rw none_left refl
    | inr same ↦ rw (same, d) (remove_only ws)
  ]
