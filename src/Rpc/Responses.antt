-- ===== src/Rpc/Responses.antt =====
-- What the read loop of js/src/RpcClient/RpcReactor.ts does with the calls that wait.
use interop.Base.{
  ℕ, suc, ◌≡◌, refl, sym, ◌∙◌, ap, ◌≢◌, true, false, List, [], ◌∷◌, Str, str_eq_iff, Option, none,
  some, arith, Bool-cases, Option-cases, inl, inr,
}
use mathlib.Core.Option
use mathlib.Core.Option.{some-injective, none-ne-some}
use mathlib.Core.Bool.{true≢false}
use interop.Text.{Platform}
use interop.Message.{Message}
use interop.Promise.{Outcome, fulfilled, outcome_of, outcome_of-settle}
use interop.Rpc.{Reactor, rpc_id, start_call, receive, receive_all}
use interop.Rpc.Calls.{Waits, IsValid, answers, find_response, find_call-delete, start_call-Waits}
use interop.Rpc.Rounds.{answers_has_id, answered_id, receive_ended, receive_cases}

module _ (platform : Platform) {E : Type 0} where
  receive-Waits :
      (dispatch : Message → Option E) (id : Str) (p : ℕ) (m : Message) (s : Reactor E)
      → answers id m ≡ false
      → Waits id p s
      → Waits id p (receive platform dispatch m s)
  unfolding answers
  receive-Waits dispatch id p m s not_mine w = elim (receive_cases platform dispatch m s) [
    | inr k ↦ record {
      mine = rw k.calls_after w.mine;
      only = rw k.calls_after w.only;
      open_yet = rw k.outcomes_after w.open_yet;
    }
    | inl h ↦
        (let other = sym (answers_has_id id h.id m h.has_id) ∙ not_mine in
          let another : h.promise ≢ p = λ e.
            true≢false
              (sym ((str_eq_iff h.id id).1 (w.only h.id (h.waited ∙ ap some e))) ∙ other) in
          record {
            mine = rw (h.calls_after, find_call-delete h.id id s.calls, other) w.mine;
            only =
                rw h.calls_after
                  (λ j e. w.only j (ground (arith, find_call-delete h.id j s.calls)));
            open_yet =
                rw (h.outcomes_after, outcome_of-settle h.promise p (fulfilled m) s.outcomes)
                  (ground arith);
          })
  ]

  receive-answered :
      (dispatch : Message → Option E) (id : Str) (p : ℕ) (m : Message) (s : Reactor E)
      → s.ended ≡ none
      → answers id m ≡ true
      → Waits id p s
      → outcome_of p (receive platform dispatch m s).outcomes ≡ some (fulfilled m)
  unfolding answers
  receive-answered dispatch id p m s running mine w = elim (receive_cases platform dispatch m s) [
    | inr k ↦ absurd (none-ne-some _ (sym (k.no_call id running (answered_id id m mine)) ∙ w.mine))
    | inl h ↦
        (let same : h.id ≡ id = some-injective _ _ (sym h.has_id ∙ answered_id id m mine) in
          let same_promise : h.promise ≡ p = some-injective _ _ (sym h.waited ∙ rw same w.mine) in
          rw (h.outcomes_after, outcome_of-settle h.promise p (fulfilled m) s.outcomes)
            (rw (same_promise, w.open_yet) (ground arith)))
  ]

  receive-settled :
      (dispatch : Message → Option E) (p : ℕ) (o : Outcome Message E) (m : Message) (s : Reactor E)
      → outcome_of p s.outcomes ≡ some o
      → outcome_of p (receive platform dispatch m s).outcomes ≡ some o
  receive-settled dispatch p o m s e = elim (receive_cases platform dispatch m s) [
    | inr k ↦ rw k.outcomes_after e
    | inl h ↦
        rw (h.outcomes_after, outcome_of-settle h.promise p (fulfilled m) s.outcomes) (ground arith)
  ]

  receive_all-ended :
      (dispatch : Message → Option E) (ms : List Message) (s : Reactor E)
      → s.ended ≢ none
      → receive_all platform dispatch ms s ≡ s
  unfolding receive_all
  receive_all-ended dispatch [] s h = refl
  receive_all-ended dispatch (m ∷ ms) s h =
      ap (receive_all platform dispatch ms) (receive_ended platform dispatch m s h)
      ∙ receive_all-ended dispatch ms s h

  receive_all-running :
      (dispatch : Message → Option E) (ms : List Message) (s : Reactor E)
      → (receive_all platform dispatch ms s).ended ≡ none
      → s.ended ≡ none
  receive_all-running dispatch ms s running = elim (Option-cases s.ended) [
    | inl now ↦ now
    | inr (_, ended) ↦ sym (ap Reactor.ended (receive_all-ended dispatch ms s cc)) ∙ running
  ]

  receive_all-settled :
      (dispatch : Message → Option E) (p : ℕ) (o : Outcome Message E) (ms : List Message)
      (s : Reactor E)
      → outcome_of p s.outcomes ≡ some o
      → outcome_of p (receive_all platform dispatch ms s).outcomes ≡ some o
  unfolding receive_all
  receive_all-settled dispatch p o [] s e = e
  receive_all-settled dispatch p o (m ∷ ms) s e =
      receive_all-settled dispatch p o ms _ (receive-settled dispatch p o m s e)

  receive_all-Waits :
      (dispatch : Message → Option E) (id : Str) (p : ℕ) (ms : List Message) (s : Reactor E)
      → Waits id p s
      → (receive_all platform dispatch ms s).ended ≡ none
      → outcome_of p (receive_all platform dispatch ms s).outcomes
        ≡ Option.map fulfilled (find_response id ms)
  unfolding receive_all find_response
  receive_all-Waits dispatch id p [] s w running = w.open_yet
  receive_all-Waits dispatch id p (m ∷ ms) s w running = elim (Bool-cases (answers id m)) [
    | inl mine ↦ rw mine (
        receive_all-settled dispatch p (fulfilled m) ms _ (
          receive-answered dispatch id p m s (receive_all-running dispatch (m ∷ ms) s running) mine
            w))
    | inr other ↦
        rw other
          (receive_all-Waits dispatch id p ms _ (receive-Waits dispatch id p m s other w) running)
  ]

  -- In a valid state, a call is made and then any messages are received. If the read loop is still
  -- running after them, the promise of the call is resolved with the first of the messages that
  -- has the id of its request, and is not settled if none has.
  pub start_call-response :
      (dispatch : Message → Option E) (session_id : ℕ) (name : Str) (base : Message)
      (ms : List Message) (s : Reactor E)
      → IsValid s
      → (receive_all platform dispatch ms (start_call platform session_id name base s).1).ended
        ≡ none
      → outcome_of
          (start_call platform session_id name base s).0
          (receive_all platform dispatch ms (start_call platform session_id name base s).1).outcomes
        ≡ Option.map fulfilled (find_response (rpc_id session_id (suc s.next_id)) ms)
  unfolding start_call
  start_call-response dispatch session_id name base ms s v running =
      receive_all-Waits dispatch _ _ ms _ (start_call-Waits platform session_id name base s v)
        running

  -- A round of the read loop keeps the state valid: the waiting calls have promises that have been
  -- made, and no promise that is still to be made is settled.
  pub receive-IsValid :
      (dispatch : Message → Option E) (m : Message) (s : Reactor E)
      → IsValid s
      → IsValid (receive platform dispatch m s)
  receive-IsValid dispatch m s v = elim (receive_cases platform dispatch m s) [
    | inr k ↦ record {
      waiting = rw (k.calls_after, k.promises_after) v.waiting;
      fresh = rw (k.outcomes_after, k.promises_after) v.fresh;
    }
    | inl h ↦ record {
      waiting =
          rw (h.calls_after, h.promises_after)
            (λ j p e. v.waiting j p (ground (arith, find_call-delete h.id j s.calls)));
      fresh =
          rw (h.outcomes_after, h.promises_after)
            (λ p after.
              rw (outcome_of-settle h.promise p (fulfilled m) s.outcomes)
                (ground (arith, v.fresh p after, v.waiting h.id h.promise h.waited)));
    }
  ]
