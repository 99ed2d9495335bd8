-- ===== src/Rpc/Rounds.antt =====
-- A round of the read loop of js/src/RpcClient/RpcReactor.ts: it hands the message to a call, or leaves
-- the calls as they are.
use interop.Base.{
  ℕ, ◌≡◌, refl, sym, ◌∙◌, ap, ◌⊎◌, ◌≢◌, true, false, Str, str_eq, str_eq_iff, if◌then◌else◌, Option,
  none, some, arith, Bool-cases, Option-cases, inl, inr,
}
use mathlib.Core.Bool.{true≢false}
use interop.Text.{Platform}
use interop.Header
use interop.Headers.{get}
use interop.Message.{Message}
use interop.Messages.{message_id_lem, is_rpc_message, is_rpc_event_message}
use interop.Promise.{fulfilled, settle}
use interop.Rpc.{Reactor, find_call, delete_call, receive, receive_response, receive_event}
use interop.Prototype.{is_one_of, inherited_names}
use interop.Rpc.Calls.{answers}

pub answers_has_id :
    (id j : Str) (m : Message) → get Header.id m.headers ≡ some j → answers id m ≡ str_eq j id
unfolding answers
answers_has_id id j m e = rw (e, answers) refl

pub answered_id : (id : Str) (m : Message) → answers id m ≡ true → get Header.id m.headers ≡ some id
unfolding answers
answered_id id m h = elim (Option-cases (get Header.id m.headers)) [
  | inl no_id ↦ absurd (true≢false (sym h ∙ rw (no_id, answers) refl))
  | inr (j, has) ↦ has ∙ ap some ((str_eq_iff j id).0 (sym (answers_has_id id j m has) ∙ h))
]

-- A round that hands a message to a call.
pub record Hands {E : Type 0} (m : Message) (s s' : Reactor E) : Type 0 where
  pub running : s.ended ≡ none
  pub id : Str
  pub promise : ℕ
  pub has_id : get Header.id m.headers ≡ some id
  pub waited : find_call id s.calls ≡ some promise
  pub calls_after : s'.calls ≡ delete_call id s.calls
  pub outcomes_after : s'.outcomes ≡ settle promise (fulfilled m) s.outcomes
  pub promises_after : s'.next_promise ≡ s.next_promise

-- A round that leaves the calls as they are: the loop has ended, or no call waits for the message.
pub record Keeps {E : Type 0} (m : Message) (s s' : Reactor E) : Type 0 where
  pub no_call :
      (id : Str) → s.ended ≡ none → get Header.id m.headers ≡ some id → find_call id s.calls ≡ none
  pub calls_after : s'.calls ≡ s.calls
  pub outcomes_after : s'.outcomes ≡ s.outcomes
  pub promises_after : s'.next_promise ≡ s.next_promise

kept :
    {E : Type 0} (m : Message) (s s' : Reactor E)
    → ((id : Str)
        → s.ended ≡ none
        → get Header.id m.headers ≡ some id
        → find_call id s.calls ≡ none)
    → (s'.calls ≡ s.calls) × (s'.outcomes ≡ s.outcomes) × (s'.next_promise ≡ s.next_promise)
    → Keeps m s s'
kept m s s' no_call (c, o, p) = record {
  no_call = no_call;
  calls_after = c;
  outcomes_after = o;
  promises_after = p;
}

module _ (platform : Platform) {E : Type 0} where
  receive_response_cases :
      (m : Message) (id : Str) (s : Reactor E)
      → s.ended ≡ none
      → get Header.id m.headers ≡ some id
      → Hands m s (receive_response platform m s) ⊎ Keeps m s (receive_response platform m s)
  unfolding receive_response
  receive_response_cases m id s running has_id =
      let id_of = message_id_lem platform m in
      elim (Option-cases (find_call id s.calls)) [
        | inl nobody ↦ inr (elim (Bool-cases (is_one_of id inherited_names)) [
          | inl inherited ↦
              rw (id_of, has_id, nobody, id_of, has_id, inherited, receive_response)
                (kept m s _ (λ j _ e. cc) (refl, refl, refl))
          | inr own ↦
              rw (id_of, has_id, nobody, id_of, has_id, own, receive_response)
                (kept m s _ (λ j _ e. cc) (refl, refl, refl))
        ])
        | inr (p, waits) ↦ inl (
            rw (id_of, has_id, waits, receive_response)
              (record {
                running = running;
                id = id;
                promise = p;
                has_id = has_id;
                waited = waits;
                calls_after = rw (id_of, has_id) refl;
                outcomes_after = refl;
                promises_after = refl;
              }))
      ]

  receive_event-Keeps :
      (dispatch : Message → Option E) (m : Message) (s : Reactor E)
      → get Header.id m.headers ≡ none
      → Keeps m s (receive_event platform dispatch m s)
  unfolding receive_event
  receive_event-Keeps dispatch m s no_id = elim (Option-cases (dispatch m)) [
    | inl well ↦ rw (well, receive_event) (kept m s _ (λ j _ e. cc) (refl, refl, refl))
    | inr (_, fails) ↦ rw (fails, receive_event) (kept m s _ (λ j _ e. cc) (refl, refl, refl))
  ]

  pub receive_ended :
      (dispatch : Message → Option E) (m : Message) (s : Reactor E)
      → s.ended ≢ none
      → receive platform dispatch m s ≡ s
  unfolding receive
  receive_ended dispatch m s h = ground arith

  pub receive_has_id :
      (dispatch : Message → Option E) (m : Message) (s : Reactor E)
      → s.ended ≡ none
      → is_rpc_message m ≡ true
      → receive platform dispatch m s ≡ receive_response platform m s
  unfolding receive
  receive_has_id dispatch m s running h = ground arith

  receive_no_id :
      (dispatch : Message → Option E) (m : Message) (s : Reactor E)
      → s.ended ≡ none
      → is_rpc_message m ≡ false
      → receive platform dispatch m s
        ≡ (if is_rpc_event_message m then receive_event platform dispatch m s else s)
  unfolding receive
  receive_no_id dispatch m s running h = ground arith

  pub receive_cases :
      (dispatch : Message → Option E) (m : Message) (s : Reactor E)
      → Hands m s (receive platform dispatch m s) ⊎ Keeps m s (receive platform dispatch m s)
  receive_cases dispatch m s = elim (Option-cases s.ended) [
    | inr (_, ended) ↦
        inr (rw (receive_ended dispatch m s cc) (kept m s _ (λ j r e. cc) (refl, refl, refl)))
    | inl running ↦ (elim (Option-cases (get Header.id m.headers)) [
      | inr (id, has_id) ↦
          rw (receive_has_id dispatch m s running (rw has_id refl))
            (receive_response_cases m id s running has_id)
      | inl no_id ↦ inr (
          rw (receive_no_id dispatch m s running (rw no_id refl))
            (elim (Bool-cases (is_rpc_event_message m)) [
              | inl event ↦ rw event (receive_event-Keeps dispatch m s no_id)
              | inr other ↦ rw other (kept m s _ (λ j _ e. cc) (refl, refl, refl))
            ]))
    ])
  ]
