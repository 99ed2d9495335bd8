-- ===== src/Session/Ends.antt =====
-- How a session ends when its connection is closed.
use interop.Base.{
  ℕ, ◌≡◌, refl, sym, ap, ◌∙◌, Bool, true, false, List, [], ◌∷◌, Option, none, some, Option-cases,
  if◌then◌else◌, inl, inr, subst,
}
use interop.Text.{Platform}
use interop.Message.{Message}
use interop.Parse.{Result, ok, err, parse_message_from_blob}
use interop.Promise.{outcome_of}
use interop.Conn.{connection_closed}
use interop.Rpc.{Reactor, LoopError, caught, start_call, receive}
use interop.Rpc.Client.{is_closed, is_ended}
use interop.Session.{
  ClientError, of_conn, Happening, calls, arrives, resumes, closes, create_session, dispatch_event,
  run_all,
}
use interop.Session.Queue.{
  Queued, create_queued, append_parsed, end_if, take_next, take_unless, happen_queued, run_queued,
}
use interop.Session.Rounds.{fails-ended, end_if-ended}
use interop.Session.Refines.{run_all-Follows, create-Follows}

module _ {D : Type 0} where
  -- The loop is over, and no call has been answered since.
  record Over (e : LoopError (ClientError D)) (a b : Queued D) : Type 0 where
    still_over : b.reactor.ended ≡ some e
    same_outcomes : b.reactor.outcomes ≡ a.reactor.outcomes

  append_parsed-reactor :
      (r : Result Message) (a : Queued D) → (append_parsed r a).reactor ≡ a.reactor
  append_parsed-reactor (ok m) a = refl
  append_parsed-reactor (err e) a = refl

  if-reactor :
      (b : Bool) (r : Result Message) (a : Queued D)
      → (if b then a else append_parsed r a).reactor ≡ a.reactor
  if-reactor true r a = refl
  if-reactor false r a = append_parsed-reactor r a

  end_if-over :
      (r : Reactor (ClientError D))
      → (e : LoopError (ClientError D)) × ((end_if true r).ended ≡ some e)
  end_if-over r = elim (Option-cases r.ended) [
    | inl runs ↦ (caught (of_conn connection_closed), fails-ended r runs)
    | inr (e, over) ↦
        (e, ap (λ (x : Reactor (ClientError D)). x.ended) (end_if-ended true r e over) ∙ over)
  ]

module _ {D : Type 0} (platform : Platform) (dispatch : Message → Option D) (session_id : ℕ) where
  happen_queued-Over :
      (h : Happening) (e : LoopError (ClientError D)) (a : Queued D)
      → a.reactor.ended ≡ some e
      → Over e a (happen_queued platform dispatch session_id h a)
  unfolding happen_queued start_call
  happen_queued-Over (calls name base) e a over = record { still_over = over; same_outcomes = refl }
  happen_queued-Over (arrives none) e a over = record { still_over = over; same_outcomes = refl }
  happen_queued-Over (arrives (some blob)) e a over =
      let same : (happen_queued platform dispatch session_id (arrives (some blob)) a).reactor
          ≡ a.reactor =
        if-reactor a.closed (parse_message_from_blob platform blob) a in
      record {
        still_over = ap (λ (r : Reactor (ClientError D)). r.ended) same ∙ over;
        same_outcomes = ap (λ (r : Reactor (ClientError D)). r.outcomes) same;
      }
  happen_queued-Over resumes e a over =
      subst (Over e a) (ap (λ x. take_unless platform dispatch x a) (sym over))
        (record { still_over = over; same_outcomes = refl })
  happen_queued-Over closes e a over = record { still_over = over; same_outcomes = refl }

  run_queued-Over :
      (hs : List Happening) (e : LoopError (ClientError D)) (a : Queued D)
      → a.reactor.ended ≡ some e
      → Over e a (run_queued platform dispatch session_id hs a)
  unfolding run_queued
  run_queued-Over [] e a over = record { still_over = over; same_outcomes = refl }
  run_queued-Over (h ∷ hs) e a over =
      let one = happen_queued-Over h e a over in
      let rest = run_queued-Over hs e _ one.still_over in
      record {
        still_over = rest.still_over;
        same_outcomes = rest.same_outcomes ∙ one.same_outcomes;
      }

  take_unless-over :
      (x : Option (LoopError (ClientError D))) (a : Queued D)
      → a.reactor.ended ≡ x
      → a.closed ≡ true
      → (e : LoopError (ClientError D)) × ((take_unless platform dispatch x a).reactor.ended
          ≡ some e)
  take_unless-over (some e) a runs shut = (e, runs)
  take_unless-over none a runs shut = go a.queue
    where
      go :
          (queue : List Message)
          → (e : LoopError (ClientError D)) × ((take_next platform dispatch queue a).reactor.ended
              ≡ some e)
      go [] = rw shut (end_if-over a.reactor)
      go (m ∷ queue) =
          rw shut (end_if-over (receive platform (dispatch_event platform dispatch) m a.reactor))

  -- Whatever happened before, when the connection is closed and the read loop goes on, closed
  -- becomes true of the reactor; and whatever happens later, no promise of a call is settled that
  -- was not, be it of a call that waits or of a later one.
  pub close-unanswered :
      (next_id : ℕ) (hs hs' : List Happening)
      → let s =
          run_all platform dispatch session_id
            (closes ∷ resumes ∷ [])
            (run_all platform dispatch session_id hs (create_session next_id)) in
        (is_closed s.reactor ≡ true)
        × ((p : ℕ)
            → outcome_of p (run_all platform dispatch session_id hs' s).reactor.outcomes
              ≡ outcome_of p s.reactor.outcomes)
  unfolding run_queued happen_queued
  close-unanswered next_id hs hs' =
      let before =
        run_all-Follows platform dispatch session_id hs _ _
          (create-Follows platform dispatch next_id) in
      let a = run_queued platform dispatch session_id hs (create_queued next_id) in
      let a' : Queued D = run_queued platform dispatch session_id (closes ∷ resumes ∷ []) a in
      let now = run_all-Follows platform dispatch session_id (closes ∷ resumes ∷ []) _ a before in
      let later = run_all-Follows platform dispatch session_id hs' _ a' now in
      let (e, over) = take_unless-over a.reactor.ended (record a { closed = true }) refl refl in
      let still = run_queued-Over hs' e a' over in
      (
        ap (λ (r : Reactor (ClientError D)). is_closed r) now.same_reactor ∙ ap is_ended over,
        λ p.
            ap (λ (r : Reactor (ClientError D)). outcome_of p r.outcomes) later.same_reactor
            ∙ ap (outcome_of p) still.same_outcomes
            ∙ ap (λ (r : Reactor (ClientError D)). outcome_of p r.outcomes) (sym now.same_reactor),
      )
