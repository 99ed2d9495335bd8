-- ===== src/Session/Refines.antt =====
-- That a session is its queue: what the promises of js/src/Exchange and the loop of
-- js/src/RpcClient/RpcReactor.ts come to.
use interop.Base.{
  ℕ, suc, ◌≡◌, refl, sym, ap, ◌∙◌, inl, inr, true, false, List, [], ◌∷◌, ◌++◌, length, get_elem?,
  Option, none, some, Option-cases, subst,
}
use mathlib.Core.Option
use interop.Text.{Platform}
use interop.Message.{Message}
use interop.Promise.{Outcome, fulfilled, outcome_of}
use interop.Exchange.Promises.Delivery.{Delivers, create-Delivers, take-Delivers}
use interop.Conn.{ConnError, read, create_web_socket_conn}
use interop.Rpc.{Reactor, create_rpc_reactor}
use interop.Session.{
  ClientError, Session, Happening, calls, arrives, resumes, closes, create_session, resume,
  resume_with, happen, run_all, resume_at,
}
use interop.Session.Queue.{
  Queued, create_queued, end_if, take_next, take_unless, happen_queued, run_queued,
}
use interop.Session.Follows.{
  at_end, first, get_elem?-first, Phase, over, reading, ending, Follows, calls-Follows,
  closes-Follows, arrives-Follows,
}
use interop.Session.Rounds.{
  next_reactor, end_if_open, fails-ended, ended-Follows, reads-Follows, fails-Follows,
}

module _ {D : Type 0} (platform : Platform) (dispatch : Message → Option D) where
  -- What the loop does, by the outcome of its promise, is what the queue says.
  stepped :
      (s : Session D) (a : Queued D) (p : ℕ) (o : Option (Outcome Message ConnError))
      → s.awaiting ≡ some p
      → s.reactor ≡ a.reactor
      → s.reactor.ended ≡ none
      → outcome_of p s.conn.exchange.outcomes ≡ o
      → Follows (resume_with platform dispatch o s) (take_next platform dispatch a.queue a)
      → Follows (resume platform dispatch s) (take_unless platform dispatch a.reactor.ended a)
  unfolding resume
  stepped s a p o waits same runs e f =
      subst (λ t. Follows t (take_unless platform dispatch a.reactor.ended a))
        (sym (
          ap (λ x. resume_at platform dispatch x s) waits
          ∙ ap (λ x. resume_with platform dispatch x s) e))
        (subst (Follows (resume_with platform dispatch o s))
          (ap (λ x. take_unless platform dispatch x a)
            (sym runs ∙ ap (λ (r : Reactor (ClientError D)). r.ended) same))
          f)

  reading-Follows :
      (s : Session D) (a : Queued D) (queue before : List Message) (p : ℕ)
      → a.queue ≡ queue
      → Follows s a
      → s.awaiting ≡ some p
      → s.reactor.ended ≡ none
      → a.closed ≡ false
      → length before ≡ p
      → Delivers s.conn.exchange (suc p) (before ++ queue)
      → Follows
          (resume_with platform dispatch (Option.map fulfilled (first queue)) s)
          (take_next platform dispatch queue a)
  reading-Follows s a [] before p q f waits runs opened n d = record {
    same_reactor = f.same_reactor ∙ sym (end_if_open a.closed a.reactor opened);
    same_closed = f.same_closed;
    phase =
        reading p before waits runs opened n
          (subst (λ ms. Delivers s.conn.exchange (suc p) (before ++ ms)) (sym q) d);
  }
  reading-Follows s a (m ∷ queue) before p q f waits runs opened n d =
      elim (Option-cases (next_reactor platform dispatch m s).ended) [
        | inl on ↦
            reads-Follows platform dispatch m s a queue before p f.same_reactor f.same_closed opened
              on n d
        | inr (e, ended) ↦
            ended-Follows platform dispatch m s a queue e f.same_reactor f.same_closed ended
      ]

  ending-Follows :
      (s : Session D) (a : Queued D) (queue : List Message)
      → Follows s a
      → s.reactor.ended ≡ none
      → a.closed ≡ true
      → Follows
          (resume_with platform dispatch (some (at_end queue)) s)
          (take_next platform dispatch queue a)
  ending-Follows s a [] f runs shut = record {
    same_reactor = ap (end_if true) f.same_reactor ∙ ap (λ b. end_if b a.reactor) (sym shut);
    same_closed = f.same_closed;
    phase = over _ refl (fails-ended s.reactor runs);
  }
  ending-Follows s a (m ∷ queue) f runs shut =
      elim (Option-cases (next_reactor platform dispatch m s).ended) [
        | inl on ↦ fails-Follows platform dispatch m s a queue f.same_reactor f.same_closed shut on
        | inr (e, ended) ↦
            ended-Follows platform dispatch m s a queue e f.same_reactor f.same_closed ended
      ]

  resumes-Follows :
      (s : Session D) (a : Queued D)
      → Follows s a
      → Follows (resume platform dispatch s) (take_unless platform dispatch a.reactor.ended a)
  unfolding resume
  resumes-Follows s a f = go f.phase
    where
      go :
          Phase s a
          → Follows (resume platform dispatch s) (take_unless platform dispatch a.reactor.ended a)
      go (over e idle ended) =
          subst (λ t. Follows t (take_unless platform dispatch a.reactor.ended a))
            (sym (ap (λ x. resume_at platform dispatch x s) idle))
            (subst (Follows s)
              (ap (λ x. take_unless platform dispatch x a)
                (sym ended ∙ ap (λ (r : Reactor (ClientError D)). r.ended) f.same_reactor))
              f)
      go (reading p before waits runs opened n d) =
          stepped s a p (Option.map fulfilled (first a.queue)) waits f.same_reactor runs
            (d.settled p
              ∙ ap (Option.map fulfilled)
                  (ap (get_elem? (before ++ a.queue)) (sym n) ∙ get_elem?-first before a.queue))
            (reading-Follows s a a.queue before p refl f waits runs opened n d)
      go (ending p waits runs shut o) =
          stepped s a p (some (at_end a.queue)) waits f.same_reactor runs o
            (ending-Follows s a a.queue f runs shut)

  pub create-Follows :
      (next_id : ℕ) → Follows {D = D} (create_session next_id) (create_queued next_id)
  unfolding create_session create_web_socket_conn read create_rpc_reactor
  create-Follows next_id =
      let (q, d) = take-Delivers {T = Message} {E = ConnError} _ 0 [] create-Delivers in
      record {
        same_reactor = refl;
        same_closed = refl;
        phase = reading 0 [] (ap some q) refl refl refl d;
      }

  pub run_all-Follows :
      (session_id : ℕ) (hs : List Happening) (s : Session D) (a : Queued D)
      → Follows s a
      → Follows
          (run_all platform dispatch session_id hs s)
          (run_queued platform dispatch session_id hs a)
  unfolding run_all run_queued happen happen_queued
  run_all-Follows session_id [] s a f = f
  run_all-Follows session_id (calls name base ∷ hs) s a f =
      run_all-Follows session_id hs _ _ (calls-Follows platform dispatch session_id name base s a f)
  run_all-Follows session_id (arrives content ∷ hs) s a f =
      run_all-Follows session_id hs _ _ (arrives-Follows platform dispatch session_id content s a f)
  run_all-Follows session_id (resumes ∷ hs) s a f =
      run_all-Follows session_id hs _ _ (resumes-Follows s a f)
  run_all-Follows session_id (closes ∷ hs) s a f =
      run_all-Follows session_id hs _ _ (closes-Follows platform dispatch session_id s a f)

  -- The read loop of a reactor runs on a new connection. Whatever calls are made, whatever the
  -- connection receives and whenever it is closed and the loop goes on, in any order, the state of
  -- the reactor is what it would be without promises: the messages that parse before the close
  -- wait in a queue, of which the loop takes the first, as often as it goes on; once the
  -- connection is closed it takes one more message, if there is one, and ends with
  -- ConnectionClosed unless it has ended.
  pub run_all-run_queued :
      (session_id next_id : ℕ) (hs : List Happening)
      → ((run_all platform dispatch session_id hs (create_session next_id)).reactor
          ≡ (run_queued platform dispatch session_id hs (create_queued next_id)).reactor)
        × ((run_all platform dispatch session_id hs (create_session next_id)).conn.closed
            ≡ (run_queued platform dispatch session_id hs (create_queued next_id)).closed)
  run_all-run_queued session_id next_id hs =
      let f = run_all-Follows session_id hs _ _ (create-Follows next_id) in
      (f.same_reactor, f.same_closed)
