-- ===== src/Session/Rounds.antt =====
-- What a round of the loop does to a session and to its queue.
use interop.Base.{
  ℕ, suc, ◌≡◌, refl, sym, ap, ◌∙◌, Bool, true, false, List, [], ◌∷◌, ◌++◌, length, Option, none,
  some, arith, append_assoc, subst, length-append,
}
use interop.Text.{Platform}
use interop.Message.{Message}
use interop.Exchange.Promises.{take}
use interop.Exchange.Promises.Delivery.{Delivers, take-Delivers}
use interop.Conn.{Conn, throws, awaits, connection_closed, read}
use interop.Rpc.{Reactor, LoopError, caught, receive, read_fails}
use interop.Session.{
  ClientError, of_conn, Session, begin_read, dispatch_event, after_message, go_on, wait_for,
}
use interop.Session.Queue.{Queued, end_if, take_next}
use interop.Session.Follows.{over, reading, Follows}

read_open :
    (c : Conn)
    → c.closed ≡ false
    → read c ≡ (awaits (take c.exchange).0, record c { exchange = (take c.exchange).1 })
unfolding read
read_open c opened = rw (opened, read) refl

read_closed : (c : Conn) → c.closed ≡ true → read c ≡ (throws connection_closed, c)
unfolding read
read_closed c shut = rw (shut, read) refl

module _ {D : Type 0} where
  pub end_if_open : (b : Bool) (r : Reactor (ClientError D)) → b ≡ false → end_if b r ≡ r
  end_if_open b r e = rw e refl

  pub end_if-ended :
      (b : Bool) (r : Reactor (ClientError D)) (e : LoopError (ClientError D))
      → r.ended ≡ some e
      → end_if b r ≡ r
  unfolding read_fails
  end_if-ended true r e ended = simp (ended, read_fails) refl
  end_if-ended false r e ended = refl

  pub fails-ended :
      (r : Reactor (ClientError D))
      → r.ended ≡ none
      → (read_fails (of_conn connection_closed) r).ended ≡ some (caught (of_conn connection_closed))
  unfolding read_fails
  fails-ended r runs = rw (runs, read_fails) refl

module _ {D : Type 0} (platform : Platform) (dispatch : Message → Option D) (m : Message)
    (s : Session D) where
  abbrev pub next_reactor : Reactor (ClientError D)
  next_reactor = receive platform (dispatch_event platform dispatch) m s.reactor

  after_message_ended :
      (e : LoopError (ClientError D))
      → next_reactor.ended ≡ some e
      → after_message platform dispatch m s ≡ record s { reactor = next_reactor; awaiting = none }
  unfolding after_message
  after_message_ended e ended = ap (λ x. go_on x next_reactor s) ended

  after_message_reads :
      next_reactor.ended ≡ none
      → s.conn.closed ≡ false
      → after_message platform dispatch m s ≡ record s {
        reactor = next_reactor;
        conn = record s.conn { exchange = (take s.conn.exchange).1 };
        awaiting = some (take s.conn.exchange).0;
      }
  unfolding after_message begin_read
  after_message_reads runs opened =
      ap (λ x. go_on x next_reactor s) runs
      ∙ ap (λ x. wait_for x (record s { reactor = next_reactor })) (read_open s.conn opened)

  after_message_fails :
      next_reactor.ended ≡ none
      → s.conn.closed ≡ true
      → after_message platform dispatch m s ≡ record s {
        reactor = read_fails (of_conn connection_closed) next_reactor;
        awaiting = none;
      }
  unfolding after_message begin_read
  after_message_fails runs shut =
      ap (λ x. go_on x next_reactor s) runs
      ∙ ap (λ x. wait_for x (record s { reactor = next_reactor })) (read_closed s.conn shut)

  pub ended-Follows :
      (a : Queued D) (queue : List Message) (e : LoopError (ClientError D))
      → s.reactor ≡ a.reactor
      → s.conn.closed ≡ a.closed
      → next_reactor.ended ≡ some e
      → Follows (after_message platform dispatch m s) (take_next platform dispatch (m ∷ queue) a)
  ended-Follows a queue e same shut ended =
      subst (λ t. Follows t (take_next platform dispatch (m ∷ queue) a))
        (sym (after_message_ended e ended))
        (record {
          same_reactor =
              sym (end_if-ended a.closed next_reactor e ended)
              ∙ ap (λ r. end_if a.closed (receive platform (dispatch_event platform dispatch) m r))
                  same;
          same_closed = shut;
          phase = over e refl ended;
        })

  pub reads-Follows :
      (a : Queued D) (queue before : List Message) (p : ℕ)
      → s.reactor ≡ a.reactor
      → s.conn.closed ≡ a.closed
      → a.closed ≡ false
      → next_reactor.ended ≡ none
      → length before ≡ p
      → Delivers s.conn.exchange (suc p) (before ++ m ∷ queue)
      → Follows (after_message platform dispatch m s) (take_next platform dispatch (m ∷ queue) a)
  reads-Follows a queue before p same shut opened runs n d =
      let (q, d') = take-Delivers s.conn.exchange (suc p) (before ++ m ∷ queue) d in
      subst (λ t. Follows t (take_next platform dispatch (m ∷ queue) a))
        (sym (after_message_reads runs (shut ∙ opened)))
        (record {
          same_reactor =
              ap (receive platform (dispatch_event platform dispatch) m) same
              ∙ sym (end_if_open a.closed _ opened);
          same_closed = shut;
          phase =
              reading (suc p) (before ++ m ∷ []) (ap some q) runs opened
                (length-append before (m ∷ []) ∙ omega (arith, n))
                (rw (append_assoc before (m ∷ []) queue) d');
        })

  pub fails-Follows :
      (a : Queued D) (queue : List Message)
      → s.reactor ≡ a.reactor
      → s.conn.closed ≡ a.closed
      → a.closed ≡ true
      → next_reactor.ended ≡ none
      → Follows (after_message platform dispatch m s) (take_next platform dispatch (m ∷ queue) a)
  fails-Follows a queue same shut over_now runs =
      subst (λ t. Follows t (take_next platform dispatch (m ∷ queue) a))
        (sym (after_message_fails runs (shut ∙ over_now)))
        (record {
          same_reactor =
              ap (λ r. end_if true (receive platform (dispatch_event platform dispatch) m r)) same
              ∙ ap (λ b. end_if b (receive platform (dispatch_event platform dispatch) m a.reactor))
                  (sym over_now);
          same_closed = shut;
          phase = over _ refl (fails-ended next_reactor runs);
        })
