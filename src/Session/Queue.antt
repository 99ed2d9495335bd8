-- ===== src/Session/Queue.antt =====
-- What a session comes to, without promises: the messages wait in a queue, of which the loop takes one
-- at a time. Once the connection is closed the loop takes one more message, if there is one, and ends.
use interop.Base.{ℕ, Bool, true, false, List, [], ◌∷◌, ◌++◌, if◌then◌else◌, Option, none, some}
use interop.Text.{Platform}
use interop.Message.{Message}
use interop.Parse.{Result, ok, err, parse_message_from_blob}
use interop.Rpc.{Reactor, LoopError, create_rpc_reactor, start_call, receive, read_fails}
use interop.Conn.{connection_closed}
use interop.Session.{
  ClientError, of_conn, Happening, calls, arrives, resumes, closes, dispatch_event,
}

pub record Queued (D : Type 0) : Type 0 where
  pub reactor : Reactor (ClientError D)
  pub queue : List Message
  pub closed : Bool

module _ {D : Type 0} where
  abbrev pub create_queued : ℕ → Queued D
  create_queued next_id = record {
    reactor = create_rpc_reactor next_id;
    queue = [];
    closed = false;
  }

  abbrev pub append_parsed : Result Message → Queued D → Queued D
  append_parsed (err e) a = a
  append_parsed (ok m) a = record a { queue = a.queue ++ m ∷ [] }

  abbrev pub end_if : Bool → Reactor (ClientError D) → Reactor (ClientError D)
  end_if true r = read_fails (of_conn connection_closed) r
  end_if false r = r

module _ {D : Type 0} (platform : Platform) (dispatch : Message → Option D) where
  abbrev pub take_next : List Message → Queued D → Queued D
  take_next [] a = record a { reactor = end_if a.closed a.reactor }
  take_next (m ∷ queue) a = record a {
    reactor = end_if a.closed (receive platform (dispatch_event platform dispatch) m a.reactor);
    queue = queue;
  }

  abbrev pub take_unless : Option (LoopError (ClientError D)) → Queued D → Queued D
  take_unless none a = take_next a.queue a
  take_unless (some _) a = a

  unfoldable pub happen_queued : ℕ → Happening → Queued D → Queued D
  happen_queued session_id (calls name base) a = record a {
    reactor = (start_call platform session_id name base a.reactor).1;
  }
  happen_queued session_id (arrives none) a = a
  happen_queued session_id (arrives (some blob)) a =
      if a.closed then a else append_parsed (parse_message_from_blob platform blob) a
  happen_queued session_id resumes a = take_unless a.reactor.ended a
  happen_queued session_id closes a = record a { closed = true }

  unfoldable pub run_queued : ℕ → List Happening → Queued D → Queued D
  unfolding happen_queued
  run_queued session_id [] a = a
  run_queued session_id (h ∷ hs) a = run_queued session_id hs (happen_queued session_id h a)
