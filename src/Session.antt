-- ===== src/Session.antt =====
-- A client as it is put together: the read loop of js/src/RpcClient/RpcReactor.ts on a connection of
-- js/src/createWebSocketConn.ts. The loop waits for one promise of the connection at a time; calls,
-- messages, the close and the loop's own steps happen in any order. A message arrives when its parsing
-- ends.
pub mod Queue
pub mod Follows
pub mod Rounds
pub mod Refines
pub mod Ends
mod Tests
use interop.Base.{ℕ, true, List, [], ◌∷◌, Str, Option, none, some}
use mathlib.Core.Option
use interop.Text.{Platform}
use interop.Message.{Message, Blob}
use interop.Promise.{Outcome, fulfilled, rejected, outcome_of}
use interop.Rpc.{Reactor, LoopError, create_rpc_reactor, start_call, receive, read_fails}
use interop.Conn.{
  Conn, ConnError, Reading, throws, awaits, create_web_socket_conn, read, on_message, on_close,
}

-- What ends the loop: an error of the connection, or of the dispatch of an event.
pub data ClientError (D : Type 0) : Type 0 where
  of_conn : ConnError → ClientError D
  of_dispatch : D → ClientError D

-- `awaiting` is the promise that the loop waits for; it has none once it is over.
pub record Session (D : Type 0) : Type 0 where
  pub reactor : Reactor (ClientError D)
  pub conn : Conn
  pub awaiting : Option ℕ

pub data Happening : Type 0 where
  calls : Str → Message → Happening
  arrives : Option Blob → Happening
  resumes closes : Happening

module _ {D : Type 0} where
  abbrev pub fail : ConnError → Session D → Session D
  fail e s = record s { reactor = read_fails (of_conn e) s.reactor; awaiting = none }

  abbrev pub wait_for : Reading × Conn → Session D → Session D
  wait_for (throws e, c) s = fail e s
  wait_for (awaits p, c) s = record s { conn = c; awaiting = some p }

  -- `conn.read()`
  unfoldable pub begin_read : Session D → Session D
  begin_read s = wait_for (read s.conn) s

  -- The loop reads on unless it has ended.
  abbrev pub go_on :
      Option (LoopError (ClientError D)) → Reactor (ClientError D) → Session D → Session D
  go_on none reactor s = begin_read (record s { reactor = reactor })
  go_on (some _) reactor s = record s { reactor = reactor; awaiting = none }

  unfoldable pub create_session : ℕ → Session D
  unfolding begin_read create_rpc_reactor
  create_session next_id = begin_read (record {
    reactor = create_rpc_reactor next_id;
    conn = create_web_socket_conn;
    awaiting = none;
  })

module _ {D : Type 0} (platform : Platform) (dispatch : Message → Option D) where
  abbrev pub dispatch_event : Message → Option (ClientError D)
  dispatch_event m = Option.map of_dispatch (dispatch m)

  -- A round of the loop, and the read that begins the next.
  unfoldable pub after_message : Message → Session D → Session D
  unfolding begin_read
  after_message m s =
      let reactor = receive platform dispatch_event m s.reactor in go_on reactor.ended reactor s

  abbrev pub resume_with : Option (Outcome Message ConnError) → Session D → Session D
  resume_with none s = s
  resume_with (some (fulfilled m)) s = after_message m s
  resume_with (some (rejected e)) s = fail e s

  abbrev pub resume_at : Option ℕ → Session D → Session D
  resume_at none s = s
  resume_at (some p) s = resume_with (outcome_of p s.conn.exchange.outcomes) s

  -- The loop goes on if the promise that it waits for is settled.
  unfoldable pub resume : Session D → Session D
  unfolding after_message
  resume s = resume_at s.awaiting s

  unfoldable pub happen : ℕ → Happening → Session D → Session D
  unfolding resume
  happen session_id (calls name base) s = record s {
    reactor = (start_call platform session_id name base s.reactor).1;
  }
  happen session_id (arrives content) s = record s { conn = (on_message platform content s.conn).1 }
  happen session_id resumes s = resume s
  happen session_id closes s = record s { conn = on_close true s.conn }

  unfoldable pub run_all : ℕ → List Happening → Session D → Session D
  unfolding happen
  run_all session_id [] s = s
  run_all session_id (h ∷ hs) s = run_all session_id hs (happen session_id h s)
