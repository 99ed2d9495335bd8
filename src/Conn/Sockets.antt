-- ===== src/Conn/Sockets.antt =====
-- A connection of js/src/createWebSocketConn.ts on a socket of js/src/PersistentWebSocket.ts: the socket
-- tells the connection of the messages of its sockets, and of a close when it dispatches one.
-- `parsing` are the messages that are being parsed, which takes time.
-- The listeners that may close the socket are those added after the connection's own.
pub mod Closed
mod Tests
use interop.Base.{
  ℕ, suc, ◌≡◌, ◌≢◌, ◌⊎◌, inl, inr, refl, sym, ◌∙◌, ap, true, false, List, [], ◌∷◌, ◌++◌, length,
  arith, Option, none, some, Bool-cases,
}
use mathlib.Core.Bool.{true≢false}
use interop.Text.{Platform}
use interop.Message.{Message, Blob}
use interop.Parse.{Result, parse_message_from_blob, ok, err}
use interop.Exchange.Promises.{take}
use interop.Promise.{outcome_of}
use interop.Conn.{Conn, create_web_socket_conn, read, on_message}
use interop.Conn
use interop.Socket.{
  State, Reaction, Options, ReadyState, connecting, open_state, closed, is_closed, remove, on_open,
  close, on_timer, on_timeout, create_persistent_web_socket, Step, opens, drops, loses, fires,
  user_closes,
}
use interop.Socket
use interop.Socket.Closing.{close_state}
use interop.Socket.Connections.{Inv, only_one, nil_of_length, remove_only, no_timeout}
use interop.Socket.Invariant.{Reach-Inv, dialing_alone, established_alone}

pub record Client : Type 0 where
  pub socket : State
  pub conn : Conn
  pub parsing : List Blob

abbrev pub create_client : Options → Client
create_client o = record {
  socket = create_persistent_web_socket o;
  conn = create_web_socket_conn;
  parsing = [];
}

-- `if (open || closed) dispatchEvent(event)`, where the connection listens.
abbrev pub tell_close : ReadyState → Conn → Conn
tell_close connecting c = c
tell_close open_state c = Conn.on_close false c
tell_close closed c = Conn.on_close true c

-- No socket is there or will be made.
pub record Dead (s : State) : Type 0 where
  pub ready : s.ready_state ≡ closed
  pub no_dialing : s.dialing ≡ []
  pub no_established : s.established ≡ []
  pub no_timer : s.timers ≡ 0

-- What stays of a connection.
pub record Stays (c d : Conn) : Type 0 where
  pub same_closed : d.closed ≡ c.closed
  pub same_outcomes : (p : ℕ) → outcome_of p d.exchange.outcomes ≡ outcome_of p c.exchange.outcomes

module _ (o : Options) where
  abbrev pub lose : Reaction → ℕ → Client → Client
  lose r ws c = record c {
    socket = Socket.on_close o r ws c.socket;
    conn = tell_close c.socket.ready_state c.conn;
  }

module _ (platform : Platform) (o : Options) where
  pub data ClientStep (c : Client) : Client → Type 0 where
    socket_opens :
        (r : Reaction) (ws : ℕ) (before after : List ℕ)
        → c.socket.dialing ≡ before ++ ws ∷ after
        → ClientStep c (record c { socket = on_open r ws c.socket })
    socket_drops :
        (r : Reaction) (ws : ℕ) (before after : List ℕ)
        → c.socket.dialing ≡ before ++ ws ∷ after
        → ClientStep c (lose o r ws c)
    socket_lost :
        (r : Reaction) (ws : ℕ) (before after : List ℕ)
        → c.socket.established ≡ before ++ ws ∷ after
        → ClientStep c (lose o r ws c)
    timer_fires :
        (n : ℕ) → c.socket.timers ≡ suc n → ClientStep c (record c { socket = on_timer o c.socket })
    connect_times_out :
        (ws : ℕ) (before after : List ℕ)
        → c.socket.timeouts ≡ before ++ ws ∷ after
        → ClientStep c (record c { socket = on_timeout ws c.socket })
    socket_closed : ClientStep c (record c { socket = close c.socket })
    message_comes :
        (ws : ℕ) (before after : List ℕ) (blob : Blob)
        → c.socket.established ≡ before ++ ws ∷ after
        → ClientStep c (record c { parsing = c.parsing ++ blob ∷ [] })
    message_parsed :
        (before : List Blob) (blob : Blob) (after : List Blob)
        → c.parsing ≡ before ++ blob ∷ after
        → ClientStep c (record c {
          conn = (on_message platform (some blob) c.conn).1;
          parsing = before ++ after;
        })
    user_reads : ClientStep c (record c { conn = (read c.conn).1 })

  -- What comes of a client.
  pub data Later (c : Client) : Client → Type 0 where
    no_more : Later c c
    one_more : {d e : Client} → Later c d → ClientStep d e → Later c e
