-- ===== src/Conn.antt =====
-- js/src/createWebSocketConn.ts and createWebSocketWriter.ts: a connection reads what a socket receives, through an exchange of
-- promises. Its listeners are the steps: a message is given to the exchange once it is parsed, and
-- messages are taken in the order in which their parsing ends; Conn/Listening has the messages that
-- are being parsed.
pub mod Closing
pub mod Late
pub mod Listening
pub mod Transport
pub mod Argument
pub mod Sockets
mod Tests
use interop.Base.{ℕ, Bool, true, false, List, [], ◌∷◌, ◌++◌, if◌then◌else◌, Option, none, some}
use interop.Text.{Platform}
use interop.Message.{Message, Blob}
use interop.Wire.{create_blob_from_message}
use interop.Parse.{Result, ok, err, ParseError, parse_message_from_blob}
use interop.Exchange.Promises.{PromiseExchange, create_promise_exchange, give, take, reject_taken}

pub data ConnError : Type 0 where
  connection_closed : ConnError

pub record Conn : Type 0 where
  pub exchange : PromiseExchange Message ConnError
  pub closed : Bool

-- What `read` comes to: the error that it throws, or the promise that it waits for.
pub data Reading : Type 0 where
  throws : ConnError → Reading
  awaits : ℕ → Reading

-- What the listener of messages comes to.
pub data Received : Type 0 where
  unexpected_non_binary : Received
  not_parsed : ParseError → Received
  given : Received

unfoldable pub create_web_socket_conn : Conn
create_web_socket_conn = record { exchange = create_promise_exchange; closed = false }

unfoldable pub read : Conn → Reading × Conn
read c =
    let (p, exchange) = take c.exchange in
    if c.closed then (throws connection_closed, c) else (awaits p, record c { exchange = exchange })

-- The listener of close events, where the flag says whether the socket's readyState is CLOSED.
unfoldable pub on_close : Bool → Conn → Conn
on_close is_closed c =
    if is_closed
    then record { exchange = reject_taken connection_closed c.exchange; closed = true }
    else c

module _ (platform : Platform) where
  -- The listener of messages; `none` is data that is no blob.
  unfoldable pub on_message : Option Blob → Conn → Received × Conn
  on_message none c = (unexpected_non_binary, c)
  on_message (some blob) c = elim (parse_message_from_blob platform blob) [
    | err error ↦ (not_parsed error, c)
    | ok message ↦ (given, record c { exchange = give message c.exchange })
  ]

-- The writer of js/src/createWebSocketWriter.ts: the messages that `write` was called with, those
-- whose blob is being read into a buffer, and what was sent.
pub record Writer : Type 0 where
  pub calls : List Message
  pub writing : List Message
  pub sent : List Blob

abbrev pub create_web_socket_writer : Writer
create_web_socket_writer = record { calls = []; writing = []; sent = [] }

unfoldable pub write : Message → Writer → Writer
write m w = record w { calls = w.calls ++ m ∷ []; writing = w.writing ++ m ∷ [] }

-- The buffer of one of the messages, wherever it stands, is there.
unfoldable pub on_buffer : Platform → List Message → Message → List Message → Writer → Writer
unfolding create_blob_from_message
on_buffer platform before m after w = record w {
  writing = before ++ after;
  sent = w.sent ++ create_blob_from_message platform m ∷ [];
}
