-- ===== src/Conn/Sockets/Tests.antt =====
-- A connection whose socket cannot connect.
use interop.Base.{◌≡◌, refl, [], some, none, pos, inr}
use interop.Text.Canonical.{ascii_only}
use interop.Promise.{outcome_of}
use interop.Exchange.Promises.{take, create_promise_exchange}
use interop.Conn.{read, create_web_socket_conn}
use interop.Socket.{Options, stay_silent, create_persistent_web_socket, on_close, remove, close}
use interop.Conn.Sockets.{
  Client, create_client, lose, socket_drops, user_reads, Later, no_more, one_more, Dead, Stays,
}
use interop.Conn.Sockets.Closed.{Later-Stays}

abbrev one_attempt : Options
one_attempt = record { connect_timeout = 5000; retry_interval = 3000; max_retries = some (pos 0) }

-- Someone reads, and the only attempt fails.
abbrev reading : Client
reading = record (create_client one_attempt) { conn = (read create_web_socket_conn).1 }

abbrev given_up : Client
given_up = lose one_attempt stay_silent 0 reading

given_up-Later : Later ascii_only one_attempt (create_client one_attempt) given_up
unfolding create_persistent_web_socket
given_up-Later = one_more (one_more no_more user_reads) (socket_drops stay_silent 0 [] [] refl)

given_up-Dead : Dead given_up.socket
unfolding create_persistent_web_socket on_close remove close
given_up-Dead = record { ready = refl; no_dialing = refl; no_established = refl; no_timer = refl }

-- The reader waits for ever.
still_waiting : outcome_of 0 given_up.conn.exchange.outcomes ≡ none
unfolding read outcome_of create_persistent_web_socket create_web_socket_conn take
    create_promise_exchange
still_waiting = refl

abbrev read_again : Client
read_again = record given_up { conn = (read given_up.conn).1 }

Later-Stays_example : Dead read_again.socket × Stays given_up.conn read_again.conn
Later-Stays_example =
    Later-Stays ascii_only one_attempt given_up read_again given_up-Later (inr given_up-Dead) refl
      (one_more no_more user_reads)
