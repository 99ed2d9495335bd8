-- ===== src/Conn/Argument/Tests.antt =====
-- Arguments of js/src/createWebSocketConn.ts.
use interop.Base.{◌≡◌, refl, codes, str_eq, none, some, pos}
use interop.Values.{Value, string, number, function, object, no_own, field}
use interop.Conn.Argument.{given_socket, web_socket_of, persistent, options_of}

abbrev url : Value
url = string (codes "wss://a.b")

-- A text is the URL of a persistent socket with the default options.
by_url : web_socket_of url ≡ persistent (object (field (codes "url") url no_own))
unfolding web_socket_of
by_url = refl

default_times :
    options_of (object (field (codes "url") url no_own))
    ≡ some (record { connect_timeout = 5000; retry_interval = 3000; max_retries = none })
unfolding options_of str_eq
default_times = refl

other_times :
    options_of (
      object (
        field
          (codes "retryInterval")
          (number (pos 10))
          (field (codes "maxRetries") (number (pos 2)) no_own)))
    ≡ some (record { connect_timeout = 5000; retry_interval = 10; max_retries = some (pos 2) })
unfolding options_of str_eq
other_times = refl

abbrev socket : Value
socket =
    object
      (field (codes "send") (function 0) (field (codes "addEventListener") (function 1) no_own))

by_socket : web_socket_of socket ≡ given_socket socket
unfolding web_socket_of str_eq
by_socket = refl
