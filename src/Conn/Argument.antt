-- ===== src/Conn/Argument.antt =====
-- The argument of createWebSocketConn in js/src/createWebSocketConn.ts, and the options of a socket of
-- js/src/PersistentWebSocket.ts with their defaults. The methods of a socket count as its fields.
pub mod Defaults
mod Tests
use interop.Base.{
  ◌≡◌, refl, Bool, true, false, ◌&&◌, Str, codes, str_eq, str_eq_refl, if◌then◌else◌, Option, none,
  some, ℤ, pos, Bool-cases, inl, inr,
}
use interop.Values.{
  Value, undefined, string, number, object, Fields, no_own, field, fields_of, field_of, is_obj,
  is_function, is_string_value,
}
use interop.Socket.{Options}

unfoldable pub is_partial_web_socket : Value → Bool
unfolding field_of
is_partial_web_socket v =
    is_obj v
    && is_function (field_of (codes "send") (fields_of v))
    && is_function (field_of (codes "addEventListener") (fields_of v))

-- The socket that is used: the one given, or a persistent one with options.
pub data WebSocketChoice : Type 0 where
  given_socket : Value → WebSocketChoice
  persistent : Value → WebSocketChoice

unfoldable pub web_socket_of : Value → WebSocketChoice
unfolding is_partial_web_socket
web_socket_of v =
    if is_partial_web_socket v
    then given_socket v
    else if is_string_value v
    then persistent (object (field (codes "url") v no_own))
    else persistent v

-- `obj[key] = v`
unfoldable pub set_field : Str → Value → Fields → Fields
set_field key v no_own = field key v no_own
set_field key v (field k w fields) =
    let rest = set_field key v fields in if str_eq k key then field k v fields else field k w rest

-- `{...fields, ...others}`
unfoldable pub spread : Fields → Fields → Fields
unfolding set_field
spread fields no_own = fields
spread fields (field k v others) = spread (set_field k v fields) others

abbrev pub default_options : Fields
default_options = field (codes "connectTimeout") (number (pos 5000)) (
    field (codes "retryInterval") (number (pos 3000))
      (field (codes "binaryType") (string (codes "blob")) no_own))

abbrev pub retries_of : Value → Option ℤ
retries_of (number n) = some n
retries_of _ = none

-- The options of a persistent socket, if its times are numbers of milliseconds.
abbrev pub times_of : Value → Value → Value → Option Options
times_of (number (pos timeout)) (number (pos interval)) retries = some (record {
  connect_timeout = timeout;
  retry_interval = interval;
  max_retries = retries_of retries;
})
times_of _ _ _ = none

unfoldable pub options_of : Value → Option Options
unfolding spread field_of
options_of options =
    let fields = spread default_options (fields_of options) in
    times_of (field_of (codes "connectTimeout") fields) (field_of (codes "retryInterval") fields)
      (field_of (codes "maxRetries") fields)
