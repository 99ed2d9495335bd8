-- ===== src/Rpc.antt =====
-- js/src/RpcClient/RpcReactor.ts, with createRpcMessage.ts and createRpcRequestMessage.ts of js/src:
-- calls wait in a table by the id of their request, and the read loop hands each response to its call.
-- A step is a call up to its first `await` of a response, a round of the read loop, or the end of a
-- call. The base of a request, its dispatcher and its decoder are parameters. The promise of a call is
-- a number. The loop ends with the value that it catches.
pub mod Calls
pub mod Rounds
pub mod Responses
pub mod Client
pub mod Methods
pub mod Ids
pub mod Events
mod Tests
use interop.Base.{
  ℕ, suc, Bool, true, false, ◌||◌, List, [], ◌∷◌, ◌++◌, Str, codes, str_eq, if◌then◌else◌, Option,
  none, some,
}
use interop.Text.{Platform}
use interop.Header
use interop.Headers.{get, set}
use interop.Message.{Message}
use interop.Prototype.{inherited_names, is_one_of}
use interop.Messages.{is_rpc_message, is_rpc_event_message, message_id, message_error}
use interop.Number.{decimal}
use interop.Promise.{Outcome, fulfilled, settle}
use interop.Dispatcher.{Decoded}

-- What the read loop catches: an error of the connection or of a handler, or the TypeError of calling
-- `resolve` on a value that is no triplet.
pub data LoopError (E : Type 0) : Type 0 where
  caught : E → LoopError E
  not_a_function : LoopError E

pub record Reactor (E : Type 0) : Type 0 where
  pub next_id : ℕ
  pub calls : List (Str × ℕ)
  pub next_promise : ℕ
  pub outcomes : List (ℕ × Outcome Message E)
  pub written : List Message
  pub dispatched : List Message
  pub ended : Option (LoopError E)

unfoldable pub find_call : Str → List (Str × ℕ) → Option ℕ
find_call id [] = none
find_call id ((i, p) ∷ calls) = if str_eq i id then some p else find_call id calls

unfoldable pub delete_call : Str → List (Str × ℕ) → List (Str × ℕ)
delete_call id [] = []
delete_call id ((i, p) ∷ calls) =
    let rest = delete_call id calls in if str_eq i id then rest else (i, p) ∷ rest

-- A property name, where the value `undefined` is the text "undefined".
abbrev pub property_key : Option Str → Str
property_key none = codes "undefined"
property_key (some id) = id

-- `${sessionId}.${++nextId}`
unfoldable pub rpc_id : ℕ → ℕ → Str
rpc_id session_id next_id = decimal session_id ++ (codes "." ++ decimal next_id)

unfoldable pub create_rpc_message : ℕ → ℕ → Message → Message
create_rpc_message session_id next_id base = record base {
  headers = set Header.id (rpc_id session_id next_id) base.headers;
}

unfoldable pub create_rpc_request_message : ℕ → ℕ → Str → Message → Message
unfolding create_rpc_message
create_rpc_request_message session_id next_id class_name base =
    let message = create_rpc_message session_id next_id base in
    record message { headers = set Header.class class_name message.headers }

abbrev pub blank_message : Str → Str
blank_message [] = codes "[blank message]"
blank_message (c ∷ s) = c ∷ s

unfoldable pub create_rpc_reactor : {E : Type 0} → ℕ → Reactor E
create_rpc_reactor next_id = record {
  next_id = next_id;
  calls = [];
  next_promise = 0;
  outcomes = [];
  written = [];
  dispatched = [];
  ended = none;
}

-- What a call comes to: the decoder's result, `undefined`, or an error with its text.
pub data Answer (V E : Type 0) : Type 0 where
  decodes : Decoded V E → Answer V E
  no_content : Answer V E
  call_error : Str → Answer V E

abbrev pub is_truthy : Option Str → Bool
is_truthy none = false
is_truthy (some []) = false
is_truthy (some (c ∷ s)) = true

-- `conn.read()` fails.
unfoldable pub read_fails : {E : Type 0} → E → Reactor E → Reactor E
read_fails error s = elim s.ended [ some _ ↦ s | none ↦ record s { ended = some (caught error) } ]

module _ (platform : Platform) where
  -- From the response on.
  unfoldable pub finish_call : {V E : Type 0} → (Message → Decoded V E) → Str → Message → Answer V E
  finish_call decoder name response = elim (message_error platform response) [
    | some error ↦
        call_error
          (codes "error while calling \"" ++ (name ++ (codes "\": " ++ blank_message error)))
    | none ↦
        if is_truthy (get Header.content_type response.headers)
        then decodes (decoder response)
        else no_content
  ]

  module _ {E : Type 0} where
    -- A call, up to where it waits for its promise, which is returned.
    unfoldable pub start_call : ℕ → Str → Message → Reactor E → ℕ × Reactor E
    start_call session_id name base s =
        let request = create_rpc_request_message session_id (suc s.next_id) name base in
        let id = property_key (message_id platform request) in
        (
          s.next_promise,
          record s {
            next_id = suc s.next_id;
            calls = (id, s.next_promise) ∷ delete_call id s.calls;
            next_promise = suc s.next_promise;
            written = s.written ++ request ∷ [];
          },
        )

    unfoldable pub receive_response : Message → Reactor E → Reactor E
    receive_response message s =
        let id = property_key (message_id platform message) in
        elim (find_call id s.calls) [
          | some triplet ↦ record s {
            calls = delete_call id s.calls;
            outcomes = settle triplet (fulfilled message) s.outcomes;
          }
          | none ↦
              if is_one_of id inherited_names then record s { ended = some not_a_function } else s
        ]

    -- `none` when the dispatch of an event goes well.
    unfoldable pub receive_event : (Message → Option E) → Message → Reactor E → Reactor E
    receive_event dispatch message s =
        let told = record s { dispatched = s.dispatched ++ message ∷ [] } in
        elim (dispatch message) [
          | none ↦ told
          | some error ↦ record told { ended = some (caught error) }
        ]

    -- A round of the loop of `run`; an ended loop reads no more.
    unfoldable pub receive : (Message → Option E) → Message → Reactor E → Reactor E
    unfolding receive_response receive_event
    receive dispatch message s = elim s.ended [
      | some error ↦ s
      | none ↦
          if is_rpc_message message
          then receive_response message s
          else if is_rpc_event_message message
          then receive_event dispatch message s
          else s
    ]

    unfoldable pub receive_all : (Message → Option E) → List Message → Reactor E → Reactor E
    unfolding receive
    receive_all dispatch [] s = s
    receive_all dispatch (message ∷ messages) s =
        receive_all dispatch messages (receive dispatch message s)
