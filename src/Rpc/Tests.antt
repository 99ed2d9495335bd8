-- ===== src/Rpc/Tests.antt =====
-- A reactor at concrete calls and responses.
use interop.Base.{ℕ, ◌≡◌, refl, List, [], ◌∷◌, codes, Option, none, some}
use mathlib.Core.Option
use interop.Text.Canonical.{ascii_only}
use interop.Header
use interop.Message.{Message}
use interop.Number.{decimal}
use interop.Text.{canonicalize_key}
use interop.Headers.{get, set}
use interop.Messages.{message_id}
use interop.Promise.{fulfilled, outcome_of}
use interop.Rpc.{
  Reactor, create_rpc_reactor, rpc_id, start_call, receive_all, find_call, delete_call,
  create_rpc_request_message,
}
use interop.Prototype.{is_one_of}
use interop.Rpc.Calls.{create-IsValid, find_response, answers}
use interop.Rpc.Responses.{start_call-response}

abbrev empty : Message
empty = record { headers = []; body = [] }

abbrev to_other : Message
to_other = record { headers = (Header.id, codes "7.9") ∷ []; body = [] }

abbrev to_first : Message
to_first = record { headers = (Header.id, codes "7.1") ∷ []; body = codes "42" }

abbrev well : Message → Option ℕ
well m = none

abbrev three_messages : List Message
three_messages = to_other ∷ empty ∷ to_first ∷ to_first ∷ []

abbrev new_reactor : Reactor ℕ
new_reactor = create_rpc_reactor 0

rpc_id_first : rpc_id 7 1 ≡ codes "7.1"
unfolding rpc_id decimal
rpc_id_first = refl

first_call_running :
    (receive_all ascii_only well three_messages
      (start_call ascii_only 7 (codes "sum") empty new_reactor).1).ended
    ≡ none
unfolding create_rpc_reactor start_call receive_all create_rpc_request_message message_id
    canonicalize_key find_call is_one_of rpc_id decimal set get delete_call
first_call_running = refl

start_call-response_example :
    outcome_of
      (start_call ascii_only 7 (codes "sum") empty new_reactor).0
      (receive_all ascii_only well three_messages
        (start_call ascii_only 7 (codes "sum") empty new_reactor).1).outcomes
    ≡ Option.map fulfilled (find_response (rpc_id 7 1) three_messages)
unfolding create_rpc_reactor
start_call-response_example =
    start_call-response ascii_only well 7 (codes "sum") empty three_messages new_reactor
      (create-IsValid 0) first_call_running

first_answered : find_response (rpc_id 7 1) three_messages ≡ some to_first
unfolding find_response answers get rpc_id decimal
first_answered = refl
