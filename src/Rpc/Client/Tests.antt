-- ===== src/Rpc/Client/Tests.antt =====
-- A call of a new reactor at concrete messages.
use interop.Base.{ℕ, ◌≡◌, refl, true, arith, [], ◌∷◌, codes, some, none, Option}
use interop.Text.{canonicalize_key, is_space, trim_start, trim_end}
use interop.Text.Canonical.{ascii_only}
use interop.Header
use interop.Headers.{Headers, get, set, has, array_index}
use interop.Message.{Message}
use interop.Messages.{message_id}
use interop.Number.{decimal}
use interop.Promise.{fulfilled, outcome_of}
use interop.Dispatcher.{decoded}
use interop.Values.{boolean}
use interop.Create.{create_message_base, take_headers, take_body}
use interop.Wire.{create_blob_from_message}
use interop.Wire.Fields.{IsField}
use interop.Parse.{parse_message_from_blob, ok}
use interop.Content.{is_json}
use interop.Content.Literals.{literal_runtime}
use interop.Decoder.{decode}
use interop.Delivery.Content.{with_content}
use interop.Rpc.{
  Reactor, create_rpc_reactor, decodes, rpc_id, finish_call, receive_all, find_call, delete_call,
  start_call, create_rpc_request_message,
}
use interop.Prototype.{is_one_of}
use interop.Rpc.Calls.{create-IsValid, find_response, answers}
use interop.Rpc.Client.{call, default_codec, waits}
use interop.Rpc.Client.Answers.{call-delivered}

abbrev empty : Message
empty = record { headers = []; body = [] }

abbrev to_other : Message
to_other = record { headers = (Header.id, codes "7.9") ∷ []; body = [] }

abbrev well : Message → Option ℕ
well m = none

abbrev new_reactor : Reactor ℕ
new_reactor = create_rpc_reactor 0

abbrev answer_headers : Headers
answer_headers = (Header.id, codes "7.1") ∷ []

abbrev answer : Message
answer = with_content answer_headers (codes "application/json") (codes "true")

id-IsField : IsField ascii_only (Header.id, codes "7.1")
unfolding canonicalize_key is_space trim_start trim_end
id-IsField = record {
  named = λ e. cc;
  name_ascii = omega arith;
  name_chars = ground arith;
  canonical = refl;
  value_ascii = omega arith;
  one_line = ground arith;
  trimmed_start = refl;
  trimmed_end = refl;
}

loop_running :
    (receive_all ascii_only well
      (to_other ∷ answer ∷ [])
      (call literal_runtime
        (default_codec literal_runtime)
        7
        (codes "sum")
        none
        new_reactor).1).ended
    ≡ none
unfolding create_rpc_reactor start_call receive_all create_rpc_request_message message_id call
    create_message_base take_headers take_body canonicalize_key find_call is_one_of rpc_id decimal
    set get delete_call
loop_running = refl

call-delivered_example :
    let (called, waiting) =
      call literal_runtime (default_codec literal_runtime) 7 (codes "sum") none new_reactor in
    (called ≡ waits 0)
    × (parse_message_from_blob ascii_only (create_blob_from_message ascii_only answer) ≡ ok answer)
    × (outcome_of 0 (receive_all ascii_only well (to_other ∷ answer ∷ []) waiting).outcomes
        ≡ some (fulfilled answer))
    × (finish_call ascii_only (decode literal_runtime) (codes "sum") answer
        ≡ decodes (decoded (boolean true)))
unfolding create_rpc_reactor get has array_index is_json find_response answers create_message_base
    take_headers take_body rpc_id decimal
call-delivered_example =
    call-delivered literal_runtime well 7 (codes "sum") none empty new_reactor answer_headers
      (boolean true) (codes "true") (to_other ∷ []) [] (create-IsValid 0) refl (id-IsField, tt)
      (refl, refl, tt) refl refl refl refl refl loop_running
