-- ===== src/Rpc/Client/Answers.antt =====
-- A call of js/src/RpcClient/RpcReactor.ts from the name and the content to the value of the response.
use interop.Base.{
  ℕ, suc, ◌≡◌, refl, ◌∙◌, ap, arith, true, List, [], ◌∷◌, ◌++◌, Str, str_eq, str_eq_refl, codes,
  All, Option, none, some,
}
use mathlib.Core.Option
use interop.Header
use interop.Headers.{Headers, get}
use interop.Headers.Laws.{IsPlain}
use interop.Message.{Message}
use interop.Messages.{message_error_lem}
use interop.Promise.{fulfilled, outcome_of}
use interop.Dispatcher.{decoded}
use interop.Values.{Value}
use interop.Create.{create_message_base}
use interop.Wire.{create_blob_from_message}
use interop.Wire.Fields.{IsField}
use interop.Parse.{parse_message_from_blob, ok}
use interop.Content.{Runtime, is_json, json_type, call_marshal}
use interop.Decoder.{decode, unmarshalled}
use interop.Delivery.Content.{
  get-with_content, with_content, get-content_type, content-received, decode-json,
  json_unmarshal-text, json_type-IsFieldValue,
}
use interop.Rpc.{Reactor, decodes, rpc_id, start_call, finish_call, receive_all}
use interop.Rpc.Calls.{IsValid, answers, find_response}
use interop.Rpc.Responses.{start_call-response}
use interop.Rpc.Client.{waits, call, default_codec, request_arguments}

answers-get : (id : Str) (m : Message) → get Header.id m.headers ≡ some id → answers id m ≡ true
unfolding answers
answers-get id m e = rw (e, answers) (str_eq_refl id)

find_response-append :
    (id : Str) (before after : List Message) (m : Message)
    → find_response id before ≡ none
    → answers id m ≡ true
    → find_response id (before ++ m ∷ after) ≡ some m
unfolding find_response
find_response-append id [] after m e a = rw a refl
find_response-append id (n ∷ before) after m e a =
    ground (arith, find_response-append id before after m)

module _ {E : Type 0} (runtime : Runtime E) where
  finish_call-json :
      (name : Str) (headers : Headers) (v : Value) (text : Str)
      → get Header.error headers ≡ none
      → is_json v ≡ true
      → runtime.json.stringify v ≡ decoded (some text)
      → finish_call runtime.platform
          (decode runtime)
          name
          (with_content headers (codes "application/json") (runtime.platform.encode text))
        ≡ decodes (decoded v)
  unfolding finish_call str_eq
  finish_call-json name headers v text no_error j e =
      let body = runtime.platform.encode text in
      let response = with_content headers (codes "application/json") body in
      rw
        (
          message_error_lem runtime.platform response
              ∙ get-with_content Header.error headers (codes "application/json") body refl refl
              ∙ no_error,
          get-content_type headers (codes "application/json") body,
          finish_call,
        )
        (ap decodes (
          decode-json runtime headers body
          ∙ ap unmarshalled (json_unmarshal-text runtime v text j e)))

  call-started :
      {E' : Type 0} (session_id : ℕ) (name : Str) (content : Option Value) (base : Message)
      (s : Reactor E')
      → create_message_base (call_marshal runtime) (request_arguments json_type content)
        ≡ decoded base
      → call runtime (default_codec runtime) session_id name content s
        ≡ (waits s.next_promise, (start_call runtime.platform session_id name base s).1)
  unfolding call start_call
  call-started session_id name content base s e = rw (e, call) refl

  -- In a valid state of the reactor with the default encoder and decoder, a call is made whose
  -- request can be made of its content. Any messages are received, of which one answers the call
  -- as the first, and the read loop is still running after them. The answer has headers with the
  -- id of the request and no error that can be written and read back, and its content is the JSON
  -- text of a value that JSON can carry. Then the call waits for a new promise; the answer is read
  -- from its blob as it was; the promise is resolved with the answer; and the call returns the
  -- value.
  pub call-delivered :
      {E' : Type 0} (dispatch : Message → Option E') (session_id : ℕ) (name : Str)
      (content : Option Value) (base : Message) (s : Reactor E') (headers : Headers) (v : Value)
      (text : Str) (before after : List Message)
      → IsValid s
      → create_message_base (call_marshal runtime) (request_arguments json_type content)
        ≡ decoded base
      → All (IsField runtime.platform) headers
      → IsPlain headers
      → get Header.id headers ≡ some (rpc_id session_id (suc s.next_id))
      → get Header.error headers ≡ none
      → is_json v ≡ true
      → runtime.json.stringify v ≡ decoded (some text)
      → find_response (rpc_id session_id (suc s.next_id)) before ≡ none
      → (receive_all runtime.platform dispatch
          (before
            ++ with_content headers (codes "application/json") (runtime.platform.encode text)
              ∷ after)
          (call runtime (default_codec runtime) session_id name content s).1).ended
        ≡ none
      → let response =
          with_content headers (codes "application/json") (runtime.platform.encode text) in
        let (called, waiting) = call runtime (default_codec runtime) session_id name content s in
        (called ≡ waits s.next_promise)
        × (parse_message_from_blob runtime.platform
              (create_blob_from_message runtime.platform response)
            ≡ ok response)
        × (outcome_of s.next_promise
              (receive_all runtime.platform dispatch (before ++ response ∷ after) waiting).outcomes
            ≡ some (fulfilled response))
        × (finish_call runtime.platform (decode runtime) name response ≡ decodes (decoded v))
  unfolding str_eq start_call
  call-delivered dispatch session_id name content base s headers v text before after valid e fields
        plain has_id no_error j t first running =
      let body = runtime.platform.encode text in
      let response = with_content headers (codes "application/json") body in
      let started = call-started session_id name content base s e in
      let id = rpc_id session_id (suc s.next_id) in
      let mine : answers id response ≡ true =
        answers-get id response
          (get-with_content Header.id headers (codes "application/json") body refl refl ∙ has_id) in
      let messages = before ++ response ∷ after in
      let running' = rw started at running in
      (
        ap (λ r. r.0) started,
        content-received runtime.platform headers _ body fields plain json_type-IsFieldValue,
        ap
              (λ r.
                outcome_of s.next_promise
                  (receive_all runtime.platform dispatch messages r.1).outcomes)
              started
            ∙ start_call-response runtime.platform dispatch session_id name base messages s valid
                running'
            ∙ ap (Option.map fulfilled) (find_response-append id before after response first mine),
        finish_call-json name headers v text no_error j t,
      )
