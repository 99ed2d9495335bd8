-- ===== src/Rpc/Client.antt =====
-- The call of js/src/RpcClient/RpcReactor.ts as a whole: the request is made of the content by
-- createRpcRequestMessage, and the response is read by the decoder of the options. NO_CONTENT is `none`.
pub mod Answers
mod Tests
use interop.Base.{ℕ, Bool, true, false, List, [], ◌∷◌, Str, Option, none, some}
use interop.Message.{Message}
use interop.Promise.{outcome_of, fulfilled, rejected}
use interop.Dispatcher.{Decoded, decoded, failed}
use interop.Values.{Value, undefined}
use interop.Create.{create_message_base}
use interop.Content.{Runtime, json_type, call_marshal}
use interop.Decoder.{DecodeError, decode}
use interop.Rpc.{Reactor, Answer, start_call, finish_call}

-- What a call comes to at its first wait: the promise that it waits for, or the error that it throws.
pub data Called (E : Type 0) : Type 0 where
  waits : ℕ → Called E
  throws : E → Called E

-- The encoder and the decoder of the options.
pub record Codec (V E E' : Type 0) : Type 0 where
  pub encoder : Value
  pub decoder : Message → Decoded V E'

abbrev pub is_ended : {A : Type 0} → Option A → Bool
is_ended none = false
is_ended (some error) = true

-- The getter `closed`.
abbrev pub is_closed : {E : Type 0} → Reactor E → Bool
is_closed s = is_ended s.ended

-- The default of the parameter `content` is NO_CONTENT.
abbrev pub content_of : Option Value → Option Value
content_of none = none
content_of (some undefined) = none
content_of (some v) = some v

abbrev pub arguments_of : Value → Option Value → List Value
arguments_of encoder none = []
arguments_of encoder (some content) = encoder ∷ content ∷ []

-- The arguments behind the name in the two calls of createRpcRequestMessage.
abbrev pub request_arguments : Value → Option Value → List Value
request_arguments encoder content = arguments_of encoder (content_of content)

module _ {E : Type 0} (runtime : Runtime E) where
  abbrev pub default_codec : Codec Value E (DecodeError E)
  default_codec = record { encoder = json_type; decoder = decode runtime }

  -- A request that cannot be made leaves the reactor as it is.
  unfoldable pub call :
      {V E' E'' : Type 0}
      → Codec V E E'
      → ℕ
      → Str
      → Option Value
      → Reactor E''
      → Called E × Reactor E''
  unfolding create_message_base
  call codec session_id name content s =
      elim (create_message_base (call_marshal runtime) (request_arguments codec.encoder content)) [
        | failed error ↦ (throws error, s)
        | decoded base ↦
            (let (promise, waiting) = start_call runtime.platform session_id name base s in
              (waits promise, waiting))
      ]
