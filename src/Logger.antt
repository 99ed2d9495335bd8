-- ===== src/Logger.antt =====
-- js/src/createRpcLogger.ts: a connection that prints a line for each message it reads and writes. A line
-- is what `console` is called with. Of the writes the model is the sequence of their steps: a write
-- waits for its line, which waits for the content if there is a content type, and then writes.
pub mod Writes
pub mod Finish
mod Tests
use interop.Base.{
  ◌≡◌, Bool, true, false, List, [], ◌∷◌, ◌++◌, Str, codes, if◌then◌else◌, Option, none, some,
}
use interop.Header
use interop.Headers.{Headers, get}
use interop.Message.{Message}
use interop.Messages.{
  message_id, message_class, message_error, is_rpc_message, is_rpc_event_message,
  is_rpc_request_message, is_error_message,
}
use interop.Dispatcher.{Decoded, decoded, failed}
use interop.Values.{Value}
use interop.Content.{Runtime}
use interop.Decoder.{DecodeError, decode}

pub data Kind : Type 0 where
  request response event receive send error : Kind

pub data Level : Type 0 where
  log warn info error_level debug : Level

abbrev pub colors : Kind → Str
colors request = codes "#0877ab"
colors response = codes "#017f01"
colors event = codes "#8a65e8"
colors error = codes "#ab0101"
colors send = codes "#a89444"
colors receive = codes "#b76d16"

abbrev pub kind_text : Kind → Str
kind_text request = codes "request"
kind_text response = codes "response"
kind_text event = codes "event"
kind_text receive = codes "receive"
kind_text send = codes "send"
kind_text error = codes "error"

-- The arguments of `console`; a header may be `undefined`.
pub data Item (E : Type 0) : Type 0 where
  text : Str → Item E
  header : Option Str → Item E
  all_headers : Headers → Item E
  content : Value → Item E
  decoding_error : DecodeError E → Item E

pub record Line (E : Type 0) : Type 0 where
  pub level : Level
  pub items : List (Item E)

-- Whether a header is there and not the empty text.
abbrev pub is_given : Option Str → Bool
is_given none = false
is_given (some []) = false
is_given (some (c ∷ s)) = true

unfoldable pub has_type : Message → Bool
has_type m = is_given (get Header.content_type m.headers)

-- A logger's writes: the messages that `write` was called with; those whose lines wait for the
-- content; those whose lines are printed; those that are written to the connection; and the lines.
pub record Logger (E : Type 0) : Type 0 where
  pub calls : List Message
  pub logging : List Message
  pub logged : List Message
  pub written : List Message
  pub lines : List (Line E)

abbrev pub create_rpc_logger : {E : Type 0} → Logger E
create_rpc_logger = record { calls = []; logging = []; logged = []; written = []; lines = [] }

module _ {E : Type 0} (runtime : Runtime E) (level : Level) where
  abbrev pub content_items : Decoded Value (DecodeError E) → List (Item E)
  content_items (decoded v) = content v ∷ []
  content_items (failed e) = text (codes "error decoding content") ∷ decoding_error e ∷ []

  unfoldable pub log_with_level : Kind → Message → List (Item E) → Line E
  unfolding has_type
  log_with_level kind m args = record {
    level = level;
    items =
        text (codes "%c%s")
          ∷ text (codes "background: black; font-weight: bold; color: " ++ colors kind)
          ∷ text (kind_text kind)
          ∷ args
        ++ (if has_type m then content_items (decode runtime m) else []);
  }

  unfoldable pub read_line : Message → Line E
  unfolding log_with_level
  read_line m =
      if is_error_message m
      then log_with_level error m (header (message_error runtime.platform m) ∷ [])
      else if is_rpc_message m
      then log_with_level response m (header (message_id runtime.platform m) ∷ [])
      else if is_rpc_event_message m
      then log_with_level event m (header (message_class runtime.platform m) ∷ [])
      else log_with_level receive m (all_headers m.headers ∷ [])

  -- `read` by what `read` of the connection comes to: the line, if there is one, and the result.
  unfoldable pub read : {E' : Type 0} → Decoded Message E' → Option (Line E) × Decoded Message E'
  unfolding read_line
  read (failed e) = (none, failed e)
  read (decoded m) = (some (read_line m), decoded m)

  unfoldable pub write_line : Message → Line E
  unfolding log_with_level
  write_line m =
      if is_rpc_request_message m
      then log_with_level request m
          (header (message_class runtime.platform m) ∷ header (message_id runtime.platform m) ∷ [])
      else log_with_level send m []

  -- The line of a message is printed.
  unfoldable pub print_line : Message → Logger E → Logger E
  unfolding write_line
  print_line m s = record s { logged = s.logged ++ m ∷ []; lines = s.lines ++ write_line m ∷ [] }

  unfoldable pub write : Message → Logger E → Logger E
  unfolding print_line has_type
  write m s =
      let called = record s { calls = s.calls ++ m ∷ [] } in
      if has_type m then record called { logging = s.logging ++ m ∷ [] } else print_line m called

  -- The content of one of the messages, wherever it stands, is there. In which order the contents
  -- come is left open, which is more than can happen: a content of a type that is unknown, or
  -- whose blob is not read, does not wait for the contents that are read.
  unfoldable pub on_content : List Message → Message → List Message → Logger E → Logger E
  unfolding print_line
  on_content before m after s = print_line m (record s { logging = before ++ after })

  -- `conn.write(message)`, in the order of the lines.
  unfoldable pub on_logged : Message → List Message → Logger E → Logger E
  on_logged m rest s = record s { logged = rest; written = s.written ++ m ∷ [] }

  pub data Step (s : Logger E) : Logger E → Type 0 where
    calls_write : (m : Message) → Step s (write m s)
    reads_content :
        (before : List Message) (m : Message) (after : List Message)
        → s.logging ≡ before ++ m ∷ after
        → Step s (on_content before m after s)
    writes_logged :
        (m : Message) (rest : List Message) → s.logged ≡ m ∷ rest → Step s (on_logged m rest s)

  pub data Reach : Logger E → Type 0 where
    start : Reach create_rpc_logger
    next : {s t : Logger E} → Reach s → Step s t → Reach t
