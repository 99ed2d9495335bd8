-- ===== src/Conn/Listening.antt =====
-- The listener of messages of js/src/createWebSocketConn.ts as it runs: it awaits
-- parseMessageFromBlob, so several messages can be parsed at a time, and the parsing of a message may
-- end before that of one that came earlier.
pub mod Events
pub mod Order
use native.Mathlib.Nat.{zero-add, add-zero, add-suc, suc-add}
use interop.Base.{
  ℕ, suc, ◌+◌, ◌≡◌, refl, ap, sym, ◌∙◌, List, [], ◌∷◌, ◌++◌, map, All, append_assoc, append-nil,
  Option, none, some, arith, subst,
}
use mathlib.Core.List.{Perm, perm_middle, map-append}
use mathlib.Core.List.Perm
use interop.Text.{Platform}
use interop.Message.{Message, Blob}
use interop.Conn.{Conn, create_web_socket_conn, read, on_message}
use interop.Wire.Fields.{All-append}
use interop.Conn.Closing.{Event, reads, receives, reads_in, run_events}

-- `arrived` are the blobs that the socket has delivered, `parsing` those whose parsing has not ended.
pub record Listening : Type 0 where
  pub conn : Conn
  pub arrived : List Blob
  pub parsing : List Blob
  pub reads : ℕ

abbrev pub create_listening : Listening
create_listening = record { conn = create_web_socket_conn; arrived = []; parsing = []; reads = 0 }

-- `await parseMessageFromBlob(e.data)` begins.
unfoldable pub begin_parsing : Blob → Listening → Listening
begin_parsing blob l = record l {
  arrived = l.arrived ++ blob ∷ [];
  parsing = l.parsing ++ blob ∷ [];
}

abbrev pub read_once : Listening → Listening
read_once l = record l { conn = (read l.conn).1; reads = suc l.reads }

module _ (platform : Platform) where
  -- The parsing of one of the blobs ends, wherever it stands.
  unfoldable pub end_parsing : List Blob → Blob → List Blob → Listening → Listening
  end_parsing before blob after l = record l {
    conn = (on_message platform (some blob) l.conn).1;
    parsing = before ++ after;
  }

  pub data Listened : Listening → Type 0 where
    start : Listened create_listening
    hears : {l : Listening} (blob : Blob) → Listened l → Listened (begin_parsing blob l)
    parses :
        {l : Listening} (before : List Blob) (blob : Blob) (after : List Blob)
        → l.parsing ≡ before ++ blob ∷ after
        → Listened l
        → Listened (end_parsing before blob after l)
    is_read : {l : Listening} → Listened l → Listened (read_once l)
