-- ===== src/Message.antt =====
-- js/src/Message.ts: a message is its headers and its body, a blob of bytes.
use interop.Base.{ℕ, List}
use interop.Headers.{Headers}

abbrev pub Blob : Type 0
Blob = List ℕ

pub record Message : Type 0 where
  pub headers : Headers
  pub body : Blob
