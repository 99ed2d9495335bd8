-- ===== src/Messages.antt =====
-- js/src/messages.ts, and the guards isRpcMessage, isRpcEventMessage, isRpcRequestMessage and
-- isErrorMessage of js/src, on messages: a message has a blob and headers that are all texts, so of
-- each guard the test for its own headers is left.
use interop.Base.{
  ◌≡◌, refl, ap, ◌∙◌, Bool, true, false, ◌&&◌, [], ◌∷◌, Str, str_eq, Option, none, some,
  if◌then◌else◌, Option-cases, inl, inr,
}
use interop.Text.{Platform, canonicalize_key}
use interop.Text.Canonical.{canonicalize_key-ascii}
use interop.Header
use interop.Headers.{Headers, get}
use interop.Message.{Message}
use interop.Prototype.{inherited_names, is_one_of}

-- What a headers object has under a key: nothing, a text, or what every object has under that name
-- from Object.prototype, which counts as true.
pub data HeaderValue : Type 0 where
  missing : HeaderValue
  text : Str → HeaderValue
  inherited : Str → HeaderValue

-- `headers[key]`: the own property, or else the inherited one.
unfoldable pub look_up : Str → Headers → HeaderValue
look_up key h = elim (get key h) [
  | some value ↦ text value
  | none ↦ if is_one_of key inherited_names then inherited key else missing
]

-- `||`, where the empty text counts as false.
abbrev pub or_else : HeaderValue → HeaderValue → HeaderValue
or_else missing y = y
or_else (text []) y = y
or_else (text (c ∷ s)) y = text (c ∷ s)
or_else (inherited name) y = inherited name

-- The headers ID, Class and Error are no names of Object.prototype: they are texts or undefined.
abbrev pub as_text : HeaderValue → Option Str
as_text missing = none
as_text (text s) = some s
as_text (inherited name) = none

-- `typeof value === 'string'`
abbrev pub is_string : Option Str → Bool
is_string none = false
is_string (some s) = true

abbrev pub is_rpc_message : Message → Bool
is_rpc_message m = is_string (get Header.id m.headers)

abbrev pub is_rpc_event_message : Message → Bool
is_rpc_event_message m = is_string (get Header.class m.headers)

abbrev pub is_rpc_request_message : Message → Bool
is_rpc_request_message m = is_rpc_message m && is_rpc_event_message m

abbrev pub is_error_message : Message → Bool
is_error_message m = is_string (get Header.error m.headers)

or_else_same : (x : HeaderValue) → or_else x x ≡ x
or_else_same missing = refl
or_else_same (text []) = refl
or_else_same (text (c ∷ s)) = refl
or_else_same (inherited name) = refl

pub look_up-own :
    (key : Str) (h : Headers)
    → is_one_of key inherited_names ≡ false
    → as_text (look_up key h) ≡ get key h
unfolding look_up
look_up-own key h own = elim (Option-cases (get key h)) [
  | inl absent ↦ rw (absent, look_up) (rw own refl)
  | inr (value, present) ↦ rw (present, look_up) refl
]

module _ (platform : Platform) where
  unfoldable pub message_header : Message → Str → HeaderValue
  unfolding look_up
  message_header m header =
      or_else (look_up header m.headers) (look_up (canonicalize_key platform header) m.headers)

  unfoldable pub message_id : Message → Option Str
  unfolding message_header
  message_id m = as_text (message_header m Header.id)

  unfoldable pub message_class : Message → Option Str
  unfolding message_header
  message_class m = as_text (message_header m Header.class)

  unfoldable pub message_error : Message → Option Str
  unfolding message_header
  message_error m = as_text (message_header m Header.error)

  pub message_header-canonical :
      (m : Message) (header : Str)
      → canonicalize_key platform header ≡ header
      → message_header m header ≡ look_up header m.headers
  unfolding message_header
  message_header-canonical m header e = rw e (or_else_same (look_up header m.headers))

  message_header-own :
      (m : Message) (header : Str)
      → canonicalize_key platform header ≡ header
      → is_one_of header inherited_names ≡ false
      → as_text (message_header m header) ≡ get header m.headers
  message_header-own m header e own =
      ap as_text (message_header-canonical m header e) ∙ look_up-own header m.headers own

  pub message_id_lem : (m : Message) → message_id m ≡ get Header.id m.headers
  unfolding message_id canonicalize_key is_one_of str_eq
  message_id_lem m =
      message_header-own m Header.id (canonicalize_key-ascii platform Header.id refl) refl

  pub message_error_lem : (m : Message) → message_error m ≡ get Header.error m.headers
  unfolding message_error canonicalize_key is_one_of str_eq
  message_error_lem m =
      message_header-own m Header.error (canonicalize_key-ascii platform Header.error refl) refl

  pub message_class_lem : (m : Message) → message_class m ≡ get Header.class m.headers
  unfolding message_class canonicalize_key is_one_of str_eq
  message_class_lem m =
      message_header-own m Header.class (canonicalize_key-ascii platform Header.class refl) refl
