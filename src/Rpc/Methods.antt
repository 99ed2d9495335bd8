-- ===== src/Rpc/Methods.antt =====
-- js/src/RpcClient/RpcMethods.ts: an object that makes a method for each name that is asked of it, keeps
-- it, and checks what its calls return. A method is known by its number. The guards are given by name.
pub mod Laws
mod Tests
use interop.Base.{
  ℕ, suc, Bool, true, false, List, [], ◌∷◌, Str, str_eq, if◌then◌else◌, Option, none, some,
}
use interop.Dispatcher.{Decoded, decoded, failed}
use interop.Values.{Value}
use interop.Rpc.Client.{content_of}
use interop.Prototype.{inherited_names, is_one_of}

-- A property key is a text or a symbol.
pub data Key : Type 0 where
  name_key : Str → Key
  symbol_key : ℕ → Key

pub record Methods : Type 0 where
  pub methods : List (Str × ℕ)
  pub next_method : ℕ

-- What asking for a property gives: nothing, a method, or a function of Object.prototype.
pub data Got : Type 0 where
  no_value : Got
  method : ℕ → Got
  inherited : Str → Got

unfoldable pub find_method : Str → List (Str × ℕ) → Option ℕ
unfolding str_eq
find_method name [] = none
find_method name ((n, k) ∷ methods) = if str_eq n name then some k else find_method name methods

abbrev pub create_rpc_methods : Methods
create_rpc_methods = record { methods = []; next_method = 0 }

-- The handler `get` of the proxy; `methods[name]` is also found on Object.prototype.
unfoldable pub get_method : Key → Methods → Got × Methods
unfolding find_method is_one_of
get_method (symbol_key k) s = (no_value, s)
get_method (name_key name) s = elim (find_method name s.methods) [
  | some k ↦ (method k, s)
  | none ↦ if is_one_of name inherited_names then (inherited name, s) else (
    method s.next_method,
    record { methods = (name, s.next_method) ∷ s.methods; next_method = suc s.next_method },
  )
]

pub data MethodError (E : Type 0) : Type 0 where
  query_error : E → MethodError E
  unexpected_response : Str → MethodError E

module _ {V E : Type 0} where
  abbrev pub guarded : Str → Option (V → Bool) → V → Decoded V (MethodError E)
  guarded name none result = decoded result
  guarded name (some guard) result =
      if guard result then decoded result else failed (unexpected_response name)

  -- The call of the method of a name.
  unfoldable pub run_method :
      (Str → Option Value → Decoded V E)
      → (Str → Option (V → Bool))
      → Str
      → Option Value
      → Decoded V (MethodError E)
  run_method query_delegate guards name content = elim (query_delegate name (content_of content)) [
    | failed error ↦ failed (query_error error)
    | decoded result ↦ guarded name (guards name) result
  ]
