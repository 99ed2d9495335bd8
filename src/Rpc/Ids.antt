-- ===== src/Rpc/Ids.antt =====
-- The ids of the requests of js/src/createRpcMessage.ts.
use interop.Base.{
  ℕ, ◌≡◌, ◌≢◌, sym, ap, ◌∙◌, [], ◌∷◌, ◌++◌, Str, codes, some, pos, ℤ, Option, none, negsuc,
}
use interop.Number.{decimal, parse_int}
use interop.Number.Decimal.{parse_int-decimal}
use interop.Rpc.{rpc_id}

append-cancel : (s : Str) {t u : Str} → s ++ t ≡ s ++ u → t ≡ u
append-cancel [] e = e
append-cancel (c ∷ s) e = append-cancel s (cc)

number_of : Option ℤ → ℕ
number_of none = 0
number_of (some (pos n)) = n
number_of (some (negsuc n)) = 0

decimal-injective : (m n : ℕ) → decimal m ≡ decimal n → m ≡ n
unfolding number_of
decimal-injective m n e =
    ap number_of (sym (parse_int-decimal m) ∙ ap parse_int e ∙ parse_int-decimal n)

rpc_id-injective : (session_id m n : ℕ) → rpc_id session_id m ≡ rpc_id session_id n → m ≡ n
unfolding rpc_id
rpc_id-injective session_id m n e =
    decimal-injective m n (append-cancel (codes ".") (append-cancel (decimal session_id) e))

-- In a session, requests with different numbers have different ids.
pub rpc_id-ne : (session_id m n : ℕ) → m ≢ n → rpc_id session_id m ≢ rpc_id session_id n
rpc_id-ne session_id m n other e = other (rpc_id-injective session_id m n e)
