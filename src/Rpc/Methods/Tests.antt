-- ===== src/Rpc/Methods/Tests.antt =====
-- Methods of concrete names.
use interop.Base.{
  ℕ, ◌≡◌, ◌↔◌, refl, Bool, true, List, [], ◌∷◌, Str, str_eq, codes, Option, none, some,
}
use interop.Dispatcher.{Decoded, decoded, failed}
use interop.Values.{Value, null, undefined, is_string_value, string}
use interop.Prototype.{is_one_of}
use interop.Rpc.Methods.{
  Key, name_key, symbol_key, create_rpc_methods, get_method, run_method, inherited,
  unexpected_response,
}
use interop.Rpc.Methods.Laws.{get_all, run_method_iff, get_method-inherited}

abbrev echo : Str → Option Value → Decoded Value ℕ
echo name none = decoded null
echo name (some v) = decoded v

abbrev texts_only : Str → Option (Value → Bool)
texts_only name = some is_string_value

not_a_text :
    run_method echo texts_only (codes "echo") (some undefined)
    ≡ failed (unexpected_response (codes "echo"))
unfolding run_method
not_a_text = refl

run_method_iff_example :
    (run_method echo texts_only (codes "echo") (some (string (codes "hi")))
      ≡ decoded (string (codes "hi")))
    ↔ ((echo (codes "echo") (some (string (codes "hi"))) ≡ decoded (string (codes "hi")))
        × ((g : Value → Bool)
            → texts_only (codes "echo") ≡ some g
            → g (string (codes "hi")) ≡ true))
run_method_iff_example =
    run_method_iff echo texts_only (codes "echo") (some (string (codes "hi"))) (string (codes "hi"))

abbrev other_keys : List Key
other_keys = name_key (codes "sum") ∷ symbol_key 0 ∷ name_key (codes "echo") ∷ []

get_method-inherited_example :
    (get_method (name_key (codes "toString")) (get_all other_keys create_rpc_methods)).0
    ≡ inherited (codes "toString")
unfolding is_one_of str_eq
get_method-inherited_example = get_method-inherited (codes "toString") other_keys refl
