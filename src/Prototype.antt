-- ===== src/Prototype.antt =====
-- What a plain object of the program has by its prototype: js/src/RpcClient/RpcReactor.ts,
-- js/src/RpcClient/RpcMethods.ts, js/src/messages.ts and createConstrainedEventTarget.ts read objects
-- by keys that may be its names.
pub mod Keys
use interop.Base.{Bool, false, ◌||◌, List, [], ◌∷◌, Str, codes, str_eq}

-- The properties that every object has from Object.prototype; each of them counts as true.
abbrev pub inherited_names : List Str
inherited_names =
    codes "constructor"
    ∷ codes "__defineGetter__"
    ∷ codes "__defineSetter__"
    ∷ codes "hasOwnProperty"
    ∷ codes "__lookupGetter__"
    ∷ codes "__lookupSetter__"
    ∷ codes "isPrototypeOf"
    ∷ codes "propertyIsEnumerable"
    ∷ codes "toString"
    ∷ codes "valueOf"
    ∷ codes "__proto__"
    ∷ codes "toLocaleString"
    ∷ []

unfoldable pub is_one_of : Str → List Str → Bool
is_one_of id [] = false
is_one_of id (name ∷ names) = str_eq name id || is_one_of id names
