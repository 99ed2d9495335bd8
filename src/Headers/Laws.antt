-- ===== src/Headers/Laws.antt =====
-- The laws of header objects.
use interop.Base.{
  ◌≡◌, refl, sym, true, false, [], ◌∷◌, ◌++◌, Str, str_eq, str_eq_iff, if◌then◌else◌, none, some,
  arith, inl, inr, Bool-cases, All, append_assoc, append-nil, ap,
}
use interop.Headers.{Headers, get, has, array_index, insert_new, replace, set, assign, from_entries}

get-insert_new :
    (key key' value : Str) (h : Headers)
    → has key h ≡ false
    → get key' (insert_new key value h) ≡ (if str_eq key key' then some value else get key' h)
unfolding get has insert_new
get-insert_new key key' value [] e = refl
get-insert_new key key' value ((k, v) ∷ h) e = ground (
  arith,
  get-insert_new key key' value h,
  str_eq_iff k key,
  str_eq_iff key key',
  str_eq_iff k key',
)

get-replace :
    (key key' value : Str) (h : Headers)
    → has key h ≡ true
    → get key' (replace key value h) ≡ (if str_eq key key' then some value else get key' h)
unfolding get has replace
get-replace key key' value [] e = cc
get-replace key key' value ((k, v) ∷ h) e =
    ground (
      arith,
      get-replace key key' value h,
      str_eq_iff k key,
      str_eq_iff key key',
      str_eq_iff k key',
    )

-- Reading a key after an assignment.
pub get-set :
    (key key' value : Str) (h : Headers)
    → get key' (set key value h) ≡ (if str_eq key key' then some value else get key' h)
unfolding set
get-set key key' value h = elim (Bool-cases (has key h)) [
  | inl old ↦ rw (old, set) (get-replace key key' value h old)
  | inr new ↦ rw (new, set) (get-insert_new key key' value h new)
]

insert_new_last :
    (key value : Str) (h : Headers)
    → array_index key ≡ none
    → insert_new key value h ≡ h ++ (key, value) ∷ []
unfolding insert_new
insert_new_last key value [] e = refl
insert_new_last key value ((k, v) ∷ h) e =
    rw (e, insert_new) (ap (◌∷◌ (k, v)) (insert_new_last key value h e))

-- No key stands twice, and none is an array index.
abbrev pub IsPlain : Headers → Type 0
IsPlain [] = Unit {0}
IsPlain ((k, v) ∷ h) = (array_index k ≡ none) × (has k h ≡ false) × IsPlain h

has-append :
    (key k v : Str) (h : Headers)
    → has key (h ++ (k, v) ∷ []) ≡ (if has key h then true else str_eq k key)
unfolding has
has-append key k v [] = ground arith
has-append key k v ((j, w) ∷ h) = ground (arith, has-append key k v h)

abbrev Avoids : Headers → Headers → Type 0
Avoids target source = All (λ e. has e.0 target ≡ false) source

Avoids-snoc :
    (target source : Headers) (k v : Str)
    → Avoids target source
    → has k source ≡ false
    → Avoids (target ++ (k, v) ∷ []) source
unfolding has
Avoids-snoc target [] k v a e = tt
Avoids-snoc target ((j, w) ∷ source) k v a e = (
  ground (arith, has-append j k v target, str_eq_iff k j, str_eq_iff j k),
  Avoids-snoc target source k v a.1 (ground arith),
)

assign-append :
    (target source : Headers)
    → IsPlain source
    → Avoids target source
    → assign target source ≡ target ++ source
unfolding assign set
assign-append target [] p a = sym (append-nil target)
assign-append target ((k, v) ∷ source) (index, new, p) (free, a) =
    rw
      (
        free,
        insert_new_last k v target index,
        assign-append (target ++ (k, v) ∷ []) source p (Avoids-snoc target source k v a new),
      )
      (append_assoc target ((k, v) ∷ []) source)

Avoids-nil : (source : Headers) → Avoids [] source
unfolding has
Avoids-nil [] = tt
Avoids-nil (e ∷ source) = (refl, Avoids-nil source)

-- Object.fromEntries gives the entries back as they are, unless a key stands twice or is an index.
pub from_entries-IsPlain : (h : Headers) → IsPlain h → from_entries h ≡ h
unfolding from_entries
from_entries-IsPlain h p = assign-append [] h p (Avoids-nil h)
