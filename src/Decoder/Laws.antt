-- ===== src/Decoder/Laws.antt =====
-- Which content type decodes a message.
use interop.Base.{
  ◌≢◌, Option, ◌≡◌, refl, ap, ◌⊎◌, inl, inr, true, false, List, [], ◌∷◌, ◌++◌, Str, codes, none,
  some, All, Bool-cases, Option-cases,
}
use interop.Header
use interop.Headers.{get}
use interop.Message.{Message}
use interop.Dispatcher.{Decoded, decoded, failed}
use interop.Values.{Value, field_of, fields_of}
use interop.Content.{Runtime, call_unmarshal}
use interop.Decoder.{
  is_the_text, find_type, type_of_name, unmarshal_of, decode_error, unmarshalled, create_decoder,
  DecodeError, cannot_decode, no_content_type, unmarshal_error,
}

abbrev pub Names : Str → Value → Type 0
Names name t = is_the_text (field_of (codes "name") (fields_of t)) name ≡ true

abbrev pub NamesNot : Str → Value → Type 0
NamesNot name t = is_the_text (field_of (codes "name") (fields_of t)) name ≡ false

-- The first of the types with the name.
pub record IsFirst (name : Str) (types : List Value) (t : Value) : Type 0 where
  pub before : List Value
  pub after : List Value
  pub split : types ≡ before ++ t ∷ after
  pub named : Names name t
  pub not_before : All (NamesNot name) before

find_type_cases :
    (name : Str) (types : List Value)
    → ((t : Value) × (find_type name types ≡ some t) × IsFirst name types t)
      ⊎ ((find_type name types ≡ none) × All (NamesNot name) types)
unfolding find_type
find_type_cases name [] = inr (refl, tt)
find_type_cases name (t ∷ types) =
    elim (Bool-cases (is_the_text (field_of (codes "name") (fields_of t)) name)) [
      | inl hit ↦ inl (
        t,
        rw hit refl,
        record { before = []; after = types; split = refl; named = hit; not_before = tt },
      )
      | inr miss ↦ elim (find_type_cases name types) [
        | inl (u, found, f) ↦ inl (
          u,
          rw miss found,
          record {
            before = t ∷ f.before;
            after = f.after;
            split = ap (◌∷◌ t) f.split;
            named = f.named;
            not_before = (miss, f.not_before);
          },
        )
        | inr (e, all) ↦ inr (rw miss e, (miss, all))
      ]
    ]

-- The header has a name that is not empty.
abbrev pub Given : Option Str → Str → Type 0
Given header name = (header ≡ some name) × (name ≢ [])

-- The header is missing, or empty.
abbrev pub NotGiven : Option Str → Type 0
NotGiven header = (header ≡ none) ⊎ (header ≡ some [])

-- What unmarshalling comes to is what decoding does, with its error.
abbrev pub Unmarshals : {E : Type 0} → Decoded Value E → Decoded Value (DecodeError E) → Type 0
Unmarshals {E} unmarshalling result =
    ((v : Value) × (unmarshalling ≡ decoded v) × (result ≡ decoded v))
    ⊎ ((error : E) × (unmarshalling ≡ failed error) × (result ≡ failed (unmarshal_error error)))

unmarshalled-Unmarshals :
    {E : Type 0} (unmarshalling : Decoded Value E)
    → Unmarshals unmarshalling (unmarshalled unmarshalling)
unmarshalled-Unmarshals (decoded v) = inl (v, refl, refl)
unmarshalled-Unmarshals (failed error) = inr (error, refl, refl)

module _ {E : Type 0} (runtime : Runtime E) where
  -- How a message is decoded by content types: by the first with the name of its header; or with the
  -- error for the name, if it is none's; or with the error for a header that is missing or empty.
  abbrev pub DecoderCases :
      List Value → Message → Option Str → Decoded Value (DecodeError E) → Type 0
  DecoderCases types m header result =
      ((name : Str) × (t : Value) × (header ≡ some name)
        × IsFirst name types t
        × Unmarshals (call_unmarshal runtime (unmarshal_of t) m.body) result)
      ⊎ (((name : Str) × Given header name
            × All (NamesNot name) types
            × (result ≡ failed (cannot_decode name)))
          ⊎ (NotGiven header × (result ≡ failed no_content_type)))

  refused :
      (types : List Value) (m : Message) (name : Str)
      → All (NamesNot name) types
      → DecoderCases types m (some name) (failed (decode_error (some name)))
  refused types m [] all = inr (inr (inr refl, refl))
  refused types m (c ∷ name) all = inr (inl (c ∷ name, (refl, λ e. cc), all, refl))

  -- Either the header of a message names one of the content types of a decoder, and decoding comes
  -- to what unmarshalling the body by the first of them with that name comes to, a value or an
  -- error; or the header gives a name that none of them has, and decoding fails with the error for
  -- that name; or the header is missing or empty, and decoding fails with the error for that.
  pub create_decoder_cases :
      (types : List Value) (m : Message)
      → DecoderCases types m (get Header.content_type m.headers) (create_decoder runtime types m)
  unfolding create_decoder type_of_name
  create_decoder_cases types m = elim (Option-cases (get Header.content_type m.headers)) [
    | inl unnamed ↦ rw (unnamed, create_decoder) (rw unnamed (inr (inr (inl refl, refl))))
    | inr (name, e) ↦ elim (find_type_cases name types) [
      | inl (t, found, f) ↦
          rw (e, create_decoder)
            (rw found (
              inl (
                name,
                t,
                refl,
                f,
                unmarshalled-Unmarshals (call_unmarshal runtime (unmarshal_of t) m.body),
              )))
      | inr (nowhere, all) ↦ rw (e, nowhere, create_decoder) (rw e (refused types m name all))
    ]
  ]
