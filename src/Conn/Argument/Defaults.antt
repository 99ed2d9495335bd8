-- ===== src/Conn/Argument/Defaults.antt =====
-- That the options given to js/src/PersistentWebSocket.ts stand over the defaults.
use interop.Base.{
  ◌≡◌, refl, sym, ◌∙◌, ap, Bool, true, false, Str, str_eq, str_eq_iff, str_eq_refl, if◌then◌else◌,
  Bool-cases, inl, inr,
}
use mathlib.Core.Bool.{true≢false}
use interop.Values.{Value, Fields, no_own, field, field_of}
use interop.Conn.Argument.{set_field, spread}

-- A field that is set is read, and the others are as they were.
field_of-set_field :
    (key other : Str) (v : Value) (fields : Fields)
    → field_of other (set_field key v fields)
      ≡ (if str_eq key other then v else field_of other fields)
unfolding field_of set_field
field_of-set_field key other v no_own = refl
field_of-set_field key other v (field k w fields) = elim (Bool-cases (str_eq k key)) [
  | inl hit ↦
      (let same : k ≡ key = (str_eq_iff k key).0 hit in
        rw hit (
          rw same (elim (Bool-cases (str_eq key other)) [
            | inl here ↦ rw here refl
            | inr there ↦ rw there refl
          ])))
  | inr miss ↦ rw miss (elim (Bool-cases (str_eq k other)) [
    | inl here ↦
        (let theirs : str_eq key other ≡ false = elim (Bool-cases (str_eq key other)) [
          | inr apart ↦ apart
          | inl mine ↦ absurd (
              true≢false (
                sym (str_eq_refl k)
                ∙ ap (str_eq k) ((str_eq_iff k other).0 here ∙ sym ((str_eq_iff key other).0 mine))
                ∙ miss))
        ] in
          rw (here, theirs) refl)
    | inr there ↦ rw there (field_of-set_field key other v fields)
  ])
]

unfoldable pub has_field : Str → Fields → Bool
has_field key no_own = false
has_field key (field k v fields) = if str_eq k key then true else has_field key fields

-- No field stands twice.
abbrev pub IsPlain : Fields → Type 0
IsPlain no_own = Unit {0}
IsPlain (field k v fields) = (has_field k fields ≡ false) × IsPlain fields

-- A field of the options stands over the default, and the default stands where they have none.
pub field_of-spread :
    (key : Str) (defaults options : Fields)
    → IsPlain options
    → field_of key (spread defaults options)
      ≡ (if has_field key options then field_of key options else field_of key defaults)
unfolding spread field_of has_field
field_of-spread key defaults no_own plain = refl
field_of-spread key defaults (field k v options) (once, plain) =
    field_of-spread key (set_field k v defaults) options plain ∙ elim (Bool-cases (str_eq k key)) [
      | inl here ↦
          (let alone : has_field key options ≡ false =
              ap (λ x. has_field x options) (sym ((str_eq_iff k key).0 here)) ∙ once in
            rw (here, alone) (field_of-set_field k key v defaults ∙ rw here refl))
      | inr there ↦ rw there (elim (Bool-cases (has_field key options)) [
        | inl given ↦ rw given refl
        | inr missing ↦ rw missing (field_of-set_field k key v defaults ∙ rw there refl)
      ])
    ]
