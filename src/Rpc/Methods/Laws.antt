-- ===== src/Rpc/Methods/Laws.antt =====
-- What the methods of js/src/RpcClient/RpcMethods.ts return, and which they are.
use interop.Base.{
  ℕ, suc, ◌≡◌, ◌≢◌, ◌↔◌, ◌⊎◌, refl, ap, sym, ◌∙◌, Bool, true, false, List, [], ◌∷◌, Str, str_eq,
  str_eq_iff, str_eq_refl, Option, none, some, Bool-cases, Option-cases, inl, inr,
}
use mathlib.Core.Option.{some-injective}
use mathlib.Core.Bool.{true≢false}
use interop.Dispatcher.{Decoded, decoded, failed}
use interop.Values.{Value}
use interop.Prototype.{inherited_names, is_one_of}
use interop.Rpc.Client.{content_of}
use interop.Rpc.Methods.{
  Key, name_key, symbol_key, Methods, method, inherited, find_method, get_method,
  create_rpc_methods, guarded, run_method,
}

module _ {V E : Type 0} where
  guarded_iff :
      (name : Str) (guard : Option (V → Bool)) (result v : V)
      → (guarded {E = E} name guard result ≡ decoded v)
        ↔ ((result ≡ v) × ((g : V → Bool) → guard ≡ some g → g v ≡ true))
  guarded_iff name none result v = (λ e. (cc, λ g e'. cc), λ h. ap decoded h.0)
  guarded_iff name (some guard) result v = elim (Bool-cases (guard result)) [
    | inl good ↦ rw good (
      λ e.
          let same : result ≡ v = cc in
          (
            same,
            λ g e'.
                ap (λ (h : V → Bool). h v) (sym (some-injective _ _ e'))
                ∙ ap guard (sym same)
                ∙ good,
          ),
      λ h. ap decoded h.0,
    )
    | inr bad ↦
        rw bad (λ e. cc, λ h. absurd (true≢false (sym (h.1 guard refl) ∙ ap guard (sym h.0) ∙ bad)))
  ]

  decoded_cases : (r : Decoded V E) → ((v : V) × (r ≡ decoded v)) ⊎ ((e : E) × (r ≡ failed e))
  decoded_cases (decoded v) = inl (v, refl)
  decoded_cases (failed e) = inr (e, refl)

  -- A method returns a value exactly if the query returns it and it passes the guard of the name
  -- of the method, if there is one.
  pub run_method_iff :
      (query_delegate : Str → Option Value → Decoded V E) (guards : Str → Option (V → Bool))
      (name : Str) (content : Option Value) (v : V)
      → (run_method query_delegate guards name content ≡ decoded v) ↔ (
          (query_delegate name (content_of content) ≡ decoded v)
          × ((g : V → Bool) → guards name ≡ some g → g v ≡ true))
  unfolding run_method
  run_method_iff query_delegate guards name content v =
      elim (decoded_cases (query_delegate name (content_of content))) [
        | inl (result, e) ↦
            rw (e, run_method)
              (let both = guarded_iff name (guards name) result v in
                (
                  λ h. let (same, passes) = both.0 h in (ap decoded same, passes),
                  λ h. both.1 (cc, h.1),
                ))
        | inr (error, e) ↦ rw (e, run_method) (λ h. cc, λ h. cc)
      ]

-- Other properties are asked for in between.
pub get_all : List Key → Methods → Methods
get_all [] s = s
get_all (key ∷ keys) s = get_all keys (get_method key s).1

module _ (name : Str) (s : Methods) where
  get_method_own :
      (k : ℕ) → find_method name s.methods ≡ some k → get_method (name_key name) s ≡ (method k, s)
  unfolding get_method
  get_method_own k e = rw (e, get_method) refl

  get_method_inherited :
      find_method name s.methods ≡ none
      → is_one_of name inherited_names ≡ true
      → get_method (name_key name) s ≡ (inherited name, s)
  unfolding get_method
  get_method_inherited e i = rw (e, i, get_method) refl

  get_method_new :
      find_method name s.methods ≡ none
      → is_one_of name inherited_names ≡ false
      → get_method (name_key name) s ≡ (
        method s.next_method,
        record { methods = (name, s.next_method) ∷ s.methods; next_method = suc s.next_method },
      )
  unfolding get_method
  get_method_new e i = rw (e, i, get_method) refl

  -- What asking for a name does to the entry of another, or of itself.
  find_method-get_name :
      (other : Str) (r : Option ℕ)
      → find_method other s.methods ≡ r
      → (r ≢ none) ⊎ (is_one_of other inherited_names ≡ true)
      → find_method other (get_method (name_key name) s).1.methods ≡ r
  unfolding find_method
  find_method-get_name other r e why = elim (Option-cases (find_method name s.methods)) [
    | inr (k, own) ↦ rw (get_method_own k own) e
    | inl fresh ↦ elim (Bool-cases (is_one_of name inherited_names)) [
      | inl i ↦ rw (get_method_inherited fresh i) e
      | inr i ↦ rw (get_method_new fresh i) (elim (Bool-cases (str_eq name other)) [
        | inl same ↦
            (let n = (str_eq_iff name other).0 same in
              elim why [
                | inl known ↦
                    absurd (known (sym e ∙ ap (λ x. find_method x s.methods) (sym n) ∙ fresh))
                | inr j ↦
                    absurd (true≢false (sym j ∙ ap (λ x. is_one_of x inherited_names) (sym n) ∙ i))
              ])
        | inr apart ↦ rw apart e
      ])
    ]
  ]

find_method-get_method :
    (name : Str) (k : ℕ) (key : Key) (s : Methods)
    → find_method name s.methods ≡ some k
    → find_method name (get_method key s).1.methods ≡ some k
unfolding get_method find_method
find_method-get_method name k (symbol_key j) s e = e
find_method-get_method name k (name_key other) s e =
    find_method-get_name other s name (some k) e (inl (λ n. cc))

find_method-inherited :
    (name : Str) (key : Key) (s : Methods)
    → is_one_of name inherited_names ≡ true
    → find_method name s.methods ≡ none
    → find_method name (get_method key s).1.methods ≡ none
unfolding get_method find_method
find_method-inherited name (symbol_key j) s i e = e
find_method-inherited name (name_key other) s i e = find_method-get_name other s name none e (inr i)

get_all-keeps :
    (name : Str) (k : ℕ) (keys : List Key) (s : Methods)
    → find_method name s.methods ≡ some k
    → find_method name (get_all keys s).methods ≡ some k
unfolding get_all
get_all-keeps name k [] s e = e
get_all-keeps name k (key ∷ keys) s e =
    get_all-keeps name k keys _ (find_method-get_method name k key s e)

get_all-inherited :
    (name : Str) (keys : List Key) (s : Methods)
    → is_one_of name inherited_names ≡ true
    → find_method name s.methods ≡ none
    → find_method name (get_all keys s).methods ≡ none
unfolding get_all
get_all-inherited name [] s i e = e
get_all-inherited name (key ∷ keys) s i e =
    get_all-inherited name keys _ i (find_method-inherited name key s i e)

-- Asking for a name again gives what it gave first, whatever properties were asked for in between.
pub get_method-get_all :
    (name : Str) (keys : List Key) (s : Methods)
    → let (got, s') = get_method (name_key name) s in
      (get_method (name_key name) (get_all keys s')).0 ≡ got
unfolding find_method
get_method-get_all name keys s = elim (Option-cases (find_method name s.methods)) [
  | inr (k, e) ↦
      rw (get_method_own name s k e)
        (ap (λ r. r.0) (get_method_own name (get_all keys s) k (get_all-keeps name k keys s e)))
  | inl none_yet ↦ elim (Bool-cases (is_one_of name inherited_names)) [
    | inl i ↦ rw (get_method_inherited name s none_yet i) (
        ap (λ r. r.0)
          (get_method_inherited name (get_all keys s) (get_all-inherited name keys s i none_yet) i))
    | inr fresh ↦ rw (get_method_new name s none_yet fresh) (
        ap (λ r. r.0)
          (get_method_own name _ s.next_method
            (get_all-keeps name s.next_method keys _ (rw (str_eq_refl name) refl))))
  ]
]

-- Asking for the name of a property of Object.prototype never gives a method, whatever was asked
-- for before; it gives the inherited property.
pub get_method-inherited :
    (name : Str) (keys : List Key)
    → is_one_of name inherited_names ≡ true
    → (get_method (name_key name) (get_all keys create_rpc_methods)).0 ≡ inherited name
get_method-inherited name keys i =
    ap (λ r. r.0)
      (get_method_inherited name _
        (get_all-inherited name keys create_rpc_methods i (unfold find_method in refl)) i)
