-- ===== src/Dispatcher/Routes.antt =====
-- Which route a dispatch takes, and what subscribing and unsubscribing do to the routes.
use interop.Base.{
  ℕ, suc, ◌≤◌, ◌≡◌, refl, ap, ◌∙◌, ◌⊎◌, inl, inr, Bool, true, false, List, [], ◌∷◌, ◌++◌, All, ◌==◌,
  arith, Bool-cases,
}
use interop.Headers.{Headers}
use interop.Message.{Message}
use interop.Dispatcher.{
  Route, Dispatcher, Dispatched, Decoded, decoded, failed, ignored, handled, threw, call, handle,
  subscribed, remove_route, remove_last, unsubscribe, dispatch_routes, dispatch,
}

module _ {V R : Type 0} where
  abbrev pub Skips : Message → List (Route V R) → Type 0
  Skips message = All (λ r. r.matcher message ≡ false)

  -- The first route that matches a message.
  pub record IsChosen (message : Message) (routes : List (Route V R)) (route : Route V R)
      : Type 0 where
    pub before : List (Route V R)
    pub after : List (Route V R)
    pub split : routes ≡ before ++ route ∷ after
    pub skipped : Skips message before
    pub matches : route.matcher message ≡ true

  -- What the chosen route makes of a message: the error of the decoder, or the result of its handler
  -- on the value and the headers.
  abbrev pub Handles :
      {E : Type 0} → Decoded V E → Message → (V → Headers → R) → Dispatched R E → Type 0
  Handles {E} decoding message handler result =
      ((error : E) × (decoding ≡ failed error) × (result ≡ threw error))
      ⊎ ((event : V) × (decoding ≡ decoded event)
          × (result ≡ handled (handler event message.headers)))

  pub call-Handles :
      {E : Type 0} (decoding : Decoded V E) (message : Message) (handler : V → Headers → R)
      → Handles decoding message handler (call message handler decoding)
  call-Handles (decoded event) message handler = inr (event, refl, refl)
  call-Handles (failed error) message handler = inl (error, refl, refl)

  abbrev pub DispatchCases :
      {E : Type 0} → (Message → Decoded V E) → Message → List (Route V R) → Dispatched R E → Type 0
  DispatchCases decoder message routes result =
      (Skips message routes × (result ≡ ignored))
      ⊎ ((route : Route V R) × IsChosen message routes route
          × Handles (decoder message) message route.handler result)

  dispatch_routes_cases :
      {E : Type 0} (decoder : Message → Decoded V E) (message : Message) (routes : List (Route V R))
      → DispatchCases decoder message routes (dispatch_routes decoder message routes)
  unfolding dispatch_routes
  dispatch_routes_cases decoder message [] = inl (tt, refl)
  dispatch_routes_cases decoder message (r ∷ rs) = elim (Bool-cases (r.matcher message)) [
    | inl hit ↦ inr (
      r,
      record { before = []; after = rs; split = refl; skipped = tt; matches = hit },
      rw hit (call-Handles (decoder message) message r.handler),
    )
    | inr miss ↦ elim (dispatch_routes_cases decoder message rs) [
      | inl (skips, e) ↦ inl ((miss, skips), rw miss e)
      | inr (route, c, e) ↦ inr (
        route,
        record {
          before = r ∷ c.before;
          after = c.after;
          split = ap (◌∷◌ r) c.split;
          skipped = (miss, c.skipped);
          matches = c.matches;
        },
        rw miss e,
      )
    ]
  ]

  -- Either no route matches, and a dispatch ignores the message; or there is a first route that
  -- matches, and the dispatch fails with the decoder's error, or comes to what the handler of that
  -- route does with the decoded message and the headers.
  pub dispatch_cases :
      {E : Type 0} (decoder : Message → Decoded V E) (message : Message) (d : Dispatcher V R)
      → DispatchCases decoder message d.routes (dispatch decoder message d)
  unfolding dispatch
  dispatch_cases decoder message d = dispatch_routes_cases decoder message d.routes

  -- The identities of the routes rise from `lo` on, and lie below `next`.
  abbrev pub Rises : ℕ → List (Route V R) → ℕ → Type 0
  Rises lo [] next = lo ≤ next
  Rises lo (r ∷ rs) next = (lo ≤ r.id) × Rises (suc r.id) rs next

  abbrev pub IsValid : Dispatcher V R → Type 0
  IsValid d = Rises 0 d.routes d.next_id

  Rises-le : (lo : ℕ) (rs : List (Route V R)) (next : ℕ) → Rises lo rs next → lo ≤ next
  Rises-le lo [] next h = h
  Rises-le lo (r ∷ rs) next (h, hs) = omega (arith, Rises-le (suc r.id) rs next hs)

  Rises-down :
      (lo lo' : ℕ) (rs : List (Route V R)) (next : ℕ)
      → lo' ≤ lo
      → Rises lo rs next
      → Rises lo' rs next
  Rises-down lo lo' [] next l h = omega arith
  Rises-down lo lo' (r ∷ rs) next l (h, hs) = (omega arith, hs)

  Rises-snoc :
      (lo : ℕ) (rs : List (Route V R)) (r : Route V R) (next : ℕ)
      → r.id ≡ next
      → Rises lo rs next
      → Rises lo (rs ++ r ∷ []) (suc next)
  Rises-snoc lo [] r next e h = (omega arith, omega arith)
  Rises-snoc lo (s ∷ rs) r next e (h, hs) = (h, Rises-snoc (suc s.id) rs r next e hs)

  -- Subscribing keeps the identities apart.
  pub handle-IsValid :
      (matcher : Message → Bool) (handler : V → Headers → R) (d : Dispatcher V R)
      → IsValid d
      → IsValid (handle matcher handler d).1
  unfolding handle
  handle-IsValid matcher handler d h = Rises-snoc 0 d.routes _ d.next_id refl h

  Rises-remove :
      (id lo : ℕ) (rs : List (Route V R)) (next : ℕ)
      → Rises lo rs next
      → Rises lo (remove_route id rs) next
  unfolding remove_route
  Rises-remove id lo [] next h = h
  Rises-remove id lo (r ∷ rs) next (h, hs) = elim (Bool-cases (r.id == id)) [
    | inl hit ↦ rw hit (Rises-down (suc r.id) lo rs next (omega arith) hs)
    | inr miss ↦ rw miss (h, Rises-remove id (suc r.id) rs next hs)
  ]

  Rises-last :
      (lo : ℕ) (rs : List (Route V R)) (next : ℕ)
      → Rises lo rs next
      → Rises lo (remove_last rs) next
  unfolding remove_last
  Rises-last lo [] next h = h
  Rises-last lo (r ∷ []) next (h, hs) = omega arith
  Rises-last lo (r ∷ s ∷ rs) next (h, hs) = (h, Rises-last (suc r.id) (s ∷ rs) next hs)

  pub unsubscribe-IsValid : (id : ℕ) (d : Dispatcher V R) → IsValid d → IsValid (unsubscribe id d)
  unfolding unsubscribe
  unsubscribe-IsValid id d h = elim (Bool-cases (subscribed id d.routes)) [
    | inl old ↦ rw (old, unsubscribe) (Rises-remove id 0 d.routes d.next_id h)
    | inr gone ↦ rw (gone, unsubscribe) (Rises-last 0 d.routes d.next_id h)
  ]

  subscribed-fresh :
      (id lo : ℕ) (rs : List (Route V R)) (next : ℕ)
      → Rises lo rs next
      → next ≤ id
      → subscribed id rs ≡ false
  unfolding subscribed
  subscribed-fresh id lo [] next h l = refl
  subscribed-fresh id lo (r ∷ rs) next (h, hs) l =
      ground (arith, subscribed-fresh id (suc r.id) rs next hs, Rises-le (suc r.id) rs next hs)

  subscribed-snoc : (rs : List (Route V R)) (r : Route V R) → subscribed r.id (rs ++ r ∷ []) ≡ true
  unfolding subscribed
  subscribed-snoc [] r = ground arith
  subscribed-snoc (s ∷ rs) r = ground (arith, subscribed-snoc rs r)

  remove_route-snoc :
      (rs : List (Route V R)) (r : Route V R)
      → subscribed r.id rs ≡ false
      → remove_route r.id (rs ++ r ∷ []) ≡ rs
  unfolding subscribed remove_route
  remove_route-snoc [] r h = ground arith
  remove_route-snoc (s ∷ rs) r h = ground (arith, remove_route-snoc rs r)

  -- If the routes have identities of their own, subscribing and unsubscribing again leaves the
  -- routes as they were.
  pub unsubscribe-handle :
      (matcher : Message → Bool) (handler : V → Headers → R) (d : Dispatcher V R)
      → IsValid d
      → let (id, d') = handle matcher handler d in (unsubscribe id d').routes ≡ d.routes
  unfolding handle unsubscribe
  unsubscribe-handle matcher handler d h =
      let route : Route V R = record { id = d.next_id; matcher = matcher; handler = handler } in
      rw (subscribed-snoc d.routes route) (
        remove_route-snoc d.routes route
          (subscribed-fresh d.next_id 0 d.routes d.next_id h (omega arith)))

  remove_last-snoc : (rs : List (Route V R)) (r : Route V R) → remove_last (rs ++ r ∷ []) ≡ rs
  unfolding remove_last
  remove_last-snoc [] r = refl
  remove_last-snoc (s ∷ []) r = refl
  remove_last-snoc (s ∷ t ∷ rs) r = ap (◌∷◌ s) (remove_last-snoc (t ∷ rs) r)

  unsubscribe-gone :
      (id : ℕ) (d : Dispatcher V R)
      → subscribed id d.routes ≡ false
      → (unsubscribe id d).routes ≡ remove_last d.routes
  unfolding unsubscribe
  unsubscribe-gone id d gone = rw (gone, unsubscribe) refl

  -- If the routes have identities of their own, calling the same unsubscriber a second time
  -- removes another subscription, the last one.
  pub unsubscribe_twice :
      (matcher : Message → Bool) (handler : V → Headers → R) (d : Dispatcher V R)
      (rs : List (Route V R)) (victim : Route V R)
      → IsValid d
      → d.routes ≡ rs ++ victim ∷ []
      → let (id, d') = handle matcher handler d in (unsubscribe id (unsubscribe id d')).routes ≡ rs
  unsubscribe_twice matcher handler d rs victim h e =
      let id : ℕ = (handle matcher handler d).0 in
      let first : Dispatcher V R = unsubscribe id (handle matcher handler d).1 in
      let same : first.routes ≡ d.routes = unsubscribe-handle matcher handler d h in
      let gone : subscribed id first.routes ≡ false =
        rw same
          (unfold handle in subscribed-fresh d.next_id 0 d.routes d.next_id h (omega arith)) in
      unsubscribe-gone id first gone ∙ ap remove_last (same ∙ e) ∙ remove_last-snoc rs victim
