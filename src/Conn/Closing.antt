-- ===== src/Conn/Closing.antt =====
-- What the readers of a connection get, up to its close.
use interop.Base.{
  ℕ, zero, suc, ◌+◌, ◌-◌, ◌≤◌, ◌<◌, ◌⊎◌, ◌≡◌, refl, ◌∙◌, true, false, ◌&&◌, List, [], ◌∷◌, ◌++◌,
  length, ltb, leb, if◌then◌else◌, Option, none, some, get_elem?, arith, inl, inr, append-nil,
  append_assoc,
}
use native.Mathlib.Nat.{zero-add, add-zero, add-suc, suc-add}
use mathlib.Core.Option
use interop.Text.{Platform}
use interop.Message.{Message, Blob}
use interop.Parse.{Result, ParseError, ok, err, parse_message_from_blob}
use interop.Promise.{
  Outcome, fulfilled, rejected, settle, outcome_of, outcome_of-settle, first_of_two, new_promise,
}
use interop.Exchange.{Exchange, taken}
use interop.Exchange.Fifo.{IsAhead, of_gives, of_takes, ahead, items, advance}
use interop.Exchange.Promises.{PromiseExchange, reject_each, reject_taken}
use interop.Exchange.Promises.Delivery.{Delivers, create-Delivers, give-Delivers, take-Delivers}
use interop.Conn.{
  Conn, connection_closed, create_web_socket_conn, read, on_message, on_close, throws,
}

-- What happens to an open connection.
pub data Event : Type 0 where
  reads : Event
  receives : Option Blob → Event

get_elem?-cases {ℓ} :
    {A : Type ℓ} (xs : List A) (n : ℕ)
    → ((length xs ≤ n) × (get_elem? xs n ≡ none))
      ⊎ ((n < length xs) × ((x : A) × (get_elem? xs n ≡ some x)))
get_elem?-cases [] n = inl (omega arith, refl)
get_elem?-cases (x ∷ xs) zero = inr (omega arith, (x, refl))
get_elem?-cases (x ∷ xs) (suc n) = elim (get_elem?-cases xs n) [
  | inl (h, e) ↦ inl (omega (arith, h), e)
  | inr (h, e) ↦ inr (omega (arith, h), e)
]

advance-new_promise : (s n : ℕ) → advance new_promise s n ≡ s + n
unfolding advance
advance-new_promise s zero = omega arith
advance-new_promise s (suc n) = omega (arith, advance-new_promise (suc s) n)

-- The promises that wait are those of the takes behind the last give.
taken-items :
    (x : Exchange ℕ ℕ) (t g : ℕ)
    → IsAhead new_promise 0 x t g
    → taken x ≡ items new_promise g (t - g)
unfolding taken items ahead
taken-items x t g (of_gives n e a) = rw (a, taken) (rw (the_rest) refl)
  where
    the_rest : t - g ≡ 0
    the_rest = omega (arith, e)
taken-items x t g (of_takes n e a) =
    rw (a, taken) (rw (advance-new_promise 0 g, zero-add g, the_rest) refl)
  where
    the_rest : t - g ≡ n
    the_rest = omega (arith, e)

module _ {T E : Type 0} where
  reject_each-items :
      (error : E) (s n p : ℕ) (outcomes : List (ℕ × Outcome T E))
      → outcome_of p (reject_each error (items new_promise s n) outcomes) ≡ (
          if leb s p && ltb p (s + n)
          then some (first_of_two (outcome_of p outcomes) (rejected error))
          else outcome_of p outcomes)
  unfolding reject_each items
  reject_each-items error s zero p outcomes = ground arith
  reject_each-items error s (suc n) p outcomes =
      reject_each-items error (suc s) n p (settle s (rejected error) outcomes)
      ∙ rw (outcome_of-settle s p (rejected error) outcomes) (ground arith)

  -- What becomes of promise `p` when the waiting readers are turned away after `t` takes.
  unfoldable pub at_close : E → ℕ → List T → ℕ → Option (Outcome T E)
  at_close error t objects p = elim (get_elem? objects p) [
    | some obj ↦ some (fulfilled obj)
    | none ↦ if ltb p t then some (rejected error) else none
  ]

  pub reject_taken-Delivers :
      (error : E) (x : PromiseExchange T E) (t p : ℕ) (objects : List T)
      → Delivers x t objects
      → outcome_of p (reject_taken error x).outcomes ≡ at_close error t objects p
  unfolding reject_taken at_close
  reject_taken-Delivers error x t p objects d =
      rw (taken-items x.exchange t (length objects) d.ahead) (
        reject_each-items error (length objects) (t - length objects) p x.outcomes
        ∙ rw (d.settled p) (elim (get_elem?-cases objects p) [
          | inl (past, e) ↦ rw e (ground arith)
          | inr (within, (obj, e)) ↦ rw e (ground arith)
        ]))

unfoldable pub reads_in : List Event → ℕ
reads_in [] = 0
reads_in (reads ∷ events) = suc (reads_in events)
reads_in (receives content ∷ events) = reads_in events

module _ (platform : Platform) where
  unfoldable pub run_events : List Event → Conn → Conn
  run_events [] c = c
  run_events (reads ∷ events) c = run_events events (read c).1
  run_events (receives content ∷ events) c = run_events events (on_message platform content c).1

  -- The messages among what is received, in order.
  unfoldable pub messages_in : List Event → List Message
  messages_in [] = []
  messages_in (reads ∷ events) = messages_in events
  messages_in (receives none ∷ events) = messages_in events
  messages_in (receives (some blob) ∷ events) =
      let rest = messages_in events in
      elim (parse_message_from_blob platform blob) [ err _ ↦ rest | ok message ↦ message ∷ rest ]

  record IsOpen (c : Conn) (t : ℕ) (objects : List Message) : Type 0 where
    still_open : c.closed ≡ false
    delivers : Delivers c.exchange t objects

  read-IsOpen :
      (c : Conn) (t : ℕ) (objects : List Message)
      → IsOpen c t objects
      → IsOpen (read c).1 (suc t) objects
  unfolding read
  read-IsOpen c t objects o =
      rw (o.still_open, read)
        (record { still_open = refl; delivers = (take-Delivers c.exchange t objects o.delivers).1 })

  pub result_cases :
      (r : Result Message) → ((m : Message) × (r ≡ ok m)) ⊎ ((e : ParseError) × (r ≡ err e))
  result_cases (ok m) = inl (m, refl)
  result_cases (err e) = inr (e, refl)

  run_events-IsOpen :
      (events : List Event) (c : Conn) (t : ℕ) (objects : List Message)
      → IsOpen c t objects
      → IsOpen (run_events events c) (t + reads_in events) (objects ++ messages_in events)
  unfolding run_events reads_in messages_in on_message
  run_events-IsOpen [] c t objects o = rw (append-nil objects, add-zero t) o
  run_events-IsOpen (reads ∷ events) c t objects o =
      rw (add-suc t (reads_in events), ← suc-add t (reads_in events))
        (run_events-IsOpen events (read c).1 (suc t) objects (read-IsOpen c t objects o))
  run_events-IsOpen (receives none ∷ events) c t objects o = run_events-IsOpen events c t objects o
  run_events-IsOpen (receives (some blob) ∷ events) c t objects o =
      elim (result_cases (parse_message_from_blob platform blob)) [
        | inl (m, e) ↦
            rw (e, on_message, messages_in)
              (rw (← append_assoc objects (m ∷ []) (messages_in events)) (
                run_events-IsOpen events _ t (objects ++ m ∷ []) (record {
                  still_open = o.still_open;
                  delivers = give-Delivers c.exchange t objects m o.delivers;
                })))
        | inr (_, e) ↦ rw (e, on_message, messages_in) (run_events-IsOpen events c t objects o)
      ]

  -- While the connection is open, the n-th read is answered with the n-th message that parsed.
  pub run_events-delivered :
      (events : List Event) (p : ℕ)
      → outcome_of p (run_events events create_web_socket_conn).exchange.outcomes
        ≡ Option.map fulfilled (get_elem? (messages_in events) p)
  unfolding create_web_socket_conn
  run_events-delivered events p =
      (run_events-IsOpen events create_web_socket_conn 0 []
          (record { still_open = refl; delivers = create-Delivers })).delivers.settled
        p

  -- A connection reads and receives in any order, and then its socket closes for good. A read
  -- after that throws ConnectionClosed; of the reads before, the n-th is answered with the n-th
  -- message that parsed, and is rejected with ConnectionClosed if there are not that many; no
  -- further promise is settled.
  pub run_events-close :
      (events : List Event)
      → let c = on_close true (run_events events create_web_socket_conn) in
        (read c ≡ (throws connection_closed, c))
        × ((p : ℕ)
            → outcome_of p c.exchange.outcomes
              ≡ at_close connection_closed (reads_in events) (messages_in events) p)
  unfolding read on_close create_web_socket_conn
  run_events-close events =
      let o =
        run_events-IsOpen events create_web_socket_conn 0 []
          (record { still_open = refl; delivers = create-Delivers }) in
      (
        refl,
        λ p.
            reject_taken-Delivers connection_closed _ _ p _
              (rw (zero-add (reads_in events)) at o.delivers),
      )
