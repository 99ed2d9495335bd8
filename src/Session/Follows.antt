-- ===== src/Session/Follows.antt =====
-- How a session stands to its queue, and that calls, messages and the close keep it so.
use interop.Base.{
  ℕ, suc, ◌≡◌, refl, sym, ap, ◌∙◌, inl, inr, Bool, true, false, List, [], ◌∷◌, ◌++◌, length,
  get_elem?, Str, if◌then◌else◌, Option, none, some, arith, Bool-cases, append_assoc, subst,
}
use mathlib.Core.Bool.{true≢false}
use interop.Text.{Platform}
use interop.Message.{Message, Blob}
use interop.Parse.{Result, ok, err, parse_message_from_blob}
use interop.Promise.{Outcome, fulfilled, rejected, outcome_of, settle-keeps}
use interop.Exchange.{taken}
use interop.Exchange.Promises.{give, reject_each, reject_taken}
use interop.Exchange.Promises.Delivery.{Delivers, give-Delivers}
use interop.Conn.{ConnError, connection_closed, on_message, on_close}
use interop.Conn.Closing.{at_close, reject_taken-Delivers}
use interop.Rpc.{LoopError, start_call}
use interop.Session.{ClientError, Session, calls, arrives, closes, happen}
use interop.Session.Queue.{Queued, append_parsed, happen_queued}

module _ {A E : Type 0} where
  pub reject_each-keeps :
      (error : E) (qs : List ℕ) (p : ℕ) (r : Outcome A E) (outcomes : List (ℕ × Outcome A E))
      → outcome_of p outcomes ≡ some r
      → outcome_of p (reject_each error qs outcomes) ≡ some r
  unfolding reject_each
  reject_each-keeps error [] p r outcomes e = e
  reject_each-keeps error (q ∷ qs) p r outcomes e =
      reject_each-keeps error qs p r _ (settle-keeps p q r (rejected error) outcomes e)

if_same : {A : Type 0} (b : Bool) (a : A) → (if b then a else a) ≡ a
if_same true a = refl
if_same false a = refl

if_true : {A : Type 0} {b : Bool} (x y : A) → b ≡ true → x ≡ (if b then x else y)
if_true x y e = rw e refl

if_false : {A : Type 0} {b : Bool} (x y : A) → b ≡ false → y ≡ (if b then x else y)
if_false x y e = rw e refl

-- How the promise behind the objects already taken is settled at the close.
abbrev pub at_end : List Message → Outcome Message ConnError
at_end [] = rejected connection_closed
at_end (m ∷ queue) = fulfilled m

abbrev pub first : {A : Type 0} → List A → Option A
first [] = none
first (x ∷ xs) = some x

pub get_elem?-first :
    {A : Type 0} (before queue : List A) → get_elem? (before ++ queue) (length before) ≡ first queue
get_elem?-first [] [] = refl
get_elem?-first [] (x ∷ queue) = refl
get_elem?-first (b ∷ before) queue = get_elem?-first before queue

at_close-first :
    (p : ℕ) (before queue : List Message)
    → length before ≡ p
    → at_close connection_closed (suc p) (before ++ queue) p ≡ some (at_end queue)
unfolding at_close
at_close-first p before [] n =
    let e : get_elem? (before ++ []) p ≡ none = rw (← n) (get_elem?-first before []) in
    rw (e, at_close) (ground arith)
at_close-first p before (m ∷ queue) n =
    let e : get_elem? (before ++ m ∷ queue) p ≡ some m =
      rw (← n) (get_elem?-first before (m ∷ queue)) in
    rw (e, at_close) refl

module _ {D : Type 0} where
  -- The loop is over, or it waits for the promise of the next message, which is settled if the
  -- message is there, or if the connection is closed.
  pub data Phase (s : Session D) (a : Queued D) : Type 0 where
    over :
        (e : LoopError (ClientError D)) → s.awaiting ≡ none → s.reactor.ended ≡ some e → Phase s a
    reading :
        (p : ℕ) (before : List Message)
        → s.awaiting ≡ some p
        → s.reactor.ended ≡ none
        → a.closed ≡ false
        → length before ≡ p
        → Delivers s.conn.exchange (suc p) (before ++ a.queue)
        → Phase s a
    ending :
        (p : ℕ)
        → s.awaiting ≡ some p
        → s.reactor.ended ≡ none
        → a.closed ≡ true
        → outcome_of p s.conn.exchange.outcomes ≡ some (at_end a.queue)
        → Phase s a

  pub record Follows (s : Session D) (a : Queued D) : Type 0 where
    pub same_reactor : s.reactor ≡ a.reactor
    pub same_closed : s.conn.closed ≡ a.closed
    pub phase : Phase s a

module _ {D : Type 0} (platform : Platform) (dispatch : Message → Option D) (session_id : ℕ) where
  pub calls-Follows :
      (name : Str) (base : Message) (s : Session D) (a : Queued D)
      → Follows s a
      → Follows
          (happen platform dispatch session_id (calls name base) s)
          (happen_queued platform dispatch session_id (calls name base) a)
  unfolding happen happen_queued start_call
  calls-Follows name base s a f = record {
    same_reactor = ap (λ r. (start_call platform session_id name base r).1) f.same_reactor;
    same_closed = f.same_closed;
    phase = go f.phase;
  }
    where
      go :
          Phase s a
          → Phase
              (happen platform dispatch session_id (calls name base) s)
              (happen_queued platform dispatch session_id (calls name base) a)
      go (over e idle ended) = over e idle ended
      go (reading p before waits runs opened n d) = reading p before waits runs opened n d
      go (ending p waits runs shut o) = ending p waits runs shut o

  pub closes-Follows :
      (s : Session D) (a : Queued D)
      → Follows s a
      → Follows
          (happen platform dispatch session_id closes s)
          (happen_queued platform dispatch session_id closes a)
  unfolding happen happen_queued on_close reject_taken at_close
  closes-Follows s a f = record {
    same_reactor = f.same_reactor;
    same_closed = refl;
    phase = go f.phase;
  }
    where
      go :
          Phase s a
          → Phase
              (happen platform dispatch session_id closes s)
              (happen_queued platform dispatch session_id closes a)
      go (over e idle ended) = over e idle ended
      go (reading p before waits runs opened n d) = ending p waits runs refl (
          reject_taken-Delivers connection_closed s.conn.exchange (suc p) p (before ++ a.queue) d
          ∙ at_close-first p before a.queue n)
      go (ending p waits runs shut o) = ending p waits runs refl (
          reject_each-keeps connection_closed (taken s.conn.exchange.exchange) p (at_end a.queue)
            s.conn.exchange.outcomes o)

  given-Follows :
      (m : Message) (s : Session D) (a : Queued D)
      → Follows s a
      → Follows
          (record s { conn = record s.conn { exchange = give m s.conn.exchange } })
          (if a.closed then a else append_parsed (ok m) a)
  unfolding give
  given-Follows m s a f = elim (Bool-cases a.closed) [
    | inl shut ↦ subst (Follows s') (if_true a (append_parsed (ok m) a) shut) (record {
      same_reactor = f.same_reactor;
      same_closed = f.same_closed;
      phase = late shut f.phase;
    })
    | inr opened ↦ subst (Follows s') (if_false a (append_parsed (ok m) a) opened) (record {
      same_reactor = f.same_reactor;
      same_closed = f.same_closed;
      phase = early opened f.phase;
    })
  ]
    where
      s' : Session D
      s' = record s { conn = record s.conn { exchange = give m s.conn.exchange } }

      late : a.closed ≡ true → Phase s a → Phase s' a
      late shut (over e idle ended) = over e idle ended
      late shut (reading p before waits runs opened n d) = absurd (true≢false (sym shut ∙ opened))
      late shut (ending p waits runs _ o) =
          ending p waits runs shut
            (settle-keeps p _ (at_end a.queue) (fulfilled m) s.conn.exchange.outcomes o)

      early : a.closed ≡ false → Phase s a → Phase s' (append_parsed (ok m) a)
      early opened (over e idle ended) = over e idle ended
      early opened (ending p waits runs shut o) = absurd (true≢false (sym shut ∙ opened))
      early opened (reading p before waits runs _ n d) = reading p before waits runs opened n (
          rw (← append_assoc before a.queue (m ∷ []))
            (give-Delivers s.conn.exchange (suc p) (before ++ a.queue) m d))

  pub arrives-Follows :
      (content : Option Blob) (s : Session D) (a : Queued D)
      → Follows s a
      → Follows
          (happen platform dispatch session_id (arrives content) s)
          (happen_queued platform dispatch session_id (arrives content) a)
  unfolding happen happen_queued on_message
  arrives-Follows none s a f = f
  arrives-Follows (some blob) s a f = go (parse_message_from_blob platform blob) refl
    where
      go :
          (r : Result Message)
          → parse_message_from_blob platform blob ≡ r
          → Follows
              (happen platform dispatch session_id (arrives (some blob)) s)
              (happen_queued platform dispatch session_id (arrives (some blob)) a)
      go (ok m) e = rw (e, on_message, happen_queued) (given-Follows m s a f)
      go (err x) e = rw (e, on_message, happen_queued) (rw (if_same a.closed a) f)
