-- ===== src/Rpc/Calls.antt =====
-- The calls of js/src/RpcClient/RpcReactor.ts and the messages that the read loop hands them.
use interop.Base.{
  ℕ, suc, ◌≤◌, ◌<◌, ◌≡◌, refl, sym, ◌∙◌, ◌⊎◌, Bool, false, List, [], ◌∷◌, Str, str_eq, str_eq_iff,
  str_eq_refl, if◌then◌else◌, Option, none, some, arith, Bool-cases, inl, inr,
}
use interop.Text.{Platform}
use interop.Header
use interop.Headers.{get}
use interop.Headers.Laws.{get-set}
use interop.Message.{Message}
use interop.Messages.{message_id, message_id_lem}
use interop.Promise.{outcome_of}
use interop.Rpc.{
  Reactor, find_call, delete_call, rpc_id, create_rpc_request_message, start_call,
  create_rpc_reactor,
}

pub find_call-delete :
    (id j : Str) (calls : List (Str × ℕ))
    → find_call j (delete_call id calls) ≡ (if str_eq id j then none else find_call j calls)
unfolding find_call delete_call
find_call-delete id j [] = ground arith
find_call-delete id j ((i, p) ∷ calls) =
    ground (arith, find_call-delete id j calls, str_eq_iff i id, str_eq_iff i j, str_eq_iff id j)

request_id :
    (platform : Platform) (session_id n : ℕ) (name : Str) (base : Message)
    → message_id platform (create_rpc_request_message session_id n name base)
      ≡ some (rpc_id session_id n)
unfolding create_rpc_request_message str_eq
request_id platform session_id n name base =
    message_id_lem platform _
    ∙ get-set Header.class Header.id name _
    ∙ get-set Header.id Header.id (rpc_id session_id n) base.headers

-- Whether a message is a response to the request with an id.
unfoldable pub answers : Str → Message → Bool
answers id m = elim (get Header.id m.headers) [ none ↦ false | some i ↦ str_eq i id ]

-- The first response to the request with an id.
unfoldable pub find_response : Str → List Message → Option Message
find_response id [] = none
find_response id (m ∷ ms) = if answers id m then some m else find_response id ms

-- The promises of the waiting calls have been made, and those not yet made are not settled.
pub record IsValid {E : Type 0} (s : Reactor E) : Type 0 where
  pub waiting : (id : Str) (p : ℕ) → find_call id s.calls ≡ some p → p < s.next_promise
  pub fresh : (p : ℕ) → s.next_promise ≤ p → outcome_of p s.outcomes ≡ none

-- The call with the id, and no other, waits for the promise.
pub record Waits {E : Type 0} (id : Str) (p : ℕ) (s : Reactor E) : Type 0 where
  pub mine : find_call id s.calls ≡ some p
  pub only : (j : Str) → find_call j s.calls ≡ some p → j ≡ id
  pub open_yet : outcome_of p s.outcomes ≡ none

find_call-put :
    (id j : Str) (p q : ℕ) (calls : List (Str × ℕ))
    → find_call j ((id, p) ∷ delete_call id calls) ≡ some q
    → ((id ≡ j) × (p ≡ q)) ⊎ (find_call j calls ≡ some q)
unfolding find_call
find_call-put id j p q calls e = elim (Bool-cases (str_eq id j)) [
  | inl same ↦ inl ((str_eq_iff id j).0 same, ground arith)
  | inr other ↦ inr (ground (arith, find_call-delete id j calls))
]

pub create-IsValid : {E : Type 0} (next_id : ℕ) → IsValid (create_rpc_reactor {E = E} next_id)
unfolding create_rpc_reactor find_call outcome_of
create-IsValid next_id = record { waiting = λ id p e. cc; fresh = λ p h. refl }

module _ (platform : Platform) {E : Type 0} where
  pub start_call-Waits :
      (session_id : ℕ) (name : Str) (base : Message) (s : Reactor E)
      → IsValid s
      → Waits
          (rpc_id session_id (suc s.next_id))
          s.next_promise
          (start_call platform session_id name base s).1
  unfolding start_call find_call
  start_call-Waits session_id name base s v =
      rw (request_id platform session_id (suc s.next_id) name base) (record {
        mine = rw (str_eq_refl (rpc_id session_id (suc s.next_id))) refl;
        only = λ j e. elim (find_call-put (rpc_id session_id (suc s.next_id)) j _ _ s.calls e) [
          | inl (same, _) ↦ sym same
          | inr old ↦ absurd (omega (arith, v.waiting j s.next_promise old))
        ];
        open_yet = v.fresh s.next_promise (omega arith);
      })

  start_call-IsValid :
      (session_id : ℕ) (name : Str) (base : Message) (s : Reactor E)
      → IsValid s
      → IsValid (start_call platform session_id name base s).1
  unfolding start_call
  start_call-IsValid session_id name base s v = record {
    waiting = λ j p e. elim (find_call-put _ j _ _ s.calls e) [
      | inl (_, new) ↦ omega (arith, new)
      | inr old ↦ omega (arith, v.waiting j p old)
    ];
    fresh = λ p h. v.fresh p (omega arith);
  }
