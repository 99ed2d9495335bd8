-- ===== src/Exchange/Tests.antt =====
-- The exchanges at concrete calls, among them those of js/src/Exchange/Exchange.spec.ts.
use interop.Base.{ℕ, ◌≡◌, refl, List, [], ◌∷◌, get_elem?}
use mathlib.Core.Option
use interop.Promise.{fulfilled, new_promise, outcome_of}
use interop.Exchange.{new_exchange}
use interop.Exchange.Fifo.{Call, takes, gives, run, pairing, run-pairing}
use interop.Exchange.Promises.{create_promise_exchange}
use interop.Exchange.Promises.Delivery
use interop.Exchange.Promises.Delivery.{Op, promises, run-delivery}

abbrev spec_calls : List Call
spec_calls = gives ∷ takes ∷ takes ∷ gives ∷ gives ∷ gives ∷ gives ∷ takes ∷ gives ∷ takes ∷ []

run_spec :
    (run new_promise spec_calls (new_exchange new_promise 0)).0
    ≡ 0 ∷ 0 ∷ 1 ∷ 1 ∷ 2 ∷ 3 ∷ 4 ∷ 2 ∷ 5 ∷ 3 ∷ []
unfolding run new_exchange
run_spec = refl

run-pairing_example :
    (run new_promise spec_calls (new_exchange new_promise 0)).0
    ≡ pairing new_promise 0 spec_calls 0 0
run-pairing_example = run-pairing new_promise 0 spec_calls

abbrev two_readers : List (Op ℕ)
two_readers = Delivery.takes ∷ Delivery.takes ∷ Delivery.gives 70 ∷ []

run-delivery_example :
    let r = Delivery.run {E = ℕ} two_readers create_promise_exchange in
    (r.0 ≡ 0 ∷ 1 ∷ [])
    × ((n : ℕ)
        → outcome_of n r.1.outcomes
          ≡ Option.map fulfilled (get_elem? (Delivery.objects two_readers) n))
unfolding promises
run-delivery_example = run-delivery two_readers
