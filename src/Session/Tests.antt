-- ===== src/Session/Tests.antt =====
-- A session of a call, its answer and the close.
use interop.Base.{ℕ, ◌≡◌, true, List, [], ◌∷◌, codes, Option, none, some}
use interop.Text.Canonical.{ascii_only}
use interop.Message.{Message}
use interop.Promise.{outcome_of}
use interop.Rpc.Client.{is_closed}
use interop.Session.{Happening, calls, arrives, resumes, closes, create_session, run_all}
use interop.Session.Queue.{run_queued, create_queued}
use interop.Session.Refines.{run_all-run_queued}
use interop.Session.Ends.{close-unanswered}

abbrev empty : Message
empty = record { headers = []; body = [] }

abbrev well : Message → Option ℕ
well m = none

-- The answer to the second call never comes.
abbrev two_calls : List Happening
two_calls =
    calls (codes "sum") empty
    ∷ calls (codes "max") empty
    ∷ arrives (some (codes "Interop-Rpc-Id: 7.1\n\nyes"))
    ∷ resumes
    ∷ []

run_all-run_queued_example :
    ((run_all ascii_only well 7 two_calls (create_session 0)).reactor
      ≡ (run_queued ascii_only well 7 two_calls (create_queued 0)).reactor)
    × ((run_all ascii_only well 7 two_calls (create_session 0)).conn.closed
        ≡ (run_queued ascii_only well 7 two_calls (create_queued 0)).closed)
run_all-run_queued_example = run_all-run_queued ascii_only well 7 0 two_calls

close-unanswered_example :
    let s =
      run_all ascii_only well 7
        (closes ∷ resumes ∷ [])
        (run_all ascii_only well 7 two_calls (create_session 0)) in
    (is_closed s.reactor ≡ true)
    × ((p : ℕ)
        → outcome_of p
            (run_all ascii_only well 7
              (calls (codes "min") empty ∷ resumes ∷ [])
              s).reactor.outcomes
          ≡ outcome_of p s.reactor.outcomes)
close-unanswered_example =
    close-unanswered ascii_only well 7 0 two_calls (calls (codes "min") empty ∷ resumes ∷ [])
