-- ===== src/Conn/Late.antt =====
-- What happens to the readers of js/src/createWebSocketConn.ts after its socket has closed for good, when
-- the parsing of a message may still end.
use interop.Base.{
  ℕ, ◌<◌, ◌≡◌, refl, sym, ◌∙◌, Option-cases, true, List, [], ◌∷◌, Option, none, some, get_elem?,
  arith, inl, inr, Bool-cases,
}
use interop.Text.{Platform}
use interop.Message.{Message, Blob}
use interop.Parse.{Result, ok, err, parse_message_from_blob}
use interop.Promise.{Outcome, fulfilled, rejected, outcome_of, settle-keeps}
use interop.Exchange.Promises.{take, give}
use interop.Conn.{
  Conn, ConnError, connection_closed, create_web_socket_conn, read, on_message, on_close, throws,
}
use interop.Conn.Closing.{
  Event, reads, receives, reads_in, messages_in, run_events, at_close, result_cases,
  run_events-close,
}

module _ (platform : Platform) where
  pub on_message-closed :
      (content : Option Blob) (c : Conn) → (on_message platform content c).1.closed ≡ c.closed
  unfolding on_message
  on_message-closed none c = refl
  on_message-closed (some blob) c = go (parse_message_from_blob platform blob) refl
    where
      go :
          (r : Result Message)
          → parse_message_from_blob platform blob ≡ r
          → (on_message platform (some blob) c).1.closed ≡ c.closed
      go (ok m) e = rw (e, on_message) refl
      go (err x) e = rw (e, on_message) refl

  read-keeps :
      (c : Conn) (p : ℕ) (r : Outcome Message ConnError)
      → outcome_of p c.exchange.outcomes ≡ some r
      → outcome_of p (read c).1.exchange.outcomes ≡ some r
  unfolding read take
  read-keeps c p r e = elim (Bool-cases c.closed) [
    | inl over ↦ rw (over, read) e
    | inr runs ↦ rw (runs, read) e
  ]

  on_message-keeps :
      (content : Option Blob) (c : Conn) (p : ℕ) (r : Outcome Message ConnError)
      → outcome_of p c.exchange.outcomes ≡ some r
      → outcome_of p (on_message platform content c).1.exchange.outcomes ≡ some r
  unfolding on_message give
  on_message-keeps none c p r e = e
  on_message-keeps (some blob) c p r e =
      elim (result_cases platform (parse_message_from_blob platform blob)) [
        | inl (m, parsed) ↦ rw (parsed, on_message) (settle-keeps p _ r (fulfilled m) _ e)
        | inr (_, failed) ↦ rw (failed, on_message) e
      ]

  -- What a reader was told stays.
  run_events-keeps :
      (events : List Event) (c : Conn) (p : ℕ) (r : Outcome Message ConnError)
      → outcome_of p c.exchange.outcomes ≡ some r
      → outcome_of p (run_events platform events c).exchange.outcomes ≡ some r
  unfolding run_events
  run_events-keeps [] c p r e = e
  run_events-keeps (reads ∷ events) c p r e =
      run_events-keeps events (read c).1 p r (read-keeps c p r e)
  run_events-keeps (receives content ∷ events) c p r e =
      run_events-keeps events (on_message platform content c).1 p r
        (on_message-keeps content c p r e)

  run_events-closed :
      (events : List Event) (c : Conn)
      → c.closed ≡ true
      → (run_events platform events c).closed ≡ true
  unfolding run_events read
  run_events-closed [] c e = e
  run_events-closed (reads ∷ events) c e = run_events-closed events (read c).1 (rw (e, read) refl)
  run_events-closed (receives content ∷ events) c e =
      run_events-closed events (on_message platform content c).1 (on_message-closed content c ∙ e)

  -- Every promise of a reader has been settled at the close.
  at_close-settled :
      (t : ℕ) (ms : List Message) (p : ℕ)
      → p < t
      → (r : Outcome Message ConnError) × (at_close connection_closed t ms p ≡ some r)
  unfolding at_close
  at_close-settled t ms p h = elim (Option-cases (get_elem? ms p)) [
    | inl past ↦ (rejected connection_closed, rw (past, at_close) (ground arith))
    | inr (m, within) ↦ (fulfilled m, rw (within, at_close) refl)
  ]

  -- A connection reads, and parsings end, in any order; its socket closes for good; and then there
  -- may be more reads, and the parsings of more messages may end. A read after the close throws
  -- ConnectionClosed. Of the reads before the close, the n-th is answered with the n-th message
  -- whose parsing ended before it, and is rejected with ConnectionClosed if there are not that
  -- many; nothing that comes later changes it.
  pub run_events-late :
      (events late : List Event)
      → let c =
          run_events platform late
            (on_close true (run_events platform events create_web_socket_conn)) in
        (read c ≡ (throws connection_closed, c))
        × ((p : ℕ)
            → p < reads_in events
            → outcome_of p c.exchange.outcomes
              ≡ at_close connection_closed (reads_in events) (messages_in platform events) p)
  unfolding read on_close
  run_events-late events late =
      let c = on_close true (run_events platform events create_web_socket_conn) in
      (
        rw (run_events-closed late c refl, read) refl,
        λ p h.
            let (r, settled) =
              at_close-settled (reads_in events) (messages_in platform events) p h in
            run_events-keeps late c p r ((run_events-close platform events).1 p ∙ settled)
            ∙ sym settled,
      )
