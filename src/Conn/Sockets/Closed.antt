-- ===== src/Conn/Sockets/Closed.antt =====
-- What is left of a connection of js/src/createWebSocketConn.ts when its socket is closed for good.
use interop.Base.{
  some, ℕ, ◌≡◌, ◌⊎◌, inl, inr, refl, sym, ◌∙◌, ap, true, List, [], ◌∷◌, ◌++◌, arith, Bool-cases,
}
use mathlib.Core.Bool.{true≢false}
use interop.Text.{Platform}
use interop.Exchange.Promises.{take}
use interop.Conn.{Conn, create_web_socket_conn, read, on_message}
use interop.Conn
use interop.Conn.Late.{on_message-closed}
use interop.Socket.{
  State, Reaction, Options, ReadyState, connecting, open_state, closed, is_closed, remove, on_open,
  close, on_timer, on_timeout, create_persistent_web_socket, Step, opens, drops, loses, fires,
  times_out, user_closes,
}
use interop.Socket
use interop.Socket.Closing.{on_close_closed_state, close_state}
use interop.Socket.Connections.{remove_only}
use interop.Socket.Invariant.{Reach-Inv, dialing_alone, established_alone}
use interop.Conn.Sockets.{
  Client, create_client, lose, ClientStep, socket_opens, socket_drops, socket_lost, timer_fires,
  connect_times_out, socket_closed, message_comes, message_parsed, user_reads, Later, no_more,
  one_more, Dead, Stays,
}

module _ (platform : Platform) (o : Options) where
  no_middle :
      {A : Type 0} (xs before after : List A) (x : A) → xs ≡ [] → xs ≡ before ++ x ∷ after → ⊥
  no_middle xs [] after x e e' = cc (e, e')
  no_middle xs (y ∷ before) after x e e' = cc (e, e')

  read-Stays : (c : Conn) → Stays c (read c).1
  unfolding read take
  read-Stays c = elim (Bool-cases c.closed) [
    | inl over ↦ rw (over, read) (record { same_closed = refl; same_outcomes = λ p. refl })
    | inr runs ↦ rw (runs, read) (record { same_closed = refl; same_outcomes = λ p. refl })
  ]

  close-Dead : (s : State) → Dead s → Dead (close s)
  close-Dead s h = rw (close_state s) (record {
    ready = refl;
    no_dialing = h.no_dialing;
    no_established = h.no_established;
    no_timer = h.no_timer;
  })

  on_timeout-Dead : (ws : ℕ) (s : State) → Dead s → Dead (on_timeout ws s)
  unfolding on_timeout
  on_timeout-Dead ws s h = record {
    ready = h.ready;
    no_dialing = h.no_dialing;
    no_established = h.no_established;
    no_timer = h.no_timer;
  }

  -- A dead socket takes no step but a close and a timeout, and the connection none but a read.
  Step-Dead :
      (c d : Client)
      → ClientStep platform o c d
      → Dead c.socket
      → c.parsing ≡ []
      → Dead d.socket × (d.parsing ≡ []) × Stays c.conn d.conn
  Step-Dead c _ (socket_opens r ws before after e) h n =
      absurd (no_middle c.socket.dialing before after ws h.no_dialing e)
  Step-Dead c _ (socket_drops r ws before after e) h n =
      absurd (no_middle c.socket.dialing before after ws h.no_dialing e)
  Step-Dead c _ (socket_lost r ws before after e) h n =
      absurd (no_middle c.socket.established before after ws h.no_established e)
  Step-Dead c _ (timer_fires m e) h n = absurd (omega (arith, h.no_timer))
  Step-Dead c _ (connect_times_out ws before after e) h n =
      (on_timeout-Dead ws c.socket h, n, record { same_closed = refl; same_outcomes = λ p. refl })
  Step-Dead c _ socket_closed h n =
      (close-Dead c.socket h, n, record { same_closed = refl; same_outcomes = λ p. refl })
  Step-Dead c _ (message_comes ws before after blob e) h n =
      absurd (no_middle c.socket.established before after ws h.no_established e)
  Step-Dead c _ (message_parsed before blob after e) h n =
      absurd (no_middle c.parsing before after blob n e)
  Step-Dead c _ user_reads h n = (h, n, read-Stays c.conn)

  Later-Dead :
      (c d : Client)
      → Later platform o c d
      → Dead c.socket
      → c.parsing ≡ []
      → Dead d.socket × (d.parsing ≡ []) × Stays c.conn d.conn
  Later-Dead c _ no_more h n = (h, n, record { same_closed = refl; same_outcomes = λ p. refl })
  Later-Dead c e (one_more {d = d} later step) h n =
      let (dead, none_left, stays) = Later-Dead c d later h n in
      let (dead', none_left', stays') = Step-Dead d e step dead none_left in
      (
        dead',
        none_left',
        record {
          same_closed = stays'.same_closed ∙ stays.same_closed;
          same_outcomes = λ p. stays'.same_outcomes p ∙ stays.same_outcomes p;
        },
      )

  -- What is reached has a socket that is reached.
  Later-Reach : (c : Client) → Later platform o (create_client o) c → Socket.Reach o c.socket
  Later-Reach _ no_more = Socket.start
  Later-Reach _ (one_more {d = d} later (socket_opens r ws before after e)) =
      Socket.next (Later-Reach d later) (opens r ws before after e)
  Later-Reach _ (one_more {d = d} later (socket_drops r ws before after e)) =
      Socket.next (Later-Reach d later) (drops r ws before after e)
  Later-Reach _ (one_more {d = d} later (socket_lost r ws before after e)) =
      Socket.next (Later-Reach d later) (loses r ws before after e)
  Later-Reach _ (one_more {d = d} later (timer_fires n e)) =
      Socket.next (Later-Reach d later) (fires n e)
  Later-Reach _ (one_more {d = d} later (connect_times_out ws before after e)) =
      Socket.next (Later-Reach d later) (times_out ws before after e)
  Later-Reach _ (one_more {d = d} later socket_closed) =
      Socket.next (Later-Reach d later) user_closes
  Later-Reach _ (one_more {d = d} later (message_comes ws before after blob e)) =
      Later-Reach d later
  Later-Reach _ (one_more {d = d} later (message_parsed before blob after e)) = Later-Reach d later
  Later-Reach _ (one_more {d = d} later user_reads) = Later-Reach d later

  -- The last socket is gone.
  record Gone (ws : ℕ) (s : State) : Type 0 where
    dialing_gone : remove ws s.dialing ≡ []
    established_gone : remove ws s.established ≡ []
    no_timers : s.timers ≡ 0

  closed_lost :
      (reaction : Reaction) (ws : ℕ) (s : State)
      → s.ready_state ≡ closed
      → Gone ws s
      → Dead (Socket.on_close o reaction ws s)
  closed_lost reaction ws s r g = rw (on_close_closed_state o reaction ws s r) (record {
    ready = r;
    no_dialing = g.dialing_gone;
    no_established = g.established_gone;
    no_timer = g.no_timers;
  })

  lost-Dead :
      (reaction : Reaction) (ws : ℕ) (c : Client)
      → Gone ws c.socket
      → (c.conn.closed ≡ true → ⊥)
      → (lose o reaction ws c).conn.closed ≡ true
      → Dead (lose o reaction ws c).socket
  unfolding Conn.on_close
  lost-Dead reaction ws c g alive over = go c.socket.ready_state refl
    where
      go : (r : ReadyState) → c.socket.ready_state ≡ r → Dead (lose o reaction ws c).socket
      go connecting r = absurd (alive (rw r at over))
      go open_state r = absurd (alive (rw r at over))
      go closed r = closed_lost reaction ws c.socket r g

  -- A connection that is closed has no socket any more.
  closed-Dead :
      (c : Client) → Later platform o (create_client o) c → c.conn.closed ≡ true → Dead c.socket
  unfolding create_web_socket_conn remove
  closed-Dead _ no_more over = absurd (true≢false (sym over))
  closed-Dead _ (one_more {d = d} later (socket_opens r ws before after e)) over =
      absurd (no_middle d.socket.dialing before after ws (closed-Dead d later over).no_dialing e)
  closed-Dead _ (one_more {d = d} later (socket_drops r ws before after e)) over =
      let (ds, es, t) =
        dialing_alone o d.socket (Reach-Inv o d.socket (Later-Reach d later)) ws before after e in
      lost-Dead r ws d
        (record {
          dialing_gone = ap (remove ws) ds ∙ remove_only ws;
          established_gone = ap (remove ws) es;
          no_timers = t;
        })
        (λ h. no_middle d.socket.dialing before after ws (closed-Dead d later h).no_dialing e) over
  closed-Dead _ (one_more {d = d} later (socket_lost r ws before after e)) over =
      let (ds, es, t) =
        established_alone o d.socket (Reach-Inv o d.socket (Later-Reach d later)) ws before after
          e in
      lost-Dead r ws d
        (record {
          dialing_gone = ap (remove ws) ds;
          established_gone = ap (remove ws) es ∙ remove_only ws;
          no_timers = t;
        })
        (λ h.
          no_middle d.socket.established before after ws (closed-Dead d later h).no_established e)
        over
  closed-Dead _ (one_more {d = d} later (timer_fires n e)) over =
      absurd (omega (arith, (closed-Dead d later over).no_timer))
  closed-Dead _ (one_more {d = d} later (connect_times_out ws before after e)) over =
      on_timeout-Dead ws d.socket (closed-Dead d later over)
  closed-Dead _ (one_more {d = d} later socket_closed) over =
      close-Dead d.socket (closed-Dead d later over)
  closed-Dead _ (one_more {d = d} later (message_comes ws before after blob e)) over =
      closed-Dead d later over
  closed-Dead _ (one_more {d = d} later (message_parsed before blob after e)) over =
      closed-Dead d later (sym (on_message-closed platform (some blob) d.conn) ∙ over)
  closed-Dead _ (one_more {d = d} later user_reads) over =
      closed-Dead d later (sym (read-Stays d.conn).same_closed ∙ over)

  -- A connection on a persistent web socket has come to a state in which it is closed, or in which
  -- the socket is closed with no socket that is dialed or established and no timer, as when the
  -- retries are exhausted; and no message is being parsed. Whatever comes later, the socket is
  -- closed and no other is made, the connection is closed if and only if it was, and no promise of
  -- a reader is settled that was not.
  pub Later-Stays :
      (c d : Client)
      → Later platform o (create_client o) c
      → (c.conn.closed ≡ true) ⊎ Dead c.socket
      → c.parsing ≡ []
      → Later platform o c d
      → Dead d.socket × Stays c.conn d.conn
  Later-Stays c d reached over_or_dead none_left later =
      let (dead, _, stays) = Later-Dead c d later (is_dead over_or_dead) none_left in (dead, stays)
    where
      is_dead : (c.conn.closed ≡ true) ⊎ Dead c.socket → Dead c.socket
      is_dead (inl over) = closed-Dead c reached over
      is_dead (inr dead) = dead
