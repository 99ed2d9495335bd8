-- ===== src/Conn/Transport.antt =====
-- What one connection writes is what the readers of another get.
use interop.Base.{
  All-first, ℕ, ◌≡◌, refl, ◌∙◌, true, sym, ap, List, [], ◌∷◌, ◌++◌, map, append_assoc, append-nil,
  All, none, some, subst,
}
use mathlib.Core.List.{Perm, perm_middle, map-append}
use mathlib.Core.List.Perm
use interop.Text.{Platform}
use interop.Message.{Message, Blob}
use interop.Wire.{create_blob_from_message}
use interop.Wire.Fields.{All-append}
use interop.Parse.RoundTrip.{IsSendable, received, parse-create}
use interop.Promise.{outcome_of}
use interop.Conn.{on_close, connection_closed, Writer, create_web_socket_writer, write, on_buffer}
use interop.Conn.Listening.{Listening, Listened}
use interop.Conn.Listening.Events.{blobs_in}
use interop.Conn.Listening.Order.{Listened-Inv}
use interop.Conn.Closing.{Event, reads, receives, messages_in, at_close, run_events-close}

nil_of_map : (f : Message → Blob) (ms : List Message) → map f ms ≡ [] → ms ≡ []
nil_of_map f [] e = refl
nil_of_map f (m ∷ ms) e = absurd (cc e)

module _ (platform : Platform) where
  -- The buffers come in any order.
  pub data Written : Writer → Type 0 where
    start : Written create_web_socket_writer
    calls_write : {w : Writer} (m : Message) → Written w → Written (write m w)
    has_buffer :
        {w : Writer} (before : List Message) (m : Message) (after : List Message)
        → w.writing ≡ before ++ m ∷ after
        → Written w
        → Written (on_buffer platform before m after w)

  -- What was sent stands for messages that, with those under way, are the messages of the calls.
  record Inv (w : Writer) : Type 0 where
    order : List Message
    sent_blobs : w.sent ≡ map (create_blob_from_message platform) order
    places : Perm w.calls (order ++ w.writing)
    carried :
        All (IsSendable platform) w.calls
        → All (IsSendable platform) order × All (IsSendable platform) w.writing

  write-Inv : (m : Message) (w : Writer) → Inv w → Inv (write m w)
  unfolding write
  write-Inv m w i = record {
    order = i.order;
    sent_blobs = i.sent_blobs;
    places = rw (← append_assoc i.order w.writing (m ∷ [])) (Perm.append_right (m ∷ []) i.places);
    carried = λ h.
        let (old, new) = All-first (IsSendable platform) w.calls (m ∷ []) h in
        let (a, b) = i.carried old in (a, All-append _ w.writing (m ∷ []) b new);
  }

  on_buffer-Inv :
      (before : List Message) (m : Message) (after : List Message) (w : Writer)
      → w.writing ≡ before ++ m ∷ after
      → Inv w
      → Inv (on_buffer platform before m after w)
  unfolding on_buffer
  on_buffer-Inv before m after w e i = record {
    order = i.order ++ m ∷ [];
    sent_blobs =
        ap (λ (bs : List Blob). bs ++ create_blob_from_message platform m ∷ []) i.sent_blobs
        ∙ sym (map-append (create_blob_from_message platform) i.order (m ∷ []));
    places = rw (append_assoc i.order (m ∷ []) (before ++ after)) (
        Perm.trans (subst (λ ms. Perm w.calls (i.order ++ ms)) e i.places)
          (Perm.append_left i.order (perm_middle before after)));
    carried = λ h.
        let (a, b) = i.carried h in
        let (front, back) =
          All-first (IsSendable platform) before (m ∷ after)
            (subst (All (IsSendable platform)) e b) in
        (All-append _ i.order (m ∷ []) a (back.0, tt), All-append _ before after front back.1);
  }

  Written-Inv : (w : Writer) → Written w → Inv w
  Written-Inv _ start = record {
    order = [];
    sent_blobs = refl;
    places = Perm.refl [];
    carried = λ h. (tt, tt);
  }
  Written-Inv _ (calls_write {w = w} m r) = write-Inv m w (Written-Inv w r)
  Written-Inv _ (has_buffer {w = w} before m after e r) =
      on_buffer-Inv before m after w e (Written-Inv w r)

  messages_in-sent :
      (events : List Event) (ms : List Message)
      → blobs_in events ≡ map some (map (create_blob_from_message platform) ms)
      → All (IsSendable platform) ms
      → messages_in platform events ≡ map received ms
  unfolding blobs_in messages_in
  messages_in-sent [] [] e h = refl
  messages_in-sent [] (m ∷ ms) e h = cc
  messages_in-sent (reads ∷ events) ms e h = messages_in-sent events ms e h
  messages_in-sent (receives content ∷ events) [] e h = cc
  messages_in-sent (receives none ∷ events) (m ∷ ms) e h = cc
  messages_in-sent (receives (some blob) ∷ events) (m ∷ ms) e (h, hs) =
      let same : blob ≡ create_blob_from_message platform m = cc in
      let rest : blobs_in events ≡ map some (map (create_blob_from_message platform) ms) = cc in
      rw (same, parse-create platform m h, messages_in)
        (ap (◌∷◌ (received m)) (messages_in-sent events ms rest hs))

  -- A connection is given messages that can be written, and all their blobs are sent. The socket
  -- of another connection delivers what was sent, in this order, and nothing else; the parsings of
  -- the messages end in any order, between its reads, and all end before its socket closes for
  -- good. Then there is an order of the messages such that the n-th read is answered with the n-th
  -- of them as it is received, and is rejected with ConnectionClosed if there are not that many.
  pub read-Written :
      (w : Writer) (l : Listening)
      → Written w
      → w.writing ≡ []
      → All (IsSendable platform) w.calls
      → Listened platform l
      → l.arrived ≡ w.sent
      → l.parsing ≡ []
      → (ms : List Message) × Perm w.calls ms
        × ((p : ℕ)
            → outcome_of p (on_close true l.conn).exchange.outcomes
              ≡ at_close connection_closed l.reads (map received ms) p)
  read-Written w l r idle sendable h same all_parsed =
      let i = Written-Inv w r in
      let v = Listened-Inv platform l h in
      let f = create_blob_from_message platform in
      let p = v.parts f i.order (same ∙ i.sent_blobs) in
      let none_open : p.open_ones ≡ [] = nil_of_map f p.open_ones (sym p.open_blobs ∙ all_parsed) in
      let calls_order : Perm w.calls i.order =
        subst (Perm w.calls) (ap (◌++◌ i.order) idle ∙ append-nil i.order) i.places in
      let order_done : Perm i.order p.done =
        subst (Perm i.order) (ap (◌++◌ p.done) none_open ∙ append-nil p.done) p.places in
      (
        p.done,
        Perm.trans calls_order order_done,
        λ q.
            ap (λ c. outcome_of q (on_close true c).exchange.outcomes) v.same_conn
            ∙ (run_events-close platform v.events).1 q
            ∙ ap (λ n. at_close connection_closed n (messages_in platform v.events) q) v.same_reads
            ∙ ap (λ (ms : List Message). at_close connection_closed l.reads ms q)
                (messages_in-sent v.events p.done (v.same_blobs ∙ ap (map some) p.done_blobs)
                  (p.carried (IsSendable platform) (i.carried sendable).0).0),
      )
