-- ===== src/Conn/Listening/Order.antt =====
-- In which order what arrives at a listener of js/src/createWebSocketConn.ts comes to its readers.
use native.Mathlib.Nat.{add-zero, add-suc}
use interop.Base.{
  All-first, map-split, get_elem?, suc, ◌≡◌, refl, ap, sym, ◌∙◌, List, [], ◌∷◌, ◌++◌, map, All,
  append_assoc, append-nil, Option, some, subst,
}
use mathlib.Core.List.{Perm, perm_middle, map-append}
use mathlib.Core.List.Perm
use mathlib.Core.Option
use interop.Text.{Platform}
use interop.Message.{Message, Blob}
use interop.Conn.{create_web_socket_conn, read, on_message}
use interop.Wire.Fields.{All-append}
use interop.Conn.Closing.{
  Event, reads, receives, reads_in, run_events, messages_in, run_events-delivered,
}
use interop.Parse.{ok, parse_message_from_blob}
use interop.Promise.{outcome_of, fulfilled}
use interop.Conn.Listening.{
  Listening, create_listening, begin_parsing, read_once, end_parsing, Listened, start, hears,
  parses, is_read,
}
use interop.Conn.Listening.Events.{blobs_in, blobs_in-append, reads_in-append, run_events-append}

-- Messages whose blobs have arrived: those that are parsed, and those that are being parsed.
pub record Parts (f : Message → Blob) (order : List Message) (parsed parsing : List Blob)
    : Type 1 where
  pub done : List Message
  pub open_ones : List Message
  pub done_blobs : parsed ≡ map f done
  pub open_blobs : parsing ≡ map f open_ones
  pub places : Perm order (done ++ open_ones)
  pub carried : (P : Message → Type 0) → All P order → All P done × All P open_ones

module _ (platform : Platform) where
  -- What there is of a connection that listens: the parsings that have ended and the reads, in their
  -- order, as the events of a connection.
  pub record Inv (l : Listening) : Type 1 where
    pub events : List Event
    pub parsed : List Blob
    pub same_conn : l.conn ≡ run_events platform events create_web_socket_conn
    pub same_reads : reads_in events ≡ l.reads
    pub same_blobs : blobs_in events ≡ map some parsed
    pub parts :
        (f : Message → Blob) (order : List Message)
        → l.arrived ≡ map f order
        → Parts f order parsed l.parsing

  begin_parsing-Inv : (blob : Blob) (l : Listening) → Inv l → Inv (begin_parsing blob l)
  unfolding begin_parsing
  begin_parsing-Inv blob l v = record {
    events = v.events;
    parsed = v.parsed;
    same_conn = v.same_conn;
    same_reads = v.same_reads;
    same_blobs = v.same_blobs;
    parts = λ f order e.
        let (firsts, lasts, s, a, b) = map-split f order l.arrived (blob ∷ []) (sym e) in
        let p = v.parts f firsts (sym a) in
        record {
          done = p.done;
          open_ones = p.open_ones ++ lasts;
          done_blobs = p.done_blobs;
          open_blobs =
              ap (λ (bs : List Blob). bs ++ blob ∷ []) p.open_blobs
              ∙ ap (◌++◌ (map f p.open_ones)) (sym b)
              ∙ sym (map-append f p.open_ones lasts);
          places =
              rw (s, ← append_assoc p.done p.open_ones lasts) (Perm.append_right lasts p.places);
          carried = λ P h.
              let (early, late) = All-first P firsts lasts (subst (All P) s h) in
              let (old, still) = p.carried P early in
              (old, All-append P p.open_ones lasts still late);
        };
  }

  end_parsing-Inv :
      (before : List Blob) (blob : Blob) (after : List Blob) (l : Listening)
      → l.parsing ≡ before ++ blob ∷ after
      → Inv l
      → Inv (end_parsing platform before blob after l)
  unfolding end_parsing blobs_in reads_in run_events
  end_parsing-Inv before blob after l e v = record {
    events = v.events ++ receives (some blob) ∷ [];
    parsed = v.parsed ++ blob ∷ [];
    same_conn =
        ap (λ c. (on_message platform (some blob) c).1) v.same_conn
        ∙ sym (
            run_events-append platform v.events (receives (some blob) ∷ []) create_web_socket_conn);
    same_reads =
        reads_in-append v.events (receives (some blob) ∷ [])
        ∙ add-zero (reads_in v.events)
        ∙ v.same_reads;
    same_blobs =
        blobs_in-append v.events (receives (some blob) ∷ [])
        ∙ ap (λ (bs : List (Option Blob)). bs ++ some blob ∷ []) v.same_blobs
        ∙ sym (map-append some v.parsed (blob ∷ []));
    parts = λ f order a.
        let p = v.parts f order a in
        let (front, rest, s, b, c) =
          map-split f p.open_ones before (blob ∷ after) (sym p.open_blobs ∙ e) in
        end_part f order v.parsed before after blob p front rest s b c;
  }
    where
      end_part :
          (f : Message → Blob) (order : List Message) (parsed before after : List Blob)
          (blob : Blob) (p : Parts f order parsed l.parsing) (front rest : List Message)
          → p.open_ones ≡ front ++ rest
          → map f front ≡ before
          → map f rest ≡ blob ∷ after
          → Parts f order (parsed ++ blob ∷ []) (before ++ after)
      end_part f order parsed before after blob p front [] s b c = absurd (cc c)
      end_part f order parsed before after blob p front (m ∷ rest) s b c = record {
        done = p.done ++ m ∷ [];
        open_ones = front ++ rest;
        done_blobs =
            ap (λ (bs : List Blob). bs ++ blob ∷ []) p.done_blobs
            ∙ ap (λ d. map f p.done ++ d ∷ []) (sym (head_of c))
            ∙ sym (map-append f p.done (m ∷ []));
        open_blobs =
            ap (λ (bs : List Blob). bs ++ after) (sym b)
            ∙ ap (◌++◌ (map f front)) (sym (tail_of c))
            ∙ sym (map-append f front rest);
        places = rw (append_assoc p.done (m ∷ []) (front ++ rest)) (
            Perm.trans (subst (λ ms. Perm order (p.done ++ ms)) s p.places)
              (Perm.append_left p.done (perm_middle front rest)));
        carried = λ P h.
            let (old, still) = p.carried P h in
            let (early, late) = All-first P front (m ∷ rest) (subst (All P) s still) in
            (All-append P p.done (m ∷ []) old (late.0, tt), All-append P front rest early late.1);
      }
        where
          head_of : map f (m ∷ rest) ≡ blob ∷ after → f m ≡ blob
          head_of e = cc e

          tail_of : map f (m ∷ rest) ≡ blob ∷ after → map f rest ≡ after
          tail_of e = cc e

  is_read-Inv : (l : Listening) → Inv l → Inv (read_once l)
  unfolding blobs_in reads_in run_events
  is_read-Inv l v = record {
    events = v.events ++ reads ∷ [];
    parsed = v.parsed;
    same_conn =
        ap (λ c. (read c).1) v.same_conn
        ∙ sym (run_events-append platform v.events (reads ∷ []) create_web_socket_conn);
    same_reads =
        reads_in-append v.events (reads ∷ [])
        ∙ add-suc (reads_in v.events) 0
        ∙ ap suc (add-zero (reads_in v.events) ∙ v.same_reads);
    same_blobs =
        blobs_in-append v.events (reads ∷ []) ∙ append-nil (blobs_in v.events) ∙ v.same_blobs;
    parts = v.parts;
  }

  -- Whatever the order in which parsings end, the connection is as if the messages had come in that
  -- order.
  pub Listened-Inv : (l : Listening) → Listened platform l → Inv l
  unfolding blobs_in reads_in run_events
  Listened-Inv _ start = record {
    events = [];
    parsed = [];
    same_conn = refl;
    same_reads = refl;
    same_blobs = refl;
    parts = λ f order e. nothing f order e;
  }
    where
      nothing : (f : Message → Blob) (order : List Message) → [] ≡ map f order → Parts f order [] []
      nothing f [] e = record {
        done = [];
        open_ones = [];
        done_blobs = refl;
        open_blobs = refl;
        places = Perm.refl [];
        carried = λ P h. (tt, tt);
      }
      nothing f (m ∷ order) e = absurd (cc e)
  Listened-Inv _ (hears {l = l} blob h) = begin_parsing-Inv blob l (Listened-Inv l h)
  Listened-Inv _ (parses {l = l} before blob after e h) =
      end_parsing-Inv before blob after l e (Listened-Inv l h)
  Listened-Inv _ (is_read {l = l} h) = is_read-Inv l (Listened-Inv l h)

  -- Two messages arrive one after the other at two readers that wait. The first reader can be
  -- answered with the second message, and the second reader with the first.
  pub parses-reordered :
      (first second : Blob) (m n : Message)
      → parse_message_from_blob platform first ≡ ok m
      → parse_message_from_blob platform second ≡ ok n
      → (l : Listening) × Listened platform l
        × (l.arrived ≡ first ∷ second ∷ [])
        × (outcome_of 0 l.conn.exchange.outcomes ≡ some (fulfilled n))
        × (outcome_of 1 l.conn.exchange.outcomes ≡ some (fulfilled m))
  unfolding end_parsing begin_parsing run_events messages_in
  parses-reordered first second m n e e' = (
    end_parsing platform [] first [] (end_parsing platform (first ∷ []) second [] both),
    parses [] first [] refl
        (parses (first ∷ []) second [] refl (hears second (hears first (is_read (is_read start))))),
    refl,
    run_events-delivered platform events 0
        ∙ ap (λ ms. Option.map fulfilled (get_elem? ms 0)) messages,
    run_events-delivered platform events 1
        ∙ ap (λ ms. Option.map fulfilled (get_elem? ms 1)) messages,
  )
    where
      both : Listening
      both = begin_parsing second (begin_parsing first (read_once (read_once create_listening)))

      events : List Event
      events = reads ∷ reads ∷ receives (some second) ∷ receives (some first) ∷ []

      messages : messages_in platform events ≡ n ∷ m ∷ []
      messages = rw (e', messages_in) (rw (e, messages_in) refl)
