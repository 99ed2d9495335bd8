-- ===== src/Conn/Tests.antt =====
-- A connection at a concrete sequence of events.
use mathlib.Core.List.{Perm}
use interop.Base.{◌<◌, inl, refl, arith, map, ℕ, ◌≡◌, true, List, [], ◌∷◌, codes, none, some}
use interop.Text.Canonical.{ascii_only}
use interop.Text.{canonicalize_key, is_space, trim_start, trim_end}
use interop.Header
use interop.Headers.{get, has, array_index}
use interop.Message.{Message}
use interop.Wire.{create_blob_from_message}
use interop.Wire.Fields.{IsField}
use interop.Parse.RoundTrip.{IsSendable, received, parse-create}
use interop.Conn.{Writer, create_web_socket_writer, write, on_buffer}
use interop.Conn.Late.{run_events-late}
use interop.Conn.Listening.{
  Listening, create_listening, begin_parsing, end_parsing, read_once, Listened, start, hears,
  parses, is_read,
}
use interop.Conn.Listening.Order.{parses-reordered}
use interop.Parse.{parse_message_from_blob, ok}
use interop.Conn.Transport
use interop.Conn.Transport.{Written, calls_write, has_buffer, read-Written}
use interop.Promise.{outcome_of, fulfilled}
use interop.Conn.{create_web_socket_conn, read, on_close, throws, connection_closed}
use interop.Conn.Closing.{Event, reads, receives, reads_in, messages_in, run_events, at_close}

abbrev three_readers : List Event
three_readers =
    reads
    ∷ receives none
    ∷ reads
    ∷ receives (some (codes "Interop-Rpc-Class: foo\n\n"))
    ∷ reads
    ∷ []

-- One more message is parsed when the socket has closed.
abbrev parsed_late : List Event
parsed_late = receives (some (codes "Interop-Rpc-Class: bar\n\n")) ∷ reads ∷ []

run_events-late_example :
    let c =
      run_events ascii_only parsed_late
        (on_close true (run_events ascii_only three_readers create_web_socket_conn)) in
    (read c ≡ (throws connection_closed, c))
    × ((p : ℕ)
        → p < reads_in three_readers
        → outcome_of p c.exchange.outcomes
          ≡ at_close connection_closed
              (reads_in three_readers)
              (messages_in ascii_only three_readers)
              p)
run_events-late_example = run_events-late ascii_only three_readers parsed_late

abbrev named : Message
named = record { headers = (Header.class, codes "foo") ∷ []; body = codes "one" }

abbrev other : Message
other = record { headers = (Header.class, codes "foo") ∷ []; body = codes "two" }

foo-IsField : IsField ascii_only (Header.class, codes "foo")
unfolding canonicalize_key is_space trim_start trim_end
foo-IsField = record {
  named = λ e. cc;
  name_ascii = omega arith;
  name_chars = ground arith;
  canonical = refl;
  value_ascii = omega arith;
  one_line = ground arith;
  trimmed_start = refl;
  trimmed_end = refl;
}

named-IsSendable : IsSendable ascii_only named
unfolding get array_index has
named-IsSendable = record {
  some_header = λ e. cc;
  fields = (foo-IsField, tt);
  plain = (refl, refl, tt);
  length_fits = inl refl;
}

other-IsSendable : IsSendable ascii_only other
unfolding get array_index has
other-IsSendable = record {
  some_header = λ e. cc;
  fields = (foo-IsField, tt);
  plain = (refl, refl, tt);
  length_fits = inl refl;
}

abbrev both_called : Writer
both_called = write other (write named create_web_socket_writer)

-- The buffer of the second message comes first.
abbrev both_sent : Writer
both_sent =
    on_buffer ascii_only [] named [] (on_buffer ascii_only (named ∷ []) other [] both_called)

both_sent-Written : Written ascii_only both_sent
unfolding write on_buffer
both_sent-Written =
    has_buffer [] named [] refl (
      has_buffer (named ∷ []) other [] refl (calls_write other (calls_write named Transport.start)))

-- The second message arrives first, and is parsed last, behind two reads.
abbrev first_sent : List ℕ
first_sent = create_blob_from_message ascii_only other

abbrev second_sent : List ℕ
second_sent = create_blob_from_message ascii_only named

abbrev two_arrived : Listening
two_arrived =
    begin_parsing second_sent (begin_parsing first_sent (read_once (read_once create_listening)))

abbrev two_parsed : Listening
two_parsed =
    end_parsing ascii_only [] first_sent []
      (end_parsing ascii_only (first_sent ∷ []) second_sent [] two_arrived)

two_parsed-Listened : Listened ascii_only two_parsed
unfolding begin_parsing end_parsing
two_parsed-Listened = parses [] first_sent [] refl (
    parses (first_sent ∷ []) second_sent [] refl
      (hears second_sent (hears first_sent (is_read (is_read start)))))

read-Written_example :
    (ms : List Message) × Perm (named ∷ other ∷ []) ms
    × ((p : ℕ)
        → outcome_of p (on_close true two_parsed.conn).exchange.outcomes
          ≡ at_close connection_closed 2 (map received ms) p)
unfolding write on_buffer begin_parsing end_parsing
read-Written_example =
    read-Written ascii_only both_sent two_parsed both_sent-Written refl
      (named-IsSendable, (other-IsSendable, tt)) two_parsed-Listened refl refl

named_parses : parse_message_from_blob ascii_only second_sent ≡ ok (received named)
named_parses = parse-create ascii_only named named-IsSendable

other_parses : parse_message_from_blob ascii_only first_sent ≡ ok (received other)
other_parses = parse-create ascii_only other other-IsSendable

parses-reordered_example :
    (l : Listening) × Listened ascii_only l
    × (l.arrived ≡ first_sent ∷ second_sent ∷ [])
    × (outcome_of 0 l.conn.exchange.outcomes ≡ some (fulfilled (received named)))
    × (outcome_of 1 l.conn.exchange.outcomes ≡ some (fulfilled (received other)))
parses-reordered_example =
    parses-reordered ascii_only first_sent second_sent (received other) (received named)
      other_parses named_parses
