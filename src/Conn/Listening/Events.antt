-- ===== src/Conn/Listening/Events.antt =====
-- What events of a connection come to one after the other, and what it receives by them.
use native.Mathlib.Nat.{zero-add, suc-add}
use interop.Base.{suc, ◌+◌, ◌≡◌, refl, ap, sym, ◌∙◌, List, [], ◌∷◌, ◌++◌, Option}
use interop.Text.{Platform}
use interop.Message.{Blob}
use interop.Conn.{Conn, read, on_message}
use interop.Conn.Closing.{Event, reads, receives, reads_in, run_events}

-- What a connection receives.
unfoldable pub blobs_in : List Event → List (Option Blob)
blobs_in [] = []
blobs_in (reads ∷ events) = blobs_in events
blobs_in (receives content ∷ events) = content ∷ blobs_in events

pub blobs_in-append : (es fs : List Event) → blobs_in (es ++ fs) ≡ blobs_in es ++ blobs_in fs
unfolding blobs_in
blobs_in-append [] fs = refl
blobs_in-append (reads ∷ es) fs = blobs_in-append es fs
blobs_in-append (receives content ∷ es) fs = ap (◌∷◌ content) (blobs_in-append es fs)

pub reads_in-append : (es fs : List Event) → reads_in (es ++ fs) ≡ reads_in es + reads_in fs
unfolding reads_in
reads_in-append [] fs = sym (zero-add (reads_in fs))
reads_in-append (reads ∷ es) fs =
    ap suc (reads_in-append es fs) ∙ sym (suc-add (reads_in es) (reads_in fs))
reads_in-append (receives content ∷ es) fs = reads_in-append es fs

module _ (platform : Platform) where
  pub run_events-append :
      (es fs : List Event) (c : Conn)
      → run_events platform (es ++ fs) c ≡ run_events platform fs (run_events platform es c)
  unfolding run_events
  run_events-append [] fs c = refl
  run_events-append (reads ∷ es) fs c = run_events-append es fs (read c).1
  run_events-append (receives content ∷ es) fs c =
      run_events-append es fs (on_message platform content c).1
