-- ===== src/Logger/Finish.antt =====
-- That the writes of the logger of js/src/createRpcLogger.ts come to their end.
use interop.Base.{◌≡◌, refl, ap, ◌∙◌, subst, List, [], ◌∷◌, ◌++◌, map, append-nil}
use mathlib.Core.List.{Perm}
use interop.Message.{Message}
use interop.Content.{Runtime}
use interop.Logger.Writes.{reached-Inv}
use interop.Logger.{
  Level, Logger, write_line, print_line, on_content, on_logged, reads_content, writes_logged, Reach,
  next,
}

module _ {E : Type 0} (runtime : Runtime E) (level : Level) where
  -- A later state in which no write is under way.
  pub record Finished (s t : Logger E) : Type 0 where
    pub reached : Reach runtime level t
    pub same_calls : t.calls ≡ s.calls
    pub none_logging : t.logging ≡ []
    pub none_logged : t.logged ≡ []

  drain_logged :
      (ms : List Message) (s : Logger E)
      → s.logged ≡ ms
      → s.logging ≡ []
      → Reach runtime level s
      → (t : Logger E) × Finished s t
  unfolding on_logged
  drain_logged [] s e idle r =
      (s, record { reached = r; same_calls = refl; none_logging = idle; none_logged = e })
  drain_logged (m ∷ ms) s e idle r =
      let (t, f) =
        drain_logged ms (on_logged runtime level m ms s) refl idle
          (next r (writes_logged m ms e)) in
      (
        t,
        record {
          reached = f.reached;
          same_calls = f.same_calls;
          none_logging = f.none_logging;
          none_logged = f.none_logged;
        },
      )

  drain_logging :
      (ms : List Message) (s : Logger E)
      → s.logging ≡ ms
      → Reach runtime level s
      → (t : Logger E) × Finished s t
  unfolding on_content print_line
  drain_logging [] s e r = drain_logged s.logged s refl e r
  drain_logging (m ∷ ms) s e r =
      let (t, f) =
        drain_logging ms (on_content runtime level [] m ms s) refl
          (next r (reads_content [] m ms e)) in
      (
        t,
        record {
          reached = f.reached;
          same_calls = f.same_calls;
          none_logging = f.none_logging;
          none_logged = f.none_logged;
        },
      )

  -- From every state the logger can come to one with the same calls of write in which each message
  -- that it was called with is written to the connection once, and the lines are those of the
  -- written messages, in their order.
  pub finish-all :
      (s : Logger E)
      → Reach runtime level s
      → (t : Logger E) × Reach runtime level t
        × (t.calls ≡ s.calls)
        × Perm s.calls t.written
        × (t.lines ≡ map (write_line runtime level) t.written)
  finish-all s r =
      let (t, f) = drain_logging s.logging s refl r in
      let i = reached-Inv runtime level t f.reached in
      let nothing_left : (t.written ++ t.logged) ++ t.logging ≡ t.written ++ t.logged =
        ap (◌++◌ (t.written ++ t.logged)) f.none_logging ∙ append-nil (t.written ++ t.logged) in
      let all_written : t.written ++ t.logged ≡ t.written =
        ap (◌++◌ t.written) f.none_logged ∙ append-nil t.written in
      (
        t,
        f.reached,
        f.same_calls,
        subst (λ (ms : List Message). Perm ms t.written) f.same_calls
            (subst (Perm t.calls) (nothing_left ∙ all_written) i.places),
        i.in_order ∙ ap (map (write_line runtime level)) all_written,
      )
