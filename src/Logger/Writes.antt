-- ===== src/Logger/Writes.antt =====
-- What the logger of js/src/createRpcLogger.ts does to the messages that are written through it.
use interop.Base.{
  codes, some, ◌≡◌, refl, sym, ap, ◌∙◌, subst, true, false, List, [], ◌∷◌, ◌++◌, map, append_assoc,
  Bool-cases, inl, inr, append-shift, Perm-snoc,
}
use mathlib.Core.List.{map-append, Perm, perm_middle}
use mathlib.Core.List.Perm
use interop.Header
use interop.Headers.{get}
use interop.Message.{Message}
use interop.Content.{Runtime}
use interop.Logger.{
  Level, Line, Logger, create_rpc_logger, has_type, write_line, print_line, write, on_content,
  on_logged, Step, calls_write, reads_content, writes_logged, Reach, start, next,
}

module _ {E : Type 0} (runtime : Runtime E) (level : Level) where
  -- Every message is in one place, and the lines are those of the messages behind theirs.
  pub record Inv (s : Logger E) : Type 0 where
    pub places : Perm s.calls ((s.written ++ s.logged) ++ s.logging)
    pub in_order : s.lines ≡ map (write_line runtime level) (s.written ++ s.logged)

  create-Inv : Inv create_rpc_logger
  create-Inv = record { places = Perm.refl []; in_order = refl }

  print_line-in_order :
      (m : Message) (s : Logger E)
      → s.lines ≡ map (write_line runtime level) (s.written ++ s.logged)
      → (print_line runtime level m s).lines
        ≡ map (write_line runtime level) (s.written ++ (s.logged ++ m ∷ []))
  unfolding print_line
  print_line-in_order m s e =
      ap (λ (ls : List (Line E)). ls ++ write_line runtime level m ∷ []) e
      ∙ sym (map-append (write_line runtime level) (s.written ++ s.logged) (m ∷ []))
      ∙ ap (map (write_line runtime level)) (append_assoc s.written s.logged (m ∷ []))

  write_typed :
      (m : Message) (s : Logger E)
      → has_type m ≡ true
      → write runtime level m s
        ≡ record s { calls = s.calls ++ m ∷ []; logging = s.logging ++ m ∷ [] }
  unfolding write
  write_typed m s typed = rw (typed, write) refl

  write_plain :
      (m : Message) (s : Logger E)
      → has_type m ≡ false
      → write runtime level m s
        ≡ print_line runtime level m (record s { calls = s.calls ++ m ∷ [] })
  unfolding write
  write_plain m s plain = rw (plain, write) refl

  write-Inv : (m : Message) (s : Logger E) → Inv s → Inv (write runtime level m s)
  unfolding print_line
  write-Inv m s i = elim (Bool-cases (has_type m)) [
    | inl typed ↦ rw (write_typed m s typed) (record {
      places =
          rw (← append_assoc (s.written ++ s.logged) s.logging (m ∷ []))
            (Perm.append_right (m ∷ []) i.places);
      in_order = i.in_order;
    })
    | inr plain ↦ rw (write_plain m s plain) (record {
      places =
          rw (append-shift s.written s.logged s.logging m)
            (Perm-snoc s.calls (s.written ++ s.logged) s.logging m i.places);
      in_order = print_line-in_order m s i.in_order;
    })
  ]

  on_content-Inv :
      (before : List Message) (m : Message) (after : List Message) (s : Logger E)
      → s.logging ≡ before ++ m ∷ after
      → Inv s
      → Inv (on_content runtime level before m after s)
  unfolding on_content print_line
  on_content-Inv before m after s e i = record {
    places = rw (append-shift s.written s.logged (before ++ after) m) (
        Perm.trans (subst (λ ms. Perm s.calls ((s.written ++ s.logged) ++ ms)) e i.places)
          (Perm.append_left (s.written ++ s.logged) (perm_middle before after)));
    in_order = print_line-in_order m s i.in_order;
  }

  on_logged-Inv :
      (m : Message) (rest : List Message) (s : Logger E)
      → s.logged ≡ m ∷ rest
      → Inv s
      → Inv (on_logged runtime level m rest s)
  unfolding on_logged
  on_logged-Inv m rest s e i = record {
    places = rw (append_assoc s.written (m ∷ []) rest, ← e) i.places;
    in_order = rw (append_assoc s.written (m ∷ []) rest, ← e) i.in_order;
  }

  Step-Inv : (s t : Logger E) → Step runtime level s t → Inv s → Inv t
  Step-Inv s _ (calls_write m) i = write-Inv m s i
  Step-Inv s _ (reads_content before m after e) i = on_content-Inv before m after s e i
  Step-Inv s _ (writes_logged m rest e) i = on_logged-Inv m rest s e i

  -- At all times the messages that write of the logger was called with are, up to order, those
  -- written to the connection, those whose lines are printed and those whose lines wait for their
  -- content; and the lines printed are the lines of the written messages and of those to be
  -- written next, in this order.
  pub reached-Inv : (s : Logger E) → Reach runtime level s → Inv s
  reached-Inv _ start = create-Inv
  reached-Inv t (next {s = s} r step) = Step-Inv s t step (reached-Inv s r)

  json_has_type :
      (m : Message)
      → get Header.content_type m.headers ≡ some (codes "application/json")
      → has_type m ≡ true
  unfolding has_type
  json_has_type m e = rw e refl

  -- A write whose line waits for its content.
  abbrev waiting : Message → Logger E
  waiting m = record create_rpc_logger { calls = m ∷ []; logging = m ∷ [] }

  waiting-Reach : (m : Message) → has_type m ≡ true → Reach runtime level (waiting m)
  waiting-Reach m typed =
      subst (Reach runtime level) (write_typed m create_rpc_logger typed)
        (next start (calls_write m))

  -- The line of a second write is printed first.
  abbrev second_printed : Message → Message → Logger E
  second_printed m n = print_line runtime level n (record (waiting m) { calls = m ∷ n ∷ [] })

  second_printed-Reach :
      (m n : Message) → has_type m ≡ true → Reach runtime level (second_printed m n)
  unfolding on_content
  second_printed-Reach m n typed = elim (Bool-cases (has_type n)) [
    | inl typed' ↦
        let r : Reach runtime level
            (record create_rpc_logger { calls = m ∷ n ∷ []; logging = m ∷ n ∷ [] }) =
          subst (Reach runtime level) (write_typed n (waiting m) typed')
            (next (waiting-Reach m typed) (calls_write n)) in
        next r (reads_content (m ∷ []) n [] refl)
    | inr plain ↦
        subst (Reach runtime level) (write_plain n (waiting m) plain)
          (next (waiting-Reach m typed) (calls_write n))
  ]

  -- A message with JSON content, whose decoding waits for its blob to be read, is written through
  -- the logger, and then any other message. They can be written to the connection in the opposite
  -- order.
  pub written-reordered :
      (m n : Message)
      → get Header.content_type m.headers ≡ some (codes "application/json")
      → (s : Logger E) × Reach runtime level s × (s.calls ≡ m ∷ n ∷ []) × (s.written ≡ n ∷ m ∷ [])
  unfolding on_content print_line on_logged
  written-reordered m n json =
      let second = second_printed m n in
      let sent = on_logged runtime level n [] second in
      let r =
        next {t = sent} (second_printed-Reach m n (json_has_type m json))
          (writes_logged n [] refl) in
      let both = on_content runtime level [] m [] sent in
      (
        on_logged runtime level m [] both,
        next (next {t = both} r (reads_content [] m [] refl)) (writes_logged m [] refl),
        refl,
        refl,
      )
