-- ===== src/Inotify/Setup/Restart.antt =====
-- About inotify_setup and the dump file: the rounds of the loop over its lines, and what is read of
-- a file that inotify_dump_roots has written.
use inotispy.Prelude.{
  false, ℕ, zero, suc, ◌+◌, ◌≤◌, ◌≡◌, refl, sym, true, Option-cases, inl, inr, Option, none, some,
  List, [], ◌∷◌, ◌++◌, map, length, length-append, arith, ◌>>=◌, bind_some, ap, ◌∙◌, subst,
}
use inotispy.Text.{Text, newline}
use inotispy.Inotify.{DumpLine, Sys, State}
use inotispy.Inotify.Setup.{Entry, empty_tables, rewatch_entry, rewatch_entries, setup}
use inotispy.Inotify.Setup.Stream.{Stream, opened, dump_text}
use inotispy.Inotify.Setup.Lines.{next_line_buffered, next_line_end, next_line_first}
use inotispy.Inotify.Setup.Growth.{DumpFits, Fits}
use inotispy.Inotify.Setup.Reading.{line_room, found_line, next_entry, read_entries, setup_file}
use inotispy.Inotify.Dump.{dump_lines, dump_roots}
use inotispy.Inotify.Dump.Line.{print_line, print_lines, parse_line}
use inotispy.Inotify.Dump.RoundTrip.{
  IsPlain, AllPlain, entry_of, print_line-OneLine, print_line-length-le, parse_line-print_line,
}
use inotispy.Inotify.Setup.Rewatched.{
  empty_tables-Fits, rewatch_entry-Fits, rewatch_entries_step, rewatch_none, written, bind_same,
}

-- A line with its newline is not empty.
line_found :
    (s : Text) (s' : Stream)
    → found_line (s ++ newline ∷ []) s' ≡ some (parse_line (s ++ newline ∷ []), s')
unfolding found_line
line_found [] s' = refl
line_found (c ∷ s) s' = refl

nothing_found : (line : Text) (s' : Stream) → line ≡ [] → found_line line s' ≡ none
unfolding found_line
nothing_found line s' e = rw (e, found_line) refl

text_fits :
    (file : Text) (n offset : ℕ) (dump : Option (List DumpLine))
    → DumpFits n dump
    → n ≤ offset
    → length file ≤ offset
    → length (elim dump [ none ↦ file | some lines ↦ print_lines lines ]) ≤ offset
text_fits file n offset none h le le' = le'
text_fits file n offset (some lines) h le le' = omega arith

module _ {S : Sys} (size : ℕ) (file : Text) where
  -- What a round does with what it has found.
  abbrev go_on : ℕ → State S → Option (Option Entry × Stream) → Option (State S)
  go_on rounds st found = elim found [
    | none ↦ some st
    | some (parsed, s') ↦
        parsed >>= λ entry. rewatch_entry st entry >>= λ st'. read_entries size file rounds st' s'
  ]

  read_entries_round :
      (rounds : ℕ) (st : State S) (s : Stream)
      → read_entries size file (suc rounds) st s ≡ go_on rounds st (next_entry size file st s)
  unfolding read_entries
  read_entries_round rounds st s = refl

  -- A loop that has ended ends in the same way if more rounds are looked at.
  pub read_entries_more :
      (rounds : ℕ) (st t : State S) (s : Stream)
      → read_entries size file rounds st s ≡ some t
      → read_entries size file (suc rounds) st s ≡ some t
  unfolding read_entries
  read_entries_more zero st t s e = absurd (cc)
  read_entries_more (suc rounds) st t s e = elim (Option-cases (next_entry size file st s)) [
    | inl at_end ↦ rw (at_end, read_entries) (rw (at_end, read_entries) at e)
    | inr ((parsed, s'), found) ↦
        let (entry, line, e₁) = bind_some parsed _ t (rw (found, read_entries) at e) in
        let (st', watched, e₂) = bind_some (rewatch_entry st entry) _ t e₁ in
        read_entries_round (suc rounds) st s
        ∙ (ap (go_on (suc rounds) st) found
            ∙ rw (line, watched) (read_entries_more rounds st' t s' e₂))
  ]

  next_entry_printed :
      (st : State S) (line : DumpLine) (rest : Text) (offset : ℕ)
      → IsPlain line
      → next_entry size file st
          (record { buffered = print_line line ++ newline ∷ rest; offset = offset; ended = false })
        ≡ some (some (entry_of line), record { buffered = rest; offset = offset; ended = false })
  unfolding next_entry
  next_entry_printed st line rest offset h =
      ap (λ (p : Text × Stream). found_line p.0 p.1)
        (next_line_buffered size (dump_text file st) line_room (print_line line) rest offset
          (print_line-OneLine line h) (print_line-length-le line h))
      ∙ (line_found (print_line line) (record { buffered = rest; offset = offset; ended = false })
          ∙ ap (λ o. some (o, record { buffered = rest; offset = offset; ended = false }))
              (parse_line-print_line line h))

  next_entry_end :
      (n offset : ℕ) (st : State S)
      → Fits n st
      → n ≤ offset
      → length file ≤ offset
      → next_entry size file st (record { buffered = []; offset = offset; ended = false }) ≡ none
  unfolding next_entry
  next_entry_end n offset st (_, h) le le' = nothing_found _ _ (
      next_line_end size (dump_text file st) line_room offset (omega arith)
        (text_fits file n offset st.dump h le le'))

  read_printed :
      (rounds n offset : ℕ) (st : State S) (lines : List DumpLine)
      → AllPlain lines
      → suc (length lines) ≤ rounds
      → Fits n st
      → length (print_lines lines) + n ≤ offset
      → length file ≤ offset
      → read_entries size file rounds st
          (record { buffered = print_lines lines; offset = offset; ended = false })
        ≡ rewatch_entries st (map entry_of lines)
  unfolding print_lines
  read_printed zero n offset st lines plain enough h le le' = absurd (omega arith)
  read_printed (suc rounds) n offset st [] plain enough h le le' =
      read_entries_round rounds st (record { buffered = []; offset = offset; ended = false })
      ∙ ap (go_on rounds st) (next_entry_end n offset st h (omega arith) le')
      ∙ rewatch_none st
  read_printed (suc rounds) n offset st (line ∷ lines) (h, plain) enough fits le le' =
      read_entries_round rounds st (record {
        buffered = print_line line ++ newline ∷ print_lines lines;
        offset = offset;
        ended = false;
      })
      ∙ (ap (go_on rounds st) (next_entry_printed st line (print_lines lines) offset h)
          ∙ (bind_same (rewatch_entry st (entry_of line)) _
                (λ t. rewatch_entries t (map entry_of lines))
                (λ t watched.
                  read_printed rounds (suc (length (print_line line)) + n) offset t lines plain
                    (omega arith) (rewatch_entry-Fits n st t line h fits watched)
                    (omega (arith, length-append (print_line line) (newline ∷ print_lines lines)))
                    le')
              ∙ sym (rewatch_entries_step st (entry_of line) (map entry_of lines))))

module _ (S : Sys) where
  next_entry_first :
      (size : ℕ) (world : S.World) (c : ℕ) (s : Text)
      → length (c ∷ s) ≤ size
      → next_entry {S = S} size (c ∷ s) (empty_tables {S = S} world) opened
        ≡ next_entry size
            (c ∷ s)
            (empty_tables {S = S} world)
            (record { buffered = c ∷ s; offset = 0 + length (c ∷ s); ended = false })
  unfolding empty_tables next_entry
  next_entry_first size world c s fits =
      ap (λ (p : Text × Stream). found_line p.0 p.1)
        (next_line_first size c s line_room (omega arith) fits)

module _ {S : Sys} where
  -- The first read of a file that fits in the buffer takes all of it.
  read_first :
      (size rounds : ℕ) (world : S.World) (file : Text)
      → length file ≤ size
      → read_entries {S = S} size file (suc rounds) (empty_tables {S = S} world) opened
        ≡ read_entries size file
            (suc rounds)
            (empty_tables {S = S} world)
            (record { buffered = file; offset = 0 + length file; ended = false })
  read_first size rounds world [] fits = refl
  read_first size rounds world (c ∷ s) fits =
      let full : Stream = record { buffered = c ∷ s; offset = 0 + length (c ∷ s); ended = false } in
      read_entries_round size (c ∷ s) rounds (empty_tables {S = S} world) opened
      ∙ (ap (go_on size (c ∷ s) rounds (empty_tables {S = S} world))
            (next_entry_first S size world c s fits)
          ∙ sym (read_entries_round size (c ∷ s) rounds (empty_tables {S = S} world) full))

  setup_file-print_lines :
      (size rounds : ℕ) (world : S.World) (lines : List DumpLine)
      → AllPlain lines
      → length (print_lines lines) ≤ size
      → suc (length lines) ≤ rounds
      → setup_file {S = S} size rounds world (some (print_lines lines))
        ≡ setup world (map entry_of lines)
  unfolding setup_file setup
  setup_file-print_lines size zero world lines plain fits enough = absurd (omega arith)
  setup_file-print_lines size (suc rounds) world lines plain fits enough =
      let file = print_lines lines in
      read_first size rounds world file fits
      ∙ read_printed size file (suc rounds) 0 (0 + length file) (empty_tables {S = S} world) lines
          plain enough (empty_tables-Fits S world) (omega arith) (omega arith)

  -- If the dump file can be opened and the dump fits in one buffer of the stream that reads it,
  -- and every root that is to be watched again has a path that is not empty, is at most 998
  -- characters long and holds no comma, newline or zero, a mask of 32 bits and a limit in the
  -- range of an int: a start of the daemon from the file that the dump has left, though it writes
  -- that file again at each root, is a start from the entries of the dumped roots, with each path
  -- and limit as it was and the mask as an int, in the same order; a round for each root and one
  -- more are enough.
  pub setup_file-dump_roots :
      (size rounds : ℕ) (file : Text) (st : State S) (world : S.World)
      → S.fopen_dump st.world ≡ true
      → AllPlain (dump_lines (S.roots_hash.values st.roots))
      → length (dump_text file (dump_roots st)) ≤ size
      → suc (length (dump_lines (S.roots_hash.values st.roots))) ≤ rounds
      → setup_file {S = S} size rounds world (some (dump_text file (dump_roots st)))
        ≡ setup world (map entry_of (dump_lines (S.roots_hash.values st.roots)))
  setup_file-dump_roots size rounds file st world opens plain fits enough =
      let same = written file st opens in
      ap (λ text. setup_file size rounds world (some text)) same
      ∙ setup_file-print_lines size rounds world (dump_lines (S.roots_hash.values st.roots)) plain
          (subst (λ text. length text ≤ size) same fits) enough
