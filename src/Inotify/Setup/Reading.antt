-- ===== src/Inotify/Setup/Reading.antt =====
-- The loop of inotify_setup of src/inotify.c over the text of the dump file.
use inotispy.Prelude.{ℕ, zero, suc, Option, none, some, List, ◌≡◌, [], ◌∷◌, ◌>>=◌}
use inotispy.Text.{Text}
use inotispy.Inotify.Setup.Stream.{Stream, opened, dump_text, next_line}
use inotispy.Inotify.{Sys, State}
use inotispy.Inotify.Setup.{Entry, AllSlashed, empty_tables, rewatch_entry}
use inotispy.Inotify.Dump.Line.{parse_line}

-- The characters that fgets puts into `char line[1024]`.
abbrev pub line_room : ℕ
line_room = 1023

-- `none` at the end of the file, and else the fields, or a null pointer that atoi reads, and the
-- stream behind the line.
unfoldable pub found_line : Text → Stream → Option (Option Entry × Stream)
unfolding parse_line
found_line [] s = none
found_line (c ∷ line) s = some (parse_line (c ∷ line), s)

module _ {S : Sys} (size : ℕ) (file : Text) where
  -- The condition of `while (fgets (line, sizeof line, dump) != NULL)`, and the fields of the line.
  unfoldable pub next_entry : State S → Stream → Option (Option Entry × Stream)
  unfolding next_line found_line
  next_entry st s =
      let (line, s') = next_line size (dump_text file st) line_room s in found_line line s'

  -- The rounds of the loop, from a file with that text. `none` is a read through a null pointer or
  -- outside a buffer, or a loop that has not ended after these rounds.
  unfoldable pub read_entries : ℕ → State S → Stream → Option (State S)
  unfolding rewatch_entry
  read_entries zero st s = none
  read_entries (suc rounds) st s = elim (next_entry st s) [
    | none ↦ some st
    | some (parsed, s') ↦
        parsed >>= λ entry. rewatch_entry st entry >>= λ st'. read_entries rounds st' s'
  ]

  -- The entries that the rounds find.
  unfoldable pub entries_read : ℕ → State S → Stream → Option (List Entry)
  unfolding rewatch_entry
  entries_read zero st s = none
  entries_read (suc rounds) st s = elim (next_entry st s) [
    | none ↦ some []
    | some (parsed, s') ↦ parsed >>= λ entry. rewatch_entry st entry >>= λ st'.
        entries_read rounds st' s' >>= λ entries. some (entry ∷ entries)
  ]

module _ {S : Sys} where
  -- inotify_setup, with a stream whose buffer has that size, of the text in the dump file, and as
  -- many rounds of its loop as are looked at; without a text the file or its directory cannot be
  -- opened.
  unfoldable pub setup_file : ℕ → ℕ → S.World → Option Text → Option (State S)
  unfolding empty_tables read_entries
  setup_file size rounds world none = some (empty_tables world)
  setup_file size rounds world (some text) =
      read_entries size text rounds (empty_tables world) opened

module _ (S : Sys) where
  -- A dump file of which the lines that are found can be read and have absolute paths.
  abbrev pub IsAbsoluteDump : ℕ → ℕ → S.World → Option Text → Type 0
  IsAbsoluteDump size rounds world none = Unit {0}
  IsAbsoluteDump size rounds world (some text) =
      (entries : List Entry) × (entries_read {S = S} size text rounds (empty_tables world) opened
        ≡ some entries)
      × AllSlashed entries
