-- ===== src/Inotify/Setup/Stream.antt =====
-- The stream of stdio that inotify_setup of src/inotify.c reads the dump file by. It has a buffer of
-- a fixed size, which is filled from what the file holds when the buffer is empty: each watch of a
-- root truncates the file and writes it again.
use inotispy.Prelude.{
  Bool, true, false, ℕ, zero, suc, ◌+◌, Option, none, some, [], ◌∷◌, ◌==◌, length, take, drop,
  if◌then◌else◌,
}
use inotispy.Text.{Text, newline}
use inotispy.Inotify.{Sys, State}
use inotispy.Inotify.Dump.Line.{print_lines}

-- What is in the buffer, where read(2) goes on in the file, and the indicator of the end of the file,
-- which stays set.
pub record Stream : Type 0 where
  pub buffered : Text
  pub offset : ℕ
  pub ended : Bool

abbrev pub opened : Stream
opened = record { buffered = []; offset = 0; ended = false }

-- What the dump file holds: the text that was there at the start, until it is written.
abbrev pub dump_text : {S : Sys} → Text → State S → Text
dump_text file st = elim st.dump [ none ↦ file | some lines ↦ print_lines lines ]

abbrev pub first : Text → ℕ → Option (ℕ × Stream)
first [] offset = none
first (c ∷ rest) offset = some (c, record { buffered = rest; offset = offset; ended = false })

-- The next character; `none` is the end of the file.
abbrev pub next_char : ℕ → Text → Text → ℕ → Option (ℕ × Stream)
next_char size file [] offset =
    let chunk = take size (drop offset file) in first chunk (offset + length chunk)
next_char size file (c ∷ rest) offset =
    some (c, record { buffered = rest; offset = offset; ended = false })

-- fgets, of a buffer for `room` characters. At the end of the file there is no line.
unfoldable pub next_line : ℕ → Text → ℕ → Stream → Text × Stream
next_line size file zero s = ([], s)
next_line size file (suc room) s =
    let found = (if s.ended then none else next_char size file s.buffered s.offset) in
    elim found [
      | none ↦ ([], record s { ended = true })
      | some (c, s') ↦
          let (line, s'') = next_line size file room s' in
          if c == newline then (c ∷ [], s') else (c ∷ line, s'')
    ]
