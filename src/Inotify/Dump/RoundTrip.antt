-- ===== src/Inotify/Dump/RoundTrip.antt =====
-- About the text of the dump file: what is read of the lines that are printed.
use inotispy.Prelude.{
  ℕ, suc, ◌≤◌, ◌<◌, ◌^◌, ◌≡◌, refl, false, none, some, List, [], ◌∷◌, ◌++◌, ◌==◌, length,
  length-append, to_int, arith, ◌∙◌,
}
use inotispy.Text.{Text, newline}
use inotispy.Text.Decimal.{print_int, atoi}
use inotispy.Text.Decimal.RoundTrip.{IsInt, NonEmpty, atoi-print_int}
use inotispy.Inotify.{DumpLine}
use inotispy.Inotify.Setup.{Entry}
use inotispy.Inotify.Dump.Line.{comma, print_line, strtok, parse_fields, parse_line}
use inotispy.Text.Lines.{
  OneLine, OneLine-append, print_int-OneLine, up_to_zero_line, strip_newline_line,
}
use inotispy.Inotify.Dump.Fields.{
  CommaFree, print_int-CommaFree, print_int-NonEmpty, print_int-length-le, strtok_field,
  strtok_last,
}

-- The entry that inotify_setup is to find in a line.
abbrev pub entry_of : DumpLine → Entry
entry_of line = record { path = line.path; mask = to_int line.mask; max_events = line.max_events }

-- A line that is read back: a path that is not empty, of one line and without a comma, whose line
-- fits in the buffer, and numbers of 32 bits.
abbrev pub IsPlain : DumpLine → Type 0
IsPlain line =
    NonEmpty line.path
    × OneLine line.path
    × CommaFree line.path
    × (length line.path ≤ 998)
    × (line.mask < 2 ^ 32)
    × IsInt line.max_events

abbrev pub AllPlain : List DumpLine → Type 0
AllPlain [] = Unit {0}
AllPlain (line ∷ lines) = IsPlain line × AllPlain lines

to_int-IsInt : (n : ℕ) → n < 2 ^ 32 → IsInt (to_int n)
to_int-IsInt n h = ground arith

pub print_line-OneLine : (line : DumpLine) → IsPlain line → OneLine (print_line line)
unfolding print_line
print_line-OneLine line (_, one_line, _, _, _, _) = OneLine-append line.path _ one_line (
  refl,
  refl,
  OneLine-append (print_int (to_int line.mask)) _ (print_int-OneLine _)
      (refl, refl, print_int-OneLine line.max_events),
)

parse_fields_of :
    (line path rest mask rest' max_events rest'' : Text)
    → strtok line ≡ some (path, rest)
    → strtok rest ≡ some (mask, rest')
    → strtok rest' ≡ some (max_events, rest'')
    → parse_fields line
      ≡ some (record { path = path; mask = atoi mask; max_events = atoi max_events })
unfolding parse_fields
parse_fields_of line path rest mask rest' max_events rest'' h h' h'' = rw (h, h', h'') refl

parse_fields-print_line :
    (line : DumpLine) → IsPlain line → parse_fields (print_line line) ≡ some (entry_of line)
unfolding print_line
parse_fields-print_line line (some_path, _, free, _, small, int) =
    let mask = print_int (to_int line.mask) in
    let limit = print_int line.max_events in
    parse_fields_of (print_line line) line.path (mask ++ comma ∷ limit) mask limit limit []
      (strtok_field line.path (mask ++ comma ∷ limit) some_path free)
      (strtok_field mask limit (print_int-NonEmpty _) (print_int-CommaFree _))
      (strtok_last limit (print_int-NonEmpty _) (print_int-CommaFree _))
    ∙ λ i. some (record {
      path = line.path;
      mask = atoi-print_int (to_int line.mask) (to_int-IsInt line.mask small) i;
      max_events = atoi-print_int line.max_events int i;
    })

pub print_line-length-le : (line : DumpLine) → IsPlain line → suc (length (print_line line)) ≤ 1023
unfolding print_line
print_line-length-le line (_, _, _, short, _, _) =
    let mask = print_int (to_int line.mask) in
    let limit = print_int line.max_events in
    omega (
      arith,
      length-append line.path (comma ∷ (mask ++ comma ∷ limit)),
      length-append mask (comma ∷ limit),
      print_int-length-le (to_int line.mask),
      print_int-length-le line.max_events,
    )

not_empty : (s : Text) → (length (s ++ newline ∷ []) == 0) ≡ false
not_empty s = ground (arith, length-append s (newline ∷ []))

parse_line_of : (s : Text) → OneLine s → parse_line (s ++ newline ∷ []) ≡ parse_fields s
unfolding parse_line
parse_line_of s h = rw (up_to_zero_line s h, strip_newline_line s, not_empty s) refl

-- The printed line is read back.
pub parse_line-print_line :
    (line : DumpLine)
    → IsPlain line
    → parse_line (print_line line ++ newline ∷ []) ≡ some (entry_of line)
parse_line-print_line line h =
    parse_line_of (print_line line) (print_line-OneLine line h) ∙ parse_fields-print_line line h

parse_fields_of_one : (s : Text) → CommaFree s → parse_fields s ≡ none
unfolding parse_fields strtok
parse_fields_of_one [] free = refl
parse_fields_of_one (c ∷ s) free = rw (strtok_last (c ∷ s) (omega arith) free) refl

-- A line that holds no comma: the second strtok is NULL, and atoi reads it.
pub parse_line_of_one_field :
    (s : Text) → OneLine s → CommaFree s → parse_line (s ++ newline ∷ []) ≡ none
parse_line_of_one_field s one_line free = parse_line_of s one_line ∙ parse_fields_of_one s free
