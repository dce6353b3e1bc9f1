-- ===== src/Inotify/Dump/Line.antt =====
-- The text of the dump file: what inotify_dump_roots of src/inotify.c prints for a root, and how
-- inotify_setup reads the file, by lines with fgets and by fields with strtok and atoi.
use inotispy.Prelude.{
  ℕ, Option, none, some, List, [], ◌∷◌, ◌++◌, ◌==◌, if◌then◌else◌, length, to_int, ◌>>=◌,
}
use inotispy.Text.{Text, newline, strip_newline, up_to_zero}
use inotispy.Text.Decimal.{print_int, atoi}
use inotispy.Inotify.{DumpLine}
use inotispy.Inotify.Setup.{Entry}

abbrev pub comma : ℕ
comma = b','

-- fprintf(fp, "%s,%d,%d\n", root->path, root->mask, root->max_events), without the newline
unfoldable pub print_line : DumpLine → Text
print_line line =
    line.path ++ comma ∷ (print_int (to_int line.mask) ++ comma ∷ print_int line.max_events)

unfoldable pub print_lines : List DumpLine → Text
print_lines [] = []
print_lines (line ∷ lines) = print_line line ++ newline ∷ print_lines lines

-- The characters up to a comma, and those behind it.
unfoldable pub before_comma : Text → Text
before_comma [] = []
before_comma (c ∷ s) = let rest = before_comma s in if c == comma then [] else c ∷ rest

unfoldable pub behind_comma : Text → Text
behind_comma [] = []
behind_comma (c ∷ s) = let rest = behind_comma s in if c == comma then s else rest

-- strtok with the delimiter ",": commas in front are skipped, and `none` is NULL.
unfoldable pub strtok : Text → Option (Text × Text)
unfolding before_comma behind_comma
strtok [] = none
strtok (c ∷ s) =
    let rest = strtok s in
    if c == comma then rest else some (before_comma (c ∷ s), behind_comma (c ∷ s))

-- The three fields of a line. `none` is atoi of NULL, which reads no memory: strtok stays at NULL.
unfoldable pub parse_fields : Text → Option Entry
unfolding strtok atoi
parse_fields line = do
  (path, rest) ← strtok line
  (mask, rest) ← strtok rest
  (max_events, rest) ← strtok rest
  some (record { path = path; mask = atoi mask; max_events = atoi max_events })

-- A line that starts with a zero has no last character: line[strlen(line) - 1] is outside.
unfoldable pub parse_line : Text → Option Entry
unfolding up_to_zero strip_newline parse_fields
parse_line buffer =
    let line = up_to_zero buffer in
    if length line == 0 then none else parse_fields (strip_newline line)
