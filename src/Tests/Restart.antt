-- ===== src/Tests/Restart.antt =====
-- Runs over the text of the dump file.
use inotispy.Prelude.{◌≤◌, length, ◌≡◌, refl, none, some, [], ◌∷◌, ◌++◌, map, ℤ, arith}
use inotispy.Text.{Text, up_to_zero, newline, strip_newline, codes, text_eq}
use inotispy.Text.Decimal.{
  digits, print_nat, print_int, skip_space, scan, of_negative, signed, atoi,
}
use inotispy.Inotify.Paths.{find_root_key, find_key_under, belongs_to}
use inotispy.Inotify.Setup.{empty_tables, rewatch_entry, setup}
use inotispy.Inotify.Setup.Stream.{dump_text, next_line}
use inotispy.Inotify.Setup.Reading.{next_entry, found_line, read_entries, setup_file}
use inotispy.Inotify.Setup.Restart.{setup_file-dump_roots}
use inotispy.Inotify.Dump.{dump_lines, dump_roots}
use inotispy.Inotify.Dump.Line.{
  print_line, print_lines, before_comma, behind_comma, strtok, parse_fields, parse_line,
}
use inotispy.Inotify.Dump.RoundTrip.{entry_of, parse_line_of_one_field}
use inotispy.Tests.World.{srv, sys, entry}
use inotispy.Tests.States.{st}

atoi_of_text : atoi (codes "  -42x") ≡ ℤ.negsuc 41
unfolding atoi skip_space signed scan of_negative
atoi_of_text = refl

print_of_int : print_int (ℤ.negsuc 2147483647) ≡ codes "-2147483648"
unfolding print_int print_nat digits
print_of_int = refl

-- strtok skips an empty field, so the limit is missing.
empty_field : parse_line (codes "/srv,,8") ≡ none
unfolding parse_line up_to_zero strip_newline parse_fields strtok before_comma behind_comma
empty_field = refl

blank_line : parse_line (newline ∷ []) ≡ none
blank_line = parse_line_of_one_field [] tt tt

path_only : parse_line (srv ++ newline ∷ []) ≡ none
path_only =
    parse_line_of_one_field srv (refl, refl, (refl, refl, (refl, refl, (refl, refl, tt))))
      (refl, (refl, (refl, (refl, tt))))

-- Two lines, in a buffer of nine characters: the watch of the first truncates the file, and the
-- second line is lost.
abbrev two_lines : Text
two_lines = codes "/srv,8,2\n/files,8,9\n"

second_line_lost : setup_file {S = sys} 9 3 1 (some two_lines) ≡ setup 1 (entry ∷ [])
unfolding setup_file setup read_entries next_entry next_line found_line parse_line strtok
    before_comma behind_comma skip_space scan empty_tables text_eq find_root_key find_key_under
    belongs_to up_to_zero strip_newline print_lines print_line print_int print_nat digits dump_lines
    parse_fields atoi signed rewatch_entry
second_line_lost = refl

printed_fits : length (dump_text [] (dump_roots st)) ≤ 4096
unfolding dump_roots dump_lines print_lines print_line print_int print_nat digits text_eq
printed_fits = omega arith

setup_file-dump_roots_example :
    setup_file {S = sys} 4096 2 1 (some (dump_text [] (dump_roots st)))
    ≡ setup 1 (map entry_of (dump_lines (sys.roots_hash.values st.roots)))
unfolding dump_lines text_eq
setup_file-dump_roots_example =
    setup_file-dump_roots 4096 2 [] st 1 refl
      (
        (
          omega arith,
          (refl, refl, (refl, refl, (refl, refl, (refl, refl, tt)))),
          (refl, (refl, (refl, (refl, tt)))),
          omega arith,
          omega arith,
          omega arith,
        ),
        tt,
      )
      printed_fits (omega arith)
