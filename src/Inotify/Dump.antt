-- ===== src/Inotify/Dump.antt =====
-- inotify_dump_roots of src/inotify.c: the roots that are watched again at the next start.
pub mod Line
pub mod Fields
pub mod RoundTrip
use inotispy.Prelude.{Option, some, List, [], ◌∷◌, if◌then◌else◌}
use inotispy.Inotify.{Root, DumpLine, Sys, State}

unfoldable pub dump_line : Root → DumpLine
dump_line root = record { path = root.path; mask = root.mask; max_events = root.max_events }

unfoldable pub dump_lines : List Root → List DumpLine
unfolding dump_line
dump_lines [] = []
dump_lines (root ∷ roots) =
    let rest = dump_lines roots in if root.rewatch then dump_line root ∷ rest else rest

module _ {S : Sys} where
  unfoldable pub dump_roots : State S → State S
  unfolding dump_lines
  dump_roots st =
      if S.fopen_dump st.world
      then record st { dump = some (dump_lines (S.roots_hash.values st.roots)) }
      else st
