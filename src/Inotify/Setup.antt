-- ===== src/Inotify/Setup.antt =====
-- inotify_setup of src/inotify.c: the empty tables, and the roots of the dump file. How strtok and
-- atoi split a line of that file is left to the argument.
pub mod Stream
pub mod Lines
pub mod Growth
pub mod Rewatched
pub mod Reading
pub mod Restart
use inotispy.Prelude.{
  ◌≡◌, true, false, ◌||◌, Option, none, some, List, [], ◌∷◌, ℤ, int_eq, if◌then◌else◌,
}
use inotispy.Text.{Text, slash, first_is}
use inotispy.Inotify.{Sys, State}
use inotispy.Inotify.Roots.{watch_tree}

-- The fields of a line: path, mask and max_events.
pub record Entry : Type 0 where
  pub path : Text
  pub mask : ℤ
  pub max_events : ℤ

-- The paths of the entries are absolute, as those are that inotify_dump_roots writes.
abbrev pub AllSlashed : List Entry → Type 0
AllSlashed [] = Unit {0}
AllSlashed (entry ∷ entries) = (first_is slash entry.path ≡ true) × AllSlashed entries

module _ {S : Sys} where
  unfoldable pub empty_tables : S.World → State S
  empty_tables world = record {
    roots = S.roots_hash.new;
    wd_to_watch = S.wd_hash.new;
    path_to_watch = S.path_hash.new;
    num_watched_roots = ℤ.pos 0;
    in_memclean = false;
    in_root_rewatch = false;
    num_root_rewatch = 0;
    tasks = [];
    dump = none;
    world = world;
  }

  -- One line of the dump file: without a mask or a limit it is no entry. The result of the watch is
  -- not looked at; `none` is a read outside the buffer.
  unfoldable pub rewatch_entry : State S → Entry → Option (State S)
  unfolding watch_tree
  rewatch_entry st entry =
      if int_eq entry.mask (ℤ.pos 0) || int_eq entry.max_events (ℤ.pos 0)
      then some st
      else (elim (watch_tree st entry.path entry.mask entry.max_events true) [
        | none ↦ none
        | some (rv, st') ↦ some st'
      ])

  unfoldable pub rewatch_entries : State S → List Entry → Option (State S)
  unfolding rewatch_entry
  rewatch_entries st [] = some st
  rewatch_entries st (entry ∷ entries) = elim (rewatch_entry st entry) [
    | none ↦ none
    | some st' ↦ rewatch_entries st' entries
  ]

  -- inotify_setup, of the entries in the dump file.
  unfoldable pub setup : S.World → List Entry → Option (State S)
  unfolding empty_tables rewatch_entries
  setup world entries = rewatch_entries (empty_tables world) entries
