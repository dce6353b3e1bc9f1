-- ===== src/Tests/Reached.antt =====
-- The daemon is started with one root, watches its tree, and is asked to unwatch it.
use inotispy.Prelude.{
  ◌≢◌, ◌⊎◌, arith, inr, ℕ, ◌≤◌, ◌≡◌, refl, true, false, some, List, [], ◌∷◌, ◌++◌, ℤ, pos_part,
  length,
}
use inotispy.Text.{
  fgets, up_to_zero, strip_newline, codes, slash, first_is, text_eq, starts_with, strstr, contains,
  strstr_at_end, with_slash,
}
use inotispy.Inotify.Paths.{find_root_key, find_key_under, belongs_to}
use inotispy.Inotify.Events.{handle_in_events}
use inotispy.Zeromq.Dispatch.{c_string, cut_junk}
use inotispy.Inotify.{Root, Watch, Task, watch_tree_task, destroy_root_task, is_root, has}
use inotispy.Inotify.Watching.{watch_tree_thread}
use inotispy.Inotify.Setup.{empty_tables}
use inotispy.Reply.{InotispyError}
use inotispy.Inotify.Roots.{watch_root}
use inotispy.Text.Decimal.{print_int, print_nat, digits}
use inotispy.Inotify.Dump.{dump_lines}
use inotispy.Inotify.Dump.Line.{print_line, print_lines}
use inotispy.Inotify.Setup.Stream.{next_line}
use inotispy.Inotify.Setup.Reading.{
  IsAbsoluteDump, found_line, next_entry, entries_read, read_entries,
}
use inotispy.Inotify.Dump.Line.{strtok, before_comma, behind_comma}
use inotispy.Text.Decimal.{skip_space, scan}
use inotispy.Config.Load.{named_level}
use inotispy.Inotify.{InEvent}
use inotispy.Inotify.Events.Buffer.{
  buffer_bytes, word_bytes, zeros, take_word, take_bytes, terminated, name_of, handle_bytes,
  handle_buffer,
}
use inotispy.Inotify.Events.{handle_event}
use inotispy.Inotify.Events.Whole.{handle_buffer_lem}
use inotispy.Main.{Process}
use inotispy.Main.Outcome.{Outcome, goes_on}
use inotispy.Main.Options.{parse_options}
use inotispy.Main.Start.{Machine, start, prepare, start_log}
use inotispy.Tests.Settings.{machine, fresh, closed_log}
use inotispy.Inotify.Pending.{destroyers}
use inotispy.Inotify.Sound.Threads.{watches, with_tasks}
use inotispy.Zeromq.{roots, send}
use inotispy.Zeromq.Actions.{event_get_roots}
use inotispy.Zeromq.Answers.{event_get_roots_lem}
use inotispy.Daemon.Invariant.{Reach-Sound}
use inotispy.Daemon.{
  Poll, Daemon, process_of, with_inotify, round, loop, runs, Reach, starts, steps,
}
use inotispy.Daemon.Safety.{
  reach_queue_bounded, reach_roots_apart, reach_watch_known, reach_destroyer_alone,
  reach_roots_counted,
}
use inotispy.Tests.World.{
  srv, sub, files, sys, json, host, sub, files, entry, entry_of_files, value, value_there,
}

abbrev world : ℕ
world = 1

-- Two roots in the dump file.
abbrev boot : Machine
boot = record machine { opts = []; root_dump = some (codes "/srv,8,2\n/files,8,9\n") }

abbrev nothing_started : Process sys
unfolding start next_line found_line next_entry entries_read print_lines print_line print_int
    print_nat digits dump_lines strtok before_comma behind_comma skip_space scan empty_tables
    text_eq find_root_key find_key_under belongs_to watch_tree_thread round starts_with strstr
    contains strstr_at_end has handle_in_events c_string cut_junk is_root fgets up_to_zero
    strip_newline read_entries parse_options prepare start_log named_level buffer_bytes word_bytes
    zeros take_word take_bytes terminated name_of handle_bytes
nothing_started = record {
  inotify = empty_tables world;
  config = fresh;
  log = closed_log;
  config_dump = [];
}

abbrev started : Outcome (Process sys) → Process sys
started (goes_on process) = process
started _ = nothing_started

abbrev process : Process sys
unfolding start next_line found_line next_entry entries_read print_lines print_line print_int
    print_nat digits dump_lines strtok before_comma behind_comma skip_space scan empty_tables
    text_eq find_root_key find_key_under belongs_to watch_tree_thread round starts_with strstr
    contains strstr_at_end has handle_in_events c_string cut_junk is_root fgets up_to_zero
    strip_newline read_entries parse_options prepare start_log named_level buffer_bytes word_bytes
    zeros take_word take_bytes terminated name_of handle_bytes
process = started (start boot world)

abbrev booted : Daemon sys
unfolding start next_line found_line next_entry entries_read print_lines print_line print_int
    print_nat digits dump_lines strtok before_comma behind_comma skip_space scan empty_tables
    text_eq find_root_key find_key_under belongs_to watch_tree_thread round starts_with strstr
    contains strstr_at_end has handle_in_events c_string cut_junk is_root fgets up_to_zero
    strip_newline read_entries parse_options prepare start_log named_level buffer_bytes word_bytes
    zeros take_word take_bytes terminated name_of handle_bytes
booted = record {
  server = record { inotify = process.inotify; sent = [] };
  alarm_timer = 0;
  memclean_timer = 0;
  config = process.config;
  log = process.log;
  config_dump = process.config_dump;
}

boot_dump : IsAbsoluteDump sys boot.stdio_size boot.rounds world boot.root_dump
unfolding start next_line found_line next_entry entries_read print_lines print_line print_int
    print_nat digits dump_lines strtok before_comma behind_comma skip_space scan empty_tables
    text_eq find_root_key find_key_under belongs_to watch_tree_thread round starts_with strstr
    contains strstr_at_end has handle_in_events c_string cut_junk is_root fgets up_to_zero
    strip_newline read_entries parse_options prepare start_log named_level buffer_bytes word_bytes
    zeros take_word take_bytes terminated name_of handle_bytes
boot_dump = (entry ∷ entry_of_files ∷ [], refl, (refl, (refl, tt)))

booted-Reach : Reach json host booted
unfolding start next_line found_line next_entry entries_read print_lines print_line print_int
    print_nat digits dump_lines strtok before_comma behind_comma skip_space scan empty_tables
    text_eq find_root_key find_key_under belongs_to watch_tree_thread round starts_with strstr
    contains strstr_at_end has handle_in_events c_string cut_junk is_root fgets up_to_zero
    strip_newline read_entries parse_options prepare start_log named_level buffer_bytes word_bytes
    zeros take_word take_bytes terminated name_of handle_bytes process_of
booted-Reach = starts booted boot world process boot_dump refl refl

-- The thread of the second root waits, the one of the first has run.
abbrev waiting : List Task
waiting = watch_tree_task files files false ∷ []

abbrev watched : Daemon sys
unfolding start next_line found_line next_entry entries_read print_lines print_line print_int
    print_nat digits dump_lines strtok before_comma behind_comma skip_space scan empty_tables
    text_eq find_root_key find_key_under belongs_to watch_tree_thread round starts_with strstr
    contains strstr_at_end has handle_in_events c_string cut_junk is_root fgets up_to_zero
    strip_newline read_entries parse_options prepare start_log named_level buffer_bytes word_bytes
    zeros take_word take_bytes terminated name_of handle_bytes
watched =
    let st = with_tasks booted.server.inotify waiting in
    with_inotify booted (value st (watch_tree_thread 5 st srv srv false))

watched-Reach : Reach json host watched
unfolding start next_line found_line next_entry entries_read print_lines print_line print_int
    print_nat digits dump_lines strtok before_comma behind_comma skip_space scan empty_tables
    text_eq find_root_key find_key_under belongs_to watch_tree_thread round starts_with strstr
    contains strstr_at_end has handle_in_events c_string cut_junk is_root fgets up_to_zero
    strip_newline read_entries parse_options prepare start_log named_level buffer_bytes word_bytes
    zeros take_word take_bytes terminated name_of handle_bytes
watched-Reach = steps {d = booted} {d' = watched} booted-Reach (
    runs {d = booted} waiting [] (watch_tree_task srv srv false) watched.server.inotify refl
      (watches 5 srv srv false refl))

-- A file is written, and the root is to be unwatched.
abbrev written : InEvent
written = record { wd = ℤ.pos 1; mask = 0x8; cookie = 0; len = 16; name = codes "file" }

abbrev poll : Poll
unfolding buffer_bytes word_bytes zeros
poll = record {
  failed = false;
  now = 20;
  clock = machine.now;
  files = machine.files;
  inotify_in = some (some (buffer_bytes (written ∷ [])));
  zmq_in = some (some (codes "{unwatch}"));
}

abbrev asked : Daemon sys
unfolding start next_line found_line next_entry entries_read print_lines print_line print_int
    print_nat digits dump_lines strtok before_comma behind_comma skip_space scan empty_tables
    text_eq find_root_key find_key_under belongs_to watch_tree_thread round starts_with strstr
    contains strstr_at_end has handle_in_events c_string cut_junk is_root fgets up_to_zero
    strip_newline read_entries parse_options prepare start_log named_level buffer_bytes word_bytes
    zeros take_word take_bytes terminated name_of handle_bytes
asked = value watched (round json host watched poll)

asked-Reach : Reach json host asked
unfolding start next_line found_line next_entry entries_read print_lines print_line print_int
    print_nat digits dump_lines strtok before_comma behind_comma skip_space scan empty_tables
    text_eq find_root_key find_key_under belongs_to watch_tree_thread round starts_with strstr
    contains strstr_at_end has handle_in_events c_string cut_junk is_root fgets up_to_zero
    strip_newline read_entries parse_options prepare start_log named_level buffer_bytes word_bytes
    zeros take_word take_bytes terminated name_of handle_bytes
asked-Reach =
    steps watched-Reach (
      loop {d = watched} {d' = asked} poll
        (value_there watched (round json host watched poll) refl))

abbrev asked_root : Root
asked_root = record {
  path = srv;
  mask = 0x8;
  max_events = ℤ.pos 2;
  queue =
      (record { wd = ℤ.pos 1; mask = 0x8; cookie = 0; len = 16; path = srv; name = codes "file" })
      ∷ [];
  destroy = true;
  pause = false;
  rewatch = true;
  persist = false;
}

asked_root_found : is_root asked.server.inotify srv ≡ some asked_root
unfolding start next_line found_line next_entry entries_read print_lines print_line print_int
    print_nat digits dump_lines strtok before_comma behind_comma skip_space scan empty_tables
    text_eq find_root_key find_key_under belongs_to watch_tree_thread round starts_with strstr
    contains strstr_at_end has handle_in_events c_string cut_junk is_root fgets up_to_zero
    strip_newline read_entries parse_options prepare start_log named_level buffer_bytes word_bytes
    zeros take_word take_bytes terminated name_of handle_bytes
asked_root_found = refl

asked_tasks : asked.server.inotify.tasks ≡ [] ++ destroy_root_task srv ∷ waiting
unfolding start next_line found_line next_entry entries_read print_lines print_line print_int
    print_nat digits dump_lines strtok before_comma behind_comma skip_space scan empty_tables
    text_eq find_root_key find_key_under belongs_to watch_tree_thread round starts_with strstr
    contains strstr_at_end has handle_in_events c_string cut_junk is_root fgets up_to_zero
    strip_newline read_entries parse_options prepare start_log named_level buffer_bytes word_bytes
    zeros take_word take_bytes terminated name_of handle_bytes
asked_tasks = refl

abbrev files_root : Root
files_root = record {
  path = files;
  mask = 0x8;
  max_events = ℤ.pos 9;
  queue = [];
  destroy = false;
  pause = false;
  rewatch = true;
  persist = false;
}

files_root_found : is_root asked.server.inotify files ≡ some files_root
unfolding start next_line found_line next_entry entries_read print_lines print_line print_int
    print_nat digits dump_lines strtok before_comma behind_comma skip_space scan empty_tables
    text_eq find_root_key find_key_under belongs_to watch_tree_thread round starts_with strstr
    contains strstr_at_end has handle_in_events c_string cut_junk is_root fgets up_to_zero
    strip_newline read_entries parse_options prepare start_log named_level buffer_bytes word_bytes
    zeros take_word take_bytes terminated name_of handle_bytes
files_root_found = refl

abbrev sub_watch : Watch
sub_watch = record { wd = ℤ.pos 2; path = sub }

sub_watch_found : sys.path_hash.lookup asked.server.inotify.path_to_watch sub ≡ some sub_watch
unfolding start next_line found_line next_entry entries_read print_lines print_line print_int
    print_nat digits dump_lines strtok before_comma behind_comma skip_space scan empty_tables
    text_eq find_root_key find_key_under belongs_to watch_tree_thread round starts_with strstr
    contains strstr_at_end has handle_in_events c_string cut_junk is_root fgets up_to_zero
    strip_newline read_entries parse_options prepare start_log named_level buffer_bytes word_bytes
    zeros take_word take_bytes terminated name_of handle_bytes
sub_watch_found = refl

reach_queue_bounded_example :
    (asked_root.path ≡ srv)
    × (first_is slash srv ≡ true)
    × (length asked_root.queue ≤ pos_part asked_root.max_events)
reach_queue_bounded_example = reach_queue_bounded asked asked-Reach srv asked_root asked_root_found

reach_roots_apart_example :
    (srv ≢ codes "/") × (starts_with files (with_slash srv) ≡ false)
    ⊎ (srv ≡ codes "/")
      × ((e : InotispyError) × (watch_root asked.server.inotify sub (ℤ.pos 8) (ℤ.pos 2) false
            ≡ (some e, asked.server.inotify)))
reach_roots_apart_example =
    reach_roots_apart asked asked-Reach srv files asked_root files_root asked_root_found
      files_root_found sub (ℤ.pos 8) (ℤ.pos 2) false

reach_watch_known_example :
    (sub_watch.path ≡ sub)
    × (sys.wd_hash.lookup asked.server.inotify.wd_to_watch sub_watch.wd ≡ some sub_watch)
    × (first_is slash sub ≡ true)
reach_watch_known_example = reach_watch_known asked asked-Reach sub sub_watch sub_watch_found

reach_destroyer_alone_example :
    ((r : Root) × (is_root asked.server.inotify srv ≡ some r) × (r.destroy ≡ true))
    × (destroyers srv ([] ++ waiting) ≡ 0)
reach_destroyer_alone_example = reach_destroyer_alone asked asked-Reach [] waiting srv asked_tasks

reach_roots_counted_example :
    asked.server.inotify.num_watched_roots ≡ ℤ.pos (sys.roots_hash.size asked.server.inotify.roots)
reach_roots_counted_example = reach_roots_counted asked asked-Reach

roots_answered :
    event_get_roots asked.server
    ≡ send asked.server (roots (sys.roots_hash.keys asked.server.inotify.roots))
roots_answered = event_get_roots_lem asked.server (Reach-Sound json host asked asked-Reach)

handle_buffer_lem_example :
    handle_buffer asked.server.inotify (some (buffer_bytes (written ∷ [])))
    ≡ some (handle_event asked.server.inotify (some (written ∷ [])))
handle_buffer_lem_example = handle_buffer_lem asked.server.inotify (written ∷ []) (
  (
    omega arith,
    omega arith,
    omega arith,
    omega arith,
    (refl, (refl, (refl, (refl, tt)))),
    inr (omega arith),
  ),
  tt,
)
