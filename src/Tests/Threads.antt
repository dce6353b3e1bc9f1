-- ===== src/Tests/Threads.antt =====
-- Runs of the recursive watch and of the events.
use inotispy.Prelude.{
  ◌≢◌, ◌⊎◌, is_some, ◌++◌, ◌≡◌, refl, ◌⊎◌, true, false, ◌&&◌, some, [], ◌∷◌, ◌++◌, ℤ, ge_ℤ, length,
  arith, if◌then◌else◌,
}
use inotispy.Text.{Text, codes, text_eq, starts_with, strstr, contains, strstr_at_end}
use inotispy.Inotify.{Root, State, has, is_root}
use inotispy.Inotify.Paths.{find_root_key, belongs_to, path_to_root}
use inotispy.Inotify.Queue.{make_event}
use inotispy.Inotify.Watching.{entry_path, do_watch_tree_rec, watch_tree_thread}
use inotispy.Inotify.Watching.Ends.{do_watch_tree_rec_total}
use inotispy.Inotify.Watching.Tree.{InTree, do_watch_tree_rec_local, rewatch_repairs_nothing}
use inotispy.Inotify.Events.{abs_path, handle_in_event, is_skipped, event_target}
use inotispy.Inotify.Events.Delivery.{
  abs_path_cases, handle_in_event_inactive, handle_in_event_file, handle_in_event_moved,
  handle_in_event_new_dir,
}
use inotispy.Text.{codes, slash}
use inotispy.Inotify.Watching.{entry_path}
use inotispy.Inotify.Events.Dirs.{without_tree, StartsOrDrops}
use inotispy.Tests.World.{srv, sub, files, sys, sys-HasLimits, value}
use inotispy.Tests.States.{
  root, srv_watch, sub_watch, with_root, st, root_found, written, made, moved,
}

do_watch_tree_rec_total_example :
    (t : State sys) × (do_watch_tree_rec 100 st srv srv false ≡ some t)
do_watch_tree_rec_total_example =
    do_watch_tree_rec_total 100 sys-HasLimits srv false 100 st srv (omega arith)

abbrev rewatched : State sys
unfolding do_watch_tree_rec text_eq starts_with strstr strstr_at_end is_root
rewatched = value st (do_watch_tree_rec 5 st srv srv false)

do_watch_tree_rec_local_example :
    InTree srv files
    ⊎ (sys.path_hash.lookup rewatched.path_to_watch files
        ≡ sys.path_hash.lookup st.path_to_watch files)
unfolding do_watch_tree_rec text_eq starts_with strstr strstr_at_end is_root
do_watch_tree_rec_local_example = do_watch_tree_rec_local 5 st rewatched srv srv false refl files

-- The watch of /srv/sub is lost.
abbrev lost : State sys
unfolding text_eq
lost = record st {
  path_to_watch = sys.path_hash.remove st.path_to_watch sub;
  wd_to_watch = sys.wd_hash.remove st.wd_to_watch (ℤ.pos 2);
}

abbrev still_lost : State sys
unfolding watch_tree_thread text_eq starts_with strstr strstr_at_end is_root
still_lost = value lost (watch_tree_thread 5 lost srv srv true)

rewatch_repairs_nothing_example :
    (still_lost.path_to_watch ≡ lost.path_to_watch)
    × (still_lost.wd_to_watch ≡ lost.wd_to_watch)
    × (still_lost.world ≡ lost.world)
unfolding watch_tree_thread text_eq starts_with strstr strstr_at_end is_root
rewatch_repairs_nothing_example = rewatch_repairs_nothing 4 lost still_lost srv refl refl

path_in_slash :
    (text_eq (codes "/") (codes "/") ≡ false)
      × (abs_path (codes "/") (codes "new") ≡ entry_path (codes "/") (codes "new"))
    ⊎ (codes "/" ≡ codes "/") × (abs_path (codes "/") (codes "new") ≡ codes "//")
path_in_slash = abs_path_cases (codes "/") (codes "new")

abbrev paused : Root
paused = record root { pause = true }

inactive_event : handle_in_event (with_root paused) written ≡ with_root paused
unfolding path_to_root find_root_key belongs_to text_eq is_root contains strstr starts_with
inactive_event = handle_in_event_inactive (with_root paused) written srv_watch paused refl refl refl

handle_in_event_file_example :
    ((q : Text)
      → is_root (handle_in_event st written) q ≡ (
          if text_eq srv q
            && has written.mask root.mask
            && (if ge_ℤ (length root.queue) root.max_events then false else true)
          then some (record root { queue = root.queue ++ make_event written srv ∷ [] })
          else is_root st q))
    × ((handle_in_event st written).path_to_watch ≡ st.path_to_watch)
    × ((handle_in_event st written).wd_to_watch ≡ st.wd_to_watch)
    × ((handle_in_event st written).tasks ≡ st.tasks)
    × ((handle_in_event st written).world ≡ st.world)
unfolding is_skipped event_target find_root_key belongs_to text_eq is_root contains strstr
    starts_with has strstr_at_end
handle_in_event_file_example =
    handle_in_event_file st written srv srv root refl refl refl root_found refl

handle_in_event_moved_example :
    (srv ≢ codes "/")
      × (sys.path_hash.lookup (handle_in_event st moved).path_to_watch sub
          ≡ without_tree st moved (srv ++ slash ∷ moved.name) sub)
    ⊎ (srv ≡ codes "/")
      × (sys.path_hash.lookup (handle_in_event st moved).path_to_watch sub ≡ (
          if is_some (sys.path_hash.lookup st.path_to_watch (codes "//"))
          then without_tree st moved (codes "//") sub
          else sys.path_hash.lookup st.path_to_watch sub))
unfolding is_skipped event_target find_root_key belongs_to text_eq is_root contains strstr
    starts_with has strstr_at_end entry_path
handle_in_event_moved_example =
    handle_in_event_moved st moved srv root sub_watch refl refl refl refl refl refl refl sub

handle_in_event_new_dir_example :
    ((handle_in_event st made).path_to_watch ≡ st.path_to_watch)
    × ((handle_in_event st made).wd_to_watch ≡ st.wd_to_watch)
    × (((srv ≢ codes "/") × StartsOrDrops st made (srv ++ slash ∷ made.name) srv root srv)
        ⊎ ((srv ≡ codes "/") × StartsOrDrops st made (codes "//") srv root srv))
unfolding is_skipped event_target find_root_key belongs_to text_eq is_root contains strstr
    starts_with has strstr_at_end
handle_in_event_new_dir_example =
    handle_in_event_new_dir st made srv root root refl refl refl refl refl root_found refl refl
