-- ===== src/Inotify/Memclean.antt =====
-- The periodic work of src/inotify.c: inotify_memclean, its thread _inotify_memclean, is_a_dir and
-- inotify_rewatch_roots.
pub mod Cleans
use inotispy.Prelude.{
  Bool, true, false, not, Option, none, some, List, [], ◌∷◌, is_some, if◌then◌else◌,
}
use inotispy.Text.{Text, slash, first_is}
use inotispy.Inotify.{Root, Watch, directory, FileType, memclean_task, Sys, State, spawn}
use inotispy.Inotify.Watching.{do_watch_tree}
use inotispy.Inotify.Destroy.{rm_watch}

unfoldable pub is_dir_type : Option FileType → Bool
is_dir_type (some directory) = true
is_dir_type _ = false

module _ {S : Sys} where
  unfoldable pub is_a_dir : State S → Text → Bool
  unfolding is_dir_type
  is_a_dir st path = is_dir_type (S.stat st.world path)

  unfoldable pub forget_wd : State S → Watch → State S
  forget_wd st watch =
      if is_some (S.wd_hash.lookup st.wd_to_watch watch.wd)
      then record st { wd_to_watch = S.wd_hash.remove st.wd_to_watch watch.wd }
      else st

  unfoldable pub forget_path : State S → Text → State S
  forget_path st path =
      if is_some (S.path_hash.lookup st.path_to_watch path)
      then record st { path_to_watch = S.path_hash.remove st.path_to_watch path }
      else st

  -- The part that holds the mutex: a rogue directory is forgotten.
  unfoldable pub clean_path : State S → Text → State S
  unfolding rm_watch forget_wd forget_path
  clean_path st path = elim (S.path_hash.lookup st.path_to_watch path) [
    | none ↦ st
    | some watch ↦ forget_path (forget_wd (rm_watch st watch) watch) path
  ]

  -- One round of the loop: a path that is no directory on disk.
  unfoldable pub clean_key : State S → Text → State S
  unfolding is_a_dir clean_path
  clean_key st path =
      if first_is slash path then (if is_a_dir st path then st else clean_path st path) else st

  -- The loop over the keys of inotify_path_to_watch.
  unfoldable pub clean_paths : List Text → State S → State S
  unfolding clean_key
  clean_paths [] st = st
  clean_paths (path ∷ paths) st = clean_paths paths (clean_key st path)

  -- The thread _inotify_memclean.
  unfoldable pub memclean_thread : State S → State S
  unfolding clean_paths
  memclean_thread st =
      record (clean_paths (S.path_hash.keys st.path_to_watch) (record st { in_memclean = true })) {
        in_memclean = false;
      }

  unfoldable pub memclean : State S → State S
  unfolding spawn
  memclean st = if st.in_memclean then st else (spawn st memclean_task).1

  -- The loop of inotify_rewatch_roots; an error is only logged.
  unfoldable pub rewatch_each : List Root → State S → State S
  unfolding do_watch_tree
  rewatch_each [] st = st
  rewatch_each (root ∷ roots) st = rewatch_each roots (do_watch_tree st root.path root.path true).1

  unfoldable pub rewatch_roots : State S → State S
  unfolding rewatch_each
  rewatch_roots st =
      if st.in_root_rewatch then st else rewatch_each (S.roots_hash.values st.roots) st
