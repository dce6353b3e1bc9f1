-- ===== src/Inotify/Watching.antt =====
-- The recursive watch of src/inotify.c: do_watch_tree, its thread _do_watch_tree, the recursion
-- _do_watch_tree_rec, make_root and make_watch.
pub mod Induction
pub mod Ends
pub mod Tree
use inotispy.Prelude.{
  ℕ, zero, suc, ◌+◌, Bool, true, false, ◌||◌, Option, none, some, List, [], ◌∷◌, ◌++◌, ℤ, bit_or,
  is_neg, is_some, ltb, length, if◌then◌else◌,
}
use inotispy.Text.{Text, codes, slash, text_eq, strstr_at_end}
use inotispy.Reply.{InotispyError, inotify_root_does_not_exist, failed_to_create_new_thread}
use inotispy.Inotify.{
  Root, Watch, Task, watch_tree_task, FileType, directory, link, other, unknown_type, Dirent, Sys,
  State, in_dont_follow, is_root, spawn,
}

unfoldable pub make_root : Text → ℕ → ℤ → Bool → Root
make_root path mask max_events rewatch = record {
  path = path;
  mask = mask;
  max_events = max_events;
  queue = [];
  destroy = false;
  pause = false;
  rewatch = rewatch;
  persist = false;
}

unfoldable pub make_watch : ℤ → Text → Watch
make_watch wd path = record { wd = wd; path = path }

-- The test for directories that rsync makes: the first ".~tmp~" ends the text.
unfoldable pub is_rsync_tmp : Text → Bool
is_rsync_tmp text = strstr_at_end text (codes ".~tmp~")

-- The path of a directory's entry.
unfoldable pub entry_path : Text → Text → Text
entry_path path name = if text_eq path (codes "/") then slash ∷ name else path ++ slash ∷ name

-- `.` and `..`
unfoldable pub is_dot : Text → Bool
is_dot name = text_eq name (codes ".") || text_eq name (codes "..")

unfoldable pub is_directory : FileType → Bool
is_directory directory = true
is_directory _ = false

-- root == NULL || root->destroy
abbrev pub is_gone : Option Root → Bool
is_gone none = true
is_gone (some root) = root.destroy

unfoldable pub root_mask : Option Root → ℕ
root_mask none = 0
root_mask (some root) = root.mask

module _ {S : Sys} where
  -- do_watch_tree; `none` is the return value 0.
  unfoldable pub do_watch_tree : State S → Text → Text → Bool → Option InotispyError × State S
  unfolding is_root spawn
  do_watch_tree st path key cleanup =
      if is_gone (is_root st key)
      then (some inotify_root_does_not_exist, st)
      else (let (created, st') = spawn st (watch_tree_task path key cleanup) in
          if created then (none, st') else (some failed_to_create_new_thread, st'))

  -- inotify_add_watch and the two tables; `true` if the directory's entries are read next.
  unfoldable pub add_watch : State S → Text → ℕ → Bool × State S
  unfolding make_watch
  add_watch st path mask =
      let (wd, world) = S.inotify_add_watch st.world path (bit_or mask in_dont_follow) in
      let watch = make_watch wd path in
      if is_neg wd
      then (false, record st { world = world })
      else if is_some (S.wd_hash.lookup st.wd_to_watch wd)
      then (false, record st { world = world })
      else (
        true,
        record st {
          world = world;
          wd_to_watch = S.wd_hash.replace st.wd_to_watch wd watch;
          path_to_watch = S.path_hash.replace st.path_to_watch path watch;
        },
      )

  unfoldable pub open_and_watch : State S → Text → ℕ → Bool × State S
  unfolding add_watch
  open_and_watch st path mask =
      if is_some (S.opendir st.world path) then add_watch st path mask else (false, st)

  -- The part of _do_watch_tree_rec that holds the mutex, and the test before it.
  unfoldable pub watch_dir : State S → Text → Text → Bool → Bool × State S
  unfolding is_rsync_tmp is_root root_mask open_and_watch
  watch_dir st path key cleanup =
      if is_rsync_tmp path
      then (false, st)
      else if is_gone (is_root st key)
      then (false, st)
      else if cleanup
      then (if is_some (S.path_hash.lookup st.path_to_watch path)
          then (false, st)
          else (open_and_watch (record st { num_root_rewatch = st.num_root_rewatch + 1 }) path
              (root_mask (is_root st key))))
      else open_and_watch st path (root_mask (is_root st key))

  -- An entry that is a directory and no symbolic link; an unknown type is looked up by lstat.
  unfoldable pub is_subdir : State S → Text → Dirent → Bool
  unfolding is_directory
  is_subdir st path dir = elim dir.d_type [
    | unknown_type ↦ is_directory (S.lstat st.world path)
    | t ↦ is_directory t
  ]

  -- The loop over readdir, with the recursive call as `recurse`; `none` if that runs out of fuel.
  unfoldable pub watch_entries :
      (State S → Text → Option (State S)) → Text → Text → List Dirent → State S → Option (State S)
  unfolding is_dot entry_path is_subdir is_root
  watch_entries recurse path key [] st = some st
  watch_entries recurse path key (dir ∷ dirs) st =
      let tmp = entry_path path dir.d_name in
      let rest = watch_entries recurse path key dirs in
      if is_dot dir.d_name
      then rest st
      else if is_subdir st tmp dir
      then (if is_gone (is_root st key)
          then some st
          else (elim (recurse st tmp) [ none ↦ none | some st' ↦ rest st' ]))
      else rest st

  -- _do_watch_tree_rec; the fuel bounds the depth, and `none` means that it ran out.
  unfoldable pub do_watch_tree_rec : ℕ → State S → Text → Text → Bool → Option (State S)
  unfolding watch_dir watch_entries
  do_watch_tree_rec zero st path key cleanup = none
  do_watch_tree_rec (suc fuel) st path key cleanup =
      let recurse = λ (s : State S) (p : Text). do_watch_tree_rec fuel s p key cleanup in
      let (descend, st') = watch_dir st path key cleanup in
      if descend
      then (elim (S.opendir st'.world path) [
        | none ↦ some st'
        | some dirs ↦ watch_entries recurse path key dirs st'
      ])
      else some st'

  unfoldable pub start_cleanup : Bool → State S → State S
  start_cleanup cleanup st =
      if cleanup then record st { in_root_rewatch = true; num_root_rewatch = 0 } else st

  unfoldable pub end_cleanup : Bool → State S → State S
  end_cleanup cleanup st =
      if cleanup then record st { in_root_rewatch = false; num_root_rewatch = 0 } else st

  unfoldable pub finish_cleanup : Bool → Option (State S) → Option (State S)
  unfolding end_cleanup
  finish_cleanup cleanup none = none
  finish_cleanup cleanup (some st) = some (end_cleanup cleanup st)

  unfoldable pub run_watch : ℕ → State S → Text → Text → Bool → Option (State S)
  unfolding finish_cleanup start_cleanup do_watch_tree_rec
  run_watch fuel st path key cleanup =
      finish_cleanup cleanup (do_watch_tree_rec fuel (start_cleanup cleanup st) path key cleanup)

  -- The thread _do_watch_tree.
  unfoldable pub watch_tree_thread : ℕ → State S → Text → Text → Bool → Option (State S)
  unfolding is_root run_watch
  watch_tree_thread fuel st path key cleanup = elim (is_root st key) [
    | none ↦ some st
    | some root ↦
        if root.destroy
        then some st
        else if ltb (length path) (length root.path)
        then some st
        else run_watch fuel st path key cleanup
  ]
