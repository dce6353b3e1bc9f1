-- ===== src/Inotify/Events.antt =====
-- inotify_handle_event of src/inotify.c: what one event of the kernel does.
pub mod Dirs
pub mod Delivery
pub mod Buffer
pub mod Whole
use inotispy.Prelude.{
  Bool, true, false, ◌&&◌, ◌||◌, Option, none, some, List, [], ◌∷◌, ◌++◌, ◌==◌, is_some,
  if◌then◌else◌,
}
use inotispy.Text.{Text, codes, slash, text_eq, first_is, with_slash}
use inotispy.Inotify.{
  InEvent, Root, Watch, Sys, State, has, is_root, in_isdir, in_create, in_moved_to, in_delete,
  in_moved_from, in_q_overflow, in_close_nowrite, in_ignored,
}
use inotispy.Inotify.Paths.{path_to_root}
use inotispy.Inotify.Queue.{enqueue}
use inotispy.Inotify.Watching.{is_rsync_tmp, do_watch_tree}
use inotispy.Inotify.Destroy.{rm_watch, unwatch_under}

-- The events that are dropped before the tables are read.
unfoldable pub is_skipped : InEvent → Bool
unfolding is_rsync_tmp
is_skipped event =
    event.len == 0
    || has event.mask in_q_overflow
    || (has event.mask in_isdir && has event.mask in_close_nowrite)
    || has event.mask in_ignored
    || is_rsync_tmp event.name

-- The absolute path of an event. The format for a watch on "/" is "/%s", and its argument is the
-- path of the watch.
unfoldable pub abs_path : Text → Text → Text
abs_path path name = if text_eq path (codes "/") then slash ∷ path else path ++ slash ∷ name

unfoldable pub active_root : Text → Root → Option (Text × Root)
active_root path root =
    if root.pause then none else if root.destroy then none else some (path, root)

module _ {S : Sys} where
  unfoldable pub root_of_watch : State S → Watch → Option (Text × Root)
  unfolding path_to_root active_root
  root_of_watch st watch = elim (path_to_root st watch.path) [
    | none ↦ none
    | some root ↦ active_root watch.path root
  ]

  -- The watched directory of an event and its root; `none` skips the event.
  unfoldable pub event_target : State S → InEvent → Option (Text × Root)
  unfolding root_of_watch
  event_target st event = elim (S.wd_hash.lookup st.wd_to_watch event.wd) [
    | none ↦ none
    | some watch ↦ root_of_watch st watch
  ]

  -- A directory that appeared; `false` drops the event.
  unfoldable pub watch_new_dir : State S → Text → Text → Text → Bool × State S
  unfolding is_rsync_tmp do_watch_tree
  watch_new_dir st path abs key =
      if is_rsync_tmp path
      then (false, st)
      else (let (rv, st') = do_watch_tree st abs key false in
          elim rv [ none ↦ (true, st') | some error ↦ (false, st') ])

  unfoldable pub remove_wd : State S → Watch → State S
  remove_wd st watch =
      if is_some (S.wd_hash.lookup st.wd_to_watch watch.wd)
      then record st { wd_to_watch = S.wd_hash.remove st.wd_to_watch watch.wd }
      else st

  unfoldable pub remove_path : State S → Text → State S
  remove_path st abs =
      if is_some (S.path_hash.lookup st.path_to_watch abs) && first_is slash abs
      then record st { path_to_watch = S.path_hash.remove st.path_to_watch abs }
      else st

  -- The watch of a directory that was deleted or moved away.
  unfoldable pub forget_dir : State S → Text → Watch → State S
  unfolding rm_watch remove_wd remove_path
  forget_dir st abs watch = remove_path (remove_wd (rm_watch st watch) watch) abs

  unfoldable pub forget_subdirs : State S → Text → State S
  unfolding unwatch_under
  forget_subdirs st abs = unwatch_under (with_slash abs) (S.path_hash.keys st.path_to_watch) st

  -- A directory that went away; `false` drops the event.
  unfoldable pub unwatch_old_dir : State S → InEvent → Text → Bool × State S
  unfolding forget_dir forget_subdirs
  unwatch_old_dir st event abs = elim (S.path_hash.lookup st.path_to_watch abs) [
    | none ↦ (false, st)
    | some watch ↦
        let st' = forget_dir st abs watch in
        (true, (if has event.mask in_moved_from then forget_subdirs st' abs else st'))
  ]

  unfoldable pub handle_dir : State S → InEvent → Text → Text → Text → Bool × State S
  unfolding watch_new_dir unwatch_old_dir
  handle_dir st event path abs key =
      if has event.mask in_isdir
      then (if has event.mask in_create || has event.mask in_moved_to
          then watch_new_dir st path abs key
          else if has event.mask in_delete || has event.mask in_moved_from
          then unwatch_old_dir st event abs
          else (true, st))
      else (true, st)

  -- The event is queued if the root's mask asks for it; a failure is only logged.
  unfoldable pub queue_event : State S → InEvent → Text → Text → State S
  unfolding is_root enqueue
  queue_event st event path key = elim (is_root st key) [
    | none ↦ st
    | some root ↦ if has event.mask root.mask then (enqueue st (some root) event path).1 else st
  ]

  unfoldable pub deliver : State S → InEvent → Text × Root → State S
  unfolding abs_path handle_dir queue_event
  deliver st event (path, root) =
      let (go_on, st') = handle_dir st event path (abs_path path event.name) root.path in
      if go_on then queue_event st' event path root.path else st'

  -- The body of the loop in inotify_handle_event.
  unfoldable pub handle_in_event : State S → InEvent → State S
  unfolding is_skipped event_target deliver
  handle_in_event st event =
      if is_skipped event
      then st
      else (elim (event_target st event) [ none ↦ st | some target ↦ deliver st event target ])

  unfoldable pub handle_in_events : State S → List InEvent → State S
  unfolding handle_in_event
  handle_in_events st [] = st
  handle_in_events st (event ∷ events) = handle_in_events (handle_in_event st event) events

  -- inotify_handle_event, of the events that read(2) returns, or of its failure.
  unfoldable pub handle_event : State S → Option (List InEvent) → State S
  unfolding handle_in_events
  handle_event st none = st
  handle_event st (some events) = handle_in_events st events
