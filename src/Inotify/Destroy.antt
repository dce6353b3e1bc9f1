-- ===== src/Inotify/Destroy.antt =====
-- Unwatching in src/inotify.c: destroy_root, its thread _destroy_root, inotify_unwatch_tree, and
-- the loop over the watched paths under a prefix that inotify_handle_event has too.
pub mod Clears
use inotispy.Prelude.{
  Bool, true, false, Option, none, some, List, [], ◌∷◌, ◌-◌, ◌+◌, ◌==◌, dec_ℤ, take, length,
  get_elem?, if◌then◌else◌,
}
use inotispy.Text.{Text, slash, with_slash, strstr_at_start}
use inotispy.Reply.{
  InotispyError, inotify_root_does_not_exist, inotify_root_not_watched,
  inotify_root_being_destroyed, failed_to_create_new_thread,
}
use inotispy.Inotify.{
  Root, Watch, destroy_root_task, Sys, State, is_root, set_root, modify_root, spawn,
}
use inotispy.Inotify.Dump.{dump_roots}

module _ {S : Sys} where
  -- Both tables forget a watch.
  unfoldable pub forget_watch : State S → Text → Watch → State S
  forget_watch st path watch = record st {
    wd_to_watch = S.wd_hash.remove st.wd_to_watch watch.wd;
    path_to_watch = S.path_hash.remove st.path_to_watch path;
  }

  unfoldable pub rm_watch : State S → Watch → State S
  rm_watch st watch = record st { world = (S.inotify_rm_watch st.world watch.wd).1 }

  -- The body of both loops: an unknown path is skipped.
  unfoldable pub unwatch_path : State S → Text → State S
  unfolding forget_watch rm_watch
  unwatch_path st path = elim (S.path_hash.lookup st.path_to_watch path) [
    | none ↦ st
    | some watch ↦ forget_watch (rm_watch st watch) path watch
  ]

  -- One round of it: only paths that begin with the prefix.
  unfoldable pub unwatch_matching : Text → State S → Text → State S
  unfolding unwatch_path
  unwatch_matching tmp st path = if strstr_at_start path tmp then unwatch_path st path else st

  unfoldable pub unwatch_under : Text → List Text → State S → State S
  unfolding unwatch_matching
  unwatch_under tmp [] st = st
  unwatch_under tmp (path ∷ paths) st = unwatch_under tmp paths (unwatch_matching tmp st path)

  -- The root's own watch leaves the tables; the kernel is not told.
  unfoldable pub forget_root_watch : State S → Text → State S
  unfolding forget_watch
  forget_root_watch st path = elim (S.path_hash.lookup st.path_to_watch path) [
    | none ↦ st
    | some watch ↦ forget_watch st path watch
  ]

  unfoldable pub drop_root : State S → Text → State S
  drop_root st path = record st {
    roots = S.roots_hash.remove st.roots path;
    num_watched_roots = dec_ℤ st.num_watched_roots;
  }

  unfoldable pub clear_queue : State S → Text → State S
  unfolding modify_root
  clear_queue st path = modify_root st path (λ root. record root { queue = [] })

  -- The thread _destroy_root.
  unfoldable pub destroy_root_thread : State S → Text → State S
  unfolding clear_queue unwatch_under forget_root_watch drop_root dump_roots
  destroy_root_thread st path =
      let st1 = clear_queue st path in
      let st2 = unwatch_under (with_slash path) (S.path_hash.keys st1.path_to_watch) st1 in
      dump_roots (drop_root (forget_root_watch st2 path) path)

  -- destroy_root; `none` is the return value 0. Its one caller has tested the root for NULL.
  unfoldable pub destroy_root : State S → Root → Option InotispyError × State S
  unfolding set_root spawn
  destroy_root st root =
      let marked = set_root st root.path (record root { destroy = true }) in
      let (created, st') = spawn marked (destroy_root_task root.path) in
      if created then (none, st') else (some failed_to_create_new_thread, st')

  unfoldable pub unwatch_root : State S → Text → Option InotispyError × State S
  unfolding is_root destroy_root
  unwatch_root st path = elim (is_root st path) [
    | none ↦ (some inotify_root_not_watched, st)
    | some root ↦
        if root.destroy then (some inotify_root_being_destroyed, st) else destroy_root st root
  ]

-- `last = strlen(path) - 1; if (path[last] == '/') path[last] = '\0'`. Of the empty text this reads
-- the byte before the buffer: `none`.
unfoldable pub strip_last_slash : Text → Option Text
strip_last_slash [] = none
strip_last_slash (c ∷ cs) =
    let last = length cs in
    elim (get_elem? (c ∷ cs) last) [
      | none ↦ none
      | some x ↦ if x == slash then some (take last (c ∷ cs)) else some (c ∷ cs)
    ]

module _ {S : Sys} where
  -- inotify_unwatch_tree; `none` is a read outside the buffer.
  unfoldable pub unwatch_tree : State S → Text → Option (Option InotispyError × State S)
  unfolding strip_last_slash unwatch_root
  unwatch_tree st path = elim (strip_last_slash path) [
    | none ↦ none
    | some p ↦ some (unwatch_root st p)
  ]
