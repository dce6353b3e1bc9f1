-- ===== src/Inotify/Keeps/Removal.antt =====
-- The removals of src/inotify.c, and the agreement of the two watch tables.
use inotispy.Prelude.{◌≡◌, true, some, List, [], ◌∷◌, arith, inl, inr, Option-cases, if◌then◌else◌}
use inotispy.Text.{Text, slash, first_is, with_slash}
use inotispy.Inotify.{InEvent, Watch, Sys, State, has, in_moved_from}
use inotispy.Inotify.Agree.{HasAgree, Agree-remove}
use inotispy.Inotify.Dump.{dump_roots}
use inotispy.Inotify.Destroy.{
  unwatch_path, unwatch_matching, unwatch_under, destroy_root_thread, clear_queue,
  forget_root_watch, drop_root,
}
use inotispy.Inotify.Memclean.{clean_path, clean_key, clean_paths, memclean_thread}
use inotispy.Inotify.Events.{forget_dir, forget_subdirs, unwatch_old_dir}

module _ {S : Sys} where
  pub unwatch_path-HasAgree :
      (st : State S) (path : Text) → HasAgree st → HasAgree (unwatch_path st path)
  unfolding unwatch_path
  unwatch_path-HasAgree st path h = elim (Option-cases (S.path_hash.lookup st.path_to_watch path)) [
    | inl e ↦ rw (e, unwatch_path) h
    | inr (w, e) ↦ rw (e, unwatch_path) (Agree-remove _ _ h path w e)
  ]

  unwatch_matching-HasAgree :
      (tmp : Text) (st : State S) (path : Text)
      → HasAgree st
      → HasAgree (unwatch_matching tmp st path)
  unfolding unwatch_matching
  unwatch_matching-HasAgree tmp st path h = ground (arith, unwatch_path-HasAgree st path h)

  pub unwatch_under-HasAgree :
      (tmp : Text) (paths : List Text) (st : State S)
      → HasAgree st
      → HasAgree (unwatch_under tmp paths st)
  unfolding unwatch_under
  unwatch_under-HasAgree tmp [] st h = h
  unwatch_under-HasAgree tmp (path ∷ paths) st h =
      unwatch_under-HasAgree tmp paths (unwatch_matching tmp st path)
        (unwatch_matching-HasAgree tmp st path h)

  pub forget_root_watch-HasAgree :
      (st : State S) (path : Text) → HasAgree st → HasAgree (forget_root_watch st path)
  unfolding forget_root_watch
  forget_root_watch-HasAgree st path h =
      elim (Option-cases (S.path_hash.lookup st.path_to_watch path)) [
        | inl e ↦ rw (e, forget_root_watch) h
        | inr (w, e) ↦ rw (e, forget_root_watch) (Agree-remove _ _ h path w e)
      ]

  pub dump_roots-HasAgree : (st : State S) → HasAgree st → HasAgree (dump_roots st)
  unfolding dump_roots
  dump_roots-HasAgree st h = ground arith

  clear_queue-HasAgree : (st : State S) (path : Text) → HasAgree st → HasAgree (clear_queue st path)
  unfolding clear_queue
  clear_queue-HasAgree st path h = ground arith

  pub destroy_root_thread-HasAgree :
      (st : State S) (path : Text) → HasAgree st → HasAgree (destroy_root_thread st path)
  unfolding destroy_root_thread drop_root
  destroy_root_thread-HasAgree st path h =
      let st1 = clear_queue st path in
      let st2 = unwatch_under (with_slash path) (S.path_hash.keys st1.path_to_watch) st1 in
      dump_roots-HasAgree (drop_root (forget_root_watch st2 path) path) (
        forget_root_watch-HasAgree st2 path (
          unwatch_under-HasAgree (with_slash path) (S.path_hash.keys st1.path_to_watch) st1
            (clear_queue-HasAgree st path h)))

  pub forget_dir-HasAgree :
      (st : State S) (abs : Text) (w : Watch)
      → first_is slash abs ≡ true
      → S.path_hash.lookup st.path_to_watch abs ≡ some w
      → HasAgree st
      → HasAgree (forget_dir st abs w)
  unfolding forget_dir
  forget_dir-HasAgree st abs w slashed found h =
      ground (arith, h.backed abs w found, Agree-remove _ _ h abs w found)

  pub unwatch_old_dir-HasAgree :
      (st : State S) (event : InEvent) (abs : Text)
      → first_is slash abs ≡ true
      → HasAgree st
      → HasAgree (unwatch_old_dir st event abs).1
  unfolding unwatch_old_dir forget_subdirs
  unwatch_old_dir-HasAgree st event abs slashed h =
      elim (Option-cases (S.path_hash.lookup st.path_to_watch abs)) [
        | inl e ↦ rw (e, unwatch_old_dir) h
        | inr (w, e) ↦
            let gone = forget_dir-HasAgree st abs w slashed e h in
            rw (e, unwatch_old_dir) (after_move (forget_dir st abs w) gone)
      ]
    where
      after_move :
          (s : State S)
          → HasAgree s
          → HasAgree (if has event.mask in_moved_from then forget_subdirs s abs else s)
      after_move s g =
          ground
            (arith, unwatch_under-HasAgree (with_slash abs) (S.path_hash.keys s.path_to_watch) s g)

  pub clean_path-HasAgree :
      (st : State S) (path : Text) → HasAgree st → HasAgree (clean_path st path)
  unfolding clean_path
  clean_path-HasAgree st path h = elim (Option-cases (S.path_hash.lookup st.path_to_watch path)) [
    | inl e ↦ rw (e, clean_path) h
    | inr (w, e) ↦
        rw (e, clean_path) (ground (arith, e, h.backed path w e, Agree-remove _ _ h path w e))
  ]

  clean_key-HasAgree : (st : State S) (path : Text) → HasAgree st → HasAgree (clean_key st path)
  unfolding clean_key
  clean_key-HasAgree st path h = ground (arith, clean_path-HasAgree st path h)

  pub clean_paths-HasAgree :
      (paths : List Text) (st : State S) → HasAgree st → HasAgree (clean_paths paths st)
  unfolding clean_paths
  clean_paths-HasAgree [] st h = h
  clean_paths-HasAgree (path ∷ paths) st h =
      clean_paths-HasAgree paths (clean_key st path) (clean_key-HasAgree st path h)

  pub memclean_thread-HasAgree : (st : State S) → HasAgree st → HasAgree (memclean_thread st)
  unfolding memclean_thread
  memclean_thread-HasAgree st h =
      clean_paths-HasAgree (S.path_hash.keys st.path_to_watch) (record st { in_memclean = true }) h
