-- ===== src/Inotify/Events/Dirs.antt =====
-- What inotify_handle_event of src/inotify.c does with a directory that was moved away, and with a
-- new one.
use inotispy.Prelude.{
  ◌≡◌, ◌≢◌, ◌⊎◌, refl, sym, subst, ap, Option, ℤ, int_eq, is_some, Option-cases, true, false, ◌&&◌,
  ◌||◌, none, some, [], ◌∷◌, ◌++◌, arith, inl, inr, ge_ℤ, length, Bool-cases, if◌then◌else◌,
}
use inotispy.Text.{Text, codes, slash, text_eq, starts_with, first_is, with_slash}
use inotispy.Inotify.{
  InEvent, Root, Watch, watch_tree_task, Sys, State, has, is_root, spawn, in_isdir, in_create,
  in_moved_to, in_moved_from,
}
use inotispy.Inotify.Queue.{make_event, enqueue}
use inotispy.Inotify.Watching.{entry_path, do_watch_tree, is_rsync_tmp}
use inotispy.Inotify.Destroy.Clears.{watched-unwatch_all}
use inotispy.Inotify.Keeps.Steps.{abs_path_absolute}
use inotispy.Inotify.Events.{
  is_skipped, abs_path, event_target, watch_new_dir, unwatch_old_dir, forget_dir, forget_subdirs,
  handle_dir, queue_event, deliver, handle_in_event,
}

pub abs_path_slash : (path name : Text) → path ≡ codes "/" → abs_path path name ≡ codes "//"
unfolding abs_path text_eq
abs_path_slash path name e = subst (λ p. abs_path p name ≡ codes "//") (sym e) refl

pub abs_path_other :
    (path name : Text)
    → text_eq path (codes "/") ≡ false
    → abs_path path name ≡ path ++ slash ∷ name
unfolding abs_path
abs_path_other path name e = rw (e) refl

pub entry_path_other :
    (path name : Text)
    → text_eq path (codes "/") ≡ false
    → entry_path path name ≡ abs_path path name
unfolding abs_path entry_path
entry_path_other path name e = rw (e) refl

module _ {S : Sys} where
  watched-forget_dir :
      (st : State S) (abs : Text) (w : Watch) (q : Text)
      → S.path_hash.lookup st.path_to_watch abs ≡ some w
      → first_is slash abs ≡ true
      → S.path_hash.lookup (forget_dir st abs w).path_to_watch q
        ≡ (if text_eq abs q then none else S.path_hash.lookup st.path_to_watch q)
  unfolding forget_dir
  watched-forget_dir st abs w q found slashed =
      ground (arith, found, slashed, S.path_hash.lookup-remove st.path_to_watch abs q)

  watched-queue_event :
      (st : State S) (event : InEvent) (path key : Text)
      → (queue_event st event path key).path_to_watch ≡ st.path_to_watch
  unfolding queue_event enqueue
  watched-queue_event st event path key = ground arith

  watched-forget_moved :
      (st : State S) (abs : Text) (w : Watch) (q : Text)
      → S.path_hash.lookup st.path_to_watch abs ≡ some w
      → first_is slash abs ≡ true
      → S.path_hash.lookup (forget_subdirs (forget_dir st abs w) abs).path_to_watch q ≡ (
          if text_eq abs q || starts_with q (with_slash abs)
          then none
          else S.path_hash.lookup st.path_to_watch q)
  unfolding forget_subdirs
  watched-forget_moved st abs w q found slashed = ground (
    arith,
    watched-unwatch_all (with_slash abs) (forget_dir st abs w) q,
    watched-forget_dir st abs w q found slashed,
  )

module _ {S : Sys} (st : State S) (event : InEvent) where
  -- The watches without those of a path and of all paths below it.
  abbrev pub without_tree : Text → Text → Option Watch
  without_tree abs q =
      if text_eq abs q || starts_with q (with_slash abs)
      then none
      else S.path_hash.lookup st.path_to_watch q

  pub moved_away :
      (path : Text) (root : Root) (w : Watch)
      → is_skipped event ≡ false
      → has event.mask in_isdir ≡ true
      → (has event.mask in_create || has event.mask in_moved_to) ≡ false
      → has event.mask in_moved_from ≡ true
      → event_target st event ≡ some (path, root)
      → S.path_hash.lookup st.path_to_watch (abs_path path event.name) ≡ some w
      → first_is slash path ≡ true
      → (q : Text)
      → S.path_hash.lookup (handle_in_event st event).path_to_watch q
        ≡ without_tree (abs_path path event.name) q
  unfolding handle_in_event deliver handle_dir unwatch_old_dir
  moved_away path root w kept dir old moved target known slashed q =
      let abs = abs_path path event.name in
      let gone = forget_subdirs (forget_dir st abs w) abs in
      ground (
        arith,
        kept,
        dir,
        old,
        moved,
        target,
        known,
        watched-queue_event gone event path root.path,
        watched-forget_moved st abs w q known (abs_path_absolute path event.name slashed),
      )

  not_watched :
      (path : Text) (root : Root)
      → is_skipped event ≡ false
      → has event.mask in_isdir ≡ true
      → (has event.mask in_create || has event.mask in_moved_to) ≡ false
      → has event.mask in_moved_from ≡ true
      → event_target st event ≡ some (path, root)
      → S.path_hash.lookup st.path_to_watch (abs_path path event.name) ≡ none
      → handle_in_event st event ≡ st
  unfolding handle_in_event deliver handle_dir unwatch_old_dir
  not_watched path root kept dir old moved target unknown =
      ground (arith, kept, dir, old, moved, target, unknown)

  pub moved_from_slash :
      (path : Text) (root : Root)
      → is_skipped event ≡ false
      → has event.mask in_isdir ≡ true
      → (has event.mask in_create || has event.mask in_moved_to) ≡ false
      → has event.mask in_moved_from ≡ true
      → event_target st event ≡ some (path, root)
      → path ≡ codes "/"
      → (q : Text)
      → S.path_hash.lookup (handle_in_event st event).path_to_watch q ≡ (
          if is_some (S.path_hash.lookup st.path_to_watch (codes "//"))
          then without_tree (codes "//") q
          else S.path_hash.lookup st.path_to_watch q)
  moved_from_slash path root kept dir old moved target same q =
      let abs = abs_path_slash path event.name same in
      elim (Option-cases (S.path_hash.lookup st.path_to_watch (codes "//"))) [
        | inr (w, found) ↦
            let known =
              subst (λ p. S.path_hash.lookup st.path_to_watch p ≡ some w) (sym abs) found in
            let slashed : first_is slash path ≡ true =
              subst (λ p. first_is slash p ≡ true) (sym same) refl in
            rw (found) (
              subst
                (λ p.
                  S.path_hash.lookup (handle_in_event st event).path_to_watch q ≡ without_tree p q)
                abs (moved_away path root w kept dir old moved target known slashed q))
        | inl unknown ↦
            let absent =
              subst (λ p. S.path_hash.lookup st.path_to_watch p ≡ none) (sym abs) unknown in
            rw (unknown) (
              ap (λ (t : State S). S.path_hash.lookup t.path_to_watch q)
                (not_watched path root kept dir old moved target absent))
      ]

  -- A thread for the tree of a directory is created, and the event is queued for its root if the
  -- mask asks for it and the queue is below the limit; or the thread cannot be created, and the
  -- event is dropped.
  abbrev pub StartsOrDrops : Text → Text → Root → Text → Type 0
  StartsOrDrops abs key live path =
      ((S.pthread_create st.world).0 ≡ ℤ.pos 0)
        × ((handle_in_event st event).tasks ≡ watch_tree_task abs key false ∷ st.tasks)
        × ((q : Text)
            → is_root (handle_in_event st event) q ≡ (
                if text_eq key q
                  && has event.mask live.mask
                  && (if ge_ℤ (length live.queue) live.max_events then false else true)
                then some (record live { queue = live.queue ++ make_event event path ∷ [] })
                else is_root st q))
      ⊎ ((S.pthread_create st.world).0 ≢ ℤ.pos 0)
        × ((handle_in_event st event).tasks ≡ st.tasks)
        × ((q : Text) → is_root (handle_in_event st event) q ≡ is_root st q)

  pub starts_or_drops :
      (path : Text) (root live : Root)
      → is_skipped event ≡ false
      → has event.mask in_isdir ≡ true
      → (has event.mask in_create || has event.mask in_moved_to) ≡ true
      → event_target st event ≡ some (path, root)
      → is_rsync_tmp path ≡ false
      → is_root st root.path ≡ some live
      → live.destroy ≡ false
      → live.path ≡ root.path
      → StartsOrDrops (abs_path path event.name) root.path live path
  unfolding handle_in_event deliver handle_dir watch_new_dir queue_event enqueue do_watch_tree spawn
      is_root
  starts_or_drops path root live kept dir new target no_tmp known alive named =
      elim (Bool-cases (int_eq (S.pthread_create st.world).0 (ℤ.pos 0))) [
        | inl created ↦ inl (
          ground (arith, created),
          ground (arith, kept, dir, new, target, no_tmp, known, alive, created, named),
          λ q. ground (
            arith,
            kept,
            dir,
            new,
            target,
            no_tmp,
            known,
            alive,
            created,
            named,
            S.roots_hash.lookup-replace st.roots root.path
                (record live { queue = live.queue ++ make_event event path ∷ [] }) q,
          ),
        )
        | inr failed ↦ inr (
          λ e. ground (arith, failed, e),
          ground (arith, kept, dir, new, target, no_tmp, known, alive, failed, named),
          λ q. ground (arith, kept, dir, new, target, no_tmp, known, alive, failed, named),
        )
      ]
