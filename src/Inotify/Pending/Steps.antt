-- ===== src/Inotify/Pending/Steps.antt =====
-- The operations of src/inotify.c, and the invariant of its threads and of its count of roots.
use inotispy.Prelude.{
  ℕ, ◌≡◌, refl, sym, ◌∙◌, subst, Bool, true, false, some, [], ◌∷◌, arith, inl, inr, Option-cases,
  length, ◌++◌, if◌then◌else◌,
}
use inotispy.Text.{Text, slash, first_is}
use inotispy.Inotify.{InEvent, Root, Sys, State, is_root, spawn, set_root}
use inotispy.Inotify.Agree.{HasAgree}
use inotispy.Inotify.Keeps.Steps.{abs_path_absolute, event_target_watch}
use inotispy.Inotify.Registry.{Registry, HasRegistry}
use inotispy.Inotify.Watching.{do_watch_tree}
use inotispy.Inotify.Registry.Frame.{roots-handle_dir}
use inotispy.Inotify.Queue.{
  make_event, pop_events, dequeue_count, enqueue, dequeue, get_events, set_pause,
}
use inotispy.Inotify.Events.{
  event_target, abs_path, is_skipped, unwatch_old_dir, watch_new_dir, handle_dir, queue_event,
  deliver, handle_in_event,
}
use inotispy.Inotify.Pending.{HasPending, Pending-set, Pending-watch}
use inotispy.Inotify.Pending.Frame.{Quiet, unwatch_old_dir-Quiet}

module _ {S : Sys} where
  pub HasPending-of_Quiet : (st t : State S) → Quiet st t → HasPending st → HasPending t
  HasPending-of_Quiet st t (r, q, n) h = rw (r, q, n) h

  pub at_own_path :
      (st : State S) (k : Text) (root : Root)
      → HasRegistry st
      → is_root st k ≡ some root
      → is_root st root.path ≡ some root
  unfolding is_root
  at_own_path st k root g found = ground (arith, found, g.named k root found)

  pub do_watch_tree-HasPending :
      (st : State S) (path key : Text) (cleanup : Bool)
      → first_is slash path ≡ true
      → HasPending st
      → HasPending (do_watch_tree st path key cleanup).1
  unfolding do_watch_tree spawn
  do_watch_tree-HasPending st path key cleanup slashed h =
      ground
        (arith, h, Pending-watch st.roots st.tasks st.num_watched_roots h path key cleanup slashed)

  set_root-HasPending :
      (st : State S) (k : Text) (old new : Root)
      → is_root st k ≡ some old
      → new.destroy ≡ old.destroy
      → HasPending st
      → HasPending (set_root st k new)
  unfolding set_root is_root
  set_root-HasPending st k old new found same h =
      Pending-set st.roots st.tasks st.num_watched_roots h k old new found (λ d. same ∙ d)

  enqueue-HasPending :
      (st : State S) (k : Text) (root : Root) (event : InEvent) (path : Text)
      → is_root st k ≡ some root
      → root.path ≡ k
      → HasPending st
      → HasPending (enqueue st (some root) event path).1
  unfolding enqueue
  enqueue-HasPending st k root event path found named h = ground (
    arith,
    h,
    set_root-HasPending st root.path root
        (record root { queue = root.queue ++ make_event event path ∷ [] })
        (ground (arith, found, named)) refl h,
  )

  dequeue-HasPending :
      (st : State S) (root : Root) (count : ℕ)
      → is_root st root.path ≡ some root
      → HasPending st
      → HasPending (dequeue st root count).1
  unfolding dequeue
  dequeue-HasPending st root count found h = ground (
    arith,
    h,
    set_root-HasPending st root.path root
        (record root {
          queue = (pop_events (dequeue_count count (length root.queue)) root.queue).1;
        })
        found refl h,
  )

  pub get_events-HasPending :
      (st : State S) (path : Text) (count : ℕ)
      → HasRegistry st
      → HasPending st
      → HasPending (get_events st path count).1
  unfolding get_events
  get_events-HasPending st path count g h = elim (Option-cases (is_root st path)) [
    | inl missing ↦ rw (missing, get_events) h
    | inr (root, found) ↦
        rw (found, get_events)
          (dequeue-HasPending st root count (at_own_path st path root g found) h)
  ]

  pub set_pause-HasPending :
      (flag : Bool) (st : State S) (path : Text)
      → HasPending st
      → HasPending (set_pause flag st path).1
  unfolding set_pause
  set_pause-HasPending flag st path h = elim (Option-cases (is_root st path)) [
    | inl missing ↦ rw (missing, set_pause) h
    | inr (root, found) ↦
        rw (found, set_pause)
          (set_root-HasPending st path root (record root { pause = flag }) found refl h)
  ]

  handle_dir-HasPending :
      (st : State S) (event : InEvent) (path abs key : Text)
      → first_is slash abs ≡ true
      → HasPending st
      → HasPending (handle_dir st event path abs key).1
  unfolding handle_dir watch_new_dir
  handle_dir-HasPending st event path abs key slashed h = ground (
    arith,
    h,
    do_watch_tree-HasPending st abs key false slashed h,
    HasPending-of_Quiet st (unwatch_old_dir st event abs).1 (unwatch_old_dir-Quiet st event abs) h,
  )

  queue_event-HasPending :
      (st : State S) (event : InEvent) (path key : Text)
      → HasRegistry st
      → HasPending st
      → HasPending (queue_event st event path key)
  unfolding queue_event
  queue_event-HasPending st event path key g h = elim (Option-cases (is_root st key)) [
    | inl missing ↦ rw (missing, queue_event) h
    | inr (root, found) ↦ ground (
      arith,
      found,
      h,
      enqueue-HasPending st root.path root event path (at_own_path st key root g found) refl h,
    )
  ]

  deliver-HasPending :
      (st : State S) (event : InEvent) (path : Text) (root : Root)
      → first_is slash path ≡ true
      → HasRegistry st
      → HasPending st
      → HasPending (deliver st event (path, root))
  unfolding deliver
  deliver-HasPending st event path root slashed g h =
      let abs = abs_path path event.name in
      let next = (handle_dir st event path abs root.path).1 in
      let h' =
        handle_dir-HasPending st event path abs root.path
          (abs_path_absolute path event.name slashed) h in
      let g' : HasRegistry next =
        subst (Registry S) (sym (roots-handle_dir st event path abs root.path)) g in
      ground (arith, h', queue_event-HasPending next event path root.path g' h')

  pub handle_in_event-HasPending :
      (st : State S) (event : InEvent)
      → HasAgree st
      → HasRegistry st
      → HasPending st
      → HasPending (handle_in_event st event)
  unfolding handle_in_event
  handle_in_event-HasPending st event a g h = elim (Option-cases (event_target st event)) [
    | inl no_target ↦ ground (arith, no_target, h)
    | inr ((path, root), found) ↦
        let (w, known, same) = event_target_watch st event path root found in
        let slashed = subst (λ p. first_is slash p ≡ true) same (a.absolute event.wd w known) in
        rw (found, handle_in_event)
          (either (is_skipped event) st (deliver st event (path, root)) h
            (deliver-HasPending st event path root slashed g h))
  ]
    where
      either :
          (b : Bool) (s t : State S) → HasPending s → HasPending t → HasPending (if b then s else t)
      either true s t p q = p
      either false s t p q = q
