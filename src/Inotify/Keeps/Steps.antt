-- ===== src/Inotify/Keeps/Steps.antt =====
-- The requests and the events that src/inotify.c handles, and the agreement of the two watch tables.
use inotispy.Prelude.{
  ℕ, ◌≡◌, Bool, true, false, Option, none, some, List, [], ◌∷◌, arith, inl, inr, ℤ, Bool-cases,
  Option-cases,
}
use inotispy.Text.{Text, slash, first_is, text_eq, codes}
use inotispy.Reply.{InotispyError}
use inotispy.Inotify.{InEvent, Watch, Root, Sys, State}
use inotispy.Inotify.Agree.{HasAgree}
use inotispy.Inotify.Keeps.{do_watch_tree-HasAgree}
use inotispy.Inotify.Keeps.Removal.{unwatch_old_dir-HasAgree, dump_roots-HasAgree}
use inotispy.Inotify.Destroy.{strip_last_slash, unwatch_root, unwatch_tree}
use inotispy.Inotify.Dump.{dump_roots}
use inotispy.Inotify.Roots.{clean_root_path, add_root, watch_root, watch_tree}
use inotispy.Inotify.Queue.{get_events, set_pause}
use inotispy.Inotify.Events.{
  abs_path, event_target, watch_new_dir, handle_dir, queue_event, deliver, handle_in_event,
  handle_in_events, handle_event,
}

pub abs_path_absolute :
    (path name : Text) → first_is slash path ≡ true → first_is slash (abs_path path name) ≡ true
unfolding abs_path
abs_path_absolute [] name h = absurd (cc)
abs_path_absolute (c ∷ path) name h = elim (Bool-cases (text_eq (c ∷ path) (codes "/"))) [
  | inl e ↦ rw e
  | inr e ↦ rw e h
]

module _ {S : Sys} where
  watch_new_dir-HasAgree :
      (st : State S) (path abs key : Text)
      → HasAgree st
      → HasAgree (watch_new_dir st path abs key).1
  unfolding watch_new_dir
  watch_new_dir-HasAgree st path abs key h =
      ground (arith, do_watch_tree-HasAgree st abs key false h)

  handle_dir-HasAgree :
      (st : State S) (event : InEvent) (path abs key : Text)
      → first_is slash abs ≡ true
      → HasAgree st
      → HasAgree (handle_dir st event path abs key).1
  unfolding handle_dir
  handle_dir-HasAgree st event path abs key slashed h = ground (
    arith,
    watch_new_dir-HasAgree st path abs key h,
    unwatch_old_dir-HasAgree st event abs slashed h,
  )

  queue_event-HasAgree :
      (st : State S) (event : InEvent) (path key : Text)
      → HasAgree st
      → HasAgree (queue_event st event path key)
  unfolding queue_event
  queue_event-HasAgree st event path key h = ground arith

  deliver-HasAgree :
      (st : State S) (event : InEvent) (path : Text) (root : Root)
      → first_is slash path ≡ true
      → HasAgree st
      → HasAgree (deliver st event (path, root))
  unfolding deliver
  deliver-HasAgree st event path root slashed h =
      let abs = abs_path path event.name in
      let next = (handle_dir st event path abs root.path).1 in
      let g =
        handle_dir-HasAgree st event path abs root.path (abs_path_absolute path event.name slashed)
          h in
      ground (arith, g, queue_event-HasAgree next event path root.path g)

  -- The path of an event's target is the path of a watch.
  pub event_target_watch :
      (st : State S) (event : InEvent) (path : Text) (root : Root)
      → event_target st event ≡ some (path, root)
      → (w : Watch) × (S.wd_hash.lookup st.wd_to_watch event.wd ≡ some w) × (w.path ≡ path)
  unfolding event_target
  event_target_watch st event path root e =
      elim (Option-cases (S.wd_hash.lookup st.wd_to_watch event.wd)) [
        | inl no_watch ↦ absurd (ground (arith, no_watch, e))
        | inr (w, found) ↦ (w, found, ground (arith, found, e))
      ]

  -- Whatever event the kernel reports, handling it keeps the tables in agreement.
  pub handle_in_event-HasAgree :
      (st : State S) (event : InEvent) → HasAgree st → HasAgree (handle_in_event st event)
  unfolding handle_in_event
  handle_in_event-HasAgree st event h = elim (Option-cases (event_target st event)) [
    | inl no_target ↦ ground (arith, no_target)
    | inr ((path, root), found) ↦
        let (w, known, same) = event_target_watch st event path root found in
        ground (
          arith,
          found,
          deliver-HasAgree st event path root (ground (arith, same, h.absolute event.wd w known)) h,
        )
  ]

  handle_in_events-HasAgree :
      (st : State S) (events : List InEvent) → HasAgree st → HasAgree (handle_in_events st events)
  unfolding handle_in_events
  handle_in_events-HasAgree st [] h = h
  handle_in_events-HasAgree st (event ∷ events) h =
      handle_in_events-HasAgree (handle_in_event st event) events
        (handle_in_event-HasAgree st event h)

  pub handle_event-HasAgree :
      (st : State S) (read : Option (List InEvent)) → HasAgree st → HasAgree (handle_event st read)
  unfolding handle_event
  handle_event-HasAgree st none h = h
  handle_event-HasAgree st (some events) h = handle_in_events-HasAgree st events h

  pub watch_root-HasAgree :
      (st : State S) (path : Text) (mask max_events : ℤ) (rewatch : Bool)
      → HasAgree st
      → HasAgree (watch_root st path mask max_events rewatch).1
  unfolding watch_root add_root
  watch_root-HasAgree st path mask max_events rewatch h = ground (
    arith,
    do_watch_tree-HasAgree (dump_roots (add_root st path mask max_events rewatch)) path path false
        (dump_roots-HasAgree (add_root st path mask max_events rewatch) h),
  )

  pub watch_tree-HasAgree :
      (st t : State S) (path : Text) (mask max_events : ℤ) (rewatch : Bool)
      (rv : Option InotispyError)
      → HasAgree st
      → watch_tree st path mask max_events rewatch ≡ some (rv, t)
      → HasAgree t
  unfolding watch_tree
  watch_tree-HasAgree st t path mask max_events rewatch rv h e =
      elim (Option-cases (clean_root_path path)) [
        | inl bad ↦ absurd (ground (arith, bad, e))
        | inr (p, good) ↦
            ground (arith, good, e, watch_root-HasAgree st p mask max_events rewatch h)
      ]

  pub unwatch_root-HasAgree :
      (st : State S) (path : Text) → HasAgree st → HasAgree (unwatch_root st path).1
  unfolding unwatch_root
  unwatch_root-HasAgree st path h = ground arith

  pub unwatch_tree-HasAgree :
      (st t : State S) (path : Text) (rv : Option InotispyError)
      → HasAgree st
      → unwatch_tree st path ≡ some (rv, t)
      → HasAgree t
  unfolding unwatch_tree
  unwatch_tree-HasAgree st t path rv h e = elim (Option-cases (strip_last_slash path)) [
    | inl bad ↦ absurd (ground (arith, bad, e))
    | inr (p, good) ↦ ground (arith, good, e, unwatch_root-HasAgree st p h)
  ]

  pub get_events-HasAgree :
      (st : State S) (path : Text) (count : ℕ) → HasAgree st → HasAgree (get_events st path count).1
  unfolding get_events
  get_events-HasAgree st path count h = ground arith

  pub set_pause-HasAgree :
      (flag : Bool) (st : State S) (path : Text) → HasAgree st → HasAgree (set_pause flag st path).1
  unfolding set_pause
  set_pause-HasAgree flag st path h = ground arith
