-- ===== src/Inotify/Registry/Steps.antt =====
-- The requests, the events and the threads of src/inotify.c, and the invariant of the roots.
use inotispy.Prelude.{
  ◌≡◌, refl, sym, subst, Bool, true, false, Option, none, some, List, [], ◌∷◌, arith, inl, inr, ℤ,
  Bool-cases, Option-cases, length-append, to_u32,
}
use inotispy.Text.{Text, slash, first_is, contains, with_slash}
use inotispy.Text.Laws.{contains-length}
use inotispy.Inotify.{InEvent, Root, Sys, State, is_root}
use inotispy.Inotify.Registry.{Registry, HasRegistry, Registry-set, Registry-remove, Registry-add}
use inotispy.Inotify.Registry.Queues.{enqueue-HasRegistry}
use inotispy.Inotify.Registry.Frame.{
  roots-do_watch_tree, roots-handle_dir, roots-dump_roots, roots-unwatch_under,
  roots-forget_root_watch,
}
use inotispy.Inotify.Paths.{belongs_to, path_to_root, is_parent}
use inotispy.Inotify.Paths.Laws.{path_to_root-none, is_parent-none}
use inotispy.Inotify.Watching.{make_root, do_watch_tree}
use inotispy.Inotify.Destroy.{
  destroy_root, unwatch_root, clear_queue, unwatch_under, forget_root_watch, drop_root,
  destroy_root_thread,
}
use inotispy.Inotify.Dump.{dump_roots}
use inotispy.Inotify.Roots.{add_root, watch_root}
use inotispy.Inotify.Events.{
  abs_path, event_target, handle_dir, queue_event, deliver, handle_in_event, handle_in_events,
  handle_event,
}

-- No text holds a longer one.
pub contains-with_slash_self : (p : Text) → contains p (with_slash p) ≡ false
contains-with_slash_self p = elim (Bool-cases (contains p (with_slash p))) [
  | inr e ↦ e
  | inl e ↦ absurd (omega (arith, contains-length p (with_slash p) e, length-append p (slash ∷ [])))
]

module _ {S : Sys} where
  -- The invariant looks at the table only.
  pub HasRegistry-of_roots : (st t : State S) → t.roots ≡ st.roots → HasRegistry st → HasRegistry t
  HasRegistry-of_roots st t e h = subst (Registry S) (sym e) h

  queue_event-HasRegistry :
      (st : State S) (event : InEvent) (path key : Text)
      → HasRegistry st
      → HasRegistry (queue_event st event path key)
  unfolding queue_event
  queue_event-HasRegistry st event path key h = elim (Option-cases (is_root st key)) [
    | inl missing ↦ ground (arith, missing)
    | inr (root, found) ↦ ground (arith, found, enqueue-HasRegistry st key root event path found h)
  ]

  deliver-HasRegistry :
      (st : State S) (event : InEvent) (path : Text) (root : Root)
      → HasRegistry st
      → HasRegistry (deliver st event (path, root))
  unfolding deliver
  deliver-HasRegistry st event path root h =
      let abs = abs_path path event.name in
      let next = (handle_dir st event path abs root.path).1 in
      let g = HasRegistry-of_roots st next (roots-handle_dir st event path abs root.path) h in
      ground (arith, g, queue_event-HasRegistry next event path root.path g)

  -- Whatever event the kernel reports, no queue passes its root's limit.
  pub handle_in_event-HasRegistry :
      (st : State S) (event : InEvent) → HasRegistry st → HasRegistry (handle_in_event st event)
  unfolding handle_in_event
  handle_in_event-HasRegistry st event h = elim (Option-cases (event_target st event)) [
    | inl no_target ↦ ground (arith, no_target)
    | inr ((path, root), found) ↦ ground (arith, found, deliver-HasRegistry st event path root h)
  ]

  handle_in_events-HasRegistry :
      (st : State S) (events : List InEvent)
      → HasRegistry st
      → HasRegistry (handle_in_events st events)
  unfolding handle_in_events
  handle_in_events-HasRegistry st [] h = h
  handle_in_events-HasRegistry st (event ∷ events) h =
      handle_in_events-HasRegistry (handle_in_event st event) events
        (handle_in_event-HasRegistry st event h)

  pub handle_event-HasRegistry :
      (st : State S) (read : Option (List InEvent))
      → HasRegistry st
      → HasRegistry (handle_event st read)
  unfolding handle_event
  handle_event-HasRegistry st none h = h
  handle_event-HasRegistry st (some events) h = handle_in_events-HasRegistry st events h

  -- The checks of inotify_watch_tree are what the new root needs.
  add_root-HasRegistry :
      (st : State S) (path : Text) (mask max_events : ℤ) (rewatch : Bool)
      → first_is slash path ≡ true
      → path_to_root st path ≡ none
      → is_parent st path ≡ none
      → HasRegistry st
      → HasRegistry (add_root st path mask max_events rewatch)
  unfolding add_root make_root
  add_root-HasRegistry st path mask max_events rewatch slashed no_root no_child h =
      Registry-add st.roots h (make_root path (to_u32 mask) max_events rewatch) slashed
        (omega arith) (contains-with_slash_self path)
        (λ q r found. (
          unfold belongs_to in
              ground (arith, path_to_root-none st path q r no_root (unfold is_root in found)),
          is_parent-none st path q r no_child (unfold is_root in found),
        ))

  pub watch_root-HasRegistry :
      (st : State S) (path : Text) (mask max_events : ℤ) (rewatch : Bool)
      → first_is slash path ≡ true
      → HasRegistry st
      → HasRegistry (watch_root st path mask max_events rewatch).1
  unfolding watch_root
  watch_root-HasRegistry st path mask max_events rewatch slashed h =
      elim (Option-cases (path_to_root st path)) [
        | inr (root, child) ↦ ground (arith, child)
        | inl no_root ↦ elim (Option-cases (is_parent st path)) [
          | inr (sub, parent) ↦ ground (arith, no_root, parent)
          | inl no_child ↦
              let added = add_root st path mask max_events rewatch in
              let g =
                add_root-HasRegistry st path mask max_events rewatch slashed no_root no_child h in
              let d = HasRegistry-of_roots added (dump_roots added) (roots-dump_roots added) g in
              let w =
                HasRegistry-of_roots (dump_roots added)
                  (do_watch_tree (dump_roots added) path path false).1
                  (roots-do_watch_tree (dump_roots added) path path false) d in
              ground (arith, no_root, no_child, w)
        ]
      ]

  destroy_root-HasRegistry :
      (st : State S) (k : Text) (root : Root)
      → is_root st k ≡ some root
      → HasRegistry st
      → HasRegistry (destroy_root st root).1
  unfolding destroy_root is_root
  destroy_root-HasRegistry st k root found h = ground (
    arith,
    Registry-set st.roots h root.path root (record root { destroy = true })
        (ground (arith, found, h.named k root found)) refl (h.bounded k root found),
  )

  pub unwatch_root-HasRegistry :
      (st : State S) (path : Text) → HasRegistry st → HasRegistry (unwatch_root st path).1
  unfolding unwatch_root
  unwatch_root-HasRegistry st path h = elim (Option-cases (is_root st path)) [
    | inl missing ↦ ground (arith, missing)
    | inr (root, found) ↦ ground (arith, found, destroy_root-HasRegistry st path root found h)
  ]

  clear_queue-HasRegistry :
      (st : State S) (path : Text) → HasRegistry st → HasRegistry (clear_queue st path)
  unfolding clear_queue is_root
  clear_queue-HasRegistry st path h = elim (Option-cases (is_root st path)) [
    | inl missing ↦ ground (arith, missing)
    | inr (root, found) ↦ ground (
      arith,
      found,
      Registry-set st.roots h path root (record root { queue = [] }) found (h.named path root found)
          (omega arith),
    )
  ]

  pub destroy_root_thread-HasRegistry :
      (st : State S) (path : Text) → HasRegistry st → HasRegistry (destroy_root_thread st path)
  unfolding destroy_root_thread drop_root
  destroy_root_thread-HasRegistry st path h =
      let st1 = clear_queue st path in
      let paths = S.path_hash.keys st1.path_to_watch in
      let st2 = unwatch_under (with_slash path) paths st1 in
      let st3 = forget_root_watch st2 path in
      let h1 = clear_queue-HasRegistry st path h in
      let h2 = HasRegistry-of_roots st1 st2 (roots-unwatch_under (with_slash path) paths st1) h1 in
      let h3 = HasRegistry-of_roots st2 st3 (roots-forget_root_watch st2 path) h2 in
      HasRegistry-of_roots (drop_root st3 path) (dump_roots (drop_root st3 path))
        (roots-dump_roots (drop_root st3 path)) (Registry-remove st3.roots h3 path)
