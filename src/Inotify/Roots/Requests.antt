-- ===== src/Inotify/Roots/Requests.antt =====
-- What inotify_watch_tree of src/inotify.c answers, and what it leaves.
use inotispy.Prelude.{
  ◌≡◌, ◌≢◌, ◌⊎◌, Bool, true, false, none, some, ◌∷◌, arith, inl, inr, ℤ, int_eq, inc_ℤ, to_u32,
  is_some, Bool-cases, Option-cases, if◌then◌else◌,
}
use inotispy.Text.{Text, codes, text_eq, contains, with_slash}
use inotispy.Text.Laws.{text_eq_refl}
use inotispy.Reply.{
  InotispyError, failed_to_create_new_thread, inotify_root_does_not_exist, inotify_parent_of_root,
}
use inotispy.Inotify.{Root, watch_tree_task, Sys, State, is_root, spawn}
use inotispy.Inotify.Dump.{dump_roots}
use inotispy.Inotify.Paths.{belongs_to, path_to_root, is_parent}
use inotispy.Inotify.Paths.Laws.{path_to_root-none}
use inotispy.Inotify.Watching.{make_root, do_watch_tree}
use inotispy.Inotify.Roots.{refusal, add_root, watch_root}

module _ {S : Sys} (st : State S) (path : Text) (mask max_events : ℤ) (rewatch : Bool) where
  -- With the new root in place.
  abbrev pub Registered : State S → Type 0
  Registered t =
      ((q : Text)
        → is_root t q ≡ (
            if text_eq path q
            then some (make_root path (to_u32 mask) max_events rewatch)
            else is_root st q))
      × (t.num_watched_roots ≡ inc_ℤ st.num_watched_roots)
      × (t.path_to_watch ≡ st.path_to_watch)
      × (t.wd_to_watch ≡ st.wd_to_watch)

  refusal_no_thread : (root : Root) → refusal path root ≢ failed_to_create_new_thread
  unfolding refusal
  refusal_no_thread root e = ground (arith, e)

  added : State S
  added = dump_roots (add_root st path mask max_events rewatch)

  Registered-added :
      (q : Text)
      → is_root added q ≡ (
          if text_eq path q
          then some (make_root path (to_u32 mask) max_events rewatch)
          else is_root st q)
  unfolding added dump_roots add_root is_root
  Registered-added q = ground (
    arith,
    S.roots_hash.lookup-replace st.roots path (make_root path (to_u32 mask) max_events rewatch) q,
  )

  -- The thread for the tree is created, or it is not.
  start_lem :
      ((do_watch_tree added path path false).0 ≡ none)
        × Registered (do_watch_tree added path path false).1
        × ((do_watch_tree added path path false).1.tasks
            ≡ watch_tree_task path path false ∷ st.tasks)
      ⊎ ((do_watch_tree added path path false).0 ≡ some failed_to_create_new_thread)
        × Registered (do_watch_tree added path path false).1
        × ((do_watch_tree added path path false).1.tasks ≡ st.tasks)
  unfolding do_watch_tree added dump_roots add_root is_root make_root spawn
  start_lem = elim (Bool-cases (int_eq (S.pthread_create st.world).0 (ℤ.pos 0))) [
    | inl created ↦ inl (
      ground (arith, created, Registered-added path, text_eq_refl path),
      (
        λ q. ground (arith, created, Registered-added q, Registered-added path, text_eq_refl path),
        ground (arith, created),
        ground (arith, created),
        ground (arith, created),
      ),
      ground (arith, created, Registered-added path, text_eq_refl path),
    )
    | inr failed ↦ inr (
      ground (arith, failed, Registered-added path, text_eq_refl path),
      (
        λ q. ground (arith, failed, Registered-added q, Registered-added path, text_eq_refl path),
        ground (arith, failed),
        ground (arith, failed),
        ground (arith, failed),
      ),
      ground (arith, failed, Registered-added path, text_eq_refl path),
    )
  ]

  -- A request to watch a path ends in one of three ways. It succeeds, and then the new root with
  -- an empty queue is in place and counted, no other root and neither of the watch tables has
  -- changed, and one more thread waits to watch the tree. The thread cannot be created, which is
  -- reported, and the new root is in place and counted all the same. Or the request is refused
  -- with another error, and nothing has changed.
  pub watch_root_lem :
      (watch_root st path mask max_events rewatch).0 ≡ none
        × Registered (watch_root st path mask max_events rewatch).1
        × ((watch_root st path mask max_events rewatch).1.tasks
            ≡ watch_tree_task path path false ∷ st.tasks)
      ⊎ (((watch_root st path mask max_events rewatch).0 ≡ some failed_to_create_new_thread)
            × Registered (watch_root st path mask max_events rewatch).1
            × ((watch_root st path mask max_events rewatch).1.tasks ≡ st.tasks)
          ⊎ ((e : InotispyError) × (e ≢ failed_to_create_new_thread)
              × (watch_root st path mask max_events rewatch ≡ (some e, st))))
  unfolding watch_root added
  watch_root_lem = elim (Option-cases (path_to_root st path)) [
    | inr (root, child) ↦
        inr (inr (refusal path root, refusal_no_thread root, ground (arith, child)))
    | inl no_root ↦ elim (Option-cases (is_parent st path)) [
      | inr (sub, parent) ↦
          inr (inr (inotify_parent_of_root, λ e. cc, ground (arith, no_root, parent)))
      | inl no_child ↦ elim (Bool-cases (is_some (S.opendir st.world path))) [
        | inr shut ↦
            inr
              (inr (inotify_root_does_not_exist, λ e. cc, ground (arith, no_root, no_child, shut)))
        | inl there ↦ elim start_lem [
          | inl ok ↦ inl (rw (no_root, no_child, there, watch_root) ok)
          | inr bad ↦ inr (inl (rw (no_root, no_child, there, watch_root) bad))
        ]
      ]
    ]
  ]

  -- While "/" is a root, no path can be watched.
  pub watch_root_below_slash :
      (r : Root)
      → is_root st (codes "/") ≡ some r
      → (e : InotispyError) × (watch_root st path mask max_events rewatch ≡ (some e, st))
  unfolding watch_root path_to_root
  watch_root_below_slash r found = (refusal path r, ground (arith, found))

  -- A path in which the path of a root occurs, at any place and with a slash behind it, is
  -- refused and nothing changes, whether it lies below that root or not.
  pub watch_root_refused :
      (k : Text) (r : Root)
      → is_root st k ≡ some r
      → contains path (with_slash k) ≡ true
      → (e : InotispyError) × (watch_root st path mask max_events rewatch ≡ (some e, st))
  unfolding watch_root belongs_to
  watch_root_refused k r found inside = elim (Option-cases (path_to_root st path)) [
    | inl no_root ↦ absurd (ground (arith, path_to_root-none st path k r no_root found, inside))
    | inr (root, child) ↦ (refusal path root, ground (arith, child))
  ]
