-- ===== src/Inotify/Events/Delivery.antt =====
-- What inotify_handle_event of src/inotify.c does with the event of a watched directory.
use inotispy.Prelude.{
  ◌≡◌, ◌≢◌, ◌⊎◌, subst, is_some, true, false, ◌&&◌, ◌||◌, some, [], ◌∷◌, ◌++◌, arith, inl, inr,
  ge_ℤ, length, Bool-cases, if◌then◌else◌,
}
use inotispy.Text.{Text, codes, slash, text_eq, first_is}
use inotispy.Text.Laws.{text_eq→eq, text_eq_iff}
use inotispy.Inotify.{
  InEvent, Root, Watch, Sys, State, has, is_root, spawn, in_isdir, in_create, in_moved_to,
  in_moved_from,
}
use inotispy.Inotify.Paths.{path_to_root}
use inotispy.Inotify.Queue.{make_event, enqueue}
use inotispy.Inotify.Watching.{entry_path, do_watch_tree, is_rsync_tmp}
use inotispy.Inotify.Events.{
  is_skipped, abs_path, event_target, watch_new_dir, handle_dir, queue_event, deliver,
  handle_in_event,
}
use inotispy.Inotify.Events.Dirs.{
  abs_path_slash, abs_path_other, entry_path_other, without_tree, moved_away, moved_from_slash,
  StartsOrDrops, starts_or_drops,
}

-- The path that an event is given for a new entry is the one that the recursive watch gives it,
-- unless the watched directory is "/": then it is "//", whatever the name of the entry.
pub abs_path_cases :
    (path name : Text)
    → (text_eq path (codes "/") ≡ false) × (abs_path path name ≡ entry_path path name)
      ⊎ (path ≡ codes "/") × (abs_path path name ≡ codes "//")
unfolding abs_path entry_path
abs_path_cases path name = elim (Bool-cases (text_eq path (codes "/"))) [
  | inl e ↦ inr (text_eq→eq path (codes "/") e, rw (e, text_eq→eq path (codes "/") e))
  | inr e ↦ inl (e, rw e)
]

module _ {S : Sys} (st : State S) (event : InEvent) where
  -- An event of a watched directory whose root is paused or marked to be destroyed changes
  -- nothing.
  pub handle_in_event_inactive :
      (w : Watch) (root : Root)
      → S.wd_hash.lookup st.wd_to_watch event.wd ≡ some w
      → path_to_root st w.path ≡ some root
      → (root.pause || root.destroy) ≡ true
      → handle_in_event st event ≡ st
  unfolding handle_in_event event_target
  handle_in_event_inactive w root found known inactive = ground (arith, found, known, inactive)

  -- An event that is not skipped, is about no directory and belongs to a root that stands under
  -- its own path changes the queue of that root at most: it is put at the end if the root's mask
  -- asks for it and the queue is below its limit. The other roots, the watch tables, the threads
  -- and the world stay as they are.
  pub handle_in_event_file :
      (path k : Text) (root : Root)
      → is_skipped event ≡ false
      → has event.mask in_isdir ≡ false
      → event_target st event ≡ some (path, root)
      → is_root st k ≡ some root
      → root.path ≡ k
      → ((q : Text)
          → is_root (handle_in_event st event) q ≡ (
              if text_eq k q
                && has event.mask root.mask
                && (if ge_ℤ (length root.queue) root.max_events then false else true)
              then some (record root { queue = root.queue ++ make_event event path ∷ [] })
              else is_root st q))
        × ((handle_in_event st event).path_to_watch ≡ st.path_to_watch)
        × ((handle_in_event st event).wd_to_watch ≡ st.wd_to_watch)
        × ((handle_in_event st event).tasks ≡ st.tasks)
        × ((handle_in_event st event).world ≡ st.world)
  unfolding handle_in_event deliver handle_dir queue_event enqueue is_root
  handle_in_event_file path k root kept file target known named = (
    λ q. ground (
      arith,
      kept,
      file,
      target,
      known,
      named,
      S.roots_hash.lookup-replace st.roots root.path
          (record root { queue = root.queue ++ make_event event path ∷ [] }) q,
    ),
    ground (arith, kept, file, target, known, named),
    ground (arith, kept, file, target, known, named),
    ground (arith, kept, file, target, known, named),
    ground (arith, kept, file, target, known, named),
  )

  -- An event that is not skipped and tells that a watched directory was moved away, and not that
  -- one appeared, in a directory of a root and with an absolute path: if that directory is not
  -- "/", the watches of the moved directory and of all paths below it end, and all other paths
  -- are watched as before. If it is "/", only the watches of "//" and below it end, and none if
  -- "//" is not watched; the moved directory stays watched.
  pub handle_in_event_moved :
      (path : Text) (root : Root) (w : Watch)
      → is_skipped event ≡ false
      → has event.mask in_isdir ≡ true
      → (has event.mask in_create || has event.mask in_moved_to) ≡ false
      → has event.mask in_moved_from ≡ true
      → event_target st event ≡ some (path, root)
      → S.path_hash.lookup st.path_to_watch (entry_path path event.name) ≡ some w
      → first_is slash path ≡ true
      → (q : Text)
      → (path ≢ codes "/")
          × (S.path_hash.lookup (handle_in_event st event).path_to_watch q
              ≡ without_tree st event (path ++ slash ∷ event.name) q)
        ⊎ (path ≡ codes "/")
          × (S.path_hash.lookup (handle_in_event st event).path_to_watch q ≡ (
              if is_some (S.path_hash.lookup st.path_to_watch (codes "//"))
              then without_tree st event (codes "//") q
              else S.path_hash.lookup st.path_to_watch q))
  unfolding entry_path abs_path
  handle_in_event_moved path root w kept dir old moved target known slashed q =
      elim (Bool-cases (text_eq path (codes "/"))) [
        | inl whole ↦
            let same = text_eq→eq path (codes "/") whole in
            inr (same, moved_from_slash st event path root kept dir old moved target same q)
        | inr other ↦ inl (
          λ e. ground (arith, other, e, text_eq_iff path (codes "/")),
          subst
              (λ abs.
                S.path_hash.lookup (handle_in_event st event).path_to_watch q
                ≡ without_tree st event abs q)
              (abs_path_other path event.name other)
              (moved_away st event path root w kept dir old moved target
                (subst (λ abs. S.path_hash.lookup st.path_to_watch abs ≡ some w)
                  (entry_path_other path event.name other) known)
                slashed q),
        )
      ]

  -- An event that is not skipped and tells of a new directory, created or moved in, in a
  -- directory of a root that is not being destroyed and not of rsync's temporary kind, changes no
  -- watch. If a thread can be created, one starts for the tree of the new directory, whose path
  -- is that of the directory, a slash and the name, and the event goes to the end of the root's
  -- queue if the mask asks for it and the queue is below its limit; else no thread starts and no
  -- root changes. But for a new directory in "/" the thread is given "//", whatever the name is.
  pub handle_in_event_new_dir :
      (path : Text) (root live : Root)
      → is_skipped event ≡ false
      → has event.mask in_isdir ≡ true
      → (has event.mask in_create || has event.mask in_moved_to) ≡ true
      → event_target st event ≡ some (path, root)
      → is_rsync_tmp path ≡ false
      → is_root st root.path ≡ some live
      → live.destroy ≡ false
      → live.path ≡ root.path
      → ((handle_in_event st event).path_to_watch ≡ st.path_to_watch)
        × ((handle_in_event st event).wd_to_watch ≡ st.wd_to_watch)
        × (((path ≢ codes "/")
              × StartsOrDrops st event (path ++ slash ∷ event.name) root.path live path)
            ⊎ ((path ≡ codes "/") × StartsOrDrops st event (codes "//") root.path live path))
  unfolding handle_in_event deliver handle_dir watch_new_dir queue_event enqueue do_watch_tree spawn
  handle_in_event_new_dir path root live kept dir new target no_tmp known alive named = (
    ground (arith, kept, dir, new, target, no_tmp, known, alive, named),
    ground (arith, kept, dir, new, target, no_tmp, known, alive, named),
    elim (Bool-cases (text_eq path (codes "/"))) [
      | inl whole ↦
          let same = text_eq→eq path (codes "/") whole in
          inr (
            same,
            subst (λ abs. StartsOrDrops st event abs root.path live path)
                (abs_path_slash path event.name same)
                (starts_or_drops st event path root live kept dir new target no_tmp known alive
                  named),
          )
      | inr other ↦ inl (
        λ e. ground (arith, other, e, text_eq_iff path (codes "/")),
        subst (λ abs. StartsOrDrops st event abs root.path live path)
            (abs_path_other path event.name other)
            (starts_or_drops st event path root live kept dir new target no_tmp known alive named),
      )
    ],
  )
