-- ===== src/Inotify/Pending/Frame.antt =====
-- What neither creates a thread nor changes the roots: the watches of src/inotify.c come and go
-- without it.
use inotispy.Prelude.{
  ℕ, ◌≡◌, refl, ◌∙◌, Bool, true, false, some, List, [], ◌∷◌, arith, inl, inr, Option-cases,
  if◌then◌else◌,
}
use inotispy.Text.{Text, with_slash}
use inotispy.Inotify.{InEvent, Sys, State, Watch, has, in_moved_from}
use inotispy.Inotify.Dump.{dump_roots}
use inotispy.Inotify.Watching.{
  watch_dir, do_watch_tree_rec, start_cleanup, end_cleanup, run_watch, watch_tree_thread,
}
use inotispy.Inotify.Watching.Induction.{watch_induction}
use inotispy.Inotify.Destroy.{unwatch_matching, unwatch_under, forget_root_watch}
use inotispy.Inotify.Memclean.{clean_key, clean_paths, memclean_thread}
use inotispy.Inotify.Events.{forget_dir, forget_subdirs, unwatch_old_dir}

-- Roots, threads and count are the same.
abbrev pub Quiet : {S : Sys} → State S → State S → Type 0
Quiet st t =
    (t.roots ≡ st.roots) × (t.tasks ≡ st.tasks) × (t.num_watched_roots ≡ st.num_watched_roots)

module _ {S : Sys} where
  pub Quiet-trans : (a b c : State S) → Quiet a b → Quiet b c → Quiet a c
  Quiet-trans a b c (r, t, n) (r', t', n') = (r' ∙ r, t' ∙ t, n' ∙ n)

  watch_dir-Quiet :
      (st : State S) (path key : Text) (cleanup : Bool) → Quiet st (watch_dir st path key cleanup).1
  unfolding watch_dir
  watch_dir-Quiet st path key cleanup = (ground arith, ground arith, ground arith)

  do_watch_tree_rec-Quiet :
      (fuel : ℕ) (st t : State S) (path key : Text) (cleanup : Bool)
      → do_watch_tree_rec fuel st path key cleanup ≡ some t
      → Quiet st t
  do_watch_tree_rec-Quiet fuel st t path key cleanup e =
      watch_induction (λ s. Quiet st s) (λ p. Unit {0}) key cleanup (λ p name q. tt)
        (λ s p q g.
          Quiet-trans st s (watch_dir s p key cleanup).1 g (watch_dir-Quiet s p key cleanup))
        fuel st t path tt (refl, refl, refl) e

  pub watch_tree_thread-Quiet :
      (fuel : ℕ) (st t : State S) (path key : Text) (cleanup : Bool)
      → watch_tree_thread fuel st path key cleanup ≡ some t
      → Quiet st t
  unfolding watch_tree_thread run_watch start_cleanup end_cleanup
  watch_tree_thread-Quiet fuel st t path key cleanup e =
      elim (Option-cases (do_watch_tree_rec fuel (start_cleanup cleanup st) path key cleanup)) [
        | inl stuck ↦ ground (arith, stuck, e)
        | inr (s, done) ↦
            let (r, q, n) =
              do_watch_tree_rec-Quiet fuel (start_cleanup cleanup st) s path key cleanup done in
            (ground (arith, done, e, r), ground (arith, done, e, q), ground (arith, done, e, n))
      ]

  unwatch_matching-Quiet :
      (tmp : Text) (st : State S) (path : Text) → Quiet st (unwatch_matching tmp st path)
  unfolding unwatch_matching
  unwatch_matching-Quiet tmp st path = (ground arith, ground arith, ground arith)

  pub unwatch_under-Quiet :
      (tmp : Text) (paths : List Text) (st : State S) → Quiet st (unwatch_under tmp paths st)
  unfolding unwatch_under
  unwatch_under-Quiet tmp [] st = (refl, refl, refl)
  unwatch_under-Quiet tmp (path ∷ paths) st =
      Quiet-trans st (unwatch_matching tmp st path)
        (unwatch_under tmp paths (unwatch_matching tmp st path))
        (unwatch_matching-Quiet tmp st path)
        (unwatch_under-Quiet tmp paths (unwatch_matching tmp st path))

  pub forget_root_watch-Quiet : (st : State S) (path : Text) → Quiet st (forget_root_watch st path)
  unfolding forget_root_watch
  forget_root_watch-Quiet st path = (ground arith, ground arith, ground arith)

  pub dump_roots-Quiet : (st : State S) → Quiet st (dump_roots st)
  unfolding dump_roots
  dump_roots-Quiet st = (ground arith, ground arith, ground arith)

  clean_key-Quiet : (st : State S) (path : Text) → Quiet st (clean_key st path)
  unfolding clean_key
  clean_key-Quiet st path = (ground arith, ground arith, ground arith)

  clean_paths-Quiet : (paths : List Text) (st : State S) → Quiet st (clean_paths paths st)
  unfolding clean_paths
  clean_paths-Quiet [] st = (refl, refl, refl)
  clean_paths-Quiet (path ∷ paths) st =
      Quiet-trans st (clean_key st path) (clean_paths paths (clean_key st path))
        (clean_key-Quiet st path) (clean_paths-Quiet paths (clean_key st path))

  pub memclean_thread-Quiet : (st : State S) → Quiet st (memclean_thread st)
  unfolding memclean_thread
  memclean_thread-Quiet st =
      clean_paths-Quiet (S.path_hash.keys st.path_to_watch) (record st { in_memclean = true })

  forget_dir-Quiet : (st : State S) (abs : Text) (w : Watch) → Quiet st (forget_dir st abs w)
  unfolding forget_dir
  forget_dir-Quiet st abs w = (ground arith, ground arith, ground arith)

  after_move-Quiet :
      (moved : Bool) (st : State S) (abs : Text)
      → Quiet st (if moved then forget_subdirs st abs else st)
  unfolding forget_subdirs
  after_move-Quiet false st abs = (refl, refl, refl)
  after_move-Quiet true st abs =
      unwatch_under-Quiet (with_slash abs) (S.path_hash.keys st.path_to_watch) st

  pub unwatch_old_dir-Quiet :
      (st : State S) (event : InEvent) (abs : Text) → Quiet st (unwatch_old_dir st event abs).1
  unfolding unwatch_old_dir
  unwatch_old_dir-Quiet st event abs =
      elim (Option-cases (S.path_hash.lookup st.path_to_watch abs)) [
        | inl missing ↦ rw (missing, unwatch_old_dir) (refl, refl, refl)
        | inr (w, found) ↦
            rw (found, unwatch_old_dir)
              (Quiet-trans st (forget_dir st abs w)
                (if has event.mask in_moved_from
                  then forget_subdirs (forget_dir st abs w) abs
                  else forget_dir st abs w)
                (forget_dir-Quiet st abs w)
                (after_move-Quiet (has event.mask in_moved_from) (forget_dir st abs w) abs))
      ]
