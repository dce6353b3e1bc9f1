-- ===== src/Inotify/Registry/Frame.antt =====
-- The operations of src/inotify.c that come and go without the table of roots.
use inotispy.Prelude.{
  ℕ, ◌≡◌, refl, ◌∙◌, Bool, true, false, some, List, [], ◌∷◌, arith, inl, inr, Option-cases,
}
use inotispy.Text.{Text, with_slash}
use inotispy.Inotify.{InEvent, Task, Sys, State, spawn}
use inotispy.Inotify.Dump.{dump_roots}
use inotispy.Inotify.Watching.{
  watch_dir, do_watch_tree, do_watch_tree_rec, start_cleanup, watch_tree_thread,
}
use inotispy.Inotify.Watching.Induction.{watch_induction}
use inotispy.Inotify.Destroy.{unwatch_path, unwatch_matching, unwatch_under, forget_root_watch}
use inotispy.Inotify.Memclean.{clean_key, clean_paths, memclean_thread}
use inotispy.Inotify.Events.{forget_dir, forget_subdirs, unwatch_old_dir, handle_dir}

module _ {S : Sys} where
  pub roots-spawn : (st : State S) (t : Task) → (spawn st t).1.roots ≡ st.roots
  unfolding spawn
  roots-spawn st t = ground arith

  pub roots-do_watch_tree :
      (st : State S) (path key : Text) (cleanup : Bool)
      → (do_watch_tree st path key cleanup).1.roots ≡ st.roots
  unfolding do_watch_tree
  roots-do_watch_tree st path key cleanup = ground arith

  pub roots-watch_dir :
      (st : State S) (path key : Text) (cleanup : Bool)
      → (watch_dir st path key cleanup).1.roots ≡ st.roots
  unfolding watch_dir
  roots-watch_dir st path key cleanup = ground arith

  pub roots-do_watch_tree_rec :
      (fuel : ℕ) (st t : State S) (path key : Text) (cleanup : Bool)
      → do_watch_tree_rec fuel st path key cleanup ≡ some t
      → t.roots ≡ st.roots
  roots-do_watch_tree_rec fuel st t path key cleanup e =
      watch_induction (λ s. s.roots ≡ st.roots) (λ p. Unit {0}) key cleanup (λ p name q. tt)
        (λ s p q g. roots-watch_dir s p key cleanup ∙ g) fuel st t path tt refl e

  pub roots-watch_tree_thread :
      (fuel : ℕ) (st t : State S) (path key : Text) (cleanup : Bool)
      → watch_tree_thread fuel st path key cleanup ≡ some t
      → t.roots ≡ st.roots
  unfolding watch_tree_thread
  roots-watch_tree_thread fuel st t path key cleanup e =
      elim (Option-cases (do_watch_tree_rec fuel (start_cleanup cleanup st) path key cleanup)) [
        | inl stuck ↦ ground (arith, stuck, e)
        | inr (s, done) ↦ ground (
          arith,
          done,
          e,
          roots-do_watch_tree_rec fuel (start_cleanup cleanup st) s path key cleanup done,
        )
      ]

  pub roots-unwatch_path : (st : State S) (path : Text) → (unwatch_path st path).roots ≡ st.roots
  unfolding unwatch_path
  roots-unwatch_path st path = ground arith

  pub roots-unwatch_under :
      (tmp : Text) (paths : List Text) (st : State S)
      → (unwatch_under tmp paths st).roots ≡ st.roots
  unfolding unwatch_under
  roots-unwatch_under tmp [] st = refl
  roots-unwatch_under tmp (path ∷ paths) st =
      roots-unwatch_under tmp paths (unwatch_matching tmp st path)
      ∙ unfold unwatch_matching in ground (arith, roots-unwatch_path st path)

  pub roots-forget_root_watch :
      (st : State S) (path : Text) → (forget_root_watch st path).roots ≡ st.roots
  unfolding forget_root_watch
  roots-forget_root_watch st path = ground arith

  pub roots-dump_roots : (st : State S) → (dump_roots st).roots ≡ st.roots
  unfolding dump_roots
  roots-dump_roots st = ground arith

  roots-clean_key : (st : State S) (path : Text) → (clean_key st path).roots ≡ st.roots
  unfolding clean_key
  roots-clean_key st path = ground arith

  roots-clean_paths : (paths : List Text) (st : State S) → (clean_paths paths st).roots ≡ st.roots
  unfolding clean_paths
  roots-clean_paths [] st = refl
  roots-clean_paths (path ∷ paths) st =
      roots-clean_paths paths (clean_key st path) ∙ roots-clean_key st path

  pub roots-memclean_thread : (st : State S) → (memclean_thread st).roots ≡ st.roots
  unfolding memclean_thread
  roots-memclean_thread st =
      roots-clean_paths (S.path_hash.keys st.path_to_watch) (record st { in_memclean = true })

  roots-forget_subdirs : (st : State S) (abs : Text) → (forget_subdirs st abs).roots ≡ st.roots
  unfolding forget_subdirs
  roots-forget_subdirs st abs =
      roots-unwatch_under (with_slash abs) (S.path_hash.keys st.path_to_watch) st

  roots-unwatch_old_dir :
      (st : State S) (event : InEvent) (abs : Text)
      → (unwatch_old_dir st event abs).1.roots ≡ st.roots
  unfolding unwatch_old_dir
  roots-unwatch_old_dir st event abs =
      elim (Option-cases (S.path_hash.lookup st.path_to_watch abs)) [
        | inl missing ↦ ground (arith, missing)
        | inr (w, found) ↦ ground (arith, found, roots-forget_subdirs (forget_dir st abs w) abs)
      ]

  pub roots-handle_dir :
      (st : State S) (event : InEvent) (path abs key : Text)
      → (handle_dir st event path abs key).1.roots ≡ st.roots
  unfolding handle_dir
  roots-handle_dir st event path abs key =
      ground (arith, roots-unwatch_old_dir st event abs, roots-do_watch_tree st abs key false)
