-- ===== src/Inotify/Memclean/Cleans.antt =====
-- What the memory cleanup of src/inotify.c leaves in the tables.
use inotispy.Prelude.{
  ◌≡◌, ◌∙◌, true, not, ◌&&◌, Option, none, List, [], ◌∷◌, arith, inl, inr, ℤ, Option-cases,
  if◌then◌else◌,
}
use inotispy.Text.{Text, slash, first_is, text_eq}
use inotispy.Text.Laws.{text_eq_iff}
use inotispy.Glib.{member}
use inotispy.Inotify.{Watch, Sys, State}
use inotispy.Inotify.Memclean.{is_a_dir, clean_key, clean_paths, memclean_thread}

-- Removing a watch is no change on disk: stat(2) answers as before.
pub record RmWatchKeepsDisk (S : Sys) : Type 0 where
  pub same_stat :
      (w : S.World) (wd : ℤ) (p : Text) → S.stat (S.inotify_rm_watch w wd).1 p ≡ S.stat w p

module _ {S : Sys} (disk : RmWatchKeepsDisk S) where
  abbrev watched : State S → Text → Option Watch
  watched st q = S.path_hash.lookup st.path_to_watch q

  is_a_dir-clean_key : (st : State S) (p q : Text) → is_a_dir (clean_key st p) q ≡ is_a_dir st q
  unfolding clean_key
  is_a_dir-clean_key st p q = elim (Option-cases (S.path_hash.lookup st.path_to_watch p)) [
    | inl missing ↦ ground (arith, missing)
    | inr (w, found) ↦ ground (arith, found, disk.same_stat st.world w.wd q)
  ]

  watched-clean_key :
      (st : State S) (p q : Text)
      → watched (clean_key st p) q
        ≡ (if text_eq p q && first_is slash q && not (is_a_dir st q) then none else watched st q)
  unfolding clean_key
  watched-clean_key st p q =
      ground (arith, S.path_hash.lookup-remove st.path_to_watch p q, text_eq_iff p q)

  watched-clean_paths :
      (paths : List Text) (st : State S) (q : Text)
      → watched (clean_paths paths st) q ≡ (
          if member text_eq q paths && first_is slash q && not (is_a_dir st q)
          then none
          else watched st q)
  unfolding clean_paths
  watched-clean_paths [] st q = ground arith
  watched-clean_paths (p ∷ paths) st q =
      watched-clean_paths paths (clean_key st p) q
      ∙ ground (arith, watched-clean_key st p q, is_a_dir-clean_key st p q, text_eq_iff p q)

  -- On a system where the removal of a watch does not change what stat(2) reports, a path is
  -- watched after the memory cleanup as before if it is a directory on disk or not absolute, and
  -- otherwise not at all.
  pub watched-memclean_thread :
      (st : State S) (q : Text)
      → S.path_hash.lookup (memclean_thread st).path_to_watch q ≡ (
          if first_is slash q && not (is_a_dir st q)
          then none
          else S.path_hash.lookup st.path_to_watch q)
  unfolding memclean_thread is_a_dir
  watched-memclean_thread st q =
      watched-clean_paths (S.path_hash.keys st.path_to_watch) (record st { in_memclean = true }) q
      ∙ ground (arith, S.path_hash.member-keys st.path_to_watch q)
