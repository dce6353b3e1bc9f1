-- ===== src/Inotify/Keeps.antt =====
-- The watching operations of src/inotify.c, and the agreement of the two watch tables.
pub mod Removal
pub mod Steps
use inotispy.Prelude.{
  ℕ, zero, suc, ◌≡◌, refl, sym, ◌∙◌, ap, ◌≢◌, Bool, true, false, Option, none, some, List, [], ◌∷◌,
  ◌++◌, ◌+◌, bit_or, arith, inl, inr, ℤ, int_eq, is_some, Bool-cases, Option-cases, if◌then◌else◌,
}
use inotispy.Text.{Text, slash, first_is, text_eq, codes, with_slash}
use inotispy.Text.Laws.{text_eq_iff, text_eq→eq}
use inotispy.Inotify.{
  Watch, Root, Task, Dirent, InEvent, Sys, State, spawn, is_root, in_dont_follow, set_root,
  modify_root,
}
use inotispy.Inotify.Agree.{Agree, HasAgree, Agree-add, Agree-remove}
use inotispy.Inotify.Watching.{
  watch_dir, add_watch, open_and_watch, root_mask, entry_path, watch_entries, do_watch_tree_rec,
  do_watch_tree, run_watch, start_cleanup, watch_tree_thread,
}
use inotispy.Inotify.Watching.Induction.{watch_induction}

pub entry_path_absolute :
    (path name : Text) → first_is slash path ≡ true → first_is slash (entry_path path name) ≡ true
unfolding entry_path
entry_path_absolute [] name h = absurd (cc)
entry_path_absolute (c ∷ path) name h = elim (Bool-cases (text_eq (c ∷ path) (codes "/"))) [
  | inl e ↦ rw e
  | inr e ↦ rw e h
]

module _ {S : Sys} where
  pub spawn-HasAgree : (st : State S) (t : Task) → HasAgree st → HasAgree (spawn st t).1
  unfolding spawn
  spawn-HasAgree st t h = ground arith

  pub do_watch_tree-HasAgree :
      (st : State S) (path key : Text) (cleanup : Bool)
      → HasAgree st
      → HasAgree (do_watch_tree st path key cleanup).1
  unfolding do_watch_tree
  do_watch_tree-HasAgree st path key cleanup h = ground arith

  pub add_watch-HasAgree :
      (st : State S) (path : Text) (mask : ℕ)
      → first_is slash path ≡ true
      → HasAgree st
      → HasAgree (add_watch st path mask).1
  unfolding add_watch
  add_watch-HasAgree st path mask abs h = ground (
    arith,
    Agree-add st.wd_to_watch st.path_to_watch h (record {
      wd = (S.inotify_add_watch st.world path (bit_or mask in_dont_follow)).0;
      path = path;
    }),
  )

  pub watch_dir-HasAgree :
      (st : State S) (path key : Text) (cleanup : Bool)
      → first_is slash path ≡ true
      → HasAgree st
      → HasAgree (watch_dir st path key cleanup).1
  unfolding watch_dir open_and_watch
  watch_dir-HasAgree st path key cleanup abs h = ground (
    arith,
    add_watch-HasAgree st path (root_mask (is_root st key)) abs h,
    add_watch-HasAgree (record st { num_root_rewatch = st.num_root_rewatch + 1 }) path
        (root_mask (is_root st key)) abs h,
  )

  -- Neither a rewatch nor a first watch of a tree leaves the tables in disagreement.
  pub do_watch_tree_rec-HasAgree :
      (fuel : ℕ) (st t : State S) (path key : Text) (cleanup : Bool)
      → first_is slash path ≡ true
      → HasAgree st
      → do_watch_tree_rec fuel st path key cleanup ≡ some t
      → HasAgree t
  do_watch_tree_rec-HasAgree fuel st t path key cleanup abs h e =
      watch_induction HasAgree (λ p. first_is slash p ≡ true) key cleanup entry_path_absolute
        (λ s p q g. watch_dir-HasAgree s p key cleanup q g) fuel st t path abs h e

  run_watch-HasAgree :
      (fuel : ℕ) (st t : State S) (path key : Text) (cleanup : Bool)
      → first_is slash path ≡ true
      → HasAgree st
      → run_watch fuel st path key cleanup ≡ some t
      → HasAgree t
  unfolding run_watch
  run_watch-HasAgree fuel st t path key cleanup abs h e =
      elim (Option-cases (do_watch_tree_rec fuel (start_cleanup cleanup st) path key cleanup)) [
        | inl stuck ↦ absurd (ground (arith, stuck, e))
        | inr (s, done) ↦ ground (
          arith,
          done,
          e,
          do_watch_tree_rec-HasAgree fuel (start_cleanup cleanup st) s path key cleanup abs
              (ground arith) done,
        )
      ]

  pub watch_tree_thread-HasAgree :
      (fuel : ℕ) (st t : State S) (path key : Text) (cleanup : Bool)
      → first_is slash path ≡ true
      → HasAgree st
      → watch_tree_thread fuel st path key cleanup ≡ some t
      → HasAgree t
  unfolding watch_tree_thread
  watch_tree_thread-HasAgree fuel st t path key cleanup abs h e =
      ground (arith, run_watch-HasAgree fuel st t path key cleanup abs h)
