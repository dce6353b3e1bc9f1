-- ===== src/Inotify/Watching/Tree.antt =====
-- Which watches the recursion of _do_watch_tree_rec in src/inotify.c sets up.
use inotispy.Prelude.{
  ℕ, suc, ◌≡◌, refl, sym, subst, bit_or, ◌∙◌, ap, ◌⊎◌, Bool, true, some, [], ◌∷◌, ◌++◌, arith, inl,
  inr, Bool-cases, is_some, if◌then◌else◌,
}
use inotispy.Text.{Text, codes, slash, text_eq, starts_with, with_slash}
use inotispy.Text.Laws.{text_eq→eq, starts_with-append, starts_with_trans}
use inotispy.Inotify.{Sys, State, is_root, in_dont_follow}
use inotispy.Inotify.Watching.{
  root_mask, make_watch, watch_dir, entry_path, do_watch_tree_rec, watch_tree_thread, run_watch,
  start_cleanup, end_cleanup,
}
use inotispy.Inotify.Watching.Induction.{watch_induction}

-- The paths below a directory begin so.
abbrev pub tree_prefix : Text → Text
tree_prefix path = if text_eq path (codes "/") then codes "/" else with_slash path

-- The directory itself, and what lies below it.
abbrev pub InTree : Text → Text → Type 0
InTree path q = (q ≡ path) ⊎ (starts_with q (tree_prefix path) ≡ true)

entry_path_starts : (path name : Text) → starts_with (entry_path path name) path ≡ true
unfolding entry_path
entry_path_starts path name = elim (Bool-cases (text_eq path (codes "/"))) [
  | inl e ↦ rw (e, text_eq→eq path (codes "/") e) (starts_with-append (codes "/") name)
  | inr e ↦ rw e (starts_with-append path (slash ∷ name))
]

entry_path_in_dir :
    (path name : Text) → starts_with (entry_path path name) (tree_prefix path) ≡ true
unfolding entry_path
entry_path_in_dir path name = elim (Bool-cases (text_eq path (codes "/"))) [
  | inl e ↦ rw e (starts_with-append (codes "/") name)
  | inr e ↦ rw (e, append_slash path name) (starts_with-append (with_slash path) name)
]
  where
    append_slash : (p n : Text) → p ++ slash ∷ n ≡ with_slash p ++ n
    append_slash [] n = refl
    append_slash (c ∷ p) n = ap (◌∷◌ c) (append_slash p n)

pub entry_path-InTree : (path p name : Text) → InTree path p → InTree path (entry_path p name)
entry_path-InTree path p name (inl e) = inr (rw e (entry_path_in_dir path name))
entry_path-InTree path p name (inr h) =
    inr (starts_with_trans (entry_path p name) p (tree_prefix path) (entry_path_starts p name) h)

module _ {S : Sys} where
  -- A visit changes what is watched at its own path only.
  pub watch_dir_elsewhere :
      (st : State S) (path key : Text) (cleanup : Bool) (q : Text)
      → (q ≡ path)
        ⊎ (S.path_hash.lookup (watch_dir st path key cleanup).1.path_to_watch q
            ≡ S.path_hash.lookup st.path_to_watch q)
  unfolding watch_dir
  watch_dir_elsewhere st path key cleanup q =
      let wd =
        (S.inotify_add_watch st.world path
          (bit_or (root_mask (is_root st key)) in_dont_follow)).0 in
      elim (Bool-cases (text_eq path q)) [
        | inl same ↦ inl (sym (text_eq→eq path q same))
        | inr differ ↦ inr (
            ground (
              arith,
              differ,
              S.path_hash.lookup-replace st.path_to_watch path (make_watch wd path) q,
            ))
      ]

  -- A recursive watch that returns leaves all paths as they were watched, but for the directory
  -- it is called with and the paths below it.
  pub do_watch_tree_rec_local :
      (fuel : ℕ) (st t : State S) (path key : Text) (cleanup : Bool)
      → do_watch_tree_rec fuel st path key cleanup ≡ some t
      → (q : Text)
      → InTree path q
        ⊎ (S.path_hash.lookup t.path_to_watch q ≡ S.path_hash.lookup st.path_to_watch q)
  do_watch_tree_rec_local fuel st t path key cleanup e q =
      watch_induction
        (λ s.
          InTree path q
          ⊎ (S.path_hash.lookup s.path_to_watch q ≡ S.path_hash.lookup st.path_to_watch q))
        (InTree path) key cleanup (entry_path-InTree path) visit fuel st t path (inl refl)
        (inr refl) e
    where
      visit :
          (s : State S) (p : Text)
          → InTree path p
          → InTree path q
            ⊎ (S.path_hash.lookup s.path_to_watch q ≡ S.path_hash.lookup st.path_to_watch q)
          → InTree path q
            ⊎ (S.path_hash.lookup (watch_dir s p key cleanup).1.path_to_watch q
                ≡ S.path_hash.lookup st.path_to_watch q)
      visit s p inside (inl h) = inl h
      visit s p inside (inr h) = elim (watch_dir_elsewhere s p key cleanup q) [
        | inl same ↦ inl (subst (InTree path) (sym same) inside)
        | inr kept ↦ inr (kept ∙ h)
      ]

  -- A rewatch stops at a directory that is watched already.
  rewatch_stops :
      (fuel : ℕ) (st : State S) (path key : Text)
      → is_some (S.path_hash.lookup st.path_to_watch path) ≡ true
      → do_watch_tree_rec (suc fuel) st path key true ≡ some st
  unfolding do_watch_tree_rec watch_dir
  rewatch_stops fuel st path key found = ground (arith, found)

  -- The rewatch of a root whose own directory is watched, when it returns, has changed neither
  -- watch table and made no system call that changes the world, so that no directory that lost
  -- its watch is watched again.
  pub rewatch_repairs_nothing :
      (fuel : ℕ) (st t : State S) (path : Text)
      → is_some (S.path_hash.lookup st.path_to_watch path) ≡ true
      → watch_tree_thread (suc fuel) st path path true ≡ some t
      → (t.path_to_watch ≡ st.path_to_watch)
        × (t.wd_to_watch ≡ st.wd_to_watch)
        × (t.world ≡ st.world)
  unfolding watch_tree_thread run_watch start_cleanup end_cleanup
  rewatch_repairs_nothing fuel st t path found e =
      ground (arith, e, found, rewatch_stops fuel (start_cleanup true st) path path found)
