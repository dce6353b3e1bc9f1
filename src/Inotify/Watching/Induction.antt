-- ===== src/Inotify/Watching/Induction.antt =====
-- Induction over the recursive watch of src/inotify.c, by the visits of directories.
use inotispy.Prelude.{
  ℕ, zero, suc, ◌≡◌, Bool, Option, some, List, [], ◌∷◌, arith, Bool-cases, Option-cases, inl, inr,
  ◌⊎◌, subst,
}
use inotispy.Text.{Text}
use inotispy.Inotify.{Dirent, Sys, State, is_root}
use inotispy.Inotify.Watching.{
  watch_dir, entry_path, is_dot, is_subdir, is_gone, watch_entries, do_watch_tree_rec,
}

module _ {S : Sys} where
  -- What one round of the loop over a directory's entries did.
  pub watch_entries_cases :
      (recurse : State S → Text → Option (State S)) (path key : Text) (dir : Dirent)
      (dirs : List Dirent) (st t : State S)
      → watch_entries recurse path key (dir ∷ dirs) st ≡ some t
      → (watch_entries recurse path key dirs st ≡ some t)
        ⊎ ((st ≡ t)
            ⊎ ((s : State S) × (recurse st (entry_path path dir.d_name) ≡ some s)
                × (watch_entries recurse path key dirs s ≡ some t)))
  unfolding watch_entries
  watch_entries_cases recurse path key dir dirs st t e = elim (Bool-cases (is_dot dir.d_name)) [
    | inl dot ↦ inl (ground (arith, dot, e))
    | inr name ↦ elim (Bool-cases (is_subdir st (entry_path path dir.d_name) dir)) [
      | inr file ↦ inl (ground (arith, name, file, e))
      | inl sub ↦ elim (Bool-cases (is_gone (is_root st key))) [
        | inl gone ↦ inr (inl (ground (arith, name, sub, gone, e)))
        | inr here ↦ elim (Option-cases (recurse st (entry_path path dir.d_name))) [
          | inl stuck ↦ absurd (ground (arith, name, sub, here, stuck, e))
          | inr (s, step) ↦ inr (inr (s, step, ground (arith, name, sub, here, step, e)))
        ]
      ]
    ]
  ]

  -- What a call did: it stopped at the visit, or went on through the entries.
  pub do_watch_tree_rec_cases :
      (fuel : ℕ) (st t : State S) (path key : Text) (cleanup : Bool)
      → do_watch_tree_rec (suc fuel) st path key cleanup ≡ some t
      → ((watch_dir st path key cleanup).1 ≡ t)
        ⊎ ((dirs : List Dirent) × (watch_entries
                (λ s p. do_watch_tree_rec fuel s p key cleanup)
                path
                key
                dirs
                (watch_dir st path key cleanup).1
              ≡ some t))
  unfolding do_watch_tree_rec
  do_watch_tree_rec_cases fuel st t path key cleanup e =
      let st' = (watch_dir st path key cleanup).1 in
      elim (Option-cases (S.opendir st'.world path)) [
        | inl shut ↦ inl (ground (arith, shut, e))
        | inr (dirs, open_dir) ↦ elim (Bool-cases (watch_dir st path key cleanup).0) [
          | inl go ↦ inr (dirs, ground (arith, open_dir, go, e))
          | inr stop ↦ inl (ground (arith, open_dir, stop, e))
        ]
      ]

module _ {S : Sys} (P : State S → Type 0) (Q : Text → Type 0) (key : Text) (cleanup : Bool)
    (child : (p name : Text) → Q p → Q (entry_path p name))
    (visit : (s : State S) (p : Text) → Q p → P s → P (watch_dir s p key cleanup).1) where
  entries_induction :
      (recurse : State S → Text → Option (State S))
      → ((s t : State S) (p : Text) → Q p → P s → recurse s p ≡ some t → P t)
      → (path : Text) (dirs : List Dirent) (st t : State S) → Q path
      → P st
      → watch_entries recurse path key dirs st ≡ some t
      → P t
  unfolding watch_entries
  entries_induction recurse step path [] st t q h e = subst P (ground arith) h
  entries_induction recurse step path (dir ∷ dirs) st t q h e =
      elim (watch_entries_cases recurse path key dir dirs st t e) [
        | inl rest ↦ entries_induction recurse step path dirs st t q h rest
        | inr (inl same) ↦ subst P same h
        | inr (inr (s, call, rest)) ↦
            entries_induction recurse step path dirs s t q
              (step st s (entry_path path dir.d_name) (child path dir.d_name q) h call) rest
      ]

  -- A predicate that each visit keeps holds when the recursion returns.
  pub watch_induction :
      (fuel : ℕ) (st t : State S) (path : Text)
      → Q path
      → P st
      → do_watch_tree_rec fuel st path key cleanup ≡ some t
      → P t
  unfolding do_watch_tree_rec
  watch_induction zero st t path q h e = absurd (cc)
  watch_induction (suc fuel) st t path q h e =
      elim (do_watch_tree_rec_cases fuel st t path key cleanup e) [
        | inl same ↦ subst P same (visit st path q h)
        | inr (dirs, loop) ↦
            entries_induction (λ s p. do_watch_tree_rec fuel s p key cleanup)
              (λ s t' p q' h' e'. watch_induction fuel s t' p q' h' e') path dirs _ t q
              (visit st path q h) loop
      ]
