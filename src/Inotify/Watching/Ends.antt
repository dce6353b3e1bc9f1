-- ===== src/Inotify/Watching/Ends.antt =====
-- How the recursion of _do_watch_tree_rec in src/inotify.c ends: by the limit of the length of a path.
use inotispy.Prelude.{
  ℕ, zero, suc, ◌-◌, ◌<◌, ◌≡◌, refl, ap, Bool, true, Option, some, List, [], ◌∷◌, arith, inl, inr,
  length, length-append, Bool-cases, Option-cases, is_some,
}
use inotispy.Text.{Text, codes, slash, text_eq}
use inotispy.Text.Laws.{text_eq→eq}
use inotispy.Inotify.{Dirent, Sys, State}
use inotispy.Inotify.Watching.{watch_dir, entry_path, watch_entries, do_watch_tree_rec}

-- No entry has the empty name.
abbrev pub AllNamed : List Dirent → Type 0
AllNamed [] = Unit {0}
AllNamed (dir ∷ dirs) = (0 < length dir.d_name) × AllNamed dirs

entry_path_longer :
    (path name : Text) → 0 < length name → length path < length (entry_path path name)
unfolding entry_path
entry_path_longer path name h = elim (Bool-cases (text_eq path (codes "/"))) [
  | inl e ↦ rw (e, text_eq→eq path (codes "/") e) (omega arith)
  | inr e ↦ rw e (omega (arith, length-append path (slash ∷ name)))
]

-- What the recursion relies on: open(2) refuses a path that reaches `path_max` characters, and
-- readdir(3) reports no empty name.
pub record HasLimits (S : Sys) (path_max : ℕ) : Type 0 where
  pub short :
      (w : S.World) (p : Text) (dirs : List Dirent)
      → S.opendir w p ≡ some dirs
      → length p < path_max
  pub all_named :
      (w : S.World) (p : Text) (dirs : List Dirent) → S.opendir w p ≡ some dirs → AllNamed dirs

module _ {S : Sys} (path_max : ℕ) (limits : HasLimits S path_max) (key : Text)
    (cleanup : Bool) where
  entries_total :
      (recurse : State S → Text → Option (State S)) (path : Text)
      → ((s : State S) (p : Text) → length path < length p → is_some (recurse s p) ≡ true)
      → (dirs : List Dirent) (st : State S) → AllNamed dirs
      → is_some (watch_entries recurse path key dirs st) ≡ true
  unfolding watch_entries
  entries_total recurse path step [] st n = refl
  entries_total recurse path step (dir ∷ dirs) st n =
      let child = entry_path path dir.d_name in
      elim (Option-cases (recurse st child)) [
        | inl stuck ↦ ground (
          arith,
          stuck,
          step st child (entry_path_longer path dir.d_name n.0),
          entries_total recurse path step dirs st n.1,
        )
        | inr (s, done) ↦ ground (
          arith,
          done,
          entries_total recurse path step dirs st n.1,
          entries_total recurse path step dirs s n.1,
        )
      ]

  rec_total :
      (fuel : ℕ) (st : State S) (path : Text)
      → path_max - length path < fuel
      → is_some (do_watch_tree_rec fuel st path key cleanup) ≡ true
  unfolding do_watch_tree_rec
  rec_total zero st path h = absurd (omega arith)
  rec_total (suc fuel) st path h =
      let recurse = λ (s : State S) (p : Text). do_watch_tree_rec fuel s p key cleanup in
      let st' = (watch_dir st path key cleanup).1 in
      elim (Option-cases (S.opendir st'.world path)) [
        | inl shut ↦ ground (arith, shut)
        | inr (dirs, open_dir) ↦
            let fits = limits.short st'.world path dirs open_dir in
            ground (
              arith,
              open_dir,
              entries_total recurse path (λ s p longer. rec_total fuel s p (omega arith)) dirs st'
                  (limits.all_named st'.world path dirs open_dir),
            )
      ]

  -- On a system that opens no path of `path_max` characters or more and lists no empty name, the
  -- recursive watch of a tree returns, with any fuel above `path_max` less the length of the
  -- path.
  pub do_watch_tree_rec_total :
      (fuel : ℕ) (st : State S) (path : Text)
      → path_max - length path < fuel
      → (t : State S) × (do_watch_tree_rec fuel st path key cleanup ≡ some t)
  do_watch_tree_rec_total fuel st path h =
      elim (Option-cases (do_watch_tree_rec fuel st path key cleanup)) [
        | inl stuck ↦ absurd (cc (rec_total fuel st path h, ap is_some stuck))
        | inr found ↦ found
      ]
