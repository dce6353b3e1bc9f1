-- ===== src/Inotify/Pending/Requests.antt =====
-- The requests to watch and to unwatch in src/inotify.c, and the invariant of its threads.
use inotispy.Prelude.{
  ◌≡◌, refl, Bool, true, false, none, some, arith, inl, inr, ℤ, Bool-cases, Option-cases, to_u32,
}
use inotispy.Text.{Text, slash, first_is}
use inotispy.Text.Laws.{text_eq_refl}
use inotispy.Inotify.{Root, Sys, State, is_root, spawn, set_root}
use inotispy.Inotify.Dump.{dump_roots}
use inotispy.Inotify.Registry.{HasRegistry}
use inotispy.Inotify.Paths.{path_to_root, is_parent, belongs_to}
use inotispy.Inotify.Paths.Laws.{path_to_root-none}
use inotispy.Inotify.Watching.{make_root}
use inotispy.Inotify.Destroy.{destroy_root, unwatch_root}
use inotispy.Inotify.Roots.{add_root, watch_root}
use inotispy.Inotify.Pending.{HasPending, destroyers, Pending-set, Pending-add, Pending-destroy}
use inotispy.Inotify.Pending.Frame.{dump_roots-Quiet}
use inotispy.Inotify.Pending.Steps.{at_own_path, HasPending-of_Quiet, do_watch_tree-HasPending}

module _ {S : Sys} where
  add_root-HasPending :
      (st : State S) (path : Text) (mask max_events : ℤ) (rewatch : Bool)
      → path_to_root st path ≡ none
      → HasPending st
      → HasPending (add_root st path mask max_events rewatch)
  unfolding add_root belongs_to is_root
  add_root-HasPending st path mask max_events rewatch no_root h =
      Pending-add st.roots st.tasks st.num_watched_roots h path
        (make_root path (to_u32 mask) max_events rewatch) fresh
    where
      fresh : S.roots_hash.lookup st.roots path ≡ none
      fresh = elim (Option-cases (S.roots_hash.lookup st.roots path)) [
        | inl missing ↦ missing
        | inr (r, found) ↦
            absurd
              (ground (arith, path_to_root-none st path path r no_root found, text_eq_refl path))
      ]

  pub watch_root-HasPending :
      (st : State S) (path : Text) (mask max_events : ℤ) (rewatch : Bool)
      → first_is slash path ≡ true
      → HasPending st
      → HasPending (watch_root st path mask max_events rewatch).1
  unfolding watch_root
  watch_root-HasPending st path mask max_events rewatch slashed h =
      elim (Option-cases (path_to_root st path)) [
        | inr (root, child) ↦ ground (arith, child, h)
        | inl no_root ↦ elim (Option-cases (is_parent st path)) [
          | inr (sub, parent) ↦ ground (arith, no_root, parent, h)
          | inl no_child ↦
              let added = add_root st path mask max_events rewatch in
              let d =
                HasPending-of_Quiet added (dump_roots added) (dump_roots-Quiet added)
                  (add_root-HasPending st path mask max_events rewatch no_root h) in
              ground (
                arith,
                no_root,
                no_child,
                h,
                do_watch_tree-HasPending (dump_roots added) path path false slashed d,
              )
        ]
      ]

  -- A root that is not marked has no destroyer yet.
  destroy_root-HasPending :
      (st : State S) (root : Root)
      → is_root st root.path ≡ some root
      → root.destroy ≡ false
      → HasPending st
      → HasPending (destroy_root st root).1
  unfolding destroy_root set_root spawn is_root
  destroy_root-HasPending st root found unmarked h =
      let marked = record root { destroy = true } in
      let table = S.roots_hash.replace st.roots root.path marked in
      let h' =
        Pending-set st.roots st.tasks st.num_watched_roots h root.path root marked found
          (λ d. refl) in
      let there = S.roots_hash.lookup-replace st.roots root.path marked root.path in
      let nobody : destroyers root.path st.tasks ≡ 0 = elim (h.doomed root.path) [
        | inl nobody ↦ nobody
        | inr (one, (r, here, doomed)) ↦ absurd (ground (arith, here, found, doomed, unmarked))
      ] in
      ground (
        arith,
        h',
        Pending-destroy table st.tasks st.num_watched_roots h' root.path marked
            (ground (arith, there, text_eq_refl root.path)) refl nobody,
      )

  pub unwatch_root-HasPending :
      (st : State S) (path : Text)
      → HasRegistry st
      → HasPending st
      → HasPending (unwatch_root st path).1
  unfolding unwatch_root
  unwatch_root-HasPending st path g h = elim (Option-cases (is_root st path)) [
    | inl missing ↦ ground (arith, missing, h)
    | inr (root, found) ↦ elim (Bool-cases root.destroy) [
      | inl marked ↦ ground (arith, found, marked, h)
      | inr unmarked ↦ ground (
        arith,
        found,
        unmarked,
        destroy_root-HasPending st root (at_own_path st path root g found) unmarked h,
      )
    ]
  ]
