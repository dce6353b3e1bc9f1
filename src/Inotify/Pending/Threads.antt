-- ===== src/Inotify/Pending/Threads.antt =====
-- What a thread of src/inotify.c finds when it runs, and what it leaves of the invariant of the
-- threads.
use inotispy.Prelude.{
  ◌+◌, ◌≡◌, Bool, true, some, List, [], ◌∷◌, ◌++◌, arith, inl, inr, ℤ, Bool-cases, ◌==◌,
}
use inotispy.Text.{Text, slash, first_is, with_slash}
use inotispy.Text.Laws.{text_eq_refl}
use inotispy.Inotify.{
  Root, Task, watch_tree_task, destroy_root_task, memclean_task, Sys, State, is_root,
}
use inotispy.Inotify.Dump.{dump_roots}
use inotispy.Inotify.Destroy.{
  clear_queue, unwatch_under, forget_root_watch, drop_root, destroy_root_thread,
}
use inotispy.Inotify.Pending.{
  Pending, HasPending, AllAbsolute, destroyers, Pending-set, Pending-remove,
}
use inotispy.Inotify.Pending.Frame.{
  Quiet-trans, unwatch_under-Quiet, forget_root_watch-Quiet, dump_roots-Quiet,
}
use inotispy.Inotify.Pending.Steps.{HasPending-of_Quiet}

AllAbsolute-tail : (t : Task) (tasks : List Task) → AllAbsolute (t ∷ tasks) → AllAbsolute tasks
AllAbsolute-tail (watch_tree_task p key cleanup) tasks h = h.1
AllAbsolute-tail (destroy_root_task p) tasks h = h
AllAbsolute-tail memclean_task tasks h = h

AllAbsolute-without :
    (before : List Task) (t : Task) (after : List Task)
    → AllAbsolute (before ++ t ∷ after)
    → AllAbsolute (before ++ after)
AllAbsolute-without [] t after h = AllAbsolute-tail t after h
AllAbsolute-without (watch_tree_task p key cleanup ∷ before) t after h =
    (h.0, AllAbsolute-without before t after h.1)
AllAbsolute-without (destroy_root_task p ∷ before) t after h = AllAbsolute-without before t after h
AllAbsolute-without (memclean_task ∷ before) t after h = AllAbsolute-without before t after h

AllAbsolute-member :
    (before : List Task) (p key : Text) (cleanup : Bool) (after : List Task)
    → AllAbsolute (before ++ watch_tree_task p key cleanup ∷ after)
    → first_is slash p ≡ true
AllAbsolute-member [] p key cleanup after h = h.0
AllAbsolute-member (watch_tree_task q k c ∷ before) p key cleanup after h =
    AllAbsolute-member before p key cleanup after h.1
AllAbsolute-member (destroy_root_task q ∷ before) p key cleanup after h =
    AllAbsolute-member before p key cleanup after h
AllAbsolute-member (memclean_task ∷ before) p key cleanup after h =
    AllAbsolute-member before p key cleanup after h

destroyers-insert :
    (k : Text) (before : List Task) (t : Task) (after : List Task)
    → destroyers k (before ++ t ∷ after) ≡ destroyers k (t ∷ []) + destroyers k (before ++ after)
destroyers-insert k [] (watch_tree_task p key cleanup) after = omega arith
destroyers-insert k [] (destroy_root_task p) after = ground arith
destroyers-insert k [] memclean_task after = omega arith
destroyers-insert k (watch_tree_task p key cleanup ∷ before) t after =
    destroyers-insert k before t after
destroyers-insert k (destroy_root_task p ∷ before) t after =
    ground (arith, destroyers-insert k before t after)
destroyers-insert k (memclean_task ∷ before) t after = destroyers-insert k before t after

module _ {S : Sys} (roots : S.roots_hash.Table) (num : ℤ) (before after : List Task) where
  -- A thread that starts leaves the list of the threads that wait.
  pub Pending-take :
      (t : Task) → Pending S roots (before ++ t ∷ after) num → Pending S roots (before ++ after) num
  Pending-take t ok = record {
    slashed = AllAbsolute-without before t after ok.slashed;
    doomed = λ k. elim (ok.doomed k) [
      | inl nobody ↦ inl (omega (arith, destroyers-insert k before t after, nobody))
      | inr (one, there) ↦ elim (Bool-cases (destroyers k (before ++ after) == 0)) [
        | inl nobody ↦ inl (ground (arith, nobody))
        | inr somebody ↦
            inr (ground (arith, somebody, destroyers-insert k before t after, one), there)
      ]
    ];
    counted = ok.counted;
  }

  -- The root that a thread destroys is there and marked, and no other thread destroys it.
  pub Pending-destroyed :
      (k : Text)
      → Pending S roots (before ++ destroy_root_task k ∷ after) num
      → ((r : Root) × (S.roots_hash.lookup roots k ≡ some r) × (r.destroy ≡ true))
        × (destroyers k (before ++ after) ≡ 0)
  Pending-destroyed k ok = elim (ok.doomed k) [
    | inl nobody ↦ absurd (
        ground
          (arith, destroyers-insert k before (destroy_root_task k) after, nobody, text_eq_refl k))
    | inr (one, there) ↦ (
      there,
      ground (arith, destroyers-insert k before (destroy_root_task k) after, one, text_eq_refl k),
    )
  ]

  pub Pending-watched :
      (p key : Text) (cleanup : Bool)
      → Pending S roots (before ++ watch_tree_task p key cleanup ∷ after) num
      → first_is slash p ≡ true
  Pending-watched p key cleanup ok = AllAbsolute-member before p key cleanup after ok.slashed

module _ {S : Sys} where
  -- The end of a root.
  pub destroy_root_thread-HasPending :
      (st : State S) (path : Text) (root : Root)
      → is_root st path ≡ some root
      → destroyers path st.tasks ≡ 0
      → HasPending st
      → HasPending (destroy_root_thread st path)
  unfolding destroy_root_thread drop_root clear_queue is_root
  destroy_root_thread-HasPending st path root found nobody h =
      let new = record root { queue = [] } in
      let st1 : State S = record st { roots = S.roots_hash.replace st.roots path new } in
      let cleared : clear_queue st path ≡ st1 = ground (arith, found) in
      let h1 : HasPending st1 =
        Pending-set st.roots st.tasks st.num_watched_roots h path root new found (λ d. d) in
      let paths = S.path_hash.keys st1.path_to_watch in
      let st2 = unwatch_under (with_slash path) paths st1 in
      let st3 = forget_root_watch st2 path in
      let (r, q, n) =
        Quiet-trans st1 st2 st3 (unwatch_under-Quiet (with_slash path) paths st1)
          (forget_root_watch-Quiet st2 path) in
      let h3 = HasPending-of_Quiet st1 st3 (r, q, n) h1 in
      let there : S.roots_hash.lookup st3.roots path ≡ some new =
        ground (arith, r, S.roots_hash.lookup-replace st.roots path new path, text_eq_refl path) in
      let gone : HasPending (drop_root st3 path) =
        Pending-remove st3.roots st3.tasks st3.num_watched_roots h3 path new there (q' q) in
      rw cleared (
        HasPending-of_Quiet (drop_root st3 path) (dump_roots (drop_root st3 path))
          (dump_roots-Quiet (drop_root st3 path)) gone)
    where
      q' : {a : List Task} → a ≡ st.tasks → destroyers path a ≡ 0
      q' e = ground (arith, e, nobody)
