-- ===== src/Inotify/Destroy/Clears.antt =====
-- What the unwatching of src/inotify.c leaves in the tables.
use inotispy.Prelude.{
  ◌≡◌, ◌∙◌, false, ◌&&◌, ◌||◌, Option, none, some, List, [], ◌∷◌, arith, inl, inr, Option-cases,
  if◌then◌else◌,
}
use inotispy.Text.{Text, codes, text_eq, starts_with, with_slash}
use inotispy.Text.Laws.{text_eq_iff, strstr_at_start-eq-starts_with}
use inotispy.Glib.{member}
use inotispy.Reply.{inotify_root_not_watched}
use inotispy.Inotify.{Watch, Sys, State, is_root}
use inotispy.Inotify.Registry.{HasRegistry}
use inotispy.Inotify.Registry.Frame.{roots-unwatch_under, roots-forget_root_watch, roots-dump_roots}
use inotispy.Inotify.Dump.{dump_roots}
use inotispy.Inotify.Destroy.{
  unwatch_path, unwatch_matching, unwatch_under, forget_root_watch, drop_root, clear_queue,
  destroy_root_thread, unwatch_tree,
}

module _ {S : Sys} where
  abbrev watched : State S → Text → Option Watch
  watched st q = S.path_hash.lookup st.path_to_watch q

  pub watched-unwatch_path :
      (st : State S) (p q : Text)
      → watched (unwatch_path st p) q ≡ (if text_eq p q then none else watched st q)
  unfolding unwatch_path
  watched-unwatch_path st p q =
      ground (arith, S.path_hash.lookup-remove st.path_to_watch p q, text_eq_iff p q)

  watched-unwatch_matching :
      (tmp : Text) (st : State S) (p q : Text)
      → watched (unwatch_matching tmp st p) q
        ≡ (if starts_with p tmp && text_eq p q then none else watched st q)
  unfolding unwatch_matching
  watched-unwatch_matching tmp st p q =
      ground (arith, watched-unwatch_path st p q, strstr_at_start-eq-starts_with p tmp)

  -- The loop forgets the listed paths that begin with the prefix.
  pub watched-unwatch_under :
      (tmp : Text) (paths : List Text) (st : State S) (q : Text)
      → watched (unwatch_under tmp paths st) q
        ≡ (if starts_with q tmp && member text_eq q paths then none else watched st q)
  unfolding unwatch_under
  watched-unwatch_under tmp [] st q = ground arith
  watched-unwatch_under tmp (p ∷ paths) st q =
      watched-unwatch_under tmp paths (unwatch_matching tmp st p) q
      ∙ ground (arith, watched-unwatch_matching tmp st p q, text_eq_iff p q)

  -- Listed are all that are watched.
  pub watched-unwatch_all :
      (tmp : Text) (st : State S) (q : Text)
      → watched (unwatch_under tmp (S.path_hash.keys st.path_to_watch) st) q
        ≡ (if starts_with q tmp then none else watched st q)
  watched-unwatch_all tmp st q =
      watched-unwatch_under tmp (S.path_hash.keys st.path_to_watch) st q
      ∙ ground (arith, S.path_hash.member-keys st.path_to_watch q)

  watched-forget_root_watch :
      (st : State S) (p q : Text)
      → watched (forget_root_watch st p) q ≡ (if text_eq p q then none else watched st q)
  unfolding forget_root_watch
  watched-forget_root_watch st p q =
      ground (arith, S.path_hash.lookup-remove st.path_to_watch p q, text_eq_iff p q)

  watched-dump_roots : (st : State S) (q : Text) → watched (dump_roots st) q ≡ watched st q
  unfolding dump_roots
  watched-dump_roots st q = ground arith

  watched-clear_queue : (st : State S) (p q : Text) → watched (clear_queue st p) q ≡ watched st q
  unfolding clear_queue
  watched-clear_queue st p q = ground arith

  -- When the thread that destroys a root is done, neither the root's path nor any path below it
  -- is watched, and all other paths are watched as before.
  pub watched-destroy_root_thread :
      (st : State S) (path q : Text)
      → S.path_hash.lookup (destroy_root_thread st path).path_to_watch q ≡ (
          if text_eq path q || starts_with q (with_slash path)
          then none
          else S.path_hash.lookup st.path_to_watch q)
  unfolding destroy_root_thread drop_root
  watched-destroy_root_thread st path q =
      let st1 = clear_queue st path in
      let st2 = unwatch_under (with_slash path) (S.path_hash.keys st1.path_to_watch) st1 in
      let st3 = forget_root_watch st2 path in
      ground (
        arith,
        watched-dump_roots (drop_root st3 path) q,
        watched-forget_root_watch st2 path q,
        watched-unwatch_all (with_slash path) st1 q,
        watched-clear_queue st path q,
      )

  roots-clear_queue :
      (st : State S) (path q : Text)
      → text_eq path q ≡ false
      → is_root (clear_queue st path) q ≡ is_root st q
  unfolding clear_queue is_root
  roots-clear_queue st path q other = elim (Option-cases (S.roots_hash.lookup st.roots path)) [
    | inl missing ↦ ground (arith, missing)
    | inr (root, found) ↦ ground (
      arith,
      found,
      other,
      S.roots_hash.lookup-replace st.roots path (record root { queue = [] }) q,
    )
  ]

  -- When the thread that destroys a root is done, its path is no root, and all other roots are as
  -- before.
  pub is_root-destroy_root_thread :
      (st : State S) (path q : Text)
      → is_root (destroy_root_thread st path) q ≡ (if text_eq path q then none else is_root st q)
  unfolding destroy_root_thread drop_root is_root
  is_root-destroy_root_thread st path q =
      let st1 = clear_queue st path in
      let st2 = unwatch_under (with_slash path) (S.path_hash.keys st1.path_to_watch) st1 in
      let st3 = forget_root_watch st2 path in
      ground (
        arith,
        S.roots_hash.lookup-remove st3.roots path q,
        roots-forget_root_watch st2 path,
        roots-unwatch_under (with_slash path) (S.path_hash.keys st1.path_to_watch) st1,
        roots-dump_roots (drop_root st3 path),
        roots-clear_queue st path q,
      )

  -- On a table of roots that keeps its invariant, a request to unwatch "/" is refused as not
  -- watched, whether "/" is a root or not, and nothing changes.
  pub unwatch_tree_slash :
      (st : State S)
      → HasRegistry st
      → unwatch_tree st (codes "/") ≡ some (some inotify_root_not_watched, st)
  unfolding unwatch_tree is_root
  unwatch_tree_slash st h = elim (Option-cases (S.roots_hash.lookup st.roots [])) [
    | inl missing ↦ ground (arith, missing)
    | inr (root, found) ↦ absurd (cc (h.absolute [] root found))
  ]
