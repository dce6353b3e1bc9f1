-- ===== src/Inotify/Roots.antt =====
-- inotify_watch_tree, inotify_get_roots and inotify_num_watched_dirs of src/inotify.c.
pub mod Requests
use inotispy.Prelude.{
  ℕ, Bool, false, Option, none, some, List, [], ◌∷◌, ◌++◌, ℤ, inc_ℤ, to_u32, is_some, if◌then◌else◌,
}
use inotispy.Text.{Text, codes, text_eq}
use inotispy.Reply.{
  InotispyError, inotify_root_does_not_exist, inotify_root_being_destroyed,
  inotify_root_already_watched, inotify_child_of_root, inotify_parent_of_root,
}
use inotispy.Inotify.{Root, Sys, State}
use inotispy.Inotify.Dump.{dump_roots}
use inotispy.Inotify.Paths.{path_to_root, is_parent}
use inotispy.Inotify.Watching.{make_root, do_watch_tree}
use inotispy.Inotify.Destroy.{strip_last_slash}

-- The path without a trailing slash, unless it is "/".
unfoldable pub clean_root_path : Text → Option Text
unfolding strip_last_slash
clean_root_path path = if text_eq path (codes "/") then some path else strip_last_slash path

-- The refusal of a path that is a root or lies in the tree of one.
unfoldable pub refusal : Text → Root → InotispyError
refusal path root =
    if text_eq path root.path
    then (if root.destroy then inotify_root_being_destroyed else inotify_root_already_watched)
    else inotify_child_of_root

module _ {S : Sys} where
  -- The new entry of inotify_roots, and its count.
  unfoldable pub add_root : State S → Text → ℤ → ℤ → Bool → State S
  unfolding make_root
  add_root st path mask max_events rewatch = record st {
    roots = S.roots_hash.replace st.roots path (make_root path (to_u32 mask) max_events rewatch);
    num_watched_roots = inc_ℤ st.num_watched_roots;
  }

  unfoldable pub watch_root : State S → Text → ℤ → ℤ → Bool → Option InotispyError × State S
  unfolding path_to_root is_parent refusal add_root dump_roots do_watch_tree
  watch_root st path mask max_events rewatch = elim (path_to_root st path) [
    | some root ↦ (some (refusal path root), st)
    | none ↦ elim (is_parent st path) [
      | some sub_path ↦ (some inotify_parent_of_root, st)
      | none ↦
          if is_some (S.opendir st.world path)
          then do_watch_tree (dump_roots (add_root st path mask max_events rewatch)) path path false
          else (some inotify_root_does_not_exist, st)
    ]
  ]

  -- inotify_watch_tree; the outer `none` is a read outside the buffer.
  unfoldable pub watch_tree :
      State S → Text → ℤ → ℤ → Bool → Option (Option InotispyError × State S)
  unfolding clean_root_path watch_root
  watch_tree st path mask max_events rewatch = elim (clean_root_path path) [
    | none ↦ none
    | some p ↦ some (watch_root st p mask max_events rewatch)
  ]

  -- inotify_get_roots: the keys, and the mark of the list's end.
  unfoldable pub get_roots : State S → List Text
  get_roots st = S.roots_hash.keys st.roots ++ codes "EOL" ∷ []

  unfoldable pub num_watched_dirs : State S → ℕ
  num_watched_dirs st = S.path_hash.size st.path_to_watch
