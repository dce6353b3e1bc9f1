-- ===== src/Inotify/Paths.antt =====
-- inotify_path_to_root and inotify_is_parent of src/inotify.c.
pub mod Laws
use inotispy.Prelude.{Bool, ◌||◌, Option, none, some, List, [], ◌∷◌, if◌then◌else◌}
use inotispy.Text.{Text, codes, text_eq, contains, with_slash}
use inotispy.Inotify.{Root, Sys, State, is_root}

-- (strcmp(path, key) == 0) || strstr(path, key "/")
unfoldable pub belongs_to : Text → Text → Bool
belongs_to path key = text_eq path key || contains path (with_slash key)

-- The loop over the keys of inotify_roots in inotify_path_to_root.
unfoldable pub find_root_key : Text → List Text → Option Text
find_root_key path [] = none
find_root_key path (key ∷ keys) = if belongs_to path key then some key else find_root_key path keys

-- The loop in inotify_is_parent: the first key in which `path "/"` occurs.
unfoldable pub find_key_under : Text → List Text → Option Text
find_key_under path [] = none
find_key_under path (key ∷ keys) =
    if contains key (with_slash path) then some key else find_key_under path keys

module _ {S : Sys} where
  unfoldable pub path_to_root : State S → Text → Option Root
  unfolding is_root
  path_to_root st path = elim (is_root st (codes "/")) [
    | some root ↦ some root
    | none ↦ elim (find_root_key path (S.roots_hash.keys st.roots)) [
      | none ↦ none
      | some key ↦ is_root st key
    ]
  ]

  unfoldable pub is_parent : State S → Text → Option Text
  is_parent st path = find_key_under path (S.roots_hash.keys st.roots)
