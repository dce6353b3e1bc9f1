-- ===== src/Inotify/Paths/Laws.antt =====
-- What inotify_path_to_root and inotify_is_parent of src/inotify.c find.
use inotispy.Prelude.{
  ◌⊎◌, ◌≡◌, ◌≢◌, refl, subst, true, false, none, some, List, [], ◌∷◌, arith, inl, inr, Option-cases,
}
use inotispy.Text.{Text, codes, slash, first_is, text_eq, contains, starts_with, with_slash}
use inotispy.Text.Laws.{text_eq_iff, text_eq_refl, contains_of-starts_with}
use inotispy.Glib.{member}
use inotispy.Inotify.{Root, Sys, State, is_root}
use inotispy.Inotify.Paths.{belongs_to, find_root_key, find_key_under, path_to_root, is_parent}

pub find_root_key-none :
    (path : Text) (keys : List Text) (k : Text)
    → find_root_key path keys ≡ none
    → member text_eq k keys ≡ true
    → belongs_to path k ≡ false
unfolding find_root_key
find_root_key-none path [] k e m = cc
find_root_key-none path (j ∷ keys) k e m =
    ground (arith, find_root_key-none path keys k, text_eq_iff j k)

pub find_root_key-some :
    (path : Text) (keys : List Text) (k : Text)
    → find_root_key path keys ≡ some k
    → (belongs_to path k ≡ true) × (member text_eq k keys ≡ true)
unfolding find_root_key
find_root_key-some path [] k e = absurd (cc)
find_root_key-some path (j ∷ keys) k e =
    ground (arith, find_root_key-some path keys k, text_eq_refl k)

pub find_key_under-none :
    (path : Text) (keys : List Text) (k : Text)
    → find_key_under path keys ≡ none
    → member text_eq k keys ≡ true
    → contains k (with_slash path) ≡ false
unfolding find_key_under
find_key_under-none path [] k e m = cc
find_key_under-none path (j ∷ keys) k e m =
    ground (arith, find_key_under-none path keys k, text_eq_iff j k)

pub find_key_under-some :
    (path : Text) (keys : List Text) (k : Text)
    → find_key_under path keys ≡ some k
    → (contains k (with_slash path) ≡ true) × (member text_eq k keys ≡ true)
unfolding find_key_under
find_key_under-some path [] k e = absurd (cc)
find_key_under-some path (j ∷ keys) k e =
    ground (arith, find_key_under-some path keys k, text_eq_refl k)

-- The path of a root, or a path in its tree; that of "/" has all absolute paths.
abbrev pub IsBelow : Text → Text → Type 0
IsBelow path k =
    (path ≡ k)
    ⊎ ((starts_with path (with_slash k) ≡ true) ⊎ (k ≡ codes "/") × (first_is slash path ≡ true))

module _ {S : Sys} (st : State S) where
  -- Nothing is found only for a path that belongs to no root.
  pub path_to_root-none :
      (path k : Text) (r : Root)
      → path_to_root st path ≡ none
      → is_root st k ≡ some r
      → belongs_to path k ≡ false
  unfolding path_to_root
  path_to_root-none path k r e found =
      elim (Option-cases (find_root_key path (S.roots_hash.keys st.roots))) [
        | inl no_key ↦
            find_root_key-none path (S.roots_hash.keys st.roots) k no_key
              (ground (arith, S.roots_hash.member-keys st.roots k, found))
        | inr (j, key) ↦ absurd (
            ground (
              arith,
              key,
              e,
              S.roots_hash.member-keys st.roots j,
              find_root_key-some path (S.roots_hash.keys st.roots) j key,
            ))
      ]

  -- The root that a path leads to is the root "/", or a root whose path is that path or occurs in
  -- it with a slash behind it.
  pub path_to_root-some :
      (path : Text) (r : Root)
      → path_to_root st path ≡ some r
      → (k : Text) × (is_root st k ≡ some r) × ((k ≡ codes "/") ⊎ (belongs_to path k ≡ true))
  unfolding path_to_root
  path_to_root-some path r e = elim (Option-cases (is_root st (codes "/"))) [
    | inr (slash_root, found) ↦ (codes "/", ground (arith, found, e), inl refl)
    | inl no_slash ↦ elim (Option-cases (find_root_key path (S.roots_hash.keys st.roots))) [
      | inl no_key ↦ absurd (ground (arith, no_slash, no_key, e))
      | inr (k, key) ↦ (
        k,
        ground (arith, no_slash, key, e),
        inr (find_root_key-some path (S.roots_hash.keys st.roots) k key).0,
      )
    ]
  ]

  pub is_parent-none :
      (path k : Text) (r : Root)
      → is_parent st path ≡ none
      → is_root st k ≡ some r
      → contains k (with_slash path) ≡ false
  unfolding is_parent is_root
  is_parent-none path k r e found =
      find_key_under-none path (S.roots_hash.keys st.roots) k e
        (ground (arith, S.roots_hash.member-keys st.roots k, found))

  -- The path of a root, and every path below it, leads to a root; below "/" are all absolute
  -- paths.
  pub path_to_root_complete :
      (path k : Text) (r : Root)
      → is_root st k ≡ some r
      → IsBelow path k
      → path_to_root st path ≢ none
  unfolding belongs_to path_to_root
  path_to_root_complete path k r found (inl same) e =
      ground (arith, path_to_root-none path k r e found, same, text_eq_iff path k)
  path_to_root_complete path k r found (inr (inl below)) e = ground (
    arith,
    path_to_root-none path k r e found,
    below,
    contains_of-starts_with path (with_slash k),
  )
  path_to_root_complete path k r found (inr (inr (whole, slashed))) e =
      let here = subst (λ key. is_root st key ≡ some r) whole found in ground (arith, here, e)
