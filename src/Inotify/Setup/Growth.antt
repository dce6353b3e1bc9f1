-- ===== src/Inotify/Setup/Growth.antt =====
-- How long the dump file becomes while inotify_setup of src/inotify.c reads it.
use mathlib.Core.List.{Permᴰ}
use inotispy.Prelude.{
  ℕ, ◌+◌, ◌≤◌, ◌≡◌, refl, sym, ap, ◌∙◌, subst, Bool, false, Option, none, some, List, [], ◌∷◌, ℤ,
  length, length-append, to_u32, is_some, Bool-cases, Option-cases, inl, inr, arith,
}
use inotispy.Text.{Text, newline}
use inotispy.Text.Laws.{text_eq_refl}
use inotispy.Inotify.{DumpLine, Root, Sys, State, is_root, spawn}
use inotispy.Inotify.Dump.{dump_line, dump_lines, dump_roots}
use inotispy.Inotify.Dump.Line.{print_line, print_lines}
use inotispy.Inotify.Paths.{belongs_to, path_to_root, is_parent}
use inotispy.Inotify.Paths.Laws.{path_to_root-none}
use inotispy.Inotify.Watching.{make_root, do_watch_tree}
use inotispy.Inotify.Roots.{add_root, watch_root}

-- The length of a dump of these roots.
abbrev pub dump_length : List Root → ℕ
dump_length roots = length (print_lines (dump_lines roots))

dump_length-cons :
    (root : Root) (roots : List Root)
    → dump_length (root ∷ roots) ≡ dump_length (root ∷ []) + dump_length roots
unfolding dump_lines print_lines
dump_length-cons root roots = elim (Bool-cases root.rewatch) [
  | inl kept ↦ rw (kept) (
      omega (
        arith,
        length-append (print_line (dump_line root)) (newline ∷ print_lines (dump_lines roots)),
        length-append (print_line (dump_line root)) (newline ∷ []),
      ))
  | inr dropped ↦ rw (dropped) (omega arith)
]

dump_length-Perm : {l l' : List Root} → Permᴰ l l' → dump_length l ≡ dump_length l'
dump_length-Perm Permᴰ.nil = refl
dump_length-Perm (Permᴰ.cons {a} {b} {l₁} {l₂} e d) = omega (
  arith,
  dump_length-cons a l₁,
  dump_length-cons b l₂,
  dump_length-Perm d,
  ap (λ r. dump_length (r ∷ [])) e,
)
dump_length-Perm (Permᴰ.swap {a} {b} {a'} {b'} {l} e₁ e₂) = omega (
  arith,
  dump_length-cons a (b ∷ l),
  dump_length-cons b l,
  dump_length-cons a' (b' ∷ l),
  dump_length-cons b' l,
  ap (λ r. dump_length (r ∷ [])) e₁,
  ap (λ r. dump_length (r ∷ [])) e₂,
)
dump_length-Perm (Permᴰ.trans d₁ d₂) = dump_length-Perm d₁ ∙ dump_length-Perm d₂

-- The length of what a dump has written, if there was one.
abbrev pub DumpFits : ℕ → Option (List DumpLine) → Type 0
DumpFits n dump = elim dump [ none ↦ Unit {0} | some lines ↦ length (print_lines lines) ≤ n ]

DumpFits-mono :
    (n m : ℕ) (dump : Option (List DumpLine)) → n ≤ m → DumpFits n dump → DumpFits m dump
DumpFits-mono n m none le h = tt
DumpFits-mono n m (some lines) le h = omega arith

module _ {S : Sys} where
  -- The dump, and a dump of the roots as they are, have at most `n` characters.
  abbrev pub Fits : ℕ → State S → Type 0
  Fits n st = (dump_length (S.roots_hash.values st.roots) ≤ n) × DumpFits n st.dump

  pub Fits-mono : (n m : ℕ) (st : State S) → n ≤ m → Fits n st → Fits m st
  Fits-mono n m st le (h, h') = (omega arith, DumpFits-mono n m st.dump le h')

  dump_roots-Fits : (n : ℕ) (st : State S) → Fits n st → Fits n (dump_roots st)
  unfolding dump_roots
  dump_roots-Fits n st (h, h') = elim (Bool-cases (S.fopen_dump st.world)) [
    | inl opens ↦ rw (opens) (h, h)
    | inr shut ↦ rw (shut) (h, h')
  ]

  do_watch_tree-Fits :
      (n : ℕ) (st : State S) (path key : Text) (cleanup : Bool)
      → Fits n st
      → Fits n (do_watch_tree st path key cleanup).1
  unfolding do_watch_tree spawn
  do_watch_tree-Fits n st path key cleanup (h, h') =
      let t = (do_watch_tree st path key cleanup).1 in
      let roots : t.roots ≡ st.roots = ground arith in
      let dump : t.dump ≡ st.dump = ground arith in
      (
        subst (λ r. dump_length (S.roots_hash.values r) ≤ n) (sym roots) h,
        subst (DumpFits n) (sym dump) h',
      )

  add_root-Fits :
      (n : ℕ) (st : State S) (path : Text) (mask max_events : ℤ) (rewatch : Bool)
      → is_root st path ≡ none
      → Fits n st
      → Fits
          (dump_length (make_root path (to_u32 mask) max_events rewatch ∷ []) + n)
          (add_root st path mask max_events rewatch)
  unfolding add_root is_root
  add_root-Fits n st path mask max_events rewatch new (h, h') =
      let root = make_root path (to_u32 mask) max_events rewatch in
      let l = dump_length (root ∷ []) in
      (
        omega (
          arith,
          dump_length-Perm (S.roots_hash.values-replace st.roots path root new),
          dump_length-cons root (S.roots_hash.values st.roots),
        ),
        DumpFits-mono n (l + n) st.dump (omega arith) h',
      )

  not_there : (st : State S) (path : Text) → path_to_root st path ≡ none → is_root st path ≡ none
  unfolding belongs_to
  not_there st path e = elim (Option-cases (is_root st path)) [
    | inl absent ↦ absent
    | inr (r, found) ↦
        absurd (ground (arith, path_to_root-none st path path r e found, text_eq_refl path))
  ]

  pub watch_root-Fits :
      (n : ℕ) (st : State S) (path : Text) (mask max_events : ℤ) (rewatch : Bool)
      → Fits n st
      → Fits
          (dump_length (make_root path (to_u32 mask) max_events rewatch ∷ []) + n)
          (watch_root st path mask max_events rewatch).1
  unfolding watch_root
  watch_root-Fits n st path mask max_events rewatch h =
      let m = dump_length (make_root path (to_u32 mask) max_events rewatch ∷ []) + n in
      let same : Fits m st = Fits-mono n m st (omega arith) h in
      elim (Option-cases (path_to_root st path)) [
        | inr (root, child) ↦ rw (child, watch_root) same
        | inl no_root ↦ elim (Option-cases (is_parent st path)) [
          | inr (sub, parent) ↦ rw (no_root, parent, watch_root) same
          | inl no_child ↦ elim (Bool-cases (is_some (S.opendir st.world path))) [
            | inr shut ↦ rw (no_root, no_child, shut, watch_root) same
            | inl there ↦
                rw (no_root, no_child, there, watch_root)
                  (do_watch_tree-Fits m _ path path false (
                    dump_roots-Fits m _ (
                      add_root-Fits n st path mask max_events rewatch (not_there st path no_root)
                        h)))
          ]
        ]
      ]
