-- ===== src/Inotify/Setup/Rewatched.antt =====
-- What one entry of the dump file adds to the dump, and the entries one after another, in
-- inotify_setup of src/inotify.c.
use mathlib.Core.List.{Memᴰ}
use inotispy.Prelude.{
  ℕ, zero, suc, ◌+◌, ◌≤◌, ◌<◌, ◌^◌, ◌≡◌, refl, true, ◌||◌, Bool-cases, Option-cases, inl, inr,
  Option, none, some, List, [], ◌∷◌, ◌++◌, length, take, length-append, arith, ◌>>=◌, subst, ℤ,
  int_eq, to_u32, to_int,
}
use inotispy.Text.{Text, newline}
use inotispy.Inotify.{DumpLine, Root, Sys, State}
use inotispy.Inotify.Destroy.{strip_last_slash}
use inotispy.Inotify.Watching.{make_root}
use inotispy.Inotify.Roots.{clean_root_path, watch_root, watch_tree}
use inotispy.Inotify.Setup.{Entry, empty_tables, rewatch_entry, rewatch_entries}
use inotispy.Inotify.Setup.Stream.{dump_text}
use inotispy.Inotify.Setup.Growth.{dump_length, Fits, Fits-mono, watch_root-Fits}
use inotispy.Inotify.Dump.{dump_line, dump_lines, dump_roots}
use inotispy.Inotify.Dump.Line.{comma, print_line, print_lines}
use inotispy.Text.Decimal.{print_int}
use inotispy.Inotify.Dump.RoundTrip.{IsPlain, entry_of}

to_u32-to_int : (m : ℕ) → m < 2 ^ 32 → to_u32 (to_int m) ≡ m
to_u32-to_int m h = ground arith

print_line-shorter :
    (path path' : Text) (mask : ℕ) (max_events : ℤ)
    → length path' ≤ length path
    → length (print_line (record { path = path'; mask = mask; max_events = max_events }))
      ≤ length (print_line (record { path = path; mask = mask; max_events = max_events }))
unfolding print_line
print_line-shorter path path' mask max_events h =
    let rest = comma ∷ (print_int (to_int mask) ++ comma ∷ print_int max_events) in
    omega (arith, length-append path rest, length-append path' rest)

-- The dump of a root that was watched again is not longer than its line.
dump_length-root :
    (line : DumpLine) (path : Text)
    → line.mask < 2 ^ 32
    → length path ≤ length line.path
    → dump_length (make_root path (to_u32 (to_int line.mask)) line.max_events true ∷ [])
      ≤ suc (length (print_line line))
unfolding dump_lines print_lines make_root dump_line
dump_length-root line path small shorter = rw (to_u32-to_int line.mask small) (
    omega (
      arith,
      print_line-shorter line.path path line.mask line.max_events shorter,
      length-append
          (print_line (record { path = path; mask = line.mask; max_events = line.max_events }))
          (newline ∷ []),
    ))

take-shorter : (n : ℕ) (s : Text) → length (take n s) ≤ length s
take-shorter zero s = omega arith
take-shorter (suc n) [] = omega arith
take-shorter (suc n) (c ∷ s) = omega (arith, take-shorter n s)

strip_last_slash-shorter : (path p : Text) → strip_last_slash path ≡ some p → length p ≤ length path
unfolding strip_last_slash
strip_last_slash-shorter [] p e = absurd (cc)
strip_last_slash-shorter (c ∷ cs) p e = ground (arith, take-shorter (length cs) (c ∷ cs))

clean_root_path-shorter : (path p : Text) → clean_root_path path ≡ some p → length p ≤ length path
unfolding clean_root_path
clean_root_path-shorter path p e = ground (arith, strip_last_slash-shorter path p)

values-new : (S : Sys) → S.roots_hash.values S.roots_hash.new ≡ []
values-new S =
    none_there (S.roots_hash.values S.roots_hash.new)
      (λ v m. S.roots_hash.values_sound S.roots_hash.new v m)
  where
    none_there :
        (l : List Root)
        → ((v : Root) → Memᴰ v l → (k : Text) × (S.roots_hash.lookup S.roots_hash.new k ≡ some v))
        → l ≡ []
    none_there [] h = refl
    none_there (v ∷ l) h =
        let (k, e) = h v (Memᴰ.head refl) in absurd (cc (e, S.roots_hash.lookup-new k))

pub empty_tables-Fits : (S : Sys) (world : S.World) → Fits 0 (empty_tables {S = S} world)
unfolding empty_tables dump_lines print_lines
empty_tables-Fits S world = (rw (values-new S) (omega arith), tt)

module _ {S : Sys} where
  pub rewatch_entry-Fits :
      (n : ℕ) (st t : State S) (line : DumpLine)
      → IsPlain line
      → Fits n st
      → rewatch_entry st (entry_of line) ≡ some t
      → Fits (suc (length (print_line line)) + n) t
  unfolding rewatch_entry watch_tree
  rewatch_entry-Fits n st t line (_, _, _, _, small, _) h e =
      let entry = entry_of line in
      elim (Bool-cases (int_eq entry.mask (ℤ.pos 0) || int_eq entry.max_events (ℤ.pos 0))) [
        | inl blank ↦
            let same : st ≡ t = ground (arith, blank, e) in
            subst (Fits (suc (length (print_line line)) + n)) same
              (Fits-mono n (suc (length (print_line line)) + n) st (omega arith) h)
        | inr full ↦ elim (Option-cases (clean_root_path line.path)) [
          | inl bad ↦ absurd (ground (arith, bad, full, e))
          | inr (p, clean) ↦
              let watched = (watch_root st p entry.mask entry.max_events true).1 in
              let same : watched ≡ t = ground (arith, clean, full, e) in
              let root = make_root p (to_u32 entry.mask) entry.max_events true in
              subst (Fits (suc (length (print_line line)) + n)) same (
                Fits-mono (dump_length (root ∷ []) + n) (suc (length (print_line line)) + n) watched
                  (omega (
                    arith,
                    dump_length-root line p small (clean_root_path-shorter line.path p clean),
                  ))
                  (watch_root-Fits n st p entry.mask entry.max_events true h))
        ]
      ]

  elim_bind {ℓ} :
      {A : Type ℓ} (o : Option A) (f : A → Option (State S))
      → elim o [ none ↦ none | some a ↦ f a ] ≡ (o >>= f)
  elim_bind none f = refl
  elim_bind (some a) f = refl

  pub rewatch_entries_step :
      (st : State S) (entry : Entry) (entries : List Entry)
      → rewatch_entries st (entry ∷ entries)
        ≡ (rewatch_entry st entry >>= λ t. rewatch_entries t entries)
  unfolding rewatch_entries rewatch_entry
  rewatch_entries_step st entry entries =
      elim_bind (rewatch_entry st entry) (λ t. rewatch_entries t entries)

  pub rewatch_none : (st : State S) → some st ≡ rewatch_entries st []
  unfolding rewatch_entries
  rewatch_none st = refl

  pub written :
      (file : Text) (st : State S)
      → S.fopen_dump st.world ≡ true
      → dump_text file (dump_roots st) ≡ print_lines (dump_lines (S.roots_hash.values st.roots))
  unfolding dump_roots
  written file st opens = rw (opens) refl

  pub bind_same :
      (o : Option (State S)) (f g : State S → Option (State S))
      → ((t : State S) → o ≡ some t → f t ≡ g t)
      → (o >>= f) ≡ (o >>= g)
  bind_same none f g h = refl
  bind_same (some t) f g h = h t refl
