-- ===== src/Inotify/Pending.antt =====
-- The invariant of the threads that src/inotify.c has created and of the count of its roots.
pub mod Frame
pub mod Steps
pub mod Requests
pub mod Threads
use inotispy.Prelude.{
  ℕ, zero, suc, ◌+◌, ◌-◌, ◌≡◌, ◌⊎◌, refl, ◌∙◌, ap, Bool, true, false, Option, none, some, List, [],
  ◌∷◌, ◌++◌, arith, inl, inr, ℤ, inc_ℤ, dec_ℤ, length, is_some, if◌then◌else◌, Bool-cases,
}
use inotispy.Text.{Text, slash, first_is, text_eq}
use inotispy.Text.Laws.{text_eq_iff, text_eq_refl}
use inotispy.Glib.{member}
use inotispy.Inotify.{Root, Task, watch_tree_task, destroy_root_task, memclean_task, Sys, State}

-- The number of threads that destroy the root of a path.
abbrev pub destroyers : Text → List Task → ℕ
destroyers k [] = 0
destroyers k (destroy_root_task p ∷ tasks) =
    let rest = destroyers k tasks in if text_eq p k then suc rest else rest
destroyers k (watch_tree_task p key cleanup ∷ tasks) = destroyers k tasks
destroyers k (memclean_task ∷ tasks) = destroyers k tasks

-- Every thread that watches a tree does so at an absolute path.
abbrev pub AllAbsolute : List Task → Type 0
AllAbsolute [] = Unit {0}
AllAbsolute (watch_tree_task p key cleanup ∷ tasks) = (first_is slash p ≡ true) × AllAbsolute tasks
AllAbsolute (destroy_root_task p ∷ tasks) = AllAbsolute tasks
AllAbsolute (memclean_task ∷ tasks) = AllAbsolute tasks

-- At most one thread destroys a root, and while there is one the root is there and marked, so that
-- it works on no root that was freed; and the count of roots is that of the table.
pub record Pending (S : Sys) (roots : S.roots_hash.Table) (tasks : List Task) (num : ℤ)
    : Type 0 where
  pub slashed : AllAbsolute tasks
  pub doomed :
      (k : Text)
      → (destroyers k tasks ≡ 0)
        ⊎ (destroyers k tasks ≡ 1)
          × ((r : Root) × (S.roots_hash.lookup roots k ≡ some r) × (r.destroy ≡ true))
  pub counted : num ≡ ℤ.pos (S.roots_hash.size roots)

abbrev pub HasPending : {S : Sys} → State S → Type 0
HasPending {S} st = Pending S st.roots st.tasks st.num_watched_roots

module _ {S : Sys} where
  pub Pending-new : Pending S S.roots_hash.new [] (ℤ.pos 0)
  Pending-new = record {
    slashed = tt;
    doomed = λ k. inl refl;
    counted = ground (arith, S.roots_hash.size-new);
  }

-- A table in which a key is found is not empty.
size_of_found :
    (S : Sys) (roots : S.roots_hash.Table) (k : Text) (r : Root)
    → S.roots_hash.lookup roots k ≡ some r
    → (n : ℕ) × (S.roots_hash.size roots ≡ suc n)
size_of_found S roots k r found =
    let (n, e) =
      positive (S.roots_hash.keys roots)
        (ground (arith, S.roots_hash.member-keys roots k, found)) in
    (n, S.roots_hash.size-keys roots ∙ e)
  where
    positive : (keys : List Text) → member text_eq k keys ≡ true → (n : ℕ) × (length keys ≡ suc n)
    positive [] h = absurd (cc)
    positive (j ∷ keys) h = (length keys, refl)

module _ {S : Sys} (roots : S.roots_hash.Table) (tasks : List Task) (num : ℤ)
    (ok : Pending S roots tasks num) where
  -- A root's struct changes, but a mark that it is being destroyed stays.
  pub Pending-set :
      (p : Text) (old new : Root)
      → S.roots_hash.lookup roots p ≡ some old
      → (old.destroy ≡ true → new.destroy ≡ true)
      → Pending S (S.roots_hash.replace roots p new) tasks num
  Pending-set p old new found marked = record {
    slashed = ok.slashed;
    doomed = λ k. elim (ok.doomed k) [
      | inl nobody ↦ inl nobody
      | inr (one, (r, there, doomed)) ↦ inr (
        one,
        elim (Bool-cases (text_eq p k)) [
          | inl same ↦ (
            new,
            ground (arith, S.roots_hash.lookup-replace roots p new k, same),
            marked (ground (arith, (text_eq_iff p k).0 same, found, there, doomed)),
          )
          | inr other ↦
              (r, ground (arith, S.roots_hash.lookup-replace roots p new k, other, there), doomed)
        ],
      )
    ];
    counted = ground (arith, S.roots_hash.size-replace roots p new, found, ok.counted);
  }

  -- A new root is counted.
  pub Pending-add :
      (p : Text) (new : Root)
      → S.roots_hash.lookup roots p ≡ none
      → Pending S (S.roots_hash.replace roots p new) tasks (inc_ℤ num)
  Pending-add p new fresh = record {
    slashed = ok.slashed;
    doomed = λ k. elim (ok.doomed k) [
      | inl nobody ↦ inl nobody
      | inr (one, (r, there, doomed)) ↦ inr (
        one,
        (
          r,
          ground (arith, S.roots_hash.lookup-replace roots p new k, text_eq_iff p k, fresh, there),
          doomed,
        ),
      )
    ];
    counted = ground (arith, S.roots_hash.size-replace roots p new, fresh, ok.counted);
  }

  -- A root whose destroyer has ended is removed.
  pub Pending-remove :
      (p : Text) (old : Root)
      → S.roots_hash.lookup roots p ≡ some old
      → destroyers p tasks ≡ 0
      → Pending S (S.roots_hash.remove roots p) tasks (dec_ℤ num)
  Pending-remove p old found nobody = record {
    slashed = ok.slashed;
    doomed = λ k. elim (ok.doomed k) [
      | inl none_left ↦ inl none_left
      | inr (one, (r, there, doomed)) ↦ inr (
        one,
        (
          r,
          ground (arith, S.roots_hash.lookup-remove roots p k, text_eq_iff p k, nobody, one, there),
          doomed,
        ),
      )
    ];
    counted =
        let (n, e) = size_of_found S roots p old found in
        ground (arith, S.roots_hash.size-remove roots p, found, ok.counted, e);
  }

  pub Pending-watch :
      (p key : Text) (cleanup : Bool)
      → first_is slash p ≡ true
      → Pending S roots (watch_tree_task p key cleanup ∷ tasks) num
  Pending-watch p key cleanup abs = record {
    slashed = (abs, ok.slashed);
    doomed = λ k. ok.doomed k;
    counted = ok.counted;
  }

  pub Pending-memclean : Pending S roots (memclean_task ∷ tasks) num
  Pending-memclean = record {
    slashed = ok.slashed;
    doomed = λ k. ok.doomed k;
    counted = ok.counted;
  }

  -- A root that no thread destroys is given one.
  pub Pending-destroy :
      (p : Text) (old : Root)
      → S.roots_hash.lookup roots p ≡ some old
      → old.destroy ≡ true
      → destroyers p tasks ≡ 0
      → Pending S roots (destroy_root_task p ∷ tasks) num
  Pending-destroy p old found doomed nobody = record {
    slashed = ok.slashed;
    doomed = λ k. elim (Bool-cases (text_eq p k)) [
      | inl same ↦ inr (
        ground (arith, same, text_eq_iff p k, nobody),
        (old, ground (arith, same, text_eq_iff p k, found), doomed),
      )
      | inr other ↦ ground (arith, other, ok.doomed k)
    ];
    counted = ok.counted;
  }
