-- ===== src/Inotify/Registry.antt =====
-- The invariant of the table of roots of src/inotify.c, and the changes of the table that keep it.
pub mod Queues
pub mod Frame
pub mod Steps
use inotispy.Prelude.{
  ℕ, ◌≤◌, ◌≡◌, refl, Bool, true, false, Option, none, some, List, [], arith, ℤ, pos_part, length,
  if◌then◌else◌,
}
use inotispy.Text.{Text, slash, first_is, text_eq, contains, with_slash}
use inotispy.Text.Laws.{text_eq_iff}
use inotispy.Inotify.{Root, Sys, State}

-- A root stands under its own path, which is absolute; its queue fits its limit (a negative limit
-- admits nothing); and the path of no root occurs, with a slash behind it, in the path of another,
-- so that no root lies in the tree of another.
pub record Registry (S : Sys) (roots : S.roots_hash.Table) : Type 0 where
  pub named : (p : Text) (r : Root) → S.roots_hash.lookup roots p ≡ some r → r.path ≡ p
  pub absolute :
      (p : Text) (r : Root) → S.roots_hash.lookup roots p ≡ some r → first_is slash p ≡ true
  pub bounded :
      (p : Text) (r : Root)
      → S.roots_hash.lookup roots p ≡ some r
      → length r.queue ≤ pos_part r.max_events
  pub separated :
      (p q : Text) (r s : Root)
      → S.roots_hash.lookup roots p ≡ some r
      → S.roots_hash.lookup roots q ≡ some s
      → contains q (with_slash p) ≡ false

abbrev pub HasRegistry : {S : Sys} → State S → Type 0
HasRegistry {S} st = Registry S st.roots

module _ {S : Sys} where
  pub Registry-new : Registry S S.roots_hash.new
  Registry-new = record {
    named = λ p r e. cc (S.roots_hash.lookup-new p);
    absolute = λ p r e. cc (S.roots_hash.lookup-new p);
    bounded = λ p r e. absurd (cc (S.roots_hash.lookup-new p));
    separated = λ p q r s e f. cc (S.roots_hash.lookup-new p);
  }

module _ {S : Sys} (roots : S.roots_hash.Table) (ok : Registry S roots) where
  -- A root's struct changes, but neither its path nor, past the limit, its queue.
  pub Registry-set :
      (p : Text) (old new : Root)
      → S.roots_hash.lookup roots p ≡ some old
      → new.path ≡ p
      → length new.queue ≤ pos_part new.max_events
      → Registry S (S.roots_hash.replace roots p new)
  Registry-set p old new found same fits = record {
    named = λ q r e.
        ground (
          arith,
          S.roots_hash.lookup-replace roots p new q,
          ok.named q r,
          text_eq_iff p q,
          e,
          same,
        );
    absolute = λ q r e. ground (
      arith,
      S.roots_hash.lookup-replace roots p new q,
      ok.absolute q r,
      ok.absolute p old found,
      text_eq_iff p q,
      e,
    );
    bounded =
        λ q r e. ground (arith, S.roots_hash.lookup-replace roots p new q, ok.bounded q r, e, fits);
    separated = λ q q' r r' e e'. ground (
      arith,
      S.roots_hash.lookup-replace roots p new q,
      S.roots_hash.lookup-replace roots p new q',
      text_eq_iff p q,
      text_eq_iff p q',
      ok.separated q q' r r',
      ok.separated p q' old r',
      ok.separated q p r old,
      ok.separated p p old old,
      found,
      e,
      e',
    );
  }

  pub Registry-remove : (p : Text) → Registry S (S.roots_hash.remove roots p)
  Registry-remove p = record {
    named = λ q r e. ground (arith, S.roots_hash.lookup-remove roots p q, ok.named q r, e);
    absolute = λ q r e. ground (arith, S.roots_hash.lookup-remove roots p q, ok.absolute q r, e);
    bounded = λ q r e. ground (arith, S.roots_hash.lookup-remove roots p q, ok.bounded q r, e);
    separated = λ q q' r r' e e'. ground (
      arith,
      S.roots_hash.lookup-remove roots p q,
      S.roots_hash.lookup-remove roots p q',
      ok.separated q q' r r',
      e,
      e',
    );
  }

  -- A new root, of a path that neither lies in another root's tree nor has a root in its own.
  pub Registry-add :
      (new : Root)
      → first_is slash new.path ≡ true
      → length new.queue ≤ pos_part new.max_events
      → contains new.path (with_slash new.path) ≡ false
      → ((q : Text) (r : Root)
          → S.roots_hash.lookup roots q ≡ some r
          → (contains new.path (with_slash q) ≡ false) × (contains q (with_slash new.path) ≡ false))
      → Registry S (S.roots_hash.replace roots new.path new)
  Registry-add new slashed fits alone apart = record {
    named = λ q r e. ground (
      arith,
      S.roots_hash.lookup-replace roots new.path new q,
      ok.named q r,
      text_eq_iff new.path q,
      e,
    );
    absolute = λ q r e. ground (
      arith,
      S.roots_hash.lookup-replace roots new.path new q,
      ok.absolute q r,
      text_eq_iff new.path q,
      e,
      slashed,
    );
    bounded = λ q r e.
        ground (arith, S.roots_hash.lookup-replace roots new.path new q, ok.bounded q r, e, fits);
    separated = λ q q' r r' e e'. ground (
      arith,
      S.roots_hash.lookup-replace roots new.path new q,
      S.roots_hash.lookup-replace roots new.path new q',
      text_eq_iff new.path q,
      text_eq_iff new.path q',
      ok.separated q q' r r',
      apart q r,
      apart q' r',
      alone,
      e,
      e',
    );
  }
