-- ===== src/Inotify/Agree.antt =====
-- The invariant of the two watch tables of src/inotify.c, and that adding and forgetting a watch
-- keep it.
use inotispy.Prelude.{◌≡◌, true, none, some, arith, ℤ, int_eq_iff}
use inotispy.Text.{Text, slash, first_is}
use inotispy.Text.Laws.{text_eq_iff}
use inotispy.Inotify.{Watch, Sys, State}

-- Whatever is found by its path is found by its descriptor too, and a watch stands under its own
-- descriptor and path, which is absolute.
pub record Agree (S : Sys) (wds : S.wd_hash.Table) (paths : S.path_hash.Table) : Type 0 where
  pub named : (p : Text) (w : Watch) → S.path_hash.lookup paths p ≡ some w → w.path ≡ p
  pub backed :
      (p : Text) (w : Watch)
      → S.path_hash.lookup paths p ≡ some w
      → S.wd_hash.lookup wds w.wd ≡ some w
  pub numbered : (wd : ℤ) (w : Watch) → S.wd_hash.lookup wds wd ≡ some w → w.wd ≡ wd
  pub absolute :
      (wd : ℤ) (w : Watch) → S.wd_hash.lookup wds wd ≡ some w → first_is slash w.path ≡ true

abbrev pub HasAgree : {S : Sys} → State S → Type 0
HasAgree {S} st = Agree S st.wd_to_watch st.path_to_watch

module _ {S : Sys} where
  pub Agree-new : Agree S S.wd_hash.new S.path_hash.new
  Agree-new = record {
    named = λ p w e. cc (S.path_hash.lookup-new p);
    backed = λ p w e. cc (S.path_hash.lookup-new p);
    numbered = λ wd w e. cc (S.wd_hash.lookup-new wd);
    absolute = λ wd w e. cc (S.wd_hash.lookup-new wd);
  }

module _ {S : Sys} (wds : S.wd_hash.Table) (paths : S.path_hash.Table)
    (agree : Agree S wds paths) where
  -- A new watch enters both tables. An older watch of the path stays in the table by descriptors.
  pub Agree-add :
      (w : Watch)
      → S.wd_hash.lookup wds w.wd ≡ none
      → first_is slash w.path ≡ true
      → Agree S (S.wd_hash.replace wds w.wd w) (S.path_hash.replace paths w.path w)
  Agree-add w fresh abs = record {
    named = λ p v e. ground (
      arith,
      S.path_hash.lookup-replace paths w.path w p,
      agree.named p v,
      text_eq_iff w.path p,
      e,
    );
    backed = λ p v e. ground (
      arith,
      S.path_hash.lookup-replace paths w.path w p,
      S.wd_hash.lookup-replace wds w.wd w v.wd,
      agree.backed p v,
      int_eq_iff w.wd v.wd,
      e,
      fresh,
    );
    numbered = λ wd v e.
        ground (
          arith,
          S.wd_hash.lookup-replace wds w.wd w wd,
          agree.numbered wd v,
          int_eq_iff w.wd wd,
          e,
        );
    absolute = λ wd v e.
        ground (arith, S.wd_hash.lookup-replace wds w.wd w wd, agree.absolute wd v, e, abs);
  }

  -- Both tables forget the watch of a path.
  pub Agree-remove :
      (p : Text) (w : Watch)
      → S.path_hash.lookup paths p ≡ some w
      → Agree S (S.wd_hash.remove wds w.wd) (S.path_hash.remove paths p)
  Agree-remove p w found = record {
    named = λ q v e. ground (arith, S.path_hash.lookup-remove paths p q, agree.named q v, e);
    backed = λ q v e. ground (
      arith,
      S.path_hash.lookup-remove paths p q,
      S.wd_hash.lookup-remove wds w.wd v.wd,
      agree.backed q v,
      agree.backed p w found,
      agree.named q v,
      agree.named p w found,
      int_eq_iff w.wd v.wd,
      text_eq_iff p q,
      e,
    );
    numbered =
        λ wd v e. ground (arith, S.wd_hash.lookup-remove wds w.wd wd, agree.numbered wd v, e);
    absolute =
        λ wd v e. ground (arith, S.wd_hash.lookup-remove wds w.wd wd, agree.absolute wd v, e);
  }
