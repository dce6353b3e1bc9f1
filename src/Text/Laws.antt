-- ===== src/Text/Laws.antt =====
-- Laws of the string operations.
use inotispy.Prelude.{ℕ, ◌≤◌, ◌≡◌, refl, ◌↔◌, true, [], ◌∷◌, ◌++◌, arith, length}
use inotispy.Text.{Text, text_eq, starts_with, strstr, contains, strstr_at_start}

pub text_eq_refl : (s : Text) → text_eq s s ≡ true
unfolding text_eq
text_eq_refl [] = refl
text_eq_refl (x ∷ xs) = ground (arith, text_eq_refl xs)

pub text_eq→eq : (s t : Text) → text_eq s t ≡ true → s ≡ t
unfolding text_eq
text_eq→eq [] [] h = refl
text_eq→eq [] (y ∷ ys) h = cc
text_eq→eq (x ∷ xs) [] h = cc
text_eq→eq (x ∷ xs) (y ∷ ys) h = ground (arith, text_eq→eq xs ys)

pub text_eq_iff : (s t : Text) → (text_eq s t ≡ true) ↔ (s ≡ t)
text_eq_iff s t = (text_eq→eq s t, λ e. rw e (text_eq_refl t))

pub starts_with-append : (s t : Text) → starts_with (s ++ t) s ≡ true
unfolding starts_with
starts_with-append [] [] = refl
starts_with-append [] (y ∷ t) = refl
starts_with-append (x ∷ s) t = ground (arith, starts_with-append s t)

-- What follows the prefix.
pub starts_with_rest : (s t : Text) → starts_with s t ≡ true → (r : Text) × (s ≡ t ++ r)
unfolding starts_with
starts_with_rest s [] h = (s, refl)
starts_with_rest [] (y ∷ t) h = absurd (cc)
starts_with_rest (x ∷ s) (y ∷ t) h =
    let (r, e) = starts_with_rest s t (ground arith) in (r, ground arith)

pub starts_with-length : (s t : Text) → starts_with s t ≡ true → length t ≤ length s
unfolding starts_with
starts_with-length s [] h = omega arith
starts_with-length [] (y ∷ t) h = cc
starts_with-length (x ∷ s) (y ∷ t) h = ground (arith, starts_with-length s t)

-- The pointer comparison asks for a prefix.
pub strstr_at_start-eq-starts_with : (s t : Text) → strstr_at_start s t ≡ starts_with s t
unfolding strstr_at_start
strstr_at_start-eq-starts_with [] [] = refl
strstr_at_start-eq-starts_with [] (y ∷ t) = refl
strstr_at_start-eq-starts_with (x ∷ s) t = ground arith

pub contains_of-starts_with : (s t : Text) → starts_with s t ≡ true → contains s t ≡ true
unfolding contains
contains_of-starts_with [] t h = rw (h, strstr)
contains_of-starts_with (x ∷ s) t h = ground arith

pub contains-cons : (x : ℕ) (s t : Text) → contains s t ≡ true → contains (x ∷ s) t ≡ true
unfolding contains
contains-cons x s t h = ground arith

pub contains_in_middle : (a t b : Text) → contains (a ++ t ++ b) t ≡ true
contains_in_middle [] t b = contains_of-starts_with (t ++ b) t (starts_with-append t b)
contains_in_middle (x ∷ a) t b = contains-cons x (a ++ t ++ b) t (contains_in_middle a t b)

pub contains-length : (s t : Text) → contains s t ≡ true → length t ≤ length s
unfolding contains
contains-length [] t h = ground (arith, starts_with-length [] t)
contains-length (x ∷ s) t h = ground (arith, starts_with-length (x ∷ s) t, contains-length s t)

pub starts_with_trans :
    (s t u : Text) → starts_with s t ≡ true → starts_with t u ≡ true → starts_with s u ≡ true
unfolding starts_with
starts_with_trans s t [] h k = refl
starts_with_trans [] [] (z ∷ u) h k = k
starts_with_trans [] (y ∷ t) (z ∷ u) h k = cc
starts_with_trans (x ∷ s) [] (z ∷ u) h k = cc
starts_with_trans (x ∷ s) (y ∷ t) (z ∷ u) h k = ground (arith, starts_with_trans s t u)
