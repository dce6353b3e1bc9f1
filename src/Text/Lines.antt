-- ===== src/Text/Lines.antt =====
-- About lines of text: what fgets and the end of a string leave of them.
use inotispy.Prelude.{
  ℕ, zero, suc, ◌≤◌, ◌≡◌, refl, false, [], ◌∷◌, ◌++◌, ◌==◌, length, ℤ, arith, ap,
}
use inotispy.Text.{Text, fgets, up_to_zero, newline, strip_newline}
use inotispy.Text.Decimal.{print_nat, print_int}
use inotispy.Text.Decimal.RoundTrip.{AllDigits, print_nat-AllDigits}

-- No zero and no newline: the text survives fgets and the end of the string.
abbrev pub OneLine : Text → Type 0
OneLine [] = Unit {0}
OneLine (c ∷ s) = ((c == 0) ≡ false) × ((c == newline) ≡ false) × OneLine s

pub OneLine-append : (s t : Text) → OneLine s → OneLine t → OneLine (s ++ t)
OneLine-append [] t hs ht = ht
OneLine-append (c ∷ s) t (nz, nl, hs) ht = (nz, nl, OneLine-append s t hs ht)

digits-OneLine : (s : Text) → AllDigits s → OneLine s
digits-OneLine [] h = tt
digits-OneLine (c ∷ s) (hc, hs) = (ground arith, ground arith, digits-OneLine s hs)

pub print_int-OneLine : (z : ℤ) → OneLine (print_int z)
unfolding print_int
print_int-OneLine (ℤ.pos n) = digits-OneLine (print_nat n) (print_nat-AllDigits n)
print_int-OneLine (ℤ.negsuc n) =
    (refl, refl, digits-OneLine (print_nat (suc n)) (print_nat-AllDigits (suc n)))

pub up_to_zero_line : (s : Text) → OneLine s → up_to_zero (s ++ newline ∷ []) ≡ s ++ newline ∷ []
unfolding up_to_zero
up_to_zero_line [] h = refl
up_to_zero_line (c ∷ s) (nz, _, h) = rw (up_to_zero_line s h, nz) refl

pub strip_newline_line : (s : Text) → strip_newline (s ++ newline ∷ []) ≡ s
unfolding strip_newline
strip_newline_line [] = refl
strip_newline_line (c ∷ []) = refl
strip_newline_line (c ∷ d ∷ s) = ap (λ t. c ∷ t) (strip_newline_line (d ∷ s))

-- A text without a newline.
pub fgets_whole : (room : ℕ) (s : Text) → OneLine s → length s ≤ room → fgets room s ≡ (s, [])
unfolding fgets
fgets_whole zero [] h fits = refl
fgets_whole zero (c ∷ s) h fits = absurd (omega arith)
fgets_whole (suc room) [] h fits = refl
fgets_whole (suc room) (c ∷ s) (_, nl, h) fits = rw (fgets_whole room s h (omega arith), nl) refl

pub up_to_zero_whole : (s : Text) → OneLine s → up_to_zero s ≡ s
unfolding up_to_zero
up_to_zero_whole [] h = refl
up_to_zero_whole (c ∷ s) (nz, _, h) = rw (up_to_zero_whole s h, nz) refl

pub strip_newline_whole : (s : Text) → OneLine s → strip_newline s ≡ s
unfolding strip_newline
strip_newline_whole [] h = refl
strip_newline_whole (c ∷ []) (_, nl, _) = rw (nl) refl
strip_newline_whole (c ∷ d ∷ s) (_, _, h) = ap (λ t. c ∷ t) (strip_newline_whole (d ∷ s) h)
