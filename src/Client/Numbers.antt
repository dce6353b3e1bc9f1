-- ===== src/Client/Numbers.antt =====
-- About the count of events that bin/inotispyctl.c accepts.
use inotispy.Prelude.{◌≡◌, refl, sym, ◌∙◌, ◌↔◌, ◌<◌, ◌^◌, true, [], ◌∷◌, ℤ, arith}
use inotispy.Text.{Text}
use inotispy.Text.Decimal.{scan, atoi}
use inotispy.Text.Decimal.RoundTrip.{AllDigits, atoi_of_digits, of_positive_lem}
use inotispy.Client.Texts.{all_digits, is_unsigned_int}

all_digits→AllDigits : (s : Text) → all_digits s ≡ true → AllDigits s
unfolding all_digits
all_digits→AllDigits [] h = tt
all_digits→AllDigits (c ∷ s) h = (ground arith, all_digits→AllDigits s (ground arith))

AllDigits→all_digits : (s : Text) → AllDigits s → all_digits s ≡ true
unfolding all_digits
AllDigits→all_digits [] h = refl
AllDigits→all_digits (c ∷ s) (hc, hs) = ground (arith, AllDigits→all_digits s hs)

-- The test of the sign is covered by the one of the digits.
is_unsigned_int-all_digits : (s : Text) → is_unsigned_int s ≡ all_digits s
unfolding is_unsigned_int
is_unsigned_int-all_digits [] = refl
is_unsigned_int-all_digits (c ∷ s) = ground arith

atoi_of_count : (s : Text) → AllDigits s → scan 0 s < 2 ^ 31 → atoi s ≡ ℤ.pos (scan 0 s)
unfolding atoi
atoi_of_count [] h small = refl
atoi_of_count (c ∷ s) h small =
    atoi_of_digits (c ∷ s) (omega arith) h ∙ of_positive_lem (scan 0 (c ∷ s)) small

-- The client accepts exactly the counts that consist of digits, and the empty text; a count that
-- it accepts and whose value is below 2 ^ 31 is read as that value.
pub is_unsigned_int_lem :
    (s : Text)
    → ((is_unsigned_int s ≡ true) ↔ AllDigits s)
      × (is_unsigned_int s ≡ true → scan 0 s < 2 ^ 31 → atoi s ≡ ℤ.pos (scan 0 s))
is_unsigned_int_lem s =
    let digits = λ (h : is_unsigned_int s ≡ true).
      all_digits→AllDigits s (sym (is_unsigned_int-all_digits s) ∙ h) in
    (
      (digits, λ h. is_unsigned_int-all_digits s ∙ AllDigits→all_digits s h),
      λ h small. atoi_of_count s (digits h) small,
    )
