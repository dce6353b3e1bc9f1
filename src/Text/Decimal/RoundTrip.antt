-- ===== src/Text/Decimal/RoundTrip.antt =====
-- About the conversion `%d` and `atoi`: what the one prints, and what the other reads of it.
use inotispy.Prelude.{
  ℕ, zero, suc, ◌+◌, ◌/◌, ◌%◌, ◌^◌, ◌≤◌, ◌<◌, ◌≡◌, refl, ap, ◌∙◌, Bool, true, false, [], ◌∷◌, ◌==◌,
  if◌then◌else◌, ℤ, arith, length,
}
use inotispy.Text.{Text}
use inotispy.Text.Decimal.{
  is_digit, digits, print_nat, print_int, skip_space, scan, of_positive, of_negative, signed, atoi,
}

abbrev pub AllDigits : Text → Type 0
AllDigits [] = Unit {0}
AllDigits (c ∷ s) = (is_digit c ≡ true) × AllDigits s

-- The values of the C type `int`.
abbrev pub IsInt : ℤ → Type 0
IsInt (ℤ.pos n) = n < 2 ^ 31
IsInt (ℤ.negsuc n) = n < 2 ^ 31

abbrev pub NonEmpty : Text → Type 0
NonEmpty s = 1 ≤ length s

if-AllDigits : (b : Bool) (s t : Text) → AllDigits s → AllDigits t → AllDigits (if b then s else t)
if-AllDigits true s t hs ht = hs
if-AllDigits false s t hs ht = ht

last_digit-is_digit : (n : ℕ) → is_digit (b'0' + n % 10) ≡ true
last_digit-is_digit n = ground arith

digits-AllDigits : (fuel n : ℕ) (out : Text) → AllDigits out → AllDigits (digits fuel n out)
unfolding digits
digits-AllDigits zero n out h = h
digits-AllDigits (suc fuel) n out h =
    if-AllDigits (n == 0) _ _ h
      (digits-AllDigits fuel (n / 10) ((b'0' + n % 10) ∷ out) (last_digit-is_digit n, h))

digits-length-le : (fuel n : ℕ) (out : Text) → length (digits fuel n out) ≤ fuel + length out
unfolding digits
digits-length-le zero n out = omega arith
digits-length-le (suc fuel) n out =
    ground (arith, digits-length-le fuel (n / 10) ((b'0' + n % 10) ∷ out))

digits-length-lt :
    (fuel k n : ℕ) (out : Text) → n < 10 ^ k → length (digits fuel n out) ≤ k + length out
unfolding digits
digits-length-lt zero k n out h = omega arith
digits-length-lt (suc fuel) zero n out h = ground arith
digits-length-lt (suc fuel) (suc k) n out h =
    ground (arith, digits-length-lt fuel k (n / 10) ((b'0' + n % 10) ∷ out))

le-digits-length : (fuel n : ℕ) (out : Text) → length out ≤ length (digits fuel n out)
unfolding digits
le-digits-length zero n out = omega arith
le-digits-length (suc fuel) n out =
    ground (arith, le-digits-length fuel (n / 10) ((b'0' + n % 10) ∷ out))

scan-digits : (fuel n : ℕ) (out : Text) → n < 10 ^ fuel → scan 0 (digits fuel n out) ≡ scan n out
unfolding digits scan
scan-digits zero n out h = ground arith
scan-digits (suc fuel) n out h = ground (arith, scan-digits fuel (n / 10) ((b'0' + n % 10) ∷ out))

pub print_nat-AllDigits : (n : ℕ) → AllDigits (print_nat n)
unfolding print_nat
print_nat-AllDigits n = if-AllDigits (n == 0) _ _ (refl, tt) (digits-AllDigits 10 n [] tt)

pub print_nat-length-le : (n : ℕ) → length (print_nat n) ≤ 10
unfolding print_nat
print_nat-length-le n = ground (arith, digits-length-le 10 n [])

pub print_nat-length-lt : (k n : ℕ) → n < 10 ^ suc k → length (print_nat n) ≤ suc k
unfolding print_nat
print_nat-length-lt k n h = ground (arith, digits-length-lt 10 (suc k) n [] h)

pub print_nat-NonEmpty : (n : ℕ) → NonEmpty (print_nat n)
unfolding print_nat digits
print_nat-NonEmpty n = ground (arith, le-digits-length 9 (n / 10) ((b'0' + n % 10) ∷ []))

scan_if_zero : (n : ℕ) (s : Text) → scan 0 s ≡ n → scan 0 (if n == 0 then b'0' ∷ [] else s) ≡ n
unfolding scan
scan_if_zero n s h = ground arith

scan-print_nat : (n : ℕ) → n < 10 ^ 10 → scan 0 (print_nat n) ≡ n
unfolding print_nat scan
scan-print_nat n h = scan_if_zero n (digits 10 n []) (scan-digits 10 n [] h)

-- A digit is neither a space nor a sign.
pub atoi_of_digits : (s : Text) → NonEmpty s → AllDigits s → atoi s ≡ of_positive (scan 0 s)
unfolding atoi signed skip_space
atoi_of_digits [] h _ = absurd (omega arith)
atoi_of_digits (c ∷ s) h (hc, hs) = ground arith

atoi_of_minus : (s : Text) → atoi (b'-' ∷ s) ≡ of_negative (scan 0 s)
unfolding atoi signed skip_space
atoi_of_minus s = refl

pub of_positive_lem : (n : ℕ) → n < 2 ^ 31 → of_positive n ≡ ℤ.pos n
unfolding of_positive
of_positive_lem n h = ground arith

of_negative_lem : (n : ℕ) → n < 2 ^ 31 → of_negative (suc n) ≡ ℤ.negsuc n
unfolding of_negative
of_negative_lem n h = ground arith

-- Every `int` is read back from its decimal print.
pub atoi-print_int : (z : ℤ) → IsInt z → atoi (print_int z) ≡ z
unfolding print_int
atoi-print_int (ℤ.pos n) h =
    atoi_of_digits (print_nat n) (print_nat-NonEmpty n) (print_nat-AllDigits n)
    ∙ (ap of_positive (scan-print_nat n (omega arith)) ∙ of_positive_lem n h)
atoi-print_int (ℤ.negsuc n) h =
    atoi_of_minus (print_nat (suc n))
    ∙ (ap of_negative (scan-print_nat (suc n) (omega arith)) ∙ of_negative_lem n h)
