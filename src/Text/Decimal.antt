-- ===== src/Text/Decimal.antt =====
-- The conversion `%d` of `printf` and the function `atoi`, as inotify_dump_roots and inotify_setup
-- of src/inotify.c use them.
pub mod RoundTrip
use inotispy.Prelude.{
  ℕ, zero, suc, ◌+◌, ◌-◌, ◌*◌, ◌/◌, ◌%◌, ◌^◌, Bool, ◌&&◌, ◌||◌, [], ◌∷◌, ◌==◌, leb, if◌then◌else◌,
  min, ℤ, to_int,
}
use inotispy.Text.{Text}

abbrev pub is_digit : ℕ → Bool
is_digit c = leb b'0' c && leb c b'9'

-- The digits of a number below 10 ^ fuel, in front of `out`.
unfoldable pub digits : ℕ → ℕ → Text → Text
digits zero n out = out
digits (suc fuel) n out =
    let rest = digits fuel (n / 10) ((b'0' + n % 10) ∷ out) in if n == 0 then out else rest

-- A number of 32 bits has ten digits at most.
unfoldable pub print_nat : ℕ → Text
unfolding digits
print_nat n = if n == 0 then b'0' ∷ [] else digits 10 n []

-- The format "%d".
unfoldable pub print_int : ℤ → Text
unfolding print_nat
print_int (ℤ.pos n) = print_nat n
print_int (ℤ.negsuc n) = b'-' ∷ print_nat (suc n)

-- isspace(c)
abbrev pub is_space : ℕ → Bool
is_space c = c == 32 || leb 9 c && leb c 13

unfoldable pub skip_space : Text → Text
skip_space [] = []
skip_space (c ∷ s) = let rest = skip_space s in if is_space c then rest else c ∷ s

-- The digits at the front of a text, behind the number `n`.
unfoldable pub scan : ℕ → Text → ℕ
scan n [] = n
scan n (c ∷ s) = let rest = scan (n * 10 + (c - b'0')) s in if is_digit c then rest else n

-- strtol stops at LONG_MAX and at LONG_MIN, and atoi keeps 32 bits of it.
unfoldable pub of_positive : ℕ → ℤ
of_positive n = to_int (min n (2 ^ 63 - 1) % 2 ^ 32)

unfoldable pub of_negative : ℕ → ℤ
of_negative n = to_int ((2 ^ 32 - min n (2 ^ 63) % 2 ^ 32) % 2 ^ 32)

unfoldable pub signed : Text → ℤ
unfolding scan of_positive of_negative
signed [] = ℤ.pos 0
signed (c ∷ s) =
    if c == b'-'
    then of_negative (scan 0 s)
    else if c == b'+'
    then of_positive (scan 0 s)
    else of_positive (scan 0 (c ∷ s))

unfoldable pub atoi : Text → ℤ
unfolding skip_space signed
atoi s = signed (skip_space s)
