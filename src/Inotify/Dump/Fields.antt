-- ===== src/Inotify/Dump/Fields.antt =====
-- About the fields of a line of the dump file: what strtok finds.
use inotispy.Prelude.{
  ℕ, suc, ◌≤◌, ◌≡◌, refl, false, some, [], ◌∷◌, ◌++◌, ◌==◌, if◌then◌else◌, length, ℤ, arith, ap,
  ◌∙◌,
}
use inotispy.Text.{Text}
use inotispy.Text.Decimal.{print_nat, print_int}
use inotispy.Text.Decimal.RoundTrip.{
  AllDigits, NonEmpty, print_nat-AllDigits, print_nat-length-le, print_nat-NonEmpty,
}
use inotispy.Inotify.Dump.Line.{comma, before_comma, behind_comma, strtok}

abbrev pub CommaFree : Text → Type 0
CommaFree [] = Unit {0}
CommaFree (c ∷ s) = ((c == comma) ≡ false) × CommaFree s

digits-CommaFree : (s : Text) → AllDigits s → CommaFree s
digits-CommaFree [] h = tt
digits-CommaFree (c ∷ s) (hc, hs) = (ground arith, digits-CommaFree s hs)

pub print_int-CommaFree : (z : ℤ) → CommaFree (print_int z)
unfolding print_int
print_int-CommaFree (ℤ.pos n) = digits-CommaFree (print_nat n) (print_nat-AllDigits n)
print_int-CommaFree (ℤ.negsuc n) =
    (refl, digits-CommaFree (print_nat (suc n)) (print_nat-AllDigits (suc n)))

pub print_int-NonEmpty : (z : ℤ) → NonEmpty (print_int z)
unfolding print_int
print_int-NonEmpty (ℤ.pos n) = print_nat-NonEmpty n
print_int-NonEmpty (ℤ.negsuc n) = omega arith

pub print_int-length-le : (z : ℤ) → length (print_int z) ≤ 11
unfolding print_int
print_int-length-le (ℤ.pos n) = omega (arith, print_nat-length-le n)
print_int-length-le (ℤ.negsuc n) = omega (arith, print_nat-length-le (suc n))

before_comma_lem : (s t : Text) → CommaFree s → before_comma (s ++ comma ∷ t) ≡ s
unfolding before_comma
before_comma_lem [] t h = refl
before_comma_lem (c ∷ s) t (hc, h) = rw (before_comma_lem s t h, hc) refl

behind_comma_lem : (s t : Text) → CommaFree s → behind_comma (s ++ comma ∷ t) ≡ t
unfolding behind_comma
behind_comma_lem [] t h = refl
behind_comma_lem (c ∷ s) t (hc, h) = rw (hc) (behind_comma_lem s t h)

before_comma_all : (s : Text) → CommaFree s → before_comma s ≡ s
unfolding before_comma
before_comma_all [] h = refl
before_comma_all (c ∷ s) (hc, h) = rw (before_comma_all s h, hc) refl

strtok_cons :
    (c : ℕ) (s : Text)
    → (c == comma) ≡ false
    → strtok (c ∷ s) ≡ some (before_comma (c ∷ s), behind_comma (c ∷ s))
unfolding strtok
strtok_cons c s hc =
    ap (λ b. if b then strtok s else some (before_comma (c ∷ s), behind_comma (c ∷ s))) hc

-- A field and the text behind its comma.
pub strtok_field : (s t : Text) → NonEmpty s → CommaFree s → strtok (s ++ comma ∷ t) ≡ some (s, t)
strtok_field [] t h _ = absurd (omega arith)
strtok_field (c ∷ s) t h free = strtok_cons c (s ++ comma ∷ t) free.0 ∙ λ i.
    some (before_comma_lem (c ∷ s) t free i, behind_comma_lem (c ∷ s) t free i)

behind_comma_none : (s : Text) → CommaFree s → behind_comma s ≡ []
unfolding behind_comma
behind_comma_none [] h = refl
behind_comma_none (c ∷ s) (hc, h) = rw (hc) (behind_comma_none s h)

-- The last field.
pub strtok_last : (s : Text) → NonEmpty s → CommaFree s → strtok s ≡ some (s, [])
strtok_last [] h _ = absurd (omega arith)
strtok_last (c ∷ s) h free = strtok_cons c s free.0 ∙ λ i.
    some (before_comma_all (c ∷ s) free i, behind_comma_none (c ∷ s) free i)
