-- ===== src/Main/Outcome.antt =====
-- How a part of main in src/main.c ends: it goes on with a result, it exits with a status, or it
-- goes through a pointer that is not set.
use inotispy.Prelude.{ℕ, ◌≡◌, subst, Bool, true, false, Option, none, some, OnSome, if◌then◌else◌}

pub data Outcome {ℓ} (A : Type ℓ) : Type ℓ where
  goes_on : A → Outcome A
  exits : ℕ → Outcome A
  crashes : Outcome A

-- The part that comes next.
abbrev pub next {ℓ κ} : {A : Type ℓ} {B : Type κ} → Outcome A → (A → Outcome B) → Outcome B
next (goes_on a) f = f a
next (exits status) f = exits status
next crashes f = crashes

-- A result that is missing where the code goes through a pointer that is not set.
abbrev pub or_crash {ℓ} : {A : Type ℓ} → Option A → Outcome A
or_crash none = crashes
or_crash (some a) = goes_on a

-- The result, if the part goes on, has the property.
abbrev pub OnGoing {ℓ κ} : {A : Type ℓ} → (A → Type κ) → Outcome A → Type κ
OnGoing P (goes_on a) = P a
OnGoing P (exits status) = Unit
OnGoing P crashes = Unit

pub OnGoing-next {ℓ κ ι} :
    {A : Type ℓ} {B : Type κ} (Q : B → Type ι) (o : Outcome A) (f : A → Outcome B)
    → ((a : A) → OnGoing Q (f a))
    → OnGoing Q (next o f)
OnGoing-next Q (goes_on a) f h = h a
OnGoing-next Q (exits status) f h = tt
OnGoing-next Q crashes f h = tt

pub OnGoing-or_crash {ℓ κ ι} :
    {A : Type ℓ} {B : Type κ} (P : A → Type ι) (Q : B → Type ι) (o : Option A) (f : A → Outcome B)
    → OnSome P o
    → ((a : A) → P a → OnGoing Q (f a))
    → OnGoing Q (next (or_crash o) f)
OnGoing-or_crash P Q none f h k = tt
OnGoing-or_crash P Q (some a) f h k = k a h

pub OnGoing-of {ℓ κ} :
    {A : Type ℓ} (P : A → Type κ) (o : Option A) → OnSome P o → OnGoing P (or_crash o)
OnGoing-of P none h = tt
OnGoing-of P (some a) h = h

pub OnGoing-if {ℓ κ} :
    {A : Type ℓ} (P : A → Type κ) (b : Bool) (o o' : Outcome A)
    → OnGoing P o
    → OnGoing P o'
    → OnGoing P (if b then o else o')
OnGoing-if P true o o' h h' = h
OnGoing-if P false o o' h h' = h'

pub OnGoing-use {ℓ κ} :
    {A : Type ℓ} (P : A → Type κ) {o : Outcome A} {a : A} → OnGoing P o → o ≡ goes_on a → P a
OnGoing-use P h e = subst (OnGoing P) e h
