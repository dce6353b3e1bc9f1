-- ===== src/Request/Laws.antt =====
-- About the cleaning of a request's path in src/request.c.
use mathlib.Core.List.{append-nil, append_assoc}
use inotispy.Prelude.{
  ℕ, zero, suc, ◌≡◌, ◌≢◌, refl, sym, ap, ◌∙◌, false, none, some, [], ◌∷◌, ◌++◌, arith, ◌==◌, ==_iff,
  take, length, length-append, get_elem?, if◌then◌else◌,
}
use inotispy.Text.{Text, slash, text_eq, codes}
use inotispy.Request.{trim_slashes, clean_path}

-- `n` slashes.
abbrev pub slashes : ℕ → Text
slashes zero = []
slashes (suc n) = slash ∷ slashes n

get_elem?-append : (s t : Text) (c : ℕ) → get_elem? (s ++ c ∷ t) (length s) ≡ some c
get_elem?-append [] t c = refl
get_elem?-append (x ∷ s) t c = get_elem?-append s t c

take-append : (s t : Text) → take (length s) (s ++ t) ≡ s
take-append [] t = refl
take-append (x ∷ s) t = ap (◌∷◌ x) (take-append s t)

-- One round of the loop, on a text given by its last character.
trim_slashes_round :
    (s : Text) (c : ℕ)
    → trim_slashes (suc (length s)) (s ++ c ∷ [])
      ≡ (if c == slash then trim_slashes (length s) s else some (s ++ c ∷ []))
unfolding trim_slashes
trim_slashes_round s c = ground (arith, get_elem?-append s [] c, take-append s (c ∷ []))

slashes_snoc : (n : ℕ) → slashes (suc n) ≡ slashes n ++ slash ∷ []
slashes_snoc zero = refl
slashes_snoc (suc n) = ap (◌∷◌ slash) (slashes_snoc n)

length-slashes : (n : ℕ) → length (slashes n) ≡ n
length-slashes zero = refl
length-slashes (suc n) = ap suc (length-slashes n)

length-snoc : (s : Text) (c : ℕ) → length (s ++ c ∷ []) ≡ suc (length s)
length-snoc s c = omega (arith, length-append s (c ∷ []))

-- The loop on a text whose last characters are `n` slashes behind another character.
trim_slashes_lem :
    (s : Text) (c n : ℕ)
    → c ≢ slash
    → trim_slashes (length ((s ++ c ∷ []) ++ slashes n)) ((s ++ c ∷ []) ++ slashes n)
      ≡ some (s ++ c ∷ [])
trim_slashes_lem s c zero h =
    rw (append-nil (s ++ c ∷ []), length-snoc s c)
      (trim_slashes_round s c ∙ ground (arith, ==_iff c slash))
trim_slashes_lem s c (suc n) h =
    let t = (s ++ c ∷ []) ++ slashes n in
    let e : (s ++ c ∷ []) ++ slashes (suc n) ≡ t ++ slash ∷ [] =
      ap (◌++◌ (s ++ c ∷ [])) (slashes_snoc n)
      ∙ sym (append_assoc (s ++ c ∷ []) (slashes n) (slash ∷ [])) in
    rw (e, length-snoc t slash) (trim_slashes_round t slash ∙ trim_slashes_lem s c n h)

trim_slashes_all : (n : ℕ) → trim_slashes (length (slashes n)) (slashes n) ≡ none
trim_slashes_all zero = unfold trim_slashes in refl
trim_slashes_all (suc n) =
    ap (λ t. trim_slashes (length t) t) (slashes_snoc n)
    ∙ rw (length-snoc (slashes n) slash) (trim_slashes_round (slashes n) slash ∙ trim_slashes_all n)

-- A path of a request that has a character other than a slash loses exactly its trailing slashes.
pub clean_path_trims :
    (s : Text) (c n : ℕ) → c ≢ slash → clean_path ((s ++ c ∷ []) ++ slashes n) ≡ some (s ++ c ∷ [])
clean_path_trims [] c n h =
    unfold clean_path text_eq in ground (arith, trim_slashes_lem [] c n h, ==_iff c slash)
clean_path_trims (x ∷ s) c n h =
    unfold clean_path in
    ground (arith, trim_slashes_lem (x ∷ s) c n h, text_eq_longer x s c (slashes n))
  where
    text_eq_longer :
        (y : ℕ) (t : Text) (d : ℕ) (u : Text) → text_eq (y ∷ (t ++ d ∷ []) ++ u) (codes "/") ≡ false
    text_eq_longer y [] d u = unfold text_eq in ground arith
    text_eq_longer y (z ∷ t) d u = unfold text_eq in ground arith

-- A path of two or more slashes and nothing else makes the loop that cuts slashes read the byte
-- before the path.
pub clean_path_out_of_bounds : (n : ℕ) → clean_path (slashes (suc (suc n))) ≡ none
unfolding clean_path text_eq
clean_path_out_of_bounds n = trim_slashes_all (suc (suc n))
