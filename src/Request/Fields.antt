-- ===== src/Request/Fields.antt =====
-- The integer fields of a request in src/request.c: rewatch and count.
use inotispy.Prelude.{
  ◌≡◌, ◌≢◌, ◌∙◌, ◌↔◌, ◌⊎◌, true, false, some, arith, inl, inr, ℤ, int_eq, int_eq_iff, is_neg,
  Bool-cases, Option-cases,
}
use inotispy.Text.{Text, codes}
use inotispy.Request.{
  JsonType, json_int, is_int, JsonC, Request, get_key_int, get_rewatch, get_count, minus_one,
}

module _ {J : JsonC} (req : Request J) where
  -- An integer of a request, under its key.
  abbrev pub HasInt : Text → ℤ → Type 0
  HasInt key z =
      (val : J.Obj) × (J.object_get req.parser key ≡ some val)
      × (J.get_type val ≡ json_int)
      × (J.get_int val ≡ z)

  is_int_iff : (t : JsonType) → (is_int t ≡ true) ↔ (t ≡ json_int)
  unfolding is_int
  is_int_iff t = ground arith

  -- A key gives -1, or the integer that stands under it.
  pub get_key_int_cases :
      (key : Text)
      → HasInt key (get_key_int req key)
        ⊎ (get_key_int req key ≡ minus_one) × ((z : ℤ) → HasInt key z → z ≡ minus_one)
  unfolding get_key_int
  get_key_int_cases key = elim (Option-cases (J.object_get req.parser key)) [
    | inl missing ↦ inr (ground (arith, missing), λ z (val, found, typed, value). absurd (cc))
    | inr (val, found) ↦ elim (Bool-cases (is_int (J.get_type val))) [
      | inl typed ↦
          inl (val, found, (is_int_iff (J.get_type val)).0 typed, ground (arith, found, typed))
      | inr other ↦ inr (
        ground (arith, found, other),
        λ z (v, found', typed, value).
            absurd (ground (arith, found, found', other, (is_int_iff (J.get_type val)).1, typed)),
      )
    ]
  ]

  -- There is one integer under a key.
  HasInt-unique : (key : Text) (a b : ℤ) → HasInt key a → HasInt key b → a ≡ b
  HasInt-unique key a b (v, found, typed, value) (v', found', typed', value') =
      ground (arith, found, found', value, value')

  -- The rewatch flag of a request is set exactly if the key "rewatch" holds an integer other than
  -- -1; zero sets it too.
  pub get_rewatch_iff :
      (get_rewatch req ≡ true) ↔ ((z : ℤ) × HasInt (codes "rewatch") z × (z ≢ minus_one))
  unfolding get_rewatch
  get_rewatch_iff =
      let z = get_key_int req (codes "rewatch") in
      elim (get_key_int_cases (codes "rewatch")) [
        | inl there ↦ (
          λ set. (z, there, λ e. ground (arith, set, e, int_eq_iff z minus_one)),
          λ (y, has_y, other). ground (
            arith,
            other,
            HasInt-unique (codes "rewatch") z y there has_y,
            int_eq_iff z minus_one,
          ),
        )
        | inr (absent, only) ↦ (
          λ set. absurd (ground (arith, set, absent, int_eq_iff z minus_one)),
          λ (y, has_y, other). absurd (other (only y has_y)),
        )
      ]

  -- The count of a request is the integer under "count" if that is not negative; 1 if there is no
  -- integer or if it is -1; and -1, which the caller refuses, if it is another negative integer.
  pub get_count_cases :
      (HasInt (codes "count") (get_count req) × (is_neg (get_count req) ≡ false))
      ⊎ ((get_count req ≡ ℤ.pos 1) × ((z : ℤ) → HasInt (codes "count") z → z ≡ minus_one)
          ⊎ (get_count req ≡ minus_one)
            × ((z : ℤ) × HasInt (codes "count") z × (is_neg z ≡ true) × (z ≢ minus_one)))
  unfolding get_count
  get_count_cases =
      let z = get_key_int req (codes "count") in
      elim (get_key_int_cases (codes "count")) [
        | inr (absent, only) ↦ inr (inl (rw (absent, get_count), only))
        | inl there ↦ elim (Bool-cases (int_eq z minus_one)) [
          | inl one ↦ inr (
              inl (
                ground (arith, one),
                λ y has_y.
                    HasInt-unique (codes "count") y z has_y there ∙ (int_eq_iff z minus_one).0 one,
              ))
          | inr other ↦ elim (Bool-cases (is_neg z)) [
            | inl negative ↦ inr (
                inr (
                  ground (arith, other, negative),
                  (z, there, negative, λ e. ground (arith, e, other, int_eq_iff z minus_one)),
                ))
            | inr fine ↦
                let same : get_count req ≡ z = ground (arith, other, fine) in
                inl (rw same there, ground (arith, other, fine))
          ]
        ]
      ]
