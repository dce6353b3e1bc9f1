-- ===== src/Glib/Assoc.antt =====
-- An association list without repeated keys as a GHashTable: an instance for tests.
use mathlib.Core.List.{Memᴰ, Permᴰ}
use mathlib.Core.List.Permᴰ
use inotispy.Prelude.{
  ℕ, suc, ◌-◌, ◌≡◌, refl, ◌∙◌, ◌↔◌, inl, inr, Bool, true, false, Option, none, some, List, [], ◌∷◌,
  arith, if◌then◌else◌, is_some, length, Bool-cases,
}
use inotispy.Glib.{GHash, member, distinct}

module _ {K V : Type 0} where
  abbrev pub keys_of : List (K × V) → List K
  keys_of [] = []
  keys_of ((k, v) ∷ l) = k ∷ keys_of l

  abbrev pub values_of : List (K × V) → List V
  values_of [] = []
  values_of ((k, v) ∷ l) = v ∷ values_of l

module _ {K V : Type 0} (eq : K → K → Bool) where
  abbrev pub find : List (K × V) → K → Option V
  find [] k = none
  find ((j, v) ∷ l) k = if eq j k then some v else find l k

  abbrev pub without : List (K × V) → K → List (K × V)
  without [] k = []
  without ((j, v) ∷ l) k = let rest = without l k in if eq j k then rest else (j, v) ∷ rest

  pub member-keys_of : (l : List (K × V)) (k : K) → member eq k (keys_of l) ≡ is_some (find l k)
  member-keys_of [] k = refl
  member-keys_of ((j, v) ∷ l) k = ground (arith, member-keys_of l k)

module _ {K V : Type 0} (eq : K → K → Bool) (eq_iff : (a b : K) → (eq a b ≡ true) ↔ (a ≡ b)) where
  pub find-without :
      (l : List (K × V)) (k j : K)
      → find eq (without eq l k) j ≡ (if eq k j then none else find eq l j)
  find-without [] k j = ground arith
  find-without ((i, v) ∷ l) k j =
      ground (arith, find-without l k j, eq_iff i k, eq_iff i j, eq_iff k j)

  pub without_absent : (l : List (K × V)) (k : K) → find eq l k ≡ none → without eq l k ≡ l
  without_absent [] k h = refl
  without_absent ((j, v) ∷ l) k h = ground (arith, without_absent l k)

  member-without :
      (l : List (K × V)) (k j : K)
      → member eq j (keys_of l) ≡ false
      → member eq j (keys_of (without eq l k)) ≡ false
  member-without [] k j h = refl
  member-without ((i, v) ∷ l) k j h = ground (arith, member-without l k j)

  pub distinct-without :
      (l : List (K × V)) (k : K)
      → distinct eq (keys_of l) ≡ true
      → distinct eq (keys_of (without eq l k)) ≡ true
  distinct-without [] k h = refl
  distinct-without ((j, v) ∷ l) k h = ground (arith, distinct-without l k, member-without l k j)

  without-keys : (l : List (K × V)) (k : K) → member eq k (keys_of (without eq l k)) ≡ false
  without-keys l k =
      member-keys_of eq (without eq l k) k
      ∙ ground (arith, find-without l k k, eq_iff k k, (eq_iff k k).1 refl)

  pub length-without :
      (l : List (K × V)) (k : K)
      → distinct eq (keys_of l) ≡ true
      → length (keys_of (without eq l k))
        ≡ (if is_some (find eq l k) then length (keys_of l) - 1 else length (keys_of l))
  length-without [] k h = refl
  length-without ((j, v) ∷ l) k h = elim (Bool-cases (eq j k)) [
    | inl e ↦ ground (arith, without_absent l k, member-keys_of eq l j, eq_iff j k)
    | inr e ↦ ground (arith, length-without l k, positive l k)
  ]
    where
      positive :
          (m : List (K × V)) (i : K)
          → is_some (find eq m i) ≡ true
          → (n : ℕ) × (length (keys_of m) ≡ suc n)
      positive [] i p = absurd (cc)
      positive ((i', v') ∷ m) i p = (length (keys_of m), refl)

  pub values_of_sound :
      (l : List (K × V)) (v : V)
      → distinct eq (keys_of l) ≡ true
      → Memᴰ v (values_of l)
      → (k : K) × (find eq l k ≡ some v)
  values_of_sound [] v d m = elim m [ ]
  values_of_sound ((k, w) ∷ l) v d (Memᴰ.head e) = (k, ground (arith, (eq_iff k k).1 refl, e))
  values_of_sound ((k, w) ∷ l) v d (Memᴰ.tail m) =
      let (j, e) = values_of_sound l v (ground arith) m in
      (j, ground (arith, e, eq_iff k j, member-keys_of eq l k))

  pub values_of_complete :
      (l : List (K × V)) (k : K) (v : V) → find eq l k ≡ some v → Memᴰ v (values_of l)
  values_of_complete [] k v h = absurd (cc)
  values_of_complete ((j, w) ∷ l) k v h = elim (Bool-cases (eq j k)) [
    | inl e ↦ Memᴰ.head (ground (arith, e))
    | inr e ↦ Memᴰ.tail (values_of_complete l k v (ground (arith, e)))
  ]

module _ {K : Type 0} (V : Type 0) (eq : K → K → Bool) where
  abbrev Entries : Type 0
  Entries = (l : List (K × V)) × (distinct eq (keys_of l) ≡ true)

module _ {K : Type 0} (V : Type 0) {eq : K → K → Bool}
    (eq_iff : (a b : K) → (eq a b ≡ true) ↔ (a ≡ b)) where
  pub distinct-replace :
      (l : List (K × V)) (k : K)
      → distinct eq (keys_of l) ≡ true
      → distinct eq (k ∷ keys_of (without eq l k)) ≡ true
  distinct-replace l k d = rw (without-keys eq eq_iff l k) (distinct-without eq eq_iff l k d)

  pub find-replace :
      (l : List (K × V)) (k : K) (v : V) (j : K)
      → find eq ((k, v) ∷ without eq l k) j ≡ (if eq k j then some v else find eq l j)
  find-replace l k v j = ground (arith, find-without eq eq_iff l k j)

  pub length-replace :
      (l : List (K × V)) (k : K)
      → distinct eq (keys_of l) ≡ true
      → suc (length (keys_of (without eq l k)))
        ≡ (if is_some (find eq l k) then length (keys_of l) else suc (length (keys_of l)))
  length-replace l k d = ground (arith, length-without eq eq_iff l k d, positive l)
    where
      positive :
          (m : List (K × V)) → is_some (find eq m k) ≡ true → (n : ℕ) × (length (keys_of m) ≡ suc n)
      positive [] p = absurd (cc)
      positive ((i', v') ∷ m) p = (length (keys_of m), refl)

  pub values-replace_of :
      (l : List (K × V)) (k : K) (v : V)
      → find eq l k ≡ none
      → Permᴰ (values_of ((k, v) ∷ without eq l k)) (v ∷ values_of l)
  values-replace_of l k v e = rw (without_absent eq eq_iff l k e) (Permᴰ.refl (v ∷ values_of l))

  abbrev pub assoc_hash : GHash K V eq
  assoc_hash = record {
    Table = Entries V eq;
    new = ([], refl);
    lookup = λ t k. find eq t.0 k;
    replace = λ t k v. ((k, v) ∷ without eq t.0 k, distinct-replace t.0 k t.1);
    remove = λ t k. (without eq t.0 k, distinct-without eq eq_iff t.0 k t.1);
    keys = λ t. keys_of t.0;
    values = λ t. values_of t.0;
    size = λ t. length (keys_of t.0);
    lookup-new = λ k. refl;
    lookup-replace = λ t k v j. find-replace t.0 k v j;
    lookup-remove = λ t k j. find-without eq eq_iff t.0 k j;
    member-keys = λ t k. member-keys_of eq t.0 k;
    distinct-keys = λ t. t.1;
    size-keys = λ t. refl;
    size-new = refl;
    size-replace = λ t k v. length-replace t.0 k t.1;
    size-remove = λ t k. length-without eq eq_iff t.0 k t.1;
    values-replace = λ t k v e. values-replace_of t.0 k v e;
    values_sound = λ t v m. values_of_sound eq eq_iff t.0 v t.1 m;
    values_complete = λ t k v e. values_of_complete eq eq_iff t.0 k v e;
  }
