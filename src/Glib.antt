-- ===== src/Glib.antt =====
-- GLib's GHashTable, which src/inotify.c calls and this repository does not hold: an interface of
-- the calls that the daemon makes, with the documented behaviour that it relies on. The order in
-- which keys and values are listed is left open.
pub mod Assoc
use mathlib.Core.List.{Memᴰ, Permᴰ}
use inotispy.Prelude.{
  ℕ, suc, ◌-◌, ◌≡◌, Bool, true, false, not, ◌&&◌, ◌||◌, Option, none, some, List, [], ◌∷◌,
  if◌then◌else◌, is_some, length,
}

module _ {K : Type 0} (eq : K → K → Bool) where
  abbrev pub member : K → List K → Bool
  member k [] = false
  member k (j ∷ ks) = eq j k || member k ks

  abbrev pub distinct : List K → Bool
  distinct [] = true
  distinct (k ∷ ks) = not (member k ks) && distinct ks

pub record GHash (K V : Type 0) (eq : K → K → Bool) : Type 1 where
  pub Table : Type 0
  pub new : Table
  pub lookup : Table → K → Option V
  pub replace : Table → K → V → Table
  pub remove : Table → K → Table
  pub keys : Table → List K
  pub values : Table → List V
  pub size : Table → ℕ
  pub lookup-new : (k : K) → lookup new k ≡ none
  pub lookup-replace :
      (t : Table) (k : K) (v : V) (j : K)
      → lookup (replace t k v) j ≡ (if eq k j then some v else lookup t j)
  pub lookup-remove :
      (t : Table) (k j : K) → lookup (remove t k) j ≡ (if eq k j then none else lookup t j)
  pub member-keys : (t : Table) (k : K) → member eq k (keys t) ≡ is_some (lookup t k)
  pub distinct-keys : (t : Table) → distinct eq (keys t) ≡ true
  pub size-keys : (t : Table) → size t ≡ length (keys t)
  pub size-new : size new ≡ 0
  pub size-replace :
      (t : Table) (k : K) (v : V)
      → size (replace t k v) ≡ (if is_some (lookup t k) then size t else suc (size t))
  pub size-remove :
      (t : Table) (k : K)
      → size (remove t k) ≡ (if is_some (lookup t k) then size t - 1 else size t)
  pub values-replace :
      (t : Table) (k : K) (v : V)
      → lookup t k ≡ none
      → Permᴰ (values (replace t k v)) (v ∷ values t)
  pub values_sound : (t : Table) (v : V) → Memᴰ v (values t) → (k : K) × (lookup t k ≡ some v)
  pub values_complete : (t : Table) (k : K) (v : V) → lookup t k ≡ some v → Memᴰ v (values t)
