-- ===== src/Prelude/Maps.antt =====
-- Go's built-in maps, as association lists over keys with a Boolean equality. The program never
-- depends on the order in which Go walks a map.
use mathlib.Core.Path.{◌≡◌, refl}
use mathlib.Core.Logic.{◌↔◌}
use mathlib.Core.Bool.{Bool, true}
use mathlib.Core.List.{List, [], ◌∷◌}
use mathlib.Core.Option.{Option, none, some}
use native.Mathlib.Omega.{arith}
use url_shortner.Prelude.Tests.{if◌then◌else◌}

pub record Eq {ℓ} (A : Type ℓ) : Type ℓ where
  pub eqb : A → A → Bool
  pub eqb_iff : (x y : A) → (eqb x y ≡ true) ↔ (x ≡ y)

abbrev pub GoMap {ℓ κ} : Type ℓ → Type κ → Type (ℓ ⊔ κ)
GoMap K V = List (K × V)

module _ {ℓ κ} {K : Type ℓ} {V : Type κ} ⦃e : Eq K⦄ where
  unfoldable pub lookup : K → GoMap K V → Option V
  lookup key [] = none
  lookup key ((other, v) ∷ rest) = if e.eqb other key then some v else lookup key rest

  unfoldable pub insert : K → V → GoMap K V → GoMap K V
  insert key v [] = (key, v) ∷ []
  insert key v ((other, w) ∷ rest) =
      if e.eqb other key then (key, v) ∷ rest else (other, w) ∷ insert key v rest

  pub lookup-insert :
      (k j : K) (v : V) (m : GoMap K V)
      → lookup j (insert k v m) ≡ (if e.eqb k j then some v else lookup j m)
  unfolding lookup insert
  lookup-insert k j v [] = refl
  lookup-insert k j v ((i, w) ∷ m) =
      ground (arith, e.eqb_iff k j, e.eqb_iff i k, e.eqb_iff i j, lookup-insert k j v m)

  pub lookup-insert_self : (k : K) (v : V) (m : GoMap K V) → lookup k (insert k v m) ≡ some v
  lookup-insert_self k v m = ground (arith, lookup-insert k k v m, e.eqb_iff k k)
