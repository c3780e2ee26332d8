-- ===== src/Prelude/Map.antt =====
-- Hash maps as association lists. `insert` replaces in place, so a key stands once; `Distinct`
-- says so. The program reads no map in its order.
use Prim.Native.Nat.{ℕ}
use mathlib.Core.Path.{◌≡◌, refl, subst}
use mathlib.Core.Logic.{◌↔◌, inl, inr}
use mathlib.Core.Bool.{Bool, true}
use mathlib.Core.Option.{Option, none, some}
use mathlib.Core.List.{List, [], ◌∷◌}
use native.Mathlib.Omega.{arith}
use controlis.Prelude.Tests.{if◌then◌else◌, nat_beq, nat_beq_iff, Bool-cases}

pub record Eq {κ} (K : Type κ) : Type κ where
  pub beq : K → K → Bool
  pub beq_iff : (j k : K) → (beq j k ≡ true) ↔ (j ≡ k)

instance abbrev pub nat_eq : Eq ℕ
nat_eq = record { beq = nat_beq; beq_iff = nat_beq_iff }

infix 50 ◌==◌
abbrev pub ◌==◌ {κ} : {K : Type κ} ⦃keys : Eq K⦄ → K → K → Bool
◌==◌ ⦃keys⦄ j k = keys.beq j k

abbrev pub keep {κ} : {V : Type κ} → (V → Bool) → Option V → Option V
keep p none = none
keep p (some v) = if p v then some v else none

module _ {ℓ κ} {K : Type ℓ} ⦃e : Eq K⦄ {V : Type κ} where
  unfoldable pub lookup : K → List (K × V) → Option V
  lookup k [] = none
  lookup k ((key, v) ∷ rest) = if key == k then some v else lookup k rest

  unfoldable pub insert : K → V → List (K × V) → List (K × V)
  insert k v [] = (k, v) ∷ []
  insert k v ((key, old) ∷ rest) =
      if key == k then (key, v) ∷ rest else (key, old) ∷ insert k v rest

  unfoldable pub remove : K → List (K × V) → List (K × V)
  remove k [] = []
  remove k ((j, v) ∷ m) = if j == k then m else (j, v) ∷ remove k m

  unfoldable pub retain : (V → Bool) → List (K × V) → List (K × V)
  retain p [] = []
  retain p ((j, v) ∷ m) = let rest = retain p m in if p v then (j, v) ∷ rest else rest

  -- No key stands twice.
  abbrev pub Distinct : List (K × V) → Type κ
  Distinct [] = Unit
  Distinct ((k, v) ∷ m) = (lookup k m ≡ none) × Distinct m

  pub lookup-insert :
      (k at : K) (v : V) (rest : List (K × V))
      → lookup at (insert k v rest) ≡ (if k == at then some v else lookup at rest)
  unfolding lookup insert
  lookup-insert k at v [] = refl
  lookup-insert k at v ((key, old) ∷ rest) =
      ground (arith, e.beq_iff k at, e.beq_iff key k, e.beq_iff key at, lookup-insert k at v rest)

  pub insert-Distinct : (k : K) (v : V) (m : List (K × V)) → Distinct m → Distinct (insert k v m)
  unfolding lookup insert
  insert-Distinct k v [] d = (refl, tt)
  insert-Distinct k v ((i, w) ∷ m) d =
      ground (arith, e.beq_iff k i, e.beq_iff i k, lookup-insert k i v m, insert-Distinct k v m d.1)

  pub lookup-remove :
      (k j : K) (m : List (K × V))
      → Distinct m
      → lookup j (remove k m) ≡ (if k == j then none else lookup j m)
  unfolding lookup remove
  lookup-remove k j [] d = ground arith
  lookup-remove k j ((i, w) ∷ m) d =
      ground (arith, e.beq_iff k j, e.beq_iff i k, e.beq_iff i j, lookup-remove k j m d.1)

  pub remove-Distinct : (k : K) (m : List (K × V)) → Distinct m → Distinct (remove k m)
  unfolding lookup remove
  remove-Distinct k [] d = tt
  remove-Distinct k ((i, w) ∷ m) d =
      ground (arith, lookup-remove k i m d.1, remove-Distinct k m d.1)

  pub lookup-retain :
      (p : V → Bool) (j : K) (m : List (K × V))
      → Distinct m
      → lookup j (retain p m) ≡ keep p (lookup j m)
  unfolding lookup retain
  lookup-retain p j [] d = refl
  lookup-retain p j ((i, w) ∷ m) d = ground (arith, e.beq_iff i j, lookup-retain p j m d.1)

  pub retain-Distinct : (p : V → Bool) (m : List (K × V)) → Distinct m → Distinct (retain p m)
  unfolding lookup retain
  retain-Distinct p [] d = tt
  retain-Distinct p ((i, w) ∷ m) d =
      ground (arith, lookup-retain p i m d.1, retain-Distinct p m d.1)

  -- Where an entry that is found after an update comes from.
  pub insert_entries {ν} :
      (P : V → Type ν) (k j : K) (v r : V) (m : List (K × V))
      → P v
      → ((r : V) → lookup j m ≡ some r → P r)
      → lookup j (insert k v m) ≡ some r
      → P r
  insert_entries P k j v r m hv hm h = elim (Bool-cases (e.beq k j)) [
    | inl same ↦ subst P (cc (same, h, lookup-insert k j v m)) hv
    | inr other ↦ hm r (cc (other, h, lookup-insert k j v m))
  ]

  pub remove_entries :
      (k j : K) (r : V) (m : List (K × V))
      → Distinct m
      → lookup j (remove k m) ≡ some r
      → lookup j m ≡ some r
  remove_entries k j r m d h = ground (arith, lookup-remove k j m d)

  pub retain_entries :
      (p : V → Bool) (j : K) (r : V) (m : List (K × V))
      → Distinct m
      → lookup j (retain p m) ≡ some r
      → lookup j m ≡ some r
  retain_entries p j r m d h = ground (arith, lookup-retain p j m d)
