-- ===== src/Prelude/Map.antt =====
-- Go's maps, and common/fast_map.go seen as a map, as association lists.
use mathlib.Core.Path.{◌≡◌, refl, sym, ap, ◌∙◌}
use mathlib.Core.Logic.{inl, inr}
use mathlib.Core.Bool.{true}
use mathlib.Core.List.{List, [], ◌∷◌}
use mathlib.Core.Option.{Option, none, some}
use native.Mathlib.Omega.{arith}
use carmen.Prelude.Tests.{Comparable, ◌==◌, if◌then◌else◌, Bool-cases}

abbrev pub Map {ℓ κ} : Type ℓ → Type κ → Type (ℓ ⊔ κ)
Map K V = List (K × V)

module _ {ℓ κ} {K : Type ℓ} {V : Type κ} where
  unfoldable pub lookup : ⦃c : Comparable K⦄ → K → Map K V → Option V
  lookup key [] = none
  lookup key (entry ∷ more) = if entry.0 == key then some entry.1 else lookup key more

  unfoldable pub delete : ⦃c : Comparable K⦄ → K → Map K V → Map K V
  delete key [] = []
  delete key (entry ∷ more) =
      let rest = delete key more in if entry.0 == key then rest else entry ∷ rest

  unfoldable pub insert : ⦃c : Comparable K⦄ → K → V → Map K V → Map K V
  insert key new [] = (key, new) ∷ []
  insert key new (entry ∷ more) =
      if entry.0 == key then (key, new) ∷ more else entry ∷ insert key new more

  abbrev pub keys : Map K V → List K
  keys [] = []
  keys ((k, v) ∷ m) = k ∷ keys m

module _ {ℓ} {K : Type ℓ} ⦃e : Comparable K⦄ where
  pub equal_refl : (k : K) → (k == k) ≡ true
  equal_refl k = (e.equal_iff k k).1 refl

  -- A failing test tells the keys apart, also the other way round.
  pub equal_eq : (i k j : K) → (i == k) ≡ true → (i == j) ≡ (k == j)
  equal_eq i k j h = rw ((e.equal_iff i k).0 h)

  pub equal_sym : (k j : K) → (k == j) ≡ (j == k)
  equal_sym k j = elim (Bool-cases (k == j)) [
    | inl t ↦ rw (t, (e.equal_iff k j).0 t, equal_refl j)
    | inr f ↦ elim (Bool-cases (j == k)) [
      | inl t ↦ (e.equal_iff k j).1 (sym ((e.equal_iff j k).0 t)) ∙ sym t
      | inr g ↦ f ∙ sym g
    ]
  ]

module _ {ℓ κ} {K : Type ℓ} {V : Type κ} ⦃e : Comparable K⦄ where
  pub lookup-insert :
      (key other : K) (new : V) (entries : Map K V)
      → lookup other (insert key new entries)
        ≡ (if key == other then some new else lookup other entries)
  unfolding insert lookup
  lookup-insert key other new [] = refl
  lookup-insert key other new ((i, w) ∷ more) = elim (Bool-cases (i == key)) [
    | inl t ↦ rw (t, equal_eq i key other t, lookup) (ground arith)
    | inr f ↦ elim (Bool-cases (i == other)) [
      | inl u ↦
          rw (f, lookup, u)
            (rw (
              ◌∙◌ (ap (λ x. key == x) (sym ((e.equal_iff i other).0 u))) (◌∙◌ (equal_sym key i) f)))
      | inr u ↦ rw (f, lookup, u) (lookup-insert key other new more)
    ]
  ]

  pub lookup-delete :
      (k j : K) (m : Map K V) → lookup j (delete k m) ≡ (if k == j then none else lookup j m)
  unfolding lookup delete
  lookup-delete k j [] = ground arith
  lookup-delete k j ((i, w) ∷ m) = elim (Bool-cases (i == k)) [
    | inl t ↦ rw (t, equal_eq i k j t) (lookup-delete k j m ∙ ground arith)
    | inr f ↦ elim (Bool-cases (i == j)) [
      | inl u ↦
          rw (f, lookup, u)
            (rw (◌∙◌ (ap (λ x. k == x) (sym ((e.equal_iff i j).0 u))) (◌∙◌ (equal_sym k i) f)))
      | inr u ↦ rw (f, lookup, u) (lookup-delete k j m)
    ]
  ]

  pub lookup-insert_same : (k : K) (v : V) (m : Map K V) → lookup k (insert k v m) ≡ some v
  lookup-insert_same k v m = lookup-insert k k v m ∙ rw (equal_refl k) refl
