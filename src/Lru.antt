-- ===== src/Lru.antt =====
-- common/lru_cache.go: the cache as the linked list of its entries, head first. The map beside
-- the list in the source holds the same entries by key; a nil dereference is `none`.
pub mod Eviction
pub mod Tests
use carmen.Prelude.{
  ℕ, suc, ◌+◌, ◌≤◌, ◌<◌, ◌≡◌, refl, ap, sym, ◌∙◌, ◌⊎◌, inl, inr, Bool, true, false, Option, none,
  some, List, [], ◌∷◌, arith, length, Comparable, ◌==◌, if◌then◌else◌, leb, is_some, ◌>>=◌,
  Bool-cases, Option-cases,
}
use carmen.Prelude.Map.{lookup, insert, delete, lookup-delete, equal_refl}

pub record Lru {ℓ κ} (K : Type ℓ) (V : Type κ) : Type (ℓ ⊔ κ) where
  pub capacity : ℕ
  pub entries : List (K × V)

-- dropLast: a nil tail, and a tail with no predecessor, panic.
unfoldable pub split_last {ℓ} : {A : Type ℓ} → A → List A → List A × A
split_last x [] = ([], x)
split_last x (y ∷ r) = let (i, l) = split_last y r in (x ∷ i, l)

unfoldable pub drop_last {ℓ} : {A : Type ℓ} → List A → Option (List A × A)
drop_last [] = none
drop_last (x ∷ []) = none
drop_last (x ∷ y ∷ r) = some (split_last x (y ∷ r))

module _ {ℓ κ} {K : Type ℓ} {V : Type κ} ⦃e : Comparable K⦄ where
  unfoldable pub get : K → Lru K V → Option V × Lru K V
  get k c = elim (lookup k c.entries) [
    | none ↦ (none, c)
    | some v ↦ (some v, record c { entries = (k, v) ∷ delete k c.entries })
  ]

  -- Makes room if needed, and puts a new entry in front; the dropped entry is returned.
  unfoldable pub add_front : K → V → Lru K V → Option (Option (K × V) × Lru K V)
  add_front k v c =
      if leb c.capacity (length c.entries)
      then drop_last c.entries
        >>= (λ (kept, dropped). some (some dropped, record c { entries = (k, v) ∷ kept }))
      else some (none, record c { entries = (k, v) ∷ c.entries })

  unfoldable pub set : K → V → Lru K V → Option (Option (K × V) × Lru K V)
  unfolding add_front
  set k v c =
      if is_some (lookup k c.entries)
      then some (none, record c { entries = (k, v) ∷ delete k c.entries })
      else add_front k v c

  unfoldable pub get_or_set : K → V → Lru K V → Option ((Option V × Option (K × V)) × Lru K V)
  get_or_set k v c =
      let (found, c') = get k c in
      if is_some found
      then some ((found, none), c')
      else set k v c' >>= (λ (dropped, c''). some ((none, dropped), c''))

  unfoldable pub remove : K → Lru K V → Option V × Lru K V
  remove k c = (lookup k c.entries, record c { entries = delete k c.entries })

  unfoldable pub clear : Lru K V → Lru K V
  clear c = record c { entries = [] }
