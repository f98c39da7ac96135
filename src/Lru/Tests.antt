-- ===== src/Lru/Tests.antt =====
-- The theorems on common/lru_cache.go at a small cache.
use carmen.Prelude.{ℕ, ◌≡◌, ◌⊎◌, Option, some, [], ◌∷◌, comparable_nat, arith}
use carmen.Prelude.Map.{lookup}
use carmen.Lru.{Lru, set, get}
use carmen.Lru.Eviction.{IsValid, pushed, set_lem, get-set}

abbrev full : Lru ℕ ℕ
full = record { capacity = 2; entries = (1, 10) ∷ (2, 20) ∷ [] }

full-IsValid : IsValid full
full-IsValid = record { roomy = omega arith; fits = omega arith }

set_lem_example : (dropped : Option (ℕ × ℕ)) × (set 3 30 full ≡ some (dropped, pushed 3 30 full))
set_lem_example = set_lem 3 30 full full-IsValid

get-set_example :
    (dropped : Option (ℕ × ℕ)) × (c' : Lru ℕ ℕ) × (set 3 30 full ≡ some (dropped, c'))
    × IsValid c'
    × ((get 3 c').0 ≡ some 30)
    × ((j w : ℕ)
        → lookup j c'.entries ≡ some w
        → ((3 ≡ j) × (30 ≡ w)) ⊎ (lookup j full.entries ≡ some w))
get-set_example = get-set 3 30 full full-IsValid
