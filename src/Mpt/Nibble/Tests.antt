-- ===== src/Mpt/Nibble/Tests.antt =====
-- The theorems on database/mpt/nibble.go at short paths.
use carmen.Prelude.{ℕ, List, [], ◌∷◌}

abbrev path : List ℕ
path = 1 ∷ 2 ∷ 3 ∷ []

abbrev other : List ℕ
other = 1 ∷ 2 ∷ 5 ∷ 6 ∷ []
