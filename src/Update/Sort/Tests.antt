-- ===== src/Update/Sort/Tests.antt =====
-- The theorems on the order of go/common/update.go at a small list.
use carmen.Prelude.{ℕ, ◌≡◌, true, [], ◌∷◌}
use carmen.Update.Sort.{is_sorted_and_unique, sort_unique, account_less, account_equal}
use carmen.Update.Sort.Order.{has, sort_unique_lem}

sort_unique_lem_example :
    (is_sorted_and_unique account_less (sort_unique account_less account_equal (3 ∷ 1 ∷ 3 ∷ 2 ∷ []))
      ≡ true)
    × ((a : ℕ)
        → has a (sort_unique account_less account_equal (3 ∷ 1 ∷ 3 ∷ 2 ∷ []))
          ≡ has a (3 ∷ 1 ∷ 3 ∷ 2 ∷ []))
sort_unique_lem_example = sort_unique_lem (3 ∷ 1 ∷ 3 ∷ 2 ∷ [])
