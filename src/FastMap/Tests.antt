-- ===== src/FastMap/Tests.antt =====
-- The theorem on common/fast_map.go at a map with one bucket.
use carmen.Prelude.{ℕ, ◌≡◌, some, ◌%◌, comparable_nat, arith}
use carmen.FastMap.{FastMap, new_fast_map, put, get, find_in, use_bucket, add_entry, to_pos}
use carmen.FastMap.Lookup.{get-put}

abbrev filled : FastMap ℕ ℕ
filled = put 3 30 (put 1 10 (new_fast_map (λ k. k % 2)))

get-put_example : get 1 (put 1 40 filled) ≡ some 40
unfolding put new_fast_map find_in use_bucket add_entry to_pos
get-put_example = get-put 1 40 filled (omega arith)
