-- ===== src/NWays/Tests.antt =====
-- common/nways_cache.go at a cache of two sets of two ways.
use carmen.Prelude.{
  ℕ, zero, suc, ◌≡◌, refl, length, Option, none, some, Bool, true, false, List, [], ◌∷◌, map, arith,
  ◌==◌, comparable_nat, if◌then◌else◌, ◌≤◌, ◌<◌, ◌+◌,
}
use carmen.NWays.{
  NWaysCache, Slot, clear, clear_sets, clear_ways, fill_hole, find, get, get_or_set, holds,
  new_nways_cache, remove, scan, set, place, takes, tick, position, set_index,
}
use carmen.FastMap.{entry_at}
use carmen.NWays.Keeps.{get-set_other, set-IsValid, value_of}
use carmen.NWays.Lookup.{IsValid, get-set_same}

abbrev ticks : ℕ → ℕ
ticks i = if i == 8 then 2 else 0

-- The keys 1, 3 and 5 share a set.
abbrev two_ways : NWaysCache ℕ
two_ways = record {
  items =
      record { key = 0; content = 0; used = 0 }
      ∷ record { key = 0; content = 0; used = 0 }
      ∷ record { key = 1; content = 10; used = 1 }
      ∷ record { key = 3; content = 30; used = 2 }
      ∷ [];
  nways = 2;
  numsets = 2;
  tickers = ticks;
}

abbrev contents : Option (NWaysCache ℕ × Slot ℕ × Bool) → List ℕ
contents none = []
contents (some (c, old, evicted)) = map (λ (e : Slot ℕ). e.key) c.items

abbrev value : Option (NWaysCache ℕ × Option ℕ × Option (Slot ℕ × Bool)) → Option ℕ
value none = none
value (some (c, current, old)) = current

abbrev keys_left : Option (NWaysCache ℕ × Option ℕ) → List ℕ
keys_left none = []
keys_left (some (c, original)) = map (λ (e : Slot ℕ). e.key) c.items

new_lem : new_nways_cache 0 3 2 ≡ record two_ways {
  items =
      record { key = 0; content = 0; used = 0 }
      ∷ record { key = 0; content = 0; used = 0 }
      ∷ record { key = 0; content = 0; used = 0 }
      ∷ record { key = 0; content = 0; used = 0 }
      ∷ [];
  tickers = λ i. 0;
}
unfolding new_nways_cache
new_lem = refl

set_evicts : contents (set 5 50 two_ways) ≡ 0 ∷ 0 ∷ 5 ∷ 3 ∷ []
unfolding set scan takes place
set_evicts = refl

get_or_set_finds : value (get_or_set 3 77 two_ways) ≡ some 30
unfolding get_or_set scan holds
get_or_set_finds = refl

remove_fills : keys_left (remove 1 two_ways) ≡ 0 ∷ 0 ∷ 3 ∷ 3 ∷ []
unfolding remove find fill_hole holds
remove_fills = refl

cleared : map (λ (e : Slot ℕ). e.used) (clear 0 two_ways).items ≡ 0 ∷ 0 ∷ 0 ∷ 0 ∷ []
unfolding clear clear_sets clear_ways
cleared = refl

two_ways-in_time :
    (key j : ℕ) (e : Slot ℕ)
    → position key two_ways ≤ j
    → j < position key two_ways + 2
    → entry_at two_ways.items j ≡ some e
    → e.used ≤ ticks (set_index key two_ways)
two_ways-in_time key zero e low high seen = let used : 0 ≡ e.used = cc in omega (arith, used)
two_ways-in_time key (suc zero) e low high seen = let used : 0 ≡ e.used = cc in omega (arith, used)
two_ways-in_time key (suc (suc zero)) e low high seen =
    let used : 1 ≡ e.used = cc in ground (arith, used, low, high)
two_ways-in_time key (suc (suc (suc zero))) e low high seen =
    let used : 2 ≡ e.used = cc in ground (arith, used, low, high)
two_ways-in_time key (suc (suc (suc (suc j)))) e low high seen = cc

two_ways-IsValid : IsValid two_ways
two_ways-IsValid = record {
  sets = omega arith;
  ways = omega arith;
  size = refl;
  in_time = two_ways-in_time;
}

get-set_same_example :
    (after : NWaysCache ℕ) × (old : Slot ℕ) × (evicted : Bool) × (again : NWaysCache ℕ) × (set 5 50
        two_ways
      ≡ some (after, old, evicted))
    × (get 5 after ≡ some (again, some 50))
get-set_same_example = get-set_same 5 50 two_ways two_ways-IsValid (ground arith)

-- The cache after the key 5 has evicted the key 1.
abbrev after_five : NWaysCache ℕ
after_five = place 5 50 3 2 (tick 5 two_ways)

abbrev evicted_one : Slot ℕ
evicted_one = record { key = 1; content = 10; used = 1 }

set_five : set 5 50 two_ways ≡ some (after_five, evicted_one, true)
unfolding set scan takes place
set_five = refl

one_gone : holds 3 evicted_one ≡ false
unfolding holds
one_gone = refl

get-set_other_example : value_of (get 3 after_five) ≡ value_of (get 3 two_ways)
get-set_other_example =
    get-set_other 5 3 50 two_ways after_five evicted_one true two_ways-IsValid (ground arith)
      set_five (λ e. omega (arith, e)) one_gone

set-IsValid_example :
    IsValid after_five
    × (after_five.numsets ≡ 2)
    × (after_five.nways ≡ 2)
    × (length after_five.items ≡ 4)
set-IsValid_example =
    set-IsValid 5 50 two_ways after_five evicted_one true two_ways-IsValid (ground arith) set_five
