-- ===== src/NWays/Lookup.antt =====
-- A read after a write of common/nways_cache.go.
use carmen.Prelude.{
  ℕ, suc, ◌+◌, ◌*◌, ◌^◌, ◌%◌, ◌<◌, ◌≤◌, ◌≡◌, refl, List, Bool, true, false, ◌==◌, comparable_nat,
  length, some, arith, ◌∙◌, sym,
}
use native.Mathlib.Nat.{mod-lt, mul-le-mul_right}
use carmen.FastMap.{entry_at, modify_at}
use carmen.NWays.{
  NWaysCache, Slot, find, get, holds, next_tick, oldest, position, scan, serves, set, set_index,
  place, takes, tick,
}
use carmen.NWays.Scan.{
  Fails, Picks, entry_at-modify_at_other, entry_at-modify_at_same, entry_in, find-first,
  length-modify_at, scan-Picks,
}

module _ {ℓ} {V : Type ℓ} where
  -- There are sets and ways, an item for each, and no entry of a set was used after its ticker.
  pub record IsValid (c : NWaysCache V) : Type ℓ where
    pub sets : 0 < c.numsets
    pub ways : 0 < c.nways
    pub size : length c.items ≡ c.numsets * c.nways
    pub in_time :
        (key j : ℕ) (e : Slot V)
        → position key c ≤ j
        → j < position key c + c.nways
        → entry_at c.items j ≡ some e
        → e.used ≤ c.tickers (set_index key c)

  -- The entry that is written for a key.
  abbrev pub entry_of : ℕ → V → ℕ → Slot V → Slot V
  entry_of key new now x = record x { key = key; content = new; used = now }

  pub set-fits :
      (key : ℕ) (c : NWaysCache V) → IsValid c → position key c + c.nways ≤ length c.items
  set-fits key c valid =
      let bound : suc (key % c.numsets) ≤ c.numsets = mod-lt key valid.sets in
      let fits : suc (key % c.numsets) * c.nways ≤ c.numsets * c.nways =
        mul-le-mul_right c.nways bound in
      let size = valid.size in omega (arith, fits, size)

  takes-holds : (key : ℕ) (e : Slot V) → takes key e ≡ false → holds key e ≡ false
  unfolding takes holds
  takes-holds key e h = ground arith

  -- Get finds an entry where Set has stored it.
  stored-found :
      (key : ℕ) (new : V) (now n i q : ℕ) (items : List (Slot V))
      → 0 < now
      → i ≤ q
      → q < i + n
      → i + n ≤ length items
      → Fails (takes key) items i q
      → find n i key (modify_at (entry_of key new now) q items) ≡ some (some q)
  unfolding holds
  stored-found key new now n i q items pos low high fits before =
      let (e, here) = entry_in items q (omega (arith, high, fits)) in
      find-first key n i q (modify_at (entry_of key new now) q items) (entry_of key new now e) low
        high
        (λ j l g x seen. takes-holds key x (
          before j l g x (
            sym
              (entry_at-modify_at_other (entry_of key new now) q j items (λ y. omega (arith, y, g)))
            ∙ seen)))
        (entry_at-modify_at_same (entry_of key new now) q items e here) (ground (arith, pos))
        (omega (arith, fits, length-modify_at (entry_of key new now) q items))

  pub get-found :
      (key : ℕ) (c : NWaysCache V) (p : ℕ) (e : Slot V)
      → 0 < c.numsets
      → find c.nways (position key c) key c.items ≡ some (some p)
      → entry_at c.items p ≡ some e
      → (after : NWaysCache V) × (get key c ≡ some (after, some e.content))
  unfolding get
  get-found key c p e some_set found here =
      let apart : (c.numsets == 0) ≡ false = ground (arith, some_set) in
      rw (apart, found, here) (_, refl)

  abbrev pub store_at : ℕ → V → ℕ → NWaysCache V → NWaysCache V
  store_at key new q c = place key new (next_tick key c) q (tick key c)

  set-serves :
      (key : ℕ) (new : V) (c : NWaysCache V) (q : ℕ) (e : Slot V)
      → 0 < c.numsets
      → scan (takes key) c.nways (position key c) c.items (next_tick key c) 0 ≡ some (serves q)
      → entry_at c.items q ≡ some e
      → set key new c ≡ some (store_at key new q c, e, false)
  unfolding set
  set-serves key new c q e some_set found here =
      let apart : (c.numsets == 0) ≡ false = ground (arith, some_set) in
      rw (apart, found, here) refl

  set-evicts :
      (key : ℕ) (new : V) (c : NWaysCache V) (q : ℕ) (e : Slot V)
      → 0 < c.numsets
      → scan (takes key) c.nways (position key c) c.items (next_tick key c) 0 ≡ some (oldest q)
      → entry_at c.items q ≡ some e
      → set key new c ≡ some (store_at key new q c, e, true)
  unfolding set
  set-evicts key new c q e some_set found here =
      let apart : (c.numsets == 0) ≡ false = ground (arith, some_set) in
      rw (apart, found, here) refl

  -- Where Set writes: an index of the set, with no entry before it that the key takes.
  abbrev pub Writes : ℕ → V → NWaysCache V → ℕ → Slot V → Bool → Type ℓ
  Writes key new c q e evicted =
      (position key c ≤ q)
      × (q < position key c + c.nways)
      × Fails (takes key) c.items (position key c) q
      × (entry_at c.items q ≡ some e)
      × (set key new c ≡ some (store_at key new q c, e, evicted))

  pub set-Writes :
      (key : ℕ) (new : V) (c : NWaysCache V)
      → IsValid c
      → c.tickers (set_index key c) + 1 < 2 ^ 64
      → (q : ℕ) × (e : Slot V) × (evicted : Bool) × Writes key new c q e evicted
  set-Writes key new c valid bound =
      let fits = set-fits key c valid in
      let ways = valid.ways in
      let (x, first) = entry_in c.items (position key c) (omega (arith, fits, ways)) in
      let early : x.used < next_tick key c =
        ground
          (arith, valid.in_time key (position key c) x (omega arith) (omega (arith, ways)) first) in
      let (spot, runs, picks) =
        scan-Picks (takes key) c.nways (position key c) c.items (next_tick key c) 0 x valid.ways
          fits first early in
      elim spot
          as (λ spot.
            scan (takes key) c.nways (position key c) c.items (next_tick key c) 0 ≡ some spot
            → Picks (takes key) c.nways (position key c) c.items spot
            → (q : ℕ) × (e : Slot V) × (evicted : Bool) × Writes key new c q e evicted) [
              | serves q ↦ λ ran (low, high, before).
                  let (e, here) = entry_in c.items q (omega (arith, high, fits)) in
                  (
                    q,
                    e,
                    false,
                    (low, high, before, here, set-serves key new c q e valid.sets ran here),
                  )
              | oldest q ↦ λ ran (low, high, all).
                  let (e, here) = entry_in c.items q (omega (arith, high, fits)) in
                  (
                    q,
                    e,
                    true,
                    (
                      low,
                      high,
                      (λ j l g. all j l (omega (arith, g, high))),
                      here,
                      set-evicts key new c q e valid.sets ran here,
                    ),
                  )
            ]
        runs picks

  -- In a valid n-ways cache whose ticker for the set of a key is not at its end, Set of the key
  -- ends without a panic, and Get of the key then returns the value that was set, whether the key
  -- was there, took a free entry or evicted another key.
  pub get-set_same :
      (key : ℕ) (new : V) (c : NWaysCache V)
      → IsValid c
      → c.tickers (set_index key c) + 1 < 2 ^ 64
      → (after : NWaysCache V) × (old : Slot V) × (evicted : Bool) × (again : NWaysCache V) × (set
            key new c
          ≡ some (after, old, evicted))
        × (get key after ≡ some (again, some new))
  unfolding place
  get-set_same key new c valid bound =
      let (q, e, evicted, (low, high, before, here, made)) = set-Writes key new c valid bound in
      let now = next_tick key c in
      let found =
        stored-found key new now c.nways (position key c) q c.items (ground (arith, bound)) low high
          (set-fits key c valid) before in
      let (again, read) =
        get-found key (store_at key new q c) q (entry_of key new now e) valid.sets found
          (entry_at-modify_at_same (entry_of key new now) q c.items e here) in
      (store_at key new q c, e, evicted, again, made, read)
