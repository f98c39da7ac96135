-- ===== src/NWays.antt =====
-- common/nways_cache.go: a cache that keeps a key in one of the ways of the set of the key.
-- A key is the number `uint(key)`. A set is locked for the whole of each operation on it, so that
-- an operation is one step; `none` is a run-time panic.
pub mod Scan
pub mod Lookup
pub mod Keeps
pub mod Tests
use carmen.Prelude.{
  ℕ, zero, suc, ◌+◌, ◌-◌, ◌*◌, ◌^◌, ◌/◌, ◌%◌, List, [], ◌∷◌, Bool, true, false, ◌&&◌, ◌||◌,
  if◌then◌else◌, ◌==◌, comparable_nat, ltb, Option, none, some,
}
use carmen.FastMap.{entry_at, modify_at}

-- nWaysCacheEntry
pub record Slot {ℓ} (V : Type ℓ) : Type ℓ where
  pub key : ℕ
  pub content : V
  pub used : ℕ

-- `tickers` is the slice of that name as a function of the index.
pub record NWaysCache {ℓ} (V : Type ℓ) : Type ℓ where
  pub items : List (Slot V)
  pub nways : ℕ
  pub numsets : ℕ
  pub tickers : ℕ → ℕ

-- Where the scan of a set ends: at an entry that serves, or with the entry that was used first.
pub data Spot : Type 0 where
  serves oldest : ℕ → Spot

module _ {ℓ} {V : Type ℓ} where
  abbrev pub empty_slots : V → ℕ → List (Slot V)
  empty_slots nothing zero = []
  empty_slots nothing (suc n) =
      record { key = 0; content = nothing; used = 0 } ∷ empty_slots nothing n

  -- NewNWaysCache, with at least one way, and `nothing` for the zero value of V.
  unfoldable pub new_nways_cache : V → ℕ → ℕ → NWaysCache V
  new_nways_cache nothing capacity ways =
      let sets = (capacity + (ways - 1)) / ways in
      record {
        items = empty_slots nothing (sets * ways);
        nways = ways;
        numsets = sets;
        tickers = λ i. 0;
      }

  abbrev pub set_index : ℕ → NWaysCache V → ℕ
  set_index key c = (key % c.numsets) * 8

  abbrev pub position : ℕ → NWaysCache V → ℕ
  position key c = key % c.numsets * c.nways

  abbrev pub next_tick : ℕ → NWaysCache V → ℕ
  next_tick key c = (c.tickers (set_index key c) + 1) % 2 ^ 64

  -- The ticker of the set of the key goes up.
  abbrev pub tick : ℕ → NWaysCache V → NWaysCache V
  tick key c =
      let now = next_tick key c in
      record c { tickers = λ i. if i == set_index key c then now else c.tickers i }

  unfoldable pub holds : ℕ → Slot V → Bool
  holds key e = ltb 0 e.used && e.key == key

  unfoldable pub takes : ℕ → Slot V → Bool
  takes key e = e.used == 0 || e.key == key

  -- The loop of Get and of Remove over the ways of a set.
  unfoldable pub find : ℕ → ℕ → ℕ → List (Slot V) → Option (Option ℕ)
  find zero i key items = some none
  find (suc n) i key items = elim (entry_at items i) [
    | none ↦ none
    | some e ↦ let rest = find n (suc i) key items in if holds key e then some (some i) else rest
  ]

  -- The loop of Set and of GetOrSet: `first` is the least use so far, at the index `at`.
  unfoldable pub scan : (Slot V → Bool) → ℕ → ℕ → List (Slot V) → ℕ → ℕ → Option Spot
  scan stop zero i items first at = some (oldest at)
  scan stop (suc n) i items first at = elim (entry_at items i) [
    | none ↦ none
    | some e ↦
        let newer = scan stop n (suc i) items first at in
        let older = scan stop n (suc i) items e.used i in
        if stop e then some (serves i) else if ltb e.used first then older else newer
  ]

  -- The entry at the position, read, with its time of use set.
  abbrev pub refresh : ℕ → ℕ → NWaysCache V → Option (NWaysCache V × V)
  refresh now p c = elim (entry_at c.items p) [
    | none ↦ none
    | some e ↦
        some (record c { items = modify_at (λ x. record x { used = now }) p c.items }, e.content)
  ]

  -- A read gives the entry a new time of use.
  unfoldable pub get : ℕ → NWaysCache V → Option (NWaysCache V × Option V)
  get key c =
      let now = next_tick key c in
      let ticked = tick key c in
      if c.numsets == 0 then none else elim (find c.nways (position key c) key c.items) [
        | none ↦ none
        | some none ↦ some (ticked, none)
        | some (some p) ↦ elim (refresh now p ticked) [
          | none ↦ none
          | some (after, current) ↦ some (after, some current)
        ]
      ]

  unfoldable pub place : ℕ → V → ℕ → ℕ → NWaysCache V → NWaysCache V
  place key new now p c = record c {
    items = modify_at (λ x. record x { key = key; content = new; used = now }) p c.items;
  }

  -- The cache with the key, content and time of use that stood at the position.
  abbrev pub replace : ℕ → V → ℕ → ℕ → NWaysCache V → Option (NWaysCache V × Slot V)
  replace key new now p c = elim (entry_at c.items p) [
    | none ↦ none
    | some e ↦ some (place key new now p c, e)
  ]

  -- The result is the new cache, what stood at the place of the key, and whether it was evicted.
  unfoldable pub set : ℕ → V → NWaysCache V → Option (NWaysCache V × Slot V × Bool)
  set key new c =
      let now = next_tick key c in
      let ticked = tick key c in
      if c.numsets == 0
      then none
      else elim (scan (takes key) c.nways (position key c) c.items now 0) [
        | none ↦ none
        | some (serves p) ↦ elim (replace key new now p ticked) [
          | none ↦ none
          | some (after, old) ↦ some (after, old, false)
        ]
        | some (oldest p) ↦ elim (replace key new now p ticked) [
          | none ↦ none
          | some (after, old) ↦ some (after, old, true)
        ]
      ]

  -- The result is the new cache, what the key had, and what stood at its place and whether that was
  -- evicted.
  unfoldable pub get_or_set :
      ℕ → V → NWaysCache V → Option (NWaysCache V × Option V × Option (Slot V × Bool))
  get_or_set key new c =
      let now = next_tick key c in
      let ticked = tick key c in
      if c.numsets == 0
      then none
      else elim (scan (holds key) c.nways (position key c) c.items now 0) [
        | none ↦ none
        | some (serves p) ↦ elim (refresh now p ticked) [
          | none ↦ none
          | some (after, current) ↦ some (after, some current, none)
        ]
        | some (oldest p) ↦ elim (replace key new now p ticked) [
          | none ↦ none
          | some (after, old) ↦ some (after, none, some (old, ltb 0 old.used))
        ]
      ]

  -- The loop of Remove that moves the last entry of the set into the hole at `p`, down from the
  -- index `p + n`.
  unfoldable pub fill_hole : ℕ → ℕ → List (Slot V) → Option (List (Slot V))
  fill_hole zero p items = some items
  fill_hole (suc n) p items = elim (entry_at items (p + suc n)) [
    | none ↦ none
    | some e ↦
        let rest = fill_hole n p items in
        let moved =
          modify_at (λ x. record x { used = 0 }) (p + suc n) (modify_at (λ x. e) p items) in
        if ltb 0 e.used then some moved else rest
  ]

  unfoldable pub remove : ℕ → NWaysCache V → Option (NWaysCache V × Option V)
  remove key c =
      let first = position key c in
      if c.numsets == 0 then none else elim (find c.nways first key c.items) [
        | none ↦ none
        | some none ↦ some (c, none)
        | some (some p) ↦ elim (entry_at c.items p) [
          | none ↦ none
          | some e ↦
              elim (fill_hole (first + c.nways - 1 - p) p
                (modify_at (λ x. record x { used = 0 }) p c.items)) [
                  | none ↦ none
                  | some items ↦ some (record c { items = items }, some e.content)
                ]
        ]
      ]

  -- The loops of Clear, over the ways of a set and over the sets.
  unfoldable pub clear_ways : V → ℕ → ℕ → List (Slot V) → List (Slot V)
  clear_ways nothing zero i items = items
  clear_ways nothing (suc n) i items =
      let blank : Slot V = record { key = 0; content = nothing; used = 0 } in
      clear_ways nothing n (suc i) (modify_at (λ x. blank) i items)

  unfoldable pub clear_sets : V → ℕ → ℕ → NWaysCache V → NWaysCache V
  clear_sets nothing zero i c = c
  clear_sets nothing (suc n) i c =
      clear_sets nothing n (suc i)
        (record c { items = clear_ways nothing c.nways (i * c.nways) c.items })

  unfoldable pub clear : V → NWaysCache V → NWaysCache V
  clear nothing c = clear_sets nothing c.numsets 0 c
