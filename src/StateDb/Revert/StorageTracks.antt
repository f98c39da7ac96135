-- ===== src/StateDb/Revert/StorageTracks.antt =====
-- The loads and writes of storage slots of go/state/state_db.go, each as one step on the track.
use carmen.Prelude.{
  ℕ, ◌≡◌, refl, sym, ◌∙◌, inl, inr, Option, none, some, List, [], ◌∷◌, ◌++◌, if◌then◌else◌,
  Option-cases, comparable_nat, comparable_pair, ltb, arith,
}
use carmen.Prelude.Map.{lookup}
use carmen.Lru
use carmen.Lru.{Lru}
use carmen.Lru.Eviction.{
  IsValid, set_lem, pushed, pushed-IsValid, lookup-pushed, get-lookup, get-IsValid, lookup-get,
}
use carmen.StateDb.Types.{
  SlotId, SlotValue, StoredDataCacheValue, ClearingState, clearing, Error, StateDb, load_failed,
}
use carmen.StateDb.Storage.{
  read_stored, cache_slot, loaded_slot, reincarnation_of, known_committed, write_known_slot,
  write_unknown_slot, write_clearing, write_transient, write_cleared_slot,
}
use carmen.StateDb.Revert.View.{Extends, IsCoherent, Extends-refl, slot_origin}
use carmen.StateDb.Revert.Caches.{Ext-load, Ext-same}
use carmen.StateDb.Revert.Journal.{Tracks}
use carmen.StateDb.Revert.Undoes.{write_transient-Undoes}
use carmen.StateDb.Revert.SlotUndoes.{
  current_shown, committed_shown, write_known_slot-Undoes, write_unknown_slot-Undoes,
  write_cleared_slot-Undoes,
}
use carmen.StateDb.Revert.CodeUndoes.{Cleared, write_clearing-Undoes}
use carmen.StateDb.Revert.Keeps.{Tracks-load, Tracks-write}

-- What a cached stored value stands for.
abbrev pub fresh_value : StateDb → SlotId → StoredDataCacheValue → ℕ
fresh_value s sid c = if ltb c.reincarnation (reincarnation_of s sid.0) then 0 else c.value

abbrev CacheOk : StateDb → Lru SlotId StoredDataCacheValue → Type 0
CacheOk s cache =
    IsValid cache
    × ((sid : SlotId) (c : StoredDataCacheValue)
        → lookup sid cache.entries ≡ some c
        → s.state.storage sid ≡ some (fresh_value s sid c))

got-CacheOk :
    (s : StateDb) (sid : SlotId) → IsCoherent s → CacheOk s (Lru.get sid s.stored_data_cache).1
got-CacheOk s sid c = (
  get-IsValid sid s.stored_data_cache c.cache,
  λ j v e. c.cached j v (lookup-get sid j v s.stored_data_cache e),
)

pushed-CacheOk :
    (s : StateDb) (cache : Lru SlotId StoredDataCacheValue) (sid : SlotId)
    (v : StoredDataCacheValue)
    → CacheOk s cache
    → s.state.storage sid ≡ some (fresh_value s sid v)
    → CacheOk s (pushed sid v cache)
pushed-CacheOk s cache sid v ok fact = (
  pushed-IsValid sid v cache ok.0,
  λ j w e. elim (lookup-pushed sid j v w cache e) [
    | inl (same, value) ↦ rw (← same, ← value) fact
    | inr before ↦ ok.1 j w before
  ],
)

recached-Tracks :
    {base s : StateDb} (cache : Lru SlotId StoredDataCacheValue) (errors : List Error)
    → Tracks base s
    → CacheOk s cache
    → Tracks base (record s { stored_data_cache = cache; errors = errors })
recached-Tracks {base} {s} cache errors k ok =
    let self = Extends-refl s in
    let c = k.coherent in Tracks-load k (assumption self) (assumption (c, ok)) refl

-- A read of the stored value changes only the cache and the errors, and returns what the state holds.
pub read_stored-reads :
    {base : StateDb} (sid : SlotId) (s : StateDb)
    → Tracks base s
    → (o : Option StoredDataCacheValue) × (cache : Lru SlotId StoredDataCacheValue) × (errors : List
        Error)
      × (read_stored sid s ≡ some (o, record s { stored_data_cache = cache; errors = errors }))
      × Tracks base (record s { stored_data_cache = cache; errors = errors })
      × ((c : StoredDataCacheValue) → o ≡ some c → s.state.storage sid ≡ some (fresh_value s sid c))
      × (o ≡ none → s.state.storage sid ≡ none)
unfolding read_stored
read_stored-reads sid s k =
    let cache = (Lru.get sid s.stored_data_cache).1 in
    let ok = got-CacheOk s sid k.coherent in
    let got = get-lookup sid s.stored_data_cache in
    elim (Option-cases (lookup sid s.stored_data_cache.entries)) [
      | inr (c, found) ↦ (
        some c,
        cache,
        s.errors,
        rw (got ∙ found, read_stored),
        recached-Tracks cache s.errors k ok,
        (λ d e. let q : c ≡ d = ground arith in rw (← q) (k.coherent.cached sid c found)),
        λ n. cc,
      )
      | inl missing ↦ elim (Option-cases (s.state.storage sid)) [
        | inl failed ↦ (
          none,
          cache,
          s.errors ++ load_failed sid.0 ∷ [],
          rw (got ∙ missing, read_stored, failed),
          recached-Tracks cache _ k ok,
          (λ d e. cc),
          λ n. failed,
        )
        | inr (x, loaded) ↦
            let c : StoredDataCacheValue = record {
              value = x;
              reincarnation = reincarnation_of s sid.0;
            } in
            let fact : s.state.storage sid ≡ some (fresh_value s sid c) = ground arith in
            let (dropped, stored) = set_lem sid c cache ok.0 in
            (
              some c,
              pushed sid c cache,
              s.errors,
              rw (got ∙ missing, read_stored, loaded, stored),
              recached-Tracks (pushed sid c cache) s.errors k
                  (pushed-CacheOk s cache sid c ok fact),
              (λ d e. let q : c ≡ d = ground arith in rw (← q) fact),
              λ n. cc,
            )
      ]
    ]

-- A loaded slot: the entry shows what it showed, or what the state holds.
cache_slot-Extends :
    (sid : SlotId) (val : Option SlotValue) (x : ℕ) (s : StateDb)
    → lookup sid s.slots ≡ val
    → known_committed val ≡ none
    → slot_origin s sid ≡ some x
    → Extends s (cache_slot sid val x s)
unfolding cache_slot
cache_slot-Extends sid none x s found unknown origin =
    let self = Extends-refl s in
    assumption (
      self,
      Ext-load current_shown (slot_origin s) sid (loaded_slot none x) s.slots (rw found)
          (sym origin),
      Ext-load committed_shown (slot_origin s) sid (loaded_slot none x) s.slots (rw found)
          (sym origin),
    )
cache_slot-Extends sid (some v) x s found unknown origin =
    let self = Extends-refl s in
    assumption (
      self,
      Ext-same current_shown (slot_origin s) sid (loaded_slot (some v) x) s.slots (rw found),
      Ext-load committed_shown (slot_origin s) sid (loaded_slot (some v) x) s.slots
          (rw found unknown) (sym origin),
    )

module _ {base s : StateDb} (k : Tracks base s) where
  pub cache_slot-Tracks :
      (sid : SlotId) (val : Option SlotValue) (x : ℕ)
      → lookup sid s.slots ≡ val
      → known_committed val ≡ none
      → slot_origin s sid ≡ some x
      → Tracks base (cache_slot sid val x s)
  unfolding cache_slot
  cache_slot-Tracks sid val x found unknown origin =
      let c = k.coherent in
      Tracks-load k (cache_slot-Extends sid val x s found unknown origin) (assumption c) refl

  pub write_known_slot-Tracks :
      (sid : SlotId) (v : SlotValue) (value : ℕ)
      → lookup sid s.slots ≡ some v
      → Tracks base (write_known_slot sid v value s)
  unfolding write_known_slot
  write_known_slot-Tracks sid v value found =
      let c = k.coherent in
      Tracks-write k _ (write_known_slot-Undoes sid v value s found) (assumption c) refl

  pub write_unknown_slot-Tracks :
      (sid : SlotId) (value : ℕ)
      → lookup sid s.slots ≡ none
      → Tracks base (write_unknown_slot sid value s)
  unfolding write_unknown_slot
  write_unknown_slot-Tracks sid value missing =
      let c = k.coherent in
      Tracks-write k _ (write_unknown_slot-Undoes sid value s missing) (assumption c) refl

  pub write_cleared_slot-Tracks :
      (sid : SlotId) (v : SlotValue)
      → lookup sid s.slots ≡ some v
      → Tracks base (write_cleared_slot sid v s)
  unfolding write_cleared_slot
  write_cleared_slot-Tracks sid v found =
      let c = k.coherent in
      Tracks-write k _ (write_cleared_slot-Undoes sid v s found) (assumption c) refl

  pub write_clearing-Tracks :
      (a : ℕ) (new : ClearingState)
      → Cleared (clearing s a) new
      → Tracks base (write_clearing a new s)
  unfolding write_clearing
  write_clearing-Tracks a new kind =
      let c = k.coherent in
      Tracks-write k _ (write_clearing-Undoes a new s kind) (assumption c) refl

  pub write_transient-Tracks :
      (sid : SlotId) (value : ℕ) → Tracks base (write_transient sid value s)
  unfolding write_transient
  write_transient-Tracks sid value =
      let c = k.coherent in
      Tracks-write k _ (write_transient-Undoes sid value s) (assumption c) refl
