-- ===== src/StateDb/Effects/BlockSlots.antt =====
-- The slots that EndBlock of go/state/state_db.go sends and caches, and what they make of the state.
use carmen.Prelude.{
  get_or, ℕ, ◌≡◌, refl, sym, ap, ◌∙◌, inl, inr, Option, some, List, [], ◌∷◌, ◌++◌, Bool, true,
  false, not, if◌then◌else◌, Bool-cases, Option-cases, comparable_nat, comparable_pair, append-nil,
  append_assoc, arith, ◌==◌, ◌&&◌, ltb, ◌≢◌, none,
}
use carmen.Prelude.Map.{Map, lookup}
use carmen.StateDb.Types.{SlotId, SlotValue, StoredDataCacheValue, StateDb}
use carmen.Lru.{Lru}
use carmen.Lru.Eviction.{
  IsValid, pushed, set_lem, pushed-IsValid, lookup-pushed, lookup-pushed_same,
}
use carmen.Update.{Update, SlotUpdate, append_slot_update}
use carmen.StateDb.Block.{update_slots}
use carmen.StateDb.Effects.Sent.{
  IsDistinct, after, after-absent, after-present, mentions, mentions-kept, replaced, sent,
  after-step, step,
}

abbrev keep_slot : SlotId → SlotValue → Bool
keep_slot sid v = not (v.stored_known && v.stored == v.current)

abbrev make_slot : SlotId → SlotValue → SlotUpdate
make_slot sid v = record { account = sid.0; key = sid.1; value = v.current }

abbrev pub slot_of : SlotUpdate → SlotId
slot_of x = (x.account, x.key)

abbrev sent_slots : Map SlotId SlotValue → List SlotUpdate
sent_slots = sent slot_of (λ x. x.value) keep_slot make_slot (λ sid v. refl)

some_eq {ℓ} : {A : Type ℓ} {x y : A} → some x ≡ some y → x ≡ y
some_eq h = cc

clash : {b : Bool} → b ≡ true → b ≡ false → ⊥
clash h g = cc

-- Each entry of the cache stands for the value that the state holds, as a load reads it.
abbrev pub IsAccurate : Map ℕ ℕ → (SlotId → ℕ) → Lru SlotId StoredDataCacheValue → Type 0
IsAccurate reincarnation held cache =
    (sid : SlotId) (c : StoredDataCacheValue)
    → lookup sid cache.entries ≡ some c
    → held sid
      ≡ (if ltb c.reincarnation (get_or (lookup sid.0 reincarnation) 0) then 0 else c.value)

abbrev fresh_entry : StateDb → SlotId → SlotValue → StoredDataCacheValue
fresh_entry s sid v = record {
  value = v.current;
  reincarnation = get_or (lookup sid.0 s.reincarnation) 0;
}

fresh-value : (r x : ℕ) → (if ltb r r then 0 else x) ≡ x
fresh-value r x = ground arith

pushed-IsAccurate :
    (s : StateDb) (sid : SlotId) (v : SlotValue) (held : SlotId → ℕ)
    (cache : Lru SlotId StoredDataCacheValue)
    → IsValid cache
    → IsAccurate s.reincarnation held cache
    → IsAccurate s.reincarnation
        (replaced sid v.current held)
        (pushed sid (fresh_entry s sid v) cache)
pushed-IsAccurate s sid v held cache valid ok j c found = elim (Bool-cases (sid == j)) [
  | inl y ↦
      let same : sid ≡ j = (comparable_pair.equal_iff sid j).0 y in
      let here : lookup j (pushed sid (fresh_entry s sid v) cache).entries
          ≡ some (fresh_entry s sid v) =
        ap (λ k. lookup k (pushed sid (fresh_entry s sid v) cache).entries) (sym same)
        ∙ lookup-pushed_same sid (fresh_entry s sid v) cache valid in
      let entry : fresh_entry s sid v ≡ c = some_eq (sym here ∙ found) in
      rw (y, ← entry, ← same)
        (sym (fresh-value (get_or (lookup sid.0 s.reincarnation) 0) v.current))
  | inr f ↦ elim (lookup-pushed sid j (fresh_entry s sid v) c cache found) [
    | inl (same, value) ↦ absurd (clash ((comparable_pair.equal_iff sid j).1 same) f)
    | inr before ↦ rw f (ok j c before)
  ]
]

-- The stored data cache after the loop over the slots.
abbrev recached :
    StateDb
    → Map SlotId SlotValue
    → Lru SlotId StoredDataCacheValue
    → Lru SlotId StoredDataCacheValue
recached s [] cache = cache
recached s ((sid, v) ∷ m) cache =
    recached s m (if keep_slot sid v then pushed sid (fresh_entry s sid v) cache else cache)

step-IsAccurate :
    (kept : Bool) (s : StateDb) (sid : SlotId) (v : SlotValue) (held : SlotId → ℕ)
    (cache : Lru SlotId StoredDataCacheValue)
    → IsValid cache
    → IsAccurate s.reincarnation held cache
    → IsValid (if kept then pushed sid (fresh_entry s sid v) cache else cache)
      × IsAccurate s.reincarnation
          (if kept then replaced sid v.current held else held)
          (if kept then pushed sid (fresh_entry s sid v) cache else cache)
step-IsAccurate true s sid v held cache valid ok = (
  pushed-IsValid sid (fresh_entry s sid v) cache valid,
  pushed-IsAccurate s sid v held cache valid ok,
)
step-IsAccurate false s sid v held cache valid ok = (valid, ok)

recached-IsAccurate :
    (s : StateDb) (m : Map SlotId SlotValue) (held : SlotId → ℕ)
    (cache : Lru SlotId StoredDataCacheValue)
    → IsValid cache
    → IsAccurate s.reincarnation held cache
    → IsValid (recached s m cache)
      × IsAccurate s.reincarnation
          (after slot_of (λ x. x.value) (sent_slots m) held)
          (recached s m cache)
recached-IsAccurate s [] held cache valid ok = (valid, ok)
recached-IsAccurate s ((sid, v) ∷ m) held cache valid ok =
    let (valid', ok') = step-IsAccurate (keep_slot sid v) s sid v held cache valid ok in
    let (later_valid, later_ok) =
      recached-IsAccurate s m
        (step slot_of (λ x. x.value) keep_slot make_slot (λ sid v. refl) sid v held)
        (if keep_slot sid v then pushed sid (fresh_entry s sid v) cache else cache) valid' ok' in
    (
      later_valid,
      λ j c found.
          after-step slot_of (λ x. x.value) keep_slot make_slot (λ sid v. refl) sid v m held j
          ∙ later_ok j c found,
    )

update_slots-runs :
    (m : Map SlotId SlotValue) (u : Update) (s : StateDb)
    → IsValid s.stored_data_cache
    → update_slots m u s
      ≡ some (
        record u { slots = u.slots ++ sent_slots m },
        record s { stored_data_cache = recached s m s.stored_data_cache },
      )
unfolding update_slots append_slot_update
update_slots-runs [] u s h = ap (λ l. some (record u { slots = l }, s)) (sym (append-nil u.slots))
update_slots-runs ((sid, v) ∷ m) u s h =
    elim (Bool-cases (v.stored_known && v.stored == v.current)) [
      | inl known ↦ rw known (update_slots-runs m u s h)
      | inr changed ↦
          let (dropped, e) = set_lem sid (fresh_entry s sid v) s.stored_data_cache h in
          rw (changed, e)
            (update_slots-runs m (append_slot_update sid.0 sid.1 v.current u)
                (record s {
                  stored_data_cache = pushed sid (fresh_entry s sid v) s.stored_data_cache;
                })
                (pushed-IsValid sid (fresh_entry s sid v) s.stored_data_cache h)
              ∙ ap
                  (λ l. some (
                    record u { slots = l },
                    record s {
                      stored_data_cache =
                          recached s m (pushed sid (fresh_entry s sid v) s.stored_data_cache);
                    },
                  ))
                  (append_assoc u.slots (make_slot sid v ∷ []) (sent_slots m)))
    ]

pub update_slots-total :
    (m : Map SlotId SlotValue) (u : Update) (s : StateDb)
    → IsValid s.stored_data_cache
    → (u' : Update) × (cache : Lru SlotId StoredDataCacheValue) × (update_slots m u s
        ≡ some (u', record s { stored_data_cache = cache }))
update_slots-total m u s h = (_, _, update_slots-runs m u s h)

-- What the state is to hold in a slot.
abbrev pub slot_to_hold : Map SlotId SlotValue → (SlotId → ℕ) → SlotId → ℕ
slot_to_hold m held sid = elim (lookup sid m) [ none ↦ held sid | some v ↦ v.current ]

to_hold_eq :
    (m : Map SlotId SlotValue) (held : SlotId → ℕ) (sid : SlotId) (o : Option SlotValue)
    → lookup sid m ≡ o
    → slot_to_hold m held sid ≡ elim o [ none ↦ held sid | some v ↦ v.current ]
to_hold_eq m held sid o e = ap (λ o. elim o [ none ↦ held sid | some v ↦ v.current ]) e

settle_slot :
    (held : ℕ) (sid : SlotId) (v : SlotValue)
    → (v.stored_known ≡ true → held ≡ v.stored)
    → (if keep_slot sid v then v.current else held) ≡ v.current
settle_slot held sid v known = elim (Bool-cases v.stored_known) [
  | inl y ↦ let e : held ≡ v.stored = known y in ground (arith, e, y)
  | inr f ↦ rw f refl
]

after-slots :
    (m : Map SlotId SlotValue) (held : SlotId → ℕ)
    → IsDistinct m
    → ((sid : SlotId) (v : SlotValue)
        → lookup sid m ≡ some v
        → v.stored_known ≡ true
        → held sid ≡ v.stored)
    → (sid : SlotId)
    → after slot_of (λ x. x.value) (sent_slots m) held sid ≡ slot_to_hold m held sid
after-slots m held distinct known sid = elim (Option-cases (lookup sid m)) [
  | inl absent ↦
      after-absent slot_of (λ x. x.value) keep_slot make_slot (λ sid v. refl) m held sid absent
      ∙ sym (to_hold_eq m held sid none absent)
  | inr (v, found) ↦
      after-present slot_of (λ x. x.value) keep_slot make_slot (λ sid v. refl) m held sid v distinct
        found
      ∙ settle_slot (held sid) sid v (known sid v found)
      ∙ sym (to_hold_eq m held sid (some v) found)
]

kept-differs :
    (sid : SlotId) (v : SlotValue)
    → keep_slot sid v ≡ true
    → v.stored_known ≡ true
    → v.stored ≢ v.current
kept-differs sid v kept known same = ground (arith, kept, known, same)

-- The slot updates that the loop appends make of the slots that the state holds what it is to hold,
-- each of them is for a slot whose value is not known to be the same, and the cache stands for the
-- slots that the state is to hold.
abbrev pub SlotsSent : Map SlotId SlotValue → Update → StateDb → (SlotId → ℕ) → Type 0
SlotsSent m u s held =
    (us : List SlotUpdate) × (cache : Lru SlotId StoredDataCacheValue) × (update_slots m u s
      ≡ some (record u { slots = u.slots ++ us }, record s { stored_data_cache = cache }))
    × ((sid : SlotId) → after slot_of (λ x. x.value) us held sid ≡ slot_to_hold m held sid)
    × ((sid : SlotId)
        → mentions slot_of sid us ≡ true
        → (v : SlotValue) × (lookup sid m ≡ some v)
          × (v.stored_known ≡ true → v.stored ≢ v.current))
    × IsValid cache
    × IsAccurate s.reincarnation (slot_to_hold m held) cache

-- For a map of slots with distinct keys, a state that holds each value known to be stored, and a
-- valid stored data cache that stands for what the state holds: the loop of EndBlock over the
-- slots does not panic; the slot updates that it appends, applied in their order to what the state
-- holds, give each slot of the map its current value and leave every other slot; each of them is
-- for a slot of the map whose stored value is unknown or differs from the current one; and the
-- cache is valid and stands for the slots after these updates.
pub update_slots_lem :
    (m : Map SlotId SlotValue) (u : Update) (s : StateDb) (held : SlotId → ℕ)
    → IsDistinct m
    → ((sid : SlotId) (v : SlotValue)
        → lookup sid m ≡ some v
        → v.stored_known ≡ true
        → held sid ≡ v.stored)
    → IsValid s.stored_data_cache
    → IsAccurate s.reincarnation held s.stored_data_cache
    → SlotsSent m u s held
update_slots_lem m u s held distinct known valid ok =
    let (valid', ok') = recached-IsAccurate s m held s.stored_data_cache valid ok in
    let holds = after-slots m held distinct known in
    (
      sent_slots m,
      recached s m s.stored_data_cache,
      update_slots-runs m u s valid,
      holds,
      (λ sid h.
          let (v, found, kept) =
            mentions-kept slot_of (λ x. x.value) keep_slot make_slot (λ sid v. refl) m sid distinct
              h in
          (v, found, kept-differs sid v kept)),
      valid',
      λ sid c found. sym (holds sid) ∙ ok' sid c found,
    )
