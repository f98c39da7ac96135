-- ===== src/StateDb/Storage.antt =====
-- Storage slots, committed values, transient storage and account creation of go/state/state_db.go.
use carmen.Prelude.{
  ℕ, Option, none, some, List, [], ◌∷◌, Bool, true, false, ◌==◌, if◌then◌else◌, ◌||◌, get_or,
  comparable_nat, comparable_pair, ltb,
}
use carmen.Prelude.Map.{lookup, insert}
use carmen.Lru
use carmen.StateDb.Types.{
  SlotId, non_existing, self_destructed, AccountState, is_life_cycle, ClearingState, cleared,
  cleared_and_tainted, is_cleared, SlotValue, StoredDataCacheValue, load_failed, Undo, StateDb, M,
  ◌>>=◌, ◌>>◌, return, get, modify, skip, fail, clearing,
}
use carmen.StateDb.Accounts.{create_account_if_not_exists, touch}

-- The stored value is remembered for future accesses: in the entry given, or in a new one.
abbrev pub loaded_slot : Option SlotValue → ℕ → SlotValue
loaded_slot (some v) x = record v {
  committed = x;
  committed_known = true;
  stored = x;
  stored_known = true;
}
loaded_slot none x = record {
  stored = x;
  committed = x;
  current = x;
  stored_known = true;
  committed_known = true;
}

unfoldable pub cache_slot : SlotId → Option SlotValue → ℕ → StateDb → StateDb
cache_slot sid val x s = record s { slots = insert sid (loaded_slot val x) s.slots }

abbrev pub reincarnation_of : StateDb → ℕ → ℕ
reincarnation_of s a = get_or (lookup a s.reincarnation) 0

-- The cached stored value, or the one that the state gives, which is then cached.
unfoldable pub read_stored : SlotId → M (Option StoredDataCacheValue)
read_stored sid s =
    let (found, cache) = Lru.get sid s.stored_data_cache in
    let s' = record s { stored_data_cache = cache } in
    elim found [
      | some c ↦ some (some c, s')
      | none ↦ elim (s.state.storage sid) [
        | none ↦ (do fail (load_failed sid.0); return none) s'
        | some x ↦
            let c : StoredDataCacheValue = record {
              value = x;
              reincarnation = reincarnation_of s sid.0;
            } in
            elim (Lru.set sid c cache) [
              | none ↦ none
              | some (dropped, cache') ↦ some (some c, record s { stored_data_cache = cache' })
            ]
      ]
    ]

unfoldable pub load_stored_state : SlotId → Option SlotValue → M ℕ
unfolding read_stored cache_slot
load_stored_state sid val = do
  s ← get
  if is_cleared (clearing s sid.0) then return 0 else (do
    stored ← read_stored sid
    elim stored [
      | none ↦ return 0
      | some c ↦
          let x = if ltb c.reincarnation (reincarnation_of s sid.0) then 0 else c.value in
          do modify (cache_slot sid val x); return x
    ])

abbrev pub known_committed : Option SlotValue → Option ℕ
known_committed none = none
known_committed (some v) = if v.committed_known then some v.committed else none

unfoldable pub get_committed_state : ℕ → ℕ → M ℕ
get_committed_state a key = do
  s ← get
  let val = lookup (a, key) s.slots
  elim (known_committed val) [ some x ↦ return x | none ↦ load_stored_state (a, key) val ]

unfoldable pub get_state : ℕ → ℕ → M ℕ
get_state a key = do
  s ← get
  elim (lookup (a, key) s.slots) [
    | some v ↦ return v.current
    | none ↦ load_stored_state (a, key) none
  ]

unfoldable pub write_known_slot : SlotId → SlotValue → ℕ → StateDb → StateDb
write_known_slot sid v value s = record s {
  slots = insert sid (record v { current = value }) s.slots;
  written_slots = insert sid true s.written_slots;
  undo = Undo.slot_current sid v.current ∷ s.undo;
}

unfoldable pub write_unknown_slot : SlotId → ℕ → StateDb → StateDb
write_unknown_slot sid value s = record s {
  slots =
      insert sid
        (record {
          stored = 0;
          committed = 0;
          current = value;
          stored_known = false;
          committed_known = false;
        })
        s.slots;
  written_slots = insert sid true s.written_slots;
  undo = Undo.slot_new sid ∷ s.undo;
}

unfoldable pub write_slot : SlotId → ℕ → M (Unit {0})
unfolding write_known_slot write_unknown_slot
write_slot sid value = do
  s ← get
  elim (lookup sid s.slots) [
    | some v ↦ if v.current == value then skip else modify (write_known_slot sid v value)
    | none ↦ modify (write_unknown_slot sid value)
  ]

-- The write of a clearing state, with the undo that restores the old one.
unfoldable pub write_clearing : ℕ → ClearingState → StateDb → StateDb
write_clearing a new s = record s {
  cleared_accounts = insert a new s.cleared_accounts;
  undo = Undo.clearing_state a (clearing s a) ∷ s.undo;
}

abbrev pub is_exactly_cleared : ClearingState → Bool
is_exactly_cleared cleared = true
is_exactly_cleared _ = false

unfoldable pub taint : ℕ → M (Unit {0})
unfolding write_clearing
taint a = do
  s ← get
  if is_exactly_cleared (clearing s a) then modify (write_clearing a cleared_and_tainted) else skip

unfoldable pub set_state : ℕ → ℕ → ℕ → M (Unit {0})
set_state a key value = do
  created ← create_account_if_not_exists a
  if created then modify (touch a) else skip
  write_slot (a, key) value
  taint a

-- Transient storage.
abbrev pub transient : StateDb → SlotId → ℕ
transient s sid = get_or (lookup sid s.transient_storage) 0

unfoldable pub get_transient_state : ℕ → ℕ → M ℕ
get_transient_state a key = do s ← get; return (transient s (a, key))

unfoldable pub write_transient : SlotId → ℕ → StateDb → StateDb
write_transient sid value s = record s {
  transient_storage = insert sid value s.transient_storage;
  undo = Undo.transient_value sid (transient s sid) ∷ s.undo;
}

unfoldable pub set_transient_state : ℕ → ℕ → ℕ → M (Unit {0})
unfolding write_transient
set_transient_state a key value = do
  s ← get
  if transient s (a, key) == value then skip else modify (write_transient (a, key) value)

abbrev pub account_is_gone : Option AccountState → Bool
account_is_gone none = false
account_is_gone (some v) =
    is_life_cycle v.current non_existing || is_life_cycle v.current self_destructed

-- Where the state reports an error, the result is taken to be false.
unfoldable pub has_empty_storage : ℕ → M Bool
has_empty_storage a s =
    if account_is_gone (lookup a s.accounts)
    then return true s
    else elim (s.state.empty_storage a) [
      | none ↦ (do fail (load_failed a); return false) s
      | some empty ↦ return empty s
    ]

-- The loop of CreateAccount over the slots of the account.
abbrev pub cleared_slot : SlotValue
cleared_slot = record {
  stored = 0;
  committed = 0;
  current = 0;
  stored_known = true;
  committed_known = true;
}

unfoldable pub write_cleared_slot : SlotId → SlotValue → StateDb → StateDb
write_cleared_slot sid backup s = record s {
  slots = insert sid cleared_slot s.slots;
  undo = Undo.slot_backup sid backup ∷ s.undo;
}

unfoldable pub clear_slot : ℕ → SlotId → M (Unit {0})
unfolding write_cleared_slot
clear_slot a sid = do
  s ← get
  if sid.0 == a
      then (elim (lookup sid s.slots) [
        | none ↦ skip
        | some backup ↦ modify (write_cleared_slot sid backup)
      ])
      else skip

unfoldable pub clear_slots : ℕ → List SlotId → M (Unit {0})
unfolding clear_slot
clear_slots a [] = skip
clear_slots a (sid ∷ sids) = do clear_slot a sid; clear_slots a sids
