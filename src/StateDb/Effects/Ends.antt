-- ===== src/StateDb/Effects/Ends.antt =====
-- EndBlock and the resets of go/state/state_db.go, on every branch.
use carmen.Prelude.{
  ℕ, ◌≡◌, ap₂, ◌⊎◌, Option, none, some, List, [], ◌∷◌, ◌++◌, Bool, true, false, comparable_nat,
  comparable_pair, ◌&&◌, is_some,
}
use carmen.Prelude.Map.{Map, lookup}
use carmen.StateDb.Types.{
  SlotId, State, AccountState, ClearingState, is_cleared, StoredDataCacheValue, StateDb,
  apply_failed, no_permission,
}
use carmen.Lru.{Lru}
use carmen.Lru
use carmen.Update.{Update}
use carmen.StateDb.Context.{clear_access_list}
use carmen.StateDb.Create.{create_state_db_with, reset_state}
use carmen.StateDb.Transaction.{reset_block_context, reset_transaction_context}
use carmen.StateDb.Block.{
  Clearing, collect_update, has_no_errors, update_codes, create_accounts, update_nonces,
  update_balances, update_slots,
}
use carmen.StateDb.Effects.Transactions.{IsFresh}

-- Each account that is to be cleared has a cached state.
abbrev pub HasStates : Map ℕ ClearingState → Map ℕ AccountState → Type 0
HasStates [] accounts = Unit
HasStates ((a, c) ∷ m) accounts =
    (is_cleared c ≡ true → is_some (lookup a accounts) ≡ true) × HasStates m accounts

-- The state from which a block starts: it serves the given state of the chain, no cache holds a
-- change, and what outlives a block is that of another state.
pub record IsBlockStart (next : State) (t r : StateDb) : Type 0 where
  pub state : r.state ≡ next
  pub accounts : r.accounts ≡ []
  pub balances : r.balances ≡ []
  pub nonces : r.nonces ≡ []
  pub slots : r.slots ≡ []
  pub codes : r.codes ≡ []
  pub cleared_accounts : r.cleared_accounts ≡ []
  pub logs_in_block : r.logs_in_block ≡ 0
  pub fresh : IsFresh r
  pub errors : r.errors ≡ t.errors
  pub stored_data_cache : r.stored_data_cache ≡ t.stored_data_cache
  pub reincarnation : r.reincarnation ≡ t.reincarnation
  pub can_apply_changes : r.can_apply_changes ≡ t.can_apply_changes
  pub accounts_to_delete : r.accounts_to_delete ≡ t.accounts_to_delete
  pub written_slots : r.written_slots ≡ t.written_slots

-- The reset of a StateDB that has nothing scheduled for deletion and no written slots leaves
-- exactly what the constructor makes for the new state, with the same cache capacity and
-- permission.
pub reset_state-create_state_db_with :
    (state : State) (s : StateDb)
    → s.accounts_to_delete ≡ []
    → s.written_slots ≡ []
    → reset_state state s
      ≡ some (tt, create_state_db_with state s.stored_data_cache.capacity s.can_apply_changes)
unfolding reset_state create_state_db_with reset_block_context reset_transaction_context
    clear_access_list Lru.clear
reset_state-create_state_db_with state s e e' =
    ap₂
      (λ (x : List ℕ) (y : Map SlotId Bool). some (
        tt {0},
        record (create_state_db_with state s.stored_data_cache.capacity s.can_apply_changes) {
          accounts_to_delete = x;
          written_slots = y;
        },
      ))
      e e'

abbrev rest_of_collect : StateDb → Clearing → Option (Update × StateDb)
rest_of_collect s c =
    let made = create_accounts c.accounts c.update c.non_existing_accounts in
    elim (update_slots s.slots
      (update_nonces s.nonces made.1 (update_balances s.balances made.1 made.0))
      (record s { accounts = c.accounts; reincarnation = c.reincarnation })) [
        | none ↦ none
        | some (u, t) ↦ some (update_codes s.codes made.1 u, t)
      ]

-- The state after the update has been collected: the cleared accounts count as non-existing, and
-- the sent slots are cached.
abbrev pub collected :
    StateDb → Map ℕ AccountState → Map ℕ ℕ → Lru SlotId StoredDataCacheValue → StateDb
collected s accounts reincarnation cache = record s {
  accounts = accounts;
  reincarnation = reincarnation;
  stored_data_cache = cache;
}

-- The ends of a block that may change the state: the state refuses the update, or the next block
-- starts from the state that has applied it.
abbrev pub Sends : (State → ℕ → Update → Option State) → ℕ → StateDb → StateDb → Type 0
Sends apply block s r =
    (u : Update) × (accounts : Map ℕ AccountState) × (reincarnation : Map ℕ ℕ) × (cache : Lru SlotId
      StoredDataCacheValue)
    × (collect_update s ≡ some (u, collected s accounts reincarnation cache))
    × (((apply s.state block u ≡ none)
          × (r ≡ record (collected s accounts reincarnation cache) {
            errors = s.errors ++ apply_failed ∷ [];
          }))
        ⊎ ((next : State) × (apply s.state block u ≡ some next)
            × IsBlockStart next (collected s accounts reincarnation cache) r))

-- The ends of a block.
abbrev pub Ends :
    (State → Bool) → (State → ℕ → Update → Option State) → ℕ → StateDb → StateDb → Type 0
Ends check apply block s r =
    ((s.can_apply_changes ≡ false) × (r ≡ record s { errors = s.errors ++ no_permission ∷ [] }))
    ⊎ (((s.can_apply_changes ≡ true) × ((has_no_errors s && check s.state) ≡ false) × (r ≡ s))
        ⊎ ((s.can_apply_changes ≡ true)
            × ((has_no_errors s && check s.state) ≡ true)
            × Sends apply block s r))
