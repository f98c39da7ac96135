-- ===== src/StateDb/Bulk.antt =====
-- BulkLoad of go/state/state_db.go.
use carmen.Prelude.{
  ℕ, Option, none, some, List, [], ◌∷◌, ◌++◌, not, if◌then◌else◌, comparable_nat, comparable_pair,
}
use carmen.Lru
use carmen.Update.{
  Update, no_changes, append_create_account, append_balance_update, append_nonce_update,
  append_slot_update, append_code_update,
}
use carmen.Update.Sort.{normalize}
use carmen.StateDb.Types.{State, StateDb, Bytes}

pub data BulkError : Type 0 where
  not_unique apply_failed : BulkError

-- bulkLoad, with the StateDB that it loads into.
pub record BulkLoad : Type 0 where
  pub db : StateDb
  pub update : Update
  pub block : ℕ
  pub errs : List BulkError

unfoldable pub start_bulk_load : ℕ → StateDb → BulkLoad
start_bulk_load block s = record {
  db = record s { stored_data_cache = Lru.clear s.stored_data_cache };
  update = no_changes;
  block = block;
  errs = [];
}

unfoldable pub create_account : ℕ → BulkLoad → BulkLoad
create_account a l = record l { update = append_create_account a l.update }

unfoldable pub set_balance : ℕ → ℕ → BulkLoad → BulkLoad
set_balance a b l = record l { update = append_balance_update a b l.update }

unfoldable pub set_nonce : ℕ → ℕ → BulkLoad → BulkLoad
set_nonce a n l = record l { update = append_nonce_update a n l.update }

unfoldable pub set_state : ℕ → ℕ → ℕ → BulkLoad → BulkLoad
set_state a k v l = record l { update = append_slot_update a k v l.update }

unfoldable pub set_code : ℕ → Bytes → BulkLoad → BulkLoad
set_code a code l = record l { update = append_code_update a code l.update }

-- The update as one block. A failed Apply is taken to leave the state as it was.
unfoldable pub apply : (State → ℕ → Update → Option State) → BulkLoad → BulkLoad
apply apply_state l =
    let (sorted, update) = normalize l.update in
    if not sorted
    then record l { update = update; errs = l.errs ++ not_unique ∷ [] }
    else elim (apply_state l.db.state l.block update) [
      | none ↦ record l { update = no_changes; errs = l.errs ++ apply_failed ∷ [] }
      | some state ↦ record l { update = no_changes; db = record l.db { state = state } }
    ]
