-- ===== src/StateDb/Tests.antt =====
-- Runs of go/state/state_db.go at small states, and its theorems at inputs that meet their
-- hypotheses.
use carmen.Prelude.{
  ◌≡◌, refl, none, some, List, [], ◌∷◌, true, false, arith, comparable_nat, comparable_pair, length,
  nat_beq, if◌then◌else◌,
}
use carmen.Prelude.Int.{pos}
use carmen.Prelude.Map.{lookup, insert, delete, keys}
use carmen.Lru
use carmen.StateDb.Effects.Transactions.{
  IsFresh, end_transaction_lem, abort_transaction-Agrees, has,
}
use carmen.StateDb.Effects.Commits.{end_transaction-commits, committed_slot}
use carmen.StateDb.Revert.Observe.{result}
use carmen.StateDb.Transaction.{end_transaction, abort_transaction}
use carmen.StateDb.Create.{create_state_db_with, create_state_db_with-IsCoherent}
use carmen.StateDb.Accounts.{
  add_balance, create_account_if_not_exists, exist, get_balance, store_balance, set_account_state,
  reset_balance, set_nonce_internal,
}
use carmen.StateDb.Storage.{
  set_transient_state, set_state, get_committed_state, write_slot, taint, get_state,
  load_stored_state, read_stored, clear_slots, clear_slot,
}
use carmen.StateDb.Code.{set_code, set_code_internal}
use carmen.StateDb.Contracts.{create_account, suicide, plan_clearing, schedule_deletion}
use carmen.StateDb.Context.{add_refund, add_slot_to_access_list, add_address_to_access_list}
use carmen.StateDb.Types.{State, StateDb, SlotValue}
use carmen.StateDb.Undo.{revert_to_snapshot, rewind, apply_undo}
use carmen.StateDb.Calls.{Call, run, call}
use carmen.StateDb.Revert.View.{IsCoherent}
use carmen.StateDb.Revert.Agrees.{Agrees, revert_to_snapshot-Agrees}

-- Account 1 exists, with balance 50 and a value in slot 7.
abbrev pub one_account : State
one_account = record {
  exists = λ a. some (nat_beq a 1);
  balance = λ a. some (if nat_beq a 1 then 50 else 0);
  nonce = λ a. some 3;
  storage = λ sid. some (if nat_beq sid.1 7 then 9 else 0);
  code = λ a. some [];
  code_size = λ a. some 0;
  code_hash = λ a. some 77;
  empty_storage = λ a. some false;
  keccak256 = λ code. length code;
}

abbrev pub fresh_db : State → StateDb
fresh_db st = create_state_db_with st 4 true

pub fresh_db-IsCoherent : IsCoherent (fresh_db one_account)
fresh_db-IsCoherent =
    create_state_db_with-IsCoherent one_account 4 true (omega arith) λ a code e. ground arith

abbrev calls : List Call
calls =
    Call.add_balance 1 5
    ∷ Call.set_state 1 7 4
    ∷ Call.get_state 1 8
    ∷ Call.create_account 1
    ∷ Call.set_code 2 (1 ∷ 2 ∷ [])
    ∷ Call.suicide 1
    ∷ Call.revert_to_snapshot (pos 3)
    ∷ Call.add_refund 5
    ∷ []

-- The state after a run.
abbrev after_run : List Call → StateDb → StateDb
after_run cs s = elim (run cs s) [ none ↦ s | some (r, t) ↦ t ]

balance_added :
    lookup 1 (after_run (Call.add_balance 1 5 ∷ []) (fresh_db one_account)).balances
    ≡ some (record { original = some 50; current = 55 })
unfolding create_state_db_with run call lookup insert add_balance create_account_if_not_exists exist
    get_balance store_balance
balance_added = refl

revert_to_snapshot-Agrees_example :
    (u : StateDb) × (revert_to_snapshot (pos 0) (after_run calls (fresh_db one_account))
      ≡ some (tt, u))
    × (u.undo ≡ [])
    × Agrees (fresh_db one_account) u
unfolding create_state_db_with run call lookup insert delete add_balance
    create_account_if_not_exists exist get_balance store_balance set_state write_slot taint
    get_state load_stored_state read_stored create_account set_account_state set_nonce_internal
    set_code_internal reset_balance clear_slots clear_slot set_code suicide plan_clearing
    schedule_deletion revert_to_snapshot rewind apply_undo add_refund Lru.get Lru.set
revert_to_snapshot-Agrees_example =
    revert_to_snapshot-Agrees (fresh_db one_account) (after_run calls (fresh_db one_account)) calls
      fresh_db-IsCoherent (omega arith) refl

abbrev pub db : StateDb
db = fresh_db one_account

db-IsFresh : IsFresh db
unfolding create_state_db_with
db-IsFresh = record {
  undo = refl;
  refund = refl;
  logs = refl;
  accessed_addresses = refl;
  accessed_slots = refl;
  transient_storage = refl;
  created_contracts = refl;
  empty_candidates = refl;
}

abbrev more_calls : List Call
more_calls =
    Call.add_balance 1 5
    ∷ Call.set_state 1 7 4
    ∷ Call.add_slot_to_access_list 1 7
    ∷ Call.set_transient_state 1 2 3
    ∷ Call.add_refund 5
    ∷ []

abort_transaction-Agrees_example :
    (u : StateDb) × (abort_transaction (after_run more_calls db) ≡ some (tt, u))
    × IsFresh u
    × Agrees db u
unfolding create_state_db_with run call lookup insert delete add_balance
    create_account_if_not_exists exist get_balance store_balance set_state write_slot taint
    add_slot_to_access_list add_address_to_access_list set_transient_state add_refund
abort_transaction-Agrees_example =
    abort_transaction-Agrees db (after_run more_calls db) more_calls fresh_db-IsCoherent db-IsFresh
      (omega arith) refl

end_transaction_lem_example :
    (t : StateDb) × (end_transaction (after_run calls db) ≡ some (tt, t))
    × IsFresh t
    × (t.accounts_to_delete ≡ [])
    × (t.written_slots ≡ [])
end_transaction_lem_example = end_transaction_lem (after_run calls db)

-- After a write of slot 7 of account 1, which exists and is not touched while it is empty.
abbrev writes : List Call
writes = Call.set_state 1 7 4 ∷ []

end_transaction-commits_example :
    (t : StateDb) × (end_transaction (after_run writes db) ≡ some (tt, t))
    × (lookup (1, 7) t.slots ≡ committed_slot (1, 7) (after_run writes db))
    × ((v : SlotValue)
        → lookup (1, 7) (after_run writes db).slots ≡ some v
        → has (1, 7) (keys (after_run writes db).written_slots) ≡ true
        → (result (get_committed_state 1 7 t) ≡ some v.current)
          × (result (get_state 1 7 t) ≡ some v.current))
unfolding create_state_db_with run call lookup insert create_account_if_not_exists exist set_state
    write_slot taint get_state load_stored_state read_stored Lru.get Lru.set
end_transaction-commits_example = end_transaction-commits (after_run writes db) (1, 7) refl refl
