-- ===== src/StateDb/Calls.antt =====
-- The interface VmStateDB of go/state/state_db.go as a data type of calls, and their execution.
use carmen.Prelude.{ℕ, List, [], ◌∷◌, comparable_nat, comparable_pair}
use carmen.Prelude.Int.{ℤ}
use carmen.StateDb.Types.{Bytes, Log, M, ◌>>=◌, ◌>>◌, return, skip}
use carmen.StateDb.Accounts
use carmen.StateDb.Storage
use carmen.StateDb.Code
use carmen.StateDb.Context
use carmen.StateDb.Contracts
use carmen.StateDb.Undo

-- The calls during a transaction. ClearAccessList, which is not on the undo list, stands apart.
pub data Call : Type 0 where
  create_account create_contract suicide suicide_new_contract exist empty get_balance get_nonce
        has_empty_storage :
      ℕ → Call
  get_code get_code_hash get_code_size add_refund sub_refund add_address_to_access_list : ℕ → Call
  add_balance sub_balance set_nonce get_committed_state get_state add_slot_to_access_list :
      ℕ → ℕ → Call
  set_state set_transient_state : ℕ → ℕ → ℕ → Call
  set_code : ℕ → Bytes → Call
  add_log : Log → Call
  revert_to_snapshot : ℤ → Call

-- A call for its effect.
abbrev pub run_ : {A : Type 0} → M A → M (Unit {0})
run_ m = m >>= λ _. return tt

unfoldable pub call : Call → M (Unit {0})
call (Call.create_account a) = Contracts.create_account a
call (Call.create_contract a) = Contracts.create_contract a
call (Call.suicide a) = run_ (Contracts.suicide a)
call (Call.suicide_new_contract a) = run_ (Contracts.suicide_new_contract a)
call (Call.exist a) = run_ (Accounts.exist a)
call (Call.empty a) = run_ (Contracts.empty a)
call (Call.get_balance a) = run_ (Accounts.get_balance a)
call (Call.get_nonce a) = run_ (Accounts.get_nonce a)
call (Call.has_empty_storage a) = run_ (Storage.has_empty_storage a)
call (Call.get_code a) = run_ (Code.get_code a)
call (Call.get_code_hash a) = run_ (Code.get_code_hash a)
call (Call.get_code_size a) = run_ (Code.get_code_size a)
call (Call.add_refund n) = Context.add_refund n
call (Call.sub_refund n) = Context.sub_refund n
call (Call.add_address_to_access_list a) = Context.add_address_to_access_list a
call (Call.add_balance a n) = Accounts.add_balance a n
call (Call.sub_balance a n) = Accounts.sub_balance a n
call (Call.set_nonce a n) = Accounts.set_nonce a n
call (Call.get_committed_state a k) = run_ (Storage.get_committed_state a k)
call (Call.get_state a k) = run_ (Storage.get_state a k)
call (Call.add_slot_to_access_list a k) = Context.add_slot_to_access_list a k
call (Call.set_state a k v) = Storage.set_state a k v
call (Call.set_transient_state a k v) = Storage.set_transient_state a k v
call (Call.set_code a code) = Code.set_code a code
call (Call.add_log log) = Context.add_log log
call (Call.revert_to_snapshot id) = Undo.revert_to_snapshot id

unfoldable pub run : List Call → M (Unit {0})
run [] = skip
run (c ∷ cs) = do call c; run cs
