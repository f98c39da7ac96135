-- ===== src/StateDb/Transaction.antt =====
-- The end of a transaction in go/state/state_db.go. The loops over maps go in the order of the
-- association lists; the source leaves the order open.
use carmen.Prelude.{
  ℕ, none, some, List, [], ◌∷◌, ◌++◌, Bool, true, ◌==◌, if◌then◌else◌, ◌||◌, get_or, comparable_nat,
  comparable_pair, not,
}
use carmen.Prelude.Map.{Map, lookup, insert, keys}
use carmen.StateDb.Types.{
  SlotId, non_existing, ClearingState, pending_clearing, cleared, is_cleared, SlotValue, StateDb, M,
  ◌>>=◌, ◌>>◌, return, get, modify, skip, clearing,
}
use carmen.Prelude.Int.{pos}
use carmen.StateDb.Accounts.{set_account_state, reset_balance, set_nonce_internal, has_suicided}
use carmen.StateDb.Code.{set_code_internal}
use carmen.StateDb.Context.{clear_access_list}
use carmen.StateDb.Contracts.{empty}
use carmen.StateDb.Storage.{cleared_slot}
use carmen.StateDb.Undo.{revert_to_snapshot}

-- The current value of a written slot becomes its committed value.
abbrev pub seal_slot : SlotValue → SlotValue
seal_slot v = record v { committed = v.current; committed_known = true }

unfoldable pub commit_slots : List SlotId → Map SlotId SlotValue → Map SlotId SlotValue
commit_slots [] m = m
commit_slots (sid ∷ sids) m =
    commit_slots sids (elim (lookup sid m) [ none ↦ m | some v ↦ insert sid (seal_slot v) m ])

abbrev pub mark : ℕ → ClearingState → StateDb → StateDb
mark a c s = record s { cleared_accounts = insert a c s.cleared_accounts }

-- An account that was touched and is empty is to be deleted (EIP-161).
unfoldable pub schedule_if_empty : ℕ → M (Unit {0})
schedule_if_empty a = do
  is_empty ← empty a
  if is_empty
      then modify (λ s.
        mark a pending_clearing (record s { accounts_to_delete = s.accounts_to_delete ++ a ∷ [] }))
      else skip

unfoldable pub schedule_empty : List ℕ → M (Unit {0})
schedule_empty [] = skip
schedule_empty (a ∷ as') = do schedule_if_empty a; schedule_empty as'

-- The slots of the account are forgotten; this is not undone.
unfoldable pub forget_slots : ℕ → Map SlotId SlotValue → Map SlotId SlotValue
forget_slots a [] = []
forget_slots a ((sid, v) ∷ m) = (sid, if sid.0 == a then cleared_slot else v) ∷ forget_slots a m

unfoldable pub bury : ℕ → M (Unit {0})
unfolding forget_slots
bury a = do
  set_account_state a non_existing
  reset_balance a
  set_nonce_internal a 0
  set_code_internal a []
  modify (λ s. mark a cleared (record s { slots = forget_slots a s.slots }))

unfoldable pub retire_suicided : ℕ → M (Unit {0})
retire_suicided a = do
  set_account_state a non_existing
  set_code_internal a []
  modify (mark a pending_clearing)

-- One round of the deletion loop; an account that was created anew is left alone.
unfoldable pub delete_account : ℕ → M (Unit {0})
delete_account a = do
  suicided ← has_suicided a
  if suicided then retire_suicided a else skip
  s ← get
  if is_cleared (clearing s a) then skip else bury a

unfoldable pub delete_accounts : List ℕ → M (Unit {0})
delete_accounts [] = skip
delete_accounts (a ∷ as') = do delete_account a; delete_accounts as'

unfoldable pub reset_transaction_context : M (Unit {0})
reset_transaction_context = do
  modify (λ s. record s { refund = 0 })
  clear_access_list
  modify (λ s. record s {
    transient_storage = [];
    undo = [];
    empty_candidates = [];
    logs = [];
    created_contracts = [];
  })

unfoldable pub end_transaction : M (Unit {0})
unfolding commit_slots
end_transaction = do
  modify (λ s. record s { slots = commit_slots (keys s.written_slots) s.slots })
  s ← get
  schedule_empty s.empty_candidates
  s ← get
  delete_accounts s.accounts_to_delete
  modify (λ s. record s { accounts_to_delete = []; written_slots = [] })
  reset_transaction_context

unfoldable pub abort_transaction : M (Unit {0})
abort_transaction = do revert_to_snapshot (pos 0); reset_transaction_context

unfoldable pub reset_block_context : M (Unit {0})
reset_block_context = do
  modify (λ s. record s {
    accounts = [];
    balances = [];
    nonces = [];
    slots = [];
    cleared_accounts = [];
    codes = [];
    logs_in_block = 0;
  })
  reset_transaction_context

-- GetTransactionChanges: each account touched, with the keys of its slots that may have changed. The
-- loop over the slots visits each once; ForEach of a FastMap may visit a slot twice.
abbrev pub is_changed : SlotValue → Bool
is_changed v = not v.committed_known || not (v.committed == v.current)

unfoldable pub name_accounts {κ} : {V : Type κ} → Map ℕ V → Map ℕ (List ℕ) → Map ℕ (List ℕ)
name_accounts [] c = c
name_accounts ((a, v) ∷ m) c = name_accounts m (insert a [] c)

unfoldable pub add_changed_slots : Map SlotId SlotValue → Map ℕ (List ℕ) → Map ℕ (List ℕ)
add_changed_slots [] c = c
add_changed_slots (((a, key), v) ∷ m) c =
    add_changed_slots m
      (if is_changed v then insert a (get_or (lookup a c) [] ++ key ∷ []) c else c)

unfoldable pub get_transaction_changes : M (Map ℕ (List ℕ))
unfolding name_accounts add_changed_slots
get_transaction_changes = do
  s ← get
  return (
      add_changed_slots s.slots (
        name_accounts s.codes
          (name_accounts s.nonces (name_accounts s.balances (name_accounts s.accounts [])))))
