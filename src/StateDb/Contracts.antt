-- ===== src/StateDb/Contracts.antt =====
-- Creation and destruction of accounts and contracts in go/state/state_db.go.
use carmen.Prelude.{
  ℕ, [], ◌∷◌, ◌++◌, Bool, true, false, ◌==◌, if◌then◌else◌, is_some, comparable_nat,
  comparable_pair, not, length,
}
use carmen.Prelude.Map.{lookup, insert, keys}
use carmen.StateDb.Types.{
  exists, self_destructed, ClearingState, no_clearing, pending_clearing, cleared, Undo, StateDb, M,
  ◌>>=◌, ◌>>◌, return, get, modify, skip, clearing,
}
use carmen.StateDb.Accounts.{
  exist, set_account_state, create_account_if_not_exists, reset_balance, touch, get_balance,
  get_nonce, set_nonce_internal,
}
use carmen.StateDb.Code.{set_code_internal, get_code_size}
use carmen.StateDb.Storage.{clear_slots, write_clearing}

unfoldable pub create_account : ℕ → M (Unit {0})
create_account a = do
  set_nonce_internal a 0
  set_code_internal a []
  present ← exist a
  set_account_state a exists
  modify (touch a)
  if present then skip else reset_balance a
  s ← get
  clear_slots a (keys s.slots)
  modify (write_clearing a cleared)

unfoldable pub write_created_contract : ℕ → StateDb → StateDb
write_created_contract a s = record s {
  created_contracts = insert a true s.created_contracts;
  undo = Undo.created_contract a ∷ s.undo;
}

unfoldable pub create_contract : ℕ → M (Unit {0})
unfolding write_created_contract
create_contract a = do
  s ← get
  if is_some (lookup a s.created_contracts)
      then skip
      else (do create_account_if_not_exists a; modify (write_created_contract a))

unfoldable pub schedule_deletion : ℕ → StateDb → StateDb
schedule_deletion a s = record s {
  accounts_to_delete = s.accounts_to_delete ++ a ∷ [];
  undo = Undo.delete_list_length (length s.accounts_to_delete) ∷ s.undo;
}

abbrev pub is_no_clearing : ClearingState → Bool
is_no_clearing no_clearing = true
is_no_clearing _ = false

unfoldable pub plan_clearing : ℕ → M (Unit {0})
unfolding write_clearing
plan_clearing a = do
  s ← get
  if is_no_clearing (clearing s a) then modify (write_clearing a pending_clearing) else skip

unfoldable pub suicide : ℕ → M Bool
unfolding schedule_deletion
suicide a = do
  present ← exist a
  if not present then return false else (do
    set_account_state a self_destructed
    reset_balance a
    modify (schedule_deletion a)
    plan_clearing a
    return true)

unfoldable pub suicide_new_contract : ℕ → M Bool
suicide_new_contract a = do
  s ← get
  if is_some (lookup a s.created_contracts) then suicide a else return false

-- Empty; the conjunction stops at the first test that fails.
unfoldable pub empty : ℕ → M Bool
empty a = do
  b ← get_balance a
  if not (b == 0) then return false else (do
    n ← get_nonce a
    if not (n == 0) then return false else (do size ← get_code_size a; return (size == 0)))
