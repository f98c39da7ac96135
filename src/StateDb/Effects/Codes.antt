-- ===== src/StateDb/Effects/Codes.antt =====
-- SetCode and the reads of the code in go/state/state_db.go.
use carmen.Prelude.{ℕ, ◌≡◌, some, true, comparable_nat, comparable_pair, arith, is_some}
use carmen.Prelude.Map.{lookup-insert_same}
use carmen.StateDb.Types.{Bytes, StateDb, ◌>>◌}
use carmen.StateDb.Revert.View.{account_view, account_origin}
use carmen.StateDb.Revert.Observe.{result, or_load}
use carmen.StateDb.Accounts.{exist, create_account_if_not_exists, set_account_state, reset_balance}
use carmen.StateDb.Code.{set_code, set_code_internal, get_code, get_code_hash}

-- GetCode after SetCode returns the code.
pub get_code-set_code :
    (a : ℕ) (code : Bytes) (s : StateDb) → result ((set_code a code >> get_code a) s) ≡ some code
unfolding set_code create_account_if_not_exists exist set_account_state reset_balance
    set_code_internal get_code
get_code-set_code a code s = grind (arith, lookup-insert_same)

-- GetCodeHash after SetCode on an account whose existence is known returns the Keccak hash of the
-- code.
pub get_code_hash-set_code :
    (a : ℕ) (code : Bytes) (s : StateDb)
    → is_some (or_load (account_view s a) (account_origin s a)) ≡ true
    → result ((set_code a code >> get_code_hash a) s) ≡ some (s.state.keccak256 code)
unfolding set_code create_account_if_not_exists exist set_account_state reset_balance
    set_code_internal get_code_hash
get_code_hash-set_code a code s h = grind (arith, lookup-insert_same)
