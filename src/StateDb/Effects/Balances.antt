-- ===== src/StateDb/Effects/Balances.antt =====
-- AddBalance and SubBalance of go/state/state_db.go.
use carmen.Prelude.{
  ℕ, ◌+◌, ◌-◌, ◌<◌, ◌≤◌, ◌≡◌, ◌≢◌, Option, none, some, List, [], ◌∷◌, ◌++◌, true, false,
  comparable_nat, comparable_pair, arith, ◌==◌, is_some,
}
use carmen.Prelude.Map.{lookup, lookup-insert, lookup-insert_same}
use carmen.StateDb.Types.{Error, StateDb, M, ◌>>◌, balance_overflow, balance_underflow}
use carmen.StateDb.Revert.View.{balance_view}
use carmen.StateDb.Revert.Observe.{result, or_load}
use carmen.StateDb.Accounts.{
  exist, get_balance, add_balance, sub_balance, create_account_if_not_exists, set_account_state,
  reset_balance, store_balance, amount_mod, add_overflow, sub_underflow,
}

-- The balance that is cached, or else the one that the underlying state holds.
abbrev pub known_balance : StateDb → ℕ → Option ℕ
known_balance s a = or_load (balance_view s a) (s.state.balance a)

-- AddBalance on an existing account whose balance is cached or can be loaded adds to it when the
-- sum is below 2^256.
pub get_balance-add_balance :
    (a diff old : ℕ) (s : StateDb)
    → result (exist a s) ≡ some true
    → known_balance s a ≡ some old
    → old + diff < amount_mod
    → result ((add_balance a diff >> get_balance a) s) ≡ some (old + diff)
unfolding exist get_balance add_balance create_account_if_not_exists store_balance add_overflow
get_balance-add_balance a diff old s e k h = grind (arith, lookup-insert_same)

-- AddBalance of less than 2^256 on an account that does not exist starts from a balance of zero,
-- whatever the state holds.
pub get_balance-add_balance_new :
    (a diff : ℕ) (s : StateDb)
    → result (exist a s) ≡ some false
    → diff < amount_mod
    → result ((add_balance a diff >> get_balance a) s) ≡ some diff
unfolding exist get_balance add_balance create_account_if_not_exists set_account_state reset_balance
    store_balance add_overflow
get_balance-add_balance_new a diff s e h = grind (arith, lookup-insert_same)

-- SubBalance on an existing account whose balance is cached or can be loaded, and is below 2^256,
-- subtracts from it when it is large enough.
pub get_balance-sub_balance :
    (a diff old : ℕ) (s : StateDb)
    → result (exist a s) ≡ some true
    → known_balance s a ≡ some old
    → old < amount_mod
    → diff ≤ old
    → result ((sub_balance a diff >> get_balance a) s) ≡ some (old - diff)
unfolding exist get_balance sub_balance create_account_if_not_exists store_balance sub_underflow
get_balance-sub_balance a diff old s e k b h = grind (arith, lookup-insert_same)

-- What the errors of the state are after a method that returns.
abbrev pub errors_after : {A : Type 0} → M A → StateDb → Option (List Error)
errors_after m s = elim (m s) [ none ↦ none | some (a, t) ↦ some t.errors ]

-- AddBalance, of more than zero, on an existing account whose balance is cached or can be loaded,
-- and is below 2^256, whose sum reaches 2^256, keeps the balance and reports the overflow.
pub add_balance-overflow :
    (a diff old : ℕ) (s : StateDb)
    → result (exist a s) ≡ some true
    → known_balance s a ≡ some old
    → old < amount_mod
    → diff ≢ 0
    → amount_mod ≤ old + diff
    → (result ((add_balance a diff >> get_balance a) s) ≡ some old)
      × (errors_after (add_balance a diff) s ≡ some (s.errors ++ balance_overflow a ∷ []))
unfolding exist get_balance add_balance create_account_if_not_exists store_balance add_overflow
add_balance-overflow a diff old s e k b n h = (grind (arith, lookup-insert_same), grind arith)

-- SubBalance, on an existing account whose balance is cached or can be loaded, of more than that
-- balance keeps the balance and reports the underflow.
pub sub_balance-underflow :
    (a diff old : ℕ) (s : StateDb)
    → result (exist a s) ≡ some true
    → known_balance s a ≡ some old
    → old < diff
    → (result ((sub_balance a diff >> get_balance a) s) ≡ some old)
      × (errors_after (sub_balance a diff) s ≡ some (s.errors ++ balance_underflow a ∷ []))
unfolding exist get_balance sub_balance create_account_if_not_exists store_balance sub_underflow
sub_balance-underflow a diff old s e k b = (grind (arith, lookup-insert_same), grind arith)

-- AddBalance, of more than zero and less than 2^256, panics on an existing account whose balance
-- is not cached and fails to load.
pub add_balance-panics :
    (a diff : ℕ) (s : StateDb)
    → result (exist a s) ≡ some true
    → diff ≢ 0
    → diff < amount_mod
    → lookup a s.balances ≡ none
    → s.state.balance a ≡ none
    → add_balance a diff s ≡ none
unfolding exist get_balance add_balance create_account_if_not_exists store_balance add_overflow
add_balance-panics a diff s e n b l u = grind (arith, lookup-insert_same)

-- AddBalance on an existing account whose balance is cached or can be loaded leaves the balance of
-- every other account alone.
pub get_balance-add_balance_other :
    (a b diff : ℕ) (s : StateDb)
    → a ≢ b
    → result (exist a s) ≡ some true
    → is_some (known_balance s a) ≡ true
    → result ((add_balance a diff >> get_balance b) s) ≡ result (get_balance b s)
unfolding exist get_balance add_balance create_account_if_not_exists store_balance add_overflow
get_balance-add_balance_other a b diff s n e k =
    let d : (a == b) ≡ false = ground arith in grind (arith, lookup-insert)
