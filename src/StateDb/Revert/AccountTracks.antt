-- ===== src/StateDb/Revert/AccountTracks.antt =====
-- The loads and writes of account states, balances and nonces of go/state/state_db.go, each as one
-- step on the track.
use carmen.Prelude.{ℕ, ◌≡◌, refl, sym, none, some, Bool, comparable_nat}
use carmen.Prelude.Map.{lookup}
use carmen.StateDb.Types.{StateDb, LifeCycle, AccountState, BalanceValue, NonceValue}
use carmen.StateDb.Accounts.{
  cache_account, initial_state, write_account_state, reset_known_balance, reset_unknown_balance,
  cache_balance, write_balance, cache_nonce, write_known_nonce, write_unknown_nonce,
}
use carmen.StateDb.Revert.View.{Extends, Extends-refl, account_origin}
use carmen.StateDb.Revert.Caches.{Ext-load}
use carmen.StateDb.Revert.Journal.{Tracks}
use carmen.StateDb.Revert.Undoes.{
  life_cycle, balance_shown, nonce_shown, write_account_state-Undoes, write_balance-Undoes,
  reset_known_balance-Undoes, reset_unknown_balance-Undoes, write_known_nonce-Undoes,
  write_unknown_nonce-Undoes,
}
use carmen.StateDb.Revert.Keeps.{Tracks-load, Tracks-write}

cache_account-Extends :
    (a : ℕ) (present : Bool) (s : StateDb)
    → lookup a s.accounts ≡ none
    → s.state.exists a ≡ some present
    → Extends s (cache_account a present s)
unfolding cache_account
cache_account-Extends a present s missing known =
    let self = Extends-refl s in
    let v : AccountState = record {
      original = initial_state present;
      current = initial_state present;
    } in
    assumption (self, Ext-load life_cycle (account_origin s) a v s.accounts (rw missing) (rw known))

cache_balance-Extends :
    (a b : ℕ) (s : StateDb)
    → lookup a s.balances ≡ none
    → s.state.balance a ≡ some b
    → Extends s (cache_balance a b s)
unfolding cache_balance
cache_balance-Extends a b s missing known =
    let self = Extends-refl s in
    let v : BalanceValue = record { original = some b; current = b } in
    assumption
      (self, Ext-load balance_shown s.state.balance a v s.balances (rw missing) (sym known))

cache_nonce-Extends :
    (a n : ℕ) (s : StateDb)
    → lookup a s.nonces ≡ none
    → s.state.nonce a ≡ some n
    → Extends s (cache_nonce a n s)
unfolding cache_nonce
cache_nonce-Extends a n s missing known =
    let self = Extends-refl s in
    let v : NonceValue = record { original = some n; current = n } in
    assumption (self, Ext-load nonce_shown s.state.nonce a v s.nonces (rw missing) (sym known))

-- The loads and the writes, each as one step on the track.
module _ {base s : StateDb} (k : Tracks base s) where
  pub cache_account-Tracks :
      (a : ℕ) (present : Bool)
      → lookup a s.accounts ≡ none
      → s.state.exists a ≡ some present
      → Tracks base (cache_account a present s)
  unfolding cache_account
  cache_account-Tracks a present missing known =
      let c = k.coherent in
      Tracks-load k (cache_account-Extends a present s missing known) (assumption c) refl

  pub cache_balance-Tracks :
      (a b : ℕ)
      → lookup a s.balances ≡ none
      → s.state.balance a ≡ some b
      → Tracks base (cache_balance a b s)
  unfolding cache_balance
  cache_balance-Tracks a b missing known =
      let c = k.coherent in
      Tracks-load k (cache_balance-Extends a b s missing known) (assumption c) refl

  pub cache_nonce-Tracks :
      (a n : ℕ)
      → lookup a s.nonces ≡ none
      → s.state.nonce a ≡ some n
      → Tracks base (cache_nonce a n s)
  unfolding cache_nonce
  cache_nonce-Tracks a n missing known =
      let c = k.coherent in
      Tracks-load k (cache_nonce-Extends a n s missing known) (assumption c) refl

  pub write_account_state-Tracks :
      (a : ℕ) (val : AccountState) (state : LifeCycle)
      → lookup a s.accounts ≡ some val
      → Tracks base (write_account_state a val state s)
  unfolding write_account_state
  write_account_state-Tracks a val state found =
      let c = k.coherent in
      Tracks-write k _ (write_account_state-Undoes a val state s found) (assumption c) refl

  pub reset_known_balance-Tracks :
      (a : ℕ) (val : BalanceValue)
      → lookup a s.balances ≡ some val
      → Tracks base (reset_known_balance a val s)
  unfolding reset_known_balance
  reset_known_balance-Tracks a val found =
      let c = k.coherent in
      Tracks-write k _ (reset_known_balance-Undoes a val s found) (assumption c) refl

  pub reset_unknown_balance-Tracks :
      (a : ℕ) → lookup a s.balances ≡ none → Tracks base (reset_unknown_balance a s)
  unfolding reset_unknown_balance
  reset_unknown_balance-Tracks a missing =
      let c = k.coherent in
      Tracks-write k _ (reset_unknown_balance-Undoes a s missing) (assumption c) refl

  pub write_balance-Tracks :
      (a : ℕ) (val : BalanceValue) (new : ℕ)
      → lookup a s.balances ≡ some val
      → Tracks base (write_balance a val val.current new s)
  unfolding write_balance
  write_balance-Tracks a val new found =
      let c = k.coherent in
      Tracks-write k _ (write_balance-Undoes a val s found new) (assumption c) refl

  pub write_known_nonce-Tracks :
      (a : ℕ) (val : NonceValue) (new : ℕ)
      → lookup a s.nonces ≡ some val
      → Tracks base (write_known_nonce a val new s)
  unfolding write_known_nonce
  write_known_nonce-Tracks a val new found =
      let c = k.coherent in
      Tracks-write k _ (write_known_nonce-Undoes a val new s found) (assumption c) refl

  pub write_unknown_nonce-Tracks :
      (a new : ℕ) → lookup a s.nonces ≡ none → Tracks base (write_unknown_nonce a new s)
  unfolding write_unknown_nonce
  write_unknown_nonce-Tracks a new missing =
      let c = k.coherent in
      Tracks-write k _ (write_unknown_nonce-Undoes a new s missing) (assumption c) refl
