-- ===== src/StateDb/Accounts.antt =====
-- Account states, balances and nonces of go/state/state_db.go.
use carmen.Prelude.{
  ℕ, ◌+◌, ◌-◌, ◌%◌, ◌^◌, none, some, [], ◌∷◌, ◌++◌, Bool, true, false, ◌==◌, if◌then◌else◌, ◌&&◌,
  comparable_nat, comparable_pair, ltb, leb,
}
use carmen.Prelude.Map.{lookup, insert}
use carmen.StateDb.Types.{
  LifeCycle, non_existing, exists, self_destructed, AccountState, is_life_cycle, BalanceValue,
  NonceValue, load_failed, balance_overflow, balance_underflow, Undo, StateDb, M, ◌>>=◌, ◌>>◌,
  return, get, modify, panic, skip, fail,
}

-- Exist; a self-destructed account exists until the end of the transaction.
abbrev pub is_present : LifeCycle → Bool
is_present non_existing = false
is_present exists = true
is_present self_destructed = true

abbrev pub initial_state : Bool → LifeCycle
initial_state true = exists
initial_state false = non_existing

unfoldable pub cache_account : ℕ → Bool → StateDb → StateDb
cache_account a present s = record s {
  accounts =
      insert a (record { original = initial_state present; current = initial_state present })
        s.accounts;
}

unfoldable pub exist : ℕ → M Bool
unfolding cache_account
exist a s = elim (lookup a s.accounts) [
  | some v ↦ return (is_present v.current) s
  | none ↦ elim (s.state.exists a) [
    | none ↦ (do fail (load_failed a); return false) s
    | some present ↦ (do modify (cache_account a present); return present) s
  ]
]

-- The write of setAccountState, with its undo.
unfoldable pub write_account_state : ℕ → AccountState → LifeCycle → StateDb → StateDb
write_account_state a val state s = record s {
  accounts = insert a (record val { current = state }) s.accounts;
  undo = Undo.account_current a val.current ∷ s.undo;
}

unfoldable pub set_account_state : ℕ → LifeCycle → M (Unit {0})
unfolding write_account_state
set_account_state a state = do
  exist a
  s ← get
  elim (lookup a s.accounts) [
    | none ↦ skip
    | some val ↦
        if is_life_cycle val.current state then skip else modify (write_account_state a val state)
  ]

unfoldable pub has_suicided : ℕ → M Bool
has_suicided a = do
  s ← get
  return (elim (lookup a s.accounts) [
    | none ↦ false
    | some v ↦ is_life_cycle v.current self_destructed
  ])

-- Balances.
unfoldable pub cache_balance : ℕ → ℕ → StateDb → StateDb
cache_balance a b s = record s {
  balances = insert a (record { original = some b; current = b }) s.balances;
}

unfoldable pub get_balance : ℕ → M ℕ
unfolding cache_balance
get_balance a s = elim (lookup a s.balances) [
  | some v ↦ return v.current s
  | none ↦ elim (s.state.balance a) [
    | none ↦ (do fail (load_failed a); return 0) s
    | some b ↦ (do modify (cache_balance a b); return b) s
  ]
]

unfoldable pub reset_known_balance : ℕ → BalanceValue → StateDb → StateDb
reset_known_balance a val s = record s {
  balances = insert a (record val { current = 0 }) s.balances;
  undo = Undo.balance_value a val.current ∷ s.undo;
}

unfoldable pub reset_unknown_balance : ℕ → StateDb → StateDb
reset_unknown_balance a s = record s {
  balances = insert a (record { original = none; current = 0 }) s.balances;
  undo = Undo.balance_delete a ∷ s.undo;
}

unfoldable pub reset_balance : ℕ → M (Unit {0})
unfolding reset_known_balance reset_unknown_balance
reset_balance a = do
  s ← get
  elim (lookup a s.balances) [
    | some val ↦ if val.current == 0 then skip else modify (reset_known_balance a val)
    | none ↦ modify (reset_unknown_balance a)
  ]

unfoldable pub create_account_if_not_exists : ℕ → M Bool
create_account_if_not_exists a = do
  known ← exist a
  if known then return false else (do set_account_state a exists; reset_balance a; return true)

abbrev pub touch : ℕ → StateDb → StateDb
touch a s = record s { empty_candidates = s.empty_candidates ++ a ∷ [] }

-- `s.balances[addr].current = newValue` and its undo; a missing entry is a nil dereference.
unfoldable pub write_balance : ℕ → BalanceValue → ℕ → ℕ → StateDb → StateDb
write_balance a val old new s = record s {
  balances = insert a (record val { current = new }) s.balances;
  undo = Undo.balance_current a old ∷ s.undo;
}

unfoldable pub store_balance : ℕ → ℕ → ℕ → M (Unit {0})
unfolding write_balance
store_balance a old new = do
  s ← get
  elim (lookup a s.balances) [ none ↦ panic | some val ↦ modify (write_balance a val old new) ]

unfoldable pub amount_mod : ℕ
amount_mod = 2 ^ 256

-- amount.AddOverflow and amount.SubUnderflow
unfoldable pub add_overflow : ℕ → ℕ → ℕ × Bool
unfolding amount_mod
add_overflow a b = ((a + b) % amount_mod, leb amount_mod (a + b))

unfoldable pub sub_underflow : ℕ → ℕ → ℕ × Bool
unfolding amount_mod
sub_underflow a b = ((a + amount_mod - b) % amount_mod, ltb a b)

unfoldable pub add_balance : ℕ → ℕ → M (Unit {0})
unfolding add_overflow
add_balance a diff = do
  create_account_if_not_exists a
  if diff == 0 then modify (touch a) else (do
    old ← get_balance a
    let r = add_overflow old diff
    if r.1 then fail (balance_overflow a) else store_balance a old r.0)

unfoldable pub sub_balance : ℕ → ℕ → M (Unit {0})
unfolding sub_underflow
sub_balance a diff = do
  create_account_if_not_exists a
  if diff == 0 then modify (touch a) else (do
    old ← get_balance a
    let r = sub_underflow old diff
    if r.1
        then fail (balance_underflow a)
        else (do if r.0 == 0 then modify (touch a) else skip; store_balance a old r.0))

-- Nonces.
unfoldable pub cache_nonce : ℕ → ℕ → StateDb → StateDb
cache_nonce a n s = record s {
  nonces = insert a (record { original = some n; current = n }) s.nonces;
}

unfoldable pub get_nonce : ℕ → M ℕ
unfolding cache_nonce
get_nonce a s = elim (lookup a s.nonces) [
  | some v ↦ return v.current s
  | none ↦ elim (s.state.nonce a) [
    | none ↦ (do fail (load_failed a); return 0) s
    | some n ↦ (do modify (cache_nonce a n); return n) s
  ]
]

unfoldable pub write_known_nonce : ℕ → NonceValue → ℕ → StateDb → StateDb
write_known_nonce a val nonce s = record s {
  nonces = insert a (record val { current = nonce }) s.nonces;
  undo = Undo.nonce_current a val.current ∷ s.undo;
}

unfoldable pub write_unknown_nonce : ℕ → ℕ → StateDb → StateDb
write_unknown_nonce a nonce s = record s {
  nonces = insert a (record { original = none; current = nonce }) s.nonces;
  undo = Undo.nonce_delete a ∷ s.undo;
}

unfoldable pub set_nonce_internal : ℕ → ℕ → M (Unit {0})
unfolding write_known_nonce write_unknown_nonce
set_nonce_internal a nonce = do
  s ← get
  elim (lookup a s.nonces) [
    | some val ↦ if val.current == nonce then skip else modify (write_known_nonce a val nonce)
    | none ↦ modify (write_unknown_nonce a nonce)
  ]

unfoldable pub set_nonce : ℕ → ℕ → M (Unit {0})
set_nonce a nonce = do
  set_nonce_internal a nonce
  created ← create_account_if_not_exists a
  if created && nonce == 0 then modify (touch a) else skip
