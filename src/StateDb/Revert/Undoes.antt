-- ===== src/StateDb/Revert/Undoes.antt =====
-- Each write of go/state/state_db.go is undone by the closure that it puts on the undo list.
use carmen.Prelude.{
  ℕ, ◌-◌, ◌≡◌, refl, ap, inl, inr, Option, none, some, Bool, true, Comparable, ◌==◌, get_or,
  comparable_nat, comparable_pair, length, arith, Bool-cases, take-append, take,
}
use carmen.StateDb.Types.{
  SlotId, LifeCycle, AccountState, BalanceValue, NonceValue, Undo, StateDb, Log,
}
use carmen.StateDb.Undo.{apply_undo}
use carmen.StateDb.Accounts.{
  write_account_state, reset_known_balance, reset_unknown_balance, write_balance, write_known_nonce,
  write_unknown_nonce,
}
use carmen.StateDb.Storage.{write_transient, transient}
use carmen.StateDb.Context.{write_refund, append_log, write_accessed_address, write_accessed_slot}
use carmen.StateDb.Contracts.{write_created_contract, schedule_deletion}
use carmen.Prelude.Map.{Map, lookup, insert, delete, lookup-insert, lookup-delete, equal_refl}
use carmen.StateDb.Revert.View.{account_origin}
use carmen.StateDb.Revert.Caches.{
  Ext-restore, Ext-delete, Ext-present, restore_lem, restore_present_lem,
}
use carmen.StateDb.Revert.Journal.{Undoes}

pub write_refund-Undoes :
    (refund : ℕ) (s : StateDb) → Undoes (Undo.refund_value s.refund) s (write_refund refund s)
unfolding write_refund apply_undo
write_refund-Undoes refund s t h c =
    (record t { refund = s.refund }, refl, assumption refl, assumption)

-- Account states.
abbrev pub life_cycle : AccountState → Option LifeCycle
life_cycle v = some v.current

pub write_account_state-Undoes :
    (a : ℕ) (val : AccountState) (state : LifeCycle) (s : StateDb)
    → lookup a s.accounts ≡ some val
    → Undoes (Undo.account_current a val.current) s (write_account_state a val state s)
unfolding write_account_state apply_undo
write_account_state-Undoes a val state s found t h c =
    let new : AccountState = record val { current = state } in
    let back : (AccountState → AccountState) = λ w. record w { current = val.current } in
    let (w, present) =
      Ext-present life_cycle (account_origin s) a new s.accounts t.accounts h.accounts refl in
    (
      record t { accounts = insert a (back w) t.accounts },
      ap (λ m. some (record t { accounts = m })) (restore_lem a back t.accounts w present),
      assumption (
          Ext-restore life_cycle (account_origin s) a new s.accounts t.accounts h.accounts (back w)
            (rw found)),
      assumption,
    )

-- Balances.
abbrev pub balance_shown : BalanceValue → Option ℕ
balance_shown v = some v.current

module _ (a : ℕ) (val : BalanceValue) (s : StateDb) (found : lookup a s.balances ≡ some val) where
  pub write_balance-Undoes :
      (new : ℕ)
      → Undoes (Undo.balance_current a val.current) s (write_balance a val val.current new s)
  unfolding write_balance apply_undo
  write_balance-Undoes amount t h c =
      let new : BalanceValue = record val { current = amount } in
      let back : (BalanceValue → BalanceValue) = λ w. record w { current = val.current } in
      let (w, present) =
        Ext-present balance_shown s.state.balance a new s.balances t.balances h.balances refl in
      (
        record t { balances = insert a (back w) t.balances },
        rw (restore_present_lem a back t.balances w present, apply_undo),
        assumption (
            Ext-restore balance_shown s.state.balance a new s.balances t.balances h.balances
              (back w) (rw found)),
        assumption,
      )

  pub reset_known_balance-Undoes :
      Undoes (Undo.balance_value a val.current) s (reset_known_balance a val s)
  unfolding reset_known_balance apply_undo
  reset_known_balance-Undoes t h c =
      let new : BalanceValue = record val { current = 0 } in
      let back : (BalanceValue → BalanceValue) = λ w. record w { current = val.current } in
      let (w, present) =
        Ext-present balance_shown s.state.balance a new s.balances t.balances h.balances refl in
      (
        record t { balances = insert a (back w) t.balances },
        ap (λ m. some (record t { balances = m })) (restore_lem a back t.balances w present),
        assumption (
            Ext-restore balance_shown s.state.balance a new s.balances t.balances h.balances
              (back w) (rw found)),
        assumption,
      )

pub reset_unknown_balance-Undoes :
    (a : ℕ) (s : StateDb)
    → lookup a s.balances ≡ none
    → Undoes (Undo.balance_delete a) s (reset_unknown_balance a s)
unfolding reset_unknown_balance apply_undo
reset_unknown_balance-Undoes a s missing t h c =
    let new : BalanceValue = record { original = none; current = 0 } in
    (
      record t { balances = delete a t.balances },
      refl,
      assumption (
          Ext-delete balance_shown s.state.balance a new s.balances t.balances h.balances
            (rw missing)),
      assumption,
    )

-- Nonces.
abbrev pub nonce_shown : NonceValue → Option ℕ
nonce_shown v = some v.current

pub write_known_nonce-Undoes :
    (a : ℕ) (val : NonceValue) (nonce : ℕ) (s : StateDb)
    → lookup a s.nonces ≡ some val
    → Undoes (Undo.nonce_current a val.current) s (write_known_nonce a val nonce s)
unfolding write_known_nonce apply_undo
write_known_nonce-Undoes a val nonce s found t h c =
    let new : NonceValue = record val { current = nonce } in
    let back : (NonceValue → NonceValue) = λ w. record w { current = val.current } in
    let (w, present) =
      Ext-present nonce_shown s.state.nonce a new s.nonces t.nonces h.nonces refl in
    (
      record t { nonces = insert a (back w) t.nonces },
      ap (λ m. some (record t { nonces = m })) (restore_lem a back t.nonces w present),
      assumption (
          Ext-restore nonce_shown s.state.nonce a new s.nonces t.nonces h.nonces (back w)
            (rw found)),
      assumption,
    )

pub write_unknown_nonce-Undoes :
    (a nonce : ℕ) (s : StateDb)
    → lookup a s.nonces ≡ none
    → Undoes (Undo.nonce_delete a) s (write_unknown_nonce a nonce s)
unfolding write_unknown_nonce apply_undo
write_unknown_nonce-Undoes a nonce s missing t h c =
    let new : NonceValue = record { original = none; current = nonce } in
    (
      record t { nonces = delete a t.nonces },
      refl,
      assumption
          (Ext-delete nonce_shown s.state.nonce a new s.nonces t.nonces h.nonces (rw missing)),
      assumption,
    )

-- Transaction context.
pub append_log-Undoes :
    (log : Log) (s : StateDb) → Undoes (Undo.logs_size (length s.logs)) s (append_log log s)
unfolding append_log apply_undo
append_log-Undoes log s t h c =
    let kept : take (length s.logs) t.logs ≡ s.logs = rw h.logs (take-append s.logs _) in
    let count : t.logs_in_block - 1 ≡ s.logs_in_block = omega (arith, h.logs_in_block) in
    (
      record t { logs = take (length s.logs) t.logs; logs_in_block = t.logs_in_block - 1 },
      refl,
      assumption (kept, count),
      assumption,
    )

pub schedule_deletion-Undoes :
    (a : ℕ) (s : StateDb)
    → Undoes (Undo.delete_list_length (length s.accounts_to_delete)) s (schedule_deletion a s)
unfolding schedule_deletion apply_undo
schedule_deletion-Undoes a s t h c =
    let kept : take (length s.accounts_to_delete) t.accounts_to_delete ≡ s.accounts_to_delete =
      rw h.deletions (take-append s.accounts_to_delete _) in
    (
      record t { accounts_to_delete = take (length s.accounts_to_delete) t.accounts_to_delete },
      refl,
      assumption kept,
      assumption,
    )

-- A new entry of a set is deleted again.
delete_new {ℓ} :
    {K : Type ℓ} ⦃e : Comparable K⦄ (k : K) (m n : Map K Bool)
    → lookup k m ≡ none
    → ((j : K) → lookup j (insert k true m) ≡ lookup j n)
    → (j : K) → lookup j m ≡ lookup j (delete k n)
delete_new ⦃e⦄ k m n absent h j = elim (Bool-cases (k == j)) [
  | inl t ↦ rw (← (e.equal_iff k j).0 t, lookup-delete k k n, equal_refl k) absent
  | inr f ↦ rw (lookup-delete k j n, f) (rw (lookup-insert k j true m, f) at (h j))
]

pub write_accessed_address-Undoes :
    (a : ℕ) (s : StateDb)
    → lookup a s.accessed_addresses ≡ none
    → Undoes (Undo.accessed_address a) s (write_accessed_address a s)
unfolding write_accessed_address apply_undo
write_accessed_address-Undoes a s absent t h c = (
  record t { accessed_addresses = delete a t.accessed_addresses },
  refl,
  assumption (delete_new a s.accessed_addresses t.accessed_addresses absent h.addresses),
  assumption,
)

pub write_accessed_slot-Undoes :
    (sid : SlotId) (s : StateDb)
    → lookup sid s.accessed_slots ≡ none
    → Undoes (Undo.accessed_slot sid) s (write_accessed_slot sid s)
unfolding write_accessed_slot apply_undo
write_accessed_slot-Undoes sid s absent t h c = (
  record t { accessed_slots = delete sid t.accessed_slots },
  refl,
  assumption (delete_new sid s.accessed_slots t.accessed_slots absent h.slots),
  assumption,
)

pub write_created_contract-Undoes :
    (a : ℕ) (s : StateDb)
    → lookup a s.created_contracts ≡ none
    → Undoes (Undo.created_contract a) s (write_created_contract a s)
unfolding write_created_contract apply_undo
write_created_contract-Undoes a s absent t h c = (
  record t { created_contracts = delete a t.created_contracts },
  refl,
  assumption (delete_new a s.created_contracts t.created_contracts absent h.created),
  assumption,
)

-- The old value of a map with a default value is put back.
pub put_back {ℓ κ} :
    {K : Type ℓ} {V : Type κ} ⦃e : Comparable K⦄ (d new : V) (k : K) (m n : Map K V)
    → ((j : K) → get_or (lookup j (insert k new m)) d ≡ get_or (lookup j n) d)
    → (j : K) → get_or (lookup j m) d ≡ get_or (lookup j (insert k (get_or (lookup k m) d) n)) d
put_back ⦃e⦄ d new k m n h j = elim (Bool-cases (k == j)) [
  | inl t ↦ rw (← (e.equal_iff k j).0 t, lookup-insert k k (get_or (lookup k m) d) n, equal_refl k)
  | inr f ↦
      rw (lookup-insert k j (get_or (lookup k m) d) n, f) (rw (lookup-insert k j new m, f) at (h j))
]

pub write_transient-Undoes :
    (sid : SlotId) (value : ℕ) (s : StateDb)
    → Undoes (Undo.transient_value sid (transient s sid)) s (write_transient sid value s)
unfolding write_transient apply_undo
write_transient-Undoes sid value s t h c = (
  record t { transient_storage = insert sid (transient s sid) t.transient_storage },
  refl,
  assumption (put_back 0 value sid s.transient_storage t.transient_storage h.transients),
  assumption,
)
