-- ===== src/StateDb/Undo.antt =====
-- The closures on the undo list of go/state/state_db.go, and RevertToSnapshot.
use carmen.Prelude.{
  ℕ, ◌-◌, Option, none, some, List, [], ◌∷◌, true, false, Comparable, if◌then◌else◌, comparable_nat,
  comparable_pair, ltb, leb, length, take,
}
use carmen.Prelude.Map.{Map, lookup, insert, delete}
use carmen.StateDb.Types.{
  SlotId, BalanceValue, CodeValue, invalid_snapshot, Undo, StateDb, M, ◌>>=◌, return, get, fail,
}
use carmen.Prelude.Int.{ℤ, pos, negsuc}
use carmen.StateDb.Storage.{known_committed}

-- A write through a captured pointer changes the entry where the map still has it.
unfoldable pub restore {ℓ κ} :
    {K : Type ℓ} {V : Type κ} ⦃e : Comparable K⦄ → K → (V → V) → Map K V → Map K V
restore k f m = elim (lookup k m) [ none ↦ m | some v ↦ insert k (f v) m ]

-- A write through the map: a missing entry is a nil dereference.
unfoldable pub restore_present {ℓ κ} :
    {K : Type ℓ} {V : Type κ} ⦃e : Comparable K⦄ → K → (V → V) → Map K V → Option (Map K V)
restore_present k f m = elim (lookup k m) [ none ↦ none | some v ↦ some (insert k (f v) m) ]

-- SetState on a slot without an entry: what was committed, if it got known since, or no entry.
unfoldable pub revert_new_slot : SlotId → StateDb → Option StateDb
revert_new_slot sid s = elim (lookup sid s.slots) [
  | none ↦ none
  | some v ↦ elim (known_committed (some v)) [
    | some x ↦ some (record s {
      slots = insert sid (record v { current = x }) s.slots;
      written_slots = delete sid s.written_slots;
    })
    | none ↦
        some (record s { slots = delete sid s.slots; written_slots = delete sid s.written_slots })
  ]
]

unfoldable pub apply_undo : Undo → StateDb → Option StateDb
apply_undo (Undo.account_current a old) s =
    some (record s { accounts = restore a (λ v. record v { current = old }) s.accounts })
apply_undo (Undo.delete_list_length n) s =
    some (record s { accounts_to_delete = take n s.accounts_to_delete })
apply_undo (Undo.balance_current a old) s =
    elim (restore_present a (λ (v : BalanceValue). record v { current = old }) s.balances) [
      | none ↦ none
      | some m ↦ some (record s { balances = m })
    ]
apply_undo (Undo.balance_value a old) s =
    some (record s { balances = restore a (λ v. record v { current = old }) s.balances })
apply_undo (Undo.balance_delete a) s = some (record s { balances = delete a s.balances })
apply_undo (Undo.nonce_current a old) s =
    some (record s { nonces = restore a (λ v. record v { current = old }) s.nonces })
apply_undo (Undo.nonce_delete a) s = some (record s { nonces = delete a s.nonces })
apply_undo (Undo.slot_backup sid backup) s =
    some (record s { slots = restore sid (λ v. backup) s.slots })
apply_undo (Undo.slot_current sid old) s =
    some (record s { slots = restore sid (λ v. record v { current = old }) s.slots })
apply_undo (Undo.slot_new sid) s = revert_new_slot sid s
apply_undo (Undo.transient_value sid old) s =
    some (record s { transient_storage = insert sid old s.transient_storage })
apply_undo (Undo.code_delete a) s = some (record s { codes = delete a s.codes })
apply_undo (Undo.code_value a old) s = elim (restore_present a (λ (v : CodeValue). old) s.codes) [
  | none ↦ none
  | some m ↦ some (record s { codes = m })
]
apply_undo (Undo.clearing_state a old) s =
    some (record s { cleared_accounts = insert a old s.cleared_accounts })
apply_undo (Undo.created_contract a) s =
    some (record s { created_contracts = delete a s.created_contracts })
apply_undo (Undo.refund_value old) s = some (record s { refund = old })
apply_undo (Undo.logs_size n) s =
    some (record s { logs = take n s.logs; logs_in_block = s.logs_in_block - 1 })
apply_undo (Undo.accessed_address a) s =
    some (record s { accessed_addresses = delete a s.accessed_addresses })
apply_undo (Undo.accessed_slot sid) s =
    some (record s { accessed_slots = delete sid s.accessed_slots })

-- The loop of RevertToSnapshot, over the undo list; newest first, here.
unfoldable pub rewind : List Undo → ℕ → StateDb → Option StateDb
unfolding apply_undo
rewind [] id s = some (record s { undo = [] })
rewind (u ∷ us) id s = elim (leb (length (u ∷ us)) id) [
  | true ↦ some (record s { undo = u ∷ us })
  | false ↦ elim (apply_undo u s) [ none ↦ none | some s' ↦ rewind us id s' ]
]

unfoldable pub snapshot : M ℕ
snapshot = do s ← get; return (length s.undo)

unfoldable pub revert_to_snapshot : ℤ → M (Unit {0})
unfolding rewind
revert_to_snapshot (negsuc n) s = fail invalid_snapshot s
revert_to_snapshot (pos id) s =
    if ltb (length s.undo) id
    then fail invalid_snapshot s
    else (elim (rewind s.undo id s) [ none ↦ none | some s' ↦ some (tt, s') ])
