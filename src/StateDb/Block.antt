-- ===== src/StateDb/Block.antt =====
-- The end of a block in go/state/state_db.go: the update that is sent to the underlying state.
use carmen.Prelude.{
  ℕ, ◌+◌, ◌%◌, ◌^◌, Option, none, some, [], ◌∷◌, Bool, true, false, ◌==◌, if◌then◌else◌, ◌&&◌,
  get_or, is_some, comparable_nat, comparable_pair, not,
}
use carmen.Prelude.Map.{Map, lookup, insert, delete}
use carmen.StateDb.Types.{
  SlotId, State, non_existing, exists, AccountState, is_life_cycle, ClearingState, is_cleared,
  BalanceValue, NonceValue, SlotValue, CodeValue, no_permission, apply_failed, StateDb, M, return,
  skip, fail,
}
use carmen.Lru
use carmen.Update.{
  Update, no_changes, append_delete_account, append_create_account, append_balance_update,
  append_nonce_update, append_code_update, append_slot_update,
}
use carmen.StateDb.Transaction.{reset_block_context}

-- What the loop over the cleared accounts works on.
pub record Clearing : Type 0 where
  pub accounts : Map ℕ AccountState
  pub reincarnation : Map ℕ ℕ
  pub update : Update
  pub non_existing_accounts : Map ℕ Bool

abbrev pub uint64_limit : ℕ
uint64_limit = 2 ^ 64

unfoldable pub clear_account : ℕ → ClearingState → Clearing → Option Clearing
clear_account a state c = if not (is_cleared state) then some c else elim (lookup a c.accounts) [
  | none ↦ none
  | some v ↦
      let again =
        insert a ((get_or (lookup a c.reincarnation) 0 + 1) % uint64_limit) c.reincarnation in
      some (
        if is_life_cycle v.original exists
        then record c {
          accounts = insert a (record v { original = non_existing }) c.accounts;
          update =
              if is_life_cycle v.current exists then c.update else append_delete_account a c.update;
          reincarnation = again;
        }
        else record c {
          non_existing_accounts = insert a true c.non_existing_accounts;
          reincarnation = again;
        })
]

unfoldable pub clear_accounts : Map ℕ ClearingState → Clearing → Option Clearing
clear_accounts [] c = some c
clear_accounts ((a, state) ∷ m) c = elim (clear_account a state c) [
  | none ↦ none
  | some c' ↦ clear_accounts m c'
]

unfoldable pub create_accounts : Map ℕ AccountState → Update → Map ℕ Bool → Update × Map ℕ Bool
create_accounts [] u gone = (u, gone)
create_accounts ((a, v) ∷ m) u gone =
    let created = not (is_life_cycle v.original v.current) && is_life_cycle v.current exists in
    create_accounts m (if created then append_create_account a u else u)
      (if created then delete a gone else gone)

abbrev pub is_modified : Option ℕ → ℕ → Bool
is_modified none current = true
is_modified (some v) current = not (v == current)

unfoldable pub update_balances : Map ℕ BalanceValue → Map ℕ Bool → Update → Update
update_balances [] gone u = u
update_balances ((a, v) ∷ m) gone u = update_balances m gone (
    if is_some (lookup a gone)
    then u
    else if is_modified v.original v.current
    then append_balance_update a v.current u
    else u)

unfoldable pub update_nonces : Map ℕ NonceValue → Map ℕ Bool → Update → Update
update_nonces [] gone u = u
update_nonces ((a, v) ∷ m) gone u = update_nonces m gone (
    if is_some (lookup a gone)
    then u
    else if is_modified v.original v.current
    then append_nonce_update a v.current u
    else u)

-- The slots that differ from what is stored; each is cached with the reincarnation of its account.
unfoldable pub update_slots : Map SlotId SlotValue → Update → M Update
update_slots [] u s = return u s
update_slots ((sid, v) ∷ m) u s =
    if v.stored_known && v.stored == v.current
    then update_slots m u s
    else elim (Lru.set sid
        (record { value = v.current; reincarnation = get_or (lookup sid.0 s.reincarnation) 0 })
        s.stored_data_cache) [
          | none ↦ none
          | some (dropped, cache) ↦
              update_slots m (append_slot_update sid.0 sid.1 v.current u)
                (record s { stored_data_cache = cache })
        ]

unfoldable pub update_codes : Map ℕ CodeValue → Map ℕ Bool → Update → Update
update_codes [] gone u = u
update_codes ((a, v) ∷ m) gone u =
    update_codes m gone
      (if is_some (lookup a gone) then u else if v.dirty then append_code_update a v.code u else u)

unfoldable pub collect_update : M Update
unfolding clear_accounts create_accounts update_balances update_nonces update_slots update_codes
collect_update s =
    elim (clear_accounts s.cleared_accounts (record {
      accounts = s.accounts;
      reincarnation = s.reincarnation;
      update = no_changes;
      non_existing_accounts = [];
    })) [
      | none ↦ none
      | some c ↦
          let (created, gone) = create_accounts c.accounts c.update c.non_existing_accounts in
          let balanced = update_nonces s.nonces gone (update_balances s.balances gone created) in
          elim (update_slots s.slots balanced
            (record s { accounts = c.accounts; reincarnation = c.reincarnation })) [
              | none ↦ none
              | some (u, s') ↦ some (update_codes s.codes gone u, s')
            ]
    ]

abbrev pub has_no_errors : StateDb → Bool
has_no_errors s = elim s.errors [ [] ↦ true | e ∷ es ↦ false ]

-- Check and Apply of the underlying state are parameters; Apply returns the state after the block.
unfoldable pub end_block : (State → Bool) → (State → ℕ → Update → Option State) → ℕ → M (Unit {0})
unfolding collect_update
end_block check apply block s =
    if not s.can_apply_changes
    then fail no_permission s
    else if not (has_no_errors s && check s.state)
    then skip s
    else elim (collect_update s) [
      | none ↦ none
      | some (u, s') ↦ elim (apply s'.state block u) [
        | none ↦ fail apply_failed s'
        | some state ↦ reset_block_context (record s' { state = state })
      ]
    ]
