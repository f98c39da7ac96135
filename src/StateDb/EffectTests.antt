-- ===== src/StateDb/EffectTests.antt =====
-- The theorems on single operations of go/state/state_db.go at small states.
use carmen.Prelude.{
  ◌∙◌, ℕ, Comparable, Bool-cases, inl, inr, ap, subst, ltb, if◌then◌else◌, ◌==◌, ◌-◌, ◌≡◌, refl,
  none, some, [], ◌∷◌, ◌++◌, true, false, comparable_nat, comparable_pair, arith,
}
use carmen.Prelude.Map.{Map, lookup}
use carmen.StateDb.Types.{
  SlotId, SlotValue, BalanceValue, exists, cleared, StateDb, ◌>>◌, balance_overflow,
}
use carmen.StateDb.Revert.Observe.{result}
use carmen.Update.{no_changes}
use carmen.StateDb.Create.{reset_state, create_state_db_with}
use carmen.StateDb.Tests.{one_account, fresh_db, db, fresh_db-IsCoherent}
use carmen.StateDb.Accounts.{exist, get_balance, add_balance, amount_mod, get_nonce}
use carmen.StateDb.Storage.{set_state, get_state, get_committed_state}
use carmen.StateDb.Code.{get_code}
use carmen.StateDb.Transaction.{bury}
use carmen.StateDb.Effects.Balances
use carmen.StateDb.Effects.Slots
use carmen.StateDb.Effects.Accounts
use carmen.StateDb.Effects.Blocks
use carmen.StateDb.Effects.BlockSlots
use carmen.StateDb.Effects.Ends

exists_1 : result (exist 1 db) ≡ some true
unfolding exist lookup create_state_db_with
exists_1 = refl

-- A state that fails to load balances.
abbrev no_balances : StateDb
no_balances = fresh_db (record one_account { balance = λ a. none })

get_balance-add_balance_example : result ((add_balance 1 5 >> get_balance 1) db) ≡ some 55
unfolding create_state_db_with lookup amount_mod
get_balance-add_balance_example =
    Balances.get_balance-add_balance 1 5 50 db exists_1 refl (omega arith)

add_balance-overflow_example :
    (result ((add_balance 1 (amount_mod - 1) >> get_balance 1) db) ≡ some 50)
    × (Balances.errors_after (add_balance 1 (amount_mod - 1)) db
        ≡ some (db.errors ++ balance_overflow 1 ∷ []))
unfolding create_state_db_with lookup amount_mod
add_balance-overflow_example =
    Balances.add_balance-overflow 1 (amount_mod - 1) 50 db exists_1 refl (omega arith) (omega arith)
      (omega arith)

add_balance-panics_example : add_balance 1 5 no_balances ≡ none
unfolding create_state_db_with exist lookup amount_mod
add_balance-panics_example =
    Balances.add_balance-panics 1 5 no_balances refl (omega arith) (omega arith) refl refl

get_state-set_state_example : result ((set_state 1 7 4 >> get_state 1 7) db) ≡ some 4
get_state-set_state_example = Slots.get_state-set_state 1 7 4 db

get_state-set_state_other_example :
    result ((set_state 1 7 4 >> get_state 2 7) db) ≡ result (get_state 2 7 db)
get_state-set_state_other_example =
    Slots.get_state-set_state_other 1 2 7 7 4 db fresh_db-IsCoherent refl

get_committed_state-set_state_example :
    result ((set_state 1 7 4 >> get_committed_state 1 7) db) ≡ result (get_committed_state 1 7 db)
get_committed_state-set_state_example =
    Slots.get_committed_state-set_state 1 1 7 7 4 db fresh_db-IsCoherent

bury_lem_example :
    (result ((bury 1 >> exist 1) db) ≡ some false)
    × (result ((bury 1 >> get_balance 1) db) ≡ some 0)
    × (result ((bury 1 >> get_nonce 1) db) ≡ some 0)
    × (result ((bury 1 >> get_code 1) db) ≡ some [])
    × (result ((bury 1 >> get_state 1 7) db) ≡ some 0)
bury_lem_example = Accounts.bury_lem 1 7 db

only {ℓ κ} :
    {K : Type ℓ} {E : Type κ} ⦃c : Comparable K⦄ (i k : K) (x v : E)
    → lookup k ((i, x) ∷ []) ≡ some v
    → (i ≡ k) × (x ≡ v)
unfolding lookup
only ⦃c⦄ i k x v h = elim (Bool-cases (i == k)) [
  | inl y ↦ let e : some x ≡ some v = rw y at h in ((c.equal_iff i k).0 y, cc)
  | inr f ↦ let e : none ≡ some v = rw f at h in absurd cc
]

abbrev held_balances : ℕ → ℕ
held_balances a = if a == 1 then 50 else 0

abbrev paid : Map ℕ BalanceValue
paid = (1, record { original = some 50; current = 55 }) ∷ []

paid-known :
    (a : ℕ) (v : BalanceValue) (x : ℕ)
    → lookup a paid ≡ some v
    → v.original ≡ some x
    → held_balances a ≡ x
unfolding lookup
paid-known a v x found e =
    let (here, same) = only 1 a _ v found in
    let original : some 50 ≡ some x = ap (λ w. w.original) same ∙ e in
    subst (λ b. held_balances b ≡ x) here cc

update_balances_lem_example : Blocks.BalancesSent paid [] no_changes held_balances
unfolding lookup
update_balances_lem_example =
    Blocks.update_balances_lem paid [] no_changes held_balances (refl, _) paid-known

abbrev written : Map SlotId SlotValue
written =
    (
      (1, 7),
      record {
        stored = 9;
        committed = 9;
        current = 4;
        stored_known = true;
        committed_known = true;
      },
    )
    ∷ []

abbrev held_slots : SlotId → ℕ
held_slots sid = if sid == (1, 7) then 9 else 0

abbrev cached_db : StateDb
cached_db = record db {
  stored_data_cache = record {
    capacity = 4;
    entries = ((1, 7), record { value = 9; reincarnation = 0 }) ∷ [];
  };
}

written-known :
    (sid : SlotId) (v : SlotValue)
    → lookup sid written ≡ some v
    → v.stored_known ≡ true
    → held_slots sid ≡ v.stored
unfolding lookup
written-known sid v found known =
    let (here, same) = only (1, 7) sid _ v found in
    subst (λ i. held_slots i ≡ v.stored) here (ap (λ w. w.stored) same)

cached_db-IsAccurate :
    BlockSlots.IsAccurate cached_db.reincarnation held_slots cached_db.stored_data_cache
unfolding lookup create_state_db_with
cached_db-IsAccurate sid c found =
    let (here, same) = only (1, 7) sid _ c found in
    subst (λ i. held_slots i ≡ (if ltb c.reincarnation 0 then 0 else c.value)) here
      (subst (λ w. 9 ≡ (if ltb w.reincarnation 0 then 0 else w.value)) same refl)

update_slots_lem_example : BlockSlots.SlotsSent written no_changes cached_db held_slots
unfolding lookup
update_slots_lem_example =
    BlockSlots.update_slots_lem written no_changes cached_db held_slots (refl, _) written-known
      (record { roomy = omega arith; fits = omega arith }) cached_db-IsAccurate

-- A state in the middle of a block, in which account 1 is to be cleared.
abbrev busy_db : StateDb
busy_db = record cached_db {
  accounts = (1, record { original = exists; current = exists }) ∷ [];
  balances = paid;
  nonces = (1, record { original = some 3; current = 4 }) ∷ [];
  slots = written;
  cleared_accounts = (1, cleared) ∷ [];
  logs_in_block = 2;
}

reset_state-create_state_db_with_example :
    reset_state one_account busy_db ≡ some (tt, create_state_db_with one_account 4 true)
unfolding create_state_db_with
reset_state-create_state_db_with_example =
    Ends.reset_state-create_state_db_with one_account busy_db refl refl
