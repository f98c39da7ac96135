-- ===== src/StateDb/Effects/Accounts.antt =====
-- CreateAccount, CreateContract and Suicide of go/state/state_db.go.
use carmen.Prelude.{
  get_or, ℕ, ◌≡◌, refl, ap, inl, inr, some, [], ◌∷◌, true, false, Bool-cases, comparable_nat,
  comparable_pair, arith, ◌==◌,
}
use carmen.Prelude.Map.{Map, lookup, lookup-insert_same, equal_refl}
use carmen.StateDb.Types.{
  SlotId, SlotValue, is_cleared, cleared, no_clearing, clearing, StateDb, M, ◌>>◌, modify,
  non_existing,
}
use carmen.StateDb.Revert.View.{bind, current_view}
use carmen.StateDb.Revert.Observe.{result}
use carmen.StateDb.Accounts.{
  exist, set_account_state, reset_balance, set_nonce_internal, get_nonce, get_balance, has_suicided,
}
use carmen.StateDb.Code.{set_code_internal, get_code}
use carmen.StateDb.Storage.{get_state, load_stored_state}
use carmen.StateDb.Transaction.{bury, forget_slots, mark}
use carmen.StateDb.Effects.Total.{
  Leads, Leads-bind, set_account_state-Total, reset_balance-Total, set_nonce_internal-Total,
  set_code_internal-Total,
}
use carmen.StateDb.Contracts.{suicide, plan_clearing}

-- Suicide of an existing account succeeds, empties its balance and marks it, while it still exists
-- for the rest of the transaction.
pub suicide-present :
    (a : ℕ) (s : StateDb)
    → result (exist a s) ≡ some true
    → (result (suicide a s) ≡ some true)
      × (result ((suicide a >> get_balance a) s) ≡ some 0)
      × (result ((suicide a >> has_suicided a) s) ≡ some true)
      × (result ((suicide a >> exist a) s) ≡ some true)
unfolding suicide exist set_account_state reset_balance plan_clearing get_balance has_suicided
suicide-present a s e = (
  grind (arith, lookup-insert_same),
  grind (arith, lookup-insert_same),
  grind (arith, lookup-insert_same),
  grind (arith, lookup-insert_same),
)

-- Suicide of an account that does not exist reports so and changes neither its balance nor its
-- mark.
pub suicide-absent :
    (a : ℕ) (s : StateDb)
    → result (exist a s) ≡ some false
    → (result (suicide a s) ≡ some false)
      × (result ((suicide a >> get_balance a) s) ≡ result (get_balance a s))
      × (result ((suicide a >> has_suicided a) s) ≡ some false)
unfolding suicide exist get_balance has_suicided
suicide-absent a s e = (grind arith, grind arith, grind (arith, lookup-insert_same))

lookup-forget_slots :
    (a key : ℕ) (m : Map SlotId SlotValue)
    → get_or (bind (lookup (a, key) (forget_slots a m)) (λ v. some v.current)) 0 ≡ 0
unfolding forget_slots lookup
lookup-forget_slots a key [] = refl
lookup-forget_slots a key ((sid, v) ∷ m) = elim (Bool-cases (sid == (a, key))) [
  | inl same ↦
      rw (same, ap (λ x. x.0 == a) ((comparable_pair.equal_iff sid (a, key)).0 same), equal_refl a)
        refl
  | inr other ↦ rw other (lookup-forget_slots a key m)
]

get_state-cleared :
    (a key : ℕ) (s : StateDb)
    → is_cleared (clearing s a) ≡ true
    → get_or (current_view s (a, key)) 0 ≡ 0
    → result (get_state a key s) ≡ some 0
unfolding get_state load_stored_state
get_state-cleared a key s h k = grind arith

-- The last step of a deletion hides the slots.
abbrev hide_slots : ℕ → M (Unit {0})
hide_slots a = modify (λ s. mark a cleared (record s { slots = forget_slots a s.slots }))

get_state-hide_slots : (a key : ℕ) → Leads (hide_slots a) (get_state a key) 0
get_state-hide_slots a key s =
    get_state-cleared a key (mark a cleared (record s { slots = forget_slots a s.slots }))
      (ap (λ o. is_cleared (get_or o no_clearing))
        (lookup-insert_same a cleared s.cleared_accounts))
      (lookup-forget_slots a key s.slots)

module _ (a : ℕ) where
  from_code : M (Unit {0})
  from_code = set_code_internal a [] >> hide_slots a

  from_nonce : M (Unit {0})
  from_nonce = set_nonce_internal a 0 >> from_code

  from_balance : M (Unit {0})
  from_balance = reset_balance a >> from_nonce

  get_code-from_code : Leads from_code (get_code a) []
  unfolding from_code set_code_internal get_code
  get_code-from_code s = grind (arith, lookup-insert_same)

  get_nonce-from_nonce : Leads from_nonce (get_nonce a) 0
  unfolding from_nonce from_code set_nonce_internal set_code_internal get_nonce
  get_nonce-from_nonce s = grind (arith, lookup-insert_same)

  get_balance-from_balance : Leads from_balance (get_balance a) 0
  unfolding from_balance from_nonce from_code reset_balance set_nonce_internal set_code_internal
      get_balance
  get_balance-from_balance s = grind (arith, lookup-insert_same)

  get_balance-bury : Leads (bury a) (get_balance a) 0
  unfolding bury from_balance from_nonce from_code
  get_balance-bury =
      Leads-bind (get_balance a) 0 (set_account_state a non_existing) (λ _. from_balance)
        (set_account_state-Total a non_existing) λ _. get_balance-from_balance

  get_nonce-bury : Leads (bury a) (get_nonce a) 0
  unfolding bury from_balance from_nonce from_code
  get_nonce-bury =
      Leads-bind (get_nonce a) 0 (set_account_state a non_existing) (λ _. from_balance)
        (set_account_state-Total a non_existing)
        λ _.
          Leads-bind (get_nonce a) 0 (reset_balance a) (λ _. from_nonce) (reset_balance-Total a)
            λ _. get_nonce-from_nonce

  past_nonce : {B : Type 0} (read : M B) (b : B) → Leads from_code read b → Leads (bury a) read b
  unfolding bury from_balance from_nonce from_code
  past_nonce read b h =
      Leads-bind read b (set_account_state a non_existing) (λ _. from_balance)
        (set_account_state-Total a non_existing)
        λ _.
          Leads-bind read b (reset_balance a) (λ _. from_nonce) (reset_balance-Total a)
            λ _.
              Leads-bind read b (set_nonce_internal a 0) (λ _. from_code)
                (set_nonce_internal-Total a 0) λ _. h

  get_state-from_code : (key : ℕ) → Leads from_code (get_state a key) 0
  unfolding from_code
  get_state-from_code key =
      Leads-bind (get_state a key) 0 (set_code_internal a []) (λ _. hide_slots a)
        (set_code_internal-Total a []) λ _. get_state-hide_slots a key

  exist-bury : Leads (bury a) (exist a) false
  unfolding bury set_account_state exist reset_balance set_nonce_internal set_code_internal
  exist-bury s = grind (arith, lookup-insert_same)

-- An account that EndTransaction deletes does not exist afterwards, has no balance, no nonce, no
-- code, and reads zero in each slot, whatever the state holds.
pub bury_lem :
    (a key : ℕ) (s : StateDb)
    → (result ((bury a >> exist a) s) ≡ some false)
      × (result ((bury a >> get_balance a) s) ≡ some 0)
      × (result ((bury a >> get_nonce a) s) ≡ some 0)
      × (result ((bury a >> get_code a) s) ≡ some [])
      × (result ((bury a >> get_state a key) s) ≡ some 0)
bury_lem a key s = (
  exist-bury a s,
  get_balance-bury a s,
  get_nonce-bury a s,
  past_nonce a (get_code a) [] (get_code-from_code a) s,
  past_nonce a (get_state a key) 0 (get_state-from_code a key) s,
)
