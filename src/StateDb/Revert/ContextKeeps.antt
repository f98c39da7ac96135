-- ===== src/StateDb/Revert/ContextKeeps.antt =====
-- The transaction context, and the creation and destruction of accounts in go/state/state_db.go,
-- stay on track.
use carmen.Prelude.{
  ℕ, ◌≡◌, refl, inl, inr, Option, none, some, [], Bool, true, false, not, if◌then◌else◌,
  comparable_nat, comparable_pair, ltb, arith, ◌==◌, is_some,
}
use carmen.Prelude.Map.{Map, lookup, keys}
use carmen.StateDb.Types.{
  SlotId, Log, refund_underflow, StateDb, M, ◌>>=◌, return, modify, fail, skip, clearing,
  ClearingState, no_clearing, pending_clearing, cleared, cleared_and_tainted, is_cleared, LifeCycle,
  exists, self_destructed,
}
use carmen.StateDb.Accounts.{
  create_account_if_not_exists, touch, exist, set_account_state, reset_balance,
}
use carmen.StateDb.Storage.{clear_slots, write_clearing}
use carmen.StateDb.Context.{
  write_refund, add_refund, sub_refund, append_log, add_log, write_accessed_address,
  write_accessed_slot, add_address_to_access_list, add_slot_to_access_list,
}
use carmen.StateDb.Contracts.{
  create_account, write_created_contract, create_contract, schedule_deletion, is_no_clearing,
  plan_clearing, suicide, suicide_new_contract, empty,
}
use carmen.StateDb.Revert.Undoes.{
  write_refund-Undoes, append_log-Undoes, schedule_deletion-Undoes, write_accessed_address-Undoes,
  write_accessed_slot-Undoes, write_created_contract-Undoes,
}
use carmen.StateDb.Revert.Journal.{Tracks}
use carmen.StateDb.Revert.Keeps.{
  Tracks-write, After, Keeps, Keeps-bind, Keeps-return, Keeps-if, fail-Keeps, touch-Keeps, At-if,
}
use carmen.StateDb.Revert.AccountKeeps.{
  create_account_if_not_exists-Keeps, exist-Keeps, set_account_state-Keeps, reset_balance-Keeps,
  set_nonce_internal-Keeps, get_balance-Keeps, get_nonce-Keeps,
}
use carmen.StateDb.Revert.CodeKeeps.{set_code_internal-Keeps, get_code_size-Keeps}
use carmen.StateDb.Revert.StorageTracks.{write_clearing-Tracks}
use carmen.StateDb.Revert.StorageKeeps.{clear_slots-Keeps}

module _ {base s : StateDb} (k : Tracks base s) where
  write_refund-Tracks : (n : ℕ) → Tracks base (write_refund n s)
  unfolding write_refund
  write_refund-Tracks n =
      let c = k.coherent in Tracks-write k _ (write_refund-Undoes n s) (assumption c) refl

  append_log-Tracks : (log : Log) → Tracks base (append_log log s)
  unfolding append_log
  append_log-Tracks log =
      let c = k.coherent in Tracks-write k _ (append_log-Undoes log s) (assumption c) refl

  schedule_deletion-Tracks : (a : ℕ) → Tracks base (schedule_deletion a s)
  unfolding schedule_deletion
  schedule_deletion-Tracks a =
      let c = k.coherent in Tracks-write k _ (schedule_deletion-Undoes a s) (assumption c) refl

  write_accessed_address-Tracks :
      (a : ℕ) → lookup a s.accessed_addresses ≡ none → Tracks base (write_accessed_address a s)
  unfolding write_accessed_address
  write_accessed_address-Tracks a absent =
      let c = k.coherent in
      Tracks-write k _ (write_accessed_address-Undoes a s absent) (assumption c) refl

  write_accessed_slot-Tracks :
      (sid : SlotId) → lookup sid s.accessed_slots ≡ none → Tracks base (write_accessed_slot sid s)
  unfolding write_accessed_slot
  write_accessed_slot-Tracks sid absent =
      let c = k.coherent in
      Tracks-write k _ (write_accessed_slot-Undoes sid s absent) (assumption c) refl

  write_created_contract-Tracks :
      (a : ℕ) → lookup a s.created_contracts ≡ none → Tracks base (write_created_contract a s)
  unfolding write_created_contract
  write_created_contract-Tracks a absent =
      let c = k.coherent in
      Tracks-write k _ (write_created_contract-Undoes a s absent) (assumption c) refl

is_some-none {ℓ} : {A : Type ℓ} (o : Option A) → is_some o ≡ false → o ≡ none
is_some-none none h = refl
is_some-none (some a) h = cc

not_cleared : (c : ClearingState) → is_no_clearing c ≡ true → is_cleared c ≡ false
not_cleared no_clearing h = refl
not_cleared pending_clearing h = refl
not_cleared cleared h = cc
not_cleared cleared_and_tainted h = cc

-- Creating an account leaves the set of created contracts alone.
abbrev CreatedAfter : {A : Type 0} → Option (A × StateDb) → Map ℕ Bool → Type 0
CreatedAfter none m = Unit {0}
CreatedAfter (some (b, t)) m = t.created_contracts ≡ m

abbrev Frames : {A : Type 0} → M A → Type 0
Frames m = (c : Map ℕ Bool) (s : StateDb) → s.created_contracts ≡ c → CreatedAfter (m s) c

Frames-bind :
    {A B : Type 0} (m : M A) (f : A → M B) → Frames m → ((a : A) → Frames (f a)) → Frames (m >>= f)
Frames-bind {A} m f h k c s e = go (m s) (h c s e)
  where
    go :
        (o : Option (A × StateDb))
        → CreatedAfter o c
        → CreatedAfter (elim o [ none ↦ none | some (a, s') ↦ f a s' ]) c
    go none h = tt
    go (some (a, t)) h = k a c t h

exist-Frames : (a : ℕ) → Frames (exist a)
unfolding exist
exist-Frames a c s e = ground arith

set_account_state-Frames : (a : ℕ) (state : LifeCycle) → Frames (set_account_state a state)
unfolding set_account_state
set_account_state-Frames a state = Frames-bind (exist a) _ (exist-Frames a) λ b c s e. ground arith

reset_balance-Frames : (a : ℕ) → Frames (reset_balance a)
unfolding reset_balance
reset_balance-Frames a c s e = ground arith

create_account_if_not_exists-Frames : (a : ℕ) → Frames (create_account_if_not_exists a)
unfolding create_account_if_not_exists
create_account_if_not_exists-Frames a = Frames-bind (exist a) _ (exist-Frames a) (elim [
  | true ↦ λ c s e. e
  | false ↦
      Frames-bind (set_account_state a exists) _ (set_account_state-Frames a exists)
        λ _. Frames-bind (reset_balance a) (λ _. return true) (reset_balance-Frames a) λ _ c s e. e
])

contract_created :
    (base : StateDb) (c : Map ℕ Bool) (a : ℕ) (o : Option (Bool × StateDb))
    → After base o
    → CreatedAfter o c
    → lookup a c ≡ none
    → After base (elim o as (λ x. Option (Unit {0} × StateDb)) [
      | none ↦ none
      | some (b, t) ↦ modify (write_created_contract a) t
    ])
contract_created base c a none h frame absent = tt
contract_created base c a (some (b, t)) h frame absent =
    write_created_contract-Tracks h a (rw frame absent)

module _ {base : StateDb} where
  pub add_refund-Keeps : (n : ℕ) → Keeps base (add_refund n)
  unfolding add_refund
  add_refund-Keeps n s k = write_refund-Tracks k _

  pub sub_refund-Keeps : (n : ℕ) → Keeps base (sub_refund n)
  unfolding sub_refund
  sub_refund-Keeps n s k =
      At-if base (ltb s.refund n) (fail refund_underflow) _ s (λ _. fail-Keeps refund_underflow s k)
        (λ _. write_refund-Tracks k _)

  pub add_log-Keeps : (log : Log) → Keeps base (add_log log)
  unfolding add_log
  add_log-Keeps log s k = append_log-Tracks k log

  pub add_address_to_access_list-Keeps : (a : ℕ) → Keeps base (add_address_to_access_list a)
  unfolding add_address_to_access_list
  add_address_to_access_list-Keeps a s k =
      At-if base (is_some (lookup a s.accessed_addresses)) skip (modify (write_accessed_address a))
        s (λ _. k) (λ absent. write_accessed_address-Tracks k a (is_some-none _ absent))

  pub add_slot_to_access_list-Keeps : (a key : ℕ) → Keeps base (add_slot_to_access_list a key)
  unfolding add_slot_to_access_list
  add_slot_to_access_list-Keeps a key = Keeps-bind _ _ (add_address_to_access_list-Keeps a) λ _ s k.
      At-if base (is_some (lookup (a, key) s.accessed_slots)) skip
        (modify (write_accessed_slot (a, key))) s (λ _. k)
        (λ absent. write_accessed_slot-Tracks k (a, key) (is_some-none _ absent))

  pub create_contract-Keeps : (a : ℕ) → Keeps base (create_contract a)
  unfolding create_contract
  create_contract-Keeps a s k =
      At-if base (is_some (lookup a s.created_contracts)) skip _ s (λ _. k)
        λ absent.
          contract_created base s.created_contracts a (create_account_if_not_exists a s)
            (create_account_if_not_exists-Keeps a s k)
            (create_account_if_not_exists-Frames a s.created_contracts s refl)
            (is_some-none _ absent)

  pub create_account-Keeps : (a : ℕ) → Keeps base (create_account a)
  unfolding create_account
  create_account-Keeps a = Keeps-bind _ _ (set_nonce_internal-Keeps a 0) λ _.
      Keeps-bind _ _ (set_code_internal-Keeps a []) λ _. Keeps-bind _ _ (exist-Keeps a) λ present.
        Keeps-bind _ _ (set_account_state-Keeps a exists) λ _.
          Keeps-bind (modify (touch a)) _ (touch-Keeps a) λ _.
            Keeps-bind (if present then skip else reset_balance a) _
              (Keeps-if present skip (reset_balance a) (Keeps-return tt) (reset_balance-Keeps a))
              λ _ s k.
                Keeps-bind (clear_slots a (keys s.slots)) (λ _. modify (write_clearing a cleared))
                  (clear_slots-Keeps a (keys s.slots))
                  (λ _ s' k'. write_clearing-Tracks k' a cleared (inl refl)) s k

  plan_clearing-Keeps : (a : ℕ) → Keeps base (plan_clearing a)
  unfolding plan_clearing
  plan_clearing-Keeps a s k =
      At-if base (is_no_clearing (clearing s a)) (modify (write_clearing a pending_clearing)) skip s
        (λ fresh.
          write_clearing-Tracks k a pending_clearing (inr (not_cleared (clearing s a) fresh)))
        (λ _. k)

  pub suicide-Keeps : (a : ℕ) → Keeps base (suicide a)
  unfolding suicide
  suicide-Keeps a = Keeps-bind _ _ (exist-Keeps a) λ present.
      Keeps-if (not present) (return false) _ (Keeps-return false) (
        Keeps-bind _ _ (set_account_state-Keeps a self_destructed) λ _.
          Keeps-bind _ _ (reset_balance-Keeps a) λ _.
            Keeps-bind (modify (schedule_deletion a)) _ (λ s k. schedule_deletion-Tracks k a)
              λ _.
                Keeps-bind (plan_clearing a) (λ _. return true) (plan_clearing-Keeps a)
                  λ _. Keeps-return true)

  pub suicide_new_contract-Keeps : (a : ℕ) → Keeps base (suicide_new_contract a)
  unfolding suicide_new_contract
  suicide_new_contract-Keeps a s k =
      At-if base (is_some (lookup a s.created_contracts)) (suicide a) (return false) s
        (λ _. suicide-Keeps a s k) (λ _. k)

  pub empty-Keeps : (a : ℕ) → Keeps base (empty a)
  unfolding empty
  empty-Keeps a = Keeps-bind _ _ (get_balance-Keeps a) λ b.
      Keeps-if (not (b == 0)) (return false) _ (Keeps-return false) (
        Keeps-bind _ _ (get_nonce-Keeps a) λ n.
          Keeps-if (not (n == 0)) (return false) _ (Keeps-return false)
            (Keeps-bind _ _ (get_code_size-Keeps a) λ size. Keeps-return (size == 0)))
