-- ===== src/StateDb/Types.antt =====
-- The data of go/state/state_db.go. Addresses, keys, values, hashes, balances and nonces are the
-- numbers that their big-endian bytes spell; the zero value of each Go type is 0.
use carmen.Prelude.{
  ◌∷◌, [], ◌++◌, comparable_nat, ℕ, Option, none, some, List, Bool, true, false, get_or,
}
use carmen.Prelude.Map.{Map, lookup}
use carmen.Lru.{Lru}

abbrev pub Bytes : Type 0
Bytes = List ℕ

-- slotId
abbrev pub SlotId : Type 0
SlotId = ℕ × ℕ

-- The underlying State as the StateDB reads it during a block: `none` is a returned error. The
-- last field is GetKeccak256Hash, of a package that is not part of the repository.
pub record State : Type 0 where
  pub exists : ℕ → Option Bool
  pub balance : ℕ → Option ℕ
  pub nonce : ℕ → Option ℕ
  pub storage : SlotId → Option ℕ
  pub code : ℕ → Option Bytes
  pub code_size : ℕ → Option ℕ
  pub code_hash : ℕ → Option ℕ
  pub empty_storage : ℕ → Option Bool
  pub keccak256 : Bytes → ℕ

pub data LifeCycle : Type 0 where
  non_existing exists self_destructed : LifeCycle

pub record AccountState : Type 0 where
  pub original : LifeCycle
  pub current : LifeCycle

pub data ClearingState : Type 0 where
  no_clearing pending_clearing cleared cleared_and_tainted : ClearingState

abbrev pub is_life_cycle : LifeCycle → LifeCycle → Bool
is_life_cycle non_existing non_existing = true
is_life_cycle exists exists = true
is_life_cycle self_destructed self_destructed = true
is_life_cycle _ _ = false

-- The two states in which the stored values of an account must not be read.
abbrev pub is_cleared : ClearingState → Bool
is_cleared cleared = true
is_cleared cleared_and_tainted = true
is_cleared _ = false

pub record BalanceValue : Type 0 where
  pub original : Option ℕ
  pub current : ℕ

pub record NonceValue : Type 0 where
  pub original : Option ℕ
  pub current : ℕ

pub record SlotValue : Type 0 where
  pub stored : ℕ
  pub committed : ℕ
  pub current : ℕ
  pub stored_known : Bool
  pub committed_known : Bool

pub record CodeValue : Type 0 where
  pub code : Bytes
  pub size : ℕ
  pub hash : Option ℕ
  pub dirty : Bool
  pub code_valid : Bool
  pub size_valid : Bool

pub record StoredDataCacheValue : Type 0 where
  pub value : ℕ
  pub reincarnation : ℕ

pub record Log : Type 0 where
  pub address : ℕ
  pub topics : List ℕ
  pub payload : Bytes
  pub index : ℕ

-- The errors that the StateDB collects.
pub data Error : Type 0 where
  load_failed balance_overflow balance_underflow : ℕ → Error
  refund_underflow invalid_snapshot no_permission apply_failed : Error

-- The closures on the undo list, one constructor for each, with the values they capture.
pub data Undo : Type 0 where
  account_current : ℕ → LifeCycle → Undo
  balance_current balance_value : ℕ → ℕ → Undo
  balance_delete : ℕ → Undo
  nonce_current : ℕ → ℕ → Undo
  nonce_delete : ℕ → Undo
  slot_backup : SlotId → SlotValue → Undo
  slot_current : SlotId → ℕ → Undo
  slot_new : SlotId → Undo
  transient_value : SlotId → ℕ → Undo
  code_delete : ℕ → Undo
  code_value : ℕ → CodeValue → Undo
  clearing_state : ℕ → ClearingState → Undo
  created_contract : ℕ → Undo
  refund_value : ℕ → Undo
  delete_list_length : ℕ → Undo
  logs_size : ℕ → Undo
  accessed_address : ℕ → Undo
  accessed_slot : SlotId → Undo

-- stateDB; `data` is `slots` here, a set is a map to Booleans.
pub record StateDb : Type 0 where
  pub state : State
  pub accounts : Map ℕ AccountState
  pub balances : Map ℕ BalanceValue
  pub nonces : Map ℕ NonceValue
  pub slots : Map SlotId SlotValue
  pub transient_storage : Map SlotId ℕ
  pub codes : Map ℕ CodeValue
  pub accounts_to_delete : List ℕ
  pub cleared_accounts : Map ℕ ClearingState
  pub created_contracts : Map ℕ Bool
  pub undo : List Undo
  pub refund : ℕ
  pub logs : List Log
  pub logs_in_block : ℕ
  pub accessed_addresses : Map ℕ Bool
  pub accessed_slots : Map SlotId Bool
  pub written_slots : Map SlotId Bool
  pub stored_data_cache : Lru SlotId StoredDataCacheValue
  pub reincarnation : Map ℕ ℕ
  pub empty_candidates : List ℕ
  pub can_apply_changes : Bool
  pub errors : List Error

-- A method: the result and the new state, or `none` for a run-time panic.
abbrev pub M : Type 0 → Type 0
M A = StateDb → Option (A × StateDb)

infixl 5 ◌>>=◌ ◌>>◌
abbrev pub ◌>>=◌ : {A B : Type 0} → M A → (A → M B) → M B
◌>>=◌ m f s = elim (m s) [ none ↦ none | some (a, s') ↦ f a s' ]

abbrev pub ◌>>◌ : {A B : Type 0} → M A → M B → M B
m >> k = m >>= λ _. k

abbrev pub return : {A : Type 0} → A → M A
return a s = some (a, s)

abbrev pub get : M StateDb
get s = some (s, s)

abbrev pub modify : (StateDb → StateDb) → M (Unit {0})
modify f s = some (tt, f s)

abbrev pub panic : {A : Type 0} → M A
panic s = none

abbrev pub skip : M (Unit {0})
skip = return tt

abbrev pub fail : Error → M (Unit {0})
fail e = modify λ s. record s { errors = s.errors ++ e ∷ [] }

abbrev pub clearing : StateDb → ℕ → ClearingState
clearing s a = get_or (lookup a s.cleared_accounts) no_clearing
