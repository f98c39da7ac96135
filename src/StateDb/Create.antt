-- ===== src/StateDb/Create.antt =====
-- The creation of StateDB instances and their reset in go/state/state_db.go.
use carmen.Prelude.{
  ℕ, some, [], Bool, true, if◌then◌else◌, ◌==◌, comparable_nat, comparable_pair, ◌≡◌, ◌≤◌, length,
  arith,
}
use carmen.Lru
use carmen.StateDb.Types.{State, StateDb, M, ◌>>◌, modify, Bytes}
use carmen.StateDb.Transaction.{reset_block_context}
use carmen.Prelude.Map.{lookup}
use carmen.StateDb.Revert.View.{IsCoherent}

unfoldable pub create_state_db_with : State → ℕ → Bool → StateDb
create_state_db_with state cache_capacity can_apply_changes = record {
  state = state;
  accounts = [];
  balances = [];
  nonces = [];
  slots = [];
  transient_storage = [];
  codes = [];
  accounts_to_delete = [];
  cleared_accounts = [];
  created_contracts = [];
  undo = [];
  refund = 0;
  logs = [];
  logs_in_block = 0;
  accessed_addresses = [];
  accessed_slots = [];
  written_slots = [];
  stored_data_cache = record { capacity = cache_capacity; entries = [] };
  reincarnation = [];
  empty_candidates = [];
  can_apply_changes = can_apply_changes;
  errors = [];
}

abbrev pub default_stored_data_cache_size : ℕ
default_stored_data_cache_size = 1000000

-- A size that is not positive is the default one; the sizes below zero are not numbers here.
unfoldable pub create_custom_state_db_using : State → ℕ → StateDb
unfolding create_state_db_with
create_custom_state_db_using state size =
    create_state_db_with state (if size == 0 then default_stored_data_cache_size else size) true

unfoldable pub reset_state : State → M (Unit {0})
reset_state state = do
  reset_block_context
  modify (λ s. record s {
    stored_data_cache = Lru.clear s.stored_data_cache;
    reincarnation = [];
    errors = [];
    state = state;
  })

-- A new StateDB with a cache of at least two entries, over a state that reports the sizes of the
-- codes that it gives, has coherent caches.
pub create_state_db_with-IsCoherent :
    (state : State) (capacity : ℕ) (can_apply_changes : Bool)
    → 2 ≤ capacity
    → ((a : ℕ) (code : Bytes) → state.code a ≡ some code → state.code_size a ≡ some (length code))
    → IsCoherent (create_state_db_with state capacity can_apply_changes)
unfolding create_state_db_with lookup
create_state_db_with-IsCoherent state capacity can_apply_changes roomy sizes = record {
  cache = record { roomy = roomy; fits = omega arith };
  cached = λ sid c e. cc;
  dirty_codes = λ a v e. cc;
  clean_sizes = λ a v e. cc;
  sizes = sizes;
}
