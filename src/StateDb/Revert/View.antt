-- ===== src/StateDb/Revert/View.antt =====
-- What a user of go/state/state_db.go can observe, and the relation of a state to one that has
-- only loaded more values into its caches.
use carmen.Prelude.{
  ℕ, ◌≡◌, refl, sym, ap, ◌∙◌, ◌⊎◌, inl, inr, Option, none, some, true, false, if◌then◌else◌,
  comparable_nat, comparable_pair, ltb, length,
}
use carmen.Prelude.Map.{lookup}
use carmen.Lru.Eviction.{IsValid}
use carmen.StateDb.Types.{
  Bytes, SlotId, State, LifeCycle, is_cleared, CodeValue, StoredDataCacheValue, StateDb, clearing,
}
use carmen.StateDb.Accounts.{initial_state}
use carmen.StateDb.Storage.{reincarnation_of, transient}
use carmen.StateDb.Code.{local_hash}

abbrev pub bind {ℓ κ} : {A : Type ℓ} {B : Type κ} → Option A → (A → Option B) → Option B
bind none f = none
bind (some a) f = f a

-- Of two caches of one value, the second knows what the first knows, and else may have loaded
-- what the underlying state holds.
abbrev pub Ext {ℓ} : {A : Type ℓ} → Option A → Option A → Option A → Type ℓ
Ext d x y = (x ≡ y) ⊎ ((x ≡ none) × (y ≡ d))

abbrev pub account_view : StateDb → ℕ → Option LifeCycle
account_view s a = bind (lookup a s.accounts) (λ v. some v.current)

abbrev pub account_origin : StateDb → ℕ → Option LifeCycle
account_origin s a = bind (s.state.exists a) (λ b. some (initial_state b))

abbrev pub balance_view : StateDb → ℕ → Option ℕ
balance_view s a = bind (lookup a s.balances) (λ v. some v.current)

abbrev pub nonce_view : StateDb → ℕ → Option ℕ
nonce_view s a = bind (lookup a s.nonces) (λ v. some v.current)

abbrev pub current_view : StateDb → SlotId → Option ℕ
current_view s sid = bind (lookup sid s.slots) (λ v. some v.current)

abbrev pub committed_view : StateDb → SlotId → Option ℕ
committed_view s sid =
    bind (lookup sid s.slots) (λ v. if v.committed_known then some v.committed else none)

-- What a load of a slot yields: nothing is loaded for a cleared account.
abbrev pub slot_origin : StateDb → SlotId → Option ℕ
slot_origin s sid = if is_cleared (clearing s sid.0) then none else s.state.storage sid

abbrev pub code_view : StateDb → ℕ → Option Bytes
code_view s a = bind (lookup a s.codes) (λ v. if v.code_valid then some v.code else none)

abbrev pub size_view : StateDb → ℕ → Option ℕ
size_view s a = bind (lookup a s.codes) (λ v. if v.size_valid then some v.size else none)

abbrev pub hash_view : StateDb → ℕ → Option ℕ
hash_view s a = bind (lookup a s.codes) (λ v. local_hash s.state v)

-- `t` is `s` with more values loaded.
pub record Extends (s t : StateDb) : Type 0 where
  pub state : t.state ≡ s.state
  pub accounts : (a : ℕ) → Ext (account_origin s a) (account_view s a) (account_view t a)
  pub balances : (a : ℕ) → Ext (s.state.balance a) (balance_view s a) (balance_view t a)
  pub nonces : (a : ℕ) → Ext (s.state.nonce a) (nonce_view s a) (nonce_view t a)
  pub current : (sid : SlotId) → Ext (slot_origin s sid) (current_view s sid) (current_view t sid)
  pub committed :
      (sid : SlotId) → Ext (slot_origin s sid) (committed_view s sid) (committed_view t sid)
  pub code : (a : ℕ) → Ext (s.state.code a) (code_view s a) (code_view t a)
  pub size : (a : ℕ) → Ext (s.state.code_size a) (size_view s a) (size_view t a)
  pub hash : (a : ℕ) → Ext (s.state.code_hash a) (hash_view s a) (hash_view t a)
  pub clearings : (a : ℕ) → clearing s a ≡ clearing t a
  pub reincarnations : t.reincarnation ≡ s.reincarnation
  pub transients : (sid : SlotId) → transient s sid ≡ transient t sid
  pub created : (a : ℕ) → lookup a s.created_contracts ≡ lookup a t.created_contracts
  pub addresses : (a : ℕ) → lookup a s.accessed_addresses ≡ lookup a t.accessed_addresses
  pub slots : (sid : SlotId) → lookup sid s.accessed_slots ≡ lookup sid t.accessed_slots
  pub deletions : t.accounts_to_delete ≡ s.accounts_to_delete
  pub refund : t.refund ≡ s.refund
  pub logs : t.logs ≡ s.logs
  pub logs_in_block : t.logs_in_block ≡ s.logs_in_block

-- What the caches promise. The sizes are those of the codes of the underlying state.
pub record IsCoherent (s : StateDb) : Type 0 where
  pub cache : IsValid s.stored_data_cache
  pub cached :
      (sid : SlotId) (c : StoredDataCacheValue)
      → lookup sid s.stored_data_cache.entries ≡ some c
      → s.state.storage sid
        ≡ some (if ltb c.reincarnation (reincarnation_of s sid.0) then 0 else c.value)
  pub dirty_codes :
      (a : ℕ) (v : CodeValue) → lookup a s.codes ≡ some v → v.dirty ≡ true → v.code_valid ≡ true
  pub clean_sizes :
      (a : ℕ) (v : CodeValue)
      → lookup a s.codes ≡ some v
      → v.dirty ≡ false
      → v.size_valid ≡ true
      → s.state.code_size a ≡ some v.size
  pub sizes :
      (a : ℕ) (code : Bytes) → s.state.code a ≡ some code → s.state.code_size a ≡ some (length code)

pub Ext-trans {ℓ} :
    {A : Type ℓ} {d d' x y z : Option A} → d' ≡ d → Ext d x y → Ext d' y z → Ext d x z
Ext-trans e (inl p) (inl q) = inl (p ∙ q)
Ext-trans e (inl p) (inr (q, r)) = inr (p ∙ q, r ∙ e)
Ext-trans e (inr (p, q)) (inl r) = inr (p, sym r ∙ q)
Ext-trans e (inr (p, q)) (inr (r, u)) = inr (p, u ∙ e)

pub Extends-refl : (s : StateDb) → Extends s s
Extends-refl s = record {
  state = refl;
  accounts = λ a. inl refl;
  balances = λ a. inl refl;
  nonces = λ a. inl refl;
  current = λ a. inl refl;
  committed = λ a. inl refl;
  code = λ a. inl refl;
  size = λ a. inl refl;
  hash = λ a. inl refl;
  clearings = λ a. refl;
  reincarnations = refl;
  transients = λ a. refl;
  created = λ a. refl;
  addresses = λ a. refl;
  slots = λ a. refl;
  deletions = refl;
  refund = refl;
  logs = refl;
  logs_in_block = refl;
}

slot_origin_eq :
    (s t : StateDb) (sid : SlotId)
    → t.state ≡ s.state
    → ((a : ℕ) → clearing s a ≡ clearing t a)
    → slot_origin t sid ≡ slot_origin s sid
slot_origin_eq s t sid e c =
    rw (c sid.0)
      (ap (λ (st : State). if is_cleared (clearing t sid.0) then none else st.storage sid) e)

pub Extends-trans : {s t u : StateDb} → Extends s t → Extends t u → Extends s u
Extends-trans {s} {t} {u} h k = record {
  state = k.state ∙ h.state;
  accounts = λ a.
      Ext-trans (ap (λ (st : State). bind (st.exists a) (λ b. some (initial_state b))) h.state)
        (h.accounts a) (k.accounts a);
  balances =
      λ a. Ext-trans (ap (λ (st : State). st.balance a) h.state) (h.balances a) (k.balances a);
  nonces = λ a. Ext-trans (ap (λ (st : State). st.nonce a) h.state) (h.nonces a) (k.nonces a);
  current =
      λ sid. Ext-trans (slot_origin_eq s t sid h.state h.clearings) (h.current sid) (k.current sid);
  committed = λ sid.
      Ext-trans (slot_origin_eq s t sid h.state h.clearings) (h.committed sid) (k.committed sid);
  code = λ a. Ext-trans (ap (λ (st : State). st.code a) h.state) (h.code a) (k.code a);
  size = λ a. Ext-trans (ap (λ (st : State). st.code_size a) h.state) (h.size a) (k.size a);
  hash = λ a. Ext-trans (ap (λ (st : State). st.code_hash a) h.state) (h.hash a) (k.hash a);
  clearings = λ a. h.clearings a ∙ k.clearings a;
  reincarnations = k.reincarnations ∙ h.reincarnations;
  transients = λ a. h.transients a ∙ k.transients a;
  created = λ a. h.created a ∙ k.created a;
  addresses = λ a. h.addresses a ∙ k.addresses a;
  slots = λ a. h.slots a ∙ k.slots a;
  deletions = k.deletions ∙ h.deletions;
  refund = k.refund ∙ h.refund;
  logs = k.logs ∙ h.logs;
  logs_in_block = k.logs_in_block ∙ h.logs_in_block;
}
