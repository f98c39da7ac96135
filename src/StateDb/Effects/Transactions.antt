-- ===== src/StateDb/Effects/Transactions.antt =====
-- The end of transactions in go/state/state_db.go.
use carmen.Prelude.{
  get_or, ℕ, ◌≡◌, refl, sym, ap, subst, ◌∙◌, inl, inr, Option, none, some, List, [], ◌∷◌, Bool,
  true, false, if◌then◌else◌, Bool-cases, length, Option-cases, comparable_nat, comparable_pair,
  arith, ◌==◌, ◌||◌, is_some,
}
use carmen.Prelude.Int.{pos}
use carmen.Prelude.Map.{Map, lookup, insert, keys, lookup-insert}
use carmen.StateDb.Types.{
  SlotId, SlotValue, is_cleared, clearing, StateDb, M, ◌>>=◌, ◌>>◌, get, modify, skip, non_existing,
}
use carmen.StateDb.Revert.View.{Extends, IsCoherent, bind}
use carmen.StateDb.Effects.Total.{Total, Total-bind, Total-if, set_account_state-Total}
use carmen.StateDb.Accounts.{
  set_account_state, reset_balance, set_nonce_internal, get_nonce, get_balance, has_suicided,
}
use carmen.StateDb.Code.{set_code_internal, get_code_size}
use carmen.StateDb.Context.{clear_access_list}
use carmen.StateDb.Contracts.{empty}
use carmen.StateDb.Undo.{revert_to_snapshot}
use carmen.StateDb.Calls.{Call, run}
use carmen.StateDb.Revert.Calls.{AllAbove, revert-run}
use carmen.StateDb.Revert.Agrees.{Agrees, Extends-Agrees}
use carmen.StateDb.Transaction.{
  seal_slot, commit_slots, schedule_if_empty, schedule_empty, bury, retire_suicided, delete_account,
  delete_accounts, reset_transaction_context, end_transaction, abort_transaction,
}

-- The state that starts a transaction.
pub record IsFresh (s : StateDb) : Type 0 where
  pub undo : s.undo ≡ []
  pub refund : s.refund ≡ 0
  pub logs : s.logs ≡ []
  pub accessed_addresses : s.accessed_addresses ≡ []
  pub accessed_slots : s.accessed_slots ≡ []
  pub transient_storage : s.transient_storage ≡ []
  pub created_contracts : s.created_contracts ≡ []
  pub empty_candidates : s.empty_candidates ≡ []

empty-Total : (a : ℕ) → Total (empty a)
unfolding empty get_balance get_nonce get_code_size
empty-Total a s = grind arith

schedule_if_empty-Total : (a : ℕ) → Total (schedule_if_empty a)
unfolding schedule_if_empty
schedule_if_empty-Total a = Total-bind (empty a) _ (empty-Total a) λ is_empty s. ground arith

pub schedule_empty-Total : (as' : List ℕ) → Total (schedule_empty as')
unfolding schedule_empty
schedule_empty-Total [] = λ s. refl
schedule_empty-Total (a ∷ as') =
    Total-bind (schedule_if_empty a) _ (schedule_if_empty-Total a) λ _. schedule_empty-Total as'

bury-Total : (a : ℕ) → Total (bury a)
unfolding bury reset_balance set_nonce_internal set_code_internal
bury-Total a =
    Total-bind (set_account_state a non_existing) _ (set_account_state-Total a non_existing)
      λ _ s. grind arith

retire_suicided-Total : (a : ℕ) → Total (retire_suicided a)
unfolding retire_suicided set_code_internal
retire_suicided-Total a =
    Total-bind (set_account_state a non_existing) _ (set_account_state-Total a non_existing)
      λ _ s. grind arith

bury_unless_cleared : ℕ → M (Unit {0})
bury_unless_cleared a = get >>= λ s. if is_cleared (clearing s a) then skip else bury a

bury_unless_cleared-Total : (a : ℕ) → Total (bury_unless_cleared a)
unfolding bury_unless_cleared
bury_unless_cleared-Total a s =
    Total-if (is_cleared (clearing s a)) skip (bury a) (λ s. refl) (bury-Total a) s

delete_account-Total : (a : ℕ) → Total (delete_account a)
unfolding delete_account has_suicided bury_unless_cleared
delete_account-Total a =
    Total-bind (has_suicided a)
      (λ suicided. (if suicided then retire_suicided a else skip) >> bury_unless_cleared a)
      (λ s. refl)
      λ suicided.
        Total-bind (if suicided then retire_suicided a else skip) (λ _. bury_unless_cleared a)
          (Total-if suicided (retire_suicided a) skip (retire_suicided-Total a) (λ s. refl))
          λ _. bury_unless_cleared-Total a

pub delete_accounts-Total : (as' : List ℕ) → Total (delete_accounts as')
unfolding delete_accounts
delete_accounts-Total [] = λ s. refl
delete_accounts-Total (a ∷ as') =
    Total-bind (delete_account a) _ (delete_account-Total a) λ _. delete_accounts-Total as'

abbrev pub has : SlotId → List SlotId → Bool
has x [] = false
has x (y ∷ ys) = y == x || has x ys

-- The first loop of EndTransaction commits the current value of each written slot, and leaves the
-- other slots alone.
pub lookup-commit_slots :
    (sids : List SlotId) (m : Map SlotId SlotValue) (sid : SlotId)
    → lookup sid (commit_slots sids m)
      ≡ bind (lookup sid m) (λ v.
        some
          (if has sid sids then record v { committed = v.current; committed_known = true } else v))
unfolding commit_slots
lookup-commit_slots [] m sid = ground arith
lookup-commit_slots (x ∷ sids) m sid = elim (Option-cases (lookup x m)) [
  | inl missing ↦ elim (Bool-cases (x == sid)) [
    | inl same ↦
        rw
          (
            missing,
            same,
            lookup-commit_slots sids m sid,
            sym (ap (λ y. lookup y m) ((comparable_pair.equal_iff x sid).0 same)),
            missing,
          )
          refl
    | inr other ↦ rw (missing, other) (lookup-commit_slots sids m sid)
  ]
  | inr (v, found) ↦ elim (Bool-cases (x == sid)) [
    | inl same ↦
        rw
          (
            found,
            lookup-commit_slots sids (insert x (seal_slot v) m) sid,
            lookup-insert x sid (seal_slot v) m,
            same,
            sym (ap (λ y. lookup y m) ((comparable_pair.equal_iff x sid).0 same)),
            found,
          )
          (ground arith)
    | inr other ↦
        rw
          (
            found,
            lookup-commit_slots sids (insert x (seal_slot v) m) sid,
            lookup-insert x sid (seal_slot v) m,
            other,
          )
          refl
  ]
]

pub witness : {A : Type 0} (o : Option A) → is_some o ≡ true → (a : A) × (o ≡ some a)
witness none e = cc
witness (some a) e = (a, refl)

-- What the reset of the transaction context leaves.
abbrev pub context_reset : StateDb → StateDb
context_reset s = record s {
  refund = 0;
  accessed_addresses = [];
  accessed_slots = [];
  transient_storage = [];
  undo = [];
  empty_candidates = [];
  logs = [];
  created_contracts = [];
}

Extends-reset : (s u : StateDb) → IsFresh s → Extends s u → Extends s (context_reset u)
Extends-reset s u fresh h = record {
  state = h.state;
  accounts = h.accounts;
  balances = h.balances;
  nonces = h.nonces;
  current = h.current;
  committed = h.committed;
  code = h.code;
  size = h.size;
  hash = h.hash;
  clearings = h.clearings;
  reincarnations = h.reincarnations;
  deletions = h.deletions;
  logs_in_block = h.logs_in_block;
  transients = λ sid. ap (λ m. get_or (lookup sid m) 0) fresh.transient_storage;
  created = λ a. ap (λ m. lookup a m) fresh.created_contracts;
  addresses = λ a. ap (λ m. lookup a m) fresh.accessed_addresses;
  slots = λ sid. ap (λ m. lookup sid m) fresh.accessed_slots;
  refund = sym fresh.refund;
  logs = sym fresh.logs;
}

IsCoherent-reset : (u : StateDb) → IsCoherent u → IsCoherent (context_reset u)
IsCoherent-reset u d = record {
  cache = d.cache;
  cached = d.cached;
  dirty_codes = d.dirty_codes;
  clean_sizes = d.clean_sizes;
  sizes = d.sizes;
}

pub context_reset-IsFresh : (u : StateDb) → IsFresh (context_reset u)
context_reset-IsFresh u = record {
  undo = refl;
  refund = refl;
  logs = refl;
  accessed_addresses = refl;
  accessed_slots = refl;
  transient_storage = refl;
  created_contracts = refl;
  empty_candidates = refl;
}

abbrev pub finished : StateDb → StateDb
finished s = context_reset (record s { accounts_to_delete = []; written_slots = [] })

abbrev finish : M (Unit {0})
finish =
    modify (λ s. record s { accounts_to_delete = []; written_slots = [] })
    >> reset_transaction_context

pub bind-runs :
    {A B : Type 0} (m : M A) (f : A → M B) (s : StateDb) {a : A} {t : StateDb}
    → m s ≡ some (a, t)
    → (m >>= f) s ≡ f a t
bind-runs m f s e = ap (λ o. elim o [ none ↦ none | some (a, t) ↦ f a t ]) e

pub end_transaction-runs :
    (s u v : StateDb) (x y : Unit {0})
    → schedule_empty s.empty_candidates
        (record s { slots = commit_slots (keys s.written_slots) s.slots })
      ≡ some (x, u)
    → delete_accounts u.accounts_to_delete u ≡ some (y, v)
    → end_transaction s ≡ some (tt, finished v)
unfolding end_transaction reset_transaction_context clear_access_list
end_transaction-runs s u v x y e e' =
    bind-runs (schedule_empty s.empty_candidates)
      (λ _. get >>= λ r. delete_accounts r.accounts_to_delete >> finish) _ e
    ∙ bind-runs (delete_accounts u.accounts_to_delete) (λ _. finish) u e'

-- EndTransaction never panics, and leaves a fresh transaction context and nothing scheduled.
pub end_transaction_lem :
    (s : StateDb)
    → (t : StateDb) × (end_transaction s ≡ some (tt, t))
      × IsFresh t
      × (t.accounts_to_delete ≡ [])
      × (t.written_slots ≡ [])
end_transaction_lem s =
    let (r, e) = witness _ (
      schedule_empty-Total s.empty_candidates
        (record s { slots = commit_slots (keys s.written_slots) s.slots })) in
    let (q, e') = witness _ (delete_accounts-Total r.1.accounts_to_delete r.1) in
    (
      finished q.1,
      end_transaction-runs s r.1 q.1 r.0 q.0 e e',
      context_reset-IsFresh (record q.1 { accounts_to_delete = []; written_slots = [] }),
      refl,
      refl,
    )

abort_transaction-runs :
    (t u : StateDb)
    → revert_to_snapshot (pos 0) t ≡ some (tt, u)
    → abort_transaction t ≡ some (tt, context_reset u)
unfolding abort_transaction reset_transaction_context clear_access_list
abort_transaction-runs t u e =
    bind-runs (revert_to_snapshot (pos 0)) (λ _. reset_transaction_context) t e

-- From a state with coherent caches that starts a transaction, after any sequence of VmStateDB
-- calls that does not panic, AbortTransaction ends and leaves a fresh transaction context in which
-- Exist, HasSuicided, GetBalance, GetNonce, GetState, GetCommittedState, GetTransientState,
-- GetCode, GetCodeSize, GetCodeHash, GetRefund, GetLogs, IsAddressInAccessList and
-- IsSlotInAccessList return what they returned at the start of the transaction.
pub abort_transaction-Agrees :
    (s t : StateDb) (cs : List Call)
    → IsCoherent s
    → IsFresh s
    → AllAbove 0 cs
    → run cs s ≡ some (tt, t)
    → (u : StateDb) × (abort_transaction t ≡ some (tt, u)) × IsFresh u × Agrees s u
abort_transaction-Agrees s t cs c fresh above ends =
    let z : length s.undo ≡ 0 = ap length fresh.undo in
    let (u, e, same, h, d) = revert-run s t cs c (subst (λ n. AllAbove n cs) (sym z) above) ends in
    (
      context_reset u,
      abort_transaction-runs t u (subst (λ n. revert_to_snapshot (pos n) t ≡ some (tt, u)) z e),
      context_reset-IsFresh u,
      Extends-Agrees (Extends-reset s u fresh h) c (IsCoherent-reset u d),
    )
