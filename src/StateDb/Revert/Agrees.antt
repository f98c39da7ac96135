-- ===== src/StateDb/Revert/Agrees.antt =====
-- The read methods of go/state/state_db.go tell nothing of what was undone.
use carmen.Prelude.{
  get_or, ℕ, ◌≡◌, sym, ap, ap₂, ◌∙◌, inl, inr, Option, none, some, List, [], Bool, true, false,
  if◌then◌else◌, Bool-cases, length, comparable_nat, comparable_pair, arith, is_some,
}
use carmen.Prelude.Map.{lookup}
use carmen.StateDb.Types.{SlotId, State, is_cleared, clearing, StateDb}
use carmen.StateDb.Accounts.{exist, initial_state, get_balance, get_nonce, has_suicided}
use carmen.StateDb.Storage.{get_state, get_committed_state, get_transient_state}
use carmen.StateDb.Code.{get_code, get_code_size, get_code_hash}
use carmen.StateDb.Context.{get_refund, get_logs, is_address_in_access_list, is_slot_in_access_list}
use carmen.StateDb.Revert.View.{
  Extends, IsCoherent, Ext, bind, account_view, account_origin, slot_origin,
}
use carmen.Prelude.Int.{pos}
use carmen.StateDb.Undo.{revert_to_snapshot}
use carmen.StateDb.Calls.{Call, run}
use carmen.StateDb.Revert.Calls.{AllAbove, revert-run}
use carmen.StateDb.Revert.Observe.{
  result, or_load, Ext-or_load, is_present_or, exist-result, get_balance-result, get_nonce-result,
  get_code-result, get_code_size-result, get_state-result, get_committed_state-result,
  get_code_hash-result,
}

-- Every read of an account, a slot or the transaction context returns the same in both states.
pub record Agrees (s u : StateDb) : Type 0 where
  pub exists : (a : ℕ) → result (exist a u) ≡ result (exist a s)
  pub suicided : (a : ℕ) → result (has_suicided a u) ≡ result (has_suicided a s)
  pub balances : (a : ℕ) → result (get_balance a u) ≡ result (get_balance a s)
  pub nonces : (a : ℕ) → result (get_nonce a u) ≡ result (get_nonce a s)
  pub states : (a key : ℕ) → result (get_state a key u) ≡ result (get_state a key s)
  pub committed :
      (a key : ℕ) → result (get_committed_state a key u) ≡ result (get_committed_state a key s)
  pub transients :
      (a key : ℕ) → result (get_transient_state a key u) ≡ result (get_transient_state a key s)
  pub codes : (a : ℕ) → result (get_code a u) ≡ result (get_code a s)
  pub code_sizes : (a : ℕ) → result (get_code_size a u) ≡ result (get_code_size a s)
  pub code_hashes : (a : ℕ) → result (get_code_hash a u) ≡ result (get_code_hash a s)
  pub refund : result (get_refund u) ≡ result (get_refund s)
  pub logs : result (get_logs u) ≡ result (get_logs s)
  pub address_lists :
      (a : ℕ) → result (is_address_in_access_list a u) ≡ result (is_address_in_access_list a s)
  pub slot_lists :
      (a key : ℕ)
      → result (is_slot_in_access_list a key u) ≡ result (is_slot_in_access_list a key s)

in_lists : Option Bool → Option Bool → Option (Bool × Bool)
in_lists p q = some (if is_some p then (true, true) else (is_some q, false))

in_lists-result :
    (a key : ℕ) (s : StateDb)
    → result (is_slot_in_access_list a key s)
      ≡ in_lists (lookup (a, key) s.accessed_slots) (lookup a s.accessed_addresses)
unfolding is_slot_in_access_list is_address_in_access_list in_lists
in_lists-result a key s = elim (Bool-cases (is_some (lookup (a, key) s.accessed_slots))) [
  | inl e ↦ rw e
  | inr e ↦ rw e
]

module _ {s u : StateDb} (h : Extends s u) where
  loads {ℓ} :
      {A : Type ℓ} (origin : StateDb → Option A) (x y : Option A)
      → origin u ≡ origin s
      → Ext (origin s) x y
      → or_load y (origin u) ≡ or_load x (origin s)
  loads origin x y e k = ap (λ d. or_load y d) e ∙ sym (Ext-or_load k)

  by_state {ℓ} : {A : Type ℓ} (f : State → A) → f u.state ≡ f s.state
  by_state f = ap f h.state

  present_eq :
      (a : ℕ)
      → or_load (account_view u a) (account_origin u a)
        ≡ or_load (account_view s a) (account_origin s a)
  present_eq a =
      loads (λ w. account_origin w a) _ _
        (by_state (λ st. bind (st.exists a) (λ b. some (initial_state b)))) (h.accounts a)

  origin_eq : (sid : SlotId) → slot_origin u sid ≡ slot_origin s sid
  origin_eq sid =
      rw (h.clearings sid.0)
        (by_state (λ st. if is_cleared (clearing u sid.0) then none else st.storage sid))

  -- A loaded account is not self-destructed.
  suicided_eq : (a : ℕ) → result (has_suicided a u) ≡ result (has_suicided a s)
  unfolding has_suicided
  suicided_eq a = ground (arith, h.accounts a)

  pub Extends-Agrees : IsCoherent s → IsCoherent u → Agrees s u
  unfolding get_transient_state get_refund get_logs is_address_in_access_list
  Extends-Agrees c d = record {
    exists = λ a.
        exist-result a u ∙ ap (λ o. some (is_present_or o)) (present_eq a) ∙ sym (exist-result a s);
    suicided = suicided_eq;
    balances = λ a.
        get_balance-result a u
        ∙ ap (λ o. some (get_or o 0))
            (loads (λ w. w.state.balance a) _ _ (by_state (λ st. st.balance a)) (h.balances a))
        ∙ sym (get_balance-result a s);
    nonces = λ a.
        get_nonce-result a u
        ∙ ap (λ o. some (get_or o 0))
            (loads (λ w. w.state.nonce a) _ _ (by_state (λ st. st.nonce a)) (h.nonces a))
        ∙ sym (get_nonce-result a s);
    states = λ a key.
        get_state-result a key u d
        ∙ ap (λ o. some (get_or o 0))
            (loads (λ w. slot_origin w (a, key)) _ _ (origin_eq (a, key)) (h.current (a, key)))
        ∙ sym (get_state-result a key s c);
    committed = λ a key.
        get_committed_state-result a key u d
        ∙ ap (λ o. some (get_or o 0))
            (loads (λ w. slot_origin w (a, key)) _ _ (origin_eq (a, key)) (h.committed (a, key)))
        ∙ sym (get_committed_state-result a key s c);
    transients = λ a key. ap some (sym (h.transients (a, key)));
    codes = λ a.
        get_code-result a u
        ∙ ap (λ o. some (get_or o []))
            (loads (λ w. w.state.code a) _ _ (by_state (λ st. st.code a)) (h.code a))
        ∙ sym (get_code-result a s);
    code_sizes = λ a.
        get_code_size-result a u
        ∙ ap (λ o. some (get_or o 0))
            (loads (λ w. w.state.code_size a) _ _ (by_state (λ st. st.code_size a)) (h.size a))
        ∙ sym (get_code_size-result a s);
    code_hashes = λ a.
        get_code_hash-result a u
        ∙ ap₂ (λ p o. some (if is_present_or p then get_or o 0 else 0)) (present_eq a)
            (loads (λ w. w.state.code_hash a) _ _ (by_state (λ st. st.code_hash a)) (h.hash a))
        ∙ sym (get_code_hash-result a s);
    refund = ap some h.refund;
    logs = ap some h.logs;
    address_lists = λ a. ap (λ o. some (is_some o)) (sym (h.addresses a));
    slot_lists = λ a key.
        in_lists-result a key u
        ∙ ap₂ in_lists (sym (h.slots (a, key))) (sym (h.addresses a))
        ∙ sym (in_lists-result a key s);
  }

-- From a state with coherent caches, after any sequence of VmStateDB calls that does not panic and
-- does not revert below the snapshot, RevertToSnapshot ends, restores the undo list and every read
-- method of accounts, slots and the transaction context returns what it returned at the snapshot.
pub revert_to_snapshot-Agrees :
    (s t : StateDb) (cs : List Call)
    → IsCoherent s
    → AllAbove (length s.undo) cs
    → run cs s ≡ some (tt, t)
    → (u : StateDb) × (revert_to_snapshot (pos (length s.undo)) t ≡ some (tt, u))
      × (u.undo ≡ s.undo)
      × Agrees s u
revert_to_snapshot-Agrees s t cs c above ends =
    let (u, e, same, h, d) = revert-run s t cs c above ends in (u, e, same, Extends-Agrees h c d)
