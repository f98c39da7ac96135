-- ===== src/StateDb/Revert/Calls.antt =====
-- Rewinding to a snapshot after any calls of go/state/state_db.go.
use carmen.Prelude.{
  ℕ, ◌≡◌, refl, sym, ap, subst, ◌∙◌, Option, none, some, List, [], ◌∷◌, ◌++◌, false, ◌≤◌, length,
  length-append, comparable_nat, comparable_pair, ltb, arith,
}
use carmen.Prelude.Int.{pos, negsuc}
use carmen.StateDb.Types.{invalid_snapshot, StateDb, M, return, fail}
use carmen.StateDb.Undo.{rewind, revert_to_snapshot}
use carmen.StateDb.Calls.{Call, run_, call, run}
use carmen.StateDb.Revert.ContextKeeps.{
  add_refund-Keeps, sub_refund-Keeps, add_log-Keeps, add_address_to_access_list-Keeps,
  add_slot_to_access_list-Keeps, create_contract-Keeps, create_account-Keeps, suicide-Keeps,
  suicide_new_contract-Keeps, empty-Keeps,
}
use carmen.StateDb.Revert.View.{Extends, IsCoherent, Extends-refl}
use carmen.StateDb.Revert.Journal.{Tracks, start, rewind-Journal, Tracks-start, Tracks-undo}
use carmen.StateDb.Revert.Keeps.{After, Keeps, Keeps-bind, Keeps-return, fail-Keeps, After-if}
use carmen.StateDb.Revert.AccountKeeps.{
  exist-Keeps, get_balance-Keeps, get_nonce-Keeps, set_nonce-Keeps, add_balance-Keeps,
  sub_balance-Keeps,
}
use carmen.StateDb.Revert.CodeKeeps.{
  set_code-Keeps, get_code-Keeps, get_code_hash-Keeps, get_code_size-Keeps,
}
use carmen.StateDb.Revert.StorageKeeps.{
  get_committed_state-Keeps, get_state-Keeps, set_state-Keeps, set_transient_state-Keeps,
  has_empty_storage-Keeps,
}

-- A nested snapshot is one at or above the length `n` of the undo list.
abbrev pub Above : ℕ → Call → Type 0
Above n (Call.revert_to_snapshot (pos id)) = n ≤ id
Above n _ = Unit {0}

abbrev pub AllAbove : ℕ → List Call → Type 0
AllAbove n [] = Unit {0}
AllAbove n (c ∷ cs) = Above n c × AllAbove n cs

module _ {base : StateDb} where
  run_-Keeps : {A : Type 0} (m : M A) → Keeps base m → Keeps base (run_ m)
  run_-Keeps m h = Keeps-bind m (λ _. return tt) h λ _. Keeps-return tt

  revert_to_snapshot-Keeps :
      (id : ℕ) → length base.undo ≤ id → Keeps base (revert_to_snapshot (pos id))
  unfolding revert_to_snapshot
  revert_to_snapshot-Keeps id h s k =
      After-if base (ltb (length s.undo) id) (fail invalid_snapshot s) _
        (fail-Keeps invalid_snapshot s k)
        (rewound (rewind-Journal id h k.journal s (Extends-refl s) k.coherent))
    where
      rewound :
          (v : StateDb) × (rewind (k.recent ++ base.undo) id s ≡ some v)
            × Tracks base v
            × (length v.undo ≤ id)
          → After base (elim (rewind s.undo id s) as (λ x. Option (Unit {0} × StateDb)) [
            | none ↦ none
            | some s' ↦ some (tt, s')
          ])
      rewound (v, e, k', short) =
          subst
            (λ o. After base (elim o as (λ x. Option (Unit {0} × StateDb)) [
              | none ↦ none
              | some s' ↦ some (tt, s')
            ]))
            (sym (ap (λ us. rewind us id s) k.split ∙ e)) k'

  revert_to_negative-Keeps : (n : ℕ) → Keeps base (revert_to_snapshot (negsuc n))
  unfolding revert_to_snapshot
  revert_to_negative-Keeps n = fail-Keeps invalid_snapshot

  call-Keeps : (c : Call) → Above (length base.undo) c → Keeps base (call c)
  unfolding call
  call-Keeps (Call.create_account a) h = create_account-Keeps a
  call-Keeps (Call.create_contract a) h = create_contract-Keeps a
  call-Keeps (Call.suicide a) h = run_-Keeps _ (suicide-Keeps a)
  call-Keeps (Call.suicide_new_contract a) h = run_-Keeps _ (suicide_new_contract-Keeps a)
  call-Keeps (Call.exist a) h = run_-Keeps _ (exist-Keeps a)
  call-Keeps (Call.empty a) h = run_-Keeps _ (empty-Keeps a)
  call-Keeps (Call.get_balance a) h = run_-Keeps _ (get_balance-Keeps a)
  call-Keeps (Call.get_nonce a) h = run_-Keeps _ (get_nonce-Keeps a)
  call-Keeps (Call.has_empty_storage a) h = run_-Keeps _ (has_empty_storage-Keeps a)
  call-Keeps (Call.get_code a) h = run_-Keeps _ (get_code-Keeps a)
  call-Keeps (Call.get_code_hash a) h = run_-Keeps _ (get_code_hash-Keeps a)
  call-Keeps (Call.get_code_size a) h = run_-Keeps _ (get_code_size-Keeps a)
  call-Keeps (Call.add_refund n) h = add_refund-Keeps n
  call-Keeps (Call.sub_refund n) h = sub_refund-Keeps n
  call-Keeps (Call.add_address_to_access_list a) h = add_address_to_access_list-Keeps a
  call-Keeps (Call.add_balance a n) h = add_balance-Keeps a n
  call-Keeps (Call.sub_balance a n) h = sub_balance-Keeps a n
  call-Keeps (Call.set_nonce a n) h = set_nonce-Keeps a n
  call-Keeps (Call.get_committed_state a k) h = run_-Keeps _ (get_committed_state-Keeps a k)
  call-Keeps (Call.get_state a k) h = run_-Keeps _ (get_state-Keeps a k)
  call-Keeps (Call.add_slot_to_access_list a k) h = add_slot_to_access_list-Keeps a k
  call-Keeps (Call.set_state a k v) h = set_state-Keeps a k v
  call-Keeps (Call.set_transient_state a k v) h = set_transient_state-Keeps a k v
  call-Keeps (Call.set_code a code) h = set_code-Keeps a code
  call-Keeps (Call.add_log log) h = add_log-Keeps log
  call-Keeps (Call.revert_to_snapshot (pos id)) h = revert_to_snapshot-Keeps id h
  call-Keeps (Call.revert_to_snapshot (negsuc n)) h = revert_to_negative-Keeps n

  pub run-Keeps : (cs : List Call) → AllAbove (length base.undo) cs → Keeps base (run cs)
  unfolding run
  run-Keeps [] h = Keeps-return tt
  run-Keeps (c ∷ cs) h = Keeps-bind (call c) (λ _. run cs) (call-Keeps c h.0) λ _. run-Keeps cs h.1

revert_to_snapshot_lem :
    (id : ℕ) (t u : StateDb)
    → ltb (length t.undo) id ≡ false
    → rewind t.undo id t ≡ some u
    → revert_to_snapshot (pos id) t ≡ some (tt, u)
unfolding revert_to_snapshot
revert_to_snapshot_lem id t u h e = rw (h, e)

pub Tracks-self : (s : StateDb) → IsCoherent s → Tracks s s
Tracks-self s c = record {
  recent = [];
  split = refl;
  journal = start (Extends-refl s);
  coherent = c;
}

-- After any calls that end, of which none reverts to before the snapshot, reverting to the
-- snapshot ends, with the undo list of the snapshot and a state that only has more values loaded.
pub revert-run :
    (s t : StateDb) (cs : List Call)
    → IsCoherent s
    → AllAbove (length s.undo) cs
    → run cs s ≡ some (tt, t)
    → (u : StateDb) × (revert_to_snapshot (pos (length s.undo)) t ≡ some (tt, u))
      × (u.undo ≡ s.undo)
      × Extends s u
      × IsCoherent u
revert-run s t cs c above ends =
    let k : Tracks s t = rw ends at (run-Keeps cs above s (Tracks-self s c)) in
    let (u, e, k', short) =
      rewind-Journal (length s.undo) (omega arith) k.journal t (Extends-refl t) k.coherent in
    (
      u,
      revert_to_snapshot_lem (length s.undo) t u
          (ground (arith, ap length k.split, length-append k.recent s.undo))
          (ap (λ us. rewind us (length s.undo) t) k.split ∙ e),
      Tracks-undo k' short,
      Tracks-start k' short,
      k'.coherent,
    )
