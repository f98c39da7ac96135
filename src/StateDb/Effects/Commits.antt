-- ===== src/StateDb/Effects/Commits.antt =====
-- What EndTransaction of go/state/state_db.go makes of the slots of accounts that it does not delete.
use carmen.Prelude.{
  ℕ, ◌≡◌, refl, ap, subst, ◌∙◌, inl, inr, Option, some, List, [], ◌∷◌, ◌++◌, Bool, true, false,
  if◌then◌else◌, Bool-cases, comparable_nat, comparable_pair, arith, ◌==◌, ◌||◌,
}
use carmen.Prelude.Map.{Map, lookup, keys}
use carmen.StateDb.Types.{
  SlotId, SlotValue, is_cleared, clearing, StateDb, M, modify, skip, non_existing, pending_clearing,
  LifeCycle,
}
use carmen.StateDb.Accounts.{
  set_account_state, reset_balance, set_nonce_internal, get_nonce, get_balance, has_suicided, exist,
}
use carmen.StateDb.Code.{set_code_internal, get_code_size}
use carmen.StateDb.Contracts.{empty}
use carmen.StateDb.Effects.Still.{Still, StillAt, Still-bind}
use carmen.StateDb.Revert.View.{bind}
use carmen.StateDb.Revert.Observe.{result}
use carmen.StateDb.Storage.{get_committed_state, get_state}
use carmen.StateDb.Effects.Transactions.{
  delete_accounts-Total, end_transaction-runs, finished, has, lookup-commit_slots,
  schedule_empty-Total, witness,
}
use carmen.StateDb.Transaction.{
  forget_slots, commit_slots, schedule_if_empty, schedule_empty, bury, retire_suicided,
  delete_account, delete_accounts, end_transaction, mark, seal_slot,
}

abbrev pub is_among : ℕ → List ℕ → Bool
is_among a [] = false
is_among a (b ∷ bs) = b == a || is_among a bs

neither : (p q : Bool) → (p || q) ≡ false → (p ≡ false) × (q ≡ false)
neither true q h = cc
neither false q h = (refl, h)

module _ (sid : SlotId) where
  -- The slot, and whether its account is scheduled for deletion.
  abbrev seen : StateDb → Option SlotValue × Bool
  seen s = (lookup sid s.slots, is_among sid.0 s.accounts_to_delete)

  abbrev at_slot : StateDb → Option SlotValue
  at_slot s = lookup sid s.slots

  empty-Still : (b : ℕ) → Still seen (empty b)
  unfolding empty get_balance get_nonce get_code_size
  empty-Still b s = grind arith

  is_among-append :
      (xs : List ℕ) (b : ℕ)
      → (b == sid.0) ≡ false
      → is_among sid.0 (xs ++ b ∷ []) ≡ is_among sid.0 xs
  is_among-append [] b h = rw h refl
  is_among-append (x ∷ xs) b h = ap (λ z. x == sid.0 || z) (is_among-append xs b h)

  schedule_if_empty-Still : (b : ℕ) → (b == sid.0) ≡ false → Still seen (schedule_if_empty b)
  unfolding schedule_if_empty
  schedule_if_empty-Still b h = Still-bind seen (empty b) _ (empty-Still b) λ is_empty s.
      elim is_empty
        as (λ is_empty. StillAt seen s (
          (if is_empty
              then modify (λ s.
                mark b pending_clearing
                  (record s { accounts_to_delete = s.accounts_to_delete ++ b ∷ [] }))
              else skip)
            s)) [
              | true ↦ ap (λ z. (lookup sid s.slots, z)) (is_among-append s.accounts_to_delete b h)
              | false ↦ refl
            ]

  schedule_empty-Still : (bs : List ℕ) → is_among sid.0 bs ≡ false → Still seen (schedule_empty bs)
  unfolding schedule_empty
  schedule_empty-Still [] h = λ s. refl
  schedule_empty-Still (b ∷ bs) h =
      let (here, later) = neither (b == sid.0) (is_among sid.0 bs) h in
      Still-bind seen (schedule_if_empty b) _ (schedule_if_empty-Still b here)
        λ _. schedule_empty-Still bs later

  lookup-forget_slots :
      (b : ℕ) (m : Map SlotId SlotValue)
      → (sid.0 == b) ≡ false
      → lookup sid (forget_slots b m) ≡ lookup sid m
  unfolding forget_slots lookup
  lookup-forget_slots b [] h = refl
  lookup-forget_slots b ((i, v) ∷ m) h = elim (Bool-cases (i == sid)) [
    | inl y ↦
        let same : i ≡ sid = (comparable_pair.equal_iff i sid).0 y in
        let kept : (i.0 == b) ≡ false = ap (λ (z : SlotId). z.0 == b) same ∙ h in rw (y, kept) refl
    | inr f ↦ rw f (lookup-forget_slots b m h)
  ]

  set_account_state-slot : (b : ℕ) (l : LifeCycle) → Still at_slot (set_account_state b l)
  unfolding set_account_state exist
  set_account_state-slot b l s = grind arith

  rest-slot : (b : ℕ) → Still at_slot (reset_balance b)
  unfolding reset_balance
  rest-slot b s = grind arith

  nonce-slot : (b : ℕ) → Still at_slot (set_nonce_internal b 0)
  unfolding set_nonce_internal
  nonce-slot b s = grind arith

  code-slot : (b : ℕ) → Still at_slot (set_code_internal b [])
  unfolding set_code_internal
  code-slot b s = grind arith

  bury-slot : (b : ℕ) → (b == sid.0) ≡ false → Still at_slot (bury b)
  unfolding bury
  bury-slot b h =
      let other : (sid.0 == b) ≡ false = ground (arith, h) in
      Still-bind at_slot (set_account_state b non_existing) _
        (set_account_state-slot b non_existing)
        λ _. Still-bind at_slot (reset_balance b) _ (rest-slot b) λ _.
          Still-bind at_slot (set_nonce_internal b 0) _ (nonce-slot b) λ _.
            Still-bind at_slot (set_code_internal b []) _ (code-slot b)
              λ _ s. lookup-forget_slots b s.slots other

  retire-slot : (b : ℕ) → Still at_slot (retire_suicided b)
  unfolding retire_suicided
  retire-slot b =
      Still-bind at_slot (set_account_state b non_existing) _
        (set_account_state-slot b non_existing)
        λ _. Still-bind at_slot (set_code_internal b []) _ (code-slot b) λ _ s. refl

  choose-Still :
      {A : Type 0} (c : Bool) (m n : M A)
      → Still at_slot m
      → Still at_slot n
      → Still at_slot (if c then m else n)
  choose-Still true m n h k = h
  choose-Still false m n h k = k

  delete_account-slot : (b : ℕ) → (b == sid.0) ≡ false → Still at_slot (delete_account b)
  unfolding delete_account has_suicided
  delete_account-slot b h =
      Still-bind at_slot (has_suicided b) _ (λ s. refl)
        λ suicided.
          Still-bind at_slot (if suicided then retire_suicided b else skip) _
            (choose-Still suicided (retire_suicided b) skip (retire-slot b) (λ s. refl))
            λ _ s.
              choose-Still (is_cleared (clearing s b)) skip (bury b) (λ s. refl) (bury-slot b h) s

  delete_accounts-slot :
      (bs : List ℕ) → is_among sid.0 bs ≡ false → Still at_slot (delete_accounts bs)
  unfolding delete_accounts
  delete_accounts-slot [] h = λ s. refl
  delete_accounts-slot (b ∷ bs) h =
      let (here, later) = neither (b == sid.0) (is_among sid.0 bs) h in
      Still-bind at_slot (delete_account b) _ (delete_account-slot b here)
        λ _. delete_accounts-slot bs later

Still-runs :
    {A B : Type 0} (f : StateDb → B) (m : M A) (s t : StateDb) (a : A)
    → Still f m
    → m s ≡ some (a, t)
    → f t ≡ f s
Still-runs f m s t a still runs = subst (λ o. StillAt f s o) runs (still s)

-- A written slot with its current value as the committed one, and any other slot as it is.
abbrev pub committed_slot : SlotId → StateDb → Option SlotValue
committed_slot sid s = bind (lookup sid s.slots) (λ v. some (
    if has sid (keys s.written_slots)
    then record v { committed = v.current; committed_known = true }
    else v))

reads_sealed :
    (t : StateDb) (sid : SlotId) (v : SlotValue)
    → lookup sid t.slots ≡ some (seal_slot v)
    → (result (get_committed_state sid.0 sid.1 t) ≡ some v.current)
      × (result (get_state sid.0 sid.1 t) ≡ some v.current)
unfolding get_committed_state get_state
reads_sealed t sid v e = (grind arith, grind arith)

committed_slot-written :
    (s : StateDb) (sid : SlotId) (v : SlotValue)
    → lookup sid s.slots ≡ some v
    → has sid (keys s.written_slots) ≡ true
    → committed_slot sid s ≡ some (seal_slot v)
committed_slot-written s sid v found written = rw (found, written) refl

-- EndTransaction, for a slot of an account that is neither scheduled for deletion nor a candidate
-- for it: it ends, the slot that was written has its current value as the committed one, a slot
-- that was not written is as it was, and GetCommittedState and GetState of a cached slot that was
-- written return its current value.
pub end_transaction-commits :
    (s : StateDb) (sid : SlotId)
    → is_among sid.0 s.accounts_to_delete ≡ false
    → is_among sid.0 s.empty_candidates ≡ false
    → (t : StateDb) × (end_transaction s ≡ some (tt, t))
      × (lookup sid t.slots ≡ committed_slot sid s)
      × ((v : SlotValue)
          → lookup sid s.slots ≡ some v
          → has sid (keys s.written_slots) ≡ true
          → (result (get_committed_state sid.0 sid.1 t) ≡ some v.current)
            × (result (get_state sid.0 sid.1 t) ≡ some v.current))
end_transaction-commits s sid alive touched =
    let committed : StateDb = record s { slots = commit_slots (keys s.written_slots) s.slots } in
    let (r, e) = witness _ (schedule_empty-Total s.empty_candidates committed) in
    let (q, e') = witness _ (delete_accounts-Total r.1.accounts_to_delete r.1) in
    let kept : seen sid r.1 ≡ seen sid committed =
      Still-runs (seen sid) (schedule_empty s.empty_candidates) committed r.1 r.0
        (schedule_empty-Still sid s.empty_candidates touched) e in
    let lasting : lookup sid q.1.slots ≡ lookup sid r.1.slots =
      Still-runs (at_slot sid) (delete_accounts r.1.accounts_to_delete) r.1 q.1 q.0
        (delete_accounts-slot sid r.1.accounts_to_delete (ap (λ p. p.1) kept ∙ alive)) e' in
    let sealed : lookup sid q.1.slots ≡ committed_slot sid s =
      lasting ∙ ap (λ p. p.0) kept ∙ lookup-commit_slots (keys s.written_slots) s.slots sid in
    (
      finished q.1,
      end_transaction-runs s r.1 q.1 r.0 q.0 e e',
      sealed,
      λ v found written.
          reads_sealed (finished q.1) sid v (sealed ∙ committed_slot-written s sid v found written),
    )
