-- ===== src/StateDb/Revert/StorageKeeps.antt =====
-- Storage slots, transient storage and clearing states of go/state/state_db.go stay on track.
use carmen.Prelude.{
  ℕ, ◌≡◌, refl, inl, inr, Option, none, List, [], ◌∷◌, Bool-cases, Option-cases, comparable_nat,
  comparable_pair, ◌==◌,
}
use carmen.Prelude.Map.{lookup}
use carmen.StateDb.Types.{
  SlotId, SlotValue, cleared_and_tainted, is_cleared, clearing, StateDb, return, modify, skip,
  load_failed,
}
use carmen.StateDb.Accounts.{touch}
use carmen.StateDb.Storage.{
  read_stored, load_stored_state, known_committed, get_committed_state, get_state, write_known_slot,
  write_unknown_slot, write_slot, write_clearing, is_exactly_cleared, taint, set_state, transient,
  write_transient, set_transient_state, has_empty_storage, account_is_gone, clear_slot, clear_slots,
}
use carmen.StateDb.Revert.Journal.{Tracks}
use carmen.StateDb.Revert.Keeps.{
  After, Keeps, Keeps-bind, Keeps-return, Keeps-if, fail-Keeps, touch-Keeps, At-option, At-if,
  At-bind,
}
use carmen.StateDb.Revert.AccountKeeps.{create_account_if_not_exists-Keeps}
use carmen.StateDb.Revert.StorageTracks.{
  fresh_value, read_stored-reads, cache_slot-Tracks, write_known_slot-Tracks,
  write_unknown_slot-Tracks, write_cleared_slot-Tracks, write_clearing-Tracks,
  write_transient-Tracks,
}

module _ {base : StateDb} where
  load_stored_state-keeps :
      (sid : SlotId) (val : Option SlotValue) (s : StateDb)
      → Tracks base s
      → lookup sid s.slots ≡ val
      → known_committed val ≡ none
      → After base (load_stored_state sid val s)
  unfolding load_stored_state
  load_stored_state-keeps sid val s k found unknown =
      let (o, cache, errors, e, k', fact, _) = read_stored-reads sid s k in
      let t : StateDb = record s { stored_data_cache = cache; errors = errors } in
      At-if base (is_cleared (clearing s sid.0)) (return 0) _ s (λ _. k)
        λ open'. At-bind base (read_stored sid) _ s e (
          At-option base o (return 0) _ t (λ _. k')
            λ c got.
              cache_slot-Tracks k' sid val (fresh_value s sid c) found unknown
                (rw open' (fact c got)))

  pub get_committed_state-Keeps : (a key : ℕ) → Keeps base (get_committed_state a key)
  unfolding get_committed_state
  get_committed_state-Keeps a key s k =
      let val = lookup (a, key) s.slots in
      At-option base (known_committed val) (load_stored_state (a, key) val) _ s
        (λ unknown. load_stored_state-keeps (a, key) val s k refl unknown) (λ x known. k)

  pub get_state-Keeps : (a key : ℕ) → Keeps base (get_state a key)
  unfolding get_state
  get_state-Keeps a key s k =
      At-option base (lookup (a, key) s.slots) (load_stored_state (a, key) none) _ s
        (λ missing. load_stored_state-keeps (a, key) none s k missing refl) (λ v known. k)

  write_slot-Keeps : (sid : SlotId) (value : ℕ) → Keeps base (write_slot sid value)
  unfolding write_slot
  write_slot-Keeps sid value s k =
      At-option base (lookup sid s.slots) (modify (write_unknown_slot sid value)) _ s
        (λ missing. write_unknown_slot-Tracks k sid value missing)
        λ v found.
          At-if base (v.current == value) skip (modify (write_known_slot sid v value)) s (λ same. k)
            (λ other. write_known_slot-Tracks k sid v value found)

  taint-Keeps : (a : ℕ) → Keeps base (taint a)
  unfolding taint
  taint-Keeps a s k =
      At-if base (is_exactly_cleared (clearing s a)) (modify (write_clearing a cleared_and_tainted))
        skip s (λ _. write_clearing-Tracks k a cleared_and_tainted (inl refl)) (λ _. k)

  pub set_state-Keeps : (a key value : ℕ) → Keeps base (set_state a key value)
  unfolding set_state
  set_state-Keeps a key value = Keeps-bind _ _ (create_account_if_not_exists-Keeps a) λ created.
      Keeps-bind _ _ (Keeps-if created (modify (touch a)) skip (touch-Keeps a) (Keeps-return tt))
        λ _. Keeps-bind _ _ (write_slot-Keeps (a, key) value) λ _. taint-Keeps a

  pub set_transient_state-Keeps : (a key value : ℕ) → Keeps base (set_transient_state a key value)
  unfolding set_transient_state
  set_transient_state-Keeps a key value s k =
      At-if base (transient s (a, key) == value) skip (modify (write_transient (a, key) value)) s
        (λ _. k) (λ _. write_transient-Tracks k (a, key) value)

  pub has_empty_storage-Keeps : (a : ℕ) → Keeps base (has_empty_storage a)
  unfolding has_empty_storage
  has_empty_storage-Keeps a s k = elim (Bool-cases (account_is_gone (lookup a s.accounts))) [
    | inl gone ↦ rw (gone, has_empty_storage) k
    | inr there ↦ elim (Option-cases (s.state.empty_storage a)) [
      | inl failed ↦ rw (there, has_empty_storage, failed) (fail-Keeps (load_failed a) s k)
      | inr (b, loaded) ↦ rw (there, has_empty_storage, loaded) k
    ]
  ]

  clear_slot-Keeps : (a : ℕ) (sid : SlotId) → Keeps base (clear_slot a sid)
  unfolding clear_slot
  clear_slot-Keeps a sid s k =
      At-if base (sid.0 == a) _ skip s
        (λ _.
          At-option base (lookup sid s.slots) skip _ s (λ _. k)
            (λ v found. write_cleared_slot-Tracks k sid v found))
        (λ _. k)

  pub clear_slots-Keeps : (a : ℕ) (sids : List SlotId) → Keeps base (clear_slots a sids)
  unfolding clear_slots
  clear_slots-Keeps a [] = Keeps-return tt
  clear_slots-Keeps a (sid ∷ sids) =
      Keeps-bind _ _ (clear_slot-Keeps a sid) λ _. clear_slots-Keeps a sids
