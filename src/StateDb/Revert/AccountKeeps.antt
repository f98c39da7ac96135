-- ===== src/StateDb/Revert/AccountKeeps.antt =====
-- Accounts, balances and nonces of go/state/state_db.go stay on track.
use carmen.Prelude.{
  ℕ, ◌≡◌, subst, inl, inr, some, [], ◌∷◌, ◌++◌, Bool, true, false, if◌then◌else◌, Option-cases,
  comparable_nat, arith, ◌==◌, ◌&&◌,
}
use carmen.Prelude.Map.{lookup, lookup-insert, equal_refl}
use carmen.StateDb.Types.{
  StateDb, ◌>>=◌, return, modify, fail, skip, panic, LifeCycle, exists, is_life_cycle, BalanceValue,
  load_failed, balance_overflow, balance_underflow,
}
use carmen.StateDb.Accounts.{
  exist, set_account_state, write_account_state, touch, reset_balance, reset_known_balance,
  reset_unknown_balance, create_account_if_not_exists, get_balance, cache_balance, store_balance,
  write_balance, add_balance, sub_balance, add_overflow, sub_underflow, get_nonce,
  set_nonce_internal, write_known_nonce, write_unknown_nonce, set_nonce,
}
use carmen.StateDb.Revert.Journal.{Tracks}
use carmen.StateDb.Revert.Keeps.{
  After, Keeps, Keeps-bind, Keeps-return, Keeps-if, fail-Keeps, touch-Keeps, At-option, At-if,
  At-bind,
}
use carmen.StateDb.Revert.AccountTracks.{
  cache_account-Tracks, cache_balance-Tracks, cache_nonce-Tracks, write_account_state-Tracks,
  reset_known_balance-Tracks, reset_unknown_balance-Tracks, write_balance-Tracks,
  write_known_nonce-Tracks, write_unknown_nonce-Tracks,
}

-- The cached balance of an account, if there is one, is `b`.
abbrev Shows : ℕ → ℕ → StateDb → Type 0
Shows a b s = (val : BalanceValue) → lookup a s.balances ≡ some val → val.current ≡ b

cached_balance :
    (a b : ℕ) (s : StateDb)
    → lookup a (cache_balance a b s).balances ≡ some (record { original = some b; current = b })
unfolding cache_balance
cached_balance a b s = rw (lookup-insert a a _ s.balances, equal_refl a)

module _ {base : StateDb} where
  pub exist-Keeps : (a : ℕ) → Keeps base (exist a)
  unfolding exist
  exist-Keeps a s k = elim (Option-cases (lookup a s.accounts)) [
    | inr (v, known) ↦ rw (known, exist) k
    | inl missing ↦ elim (Option-cases (s.state.exists a)) [
      | inl failed ↦ rw (missing, exist, failed) (fail-Keeps (load_failed a) s k)
      | inr (present, loaded) ↦
          rw (missing, exist, loaded) (cache_account-Tracks k a present missing loaded)
    ]
  ]

  pub set_account_state-Keeps : (a : ℕ) (state : LifeCycle) → Keeps base (set_account_state a state)
  unfolding set_account_state
  set_account_state-Keeps a state = Keeps-bind (exist a) _ (exist-Keeps a) λ present s k.
      At-option base (lookup a s.accounts) skip _ s (λ missing. k)
        λ val found.
          At-if base (is_life_cycle val.current state) skip
            (modify (write_account_state a val state)) s (λ same. k)
            (λ other. write_account_state-Tracks k a val state found)

  pub get_balance-Keeps : (a : ℕ) → Keeps base (get_balance a)
  unfolding get_balance
  get_balance-Keeps a s k = elim (Option-cases (lookup a s.balances)) [
    | inr (v, known) ↦ rw (known, get_balance) k
    | inl missing ↦ elim (Option-cases (s.state.balance a)) [
      | inl failed ↦ rw (missing, get_balance, failed) (fail-Keeps (load_failed a) s k)
      | inr (b, loaded) ↦
          rw (missing, get_balance, loaded) (cache_balance-Tracks k a b missing loaded)
    ]
  ]

  pub reset_balance-Keeps : (a : ℕ) → Keeps base (reset_balance a)
  unfolding reset_balance
  reset_balance-Keeps a s k =
      At-option base (lookup a s.balances) (modify (reset_unknown_balance a)) _ s
        (λ missing. reset_unknown_balance-Tracks k a missing)
        λ val found.
          At-if base (val.current == 0) skip (modify (reset_known_balance a val)) s (λ zero. k)
            (λ other. reset_known_balance-Tracks k a val found)

  pub create_account_if_not_exists-Keeps : (a : ℕ) → Keeps base (create_account_if_not_exists a)
  unfolding create_account_if_not_exists
  create_account_if_not_exists-Keeps a = Keeps-bind (exist a) _ (exist-Keeps a) λ known.
      Keeps-if known (return false) _ (Keeps-return false) (
        Keeps-bind _ _ (set_account_state-Keeps a exists)
          λ _. Keeps-bind _ _ (reset_balance-Keeps a) λ _. Keeps-return true)

  pub get_nonce-Keeps : (a : ℕ) → Keeps base (get_nonce a)
  unfolding get_nonce
  get_nonce-Keeps a s k = elim (Option-cases (lookup a s.nonces)) [
    | inr (v, known) ↦ rw (known, get_nonce) k
    | inl missing ↦ elim (Option-cases (s.state.nonce a)) [
      | inl failed ↦ rw (missing, get_nonce, failed) (fail-Keeps (load_failed a) s k)
      | inr (b, loaded) ↦ rw (missing, get_nonce, loaded) (cache_nonce-Tracks k a b missing loaded)
    ]
  ]

  pub set_nonce_internal-Keeps : (a nonce : ℕ) → Keeps base (set_nonce_internal a nonce)
  unfolding set_nonce_internal
  set_nonce_internal-Keeps a nonce s k =
      At-option base (lookup a s.nonces) (modify (write_unknown_nonce a nonce)) _ s
        (λ missing. write_unknown_nonce-Tracks k a nonce missing)
        λ val found.
          At-if base (val.current == nonce) skip (modify (write_known_nonce a val nonce)) s
            (λ same. k) (λ other. write_known_nonce-Tracks k a val nonce found)

  pub set_nonce-Keeps : (a nonce : ℕ) → Keeps base (set_nonce a nonce)
  unfolding set_nonce
  set_nonce-Keeps a nonce = Keeps-bind _ _ (set_nonce_internal-Keeps a nonce) λ _.
      Keeps-bind _ _ (create_account_if_not_exists-Keeps a) λ created.
        Keeps-if (created && nonce == 0) (modify (touch a)) skip (touch-Keeps a) (Keeps-return tt)

  get_balance-Shows :
      (a : ℕ) (s : StateDb)
      → Tracks base s
      → (b : ℕ) × (t : StateDb) × (get_balance a s ≡ some (b, t)) × Tracks base t × Shows a b t
  unfolding get_balance
  get_balance-Shows a s k = elim (Option-cases (lookup a s.balances)) [
    | inr (v, known) ↦ (v.current, s, rw (known, get_balance), k, λ w e. ground arith)
    | inl missing ↦ elim (Option-cases (s.state.balance a)) [
      | inl failed ↦ (
        0,
        record s { errors = s.errors ++ load_failed a ∷ [] },
        rw (missing, get_balance, failed),
        fail-Keeps (load_failed a) s k,
        λ w e. ground arith,
      )
      | inr (b, loaded) ↦ (
        b,
        cache_balance a b s,
        rw (missing, get_balance, loaded),
        cache_balance-Tracks k a b missing loaded,
        λ w e. ground (arith, cached_balance a b s),
      )
    ]
  ]

  store_balance-keeps :
      (a old new : ℕ) (s : StateDb)
      → Tracks base s
      → Shows a old s
      → After base (store_balance a old new s)
  unfolding store_balance
  store_balance-keeps a old new s k shows =
      At-option base (lookup a s.balances) panic _ s (λ e. tt)
        (λ w e.
          subst (λ o. Tracks base (write_balance a w o new s)) (shows w e)
            (write_balance-Tracks k a w new e))

  store_touched-keeps :
      (a old new : ℕ) (b : Bool) (s : StateDb)
      → Tracks base s
      → Shows a old s
      → After base (((if b then modify (touch a) else skip) >>= λ _. store_balance a old new) s)
  store_touched-keeps a old new true s k shows =
      store_balance-keeps a old new (touch a s) (touch-Keeps a s k) shows
  store_touched-keeps a old new false s k shows = store_balance-keeps a old new s k shows

  pub add_balance-Keeps : (a diff : ℕ) → Keeps base (add_balance a diff)
  unfolding add_balance
  add_balance-Keeps a diff = Keeps-bind _ _ (create_account_if_not_exists-Keeps a) λ _.
      Keeps-if (diff == 0) (modify (touch a)) _ (touch-Keeps a) λ s k.
        let (old, t, e, k', shows) = get_balance-Shows a s k in
        let r = add_overflow old diff in
        At-bind base (get_balance a) _ s e (
          At-if base r.1 (fail (balance_overflow a)) (store_balance a old r.0) t
            (λ _. fail-Keeps (balance_overflow a) t k')
            (λ _. store_balance-keeps a old r.0 t k' shows))

  pub sub_balance-Keeps : (a diff : ℕ) → Keeps base (sub_balance a diff)
  unfolding sub_balance
  sub_balance-Keeps a diff = Keeps-bind _ _ (create_account_if_not_exists-Keeps a) λ _.
      Keeps-if (diff == 0) (modify (touch a)) _ (touch-Keeps a) λ s k.
        let (old, t, e, k', shows) = get_balance-Shows a s k in
        let r = sub_underflow old diff in
        At-bind base (get_balance a) _ s e (
          At-if base r.1 (fail (balance_underflow a)) _ t
            (λ _. fail-Keeps (balance_underflow a) t k')
            (λ _. store_touched-keeps a old r.0 (r.0 == 0) t k' shows))
