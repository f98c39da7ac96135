-- ===== src/StateDb/Effects/Blocks.antt =====
-- The balances that EndBlock of go/state/state_db.go sends, and what they make of the state.
use carmen.Prelude.{
  ℕ, ◌≡◌, refl, sym, ap, ◌∙◌, inl, inr, Option, some, List, [], ◌∷◌, ◌++◌, Bool, true, false, not,
  if◌then◌else◌, Bool-cases, Option-cases, comparable_nat, comparable_pair, append-nil,
  append_assoc, arith, ◌&&◌, is_some, ◌≢◌, none,
}
use carmen.Prelude.Map.{Map, lookup}
use carmen.StateDb.Types.{BalanceValue}
use carmen.Update.{Update, BalanceUpdate, append_balance_update}
use carmen.StateDb.Block.{is_modified, update_balances}
use carmen.StateDb.Effects.Sent.{
  IsDistinct, after, after-absent, after-present, mentions, mentions-kept, sent,
}

-- The test of the loop over the balances.
abbrev keep_balance : Map ℕ Bool → ℕ → BalanceValue → Bool
keep_balance gone a v = not (is_some (lookup a gone)) && is_modified v.original v.current

abbrev make_balance : ℕ → BalanceValue → BalanceUpdate
make_balance a v = record { account = a; balance = v.current }

abbrev sent_balances : Map ℕ Bool → Map ℕ BalanceValue → List BalanceUpdate
sent_balances gone =
    sent (λ b. b.account) (λ b. b.balance) (keep_balance gone) make_balance (λ a v. refl)

branch {ℓ} :
    {A : Type ℓ} (gone modified : Bool) (u v : A)
    → (if gone then u else (if modified then v else u)) ≡ (if not gone && modified then v else u)
branch true m u v = refl
branch false m u v = refl

update_balances-sent :
    (m : Map ℕ BalanceValue) (gone : Map ℕ Bool) (u : Update)
    → update_balances m gone u ≡ record u { balances = u.balances ++ sent_balances gone m }
unfolding update_balances append_balance_update
update_balances-sent [] gone u = ap (λ l. record u { balances = l }) (sym (append-nil u.balances))
update_balances-sent ((a, v) ∷ m) gone u =
    elim (Bool-cases (not (is_some (lookup a gone)) && is_modified v.original v.current)) [
      | inl kept ↦
          rw (branch (is_some (lookup a gone)) (is_modified v.original v.current) u _, kept)
            (update_balances-sent m gone (append_balance_update a v.current u)
              ∙ ap (λ l. record u { balances = l })
                  (append_assoc u.balances (make_balance a v ∷ []) (sent_balances gone m)))
      | inr left ↦
          rw (branch (is_some (lookup a gone)) (is_modified v.original v.current) u _, left)
            (update_balances-sent m gone u)
    ]

-- What the state is to hold as the balance of an account.
abbrev pub balance_to_hold : Map ℕ BalanceValue → Map ℕ Bool → (ℕ → ℕ) → ℕ → ℕ
balance_to_hold m gone held a =
    if is_some (lookup a gone)
    then held a
    else elim (lookup a m) [ none ↦ held a | some v ↦ v.current ]

is_modified-differs :
    (original : Option ℕ) (current : ℕ)
    → is_modified original current ≡ true
    → original ≢ some current
is_modified-differs none current h e = cc
is_modified-differs (some v) current h e = let same : v ≡ current = cc in ground (arith, h, same)

is_modified-same :
    (original : Option ℕ) (current : ℕ)
    → is_modified original current ≡ false
    → original ≡ some current
is_modified-same none current h = cc
is_modified-same (some v) current h = let same : v ≡ current = ground (arith, h) in ap some same

both : (g b : Bool) → (not g && b) ≡ true → (g ≡ false) × (b ≡ true)
both true b h = cc
both false b h = (refl, h)

missing {ℓ} : {A : Type ℓ} (o : Option A) → is_some o ≡ false → o ≡ none
missing none h = refl
missing (some a) h = cc

settle_balance :
    (gone : Map ℕ Bool) (held : ℕ → ℕ) (a : ℕ) (v : BalanceValue)
    → ((x : ℕ) → v.original ≡ some x → held a ≡ x)
    → (if keep_balance gone a v then v.current else held a)
      ≡ (if is_some (lookup a gone) then held a else v.current)
settle_balance gone held a v known = elim (Bool-cases (is_some (lookup a gone))) [
  | inl t ↦ rw t refl
  | inr f ↦ elim (Bool-cases (is_modified v.original v.current)) [
    | inl t ↦ rw (f, t) refl
    | inr same ↦ rw (f, same) (known v.current (is_modified-same v.original v.current same))
  ]
]

after-balances :
    (m : Map ℕ BalanceValue) (gone : Map ℕ Bool) (held : ℕ → ℕ)
    → IsDistinct m
    → ((a : ℕ) (v : BalanceValue) (x : ℕ) → lookup a m ≡ some v → v.original ≡ some x → held a ≡ x)
    → (a : ℕ)
    → after (λ b. b.account) (λ b. b.balance) (sent_balances gone m) held a
      ≡ balance_to_hold m gone held a
after-balances m gone held distinct known a = elim (Option-cases (lookup a m)) [
  | inl absent ↦
      after-absent (λ b. b.account) (λ b. b.balance) (keep_balance gone) make_balance (λ a v. refl)
        m held a absent
      ∙ elim (Bool-cases (is_some (lookup a gone))) [
        | inl t ↦ rw t refl
        | inr f ↦ rw (f, absent) refl
      ]
  | inr (v, found) ↦
      after-present (λ b. b.account) (λ b. b.balance) (keep_balance gone) make_balance (λ a v. refl)
        m held a v distinct found
      ∙ settle_balance gone held a v (λ x. known a v x found)
      ∙ rw found refl
]

-- The balance updates that the loop appends make of the balances that the state holds what it is to
-- hold, and each of them is for an account that is not gone and whose balance is not known to be
-- the same.
abbrev pub BalancesSent : Map ℕ BalanceValue → Map ℕ Bool → Update → (ℕ → ℕ) → Type 0
BalancesSent m gone u held =
    (us : List BalanceUpdate) × (update_balances m gone u
      ≡ record u { balances = u.balances ++ us })
    × ((a : ℕ) → after (λ b. b.account) (λ b. b.balance) us held a ≡ balance_to_hold m gone held a)
    × ((a : ℕ)
        → mentions (λ b. b.account) a us ≡ true
        → (v : BalanceValue) × (lookup a m ≡ some v)
          × (lookup a gone ≡ none)
          × (v.original ≢ some v.current))

-- For a map of balances with distinct keys and a state that holds each original balance that is
-- known: the balance updates that the loop of EndBlock appends, applied in their order to what the
-- state holds, give each account of the map that is not gone its current balance and leave every
-- other account; and each of them is for an account of the map that is not gone, and whose
-- original balance is unknown or differs from the current one.
pub update_balances_lem :
    (m : Map ℕ BalanceValue) (gone : Map ℕ Bool) (u : Update) (held : ℕ → ℕ)
    → IsDistinct m
    → ((a : ℕ) (v : BalanceValue) (x : ℕ) → lookup a m ≡ some v → v.original ≡ some x → held a ≡ x)
    → BalancesSent m gone u held
update_balances_lem m gone u held distinct known = (
  sent_balances gone m,
  update_balances-sent m gone u,
  after-balances m gone held distinct known,
  λ a h.
      let (v, found, kept) =
        mentions-kept (λ b. b.account) (λ b. b.balance) (keep_balance gone) make_balance
          (λ a v. refl) m a distinct h in
      let (stays, modified) =
        both (is_some (lookup a gone)) (is_modified v.original v.current) kept in
      (v, found, missing (lookup a gone) stays, is_modified-differs v.original v.current modified),
)
