-- ===== src/Update.antt =====
-- go/common/update.go: the changes of a block, their order, their application and their encoding.
-- An address, a key, a hash, a value, a nonce and a balance is the number that its bytes spell.
pub mod Sort
pub mod Codec
use carmen.Prelude.{ℕ, List, [], ◌∷◌, ◌++◌, Bool, true, false, ◌&&◌, Option, none, some, ◌>>=◌}

pub record BalanceUpdate : Type 0 where
  pub account : ℕ
  pub balance : ℕ

pub record NonceUpdate : Type 0 where
  pub account : ℕ
  pub nonce : ℕ

pub record CodeUpdate : Type 0 where
  pub account : ℕ
  pub code : List ℕ

pub record SlotUpdate : Type 0 where
  pub account : ℕ
  pub key : ℕ
  pub value : ℕ

pub record Update : Type 0 where
  pub deleted_accounts : List ℕ
  pub created_accounts : List ℕ
  pub balances : List BalanceUpdate
  pub nonces : List NonceUpdate
  pub codes : List CodeUpdate
  pub slots : List SlotUpdate

abbrev pub no_changes : Update
no_changes = record {
  deleted_accounts = [];
  created_accounts = [];
  balances = [];
  nonces = [];
  codes = [];
  slots = [];
}

abbrev pub is_nil {ℓ} : {A : Type ℓ} → List A → Bool
is_nil [] = true
is_nil (x ∷ xs) = false

unfoldable pub is_empty : Update → Bool
is_empty u =
    is_nil u.deleted_accounts
    && (is_nil u.created_accounts
        && (is_nil u.balances && (is_nil u.nonces && (is_nil u.codes && is_nil u.slots))))

unfoldable pub append_delete_accounts : List ℕ → Update → Update
append_delete_accounts as' u = record u { deleted_accounts = u.deleted_accounts ++ as' }

unfoldable pub append_delete_account : ℕ → Update → Update
unfolding append_delete_accounts
append_delete_account a = append_delete_accounts (a ∷ [])

unfoldable pub append_create_accounts : List ℕ → Update → Update
append_create_accounts as' u = record u { created_accounts = u.created_accounts ++ as' }

unfoldable pub append_create_account : ℕ → Update → Update
unfolding append_create_accounts
append_create_account a = append_create_accounts (a ∷ [])

unfoldable pub append_balance_update : ℕ → ℕ → Update → Update
append_balance_update a b u = record u {
  balances = u.balances ++ record { account = a; balance = b } ∷ [];
}

unfoldable pub append_nonce_update : ℕ → ℕ → Update → Update
append_nonce_update a n u = record u { nonces = u.nonces ++ record { account = a; nonce = n } ∷ [] }

unfoldable pub append_code_update : ℕ → List ℕ → Update → Update
append_code_update a c u = record u { codes = u.codes ++ record { account = a; code = c } ∷ [] }

unfoldable pub append_slot_update : ℕ → ℕ → ℕ → Update → Update
append_slot_update a k v u = record u {
  slots = u.slots ++ record { account = a; key = k; value = v } ∷ [];
}

-- The interface of what an update is applied to; `none` is a returned error.
pub record UpdateTarget {ℓ} (S : Type ℓ) : Type ℓ where
  pub create_account : ℕ → S → Option S
  pub delete_account : ℕ → S → Option S
  pub set_balance : ℕ → ℕ → S → Option S
  pub set_nonce : ℕ → ℕ → S → Option S
  pub set_storage : ℕ → ℕ → ℕ → S → Option S
  pub set_code : ℕ → List ℕ → S → Option S

module _ {ℓ} {S : Type ℓ} where
  -- A loop that returns the first error.
  unfoldable pub for_each {κ} : {A : Type κ} → (A → S → Option S) → List A → S → Option S
  for_each f [] s = some s
  for_each f (x ∷ xs) s = f x s >>= for_each f xs

  unfoldable pub apply_to : UpdateTarget S → Update → S → Option S
  unfolding for_each
  apply_to t u s =
      for_each t.delete_account u.deleted_accounts s
      >>= for_each t.create_account u.created_accounts
      >>= for_each (λ (b : BalanceUpdate). t.set_balance b.account b.balance) u.balances
      >>= for_each (λ (n : NonceUpdate). t.set_nonce n.account n.nonce) u.nonces
      >>= for_each (λ (c : CodeUpdate). t.set_code c.account c.code) u.codes
      >>= for_each (λ (x : SlotUpdate). t.set_storage x.account x.key x.value) u.slots
