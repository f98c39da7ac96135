-- ===== src/StateDb/Effects/Total.antt =====
-- Methods of go/state/state_db.go that always return, and what holds after them.
use carmen.Prelude.{
  ℕ, ◌≡◌, Option, none, some, Bool, true, false, if◌then◌else◌, comparable_nat, comparable_pair,
  arith, is_some,
}
use carmen.StateDb.Types.{Bytes, StateDb, M, ◌>>=◌, ◌>>◌, LifeCycle}
use carmen.StateDb.Revert.Observe.{result}
use carmen.StateDb.Accounts.{set_account_state, exist, reset_balance, set_nonce_internal}
use carmen.StateDb.Code.{set_code_internal}

-- Methods that always return.
abbrev pub Total : {A : Type 0} → M A → Type 0
Total m = (s : StateDb) → is_some (m s) ≡ true

is_some-bind :
    {A B : Type 0} (o : Option (A × StateDb)) (f : A → M B)
    → is_some o ≡ true
    → ((a : A) → Total (f a))
    → is_some (elim o [ none ↦ none | some (a, t) ↦ f a t ]) ≡ true
is_some-bind none f e k = e
is_some-bind (some (a, t)) f e k = k a t

pub Total-bind :
    {A B : Type 0} (m : M A) (f : A → M B) → Total m → ((a : A) → Total (f a)) → Total (m >>= f)
Total-bind m f h k s = is_some-bind (m s) f (h s) k

pub Total-if : {A : Type 0} (b : Bool) (m n : M A) → Total m → Total n → Total (if b then m else n)
Total-if true m n h k = h
Total-if false m n h k = k

pub set_account_state-Total : (a : ℕ) (state : LifeCycle) → Total (set_account_state a state)
unfolding set_account_state exist
set_account_state-Total a state s = grind arith

pub reset_balance-Total : (a : ℕ) → Total (reset_balance a)
unfolding reset_balance
reset_balance-Total a s = grind arith

pub set_nonce_internal-Total : (a nonce : ℕ) → Total (set_nonce_internal a nonce)
unfolding set_nonce_internal
set_nonce_internal-Total a nonce s = grind arith

pub set_code_internal-Total : (a : ℕ) (code : Bytes) → Total (set_code_internal a code)
unfolding set_code_internal
set_code_internal-Total a code s = grind arith

-- After the method the read returns the value.
abbrev pub Leads : {A B : Type 0} → M A → M B → B → Type 0
Leads m read b = (s : StateDb) → result ((m >> read) s) ≡ some b

module _ {B : Type 0} (read : M B) (b : B) where
  Leads-step :
      {A C : Type 0} (o : Option (A × StateDb)) (f : A → M C)
      → is_some o ≡ true
      → ((a : A) → Leads (f a) read b)
      → result
          (elim (elim o as (λ x. Option (C × StateDb)) [ none ↦ none | some (a, t) ↦ f a t ])
            as (λ x. Option (B × StateDb)) [ none ↦ none | some (c, t) ↦ read t ])
        ≡ some b
  Leads-step none f e k = cc
  Leads-step (some (a, t)) f e k = k a t

  pub Leads-bind :
      {A C : Type 0} (m : M A) (f : A → M C)
      → Total m
      → ((a : A) → Leads (f a) read b)
      → Leads (m >>= f) read b
  Leads-bind m f h k s = Leads-step (m s) f (h s) k
