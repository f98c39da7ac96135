-- ===== src/StateDb/Revert/Observe.antt =====
-- What the read methods of go/state/state_db.go return, whether or not the value is cached.
use carmen.Prelude.{
  get_or, ℕ, ◌≡◌, refl, sym, ap, ◌∙◌, inl, inr, Option, none, some, [], Bool, true, false,
  if◌then◌else◌, comparable_nat, comparable_pair, arith,
}
use carmen.Prelude.Map.{lookup}
use carmen.StateDb.Types.{
  SlotId, SlotValue, is_cleared, clearing, StateDb, M, ◌>>=◌, return, LifeCycle,
}
use carmen.StateDb.Accounts.{exist, is_present, get_balance, get_nonce}
use carmen.StateDb.Storage.{
  get_state, get_committed_state, load_stored_state, known_committed, read_stored,
}
use carmen.StateDb.Code.{get_code, get_code_size, get_code_hash}
use carmen.StateDb.Revert.View.{
  IsCoherent, Ext, bind, account_view, account_origin, balance_view, nonce_view, current_view,
  committed_view, slot_origin, code_view, size_view, hash_view,
}
use carmen.StateDb.Revert.StorageTracks.{read_stored-reads}
use carmen.StateDb.Revert.Calls.{Tracks-self}

abbrev pub result : {A : Type 0} → Option (A × StateDb) → Option A
result none = none
result (some (a, s)) = some a

abbrev pub or_load {ℓ} : {A : Type ℓ} → Option A → Option A → Option A
or_load none d = d
or_load (some a) d = some a

pub Ext-or_load {ℓ} : {A : Type ℓ} {d x y : Option A} → Ext d x y → or_load x d ≡ or_load y d
Ext-or_load {d} (inl p) = ap (λ z. or_load z d) p
Ext-or_load {d = none} (inr (p, q)) = rw (p, q)
Ext-or_load {d = some a} (inr (p, q)) = rw (p, q)

pub is_present_or : Option LifeCycle → Bool
is_present_or none = false
is_present_or (some c) = is_present c

pub exist-result :
    (a : ℕ) (s : StateDb)
    → result (exist a s) ≡ some (is_present_or (or_load (account_view s a) (account_origin s a)))
unfolding exist is_present_or
exist-result a s = ground arith

pub get_balance-result :
    (a : ℕ) (s : StateDb)
    → result (get_balance a s) ≡ some (get_or (or_load (balance_view s a) (s.state.balance a)) 0)
unfolding get_balance
get_balance-result a s = ground arith

pub get_nonce-result :
    (a : ℕ) (s : StateDb)
    → result (get_nonce a s) ≡ some (get_or (or_load (nonce_view s a) (s.state.nonce a)) 0)
unfolding get_nonce
get_nonce-result a s = ground arith

pub get_code-result :
    (a : ℕ) (s : StateDb)
    → result (get_code a s) ≡ some (get_or (or_load (code_view s a) (s.state.code a)) [])
unfolding get_code
get_code-result a s = ground arith

pub get_code_size-result :
    (a : ℕ) (s : StateDb)
    → result (get_code_size a s) ≡ some (get_or (or_load (size_view s a) (s.state.code_size a)) 0)
unfolding get_code_size
get_code_size-result a s = ground arith

result-bind :
    {A B : Type 0} (m : M A) (f : A → M B) (s : StateDb) {a : A} {t : StateDb}
    → m s ≡ some (a, t)
    → result ((m >>= f) s) ≡ result (f a t)
result-bind m f s e = ap (λ o. result (elim o [ none ↦ none | some (a, s') ↦ f a s' ])) e

result-if :
    {A : Type 0} (b : Bool) (m n : M A) (s : StateDb) (r : Option A)
    → (b ≡ true → result (m s) ≡ r)
    → (b ≡ false → result (n s) ≡ r)
    → result ((if b then m else n) s) ≡ r
result-if true m n s r h k = h refl
result-if false m n s r h k = k refl

result-option :
    {A B : Type 0} (o : Option B) (m : M A) (f : B → M A) (s : StateDb) (r : Option A)
    → (o ≡ none → result (m s) ≡ r)
    → ((b : B) → o ≡ some b → result (f b s) ≡ r)
    → result ((elim o as (λ x. M A) [ none ↦ m | some b ↦ f b ]) s) ≡ r
result-option none m f s r h k = h refl
result-option (some b) m f s r h k = k b refl

-- A slot that has to be loaded reads as what the state holds, or as zero for a cleared account.
load-result :
    (sid : SlotId) (val : Option SlotValue) (s : StateDb)
    → IsCoherent s
    → result (load_stored_state sid val s) ≡ some (get_or (slot_origin s sid) 0)
unfolding load_stored_state
load-result sid val s c =
    let (o, cache, errors, e, k', fact, no_fact) = read_stored-reads sid s (Tracks-self s c) in
    result-if (is_cleared (clearing s sid.0)) (return 0) _ s _ (λ hidden. rw hidden)
      λ open'.
        result-bind (read_stored sid) _ s e
        ∙ result-option o (return 0) _ (record s { stored_data_cache = cache; errors = errors }) _
            (λ n. rw (open', no_fact n)) (λ c' got. rw (open', fact c' got))

pub get_state-result :
    (a key : ℕ) (s : StateDb)
    → IsCoherent s
    → result (get_state a key s)
      ≡ some (get_or (or_load (current_view s (a, key)) (slot_origin s (a, key))) 0)
unfolding get_state
get_state-result a key s c =
    result-option (lookup (a, key) s.slots) (load_stored_state (a, key) none) _ s _
      (λ missing. load-result (a, key) none s c ∙ rw missing) (λ v found. rw found)

known_committed_lem :
    (o : Option SlotValue)
    → known_committed o ≡ bind o (λ v. if v.committed_known then some v.committed else none)
known_committed_lem none = refl
known_committed_lem (some v) = refl

pub get_committed_state-result :
    (a key : ℕ) (s : StateDb)
    → IsCoherent s
    → result (get_committed_state a key s)
      ≡ some (get_or (or_load (committed_view s (a, key)) (slot_origin s (a, key))) 0)
unfolding get_committed_state
get_committed_state-result a key s c =
    let val = lookup (a, key) s.slots in
    let seen : committed_view s (a, key) ≡ known_committed val = sym (known_committed_lem val) in
    result-option (known_committed val) (load_stored_state (a, key) val) _ s _
      (λ unknown. load-result (a, key) val s c ∙ rw (seen, unknown)) (λ x known. rw (seen, known))

pub get_code_hash-result :
    (a : ℕ) (s : StateDb)
    → result (get_code_hash a s)
      ≡ some (
          if is_present_or (or_load (account_view s a) (account_origin s a))
          then get_or (or_load (hash_view s a) (s.state.code_hash a)) 0
          else 0)
unfolding get_code_hash exist is_present_or
get_code_hash-result a s = ground arith
