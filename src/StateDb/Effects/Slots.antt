-- ===== src/StateDb/Effects/Slots.antt =====
-- SetState and SetTransientState of go/state/state_db.go.
use carmen.Prelude.{
  get_or, ℕ, ◌≡◌, sym, ap, subst, ◌∙◌, inl, inr, Option, none, some, Bool, true, false,
  if◌then◌else◌, Bool-cases, comparable_nat, comparable_pair, arith, ◌==◌, is_some,
}
use carmen.Prelude.Map.{lookup, lookup-insert, lookup-insert_same}
use carmen.StateDb.Types.{SlotId, SlotValue, StateDb, M, ◌>>◌, modify, skip}
use carmen.StateDb.Revert.View.{IsCoherent, bind, slot_origin}
use carmen.StateDb.Revert.Observe.{result, or_load}
use carmen.StateDb.Revert.Observe.{get_state-result, get_committed_state-result}
use carmen.StateDb.Revert.Keeps.{After}
use carmen.StateDb.Revert.StorageKeeps.{set_state-Keeps}
use carmen.StateDb.Revert.Calls.{Tracks-self}
use carmen.StateDb.Effects.Still.{StillAt, Still, Still-bind}
use carmen.StateDb.Accounts.{
  exist, create_account_if_not_exists, set_account_state, reset_balance, touch,
}
use carmen.StateDb.Storage.{
  set_state, get_state, get_committed_state, write_slot, taint, get_transient_state,
  set_transient_state,
}

-- GetState after SetState of the same slot returns the value, without a panic.
pub get_state-set_state :
    (a key value : ℕ) (s : StateDb)
    → result ((set_state a key value >> get_state a key) s) ≡ some value
unfolding set_state create_account_if_not_exists exist set_account_state reset_balance write_slot
    taint get_state
get_state-set_state a key value s = grind (arith, lookup-insert_same)

abbrev pub is_slot : SlotId → SlotId → Bool
is_slot x y = x == y

-- A write to transient storage changes the value of its slot only.
pub get_transient_state-set_transient_state :
    (a b key key' value : ℕ) (s : StateDb)
    → result ((set_transient_state a key value >> get_transient_state b key') s)
      ≡ (if is_slot (a, key) (b, key') then some value else result (get_transient_state b key' s))
unfolding set_transient_state get_transient_state
get_transient_state-set_transient_state a b key key' value s = grind (arith, lookup-insert)

module _ {B : Type 0} (f : StateDb → B) (read : M ℕ) (value : B → ℕ)
    (law : (t : StateDb) → IsCoherent t → result (read t) ≡ some (value (f t))) where
  same_read :
      (s : StateDb) (c : IsCoherent s) (o : Option (Unit {0} × StateDb))
      → After s o
      → StillAt f s o
      → is_some o ≡ true
      → result (elim o [ none ↦ none | some r ↦ read r.1 ]) ≡ result (read s)
  same_read s c none k e i = cc
  same_read s c (some (a, t)) k e i = law t k.coherent ∙ ap (λ x. some (value x)) e ∙ sym (law s c)

-- What SetState does to the entry of a slot but its own.
module _ (view : Option SlotValue → Option ℕ) (sid : SlotId) where
  abbrev slot_reads : StateDb → Option ℕ × Option ℕ
  slot_reads s = (view (lookup sid s.slots), slot_origin s sid)

  create-Still : (a : ℕ) → Still slot_reads (create_account_if_not_exists a)
  unfolding create_account_if_not_exists exist set_account_state reset_balance
  create-Still a s = grind arith

  taint-Still : (a : ℕ) → Still slot_reads (taint a)
  unfolding taint
  taint-Still a s = grind (arith, lookup-insert)

  set_state-Still :
      (a key value : ℕ)
      → Still slot_reads (write_slot (a, key) value)
      → Still slot_reads (set_state a key value)
  unfolding set_state
  set_state-Still a key value h =
      Still-bind slot_reads (create_account_if_not_exists a) _ (create-Still a) λ created.
        Still-bind slot_reads (if created then modify (touch a) else skip) _ (λ s. ground arith)
          λ _. Still-bind slot_reads (write_slot (a, key) value) _ h λ _. taint-Still a

known : Option SlotValue → Option ℕ
known o = bind o (λ v. if v.committed_known then some v.committed else none)

abbrev current : Option SlotValue → Option ℕ
current o = bind o (λ v. some v.current)

write-current :
    (sid sid' : SlotId) (value : ℕ)
    → is_slot sid sid' ≡ false
    → Still (slot_reads current sid') (write_slot sid value)
unfolding write_slot
write-current sid sid' value n s = grind (arith, lookup-insert)

write-committed_same :
    (sid : SlotId) (value : ℕ) → Still (slot_reads known sid) (write_slot sid value)
unfolding write_slot known
write-committed_same sid value s = grind (arith, lookup-insert_same)

write-committed_other :
    (sid sid' : SlotId) (value : ℕ)
    → is_slot sid sid' ≡ false
    → Still (slot_reads known sid') (write_slot sid value)
unfolding write_slot known
write-committed_other sid sid' value n s = grind (arith, lookup-insert)

write-committed :
    (sid sid' : SlotId) (value : ℕ) → Still (slot_reads known sid') (write_slot sid value)
write-committed sid sid' value = elim (Bool-cases (is_slot sid sid')) [
  | inl same ↦
      subst (λ x. Still (slot_reads known x) (write_slot sid value))
        ((comparable_pair.equal_iff sid sid').0 same) (write-committed_same sid value)
  | inr other ↦ write-committed_other sid sid' value other
]

set_state-returns : (a key value : ℕ) (s : StateDb) → is_some (set_state a key value s) ≡ true
unfolding set_state create_account_if_not_exists exist set_account_state reset_balance write_slot
    taint
set_state-returns a key value s = grind (arith, lookup-insert_same)

abbrev read_slot : Option ℕ × Option ℕ → ℕ
read_slot (view, origin) = get_or (or_load view origin) 0

-- In a state with coherent caches, SetState of a slot leaves GetState of every other slot alone,
-- also those still to be loaded.
pub get_state-set_state_other :
    (a b key key' value : ℕ) (s : StateDb)
    → IsCoherent s
    → is_slot (a, key) (b, key') ≡ false
    → result ((set_state a key value >> get_state b key') s) ≡ result (get_state b key' s)
get_state-set_state_other a b key key' value s c n =
    same_read (slot_reads current (b, key')) (get_state b key') read_slot (get_state-result b key')
      s c (set_state a key value s) (set_state-Keeps a key value s (Tracks-self s c))
      (set_state-Still current (b, key') a key value (write-current (a, key) (b, key') value n) s)
      (set_state-returns a key value s)

-- In a state with coherent caches, SetState changes no committed value, not that of its own slot
-- either.
pub get_committed_state-set_state :
    (a b key key' value : ℕ) (s : StateDb)
    → IsCoherent s
    → result ((set_state a key value >> get_committed_state b key') s)
      ≡ result (get_committed_state b key' s)
unfolding known
get_committed_state-set_state a b key key' value s c =
    same_read (slot_reads known (b, key')) (get_committed_state b key') read_slot
      (get_committed_state-result b key') s c (set_state a key value s)
      (set_state-Keeps a key value s (Tracks-self s c))
      (set_state-Still known (b, key') a key value (write-committed (a, key) (b, key') value) s)
      (set_state-returns a key value s)
