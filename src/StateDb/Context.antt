-- ===== src/StateDb/Context.antt =====
-- Refunds, logs and access lists: the transaction context of go/state/state_db.go.
use carmen.Prelude.{
  ℕ, ◌+◌, ◌-◌, ◌%◌, ◌^◌, List, [], ◌∷◌, ◌++◌, Bool, true, false, if◌then◌else◌, is_some,
  comparable_nat, comparable_pair, ltb, length,
}
use carmen.Prelude.Map.{lookup, insert}
use carmen.StateDb.Types.{
  SlotId, Log, refund_underflow, Undo, StateDb, M, ◌>>=◌, ◌>>◌, return, get, modify, skip, fail,
}

unfoldable pub uint64_mod : ℕ
uint64_mod = 2 ^ 64

unfoldable pub write_refund : ℕ → StateDb → StateDb
write_refund refund s = record s { refund = refund; undo = Undo.refund_value s.refund ∷ s.undo }

unfoldable pub add_refund : ℕ → M (Unit {0})
unfolding write_refund uint64_mod
add_refund amount = do s ← get; modify (write_refund ((s.refund + amount) % uint64_mod))

unfoldable pub sub_refund : ℕ → M (Unit {0})
unfolding write_refund
sub_refund amount = do
  s ← get
  if ltb s.refund amount then fail refund_underflow else modify (write_refund (s.refund - amount))

unfoldable pub get_refund : M ℕ
get_refund = do s ← get; return s.refund

-- The log is a copy, where the source keeps the caller's pointer and writes the index through it.
unfoldable pub append_log : Log → StateDb → StateDb
append_log log s = record s {
  logs = s.logs ++ (record log { index = s.logs_in_block }) ∷ [];
  logs_in_block = s.logs_in_block + 1;
  undo = Undo.logs_size (length s.logs) ∷ s.undo;
}

unfoldable pub add_log : Log → M (Unit {0})
unfolding append_log
add_log log = modify (append_log log)

unfoldable pub get_logs : M (List Log)
get_logs = do s ← get; return s.logs

unfoldable pub clear_access_list : M (Unit {0})
clear_access_list = modify λ s. record s { accessed_addresses = []; accessed_slots = [] }

unfoldable pub write_accessed_address : ℕ → StateDb → StateDb
write_accessed_address a s = record s {
  accessed_addresses = insert a true s.accessed_addresses;
  undo = Undo.accessed_address a ∷ s.undo;
}

unfoldable pub write_accessed_slot : SlotId → StateDb → StateDb
write_accessed_slot sid s = record s {
  accessed_slots = insert sid true s.accessed_slots;
  undo = Undo.accessed_slot sid ∷ s.undo;
}

unfoldable pub add_address_to_access_list : ℕ → M (Unit {0})
unfolding write_accessed_address
add_address_to_access_list a = do
  s ← get
  if is_some (lookup a s.accessed_addresses) then skip else modify (write_accessed_address a)

unfoldable pub add_slot_to_access_list : ℕ → ℕ → M (Unit {0})
unfolding write_accessed_slot
add_slot_to_access_list a key = do
  add_address_to_access_list a
  s ← get
  if is_some (lookup (a, key) s.accessed_slots) then skip else modify (write_accessed_slot (a, key))

unfoldable pub is_address_in_access_list : ℕ → M Bool
is_address_in_access_list a = do s ← get; return (is_some (lookup a s.accessed_addresses))

unfoldable pub is_slot_in_access_list : ℕ → ℕ → M (Bool × Bool)
is_slot_in_access_list a key = do
  s ← get
  if is_some (lookup (a, key) s.accessed_slots)
      then return (true, true)
      else (do present ← is_address_in_access_list a; return (present, false))
