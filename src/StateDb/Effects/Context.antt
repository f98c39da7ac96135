-- ===== src/StateDb/Effects/Context.antt =====
-- Refunds, logs and access lists of go/state/state_db.go.
use carmen.Prelude.{ℕ, ◌<◌, ◌≡◌, some, [], ◌∷◌, ◌++◌, true, comparable_nat, comparable_pair, arith}
use carmen.Prelude.Map.{lookup-insert_same}
use carmen.StateDb.Types.{Log, StateDb, ◌>>◌, refund_underflow}
use carmen.StateDb.Revert.Observe.{result}
use carmen.StateDb.Context.{
  sub_refund, add_log, append_log, get_logs, add_address_to_access_list, add_slot_to_access_list,
  is_address_in_access_list, is_slot_in_access_list,
}

pub sub_refund-underflow :
    (x : ℕ) (s : StateDb)
    → s.refund < x
    → sub_refund x s ≡ some (tt, record s { errors = s.errors ++ refund_underflow ∷ [] })
unfolding sub_refund
sub_refund-underflow x s h = ground arith

-- A slot that is added to the access list is on it, and so is its address.
pub is_slot_in_access_list-add_slot :
    (a key : ℕ) (s : StateDb)
    → (result ((add_slot_to_access_list a key >> is_slot_in_access_list a key) s)
        ≡ some (true, true))
      × (result ((add_slot_to_access_list a key >> is_address_in_access_list a) s) ≡ some true)
unfolding add_slot_to_access_list add_address_to_access_list is_slot_in_access_list
    is_address_in_access_list
is_slot_in_access_list-add_slot a key s =
    (grind (arith, lookup-insert_same), grind (arith, lookup-insert_same))

pub get_logs-add_log :
    (log : Log) (s : StateDb)
    → result ((add_log log >> get_logs) s)
      ≡ some (s.logs ++ record log { index = s.logs_in_block } ∷ [])
unfolding add_log append_log get_logs
get_logs-add_log log s = ground arith
