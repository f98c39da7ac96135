-- ===== src/StateDb/Revert/SlotUndoes.antt =====
-- The closures of go/state/state_db.go that undo writes of slots, codes and clearing states.
use carmen.Prelude.{
  ℕ, ◌≡◌, refl, ap, inl, inr, Option, none, some, true, false, if◌then◌else◌, comparable_nat,
  comparable_pair, arith, Bool-cases,
}
use carmen.StateDb.Types.{SlotId, SlotValue, Undo, StateDb}
use carmen.StateDb.Undo.{apply_undo, revert_new_slot}
use carmen.StateDb.Storage.{write_known_slot, write_unknown_slot, write_cleared_slot, cleared_slot}
use carmen.Prelude.Map.{lookup, insert, delete}
use carmen.StateDb.Revert.View.{bind, slot_origin}
use carmen.StateDb.Revert.Caches.{
  Ext-restore, Ext-delete, Ext-present, Ext-keep, Ext-loaded, Ext-reload, restore_lem,
}
use carmen.StateDb.Revert.Journal.{Undoes}

abbrev pub current_shown : SlotValue → Option ℕ
current_shown v = some v.current

abbrev pub committed_shown : SlotValue → Option ℕ
committed_shown v = if v.committed_known then some v.committed else none

pub write_cleared_slot-Undoes :
    (sid : SlotId) (backup : SlotValue) (s : StateDb)
    → lookup sid s.slots ≡ some backup
    → Undoes (Undo.slot_backup sid backup) s (write_cleared_slot sid backup s)
unfolding write_cleared_slot apply_undo
write_cleared_slot-Undoes sid backup s found t h c =
    let back : (SlotValue → SlotValue) = λ w. backup in
    let (w, present) =
      Ext-present current_shown (slot_origin s) sid cleared_slot s.slots t.slots h.current refl in
    (
      record t { slots = insert sid backup t.slots },
      ap (λ m. some (record t { slots = m })) (restore_lem sid back t.slots w present),
      assumption (
        Ext-restore current_shown (slot_origin s) sid cleared_slot s.slots t.slots h.current backup
            (rw found),
        Ext-restore committed_shown (slot_origin s) sid cleared_slot s.slots t.slots h.committed
            backup (rw found),
      ),
      assumption,
    )

pub write_known_slot-Undoes :
    (sid : SlotId) (v : SlotValue) (value : ℕ) (s : StateDb)
    → lookup sid s.slots ≡ some v
    → Undoes (Undo.slot_current sid v.current) s (write_known_slot sid v value s)
unfolding write_known_slot apply_undo
write_known_slot-Undoes sid v value s found t h c =
    let new : SlotValue = record v { current = value } in
    let back : (SlotValue → SlotValue) = λ w. record w { current = v.current } in
    let (w, present) =
      Ext-present current_shown (slot_origin s) sid new s.slots t.slots h.current refl in
    (
      record t { slots = insert sid (back w) t.slots },
      ap (λ m. some (record t { slots = m })) (restore_lem sid back t.slots w present),
      assumption (
        Ext-restore current_shown (slot_origin s) sid new s.slots t.slots h.current (back w)
            (rw found),
        Ext-keep committed_shown (slot_origin s) sid new s.slots t.slots h.committed (back w)
            (rw found) (rw present),
      ),
      assumption,
    )

module _ (sid : SlotId) (w : SlotValue) (t : StateDb) (present : lookup sid t.slots ≡ some w) where
  revert_known :
      w.committed_known ≡ true
      → revert_new_slot sid t
        ≡ some (record t {
          slots = insert sid (record w { current = w.committed }) t.slots;
          written_slots = delete sid t.written_slots;
        })
  unfolding revert_new_slot
  revert_known known = rw (present, revert_new_slot) (ground arith)

  revert_unknown :
      w.committed_known ≡ false
      → revert_new_slot sid t
        ≡ some (record t { slots = delete sid t.slots; written_slots = delete sid t.written_slots })
  unfolding revert_new_slot
  revert_unknown unknown = rw (present, revert_new_slot) (ground arith)

-- A slot that had no entry looks loaded afterwards, or has no entry again.
pub write_unknown_slot-Undoes :
    (sid : SlotId) (value : ℕ) (s : StateDb)
    → lookup sid s.slots ≡ none
    → Undoes (Undo.slot_new sid) s (write_unknown_slot sid value s)
unfolding write_unknown_slot apply_undo
write_unknown_slot-Undoes sid value s missing t h c =
    let new : SlotValue = record {
      stored = 0;
      committed = 0;
      current = value;
      stored_known = false;
      committed_known = false;
    } in
    let (w, present) =
      Ext-present current_shown (slot_origin s) sid new s.slots t.slots h.current refl in
    elim (Bool-cases w.committed_known) [
      | inl known ↦
          let back : SlotValue = record w { current = w.committed } in
          let shown : bind (lookup sid t.slots) committed_shown ≡ some w.committed =
            rw present (rw known) in
          (
            record t {
              slots = insert sid back t.slots;
              written_slots = delete sid t.written_slots;
            },
            revert_known sid w t present known,
            assumption (
              Ext-reload current_shown (slot_origin s) sid new s.slots t.slots h.current back
                  (rw missing)
                  (Ext-loaded committed_shown (slot_origin s) sid new s.slots t.slots h.committed
                    w.committed refl shown),
              Ext-keep committed_shown (slot_origin s) sid new s.slots t.slots h.committed back
                  (rw missing) (rw present),
            ),
            assumption,
          )
      | inr unknown ↦ (
        record t { slots = delete sid t.slots; written_slots = delete sid t.written_slots },
        revert_unknown sid w t present unknown,
        assumption (
          Ext-delete current_shown (slot_origin s) sid new s.slots t.slots h.current (rw missing),
          Ext-delete committed_shown (slot_origin s) sid new s.slots t.slots h.committed
              (rw missing),
        ),
        assumption,
      )
    ]
