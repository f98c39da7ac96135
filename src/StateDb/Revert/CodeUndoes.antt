-- ===== src/StateDb/Revert/CodeUndoes.antt =====
-- The closures of go/state/state_db.go that undo writes of codes and of clearing states.
use carmen.Prelude.{
  ℕ, ◌≡◌, refl, sym, ap, ◌∙◌, ◌⊎◌, inl, inr, Option, none, some, true, false, ◌==◌, if◌then◌else◌,
  comparable_nat, comparable_pair, arith, Bool-cases,
}
use carmen.StateDb.Types.{
  SlotId, CodeValue, Undo, StateDb, State, ClearingState, no_clearing, is_cleared, clearing, Bytes,
}
use carmen.StateDb.Undo.{apply_undo}
use carmen.StateDb.Storage.{write_clearing}
use carmen.StateDb.Code.{with_code, empty_code_value, local_hash, write_new_code, write_known_code}
use carmen.Prelude.Map.{Map, lookup, insert, delete, lookup-insert, lookup-delete}
use carmen.StateDb.Revert.View.{Ext, bind, slot_origin, current_view, committed_view}
use carmen.StateDb.Revert.Undoes.{put_back}
use carmen.StateDb.Revert.Caches.{Ext-restore, Ext-delete, Ext-present, restore_present_lem}
use carmen.StateDb.Revert.Journal.{Undoes}

-- Clearing states.
Ext-narrow {ℓ} : {A : Type ℓ} {d x y : Option A} → Ext none x y → Ext d x y
Ext-narrow (inl p) = inl p
Ext-narrow (inr (p, q)) = inl (p ∙ sym q)

abbrev pub Cleared : ClearingState → ClearingState → Type 0
Cleared old new = (is_cleared new ≡ true) ⊎ (is_cleared old ≡ is_cleared new)

origin_cases :
    (a : ℕ) (new : ClearingState) (s : StateDb) (sid : SlotId)
    → Cleared (clearing s a) new
    → (slot_origin (write_clearing a new s) sid ≡ none)
      ⊎ (slot_origin (write_clearing a new s) sid ≡ slot_origin s sid)
unfolding write_clearing
origin_cases a new s sid h = elim (Bool-cases (a == sid.0)) [
  | inl same ↦
      let now : slot_origin (write_clearing a new s) sid
          ≡ (if is_cleared new then none else s.state.storage sid) =
        rw (lookup-insert a sid.0 new s.cleared_accounts, same) in
      elim h [
        | inl hidden ↦ inl (now ∙ rw hidden)
        | inr kept ↦
            let old : is_cleared (clearing s sid.0) ≡ is_cleared new =
              ap (λ b. is_cleared (clearing s b)) (sym ((comparable_nat.equal_iff a sid.0).0 same))
              ∙ kept in
            inr (now ∙ ap (λ b. if b then none else s.state.storage sid) (sym old))
      ]
  | inr other ↦ inr (rw (lookup-insert a sid.0 new s.cleared_accounts, other))
]

Ext-unclear {ℓ} :
    {A : Type ℓ} {d d' x y : Option A} → (d' ≡ none) ⊎ (d' ≡ d) → Ext d' x y → Ext d x y
Ext-unclear (inl p) k = Ext-narrow (rw p at k)
Ext-unclear (inr p) k = rw p at k

pub write_clearing-Undoes :
    (a : ℕ) (new : ClearingState) (s : StateDb)
    → Cleared (clearing s a) new
    → Undoes (Undo.clearing_state a (clearing s a)) s (write_clearing a new s)
unfolding write_clearing apply_undo
write_clearing-Undoes a new s kind t h c =
    let current : (sid : SlotId)
        → Ext (slot_origin s sid) (current_view s sid) (current_view t sid) =
      λ sid. Ext-unclear (origin_cases a new s sid kind) (h.current sid) in
    let committed : (sid : SlotId)
        → Ext (slot_origin s sid) (committed_view s sid) (committed_view t sid) =
      λ sid. Ext-unclear (origin_cases a new s sid kind) (h.committed sid) in
    (
      record t { cleared_accounts = insert a (clearing s a) t.cleared_accounts },
      refl,
      assumption (
        current,
        committed,
        put_back no_clearing new a s.cleared_accounts t.cleared_accounts h.clearings,
      ),
      assumption,
    )

-- Codes.
abbrev pub code_shown : CodeValue → Option Bytes
code_shown v = if v.code_valid then some v.code else none

abbrev pub size_shown : CodeValue → Option ℕ
size_shown v = if v.size_valid then some v.size else none

abbrev pub DirtyValid : CodeValue → Type 0
DirtyValid v = v.dirty ≡ true → v.code_valid ≡ true

abbrev pub CleanSize : State → ℕ → CodeValue → Type 0
CleanSize st a v = v.dirty ≡ false → v.size_valid ≡ true → st.code_size a ≡ some v.size

-- What holds of each entry of a map holds after a deletion, and after the write of such an entry.
abbrev Entries : (ℕ → CodeValue → Type 0) → Map ℕ CodeValue → Type 0
Entries P m = (a : ℕ) (v : CodeValue) → lookup a m ≡ some v → P a v

module _ (P : ℕ → CodeValue → Type 0) (k : ℕ) (m : Map ℕ CodeValue) (h : Entries P m) where
  pub delete-Entries : Entries P (delete k m)
  delete-Entries a v e = elim (Bool-cases (k == a)) [
    | inl same ↦ let q : none ≡ some v = rw (lookup-delete k a m, same) at e in cc
    | inr other ↦ h a v (rw (lookup-delete k a m, other) at e)
  ]

  pub insert-Entries : (w : CodeValue) → P k w → Entries P (insert k w m)
  insert-Entries w valid a v e = elim (Bool-cases (k == a)) [
    | inl same ↦
        let q : some w ≡ some v = rw (lookup-insert k a w m, same) at e in
        let eq : w ≡ v = ground arith in rw (← (comparable_nat.equal_iff k a).0 same, ← eq) valid
    | inr other ↦ h a v (rw (lookup-insert k a w m, other) at e)
  ]

-- A new entry is deleted again, in each of the three views.
pub write_new_code-Undoes :
    (a : ℕ) (code : Bytes) (s : StateDb)
    → lookup a s.codes ≡ none
    → Undoes (Undo.code_delete a) s (write_new_code a code s)
unfolding write_new_code apply_undo
write_new_code-Undoes a code s missing t h c =
    let new : CodeValue = record (with_code empty_code_value code) { dirty = true } in
    let hash_shown : (CodeValue → Option ℕ) = local_hash s.state in
    let hashes : (j : ℕ)
        → Ext (s.state.code_hash j) (bind (lookup j (insert a new s.codes)) hash_shown)
            (bind (lookup j t.codes) hash_shown) =
      λ j. rw h.state at (h.hash j) in
    let gone = Ext-delete hash_shown s.state.code_hash a new s.codes t.codes hashes (rw missing) in
    let hash : (j : ℕ)
        → Ext (s.state.code_hash j) (bind (lookup j s.codes) hash_shown)
            (bind (lookup j (delete a t.codes)) (local_hash t.state)) =
      λ j. rw h.state (gone j) in
    (
      record t { codes = delete a t.codes },
      refl,
      assumption (
        Ext-delete code_shown s.state.code a new s.codes t.codes h.code (rw missing),
        Ext-delete size_shown s.state.code_size a new s.codes t.codes h.size (rw missing),
        hash,
      ),
      assumption (
        delete-Entries (λ b. DirtyValid) a t.codes c.dirty_codes,
        delete-Entries (CleanSize t.state) a t.codes c.clean_sizes,
      ),
    )

pub write_known_code-Undoes :
    (a : ℕ) (old : CodeValue) (code : Bytes) (s : StateDb)
    → lookup a s.codes ≡ some old
    → DirtyValid old
    → CleanSize s.state a old
    → Undoes (Undo.code_value a old) s (write_known_code a old code s)
unfolding write_known_code apply_undo
write_known_code-Undoes a old code s found valid clean t h c =
    let clean' : CleanSize t.state a old = rw h.state clean in
    let new : CodeValue = record (with_code old code) { hash = none; dirty = true } in
    let back : (CodeValue → CodeValue) = λ w. old in
    let (w, present) = Ext-present code_shown s.state.code a new s.codes t.codes h.code refl in
    let hash_shown : (CodeValue → Option ℕ) = local_hash s.state in
    let hashes : (j : ℕ)
        → Ext (s.state.code_hash j) (bind (lookup j (insert a new s.codes)) hash_shown)
            (bind (lookup j t.codes) hash_shown) =
      λ j. rw h.state at (h.hash j) in
    let restored =
      Ext-restore hash_shown s.state.code_hash a new s.codes t.codes hashes old (rw found) in
    let hash : (j : ℕ)
        → Ext (s.state.code_hash j) (bind (lookup j s.codes) hash_shown)
            (bind (lookup j (insert a old t.codes)) (local_hash t.state)) =
      λ j. rw h.state (restored j) in
    (
      record t { codes = insert a old t.codes },
      rw (restore_present_lem a back t.codes w present, apply_undo),
      assumption (
        Ext-restore code_shown s.state.code a new s.codes t.codes h.code old (rw found),
        Ext-restore size_shown s.state.code_size a new s.codes t.codes h.size old (rw found),
        hash,
      ),
      assumption (
        insert-Entries (λ b. DirtyValid) a t.codes c.dirty_codes old valid,
        insert-Entries (CleanSize t.state) a t.codes c.clean_sizes old clean',
      ),
    )
