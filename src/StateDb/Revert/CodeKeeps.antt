-- ===== src/StateDb/Revert/CodeKeeps.antt =====
-- Contract codes of go/state/state_db.go stay on track.
use carmen.Prelude.{
  ℕ, ◌≡◌, refl, sym, ◌∙◌, inl, inr, none, some, true, false, not, Bool-cases, Option-cases,
  comparable_nat, comparable_pair, arith,
}
use carmen.Prelude.Map.{lookup, insert, lookup-insert, equal_refl}
use carmen.StateDb.Types.{Bytes, CodeValue, State, StateDb, return, modify, skip, load_failed}
use carmen.StateDb.Accounts.{touch}
use carmen.StateDb.Code.{
  empty_code_value, code_entry, cache_code, with_code, get_code, write_new_code, write_known_code,
  set_code_internal, is_nil, set_code, with_hash, local_hash, get_code_hash, with_size,
  get_code_size,
}
use carmen.StateDb.Revert.View.{IsCoherent, Extends-refl, code_view, size_view, hash_view, Ext}
use carmen.StateDb.Revert.Caches.{Ext-change}
use carmen.StateDb.Revert.Journal.{Tracks}
use carmen.StateDb.Revert.CodeUndoes.{
  DirtyValid, CleanSize, code_shown, size_shown, insert-Entries, write_new_code-Undoes,
  write_known_code-Undoes,
}
use carmen.StateDb.Revert.Keeps.{
  Tracks-load, Tracks-write, Keeps, Keeps-bind, Keeps-return, Keeps-if, fail-Keeps, touch-Keeps,
  At-option, At-if,
}
use carmen.StateDb.Revert.AccountKeeps.{create_account_if_not_exists-Keeps, exist-Keeps}

-- What is known of the entry that a method works on.
record Entry (s : StateDb) (a : ℕ) (v : CodeValue) : Type 0 where
  code : code_view s a ≡ code_shown v
  size : size_view s a ≡ size_shown v
  hash : hash_view s a ≡ local_hash s.state v
  dirty : DirtyValid v
  clean : CleanSize s.state a v

code_entry-Entry : (s : StateDb) (a : ℕ) → IsCoherent s → Entry s a (code_entry s a)
code_entry-Entry s a c = elim (Option-cases (lookup a s.codes)) [
  | inl missing ↦ record {
    code = rw missing;
    size = rw missing;
    hash = rw missing;
    dirty = rw missing (λ e. cc);
    clean = rw missing (λ e f. cc);
  }
  | inr (v, found) ↦ record {
    code = rw found;
    size = rw found;
    hash = rw found;
    dirty = rw found (c.dirty_codes a v found);
    clean = rw found (c.clean_sizes a v found);
  }
]

cached-Entry :
    (s : StateDb) (a : ℕ) (v : CodeValue)
    → DirtyValid v
    → CleanSize s.state a v
    → Entry (cache_code a v s) a v
unfolding cache_code
cached-Entry s a v dirty clean =
    let found : lookup a (insert a v s.codes) ≡ some v =
      rw (lookup-insert a a v s.codes, equal_refl a) in
    record { code = rw found; size = rw found; hash = rw found; dirty = dirty; clean = clean }

-- An entry without a code is not dirty.
Entry-clean :
    {s : StateDb} {a : ℕ} (v : CodeValue) → Entry s a v → v.code_valid ≡ false → v.dirty ≡ false
Entry-clean v h unknown = elim (Bool-cases v.dirty) [
  | inl dirty ↦ let q = h.dirty dirty in cc
  | inr clean ↦ clean
]

size_shown_valid : (v : CodeValue) → v.size_valid ≡ true → size_shown v ≡ some v.size
size_shown_valid v h = ground arith

size_shown_invalid : (v : CodeValue) → v.size_valid ≡ false → size_shown v ≡ none
size_shown_invalid v h = ground arith

local_hash_clean :
    (st : State) (v : CodeValue) (code : Bytes)
    → v.dirty ≡ false
    → local_hash st v ≡ local_hash st (with_code v code)
local_hash_clean st v code h = ground arith

module _ {base s : StateDb} (k : Tracks base s) (a : ℕ) where
  cache_code-Tracks :
      (v : CodeValue)
      → Ext (s.state.code a) (code_view s a) (code_shown v)
      → Ext (s.state.code_size a) (size_view s a) (size_shown v)
      → Ext (s.state.code_hash a) (hash_view s a) (local_hash s.state v)
      → DirtyValid v
      → CleanSize s.state a v
      → Tracks base (cache_code a v s)
  unfolding cache_code
  cache_code-Tracks v code size hash dirty clean =
      let self = Extends-refl s in
      let c = k.coherent in
      Tracks-load k
        (assumption (
          self,
          Ext-change code_shown s.state.code a v s.codes code,
          Ext-change size_shown s.state.code_size a v s.codes size,
          Ext-change (local_hash s.state) s.state.code_hash a v s.codes hash,
        ))
        (assumption (
          c,
          insert-Entries (λ b. DirtyValid) a s.codes c.dirty_codes v dirty,
          insert-Entries (CleanSize s.state) a s.codes c.clean_sizes v clean,
        ))
        refl

  cache-Entry-Tracks : (v : CodeValue) → Entry s a v → Tracks base (cache_code a v s)
  cache-Entry-Tracks v h =
      cache_code-Tracks v (inl h.code) (inl h.size) (inl h.hash) h.dirty h.clean

  load_size-Tracks :
      (v : CodeValue) (n : ℕ)
      → Entry s a v
      → v.size_valid ≡ false
      → s.state.code_size a ≡ some n
      → Tracks base (cache_code a (with_size v n) s)
  load_size-Tracks v n h unknown loaded =
      cache_code-Tracks (with_size v n) (inl h.code) (inr (h.size ∙ rw unknown, sym loaded))
        (inl h.hash) h.dirty (λ e f. loaded)

  load_hash-Tracks :
      (v : CodeValue) (n : ℕ)
      → Entry s a v
      → local_hash s.state v ≡ none
      → s.state.code_hash a ≡ some n
      → Tracks base (cache_code a (with_hash v n) s)
  load_hash-Tracks v n h unknown loaded =
      cache_code-Tracks (with_hash v n) (inl h.code) (inl h.size)
        (inr (h.hash ∙ unknown, sym loaded)) h.dirty h.clean

  keep_hash-Tracks :
      (v : CodeValue) (n : ℕ)
      → Entry s a v
      → local_hash s.state v ≡ some n
      → Tracks base (cache_code a (with_hash v n) s)
  keep_hash-Tracks v n h known =
      cache_code-Tracks (with_hash v n) (inl h.code) (inl h.size) (inl (h.hash ∙ known)) h.dirty
        h.clean

  load_code-Tracks :
      (v : CodeValue) (code : Bytes)
      → Entry s a v
      → v.code_valid ≡ false
      → s.state.code a ≡ some code
      → Tracks base (cache_code a (with_code v code) s)
  load_code-Tracks v code h unknown loaded =
      let size = k.coherent.sizes a code loaded in
      let clean = Entry-clean v h unknown in
      cache_code-Tracks (with_code v code) (inr (h.code ∙ rw unknown, sym loaded))
        (elim (Bool-cases v.size_valid) [
          | inl known ↦ inl (h.size ∙ size_shown_valid v known ∙ sym (h.clean clean known) ∙ size)
          | inr hidden ↦ inr (h.size ∙ size_shown_invalid v hidden, sym size)
        ])
        (inl (h.hash ∙ local_hash_clean s.state v code clean)) (λ e. refl) (λ e f. size)

  write_new_code-Tracks :
      (code : Bytes) → lookup a s.codes ≡ none → Tracks base (write_new_code a code s)
  unfolding write_new_code
  write_new_code-Tracks code missing =
      let c = k.coherent in
      let new : CodeValue = record (with_code empty_code_value code) { dirty = true } in
      Tracks-write k _ (write_new_code-Undoes a code s missing)
        (assumption (
          c,
          insert-Entries (λ b. DirtyValid) a s.codes c.dirty_codes new (λ e. refl),
          insert-Entries (CleanSize s.state) a s.codes c.clean_sizes new (λ e f. cc),
        ))
        refl

  write_known_code-Tracks :
      (old : CodeValue) (code : Bytes)
      → lookup a s.codes ≡ some old
      → Tracks base (write_known_code a old code s)
  unfolding write_known_code
  write_known_code-Tracks old code found =
      let c = k.coherent in
      let new : CodeValue = record (with_code old code) { hash = none; dirty = true } in
      Tracks-write k _
        (write_known_code-Undoes a old code s found (c.dirty_codes a old found)
          (c.clean_sizes a old found))
        (assumption (
          c,
          insert-Entries (λ b. DirtyValid) a s.codes c.dirty_codes new (λ e. refl),
          insert-Entries (CleanSize s.state) a s.codes c.clean_sizes new (λ e f. cc),
        ))
        refl

module _ {base : StateDb} where
  pub get_code-Keeps : (a : ℕ) → Keeps base (get_code a)
  unfolding get_code
  get_code-Keeps a s k =
      let val = code_entry s a in
      let h = code_entry-Entry s a k.coherent in
      let k' = cache-Entry-Tracks k a val h in
      let h' = cached-Entry s a val h.dirty h.clean in
      At-if base val.code_valid (return val.code) _ (cache_code a val s) (λ _. k')
        λ unknown.
          At-option base (s.state.code a) _ _ (cache_code a val s)
            (λ _. fail-Keeps (load_failed a) (cache_code a val s) k')
            λ code loaded. load_code-Tracks k' a val code h' unknown loaded

  pub get_code_size-Keeps : (a : ℕ) → Keeps base (get_code_size a)
  unfolding get_code_size
  get_code_size-Keeps a s k =
      let val = code_entry s a in
      let h = code_entry-Entry s a k.coherent in
      let k' = cache-Entry-Tracks k a val h in
      let h' = cached-Entry s a val h.dirty h.clean in
      At-if base val.size_valid (return val.size) _ (cache_code a val s) (λ _. k')
        λ unknown.
          At-option base (s.state.code_size a) _ _ (cache_code a val s)
            (λ _. fail-Keeps (load_failed a) (cache_code a val s) k')
            λ n loaded. load_size-Tracks k' a val n h' unknown loaded

  pub get_code_hash-Keeps : (a : ℕ) → Keeps base (get_code_hash a)
  unfolding get_code_hash
  get_code_hash-Keeps a = Keeps-bind _ _ (exist-Keeps a) λ present.
      Keeps-if (not present) (return 0) _ (Keeps-return {A = ℕ} 0) λ s k.
        let val = code_entry s a in
        let h = code_entry-Entry s a k.coherent in
        let k' = cache-Entry-Tracks k a val h in
        let h' = cached-Entry s a val h.dirty h.clean in
        At-option base (local_hash s.state val) _ _ s
          (λ unknown.
            At-option base (s.state.code_hash a) _ _ (cache_code a val s)
              (λ _. fail-Keeps (load_failed a) (cache_code a val s) k')
              λ n loaded. load_hash-Tracks k' a val n h' unknown loaded)
          λ n known. keep_hash-Tracks k a val n h known

  pub set_code_internal-Keeps : (a : ℕ) (code : Bytes) → Keeps base (set_code_internal a code)
  unfolding set_code_internal
  set_code_internal-Keeps a code s k =
      At-option base (lookup a s.codes) (modify (write_new_code a code)) _ s
        (λ missing. write_new_code-Tracks k a code missing)
        (λ old found. write_known_code-Tracks k a old code found)

  pub set_code-Keeps : (a : ℕ) (code : Bytes) → Keeps base (set_code a code)
  unfolding set_code
  set_code-Keeps a code = Keeps-bind _ _ (create_account_if_not_exists-Keeps a) λ _.
      Keeps-bind _ _ (set_code_internal-Keeps a code)
        λ _. Keeps-if (is_nil code) (modify (touch a)) skip (touch-Keeps a) (Keeps-return tt)
