-- ===== src/StateDb/Code.antt =====
-- Contract codes of go/state/state_db.go.
use carmen.Prelude.{
  ℕ, Option, none, some, [], ◌∷◌, Bool, true, false, if◌then◌else◌, get_or, comparable_nat,
  comparable_pair, not, length,
}
use carmen.Prelude.Map.{lookup, insert}
use carmen.StateDb.Types.{
  Bytes, State, CodeValue, load_failed, Undo, StateDb, M, ◌>>=◌, ◌>>◌, return, get, modify, skip,
  fail,
}
use carmen.StateDb.Accounts.{exist, create_account_if_not_exists, touch}

abbrev pub empty_code_value : CodeValue
empty_code_value = record {
  code = [];
  size = 0;
  hash = none;
  dirty = false;
  code_valid = false;
  size_valid = false;
}

-- `s.codes[addr]`, with an empty entry put in if there is none.
abbrev pub code_entry : StateDb → ℕ → CodeValue
code_entry s a = get_or (lookup a s.codes) empty_code_value

unfoldable pub cache_code : ℕ → CodeValue → StateDb → StateDb
cache_code a v s = record s { codes = insert a v s.codes }

abbrev pub with_code : CodeValue → Bytes → CodeValue
with_code v code = record v {
  code = code;
  code_valid = true;
  size = length code;
  size_valid = true;
}

-- nil is the empty code here.
unfoldable pub get_code : ℕ → M Bytes
unfolding cache_code
get_code a = do
  s ← get
  let val = code_entry s a
  modify (cache_code a val)
  if val.code_valid then return val.code else elim (s.state.code a) [
    | none ↦ do fail (load_failed a); return []
    | some code ↦ do modify (cache_code a (with_code val code)); return code
  ]

unfoldable pub write_new_code : ℕ → Bytes → StateDb → StateDb
write_new_code a code s = record s {
  codes = insert a (record (with_code empty_code_value code) { dirty = true }) s.codes;
  undo = Undo.code_delete a ∷ s.undo;
}

unfoldable pub write_known_code : ℕ → CodeValue → Bytes → StateDb → StateDb
write_known_code a old code s = record s {
  codes = insert a (record (with_code old code) { hash = none; dirty = true }) s.codes;
  undo = Undo.code_value a old ∷ s.undo;
}

unfoldable pub set_code_internal : ℕ → Bytes → M (Unit {0})
unfolding write_new_code write_known_code
set_code_internal a code = do
  s ← get
  elim (lookup a s.codes) [
    | none ↦ modify (write_new_code a code)
    | some old ↦ modify (write_known_code a old code)
  ]

abbrev pub is_nil : Bytes → Bool
is_nil [] = true
is_nil (x ∷ xs) = false

unfoldable pub set_code : ℕ → Bytes → M (Unit {0})
set_code a code = do
  create_account_if_not_exists a
  set_code_internal a code
  if is_nil code then modify (touch a) else skip

abbrev pub with_hash : CodeValue → ℕ → CodeValue
with_hash v h = record v { hash = some h }

-- The hash on the entry, if it has one or is dirty; the hash of a dirty code is computed.
abbrev pub local_hash : State → CodeValue → Option ℕ
local_hash st v = elim v.hash [
  | some h ↦ some h
  | none ↦ if v.dirty then some (st.keccak256 v.code) else none
]

unfoldable pub get_code_hash : ℕ → M ℕ
unfolding cache_code
get_code_hash a = do
  present ← exist a
  if not present then return 0 else (do
    s ← get
    let val = code_entry s a
    elim (local_hash s.state val) [
      | some h ↦ do modify (cache_code a (with_hash val h)); return h
      | none ↦ do
        modify (cache_code a val)
        elim (s.state.code_hash a) [
          | none ↦ do fail (load_failed a); return 0
          | some h ↦ do modify (cache_code a (with_hash val h)); return h
        ]
    ])

abbrev pub with_size : CodeValue → ℕ → CodeValue
with_size v n = record v { size = n; size_valid = true }

unfoldable pub get_code_size : ℕ → M ℕ
unfolding cache_code
get_code_size a = do
  s ← get
  let val = code_entry s a
  modify (cache_code a val)
  if val.size_valid then return val.size else elim (s.state.code_size a) [
    | none ↦ do fail (load_failed a); return 0
    | some n ↦ do modify (cache_code a (with_size val n)); return n
  ]
