-- ===== src/Mpt/Node/Tests.antt =====
-- Runs of the operations of database/mpt/nodes.go on small tries.
use carmen.Prelude.{
  comparable_nat, ℕ, zero, suc, ◌/◌, ◌%◌, ◌≡◌, refl, List, [], ◌∷◌, Bool, true, false, none, some,
  arith, if◌then◌else◌, ◌==◌, ap₂, inl,
}
use carmen.Mpt.Nibble.{common_prefix, get_common_prefix_length, parse_nibbles, to_nibble_path}
use carmen.Mpt.Node.{
  AccountInfo, Config, Node, NodeBase, Outcome, StorageHash, account, branch, empty, extension,
  clone_frozen, comparable_bytes, info_is_empty, is_branch, is_empty, mark_child_hash_dirty,
  mark_dirty, new_base, new_children, new_hashes, new_next, new_storage, path_of, put, value,
}
use carmen.Mpt.Node.Accounts.{
  clear_storage, get_account, get_slot, set_account, set_slot, store_slot, update_account,
  update_slot, update_storage, find_account,
}
use carmen.Mpt.Node.Branch.{set_next_in_branch}
use carmen.Mpt.Node.Extension.{set_next_in_extension}
use carmen.Mpt.Node.Frozen.{IsConsistent, IsFrozen, freeze, freeze-IsFrozen}
use carmen.Mpt.Node.FrozenTries.{frozen-IsKept}
use carmen.Mpt.Node.Stale.{unreported_change}
use carmen.Mpt.Node.Leaf.{
  base_of, clone_value, is_hash_dirty, prefix_extension, set_path_length, split_branch,
  split_hashes, split_leaf_at, split_leaf_node,
}
use carmen.Mpt.Node.Reads.{
  clear_storage-reads, get_account-set_account, get_slot-set_account, get_slot-set_slot,
}
use carmen.Mpt.Node.State.{set_account-IsState, set_slot-IsState}
use carmen.Mpt.Node.Storage.{HasPath, IsUsable, get_value-set_value, set_value-IsStorage}
use carmen.Mpt.Node.Valid.{IsAccountLeaf, IsState, IsStorage, IsTrie, IsValueLeaf}
use carmen.Mpt.Node.Values.{get_value, set_value, update_value}
use carmen.Mpt.Node.Walk.{get_below, set_below, unchanged}

-- Paths that are not hashed, with the lengths of the suffixes.
abbrev plain : Config
plain = record { path_hash = none; track_suffix_lengths = true; direct_hashing = false }

byte_split : (a b : ℕ) → a / 16 ≡ b / 16 → a % 16 ≡ b % 16 → a ≡ b
byte_split a b e f = omega arith

cons-heads : (a b : ℕ) (xs ys : List ℕ) → a ∷ xs ≡ b ∷ ys → (a ≡ b) × (xs ≡ ys)
cons-heads a b xs ys e = (cc, cc)

parse_nibbles-injective : (a b : List ℕ) → parse_nibbles a ≡ parse_nibbles b → a ≡ b
unfolding parse_nibbles
parse_nibbles-injective [] [] e = refl
parse_nibbles-injective [] (y ∷ ys) e = absurd (cc)
parse_nibbles-injective (x ∷ xs) [] e = absurd (cc)
parse_nibbles-injective (x ∷ xs) (y ∷ ys) e =
    let (high, e2) = cons-heads (x / 16) (y / 16) _ _ e in
    let (low, e3) = cons-heads (x % 16) (y % 16) _ _ e2 in
    ap₂ (λ z zs. z ∷ zs) (byte_split x y high low) (parse_nibbles-injective xs ys e3)

plain-IsUsable : IsUsable plain
unfolding path_of to_nibble_path
plain-IsUsable = (refl, λ a b e. parse_nibbles-injective a b e)

abbrev key_a : List ℕ
key_a = 18 ∷ 52 ∷ []

abbrev key_b : List ℕ
key_b = 18 ∷ 86 ∷ []

abbrev leaf_a : Node
leaf_a = value new_base key_a 7 4

key_a-HasPath : HasPath plain 4 key_a
unfolding path_of to_nibble_path parse_nibbles
key_a-HasPath = omega arith

key_b-HasPath : HasPath plain 4 key_b
unfolding path_of to_nibble_path parse_nibbles
key_b-HasPath = omega arith

leaf_a-IsStorage : IsStorage plain 4 [] leaf_a
unfolding IsTrie IsValueLeaf path_of to_nibble_path parse_nibbles
leaf_a-IsStorage = (omega arith, (1 ∷ 2 ∷ 3 ∷ 4 ∷ [], refl, refl, omega arith, λ e. refl))

abbrev forked : Node
forked =
    extension (mark_dirty new_base) (1 ∷ 2 ∷ [])
      (branch (mark_dirty new_base)
        (put (put new_children 3 (value (mark_dirty new_base) key_a 7 1)) 5
          (value (mark_dirty (mark_dirty new_base)) key_b 9 1))
        (mark_child_hash_dirty (mark_child_hash_dirty new_hashes 5) 3))
      (record new_next { next_hash_dirty = true })

split_runs :
    set_value plain key_b 9 leaf_a (path_of plain key_b)
    ≡ some (record { root = forked; replaced = true; changed = false })
unfolding set_value set_below update_value split_leaf_node split_leaf_at split_branch split_hashes
    prefix_extension set_path_length clone_value is_hash_dirty path_of to_nibble_path parse_nibbles
    get_common_prefix_length common_prefix mark_dirty mark_child_hash_dirty
split_runs = refl

set_value-IsStorage_example :
    (o : Outcome) × (set_value plain key_b 9 leaf_a (path_of plain key_b) ≡ some o)
    × IsStorage plain 4 [] o.root
set_value-IsStorage_example =
    set_value-IsStorage plain key_b 9 4 leaf_a plain-IsUsable leaf_a-IsStorage key_b-HasPath

get_value-set_value_example :
    get_value key_a forked (path_of plain key_a)
    ≡ (if key_b == key_a then some (some 9) else get_value key_a leaf_a (path_of plain key_a))
get_value-set_value_example =
    get_value-set_value plain key_b key_a 9 4 leaf_a
      (record { root = forked; replaced = true; changed = false }) plain-IsUsable leaf_a-IsStorage
      key_b-HasPath key_a-HasPath split_runs

abbrev rich : AccountInfo
rich = record { nonce = 1; balance = 100; code_hash = 0 }

abbrev poor : AccountInfo
poor = record { nonce = 2; balance = 0; code_hash = 0 }

-- A key of 32 bytes.
abbrev repeat : ℕ → ℕ → List ℕ
repeat zero byte = []
repeat (suc count) byte = byte ∷ repeat count byte

abbrev slot : List ℕ
slot = repeat 32 0

slot-HasPath : HasPath plain 64 slot
unfolding path_of to_nibble_path parse_nibbles
slot-HasPath = (refl, omega arith)

abbrev held : Node
held = value (mark_dirty new_base) slot 6 64

held-IsStorage : IsStorage plain 64 [] held
unfolding IsTrie IsValueLeaf path_of to_nibble_path parse_nibbles
held-IsStorage = (omega arith, (repeat 64 0, refl, refl, omega arith, λ e. refl))

abbrev owner : Node
owner = account new_base key_a rich held new_storage 4

owner-IsState : IsState plain 4 [] owner
unfolding IsTrie IsAccountLeaf path_of to_nibble_path parse_nibbles info_is_empty
owner-IsState = (refl, (1 ∷ 2 ∷ 3 ∷ 4 ∷ [], refl, refl, omega arith, λ e. refl), held-IsStorage)

-- The owner after each of the operations on its own address.
abbrev kept_as : AccountInfo → Node → StorageHash → Outcome
kept_as info storage hash = record {
  root = account (mark_dirty new_base) key_a info storage hash 4;
  replaced = false;
  changed = true;
}

abbrev dirty_storage : StorageHash
dirty_storage = record { storage_hash = 0; storage_hash_dirty = true }

set_account_runs :
    set_account plain key_a poor owner (path_of plain key_a) ≡ some (kept_as poor held new_storage)
unfolding set_account set_below update_account info_is_empty clone_frozen
set_account_runs = refl

set_slot_runs :
    set_slot plain key_a slot 8 owner (path_of plain key_a)
    ≡ some (kept_as rich (value (mark_dirty new_base) slot 8 64) dirty_storage)
unfolding set_slot set_below update_slot store_slot set_value update_value path_of to_nibble_path
    parse_nibbles mark_dirty clone_value
set_slot_runs = refl

clear_storage_runs :
    clear_storage plain key_a owner (path_of plain key_a) ≡ some (kept_as rich empty dirty_storage)
unfolding clear_storage set_below update_storage is_empty clone_frozen mark_dirty
clear_storage_runs = refl

set_account-IsState_example :
    (o : Outcome) × (set_account plain key_b poor owner (path_of plain key_b) ≡ some o)
    × IsState plain 4 [] o.root
set_account-IsState_example =
    set_account-IsState plain key_b 4 owner plain-IsUsable owner-IsState key_b-HasPath poor

get_account-set_account_example :
    get_account key_a (kept_as poor held new_storage).root (path_of plain key_a) ≡ some (some poor)
unfolding info_is_empty
get_account-set_account_example =
    get_account-set_account plain key_a key_a 4 owner (kept_as poor held new_storage) plain-IsUsable
      owner-IsState key_a-HasPath key_a-HasPath poor set_account_runs

get_slot-set_account_example :
    get_slot plain key_a slot (kept_as poor held new_storage).root (path_of plain key_a)
    ≡ get_slot plain key_a slot owner (path_of plain key_a)
unfolding info_is_empty
get_slot-set_account_example =
    get_slot-set_account plain key_a key_a 4 owner (kept_as poor held new_storage) plain-IsUsable
      owner-IsState key_a-HasPath key_a-HasPath poor slot set_account_runs

set_slot-IsState_example :
    (o : Outcome) × (set_slot plain key_a slot 8 owner (path_of plain key_a) ≡ some o)
    × IsState plain 4 [] o.root
set_slot-IsState_example =
    set_slot-IsState plain key_a 4 owner plain-IsUsable owner-IsState key_a-HasPath slot 8
      slot-HasPath

get_slot-set_slot_example :
    get_slot plain key_a slot
      (account
        (mark_dirty new_base)
        key_a
        rich
        (value (mark_dirty new_base) slot 8 64)
        dirty_storage
        4)
      (path_of plain key_a)
    ≡ some (some 8)
unfolding get_account get_below find_account path_of to_nibble_path parse_nibbles
get_slot-set_slot_example =
    get_slot-set_slot plain key_a key_a 4 owner
      (kept_as rich (value (mark_dirty new_base) slot 8 64) dirty_storage) plain-IsUsable
      owner-IsState key_a-HasPath key_a-HasPath slot slot 8 slot-HasPath slot-HasPath set_slot_runs

clear_storage-reads_example :
    (get_account key_a (kept_as rich empty dirty_storage).root (path_of plain key_a)
      ≡ get_account key_a owner (path_of plain key_a))
    × (get_slot plain key_a slot (kept_as rich empty dirty_storage).root (path_of plain key_a)
        ≡ some none)
clear_storage-reads_example =
    clear_storage-reads plain key_a key_a 4 owner (kept_as rich empty dirty_storage) plain-IsUsable
      owner-IsState key_a-HasPath key_a-HasPath slot clear_storage_runs

-- A frozen trie, and the copy that an update of it makes.
abbrev frozen_base : NodeBase
frozen_base = record new_base { frozen = true }

abbrev fork_of : NodeBase → ℕ → Node
fork_of n word =
    branch n (put (put new_children 3 (value n key_a 7 1)) 5 (value n key_b word 1)) new_hashes

if-All : (b : Bool) (P : Node → Type 0) (x y : Node) → P x → P y → P (if b then x else y)
if-All true P x y p q = p
if-All false P x y p q = q

fork-IsConsistent : (word : ℕ) → IsConsistent (fork_of new_base word)
unfolding IsConsistent
fork-IsConsistent word = (
  λ h. absurd (ground arith),
  λ i h. absurd (ground arith),
  λ i. if-All (i == 5) IsConsistent _ _ _ (if-All (i == 3) IsConsistent _ _ _ _),
)

freeze-IsFrozen_example : IsFrozen (freeze (fork_of new_base 9))
freeze-IsFrozen_example = freeze-IsFrozen (fork_of new_base 9) (fork-IsConsistent 9)

abbrev frozen_owner : Node
frozen_owner = account frozen_base key_a rich empty new_storage 4

frozen_owner-IsFrozen : IsFrozen frozen_owner
unfolding IsFrozen
frozen_owner-IsFrozen = (refl, _)

keep_runs :
    set_account plain key_b
      (record { nonce = 0; balance = 0; code_hash = 0 })
      frozen_owner
      (path_of plain key_b)
    ≡ some (unchanged frozen_owner)
unfolding set_account set_below update_account info_is_empty
keep_runs = refl

frozen-IsKept_example :
    ((unchanged frozen_owner).root ≡ frozen_owner) × ((unchanged frozen_owner).changed ≡ false)
frozen-IsKept_example =
    frozen-IsKept plain key_b slot (record { nonce = 0; balance = 0; code_hash = 0 }) 1 frozen_owner
      (path_of plain key_b) (unchanged frozen_owner) frozen_owner-IsFrozen (inl keep_runs) refl

unreported_change_example :
    (o : Outcome) × (set_next_in_extension plain new_base
        (1 ∷ 2 ∷ [])
        new_next
        4
        (record { root = fork_of new_base 9; replaced = true; changed = false })
      ≡ some o)
    × (is_hash_dirty (base_of o.root) ≡ true)
    × (set_next_in_branch plain new_base new_children new_hashes 6 5 o ≡ (record {
      root = branch new_base (put new_children 6 o.root) new_hashes;
      replaced = false;
      changed = false;
    }))
unfolding is_branch
unreported_change_example =
    unreported_change plain new_base new_base (1 ∷ 2 ∷ []) new_next 4 5 6 (fork_of new_base 9)
      new_children new_hashes refl refl
