-- ===== src/Mpt/Node/SlotChange.antt =====
-- A change of the storage of one account, in an account node of database/mpt/nodes.go.
use carmen.Prelude.{
  ℕ, ◌≡◌, ◌≢◌, refl, List, [], ◌++◌, Bool, false, Option, none, some, if◌then◌else◌, length, arith,
  sym, Bool-cases, inl, inr, ◌==◌, comparable_nat,
}
use carmen.Prelude.Map.{equal_refl}
use carmen.Mpt.Node.{
  AccountInfo, Config, Node, NodeBase, Outcome, StorageHash, account, bytes_beq_iff,
  comparable_bytes, comparable_info, empty, info_is_empty, is_branch, is_empty, path_of,
}
use carmen.Mpt.Node.Accounts.{stay_empty}
use carmen.Mpt.Node.AccountReading.{Entry, find_entry}
use carmen.Mpt.Node.Effect.{IsEffect}
use carmen.Mpt.Node.Valid.{AreNibbles, IsAccountLeaf, IsPlaced, IsStorage, IsTrie}
use carmen.Mpt.Node.ValueReading.{apart-equal}
use carmen.Mpt.Node.Values.{set_value}
use carmen.Mpt.Node.Walk.{get_below, unchanged}

-- The storage after a value has been written in it.
abbrev root_or : Node → Option Outcome → Node
root_or node none = node
root_or node (some o) = o.root

unfoldable pub written : Config → List ℕ → ℕ → Node → Node
written config key word storage =
    root_or storage (set_value config key word storage (path_of config key))

-- A slot is written only where there is an account, and so is a storage cleared.
abbrev pub with_storage : (Node → Node) → Option (Option Entry) → Option (Option Entry)
with_storage change none = none
with_storage change (some none) = some none
with_storage change (some (some (info, storage))) = some (some (info, change storage))

abbrev pub after_storage :
    List ℕ → (Node → Node) → List ℕ → Option (Option Entry) → Option (Option Entry)
after_storage address change other before =
    if address == other then with_storage change before else before

module _ (config : Config) (address : List ℕ) (change : Node → Node) where
  abbrev pub IsChange : ℕ → List ℕ → Node → Outcome → Type 0
  IsChange =
      IsEffect (IsAccountLeaf config) (path_of config) find_entry (after_storage address change)

  pub change-elsewhere :
      (other : List ℕ)
      → path_of config other ≢ path_of config address
      → (r : Option (Option Entry)) → after_storage address change other r ≡ r
  change-elsewhere other d r = rw (apart-equal config address other d) refl

  pub change-absent : (other : List ℕ) → after_storage address change other (some none) ≡ some none
  change-absent other = ground arith

  pub stay_empty-IsEffect :
      (size : ℕ) (prefix path : List ℕ)
      → path_of config address ≡ prefix ++ path
      → length path ≡ size
      → AreNibbles path
      → IsChange size prefix empty (stay_empty path)
  unfolding IsEffect IsTrie is_branch is_empty get_below
  stay_empty-IsEffect size prefix path e l nibbles =
      (_, λ _. (refl, refl), λ h. absurd (ground arith), λ other rest r m. ground arith)

  pub storage-IsEffect :
      (size : ℕ) (prefix : List ℕ) (n m : NodeBase) (info : AccountInfo) (storage new : Node)
      (hash other_hash : StorageHash) (len : ℕ) (replaced changed : Bool)
      → info_is_empty info ≡ false
      → IsPlaced config size prefix address len
      → IsStorage config 64 [] new
      → new ≡ change storage
      → IsChange size prefix (account n address info storage hash len) (record {
        root = account m address info new other_hash len;
        replaced = replaced;
        changed = changed;
      })
  unfolding IsEffect IsTrie IsAccountLeaf is_branch is_empty get_below find_entry
  storage-IsEffect size prefix n m info storage new hash other_hash len replaced changed z placed t
        e =
      (
        (z, placed, t),
        λ _. (refl, refl),
        λ h. absurd (ground arith),
        λ other rest r l. elim (Bool-cases (address == other)) [
          | inl same ↦ rw (same, e) refl
          | inr f ↦ rw f refl
        ],
      )

  pub other-IsEffect :
      (size : ℕ) (prefix : List ℕ) (n : NodeBase) (own : List ℕ) (info : AccountInfo)
      (storage : Node) (hash : StorageHash) (len : ℕ)
      → info_is_empty info ≡ false
      → IsPlaced config size prefix own len
      → IsStorage config 64 [] storage
      → (own == address) ≡ false
      → IsChange size prefix
          (account n own info storage hash len)
          (unchanged (account n own info storage hash len))
  unfolding IsEffect IsTrie IsAccountLeaf is_branch is_empty get_below find_entry
  other-IsEffect size prefix n own info storage hash len z placed t d = (
    (z, placed, t),
    λ _. (refl, refl),
    λ h. absurd (ground arith),
    λ other rest r l. elim (Bool-cases (address == other)) [
      | inl same ↦ rw (sym ((bytes_beq_iff address other).0 same), d, equal_refl address) refl
      | inr f ↦ rw f refl
    ],
  )
