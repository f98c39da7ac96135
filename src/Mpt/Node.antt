-- ===== src/Mpt/Node.antt =====
-- database/mpt/nodes.go: the nodes of a trie, each holding the nodes that it refers to.
pub mod Leaf
pub mod Branch
pub mod Extension
pub mod Walk
pub mod Values
pub mod Accounts
pub mod Valid
pub mod View
pub mod Shape
pub mod Positions
pub mod Effect
pub mod BranchEffect
pub mod ExtensionEffect
pub mod SplitEffect
pub mod WalkEffect
pub mod LeafParts
pub mod LeafEffect
pub mod ValueReading
pub mod ValueEffect
pub mod AccountReading
pub mod AccountEffect
pub mod SlotChange
pub mod SlotEffect
pub mod Storage
pub mod State
pub mod Entries
pub mod Reads
pub mod Frozen
pub mod Copies
pub mod FrozenTries
pub mod Stale
pub mod Tests
use carmen.Prelude.{
  ℕ, ◌≡◌, refl, ◌↔◌, List, [], ◌∷◌, Bool, true, false, ◌&&◌, not, Option, ◌==◌, Comparable, nat_beq,
  if◌then◌else◌, comparable_nat, arith,
}
use carmen.Mpt.Nibble.{to_nibble_path}

pub data HashStatus : Type 0 where
  hash_clean hash_dirty hash_unknown : HashStatus

-- nodeBase
pub record NodeBase : Type 0 where
  pub hash : ℕ
  pub hash_status : HashStatus
  pub clean : Bool
  pub frozen : Bool

-- database/mpt/account.go: AccountInfo
pub record AccountInfo : Type 0 where
  pub nonce : ℕ
  pub balance : ℕ
  pub code_hash : ℕ

-- The hash of each child of a BranchNode and its bit masks, each as the bit of an index.
pub record ChildHashes : Type 0 where
  pub hashes : ℕ → ℕ
  pub dirty_hashes : ℕ → Bool
  pub embedded_children : ℕ → Bool
  pub frozen_children : ℕ → Bool

-- The hash of the next node of an ExtensionNode.
pub record NextHash : Type 0 where
  pub next_hash : ℕ
  pub next_hash_dirty : Bool
  pub next_is_embedded : Bool

-- The hash of an AccountNode's storage.
pub record StorageHash : Type 0 where
  pub storage_hash : ℕ
  pub storage_hash_dirty : Bool

-- A branch has its children by nibble; an account has its address, information, storage and the
-- length of the rest of its path; a value has its key, value and the length of the rest of its path.
pub data Node : Type 0 where
  empty : Node
  branch : NodeBase → (ℕ → Node) → ChildHashes → Node
  extension : NodeBase → List ℕ → Node → NextHash → Node
  account : NodeBase → List ℕ → AccountInfo → Node → StorageHash → ℕ → Node
  value : NodeBase → List ℕ → ℕ → ℕ → Node

-- What of MptConfig the operations read: UseHashedPaths with the hash of an address or key,
-- TrackSuffixLengthsInLeafNodes, and whether Hashing is DirectHashing.
pub record Config : Type 0 where
  pub path_hash : Option (List ℕ → List ℕ)
  pub track_suffix_lengths : Bool
  pub direct_hashing : Bool

-- What a call on a node returns: the root, whether its reference differs from the one of the node
-- that was called, and whether that node was changed in place.
pub record Outcome : Type 0 where
  pub root : Node
  pub replaced : Bool
  pub changed : Bool

-- A new node's base, as the create functions of database/mpt/forest.go return it.
abbrev pub new_base : NodeBase
new_base = record { hash = 0; hash_status = hash_clean; clean = false; frozen = false }

abbrev pub new_children : ℕ → Node
new_children i = empty

abbrev pub new_hashes : ChildHashes
new_hashes = record {
  hashes = λ i. 0;
  dirty_hashes = λ i. false;
  embedded_children = λ i. false;
  frozen_children = λ i. false;
}

abbrev pub new_next : NextHash
new_next = record { next_hash = 0; next_hash_dirty = false; next_is_embedded = false }

abbrev pub new_storage : StorageHash
new_storage = record { storage_hash = 0; storage_hash_dirty = false }

unfoldable pub mark_dirty : NodeBase → NodeBase
mark_dirty n = record n { clean = false; hash_status = hash_dirty }

unfoldable pub mark_mutable : NodeBase → NodeBase
mark_mutable n = record n { frozen = false }

-- The base of the copy of a frozen node, which is then modified; any other node is modified itself.
unfoldable pub clone_frozen : NodeBase → NodeBase
clone_frozen n = if n.frozen then mark_mutable (mark_dirty n) else n

-- A bit mask or an array with one entry set.
abbrev pub put {ℓ} : {A : Type ℓ} → (ℕ → A) → ℕ → A → ℕ → A
put entries index entry i = if i == index then entry else entries i

unfoldable pub mark_child_hash_dirty : ChildHashes → ℕ → ChildHashes
mark_child_hash_dirty n index = record n { dirty_hashes = put n.dirty_hashes index true }

unfoldable pub mark_child_hash_clean : ChildHashes → ℕ → ChildHashes
mark_child_hash_clean n index = record n { dirty_hashes = put n.dirty_hashes index false }

unfoldable pub set_child_frozen : ChildHashes → ℕ → Bool → ChildHashes
set_child_frozen n index frozen = record n { frozen_children = put n.frozen_children index frozen }

unfoldable pub set_embedded : ChildHashes → ℕ → Bool → ChildHashes
set_embedded n index embedded = record n {
  embedded_children = put n.embedded_children index embedded;
}

-- The kinds of node, which a node's identifier tells.
unfoldable pub is_empty : Node → Bool
is_empty empty = true
is_empty (branch n children hashes) = false
is_empty (extension n path next hash) = false
is_empty (account n address info storage hash length) = false
is_empty (value n key word length) = false

unfoldable pub is_branch : Node → Bool
is_branch empty = false
is_branch (branch n children hashes) = true
is_branch (extension n path next hash) = false
is_branch (account n address info storage hash length) = false
is_branch (value n key word length) = false

unfoldable pub info_is_empty : AccountInfo → Bool
info_is_empty a = a.nonce == 0 && a.balance == 0 && a.code_hash == 0

abbrev pub info_beq : AccountInfo → AccountInfo → Bool
info_beq a b =
    nat_beq a.nonce b.nonce && nat_beq a.balance b.balance && nat_beq a.code_hash b.code_hash

pub info_beq_iff : (a b : AccountInfo) → (info_beq a b ≡ true) ↔ (a ≡ b)
info_beq_iff a b = ground arith

instance abbrev pub comparable_info : Comparable AccountInfo
comparable_info = record { equal = info_beq; equal_iff = info_beq_iff }

abbrev pub bytes_beq : List ℕ → List ℕ → Bool
bytes_beq [] [] = true
bytes_beq [] (y ∷ ys) = false
bytes_beq (x ∷ xs) [] = false
bytes_beq (x ∷ xs) (y ∷ ys) = nat_beq x y && bytes_beq xs ys

pub bytes_beq_iff : (a b : List ℕ) → (bytes_beq a b ≡ true) ↔ (a ≡ b)
bytes_beq_iff [] [] = ground arith
bytes_beq_iff [] (y ∷ ys) = ground arith
bytes_beq_iff (x ∷ xs) [] = ground arith
bytes_beq_iff (x ∷ xs) (y ∷ ys) = ground (arith, bytes_beq_iff xs ys)

-- Addresses and keys are arrays of bytes.
instance abbrev pub comparable_bytes : Comparable (List ℕ)
comparable_bytes = record { equal = bytes_beq; equal_iff = bytes_beq_iff }

-- AddressToNibblePath and KeyToNibblePath for a node source of this configuration.
unfoldable pub path_of : Config → List ℕ → List ℕ
unfolding to_nibble_path
path_of config key = to_nibble_path config.path_hash key
