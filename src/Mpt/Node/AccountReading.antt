-- ===== src/Mpt/Node/AccountReading.antt =====
-- How the accounts of database/mpt/nodes.go are read at their places in a state trie, each with its
-- storage.
use carmen.Prelude.{
  ℕ, ◌+◌, ◌%◌, ◌≡◌, ◌≢◌, refl, List, [], ◌∷◌, ◌++◌, true, false, Option, none, some, if◌then◌else◌,
  length, drop, arith, subst, sym, Bool-cases, inl, inr, ◌==◌, comparable_nat, nat_beq_iff,
}
use carmen.Mpt.Nibble.{is_prefix_of}
use carmen.Mpt.Node.{
  AccountInfo, Config, Node, NodeBase, StorageHash, account, branch, comparable_bytes, empty,
  extension, info_is_empty, path_of, value,
}
use carmen.Mpt.Node.Accounts.{find_account, find_slot, get_account, get_slot}
use carmen.Mpt.Node.Leaf.{set_path_length}
use carmen.Mpt.Node.Shape.{IsReading, is_leaf, relengthen}
use carmen.Mpt.Node.Valid.{AreNibbles, IsAccountLeaf, IsStorage}
use carmen.Mpt.Node.ValueReading.{IsPlaced-apart, IsPlaced-moved}
use carmen.Mpt.Node.Values.{get_value}
use carmen.Mpt.Node.Walk.{get_below}

-- What there is at an address: the information and the storage.
abbrev pub Entry : Type 0
Entry = AccountInfo × Node

unfoldable pub find_entry : List ℕ → Node → Option (Option Entry)
find_entry address (account n own info storage hash len) =
    some (if own == address then some (info, storage) else none)
find_entry address empty = none
find_entry address (branch n children hashes) = none
find_entry address (extension n own next hash) = none
find_entry address (value n key word len) = none

abbrev pub entry_at : List ℕ → Node → List ℕ → Option (Option Entry)
entry_at address node path = get_below (find_entry address) node path

relengthen-account :
    (config : Config) (n : NodeBase) (address : List ℕ) (info : AccountInfo) (storage : Node)
    (hash : StorageHash) (len size : ℕ)
    → (m : NodeBase) × (new : ℕ) × (relengthen config (account n address info storage hash len) size
        ≡ account m address info storage hash new)
      × (config.track_suffix_lengths ≡ true → new ≡ size % 256)
unfolding relengthen set_path_length
relengthen-account config n address info storage hash len size =
    elim (Bool-cases config.track_suffix_lengths) [
      | inl t ↦ elim (Bool-cases (len == size % 256)) [
        | inl same ↦ rw (t, same) (n, len, refl, λ _. (nat_beq_iff len (size % 256)).0 same)
        | inr f ↦ rw (t, f) (_, size % 256, refl, λ _. refl)
      ]
      | inr f ↦ rw f (n, len, refl, λ e. absurd (ground arith))
    ]

account-moved :
    (config : Config) (size below : ℕ) (prefix mid : List ℕ) (node : Node)
    → size ≡ length mid + below
    → AreNibbles mid
    → IsAccountLeaf config below (prefix ++ mid) node
    → IsAccountLeaf config size prefix (relengthen config node size)
unfolding IsAccountLeaf
account-moved config size below prefix mid empty s nibbles l = absurd l
account-moved config size below prefix mid (branch n children hashes) s nibbles l = absurd l
account-moved config size below prefix mid (extension n own next hash) s nibbles l = absurd l
account-moved config size below prefix mid (value n key word len) s nibbles l = absurd l
account-moved config size below prefix mid (account n own info storage hash len) s nibbles
      (f, placed, t) =
    let (m, new, e, tracked) = relengthen-account config n own info storage hash len size in
    subst (IsAccountLeaf config size prefix) (sym e)
      (f, IsPlaced-moved config size below prefix mid own len new s nibbles placed tracked, t)

pub account-placed :
    (config : Config) (n : NodeBase) (address : List ℕ) (info : AccountInfo) (storage : Node)
    (hash : StorageHash) (len : ℕ)
    → info_is_empty info ≡ false
    → IsStorage config 64 [] storage
    → (size : ℕ) (prefix rest : List ℕ) → path_of config address ≡ prefix ++ rest
    → length rest ≡ size
    → AreNibbles rest
    → IsAccountLeaf config size prefix
        (relengthen config (account n address info storage hash len) size)
unfolding IsAccountLeaf
account-placed config n address info storage hash len f t size prefix rest e l nibbles =
    let (m, new, made, tracked) = relengthen-account config n address info storage hash len size in
    subst (IsAccountLeaf config size prefix) (sym made) (f, (rest, e, l, nibbles, tracked), t)

account-found-moved :
    (config : Config) (k : List ℕ) (node : Node) (len : ℕ)
    → find_entry k (relengthen config node len) ≡ find_entry k node
unfolding find_entry relengthen set_path_length
account-found-moved config k empty len = ground arith
account-found-moved config k (branch n children hashes) len = ground arith
account-found-moved config k (extension n own next hash) len = ground arith
account-found-moved config k (account n address info storage hash own) len = ground arith
account-found-moved config k (value n key word own) len = ground arith

account-misplaced :
    (config : Config) (size : ℕ) (prefix : List ℕ) (node : Node) (k : List ℕ)
    → IsAccountLeaf config size prefix node
    → ((rest : List ℕ) → path_of config k ≢ prefix ++ rest)
    → find_entry k node ≡ some none
unfolding IsAccountLeaf find_entry
account-misplaced config size prefix empty k l away = absurd l
account-misplaced config size prefix (branch n children hashes) k l away = absurd l
account-misplaced config size prefix (extension n own next hash) k l away = absurd l
account-misplaced config size prefix (value n key word len) k l away = absurd l
account-misplaced config size prefix (account n own info storage hash len) k (f, placed, t) away =
    rw (IsPlaced-apart config size prefix own k len placed away) refl

account-is_leaf :
    (config : Config) (size : ℕ) (prefix : List ℕ) (node : Node)
    → IsAccountLeaf config size prefix node
    → is_leaf node ≡ true
unfolding IsAccountLeaf is_leaf
account-is_leaf config size prefix empty l = absurd l
account-is_leaf config size prefix (branch n children hashes) l = absurd l
account-is_leaf config size prefix (extension n own next hash) l = absurd l
account-is_leaf config size prefix (account n address info storage hash len) l = refl
account-is_leaf config size prefix (value n key word len) l = refl

pub entries-IsReading :
    (config : Config) → IsReading config (IsAccountLeaf config) (path_of config) find_entry
entries-IsReading config = record {
  misplaced = account-misplaced config;
  moved = account-moved config;
  found-moved = account-found-moved config;
  is_leaf_lem = account-is_leaf config;
}

-- What GetAccount and GetSlot read of an entry.
abbrev pub info_in : Option (Option Entry) → Option (Option AccountInfo)
info_in none = none
info_in (some none) = some none
info_in (some (some (info, storage))) = some (some info)

abbrev pub slot_in : Config → List ℕ → Option (Option Entry) → Option (Option ℕ)
slot_in config key none = none
slot_in config key (some none) = some none
slot_in config key (some (some (info, storage))) = get_value key storage (path_of config key)

pub get_account-entry :
    (address : List ℕ) (node : Node) (path : List ℕ)
    → get_account address node path ≡ info_in (entry_at address node path)
unfolding get_account get_below find_account find_entry
get_account-entry address empty path = refl
get_account-entry address (branch n children hashes) [] = refl
get_account-entry address (branch n children hashes) (x ∷ path) =
    get_account-entry address (children x) path
get_account-entry address (extension n own next hash) path =
    elim (Bool-cases (is_prefix_of own path)) [
      | inl t ↦ rw t (get_account-entry address next (drop (length own) path))
      | inr f ↦ rw f refl
    ]
get_account-entry address (account n own info storage hash len) path = ground arith
get_account-entry address (value n key word len) path = refl

pub get_slot-entry :
    (config : Config) (address key : List ℕ) (node : Node) (path : List ℕ)
    → get_slot config address key node path ≡ slot_in config key (entry_at address node path)
unfolding get_slot get_below find_slot find_entry
get_slot-entry config address key empty path = refl
get_slot-entry config address key (branch n children hashes) [] = refl
get_slot-entry config address key (branch n children hashes) (x ∷ path) =
    get_slot-entry config address key (children x) path
get_slot-entry config address key (extension n own next hash) path =
    elim (Bool-cases (is_prefix_of own path)) [
      | inl t ↦ rw t (get_slot-entry config address key next (drop (length own) path))
      | inr f ↦ rw f refl
    ]
get_slot-entry config address key (account n own info storage hash len) path =
    elim (Bool-cases (own == address)) [ inl t ↦ rw t refl | inr f ↦ rw f refl ]
get_slot-entry config address key (value n own word len) path = refl
