-- ===== src/Mpt/Node/Accounts.antt =====
-- database/mpt/nodes.go: GetAccount, GetSlot, SetAccount, SetSlot and ClearStorage, in a state trie.
use carmen.Prelude.{
  ℕ, ◌%◌, List, true, false, not, ◌&&◌, ◌||◌, Option, none, some, if◌then◌else◌, ◌==◌, ◌>>=◌,
  length,
}
use carmen.Mpt.Node.{
  AccountInfo, Config, Node, NodeBase, Outcome, StorageHash, account, branch, clone_frozen,
  comparable_bytes, comparable_info, empty, extension, info_is_empty, is_empty, mark_dirty,
  new_base, new_storage, path_of, value,
}
use carmen.Mpt.Node.Leaf.{split_leaf_node}
use carmen.Mpt.Node.Values.{get_value, set_value}
use carmen.Mpt.Node.Walk.{get_below, set_below, unchanged}

unfoldable pub find_account : List ℕ → Node → Option (Option AccountInfo)
find_account address (account n own info storage hash len) =
    some (if own == address then some info else none)
find_account address empty = none
find_account address (branch n children hashes) = none
find_account address (extension n own next hash) = none
find_account address (value n key word len) = none

unfoldable pub get_account : List ℕ → Node → List ℕ → Option (Option AccountInfo)
unfolding get_below find_account
get_account address node path = get_below (find_account address) node path

-- AccountNode.GetSlot
unfoldable pub find_slot : Config → List ℕ → List ℕ → Node → Option (Option ℕ)
unfolding get_value path_of
find_slot config address key (account n own info storage hash len) =
    if own == address then get_value key storage (path_of config key) else some none
find_slot config address key empty = none
find_slot config address key (branch n children hashes) = none
find_slot config address key (extension n own next hash) = none
find_slot config address key (value n own word len) = none

unfoldable pub get_slot : Config → List ℕ → List ℕ → Node → List ℕ → Option (Option ℕ)
unfolding get_below find_slot
get_slot config address key node path = get_below (find_slot config address key) node path

-- EmptyNode.SetAccount
unfoldable pub create_account : List ℕ → AccountInfo → List ℕ → Outcome
unfolding mark_dirty info_is_empty
create_account address info path = if info_is_empty info then unchanged empty else record {
  root = account (mark_dirty new_base) address info empty new_storage (length path % 256);
  replaced = true;
  changed = false;
}

-- AccountNode.SetAccount; a call on a value is an error.
unfoldable pub update_account : Config → List ℕ → AccountInfo → Node → List ℕ → Option Outcome
unfolding mark_dirty clone_frozen info_is_empty split_leaf_node path_of
update_account config address info (account n own old storage hash len) path =
    if own == address
    then if info == old
      then some (unchanged (account n own old storage hash len))
      else if info_is_empty info
      then some (record { root = empty; replaced = true; changed = false })
      else some (record {
        root = account (mark_dirty (clone_frozen n)) own info storage hash len;
        replaced = n.frozen;
        changed = not n.frozen;
      })
    else if info_is_empty info
    then some (unchanged (account n own old storage hash len))
    else split_leaf_node config (account n own old storage hash len) (path_of config own)
        (account (mark_dirty new_base) address info empty new_storage 0) path
      >>= λ root. some (record {
        root = root;
        replaced = true;
        changed = not n.frozen && config.track_suffix_lengths;
      })
update_account config address info empty path = none
update_account config address info (branch n children hashes) path = none
update_account config address info (extension n own next hash) path = none
update_account config address info (value n key word len) path = none

unfoldable pub set_account : Config → List ℕ → AccountInfo → Node → List ℕ → Option Outcome
unfolding set_below create_account update_account
set_account config address info node path =
    set_below config (info_is_empty info) (create_account address info)
      (update_account config address info) node path

-- EmptyNode.SetSlot and EmptyNode.ClearStorage
abbrev pub stay_empty : List ℕ → Outcome
stay_empty path = unchanged empty

-- AccountNode.SetSlot after the call on the storage
unfoldable pub store_slot : NodeBase → List ℕ → AccountInfo → StorageHash → ℕ → Outcome → Outcome
unfolding mark_dirty clone_frozen
store_slot n own info hash len storage =
    if storage.replaced
    then record {
      root =
          account (mark_dirty (clone_frozen n)) own info storage.root
            (record hash { storage_hash_dirty = true }) len;
      replaced = n.frozen;
      changed = not n.frozen;
    }
    else record {
      root =
          account (if storage.changed then mark_dirty n else n) own info storage.root
            (if storage.changed then record hash { storage_hash_dirty = true } else hash) len;
      replaced = false;
      changed = storage.changed;
    }

-- AccountNode.SetSlot; a call on a value is an error.
unfoldable pub update_slot : Config → List ℕ → List ℕ → ℕ → Node → List ℕ → Option Outcome
unfolding set_value path_of store_slot
update_slot config address key word (account n own info storage hash len) path =
    if own == address
    then ◌>>=◌ (set_value config key word storage (path_of config key))
        (λ child. some (store_slot n own info hash len child))
    else some (unchanged (account n own info storage hash len))
update_slot config address key word empty path = none
update_slot config address key word (branch n children hashes) path = none
update_slot config address key word (extension n own next hash) path = none
update_slot config address key word (value n own old len) path = none

unfoldable pub set_slot : Config → List ℕ → List ℕ → ℕ → Node → List ℕ → Option Outcome
unfolding set_below update_slot
set_slot config address key word node path =
    set_below config true stay_empty (update_slot config address key word) node path

-- AccountNode.ClearStorage; a call on a value is an error.
unfoldable pub update_storage : List ℕ → Node → List ℕ → Option Outcome
unfolding mark_dirty clone_frozen is_empty
update_storage address (account n own info storage hash len) path =
    if not (own == address) || is_empty storage
    then some (unchanged (account n own info storage hash len))
    else some (record {
      root =
          account (mark_dirty (clone_frozen n)) own info empty
            (record hash { storage_hash_dirty = true }) len;
      replaced = n.frozen;
      changed = not n.frozen;
    })
update_storage address empty path = none
update_storage address (branch n children hashes) path = none
update_storage address (extension n own next hash) path = none
update_storage address (value n key word len) path = none

unfoldable pub clear_storage : Config → List ℕ → Node → List ℕ → Option Outcome
unfolding set_below update_storage
clear_storage config address node path =
    set_below config true stay_empty (update_storage address) node path
