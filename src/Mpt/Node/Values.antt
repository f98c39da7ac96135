-- ===== src/Mpt/Node/Values.antt =====
-- database/mpt/nodes.go: GetValue and SetValue, in a storage trie.
use carmen.Prelude.{
  ℕ, ◌%◌, List, true, false, not, Option, none, some, if◌then◌else◌, ◌==◌, ◌>>=◌, comparable_nat,
  length,
}
use carmen.Mpt.Node.{
  Config, Node, Outcome, account, branch, comparable_bytes, empty, extension, mark_dirty, new_base,
  path_of, value,
}
use carmen.Mpt.Node.Leaf.{clone_value, split_leaf_node}
use carmen.Mpt.Node.Walk.{get_below, set_below, unchanged}

unfoldable pub find_value : List ℕ → Node → Option (Option ℕ)
find_value key (value n own word len) = some (if own == key then some word else none)
find_value key empty = none
find_value key (branch n children hashes) = none
find_value key (extension n own next hash) = none
find_value key (account n address info storage hash len) = none

unfoldable pub get_value : List ℕ → Node → List ℕ → Option (Option ℕ)
unfolding get_below find_value
get_value key node path = get_below (find_value key) node path

-- EmptyNode.SetValue
unfoldable pub create_value : List ℕ → ℕ → List ℕ → Outcome
unfolding mark_dirty
create_value key word path = if word == 0 then unchanged empty else record {
  root = value (mark_dirty new_base) key word (length path % 256);
  replaced = true;
  changed = true;
}

-- ValueNode.SetValue; a call on any other leaf is an error.
unfoldable pub update_value : Config → List ℕ → ℕ → Node → List ℕ → Option Outcome
unfolding mark_dirty clone_value split_leaf_node path_of
update_value config key word (value n own old len) path =
    if own == key
    then if word == old
      then some (unchanged (value n own old len))
      else if word == 0
      then some (record { root = empty; replaced = true; changed = not n.frozen })
      else some (record {
        root = value (clone_value n) own word len;
        replaced = n.frozen;
        changed = not n.frozen;
      })
    else if word == 0
    then some (unchanged (value n own old len))
    else split_leaf_node config (value n own old len) (path_of config own)
        (value (mark_dirty new_base) key word 0) path
      >>= λ root. some (record { root = root; replaced = true; changed = false })
update_value config key word empty path = none
update_value config key word (branch n children hashes) path = none
update_value config key word (extension n own next hash) path = none
update_value config key word (account n address info storage hash len) path = none

unfoldable pub set_value : Config → List ℕ → ℕ → Node → List ℕ → Option Outcome
unfolding set_below create_value update_value
set_value config key word node path =
    set_below config (word == 0) (create_value key word) (update_value config key word) node path
