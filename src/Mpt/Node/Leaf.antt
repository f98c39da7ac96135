-- ===== src/Mpt/Node/Leaf.antt =====
-- database/mpt/nodes.go: setPathLength of accounts and values, and splitLeafNode.
use carmen.Prelude.{
  ℕ, ◌+◌, ◌-◌, ◌%◌, List, [], ◌∷◌, Bool, true, false, not, ◌||◌, Option, none, some, ◌==◌,
  if◌then◌else◌, comparable_nat, length, take, drop,
}
use carmen.Mpt.Nibble.{get_common_prefix_length}
use carmen.Mpt.Node.{
  ChildHashes, Config, Node, NodeBase, hash_clean, hash_dirty, hash_unknown, Outcome, account,
  branch, clone_frozen, empty, extension, mark_child_hash_dirty, mark_dirty, new_base, new_children,
  new_hashes, new_next, put, set_child_frozen, value,
}

-- nodeBase.GetHash's second result
unfoldable pub is_hash_dirty : NodeBase → Bool
is_hash_dirty n = elim n.hash_status [
  | hash_clean ↦ false
  | hash_dirty ↦ true
  | hash_unknown ↦ true
]

-- The base of a copied value is a new one, since setPathLength and SetValue copy a frozen value by
-- its fields.
unfoldable pub clone_value : NodeBase → NodeBase
unfolding mark_dirty
clone_value n = if n.frozen then mark_dirty new_base else mark_dirty n

-- AccountNode.setPathLength and ValueNode.setPathLength; other nodes are not leaves.
unfoldable pub set_path_length : Node → ℕ → Outcome
set_path_length (account n address info storage hash old) new =
    if old == new
    then record {
      root = account n address info storage hash old;
      replaced = false;
      changed = false;
    }
    else record {
      root = account (mark_dirty (clone_frozen n)) address info storage hash new;
      replaced = n.frozen;
      changed = not n.frozen;
    }
set_path_length (value n key word old) new =
    if old == new
    then record { root = value n key word old; replaced = false; changed = false }
    else record {
      root = value (clone_value n) key word new;
      replaced = n.frozen;
      changed = not n.frozen;
    }
set_path_length empty new = record { root = empty; replaced = false; changed = false }
set_path_length (branch n children hashes) new = record {
  root = branch n children hashes;
  replaced = false;
  changed = false;
}
set_path_length (extension n path next hash) new = record {
  root = extension n path next hash;
  replaced = false;
  changed = false;
}

abbrev pub base_of : Node → NodeBase
base_of empty = new_base
base_of (branch n children hashes) = n
base_of (extension n path next hash) = n
base_of (account n address info storage hash length) = n
base_of (value n key word length) = n

-- The new branch's hashes: the sibling's is dirty; the old leaf's is, where it was changed or had no
-- clean one, and is taken over otherwise.
unfoldable pub split_hashes : Config → NodeBase → ℕ → ℕ → ChildHashes
unfolding mark_child_hash_dirty set_child_frozen is_hash_dirty
split_hashes config this this_pos sibling_pos =
    let sibling_dirty = mark_child_hash_dirty new_hashes sibling_pos in
    if config.track_suffix_lengths
    then mark_child_hash_dirty sibling_dirty this_pos
    else set_child_frozen
        (if is_hash_dirty this
          then mark_child_hash_dirty sibling_dirty this_pos
          else record sibling_dirty { hashes = put sibling_dirty.hashes this_pos this.hash })
        this_pos this.frozen

-- The extension over a common prefix, if there is one.
unfoldable pub prefix_extension : List ℕ → Node → Node
unfolding mark_dirty
prefix_extension [] next = next
prefix_extension (x ∷ path) next =
    extension (mark_dirty new_base) (x ∷ path) next (record new_next { next_hash_dirty = true })

unfoldable pub split_branch : Config → Node → ℕ → Node → ℕ → ℕ → Node
unfolding mark_dirty set_path_length split_hashes
split_branch config this this_pos sibling sibling_pos remaining =
    let update = λ (leaf : Node).
      if config.track_suffix_lengths then (set_path_length leaf remaining).root else leaf in
    branch (mark_dirty new_base)
      (put (put new_children this_pos (update this)) sibling_pos (update sibling))
      (split_hashes config (base_of this) this_pos sibling_pos)

-- The paths go on from the common prefix with the last two arguments. No node where an index is out
-- of range, or where the code panics for a hashing that is unsupported without the suffixes' lengths.
unfoldable pub split_leaf_at : Config → Node → Node → List ℕ → ℕ → List ℕ → List ℕ → Option Node
unfolding prefix_extension split_branch is_hash_dirty
split_leaf_at config this sibling prefix remaining [] own = none
split_leaf_at config this sibling prefix remaining (this_pos ∷ rest) [] = none
split_leaf_at config this sibling prefix remaining (this_pos ∷ rest) (sibling_pos ∷ own) =
    if config.track_suffix_lengths || is_hash_dirty (base_of this) || config.direct_hashing
    then some
        (prefix_extension prefix (split_branch config this this_pos sibling sibling_pos remaining))
    else none

unfoldable pub split_leaf_node : Config → Node → List ℕ → Node → List ℕ → Option Node
split_leaf_node config this this_path sibling sibling_path =
    let partial_path = drop (length this_path - length sibling_path) this_path in
    let common_length = get_common_prefix_length partial_path sibling_path in
    split_leaf_at config this sibling (take common_length sibling_path)
      (((length partial_path - common_length) % 256 + 255) % 256) (drop common_length partial_path)
      (drop common_length sibling_path)
