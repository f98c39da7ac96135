-- ===== src/Mpt/Node/Branch.antt =====
-- database/mpt/nodes.go: what a BranchNode does after the call on the child.
use carmen.Prelude.{ℕ, zero, suc, ◌%◌, List, [], ◌∷◌, Bool, true, false, not, ◌&&◌, if◌then◌else◌}
use carmen.Mpt.Node.{
  ChildHashes, Config, Node, NodeBase, Outcome, account, branch, clone_frozen, empty, extension,
  is_empty, mark_child_hash_clean, mark_child_hash_dirty, mark_dirty, mark_mutable, new_base,
  new_next, put, set_child_frozen, value,
}
use carmen.Mpt.Node.Leaf.{set_path_length}

-- The positions from 0 to 15 at which there is a child.
unfoldable pub positions : (ℕ → Node) → List ℕ → List ℕ
unfolding is_empty
positions children [] = []
positions children (i ∷ more) =
    let rest = positions children more in if is_empty (children i) then rest else i ∷ rest

abbrev pub range : ℕ → ℕ → List ℕ
range first zero = []
range first (suc count) = first ∷ range (suc first) count

abbrev pub indices : List ℕ
indices = range 0 16

-- The node that replaces a branch of which one child remains, `path_length` from the leaves.
unfoldable pub replace_branch : Config → Node → ℕ → ChildHashes → ℕ → Node
unfolding mark_dirty mark_mutable set_path_length
replace_branch config (extension n path next hash) pos hashes path_length =
    extension (mark_dirty (if n.frozen then mark_mutable n else n)) (pos ∷ path) next hash
replace_branch config (branch n children own) pos hashes path_length =
    extension (mark_dirty new_base) (pos ∷ []) (branch n children own) (
      if hashes.dirty_hashes pos then record new_next { next_hash_dirty = true } else record {
        next_hash = hashes.hashes pos;
        next_hash_dirty = false;
        next_is_embedded = hashes.embedded_children pos;
      })
replace_branch config (account n address info storage hash old) pos hashes path_length =
    if config.track_suffix_lengths
    then (set_path_length (account n address info storage hash old) (path_length % 256)).root
    else account n address info storage hash old
replace_branch config (value n key word old) pos hashes path_length =
    if config.track_suffix_lengths
    then (set_path_length (value n key word old) (path_length % 256)).root
    else value n key word old
replace_branch config empty pos hashes path_length = empty

-- The branch, unless too few children remain.
unfoldable pub shrink_branch :
    Config → NodeBase → (ℕ → Node) → ChildHashes → ℕ → Bool → List ℕ → Outcome
unfolding mark_dirty replace_branch
shrink_branch config n children hashes path_length is_clone [] = record {
  root = empty;
  replaced = true;
  changed = not is_clone;
}
shrink_branch config n children hashes path_length is_clone (pos ∷ []) = record {
  root = replace_branch config (children pos) pos hashes path_length;
  replaced = true;
  changed = not is_clone;
}
shrink_branch config n children hashes path_length is_clone (pos ∷ next ∷ more) = record {
  root = branch (mark_dirty n) children hashes;
  replaced = is_clone;
  changed = not is_clone;
}

-- BranchNode.setNextNode from the outcome of the call on the child at `pos`. The path to the leaves,
-- this branch's nibble included, is of length `path_length`.
unfoldable pub set_next_in_branch :
    Config → NodeBase → (ℕ → Node) → ChildHashes → ℕ → ℕ → Outcome → Outcome
unfolding mark_dirty clone_frozen mark_child_hash_dirty mark_child_hash_clean set_child_frozen
    is_empty positions shrink_branch
set_next_in_branch config n children hashes pos path_length child =
    let new_children = put children pos child.root in
    let dirty_child = set_child_frozen (mark_child_hash_dirty hashes pos) pos false in
    if not child.replaced
    then record {
      root =
          branch (if child.changed then mark_dirty n else n) new_children
            (if child.changed then mark_child_hash_dirty hashes pos else hashes);
      replaced = false;
      changed = child.changed;
    }
    else if not (is_empty (children pos)) && is_empty child.root
    then shrink_branch config (clone_frozen n) new_children (mark_child_hash_clean dirty_child pos)
        path_length n.frozen (positions new_children indices)
    else record {
      root = branch (mark_dirty (clone_frozen n)) new_children dirty_child;
      replaced = n.frozen;
      changed = not n.frozen;
    }
