-- ===== src/Mpt/Node/Extension.antt =====
-- database/mpt/nodes.go: what an ExtensionNode does before and after the call on the next node.
use carmen.Prelude.{
  ℕ, ◌%◌, List, [], ◌∷◌, ◌++◌, Bool, true, false, not, Option, none, some, if◌then◌else◌, length,
  take, drop,
}
use carmen.Mpt.Nibble.{get_common_prefix_length}
use carmen.Mpt.Node.{
  ChildHashes, Config, Node, NodeBase, NextHash, Outcome, account, branch, clone_frozen, empty,
  extension, mark_child_hash_dirty, mark_dirty, new_base, new_children, new_hashes, new_next, put,
  set_child_frozen, set_embedded, value,
}
use carmen.Mpt.Node.Leaf.{set_path_length}
use carmen.Mpt.Node.Branch.{set_next_in_branch}

-- A leaf in place of the extension that led to it; nothing where the code panics.
unfoldable pub replace_extension : Config → NodeBase → ℕ → Node → Option Outcome
unfolding set_path_length
replace_extension config n path_length empty =
    if config.track_suffix_lengths
    then none
    else some (record { root = empty; replaced = true; changed = not n.frozen })
replace_extension config n path_length leaf = some (record {
  root =
      if config.track_suffix_lengths then (set_path_length leaf (path_length % 256)).root else leaf;
  replaced = true;
  changed = not n.frozen;
})

-- The extension to another next node.
unfoldable pub link_next : Config → NodeBase → List ℕ → NextHash → ℕ → Bool → Node → Option Outcome
unfolding mark_dirty clone_frozen replace_extension
link_next config n path hash path_length has_changed (extension base more next own) = some (record {
  root =
      extension (mark_dirty (clone_frozen n)) (path ++ more) next
        (if own.next_hash_dirty then record hash { next_hash_dirty = true } else own);
  replaced = n.frozen;
  changed = has_changed;
})
link_next config n path hash path_length has_changed (branch base children own) = some (record {
  root =
      extension (mark_dirty (clone_frozen n)) path (branch base children own)
        (record hash { next_hash_dirty = true });
  replaced = n.frozen;
  changed = has_changed;
})
link_next config n path hash path_length has_changed empty =
    replace_extension config n path_length empty
link_next config n path hash path_length has_changed (account base address info storage own len) =
    replace_extension config n path_length (account base address info storage own len)
link_next config n path hash path_length has_changed (value base key word len) =
    replace_extension config n path_length (value base key word len)

-- ExtensionNode.setNextNode from the outcome of the call on the next node.
unfoldable pub set_next_in_extension :
    Config → NodeBase → List ℕ → NextHash → ℕ → Outcome → Option Outcome
unfolding mark_dirty link_next
set_next_in_extension config n path hash path_length next =
    if next.replaced
    then link_next config n path hash path_length next.changed next.root
    else some (record {
      root =
          extension (if next.changed then mark_dirty n else n) path next.root
            (if next.changed then record hash { next_hash_dirty = true } else hash);
      replaced = false;
      changed = next.changed;
    })

-- The new branch's child on the old path: the extension without the nibbles up to the branch, or the
-- next node itself where no nibble is left.
unfoldable pub rest_of_extension : NodeBase → List ℕ → Node → NextHash → Node
unfolding mark_dirty clone_frozen
rest_of_extension n [] next hash = next
rest_of_extension n (x ∷ path) next hash =
    extension (mark_dirty (clone_frozen n)) (x ∷ path) next hash

unfoldable pub rest_hashes : NodeBase → ℕ → List ℕ → NextHash → ChildHashes
unfolding mark_child_hash_dirty set_child_frozen set_embedded
rest_hashes n pos [] hash =
    set_child_frozen
      (if hash.next_hash_dirty
        then mark_child_hash_dirty new_hashes pos
        else set_embedded (record new_hashes { hashes = put new_hashes.hashes pos hash.next_hash })
            pos hash.next_is_embedded)
      pos n.frozen
rest_hashes n pos (x ∷ path) hash = mark_child_hash_dirty new_hashes pos

-- The extension over the common prefix, if there is one. It is this node, or its copy, unless the
-- child on the old path is.
unfoldable pub join_prefix : NodeBase → List ℕ → List ℕ → NextHash → Node → Outcome
unfolding mark_dirty clone_frozen
join_prefix n [] [] hash next = record { root = next; replaced = true; changed = false }
join_prefix n [] (x ∷ rest) hash next = record {
  root = next;
  replaced = true;
  changed = not n.frozen;
}
join_prefix n (y ∷ prefix) [] hash next = record {
  root =
      extension (mark_dirty (clone_frozen n)) (y ∷ prefix) next
        (record hash { next_hash_dirty = true });
  replaced = n.frozen;
  changed = not n.frozen;
}
join_prefix n (y ∷ prefix) (x ∷ rest) hash next = record {
  root =
      extension (mark_dirty new_base) (y ∷ prefix) next
        (record new_next { next_hash_dirty = true });
  replaced = true;
  changed = not n.frozen;
}

-- ExtensionNode.setNextNode where the path parts from the extension's: the two go on from the common
-- prefix with the last two arguments, and nothing results where an index is out of range. The call
-- on the new branch reaches its child at the path's nibble, the empty node, with outcome `created`.
unfoldable pub split_extension_at :
    Config
    → NodeBase
    → Node
    → NextHash
    → (List ℕ → Outcome)
    → List ℕ
    → List ℕ
    → List ℕ
    → Option Outcome
unfolding rest_of_extension rest_hashes join_prefix set_next_in_branch
split_extension_at config n next hash created prefix [] path = none
split_extension_at config n next hash created prefix (own_pos ∷ own) [] = none
split_extension_at config n next hash created prefix (own_pos ∷ own) (pos ∷ rest) = some (
    join_prefix n prefix own hash
      (set_next_in_branch config new_base
        (put new_children own_pos (rest_of_extension n own next hash))
        (rest_hashes n own_pos own hash) pos (length (pos ∷ rest)) (created rest)).root)

unfoldable pub split_extension :
    Config → NodeBase → List ℕ → Node → NextHash → List ℕ → (List ℕ → Outcome) → Option Outcome
split_extension config n own next hash path created =
    let common_length = get_common_prefix_length own path in
    split_extension_at config n next hash created (take common_length path) (drop common_length own)
      (drop common_length path)
