-- ===== src/Mpt/Node/Stale.antt =====
-- What an extension of database/mpt/nodes.go reports when its next branch has been copied.
use carmen.Prelude.{ℕ, ◌≡◌, refl, List, Bool, true, false, some, arith}
use carmen.Mpt.Node.{
  ChildHashes, Config, NextHash, Node, NodeBase, Outcome, account, branch, empty, extension,
  is_branch, put, value,
}
use carmen.Mpt.Node.Branch.{set_next_in_branch}
use carmen.Mpt.Node.Extension.{link_next, set_next_in_extension}
use carmen.Mpt.Node.Leaf.{base_of, is_hash_dirty}

linked :
    (config : Config) (n : NodeBase) (own : List ℕ) (hash : NextHash) (len : ℕ) (root : Node)
    → n.frozen ≡ false
    → is_branch root ≡ true
    → (o : Outcome) × (set_next_in_extension config n own hash len
          (record { root = root; replaced = true; changed = false })
        ≡ some o)
      × (o.replaced ≡ false)
      × (o.changed ≡ false)
      × (is_hash_dirty (base_of o.root) ≡ true)
unfolding set_next_in_extension link_next is_hash_dirty is_branch
linked config n own hash len empty f b = absurd (ground arith)
linked config n own hash len (branch m children other) f b = (_, refl, f, refl, refl)
linked config n own hash len (extension m more next other) f b = absurd (ground arith)
linked config n own hash len (account m address info storage other k) f b = absurd (ground arith)
linked config n own hash len (value m key word k) f b = absurd (ground arith)

silent_branch :
    (config : Config) (n : NodeBase) (children : ℕ → Node) (hashes : ChildHashes) (pos len : ℕ)
    (root : Node)
    → set_next_in_branch config n children hashes pos len
        (record { root = root; replaced = false; changed = false })
      ≡ (record {
        root = branch n (put children pos root) hashes;
        replaced = false;
        changed = false;
      })
unfolding set_next_in_branch
silent_branch config n children hashes pos len root = refl

silent_outcome :
    (config : Config) (n : NodeBase) (children : ℕ → Node) (hashes : ChildHashes) (pos len : ℕ)
    (root : Node) (replaced changed : Bool)
    → replaced ≡ false
    → changed ≡ false
    → set_next_in_branch config n children hashes pos len
        (record { root = root; replaced = replaced; changed = changed })
      ≡ (record {
        root = branch n (put children pos root) hashes;
        replaced = false;
        changed = false;
      })
silent_outcome config n children hashes pos len root true changed r c = absurd (ground arith)
silent_outcome config n children hashes pos len root false true r c = absurd (ground arith)
silent_outcome config n children hashes pos len root false false r c =
    silent_branch config n children hashes pos len root

-- A mutable extension whose next branch is replaced by a copy is changed in place, its hash
-- becomes dirty, and yet a parent branch is told of no change: it keeps its hash status and marks
-- no hash of a child as dirty.
pub unreported_change :
    (config : Config) (n m : NodeBase) (own : List ℕ) (hash : NextHash) (size len pos : ℕ)
    (copy : Node) (children : ℕ → Node) (hashes : ChildHashes)
    → n.frozen ≡ false
    → is_branch copy ≡ true
    → (o : Outcome) × (set_next_in_extension config n own hash size
          (record { root = copy; replaced = true; changed = false })
        ≡ some o)
      × (is_hash_dirty (base_of o.root) ≡ true)
      × (set_next_in_branch config m children hashes pos len o ≡ (record {
        root = branch m (put children pos o.root) hashes;
        replaced = false;
        changed = false;
      }))
unreported_change config n m own hash size len pos copy children hashes f b =
    let (o, made, r, c, d) = linked config n own hash size copy f b in
    (o, made, d, silent_outcome config m children hashes pos len o.root o.replaced o.changed r c)
