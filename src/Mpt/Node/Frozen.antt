-- ===== src/Mpt/Node/Frozen.antt =====
-- Freezing nodes, and the copies that database/mpt/nodes.go makes of frozen nodes.
use carmen.Prelude.{ℕ, ◌≡◌, refl, Bool, true, false, ◌||◌, if◌then◌else◌, comparable_nat}
use carmen.Mpt.Node.{Node, NodeBase, account, branch, empty, extension, is_empty, value}

-- nodeBase.MarkFrozen
unfoldable pub mark_frozen : NodeBase → NodeBase
mark_frozen n = record n { frozen = true }

-- Freeze. A child that is marked as frozen is not visited, nor is an empty one, which stands also for
-- each position out of range.
unfoldable pub freeze : Node → Node
unfolding mark_frozen is_empty
freeze empty = empty
freeze (branch n children hashes) =
    let frozen_child = λ (i : ℕ). freeze (children i) in
    if n.frozen
    then branch n children hashes
    else branch (mark_frozen n)
        (λ i.
          if is_empty (children i) || hashes.frozen_children i then children i else frozen_child i)
        (record hashes {
          frozen_children = λ i. if is_empty (children i) then hashes.frozen_children i else true;
        })
freeze (extension n own next hash) =
    let frozen_next = freeze next in
    if n.frozen then extension n own next hash else extension (mark_frozen n) own frozen_next hash
freeze (account n address info storage hash len) =
    let frozen_storage = freeze storage in
    if n.frozen
    then account n address info storage hash len
    else account (mark_frozen n) address info frozen_storage hash len
freeze (value n key word len) = value (mark_frozen n) key word len

-- All nodes are frozen.
unfoldable pub IsFrozen : Node → Type 0
IsFrozen empty = Unit
IsFrozen (branch n children hashes) = (n.frozen ≡ true) × ((i : ℕ) → IsFrozen (children i))
IsFrozen (extension n own next hash) = (n.frozen ≡ true) × IsFrozen next
IsFrozen (account n address info storage hash len) = (n.frozen ≡ true) × IsFrozen storage
IsFrozen (value n key word len) = n.frozen ≡ true

-- What Check asks of the frozen flags: below a frozen node, and at a child that is marked so, all nodes
-- are frozen.
unfoldable pub IsConsistent : Node → Type 0
unfolding IsFrozen
IsConsistent empty = Unit
IsConsistent (branch n children hashes) =
    (n.frozen ≡ true → (i : ℕ) → IsFrozen (children i))
    × ((i : ℕ) → hashes.frozen_children i ≡ true → IsFrozen (children i))
    × ((i : ℕ) → IsConsistent (children i))
IsConsistent (extension n own next hash) = (n.frozen ≡ true → IsFrozen next) × IsConsistent next
IsConsistent (account n address info storage hash len) =
    (n.frozen ≡ true → IsFrozen storage) × IsConsistent storage
IsConsistent (value n key word len) = Unit

child-IsFrozen :
    (node : Node) (marked : Bool)
    → (marked ≡ true → IsFrozen node)
    → IsFrozen (freeze node)
    → IsFrozen (if is_empty node || marked then node else freeze node)
unfolding IsFrozen freeze is_empty
child-IsFrozen empty marked h g = _
child-IsFrozen (branch n children hashes) true h g = h refl
child-IsFrozen (branch n children hashes) false h g = g
child-IsFrozen (extension n own next hash) true h g = h refl
child-IsFrozen (extension n own next hash) false h g = g
child-IsFrozen (account n address info storage hash len) true h g = h refl
child-IsFrozen (account n address info storage hash len) false h g = g
child-IsFrozen (value n key word len) true h g = h refl
child-IsFrozen (value n key word len) false h g = g

if-IsFrozen :
    (b : Bool) (x y : Node)
    → (b ≡ true → IsFrozen x)
    → (b ≡ false → IsFrozen y)
    → IsFrozen (if b then x else y)
if-IsFrozen true x y h g = h refl
if-IsFrozen false x y h g = g refl

-- Freeze leaves no node of a trie with consistent frozen flags that is not frozen.
pub freeze-IsFrozen : (node : Node) → IsConsistent node → IsFrozen (freeze node)
unfolding IsConsistent IsFrozen freeze mark_frozen
freeze-IsFrozen empty c = _
freeze-IsFrozen (branch n children hashes) (own, marked, below) =
    if-IsFrozen n.frozen _ _ (λ t. (t, own t))
      (λ f. (
        refl,
        λ i.
            child-IsFrozen (children i) (hashes.frozen_children i) (marked i)
              (freeze-IsFrozen (children i) (below i)),
      ))
freeze-IsFrozen (extension n own next hash) (frozen, below) =
    if-IsFrozen n.frozen _ _ (λ t. (t, frozen t)) (λ f. (refl, freeze-IsFrozen next below))
freeze-IsFrozen (account n address info storage hash len) (frozen, below) =
    if-IsFrozen n.frozen _ _ (λ t. (t, frozen t)) (λ f. (refl, freeze-IsFrozen storage below))
freeze-IsFrozen (value n key word len) c = refl
