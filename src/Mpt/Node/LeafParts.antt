-- ===== src/Mpt/Node/LeafParts.antt =====
-- The parts of a split leaf of database/mpt/nodes.go: the cut of the paths and the extension over
-- the new branch.
use carmen.Prelude.{
  ℕ, zero, suc, ◌+◌, ◌-◌, ◌%◌, ◌≡◌, ◌≢◌, refl, List, [], ◌∷◌, ◌++◌, true, false, Option, length,
  length-append, append-nil, arith, subst, sym, ◌∙◌, ap, Bool-cases, inl, inr, take, drop,
  drop-append,
}
use carmen.Mpt.Nibble.{get_common_prefix_length, is_prefix_of}
use carmen.Mpt.Nibble.Prefix.{append-drop_prefix}
use carmen.Mpt.Node.{
  Config, Node, account, branch, empty, extension, is_branch, is_empty, new_base, new_next, value,
}
use carmen.Mpt.Node.ExtensionEffect.{get_below-parts}
use carmen.Mpt.Node.Leaf.{prefix_extension, split_leaf_at, split_leaf_node}
use carmen.Mpt.Node.Shape.{
  IsReading, StandsFor, branch-StandsFor, cons-nonempty, get_below-leaf, is_leaf, prefix-parts,
  relengthen,
}
use carmen.Mpt.Node.SplitEffect.{nil-StandsFor}
use carmen.Mpt.Node.Valid.{AreNibbles, IsTrie}
use carmen.Mpt.Node.View.{get_below-rest}
use carmen.Mpt.Node.Walk.{get_below}

-- Of two paths of one length, one is a prefix of the other only if they are the same.
pub distinct-is_prefix_of :
    (own path : List ℕ) → length own ≡ length path → own ≢ path → is_prefix_of own path ≡ false
distinct-is_prefix_of own path l d = elim (Bool-cases (is_prefix_of own path)) [
  | inl y ↦
      let whole = append-drop_prefix own path y in
      absurd (d (same own (drop (length own) path) path l whole))
  | inr f ↦ f
]
  where
    same : (own rest path : List ℕ) → length own ≡ length path → own ++ rest ≡ path → own ≡ path
    same own [] path l e = sym (append-nil own) ∙ e
    same own (x ∷ rest) path l e =
        absurd (omega (arith, length-append own (x ∷ rest), ap (λ (z : List ℕ). length z) e))

pub length-drop : (n : ℕ) (xs : List ℕ) → length (drop n xs) ≡ length xs - n
length-drop zero xs = omega arith
length-drop (suc n) [] = omega arith
length-drop (suc n) (x ∷ xs) = omega (arith, length-drop n xs)

pub cut-append :
    (whole prefix partial path : List ℕ)
    → whole ≡ prefix ++ partial
    → length partial ≡ length path
    → drop (length whole - length path) whole ≡ partial
cut-append whole prefix partial path e l =
    let n : length whole - length path ≡ length prefix =
      omega (arith, length-append prefix partial, ap (λ (z : List ℕ). length z) e) in
    rw (n, e) (drop-append prefix partial)

-- splitLeafNode from the ends of its paths.
pub split_leaf_node_eq :
    (config : Config) (this sibling : Node) (this_path partial path own rest : List ℕ)
    (remaining : ℕ)
    → drop (length this_path - length path) this_path ≡ partial
    → ((length partial - get_common_prefix_length partial path) % 256 + 255) % 256 ≡ remaining
    → drop (get_common_prefix_length partial path) partial ≡ own
    → drop (get_common_prefix_length partial path) path ≡ rest
    → split_leaf_node config this this_path sibling path
      ≡ split_leaf_at config this sibling
          (take (get_common_prefix_length partial path) path)
          remaining
          own
          rest
unfolding split_leaf_node
split_leaf_node_eq config this sibling this_path partial path own rest remaining cut e p q =
    rw (cut, e, p, q) refl

pub leaf-is_empty : (node : Node) → is_leaf node ≡ true → is_empty node ≡ false
unfolding is_leaf is_empty
leaf-is_empty empty h = cc
leaf-is_empty (branch n children hashes) h = refl
leaf-is_empty (extension n own next hash) h = refl
leaf-is_empty (account n address info storage hash len) h = refl
leaf-is_empty (value n key word len) h = refl

pub leaf-is_branch : (node : Node) → is_leaf node ≡ true → is_branch node ≡ true → ⊥
unfolding is_leaf is_branch
leaf-is_branch empty h g = cc
leaf-is_branch (branch n children hashes) h g = cc
leaf-is_branch (extension n own next hash) h g = cc
leaf-is_branch (account n address info storage hash len) h g = cc
leaf-is_branch (value n key word len) h g = cc

module _ {ℓ κ} {A : Type ℓ} {K : Type κ} (config : Config) (IsLeaf : ℕ → List ℕ → Node → Type 0)
    (route : K → List ℕ) (found : K → Node → Option (Option A))
    (laws : IsReading config IsLeaf route found) where
  pub prefix_extension-StandsFor :
      (size below : ℕ) (prefix common : List ℕ) (new : Node)
      → size ≡ length common + below
      → AreNibbles common
      → is_branch new ≡ true
      → IsTrie IsLeaf below (prefix ++ common) new
      → StandsFor config IsLeaf route found laws size prefix common new
          (prefix_extension common new)
  unfolding prefix_extension
  prefix_extension-StandsFor size below prefix [] new s nibbles b t =
      nil-StandsFor config IsLeaf route found laws size below prefix new s t
  prefix_extension-StandsFor size below prefix (x ∷ common) new s nibbles b t =
      branch-StandsFor config IsLeaf route found laws size below prefix (x ∷ common) new _ _ s
        (cons-nonempty x common) nibbles b t

  -- A leaf is seen as before at the end of a longer way.
  pub lowered-seen :
      (size : ℕ) (prefix mid : List ℕ) (leaf : Node) (len : ℕ) (k : K) (path : List ℕ)
      → IsLeaf size (prefix ++ mid) (relengthen config leaf len)
      → route k ≡ prefix ++ path
      → get_below (found k) (extension new_base mid (relengthen config leaf len) new_next) path
        ≡ found k leaf
  lowered-seen size prefix mid leaf len k path placed r =
      elim (Bool-cases (is_prefix_of mid path)) [
        | inl y ↦
            subst
              (λ z.
                get_below (found k) (extension new_base mid (relengthen config leaf len) new_next) z
                ≡ found k leaf)
              (append-drop_prefix mid path y)
              (get_below-rest (found k) new_base mid _ new_next (drop (length mid) path)
                ∙ get_below-leaf (found k) (relengthen config leaf len) _
                    (laws.is_leaf_lem size (prefix ++ mid) (relengthen config leaf len) placed)
                ∙ laws.found-moved k leaf len)
        | inr f ↦
            get_below-parts (found k) new_base mid _ new_next path f
            ∙ sym (
                laws.misplaced size (prefix ++ mid) (relengthen config leaf len) k placed
                  (prefix-parts (route k) prefix mid path r f))
            ∙ laws.found-moved k leaf len
      ]
