-- ===== src/Mpt/Node/Copies.antt =====
-- A frozen trie of database/mpt/nodes.go is never changed in place.
use mathlib.Core.Path.{fun_ext}
use carmen.Prelude.{
  ℕ, ◌≡◌, refl, List, [], ◌∷◌, Bool, true, false, not, ◌&&◌, Option, none, some, length, arith, sym,
  ap, Bool-cases, Option-cases, inl, inr, ◌==◌, comparable_nat, nat_beq_iff, drop, subst,
}
use carmen.Mpt.Nibble.{is_prefix_of}
use carmen.Mpt.Node.{
  ChildHashes, Config, NextHash, Node, NodeBase, Outcome, account, branch, clone_frozen,
  comparable_bytes, comparable_info, empty, extension, is_empty, put, value,
}
use carmen.Mpt.Node.Branch.{indices, positions, set_next_in_branch, shrink_branch}
use carmen.Mpt.Node.Extension.{
  join_prefix, link_next, replace_extension, set_next_in_extension, split_extension,
  split_extension_at,
}
use carmen.Mpt.Node.Frozen.{IsFrozen}
use carmen.Mpt.Node.Walk.{set_below, unchanged}

-- A node that is not replaced is as it was, and is not reported to have changed.
abbrev pub IsKept : Node → Outcome → Type 0
IsKept node o = o.replaced ≡ false → (o.root ≡ node) × (o.changed ≡ false)

put_same : (children : ℕ → Node) (pos : ℕ) → put children pos (children pos) ≡ children
put_same children pos = fun_ext (λ i.
    elim (Bool-cases (i == pos)) as (λ _. put children pos (children pos) i ≡ children i) [
      | inl t ↦ rw t (ap children (sym ((nat_beq_iff i pos).0 t)))
      | inr f ↦ rw f refl
    ])

shrink_branch-IsKept :
    (config : Config) (node : Node) (n : NodeBase) (children : ℕ → Node) (hashes : ChildHashes)
    (len : ℕ) (is_clone : Bool) (ps : List ℕ)
    → is_clone ≡ true
    → IsKept node (shrink_branch config n children hashes len is_clone ps)
unfolding shrink_branch
shrink_branch-IsKept config node n children hashes len is_clone [] c h = absurd (ground arith)
shrink_branch-IsKept config node n children hashes len is_clone (p ∷ []) c h = absurd (ground arith)
shrink_branch-IsKept config node n children hashes len is_clone (p ∷ q ∷ ps) c h =
    absurd (ground arith)

set_next_in_branch-IsKept :
    (config : Config) (n : NodeBase) (children : ℕ → Node) (hashes : ChildHashes) (pos len : ℕ)
    (root : Node) (replaced changed : Bool)
    → n.frozen ≡ true
    → IsKept (children pos) (record { root = root; replaced = replaced; changed = changed })
    → IsKept (branch n children hashes) (
        set_next_in_branch config n children hashes pos len
          (record { root = root; replaced = replaced; changed = changed }))
unfolding set_next_in_branch
set_next_in_branch-IsKept config n children hashes pos len root false changed f h =
    let (same, c) = h refl in
    λ r. rw (c, same) (ap (λ cs. branch n cs hashes) (put_same children pos), refl)
set_next_in_branch-IsKept config n children hashes pos len root true changed f h =
    elim (Bool-cases (not (is_empty (children pos)) && is_empty root)) [
      | inl e ↦ rw e (
          shrink_branch-IsKept config (branch n children hashes) (clone_frozen n)
            (put children pos root) _ len n.frozen (positions (put children pos root) indices) f)
      | inr g ↦ rw g (λ r. absurd (ground arith))
    ]

pub no_outcome : (o : Outcome) → none ≡ some o → ⊥
no_outcome o e = cc

outcome_of : Outcome → Option Outcome → Outcome
outcome_of p none = p
outcome_of p (some o) = o

pub some-IsKept : (node : Node) (p o : Outcome) → IsKept node p → some p ≡ some o → IsKept node o
unfolding outcome_of
some-IsKept node p o h e = subst (IsKept node) (ap (outcome_of p) e) h

set_next_in_extension-IsKept :
    (config : Config) (n : NodeBase) (own : List ℕ) (next : Node) (hash : NextHash) (len : ℕ)
    (root : Node) (replaced changed : Bool) (o : Outcome)
    → n.frozen ≡ true
    → IsKept next (record { root = root; replaced = replaced; changed = changed })
    → set_next_in_extension config n own hash len
        (record { root = root; replaced = replaced; changed = changed })
      ≡ some o
    → IsKept (extension n own next hash) o
unfolding set_next_in_extension link_next replace_extension
set_next_in_extension-IsKept config n own next hash len root false changed o f h e r =
    let (same, c) = h refl in
    some-IsKept (extension n own next hash) _ o (λ q. rw (c, same) (refl, refl)) e r
set_next_in_extension-IsKept config n own next hash len empty true changed o f h e r =
    absurd (ground arith)
set_next_in_extension-IsKept config n own next hash len (branch m children other) true changed o f h
      e r =
    absurd (ground arith)
set_next_in_extension-IsKept config n own next hash len (extension m more below other) true changed
      o f h e r =
    absurd (ground arith)
set_next_in_extension-IsKept config n own next hash len (account m address info storage other k)
      true changed o f h e r =
    absurd (ground arith)
set_next_in_extension-IsKept config n own next hash len (value m key word k) true changed o f h e
      r =
    absurd (ground arith)

split_extension_at-IsKept :
    (config : Config) (n : NodeBase) (node next : Node) (hash : NextHash)
    (created : List ℕ → Outcome) (prefix own path : List ℕ) (o : Outcome)
    → n.frozen ≡ true
    → split_extension_at config n next hash created prefix own path ≡ some o
    → IsKept node o
unfolding split_extension_at join_prefix
split_extension_at-IsKept config n node next hash created prefix [] path o f e r =
    absurd (ground arith)
split_extension_at-IsKept config n node next hash created prefix (x ∷ own) [] o f e r =
    absurd (ground arith)
split_extension_at-IsKept config n node next hash created [] (x ∷ []) (y ∷ path) o f e r =
    absurd (ground arith)
split_extension_at-IsKept config n node next hash created [] (x ∷ z ∷ own) (y ∷ path) o f e r =
    absurd (ground arith)
split_extension_at-IsKept config n node next hash created (w ∷ prefix) (x ∷ []) (y ∷ path) o f e r =
    absurd (ground arith)
split_extension_at-IsKept config n node next hash created (w ∷ prefix) (x ∷ z ∷ own) (y ∷ path) o f
      e r =
    absurd (ground arith)

module _ (config : Config) (value_is_empty : Bool) (created : List ℕ → Outcome)
    (updated : Node → List ℕ → Option Outcome)
    (created-IsKept : (path : List ℕ) → IsKept empty (created path))
    (updated-IsKept : (leaf : Node) (path : List ℕ) (o : Outcome)
      → IsFrozen leaf
      → updated leaf path ≡ some o
      → IsKept leaf o) where
  pub set_below-IsKept :
      (node : Node) (path : List ℕ) (o : Outcome)
      → IsFrozen node
      → set_below config value_is_empty created updated node path ≡ some o
      → IsKept node o
  unfolding IsFrozen set_below split_extension
  set_below-IsKept empty path o f e = some-IsKept empty (created path) o (created-IsKept path) e
  set_below-IsKept (branch n children hashes) [] o f e = λ r. absurd (ground arith)
  set_below-IsKept (branch n children hashes) (pos ∷ path) o (f, below) e =
      elim (Option-cases (set_below config value_is_empty created updated (children pos) path)) [
        | inl none_left ↦ λ r. absurd (no_outcome o (rw none_left at e))
        | inr (child, made) ↦
            let kept = set_below-IsKept (children pos) path child (below pos) made in
            some-IsKept (branch n children hashes) _ o
              (set_next_in_branch-IsKept config n children hashes pos (length (pos ∷ path))
                child.root child.replaced child.changed f kept)
              (rw made at e)
      ]
  set_below-IsKept (extension n own next hash) path o (f, below) e =
      elim (Bool-cases (is_prefix_of own path)) [
        | inl y ↦
            elim (Option-cases
              (set_below config value_is_empty created updated next (drop (length own) path))) [
                | inl none_left ↦ λ r. absurd (no_outcome o (rw (y, none_left) at e))
                | inr (child, made) ↦
                    let kept = set_below-IsKept next (drop (length own) path) child below made in
                    set_next_in_extension-IsKept config n own next hash (length path) child.root
                      child.replaced child.changed o f kept (rw (y, made) at e)
              ]
        | inr g ↦ elim (Bool-cases value_is_empty) [
          | inl v ↦
              some-IsKept (extension n own next hash) (unchanged (extension n own next hash)) o
                (λ r. (refl, refl)) (rw (g, v) at e)
          | inr v ↦
              split_extension_at-IsKept config n (extension n own next hash) next hash created _ _ _
                o f (rw (g, v) at e)
        ]
      ]
  set_below-IsKept (account n address info storage hash len) path o f e =
      updated-IsKept (account n address info storage hash len) path o f e
  set_below-IsKept (value n key word len) path o f e =
      updated-IsKept (value n key word len) path o f e
