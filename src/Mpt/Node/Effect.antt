-- ===== src/Mpt/Node/Effect.antt =====
-- What an operation of database/mpt/nodes.go does to what is read, and how a branch passes it on.
use carmen.Prelude.{
  ℕ, suc, ◌<◌, ◌≤◌, ◌≡◌, ◌≢◌, refl, List, [], ◌∷◌, ◌++◌, true, false, Option, none, some,
  if◌then◌else◌, length, arith, subst, ◌∙◌, Bool-cases, inl, inr, ◌==◌, comparable_nat, nat_beq_iff,
}
use carmen.Mpt.Node.{
  ChildHashes, Config, Node, Outcome, account, branch, empty, extension, is_branch, is_empty,
  new_base, new_next, put, value,
}
use carmen.Mpt.Node.Branch.{replace_branch}
use carmen.Mpt.Node.Shape.{
  IsReading, StandsFor, append-cancel, branch-StandsFor, cons-nonempty, extension-StandsFor,
  is_leaf, leaf-StandsFor, relengthen,
}
use carmen.Mpt.Node.Valid.{IsBounded, IsForked, IsTrie}
use carmen.Mpt.Node.View.{get_below-cons, get_below-nil}
use carmen.Mpt.Node.Walk.{get_below}

module _ {ℓ κ} {A : Type ℓ} {K : Type κ} (IsLeaf : ℕ → List ℕ → Node → Type 0) (route : K → List ℕ)
    (found : K → Node → Option (Option A))
    (expected : K → Option (Option A) → Option (Option A)) where
  -- The new root is a trie at the same place, of the same kind if it is the same node; a branch is
  -- never emptied; and each reader sees what is expected from what it saw.
  unfoldable pub IsEffect : ℕ → List ℕ → Node → Outcome → Type (ℓ ⊔ κ)
  IsEffect size prefix old o =
      IsTrie IsLeaf size prefix o.root
      × (o.replaced ≡ false → (is_empty o.root ≡ is_empty old) × (is_branch o.root ≡ is_branch old))
      × (is_branch old ≡ true → is_empty o.root ≡ false)
      × ((k : K) (rest : List ℕ)
          → route k ≡ prefix ++ rest
          → length rest ≡ size
          → get_below (found k) o.root rest ≡ expected k (get_below (found k) old rest))

pub parts-at :
    (full prefix path rest : List ℕ) (pos i : ℕ)
    → full ≡ prefix ++ pos ∷ path
    → i == pos ≡ false
    → prefix ++ i ∷ rest ≢ full
parts-at full prefix path rest pos i e d g =
    let same = append-cancel prefix (i ∷ rest) (pos ∷ path) (g ∙ e) in
    let heads : i ≡ pos = cc in absurd (ground arith)

pub put-IsBounded :
    (children : ℕ → Node) (pos : ℕ) (child : Node)
    → pos < 16
    → IsBounded children
    → IsBounded (put children pos child)
put-IsBounded children pos child h b i l = ground (arith, b i)

pub put-IsForked :
    (children : ℕ → Node) (pos : ℕ) (child : Node)
    → (is_empty (children pos) ≡ false → is_empty child ≡ false)
    → IsForked children
    → IsForked (put children pos child)
put-IsForked children pos child h (i, j, d, f, g) =
    let keep = λ (k : ℕ) (e : is_empty (children k) ≡ false).
      elim (Bool-cases (k == pos)) as (λ _. is_empty (put children pos child k) ≡ false) [
        | inl t ↦ rw t (h (subst (λ x. is_empty (children x) ≡ false) ((nat_beq_iff k pos).0 t) e))
        | inr u ↦ rw u e
      ] in
    (i, j, d, keep i f, keep j g)

pub get_below-single {ℓ} :
    {A : Type ℓ} (found : Node → Option (Option A)) (pos i : ℕ) (next : Node) (rest : List ℕ)
    → get_below found (extension new_base (pos ∷ []) next new_next) (i ∷ rest)
      ≡ (if pos == i then get_below found next rest else some none)
get_below-single found pos i next rest =
    get_below-cons found new_base pos [] next new_next i rest
    ∙ rw (get_below-nil found new_base next new_next rest) refl

module _ {ℓ κ} {A : Type ℓ} {K : Type κ} (config : Config) (IsLeaf : ℕ → List ℕ → Node → Type 0)
    (route : K → List ℕ) (found : K → Node → Option (Option A))
    (laws : IsReading config IsLeaf route found) where
  -- What replaces a branch stands for the way to its last child.
  pub replace_branch-StandsFor :
      (below : ℕ) (prefix : List ℕ) (node : Node) (pos : ℕ) (hashes : ChildHashes)
      → pos < 16
      → is_empty node ≡ false
      → IsTrie IsLeaf below (prefix ++ pos ∷ []) node
      → StandsFor config IsLeaf route found laws
          (suc below)
          prefix
          (pos ∷ [])
          node
          (replace_branch config node pos hashes (suc below))
        × (is_empty (replace_branch config node pos hashes (suc below)) ≡ false)
  unfolding replace_branch is_empty relengthen is_leaf is_branch
  replace_branch-StandsFor below prefix empty pos hashes h f t = absurd (ground arith)
  replace_branch-StandsFor below prefix (branch n children own) pos hashes h f t = (
    branch-StandsFor config IsLeaf route found laws (suc below) below prefix (pos ∷ [])
        (branch n children own) _ _ (omega arith) (cons-nonempty pos []) (h, _) refl t,
    refl,
  )
  replace_branch-StandsFor below prefix (extension n path next own) pos hashes h f t = (
    extension-StandsFor config IsLeaf route found laws (suc below) below prefix (pos ∷ []) n path
        next own _ _ (omega arith) (cons-nonempty pos []) (h, _) t,
    refl,
  )
  replace_branch-StandsFor below prefix (account n address info storage own len) pos hashes h f t =
      (
        leaf-StandsFor config IsLeaf route found laws (suc below) below prefix (pos ∷ [])
            (account n address info storage own len) (omega arith) (h, _) refl t,
        ground arith,
      )
  replace_branch-StandsFor below prefix (value n key word len) pos hashes h f t = (
    leaf-StandsFor config IsLeaf route found laws (suc below) below prefix (pos ∷ [])
        (value n key word len) (omega arith) (h, _) refl t,
    ground arith,
  )

pub get_below-is_empty {ℓ} :
    {A : Type ℓ} (found : Node → Option (Option A)) (node : Node) (path : List ℕ)
    → is_empty node ≡ true
    → get_below found node path ≡ some none
unfolding get_below is_empty
get_below-is_empty found empty path h = refl
get_below-is_empty found (branch n children hashes) path h = cc
get_below-is_empty found (extension n own next hash) path h = cc
get_below-is_empty found (account n address info storage hash len) path h = cc
get_below-is_empty found (value n key word len) path h = cc

-- A forked branch has a child besides the one that is taken away.
pub remaining-child :
    (children : ℕ → Node) (pos : ℕ) (child : Node)
    → IsForked children
    → IsBounded children
    → (i : ℕ) × (i < 16) × (is_empty (put children pos child i) ≡ false)
unfolding is_empty
remaining-child children pos child (i, j, d, f, g) bounded = elim (Bool-cases (i == pos)) [
  | inl t ↦ (j, ground (arith, bounded j), ground arith)
  | inr u ↦ (i, ground (arith, bounded i), rw u f)
]

-- Out of range there is only the empty node.
pub bounded-is_empty :
    (children : ℕ → Node) (i : ℕ) → IsBounded children → 16 ≤ i → is_empty (children i) ≡ true
unfolding is_empty
bounded-is_empty children i bounded h = rw (bounded i h) refl
