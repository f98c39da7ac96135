-- ===== src/Mpt/Node/BranchEffect.antt =====
-- How a BranchNode of database/mpt/nodes.go passes on what the call on its child does.
use carmen.Prelude.{
  ℕ, suc, ◌<◌, ◌≡◌, ◌≢◌, refl, List, [], ◌∷◌, ◌++◌, Bool, true, false, not, Option, length,
  append_assoc, arith, subst, sym, ◌∙◌, ap, Bool-cases, inl, inr, ◌==◌, comparable_nat, nat_beq_iff,
  ◌&&◌, ltb, ltb→lt, ◌⊎◌,
}
use carmen.Mpt.Node.{
  ChildHashes, Config, Node, NodeBase, Outcome, branch, extension, is_branch, clone_frozen,
  is_empty, new_base, new_next, put,
}
use carmen.Mpt.Node.Branch.{indices, positions, replace_branch, set_next_in_branch, shrink_branch}
use carmen.Mpt.Node.Effect.{
  IsEffect, get_below-single, get_below-is_empty, remaining-child, bounded-is_empty, parts-at,
  put-IsBounded, put-IsForked, replace_branch-StandsFor,
}
use carmen.Mpt.Node.Positions.{found-position, position-found, positions-distinct}
use carmen.Mpt.Node.Shape.{IsReading}
use carmen.Mpt.Node.Valid.{IsBounded, IsForked, IsTrie}
use carmen.Mpt.Node.View.{get_below-branch}
use carmen.Mpt.Node.Walk.{get_below}

pub branch-IsTrie :
    (IsLeaf : ℕ → List ℕ → Node → Type 0) (size below : ℕ) (prefix : List ℕ) (n : NodeBase)
    (children : ℕ → Node) (hashes : ChildHashes)
    → size ≡ suc below
    → ((i : ℕ) → IsTrie IsLeaf below (prefix ++ i ∷ []) (children i))
    → IsForked children
    → IsBounded children
    → IsTrie IsLeaf size prefix (branch n children hashes)
unfolding IsTrie
branch-IsTrie IsLeaf size below prefix n children hashes e t f b = (below, e, t, f, b)

module _ {ℓ κ} {A : Type ℓ} {K : Type κ} (config : Config) (IsLeaf : ℕ → List ℕ → Node → Type 0)
    (route : K → List ℕ) (found : K → Node → Option (Option A))
    (laws : IsReading config IsLeaf route found)
    (expected : K → Option (Option A) → Option (Option A)) (full : List ℕ)
    (elsewhere : (k : K) → route k ≢ full → (r : Option (Option A)) → expected k r ≡ r) (below : ℕ)
    (prefix path : List ℕ) (pos : ℕ) (target : full ≡ prefix ++ pos ∷ path) (bound : pos < 16)
    (children : ℕ → Node) (o : Outcome)
    (tries : (i : ℕ) → IsTrie IsLeaf below (prefix ++ i ∷ []) (children i))
    (bounded : IsBounded children)
    (effect : IsEffect IsLeaf route found expected below
      (prefix ++ pos ∷ [])
      (children pos)
      o) where
  put-IsTrie : (i : ℕ) → IsTrie IsLeaf below (prefix ++ i ∷ []) (put children pos o.root i)
  unfolding IsEffect
  put-IsTrie i = elim (Bool-cases (i == pos)) [
    | inl t ↦ rw t (
        subst (λ j. IsTrie IsLeaf below (prefix ++ j ∷ []) o.root) (sym ((nat_beq_iff i pos).0 t))
          effect.0)
    | inr f ↦ rw f (tries i)
  ]

  -- What is seen of each child.
  put-seen :
      (k : K) (i : ℕ) (rest : List ℕ)
      → route k ≡ prefix ++ i ∷ rest
      → length rest ≡ below
      → get_below (found k) (put children pos o.root i) rest
        ≡ expected k (get_below (found k) (children i) rest)
  unfolding IsEffect
  put-seen k i rest r l = elim (Bool-cases (i == pos)) [
    | inl t ↦
        let same = (nat_beq_iff i pos).0 t in
        rw t (
          subst
            (λ j.
              get_below (found k) o.root rest ≡ expected k (get_below (found k) (children j) rest))
            (sym same)
            (effect.3 k rest
              (r ∙ ap (λ j. prefix ++ j ∷ rest) same ∙ sym (append_assoc prefix (pos ∷ []) rest))
              l))
    | inr f ↦ rw f (
        sym (
          elsewhere k (λ e. parts-at full prefix path rest pos i target f (sym r ∙ e))
            (get_below (found k) (children i) rest)))
  ]

  -- The branch with the child's new root, where enough children remain.
  kept-IsEffect :
      (size : ℕ) (n m : NodeBase) (hashes other : ChildHashes) (replaced changed : Bool)
      → size ≡ suc below
      → IsForked (put children pos o.root)
      → IsEffect IsLeaf route found expected size prefix (branch n children hashes) (record {
        root = branch m (put children pos o.root) other;
        replaced = replaced;
        changed = changed;
      })
  unfolding IsEffect is_empty is_branch
  kept-IsEffect size n m hashes other replaced changed s forked = (
    branch-IsTrie IsLeaf size below prefix m (put children pos o.root) other s put-IsTrie forked
        (put-IsBounded children pos o.root bound bounded),
    λ _. (refl, refl),
    λ _. refl,
    seen,
  )
    where
      seen :
          (k : K) (rest : List ℕ)
          → route k ≡ prefix ++ rest
          → length rest ≡ size
          → get_below (found k) (branch m (put children pos o.root) other) rest
            ≡ expected k (get_below (found k) (branch n children hashes) rest)
      seen k [] r l = absurd (omega arith)
      seen k (i ∷ rest) r l =
          rw
            (
              get_below-branch (found k) m (put children pos o.root) other i rest,
              get_below-branch (found k) n children hashes i rest,
            )
            (put-seen k i rest r (omega arith))

  -- What is seen through the one child that the loop finds.
  single-seen :
      (k : K) (p i : ℕ) (rest : List ℕ)
      → positions (put children pos o.root) indices ≡ p ∷ []
      → get_below
          (found k)
          (extension new_base (p ∷ []) (put children pos o.root p) new_next)
          (i ∷ rest)
        ≡ get_below (found k) (put children pos o.root i) rest
  single-seen k p i rest ps =
      let children2 = put children pos o.root in
      get_below-single (found k) p i (children2 p) rest ∙ elim (Bool-cases (p == i)) [
        | inl t ↦ rw (t, (nat_beq_iff p i).0 t) refl
        | inr f ↦ rw f (
            sym (
              get_below-is_empty (found k) (children2 i) rest
                (elim (Bool-cases (is_empty (children2 i))) [
                  | inl e ↦ e
                  | inr g ↦ absurd (elim (Bool-cases (ltb i 16)) [
                    | inl b ↦
                        let m : (i ≡ p) ⊎ ⊥ =
                          position-found children2 (p ∷ []) i ps (ltb→lt i 16 b) g in
                        ground arith
                    | inr b ↦
                        let gone =
                          bounded-is_empty children2 i
                            (put-IsBounded children pos o.root bound bounded) (ground arith) in
                        ground arith
                  ])
                ])))
      ]

  single-IsEffect :
      (n : NodeBase) (hashes other : ChildHashes) (changed : Bool) (p : ℕ)
      → positions (put children pos o.root) indices ≡ p ∷ []
      → IsEffect IsLeaf route found expected (suc below) prefix (branch n children hashes) (record {
        root = replace_branch config (put children pos o.root p) p other (suc below);
        replaced = true;
        changed = changed;
      })
  unfolding IsEffect
  single-IsEffect n hashes other changed p ps =
      let at = found-position (put children pos o.root) (p ∷ []) p ps (inl refl) in
      let stands =
        replace_branch-StandsFor config IsLeaf route found laws below prefix
          (put children pos o.root p) p other at.1 at.0 (put-IsTrie p) in
      (stands.0.0, λ h. absurd (ground arith), λ _. stands.1, seen (stands.0.1))
    where
      seen :
          ((k : K) (rest : List ℕ)
            → route k ≡ prefix ++ rest
            → get_below
                (found k)
                (replace_branch config (put children pos o.root p) p other (suc below))
                rest
              ≡ get_below
                  (found k)
                  (extension new_base (p ∷ []) (put children pos o.root p) new_next)
                  rest)
          → (k : K) (rest : List ℕ) → route k ≡ prefix ++ rest
          → length rest ≡ suc below
          → get_below
              (found k)
              (replace_branch config (put children pos o.root p) p other (suc below))
              rest
            ≡ expected k (get_below (found k) (branch n children hashes) rest)
      seen via k [] r l = absurd (omega arith)
      seen via k (i ∷ rest) r l =
          via k (i ∷ rest) r
          ∙ single-seen k p i rest ps
          ∙ put-seen k i rest r (omega arith)
          ∙ ap (expected k) (sym (get_below-branch (found k) n children hashes i rest))

  -- The branch that one child is taken from, by what the loop over the others finds.
  shrink_branch-IsEffect :
      (n m : NodeBase) (hashes other : ChildHashes) (is_clone : Bool) (ps : List ℕ)
      → IsForked children
      → is_empty o.root ≡ true
      → positions (put children pos o.root) indices ≡ ps
      → IsEffect IsLeaf route found expected
          (suc below)
          prefix
          (branch n children hashes)
          (shrink_branch config m (put children pos o.root) other (suc below) is_clone ps)
  unfolding shrink_branch
  shrink_branch-IsEffect n m hashes other is_clone [] forked e ps =
      let (i, b, f) = remaining-child children pos o.root forked bounded in
      absurd (position-found (put children pos o.root) [] i ps b f)
  shrink_branch-IsEffect n m hashes other is_clone (p ∷ []) forked e ps =
      single-IsEffect n hashes other (not is_clone) p ps
  shrink_branch-IsEffect n m hashes other is_clone (p ∷ q ∷ more) forked e ps =
      kept-IsEffect (suc below) n _ hashes other is_clone (not is_clone) refl (
        p,
        q,
        positions-distinct (put children pos o.root) p q more ps,
        (found-position (put children pos o.root) (p ∷ q ∷ more) p ps (inl refl)).0,
        (found-position (put children pos o.root) (p ∷ q ∷ more) q ps (inr (inl refl))).0,
      )

  -- BranchNode.setNextNode
  pub set_next_in_branch-IsEffect :
      (n : NodeBase) (hashes : ChildHashes)
      → IsForked children
      → IsEffect IsLeaf route found expected
          (suc below)
          prefix
          (branch n children hashes)
          (set_next_in_branch config n children hashes pos (suc below) o)
  unfolding set_next_in_branch
  set_next_in_branch-IsEffect n hashes forked = elim (Bool-cases o.replaced) [
    | inl t ↦ elim (Bool-cases (not (is_empty (children pos)) && is_empty o.root)) [
      | inl e ↦
          rw (t, e)
            (shrink_branch-IsEffect n (clone_frozen n) hashes _ n.frozen
              (positions (put children pos o.root) indices) forked (ground arith) refl)
      | inr f ↦
          rw (t, f)
            (kept-IsEffect (suc below) n _ hashes _ n.frozen (not n.frozen) refl
              (put-IsForked children pos o.root (λ e. ground arith) forked))
    ]
    | inr f ↦ rw f (
        kept-IsEffect (suc below) n _ hashes _ false o.changed refl
          (put-IsForked children pos o.root (λ e. same f ∙ e) forked))
  ]
    where
      same : o.replaced ≡ false → is_empty o.root ≡ is_empty (children pos)
      same f = unfold IsEffect in ((effect.1 f).0)
