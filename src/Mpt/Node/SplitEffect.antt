-- ===== src/Mpt/Node/SplitEffect.antt =====
-- How database/mpt/nodes.go splits an extension at a new branch.
use carmen.Prelude.{
  ℕ, suc, ◌+◌, ◌<◌, ◌≡◌, ◌≢◌, refl, List, [], ◌∷◌, ◌++◌, true, false, Option, length, append_assoc,
  append-nil, arith, subst, sym, ◌∙◌, ap, Bool-cases, inl, inr, ◌==◌, comparable_nat, nat_beq_iff,
}
use carmen.Prelude.Map.{equal_sym}
use carmen.Mpt.Node.{
  ChildHashes, Config, NextHash, Node, NodeBase, Outcome, account, branch, empty, extension,
  is_branch, is_empty, new_base, new_children, new_next, put, value,
}
use carmen.Mpt.Node.Branch.{set_next_in_branch}
use carmen.Mpt.Node.Effect.{IsEffect, parts-at}
use carmen.Mpt.Node.BranchEffect.{branch-IsTrie}
use carmen.Mpt.Node.ExtensionEffect.{through-seen}
use carmen.Mpt.Node.Extension.{join_prefix, rest_of_extension}
use carmen.Mpt.Node.Shape.{IsReading, StandsFor, branch-StandsFor, cons-nonempty}
use carmen.Mpt.Node.Valid.{AreNibbles, IsBounded, IsForked, IsTrie}
use carmen.Mpt.Node.View.{
  get_below-append, get_below-branch, get_below-cons, get_below-empty, get_below-nil,
}
use carmen.Mpt.Node.Walk.{get_below}

-- A branch that a child is added to keeps its other children.
pub grown-branch :
    (config : Config) (n : NodeBase) (children : ℕ → Node) (hashes : ChildHashes) (pos size : ℕ)
    (o : Outcome)
    → is_empty (children pos) ≡ true
    → (m : NodeBase) × (other : ChildHashes) × ((set_next_in_branch config n children hashes pos
          size o).root
        ≡ branch m (put children pos o.root) other)
unfolding set_next_in_branch
grown-branch config n children hashes pos size o e = elim (Bool-cases o.replaced) [
  | inl t ↦ rw (t, e) (_, _, refl)
  | inr f ↦ rw f (_, _, refl)
]

pub branch-is_empty : (node : Node) → is_branch node ≡ true → is_empty node ≡ false
unfolding is_empty is_branch
branch-is_empty empty h = cc
branch-is_empty (branch n children hashes) h = refl
branch-is_empty (extension n own next hash) h = refl
branch-is_empty (account n address info storage hash len) h = refl
branch-is_empty (value n key word len) h = refl

pub other-is_empty : (x y : ℕ) (node : Node) → x ≢ y → is_empty (put new_children x node y) ≡ true
unfolding is_empty
other-is_empty x y node d = ground arith

-- A branch of two nodes.
abbrev pub pair_of : ℕ → Node → ℕ → Node → ℕ → Node
pair_of i a j b = put (put new_children i a) j b

pub pair_of-IsTrie :
    (IsLeaf : ℕ → List ℕ → Node → Type 0) (below : ℕ) (prefix : List ℕ) (i j : ℕ) (a b : Node)
    → IsTrie IsLeaf below (prefix ++ i ∷ []) a
    → IsTrie IsLeaf below (prefix ++ j ∷ []) b
    → (k : ℕ) → IsTrie IsLeaf below (prefix ++ k ∷ []) (pair_of i a j b k)
unfolding IsTrie
pair_of-IsTrie IsLeaf below prefix i j a b ta tb k = elim (Bool-cases (k == j)) [
  | inl t ↦
      rw t (subst (λ x. IsTrie IsLeaf below (prefix ++ x ∷ []) b) (sym ((nat_beq_iff k j).0 t)) tb)
  | inr f ↦ elim (Bool-cases (k == i)) [
    | inl t ↦
        rw (f, t)
          (subst (λ x. IsTrie IsLeaf below (prefix ++ x ∷ []) a) (sym ((nat_beq_iff k i).0 t)) ta)
    | inr g ↦ rw (f, g) _
  ]
]

pub pair_of-IsForked :
    (i j : ℕ) (a b : Node)
    → i ≢ j
    → is_empty a ≡ false
    → is_empty b ≡ false
    → IsForked (pair_of i a j b)
pair_of-IsForked i j a b d e f = (i, j, d, ground arith, ground arith)

pub pair_of-IsBounded : (i j : ℕ) (a b : Node) → i < 16 → j < 16 → IsBounded (pair_of i a j b)
pair_of-IsBounded i j a b h g k l = ground arith

module _ {ℓ κ} {A : Type ℓ} {K : Type κ} (config : Config) (IsLeaf : ℕ → List ℕ → Node → Type 0)
    (route : K → List ℕ) (found : K → Node → Option (Option A))
    (laws : IsReading config IsLeaf route found) where
  -- A node stands for the empty way to itself.
  pub nil-StandsFor :
      (size below : ℕ) (prefix : List ℕ) (next : Node)
      → size ≡ 0 + below
      → IsTrie IsLeaf below (prefix ++ []) next
      → StandsFor config IsLeaf route found laws size prefix [] next next
  nil-StandsFor size below prefix next s t = (
    subst (λ x. IsTrie IsLeaf x prefix next) (omega arith)
        (subst (λ p. IsTrie IsLeaf below p next) (append-nil prefix) t),
    λ k rest r. sym (get_below-nil (found k) new_base next new_next rest),
  )

  -- The old way goes on below the new branch.
  pub rest_of_extension-StandsFor :
      (size below : ℕ) (prefix own : List ℕ) (n : NodeBase) (next : Node) (hash : NextHash)
      → size ≡ length own + below
      → AreNibbles own
      → is_empty next ≡ false
      → (own ≢ [] → is_branch next ≡ true)
      → IsTrie IsLeaf below (prefix ++ own) next
      → StandsFor config IsLeaf route found laws size prefix own next
          (rest_of_extension n own next hash)
        × (is_empty (rest_of_extension n own next hash) ≡ false)
  unfolding rest_of_extension is_empty
  rest_of_extension-StandsFor size below prefix [] n next hash s nibbles f b t =
      (nil-StandsFor size below prefix next s t, f)
  rest_of_extension-StandsFor size below prefix (x ∷ own) n next hash s nibbles f b t = (
    branch-StandsFor config IsLeaf route found laws size below prefix (x ∷ own) next _ _ s
        (cons-nonempty x own) nibbles (b (cons-nonempty x own)) t,
    refl,
  )

  -- The branch stands after the common prefix.
  pub join_prefix-StandsFor :
      (size below : ℕ) (prefix common own : List ℕ) (n : NodeBase) (hash : NextHash) (new : Node)
      → size ≡ length common + below
      → AreNibbles common
      → is_branch new ≡ true
      → IsTrie IsLeaf below (prefix ++ common) new
      → StandsFor config IsLeaf route found laws size prefix common new
          (join_prefix n common own hash new).root
        × ((join_prefix n common own hash new).replaced ≡ false
            → (is_empty (join_prefix n common own hash new).root ≡ false)
              × (is_branch (join_prefix n common own hash new).root ≡ false))
  unfolding join_prefix is_empty is_branch
  join_prefix-StandsFor size below prefix [] [] n hash new s nibbles b t =
      (nil-StandsFor size below prefix new s t, λ h. absurd (ground arith))
  join_prefix-StandsFor size below prefix [] (y ∷ own) n hash new s nibbles b t =
      (nil-StandsFor size below prefix new s t, λ h. absurd (ground arith))
  join_prefix-StandsFor size below prefix (x ∷ common) [] n hash new s nibbles b t = (
    branch-StandsFor config IsLeaf route found laws size below prefix (x ∷ common) new _ _ s
        (cons-nonempty x common) nibbles b t,
    λ _. (refl, refl),
  )
  join_prefix-StandsFor size below prefix (x ∷ common) (y ∷ own) n hash new s nibbles b t = (
    branch-StandsFor config IsLeaf route found laws size below prefix (x ∷ common) new _ _ s
        (cons-nonempty x common) nibbles b t,
    λ h. absurd (ground arith),
  )

module _ {ℓ κ} {A : Type ℓ} {K : Type κ} (config : Config) (IsLeaf : ℕ → List ℕ → Node → Type 0)
    (route : K → List ℕ) (found : K → Node → Option (Option A))
    (laws : IsReading config IsLeaf route found)
    (expected : K → Option (Option A) → Option (Option A)) (full : List ℕ)
    (elsewhere : (k : K) → route k ≢ full → (r : Option (Option A)) → expected k r ≡ r)
    (size inner below : ℕ) (prefix common own rest : List ℕ) (x y : ℕ) (parted : x ≢ y)
    (target : full ≡ prefix ++ common ++ y ∷ rest) (s : size ≡ length common + suc inner)
    (s_own : inner ≡ length own + below) (s_rest : length rest ≡ inner)
    (common_nibbles : AreNibbles common) (own_nibbles : AreNibbles (x ∷ own)) (y_bound : y < 16)
    (next : Node) (next_nonempty : is_empty next ≡ false)
    (next_branch : own ≢ [] → is_branch next ≡ true)
    (t : IsTrie IsLeaf below (prefix ++ common ++ x ∷ [] ++ own) next) (created : Outcome)
    (effect : IsEffect IsLeaf route found expected inner (prefix ++ common ++ y ∷ []) empty created)
    (made : is_empty created.root ≡ false) where
  -- The old way's child of the new branch.
  old_child :
      (n : NodeBase) (hash : NextHash)
      → StandsFor config IsLeaf route found laws inner
          (prefix ++ common ++ x ∷ [])
          own
          next
          (rest_of_extension n own next hash)
        × (is_empty (rest_of_extension n own next hash) ≡ false)
  old_child n hash =
      rest_of_extension-StandsFor config IsLeaf route found laws inner below
        (prefix ++ common ++ x ∷ []) own n next hash s_own own_nibbles.1 next_nonempty next_branch t

  deeper :
      (k : K) (i j : ℕ) (path : List ℕ)
      → route k ≡ prefix ++ common ++ i ∷ path
      → i ≡ j
      → route k ≡ prefix ++ common ++ j ∷ [] ++ path
  deeper k i j path r same =
      r
      ∙ ap (λ h. prefix ++ common ++ h ∷ path) same
      ∙ sym (append_assoc (prefix ++ common) (j ∷ []) path)

  -- What is seen at the nibbles other than the new one.
  old-seen :
      (n : NodeBase) (hash : NextHash) (k : K) (i : ℕ) (path : List ℕ)
      → route k ≡ prefix ++ common ++ i ∷ path
      → get_below (found k) (put new_children x (rest_of_extension n own next hash) i) path
        ≡ get_below (found k) (extension new_base (x ∷ own) next new_next) (i ∷ path)
  old-seen n hash k i path r = elim (Bool-cases (i == x)) [
    | inl e ↦ rw e (
        (old_child n hash).0.1 k path (deeper k i x path r ((nat_beq_iff i x).0 e))
        ∙ sym (
            get_below-cons (found k) new_base x own next new_next i path
            ∙ rw ((equal_sym x i) ∙ e) refl))
    | inr f ↦ rw f (
        get_below-empty (found k) path
        ∙ sym (
            get_below-cons (found k) new_base x own next new_next i path
            ∙ rw ((equal_sym x i) ∙ f) refl))
  ]

  -- What is seen of the new branch.
  pub pair-seen :
      (n m : NodeBase) (hash : NextHash) (other : ChildHashes) (k : K) (path : List ℕ)
      → route k ≡ prefix ++ common ++ path
      → length path ≡ suc inner
      → get_below
          (found k)
          (branch m (pair_of x (rest_of_extension n own next hash) y created.root) other)
          path
        ≡ expected k (get_below (found k) (extension new_base (x ∷ own) next new_next) path)
  unfolding IsEffect
  pair-seen n m hash other k [] r l = absurd (omega arith)
  pair-seen n m hash other k (i ∷ path) r l =
      get_below-branch (found k) m _ other i path ∙ elim (Bool-cases (i == y)) [
        | inl e ↦ rw e (
            effect.3 k path (deeper k i y path r ((nat_beq_iff i y).0 e)) (omega arith)
            ∙ ap (expected k) (
                get_below-empty (found k) path
                ∙ sym (
                    get_below-cons (found k) new_base x own next new_next i path
                    ∙ rw (apart i ((nat_beq_iff i y).0 e)) refl)))
        | inr f ↦ rw f (
            old-seen n hash k i path r
            ∙ sym (
                elsewhere k
                  (λ e. parts-at full (prefix ++ common) rest path y i target f (sym r ∙ e))
                  (get_below (found k) (extension new_base (x ∷ own) next new_next) (i ∷ path))))
      ]
    where
      apart : (i : ℕ) → i ≡ y → (x == i) ≡ false
      apart i e = ground (arith, parted)

  pub new_branch-IsTrie :
      (n m : NodeBase) (hash : NextHash) (other : ChildHashes)
      → IsTrie IsLeaf
          (suc inner)
          (prefix ++ common)
          (branch m (pair_of x (rest_of_extension n own next hash) y created.root) other)
  unfolding IsEffect
  new_branch-IsTrie n m hash other =
      branch-IsTrie IsLeaf (suc inner) inner (prefix ++ common) m _ other refl
        (pair_of-IsTrie IsLeaf inner (prefix ++ common) x y _ _ (old_child n hash).0.0 effect.0)
        (pair_of-IsForked x y _ _ parted (old_child n hash).1 made)
        (pair_of-IsBounded x y _ _ own_nibbles.0 y_bound)

  -- The node that the split extension is replaced by.
  pub joined-IsEffect :
      (n m : NodeBase) (hash : NextHash) (other : ChildHashes)
      → IsEffect IsLeaf route found expected size prefix
          (extension n (common ++ x ∷ own) next hash)
          (join_prefix n common own hash
            (branch m (pair_of x (rest_of_extension n own next hash) y created.root) other))
  unfolding IsEffect is_branch is_empty
  joined-IsEffect n m hash other =
      let (stands, kinds) =
        join_prefix-StandsFor config IsLeaf route found laws size (suc inner) prefix common own n
          hash (branch m (pair_of x (rest_of_extension n own next hash) y created.root) other) s
          common_nibbles refl (new_branch-IsTrie n m hash other) in
      (
        stands.0,
        kinds,
        λ h. absurd (ground arith),
        λ k path r l.
            stands.1 k path r
            ∙ through-seen route found expected full elsewhere size (suc inner) prefix common
                (y ∷ rest) (extension new_base (x ∷ own) next new_next) _ s target
                (pair-seen n m hash other) k path r l
            ∙ ap (expected k) (
                sym (
                  get_below-append (found k) n new_base common (x ∷ own) next hash new_next path
                  ∙ unfold get_below in refl)),
      )
