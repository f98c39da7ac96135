-- ===== src/Mpt/Node/Shape.antt =====
-- The nodes that database/mpt/nodes.go puts in place of a way to a next node.
use carmen.Prelude.{
  ℕ, ◌+◌, ◌%◌, ◌≡◌, ◌≢◌, refl, List, [], ◌∷◌, ◌++◌, Bool, true, false, Option, none, some,
  if◌then◌else◌, length, length-append, append_assoc, arith, subst, sym, ◌∙◌, Bool-cases, inl, inr,
}
use carmen.Mpt.Nibble.{is_prefix_of}
use carmen.Mpt.Nibble.Prefix.{is_prefix_of_lem}
use carmen.Mpt.Node.{
  Config, NextHash, Node, NodeBase, account, branch, empty, extension, is_branch, new_base,
  new_next, value,
}
use carmen.Mpt.Node.Leaf.{set_path_length}
use carmen.Mpt.Node.Valid.{AreNibbles, IsTrie}
use carmen.Mpt.Node.View.{get_below-append, get_below-same}
use carmen.Mpt.Node.Walk.{get_below}

unfoldable pub is_leaf : Node → Bool
is_leaf empty = false
is_leaf (branch n children hashes) = false
is_leaf (extension n path next hash) = false
is_leaf (account n address info storage hash len) = true
is_leaf (value n key word len) = true

pub AreNibbles-append : (a b : List ℕ) → AreNibbles a → AreNibbles b → AreNibbles (a ++ b)
AreNibbles-append [] b h g = g
AreNibbles-append (x ∷ a) b (l, h) g = (l, AreNibbles-append a b h g)

pub append-nonempty : (a b : List ℕ) → a ≢ [] → a ++ b ≢ []
append-nonempty [] b h = absurd (h refl)
append-nonempty (x ∷ a) b h = λ e. cc

pub cons-nonempty : (x : ℕ) (a : List ℕ) → x ∷ a ≢ []
cons-nonempty x a e = cc

pub get_below-leaf {ℓ} :
    {A : Type ℓ} (found : Node → Option (Option A)) (node : Node) (path : List ℕ)
    → is_leaf node ≡ true
    → get_below found node path ≡ found node
unfolding get_below is_leaf
get_below-leaf found empty path h = cc
get_below-leaf found (branch n children hashes) path h = cc
get_below-leaf found (extension n own next hash) path h = cc
get_below-leaf found (account n address info storage hash len) path h = refl
get_below-leaf found (value n key word len) path h = refl

pub append-cancel : (prefix a b : List ℕ) → prefix ++ a ≡ prefix ++ b → a ≡ b
append-cancel [] a b e = e
append-cancel (x ∷ prefix) a b e = append-cancel prefix a b (cc)

-- A path that parts from `mid` after the prefix leads elsewhere.
pub prefix-parts :
    (full prefix mid rest : List ℕ)
    → full ≡ prefix ++ rest
    → is_prefix_of mid rest ≡ false
    → (more : List ℕ) → full ≢ prefix ++ mid ++ more
prefix-parts full prefix mid rest e f more g =
    let within = (is_prefix_of_lem mid rest).1 (
      more,
      append-cancel prefix (mid ++ more) rest (sym (append_assoc prefix mid more) ∙ sym g ∙ e),
    ) in
    cc

-- The leaf as it is moved up the trie.
unfoldable pub relengthen : Config → Node → ℕ → Node
unfolding set_path_length
relengthen config leaf len =
    if config.track_suffix_lengths then (set_path_length leaf (len % 256)).root else leaf

module _ (IsLeaf : ℕ → List ℕ → Node → Type 0) where
  pub leaf-IsTrie :
      (size : ℕ) (prefix : List ℕ) (node : Node)
      → is_leaf node ≡ true
      → IsLeaf size prefix node
      → IsTrie IsLeaf size prefix node
  unfolding IsTrie is_leaf
  leaf-IsTrie size prefix empty h l = cc
  leaf-IsTrie size prefix (branch n children hashes) h l = cc
  leaf-IsTrie size prefix (extension n own next hash) h l = cc
  leaf-IsTrie size prefix (account n address info storage hash len) h l = l
  leaf-IsTrie size prefix (value n key word len) h l = l

  pub IsTrie-leaf :
      (size : ℕ) (prefix : List ℕ) (node : Node)
      → is_leaf node ≡ true
      → IsTrie IsLeaf size prefix node
      → IsLeaf size prefix node
  unfolding IsTrie is_leaf
  IsTrie-leaf size prefix empty h l = cc
  IsTrie-leaf size prefix (branch n children hashes) h l = cc
  IsTrie-leaf size prefix (extension n own next hash) h l = cc
  IsTrie-leaf size prefix (account n address info storage hash len) h l = l
  IsTrie-leaf size prefix (value n key word len) h l = l

-- What is read of a leaf, for readers of a type K that are routed by a path.
pub record IsReading {ℓ κ} {A : Type ℓ} {K : Type κ} (config : Config)
    (IsLeaf : ℕ → List ℕ → Node → Type 0) (route : K → List ℕ)
    (found : K → Node → Option (Option A)) : Type (ℓ ⊔ κ) where
  pub misplaced :
      (size : ℕ) (prefix : List ℕ) (node : Node) (k : K)
      → IsLeaf size prefix node
      → ((rest : List ℕ) → route k ≢ prefix ++ rest)
      → found k node ≡ some none
  pub moved :
      (size below : ℕ) (prefix mid : List ℕ) (node : Node)
      → size ≡ length mid + below
      → AreNibbles mid
      → IsLeaf below (prefix ++ mid) node
      → IsLeaf size prefix (relengthen config node size)
  pub found-moved :
      (k : K) (node : Node) (len : ℕ) → found k (relengthen config node len) ≡ found k node
  pub is_leaf_lem :
      (size : ℕ) (prefix : List ℕ) (node : Node) → IsLeaf size prefix node → is_leaf node ≡ true

pub is_leaf-relengthen :
    (config : Config) (node : Node) (len : ℕ) → is_leaf (relengthen config node len) ≡ is_leaf node
unfolding is_leaf relengthen
is_leaf-relengthen config empty len = ground arith
is_leaf-relengthen config (branch n children hashes) len = ground arith
is_leaf-relengthen config (extension n own next hash) len = ground arith
is_leaf-relengthen config (account n address info storage hash own) len = ground arith
is_leaf-relengthen config (value n key word own) len = ground arith

module _ {ℓ κ} {A : Type ℓ} {K : Type κ} (config : Config) (IsLeaf : ℕ → List ℕ → Node → Type 0)
    (route : K → List ℕ) (found : K → Node → Option (Option A))
    (laws : IsReading config IsLeaf route found) where
  -- A node that stands for the way over `mid` to a next node.
  abbrev pub StandsFor : ℕ → List ℕ → List ℕ → Node → Node → Type (ℓ ⊔ κ)
  StandsFor size prefix mid next node =
      IsTrie IsLeaf size prefix node
      × ((k : K) (rest : List ℕ)
          → route k ≡ prefix ++ rest
          → get_below (found k) node rest
            ≡ get_below (found k) (extension new_base mid next new_next) rest)

  pub branch-StandsFor :
      (size below : ℕ) (prefix mid : List ℕ) (next : Node) (n : NodeBase) (hash : NextHash)
      → size ≡ length mid + below
      → mid ≢ []
      → AreNibbles mid
      → is_branch next ≡ true
      → IsTrie IsLeaf below (prefix ++ mid) next
      → StandsFor size prefix mid next (extension n mid next hash)
  unfolding IsTrie
  branch-StandsFor size below prefix mid next n hash s nonempty nibbles b t = (
    (below, s, nonempty, nibbles, b, t),
    λ k rest e. get_below-same (found k) n new_base mid next hash new_next rest,
  )

  pub extension-StandsFor :
      (size below : ℕ) (prefix mid : List ℕ) (m : NodeBase) (more : List ℕ) (next : Node)
      (other : NextHash) (n : NodeBase) (hash : NextHash)
      → size ≡ length mid + below
      → mid ≢ []
      → AreNibbles mid
      → IsTrie IsLeaf below (prefix ++ mid) (extension m more next other)
      → StandsFor size prefix mid
          (extension m more next other)
          (extension n (mid ++ more) next hash)
  unfolding IsTrie get_below
  extension-StandsFor size below prefix mid m more next other n hash s nonempty nibbles
        (inner, e, _, own, b, t) =
      (
        (
          inner,
          omega (arith, s, e, length-append mid more),
          append-nonempty mid more nonempty,
          AreNibbles-append mid more nibbles own,
          b,
          subst (λ p. IsTrie IsLeaf inner p next) (append_assoc prefix mid more) t,
        ),
        λ k rest r. get_below-append (found k) n new_base mid more next hash new_next rest,
      )

  pub leaf-StandsFor :
      (size below : ℕ) (prefix mid : List ℕ) (leaf : Node)
      → size ≡ length mid + below
      → AreNibbles mid
      → is_leaf leaf ≡ true
      → IsTrie IsLeaf below (prefix ++ mid) leaf
      → StandsFor size prefix mid leaf (relengthen config leaf size)
  unfolding get_below
  leaf-StandsFor size below prefix mid leaf s nibbles l t =
      let placed = IsTrie-leaf IsLeaf below (prefix ++ mid) leaf l t in
      let l2 = is_leaf-relengthen config leaf size ∙ l in
      (
        leaf-IsTrie IsLeaf size prefix (relengthen config leaf size) l2
            (laws.moved size below prefix mid leaf s nibbles placed),
        λ k rest r.
            get_below-leaf (found k) (relengthen config leaf size) rest l2
            ∙ laws.found-moved k leaf size
            ∙ elim (Bool-cases (is_prefix_of mid rest)) [
              | inl y ↦ sym (rw y (get_below-leaf (found k) leaf _ l))
              | inr f ↦
                  laws.misplaced below (prefix ++ mid) leaf k placed
                    (prefix-parts (route k) prefix mid rest r f)
                  ∙ sym (rw f refl)
            ],
      )
