-- ===== src/Mpt/Node/View.antt =====
-- How GetAccount, GetValue and GetSlot see the nodes of database/mpt/nodes.go.
use carmen.Prelude.{
  ℕ, ◌≡◌, refl, List, [], ◌∷◌, ◌++◌, true, false, Option, none, some, if◌then◌else◌, ◌==◌,
  comparable_nat, arith, ◌∙◌, sym,
}
use carmen.Mpt.Nibble.{common_prefix, get_common_prefix_length, is_prefix_of}
use carmen.Mpt.Nibble.Prefix.{get_common_prefix_length_eq}
use carmen.Mpt.Node.{ChildHashes, NextHash, Node, NodeBase, branch, empty, extension}
use carmen.Mpt.Node.Walk.{get_below}

is_prefix_of-nil : (path : List ℕ) → is_prefix_of [] path ≡ true
unfolding is_prefix_of get_common_prefix_length common_prefix
is_prefix_of-nil path = ground (arith, get_common_prefix_length_eq [] path)

is_prefix_of-cons_nil : (x : ℕ) (own : List ℕ) → is_prefix_of (x ∷ own) [] ≡ false
unfolding is_prefix_of
is_prefix_of-cons_nil x own = ground arith

is_prefix_of-cons :
    (x y : ℕ) (own path : List ℕ)
    → is_prefix_of (x ∷ own) (y ∷ path) ≡ (if x == y then is_prefix_of own path else false)
unfolding is_prefix_of common_prefix
is_prefix_of-cons x y own path =
    ground (
      arith,
      get_common_prefix_length_eq own path,
      get_common_prefix_length_eq (x ∷ own) (y ∷ path),
    )

module _ {ℓ} {A : Type ℓ} (found : Node → Option (Option A)) where
  pub get_below-empty : (path : List ℕ) → get_below found empty path ≡ some none
  unfolding get_below
  get_below-empty path = refl

  pub get_below-branch :
      (n : NodeBase) (children : ℕ → Node) (hashes : ChildHashes) (x : ℕ) (path : List ℕ)
      → get_below found (branch n children hashes) (x ∷ path) ≡ get_below found (children x) path
  unfolding get_below
  get_below-branch n children hashes x path = refl

  pub get_below-nil :
      (n : NodeBase) (next : Node) (hash : NextHash) (path : List ℕ)
      → get_below found (extension n [] next hash) path ≡ get_below found next path
  unfolding get_below
  get_below-nil n next hash path = rw (is_prefix_of-nil path) refl

  pub get_below-cons_nil :
      (n : NodeBase) (x : ℕ) (own : List ℕ) (next : Node) (hash : NextHash)
      → get_below found (extension n (x ∷ own) next hash) [] ≡ some none
  unfolding get_below
  get_below-cons_nil n x own next hash = rw (is_prefix_of-cons_nil x own) refl

  pub get_below-cons :
      (n : NodeBase) (x : ℕ) (own : List ℕ) (next : Node) (hash : NextHash) (y : ℕ) (path : List ℕ)
      → get_below found (extension n (x ∷ own) next hash) (y ∷ path)
        ≡ (if x == y then get_below found (extension n own next hash) path else some none)
  unfolding get_below
  get_below-cons n x own next hash y path = rw (is_prefix_of-cons x y own path) (ground arith)

  pub get_below-append :
      (n m : NodeBase) (own more : List ℕ) (next : Node) (hash other : NextHash) (path : List ℕ)
      → get_below found (extension n (own ++ more) next hash) path
        ≡ get_below found (extension m own (extension n more next hash) other) path
  get_below-append n m [] more next hash other path =
      sym (get_below-nil m (extension n more next hash) other path)
  get_below-append n m (x ∷ own) more next hash other [] =
      get_below-cons_nil n x (own ++ more) next hash
      ∙ sym (get_below-cons_nil m x own (extension n more next hash) other)
  get_below-append n m (x ∷ own) more next hash other (y ∷ path) =
      rw
        (
          get_below-cons n x (own ++ more) next hash y path,
          get_below-cons m x own (extension n more next hash) other y path,
        )
        (ground (arith, get_below-append n m own more next hash other path))

  -- The bases and hashes of extensions are not seen.
  pub get_below-same :
      (n m : NodeBase) (own : List ℕ) (next : Node) (hash other : NextHash) (path : List ℕ)
      → get_below found (extension n own next hash) path
        ≡ get_below found (extension m own next other) path
  unfolding get_below
  get_below-same n m own next hash other path = refl

  pub get_below-rest :
      (n : NodeBase) (own : List ℕ) (next : Node) (hash : NextHash) (path : List ℕ)
      → get_below found (extension n own next hash) (own ++ path) ≡ get_below found next path
  get_below-rest n [] next hash path = get_below-nil n next hash path
  get_below-rest n (x ∷ own) next hash path =
      get_below-cons n x own next hash x (own ++ path)
      ∙ ground (arith, get_below-rest n own next hash path)
