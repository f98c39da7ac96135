-- ===== src/Mpt/Node/ExtensionEffect.antt =====
-- How an ExtensionNode of database/mpt/nodes.go passes on what the call on its next node does.
use carmen.Prelude.{
  ℕ, ◌+◌, ◌≡◌, ◌≢◌, refl, List, [], ◌++◌, Bool, true, false, Option, none, some, length,
  length-append, append_assoc, arith, subst, sym, ◌∙◌, ap, Bool-cases, inl, inr,
}
use carmen.Mpt.Nibble.{is_prefix_of}
use carmen.Mpt.Nibble.Prefix.{is_prefix_of_lem}
use carmen.Mpt.Node.{
  Config, NextHash, Node, NodeBase, Outcome, account, branch, empty, extension, is_branch, is_empty,
  new_base, new_next, value,
}
use carmen.Mpt.Node.Effect.{IsEffect}
use carmen.Mpt.Node.Extension.{link_next, replace_extension, set_next_in_extension}
use carmen.Mpt.Node.Shape.{
  IsReading, StandsFor, append-cancel, branch-StandsFor, extension-StandsFor, is_leaf,
  leaf-StandsFor, relengthen,
}
use carmen.Mpt.Node.Valid.{AreNibbles, IsTrie}
use carmen.Mpt.Node.View.{get_below-rest, get_below-same}
use carmen.Mpt.Node.Walk.{get_below}

pub get_below-parts {ℓ} :
    {A : Type ℓ} (found : Node → Option (Option A)) (n : NodeBase) (own : List ℕ) (next : Node)
    (hash : NextHash) (path : List ℕ)
    → is_prefix_of own path ≡ false
    → get_below found (extension n own next hash) path ≡ some none
unfolding get_below
get_below-parts found n own next hash path h = rw h refl

module _ {ℓ κ} {A : Type ℓ} {K : Type κ} (config : Config) (IsLeaf : ℕ → List ℕ → Node → Type 0)
    (route : K → List ℕ) (found : K → Node → Option (Option A))
    (laws : IsReading config IsLeaf route found) where
  -- Linking another next node, which is not empty, stands for the way to it.
  pub link_next-StandsFor :
      (size below : ℕ) (prefix own : List ℕ) (n : NodeBase) (hash : NextHash) (changed : Bool)
      (root : Node)
      → size ≡ length own + below
      → own ≢ []
      → AreNibbles own
      → is_empty root ≡ false
      → IsTrie IsLeaf below (prefix ++ own) root
      → (o : Outcome) × (link_next config n own hash size changed root ≡ some o)
        × StandsFor config IsLeaf route found laws size prefix own root o.root
        × (o.replaced ≡ false → (is_empty o.root ≡ false) × (is_branch o.root ≡ false))
  unfolding link_next replace_extension is_empty is_branch is_leaf relengthen
  link_next-StandsFor size below prefix own n hash changed empty s e nibbles f t =
      absurd (ground arith)
  link_next-StandsFor size below prefix own n hash changed (branch m children other) s e nibbles f
        t =
      (
        _,
        refl,
        branch-StandsFor config IsLeaf route found laws size below prefix own
            (branch m children other) _ _ s e nibbles refl t,
        λ _. (refl, refl),
      )
  link_next-StandsFor size below prefix own n hash changed (extension m more next other) s e nibbles
        f t =
      (
        _,
        refl,
        extension-StandsFor config IsLeaf route found laws size below prefix own m more next other _
            _ s e nibbles t,
        λ _. (refl, refl),
      )
  link_next-StandsFor size below prefix own n hash changed
        (account m address info storage other len) s e nibbles f t =
      (
        _,
        refl,
        leaf-StandsFor config IsLeaf route found laws size below prefix own
            (account m address info storage other len) s nibbles refl t,
        λ h. absurd (ground arith),
      )
  link_next-StandsFor size below prefix own n hash changed (value m key word len) s e nibbles f t =
      (
        _,
        refl,
        leaf-StandsFor config IsLeaf route found laws size below prefix own (value m key word len) s
            nibbles refl t,
        λ h. absurd (ground arith),
      )

module _ {ℓ κ} {A : Type ℓ} {K : Type κ} (route : K → List ℕ) (found : K → Node → Option (Option A))
    (expected : K → Option (Option A) → Option (Option A)) (full : List ℕ)
    (elsewhere : (k : K) → route k ≢ full → (r : Option (Option A)) → expected k r ≡ r) where
  -- What is seen through an extension, from what is seen of its next node.
  pub through-seen :
      (size below : ℕ) (prefix mid more : List ℕ) (old new : Node)
      → size ≡ length mid + below
      → full ≡ prefix ++ mid ++ more
      → ((k : K) (rest : List ℕ)
          → route k ≡ prefix ++ mid ++ rest
          → length rest ≡ below
          → get_below (found k) new rest ≡ expected k (get_below (found k) old rest))
      → (k : K) (rest : List ℕ) → route k ≡ prefix ++ rest
      → length rest ≡ size
      → get_below (found k) (extension new_base mid new new_next) rest
        ≡ expected k (get_below (found k) (extension new_base mid old new_next) rest)
  through-seen size below prefix mid more old new s target seen k rest r l =
      elim (Bool-cases (is_prefix_of mid rest)) [
        | inl t ↦
            let (later, e) = (is_prefix_of_lem mid rest).0 t in
            subst
              (λ path.
                get_below (found k) (extension new_base mid new new_next) path
                ≡ expected k (get_below (found k) (extension new_base mid old new_next) path))
              e
              (get_below-rest (found k) new_base mid new new_next later
                ∙ seen k later
                    (r ∙ ap (λ path. prefix ++ path) (sym e) ∙ sym (append_assoc prefix mid later))
                    (omega (arith, length-append mid later, ap (λ (p : List ℕ). length p) e))
                ∙ ap (expected k) (sym (get_below-rest (found k) new_base mid old new_next later)))
        | inr f ↦
            get_below-parts (found k) new_base mid new new_next rest f
            ∙ sym (elsewhere k (away f) (some none))
            ∙ ap (expected k) (sym (get_below-parts (found k) new_base mid old new_next rest f))
      ]
    where
      away : is_prefix_of mid rest ≡ false → route k ≢ full
      away f e =
          let within = (is_prefix_of_lem mid rest).1 (
            more,
            append-cancel prefix (mid ++ more) rest
                (sym (append_assoc prefix mid more) ∙ sym target ∙ sym e ∙ r),
          ) in
          cc

module _ {ℓ κ} {A : Type ℓ} {K : Type κ} (config : Config) (IsLeaf : ℕ → List ℕ → Node → Type 0)
    (route : K → List ℕ) (found : K → Node → Option (Option A))
    (laws : IsReading config IsLeaf route found)
    (expected : K → Option (Option A) → Option (Option A)) (full : List ℕ)
    (elsewhere : (k : K) → route k ≢ full → (r : Option (Option A)) → expected k r ≡ r)
    (size below : ℕ) (prefix own more : List ℕ) (target : full ≡ prefix ++ own ++ more)
    (next : Node) (next_child : Outcome) (s : size ≡ length own + below) (own_nonempty : own ≢ [])
    (nibbles : AreNibbles own) (next_branch : is_branch next ≡ true)
    (effect : IsEffect IsLeaf route found expected below (prefix ++ own) next next_child) where
  extended-IsEffect :
      (n : NodeBase) (hash : NextHash) (o : Outcome)
      → StandsFor config IsLeaf route found laws size prefix own next_child.root o.root
      → (o.replaced ≡ false → (is_empty o.root ≡ false) × (is_branch o.root ≡ false))
      → IsEffect IsLeaf route found expected size prefix (extension n own next hash) o
  unfolding IsEffect is_empty is_branch
  extended-IsEffect n hash o stands kinds = (
    stands.0,
    kinds,
    λ h. absurd (ground arith),
    λ k rest r l.
        stands.1 k rest r
        ∙ through-seen route found expected full elsewhere size below prefix own more next
            next_child.root s target effect.3 k rest r l
        ∙ ap (expected k) (get_below-same (found k) new_base n own next new_next hash rest),
  )

  -- ExtensionNode.setNextNode where the path goes on from the extension's.
  pub set_next_in_extension-IsEffect :
      (n : NodeBase) (hash : NextHash)
      → (o : Outcome) × (set_next_in_extension config n own hash size next_child ≡ some o)
        × IsEffect IsLeaf route found expected size prefix (extension n own next hash) o
  unfolding set_next_in_extension
  set_next_in_extension-IsEffect n hash = elim (Bool-cases next_child.replaced) [
    | inl t ↦
        let (o, e, stands, kinds) =
          link_next-StandsFor config IsLeaf route found laws size below prefix own n hash
            next_child.changed next_child.root s own_nonempty nibbles kept.1 kept.0 in
        rw t (o, e, extended-IsEffect n hash o stands kinds)
    | inr f ↦ rw f (
      _,
      refl,
      extended-IsEffect n hash _
          (branch-StandsFor config IsLeaf route found laws size below prefix own next_child.root _ _
            s own_nonempty nibbles (same f) kept.0)
          (λ _. (unfold is_empty in refl, unfold is_branch in refl)),
    )
  ]
    where
      kept :
          IsTrie IsLeaf below (prefix ++ own) next_child.root × (is_empty next_child.root ≡ false)
      kept = unfold IsEffect in (effect.0, effect.2 next_branch)

      same : next_child.replaced ≡ false → is_branch next_child.root ≡ true
      same f = unfold IsEffect in ((effect.1 f).1 ∙ next_branch)
