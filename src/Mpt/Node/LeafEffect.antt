-- ===== src/Mpt/Node/LeafEffect.antt =====
-- How splitLeafNode of database/mpt/nodes.go puts two leaves in place of one.
use carmen.Prelude.{
  ℕ, suc, ◌+◌, ◌-◌, ◌%◌, ◌<◌, ◌≡◌, ◌≢◌, refl, List, [], ◌∷◌, ◌++◌, Bool, true, false, ◌||◌, Option,
  none, some, length, length-append, append_assoc, append-nil, arith, subst, sym, ◌∙◌, ap, take,
  drop,
}
use carmen.Mpt.Nibble.{get_common_prefix_length}
use carmen.Mpt.Nibble.Prefix.{is_prefix_of-IsFork}
use carmen.Mpt.Node.{
  ChildHashes, Config, Node, NodeBase, Outcome, branch, empty, extension, is_branch, new_base,
  new_next,
}
use carmen.Mpt.Node.Effect.{IsEffect}
use carmen.Mpt.Node.ExtensionEffect.{through-seen}
use carmen.Mpt.Node.Extension.{rest_of_extension}
use carmen.Mpt.Node.Leaf.{
  base_of, is_hash_dirty, prefix_extension, split_branch, split_leaf_at, split_leaf_node,
}
use carmen.Mpt.Node.Shape.{IsReading, get_below-leaf, is_leaf-relengthen, leaf-IsTrie, relengthen}
use carmen.Mpt.Node.SplitEffect.{new_branch-IsTrie, pair-seen, pair_of}
use carmen.Mpt.Node.Valid.{AreNibbles, IsTrie}
use carmen.Mpt.Node.View.{get_below-append, get_below-empty}
use carmen.Mpt.Node.WalkEffect.{AreNibbles-split}
use carmen.Mpt.Node.LeafParts.{
  distinct-is_prefix_of, length-drop, cut-append, split_leaf_node_eq, leaf-is_empty, leaf-is_branch,
  prefix_extension-StandsFor, lowered-seen,
}

module _ {ℓ κ} {A : Type ℓ} {K : Type κ} (config : Config)
    (hashing : (config.track_suffix_lengths || config.direct_hashing) ≡ true)
    (IsLeaf : ℕ → List ℕ → Node → Type 0) (route : K → List ℕ)
    (found : K → Node → Option (Option A)) (laws : IsReading config IsLeaf route found)
    (expected : K → Option (Option A) → Option (Option A)) (full : List ℕ)
    (elsewhere : (k : K) → route k ≢ full → (r : Option (Option A)) → expected k r ≡ r)
    (size inner : ℕ) (prefix common rest : List ℕ) (x y : ℕ) (this_rest : List ℕ) (parted : x ≢ y)
    (target : full ≡ prefix ++ common ++ y ∷ rest) (s : size ≡ length common + suc inner)
    (s_rest : length rest ≡ inner) (common_nibbles : AreNibbles common) (x_bound : x < 16)
    (y_bound : y < 16) (this sibling : Node)
    (this_placed : IsLeaf inner (prefix ++ common ++ x ∷ []) (relengthen config this inner))
    (sibling_placed : IsLeaf inner (prefix ++ common ++ y ∷ []) (relengthen config sibling inner))
    (sibling_seen : (k : K) → found k sibling ≡ expected k (some none)) where
  abbrev moved_sibling : Outcome
  moved_sibling = record {
    root = relengthen config sibling inner;
    replaced = true;
    changed = false;
  }

  sibling-IsEffect :
      IsEffect IsLeaf route found expected inner (prefix ++ common ++ y ∷ []) empty moved_sibling
  unfolding IsEffect is_branch
  sibling-IsEffect =
      let l =
        laws.is_leaf_lem inner (prefix ++ common ++ y ∷ []) (relengthen config sibling inner)
          sibling_placed in
      (
        leaf-IsTrie IsLeaf inner (prefix ++ common ++ y ∷ []) (relengthen config sibling inner) l
            sibling_placed,
        λ h. absurd (ground arith),
        λ h. absurd (ground arith),
        λ k path r e.
            get_below-leaf (found k) (relengthen config sibling inner) path l
            ∙ laws.found-moved k sibling inner
            ∙ sibling_seen k
            ∙ ap (expected k) (sym (get_below-empty (found k) path)),
      )

  this_IsTrie :
      IsTrie IsLeaf inner (prefix ++ common ++ x ∷ [] ++ []) (relengthen config this inner)
  this_IsTrie =
      subst (λ z. IsTrie IsLeaf inner z (relengthen config this inner))
        (sym (append-nil (prefix ++ common ++ x ∷ [])))
        (leaf-IsTrie IsLeaf inner (prefix ++ common ++ x ∷ []) (relengthen config this inner)
          (laws.is_leaf_lem inner (prefix ++ common ++ x ∷ []) (relengthen config this inner)
            this_placed)
          this_placed)

  -- The root over the branch of the two leaves.
  pub split-IsEffect :
      (m : NodeBase) (other : ChildHashes) (changed : Bool)
      → IsEffect IsLeaf route found expected size prefix this (record {
        root = prefix_extension common (
            branch m
              (pair_of x (relengthen config this inner) y (relengthen config sibling inner))
              other);
        replaced = true;
        changed = changed;
      })
  unfolding IsEffect is_branch rest_of_extension
  split-IsEffect m other changed =
      let this_leaf =
        laws.is_leaf_lem inner (prefix ++ common ++ x ∷ []) (relengthen config this inner)
          this_placed in
      let sibling_leaf =
        laws.is_leaf_lem inner (prefix ++ common ++ y ∷ []) (relengthen config sibling inner)
          sibling_placed in
      let leaf = sym (is_leaf-relengthen config this inner) ∙ this_leaf in
      let new =
        branch m (pair_of x (relengthen config this inner) y (relengthen config sibling inner))
          other in
      let made = leaf-is_empty (relengthen config sibling inner) sibling_leaf in
      let trie =
        new_branch-IsTrie config IsLeaf route found laws expected full elsewhere size inner inner
          prefix common [] rest x y parted target s (omega arith) s_rest common_nibbles (x_bound, _)
          y_bound (relengthen config this inner)
          (leaf-is_empty (relengthen config this inner) this_leaf) (λ h. absurd (h refl))
          this_IsTrie moved_sibling sibling-IsEffect made new_base m new_next other in
      let seen =
        pair-seen config IsLeaf route found laws expected full elsewhere size inner inner prefix
          common [] rest x y parted target s (omega arith) s_rest common_nibbles (x_bound, _)
          y_bound (relengthen config this inner)
          (leaf-is_empty (relengthen config this inner) this_leaf) (λ h. absurd (h refl))
          this_IsTrie moved_sibling sibling-IsEffect made new_base m new_next other in
      let stands =
        prefix_extension-StandsFor config IsLeaf route found laws size (suc inner) prefix common new
          s common_nibbles refl trie in
      (
        stands.0,
        λ h. absurd (ground arith),
        λ h. absurd (leaf-is_branch this leaf h),
        λ k path r l.
            stands.1 k path r
            ∙ through-seen route found expected full elsewhere size (suc inner) prefix common
                (y ∷ rest) (extension new_base (x ∷ []) (relengthen config this inner) new_next) new
                s target seen k path r l
            ∙ ap (expected k) (
                sym (
                  get_below-append (found k) new_base new_base common (x ∷ [])
                    (relengthen config this inner) new_next new_next path)
                ∙ lowered-seen config IsLeaf route found laws inner prefix (common ++ x ∷ []) this
                    inner k path
                    (subst (λ z. IsLeaf inner z (relengthen config this inner))
                      (append_assoc prefix common (x ∷ [])) this_placed)
                    r
                ∙ sym (get_below-leaf (found k) this path leaf)),
      )

  split_leaf_at-IsEffect :
      (changed : Bool)
      → (root : Node) × (split_leaf_at config this sibling common
            (inner % 256)
            (x ∷ this_rest)
            (y ∷ rest)
          ≡ some root)
        × IsEffect IsLeaf route found expected size prefix this
            (record { root = root; replaced = true; changed = changed })
  unfolding split_leaf_at split_branch relengthen
  split_leaf_at-IsEffect changed =
      let guard : (config.track_suffix_lengths
            || is_hash_dirty (base_of this)
            || config.direct_hashing)
          ≡ true =
        ground (arith, hashing) in
      rw guard (_, refl, split-IsEffect _ _ changed)

module _ {ℓ κ} {A : Type ℓ} {K : Type κ} (config : Config)
    (hashing : (config.track_suffix_lengths || config.direct_hashing) ≡ true)
    (IsLeaf : ℕ → List ℕ → Node → Type 0) (route : K → List ℕ)
    (found : K → Node → Option (Option A)) (laws : IsReading config IsLeaf route found)
    (expected : K → Option (Option A) → Option (Option A)) (full : List ℕ)
    (elsewhere : (k : K) → route k ≢ full → (r : Option (Option A)) → expected k r ≡ r)
    (this sibling : Node) (this_path : List ℕ)
    (this_placed : (size : ℕ) (prefix rest : List ℕ)
      → this_path ≡ prefix ++ rest
      → length rest ≡ size
      → AreNibbles rest
      → IsLeaf size prefix (relengthen config this size))
    (sibling_placed : (size : ℕ) (prefix rest : List ℕ)
      → full ≡ prefix ++ rest
      → length rest ≡ size
      → AreNibbles rest
      → IsLeaf size prefix (relengthen config sibling size))
    (sibling_seen : (k : K) → found k sibling ≡ expected k (some none)) where
  -- splitLeafNode on a leaf and a sibling for different paths of one length.
  pub split_leaf_node-IsEffect :
      (size : ℕ) (prefix partial path : List ℕ) (changed : Bool)
      → this_path ≡ prefix ++ partial
      → full ≡ prefix ++ path
      → length partial ≡ size
      → length path ≡ size
      → AreNibbles partial
      → AreNibbles path
      → partial ≢ path
      → (root : Node) × (split_leaf_node config this this_path sibling path ≡ some root)
        × IsEffect IsLeaf route found expected size prefix this
            (record { root = root; replaced = true; changed = changed })
  split_leaf_node-IsEffect size prefix partial path changed e target l l2 nibbles nibbles2 d =
      let common = take (get_common_prefix_length partial path) path in
      let (x, y, own, rest, p, q, parted, f, g) =
        is_prefix_of-IsFork partial path (distinct-is_prefix_of partial path (omega arith) d)
          (omega arith) in
      let inner = length rest in
      let cut : drop (length this_path - length path) this_path ≡ partial =
        cut-append this_path prefix partial path e (omega arith) in
      let dropped = length-drop (get_common_prefix_length partial path) partial in
      let dropped_length = ap (λ (z : List ℕ). length z) p in
      let (common_nibbles, own_nibbles) =
        AreNibbles-split common (x ∷ own) (subst AreNibbles f nibbles) in
      let rest_nibbles = (AreNibbles-split common (y ∷ rest) (subst AreNibbles g nibbles2)).1 in
      let path_length = ap (λ (z : List ℕ). length z) g ∙ length-append common (y ∷ rest) in
      let partial_length = ap (λ (z : List ℕ). length z) f ∙ length-append common (x ∷ own) in
      let target2 =
        target ∙ ap (λ z. prefix ++ z) g ∙ sym (append_assoc prefix common (y ∷ rest)) in
      let (root, made, effect) =
        split_leaf_at-IsEffect config hashing IsLeaf route found laws expected full elsewhere size
          inner prefix common rest x y own parted target2 (omega arith) refl common_nibbles
          own_nibbles.0 rest_nibbles.0 this sibling
          (this_placed inner (prefix ++ common ++ x ∷ []) own
            (e
              ∙ ap (λ z. prefix ++ z) f
              ∙ sym (append_assoc prefix common (x ∷ own))
              ∙ sym (append_assoc (prefix ++ common) (x ∷ []) own))
            (omega arith) own_nibbles.1)
          (sibling_placed inner (prefix ++ common ++ y ∷ []) rest
            (target2 ∙ sym (append_assoc (prefix ++ common) (y ∷ []) rest)) refl rest_nibbles.1)
          sibling_seen changed in
      let remaining : ((length partial - get_common_prefix_length partial path) % 256 + 255) % 256
          ≡ inner % 256 =
        omega (arith, dropped, dropped_length, path_length, partial_length) in
      (
        root,
        split_leaf_node_eq config this sibling this_path partial path (x ∷ own) (y ∷ rest)
              (inner % 256) cut remaining p q
            ∙ made,
        effect,
      )
