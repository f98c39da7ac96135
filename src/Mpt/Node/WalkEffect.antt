-- ===== src/Mpt/Node/WalkEffect.antt =====
-- What the operations of database/mpt/nodes.go do on their way from what they do at its end.
use carmen.Prelude.{
  ℕ, suc, ◌+◌, ◌≡◌, ◌≢◌, refl, List, [], ◌∷◌, ◌++◌, Bool, true, false, Option, none, some, length,
  length-append, append_assoc, arith, subst, sym, ◌∙◌, ap, Bool-cases, inl, inr, take, drop, suc,
}
use carmen.Mpt.Nibble.{get_common_prefix_length, is_prefix_of}
use carmen.Mpt.Nibble.Prefix.{append-drop_prefix, is_prefix_of-IsFork}
use carmen.Mpt.Node.{
  Config, NextHash, Node, NodeBase, Outcome, account, branch, empty, extension, is_branch, is_empty,
  bytes_beq, bytes_beq_iff, new_base, new_children, put, value,
}
use carmen.Mpt.Node.Branch.{set_next_in_branch}
use carmen.Mpt.Node.BranchEffect.{set_next_in_branch-IsEffect}
use carmen.Mpt.Node.Effect.{IsEffect}
use carmen.Mpt.Node.Extension.{rest_hashes, rest_of_extension, split_extension, split_extension_at}
use carmen.Mpt.Node.ExtensionEffect.{get_below-parts, set_next_in_extension-IsEffect}
use carmen.Mpt.Node.Shape.{IsReading, append-cancel}
use carmen.Mpt.Node.SplitEffect.{
  branch-is_empty, grown-branch, branch-is_empty, joined-IsEffect, other-is_empty,
}
use carmen.Mpt.Node.Valid.{AreNibbles, IsTrie}
use carmen.Mpt.Node.Walk.{set_below, unchanged}

pub AreNibbles-split : (a b : List ℕ) → AreNibbles (a ++ b) → AreNibbles a × AreNibbles b
AreNibbles-split [] b h = (_, h)
AreNibbles-split (x ∷ a) b (l, h) = let (f, g) = AreNibbles-split a b h in ((l, f), g)

module _ {ℓ κ} {A : Type ℓ} {K : Type κ} (config : Config) (IsLeaf : ℕ → List ℕ → Node → Type 0)
    (route : K → List ℕ) (found : K → Node → Option (Option A))
    (laws : IsReading config IsLeaf route found)
    (expected : K → Option (Option A) → Option (Option A)) (full : List ℕ)
    (elsewhere : (k : K) → route k ≢ full → (r : Option (Option A)) → expected k r ≡ r)
    (value_is_empty : Bool)
    (absent : value_is_empty ≡ true → (k : K) → expected k (some none) ≡ some none)
    (created : List ℕ → Outcome)
    (created-IsEffect : (size : ℕ) (prefix path : List ℕ)
      → full ≡ prefix ++ path
      → length path ≡ size
      → AreNibbles path
      → IsEffect IsLeaf route found expected size prefix empty (created path))
    (created-nonempty : (path : List ℕ)
      → value_is_empty ≡ false
      → is_empty (created path).root ≡ false)
    (updated : Node → List ℕ → Option Outcome)
    (updated-IsEffect : (size : ℕ) (prefix path : List ℕ) (leaf : Node)
      → full ≡ prefix ++ path
      → length path ≡ size
      → AreNibbles path
      → IsLeaf size prefix leaf
      → (o : Outcome) × (updated leaf path ≡ some o)
        × IsEffect IsLeaf route found expected size prefix leaf o) where
  split_at-IsEffect :
      (size inner below : ℕ) (prefix common own rest : List ℕ) (x y : ℕ) (n : NodeBase)
      (next : Node) (hash : NextHash)
      → value_is_empty ≡ false
      → x ≢ y
      → full ≡ prefix ++ common ++ y ∷ rest
      → size ≡ length common + suc inner
      → inner ≡ length own + below
      → length rest ≡ inner
      → AreNibbles (common ++ x ∷ own)
      → AreNibbles (y ∷ rest)
      → is_branch next ≡ true
      → IsTrie IsLeaf below (prefix ++ common ++ x ∷ [] ++ own) next
      → (o : Outcome) × (split_extension_at config n next hash created common (x ∷ own) (y ∷ rest)
          ≡ some o)
        × IsEffect IsLeaf route found expected size prefix
            (extension n (common ++ x ∷ own) next hash)
            o
  unfolding split_extension_at
  split_at-IsEffect size inner below prefix common own rest x y n next hash v parted target s s_own
        s_rest own_nibbles rest_nibbles next_branch t =
      let (m, other, e) =
        grown-branch config new_base (put new_children x (rest_of_extension n own next hash))
          (rest_hashes n x own hash) y (length (y ∷ rest)) (created rest)
          (other-is_empty x y _ parted) in
      let (common_nibbles, tail_nibbles) = AreNibbles-split common (x ∷ own) own_nibbles in
      rw e (
        _,
        refl,
        joined-IsEffect config IsLeaf route found laws expected full elsewhere size inner below
            prefix common own rest x y parted target s s_own s_rest common_nibbles tail_nibbles
            rest_nibbles.0 next (branch-is_empty next next_branch) (λ _. next_branch) t
            (created rest)
            (created-IsEffect inner (prefix ++ common ++ y ∷ []) rest
              (target ∙ sym (append_assoc (prefix ++ common) (y ∷ []) rest)) s_rest rest_nibbles.1)
            (created-nonempty rest v) n m hash other,
      )

  -- ExtensionNode.setNextNode where the path parts from the extension's.
  split_extension-IsEffect :
      (size below : ℕ) (prefix own path : List ℕ) (n : NodeBase) (next : Node) (hash : NextHash)
      → value_is_empty ≡ false
      → is_prefix_of own path ≡ false
      → full ≡ prefix ++ path
      → size ≡ length own + below
      → length path ≡ size
      → AreNibbles own
      → AreNibbles path
      → is_branch next ≡ true
      → IsTrie IsLeaf below (prefix ++ own) next
      → (o : Outcome) × (split_extension config n own next hash path created ≡ some o)
        × IsEffect IsLeaf route found expected size prefix (extension n own next hash) o
  unfolding split_extension
  split_extension-IsEffect size below prefix own path n next hash v f target s l own_nibbles nibbles
        b t =
      let common = take (get_common_prefix_length own path) path in
      let (x, y, own_rest, rest, p, q, d, e, g) = is_prefix_of-IsFork own path f (omega arith) in
      let own_length = ap (λ (z : List ℕ). length z) e ∙ length-append common (x ∷ own_rest) in
      let path_length = ap (λ (z : List ℕ). length z) g ∙ length-append common (y ∷ rest) in
      let inner = length own_rest + below in
      let (o, made, effect) =
        split_at-IsEffect size inner below prefix common own_rest rest x y n next hash v d
          (target ∙ ap (λ z. prefix ++ z) g ∙ sym (append_assoc prefix common (y ∷ rest)))
          (omega arith) refl (omega arith) (subst AreNibbles e own_nibbles)
          (AreNibbles-split common (y ∷ rest) (subst AreNibbles g nibbles)).1 b
          (subst (λ z. IsTrie IsLeaf below z next)
            (ap (λ z. prefix ++ z) e
              ∙ sym (append_assoc prefix common (x ∷ own_rest))
              ∙ sym (append_assoc (prefix ++ common) (x ∷ []) own_rest))
            t) in
      (
        o,
        rw (p, q) made,
        subst (λ z. IsEffect IsLeaf route found expected size prefix (extension n z next hash) o)
            (sym e) effect,
      )

  -- Nothing changes where there is nothing to remove.
  unchanged-IsEffect :
      (size below : ℕ) (prefix own path : List ℕ) (n : NodeBase) (next : Node) (hash : NextHash)
      → value_is_empty ≡ true
      → is_prefix_of own path ≡ false
      → full ≡ prefix ++ path
      → IsTrie IsLeaf size prefix (extension n own next hash)
      → IsEffect IsLeaf route found expected size prefix
          (extension n own next hash)
          (unchanged (extension n own next hash))
  unfolding IsEffect is_branch
  unchanged-IsEffect size below prefix own path n next hash v f target t = (
    t,
    λ _. (refl, refl),
    λ h. absurd (ground arith),
    λ k rest r l. elim (Bool-cases (bytes_beq path rest)) [
      | inl e ↦
          let same = (bytes_beq_iff path rest).0 e in
          let gone =
            get_below-parts (found k) n own next hash rest
              (subst (λ z. is_prefix_of own z ≡ false) same f) in
          rw gone (sym (absent v k))
      | inr d ↦ sym (
          elsewhere k
            (λ e. absurd (
              ground (
                arith,
                (bytes_beq_iff path rest).1
                    (append-cancel prefix path rest (sym target ∙ sym e ∙ r)),
              )))
            _)
    ],
  )

  -- The whole operation succeeds, with this effect.
  pub set_below-IsEffect :
      (node : Node) (size : ℕ) (prefix path : List ℕ)
      → IsTrie IsLeaf size prefix node
      → full ≡ prefix ++ path
      → length path ≡ size
      → AreNibbles path
      → (o : Outcome) × (set_below config value_is_empty created updated node path ≡ some o)
        × IsEffect IsLeaf route found expected size prefix node o
  unfolding set_below IsTrie
  set_below-IsEffect empty size prefix path t target l nibbles =
      (created path, refl, created-IsEffect size prefix path target l nibbles)
  set_below-IsEffect (branch n children hashes) size prefix [] (below, s, tries, forked, bounded)
        target l nibbles =
      absurd (omega arith)
  set_below-IsEffect (branch n children hashes) size prefix (pos ∷ path)
        (below, s, tries, forked, bounded) target l nibbles =
      let (child, e, effect) =
        set_below-IsEffect (children pos) below (prefix ++ pos ∷ []) path (tries pos)
          (target ∙ sym (append_assoc prefix (pos ∷ []) path)) (omega arith) nibbles.1 in
      let done =
        set_next_in_branch-IsEffect config IsLeaf route found laws expected full elsewhere below
          prefix path pos target nibbles.0 children child tries bounded effect n hashes forked in
      (
        set_next_in_branch config n children hashes pos (length (pos ∷ path)) child,
        rw e refl,
        subst
            (λ z.
              IsEffect IsLeaf route found expected size prefix (branch n children hashes)
                (set_next_in_branch config n children hashes pos z child))
            (sym l)
            (subst
              (λ z.
                IsEffect IsLeaf route found expected z prefix (branch n children hashes)
                  (set_next_in_branch config n children hashes pos z child))
              (sym s) done),
      )
  set_below-IsEffect (extension n own next hash) size prefix path
        (below, s, nonempty, own_nibbles, b, t) target l nibbles =
      elim (Bool-cases (is_prefix_of own path)) [
        | inl y ↦
            let later = drop (length own) path in
            let whole = append-drop_prefix own path y in
            let (child, e, effect) =
              set_below-IsEffect next below (prefix ++ own) later t
                (target ∙ ap (λ z. prefix ++ z) (sym whole) ∙ sym (append_assoc prefix own later))
                (omega (arith, length-append own later, ap (λ (z : List ℕ). length z) whole))
                (AreNibbles-split own later (subst AreNibbles (sym whole) nibbles)).1 in
            let (o, made, done) =
              set_next_in_extension-IsEffect config IsLeaf route found laws expected full elsewhere
                size below prefix own later
                (target ∙ ap (λ z. prefix ++ z) (sym whole) ∙ sym (append_assoc prefix own later))
                next child s nonempty own_nibbles b effect n hash in
            (o, rw (y, e, l) made, done)
        | inr f ↦ elim (Bool-cases value_is_empty) [
          | inl v ↦
              rw (f, v)
                (
                  _,
                  refl,
                  unchanged-IsEffect size below prefix own path n next hash v f target
                      (below, s, nonempty, own_nibbles, b, t),
                )
          | inr v ↦
              rw (f, v)
                (split_extension-IsEffect size below prefix own path n next hash v f target s l
                  own_nibbles nibbles b t)
        ]
      ]
  set_below-IsEffect (account n address info storage hash len) size prefix path t target l nibbles =
      updated-IsEffect size prefix path (account n address info storage hash len) target l nibbles t
  set_below-IsEffect (value n key word len) size prefix path t target l nibbles =
      updated-IsEffect size prefix path (value n key word len) target l nibbles t
