-- ===== src/Mpt/Node/ValueEffect.antt =====
-- SetValue and GetValue of database/mpt/nodes.go in a storage trie.
use carmen.Prelude.{
  ℕ, ◌≡◌, ◌≢◌, refl, List, ◌++◌, Bool, true, false, not, ◌||◌, Option, none, some, if◌then◌else◌,
  length, arith, subst, sym, ◌∙◌, ap, Bool-cases, inl, inr, ◌==◌, comparable_nat, nat_beq_iff,
}
use carmen.Prelude.Map.{equal_refl}
use carmen.Mpt.Node.{
  Config, Node, NodeBase, Outcome, account, branch, bytes_beq_iff, comparable_bytes, empty,
  extension, is_branch, is_empty, mark_dirty, new_base, path_of, value,
}
use carmen.Mpt.Node.Effect.{IsEffect}
use carmen.Mpt.Node.Leaf.{clone_value}
use carmen.Mpt.Node.LeafEffect.{split_leaf_node-IsEffect}
use carmen.Mpt.Node.Valid.{AreNibbles, IsPlaced, IsTrie, IsValueLeaf}
use carmen.Mpt.Node.ValueReading.{apart-equal, value-placed, values-IsReading}
use carmen.Mpt.Node.Values.{create_value, find_value, update_value}
use carmen.Mpt.Node.Walk.{get_below, unchanged}

-- What is read of a key after a value has been written at a key.
abbrev pub after_write : List ℕ → ℕ → List ℕ → Option (Option ℕ) → Option (Option ℕ)
after_write key word other before =
    if key == other then some (if word == 0 then none else some word) else before

module _ (config : Config) (key : List ℕ) (word : ℕ) where
  abbrev pub IsWrite : ℕ → List ℕ → Node → Outcome → Type 0
  IsWrite = IsEffect (IsValueLeaf config) (path_of config) find_value (after_write key word)

  pub write-elsewhere :
      (other : List ℕ)
      → path_of config other ≢ path_of config key
      → (r : Option (Option ℕ)) → after_write key word other r ≡ r
  write-elsewhere other d r = rw (apart-equal config key other d) refl

  pub write-absent :
      (word == 0) ≡ true → (other : List ℕ) → after_write key word other (some none) ≡ some none
  write-absent z other = ground arith

  pub create_value-IsEffect :
      (size : ℕ) (prefix path : List ℕ)
      → path_of config key ≡ prefix ++ path
      → length path ≡ size
      → AreNibbles path
      → IsWrite size prefix empty (create_value key word path)
  unfolding create_value IsEffect IsTrie IsValueLeaf is_branch is_empty get_below find_value
  create_value-IsEffect size prefix path e l nibbles = elim (Bool-cases (word == 0)) [
    | inl z ↦
        rw z (_, λ _. (refl, refl), λ h. absurd (ground arith), λ other rest r m. ground arith)
    | inr f ↦ rw f (
      (λ z. absurd (ground arith), (path, e, l, nibbles, λ _. omega arith)),
      λ h. absurd (ground arith),
      λ h. absurd (ground arith),
      λ other rest r m. ground arith,
    )
  ]

  pub create_value-nonempty :
      (path : List ℕ) → (word == 0) ≡ false → is_empty (create_value key word path).root ≡ false
  unfolding create_value is_empty
  create_value-nonempty path z = rw z refl

  -- A value in place of the leaf for the same key.
  value-IsEffect :
      (size : ℕ) (prefix : List ℕ) (n m : NodeBase) (old len : ℕ) (replaced changed : Bool)
      → word ≢ 0
      → IsPlaced config size prefix key len
      → IsWrite size prefix
          (value n key old len)
          (record { root = value m key word len; replaced = replaced; changed = changed })
  unfolding IsEffect IsTrie IsValueLeaf is_branch is_empty get_below find_value
  value-IsEffect size prefix n m old len replaced changed z placed =
      ((z, placed), λ _. (refl, refl), λ h. absurd (ground arith), λ other rest r l. ground arith)

  -- No leaf in its place.
  removed-IsEffect :
      (size : ℕ) (prefix : List ℕ) (n : NodeBase) (old len : ℕ) (changed : Bool)
      → word ≡ 0
      → IsWrite size prefix
          (value n key old len)
          (record { root = empty; replaced = true; changed = changed })
  unfolding IsEffect IsTrie is_branch is_empty get_below find_value
  removed-IsEffect size prefix n old len changed z =
      (_, λ h. absurd (ground arith), λ h. absurd (ground arith), λ other rest r l. ground arith)

  -- Nothing is removed where another key's leaf stands.
  kept-IsEffect :
      (size : ℕ) (prefix : List ℕ) (n : NodeBase) (own : List ℕ) (old len : ℕ)
      → old ≢ 0
      → IsPlaced config size prefix own len
      → (own == key) ≡ false
      → word ≡ 0
      → IsWrite size prefix (value n own old len) (unchanged (value n own old len))
  unfolding IsEffect IsTrie IsValueLeaf is_branch is_empty get_below find_value
  kept-IsEffect size prefix n own old len z placed d zero_word = (
    (z, placed),
    λ _. (refl, refl),
    λ h. absurd (ground arith),
    λ other rest r l. elim (Bool-cases (key == other)) [
      | inl t ↦ rw (sym ((bytes_beq_iff key other).0 t), d, equal_refl key) (ground arith)
      | inr f ↦ rw f refl
    ],
  )

  update_key-IsEffect :
      (size : ℕ) (prefix path : List ℕ) (n : NodeBase) (old len : ℕ)
      → old ≢ 0
      → IsPlaced config size prefix key len
      → (o : Outcome) × (update_value config key word (value n key old len) path ≡ some o)
        × IsWrite size prefix (value n key old len) o
  unfolding update_value
  update_key-IsEffect size prefix path n old len z placed =
      rw (equal_refl key) (elim (Bool-cases (word == old)) [
        | inl t ↦ rw t (
          _,
          refl,
          subst
              (λ w.
                IsWrite size prefix (value n key old len)
                  (record { root = value n key w len; replaced = false; changed = false }))
              ((nat_beq_iff word old).0 t)
              (value-IsEffect size prefix n n old len false false (λ e. absurd (ground arith))
                placed),
        )
        | inr f ↦ elim (Bool-cases (word == 0)) [
          | inl t ↦
              rw (f, t)
                (
                  _,
                  refl,
                  removed-IsEffect size prefix n old len (not n.frozen) ((nat_beq_iff word 0).0 t),
                )
          | inr g ↦
              rw (f, g)
                (
                  _,
                  refl,
                  value-IsEffect size prefix n (clone_value n) old len n.frozen (not n.frozen)
                      (λ e. absurd (ground arith)) placed,
                )
        ]
      ])

  sibling_seen :
      word ≢ 0
      → (n : NodeBase) (len : ℕ) (k : List ℕ)
      → find_value k (value n key word len) ≡ after_write key word k (some none)
  unfolding find_value
  sibling_seen z n len k = ground arith

  update_other-IsEffect :
      (config.track_suffix_lengths || config.direct_hashing) ≡ true
      → ((a b : List ℕ) → path_of config a ≡ path_of config b → a ≡ b)
      → (size : ℕ) (prefix path : List ℕ) (n : NodeBase) (own : List ℕ) (old len : ℕ)
      → path_of config key ≡ prefix ++ path
      → length path ≡ size
      → AreNibbles path
      → old ≢ 0
      → IsPlaced config size prefix own len
      → (own == key) ≡ false
      → (o : Outcome) × (update_value config key word (value n own old len) path ≡ some o)
        × IsWrite size prefix (value n own old len) o
  unfolding update_value
  update_other-IsEffect hashing injective size prefix path n own old len e l nibbles z placed
        other =
      elim (Bool-cases (word == 0)) [
        | inl t ↦
            rw (other, t)
              (
                _,
                refl,
                kept-IsEffect size prefix n own old len z placed other ((nat_beq_iff word 0).0 t),
              )
        | inr f ↦
            let nonzero : word ≢ 0 = λ (h : word ≡ 0). absurd (ground arith) in
            let (partial, at, len_eq, own_nibbles, _) = placed in
            let (root, made, effect) =
              split_leaf_node-IsEffect config hashing (IsValueLeaf config) (path_of config)
                find_value (values-IsReading config) (after_write key word) (path_of config key)
                write-elsewhere (value n own old len) (value (mark_dirty new_base) key word 0)
                (path_of config own) (value-placed config n own old len z)
                (value-placed config (mark_dirty new_base) key word 0 nonzero)
                (sibling_seen nonzero (mark_dirty new_base) 0) size prefix partial path false at e
                len_eq l own_nibbles nibbles
                (λ same. absurd (
                  different (injective own key (at ∙ ap (λ p. prefix ++ p) same ∙ sym e)) other)) in
            rw (other, f, made) (_, refl, effect)
      ]
    where
      different : own ≡ key → (own == key) ≡ false → ⊥
      different same d = absurd (ground (arith, (bytes_beq_iff own key).1 same))

  -- ValueNode.SetValue, where the paths of different keys differ.
  pub update_value-IsEffect :
      (config.track_suffix_lengths || config.direct_hashing) ≡ true
      → ((a b : List ℕ) → path_of config a ≡ path_of config b → a ≡ b)
      → (size : ℕ) (prefix path : List ℕ) (leaf : Node) → path_of config key ≡ prefix ++ path
      → length path ≡ size
      → AreNibbles path
      → IsValueLeaf config size prefix leaf
      → (o : Outcome) × (update_value config key word leaf path ≡ some o)
        × IsWrite size prefix leaf o
  unfolding IsValueLeaf
  update_value-IsEffect hashing injective size prefix path empty e l nibbles t = absurd t
  update_value-IsEffect hashing injective size prefix path (branch n children hashes) e l nibbles
        t =
      absurd t
  update_value-IsEffect hashing injective size prefix path (extension n own next hash) e l nibbles
        t =
      absurd t
  update_value-IsEffect hashing injective size prefix path (account n address info storage hash len)
        e l nibbles t =
      absurd t
  update_value-IsEffect hashing injective size prefix path (value n own old len) e l nibbles
        (z, placed) =
      elim (Bool-cases (own == key)) [
        | inl same ↦
            subst
              (λ k.
                (o : Outcome) × (update_value config key word (value n k old len) path ≡ some o)
                × IsWrite size prefix (value n k old len) o)
              (sym ((bytes_beq_iff own key).0 same))
              (update_key-IsEffect size prefix path n old len z (
                subst (λ k. IsPlaced config size prefix k len) ((bytes_beq_iff own key).0 same)
                  placed))
        | inr other ↦
            update_other-IsEffect hashing injective size prefix path n own old len e l nibbles z
              placed other
      ]
