-- ===== src/Mpt/Node/AccountEffect.antt =====
-- SetAccount of database/mpt/nodes.go in a state trie.
use carmen.Prelude.{
  ℕ, ◌≡◌, ◌≢◌, refl, List, [], ◌++◌, Bool, true, false, not, ◌||◌, ◌&&◌, Option, none, some,
  if◌then◌else◌, length, arith, subst, sym, ◌∙◌, ap, Bool-cases, inl, inr, ◌==◌, comparable_nat,
}
use carmen.Prelude.Map.{equal_refl}
use carmen.Mpt.Node.{
  AccountInfo, Config, Node, NodeBase, Outcome, StorageHash, account, branch, bytes_beq_iff,
  clone_frozen, comparable_bytes, comparable_info, empty, extension, info_beq_iff, info_is_empty,
  is_branch, is_empty, mark_dirty, new_base, new_storage, path_of, value,
}
use carmen.Mpt.Node.Accounts.{create_account, update_account}
use carmen.Mpt.Node.AccountReading.{Entry, account-placed, entries-IsReading, find_entry}
use carmen.Mpt.Node.Effect.{IsEffect}
use carmen.Mpt.Node.LeafEffect.{split_leaf_node-IsEffect}
use carmen.Mpt.Node.Valid.{AreNibbles, IsAccountLeaf, IsPlaced, IsStorage, IsTrie}
use carmen.Mpt.Node.ValueReading.{apart-equal}
use carmen.Mpt.Node.Walk.{get_below, unchanged}

-- The entry after its information has been set: a new account has no storage, and one that is removed
-- keeps nothing.
abbrev pub stored : AccountInfo → Option (Option Entry) → Option (Option Entry)
stored info none = none
stored info (some none) = some (if info_is_empty info then none else some (info, empty))
stored info (some (some (old, storage))) =
    some (if info_is_empty info then none else some (info, storage))

abbrev pub after_account :
    List ℕ → AccountInfo → List ℕ → Option (Option Entry) → Option (Option Entry)
after_account address info other before = if address == other then stored info before else before

pub empty-IsStorage : (config : Config) → IsStorage config 64 [] empty
unfolding IsTrie
empty-IsStorage config = _

module _ (config : Config) (address : List ℕ) (info : AccountInfo) where
  abbrev pub IsUpdate : ℕ → List ℕ → Node → Outcome → Type 0
  IsUpdate =
      IsEffect (IsAccountLeaf config) (path_of config) find_entry (after_account address info)

  pub update-elsewhere :
      (other : List ℕ)
      → path_of config other ≢ path_of config address
      → (r : Option (Option Entry)) → after_account address info other r ≡ r
  update-elsewhere other d r = rw (apart-equal config address other d) refl

  pub update-absent :
      info_is_empty info ≡ true
      → (other : List ℕ) → after_account address info other (some none) ≡ some none
  update-absent z other = rw z (ground arith)

  pub create_account-IsEffect :
      (size : ℕ) (prefix path : List ℕ)
      → path_of config address ≡ prefix ++ path
      → length path ≡ size
      → AreNibbles path
      → IsUpdate size prefix empty (create_account address info path)
  unfolding create_account IsEffect IsTrie IsAccountLeaf is_branch is_empty get_below find_entry
  create_account-IsEffect size prefix path e l nibbles = elim (Bool-cases (info_is_empty info)) [
    | inl z ↦
        rw z (_, λ _. (refl, refl), λ h. absurd (ground arith), λ other rest r m. ground arith)
    | inr f ↦ rw f (
      (f, (path, e, l, nibbles, λ _. omega arith), _),
      λ h. absurd (ground arith),
      λ h. absurd (ground arith),
      λ other rest r m. ground arith,
    )
  ]

  pub create_account-nonempty :
      (path : List ℕ)
      → info_is_empty info ≡ false
      → is_empty (create_account address info path).root ≡ false
  unfolding create_account is_empty
  create_account-nonempty path z = rw z refl

  account-IsEffect :
      (size : ℕ) (prefix : List ℕ) (n m : NodeBase) (old : AccountInfo) (storage : Node)
      (hash : StorageHash) (len : ℕ) (replaced changed : Bool)
      → info_is_empty info ≡ false
      → IsPlaced config size prefix address len
      → IsStorage config 64 [] storage
      → IsUpdate size prefix (account n address old storage hash len) (record {
        root = account m address info storage hash len;
        replaced = replaced;
        changed = changed;
      })
  unfolding IsEffect IsTrie IsAccountLeaf is_branch is_empty get_below find_entry
  account-IsEffect size prefix n m old storage hash len replaced changed z placed t = (
    (z, placed, t),
    λ _. (refl, refl),
    λ h. absurd (ground arith),
    λ other rest r l. elim (Bool-cases (address == other)) [
      | inl same ↦ rw (same, z) refl
      | inr f ↦ rw f refl
    ],
  )

  removed-IsEffect :
      (size : ℕ) (prefix : List ℕ) (n : NodeBase) (old : AccountInfo) (storage : Node)
      (hash : StorageHash) (len : ℕ) (changed : Bool)
      → info_is_empty info ≡ true
      → IsUpdate size prefix
          (account n address old storage hash len)
          (record { root = empty; replaced = true; changed = changed })
  unfolding IsEffect IsTrie is_branch is_empty get_below find_entry
  removed-IsEffect size prefix n old storage hash len changed z = (
    _,
    λ h. absurd (ground arith),
    λ h. absurd (ground arith),
    λ other rest r l. elim (Bool-cases (address == other)) [
      | inl same ↦ rw (same, z) refl
      | inr f ↦ rw f refl
    ],
  )

  -- Nothing is removed where another address's leaf stands.
  kept-IsEffect :
      (size : ℕ) (prefix : List ℕ) (n : NodeBase) (own : List ℕ) (old : AccountInfo)
      (storage : Node) (hash : StorageHash) (len : ℕ)
      → info_is_empty old ≡ false
      → IsPlaced config size prefix own len
      → IsStorage config 64 [] storage
      → (own == address) ≡ false
      → info_is_empty info ≡ true
      → IsUpdate size prefix
          (account n own old storage hash len)
          (unchanged (account n own old storage hash len))
  unfolding IsEffect IsTrie IsAccountLeaf is_branch is_empty get_below find_entry
  kept-IsEffect size prefix n own old storage hash len z placed t d none_left = (
    (z, placed, t),
    λ _. (refl, refl),
    λ h. absurd (ground arith),
    λ other rest r l. elim (Bool-cases (address == other)) [
      | inl same ↦
          rw (sym ((bytes_beq_iff address other).0 same), d, equal_refl address, none_left) refl
      | inr f ↦ rw f refl
    ],
  )

  same_address-IsEffect :
      (size : ℕ) (prefix path : List ℕ) (n : NodeBase) (old : AccountInfo) (storage : Node)
      (hash : StorageHash) (len : ℕ)
      → info_is_empty old ≡ false
      → IsPlaced config size prefix address len
      → IsStorage config 64 [] storage
      → (o : Outcome) × (update_account config address info
            (account n address old storage hash len)
            path
          ≡ some o)
        × IsUpdate size prefix (account n address old storage hash len) o
  unfolding update_account
  same_address-IsEffect size prefix path n old storage hash len z placed t =
      rw (equal_refl address) (elim (Bool-cases (info == old)) [
        | inl same ↦ rw same (
          _,
          refl,
          subst
              (λ w. IsUpdate size prefix (account n address old storage hash len) (record {
                root = account n address w storage hash len;
                replaced = false;
                changed = false;
              }))
              ((info_beq_iff info old).0 same)
              (account-IsEffect size prefix n n old storage hash len false false
                (ap (λ (w : AccountInfo). info_is_empty w) ((info_beq_iff info old).0 same) ∙ z)
                placed t),
        )
        | inr f ↦ elim (Bool-cases (info_is_empty info)) [
          | inl y ↦ rw (f, y) (_, refl, removed-IsEffect size prefix n old storage hash len false y)
          | inr g ↦
              rw (f, g)
                (
                  _,
                  refl,
                  account-IsEffect size prefix n (mark_dirty (clone_frozen n)) old storage hash len
                      n.frozen (not n.frozen) g placed t,
                )
        ]
      ])

  sibling_seen :
      info_is_empty info ≡ false
      → (n : NodeBase) (hash : StorageHash) (len : ℕ) (k : List ℕ)
      → find_entry k (account n address info empty hash len)
        ≡ after_account address info k (some none)
  unfolding find_entry
  sibling_seen z n hash len k = rw z (ground arith)

  other_address-IsEffect :
      (config.track_suffix_lengths || config.direct_hashing) ≡ true
      → ((a b : List ℕ) → path_of config a ≡ path_of config b → a ≡ b)
      → (size : ℕ) (prefix path : List ℕ) (n : NodeBase) (own : List ℕ) (old : AccountInfo)
        (storage : Node) (hash : StorageHash) (len : ℕ)
      → path_of config address ≡ prefix ++ path
      → length path ≡ size
      → AreNibbles path
      → info_is_empty old ≡ false
      → IsPlaced config size prefix own len
      → IsStorage config 64 [] storage
      → (own == address) ≡ false
      → (o : Outcome) × (update_account config address info
            (account n own old storage hash len)
            path
          ≡ some o)
        × IsUpdate size prefix (account n own old storage hash len) o
  unfolding update_account
  other_address-IsEffect hashing injective size prefix path n own old storage hash len e l nibbles z
        placed t other =
      elim (Bool-cases (info_is_empty info)) [
        | inl y ↦
            rw (other, y)
              (_, refl, kept-IsEffect size prefix n own old storage hash len z placed t other y)
        | inr f ↦
            let (partial, at, len_eq, own_nibbles, _) = placed in
            let (root, made, effect) =
              split_leaf_node-IsEffect config hashing (IsAccountLeaf config) (path_of config)
                find_entry (entries-IsReading config) (after_account address info)
                (path_of config address) update-elsewhere (account n own old storage hash len)
                (account (mark_dirty new_base) address info empty new_storage 0)
                (path_of config own) (account-placed config n own old storage hash len z t)
                (account-placed config (mark_dirty new_base) address info empty new_storage 0 f
                  (empty-IsStorage config))
                (sibling_seen f (mark_dirty new_base) new_storage 0) size prefix partial path
                (not n.frozen && config.track_suffix_lengths) at e len_eq l own_nibbles nibbles
                (λ same. absurd (
                  different (injective own address (at ∙ ap (λ p. prefix ++ p) same ∙ sym e))
                    other)) in
            rw (other, f, made) (_, refl, effect)
      ]
    where
      different : own ≡ address → (own == address) ≡ false → ⊥
      different same d = absurd (ground (arith, (bytes_beq_iff own address).1 same))

  -- AccountNode.SetAccount, where the paths of different addresses differ.
  pub update_account-IsEffect :
      (config.track_suffix_lengths || config.direct_hashing) ≡ true
      → ((a b : List ℕ) → path_of config a ≡ path_of config b → a ≡ b)
      → (size : ℕ) (prefix path : List ℕ) (leaf : Node) → path_of config address ≡ prefix ++ path
      → length path ≡ size
      → AreNibbles path
      → IsAccountLeaf config size prefix leaf
      → (o : Outcome) × (update_account config address info leaf path ≡ some o)
        × IsUpdate size prefix leaf o
  unfolding IsAccountLeaf
  update_account-IsEffect hashing injective size prefix path empty e l nibbles t = absurd t
  update_account-IsEffect hashing injective size prefix path (branch n children hashes) e l nibbles
        t =
      absurd t
  update_account-IsEffect hashing injective size prefix path (extension n own next hash) e l nibbles
        t =
      absurd t
  update_account-IsEffect hashing injective size prefix path (value n key word len) e l nibbles t =
      absurd t
  update_account-IsEffect hashing injective size prefix path (account n own old storage hash len) e
        l nibbles (z, placed, t) =
      elim (Bool-cases (own == address)) [
        | inl same ↦
            subst
              (λ k.
                (o : Outcome) × (update_account config address info
                    (account n k old storage hash len) path
                  ≡ some o)
                × IsUpdate size prefix (account n k old storage hash len) o)
              (sym ((bytes_beq_iff own address).0 same))
              (same_address-IsEffect size prefix path n old storage hash len z
                (subst (λ k. IsPlaced config size prefix k len) ((bytes_beq_iff own address).0 same)
                  placed)
                t)
        | inr other ↦
            other_address-IsEffect hashing injective size prefix path n own old storage hash len e l
              nibbles z placed t other
      ]
