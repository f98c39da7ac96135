-- ===== src/Mpt/Node/SlotEffect.antt =====
-- SetSlot and ClearStorage of database/mpt/nodes.go in a state trie.
use carmen.Prelude.{
  ℕ, ◌≡◌, refl, List, [], ◌++◌, Bool, true, false, not, some, length, subst, sym, Bool-cases, inl,
  inr, ◌==◌, comparable_nat,
}
use carmen.Prelude.Map.{equal_refl}
use carmen.Mpt.Node.{
  AccountInfo, Config, Node, NodeBase, Outcome, StorageHash, account, branch, bytes_beq_iff,
  comparable_bytes, comparable_info, empty, extension, info_is_empty, is_empty, path_of, value,
}
use carmen.Mpt.Node.Accounts.{store_slot, update_slot, update_storage}
use carmen.Mpt.Node.AccountEffect.{empty-IsStorage}
use carmen.Mpt.Node.Valid.{AreNibbles, IsAccountLeaf, IsPlaced, IsStorage}
use carmen.Mpt.Node.Values.{set_value}
use carmen.Mpt.Node.SlotChange.{written, IsChange, storage-IsEffect, other-IsEffect}

is_empty-empty : (node : Node) → is_empty node ≡ true → node ≡ empty
unfolding is_empty
is_empty-empty empty h = refl
is_empty-empty (branch n children hashes) h = cc
is_empty-empty (extension n own next hash) h = cc
is_empty-empty (account n address info storage hash len) h = cc
is_empty-empty (value n key word len) h = cc

store_slot-IsEffect :
    (config : Config) (address : List ℕ) (change : Node → Node) (size : ℕ) (prefix : List ℕ)
    (n : NodeBase) (info : AccountInfo) (storage new : Node) (hash : StorageHash) (len : ℕ)
    (replaced changed : Bool)
    → info_is_empty info ≡ false
    → IsPlaced config size prefix address len
    → IsStorage config 64 [] new
    → new ≡ change storage
    → IsChange config address change size prefix (account n address info storage hash len) (
        store_slot n address info hash len
          (record { root = new; replaced = replaced; changed = changed }))
unfolding store_slot
store_slot-IsEffect config address change size prefix n info storage new hash len true changed z
      placed t e =
    storage-IsEffect config address change size prefix n _ info storage new hash _ len _ _ z placed
      t e
store_slot-IsEffect config address change size prefix n info storage new hash len false changed z
      placed t e =
    storage-IsEffect config address change size prefix n _ info storage new hash _ len _ _ z placed
      t e

update_slot_at-IsEffect :
    (config : Config) (address key : List ℕ) (word : ℕ) (size : ℕ) (prefix path : List ℕ)
    (n : NodeBase) (info : AccountInfo) (storage : Node) (hash : StorageHash) (len : ℕ)
    (child : Outcome)
    → info_is_empty info ≡ false
    → IsPlaced config size prefix address len
    → set_value config key word storage (path_of config key) ≡ some child
    → IsStorage config 64 [] child.root
    → (o : Outcome) × (update_slot config address key word
          (account n address info storage hash len)
          path
        ≡ some o)
      × IsChange config address
          (written config key word)
          size
          prefix
          (account n address info storage hash len)
          o
unfolding update_slot written
update_slot_at-IsEffect config address key word size prefix path n info storage hash len child z
      placed made t =
    (
      store_slot n address info hash len child,
      rw (equal_refl address, made) refl,
      store_slot-IsEffect config address (written config key word) size prefix n info storage
          child.root hash len child.replaced child.changed z placed t (rw made refl),
    )

update_storage_at-IsEffect :
    (config : Config) (address : List ℕ) (size : ℕ) (prefix path : List ℕ) (n : NodeBase)
    (info : AccountInfo) (storage : Node) (hash : StorageHash) (len : ℕ)
    → info_is_empty info ≡ false
    → IsPlaced config size prefix address len
    → IsStorage config 64 [] storage
    → (o : Outcome) × (update_storage address (account n address info storage hash len) path
        ≡ some o)
      × IsChange config address
          (λ storage. empty)
          size
          prefix
          (account n address info storage hash len)
          o
unfolding update_storage
update_storage_at-IsEffect config address size prefix path n info storage hash len z placed t =
    elim (Bool-cases (is_empty storage)) [
      | inl e ↦
          rw (equal_refl address, e)
            (
              _,
              refl,
              storage-IsEffect config address (λ s. empty) size prefix n n info storage storage hash
                  hash len false false z placed t (is_empty-empty storage e),
            )
      | inr f ↦
          rw (equal_refl address, f)
            (
              _,
              refl,
              storage-IsEffect config address (λ s. empty) size prefix n _ info storage empty hash _
                  len n.frozen (not n.frozen) z placed (empty-IsStorage config) refl,
            )
    ]

-- AccountNode.SetSlot
pub update_slot-IsEffect :
    (config : Config) (address key : List ℕ) (word : ℕ)
    → ((storage : Node)
        → IsStorage config 64 [] storage
        → (o : Outcome) × (set_value config key word storage (path_of config key) ≡ some o)
          × IsStorage config 64 [] o.root)
    → (size : ℕ) (prefix path : List ℕ) (leaf : Node) → path_of config address ≡ prefix ++ path
    → length path ≡ size
    → AreNibbles path
    → IsAccountLeaf config size prefix leaf
    → (o : Outcome) × (update_slot config address key word leaf path ≡ some o)
      × IsChange config address (written config key word) size prefix leaf o
unfolding IsAccountLeaf update_slot store_slot written
update_slot-IsEffect config address key word write size prefix path empty e l nibbles t = absurd t
update_slot-IsEffect config address key word write size prefix path (branch n children hashes) e l
      nibbles t =
    absurd t
update_slot-IsEffect config address key word write size prefix path (extension n own next hash) e l
      nibbles t =
    absurd t
update_slot-IsEffect config address key word write size prefix path (value n own old len) e l
      nibbles t =
    absurd t
update_slot-IsEffect config address key word write size prefix path
      (account n own info storage hash len) e l nibbles (z, placed, t) =
    elim (Bool-cases (own == address)) [
      | inl same ↦
          let (child, made, t2) = write storage t in
          subst
            (λ k.
              (o : Outcome) × (update_slot config address key word
                  (account n k info storage hash len) path
                ≡ some o)
              × IsChange config address (written config key word) size prefix
                  (account n k info storage hash len) o)
            (sym ((bytes_beq_iff own address).0 same))
            (update_slot_at-IsEffect config address key word size prefix path n info storage hash
              len child z
              (subst (λ k. IsPlaced config size prefix k len) ((bytes_beq_iff own address).0 same)
                placed)
              made t2)
      | inr f ↦ rw f (
        _,
        refl,
        other-IsEffect config address (written config key word) size prefix n own info storage hash
            len z placed t f,
      )
    ]

-- AccountNode.ClearStorage
pub update_storage-IsEffect :
    (config : Config) (address : List ℕ)
    → (size : ℕ) (prefix path : List ℕ) (leaf : Node) → path_of config address ≡ prefix ++ path
    → length path ≡ size
    → AreNibbles path
    → IsAccountLeaf config size prefix leaf
    → (o : Outcome) × (update_storage address leaf path ≡ some o)
      × IsChange config address (λ storage. empty) size prefix leaf o
unfolding IsAccountLeaf update_storage
update_storage-IsEffect config address size prefix path empty e l nibbles t = absurd t
update_storage-IsEffect config address size prefix path (branch n children hashes) e l nibbles t =
    absurd t
update_storage-IsEffect config address size prefix path (extension n own next hash) e l nibbles t =
    absurd t
update_storage-IsEffect config address size prefix path (value n own old len) e l nibbles t =
    absurd t
update_storage-IsEffect config address size prefix path (account n own info storage hash len) e l
      nibbles (z, placed, t) =
    elim (Bool-cases (own == address)) [
      | inl same ↦
          subst
            (λ k.
              (o : Outcome) × (update_storage address (account n k info storage hash len) path
                ≡ some o)
              × IsChange config address (λ storage. empty) size prefix
                  (account n k info storage hash len) o)
            (sym ((bytes_beq_iff own address).0 same))
            (update_storage_at-IsEffect config address size prefix path n info storage hash len z
              (subst (λ k. IsPlaced config size prefix k len) ((bytes_beq_iff own address).0 same)
                placed)
              t)
      | inr f ↦ rw f (
        _,
        refl,
        other-IsEffect config address (λ storage. empty) size prefix n own info storage hash len z
            placed t f,
      )
    ]
