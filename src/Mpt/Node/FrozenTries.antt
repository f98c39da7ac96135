-- ===== src/Mpt/Node/FrozenTries.antt =====
-- The operations of database/mpt/nodes.go on frozen tries.
use carmen.Prelude.{
  ℕ, ◌≡◌, ◌⊎◌, refl, List, Bool, true, false, not, ◌||◌, Option, none, some, arith, Bool-cases,
  Option-cases, inl, inr, ◌==◌, comparable_nat, ◌>>=◌,
}
use carmen.Mpt.Node.{
  AccountInfo, Config, Node, NodeBase, Outcome, StorageHash, account, branch, comparable_bytes,
  comparable_info, empty, extension, info_is_empty, is_empty, path_of, value,
}
use carmen.Mpt.Node.Accounts.{
  clear_storage, create_account, set_account, set_slot, stay_empty, store_slot, update_account,
  update_slot, update_storage,
}
use carmen.Mpt.Node.Frozen.{IsFrozen}
use carmen.Mpt.Node.Values.{create_value, set_value, update_value}
use carmen.Mpt.Node.Walk.{unchanged}
use carmen.Mpt.Node.Copies.{IsKept, some-IsKept, no_outcome, set_below-IsKept}

split-IsKept :
    (node : Node) (r : Option Node) (changed : Bool) (o : Outcome)
    → (r >>= λ root. some (record { root = root; replaced = true; changed = changed })) ≡ some o
    → IsKept node o
split-IsKept node none changed o e = absurd (no_outcome o e)
split-IsKept node (some root) changed o e = some-IsKept node _ o (λ r. absurd (ground arith)) e

create_value-IsKept :
    (key : List ℕ) (word : ℕ) (path : List ℕ) → IsKept empty (create_value key word path)
unfolding create_value
create_value-IsKept key word path = elim (Bool-cases (word == 0)) [
  | inl t ↦ rw t (λ r. (refl, refl))
  | inr f ↦ rw f (λ r. absurd (ground arith))
]

update_value-IsKept :
    (config : Config) (key : List ℕ) (word : ℕ) (leaf : Node) (path : List ℕ) (o : Outcome)
    → IsFrozen leaf
    → update_value config key word leaf path ≡ some o
    → IsKept leaf o
unfolding IsFrozen update_value
update_value-IsKept config key word empty path o f e = absurd (no_outcome o e)
update_value-IsKept config key word (branch n children hashes) path o f e = absurd (no_outcome o e)
update_value-IsKept config key word (extension n own next hash) path o f e = absurd (no_outcome o e)
update_value-IsKept config key word (account n address info storage hash len) path o f e =
    absurd (no_outcome o e)
update_value-IsKept config key word (value n own old len) path o f e =
    elim (Bool-cases (own == key)) [
      | inl same ↦ elim (Bool-cases (word == old)) [
        | inl t ↦
            some-IsKept _ (unchanged (value n own old len)) o (λ r. (refl, refl))
              (rw (same, t) at e)
        | inr d ↦ elim (Bool-cases (word == 0)) [
          | inl z ↦ some-IsKept _ _ o (λ r. absurd (ground arith)) (rw (same, d, z) at e)
          | inr g ↦ some-IsKept _ _ o (λ r. absurd (ground arith)) (rw (same, d, g) at e)
        ]
      ]
      | inr other ↦ elim (Bool-cases (word == 0)) [
        | inl z ↦
            some-IsKept _ (unchanged (value n own old len)) o (λ r. (refl, refl))
              (rw (other, z) at e)
        | inr g ↦ split-IsKept (value n own old len) _ false o (rw (other, g) at e)
      ]
    ]

create_account-IsKept :
    (address : List ℕ) (info : AccountInfo) (path : List ℕ)
    → IsKept empty (create_account address info path)
unfolding create_account
create_account-IsKept address info path = elim (Bool-cases (info_is_empty info)) [
  | inl t ↦ rw t (λ r. (refl, refl))
  | inr f ↦ rw f (λ r. absurd (ground arith))
]

update_account-IsKept :
    (config : Config) (address : List ℕ) (info : AccountInfo) (leaf : Node) (path : List ℕ)
    (o : Outcome)
    → IsFrozen leaf
    → update_account config address info leaf path ≡ some o
    → IsKept leaf o
unfolding IsFrozen update_account
update_account-IsKept config address info empty path o f e = absurd (no_outcome o e)
update_account-IsKept config address info (branch n children hashes) path o f e =
    absurd (no_outcome o e)
update_account-IsKept config address info (extension n own next hash) path o f e =
    absurd (no_outcome o e)
update_account-IsKept config address info (value n own old len) path o f e = absurd (no_outcome o e)
update_account-IsKept config address info (account n own old storage hash len) path o (f, below) e =
    elim (Bool-cases (own == address)) [
      | inl same ↦ elim (Bool-cases (info == old)) [
        | inl t ↦
            some-IsKept _ (unchanged (account n own old storage hash len)) o (λ r. (refl, refl))
              (rw (same, t) at e)
        | inr d ↦ elim (Bool-cases (info_is_empty info)) [
          | inl z ↦ some-IsKept _ _ o (λ r. absurd (ground arith)) (rw (same, d, z) at e)
          | inr g ↦ some-IsKept _ _ o (λ r. absurd (ground arith)) (rw (same, d, g) at e)
        ]
      ]
      | inr other ↦ elim (Bool-cases (info_is_empty info)) [
        | inl z ↦
            some-IsKept _ (unchanged (account n own old storage hash len)) o (λ r. (refl, refl))
              (rw (other, z) at e)
        | inr g ↦ split-IsKept (account n own old storage hash len) _ _ o (rw (other, g) at e)
      ]
    ]

set_value-IsKept :
    (config : Config) (key : List ℕ) (word : ℕ) (node : Node) (path : List ℕ) (o : Outcome)
    → IsFrozen node
    → set_value config key word node path ≡ some o
    → IsKept node o
unfolding set_value
set_value-IsKept config key word =
    set_below-IsKept config (word == 0) (create_value key word) (update_value config key word)
      (create_value-IsKept key word) (update_value-IsKept config key word)

store_slot-IsKept :
    (n : NodeBase) (own : List ℕ) (info : AccountInfo) (storage root : Node) (hash : StorageHash)
    (len : ℕ) (replaced changed : Bool)
    → n.frozen ≡ true
    → IsKept storage (record { root = root; replaced = replaced; changed = changed })
    → IsKept (account n own info storage hash len) (
        store_slot n own info hash len
          (record { root = root; replaced = replaced; changed = changed }))
unfolding store_slot
store_slot-IsKept n own info storage root hash len true changed f h = λ r. absurd (ground arith)
store_slot-IsKept n own info storage root hash len false changed f h =
    let (same, c) = h refl in λ r. rw (c, same) (refl, refl)

update_slot-IsKept :
    (config : Config) (address key : List ℕ) (word : ℕ) (leaf : Node) (path : List ℕ) (o : Outcome)
    → IsFrozen leaf
    → update_slot config address key word leaf path ≡ some o
    → IsKept leaf o
unfolding IsFrozen update_slot
update_slot-IsKept config address key word empty path o f e = absurd (no_outcome o e)
update_slot-IsKept config address key word (branch n children hashes) path o f e =
    absurd (no_outcome o e)
update_slot-IsKept config address key word (extension n own next hash) path o f e =
    absurd (no_outcome o e)
update_slot-IsKept config address key word (value n own old len) path o f e =
    absurd (no_outcome o e)
update_slot-IsKept config address key word (account n own info storage hash len) path o (f, below)
      e =
    elim (Bool-cases (own == address)) [
      | inl same ↦ elim (Option-cases (set_value config key word storage (path_of config key))) [
        | inl none_left ↦ absurd (no_outcome o (rw (same, none_left) at e))
        | inr (child, made) ↦
            some-IsKept _ _ o
              (store_slot-IsKept n own info storage child.root hash len child.replaced child.changed
                f (set_value-IsKept config key word storage (path_of config key) child below made))
              (rw (same, made) at e)
      ]
      | inr other ↦
          some-IsKept _ (unchanged (account n own info storage hash len)) o (λ r. (refl, refl))
            (rw other at e)
    ]

update_storage-IsKept :
    (address : List ℕ) (leaf : Node) (path : List ℕ) (o : Outcome)
    → IsFrozen leaf
    → update_storage address leaf path ≡ some o
    → IsKept leaf o
unfolding IsFrozen update_storage
update_storage-IsKept address empty path o f e = absurd (no_outcome o e)
update_storage-IsKept address (branch n children hashes) path o f e = absurd (no_outcome o e)
update_storage-IsKept address (extension n own next hash) path o f e = absurd (no_outcome o e)
update_storage-IsKept address (value n own old len) path o f e = absurd (no_outcome o e)
update_storage-IsKept address (account n own info storage hash len) path o (f, below) e =
    elim (Bool-cases (not (own == address) || is_empty storage)) [
      | inl t ↦
          some-IsKept _ (unchanged (account n own info storage hash len)) o (λ r. (refl, refl))
            (rw t at e)
      | inr d ↦ some-IsKept _ _ o (λ r. absurd (ground arith)) (rw d at e)
    ]

-- Where SetAccount, SetSlot or ClearStorage on a trie of frozen nodes returns the same node, the
-- trie under it is unchanged, and no change is reported.
pub frozen-IsKept :
    (config : Config) (address key : List ℕ) (info : AccountInfo) (word : ℕ) (node : Node)
    (path : List ℕ) (o : Outcome)
    → IsFrozen node
    → (set_account config address info node path ≡ some o)
      ⊎ (set_slot config address key word node path ≡ some o)
      ⊎ (clear_storage config address node path ≡ some o)
    → o.replaced ≡ false
    → (o.root ≡ node) × (o.changed ≡ false)
unfolding set_account set_slot clear_storage
frozen-IsKept config address key info word node path o f (inl e) =
    set_below-IsKept config (info_is_empty info) (create_account address info)
      (update_account config address info) (create_account-IsKept address info)
      (update_account-IsKept config address info) node path o f e
frozen-IsKept config address key info word node path o f (inr (inl e)) =
    set_below-IsKept config true stay_empty (update_slot config address key word)
      (λ p r. (refl, refl)) (update_slot-IsKept config address key word) node path o f e
frozen-IsKept config address key info word node path o f (inr (inr e)) =
    set_below-IsKept config true stay_empty (update_storage address) (λ p r. (refl, refl))
      (update_storage-IsKept address) node path o f e
