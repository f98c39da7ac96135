-- ===== src/Mpt/Node/Entries.antt =====
-- The account and the slots that GetAccount and GetSlot of database/mpt/nodes.go find in an entry.
use carmen.Prelude.{
  ℕ, ◌≡◌, refl, List, [], ◌∷◌, ◌++◌, Bool, true, false, ◌&&◌, Option, none, some, if◌then◌else◌,
  length, length-append, arith, subst, ap, Bool-cases, inl, inr, ◌==◌, comparable_nat, drop,
}
use carmen.Mpt.Nibble.{is_prefix_of}
use carmen.Mpt.Nibble.Prefix.{append-drop_prefix}
use carmen.Mpt.Node.{
  AccountInfo, Config, Node, account, branch, comparable_bytes, comparable_info, empty, extension,
  info_is_empty, value,
}
use carmen.Mpt.Node.AccountEffect.{stored}
use carmen.Mpt.Node.AccountReading.{Entry, entry_at, find_entry, info_in, slot_in}
use carmen.Mpt.Node.SlotChange.{with_storage, written}
use carmen.Mpt.Node.Valid.{IsAccountLeaf, IsState, IsStorage, IsTrie}
use carmen.Mpt.Node.Values.{get_value}
use carmen.Mpt.Node.Walk.{get_below}
use carmen.Mpt.Node.Storage.{HasPath, IsUsable, get_value-set_value, set_value-IsStorage}

within {ℓ} :
    {A : Type ℓ} (b : Bool) (r : Option (Option A)) (a : A)
    → (if b then r else some none) ≡ some (some a)
    → b ≡ true
    → r ≡ some (some a)
within true r a e y = e
within false r a e y = cc

outside {ℓ} :
    {A : Type ℓ} (b : Bool) (r : Option (Option A)) (a : A)
    → (if b then r else some none) ≡ some (some a)
    → b ≡ false
    → ⊥
outside true r a e f = cc
outside false r a e f = cc

abbrev storage_of : Option (Option Entry) → Node
storage_of none = empty
storage_of (some none) = empty
storage_of (some (some (info, storage))) = storage

stored_here :
    (b : Bool) (held entry : Entry)
    → some (if b then some held else none) ≡ some (some entry)
    → b ≡ true
    → held.1 ≡ entry.1
stored_here true held entry e y = ap (λ (r : Option (Option Entry)). storage_of r) e
stored_here false held entry e y = cc

-- The storage of each account in a state trie is a storage trie.
pub entry-IsStorage :
    (config : Config) (address : List ℕ) (node : Node) (size : ℕ) (prefix path : List ℕ)
    (info : AccountInfo) (storage : Node)
    → IsState config size prefix node
    → entry_at address node path ≡ some (some (info, storage))
    → IsStorage config 64 [] storage
unfolding IsTrie IsAccountLeaf get_below find_entry
entry-IsStorage config address empty size prefix path info storage t e = cc
entry-IsStorage config address (branch n children hashes) size prefix [] info storage t e = cc
entry-IsStorage config address (branch n children hashes) size prefix (x ∷ path) info storage
      (below, s, tries, f, b) e =
    entry-IsStorage config address (children x) below (prefix ++ x ∷ []) path info storage (tries x)
      e
entry-IsStorage config address (extension n own next hash) size prefix path info storage
      (below, s, _, _, _, t) e =
    elim (Bool-cases (is_prefix_of own path)) [
      | inl y ↦
          entry-IsStorage config address next below (prefix ++ own) (drop (length own) path) info
            storage t (within _ _ _ e y)
      | inr f ↦
          absurd (outside _ (get_below (find_entry address) next (drop (length own) path)) _ e f)
    ]
entry-IsStorage config address (account n own old kept hash len) size prefix path info storage
      (z, placed, t) e =
    elim (Bool-cases (own == address)) [
      | inl y ↦
          subst (IsStorage config 64 [])
            (stored_here (own == address) (old, kept) (info, storage) e y) t
      | inr f ↦ cc
    ]
entry-IsStorage config address (value n key word len) size prefix path info storage t e = cc

-- A lookup along a path of the trie's depth succeeds.
pub entry-total :
    (config : Config) (address : List ℕ) (node : Node) (size : ℕ) (prefix path : List ℕ)
    → IsState config size prefix node
    → length path ≡ size
    → (r : Option Entry) × (entry_at address node path ≡ some r)
unfolding IsTrie IsAccountLeaf get_below find_entry
entry-total config address empty size prefix path t l = (none, refl)
entry-total config address (branch n children hashes) size prefix [] (below, s, tries, f, b) l =
    absurd (omega arith)
entry-total config address (branch n children hashes) size prefix (x ∷ path) (below, s, tries, f, b)
      l =
    entry-total config address (children x) below (prefix ++ x ∷ []) path (tries x) (omega arith)
entry-total config address (extension n own next hash) size prefix path (below, s, _, _, _, t) l =
    elim (Bool-cases (is_prefix_of own path)) [
      | inl y ↦ rw y (
          entry-total config address next below (prefix ++ own) (drop (length own) path) t (
            omega (
              arith,
              length-append own (drop (length own) path),
              ap (λ (z : List ℕ). length z) (append-drop_prefix own path y),
            )))
      | inr f ↦ rw f (none, refl)
    ]
entry-total config address (account n own info storage hash len) size prefix path t l = (_, refl)
entry-total config address (value n key word len) size prefix path t l = absurd t

-- What a slot holds after a write at it: nothing without an account.
abbrev pub slot_after : ℕ → Option (Option AccountInfo) → Option (Option ℕ)
slot_after word none = none
slot_after word (some none) = some none
slot_after word (some (some info)) = some (if word == 0 then none else some word)

pub info_in-stored :
    (same : Bool) (info : AccountInfo) (r : Option Entry)
    → info_in (if same then stored info (some r) else some r)
      ≡ (if same then some (if info_is_empty info then none else some info) else info_in (some r))
info_in-stored true info none = elim (Bool-cases (info_is_empty info)) [
  | inl e ↦ rw e refl
  | inr f ↦ rw f refl
]
info_in-stored true info (some (old, storage)) = elim (Bool-cases (info_is_empty info)) [
  | inl e ↦ rw e refl
  | inr f ↦ rw f refl
]
info_in-stored false info r = refl

pub slot_in-stored :
    (config : Config) (key : List ℕ) (same : Bool) (info : AccountInfo) (r : Option Entry)
    → slot_in config key (if same then stored info (some r) else some r)
      ≡ (if same && info_is_empty info then some none else slot_in config key (some r))
unfolding get_value get_below
slot_in-stored config key true info none = elim (Bool-cases (info_is_empty info)) [
  | inl e ↦ rw e refl
  | inr f ↦ rw f refl
]
slot_in-stored config key true info (some (old, storage)) = elim (Bool-cases (info_is_empty info)) [
  | inl e ↦ rw e refl
  | inr f ↦ rw f refl
]
slot_in-stored config key false info r = refl

pub info_in-with_storage :
    (same : Bool) (change : Node → Node) (r : Option Entry)
    → info_in (if same then with_storage change (some r) else some r) ≡ info_in (some r)
info_in-with_storage true change none = refl
info_in-with_storage true change (some (info, storage)) = refl
info_in-with_storage false change r = refl

pub slot_in-cleared :
    (config : Config) (key : List ℕ) (same : Bool) (r : Option Entry)
    → slot_in config key (if same then with_storage (λ storage. empty) (some r) else some r)
      ≡ (if same then some none else slot_in config key (some r))
unfolding get_value get_below
slot_in-cleared config key true none = refl
slot_in-cleared config key true (some (info, storage)) = refl
slot_in-cleared config key false r = refl

pub slot_in-written :
    (config : Config) (key other : List ℕ) (word : ℕ) (same : Bool) (r : Option Entry)
    → IsUsable config
    → HasPath config 64 key
    → HasPath config 64 other
    → ((info : AccountInfo) (storage : Node)
        → r ≡ some (info, storage)
        → IsStorage config 64 [] storage)
    → slot_in config other
        (if same then with_storage (written config key word) (some r) else some r)
      ≡ (if same && key == other
          then slot_after word (info_in (some r))
          else slot_in config other (some r))
unfolding written
slot_in-written config key other word true none usable k l storages = ground arith
slot_in-written config key other word true (some (info, storage)) usable k l storages =
    let t = storages info storage refl in
    let (child, made, _) = set_value-IsStorage config key word 64 storage usable t k in
    rw made (get_value-set_value config key other word 64 storage child usable t k l made)
slot_in-written config key other word false r usable k l storages = refl
