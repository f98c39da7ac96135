-- ===== src/Mpt/Node/State.antt =====
-- The state tries of database/mpt/nodes.go as maps from addresses to accounts and from slots to values.
use carmen.Prelude.{ℕ, ◌≡◌, refl, List, [], true, some, arith, subst, comparable_nat}
use carmen.Mpt.Node.{
  AccountInfo, Config, Node, Outcome, comparable_bytes, comparable_info, empty, info_is_empty,
  path_of,
}
use carmen.Mpt.Node.Accounts.{
  clear_storage, create_account, set_account, set_slot, stay_empty, update_account, update_slot,
  update_storage,
}
use carmen.Mpt.Node.AccountEffect.{
  after_account, create_account-IsEffect, create_account-nonempty, update-absent, update-elsewhere,
  update_account-IsEffect,
}
use carmen.Mpt.Node.AccountReading.{entries-IsReading, entry_at, find_entry}
use carmen.Mpt.Node.Effect.{IsEffect}
use carmen.Mpt.Node.SlotChange.{
  after_storage, change-absent, change-elsewhere, stay_empty-IsEffect, written,
}
use carmen.Mpt.Node.SlotEffect.{update_slot-IsEffect, update_storage-IsEffect}
use carmen.Mpt.Node.Valid.{IsAccountLeaf, IsState}
use carmen.Mpt.Node.Storage.{HasPath, IsUsable, same_root, set_value-IsStorage}
use carmen.Mpt.Node.WalkEffect.{set_below-IsEffect}

module _ (config : Config) (address : List ℕ) (size : ℕ) (node : Node) (usable : IsUsable config)
    (t : IsState config size [] node) (h : HasPath config size address) where
  set_account_lem :
      (info : AccountInfo)
      → (o : Outcome) × (set_account config address info node (path_of config address) ≡ some o)
        × IsEffect
            (IsAccountLeaf config)
            (path_of config)
            find_entry
            (after_account address info)
            size
            []
            node
            o
  unfolding set_account
  set_account_lem info =
      set_below-IsEffect config (IsAccountLeaf config) (path_of config) find_entry
        (entries-IsReading config) (after_account address info) (path_of config address)
        (update-elsewhere config address info) (info_is_empty info)
        (update-absent config address info) (create_account address info)
        (create_account-IsEffect config address info) (create_account-nonempty config address info)
        (update_account config address info)
        (update_account-IsEffect config address info usable.0 usable.1) node size []
        (path_of config address) t refl h.0 h.1

  set_slot_lem :
      (key : List ℕ) (word : ℕ)
      → HasPath config 64 key
      → (o : Outcome) × (set_slot config address key word node (path_of config address) ≡ some o)
        × IsEffect
            (IsAccountLeaf config)
            (path_of config)
            find_entry
            (after_storage address (written config key word))
            size
            []
            node
            o
  unfolding set_slot
  set_slot_lem key word g =
      set_below-IsEffect config (IsAccountLeaf config) (path_of config) find_entry
        (entries-IsReading config) (after_storage address (written config key word))
        (path_of config address) (change-elsewhere config address (written config key word)) true
        (λ _. change-absent config address (written config key word)) stay_empty
        (stay_empty-IsEffect config address (written config key word))
        (λ path e. absurd (ground arith)) (update_slot config address key word)
        (update_slot-IsEffect config address key word
          (λ storage s. set_value-IsStorage config key word 64 storage usable s g))
        node size [] (path_of config address) t refl h.0 h.1

  clear_storage_lem :
      (o : Outcome) × (clear_storage config address node (path_of config address) ≡ some o)
      × IsEffect
          (IsAccountLeaf config)
          (path_of config)
          find_entry
          (after_storage address (λ storage. empty))
          size
          []
          node
          o
  unfolding clear_storage
  clear_storage_lem =
      set_below-IsEffect config (IsAccountLeaf config) (path_of config) find_entry
        (entries-IsReading config) (after_storage address (λ storage. empty))
        (path_of config address) (change-elsewhere config address (λ storage. empty)) true
        (λ _. change-absent config address (λ storage. empty)) stay_empty
        (stay_empty-IsEffect config address (λ storage. empty)) (λ path e. absurd (ground arith))
        (update_storage address) (update_storage-IsEffect config address) node size []
        (path_of config address) t refl h.0 h.1

  -- In a configuration whose paths are those of one address or key only, and which tracks the
  -- lengths of suffixes or hashes directly: SetAccount succeeds on a well-formed state trie, and
  -- its result is well-formed: branches have two children, extensions lead to branches, and
  -- accounts are at their places, not empty, with the right path lengths.
  pub set_account-IsState :
      (info : AccountInfo)
      → (o : Outcome) × (set_account config address info node (path_of config address) ≡ some o)
        × IsState config size [] o.root
  unfolding IsEffect
  set_account-IsState info = let (o, made, effect) = set_account_lem info in (o, made, effect.0)

  -- In a configuration whose paths are those of one address or key only, and which tracks the
  -- lengths of suffixes or hashes directly: SetSlot succeeds on a well-formed state trie, and its
  -- result is well-formed.
  pub set_slot-IsState :
      (key : List ℕ) (word : ℕ)
      → HasPath config 64 key
      → (o : Outcome) × (set_slot config address key word node (path_of config address) ≡ some o)
        × IsState config size [] o.root
  unfolding IsEffect
  set_slot-IsState key word g =
      let (o, made, effect) = set_slot_lem key word g in (o, made, effect.0)

  pub clear_storage-IsState :
      (o : Outcome) × (clear_storage config address node (path_of config address) ≡ some o)
      × IsState config size [] o.root
  unfolding IsEffect
  clear_storage-IsState = let (o, made, effect) = clear_storage_lem in (o, made, effect.0)

  -- The entries after each operation.
  pub entry-set_account :
      (info : AccountInfo) (o : Outcome) (other : List ℕ)
      → set_account config address info node (path_of config address) ≡ some o
      → HasPath config size other
      → entry_at other o.root (path_of config other)
        ≡ after_account address info other (entry_at other node (path_of config other))
  unfolding IsEffect
  entry-set_account info o other made g =
      let (p, made2, effect) = set_account_lem info in
      let roots : p.root ≡ o.root = same_root p o made2 made in
      subst
        (λ root.
          entry_at other root (path_of config other)
          ≡ after_account address info other (entry_at other node (path_of config other)))
        roots (effect.3 other (path_of config other) refl g.0)

  pub entry-set_slot :
      (key : List ℕ) (word : ℕ) (o : Outcome) (other : List ℕ)
      → HasPath config 64 key
      → set_slot config address key word node (path_of config address) ≡ some o
      → HasPath config size other
      → entry_at other o.root (path_of config other)
        ≡ after_storage address
            (written config key word)
            other
            (entry_at other node (path_of config other))
  unfolding IsEffect
  entry-set_slot key word o other k made g =
      let (p, made2, effect) = set_slot_lem key word k in
      let roots : p.root ≡ o.root = same_root p o made2 made in
      subst
        (λ root.
          entry_at other root (path_of config other)
          ≡ after_storage address (written config key word) other
              (entry_at other node (path_of config other)))
        roots (effect.3 other (path_of config other) refl g.0)

  pub entry-clear_storage :
      (o : Outcome) (other : List ℕ)
      → clear_storage config address node (path_of config address) ≡ some o
      → HasPath config size other
      → entry_at other o.root (path_of config other)
        ≡ after_storage address
            (λ storage. empty)
            other
            (entry_at other node (path_of config other))
  unfolding IsEffect
  entry-clear_storage o other made g =
      let (p, made2, effect) = clear_storage_lem in
      let roots : p.root ≡ o.root = same_root p o made2 made in
      subst
        (λ root.
          entry_at other root (path_of config other)
          ≡ after_storage address (λ storage. empty) other
              (entry_at other node (path_of config other)))
        roots (effect.3 other (path_of config other) refl g.0)
