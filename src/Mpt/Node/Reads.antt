-- ===== src/Mpt/Node/Reads.antt =====
-- What GetAccount and GetSlot of database/mpt/nodes.go read after the operations on a state trie.
use carmen.Prelude.{
  ℕ, ◌≡◌, List, [], ◌&&◌, none, some, if◌then◌else◌, ◌∙◌, ap, ◌==◌, comparable_nat,
}
use carmen.Mpt.Node.{
  AccountInfo, Config, Node, Outcome, comparable_bytes, comparable_info, empty, info_is_empty,
  path_of,
}
use carmen.Mpt.Node.Accounts.{clear_storage, get_account, get_slot, set_account, set_slot}
use carmen.Mpt.Node.AccountReading.{get_account-entry, get_slot-entry}
use carmen.Mpt.Node.SlotChange.{written}
use carmen.Mpt.Node.Valid.{IsState}
use carmen.Mpt.Node.Storage.{HasPath, IsUsable}
use carmen.Mpt.Node.State.{entry-clear_storage, entry-set_account, entry-set_slot}
use carmen.Mpt.Node.Entries.{
  entry-IsStorage, entry-total, slot_after, info_in-stored, slot_in-stored, info_in-with_storage,
  slot_in-cleared, slot_in-written,
}

module _ (config : Config) (address other : List ℕ) (size : ℕ) (node : Node) (o : Outcome)
    (usable : IsUsable config) (t : IsState config size [] node) (h : HasPath config size address)
    (g : HasPath config size other) where
  -- In a configuration whose paths are those of one address or key only, and which tracks the
  -- lengths of suffixes or hashes directly: after a SetAccount at an address that returns on a
  -- well-formed state trie, GetAccount gives the information that was set at that address, nothing
  -- if it is empty, and at every other address what it gave before.
  pub get_account-set_account :
      (info : AccountInfo)
      → set_account config address info node (path_of config address) ≡ some o
      → get_account other o.root (path_of config other) ≡ (
          if address == other
          then some (if info_is_empty info then none else some info)
          else get_account other node (path_of config other))
  get_account-set_account info made =
      let (r, e) = entry-total config other node size [] (path_of config other) t g.0 in
      rw
        (
          get_account-entry other o.root (path_of config other),
          get_account-entry other node (path_of config other),
          entry-set_account config address size node usable t h info o other made g,
          e,
        )
        (info_in-stored (address == other) info r)

  -- In a configuration whose paths are those of one address or key only, and which tracks the
  -- lengths of suffixes or hashes directly: after a SetAccount that returns on a well-formed state
  -- trie, GetSlot gives nothing at an address whose information was set to be empty, and otherwise
  -- what it gave before.
  pub get_slot-set_account :
      (info : AccountInfo) (key : List ℕ)
      → set_account config address info node (path_of config address) ≡ some o
      → get_slot config other key o.root (path_of config other) ≡ (
          if address == other && info_is_empty info
          then some none
          else get_slot config other key node (path_of config other))
  get_slot-set_account info key made =
      let (r, e) = entry-total config other node size [] (path_of config other) t g.0 in
      rw
        (
          get_slot-entry config other key o.root (path_of config other),
          get_slot-entry config other key node (path_of config other),
          entry-set_account config address size node usable t h info o other made g,
          e,
        )
        (slot_in-stored config key (address == other) info r)

  -- In a configuration whose paths are those of one address or key only, and which tracks the
  -- lengths of suffixes or hashes directly: a SetSlot that returns on a well-formed state trie
  -- leaves GetAccount alone at every address.
  pub get_account-set_slot :
      (key : List ℕ) (word : ℕ)
      → HasPath config 64 key
      → set_slot config address key word node (path_of config address) ≡ some o
      → get_account other o.root (path_of config other)
        ≡ get_account other node (path_of config other)
  get_account-set_slot key word k made =
      let (r, e) = entry-total config other node size [] (path_of config other) t g.0 in
      rw
        (
          get_account-entry other o.root (path_of config other),
          get_account-entry other node (path_of config other),
          entry-set_slot config address size node usable t h key word o other k made g,
          e,
        )
        (info_in-with_storage (address == other) (written config key word) r)

  -- In a configuration whose paths are those of one address or key only, and which tracks the
  -- lengths of suffixes or hashes directly: after a SetSlot that returns on a well-formed state
  -- trie, GetSlot gives the value for that slot if its account exists and nothing if it does not,
  -- and for every other slot what it gave before.
  pub get_slot-set_slot :
      (key slot : List ℕ) (word : ℕ)
      → HasPath config 64 key
      → HasPath config 64 slot
      → set_slot config address key word node (path_of config address) ≡ some o
      → get_slot config other slot o.root (path_of config other) ≡ (
          if address == other && key == slot
          then slot_after word (get_account other node (path_of config other))
          else get_slot config other slot node (path_of config other))
  get_slot-set_slot key slot word k l made =
      let (r, e) = entry-total config other node size [] (path_of config other) t g.0 in
      rw
        (
          get_slot-entry config other slot o.root (path_of config other),
          get_slot-entry config other slot node (path_of config other),
          get_account-entry other node (path_of config other),
          entry-set_slot config address size node usable t h key word o other k made g,
          e,
        )
        (slot_in-written config key slot word (address == other) r usable k l (λ info storage same.
          entry-IsStorage config other node size [] (path_of config other) info storage t
            (e ∙ ap some same)))

  -- In a configuration whose paths are those of one address or key only, and which tracks the
  -- lengths of suffixes or hashes directly: a ClearStorage that returns on a well-formed state
  -- trie leaves GetAccount alone, and GetSlot gives nothing at its address and what it gave before
  -- at every other.
  pub clear_storage-reads :
      (key : List ℕ)
      → clear_storage config address node (path_of config address) ≡ some o
      → (get_account other o.root (path_of config other)
          ≡ get_account other node (path_of config other))
        × (get_slot config other key o.root (path_of config other) ≡ (
            if address == other
            then some none
            else get_slot config other key node (path_of config other)))
  clear_storage-reads key made =
      let (r, e) = entry-total config other node size [] (path_of config other) t g.0 in
      rw
        (
          get_account-entry other o.root (path_of config other),
          get_account-entry other node (path_of config other),
          get_slot-entry config other key o.root (path_of config other),
          get_slot-entry config other key node (path_of config other),
          entry-clear_storage config address size node usable t h o other made g,
          e,
        )
        (
          info_in-with_storage (address == other) (λ storage. empty) r,
          slot_in-cleared config key (address == other) r,
        )
