-- ===== src/Mpt/Node/Walk.antt =====
-- database/mpt/nodes.go: the way through branches and extensions, which all operations share.
use carmen.Prelude.{
  ℕ, List, [], ◌∷◌, Bool, false, Option, none, some, if◌then◌else◌, ◌>>=◌, length, drop,
}
use carmen.Mpt.Nibble.{is_prefix_of}
use carmen.Mpt.Node.{Config, Node, Outcome, account, branch, empty, extension, value}
use carmen.Mpt.Node.Branch.{set_next_in_branch}
use carmen.Mpt.Node.Extension.{set_next_in_extension, split_extension}

-- A reference that is returned as it is.
abbrev pub unchanged : Node → Outcome
unchanged node = record { root = node; replaced = false; changed = false }

-- GetAccount, GetValue and GetSlot: the leaf's answer, or no value where there is no leaf. Nothing
-- results where the code returns an error or is out of range.
unfoldable pub get_below {ℓ} :
    {A : Type ℓ} → (Node → Option (Option A)) → Node → List ℕ → Option (Option A)
get_below found empty path = some none
get_below found (branch n children hashes) [] = none
get_below found (branch n children hashes) (pos ∷ path) = get_below found (children pos) path
get_below found (extension n own next hash) path =
    let below = get_below found next (drop (length own) path) in
    if is_prefix_of own path then below else some none
get_below found (account n address info storage hash len) path =
    found (account n address info storage hash len)
get_below found (value n key word len) path = found (value n key word len)

-- SetAccount, SetValue, SetSlot and ClearStorage, from what they do on the empty node and on leaves.
unfoldable pub set_below :
    Config
    → Bool
    → (List ℕ → Outcome)
    → (Node → List ℕ → Option Outcome)
    → Node
    → List ℕ
    → Option Outcome
set_below config value_is_empty created updated empty path = some (created path)
set_below config value_is_empty created updated (branch n children hashes) [] = none
set_below config value_is_empty created updated (branch n children hashes) (pos ∷ path) =
    set_below config value_is_empty created updated (children pos) path >>= λ child.
    some (set_next_in_branch config n children hashes pos (length (pos ∷ path)) child)
set_below config value_is_empty created updated (extension n own next hash) path =
    let below =
      (set_below config value_is_empty created updated next (drop (length own) path) >>= λ child.
      set_next_in_extension config n own hash (length path) child) in
    if is_prefix_of own path
    then below
    else if value_is_empty
    then some (unchanged (extension n own next hash))
    else split_extension config n own next hash path created
set_below config value_is_empty created updated (account n address info storage hash len) path =
    updated (account n address info storage hash len) path
set_below config value_is_empty created updated (value n key word len) path =
    updated (value n key word len) path
