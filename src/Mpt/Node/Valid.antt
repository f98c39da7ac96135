-- ===== src/Mpt/Node/Valid.antt =====
-- The well-formed tries: what Check of database/mpt/nodes.go asks of the nodes' shape and places.
use carmen.Prelude.{ℕ, suc, ◌+◌, ◌%◌, ◌<◌, ◌≤◌, ◌≡◌, ◌≢◌, List, [], ◌∷◌, ◌++◌, true, false, length}
use carmen.Mpt.Node.{
  Config, Node, account, branch, empty, extension, info_is_empty, is_branch, is_empty, path_of,
  value,
}

-- The nibbles of a path are below 16.
abbrev pub AreNibbles : List ℕ → Type 0
AreNibbles [] = Unit
AreNibbles (x ∷ path) = (x < 16) × AreNibbles path

-- A leaf for a key, `size` nibbles from the end of the key's path, below the prefix of its place.
abbrev pub IsPlaced : Config → ℕ → List ℕ → List ℕ → ℕ → Type 0
IsPlaced config size prefix key len =
    (rest : List ℕ) × (path_of config key ≡ prefix ++ rest)
    × (length rest ≡ size)
    × AreNibbles rest
    × (config.track_suffix_lengths ≡ true → len ≡ size % 256)

-- Two of the children are not empty, and none stands out of range.
abbrev pub IsForked : (ℕ → Node) → Type 0
IsForked children =
    (i : ℕ) × (j : ℕ) × (i ≢ j) × (is_empty (children i) ≡ false) × (is_empty (children j) ≡ false)

abbrev pub IsBounded : (ℕ → Node) → Type 0
IsBounded children = (i : ℕ) → 16 ≤ i → children i ≡ empty

-- A trie of leaves that satisfy a predicate, `size` nibbles from the ends of their keys' paths, at the
-- place of a prefix.
module _ (IsLeaf : ℕ → List ℕ → Node → Type 0) where
  unfoldable pub IsTrie : ℕ → List ℕ → Node → Type 0
  unfolding is_branch
  IsTrie size prefix empty = Unit
  IsTrie size prefix (branch n children hashes) =
      (below : ℕ) × (size ≡ suc below)
      × ((i : ℕ) → IsTrie below (prefix ++ i ∷ []) (children i))
      × IsForked children
      × IsBounded children
  IsTrie size prefix (extension n path next hash) =
      (below : ℕ) × (size ≡ length path + below)
      × (path ≢ [])
      × AreNibbles path
      × (is_branch next ≡ true)
      × IsTrie below (prefix ++ path) next
  IsTrie size prefix (account n address info storage hash len) =
      IsLeaf size prefix (account n address info storage hash len)
  IsTrie size prefix (value n key word len) = IsLeaf size prefix (value n key word len)

-- Storage tries hold values that are not zero.
unfoldable pub IsValueLeaf : Config → ℕ → List ℕ → Node → Type 0
IsValueLeaf config size prefix (value n key word len) =
    (word ≢ 0) × IsPlaced config size prefix key len
IsValueLeaf config size prefix empty = ⊥
IsValueLeaf config size prefix (branch n children hashes) = ⊥
IsValueLeaf config size prefix (extension n path next hash) = ⊥
IsValueLeaf config size prefix (account n address info storage hash len) = ⊥

abbrev pub IsStorage : Config → ℕ → List ℕ → Node → Type 0
IsStorage config = IsTrie (IsValueLeaf config)

-- State tries hold accounts that are not empty, each with a storage trie, whose paths are 64 nibbles
-- long.
unfoldable pub IsAccountLeaf : Config → ℕ → List ℕ → Node → Type 0
unfolding info_is_empty
IsAccountLeaf config size prefix (account n address info storage hash len) =
    (info_is_empty info ≡ false)
    × IsPlaced config size prefix address len
    × IsStorage config 64 [] storage
IsAccountLeaf config size prefix empty = ⊥
IsAccountLeaf config size prefix (branch n children hashes) = ⊥
IsAccountLeaf config size prefix (extension n path next hash) = ⊥
IsAccountLeaf config size prefix (value n key word len) = ⊥

abbrev pub IsState : Config → ℕ → List ℕ → Node → Type 0
IsState config = IsTrie (IsAccountLeaf config)
