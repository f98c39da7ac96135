-- ===== src/Mpt/Nibble.antt =====
-- database/mpt/nibble.go: the paths of half bytes through the trie.
pub mod Prefix
pub mod Tests
use carmen.Prelude.{
  ℕ, zero, suc, ◌+◌, ◌-◌, ◌/◌, ◌%◌, List, [], ◌∷◌, Bool, ◌&&◌, if◌then◌else◌, ltb, leb, ◌==◌,
  comparable_nat, length, Option, none, some,
}

-- The code points of 0-9, a-f and the question mark.
unfoldable pub rune : ℕ → ℕ
rune n = if ltb n 10 then 48 + n else if ltb n 16 then 97 + n - 10 else 63

unfoldable pub parse_nibbles : List ℕ → List ℕ
parse_nibbles [] = []
parse_nibbles (b ∷ bs) = b / 16 ∷ b % 16 ∷ parse_nibbles bs

-- The path of an address or a key, hashed first where the configuration of the node source says so.
unfoldable pub to_nibble_path : Option (List ℕ → List ℕ) → List ℕ → List ℕ
unfolding parse_nibbles
to_nibble_path none path = parse_nibbles path
to_nibble_path (some hash) path = parse_nibbles (hash path)

-- The loop over the shorter path; the last clause is not reached from it.
unfoldable pub common_prefix : List ℕ → List ℕ → ℕ
common_prefix [] bs = 0
common_prefix (a ∷ as') (b ∷ bs) = let rest = common_prefix as' bs in if a == b then suc rest else 0
common_prefix (a ∷ as') [] = 0

unfoldable pub get_common_prefix_length : List ℕ → List ℕ → ℕ
unfolding common_prefix
get_common_prefix_length a b =
    if ltb (length b) (length a) then common_prefix b a else common_prefix a b

unfoldable pub is_prefix_of : List ℕ → List ℕ → Bool
unfolding get_common_prefix_length
is_prefix_of a b = leb (length a) (length b) && get_common_prefix_length a b == length a
