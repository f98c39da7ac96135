-- ===== src/Mpt/NodeId.antt =====
-- database/mpt/node_id.go: the 64-bit node identifiers and their encoding in six bytes.
pub mod Kinds
pub mod Tests
use carmen.Prelude.{
  ℕ, ◌+◌, ◌-◌, ◌*◌, ◌/◌, ◌%◌, ◌^◌, Bool, true, false, not, ◌&&◌, ◌==◌, comparable_nat,
  if◌then◌else◌, List, [], ◌∷◌,
}

-- uint64 arithmetic wraps around.
abbrev pub wrap : ℕ → ℕ
wrap n = n % 18446744073709551616

abbrev pub empty_id : ℕ
empty_id = 0

unfoldable pub branch_id : ℕ → ℕ
branch_id index = wrap (wrap (index + 1) * 2)

-- The low bits of a shifted index are 0, so the or is a sum.
unfoldable pub extension_id : ℕ → ℕ
extension_id index = wrap (index * 8) + 7

unfoldable pub account_id : ℕ → ℕ
account_id index = wrap (index * 8) + 3

unfoldable pub value_id : ℕ → ℕ
value_id index = wrap (index * 4) + 1

unfoldable pub is_empty : ℕ → Bool
is_empty n = n == 0

unfoldable pub is_branch : ℕ → Bool
unfolding is_empty
is_branch n = not (is_empty n) && n % 2 == 0

unfoldable pub is_extension : ℕ → Bool
is_extension n = n % 8 == 7

unfoldable pub is_account : ℕ → Bool
is_account n = n % 8 == 3

unfoldable pub is_value : ℕ → Bool
is_value n = n % 4 == 1

unfoldable pub index : ℕ → ℕ
index n = if is_branch n then n / 2 - 1 else if is_value n then n / 4 else n / 8

-- NodeIdEncoder: the six low bytes, the most significant one first.
unfoldable pub store : ℕ → List ℕ
store n =
    n / 1099511627776 % 256
    ∷ n / 4294967296 % 256
    ∷ n / 16777216 % 256
    ∷ n / 65536 % 256
    ∷ n / 256 % 256
    ∷ n % 256
    ∷ []

-- Of six bytes; other lengths do not occur, as GetEncodedSize is 6.
unfoldable pub load : ℕ → List ℕ → ℕ
load acc [] = acc
load acc (b ∷ bs) = load (acc * 256 + b) bs
