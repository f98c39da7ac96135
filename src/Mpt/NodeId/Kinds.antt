-- ===== src/Mpt/NodeId/Kinds.antt =====
-- The laws of database/mpt/node_id.go.
use carmen.Prelude.{ℕ, ◌+◌, ◌%◌, ◌<◌, ◌≡◌, Bool, comparable_nat, if◌then◌else◌, arith}
use carmen.Mpt.NodeId.{
  branch_id, extension_id, account_id, value_id, is_empty, is_branch, is_extension, is_account,
  is_value, index, store, load,
}

-- The kind of a node that an identifier names.
pub data Kind : Type 0 where
  empty_node branch extension account value : Kind

abbrev pub kind : ℕ → Kind
kind n =
    if is_empty n
    then empty_node
    else if is_branch n
    then branch
    else if is_extension n
    then extension
    else if is_account n
    then account
    else value

-- The identifier of a branch node is of that kind and gives its index back, for an index below
-- 2^63 - 1.
pub branch_id_lem :
    (i : ℕ)
    → i + 1 < 9223372036854775808
    → (kind (branch_id i) ≡ branch) × (index (branch_id i) ≡ i)
unfolding branch_id is_empty is_branch index
branch_id_lem i h = (ground arith, ground arith)

-- The identifier of a value node is of that kind and gives its index back, for an index below
-- 2^62.
pub value_id_lem :
    (i : ℕ) → i < 4611686018427387904 → (kind (value_id i) ≡ value) × (index (value_id i) ≡ i)
unfolding value_id is_empty is_branch is_extension is_account is_value index
value_id_lem i h = (ground arith, ground arith)

-- The identifier of a account node is of that kind and gives its index back, for an index below
-- 2^61.
pub account_id_lem :
    (i : ℕ) → i < 2305843009213693952 → (kind (account_id i) ≡ account) × (index (account_id i) ≡ i)
unfolding account_id is_empty is_branch is_extension is_account is_value index
account_id_lem i h = (ground arith, ground arith)

-- The identifier of a extension node is of that kind and gives its index back, for an index below
-- 2^61.
pub extension_id_lem :
    (i : ℕ)
    → i < 2305843009213693952
    → (kind (extension_id i) ≡ extension) × (index (extension_id i) ≡ i)
unfolding extension_id is_empty is_branch is_extension is_account is_value index
extension_id_lem i h = (ground arith, ground arith)

abbrev pub count : Bool → ℕ
count b = if b then 1 else 0

-- Each node identifier is of exactly one kind.
pub kinds_lem :
    (n : ℕ)
    → count (is_empty n)
        + count (is_branch n)
        + count (is_extension n)
        + count (is_account n)
        + count (is_value n)
      ≡ 1
unfolding is_empty is_branch is_extension is_account is_value
kinds_lem n = ground arith

-- A stored node identifier is loaded again, cut to its 48 low bits.
pub load-store : (n : ℕ) → load 0 (store n) ≡ n % 281474976710656
unfolding load store
load-store n = omega arith
