-- ===== src/Update/Sort.antt =====
-- go/common/update.go: the order of the changes of a block, Normalize and Check. The sort of Go's
-- library is an insertion sort here; entries that are equal in the order stay in their order.
pub mod Order
pub mod Tests
use carmen.Prelude.{
  ℕ, zero, suc, length, ◌+◌, List, [], ◌∷◌, Bool, true, false, ◌&&◌, ◌||◌, not, if◌then◌else◌, ltb,
  ◌==◌, comparable_nat, Option, none, some,
}
use carmen.Update.{Update, BalanceUpdate, NonceUpdate, CodeUpdate, SlotUpdate}

module _ {ℓ} {A : Type ℓ} where
  unfoldable pub insert_sorted : (A → A → Bool) → A → List A → List A
  insert_sorted less x [] = x ∷ []
  insert_sorted less x (y ∷ ys) =
      let rest = insert_sorted less x ys in if less y x then y ∷ rest else x ∷ y ∷ ys

  unfoldable pub sort : (A → A → Bool) → List A → List A
  unfolding insert_sorted
  sort less [] = []
  sort less (x ∷ xs) = insert_sorted less x (sort less xs)

  -- The loop of sortUnique: the last entry that was kept, and the entries to come.
  unfoldable pub keep_distinct : (A → A → Bool) → A → List A → List A
  keep_distinct equal x [] = x ∷ []
  keep_distinct equal x (y ∷ ys) = elim (equal x y) [
    | true ↦ keep_distinct equal x ys
    | false ↦ x ∷ keep_distinct equal y ys
  ]

  unfoldable pub unique : (A → A → Bool) → List A → List A
  unfolding keep_distinct
  unique equal [] = []
  unique equal (x ∷ xs) = keep_distinct equal x xs

  unfoldable pub sort_unique : (A → A → Bool) → (A → A → Bool) → List A → List A
  unfolding sort unique
  sort_unique less equal l = unique equal (sort less l)

  unfoldable pub is_sorted_and_unique : (A → A → Bool) → List A → Bool
  is_sorted_and_unique less [] = true
  is_sorted_and_unique less (x ∷ []) = true
  is_sorted_and_unique less (x ∷ y ∷ ys) = less x y && is_sorted_and_unique less (y ∷ ys)

-- Two codes are compared as bytes.
unfoldable pub bytes_equal : List ℕ → List ℕ → Bool
bytes_equal [] [] = true
bytes_equal (x ∷ xs) (y ∷ ys) = x == y && bytes_equal xs ys
bytes_equal _ _ = false

unfoldable pub account_less : ℕ → ℕ → Bool
account_less a b = ltb a b

unfoldable pub account_equal : ℕ → ℕ → Bool
account_equal a b = a == b

unfoldable pub balance_less : BalanceUpdate → BalanceUpdate → Bool
unfolding account_less
balance_less a b = account_less a.account b.account

unfoldable pub balance_equal : BalanceUpdate → BalanceUpdate → Bool
balance_equal a b = a.account == b.account && a.balance == b.balance

unfoldable pub nonce_less : NonceUpdate → NonceUpdate → Bool
unfolding account_less
nonce_less a b = account_less a.account b.account

unfoldable pub nonce_equal : NonceUpdate → NonceUpdate → Bool
nonce_equal a b = a.account == b.account && a.nonce == b.nonce

unfoldable pub code_less : CodeUpdate → CodeUpdate → Bool
unfolding account_less
code_less a b = account_less a.account b.account

unfoldable pub code_equal : CodeUpdate → CodeUpdate → Bool
unfolding bytes_equal
code_equal a b = a.account == b.account && bytes_equal a.code b.code

unfoldable pub slot_less : SlotUpdate → SlotUpdate → Bool
slot_less a b = ltb a.account b.account || (a.account == b.account && ltb a.key b.key)

unfoldable pub slot_equal : SlotUpdate → SlotUpdate → Bool
slot_equal a b = a.account == b.account && (a.key == b.key && a.value == b.value)

-- The lists are sorted in any case; the result tells whether an error is returned.
unfoldable pub normalize : Update → Bool × Update
unfolding sort_unique is_sorted_and_unique
normalize u =
    let v : Update = record {
      deleted_accounts = sort_unique account_less account_equal u.deleted_accounts;
      created_accounts = sort_unique account_less account_equal u.created_accounts;
      balances = sort_unique balance_less balance_equal u.balances;
      nonces = sort_unique nonce_less nonce_equal u.nonces;
      codes = sort_unique code_less code_equal u.codes;
      slots = sort_unique slot_less slot_equal u.slots;
    } in
    (
      is_sorted_and_unique balance_less v.balances
          && (is_sorted_and_unique code_less v.codes
              && (is_sorted_and_unique nonce_less v.nonces
                  && is_sorted_and_unique slot_less v.slots)),
      v,
    )

-- The merge of Check over the created and the deleted accounts, on fuel: each round takes an
-- account off one of the lists, so the sum of their lengths is enough.
unfoldable pub are_disjoint : ℕ → List ℕ → List ℕ → Bool
are_disjoint zero created deleted = true
are_disjoint (suc n) [] deleted = true
are_disjoint (suc n) (c ∷ cs) [] = true
are_disjoint (suc n) (c ∷ cs) (d ∷ ds) = elim (c == d) [
  | true ↦ false
  | false ↦ elim (ltb c d) [
    | true ↦ are_disjoint n cs (d ∷ ds)
    | false ↦ are_disjoint n (c ∷ cs) ds
  ]
]

unfoldable pub check : Update → Bool
unfolding is_sorted_and_unique are_disjoint
check u =
    is_sorted_and_unique account_less u.created_accounts
    && (is_sorted_and_unique account_less u.deleted_accounts
        && (is_sorted_and_unique balance_less u.balances
            && (is_sorted_and_unique nonce_less u.nonces
                && (is_sorted_and_unique code_less u.codes
                    && (is_sorted_and_unique slot_less u.slots
                        && are_disjoint (length u.created_accounts + length u.deleted_accounts)
                            u.created_accounts u.deleted_accounts)))))
