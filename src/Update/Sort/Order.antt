-- ===== src/Update/Sort/Order.antt =====
-- What the sort of go/common/update.go does to a list of accounts.
use carmen.Prelude.{
  ℕ, ◌≡◌, refl, sym, ap, subst, ◌∙◌, List, [], ◌∷◌, Bool, true, false, ◌&&◌, ◌||◌, ltb, leb, ◌==◌,
  comparable_nat, arith, Bool-cases, inl, inr,
}
use carmen.Update.Sort.{
  insert_sorted, sort, keep_distinct, unique, sort_unique, is_sorted_and_unique, account_less,
  account_equal,
}

abbrev pub has : ℕ → List ℕ → Bool
has x [] = false
has x (y ∷ ys) = y == x || has x ys

-- Each account is at least the one before it.
abbrev is_sorted : List ℕ → Bool
is_sorted [] = true
is_sorted (x ∷ []) = true
is_sorted (x ∷ y ∷ ys) = leb x y && is_sorted (y ∷ ys)

has-insert_sorted :
    (x a : ℕ) (l : List ℕ) → has a (insert_sorted account_less x l) ≡ (x == a || has a l)
unfolding insert_sorted account_less
has-insert_sorted x a [] = refl
has-insert_sorted x a (y ∷ l) = ground (arith, has-insert_sorted x a l)

has-sort : (a : ℕ) (l : List ℕ) → has a (sort account_less l) ≡ has a l
unfolding sort
has-sort a [] = refl
has-sort a (x ∷ l) =
    has-insert_sorted x a (sort account_less l) ∙ ap (λ b. x == a || b) (has-sort a l)

has-keep_distinct :
    (x a : ℕ) (l : List ℕ) → has a (keep_distinct account_equal x l) ≡ (x == a || has a l)
unfolding keep_distinct account_equal
has-keep_distinct x a [] = refl
has-keep_distinct x a (y ∷ l) = ground (arith, has-keep_distinct x a l, has-keep_distinct y a l)

insert_sorted-sorted :
    (x : ℕ) (l : List ℕ) → is_sorted l ≡ true → is_sorted (insert_sorted account_less x l) ≡ true
unfolding insert_sorted account_less
insert_sorted-sorted x [] h = refl
insert_sorted-sorted x (y ∷ []) h = ground arith
insert_sorted-sorted x (y ∷ z ∷ l) h = ground (arith, insert_sorted-sorted x (z ∷ l))

sort-sorted : (l : List ℕ) → is_sorted (sort account_less l) ≡ true
unfolding sort
sort-sorted [] = refl
sort-sorted (x ∷ l) = insert_sorted-sorted x (sort account_less l) (sort-sorted l)

keep_same :
    (x y : ℕ) (l : List ℕ)
    → (x == y) ≡ true
    → keep_distinct account_equal x (y ∷ l) ≡ keep_distinct account_equal x l
unfolding keep_distinct account_equal
keep_same x y l h = ground arith

keep_other :
    (x y : ℕ) (l : List ℕ)
    → (x == y) ≡ false
    → keep_distinct account_equal x (y ∷ l) ≡ x ∷ keep_distinct account_equal y l
unfolding keep_distinct account_equal
keep_other x y l h = ground arith

keep_distinct-head :
    (x : ℕ) (l : List ℕ) → (rest : List ℕ) × (keep_distinct account_equal x l ≡ x ∷ rest)
unfolding keep_distinct
keep_distinct-head x [] = ([], refl)
keep_distinct-head x (y ∷ l) = elim (Bool-cases (x == y)) [
  | inl same ↦ let (rest, e) = keep_distinct-head x l in (rest, keep_same x y l same ∙ e)
  | inr other ↦ (keep_distinct account_equal y l, keep_other x y l other)
]

smaller :
    (x y : ℕ) (l : List ℕ)
    → ltb x y ≡ true
    → is_sorted_and_unique account_less (y ∷ l) ≡ true
    → is_sorted_and_unique account_less (x ∷ y ∷ l) ≡ true
unfolding is_sorted_and_unique account_less
smaller x y l h k = rw (h, k) refl

one : (x : ℕ) → is_sorted_and_unique account_less (keep_distinct account_equal x []) ≡ true
unfolding keep_distinct is_sorted_and_unique
one x = refl

keep_distinct-sorted :
    (x : ℕ) (l : List ℕ)
    → is_sorted (x ∷ l) ≡ true
    → is_sorted_and_unique account_less (keep_distinct account_equal x l) ≡ true
unfolding account_less
keep_distinct-sorted x [] h = one x
keep_distinct-sorted x (y ∷ l) h =
    let tail : is_sorted (y ∷ l) ≡ true = ground arith in
    let (rest, starts) = keep_distinct-head y l in
    elim (Bool-cases (x == y)) [
      | inl same ↦ rw (keep_same x y l same) (
          keep_distinct-sorted x l (
            subst (λ z. is_sorted (z ∷ l) ≡ true) (sym ((comparable_nat.equal_iff x y).0 same))
              tail))
      | inr other ↦
          rw (keep_other x y l other, starts)
            (smaller x y rest (ground arith) (
              subst (λ k. is_sorted_and_unique account_less k ≡ true) starts
                (keep_distinct-sorted y l tail)))
    ]

unique-lem :
    (l : List ℕ)
    → is_sorted l ≡ true
    → is_sorted_and_unique account_less (unique account_equal l) ≡ true
unfolding unique is_sorted_and_unique
unique-lem [] h = refl
unique-lem (x ∷ l) h = keep_distinct-sorted x l h

has-unique : (a : ℕ) (l : List ℕ) → has a (unique account_equal l) ≡ has a l
unfolding unique
has-unique a [] = refl
has-unique a (x ∷ l) = has-keep_distinct x a l

-- The sort of a list of accounts is strictly increasing and has the same accounts.
pub sort_unique_lem :
    (l : List ℕ)
    → (is_sorted_and_unique account_less (sort_unique account_less account_equal l) ≡ true)
      × ((a : ℕ) → has a (sort_unique account_less account_equal l) ≡ has a l)
unfolding sort_unique
sort_unique_lem l = (
  unique-lem (sort account_less l) (sort-sorted l),
  λ a. has-unique a (sort account_less l) ∙ has-sort a l,
)
