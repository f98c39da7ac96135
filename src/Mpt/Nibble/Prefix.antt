-- ===== src/Mpt/Nibble/Prefix.antt =====
-- Common prefixes of the paths of database/mpt/nibble.go.
use carmen.Prelude.{
  ℕ, ◌≡◌, refl, List, [], ◌∷◌, ◌++◌, Bool, true, false, ◌||◌, not, subst, length-append, ◌==◌,
  comparable_nat, length, take, drop, arith, ◌↔◌, ◌≢◌, ◌≤◌, Bool-cases, inl, inr, nat_beq_iff, ap,
  ap₂, sym, Option, none, some,
}
use carmen.Mpt.Nibble.{common_prefix, get_common_prefix_length, is_prefix_of}

abbrev pub head : List ℕ → Option ℕ
head [] = none
head (x ∷ xs) = some x

-- Two paths that both go on, differently.
abbrev pub is_fork : List ℕ → List ℕ → Bool
is_fork (x ∷ xs) (y ∷ ys) = not (x == y)
is_fork _ _ = false

abbrev pub ends : List ℕ → List ℕ → Bool
ends [] ys = true
ends (x ∷ xs) [] = true
ends (x ∷ xs) (y ∷ ys) = false

common_prefix-sym : (a b : List ℕ) → common_prefix a b ≡ common_prefix b a
unfolding common_prefix
common_prefix-sym [] [] = refl
common_prefix-sym [] (y ∷ b) = refl
common_prefix-sym (x ∷ a) [] = refl
common_prefix-sym (x ∷ a) (y ∷ b) = ground (arith, common_prefix-sym a b)

pub get_common_prefix_length_eq : (a b : List ℕ) → get_common_prefix_length a b ≡ common_prefix a b
unfolding get_common_prefix_length
get_common_prefix_length_eq a b = ground (arith, common_prefix-sym a b)

common_prefix-take : (a b : List ℕ) → take (common_prefix a b) a ≡ take (common_prefix a b) b
unfolding common_prefix
common_prefix-take [] b = refl
common_prefix-take (x ∷ a) [] = refl
common_prefix-take (x ∷ a) (y ∷ b) = ground (arith, common_prefix-take a b)

common_prefix-maximal :
    (a b : List ℕ)
    → (is_fork (drop (common_prefix a b) a) (drop (common_prefix a b) b)
        || ends (drop (common_prefix a b) a) (drop (common_prefix a b) b))
      ≡ true
unfolding common_prefix
common_prefix-maximal [] b = refl
common_prefix-maximal (x ∷ a) [] = refl
common_prefix-maximal (x ∷ a) (y ∷ b) = ground (arith, common_prefix-maximal a b)

-- Two paths agree up to GetCommonPrefixLength, after which one of them ends or they differ.
pub get_common_prefix_length_lem :
    (a b : List ℕ)
    → (take (get_common_prefix_length a b) a ≡ take (get_common_prefix_length a b) b)
      × ((is_fork (drop (get_common_prefix_length a b) a) (drop (get_common_prefix_length a b) b)
            || ends (drop (get_common_prefix_length a b) a) (drop (get_common_prefix_length a b) b))
          ≡ true)
get_common_prefix_length_lem a b =
    rw (get_common_prefix_length_eq a b) (common_prefix-take a b, common_prefix-maximal a b)

common_prefix-append : (a rest : List ℕ) → common_prefix a (a ++ rest) ≡ length a
unfolding common_prefix
common_prefix-append [] rest = refl
common_prefix-append (x ∷ a) rest = ground (arith, common_prefix-append a rest)

append-drop : (a b : List ℕ) → common_prefix a b ≡ length a → a ++ drop (length a) b ≡ b
unfolding common_prefix
append-drop [] b h = refl
append-drop (x ∷ a) [] h = absurd (omega arith)
append-drop (x ∷ a) (y ∷ b) h = ground (arith, append-drop a b)

prefix-length : (a b : List ℕ) → is_prefix_of a b ≡ true → common_prefix a b ≡ length a
unfolding is_prefix_of
prefix-length a b h = ground (arith, get_common_prefix_length_eq a b)

pub append-drop_prefix : (a b : List ℕ) → is_prefix_of a b ≡ true → a ++ drop (length a) b ≡ b
append-drop_prefix a b h = append-drop a b (prefix-length a b h)

prefix-is_prefix_of : (a rest : List ℕ) → is_prefix_of a (a ++ rest) ≡ true
unfolding is_prefix_of
prefix-is_prefix_of a rest = ground (
  arith,
  get_common_prefix_length_eq a (a ++ rest),
  common_prefix-append a rest,
  length-append a rest,
)

-- IsPrefixOf says yes exactly when the second path is the first one followed by some rest.
pub is_prefix_of_lem :
    (a b : List ℕ) → (is_prefix_of a b ≡ true) ↔ ((rest : List ℕ) × (a ++ rest ≡ b))
is_prefix_of_lem a b = (
  λ h. (drop (length a) b, append-drop a b (prefix-length a b h)),
  λ (rest, e). subst (λ c. is_prefix_of a c ≡ true) e (prefix-is_prefix_of a rest),
)

-- Two paths that part: what is before and after.
abbrev pub IsFork : List ℕ → List ℕ → ℕ → Type 0
IsFork own path common =
    (x : ℕ) × (y : ℕ) × (own_rest : List ℕ) × (rest : List ℕ) × (drop common own ≡ x ∷ own_rest)
    × (drop common path ≡ y ∷ rest)
    × (x ≢ y)
    × (own ≡ take common path ++ x ∷ own_rest)
    × (path ≡ take common path ++ y ∷ rest)

common_prefix-IsFork :
    (own path : List ℕ)
    → common_prefix own path ≢ length own
    → length own ≤ length path
    → IsFork own path (common_prefix own path)
unfolding common_prefix
common_prefix-IsFork [] path h l = absurd (h refl)
common_prefix-IsFork (a ∷ own) [] h l = absurd (omega arith)
common_prefix-IsFork (a ∷ own) (b ∷ path) h l = elim (Bool-cases (a == b)) [
  | inl t ↦
      let same = (nat_beq_iff a b).0 t in
      let (x, y, own_rest, rest, p, q, d, e, f) =
        common_prefix-IsFork own path (ground arith) (omega arith) in
      rw t (x, y, own_rest, rest, p, q, d, ap₂ (λ z zs. z ∷ zs) same e, ap (λ zs. b ∷ zs) f)
  | inr g ↦ rw g (a, b, own, path, refl, refl, λ e. absurd (ground arith), refl, refl)
]

-- Where IsPrefixOf says no and the path is long enough, the paths part at the common prefix.
pub is_prefix_of-IsFork :
    (own path : List ℕ)
    → is_prefix_of own path ≡ false
    → length own ≤ length path
    → IsFork own path (get_common_prefix_length own path)
unfolding is_prefix_of
is_prefix_of-IsFork own path f l =
    subst (IsFork own path) (sym (get_common_prefix_length_eq own path))
      (common_prefix-IsFork own path (ground (arith, get_common_prefix_length_eq own path)) l)
