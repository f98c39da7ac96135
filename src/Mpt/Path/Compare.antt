-- ===== src/Mpt/Path/Compare.antt =====
-- Comparing and shortening the packed paths of database/mpt/path.go.
use Prim.Native.Nat.{bit_or}
use carmen.Prelude.{
  ◌↔◌, ◌++◌, ℕ, zero, suc, ◌+◌, ◌/◌, ◌%◌, ◌<◌, ◌≤◌, ◌≡◌, refl, List, [], ◌∷◌, true, false, some,
  if◌then◌else◌, ltb, ◌==◌, comparable_nat, length, arith, sym, ◌∙◌, ap, Bool-cases, inl, inr,
}
use carmen.Mpt.Nibble.{common_prefix}
use carmen.Mpt.Nibble.Prefix.{get_common_prefix_length_eq, is_prefix_of_lem}
use carmen.Mpt.Path.{
  NibblePath, append, common_from, get, get_common_prefix_length, half, is_prefix_of, nibbles,
  nibbles_from, or_half, remove_last,
}
use carmen.Mpt.Path.Packing.{length-nibbles}
use carmen.Mpt.Nibble

common_from_eq :
    (p : NibblePath) (pos count : ℕ) (list : List ℕ)
    → common_from p pos (if ltb (length list) count then length list else count) list
      ≡ pos + common_prefix (nibbles_from p pos count) list
unfolding common_from nibbles_from common_prefix
common_from_eq p pos zero [] = omega arith
common_from_eq p pos zero (y ∷ list) = ground arith
common_from_eq p pos (suc count) [] = ground arith
common_from_eq p pos (suc count) (y ∷ list) =
    let later = common_from_eq p (suc pos) count list in
    elim (Bool-cases (ltb (length list) count)) [
      | inl t ↦
          let outer : ltb (suc (length list)) (suc count) ≡ true = ground arith in
          rw outer (ground (arith, (rw t at later)))
      | inr f ↦
          let outer : ltb (suc (length list)) (suc count) ≡ false = ground arith in
          rw outer (ground (arith, (rw f at later)))
    ]

get_common_prefix_length_eq_nibbles :
    (p : NibblePath) (list : List ℕ)
    → get_common_prefix_length p list ≡ common_prefix (nibbles p) list
unfolding get_common_prefix_length nibbles
get_common_prefix_length_eq_nibbles p list = common_from_eq p 0 p.path_length list ∙ omega arith

common_prefix-le : (a b : List ℕ) → common_prefix a b ≤ length b
unfolding common_prefix
common_prefix-le [] b = omega arith
common_prefix-le (x ∷ a) [] = omega arith
common_prefix-le (x ∷ a) (y ∷ b) = ground (arith, common_prefix-le a b)

is_prefix_of-nibbles :
    (p : NibblePath) (list : List ℕ) → is_prefix_of p list ≡ Nibble.is_prefix_of (nibbles p) list
unfolding is_prefix_of Nibble.is_prefix_of
is_prefix_of-nibbles p list =
    rw
      (
        get_common_prefix_length_eq_nibbles p list,
        get_common_prefix_length_eq (nibbles p) list,
        sym (length-nibbles p),
      )
      (ground (arith, common_prefix-le (nibbles p) list, length-nibbles p))

-- GetCommonPrefixLength of a packed path is that of its list of nibbles, and IsPrefixOf says yes
-- exactly when the given list is the nibbles of the path followed by some rest, that is when the
-- path is a prefix of the list.
pub get_common_prefix_length-nibbles :
    (p : NibblePath) (list : List ℕ)
    → (get_common_prefix_length p list ≡ Nibble.get_common_prefix_length (nibbles p) list)
      × ((is_prefix_of p list ≡ true) ↔ ((rest : List ℕ) × (nibbles p ++ rest ≡ list)))
get_common_prefix_length-nibbles p list =
    let same = is_prefix_of-nibbles p list in
    let decides = is_prefix_of_lem (nibbles p) list in
    (
      get_common_prefix_length_eq_nibbles p list
          ∙ sym (get_common_prefix_length_eq (nibbles p) list),
      (λ h. decides.0 (sym same ∙ h), λ g. same ∙ decides.1 g),
    )

append-over :
    (bytes : ℕ → ℕ) (last n : ℕ)
    → last % 2 ≡ 0
    → last < 64
    → n < 16
    → (q : NibblePath) × (append (record { path = bytes; path_length = last }) n ≡ some q)
      × (get q last ≡ bit_or (bytes (last / 2) / 16) n)
unfolding append get half or_half
append-over bytes last n even h small =
    let guard : ltb (last / 2) 32 ≡ true = ground arith in
    let inside : ltb last ((last + 1) % 256) ≡ true = ground arith in
    let first : (last % 2 == 0) ≡ true = ground arith in
    let own : (last / 2 == last / 2) ≡ true = ground arith in
    let small_n : n % 16 ≡ n = omega arith in
    rw guard (_, refl, rw (inside, own, first, small_n) (omega arith))

get-even :
    (p : NibblePath) (last : ℕ)
    → p.path_length ≡ suc last
    → last % 2 ≡ 0
    → get p last ≡ p.path (last / 2) / 16
unfolding get half
get-even p last e even = ground arith

remove_last-one :
    (p : NibblePath) (last : ℕ)
    → p.path_length ≡ suc last
    → remove_last p 1 ≡ (record { path = p.path; path_length = last })
unfolding remove_last
remove_last-one p last e =
    let guard : ltb p.path_length 1 ≡ false = ground arith in
    rw guard (ap (λ (k : ℕ). record { path = p.path; path_length = k }) (omega arith))

-- After RemoveLast of one nibble from a path of odd length, Append of a nibble below 16 stores the
-- bitwise or of it and the removed one.
pub append-remove_last :
    (p : NibblePath) (n last : ℕ)
    → p.path_length ≡ suc last
    → last % 2 ≡ 0
    → last < 64
    → n < 16
    → (q : NibblePath) × (append (remove_last p 1) n ≡ some q)
      × (get q last ≡ bit_or (get p last) n)
append-remove_last p n last e even h small =
    let (q, made, seen) = append-over p.path last n even h small in
    (q, rw (remove_last-one p last e) made, rw (get-even p last e even) seen)
