-- ===== src/Mpt/Path/Packing.antt =====
-- The packed paths of database/mpt/path.go as lists of nibbles.
use Prim.Native.Nat.{bit_or, bit_or-bitwise}
use carmen.Prelude.{
  ℕ, zero, suc, ◌+◌, ◌/◌, ◌%◌, ◌<◌, ◌≤◌, ◌≡◌, refl, List, [], ◌∷◌, ◌++◌, true, false, some,
  if◌then◌else◌, ltb, ◌==◌, comparable_nat, nat_beq_iff, length, arith, sym, ◌∙◌, ap, ap₂,
  append-nil, append_assoc, Bool-cases, inl, inr,
}
use carmen.Mpt.Path.{
  NibblePath, append, append_all, append_each, create_path_from_nibbles, get, half, nibbles,
  nibbles_from, no_path, or_half, put_byte,
}

-- The nibble at a position, also behind the end.
abbrev pub half_at : NibblePath → ℕ → ℕ
half_at p pos = half (p.path (pos / 2)) pos

-- At most 64 nibbles, and zeros behind them.
abbrev pub IsPadded : NibblePath → Type 0
IsPadded p = (p.path_length ≤ 64) × ((pos : ℕ) → p.path_length ≤ pos → half_at p pos ≡ 0)

zero-bit_or : (n : ℕ) → bit_or 0 n ≡ n
zero-bit_or n = bit_or-bitwise 0 n

length-nibbles_from : (p : NibblePath) (pos count : ℕ) → length (nibbles_from p pos count) ≡ count
unfolding nibbles_from
length-nibbles_from p pos zero = refl
length-nibbles_from p pos (suc count) = omega (arith, length-nibbles_from p (suc pos) count)

pub length-nibbles : (p : NibblePath) → length (nibbles p) ≡ p.path_length
unfolding nibbles
length-nibbles p = length-nibbles_from p 0 p.path_length

or_zero : (t n : ℕ) → t ≡ 0 → bit_or t (n % 16) ≡ n % 16
or_zero t n z = ap (λ (x : ℕ). bit_or x (n % 16)) z ∙ zero-bit_or (n % 16)

-- The or leaves the other half of the byte, and the bytes of a nibble's halves stay below 16.
or_half-same : (twin pos n : ℕ) → n < 16 → half twin pos ≡ 0 → half (or_half twin pos n) pos ≡ n
unfolding half or_half
or_half-same twin pos n h z = elim (Bool-cases (pos % 2 == 0)) [
  | inl t ↦ rw t (let even = or_zero (twin / 16) n (rw t at z) in omega arith)
  | inr f ↦ rw f (let odd = or_zero (twin % 16) n (rw f at z) in omega arith)
]

or_half-other :
    (twin pos other n : ℕ)
    → n < 16
    → half twin pos ≡ 0
    → pos / 2 ≡ other / 2
    → (other == pos) ≡ false
    → half (or_half twin pos n) other ≡ half twin other
unfolding half or_half
or_half-other twin pos other n h z e d = elim (Bool-cases (pos % 2 == 0)) [
  | inl t ↦ ground (arith, or_zero (twin / 16) n)
  | inr f ↦ ground (arith, or_zero (twin % 16) n)
]

distinct-halves : (i j : ℕ) → (i / 2 == j / 2) ≡ false → (i == j) ≡ false
distinct-halves i j d = elim (Bool-cases (i == j)) [
  | inl t ↦
      let same = (nat_beq_iff i j).0 t in
      let again = (nat_beq_iff (i / 2) (j / 2)).1 (ap (λ (x : ℕ). x / 2) same) in cc
  | inr f ↦ f
]

put_byte-half :
    (bytes : ℕ → ℕ) (len n pos : ℕ)
    → n < 16
    → half (bytes (len / 2)) len ≡ 0
    → half (put_byte bytes (len / 2) (or_half (bytes (len / 2)) len n) (pos / 2)) pos
      ≡ (if pos == len then n else half (bytes (pos / 2)) pos)
put_byte-half bytes len n pos h z = elim (Bool-cases (pos / 2 == len / 2)) [
  | inl t ↦
      let byte = (nat_beq_iff (pos / 2) (len / 2)).0 t in
      elim (Bool-cases (pos == len)) [
        | inl same ↦
            rw (t, same)
              (ap (half (or_half (bytes (len / 2)) len n)) ((nat_beq_iff pos len).0 same)
                ∙ or_half-same (bytes (len / 2)) len n h z)
        | inr d ↦
            rw (t, d)
              (or_half-other (bytes (len / 2)) len pos n h z (sym byte) d
                ∙ ap (λ x. half (bytes x) pos) (sym byte))
      ]
  | inr f ↦ rw (f, distinct-halves pos len f) refl
]

-- What Append does to the nibbles of a padded path.
pub append_lem :
    (p : NibblePath) (n : ℕ)
    → IsPadded p
    → p.path_length < 64
    → n < 16
    → (q : NibblePath) × (append p n ≡ some q)
      × IsPadded q
      × (q.path_length ≡ suc p.path_length)
      × ((pos : ℕ) → half_at q pos ≡ (if pos == p.path_length then n else half_at p pos))
unfolding append
append_lem p n (bound, padding) h small =
    let guard : ltb (p.path_length / 2) 32 ≡ true = ground arith in
    let seen = λ (pos : ℕ).
      put_byte-half p.path p.path_length n pos small (padding p.path_length (omega arith)) in
    rw guard
      (_, refl, (omega arith, λ pos l. seen pos ∙ ground (arith, padding pos)), omega arith, seen)

-- The nibbles of a path, read behind its end as well.
abbrev halves_from : NibblePath → ℕ → ℕ → List ℕ
halves_from p pos zero = []
halves_from p pos (suc count) = half_at p pos ∷ halves_from p (suc pos) count

nibbles_from-halves :
    (p : NibblePath) (pos count : ℕ)
    → pos + count ≤ p.path_length
    → nibbles_from p pos count ≡ halves_from p pos count
unfolding nibbles_from get
nibbles_from-halves p pos zero h = refl
nibbles_from-halves p pos (suc count) h =
    let inside : ltb pos p.path_length ≡ true = ground arith in
    rw inside
      (ap (λ more. half_at p pos ∷ more) (nibbles_from-halves p (suc pos) count (omega arith)))

nibbles-halves : (p : NibblePath) → nibbles p ≡ halves_from p 0 p.path_length
unfolding nibbles
nibbles-halves p = nibbles_from-halves p 0 p.path_length (omega arith)

halves_from-append :
    (p q : NibblePath) (n pos count : ℕ)
    → pos + count ≡ p.path_length
    → ((i : ℕ) → half_at q i ≡ (if i == p.path_length then n else half_at p i))
    → halves_from q pos (suc count) ≡ halves_from p pos count ++ n ∷ []
halves_from-append p q n pos zero e seen =
    let last : (pos == p.path_length) ≡ true = ground arith in
    ap (λ x. x ∷ []) (seen pos ∙ rw last refl)
halves_from-append p q n pos (suc count) e seen =
    let inside : (pos == p.path_length) ≡ false = ground arith in
    ap₂ (λ x xs. x ∷ xs) (seen pos ∙ rw inside refl)
      (halves_from-append p q n (suc pos) count (omega arith) seen)

nibbles-append :
    (p q : NibblePath) (n : ℕ)
    → q.path_length ≡ suc p.path_length
    → ((i : ℕ) → half_at q i ≡ (if i == p.path_length then n else half_at p i))
    → nibbles q ≡ nibbles p ++ n ∷ []
nibbles-append p q n e seen =
    nibbles-halves q
    ∙ ap (λ (count : ℕ). halves_from q 0 count) e
    ∙ halves_from-append p q n 0 p.path_length (omega arith) seen
    ∙ ap (λ xs. xs ++ n ∷ []) (sym (nibbles-halves p))

abbrev pub AreSmall : List ℕ → Type 0
AreSmall [] = Unit
AreSmall (x ∷ xs) = (x < 16) × AreSmall xs

append_each_lem :
    (path : List ℕ) (p : NibblePath)
    → IsPadded p
    → p.path_length + length path ≤ 64
    → AreSmall path
    → (q : NibblePath) × (append_each p path ≡ some q)
      × IsPadded q
      × (nibbles q ≡ nibbles p ++ path)
unfolding append_each
append_each_lem [] p padded h small = (p, refl, padded, sym (append-nil (nibbles p)))
append_each_lem (n ∷ path) p padded h (s, small) =
    let (q, e, padded2, len, seen) = append_lem p n padded (omega arith) s in
    let (r, e2, padded3, held) = append_each_lem path q padded2 (omega arith) small in
    rw (e, e2)
      (
        r,
        refl,
        padded3,
        held
            ∙ ap (λ xs. xs ++ path) (nibbles-append p q n len seen)
            ∙ append_assoc (nibbles p) (n ∷ []) path,
      )

no_path-IsPadded : IsPadded no_path
unfolding half
no_path-IsPadded = (omega arith, λ pos l. ground arith)

-- CreatePathFromNibbles succeeds on at most 64 nibbles below 16, and the packed path holds these
-- nibbles, with zeros behind them.
pub create_path_from_nibbles_lem :
    (path : List ℕ)
    → length path ≤ 64
    → AreSmall path
    → (p : NibblePath) × (create_path_from_nibbles path ≡ some p) × IsPadded p × (nibbles p ≡ path)
unfolding create_path_from_nibbles nibbles
create_path_from_nibbles_lem path h small =
    append_each_lem path no_path no_path-IsPadded (omega arith) small

-- AppendAll to a path with zeros behind its end succeeds as long as both paths together have at
-- most 64 nibbles, and gives the nibbles of one after those of the other.
pub append_all_lem :
    (p other : NibblePath)
    → IsPadded p
    → p.path_length + other.path_length ≤ 64
    → AreSmall (nibbles other)
    → (q : NibblePath) × (append_all p other ≡ some q)
      × IsPadded q
      × (nibbles q ≡ nibbles p ++ nibbles other)
unfolding append_all
append_all_lem p other padded h small =
    append_each_lem (nibbles other) p padded (omega (arith, length-nibbles other)) small
