-- ===== src/Update/Codec/Reading.antt =====
-- Numbers and lists that ToBytes of go/common/update.go writes, read again.
use carmen.Prelude.{
  ℕ, zero, suc, ◌+◌, ◌*◌, ◌/◌, ◌%◌, ◌^◌, ◌<◌, ◌≡◌, refl, ap, subst, ◌∙◌, List, [], ◌∷◌, ◌++◌, true,
  false, ltb, leb, comparable_nat, length, take, drop, length-append, take-append, drop-append,
  append_assoc, arith,
}
use native.Mathlib.Omega.{pow_step}
use carmen.Update.Codec.{
  Bytes, Result, ok, to_big_endian, from_big_endian, read_number, read_many, read_list, write_list,
}

pub length-to_big_endian : (w n : ℕ) → length (to_big_endian w n) ≡ w
unfolding to_big_endian
length-to_big_endian zero n = refl
length-to_big_endian (suc w) n = omega (
  arith,
  length-append (to_big_endian w (n / 256)) (n % 256 ∷ []),
  length-to_big_endian w (n / 256),
)

from_big_endian-append :
    (acc : ℕ) (l : Bytes) (b : ℕ)
    → from_big_endian acc (l ++ b ∷ []) ≡ from_big_endian acc l * 256 + b
unfolding from_big_endian
from_big_endian-append acc [] b = refl
from_big_endian-append acc (x ∷ l) b = from_big_endian-append (acc * 256 + x) l b

from-to_big_endian : (w n : ℕ) → n < 256 ^ w → from_big_endian 0 (to_big_endian w n) ≡ n
unfolding to_big_endian from_big_endian
from-to_big_endian zero n h = omega arith
from-to_big_endian (suc w) n h =
    from_big_endian-append 0 (to_big_endian w (n / 256)) (n % 256)
    ∙ ap (λ m. m * 256 + n % 256) (from-to_big_endian w (n / 256) (omega (arith, pow_step 256 w)))
    ∙ omega arith

-- The reader gives back what was written, and the data that follows.
abbrev pub Reads {ℓ} : {A : Type ℓ} → (Bytes → Result (A × Bytes)) → (A → Bytes) → A → Type ℓ
Reads read write x = (rest : Bytes) → read (write x ++ rest) ≡ ok (x, rest)

pub read_number-Reads : (w n : ℕ) → n < 256 ^ w → Reads (read_number w) (to_big_endian w) n
unfolding read_number
read_number-Reads w n h rest =
    let size : length (to_big_endian w n) ≡ w = length-to_big_endian w n in
    let enough : leb w (length (to_big_endian w n ++ rest)) ≡ true =
      ground (arith, length-append (to_big_endian w n) rest) in
    let front : take w (to_big_endian w n ++ rest) ≡ to_big_endian w n =
      subst (λ k. take k (to_big_endian w n ++ rest) ≡ to_big_endian w n) size
        (take-append (to_big_endian w n) rest) in
    let back : drop w (to_big_endian w n ++ rest) ≡ rest =
      subst (λ k. drop k (to_big_endian w n ++ rest) ≡ rest) size
        (drop-append (to_big_endian w n) rest) in
    rw (enough, front, back, from-to_big_endian w n h) refl

abbrev pub All {ℓ κ} : {A : Type ℓ} → (A → Type κ) → List A → Type κ
All P [] = Unit
All P (x ∷ xs) = P x × All P xs

module _ {ℓ} {A : Type ℓ} (read : Bytes → Result (A × Bytes)) (write : A → Bytes) where
  pub read_many-Reads :
      (xs : List A)
      → All (Reads read write) xs
      → (rest : Bytes) → read_many read (length xs) (write_list write xs ++ rest) ≡ ok (xs, rest)
  unfolding read_many write_list
  read_many-Reads [] h rest = refl
  read_many-Reads (x ∷ xs) h rest =
      rw
        (
          append_assoc (write x) (write_list write xs) rest,
          h.0 (write_list write xs ++ rest),
          read_many-Reads xs h.1 rest,
        )
        refl

  length-write_list :
      (width : ℕ)
      → ((x : A) → length (write x) ≡ width)
      → (xs : List A) → length (write_list write xs) ≡ length xs * width
  unfolding write_list
  length-write_list width h [] = omega arith
  length-write_list width h (x ∷ xs) =
      length-append (write x) (write_list write xs)
      ∙ rw (h x, length-write_list width h xs) (omega arith)

  pub read_list-Reads :
      (width : ℕ)
      → ((x : A) → length (write x) ≡ width)
      → (xs : List A) → All (Reads read write) xs
      → (rest : Bytes)
      → read_list width read (length xs) (write_list write xs ++ rest) ≡ ok (xs, rest)
  unfolding read_list
  read_list-Reads width e xs h rest =
      let enough : ltb (length (write_list write xs ++ rest)) (length xs * width) ≡ false =
        ground (arith, length-append (write_list write xs) rest, length-write_list width e xs) in
      rw enough (read_many-Reads xs h rest)

pub All-map {ℓ κ μ} :
    {A : Type ℓ} {P : A → Type κ} {Q : A → Type μ}
    → ((x : A) → P x → Q x)
    → (xs : List A) → All P xs
    → All Q xs
All-map f [] h = tt
All-map f (x ∷ xs) h = (f x h.0, All-map f xs h.1)
