-- ===== src/Update/Codec/Safety.antt =====
-- UpdateFromBytes of go/common/update.go never reads past the end of its data.
use carmen.Prelude.{
  ℕ, zero, suc, ◌+◌, ◌*◌, ◌≤◌, ◌≡◌, refl, List, [], ◌∷◌, Bool, true, false, not, if◌then◌else◌, ltb,
  leb, ◌==◌, comparable_nat, length, take, drop, arith,
}
use carmen.Update.Codec.{
  Bytes, Result, ok, err, panic, and_then, from_big_endian, read_number, read_many, read_list,
  read_address, read_balance, read_code, read_nonce, read_slot, Sizes, read_sizes, read_lists,
  from_bytes,
}

abbrev pub is_panic {ℓ} : {A : Type ℓ} → Result A → Bool
is_panic (ok a) = false
is_panic err = false
is_panic panic = true

and_then-safe {ℓ κ} :
    {A : Type ℓ} {B : Type κ} (m : Result A) (f : A → Result B)
    → is_panic m ≡ false
    → ((a : A) → is_panic (f a) ≡ false)
    → is_panic (and_then m f) ≡ false
and_then-safe (ok a) f h k = k a
and_then-safe err f h k = refl
and_then-safe panic f h k = h

if-safe {ℓ} :
    {A : Type ℓ} (b : Bool) (m : Result A)
    → (b ≡ false → is_panic m ≡ false)
    → is_panic (if b then err else m) ≡ false
if-safe true m h = refl
if-safe false m h = h refl

length-drop {ℓ} :
    {A : Type ℓ} (w : ℕ) (l : List A) → w ≤ length l → length (drop w l) + w ≡ length l
length-drop zero l h = omega arith
length-drop (suc w) [] h = absurd (omega arith)
length-drop (suc w) (x ∷ l) h = omega (arith, length-drop w l)

-- A reader that takes a fixed count of bytes off data that has as many.
abbrev Takes {ℓ} : {A : Type ℓ} → ℕ → (Bytes → Result (A × Bytes)) → Type ℓ
Takes {A = A} w read =
    (d : Bytes)
    → w ≤ length d
    → (x : A) × (r : Bytes) × (read d ≡ ok (x, r)) × (length r + w ≡ length d)

read_number-Takes : (w : ℕ) → Takes w (read_number w)
unfolding read_number
read_number-Takes w d h =
    let enough : leb w (length d) ≡ true = ground arith in
    (from_big_endian 0 (take w d), drop w d, rw enough refl, length-drop w d h)

Takes-then {ℓ κ} :
    {A : Type ℓ} {B : Type κ} (v w : ℕ) (read : Bytes → Result (A × Bytes))
    (next : A → Bytes → Result (B × Bytes))
    → Takes v read
    → ((x : A) → Takes w (next x))
    → Takes (v + w) (λ d. and_then (read d) (λ p. next p.0 p.1))
Takes-then v w read next h k d enough =
    let (x, r, e, size) = h d (omega arith) in
    let (y, r', e', size') = k x r (omega arith) in (y, r', rw (e, e') refl, omega arith)

Takes-return {ℓ} : {A : Type ℓ} (x : A) → Takes 0 (λ d. ok (x, d))
Takes-return x d h = (x, d, refl, omega arith)

read_balance-Takes : Takes 52 read_balance
unfolding read_balance
read_balance-Takes =
    Takes-then 20 32 (read_number 20) _ (read_number-Takes 20)
      λ a. Takes-then 32 0 (read_number 32) _ (read_number-Takes 32) λ b. Takes-return _

read_nonce-Takes : Takes 28 read_nonce
unfolding read_nonce
read_nonce-Takes =
    Takes-then 20 8 (read_number 20) _ (read_number-Takes 20)
      λ a. Takes-then 8 0 (read_number 8) _ (read_number-Takes 8) λ b. Takes-return _

read_many-Takes {ℓ} :
    {A : Type ℓ} (w n : ℕ) (read : Bytes → Result (A × Bytes))
    → Takes w read
    → Takes (n * w) (read_many read n)
unfolding read_many
read_many-Takes w zero read h d enough = ([], d, refl, omega arith)
read_many-Takes w (suc n) read h d enough =
    let (x, r, e, size) = h d (omega arith) in
    let (xs, r', e', size') = read_many-Takes w n read h r (omega arith) in
    (x ∷ xs, r', rw (e, e') refl, omega arith)

read_list-safe {ℓ} :
    {A : Type ℓ} (w n : ℕ) (read : Bytes → Result (A × Bytes))
    → Takes w read
    → (d : Bytes) → is_panic (read_list w read n d) ≡ false
unfolding read_list
read_list-safe w n read h d =
    if-safe (ltb (length d) (n * w)) _
      λ enough. let (xs, r, e, size) = read_many-Takes w n read h d (ground arith) in rw e refl

read_slot-Takes : Takes 84 read_slot
unfolding read_slot
read_slot-Takes = Takes-then 20 64 (read_number 20) _ (read_number-Takes 20) λ a.
    Takes-then 32 32 (read_number 32) _ (read_number-Takes 32)
      λ k. Takes-then 32 0 (read_number 32) _ (read_number-Takes 32) λ v. Takes-return _

read_address-Takes : Takes 20 read_address
unfolding read_address
read_address-Takes = read_number-Takes 20

read_code-safe : (d : Bytes) → is_panic (read_code d) ≡ false
unfolding read_code
read_code-safe d = if-safe (ltb (length d) 22) _ λ room.
    let (a, r, e, size) = read_number-Takes 20 d (ground arith) in
    let (n, r', e', size') = read_number-Takes 2 r (ground arith) in
    rw (e, e') (if-safe (ltb (length r') n) _ λ enough. refl)

read_many-safe {ℓ} :
    {A : Type ℓ} (n : ℕ) (read : Bytes → Result (A × Bytes))
    → ((d : Bytes) → is_panic (read d) ≡ false)
    → (d : Bytes) → is_panic (read_many read n d) ≡ false
unfolding read_many
read_many-safe zero read h d = refl
read_many-safe (suc n) read h d =
    and_then-safe (read d) _ (h d)
      λ p. and_then-safe (read_many read n p.1) _ (read_many-safe n read h p.1) λ q. refl

read_sizes-Takes : Takes 24 read_sizes
unfolding read_sizes
read_sizes-Takes = Takes-then 4 20 (read_number 4) _ (read_number-Takes 4) λ a.
    Takes-then 4 16 (read_number 4) _ (read_number-Takes 4) λ b.
      Takes-then 4 12 (read_number 4) _ (read_number-Takes 4) λ c.
        Takes-then 4 8 (read_number 4) _ (read_number-Takes 4) λ d.
          Takes-then 4 4 (read_number 4) _ (read_number-Takes 4)
            λ e. Takes-then 4 0 (read_number 4) _ (read_number-Takes 4) λ f. Takes-return _

read_lists-safe : (n : Sizes) (d : Bytes) → is_panic (read_lists n d) ≡ false
unfolding read_lists
read_lists-safe n d =
    and_then-safe (read_list 20 read_address n.deleted d) _
      (read_list-safe 20 n.deleted read_address read_address-Takes d)
      λ a.
        and_then-safe (read_list 20 read_address n.created a.1) _
          (read_list-safe 20 n.created read_address read_address-Takes a.1)
          λ b.
            and_then-safe (read_list 52 read_balance n.balances b.1) _
              (read_list-safe 52 n.balances read_balance read_balance-Takes b.1)
              λ c.
                and_then-safe (read_many read_code n.codes c.1) _
                  (read_many-safe n.codes read_code read_code-safe c.1)
                  λ e.
                    and_then-safe (read_list 28 read_nonce n.nonces e.1) _
                      (read_list-safe 28 n.nonces read_nonce read_nonce-Takes e.1)
                      λ f.
                        and_then-safe (read_list 84 read_slot n.slots f.1) _
                          (read_list-safe 84 n.slots read_slot read_slot-Takes f.1) λ g. refl

-- UpdateFromBytes never panics, whatever its data is.
pub from_bytes-safe : (d : Bytes) → is_panic (from_bytes d) ≡ false
unfolding from_bytes
from_bytes-safe d = if-safe (ltb (length d) 25) _ λ room.
    let (version, r, e, size) = read_number-Takes 1 d (ground arith) in
    let (n, r', e', size') = read_sizes-Takes r (ground arith) in
    rw e (if-safe (not (version == 0)) _ λ known. rw e' (read_lists-safe n r'))
