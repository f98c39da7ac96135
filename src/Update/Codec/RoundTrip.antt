-- ===== src/Update/Codec/RoundTrip.antt =====
-- What ToBytes of go/common/update.go writes, UpdateFromBytes reads.
use carmen.Prelude.{
  ℕ, ◌+◌, ◌^◌, ◌<◌, ◌≡◌, refl, ap, ◌∙◌, [], ◌++◌, false, ltb, comparable_nat, length, length-append,
  take-append, drop-append, append_assoc, arith,
}
use carmen.Update.{Update, BalanceUpdate, NonceUpdate, CodeUpdate, SlotUpdate}
use carmen.Update.Codec.{
  Bytes, ok, to_big_endian, read_address, read_balance, read_code, read_nonce, read_slot, Sizes,
  read_sizes, read_lists, from_bytes, write_balance, write_code, write_nonce, write_slot,
  write_sizes, write_lists, to_bytes,
}
use carmen.Update.Codec.Reading.{
  length-to_big_endian, Reads, read_number-Reads, All, read_many-Reads, read_list-Reads, All-map,
}

abbrev IsAddress : ℕ → Type 0
IsAddress a = a < 256 ^ 20

abbrev IsWord : ℕ → Type 0
IsWord n = n < 256 ^ 32

-- Every number fits its bytes, every code has less than 2^16 bytes, and every list less than
-- 2^32 entries.
pub record IsEncodable (u : Update) : Type 0 where
  pub deleted : All IsAddress u.deleted_accounts
  pub created : All IsAddress u.created_accounts
  pub balances : All (λ (b : BalanceUpdate). IsAddress b.account × IsWord b.balance) u.balances
  pub codes : All (λ (c : CodeUpdate). IsAddress c.account × (length c.code < 256 ^ 2)) u.codes
  pub nonces : All (λ (n : NonceUpdate). IsAddress n.account × (n.nonce < 256 ^ 8)) u.nonces
  pub slots :
      All (λ (x : SlotUpdate). IsAddress x.account × (IsWord x.key × IsWord x.value)) u.slots
  pub deleted_size : length u.deleted_accounts < 256 ^ 4
  pub created_size : length u.created_accounts < 256 ^ 4
  pub balances_size : length u.balances < 256 ^ 4
  pub codes_size : length u.codes < 256 ^ 4
  pub nonces_size : length u.nonces < 256 ^ 4
  pub slots_size : length u.slots < 256 ^ 4

read_address-Reads : (a : ℕ) → IsAddress a → Reads read_address (to_big_endian 20) a
unfolding read_address
read_address-Reads a h = read_number-Reads 20 a h

read_balance-Reads :
    (b : BalanceUpdate)
    → IsAddress b.account × IsWord b.balance
    → Reads read_balance write_balance b
unfolding read_balance write_balance
read_balance-Reads b h rest =
    rw
      (
        append_assoc (to_big_endian 20 b.account) (to_big_endian 32 b.balance) rest,
        read_number-Reads 20 b.account h.0 (to_big_endian 32 b.balance ++ rest),
        read_number-Reads 32 b.balance h.1 rest,
      )
      refl

read_nonce-Reads :
    (n : NonceUpdate) → IsAddress n.account × (n.nonce < 256 ^ 8) → Reads read_nonce write_nonce n
unfolding read_nonce write_nonce
read_nonce-Reads n h rest =
    rw
      (
        append_assoc (to_big_endian 20 n.account) (to_big_endian 8 n.nonce) rest,
        read_number-Reads 20 n.account h.0 (to_big_endian 8 n.nonce ++ rest),
        read_number-Reads 8 n.nonce h.1 rest,
      )
      refl

read_slot-Reads :
    (x : SlotUpdate)
    → IsAddress x.account × (IsWord x.key × IsWord x.value)
    → Reads read_slot write_slot x
unfolding read_slot write_slot
read_slot-Reads x h rest =
    rw
      (
        append_assoc (to_big_endian 20 x.account)
            (to_big_endian 32 x.key ++ to_big_endian 32 x.value) rest,
        append_assoc (to_big_endian 32 x.key) (to_big_endian 32 x.value) rest,
        read_number-Reads 20 x.account h.0
            (to_big_endian 32 x.key ++ (to_big_endian 32 x.value ++ rest)),
        read_number-Reads 32 x.key h.1.0 (to_big_endian 32 x.value ++ rest),
        read_number-Reads 32 x.value h.1.1 rest,
      )
      refl

read_code-Reads :
    (c : CodeUpdate)
    → IsAddress c.account × (length c.code < 256 ^ 2)
    → Reads read_code write_code c
unfolding read_code write_code
read_code-Reads c h rest =
    let size = to_big_endian 2 (length c.code) in
    let tail = size ++ (c.code ++ rest) in
    let room : ltb (length (to_big_endian 20 c.account ++ tail)) 22 ≡ false = ground (
      arith,
      length-append (to_big_endian 20 c.account) tail,
      length-append size (c.code ++ rest),
      length-to_big_endian 20 c.account,
      length-to_big_endian 2 (length c.code),
    ) in
    let enough : ltb (length (c.code ++ rest)) (length c.code) ≡ false =
      ground (arith, length-append c.code rest) in
    rw
      (
        append_assoc (to_big_endian 20 c.account) (size ++ c.code) rest,
        append_assoc size c.code rest,
        room,
        read_number-Reads 20 c.account h.0 tail,
        read_number-Reads 2 (length c.code) h.1 (c.code ++ rest),
        enough,
        take-append c.code rest,
        drop-append c.code rest,
      )
      refl

abbrev sizes_of : Update → Sizes
sizes_of u = record {
  deleted = length u.deleted_accounts;
  created = length u.created_accounts;
  balances = length u.balances;
  codes = length u.codes;
  nonces = length u.nonces;
  slots = length u.slots;
}

read_sizes-write :
    (u : Update) (rest : Bytes)
    → IsEncodable u
    → read_sizes (write_sizes u rest) ≡ ok (sizes_of u, rest)
unfolding read_sizes write_sizes
read_sizes-write u rest h =
    rw
      (
        read_number-Reads 4 (length u.deleted_accounts) h.deleted_size _,
        read_number-Reads 4 (length u.created_accounts) h.created_size _,
        read_number-Reads 4 (length u.balances) h.balances_size _,
        read_number-Reads 4 (length u.codes) h.codes_size _,
        read_number-Reads 4 (length u.nonces) h.nonces_size _,
        read_number-Reads 4 (length u.slots) h.slots_size rest,
      )
      refl

length-write_balance : (b : BalanceUpdate) → length (write_balance b) ≡ 52
unfolding write_balance
length-write_balance b = omega (
  arith,
  length-append (to_big_endian 20 b.account) (to_big_endian 32 b.balance),
  length-to_big_endian 20 b.account,
  length-to_big_endian 32 b.balance,
)

length-write_nonce : (n : NonceUpdate) → length (write_nonce n) ≡ 28
unfolding write_nonce
length-write_nonce n = omega (
  arith,
  length-append (to_big_endian 20 n.account) (to_big_endian 8 n.nonce),
  length-to_big_endian 20 n.account,
  length-to_big_endian 8 n.nonce,
)

length-write_slot : (x : SlotUpdate) → length (write_slot x) ≡ 84
unfolding write_slot
length-write_slot x = omega (
  arith,
  length-append (to_big_endian 20 x.account) (to_big_endian 32 x.key ++ to_big_endian 32 x.value),
  length-append (to_big_endian 32 x.key) (to_big_endian 32 x.value),
  length-to_big_endian 20 x.account,
  length-to_big_endian 32 x.key,
  length-to_big_endian 32 x.value,
)

read_lists-write : (u : Update) → IsEncodable u → read_lists (sizes_of u) (write_lists u) ≡ ok u
unfolding read_lists write_lists
read_lists-write u h =
    rw
      (
        read_list-Reads read_address (to_big_endian 20) 20 (length-to_big_endian 20)
            u.deleted_accounts (All-map read_address-Reads u.deleted_accounts h.deleted) _,
        read_list-Reads read_address (to_big_endian 20) 20 (length-to_big_endian 20)
            u.created_accounts (All-map read_address-Reads u.created_accounts h.created) _,
        read_list-Reads read_balance write_balance 52 length-write_balance u.balances
            (All-map read_balance-Reads u.balances h.balances) _,
        read_many-Reads read_code write_code u.codes (All-map read_code-Reads u.codes h.codes) _,
        read_list-Reads read_nonce write_nonce 28 length-write_nonce u.nonces
            (All-map read_nonce-Reads u.nonces h.nonces) _,
        read_list-Reads read_slot write_slot 84 length-write_slot u.slots
            (All-map read_slot-Reads u.slots h.slots) [],
      )
      refl

length-number : (w n : ℕ) (rest : Bytes) → length (to_big_endian w n ++ rest) ≡ w + length rest
length-number w n rest =
    omega (arith, length-append (to_big_endian w n) rest, length-to_big_endian w n)

length-write_sizes : (u : Update) (rest : Bytes) → length (write_sizes u rest) ≡ 24 + length rest
unfolding write_sizes
length-write_sizes u rest =
    length-number 4 (length u.deleted_accounts) _
    ∙ ap (◌+◌ 4) (
        length-number 4 (length u.created_accounts) _
        ∙ ap (◌+◌ 4) (
            length-number 4 (length u.balances) _
            ∙ ap (◌+◌ 4) (
                length-number 4 (length u.codes) _
                ∙ ap (◌+◌ 4) (
                    length-number 4 (length u.nonces) _
                    ∙ ap (◌+◌ 4) (length-number 4 (length u.slots) rest)))))
    ∙ omega arith

-- UpdateFromBytes gives back each update that ToBytes encodes, when its numbers fit their bytes,
-- each code is shorter than 2^16 bytes and each list than 2^32 entries.
pub from_bytes-to_bytes : (u : Update) → IsEncodable u → from_bytes (to_bytes u) ≡ ok u
unfolding from_bytes to_bytes
from_bytes-to_bytes u h =
    let lists = write_sizes u (write_lists u) in
    let enough : ltb (length (to_big_endian 1 0 ++ lists)) 25 ≡ false =
      ground (arith, length-number 1 0 lists, length-write_sizes u (write_lists u)) in
    rw (enough, read_number-Reads 1 0 (omega arith) lists, read_sizes-write u (write_lists u) h)
      (read_lists-write u h)
