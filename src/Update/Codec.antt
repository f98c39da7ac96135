-- ===== src/Update/Codec.antt =====
-- go/common/update.go: ToBytes and UpdateFromBytes.
pub mod Reading
pub mod RoundTrip
pub mod Safety
pub mod Tests
use carmen.Prelude.{
  ℕ, zero, suc, ◌+◌, ◌*◌, ◌/◌, ◌%◌, List, [], ◌∷◌, ◌++◌, Bool, true, false, ◌&&◌, not,
  if◌then◌else◌, ltb, leb, ◌==◌, comparable_nat, length, take, drop,
}
use carmen.Update.{Update, BalanceUpdate, NonceUpdate, CodeUpdate, SlotUpdate}

abbrev pub Bytes : Type 0
Bytes = List ℕ

-- A value, a returned error, or a run-time panic.
pub data Result {ℓ} (A : Type ℓ) : Type ℓ where
  ok : A → Result A
  err panic : Result A

abbrev pub and_then {ℓ κ} : {A : Type ℓ} {B : Type κ} → Result A → (A → Result B) → Result B
and_then (ok a) f = f a
and_then err f = err
and_then panic f = panic

-- Numbers of a fixed count of bytes, the most significant byte first; higher bytes are cut off.
unfoldable pub to_big_endian : ℕ → ℕ → Bytes
to_big_endian zero n = []
to_big_endian (suc w) n = to_big_endian w (n / 256) ++ n % 256 ∷ []

unfoldable pub from_big_endian : ℕ → Bytes → ℕ
from_big_endian acc [] = acc
from_big_endian acc (b ∷ bs) = from_big_endian (acc * 256 + b) bs

-- A slice of the data past its end panics.
unfoldable pub read_number : ℕ → Bytes → Result (ℕ × Bytes)
unfolding from_big_endian
read_number w data' =
    if leb w (length data') then ok (from_big_endian 0 (take w data'), drop w data') else panic

module _ {ℓ} {A : Type ℓ} where
  unfoldable pub read_many : (Bytes → Result (A × Bytes)) → ℕ → Bytes → Result (List A × Bytes)
  read_many read zero data' = ok ([], data')
  read_many read (suc n) data' =
      and_then (read data')
        λ (x, rest). and_then (read_many read n rest) λ (xs, rest'). ok (x ∷ xs, rest')

  -- A list whose entries have a fixed width is checked for its length first.
  unfoldable pub read_list : ℕ → (Bytes → Result (A × Bytes)) → ℕ → Bytes → Result (List A × Bytes)
  read_list width read n data' =
      if ltb (length data') (n * width) then err else read_many read n data'

  unfoldable pub write_list : (A → Bytes) → List A → Bytes
  write_list write [] = []
  write_list write (x ∷ xs) = write x ++ write_list write xs

unfoldable pub read_address : Bytes → Result (ℕ × Bytes)
read_address = read_number 20

unfoldable pub read_balance : Bytes → Result (BalanceUpdate × Bytes)
read_balance data' = and_then (read_number 20 data') λ (a, rest).
    and_then (read_number 32 rest) λ (b, rest'). ok (record { account = a; balance = b }, rest')

unfoldable pub read_code : Bytes → Result (CodeUpdate × Bytes)
read_code data' =
    if ltb (length data') 22
    then err
    else and_then (read_number 20 data') λ (a, rest). and_then (read_number 2 rest) λ (n, rest').
      if ltb (length rest') n
      then err
      else ok (record { account = a; code = take n rest' }, drop n rest')

unfoldable pub read_nonce : Bytes → Result (NonceUpdate × Bytes)
read_nonce data' = and_then (read_number 20 data') λ (a, rest).
    and_then (read_number 8 rest) λ (n, rest'). ok (record { account = a; nonce = n }, rest')

unfoldable pub read_slot : Bytes → Result (SlotUpdate × Bytes)
read_slot data' = and_then (read_number 20 data') λ (a, rest).
    and_then (read_number 32 rest) λ (k, rest').
      and_then (read_number 32 rest')
        λ (v, rest''). ok (record { account = a; key = k; value = v }, rest'')

-- The sizes of the six lists, and the data after them.
pub record Sizes : Type 0 where
  pub deleted : ℕ
  pub created : ℕ
  pub balances : ℕ
  pub codes : ℕ
  pub nonces : ℕ
  pub slots : ℕ

unfoldable pub read_sizes : Bytes → Result (Sizes × Bytes)
read_sizes data' = and_then (read_number 4 data') λ (a, r). and_then (read_number 4 r) λ (b, r).
    and_then (read_number 4 r) λ (c, r). and_then (read_number 4 r) λ (d, r).
      and_then (read_number 4 r) λ (e, r). and_then (read_number 4 r) λ (f, r).
        ok (record { deleted = a; created = b; balances = c; codes = d; nonces = e; slots = f }, r)

-- The source makes the slice for the codes before it knows that the data has as many.
unfoldable pub read_lists : Sizes → Bytes → Result Update
read_lists n data' = and_then (read_list 20 read_address n.deleted data') λ (a, r).
    and_then (read_list 20 read_address n.created r) λ (b, r).
      and_then (read_list 52 read_balance n.balances r) λ (c, r).
        and_then (read_many read_code n.codes r) λ (d, r).
          and_then (read_list 28 read_nonce n.nonces r) λ (e, r).
            and_then (read_list 84 read_slot n.slots r) λ (f, r). ok (record {
              deleted_accounts = a;
              created_accounts = b;
              balances = c;
              codes = d;
              nonces = e;
              slots = f;
            })

unfoldable pub from_bytes : Bytes → Result Update
from_bytes data' =
    if ltb (length data') 25
    then err
    else and_then (read_number 1 data') λ (version, rest).
      if not (version == 0)
      then err
      else and_then (read_sizes rest) λ (n, lists). read_lists n lists

unfoldable pub write_balance : BalanceUpdate → Bytes
write_balance b = to_big_endian 20 b.account ++ to_big_endian 32 b.balance

unfoldable pub write_code : CodeUpdate → Bytes
write_code c = to_big_endian 20 c.account ++ (to_big_endian 2 (length c.code) ++ c.code)

unfoldable pub write_nonce : NonceUpdate → Bytes
write_nonce n = to_big_endian 20 n.account ++ to_big_endian 8 n.nonce

unfoldable pub write_slot : SlotUpdate → Bytes
write_slot x = to_big_endian 20 x.account ++ (to_big_endian 32 x.key ++ to_big_endian 32 x.value)

unfoldable pub write_sizes : Update → Bytes → Bytes
write_sizes u rest =
    to_big_endian 4 (length u.deleted_accounts)
    ++ (to_big_endian 4 (length u.created_accounts)
        ++ (to_big_endian 4 (length u.balances)
            ++ (to_big_endian 4 (length u.codes)
                ++ (to_big_endian 4 (length u.nonces)
                    ++ (to_big_endian 4 (length u.slots) ++ rest)))))

unfoldable pub write_lists : Update → Bytes
write_lists u =
    write_list (to_big_endian 20) u.deleted_accounts
    ++ (write_list (to_big_endian 20) u.created_accounts
        ++ (write_list write_balance u.balances
            ++ (write_list write_code u.codes
                ++ (write_list write_nonce u.nonces ++ (write_list write_slot u.slots ++ [])))))

unfoldable pub to_bytes : Update → Bytes
to_bytes u = to_big_endian 1 0 ++ write_sizes u (write_lists u)
