-- ===== src/Update/Codec/Tests.antt =====
-- The encoding of go/common/update.go at a small update.
use carmen.Prelude.{◌≡◌, false, [], ◌∷◌, arith}
use carmen.Update.{Update}
use carmen.Update.Codec.{ok, from_bytes, to_bytes}
use carmen.Update.Codec.Safety.{is_panic, from_bytes-safe}
use carmen.Update.Codec.RoundTrip.{IsEncodable, from_bytes-to_bytes}

abbrev small : Update
small = record {
  deleted_accounts = 7 ∷ [];
  created_accounts = [];
  balances = record { account = 1; balance = 50 } ∷ [];
  nonces = record { account = 1; nonce = 3 } ∷ [];
  codes = record { account = 1; code = 96 ∷ 0 ∷ [] } ∷ [];
  slots = record { account = 1; key = 7; value = 9 } ∷ [];
}

small-IsEncodable : IsEncodable small
small-IsEncodable = record {
  deleted = (omega arith, tt);
  created = tt;
  balances = ((omega arith, omega arith), tt);
  codes = ((omega arith, omega arith), tt);
  nonces = ((omega arith, omega arith), tt);
  slots = ((omega arith, (omega arith, omega arith)), tt);
  deleted_size = omega arith;
  created_size = omega arith;
  balances_size = omega arith;
  codes_size = omega arith;
  nonces_size = omega arith;
  slots_size = omega arith;
}

from_bytes-to_bytes_example : from_bytes (to_bytes small) ≡ ok small
from_bytes-to_bytes_example = from_bytes-to_bytes small small-IsEncodable

from_bytes-safe_example : is_panic (from_bytes (0 ∷ 0 ∷ 0 ∷ 9 ∷ [])) ≡ false
from_bytes-safe_example = from_bytes-safe (0 ∷ 0 ∷ 0 ∷ 9 ∷ [])
