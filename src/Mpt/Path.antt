-- ===== src/Mpt/Path.antt =====
-- database/mpt/path.go: paths of up to 64 nibbles, packed two in a byte.
pub mod Packing
pub mod Compare
pub mod Tests
use Prim.Native.Nat.{bit_or}
use carmen.Prelude.{
  ℕ, zero, suc, ◌+◌, ◌-◌, ◌*◌, ◌/◌, ◌%◌, List, [], ◌∷◌, Bool, true, false, ◌&&◌, Option, none, some,
  if◌then◌else◌, ltb, leb, ◌==◌, comparable_nat, ◌>>=◌, length, take, drop, map,
}

-- The array of bytes by index, and the number of nibbles.
pub record NibblePath : Type 0 where
  pub path : ℕ → ℕ
  pub path_length : ℕ

abbrev pub no_path : NibblePath
no_path = record { path = λ i. 0; path_length = 0 }

unfoldable pub single_step_path : ℕ → NibblePath
single_step_path n = record { path = λ i. if i == 0 then n * 16 % 256 else 0; path_length = 1 }

-- The high half of a byte is at an even position.
unfoldable pub half : ℕ → ℕ → ℕ
half twin pos = if pos % 2 == 0 then twin / 16 else twin % 16

unfoldable pub get : NibblePath → ℕ → ℕ
unfolding half
get p pos = if ltb pos p.path_length then half (p.path (pos / 2)) pos else 0

-- A byte with one half set; the two halves share no bit, so that their or is their sum.
unfoldable pub set_half : ℕ → ℕ → ℕ → ℕ
set_half twin pos val =
    if pos % 2 == 0 then twin % 16 + val % 16 * 16 else twin / 16 * 16 + val % 16

abbrev pub put_byte : (ℕ → ℕ) → ℕ → ℕ → ℕ → ℕ
put_byte bytes index byte i = if i == index then byte else bytes i

-- Nothing where the position is out of range: the code panics.
unfoldable pub set : NibblePath → ℕ → ℕ → Option NibblePath
unfolding set_half
set p pos val =
    if ltb pos p.path_length
    then some (record p { path = put_byte p.path (pos / 2) (set_half (p.path (pos / 2)) pos val) })
    else none

-- The or of a byte with a nibble in one half.
unfoldable pub or_half : ℕ → ℕ → ℕ → ℕ
or_half twin pos n =
    if pos % 2 == 0
    then bit_or (twin / 16) (n % 16) * 16 + twin % 16
    else twin / 16 * 16 + bit_or (twin % 16) (n % 16)

-- Nothing where the index into the 32 bytes is out of range. The length is a byte.
unfoldable pub append : NibblePath → ℕ → Option NibblePath
unfolding or_half
append p n =
    if ltb (p.path_length / 2) 32
    then some (record {
      path =
          put_byte p.path (p.path_length / 2)
            (or_half (p.path (p.path_length / 2)) p.path_length n);
      path_length = (p.path_length + 1) % 256;
    })
    else none

unfoldable pub append_each : NibblePath → List ℕ → Option NibblePath
unfolding append
append_each p [] = some p
append_each p (n ∷ path) = append p n >>= λ q. append_each q path

unfoldable pub create_path_from_nibbles : List ℕ → Option NibblePath
unfolding append_each
create_path_from_nibbles path = append_each no_path path

-- The nibbles from a position on.
unfoldable pub nibbles_from : NibblePath → ℕ → ℕ → List ℕ
unfolding get
nibbles_from p pos zero = []
nibbles_from p pos (suc count) = get p pos ∷ nibbles_from p (suc pos) count

unfoldable pub nibbles : NibblePath → List ℕ
unfolding nibbles_from
nibbles p = nibbles_from p 0 p.path_length

unfoldable pub append_all : NibblePath → NibblePath → Option NibblePath
unfolding append_each nibbles
append_all p other = append_each p (nibbles other)

-- The loop of Prepend moves the nibbles below `count` up by one, the last one first.
unfoldable pub move_up : NibblePath → ℕ → Option NibblePath
unfolding set get
move_up p zero = some p
move_up p (suc count) = set p (suc count) (get p count) >>= λ q. move_up q count

unfoldable pub prepend : NibblePath → ℕ → Option NibblePath
unfolding move_up set
prepend p n =
    move_up (record p { path_length = (p.path_length + 1) % 256 }) p.path_length >>= λ q. set q 0 n

unfoldable pub remove_last : NibblePath → ℕ → NibblePath
remove_last p n =
    if ltb p.path_length n
    then record p { path_length = 0 }
    else record p { path_length = p.path_length - n }

-- The loops of ShiftLeft by an odd number of steps: the first moves `count` nibbles down to the
-- position and those after it, and the second writes zeros there.
unfoldable pub move_down : NibblePath → ℕ → ℕ → ℕ → Option NibblePath
unfolding set get
move_down p steps pos zero = some p
move_down p steps pos (suc count) =
    set p pos (get p (pos + steps)) >>= λ q. move_down q steps (suc pos) count

unfoldable pub clear_from : NibblePath → ℕ → ℕ → Option NibblePath
unfolding set
clear_from p pos zero = some p
clear_from p pos (suc count) = set p pos 0 >>= λ q. clear_from q (suc pos) count

-- The 32 bytes moved down by a number of bytes; the last ones stay.
abbrev pub shift_bytes : (ℕ → ℕ) → ℕ → ℕ → ℕ
shift_bytes bytes count i = if ltb (i + count) 32 then bytes (i + count) else bytes i

unfoldable pub shift_left : NibblePath → ℕ → Option NibblePath
unfolding move_down clear_from
shift_left p steps =
    if leb p.path_length steps
    then some no_path
    else if steps % 2 == 0
    then some
        (record { path = shift_bytes p.path (steps / 2); path_length = p.path_length - steps })
    else move_down p steps 0 (p.path_length - steps) >>= λ q.
        clear_from q (p.path_length - steps) steps >>= λ r.
        some (record r { path_length = p.path_length - steps })

-- The loop of GetCommonPrefixLength from a position on, over the rest of the list.
unfoldable pub common_from : NibblePath → ℕ → ℕ → List ℕ → ℕ
unfolding get
common_from p pos zero list = pos
common_from p pos (suc count) [] = pos
common_from p pos (suc count) (x ∷ list) =
    let rest = common_from p (suc pos) count list in if get p pos == x then rest else pos

unfoldable pub get_common_prefix_length : NibblePath → List ℕ → ℕ
unfolding common_from
get_common_prefix_length p list =
    common_from p 0 (if ltb (length list) p.path_length then length list else p.path_length) list

unfoldable pub is_prefix_of : NibblePath → List ℕ → Bool
unfolding get_common_prefix_length
is_prefix_of p list = get_common_prefix_length p list == p.path_length

unfoldable pub is_equal_to : NibblePath → List ℕ → Bool
unfolding get_common_prefix_length
is_equal_to p list =
    p.path_length == length list && get_common_prefix_length p list == p.path_length
