-- ===== src/Mpt/Path/Tests.antt =====
-- Runs of the packed paths of database/mpt/path.go.
use Prim.Native.Nat.{bit_or}
use carmen.Prelude.{
  ◌↔◌, ◌++◌, true, ℕ, List, ◌≡◌, if◌then◌else◌, ◌==◌, comparable_nat, refl, [], ◌∷◌, some, ◌>>=◌,
  arith,
}
use carmen.Mpt.Path.{
  NibblePath, append, append_all, create_path_from_nibbles, get, half, nibbles, nibbles_from,
  prepend, remove_last, set, set_half, move_up, shift_left, move_down, clear_from, single_step_path,
  get_common_prefix_length, is_prefix_of,
}
use carmen.Mpt.Path.Compare.{append-remove_last, get_common_prefix_length-nibbles}
use carmen.Mpt.Path.Packing.{IsPadded, append_all_lem, create_path_from_nibbles_lem}
use carmen.Mpt.Nibble

abbrev packed : NibblePath
packed = record { path = λ i. if i == 0 then 18 else if i == 1 then 48 else 0; path_length = 3 }

packed-IsPadded : IsPadded packed
unfolding half
packed-IsPadded = (omega arith, λ pos l. ground arith)

nibbles_runs : nibbles packed ≡ 1 ∷ 2 ∷ 3 ∷ []
unfolding nibbles nibbles_from get half
nibbles_runs = refl

prepend_runs : prepend packed 4 >>= (λ p. some (nibbles p)) ≡ some (4 ∷ 1 ∷ 2 ∷ 3 ∷ [])
unfolding nibbles nibbles_from get half prepend move_up set set_half
prepend_runs = refl

shift_left_runs : shift_left packed 1 >>= (λ p. some (nibbles p)) ≡ some (2 ∷ 3 ∷ [])
unfolding nibbles nibbles_from get half shift_left move_down clear_from set set_half
shift_left_runs = refl

create_path_from_nibbles_lem_example :
    (p : NibblePath) × (create_path_from_nibbles (1 ∷ 2 ∷ 3 ∷ []) ≡ some p)
    × IsPadded p
    × (nibbles p ≡ 1 ∷ 2 ∷ 3 ∷ [])
create_path_from_nibbles_lem_example =
    create_path_from_nibbles_lem (1 ∷ 2 ∷ 3 ∷ []) (omega arith) (omega arith)

append_all_lem_example :
    (q : NibblePath) × (append_all packed (single_step_path 7) ≡ some q)
    × IsPadded q
    × (nibbles q ≡ 1 ∷ 2 ∷ 3 ∷ 7 ∷ [])
unfolding nibbles nibbles_from get half single_step_path
append_all_lem_example =
    append_all_lem packed (single_step_path 7) packed-IsPadded (omega arith) (omega arith)

get_common_prefix_length-nibbles_example :
    (get_common_prefix_length packed (1 ∷ 2 ∷ 5 ∷ [])
      ≡ Nibble.get_common_prefix_length (nibbles packed) (1 ∷ 2 ∷ 5 ∷ []))
    × ((is_prefix_of packed (1 ∷ 2 ∷ 5 ∷ []) ≡ true)
        ↔ ((rest : List ℕ) × (nibbles packed ++ rest ≡ 1 ∷ 2 ∷ 5 ∷ [])))
get_common_prefix_length-nibbles_example = get_common_prefix_length-nibbles packed (1 ∷ 2 ∷ 5 ∷ [])

append-remove_last_example :
    (q : NibblePath) × (append (remove_last packed 1) 4 ≡ some q)
    × (get q 2 ≡ bit_or (get packed 2) 4)
append-remove_last_example =
    append-remove_last packed 4 2 refl (omega arith) (omega arith) (omega arith)
