-- ===== src/FastMap.antt =====
-- common/fast_map.go: a hash map whose buckets are chains in one slice, cleared by a generation.
-- The chains lead to smaller positions, so the length of the slice is fuel enough for each loop.
pub mod Lookup
pub mod Tests
use carmen.Prelude.{
  ℕ, zero, suc, ◌+◌, ◌-◌, ◌*◌, ◌/◌, ◌%◌, List, [], ◌∷◌, ◌++◌, Bool, true, false, if◌then◌else◌,
  Comparable, ◌==◌, comparable_nat, length, Option, none, some, is_some,
}

-- fmPtr: a position and a generation in one number; the negative, invalid pointers are `none`.
abbrev pub FmPtr : Type 0
FmPtr = Option ℕ

pub record Entry {ℓ κ} (K : Type ℓ) (V : Type κ) : Type (ℓ ⊔ κ) where
  pub key : K
  pub value : V
  pub next : FmPtr

-- `slots` is the slice `data`; the buckets are a function of the 16-bit hash.
pub record FastMap {ℓ κ} (K : Type ℓ) (V : Type κ) : Type (ℓ ⊔ κ) where
  pub buckets : ℕ → FmPtr
  pub slots : List (Entry K V)
  pub generation : ℕ
  pub hasher : K → ℕ
  pub size : ℕ
  pub used_buckets : List ℕ

unfoldable pub to_ptr : ℕ → ℕ → FmPtr
to_ptr generation position = some (position * 65536 + generation)

unfoldable pub to_pos : ℕ → FmPtr → Option ℕ
to_pos generation none = none
to_pos generation (some ptr) = if ptr % 65536 == generation then some (ptr / 65536) else none

abbrev pub entry_at {ℓ} : {A : Type ℓ} → List A → ℕ → Option A
entry_at [] n = none
entry_at (x ∷ xs) zero = some x
entry_at (x ∷ xs) (suc n) = entry_at xs n

abbrev pub modify_at {ℓ} : {A : Type ℓ} → (A → A) → ℕ → List A → List A
modify_at f n [] = []
modify_at f zero (x ∷ xs) = f x ∷ xs
modify_at f (suc n) (x ∷ xs) = x ∷ modify_at f n xs

abbrev pub set_bucket : ℕ → FmPtr → (ℕ → FmPtr) → ℕ → FmPtr
set_bucket hash ptr buckets i = if hash == i then ptr else buckets i

module _ {ℓ κ} {K : Type ℓ} {V : Type κ} ⦃c : Comparable K⦄ where
  -- The loop along a chain, to the position of the key.
  unfoldable pub find : ℕ → ℕ → K → List (Entry K V) → Option ℕ → Option ℕ
  find zero generation key slots cur = none
  find (suc n) generation key slots none = none
  find (suc n) generation key slots (some p) = elim (entry_at slots p) [
    | none ↦ none
    | some e ↦
        let rest = find n generation key slots (to_pos generation e.next) in
        if e.key == key then some p else rest
  ]

  abbrev pub start : K → FastMap K V → Option ℕ
  start key m = to_pos m.generation (m.buckets (m.hasher key))

  unfoldable pub find_in : K → FastMap K V → Option ℕ
  unfolding find
  find_in key m = find (length m.slots) m.generation key m.slots (start key m)

  unfoldable pub get : K → FastMap K V → Option V
  get key m = elim (find_in key m) [
    | none ↦ none
    | some p ↦ elim (entry_at m.slots p) [ none ↦ none | some e ↦ some e.value ]
  ]

  -- A bucket that is empty is put on the list of used buckets, also when it was on it before.
  unfoldable pub use_bucket : K → FastMap K V → FastMap K V
  use_bucket key m =
      if is_some (start key m)
      then m
      else record m { used_buckets = m.used_buckets ++ m.hasher key ∷ [] }

  unfoldable pub add_entry : K → V → FastMap K V → FastMap K V
  unfolding to_ptr
  add_entry key value m = record m {
    slots = m.slots ++ record { key = key; value = value; next = m.buckets (m.hasher key) } ∷ [];
    buckets = set_bucket (m.hasher key) (to_ptr m.generation (length m.slots)) m.buckets;
    size = m.size + 1;
  }

  unfoldable pub put : K → V → FastMap K V → FastMap K V
  unfolding use_bucket add_entry
  put key value m = elim (find_in key m) [
    | some p ↦ record (use_bucket key m) {
      slots = modify_at (λ e. record e { value = value }) p m.slots;
    }
    | none ↦ add_entry key value (use_bucket key m)
  ]

  -- The predecessor on the chain, or the bucket, is linked past the removed entry.
  unfoldable pub unlink : ℕ → ℕ → K → Option ℕ → Option ℕ → FastMap K V → FastMap K V × Bool
  unlink zero hash key before cur m = (m, false)
  unlink (suc n) hash key before none m = (m, false)
  unlink (suc n) hash key before (some p) m = elim (entry_at m.slots p) [
    | none ↦ (m, false)
    | some e ↦
        let rest = unlink n hash key (some p) (to_pos m.generation e.next) m in
        let shorter = record m { size = m.size - 1 } in
        if e.key == key
        then (elim before [
          | none ↦ (record shorter { buckets = set_bucket hash e.next m.buckets }, true)
          | some q ↦ (
            record shorter { slots = modify_at (λ x. record x { next = e.next }) q m.slots },
            true,
          )
        ])
        else rest
  ]

  unfoldable pub remove : K → FastMap K V → FastMap K V × Bool
  unfolding unlink
  remove key m = unlink (length m.slots) (m.hasher key) key none (start key m) m

  -- At an overflow of the generation all buckets are made invalid.
  unfoldable pub clear : FastMap K V → FastMap K V
  clear m =
      let generation = (m.generation + 1) % 65536 in
      record m {
        slots = [];
        generation = generation;
        size = 0;
        used_buckets = [];
        buckets = λ i. if generation == 0 then none else m.buckets i;
      }

  unfoldable pub new_fast_map : (K → ℕ) → FastMap K V
  unfolding clear
  new_fast_map hasher = clear (record {
    buckets = λ i. some 0;
    slots = [];
    generation = 0;
    hasher = hasher;
    size = 0;
    used_buckets = [];
  })

  unfoldable pub chain : ℕ → ℕ → List (Entry K V) → Option ℕ → List (K × V)
  chain zero generation slots cur = []
  chain (suc n) generation slots none = []
  chain (suc n) generation slots (some p) = elim (entry_at slots p) [
    | none ↦ []
    | some e ↦ (e.key, e.value) ∷ chain n generation slots (to_pos generation e.next)
  ]

  -- The pairs that ForEach visits, in its order.
  unfoldable pub visit : FastMap K V → List ℕ → List (K × V)
  unfolding chain
  visit m [] = []
  visit m (b ∷ bs) =
      chain (length m.slots) m.generation m.slots (to_pos m.generation (m.buckets b)) ++ visit m bs

  unfoldable pub put_all : List (K × V) → FastMap K V → FastMap K V
  put_all [] m = m
  put_all ((k, v) ∷ ps) m = put_all ps (put k v m)

  unfoldable pub copy_to : FastMap K V → FastMap K V → FastMap K V
  unfolding visit put_all
  copy_to m dest = put_all (visit m m.used_buckets) dest
