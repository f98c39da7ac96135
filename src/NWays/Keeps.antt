-- ===== src/NWays/Keeps.antt =====
-- What Set of common/nways_cache.go leaves alone.
use carmen.Prelude.{
  ℕ, zero, suc, ◌+◌, ◌*◌, ◌^◌, ◌%◌, ◌<◌, ◌≤◌, ◌≡◌, ◌≢◌, refl, List, Bool, true, false,
  if◌then◌else◌, ltb, ◌==◌, comparable_nat, length, Option, none, some, arith, Bool-cases, inl, inr,
  ltb→lt, ap, ◌∙◌, subst, sym,
}
use native.Mathlib.Nat.{mul-le-mul_right}
use carmen.FastMap.{entry_at, modify_at}
use carmen.NWays.{
  NWaysCache, Slot, find, get, holds, next_tick, position, set, set_index, place, tick,
}
use carmen.NWays.Scan.{
  entry_at-modify_at_other, entry_at-modify_at_same, entry_in, find-step, length-modify_at,
  same_entry,
}
use carmen.NWays.Lookup.{IsValid, entry_of, get-found, set-Writes, set-fits, store_at}

-- Two sets have no index in common.
sets-apart : (a b n q j : ℕ) → a ≢ b → a * n ≤ q → q < a * n + n → b * n ≤ j → j < b * n + n → q ≢ j
sets-apart a b n q j apart low high from to z = elim (Bool-cases (ltb a b)) [
  | inl y ↦
      let less : suc a ≤ b = ltb→lt a b y in
      let fits : suc a * n ≤ b * n = mul-le-mul_right n less in
      omega (arith, fits, low, high, from, to, z)
  | inr f ↦
      let less : suc b ≤ a = ground (arith, f, apart) in
      let fits : suc b * n ≤ a * n = mul-le-mul_right n less in
      omega (arith, fits, low, high, from, to, z)
]

module _ {ℓ} {V : Type ℓ} where
  find-kept :
      (key n i q : ℕ) (items : List (Slot V)) (f : Slot V → Slot V) (e : Slot V)
      → entry_at items q ≡ some e
      → holds key e ≡ false
      → holds key (f e) ≡ false
      → i + n ≤ length items
      → find n i key (modify_at f q items) ≡ find n i key items
  unfolding find
  find-kept key zero i q items f e here old new h = refl
  find-kept key (suc n) i q items f e here old new h =
      let rest = find-kept key n (suc i) q items f e here old new (omega (arith, h)) in
      let (x, there) = entry_in items i (omega (arith, h)) in
      elim (Bool-cases (q == i)) [
        | inl y ↦
            let same : q ≡ i = ground (arith, y) in
            let modified : entry_at (modify_at f q items) i ≡ some (f e) =
              subst (λ k. entry_at (modify_at f q items) k ≡ some (f e)) same
                (entry_at-modify_at_same f q items e here) in
            let was : entry_at items i ≡ some e =
              subst (λ k. entry_at items k ≡ some e) same here in
            find-step key n i (modify_at f q items) (f e) modified
            ∙ ap (λ b. if b then some (some i) else find n (suc i) key (modify_at f q items)) new
            ∙ rest
            ∙ ap (λ b. if b then some (some i) else find n (suc i) key items) (sym old)
            ∙ sym (find-step key n i items e was)
        | inr apart ↦
            let other = entry_at-modify_at_other f q i items (λ z. ground (arith, apart, z)) in
            find-step key n i (modify_at f q items) x (other ∙ there)
            ∙ ap (λ r. if holds key x then some (some i) else r) rest
            ∙ sym (find-step key n i items x there)
      ]

  abbrev Holds : ℕ → List (Slot V) → Option ℕ → Type ℓ
  Holds key items none = Unit
  Holds key items (some p) = (e : Slot V) × (entry_at items p ≡ some e) × (holds key e ≡ true)

  find-Holds :
      (key n i : ℕ) (items : List (Slot V))
      → i + n ≤ length items
      → (r : Option ℕ) × (find n i key items ≡ some r) × Holds key items r
  unfolding find
  find-Holds key zero i items h = (none, refl, _)
  find-Holds key (suc n) i items h =
      let (x, there) = entry_in items i (omega (arith, h)) in
      let (r, runs, held) = find-Holds key n (suc i) items (omega (arith, h)) in
      let step = find-step key n i items x there in
      elim (Bool-cases (holds key x)) [
        | inl y ↦ (
          some i,
          step ∙ ap (λ b. if b then some (some i) else find n (suc i) key items) y,
          (x, there, y),
        )
        | inr f ↦ (
          r,
          step ∙ ap (λ b. if b then some (some i) else find n (suc i) key items) f ∙ runs,
          held,
        )
      ]

  -- The value that a read returns.
  abbrev pub value_of : Option (NWaysCache V × Option V) → Option (Option V)
  value_of none = none
  value_of (some (after, found)) = some found

  value-found :
      (key : ℕ) (c : NWaysCache V) (p : ℕ) (e : Slot V)
      → 0 < c.numsets
      → find c.nways (position key c) key c.items ≡ some (some p)
      → entry_at c.items p ≡ some e
      → value_of (get key c) ≡ some (some e.content)
  value-found key c p e some_set found here =
      let (after, read) = get-found key c p e some_set found here in ap value_of read

  value-missing :
      (key : ℕ) (c : NWaysCache V)
      → 0 < c.numsets
      → find c.nways (position key c) key c.items ≡ some none
      → value_of (get key c) ≡ some none
  unfolding get
  value-missing key c some_set found =
      let apart : (c.numsets == 0) ≡ false = ground (arith, some_set) in rw (apart, found) refl

  other-holds :
      (key other : ℕ) (new : V) (now : ℕ) (e : Slot V)
      → other ≢ key
      → holds other (entry_of key new now e) ≡ false
  unfolding holds
  other-holds key other new now e apart = ground (arith, apart)

  value-place :
      (key other : ℕ) (new : V) (c : NWaysCache V) (q : ℕ) (e : Slot V)
      → IsValid c
      → entry_at c.items q ≡ some e
      → other ≢ key
      → holds other e ≡ false
      → value_of (get other (store_at key new q c)) ≡ value_of (get other c)
  unfolding place
  value-place key other new c q e valid here apart free =
      let f = entry_of key new (next_tick key c) in
      let fits = set-fits other c valid in
      let (r, runs, held) = find-Holds other c.nways (position other c) c.items fits in
      let kept : find c.nways (position other c) other (modify_at f q c.items) ≡ some r =
        find-kept other c.nways (position other c) q c.items f e here free
          (other-holds key other new (next_tick key c) e apart) fits
        ∙ runs in
      elim r
          as (λ r.
            find c.nways (position other c) other c.items ≡ some r
            → find c.nways (position other c) other (modify_at f q c.items) ≡ some r
            → Holds other c.items r
            → value_of (get other (store_at key new q c)) ≡ value_of (get other c)) [
              | none ↦ λ ran again held.
                  value-missing other (store_at key new q c) valid.sets again
                  ∙ sym (value-missing other c valid.sets ran)
              | some p ↦ λ ran again (x, there, y).
                  let elsewhere : q ≢ p = λ z.
                    let same : x ≡ e = same_entry c.items q p x e z there here in
                    let clash : true ≡ false = sym y ∙ ap (λ s. holds other s) same ∙ free in cc in
                  value-found other (store_at key new q c) p x valid.sets again
                    (entry_at-modify_at_other f q p c.items elsewhere ∙ there)
                  ∙ sym (value-found other c p x valid.sets ran there)
            ]
        runs kept held

  -- In a valid n-ways cache whose ticker for the set of a key is not at its end, Set of the key
  -- leaves the value that Get returns for another key as it is, unless the other key was held at
  -- the entry that Set wrote to.
  pub get-set_other :
      (key other : ℕ) (new : V) (c after : NWaysCache V) (old : Slot V) (evicted : Bool)
      → IsValid c
      → c.tickers (set_index key c) + 1 < 2 ^ 64
      → set key new c ≡ some (after, old, evicted)
      → other ≢ key
      → holds other old ≡ false
      → value_of (get other after) ≡ value_of (get other c)
  get-set_other key other new c after old evicted valid bound ran apart free =
      let (q, e, dropped, (low, high, before, here, made)) = set-Writes key new c valid bound in
      let same : some (store_at key new q c, e, dropped) ≡ some (after, old, evicted) =
        sym made ∙ ran in
      let same_after : store_at key new q c ≡ after = cc in
      let same_old : e ≡ old = cc in
      subst (λ a. value_of (get other a) ≡ value_of (get other c)) same_after
        (value-place key other new c q e valid here apart (ap (λ s. holds other s) same_old ∙ free))

  in_time-place :
      (key : ℕ) (new : V) (c : NWaysCache V) (q : ℕ) (e : Slot V)
      → IsValid c
      → c.tickers (set_index key c) + 1 < 2 ^ 64
      → position key c ≤ q
      → q < position key c + c.nways
      → entry_at c.items q ≡ some e
      → (other j : ℕ) (x : Slot V) → position other c ≤ j
      → j < position other c + c.nways
      → entry_at (modify_at (entry_of key new (next_tick key c)) q c.items) j ≡ some x
      → x.used ≤ (tick key c).tickers (set_index other c)
  in_time-place key new c q e valid bound low high here other j x from to seen =
      let f = entry_of key new (next_tick key c) in
      let unmoved : q ≢ j → x.used ≤ c.tickers (set_index other c) = λ apart.
        valid.in_time other j x from to
          (sym (entry_at-modify_at_other f q j c.items apart) ∙ seen) in
      elim (Bool-cases (other % c.numsets == key % c.numsets)) [
        | inl y ↦
            let same : other % c.numsets ≡ key % c.numsets = ground (arith, y) in
            elim (Bool-cases (q == j)) [
              | inl z ↦
                  let written : x ≡ f e =
                    same_entry (modify_at f q c.items) q j x (f e) (ground (arith, z)) seen
                      (entry_at-modify_at_same f q c.items e here) in
                  let used : x.used ≡ next_tick key c = ap (λ s. s.used) written in
                  ground (arith, used, same)
              | inr z ↦
                  let early : x.used ≤ c.tickers (set_index key c) =
                    subst (λ r. x.used ≤ c.tickers (r * 8)) same
                      (unmoved (λ w. ground (arith, z, w))) in
                  ground (arith, early, same, bound)
            ]
        | inr z ↦
            let apart : key % c.numsets ≢ other % c.numsets = λ w. ground (arith, z, w) in
            let early = unmoved (
              sets-apart (key % c.numsets) (other % c.numsets) c.nways q j apart low high from
                to) in
            ground (arith, early, z)
      ]

  -- In a valid n-ways cache whose ticker for the set of a key is not at its end, Set of the key
  -- leaves a valid cache, in which no entry of any set was used after the ticker of the set, with
  -- as many sets, ways and entries as before.
  pub set-IsValid :
      (key : ℕ) (new : V) (c after : NWaysCache V) (old : Slot V) (evicted : Bool)
      → IsValid c
      → c.tickers (set_index key c) + 1 < 2 ^ 64
      → set key new c ≡ some (after, old, evicted)
      → IsValid after
        × (after.numsets ≡ c.numsets)
        × (after.nways ≡ c.nways)
        × (length after.items ≡ length c.items)
  unfolding place
  set-IsValid key new c after old evicted valid bound ran =
      let (q, e, dropped, (low, high, before, here, made)) = set-Writes key new c valid bound in
      let same : some (store_at key new q c, e, dropped) ≡ some (after, old, evicted) =
        sym made ∙ ran in
      let same_after : store_at key new q c ≡ after = cc in
      let same_size = length-modify_at (entry_of key new (next_tick key c)) q c.items in
      subst
        (λ a.
          IsValid a
          × (a.numsets ≡ c.numsets)
          × (a.nways ≡ c.nways)
          × (length a.items ≡ length c.items))
        same_after
        (
          record {
            sets = valid.sets;
            ways = valid.ways;
            size = same_size ∙ valid.size;
            in_time = in_time-place key new c q e valid bound low high here;
          },
          refl,
          refl,
          same_size,
        )
