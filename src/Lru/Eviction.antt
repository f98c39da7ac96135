-- ===== src/Lru/Eviction.antt =====
-- The laws of common/lru_cache.go: totality, contents and the order of eviction.
use carmen.Prelude.{
  ℕ, suc, zero, ◌-◌, ◌≤◌, ◌≡◌, refl, ap, ◌∙◌, ◌⊎◌, inl, inr, Option, none, some, List, [], ◌∷◌,
  arith, length, take, Comparable, ◌==◌, leb, Bool-cases, Option-cases,
}
use carmen.Prelude.Map.{lookup, delete, lookup-delete, equal_refl}
use carmen.Lru.{Lru, split_last, drop_last, get, add_front, set}

split_last-take {ℓ} :
    {A : Type ℓ} (x : A) (r : List A) → (split_last x r).0 ≡ take (length r) (x ∷ r)
unfolding split_last
split_last-take x [] = refl
split_last-take x (y ∷ r) = ap (◌∷◌ x) (split_last-take y r)

-- With two entries or more the last one can be dropped.
drop_last-take {ℓ} :
    {A : Type ℓ} (n : ℕ) (l : List A)
    → length l ≡ suc (suc n)
    → (d : A) × (drop_last l ≡ some (take (suc n) l, d))
unfolding drop_last
drop_last-take n [] h = absurd (omega arith)
drop_last-take n (x ∷ []) h = absurd (omega arith)
drop_last-take {A} n (x ∷ y ∷ r) h =
    let d : A = (split_last x (y ∷ r)).1 in
    let size : length (y ∷ r) ≡ suc n = omega arith in
    (
      d,
      ap (λ p. some (p, d)) (split_last-take x (y ∷ r))
          ∙ ap (λ m. some (take m (x ∷ y ∷ r), d)) size,
    )

take-all {ℓ} : {A : Type ℓ} (n : ℕ) (l : List A) → length l ≤ n → take n l ≡ l
take-all zero [] h = refl
take-all zero (x ∷ l) h = absurd (omega arith)
take-all (suc n) [] h = refl
take-all (suc n) (x ∷ l) h = ap (◌∷◌ x) (take-all n l (omega arith))

length-take-le {ℓ} : {A : Type ℓ} (n : ℕ) (l : List A) → length (take n l) ≤ n
length-take-le zero l = omega arith
length-take-le (suc n) [] = omega arith
length-take-le (suc n) (x ∷ l) = omega (arith, length-take-le n l)

module _ {ℓ κ} {K : Type ℓ} {V : Type κ} ⦃e : Comparable K⦄ where
  pub lookup-take :
      (n : ℕ) (j : K) (l : List (K × V)) (w : V)
      → lookup j (take n l) ≡ some w
      → lookup j l ≡ some w
  unfolding lookup
  lookup-take zero j l w h = cc
  lookup-take (suc n) j [] w h = h
  lookup-take (suc n) j ((i, v) ∷ l) w h = ground (arith, lookup-take n j l w)

  delete-absent : (k : K) (l : List (K × V)) → lookup k l ≡ none → delete k l ≡ l
  unfolding lookup delete
  delete-absent k [] h = refl
  delete-absent k ((i, v) ∷ l) h = ground (arith, delete-absent k l)

  length-delete : (k : K) (l : List (K × V)) → length (delete k l) ≤ length l
  unfolding delete
  length-delete k [] = omega arith
  length-delete k ((i, v) ∷ l) = ground (arith, length-delete k l)

  length-delete_found :
      (k : K) (v : V) (l : List (K × V))
      → lookup k l ≡ some v
      → suc (length (delete k l)) ≤ length l
  unfolding lookup delete
  length-delete_found k v [] h = cc
  length-delete_found k v ((i, w) ∷ l) h =
      ground (arith, length-delete k l, length-delete_found k v l)

  -- What the cache holds after a write: the written pair in front, cut to the capacity.
  abbrev pub pushed : K → V → Lru K V → Lru K V
  pushed k v c = record c { entries = take c.capacity ((k, v) ∷ delete k c.entries) }

  pub record IsValid (c : Lru K V) : Type 0 where
    pub roomy : 2 ≤ c.capacity
    pub fits : length c.entries ≤ c.capacity

  add_front_lem :
      (k : K) (v : V) (c : Lru K V) (n : ℕ)
      → c.capacity ≡ suc (suc n)
      → length c.entries ≤ c.capacity
      → lookup k c.entries ≡ none
      → (dropped : Option (K × V)) × (add_front k v c ≡ some (dropped, pushed k v c))
  unfolding add_front
  add_front_lem k v c n cap fits absent = elim (Bool-cases (leb c.capacity (length c.entries))) [
    | inl full ↦
        let (d, dropped) = drop_last-take n c.entries (ground arith) in
        (some d, rw (full, dropped, delete-absent k c.entries absent, cap))
    | inr room ↦ (
      none,
      rw (
        room,
        delete-absent k c.entries absent,
        take-all c.capacity ((k, v) ∷ c.entries) (ground arith),
      ),
    )
  ]

  -- A write to a valid LRU cache puts the pair in front of the other entries, in their order, and
  -- drops the least recently used entry when the capacity is exceeded.
  pub set_lem :
      (k : K) (v : V) (c : Lru K V)
      → IsValid c
      → (dropped : Option (K × V)) × (set k v c ≡ some (dropped, pushed k v c))
  unfolding set
  set_lem k v c h = elim (Option-cases (lookup k c.entries)) [
    | inl absent ↦ rw absent (add_front_lem k v c (c.capacity - 2) (omega arith) h.fits absent)
    | inr (w, found) ↦ (
      none,
      rw (
        found,
        take-all c.capacity ((k, v) ∷ delete k c.entries)
            (omega (arith, h.fits, length-delete_found k w c.entries found)),
      ),
    )
  ]

  pub pushed-IsValid : (k : K) (v : V) (c : Lru K V) → IsValid c → IsValid (pushed k v c)
  pushed-IsValid k v c h = record {
    roomy = h.roomy;
    fits = length-take-le c.capacity ((k, v) ∷ delete k c.entries);
  }

  lookup-front :
      (k j : K) (v w : V) (l : List (K × V))
      → lookup j ((k, v) ∷ delete k l) ≡ some w
      → ((k ≡ j) × (v ≡ w)) ⊎ (lookup j l ≡ some w)
  unfolding lookup
  lookup-front k j v w l h = elim (Bool-cases (k == j)) [
    | inl same ↦ inl ((e.equal_iff k j).0 same, ground arith)
    | inr other ↦ inr (ground (arith, lookup-delete k j l))
  ]

  -- What a written cache finds is what was written, or what it found before.
  pub lookup-pushed :
      (k j : K) (v w : V) (c : Lru K V)
      → lookup j (pushed k v c).entries ≡ some w
      → ((k ≡ j) × (v ≡ w)) ⊎ (lookup j c.entries ≡ some w)
  lookup-pushed k j v w c h =
      lookup-front k j v w c.entries (lookup-take c.capacity j ((k, v) ∷ delete k c.entries) w h)

  -- A read returns what is stored under the key, and changes the order of the entries only.
  pub get-lookup : (k : K) (c : Lru K V) → (get k c).0 ≡ lookup k c.entries
  unfolding get
  get-lookup k c = elim (Option-cases (lookup k c.entries)) [
    | inl none' ↦ rw (none', get)
    | inr (v, found) ↦ rw (found, get)
  ]

  pub get-IsValid : (k : K) (c : Lru K V) → IsValid c → IsValid (get k c).1
  unfolding get
  get-IsValid k c h = elim (Option-cases (lookup k c.entries)) [
    | inl missing ↦ rw (missing, get) h
    | inr (v, found) ↦
        rw (found, get)
          (record {
            roomy = h.roomy;
            fits = omega (arith, h.fits, length-delete_found k v c.entries found);
          })
  ]

  pub lookup-get :
      (k j : K) (w : V) (c : Lru K V)
      → lookup j (get k c).1.entries ≡ some w
      → lookup j c.entries ≡ some w
  unfolding get
  lookup-get k j w c h = elim (Option-cases (lookup k c.entries)) [
    | inl missing ↦ rw (missing, get) at h
    | inr (v, found) ↦ elim (lookup-front k j v w c.entries (rw (found, get) at h)) [
      | inl (same, value) ↦ rw (← same, ← value) found
      | inr before ↦ before
    ]
  ]

  lookup-take_front :
      (n : ℕ) (k : K) (v : V) (l : List (K × V)) → 1 ≤ n → lookup k (take n ((k, v) ∷ l)) ≡ some v
  unfolding lookup
  lookup-take_front zero k v l h = absurd (omega arith)
  lookup-take_front (suc n) k v l h = rw (equal_refl k) refl

  pub lookup-pushed_same :
      (k : K) (v : V) (c : Lru K V) → IsValid c → lookup k (pushed k v c).entries ≡ some v
  lookup-pushed_same k v c h =
      lookup-take_front c.capacity k v (delete k c.entries) (omega (arith, h.roomy))

  -- A write to a valid LRU cache does not panic and keeps it valid; a read of the key gives the
  -- value, and no other value appears.
  pub get-set :
      (k : K) (v : V) (c : Lru K V)
      → IsValid c
      → (dropped : Option (K × V)) × (c' : Lru K V) × (set k v c ≡ some (dropped, c'))
        × IsValid c'
        × ((get k c').0 ≡ some v)
        × ((j : K) (w : V)
            → lookup j c'.entries ≡ some w
            → ((k ≡ j) × (v ≡ w)) ⊎ (lookup j c.entries ≡ some w))
  get-set k v c h =
      let (dropped, e) = set_lem k v c h in
      (
        dropped,
        pushed k v c,
        e,
        pushed-IsValid k v c h,
        get-lookup k (pushed k v c) ∙ lookup-pushed_same k v c h,
        λ j w found. lookup-pushed k j v w c found,
      )
