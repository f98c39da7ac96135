-- ===== src/FastMap/Lookup.antt =====
-- A read after a write of common/fast_map.go.
use carmen.Prelude.{
  ℕ, zero, suc, ◌<◌, ◌≡◌, refl, sym, ap, ap₂, subst, ◌∙◌, List, [], ◌∷◌, ◌++◌, true, if◌then◌else◌,
  Comparable, ◌==◌, comparable_nat, length, length-append, Option, none, some, is_some, arith,
  Bool-cases, Option-cases, inl, inr,
}
use carmen.Prelude.Map.{equal_refl}
use carmen.FastMap.{
  FastMap, Entry, FmPtr, to_ptr, to_pos, entry_at, modify_at, find, find_in, get, put, add_entry,
  use_bucket, start,
}

same_some : {q p : ℕ} → some q ≡ some p → q ≡ p
same_some h = cc

entry_at-append {ℓ} :
    {A : Type ℓ} (xs : List A) (x : A) → entry_at (xs ++ x ∷ []) (length xs) ≡ some x
entry_at-append [] x = refl
entry_at-append (y ∷ xs) x = entry_at-append xs x

to_pos-to_ptr :
    (generation position : ℕ)
    → generation < 65536
    → to_pos generation (to_ptr generation position) ≡ some position
unfolding to_pos to_ptr
to_pos-to_ptr generation position h = ground arith

entry_at-modify_at {ℓ} :
    {A : Type ℓ} (f : A → A) (p : ℕ) (xs : List A) (e : A)
    → entry_at xs p ≡ some e
    → entry_at (modify_at f p xs) p ≡ some (f e)
entry_at-modify_at f p [] e h = cc
entry_at-modify_at f zero (x ∷ xs) e h = cc
entry_at-modify_at f (suc p) (x ∷ xs) e h = entry_at-modify_at f p xs e h

module _ {ℓ κ} {K : Type ℓ} {V : Type κ} ⦃c : Comparable K⦄ where
  -- The part of an entry that a walk along a chain looks at.
  abbrev link : Option (Entry K V) → Option (K × Option ℕ)
  link none = none
  link (some e) = some (e.key, e.next)

  abbrev write : V → Entry K V → Entry K V
  write v e = record e { value = v }

  link-modify_at :
      (v : V) (p q : ℕ) (xs : List (Entry K V))
      → link (entry_at (modify_at (write v) p xs) q) ≡ link (entry_at xs q)
  link-modify_at v p q [] = refl
  link-modify_at v zero zero (x ∷ xs) = refl
  link-modify_at v zero (suc q) (x ∷ xs) = refl
  link-modify_at v (suc p) zero (x ∷ xs) = refl
  link-modify_at v (suc p) (suc q) (x ∷ xs) = link-modify_at v p q xs

  walk : K → ℕ → (FmPtr → Option ℕ) → Option (Entry K V) → Option ℕ
  walk key q further none = none
  walk key q further (some e) = if e.key == key then some q else further e.next

  find-walk :
      (n g : ℕ) (key : K) (xs : List (Entry K V)) (q : ℕ)
      → find (suc n) g key xs (some q)
        ≡ walk key q (λ r. find n g key xs (to_pos g r)) (entry_at xs q)
  unfolding find walk
  find-walk n g key xs q =
      elim (entry_at xs q)
        as (λ o.
          elim o [
            | none ↦ none
            | some e ↦ if e.key == key then some q else find n g key xs (to_pos g e.next)
          ]
          ≡ walk key q (λ r. find n g key xs (to_pos g r)) o) [ none ↦ refl | some e ↦ refl ]

  walk-link :
      (key : K) (q : ℕ) (f f' : FmPtr → Option ℕ) (o o' : Option (Entry K V))
      → ((r : FmPtr) → f r ≡ f' r)
      → link o ≡ link o'
      → walk key q f o ≡ walk key q f' o'
  unfolding walk
  walk-link key q f f' none none h e = refl
  walk-link key q f f' none (some y) h e = cc
  walk-link key q f f' (some x) none h e = cc
  walk-link key q f f' (some x) (some y) h e =
      let k : x.key ≡ y.key = cc in let n : x.next ≡ y.next = cc in rw (k, n, h y.next) refl

  walk-entry :
      (key : K) (q p : ℕ) (f : FmPtr → Option ℕ) (P : ℕ → Type 0) (o : Option (Entry K V))
      → (is_some o ≡ true → P q)
      → ((r : FmPtr) → f r ≡ some p → P p)
      → walk key q f o ≡ some p
      → P p
  unfolding walk
  walk-entry key q p f P none here there h = cc
  walk-entry key q p f P (some e) here there h = elim (Bool-cases (e.key == key)) [
    | inl same ↦
        let here_eq : some q ≡ some p = rw same at h in subst P (same_some here_eq) (here refl)
    | inr other ↦ there e.next (rw other at h)
  ]

  find-modify_at :
      (v : V) (p n g : ℕ) (key : K) (xs : List (Entry K V)) (cur : Option ℕ)
      → find n g key (modify_at (write v) p xs) cur ≡ find n g key xs cur
  unfolding find
  find-modify_at v p zero g key xs cur = refl
  find-modify_at v p (suc n) g key xs none = refl
  find-modify_at v p (suc n) g key xs (some q) =
      find-walk n g key (modify_at (write v) p xs) q
      ∙ walk-link key q _ _ (entry_at (modify_at (write v) p xs) q) (entry_at xs q)
          (λ r. find-modify_at v p n g key xs (to_pos g r)) (link-modify_at v p q xs)
      ∙ sym (find-walk n g key xs q)

  find-entry :
      (n g : ℕ) (key : K) (xs : List (Entry K V)) (cur : Option ℕ) (p : ℕ)
      → find n g key xs cur ≡ some p
      → is_some (entry_at xs p) ≡ true
  unfolding find
  find-entry zero g key xs cur p h = cc
  find-entry (suc n) g key xs none p h = cc
  find-entry (suc n) g key xs (some q) p h =
      walk-entry key q p (λ r. find n g key xs (to_pos g r)) (λ i. is_some (entry_at xs i) ≡ true)
        (entry_at xs q) (λ i. i) (λ r e. find-entry n g key xs (to_pos g r) p e)
        (sym (find-walk n g key xs q) ∙ h)

  length-modify_at :
      (f : Entry K V → Entry K V) (p : ℕ) (xs : List (Entry K V))
      → length (modify_at f p xs) ≡ length xs
  length-modify_at f p [] = refl
  length-modify_at f zero (x ∷ xs) = refl
  length-modify_at f (suc p) (x ∷ xs) = ap (λ n. suc n) (length-modify_at f p xs)

  get-found :
      (key : K) (m : FastMap K V) (p : ℕ) (e : Entry K V)
      → find_in key m ≡ some p
      → entry_at m.slots p ≡ some e
      → get key m ≡ some e.value
  unfolding get
  get-found key m p e h k =
      ap
        (λ (o : Option ℕ). elim o as (λ x. Option V) [
          | none ↦ none
          | some q ↦ elim (entry_at m.slots q) as (λ x. Option V) [
            | none ↦ none
            | some e' ↦ some e'.value
          ]
        ])
        h
      ∙ ap
          (λ (o : Option (Entry K V)). elim o as (λ x. Option V) [
            | none ↦ none
            | some e' ↦ some e'.value
          ])
          k

  entry_of : (o : Option (Entry K V)) → is_some o ≡ true → (e : Entry K V) × (o ≡ some e)
  entry_of none h = cc
  entry_of (some e) h = (e, refl)

  -- The map after a write of a key that it has, but for the list of used buckets.
  abbrev overwritten : V → ℕ → FastMap K V → FastMap K V
  overwritten v p m = record m { slots = modify_at (write v) p m.slots }

  get-overwritten :
      (key : K) (v : V) (p : ℕ) (m : FastMap K V)
      → find_in key m ≡ some p
      → get key (overwritten v p m) ≡ some v
  unfolding find_in
  get-overwritten key v p m h =
      let (e, found) =
        entry_of (entry_at m.slots p)
          (find-entry (length m.slots) m.generation key m.slots (start key m) p h) in
      get-found key (overwritten v p m) p (write v e)
        (ap (λ n. find n m.generation key (modify_at (write v) p m.slots) (start key m))
            (length-modify_at (write v) p m.slots)
          ∙ find-modify_at v p (length m.slots) m.generation key m.slots (start key m)
          ∙ h)
        (entry_at-modify_at (write v) p m.slots e found)

  start-add_entry :
      (key : K) (v : V) (m : FastMap K V)
      → m.generation < 65536
      → start key (add_entry key v m) ≡ some (length m.slots)
  unfolding add_entry
  start-add_entry key v m h =
      rw (equal_refl (m.hasher key)) (to_pos-to_ptr m.generation (length m.slots) h)

  walk-found :
      (key : K) (q : ℕ) (f : FmPtr → Option ℕ) (e : Entry K V)
      → (e.key == key) ≡ true
      → walk key q f (some e) ≡ some q
  unfolding walk
  walk-found key q f e h = rw h refl

  get-add_entry :
      (key : K) (v : V) (m : FastMap K V)
      → m.generation < 65536
      → get key (add_entry key v m) ≡ some v
  unfolding find_in add_entry
  get-add_entry key v m h =
      let e : Entry K V = record { key = key; value = v; next = m.buckets (m.hasher key) } in
      let there : entry_at (m.slots ++ e ∷ []) (length m.slots) ≡ some e =
        entry_at-append m.slots e in
      let size : length (m.slots ++ e ∷ []) ≡ suc (length m.slots) =
        omega (arith, length-append m.slots (e ∷ [])) in
      get-found key (add_entry key v m) (length m.slots) e
        (ap₂ (λ n cur. find n m.generation key (m.slots ++ e ∷ []) cur) size
            (start-add_entry key v m h)
          ∙ find-walk (length m.slots) m.generation key (m.slots ++ e ∷ []) (length m.slots)
          ∙ ap (walk key (length m.slots) _) there
          ∙ walk-found key (length m.slots) _ e (equal_refl key))
        there

  use_bucket-eq :
      (key : K) (m : FastMap K V)
      → (used : List ℕ) × (use_bucket key m ≡ record m { used_buckets = used })
  unfolding use_bucket
  use_bucket-eq key m = elim (Bool-cases (is_some (start key m))) [
    | inl busy ↦ (m.used_buckets, rw busy refl)
    | inr fresh ↦ (m.used_buckets ++ m.hasher key ∷ [], rw fresh refl)
  ]

  put-eq :
      (key : K) (value : V) (m : FastMap K V) (o : Option ℕ)
      → find_in key m ≡ o
      → put key value m ≡ elim o as (λ x. FastMap K V) [
        | some p ↦ record (use_bucket key m) { slots = modify_at (write value) p m.slots }
        | none ↦ add_entry key value (use_bucket key m)
      ]
  unfolding put
  put-eq key value m o h =
      ap
        (λ (o : Option ℕ). elim o as (λ x. FastMap K V) [
          | some p ↦ record (use_bucket key m) {
            slots = modify_at (λ e. record e { value = value }) p m.slots;
          }
          | none ↦ add_entry key value (use_bucket key m)
        ])
        h

  find_in-used :
      (key : K) (m : FastMap K V) (used : List ℕ)
      → find_in key (record m { used_buckets = used }) ≡ find_in key m
  unfolding find_in
  find_in-used key m used = refl

  -- With a generation below 2^16, Get after Put of the same key returns the value, whether the key
  -- was there or not.
  pub get-put :
      (key : K) (value : V) (m : FastMap K V)
      → m.generation < 65536
      → get key (put key value m) ≡ some value
  get-put key value m h =
      let (used, e) = use_bucket-eq key m in
      let m' : FastMap K V = record m { used_buckets = used } in
      elim (Option-cases (find_in key m)) [
        | inl missing ↦
            ap (get key) (put-eq key value m none missing ∙ ap (add_entry key value) e)
            ∙ get-add_entry key value m' h
        | inr (p, found) ↦
            ap (get key) (
              put-eq key value m (some p) found
              ∙ ap (λ (x : FastMap K V). record x { slots = modify_at (write value) p m.slots }) e)
            ∙ get-overwritten key value p m' (find_in-used key m used ∙ found)
      ]
