-- ===== src/NWays/Scan.antt =====
-- Where the loops of common/nways_cache.go end.
use carmen.Prelude.{
  ℕ, zero, suc, ◌+◌, ◌<◌, ◌≤◌, ◌≡◌, ◌≢◌, refl, List, [], ◌∷◌, Bool, true, false, if◌then◌else◌, ltb,
  ◌==◌, ◌⊎◌, comparable_nat, length, Option, none, some, arith, Bool-cases, inl, inr, ap, ◌∙◌,
  subst, sym,
}
use carmen.FastMap.{entry_at, modify_at}
use carmen.NWays.{Slot, Spot, serves, oldest, scan, find, holds}

pub entry_in {ℓ} :
    {A : Type ℓ} (xs : List A) (i : ℕ) → i < length xs → (e : A) × (entry_at xs i ≡ some e)
entry_in [] i h = absurd (omega (arith, h))
entry_in (x ∷ xs) zero h = (x, refl)
entry_in (x ∷ xs) (suc i) h = entry_in xs i (omega (arith, h))

pub entry_at-modify_at_other {ℓ} :
    {A : Type ℓ} (f : A → A) (p j : ℕ) (xs : List A)
    → p ≢ j
    → entry_at (modify_at f p xs) j ≡ entry_at xs j
entry_at-modify_at_other f p j [] h = refl
entry_at-modify_at_other f zero zero (x ∷ xs) h = absurd (h refl)
entry_at-modify_at_other f zero (suc j) (x ∷ xs) h = refl
entry_at-modify_at_other f (suc p) zero (x ∷ xs) h = refl
entry_at-modify_at_other f (suc p) (suc j) (x ∷ xs) h =
    entry_at-modify_at_other f p j xs (λ e. h (ap suc e))

pub entry_at-modify_at_same {ℓ} :
    {A : Type ℓ} (f : A → A) (p : ℕ) (xs : List A) (e : A)
    → entry_at xs p ≡ some e
    → entry_at (modify_at f p xs) p ≡ some (f e)
entry_at-modify_at_same f p [] e h = cc
entry_at-modify_at_same f zero (x ∷ xs) e h = cc
entry_at-modify_at_same f (suc p) (x ∷ xs) e h = entry_at-modify_at_same f p xs e h

pub length-modify_at {ℓ} :
    {A : Type ℓ} (f : A → A) (p : ℕ) (xs : List A) → length (modify_at f p xs) ≡ length xs
length-modify_at f p [] = refl
length-modify_at f zero (x ∷ xs) = refl
length-modify_at f (suc p) (x ∷ xs) = ap suc (length-modify_at f p xs)

same_some {ℓ} : {A : Type ℓ} {x y : A} → some x ≡ some y → x ≡ y
same_some h = cc

pub same_entry {ℓ} :
    {A : Type ℓ} (xs : List A) (i j : ℕ) (x y : A)
    → i ≡ j
    → entry_at xs j ≡ some x
    → entry_at xs i ≡ some y
    → x ≡ y
same_entry xs i j x y e f g = same_some (sym f ∙ ap (λ k. entry_at xs k) (sym e) ∙ g)

module _ {ℓ} {V : Type ℓ} where
  -- No entry from one index to another passes the test.
  abbrev pub Fails : (Slot V → Bool) → List (Slot V) → ℕ → ℕ → Type ℓ
  Fails stop items i q =
      (j : ℕ) → i ≤ j → j < q → (e : Slot V) → entry_at items j ≡ some e → stop e ≡ false

  abbrev pub Ends : (Slot V → Bool) → ℕ → ℕ → List (Slot V) → ℕ → Spot → Type ℓ
  Ends stop n i items at (serves q) = (i ≤ q) × (q < i + n) × Fails stop items i q
  Ends stop n i items at (oldest q) =
      ((q ≡ at) ⊎ ((i ≤ q) × (q < i + n))) × Fails stop items i (i + n)

  Fails-earlier :
      (stop : Slot V → Bool) (items : List (Slot V)) (i q : ℕ) (e : Slot V)
      → entry_at items i ≡ some e
      → stop e ≡ false
      → Fails stop items (suc i) q
      → Fails stop items i q
  Fails-earlier stop items i q e at stays later j low high x seen = elim (Bool-cases (i == j)) [
    | inl y ↦ ap stop (same_entry items i j x e (ground arith) seen at) ∙ stays
    | inr f ↦ later j (ground arith) high x seen
  ]

  Ends-earlier :
      (stop : Slot V → Bool) (n i : ℕ) (items : List (Slot V)) (at : ℕ) (e : Slot V) (q : Spot)
      → entry_at items i ≡ some e
      → stop e ≡ false
      → (at' : ℕ) → (at' ≡ at) ⊎ (at' ≡ i)
      → Ends stop n (suc i) items at' q
      → Ends stop (suc n) i items at q
  Ends-earlier stop n i items at e (serves q) here stays at' t (low, high, later) =
      (ground arith, ground arith, Fails-earlier stop items i q e here stays later)
  Ends-earlier stop n i items at e (oldest q) here stays at' t (place, later) = (
    elim place [
      | inr (low, high) ↦ inr (ground arith, omega (arith, high))
      | inl y ↦ elim t [
        | inl z ↦ inl (y ∙ z)
        | inr z ↦ inr (ground (arith, y, z), ground (arith, y, z))
      ]
    ],
    Fails-earlier stop items i (i + suc n) e here stays
        (λ j low high. later j low (omega (arith, high))),
  )

  scan-step :
      (stop : Slot V → Bool) (n i : ℕ) (items : List (Slot V)) (first at : ℕ) (e : Slot V)
      → entry_at items i ≡ some e
      → scan stop (suc n) i items first at ≡ (
          if stop e
          then some (serves i)
          else if ltb e.used first
          then scan stop n (suc i) items e.used i
          else scan stop n (suc i) items first at)
  unfolding scan
  scan-step stop n i items first at e here =
      let rest : Slot V → Option Spot = λ x.
        if stop x
        then some (serves i)
        else if ltb x.used first
        then scan stop n (suc i) items x.used i
        else scan stop n (suc i) items first at in
      subst (λ o. elim o [ none ↦ none | some x ↦ rest x ] ≡ rest e) (sym here) refl

  -- The scan of a set ends, at an entry that serves or at the first index or one of the set.
  pub scan-Ends :
      (stop : Slot V → Bool) (n i : ℕ) (items : List (Slot V)) (first at : ℕ)
      → i + n ≤ length items
      → (q : Spot) × (scan stop n i items first at ≡ some q) × Ends stop n i items at q
  unfolding scan
  scan-Ends stop zero i items first at h =
      (oldest at, refl, (inl refl, λ j low high x seen. absurd (omega (arith, low, high))))
  scan-Ends stop (suc n) i items first at h =
      let (e, here) = entry_in items i (omega (arith, h)) in
      let (p, p_runs, p_ends) = scan-Ends stop n (suc i) items first at (omega (arith, h)) in
      let (r, r_runs, r_ends) = scan-Ends stop n (suc i) items e.used i (omega (arith, h)) in
      let step = scan-step stop n i items first at e here in
      elim (Bool-cases (stop e)) [
        | inl y ↦ (
          serves i,
          step ∙ rw y refl,
          (omega arith, omega arith, λ j low high x seen. absurd (omega (arith, low, high))),
        )
        | inr stays ↦ elim (Bool-cases (ltb e.used first)) [
          | inl y ↦ (
            r,
            step ∙ rw (stays, y) r_runs,
            Ends-earlier stop n i items at e r here stays i (inr refl) r_ends,
          )
          | inr f ↦ (
            p,
            step ∙ rw (stays, f) p_runs,
            Ends-earlier stop n i items at e p here stays at (inl refl) p_ends,
          )
        ]
      ]

  pub find-step :
      (key n i : ℕ) (items : List (Slot V)) (e : Slot V)
      → entry_at items i ≡ some e
      → find (suc n) i key items ≡ (if holds key e then some (some i) else find n (suc i) key items)
  unfolding find
  find-step key n i items e here =
      let rest : Slot V → Option (Option ℕ) =
        λ x. if holds key x then some (some i) else find n (suc i) key items in
      subst (λ o. elim o [ none ↦ none | some x ↦ rest x ] ≡ rest e) (sym here) refl

  -- The loop of Get finds the first entry that passes.
  pub find-first :
      (key n i q : ℕ) (items : List (Slot V)) (e : Slot V)
      → i ≤ q
      → q < i + n
      → Fails (holds key) items i q
      → entry_at items q ≡ some e
      → holds key e ≡ true
      → i + n ≤ length items
      → find n i key items ≡ some (some q)
  find-first key zero i q items e low high before here meets h = absurd (omega (arith, low, high))
  find-first key (suc n) i q items e low high before here meets h =
      let (x, there) = entry_in items i (omega (arith, h)) in
      let step = find-step key n i items x there in
      elim (Bool-cases (i == q)) [
        | inl y ↦
            let same : i ≡ q = ground arith in
            step
            ∙ rw (subst (λ z. holds key z ≡ true) (same_entry items i q e x same here there) meets)
                (ap (λ z. some (some z)) same)
        | inr f ↦
            step
            ∙ rw (before i (omega arith) (ground arith) x there) (
                find-first key n (suc i) q items e (ground arith) (omega (arith, high))
                  (λ j l g. before j (omega (arith, l)) g) here meets (omega (arith, h)))
      ]

  -- An index of the set, with no entry before it that passes, or in the whole set if it evicts.
  abbrev pub Picks : (Slot V → Bool) → ℕ → ℕ → List (Slot V) → Spot → Type ℓ
  Picks stop n i items (serves q) = (i ≤ q) × (q < i + n) × Fails stop items i q
  Picks stop n i items (oldest q) = (i ≤ q) × (q < i + n) × Fails stop items i (i + n)

  Ends-Picks :
      (stop : Slot V → Bool) (n i : ℕ) (items : List (Slot V)) (q : Spot)
      → 0 < n
      → Ends stop n i items i q
      → Picks stop n i items q
  Ends-Picks stop n i items (serves q) some_way ends = ends
  Ends-Picks stop n i items (oldest q) some_way (inl y, all) =
      (ground (arith, y), ground (arith, y), all)
  Ends-Picks stop n i items (oldest q) some_way (inr (low, high), all) = (low, high, all)

  -- A scan picks an index of the set if the first entry was used before the limit.
  pub scan-Picks :
      (stop : Slot V → Bool) (n i : ℕ) (items : List (Slot V)) (first at : ℕ) (e : Slot V)
      → 0 < n
      → i + n ≤ length items
      → entry_at items i ≡ some e
      → e.used < first
      → (q : Spot) × (scan stop n i items first at ≡ some q) × Picks stop n i items q
  scan-Picks stop zero i items first at e some_way h here used = absurd (omega (arith, some_way))
  scan-Picks stop (suc n) i items first at e some_way h here used =
      let (q, runs, ends) = scan-Ends stop (suc n) i items first i h in
      let early : ltb e.used first ≡ true = ground arith in
      let settled : (a : ℕ)
          → scan stop (suc n) i items first a
            ≡ (if stop e then some (serves i) else scan stop n (suc i) items e.used i) =
        λ a.
          scan-step stop n i items first a e here
          ∙ ap
              (λ b.
                if stop e
                then some (serves i)
                else if b
                then scan stop n (suc i) items e.used i
                else scan stop n (suc i) items first a)
              early in
      (q, settled at ∙ sym (settled i) ∙ runs, Ends-Picks stop (suc n) i items q some_way ends)
