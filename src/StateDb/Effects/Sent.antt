-- ===== src/StateDb/Effects/Sent.antt =====
-- The loops of EndBlock in go/state/state_db.go seen as filters over a map, and what the entries that
-- they send make of the values that the state holds.
use carmen.Prelude.{
  ◌≡◌, refl, sym, ap, ◌∙◌, ◌⊎◌, inl, inr, none, some, List, [], ◌∷◌, Bool, true, false,
  if◌then◌else◌, Bool-cases, Comparable, ◌==◌, ◌||◌,
}
use carmen.Prelude.Map.{Map, lookup, equal_refl}

-- No key of a map occurs twice.
abbrev pub IsDistinct {ℓ κ} : {K : Type ℓ} {E : Type κ} → ⦃c : Comparable K⦄ → Map K E → Type κ
IsDistinct [] = Unit
IsDistinct ((k, e) ∷ m) = (lookup k m ≡ none) × IsDistinct m

-- The values after one of them has been replaced.
abbrev pub replaced {ℓ κ} : {K : Type ℓ} {W : Type κ} → ⦃c : Comparable K⦄ → K → W → (K → W) → K → W
replaced k w held j = if k == j then w else held j

-- The values after a list of updates has been applied in its order.
abbrev pub after {ℓ κ μ} :
    {K : Type ℓ} {W : Type κ} {U : Type μ}
    → ⦃c : Comparable K⦄ → (U → K)
    → (U → W)
    → List U
    → (K → W)
    → K
    → W
after key value [] held = held
after key value (u ∷ us) held = after key value us (replaced (key u) (value u) held)

-- Some update of the list is for the key.
abbrev pub mentions {ℓ μ} :
    {K : Type ℓ} {U : Type μ} → ⦃c : Comparable K⦄ → (U → K) → K → List U → Bool
mentions key k [] = false
mentions key k (u ∷ us) = key u == k || mentions key k us

module _ {ℓ κ} {K : Type ℓ} {E : Type κ} ⦃c : Comparable K⦄ where
  -- An entry that is found is the first one, or is under another key.
  pub lookup-first :
      (i k : K) (x e : E) (m : Map K E) → lookup k ((i, x) ∷ m) ≡ some e → (i == k) ≡ true → x ≡ e
  unfolding lookup
  lookup-first i k x e m h y = let q : some x ≡ some e = rw y at h in cc

  pub lookup-later :
      (i k : K) (x : E) (m : Map K E) → (i == k) ≡ false → lookup k ((i, x) ∷ m) ≡ lookup k m
  unfolding lookup
  lookup-later i k x m f = rw f refl

module _ {ℓ κ μ ν} {K : Type ℓ} {E : Type κ} {U : Type μ} {W : Type ν} ⦃c : Comparable K⦄
    (key : U → K) (value : U → W) (keep : K → E → Bool) (make : K → E → U)
    (same_key : (k : K) (e : E) → key (make k e) ≡ k) where
  abbrev pub sent : Map K E → List U
  sent [] = []
  sent ((k, e) ∷ m) = let rest = sent m in if keep k e then make k e ∷ rest else rest

  -- The values after one entry.
  abbrev pub step : K → E → (K → W) → K → W
  step i x held = if keep i x then replaced i (value (make i x)) held else held

  pub after-step :
      (i : K) (x : E) (m : Map K E) (held : K → W) (k : K)
      → after key value (sent ((i, x) ∷ m)) held k ≡ after key value (sent m) (step i x held) k
  after-step i x m held k = elim (Bool-cases (keep i x)) [
    | inl y ↦
        rw y
          (ap (λ j. after key value (sent m) (replaced j (value (make i x)) held) k) (same_key i x))
    | inr f ↦ rw f refl
  ]

  pub step-other : (i k : K) (x : E) (held : K → W) → (i == k) ≡ false → step i x held k ≡ held k
  step-other i k x held f = elim (Bool-cases (keep i x)) [
    | inl y ↦ rw (y, f) refl
    | inr n ↦ rw n refl
  ]

  found-none :
      (i k : K) (x : E) (m : Map K E)
      → lookup k ((i, x) ∷ m) ≡ none
      → ((i == k) ≡ false) × (lookup k m ≡ none)
  unfolding lookup
  found-none i k x m h = elim (Bool-cases (i == k)) [
    | inl y ↦ let q : some x ≡ none = rw y at h in cc
    | inr f ↦ (f, rw f at h)
  ]

  pub after-absent :
      (m : Map K E) (held : K → W) (k : K)
      → lookup k m ≡ none
      → after key value (sent m) held k ≡ held k
  after-absent [] held k h = refl
  after-absent ((i, x) ∷ m) held k h =
      let (f, later) = found-none i k x m h in
      after-step i x m held k ∙ after-absent m (step i x held) k later ∙ step-other i k x held f

  pub after-present :
      (m : Map K E) (held : K → W) (k : K) (e : E)
      → IsDistinct m
      → lookup k m ≡ some e
      → after key value (sent m) held k ≡ (if keep k e then value (make k e) else held k)
  unfolding lookup
  after-present [] held k e d h = cc
  after-present ((i, x) ∷ m) held k e (fresh, d) h = elim (Bool-cases (i == k)) [
    | inl y ↦
        let same : i ≡ k = (c.equal_iff i k).0 y in
        let first : x ≡ e = lookup-first i k x e m h y in
        after-step i x m held k
        ∙ after-absent m (step i x held) k (ap (λ j. lookup j m) (sym same) ∙ fresh)
        ∙ rw (← same, ← first)
            (elim (Bool-cases (keep i x)) [ inl t ↦ rw (t, equal_refl i) refl | inr t ↦ rw t refl ])
    | inr f ↦
        after-step i x m held k
        ∙ after-present m (step i x held) k e d (sym (lookup-later i k x m f) ∙ h)
        ∙ ap (λ w. if keep k e then value (make k e) else w) (step-other i k x held f)
  ]

  mentions-head :
      (u : U) (us : List U) (i k : K)
      → key u ≡ i
      → mentions key k (u ∷ us) ≡ true
      → ((i == k) ≡ true) ⊎ (mentions key k us ≡ true)
  mentions-head u us i k same h = elim (Bool-cases (i == k)) [
    | inl y ↦ inl y
    | inr f ↦ let other : (key u == k) ≡ false = ap (λ j. j == k) same ∙ f in inr (rw other at h)
  ]

  mentions-first :
      (i k : K) (x : E) (m : Map K E)
      → mentions key k (sent ((i, x) ∷ m)) ≡ true
      → (((i == k) ≡ true) × (keep i x ≡ true)) ⊎ (mentions key k (sent m) ≡ true)
  mentions-first i k x m h = elim (Bool-cases (keep i x)) [
    | inl t ↦ elim (mentions-head (make i x) (sent m) i k (same_key i x) (rw t at h)) [
      | inl y ↦ inl (y, t)
      | inr later ↦ inr later
    ]
    | inr t ↦ inr (rw t at h)
  ]

  found-later :
      (i k : K) (x e : E) (m : Map K E)
      → lookup i m ≡ none
      → lookup k m ≡ some e
      → lookup k ((i, x) ∷ m) ≡ some e
  found-later i k x e m fresh found = elim (Bool-cases (i == k)) [
    | inl y ↦
        let clash : none ≡ some e =
          sym fresh ∙ ap (λ j. lookup j m) ((c.equal_iff i k).0 y) ∙ found in
        cc
    | inr f ↦ lookup-later i k x m f ∙ found
  ]

  found-here : (i k : K) (x : E) (m : Map K E) → (i == k) ≡ true → lookup k ((i, x) ∷ m) ≡ some x
  unfolding lookup
  found-here i k x m y = rw y refl

  -- An update is sent for a key only if its entry is kept.
  pub mentions-kept :
      (m : Map K E) (k : K)
      → IsDistinct m
      → mentions key k (sent m) ≡ true
      → (e : E) × (lookup k m ≡ some e) × (keep k e ≡ true)
  mentions-kept [] k d h = cc
  mentions-kept ((i, x) ∷ m) k (fresh, d) h = elim (mentions-first i k x m h) [
    | inl (y, t) ↦ (x, found-here i k x m y, ap (λ j. keep j x) (sym ((c.equal_iff i k).0 y)) ∙ t)
    | inr g ↦
        let (e, found, kept) = mentions-kept m k d g in (e, found-later i k x e m fresh found, kept)
  ]
