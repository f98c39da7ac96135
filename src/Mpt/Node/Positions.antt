-- ===== src/Mpt/Node/Positions.antt =====
-- The loop of database/mpt/nodes.go over the children of a branch.
use carmen.Prelude.{
  ℕ, zero, suc, ◌+◌, ◌==◌, comparable_nat, nat_beq_iff, ◌<◌, ◌≤◌, ◌≡◌, ◌≢◌, ◌⊎◌, inl, inr, List, [],
  ◌∷◌, false, arith, Bool-cases, sym, subst, refl,
}
use carmen.Mpt.Node.{Node, is_empty}
use carmen.Mpt.Node.Branch.{indices, positions, range}

abbrev pub Member : ℕ → List ℕ → Type 0
Member i [] = ⊥
Member i (x ∷ xs) = (i ≡ x) ⊎ Member i xs

abbrev pub Ascending : ℕ → List ℕ → Type 0
Ascending least [] = Unit
Ascending least (x ∷ xs) = (least ≤ x) × Ascending (suc x) xs

Ascending-weaken : (a b : ℕ) (xs : List ℕ) → a ≤ b → Ascending b xs → Ascending a xs
Ascending-weaken a b [] h g = g
Ascending-weaken a b (x ∷ xs) h (l, g) = (omega arith, g)

positions-Ascending :
    (children : ℕ → Node) (xs : List ℕ) (least : ℕ)
    → Ascending least xs
    → Ascending least (positions children xs)
unfolding positions
positions-Ascending children [] least g = g
positions-Ascending children (x ∷ xs) least (l, g) =
    let later = positions-Ascending children xs (suc x) g in
    elim (Bool-cases (is_empty (children x))) [
      | inl t ↦ rw t (Ascending-weaken least (suc x) (positions children xs) (omega arith) later)
      | inr f ↦ rw f (l, later)
    ]

positions_complete :
    (children : ℕ → Node) (xs : List ℕ) (i : ℕ)
    → Member i xs
    → is_empty (children i) ≡ false
    → Member i (positions children xs)
unfolding positions
positions_complete children [] i m h = m
positions_complete children (x ∷ xs) i (inl e) h = rw (sym e, h) (inl refl)
positions_complete children (x ∷ xs) i (inr m) h =
    let later = positions_complete children xs i m h in
    elim (Bool-cases (is_empty (children x))) [ inl t ↦ rw t later | inr f ↦ rw f (inr later) ]

positions_sound :
    (children : ℕ → Node) (xs : List ℕ) (i : ℕ)
    → Member i (positions children xs)
    → (is_empty (children i) ≡ false) × Member i xs
unfolding positions
positions_sound children [] i m = absurd m
positions_sound children (x ∷ xs) i m = elim (Bool-cases (is_empty (children x))) [
  | inl t ↦ let below = positions_sound children xs i (rw t at m) in (below.0, inr below.1)
  | inr f ↦
      let either : (i ≡ x) ⊎ Member i (positions children xs) = rw f at m in
      elim either [
        | inl e ↦ (subst (λ j. is_empty (children j) ≡ false) (sym e) f, inl e)
        | inr below ↦ let more = positions_sound children xs i below in (more.0, inr more.1)
      ]
]

range_complete : (i first count : ℕ) → first ≤ i → i < first + count → Member i (range first count)
range_complete i first zero l h = absurd (omega arith)
range_complete i first (suc count) l h =
    let later = range_complete i (suc first) count in
    elim (Bool-cases (i == first)) [
      | inl t ↦ inl (omega (arith, (nat_beq_iff i first).0 t))
      | inr f ↦ inr (later (ground arith) (omega arith))
    ]

range_sound : (i first count : ℕ) → Member i (range first count) → (first ≤ i) × (i < first + count)
range_sound i first zero m = absurd m
range_sound i first (suc count) (inl e) = omega arith
range_sound i first (suc count) (inr m) =
    let later = range_sound i (suc first) count m in omega arith

indices_complete : (i : ℕ) → i < 16 → Member i indices
indices_complete i h = range_complete i 0 16 (omega arith) h

indices_sound : (i : ℕ) → Member i indices → i < 16
indices_sound i m = (range_sound i 0 16 m).1

indices-Ascending : Ascending 0 indices
indices-Ascending = omega arith

-- The loop finds each child that is not empty.
pub position-found :
    (children : ℕ → Node) (ps : List ℕ) (i : ℕ)
    → positions children indices ≡ ps
    → i < 16
    → is_empty (children i) ≡ false
    → Member i ps
position-found children ps i e b h =
    subst (Member i) e (positions_complete children indices i (indices_complete i b) h)

-- What it finds is a child that is not empty.
pub found-position :
    (children : ℕ → Node) (ps : List ℕ) (i : ℕ)
    → positions children indices ≡ ps
    → Member i ps
    → (is_empty (children i) ≡ false) × (i < 16)
found-position children ps i e m =
    let below = positions_sound children indices i (subst (Member i) (sym e) m) in
    (below.0, indices_sound i below.1)

-- It finds a child once.
pub positions-distinct :
    (children : ℕ → Node) (p q : ℕ) (more : List ℕ)
    → positions children indices ≡ p ∷ q ∷ more
    → p ≢ q
positions-distinct children p q more e same =
    let up = subst (Ascending 0) e (positions-Ascending children indices 0 indices-Ascending) in
    omega arith
