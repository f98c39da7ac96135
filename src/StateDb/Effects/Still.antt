-- ===== src/StateDb/Effects/Still.antt =====
-- Methods of go/state/state_db.go that leave a part of the state alone.
use carmen.Prelude.{◌≡◌, ◌∙◌, Option, none, some, comparable_nat, comparable_pair}
use carmen.StateDb.Types.{StateDb, M, ◌>>=◌}

-- A function of the state that a method leaves alone, if it returns.
abbrev pub StillAt {ℓ} :
    {A : Type 0} {B : Type ℓ} → (StateDb → B) → StateDb → Option (A × StateDb) → Type ℓ
StillAt f s none = Unit
StillAt f s (some (a, t)) = f t ≡ f s

abbrev pub Still {ℓ} : {A : Type 0} {B : Type ℓ} → (StateDb → B) → M A → Type ℓ
Still f m = (s : StateDb) → StillAt f s (m s)

module _ {B : Type 0} (f : StateDb → B) where
  StillAt-trans :
      {C : Type 0} {s t : StateDb} (o : Option (C × StateDb))
      → f t ≡ f s
      → StillAt f t o
      → StillAt f s o
  StillAt-trans none h k = tt
  StillAt-trans (some (c, u)) h k = k ∙ h

  StillAt-bind :
      {A C : Type 0} (s : StateDb) (o : Option (A × StateDb)) (g : A → M C)
      → StillAt f s o
      → ((a : A) → Still f (g a))
      → StillAt f s (elim o [ none ↦ none | some (a, t) ↦ g a t ])
  StillAt-bind s none g h k = tt
  StillAt-bind s (some (a, t)) g h k = StillAt-trans (g a t) h (k a t)

  pub Still-bind :
      {A C : Type 0} (m : M A) (g : A → M C)
      → Still f m
      → ((a : A) → Still f (g a))
      → Still f (m >>= g)
  Still-bind m g h k s = StillAt-bind s (m s) g (h s) k
