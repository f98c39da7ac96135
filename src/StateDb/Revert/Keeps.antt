-- ===== src/StateDb/Revert/Keeps.antt =====
-- Methods of go/state/state_db.go that stay on the track of an earlier state.
use carmen.Prelude.{
  ℕ, ◌≡◌, refl, sym, ap, subst, ◌∙◌, Option, none, some, ◌∷◌, Bool, true, false, if◌then◌else◌,
  comparable_pair,
}
use carmen.StateDb.Types.{Error, Undo, StateDb, M, ◌>>=◌, return, modify, fail}
use carmen.StateDb.Accounts.{touch}
use carmen.StateDb.Revert.View.{Extends, IsCoherent, Extends-refl}
use carmen.StateDb.Revert.Journal.{
  Undoes, write, Journal-Extends, Tracks, Extends-unseen, IsCoherent-unseen,
}

module _ {base s t : StateDb} (k : Tracks base s) where
  pub Tracks-load : Extends s t → IsCoherent t → t.undo ≡ s.undo → Tracks base t
  Tracks-load h c e = record {
    recent = k.recent;
    split = e ∙ k.split;
    journal = Journal-Extends k.journal h;
    coherent = c;
  }

  pub Tracks-write : (u : Undo) → Undoes u s t → IsCoherent t → t.undo ≡ u ∷ s.undo → Tracks base t
  Tracks-write u back c e = record {
    recent = u ∷ k.recent;
    split = e ∙ ap (◌∷◌ u) k.split;
    journal = write k.journal back (Extends-refl t);
    coherent = c;
  }

-- A panic leaves no state behind.
abbrev pub After : {A : Type 0} → StateDb → Option (A × StateDb) → Type 0
After base none = Unit {0}
After base (some (a, s)) = Tracks base s

abbrev pub Keeps : {A : Type 0} → StateDb → M A → Type 0
Keeps base m = (s : StateDb) → Tracks base s → After base (m s)

module _ {base : StateDb} where
  pub After-bind :
      {A B : Type 0} (o : Option (A × StateDb)) (f : A → M B)
      → After base o
      → ((a : A) → Keeps base (f a))
      → After base (elim o [ none ↦ none | some (a, s') ↦ f a s' ])
  After-bind none f h k = tt
  After-bind (some (a, s)) f h k = k a s h

  pub Keeps-bind :
      {A B : Type 0} (m : M A) (f : A → M B)
      → Keeps base m
      → ((a : A) → Keeps base (f a))
      → Keeps base (m >>= f)
  Keeps-bind m f h k s t = After-bind (m s) f (h s t) k

  pub Keeps-return : {A : Type 0} (a : A) → Keeps base (return a)
  Keeps-return a s k = k

  pub Keeps-if :
      {A : Type 0} (b : Bool) (m n : M A)
      → Keeps base m
      → Keeps base n
      → Keeps base (if b then m else n)
  Keeps-if true m n h k = h
  Keeps-if false m n h k = k

  pub fail-Keeps : (e : Error) → Keeps base (fail e)
  fail-Keeps e s k =
      Tracks-load k (Extends-unseen s s.undo s.written_slots s.empty_candidates _)
        (IsCoherent-unseen s s.undo s.written_slots s.empty_candidates _ k.coherent) refl

  pub touch-Keeps : (a : ℕ) → Keeps base (modify (touch a))
  touch-Keeps a s k =
      Tracks-load k (Extends-unseen s s.undo s.written_slots _ s.errors)
        (IsCoherent-unseen s s.undo s.written_slots _ s.errors k.coherent) refl

-- The rules for a branch at one state, and for a call whose result is known.
module _ (base : StateDb) where
  pub At-option :
      {A B : Type 0} (o : Option B) (m : M A) (f : B → M A) (s : StateDb)
      → (o ≡ none → After base (m s))
      → ((b : B) → o ≡ some b → After base (f b s))
      → After base (elim o as (λ x. M A) [ none ↦ m | some b ↦ f b ] s)
  At-option none m f s h k = h refl
  At-option (some b) m f s h k = k b refl

  pub At-if :
      {A : Type 0} (b : Bool) (m n : M A) (s : StateDb)
      → (b ≡ true → After base (m s))
      → (b ≡ false → After base (n s))
      → After base ((if b then m else n) s)
  At-if true m n s h k = h refl
  At-if false m n s h k = k refl

  pub After-if :
      {A : Type 0} (b : Bool) (x y : Option (A × StateDb))
      → After base x
      → After base y
      → After base (if b then x else y)
  After-if true x y h k = h
  After-if false x y h k = k

  pub At-bind :
      {A B : Type 0} (m : M A) (f : A → M B) (s : StateDb) {a : A} {t : StateDb}
      → m s ≡ some (a, t)
      → After base (f a t)
      → After base ((m >>= f) s)
  At-bind m f s e h =
      subst (λ o. After base (elim o [ none ↦ none | some (a, s') ↦ f a s' ])) (sym e) h
