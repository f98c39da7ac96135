-- ===== src/StateDb/Revert/Journal.antt =====
-- The undo list of go/state/state_db.go as a record of the states that it leads back to.
use carmen.Prelude.{
  ℕ, ◌≤◌, ◌≡◌, refl, ap, ◌∙◌, inl, inr, some, List, [], ◌∷◌, ◌++◌, Bool, false, comparable_nat,
  comparable_pair, leb, length, arith, Bool-cases, length-append, leb→le,
}
use carmen.StateDb.Types.{SlotId, Error, Undo, StateDb}
use carmen.StateDb.Undo.{apply_undo, rewind}
use carmen.Prelude.Map.{Map}
use carmen.StateDb.Revert.View.{Extends, IsCoherent, Extends-trans}

-- Undoing `u` at any state that has loaded more than `s` leads to one that has loaded more than `r`.
abbrev pub Undoes : Undo → StateDb → StateDb → Type 0
Undoes u r s =
    (t : StateDb)
    → Extends s t
    → IsCoherent t
    → (t' : StateDb) × (apply_undo u t ≡ some t') × Extends r t' × IsCoherent t'

-- The state `s` was reached from `base` by loads and by writes whose undos are listed.
pub data Journal (base : StateDb) : List Undo → StateDb → Type 0 where
  start : {s : StateDb} → Extends base s → Journal base [] s
  write :
      {u : Undo} {us : List Undo} {r s t : StateDb}
      → Journal base us r
      → Undoes u r s
      → Extends s t
      → Journal base (u ∷ us) t

pub Journal-Extends :
    {base s t : StateDb} {us : List Undo} → Journal base us s → Extends s t → Journal base us t
Journal-Extends (start h) k = start (Extends-trans h k)
Journal-Extends (write j u h) k = write j u (Extends-trans h k)

pub Journal-start :
    {base s : StateDb} (us : List Undo) → us ≡ [] → Journal base us s → Extends base s
Journal-start us e (start h) = h
Journal-start us e (write j u h) = cc

-- Nothing that is observed depends on these fields.
pub Extends-unseen :
    (s : StateDb) (us : List Undo) (w : Map SlotId Bool) (e : List ℕ) (er : List Error)
    → Extends s (record s { undo = us; written_slots = w; empty_candidates = e; errors = er })
Extends-unseen s us w e er = record {
  state = refl;
  accounts = λ a. inl refl;
  balances = λ a. inl refl;
  nonces = λ a. inl refl;
  current = λ a. inl refl;
  committed = λ a. inl refl;
  code = λ a. inl refl;
  size = λ a. inl refl;
  hash = λ a. inl refl;
  clearings = λ a. refl;
  reincarnations = refl;
  transients = λ a. refl;
  created = λ a. refl;
  addresses = λ a. refl;
  slots = λ a. refl;
  deletions = refl;
  refund = refl;
  logs = refl;
  logs_in_block = refl;
}

pub IsCoherent-unseen :
    (s : StateDb) (us : List Undo) (w : Map SlotId Bool) (e : List ℕ) (er : List Error)
    → IsCoherent s
    → IsCoherent (record s { undo = us; written_slots = w; empty_candidates = e; errors = er })
IsCoherent-unseen s us w e er h = assumption

pub record Tracks (base s : StateDb) : Type 0 where
  pub recent : List Undo
  pub split : s.undo ≡ recent ++ base.undo
  pub journal : Journal base recent s
  pub coherent : IsCoherent s

rewind-stop :
    (us : List Undo) (id : ℕ) (s : StateDb)
    → length us ≤ id
    → rewind us id s ≡ some (record s { undo = us })
unfolding rewind
rewind-stop [] id s h = refl
rewind-stop (u ∷ us) id s h = ground arith

rewind-step :
    (u : Undo) (us : List Undo) (id : ℕ) (s t : StateDb)
    → leb (length (u ∷ us)) id ≡ false
    → apply_undo u s ≡ some t
    → rewind (u ∷ us) id s ≡ rewind us id t
unfolding rewind
rewind-step u us id s t h e = ground arith

-- Rewinding to a length at or above that of `base` ends, without a panic, on the same track.
pub rewind-Journal :
    {base s : StateDb} {us : List Undo} (id : ℕ)
    → length base.undo ≤ id
    → Journal base us s
    → (t : StateDb) → Extends s t
    → IsCoherent t
    → (v : StateDb) × (rewind (us ++ base.undo) id t ≡ some v)
      × Tracks base v
      × (length v.undo ≤ id)
unfolding rewind
rewind-Journal {base} id h (start e) t x c = (
  record t { undo = base.undo },
  rewind-stop base.undo id t h,
  record {
    recent = [];
    split = refl;
    journal = start (
        Extends-trans (Extends-trans e x)
          (Extends-unseen t base.undo t.written_slots t.empty_candidates t.errors));
    coherent = IsCoherent-unseen t _ _ _ _ c;
  },
  h,
)
rewind-Journal {base} id h (write {u} {us} j back e) t x c =
    elim (Bool-cases (leb (length (u ∷ us ++ base.undo)) id)) [
      | inl stop ↦ (
        record t { undo = u ∷ us ++ base.undo },
        rewind-stop _ id t (leb→le _ _ stop),
        record {
          recent = u ∷ us;
          split = refl;
          journal = write j back (
              Extends-trans (Extends-trans e x) (
                Extends-unseen t (u ∷ us ++ base.undo) t.written_slots t.empty_candidates
                  t.errors));
          coherent = IsCoherent-unseen t _ _ _ _ c;
        },
        leb→le _ _ stop,
      )
      | inr on ↦
          let (t', step, y, c') = back t (Extends-trans e x) c in
          let (v, run, k, short) = rewind-Journal id h j t' y c' in
          (v, rewind-step u (us ++ base.undo) id t t' on step ∙ run, k, short)
    ]

no_more : {A : Type 0} (us : List A) → length us ≡ 0 → us ≡ []
no_more [] e = refl
no_more (u ∷ us) e = absurd (omega arith)

module _ {base s : StateDb} (k : Tracks base s) (h : length s.undo ≤ length base.undo) where
  none_recent : k.recent ≡ []
  none_recent =
      no_more k.recent (omega (arith, ap length k.split, length-append k.recent base.undo))

  -- Where only the undos of `base` are left, the state is `base` with more values loaded.
  pub Tracks-start : Extends base s
  Tracks-start = Journal-start k.recent none_recent k.journal

  pub Tracks-undo : s.undo ≡ base.undo
  Tracks-undo = k.split ∙ ap (λ us. us ++ base.undo) none_recent
