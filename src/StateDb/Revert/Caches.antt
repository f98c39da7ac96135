-- ===== src/StateDb/Revert/Caches.antt =====
-- How the relation between caches of go/state/state_db.go fares under writes to their maps.
use carmen.Prelude.{
  ◌≡◌, refl, sym, ap, ◌∙◌, inl, inr, Option, none, some, true, false, Comparable, ◌==◌, is_some,
  Bool-cases,
}
use carmen.Prelude.Map.{Map, lookup, insert, delete, lookup-insert, lookup-delete, equal_refl}
use carmen.StateDb.Undo.{restore, restore_present}
use carmen.StateDb.Revert.View.{Ext, bind}

Ext-none {ℓ} : {A : Type ℓ} {d x : Option A} → Ext d x none → x ≡ none
Ext-none (inl p) = p
Ext-none (inr (p, q)) = p

pub none_shows {ℓ} : {A : Type ℓ} (x : Option A) → x ≡ none → is_some x ≡ true → ⊥
none_shows none p q = cc
none_shows (some a) p q = cc

-- One view of the entries of a map, and what a load of an entry shows.
module _ {ℓ κ μ} {K : Type ℓ} {V : Type κ} {A : Type μ} ⦃e : Comparable K⦄ (view : V → Option A)
    (origin : K → Option A) where
  abbrev seen : Map K V → K → Option A
  seen m k = bind (lookup k m) view

  seen-insert_eq :
      (k j : K) (v : V) (m : Map K V) → (k == j) ≡ true → seen (insert k v m) j ≡ view v
  seen-insert_eq k j v m h = rw (lookup-insert k j v m, h)

  seen-insert_ne :
      (k j : K) (v : V) (m : Map K V) → (k == j) ≡ false → seen (insert k v m) j ≡ seen m j
  seen-insert_ne k j v m h = rw (lookup-insert k j v m, h)

  seen-delete_eq : (k j : K) (m : Map K V) → (k == j) ≡ true → seen (delete k m) j ≡ none
  seen-delete_eq k j m h = rw (lookup-delete k j m, h)

  seen-delete_ne : (k j : K) (m : Map K V) → (k == j) ≡ false → seen (delete k m) j ≡ seen m j
  seen-delete_ne k j m h = rw (lookup-delete k j m, h)

  -- An entry loaded where none was.
  pub Ext-load :
      (k : K) (v : V) (m : Map K V)
      → seen m k ≡ none
      → view v ≡ origin k
      → (j : K) → Ext (origin j) (seen m j) (seen (insert k v m) j)
  Ext-load k v m absent loaded j = elim (Bool-cases (k == j)) [
    | inl t ↦
        let same : k ≡ j = (e.equal_iff k j).0 t in
        inr (rw (← same) absent, seen-insert_eq k j v m t ∙ loaded ∙ ap origin same)
    | inr f ↦ inl (sym (seen-insert_ne k j v m f))
  ]

  -- A write that does not change the view.
  pub Ext-same :
      (k : K) (v : V) (m : Map K V)
      → seen m k ≡ view v
      → (j : K) → Ext (origin j) (seen m j) (seen (insert k v m) j)
  Ext-same k v m kept j = elim (Bool-cases (k == j)) [
    | inl t ↦
        let same : k ≡ j = (e.equal_iff k j).0 t in
        inl (rw (← same) (kept ∙ sym (seen-insert_eq k k v m (equal_refl k))))
    | inr f ↦ inl (sym (seen-insert_ne k j v m f))
  ]

  -- A write that keeps the view or loads it.
  pub Ext-change :
      (k : K) (v : V) (m : Map K V)
      → Ext (origin k) (seen m k) (view v)
      → (j : K) → Ext (origin j) (seen m j) (seen (insert k v m) j)
  Ext-change k v m (inl kept) = Ext-same k v m kept
  Ext-change k v m (inr (absent, loaded)) = Ext-load k v m absent loaded

  module _ (k : K) (new : V) (m n : Map K V)
      (h : (j : K) → Ext (origin j) (seen (insert k new m) j) (seen n j)) where
    elsewhere : (j : K) → (k == j) ≡ false → Ext (origin j) (seen m j) (seen n j)
    elsewhere j f = rw (seen-insert_ne k j new m f) at (h j)

    -- The write of `new` is undone by putting in an entry that looks like the old one.
    pub Ext-restore :
        (old : V)
        → seen m k ≡ view old
        → (j : K) → Ext (origin j) (seen m j) (seen (insert k old n) j)
    Ext-restore old was j = elim (Bool-cases (k == j)) [
      | inl t ↦
          let same : k ≡ j = (e.equal_iff k j).0 t in
          inl (rw (← same) (was ∙ sym (seen-insert_eq k k old n (equal_refl k))))
      | inr f ↦ rw (seen-insert_ne k j old n f) (elsewhere j f)
    ]

    -- Or by one that looks loaded, if there was none.
    pub Ext-reload :
        (old : V)
        → seen m k ≡ none
        → view old ≡ origin k
        → (j : K) → Ext (origin j) (seen m j) (seen (insert k old n) j)
    Ext-reload old was loaded j = elim (Bool-cases (k == j)) [
      | inl t ↦
          let same : k ≡ j = (e.equal_iff k j).0 t in
          inr (rw (← same) was, seen-insert_eq k j old n t ∙ loaded ∙ ap origin same)
      | inr f ↦ rw (seen-insert_ne k j old n f) (elsewhere j f)
    ]

    -- What shows where nothing was written was loaded.
    pub Ext-loaded : (x : A) → view new ≡ none → seen n k ≡ some x → some x ≡ origin k
    Ext-loaded x hidden now =
        pick (rw (now, seen-insert_eq k k new m (equal_refl k), hidden) at (h k))
      where
        pick : Ext (origin k) none (some x) → some x ≡ origin k
        pick (inl p) = cc
        pick (inr (p, q)) = q

    -- Where neither write shows, the relation stays.
    pub Ext-keep :
        (old : V)
        → seen m k ≡ view new
        → seen n k ≡ view old
        → (j : K) → Ext (origin j) (seen m j) (seen (insert k old n) j)
    Ext-keep old was now j = elim (Bool-cases (k == j)) [
      | inl t ↦
          let same : k ≡ j = (e.equal_iff k j).0 t in
          rw (seen-insert_eq k j old n t, ← now, ← same)
            (rw (seen-insert_eq k k new m (equal_refl k), ← was) at (h k))
      | inr f ↦ rw (seen-insert_ne k j old n f) (elsewhere j f)
    ]

    -- Or by deleting the entry, if there was none.
    pub Ext-delete : seen m k ≡ none → (j : K) → Ext (origin j) (seen m j) (seen (delete k n) j)
    Ext-delete was j = elim (Bool-cases (k == j)) [
      | inl t ↦
          let same : k ≡ j = (e.equal_iff k j).0 t in
          inl (rw (← same) (was ∙ sym (seen-delete_eq k k n (equal_refl k))))
      | inr f ↦ rw (seen-delete_ne k j n f) (elsewhere j f)
    ]

    -- A written entry that shows a value is still there.
    pub Ext-present : is_some (view new) ≡ true → (w : V) × (lookup k n ≡ some w)
    Ext-present shows =
        find (lookup k n) refl (rw (seen-insert_eq k k new m (equal_refl k)) at (h k))
      where
        find :
            (o : Option V)
            → lookup k n ≡ o
            → Ext (origin k) (view new) (bind (lookup k n) view)
            → (w : V) × (lookup k n ≡ some w)
        find (some w) found x = (w, found)
        find none missing x =
            absurd (none_shows (view new) (Ext-none {d = origin k} (rw missing at x)) shows)

module _ {ℓ κ} {K : Type ℓ} {V : Type κ} ⦃e : Comparable K⦄ (k : K) (f : V → V) (m : Map K V)
    (v : V) (found : lookup k m ≡ some v) where
  pub restore_lem : restore k f m ≡ insert k (f v) m
  unfolding restore
  restore_lem = rw (found, restore)

  pub restore_present_lem : restore_present k f m ≡ some (insert k (f v) m)
  unfolding restore_present
  restore_present_lem = rw (found, restore_present)
