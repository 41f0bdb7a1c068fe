-- ===== src/CowCell/Views.antt =====
-- src/cowcell/mod.rs: what a cell and its open transactions show of their specification.
use concread.CowCell.{CowCell, CowCellReadTxn, CowCellWriteTxn, deref_read, deref_write}
use concread.CowCell.Spec.{Spec, without}
use concread.CowCell.System.{System}
use concread.Prelude.{
  List, [], ◌∷◌, ◌++◌, true, false, Option, none, some, ◌≡◌, refl, get_elem?, length, Absurd,
}

module _ {ℓ} {A : Type ℓ} where
  -- A writer holds the lock, began from the active value, and sees the draft.
  abbrev pub IsDraft : CowCell A → List (CowCellWriteTxn A) → Option A → Type ℓ
  IsDraft c [] d = (c.locked ≡ false) × (d ≡ none)
  IsDraft c (t ∷ []) (some x) = (c.locked ≡ true) × (t.read ≡ c.active) × (deref_write c t ≡ some x)
  IsDraft c (t ∷ []) none = Absurd
  IsDraft c (t ∷ u ∷ ts) d = Absurd

  abbrev pub Snapshots : CowCell A → List CowCellReadTxn → List A → Type ℓ
  Snapshots c [] [] = Unit
  Snapshots c (r ∷ rs) (x ∷ xs) = (deref_read c r ≡ some x) × Snapshots c rs xs
  Snapshots c [] (x ∷ xs) = Absurd
  Snapshots c (r ∷ rs) [] = Absurd

  -- The cell has the current value, the writer the draft, and each reader its snapshot.
  pub record Views (s : System A) (a : Spec A) : Type ℓ where
    pub current : get_elem? s.cell.values s.cell.active ≡ some a.current
    pub draft : IsDraft s.cell s.writers a.draft
    pub snapshots : Snapshots s.cell s.readers a.snapshots

  pub record Drafted (c : CowCell A) (xs ys : List (CowCellWriteTxn A)) (t : CowCellWriteTxn A)
      (d : Option A) : Type ℓ where
    pub before : xs ≡ []
    pub after : ys ≡ []
    pub locked : c.locked ≡ true
    pub began : t.read ≡ c.active
    pub value : A
    pub drafted : d ≡ some value
    pub sees : deref_write c t ≡ some value

  pub IsDraft-Drafted :
      (c : CowCell A) (xs ys : List (CowCellWriteTxn A)) (t : CowCellWriteTxn A) (d : Option A)
      → IsDraft c (xs ++ t ∷ ys) d
      → Drafted c xs ys t d
  IsDraft-Drafted c [] [] t none w = elim w [ ]
  IsDraft-Drafted c [] [] t (some x) w = record {
    before = refl;
    after = refl;
    locked = w.0;
    began = w.1;
    value = x;
    drafted = refl;
    sees = w.2;
  }
  IsDraft-Drafted c [] (y ∷ ys) t d w = elim w [ ]
  IsDraft-Drafted c (x ∷ []) ys t d w = elim w [ ]
  IsDraft-Drafted c (x ∷ y ∷ xs) ys t d w = elim w [ ]

  -- Without a writer there is no draft.
  pub IsDraft-none :
      (c : CowCell A) (ts : List (CowCellWriteTxn A)) (d : Option A)
      → c.locked ≡ false
      → IsDraft c ts d
      → (ts ≡ []) × (d ≡ none)
  IsDraft-none c [] d e w = (refl, w.1)
  IsDraft-none c (t ∷ []) none e w = elim w [ ]
  IsDraft-none c (t ∷ []) (some x) e w = cc
  IsDraft-none c (t ∷ u ∷ ts) d e w = elim w [ ]

  pub record Split (c : CowCell A) (rs ts : List CowCellReadTxn) (r : CowCellReadTxn) (zs : List A)
      : Type ℓ where
    pub value : A
    pub at : get_elem? zs (length rs) ≡ some value
    pub sees : deref_read c r ≡ some value
    pub others : Snapshots c (rs ++ ts) (without (length rs) zs)

  pub Snapshots-Split :
      (c : CowCell A) (rs ts : List CowCellReadTxn) (r : CowCellReadTxn) (zs : List A)
      → Snapshots c (rs ++ r ∷ ts) zs
      → Split c rs ts r zs
  Snapshots-Split c [] ts r [] w = elim w [ ]
  Snapshots-Split c [] ts r (z ∷ zs) w = record { value = z; at = refl; sees = w.0; others = w.1 }
  Snapshots-Split c (q ∷ rs) ts r [] w = elim w [ ]
  Snapshots-Split c (q ∷ rs) ts r (z ∷ zs) w =
      let p = Snapshots-Split c rs ts r zs w.1 in
      record { value = p.value; at = p.at; sees = p.sees; others = (w.0, p.others) }

  -- A cell that still has every value shows the same snapshots.
  pub Snapshots-kept :
      (c c' : CowCell A)
      → ((r : CowCellReadTxn) (x : A) → deref_read c r ≡ some x → deref_read c' r ≡ some x)
      → (rs : List CowCellReadTxn) (zs : List A) → Snapshots c rs zs
      → Snapshots c' rs zs
  Snapshots-kept c c' k [] [] w = tt
  Snapshots-kept c c' k [] (z ∷ zs) w = elim w [ ]
  Snapshots-kept c c' k (r ∷ rs) [] w = elim w [ ]
  Snapshots-kept c c' k (r ∷ rs) (z ∷ zs) w = (k r z w.0, Snapshots-kept c c' k rs zs w.1)
