-- ===== src/CowCell/System.antt =====
-- src/cowcell/mod.rs: the interleavings of readers and writers of one cell, as a step relation.
use concread.CowCell.{
  CowCell, CowCellReadTxn, CowCellWriteTxn, new, read, write, commit, unlock, get_mut,
}
use concread.CowCell.Spec.{SpecOp, see, copy, forget, open_draft, edit, discard, replace}
use concread.Prelude.{List, [], ◌∷◌, ◌++◌, ◌≡◌, some, false, length}

-- The cell and the transactions that are open on it, in all threads.
pub record System {ℓ} (A : Type ℓ) : Type ℓ where
  pub cell : CowCell A
  pub writers : List (CowCellWriteTxn A)
  pub readers : List CowCellReadTxn

module _ {ℓ} {A : Type ℓ} where
  -- What a thread does while it does not hold the lock `active`. `write` waits until its lock is
  -- free.
  pub data Step (s : System A) : System A → Type ℓ where
    begin_read : Step s (record s { readers = read s.cell ∷ s.readers })
    clone_read :
        (xs ys : List CowCellReadTxn) (r : CowCellReadTxn)
        → s.readers ≡ xs ++ r ∷ ys
        → Step s (record s { readers = r ∷ s.readers })
    end_read :
        (xs ys : List CowCellReadTxn) (r : CowCellReadTxn)
        → s.readers ≡ xs ++ r ∷ ys
        → Step s (record s { readers = xs ++ ys })
    begin_write :
        s.cell.locked ≡ false
        → Step s (record s { cell = (write s.cell).0; writers = (write s.cell).1 ∷ s.writers })
    change :
        (xs ys : List (CowCellWriteTxn A)) (t u : CowCellWriteTxn A) (f : A → A)
        → s.writers ≡ xs ++ t ∷ ys
        → get_mut s.cell f t ≡ some u
        → Step s (record s { writers = xs ++ u ∷ ys })
    rollback :
        (xs ys : List (CowCellWriteTxn A)) (t : CowCellWriteTxn A)
        → s.writers ≡ xs ++ t ∷ ys
        → Step s (record s { cell = unlock s.cell; writers = xs ++ ys })
    commit_write :
        (xs ys : List (CowCellWriteTxn A)) (t : CowCellWriteTxn A)
        → s.writers ≡ xs ++ t ∷ ys
        → Step s (record s { cell = commit s.cell t; writers = xs ++ ys })

  pub data Reach (x : A) : System A → Type ℓ where
    start : Reach x (record { cell = new x; writers = []; readers = [] })
    later : {s t : System A} → Reach x s → Step s t → Reach x t

  -- What a step asks of the specification.
  abbrev pub asked : {s t : System A} → Step s t → SpecOp A
  asked begin_read = see
  asked (clone_read xs ys r e) = copy (length xs)
  asked (end_read xs ys r e) = forget (length xs)
  asked (begin_write e) = open_draft
  asked (change xs ys t u f e g) = edit f
  asked (rollback xs ys t e) = discard
  asked (commit_write xs ys t e) = replace

  abbrev pub history : {x : A} {s : System A} → Reach x s → List (SpecOp A)
  history start = []
  history (later r st) = asked st ∷ history r
