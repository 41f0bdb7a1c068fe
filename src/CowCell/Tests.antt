-- ===== src/CowCell/Tests.antt =====
-- A reader and a writer of one cell, and the laws of the cell on their interleaving.
use concread.CowCell.{
  CowCellReadTxn, CowCellWriteTxn, new, read, write, try_write, commit, publish, unlock, get_mut,
  copied, deref_read, deref_write,
}
use concread.CowCell.Refine.{Reach-Views, get_mut-deref_write, try_write-deref_write}
use concread.CowCell.Spec.{answers}
use concread.CowCell.System.{
  System, Reach, start, later, begin_read, begin_write, change, commit_write, history,
}
use concread.CowCell.Views.{Views}
use concread.Prelude.{ℕ, ◌+◌, [], ◌∷◌, ◌≡◌, ◌≢◌, ◌⊎◌, refl, none, some, true, false, Ensures}
use mathlib.Core.Option

abbrev origin : System ℕ
origin = record {
  cell = record { locked = false; active = 0; values = 3 ∷ [] };
  writers = [];
  readers = [];
}

abbrev reader : CowCellReadTxn
reader = record { value = 0 }

abbrev fresh : CowCellWriteTxn ℕ
fresh = record { work = none; read = 0 }

abbrev written : CowCellWriteTxn ℕ
written = record { work = some 4; read = 0 }

abbrev opened : System ℕ
opened = record {
  cell = record origin.cell { locked = true };
  writers = written ∷ [];
  readers = reader ∷ [];
}

abbrev committed : System ℕ
committed = record {
  cell = record { locked = false; active = 1; values = 3 ∷ 4 ∷ [] };
  writers = [];
  readers = reader ∷ [];
}

get_mut_run : get_mut opened.cell (λ n. n + 1) fresh ≡ some written
unfolding get_mut copied
get_mut_run = refl

opened-Reach : Reach 3 opened
unfolding new read write
opened-Reach =
    later (later (later start begin_read) (begin_write refl))
      (change [] [] fresh written (λ n. n + 1) refl get_mut_run)

committed-Reach : Reach 3 committed
unfolding commit publish unlock
committed-Reach = later opened-Reach (commit_write [] [] written refl)

reader_run :
    (deref_read committed.cell reader ≡ some 3)
    × (deref_read committed.cell (read committed.cell) ≡ some 4)
unfolding deref_read read
reader_run = (refl, refl)

Reach-Views_example : Ensures (Views committed) (answers 3 (history committed-Reach))
Reach-Views_example = Reach-Views committed-Reach

get_mut-deref_write_example :
    Ensures
      (λ u. deref_write opened.cell u ≡ Option.map (λ n. n + 2) (deref_write opened.cell written))
      (get_mut opened.cell (λ n. n + 2) written)
get_mut-deref_write_example = get_mut-deref_write [] [] written (λ n. n + 2) opened-Reach refl

try_write-deref_write_example :
    ((opened.writers ≡ [])
      × (t : CowCellWriteTxn ℕ) × ((try_write opened.cell).1 ≡ some t)
      × (deref_write (try_write opened.cell).0 t ≡ deref_read opened.cell (read opened.cell)))
    ⊎ ((opened.writers ≢ []) × (try_write opened.cell ≡ (opened.cell, none)))
try_write-deref_write_example = try_write-deref_write opened-Reach
