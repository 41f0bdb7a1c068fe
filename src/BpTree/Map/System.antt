-- ===== src/BpTree/Map/System.antt =====
-- src/bptree/mod.rs: the interleavings of readers and writers of one map, as a step relation.
use concread.BpTree.Cursor.{CursorWrite}
use concread.BpTree.Map.{BptreeMap, ReadTxn, Op, new, read, write, commit, unlock, from_iter, apply}
use concread.Ord.{Ord}
use concread.Prelude.{ℕ, List, [], ◌∷◌, ◌++◌, ◌≡◌, Option, some, false}

-- The map and the transactions that are open on it, in all threads.
pub record System {ℓ κ} (K : Type ℓ) (V : Type κ) : Type (ℓ ⊔ κ) where
  pub map : BptreeMap K V
  pub writers : List (CursorWrite K V)
  pub readers : List (ReadTxn K V)

module _ {ℓ κ} (K : Type ℓ) (V : Type κ) ⦃o : Ord K⦄ where
  abbrev pub quiet : BptreeMap K V → System K V
  quiet m = record { map = m; writers = []; readers = [] }

  -- What a thread does while it holds no inner lock. `write` waits until the lock is free.
  pub data Step (s : System K V) : System K V → Type (ℓ ⊔ κ) where
    begin_read :
        {r : ReadTxn K V} → read K V s.map ≡ some r → Step s (record s { readers = r ∷ s.readers })
    end_read :
        (xs ys : List (ReadTxn K V)) (r : ReadTxn K V)
        → s.readers ≡ xs ++ r ∷ ys
        → Step s (record s { readers = xs ++ ys })
    begin_write :
        {m : BptreeMap K V} (c : CursorWrite K V) (next_nid : ℕ)
        → s.map.locked ≡ false
        → write K V s.map next_nid ≡ some (m, c)
        → Step s (record s { map = m; writers = c ∷ s.writers })
    change :
        (xs ys : List (CursorWrite K V)) (c c' : CursorWrite K V) {res : Option V} (op : Op K V)
        → s.writers ≡ xs ++ c ∷ ys
        → apply K V op c ≡ some (c', res)
        → Step s (record s { writers = xs ++ c' ∷ ys })
    rollback :
        (xs ys : List (CursorWrite K V)) (c : CursorWrite K V)
        → s.writers ≡ xs ++ c ∷ ys
        → Step s (record s { map = unlock K V s.map; writers = xs ++ ys })
    commit_write :
        (xs ys : List (CursorWrite K V)) (c : CursorWrite K V) {m : BptreeMap K V}
        → s.writers ≡ xs ++ c ∷ ys
        → commit K V s.map c ≡ some m
        → Step s (record s { map = m; writers = xs ++ ys })

  -- A map starts empty or with the entries of an iterator; `base` is the number of its first
  -- transaction.
  pub data Start : ℕ → System K V → Type (ℓ ⊔ κ) where
    from_new : (nid : ℕ) → Start 1 (quiet (new K V nid))
    from_iterator :
        (nid : ℕ) (kvs : List (K × V)) {m : BptreeMap K V}
        → from_iter K V nid kvs ≡ some m
        → Start 2 (quiet m)

  pub data Reach (base : ℕ) : System K V → Type (ℓ ⊔ κ) where
    start : {s : System K V} → Start base s → Reach base s
    later : {s t : System K V} → Reach base s → Step s t → Reach base t
