-- ===== src/BpTree/Map/Inv.antt =====
-- src/bptree/mod.rs: what holds of a map and its open transactions in every interleaving.
use concread.BpTree.Cursor.{SuperBlock, CursorWrite, new_read, new_write, finalise}
use concread.BpTree.Map.{Block, BptreeMap, ReadTxn, read, write, commit, publish, sealed, unlock}
use concread.BpTree.Map.Blocks.{newest, IsOrdered, Keeps, Published, publish-Published}
use concread.BpTree.Map.System.{System}
use concread.BpTree.Meta.{max_txid}
use concread.Prelude.{
  ℕ, ◌+◌, List, [], ◌∷◌, ◌++◌, true, false, some, ◌≡◌, refl, ap, ◌∙◌, sym, length, get_elem?, arith,
  Ensures, Always, All, ltb, Absurd, Bool-cases, inl, inr, Ensures-bind,
}

module _ {ℓ κ} {K : Type ℓ} {V : Type κ} where
  -- The superblock that a reader pins, and of which it has the view.
  pub record IsPinned (m : BptreeMap K V) (r : ReadTxn K V) : Type (ℓ ⊔ κ) where
    pub block : Block K V
    pub found : get_elem? m.blocks r.pin ≡ some block
    pub view : r.work ≡ new_read K V block.sblock

  -- A writer has the lock and the number after the newest superblock; without one the lock is free.
  abbrev pub IsLocked : ℕ → BptreeMap K V → List (CursorWrite K V) → Type 0
  IsLocked base m [] = m.locked ≡ false
  IsLocked base m (c ∷ []) = (m.locked ≡ true) × (c.txid ≡ base + length m.blocks)
  IsLocked base m (c ∷ d ∷ cs) = Absurd

  pub record Inv (base : ℕ) (s : System K V) : Type (ℓ ⊔ κ) where
    pub ordered : IsOrdered base s.map
    pub exclusive : IsLocked base s.map s.writers
    pub pinned : All (IsPinned s.map) s.readers

  pub IsPinned-Keeps :
      (m m' : BptreeMap K V) (r : ReadTxn K V)
      → Keeps m.blocks m'.blocks
      → IsPinned m r
      → IsPinned m' r
  IsPinned-Keeps m m' r k p =
      let (b, e, s) = k r.pin p.block p.found in
      record { block = b; found = e; view = p.view ∙ ap (new_read K V) (sym s) }

  -- The only writer.
  pub alone :
      (base : ℕ) (m : BptreeMap K V) (xs ys : List (CursorWrite K V)) (c : CursorWrite K V)
      → IsLocked base m (xs ++ c ∷ ys)
      → (xs ≡ []) × (ys ≡ []) × (m.locked ≡ true) × (c.txid ≡ base + length m.blocks)
  alone base m [] [] c w = (refl, refl, w.0, w.1)
  alone base m [] (y ∷ ys) c w = elim w [ ]
  alone base m (x ∷ []) ys c w = elim w [ ]
  alone base m (x ∷ y ∷ xs) ys c w = elim w [ ]

module _ {ℓ κ} (K : Type ℓ) (V : Type κ) where
  -- A reader can always begin, and pins the active superblock.
  pub read-IsPinned :
      (base : ℕ) (m : BptreeMap K V)
      → IsOrdered base m
      → Ensures (λ r. IsPinned m r × (r.pin ≡ m.active)) (read K V m)
  unfolding read
  read-IsPinned base m w =
      let (b, at, t, l, p) = newest base 0 m.blocks m.active w.chain w.last in
      rw at (record { block = b; found = at; view = refl }, refl)

  -- A writer takes the lock and the next number.
  abbrev pub IsOpened : ℕ → BptreeMap K V → BptreeMap K V × CursorWrite K V → Type (ℓ ⊔ κ)
  IsOpened base m r = (r.0 ≡ record m { locked = true }) × (r.1.txid ≡ base + length m.blocks)

  pub write-IsOpened :
      (base : ℕ) (m : BptreeMap K V) (nid : ℕ)
      → IsOrdered base m
      → Always (IsOpened base m) (write K V m nid)
  unfolding write new_write
  write-IsOpened base m nid w =
      let (b, at, t, l, p) = newest base 0 m.blocks m.active w.chain w.last in
      let next : b.sblock.txid + 1 ≡ base + length m.blocks = omega (arith, t, w.last) in
      elim (Bool-cases (ltb (b.sblock.txid + 1) max_txid)) [
        | inl e ↦ rw (at, e) (refl, next)
        | inr e ↦ rw (at, e) tt
      ]

  abbrev pub IsCommitted : ℕ → BptreeMap K V → SuperBlock K V → BptreeMap K V → Type (ℓ ⊔ κ)
  IsCommitted base m sb m' = Published base m sb m' × (m'.locked ≡ false)

  -- A commit of the only writer never fails an assertion.
  pub commit-IsCommitted :
      (base : ℕ) (m : BptreeMap K V) (c : CursorWrite K V)
      → IsOrdered base m
      → c.txid ≡ base + length m.blocks
      → Ensures (IsCommitted base m (finalise K V c).0) (commit K V m c)
  unfolding commit finalise
  commit-IsCommitted base m c w e =
      Ensures-bind (Published base m (finalise K V c).0) (IsCommitted base m (finalise K V c).0)
        (publish K V m (sealed K V (finalise K V c))) (λ m'. some (unlock K V m'))
        (publish-Published base m (finalise K V c) w e)
        λ m' is p. (
          record {
            ordered = record { chain = p.ordered.chain; last = p.ordered.last };
            keeps = p.keeps;
            one_more = p.one_more;
            block = p.block;
            found = p.found;
            stored = p.stored;
          },
          refl,
        )
