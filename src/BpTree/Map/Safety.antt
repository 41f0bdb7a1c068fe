-- ===== src/BpTree/Map/Safety.antt =====
-- src/bptree/mod.rs: every interleaving of readers and writers keeps the invariant, and what
-- follows for a commit.
use concread.BpTree.Cursor.{root, CursorWrite, new_read, new_write, finalise, default, extend}
use concread.BpTree.Map.{
  BptreeMap, ReadTxn, new, read, write, commit, unlock, apply, from_iter, commit_prep, try_write,
}
use concread.BpTree.Map.Blocks.{Keeps, Keeps-refl}
use concread.BpTree.Map.Inv.{
  Inv, IsPinned, IsLocked, IsPinned-Keeps, alone, read-IsPinned, IsOpened, write-IsOpened,
  IsCommitted, commit-IsCommitted,
}
use concread.BpTree.Map.System.{
  System, Step, begin_read, end_read, begin_write, change, rollback, commit_write, Start, from_new,
  from_iterator, Reach, start, later, quiet,
}
use concread.BpTree.Map.Txid.{IsSame, apply-IsSame, extend-txid}
use concread.Ord.{Ord}
use concread.Prelude.{
  ℕ, ◌+◌, List, [], ◌∷◌, ◌++◌, true, false, some, ◌≡◌, refl, ap, ◌∙◌, sym, Ensures, Always,
  Always-some, Ensures-some, Always-then, All, All-imp, not, Bool, is_some, Always-bind, subst,
  Bool-cases, inl, inr, Ensures-imp,
}

abbrev pub is_empty {ℓ} : {A : Type ℓ} → List A → Bool
is_empty [] = true
is_empty (x ∷ xs) = false

module _ {ℓ κ} (K : Type ℓ) (V : Type κ) where
  Pinned-without :
      (m : BptreeMap K V) (xs ys : List (ReadTxn K V)) (r : ReadTxn K V)
      → All (IsPinned m) (xs ++ r ∷ ys)
      → All (IsPinned m) (xs ++ ys)
  Pinned-without m [] ys r h = h.1
  Pinned-without m (x ∷ xs) ys r h = (h.0, Pinned-without m xs ys r h.1)

  Pinned-Keeps :
      (m m' : BptreeMap K V) (rs : List (ReadTxn K V))
      → Keeps m.blocks m'.blocks
      → All (IsPinned m) rs
      → All (IsPinned m') rs
  Pinned-Keeps m m' rs k h = All-imp (IsPinned m) (IsPinned m') (λ r. IsPinned-Keeps m m' r k) rs h

  -- Without a writer the lock is free.
  none_open :
      (base : ℕ) (m : BptreeMap K V) (cs : List (CursorWrite K V))
      → m.locked ≡ false
      → IsLocked base m cs
      → cs ≡ []
  none_open base m [] e w = refl
  none_open base m (c ∷ []) e w = cc
  none_open base m (c ∷ d ∷ cs) e w = elim w [ ]

  opened-Inv :
      (base : ℕ) (s : System K V) (m : BptreeMap K V) (c : CursorWrite K V)
      → s.map.locked ≡ false
      → Inv base s
      → IsOpened K V base s.map (m, c)
      → Inv base (record s { map = m; writers = c ∷ s.writers })
  opened-Inv base s m c free w p =
      subst (λ z. Inv base (record s { map = z; writers = c ∷ s.writers })) (sym p.0)
        record {
          ordered = record { chain = w.ordered.chain; last = w.ordered.last };
          exclusive = rw (none_open base s.map s.writers free w.exclusive) (refl, p.1);
          pinned =
              Pinned-Keeps s.map (record s.map { locked = true }) s.readers
                (Keeps-refl s.map.blocks) w.pinned;
        }

module _ {ℓ κ} (K : Type ℓ) (V : Type κ) ⦃o : Ord K⦄ where
  from_iter-Inv :
      (nid : ℕ) (kvs : List (K × V)) → Always (λ m. Inv 2 (quiet K V m)) (from_iter K V nid kvs)
  unfolding from_iter new_write default commit_prep finalise
  from_iter-Inv nid kvs =
      Always-then (λ r. r.txid ≡ 2) (λ m. Inv 2 (quiet K V m))
        (extend K V
          (record {
            txid = 2;
            length = 0;
            tree = root K V 0 (record { nid = nid; txid = 1; entries = [] });
            mem = record { next_nid = nid + 1; last_seen = []; first_seen = [] };
          })
          kvs)
        _ (extend-txid K V kvs _)
        λ c e. record {
          ordered = record { chain = (e, (refl, refl), tt); last = refl };
          exclusive = refl;
          pinned = tt;
        }

  -- Every step keeps the invariant.
  Step-Inv : {base : ℕ} {s t : System K V} → Step K V s t → Inv base s → Inv base t
  Step-Inv {base} {s} (begin_read e) w =
      let p =
        Ensures-some (λ r. IsPinned s.map r × (r.pin ≡ s.map.active)) (read K V s.map) _
          (read-IsPinned K V base s.map w.ordered) e in
      record { ordered = w.ordered; exclusive = w.exclusive; pinned = (p.0, w.pinned) }
  Step-Inv {base} {s} (end_read xs ys r e) w = record {
    ordered = w.ordered;
    exclusive = w.exclusive;
    pinned = Pinned-without K V s.map xs ys r (subst (All (IsPinned s.map)) e w.pinned);
  }
  Step-Inv {base} {s} (begin_write {m = m} c nid free e) w = opened-Inv K V base s m c free w (
      Always-some (IsOpened K V base s.map) (write K V s.map nid) (m, c)
        (write-IsOpened K V base s.map nid w.ordered) e)
  Step-Inv {base} {s} (change xs ys c c' op e a) w =
      let (ex, ey, locked, same) =
        alone base s.map xs ys c (subst (IsLocked base s.map) e w.exclusive) in
      let t = Always-some (IsSame K V c) (apply K V op c) _ (apply-IsSame K V op c) a in
      record { ordered = w.ordered; exclusive = rw (ex, ey) (locked, t ∙ same); pinned = w.pinned }
  Step-Inv {base} {s} (rollback xs ys c e) w =
      let (ex, ey, locked, same) =
        alone base s.map xs ys c (subst (IsLocked base s.map) e w.exclusive) in
      record {
        ordered = record { chain = w.ordered.chain; last = w.ordered.last };
        exclusive = rw (ex, ey) refl;
        pinned =
            Pinned-Keeps K V s.map (unlock K V s.map) s.readers (Keeps-refl s.map.blocks) w.pinned;
      }
  Step-Inv {base} {s} (commit_write xs ys c {m = m} e k) w =
      let (ex, ey, locked, same) =
        alone base s.map xs ys c (subst (IsLocked base s.map) e w.exclusive) in
      let p =
        Ensures-some (IsCommitted K V base s.map (finalise K V c).0) (commit K V s.map c) m
          (commit-IsCommitted K V base s.map c w.ordered same) k in
      record {
        ordered = p.0.ordered;
        exclusive = rw (ex, ey) p.1;
        pinned = Pinned-Keeps K V s.map m s.readers p.0.keeps w.pinned;
      }

  Start-Inv : {base : ℕ} {s : System K V} → Start K V base s → Inv base s
  unfolding new default
  Start-Inv (from_new nid) = record {
    ordered = record { chain = (refl, (refl, refl), tt); last = refl };
    exclusive = refl;
    pinned = tt;
  }
  Start-Inv (from_iterator nid kvs {m = m} e) =
      Always-some (λ z. Inv 2 (quiet K V z)) (from_iter K V nid kvs) m (from_iter-Inv nid kvs) e

  -- In every interleaving of readers and writers of a map: the superblocks are one chain, each one
  -- transaction younger than the one before and pinned by it, of which the newest is active and has
  -- nothing to release; there is a writer only under the lock, one at most, and with the next
  -- transaction number; and the view of every reader is that of the superblock that it pins.
  pub Reach-Inv : {base : ℕ} {s : System K V} → Reach K V base s → Inv base s
  Reach-Inv (start i) = Start-Inv i
  Reach-Inv (later r st) = Step-Inv st (Reach-Inv r)

  pub Pinned-at :
      (m : BptreeMap K V) (xs ys : List (ReadTxn K V)) (r : ReadTxn K V)
      → All (IsPinned m) (xs ++ r ∷ ys)
      → IsPinned m r
  Pinned-at m [] ys r h = h.0
  Pinned-at m (x ∷ xs) ys r h = Pinned-at m xs ys r h.1

  -- A commit in a reachable state does not panic, so no assertion of `commit_prep` fails; it frees
  -- the lock, and a reader that begins next has the view of the committed superblock.
  pub commit_visible :
      {base : ℕ} {s : System K V} (xs ys : List (CursorWrite K V)) (c : CursorWrite K V)
      → Reach K V base s
      → s.writers ≡ xs ++ c ∷ ys
      → Ensures
          (λ m.
            (m.locked ≡ false)
            × Ensures (λ r. r.work ≡ new_read K V (finalise K V c).0) (read K V m))
          (commit K V s.map c)
  unfolding read
  commit_visible {base} {s} xs ys c reach e =
      let w = Reach-Inv reach in
      let (ex, ey, locked, same) =
        alone base s.map xs ys c (subst (IsLocked base s.map) e w.exclusive) in
      Ensures-imp (IsCommitted K V base s.map (finalise K V c).0) _ (commit K V s.map c)
        (commit-IsCommitted K V base s.map c w.ordered same)
        λ m p. (p.1, rw (p.0.found, read) (ap (new_read K V) p.0.stored))

  locked_cases :
      (base : ℕ) (m : BptreeMap K V) (cs : List (CursorWrite K V))
      → IsLocked base m cs
      → is_empty cs ≡ not m.locked
  locked_cases base m [] w = rw w refl
  locked_cases base m (c ∷ []) w = rw w.0 refl
  locked_cases base m (c ∷ d ∷ cs) w = elim w [ ]

  -- In a reachable state `try_write`, if it does not panic, gives a writer exactly if no writer is open, and else leaves the map as it was.
  pub try_write-excluded :
      {base : ℕ} {s : System K V} (nid : ℕ)
      → Reach K V base s
      → Always
          (λ r. (is_some r.1 ≡ is_empty s.writers) × (is_some r.1 ≡ false → r.0 ≡ s.map))
          (try_write K V s.map nid)
  unfolding try_write write
  try_write-excluded {base} {s} nid reach =
      let w = Reach-Inv reach in
      let l = locked_cases base s.map s.writers w.exclusive in
      elim (Bool-cases s.map.locked) [
        | inl e ↦ rw (l, e) (refl, λ n. refl)
        | inr e ↦
            rw (l, e)
              (Always-bind _ (write K V s.map nid) (λ (m', c). some (m', some c))
                λ r is. (refl, λ n. cc))
      ]
