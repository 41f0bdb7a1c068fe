-- ===== src/BpTree/Map/Sound.antt =====
-- src/bptree/mod.rs: every interleaving of readers and writers keeps all trees valid, so a reader
-- finds what the abstract map of its view holds.
use concread.BpTree.Cursor.{CursorWrite, CursorRead, new_read, finalise, search}
use concread.BpTree.Cursor.Laws.{default-IsSuper, IsSuper}
use concread.BpTree.Cursor.Search.{search-lookup}
use concread.BpTree.Cursor.Valid.{contents, IsValid, IsCursor}
use concread.BpTree.Map.{BptreeMap, Block, ReadTxn, new, read, write, commit, apply, from_iter, get}
use concread.BpTree.Map.Inv.{IsPinned}
use concread.BpTree.Map.Safety.{Reach-Inv, commit_visible, Pinned-at}
use concread.BpTree.Map.System.{
  System, Step, begin_read, end_read, begin_write, change, rollback, commit_write, Start, from_new,
  from_iterator, Reach, start, later,
}
use concread.BpTree.Map.Views.{
  IsSound, at_place, commit-IsSuper, write-IsCursor, from_iter-IsSuper, apply-Applied, Applied,
}
use concread.Ord.{Ord, IsPlain}
use concread.Prelude.{
  ℕ, ◌<◌, List, [], ◌∷◌, ◌++◌, some, ◌≡◌, ap, ◌∙◌, sym, Ensures, Ensures-imp, Ensures-some,
  Always-some, All, subst,
}
use concread.SortedMap.{lookup}
use Prim.Native.Nat.{◌^◌}

module _ {ℓ κ} (K : Type ℓ) (V : Type κ) ⦃o : Ord K⦄ where
  writer_at :
      (xs ys : List (CursorWrite K V)) (c : CursorWrite K V)
      → All IsCursor (xs ++ c ∷ ys)
      → IsCursor c
  writer_at [] ys c w = w.0
  writer_at (x ∷ xs) ys c w = writer_at xs ys c w.1

  writers_with :
      (xs ys : List (CursorWrite K V)) (c c' : CursorWrite K V)
      → All IsCursor (xs ++ c ∷ ys)
      → IsCursor c'
      → All IsCursor (xs ++ c' ∷ ys)
  writers_with [] ys c c' w p = (p, w.1)
  writers_with (x ∷ xs) ys c c' w p = (w.0, writers_with xs ys c c' w.1 p)

  writers_without :
      (xs ys : List (CursorWrite K V)) (c : CursorWrite K V)
      → All IsCursor (xs ++ c ∷ ys)
      → All IsCursor (xs ++ ys)
  writers_without [] ys c w = w.1
  writers_without (x ∷ xs) ys c w = (w.0, writers_without xs ys c w.1)

  Step-IsSound : IsPlain K → {s t : System K V} → Step K V s t → IsSound K V s → IsSound K V t
  Step-IsSound plain (begin_read e) w = record { blocks = w.blocks; writers = w.writers }
  Step-IsSound plain (end_read xs ys r e) w = record { blocks = w.blocks; writers = w.writers }
  Step-IsSound plain {s} (begin_write {m = m} c nid free e) w =
      let p =
        Always-some
          (λ (r : BptreeMap K V × CursorWrite K V). (r.0.blocks ≡ s.map.blocks) × IsCursor r.1)
          (write K V s.map nid) (m, c) (write-IsCursor K V s.map nid w.blocks) e in
      record {
        blocks = subst (All (λ (b : Block K V). IsSuper K V b.sblock)) (sym p.0) w.blocks;
        writers = (p.1, w.writers);
      }
  Step-IsSound plain {s} (change xs ys c c' {res} op e a) w =
      let ws = subst (All IsCursor) e w.writers in
      let p =
        Ensures-some (Applied K V op c) (apply K V op c) (c', res)
          (apply-Applied K V plain op c (writer_at xs ys c ws)) a in
      record { blocks = w.blocks; writers = writers_with xs ys c c' ws p.0 }
  Step-IsSound plain {s} (rollback xs ys c e) w = record {
    blocks = w.blocks;
    writers = writers_without xs ys c (subst (All IsCursor) e w.writers);
  }
  Step-IsSound plain {s} (commit_write xs ys c {m = m} e k) w =
      let ws = subst (All IsCursor) e w.writers in
      record {
        blocks =
            Always-some
              (λ (z : BptreeMap K V). All (λ (b : Block K V). IsSuper K V b.sblock) z.blocks)
              (commit K V s.map c) m (commit-IsSuper K V s.map c w.blocks (writer_at xs ys c ws)) k;
        writers = writers_without xs ys c ws;
      }

  Start-IsSound : {base : ℕ} {s : System K V} → Start K V base s → IsSound K V s
  unfolding new
  Start-IsSound (from_new nid) = record { blocks = (default-IsSuper K V nid, tt); writers = tt }
  Start-IsSound (from_iterator nid kvs {m = m} e) = record {
    blocks =
        Always-some (λ (z : BptreeMap K V). All (λ (b : Block K V). IsSuper K V b.sblock) z.blocks)
          (from_iter K V nid kvs) m (from_iter-IsSuper K V nid kvs) e;
    writers = tt;
  }

  -- In every interleaving of readers and writers of a map whose keys have no destructor, whatever
  -- methods the writers call, the tree of each superblock and of each open cursor is valid: its leaves and branches are in order,
  -- within capacity, and no younger than its transaction, and its size is the number of its entries.
  pub Reach-IsSound : IsPlain K → {base : ℕ} {s : System K V} → Reach K V base s → IsSound K V s
  Reach-IsSound plain (start i) = Start-IsSound i
  Reach-IsSound plain (later r st) = Step-IsSound plain st (Reach-IsSound plain r)

  -- The lookup of a reader that is open in a reachable state of a map whose keys have no destructor,
  -- and whose size fits 64 bits, does not panic and finds what the abstract map of its view holds.
  pub get-lookup :
      IsPlain K
      → {base : ℕ} {s : System K V} (xs ys : List (ReadTxn K V)) (r : ReadTxn K V) (k : K)
      → Reach K V base s
      → s.readers ≡ xs ++ r ∷ ys
      → r.work.length < 2 ^ 64
      → get K V r k ≡ some (lookup k (contents r.work.tree))
  unfolding get new_read
  get-lookup plain {base} {s} xs ys r k reach e space =
      let p =
        Pinned-at K V s.map xs ys r (subst (All (IsPinned s.map)) e (Reach-Inv K V reach).pinned) in
      let sound =
        at_place K V s.map.blocks r.pin p.block (Reach-IsSound plain reach).blocks p.found in
      let valid : IsValid r.work.txid r.work.length r.work.tree =
        subst (λ (w : CursorRead K V). IsValid w.txid w.length w.tree) (sym p.view) sound in
      search-lookup K V r.work.txid r.work.length r.work.tree k valid space

  -- A commit in a reachable state of a map whose keys have no destructor, of a writer whose length
  -- fits 64 bits: it does not panic, and a reader that begins next finds under every key what the writer held.
  pub commit-get :
      IsPlain K
      → {base : ℕ} {s : System K V} (xs ys : List (CursorWrite K V)) (c : CursorWrite K V) (k : K)
      → Reach K V base s
      → s.writers ≡ xs ++ c ∷ ys
      → c.length < 2 ^ 64
      → Ensures
          (λ m. Ensures (λ r. get K V r k ≡ some (lookup k (contents c.tree))) (read K V m))
          (commit K V s.map c)
  unfolding get new_read finalise
  commit-get plain {base} {s} xs ys c k reach e space =
      let w = writer_at xs ys c (subst (All IsCursor) e (Reach-IsSound plain reach).writers) in
      Ensures-imp _ _ (commit K V s.map c) (commit_visible K V xs ys c reach e) λ m p.
        Ensures-imp (λ (r : ReadTxn K V). r.work ≡ new_read K V (finalise K V c).0)
          (λ (r : ReadTxn K V). get K V r k ≡ some (lookup k (contents c.tree))) (read K V m) p.1
          λ r v.
            ap (λ (z : CursorRead K V). search K V z.tree k) v
            ∙ search-lookup K V c.txid c.length c.tree k w space
