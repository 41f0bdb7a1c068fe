-- ===== src/BpTree/Cursor/Laws.antt =====
-- src/bptree/cursor.rs: what a reader sees after the operations of a writer.
use concread.BpTree.Cursor.{
  CursorWrite, SuperBlock, insert, search, extend, new_write, new_read, finalise, clear, default,
}
use concread.BpTree.Cursor.Insert.{Insertion, insert-Insertion}
use concread.BpTree.Cursor.Search.{search-lookup}
use concread.BpTree.Cursor.Valid.{contents, IsValid, IsCursor, tree-IsSorted}
use concread.BpTree.Leaf.{new_leaf}
use concread.BpTree.Meta.{max_txid}
use concread.BpTree.Node.{Node}
use concread.BpTree.Tree.{node_child}
use concread.BpTree.Tree.Dates.{entries, Good-le}
use concread.BpTree.Tree.Insert.{IsTree}
use concread.Ord.{Ord}
use concread.Prelude.{
  ltb, true, ◌>>=◌, ℕ, zero, suc, ◌+◌, ◌≤◌, ◌<◌, List, [], ◌∷◌, ◌≡◌, ◌≢◌, refl, sym, ap, ◌∙◌,
  Option, some, arith, length, Ensures, Ensures-bind, Ensures-imp,
}
use concread.SortedMap.{lookup, insert_all}
use concread.SortedMap.Laws.{lookup-insert_self, lookup-insert_ne}
use Prim.Native.Nat.{◌^◌}

module _ {ℓ κ} (K : Type ℓ) (V : Type κ) ⦃o : Ord K⦄ where
  module _ (c : CursorWrite K V) (k : K) (v : V) (w : IsCursor c)
      (space : c.length + 1 < 2 ^ 64) where
    after :
        (r : CursorWrite K V × Option V) (q : K)
        → Insertion K V c k v r
        → search K V r.0.tree q ≡ some (lookup q (contents r.0.tree))
    after r q i = search-lookup K V r.0.txid r.0.length r.0.tree q i.valid (omega (arith, i.grown))

    found_self :
        (r : CursorWrite K V × Option V)
        → Insertion K V c k v r
        → search K V r.0.tree k ≡ some (some v)
    found_self r i =
        after r k i
        ∙ ap (λ z. some (lookup k z)) i.stored
        ∙ ap some (lookup-insert_self k v (contents c.tree))

    found_other :
        (r : CursorWrite K V × Option V) (q : K)
        → Insertion K V c k v r
        → q ≢ k
        → search K V r.0.tree q ≡ search K V c.tree q
    found_other r q i ne =
        after r q i
        ∙ ap (λ z. some (lookup q z)) i.stored
        ∙ ap some (
            lookup-insert_ne k q v (contents c.tree) ne
              (tree-IsSorted K V c.tree.height c.txid c.tree.node w.tree))
        ∙ sym (search-lookup K V c.txid c.length c.tree q w (omega arith))

  -- After an insert into a valid cursor that has room for one more entry within 64 bits, `search`
  -- finds the inserted value under the key, and under every other key what it found before.
  pub search-insert :
      (c : CursorWrite K V) (k : K) (v : V)
      → IsCursor c
      → c.length + 1 < 2 ^ 64
      → Ensures
          (λ r.
            (search K V r.0.tree k ≡ some (some v))
            × ((q : K) → q ≢ k → search K V r.0.tree q ≡ search K V c.tree q))
          (insert K V c k v)
  search-insert c k v w space =
      Ensures-imp (Insertion K V c k v) _ (insert K V c k v) (insert-Insertion K V c k v w)
        λ r i. (found_self c k v w space r i, λ q ne. found_other c k v w space r q i ne)

  -- What an extension promises.
  pub record Extension (c : CursorWrite K V) (kvs : List (K × V)) (r : CursorWrite K V)
      : Type (ℓ ⊔ κ) where
    pub valid : IsCursor r
    pub grown : r.length ≤ c.length + length kvs
    pub same_txid : r.txid ≡ c.txid
    pub stored : contents r.tree ≡ insert_all kvs (contents c.tree)

  -- An extension of a valid cursor does not panic and inserts the entries from left to right.
  pub extend-Extension :
      (kvs : List (K × V)) (c : CursorWrite K V)
      → IsCursor c
      → Ensures (Extension c kvs) (extend K V c kvs)
  unfolding extend insert_all
  extend-Extension [] c w = record {
    valid = w;
    grown = omega arith;
    same_txid = refl;
    stored = refl;
  }
  extend-Extension ((k, v) ∷ kvs) c w =
      Ensures-bind (Insertion K V c k v) (Extension c ((k, v) ∷ kvs)) (insert K V c k v) _
        (insert-Insertion K V c k v w)
        λ r is i.
          Ensures-imp (Extension r.0 kvs) (Extension c ((k, v) ∷ kvs)) (extend K V r.0 kvs)
            (extend-Extension kvs r.0 i.valid)
            λ z e. record {
              valid = e.valid;
              grown = omega (arith, e.grown, i.grown);
              same_txid = e.same_txid ∙ i.same_txid;
              stored = e.stored ∙ ap (insert_all kvs) i.stored;
            }

  -- a superblock whose tree is valid
  abbrev pub IsSuper : SuperBlock K V → Type 0
  IsSuper sb = IsValid sb.txid sb.size sb.tree

  IsTree-le : (h s t : ℕ) (n : Node K V h) → s ≤ t → IsTree K V h s n → IsTree K V h t n
  unfolding node_child
  IsTree-le zero s t n le w = record {
    sorted = w.sorted;
    bounded = w.bounded;
    dated = omega (arith, w.dated);
  }
  IsTree-le (suc h) s t n le w = Good-le K V (suc h) s t n le w

  -- the cursor that a write transaction starts with
  abbrev pub opened : SuperBlock K V → ℕ → CursorWrite K V
  opened sb nid = record {
    txid = sb.txid + 1;
    length = sb.size;
    tree = sb.tree;
    mem = record { next_nid = nid; last_seen = []; first_seen = [] };
  }

  pub new_write-opened :
      (sb : SuperBlock K V) (nid : ℕ)
      → sb.txid + 1 < max_txid
      → new_write K V sb nid ≡ some (opened sb nid)
  unfolding new_write
  new_write-opened sb nid h =
      let fits : ltb (sb.txid + 1) max_txid ≡ true = ground arith in rw fits refl

  pub opened-IsCursor : (sb : SuperBlock K V) (nid : ℕ) → IsSuper sb → IsCursor (opened sb nid)
  opened-IsCursor sb nid w = record {
    tree = IsTree-le sb.tree.height sb.txid (sb.txid + 1) sb.tree.node (omega arith) w.tree;
    counted = w.counted;
  }

  pub default-IsSuper : (nid : ℕ) → IsSuper (default K V nid)
  unfolding default entries
  default-IsSuper nid = record {
    tree = record { sorted = tt; bounded = omega arith; dated = omega arith };
    counted = refl;
  }

  -- A write transaction on a valid superblock whose transaction number can be counted up, that
  -- inserts entries and commits, while the entries fit 64 bits: it does not panic, the new superblock
  -- is valid and one transaction younger, and a reader that starts from it finds, under every key,
  -- what the abstract map holds after the inserts.
  pub commit-search :
      (sb : SuperBlock K V) (nid : ℕ) (kvs : List (K × V)) (k : K)
      → IsSuper sb
      → sb.txid + 1 < max_txid
      → sb.size + length kvs < 2 ^ 64
      → Ensures
          (λ c.
            IsSuper (finalise K V c).0
            × ((finalise K V c).0.txid ≡ sb.txid + 1)
            × (search K V (new_read K V (finalise K V c).0).tree k
                ≡ some (lookup k (insert_all kvs (contents sb.tree)))))
          (new_write K V sb nid >>= λ c. extend K V c kvs)
  unfolding finalise new_read
  commit-search sb nid kvs k w fits space =
      let c = opened sb nid in
      rw (new_write-opened sb nid fits) (
        Ensures-imp (Extension c kvs) _ (extend K V c kvs)
          (extend-Extension kvs c (opened-IsCursor sb nid w))
          λ z e. (
            e.valid,
            e.same_txid,
            search-lookup K V z.txid z.length z.tree k e.valid (omega (arith, e.grown))
                ∙ ap (λ x. some (lookup k x)) e.stored,
          ))

  -- A cleared cursor is valid, empty, and still of its transaction.
  pub clear-IsCursor :
      (c : CursorWrite K V)
      → IsCursor (clear K V c) × (contents (clear K V c).tree ≡ []) × ((clear K V c).txid ≡ c.txid)
  unfolding clear new_leaf entries
  clear-IsCursor c = (
    record {
      tree = record { sorted = tt; bounded = omega arith; dated = omega arith };
      counted = refl;
    },
    refl,
    refl,
  )
