-- ===== src/BpTree/Map/Views.antt =====
-- src/bptree/mod.rs: every method of a write transaction refines the abstract map, and in every
-- interleaving of readers and writers all superblocks and cursors are valid.
use concread.BpTree.Cursor
use concread.BpTree.Cursor.{
  CursorWrite, SuperBlock, default, new_read, new_write, finalise, search, clear,
}
use concread.BpTree.Cursor.Insert.{Insertion, insert-Insertion}
use concread.BpTree.Cursor.Laws.{
  Extension, extend-Extension, IsSuper, default-IsSuper, opened-IsCursor, clear-IsCursor,
}
use concread.BpTree.Cursor.Remove.{Removal, remove-Removal}
use concread.BpTree.Cursor.Valid.{contents, IsCursor}
use concread.BpTree.Cursor.Write.{Written, get_mut_ref-Written}
use concread.BpTree.Map.{
  Block, BptreeMap, Op, write, commit, publish, commit_prep, swap_seen, sealed, unlock, apply,
  from_iter,
}
use concread.BpTree.Map.System.{System}
use concread.BpTree.Split.{split_off_lt}
use concread.BpTree.Split.Laws.{from_key, SplitOff, split_off_lt-SplitOff}
use concread.BpTree.Meta.{max_txid}
use concread.Ord.{Ord, IsPlain}
use concread.Prelude.{
  ℕ, zero, suc, ◌+◌, List, [], ◌∷◌, Option, none, some, ◌≡◌, refl, sym, get_elem?, Ensures,
  Ensures-bind, Ensures-imp, Always, Always-bind, Always-then, Always-of, All, All-append, ltb,
  Bool-cases, inl, inr, subst,
}
use concread.Slice.{set}
use concread.SortedMap
use concread.SortedMap.{lookup, insert_all}
use concread.SortedMap.Update.{update}

module _ {ℓ κ} (K : Type ℓ) (V : Type κ) ⦃o : Ord K⦄ where
  -- The methods on the abstract map: the map after the call, and the result.
  abbrev pub abstract_apply : Op K V → List (K × V) → List (K × V) × Option V
  abstract_apply (Op.insert k v) xs = (SortedMap.insert k v xs, lookup k xs)
  abstract_apply (Op.remove k) xs = (SortedMap.remove k xs, lookup k xs)
  abstract_apply Op.clear xs = ([], none)
  abstract_apply (Op.get_mut k f) xs = (update k f xs, lookup k xs)
  abstract_apply (Op.extend kvs) xs = (insert_all kvs xs, none)
  abstract_apply (Op.split_off_lt k) xs = (from_key k xs, none)

  abbrev pub Applied : Op K V → CursorWrite K V → CursorWrite K V × Option V → Type (ℓ ⊔ κ)
  Applied op c r =
      IsCursor r.0
      × (contents r.0.tree ≡ (abstract_apply op (contents c.tree)).0)
      × (r.1 ≡ (abstract_apply op (contents c.tree)).1)

  -- Every method of a write transaction that changes it, on a valid cursor whose keys have no
  -- destructor, does not panic, keeps the cursor valid, changes the entries and returns as the method
  -- on the abstract map does.
  pub apply-Applied :
      IsPlain K
      → (op : Op K V) (c : CursorWrite K V) → IsCursor c
      → Ensures (Applied op c) (apply K V op c)
  unfolding apply
  apply-Applied plain (Op.insert k v) c w =
      Ensures-imp (Insertion K V c k v) (Applied (Op.insert k v) c) (Cursor.insert K V c k v)
        (insert-Insertion K V c k v w) λ r i. (i.valid, i.stored, i.result)
  apply-Applied plain (Op.remove k) c w =
      Ensures-imp (Removal K V c k) (Applied (Op.remove k) c) (Cursor.remove K V c k)
        (remove-Removal K V plain c k w) λ r i. (i.valid, i.stored, i.result)
  apply-Applied plain Op.clear c w = let z = clear-IsCursor K V c in (z.0, z.1, refl)
  apply-Applied plain (Op.get_mut k f) c w =
      Ensures-imp (Written K V c k f) (Applied (Op.get_mut k f) c) (Cursor.get_mut_ref K V c k f)
        (get_mut_ref-Written K V c k f w) λ r i. (i.valid, i.stored, i.result)
  apply-Applied plain (Op.extend kvs) c w =
      Ensures-bind (Extension K V c kvs) (Applied (Op.extend kvs) c) (Cursor.extend K V c kvs) _
        (extend-Extension K V kvs c w) λ r is e. (e.valid, e.stored, refl)
  apply-Applied plain (Op.split_off_lt k) c w =
      Ensures-bind (SplitOff K V c k) (Applied (Op.split_off_lt k) c) (split_off_lt K V c k) _
        (split_off_lt-SplitOff K V plain c k w) λ r is e. (e.0, e.2, refl)

  -- All superblocks and all open cursors are valid.
  pub record IsSound (s : System K V) : Type (ℓ ⊔ κ) where
    pub blocks : All (λ b. IsSuper K V b.sblock) s.map.blocks
    pub writers : All IsCursor s.writers

  pub at_place :
      (bs : List (Block K V)) (i : ℕ) (b : Block K V)
      → All (λ z. IsSuper K V z.sblock) bs
      → get_elem? bs i ≡ some b
      → IsSuper K V b.sblock
  at_place [] i b w e = cc
  at_place (x ∷ bs) zero b w e =
      let same : x ≡ b = cc in subst (λ (z : Block K V). IsSuper K V z.sblock) same w.0
  at_place (x ∷ bs) (suc i) b w e = at_place bs i b w.1 e

  set_place :
      (bs : List (Block K V)) (i : ℕ) (x : Block K V)
      → All (λ z. IsSuper K V z.sblock) bs
      → IsSuper K V x.sblock
      → All (λ z. IsSuper K V z.sblock) (set bs i x)
  unfolding set
  set_place [] i x w p = tt
  set_place (y ∷ bs) zero x w p = (p, w.1)
  set_place (y ∷ bs) (suc i) x w p = (w.0, set_place bs i x w.1 p)

  swap_seen-sblock :
      (n b : Block K V) (x y : Option (List ℕ))
      → Always (λ z. (z.0.sblock ≡ n.sblock) × (z.1.sblock ≡ b.sblock)) (swap_seen K V n b x y)
  swap_seen-sblock n b none y = tt
  swap_seen-sblock n b (some l) none = (refl, refl)
  swap_seen-sblock n b (some l) (some j) = tt

  publish-IsSuper :
      (m : BptreeMap K V) (n : Block K V)
      → All (λ z. IsSuper K V z.sblock) m.blocks
      → IsSuper K V n.sblock
      → Always (λ m'. All (λ z. IsSuper K V z.sblock) m'.blocks) (publish K V m n)
  unfolding publish commit_prep
  publish-IsSuper m n w p =
      Always-bind (λ (m' : BptreeMap K V). All (λ z. IsSuper K V z.sblock) m'.blocks)
        (get_elem? m.blocks m.active) _
        λ b at.
          Always-then
            (λ (z : Block K V × Block K V). (z.0.sblock ≡ n.sblock) × (z.1.sblock ≡ b.sblock))
            (λ (m' : BptreeMap K V). All (λ z. IsSuper K V z.sblock) m'.blocks)
            (swap_seen K V n b n.last_seen b.last_seen) _
            (swap_seen-sblock n b n.last_seen b.last_seen)
            λ z e.
              let old : IsSuper K V z.1.sblock =
                subst (IsSuper K V) (sym e.1) (at_place m.blocks m.active b w at) in
              let new : IsSuper K V z.0.sblock = subst (IsSuper K V) (sym e.0) p in
              All-append (λ (q : Block K V). IsSuper K V q.sblock) _ (z.0 ∷ [])
                (set_place m.blocks m.active _ w old) (new, tt)

  pub commit-IsSuper :
      (m : BptreeMap K V) (c : CursorWrite K V)
      → All (λ z. IsSuper K V z.sblock) m.blocks
      → IsCursor c
      → Always (λ m'. All (λ z. IsSuper K V z.sblock) m'.blocks) (commit K V m c)
  unfolding commit finalise
  commit-IsSuper m c w p =
      Always-then (λ (m' : BptreeMap K V). All (λ z. IsSuper K V z.sblock) m'.blocks)
        (λ (m' : BptreeMap K V). All (λ z. IsSuper K V z.sblock) m'.blocks)
        (publish K V m (sealed K V (finalise K V c))) (λ m'. some (unlock K V m'))
        (publish-IsSuper m (sealed K V (finalise K V c)) w p) λ m' q. q

  new_write-IsCursor :
      (sb : SuperBlock K V) (nid : ℕ) → IsSuper K V sb → Always IsCursor (new_write K V sb nid)
  unfolding new_write
  new_write-IsCursor sb nid w = elim (Bool-cases (ltb (sb.txid + 1) max_txid)) [
    | inl e ↦ rw e (opened-IsCursor K V sb nid w)
    | inr e ↦ rw e tt
  ]

  pub write-IsCursor :
      (m : BptreeMap K V) (nid : ℕ)
      → All (λ z. IsSuper K V z.sblock) m.blocks
      → Always (λ r. (r.0.blocks ≡ m.blocks) × IsCursor r.1) (write K V m nid)
  unfolding write
  write-IsCursor m nid w =
      Always-bind (λ (r : BptreeMap K V × CursorWrite K V). (r.0.blocks ≡ m.blocks) × IsCursor r.1)
        (get_elem? m.blocks m.active) _
        λ b at.
          Always-then IsCursor
            (λ (r : BptreeMap K V × CursorWrite K V). (r.0.blocks ≡ m.blocks) × IsCursor r.1)
            (new_write K V b.sblock nid) _
            (new_write-IsCursor b.sblock nid (at_place m.blocks m.active b w at)) λ c q. (refl, q)

  pub from_iter-IsSuper :
      (nid : ℕ) (kvs : List (K × V))
      → Always (λ m. All (λ z. IsSuper K V z.sblock) m.blocks) (from_iter K V nid kvs)
  unfolding from_iter finalise commit_prep
  from_iter-IsSuper nid kvs =
      Always-then IsCursor (λ (m : BptreeMap K V). All (λ z. IsSuper K V z.sblock) m.blocks)
        (new_write K V (default K V nid) (nid + 1)) _
        (new_write-IsCursor (default K V nid) (nid + 1) (default-IsSuper K V nid))
        λ c w.
          Always-then IsCursor (λ (m : BptreeMap K V). All (λ z. IsSuper K V z.sblock) m.blocks)
            (Cursor.extend K V c kvs) _
            (Always-of (Extension K V c kvs) IsCursor (Cursor.extend K V c kvs)
              (extend-Extension K V kvs c w) λ r e. e.valid)
            λ c' w'. (w', tt)
