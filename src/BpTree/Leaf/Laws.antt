-- ===== src/BpTree/Leaf/Laws.antt =====
-- The operations of a leaf against the abstract map.
use concread.BpTree.Leaf.{Leaf, l_capacity, count, new_leaf_ins, overflow, insert_or_update}
use concread.BpTree.Mem.{Mem}
use concread.BpTree.States.{LeafInsertState}
use concread.Ord.{Ord, ◌≺◌}
use concread.Prelude.{
  ℕ, suc, ◌+◌, ◌≤◌, List, [], ◌∷◌, ◌++◌, ◌≡◌, refl, sym, ap, subst, ◌∙◌, some, none, arith, length,
  length-append, append_assoc, append-nil, Ensures, leb, ◌==◌, Bool-cases, inl, inr, true, false,
}
use concread.Slice.{key_search, slice_remove, ok, err}
use concread.Slice.Laws.{slice_insert_at, slice_remove_at, get_elem?_at, set_at}
use concread.Slice.Search.{Located, hit, miss, key_search-Located}
use concread.SortedMap.{IsSorted, lookup, insert, AllKeys}
use concread.SortedMap.Laws.{
  insert-IsSorted, insert_between, insert_over, lookup_between, lookup_over, IsSorted-append_left,
  IsSorted-append_right,
}

module _ {ℓ κ} {K : Type ℓ} {V : Type κ} ⦃o : Ord K⦄ (t : ℕ) where
  -- What a tree, in transaction `t`, promises of a leaf, and of a leaf below the root.
  pub record IsLeaf (l : Leaf K V) : Type 0 where
    pub sorted : IsSorted l.entries
    pub bounded : count l ≤ l_capacity
    pub dated : l.txid ≤ t

  pub record IsFilled (l : Leaf K V) : Type 0 where
    pub leaf : IsLeaf l
    pub filled : 1 ≤ count l

  -- Two leaves that hold the entries of `l` and the new one.
  pub record IsSplit (l : Leaf K V) (k : K) (v : V) (left right : Leaf K V) : Type (ℓ ⊔ κ) where
    pub left_filled : IsFilled left
    pub right_filled : IsFilled right
    pub joined : left.entries ++ right.entries ≡ insert k v l.entries
    pub was_absent : lookup k l.entries ≡ none

  abbrev pub Inserted :
      Leaf K V → K → V → Leaf K V × LeafInsertState (Leaf K V) V × Mem → Type (ℓ ⊔ κ)
  Inserted l k v (l', LeafInsertState.done res, m) =
      IsFilled l' × (l'.entries ≡ insert k v l.entries) × (res ≡ lookup k l.entries)
  Inserted l k v (l', LeafInsertState.split r, m) = IsSplit l k v l' r
  Inserted l k v (l', LeafInsertState.rev_split r, m) = IsSplit l k v r l'

  pub IsSplit_lem :
      (l left right : Leaf K V) (k : K) (v : V)
      → IsLeaf l
      → left.entries ++ right.entries ≡ insert k v l.entries
      → lookup k l.entries ≡ none
      → 1 ≤ count left
      → count left ≤ l_capacity
      → 1 ≤ count right
      → count right ≤ l_capacity
      → left.txid ≤ t
      → right.txid ≤ t
      → IsSplit l k v left right
  IsSplit_lem l left right k v w e absent fl cl fr cr dl dr =
      let s : IsSorted (left.entries ++ right.entries) =
        rw e (insert-IsSorted k v l.entries w.sorted) in
      record {
        left_filled = record {
          leaf = record {
            sorted = IsSorted-append_left left.entries right.entries s;
            bounded = cl;
            dated = dl;
          };
          filled = fl;
        };
        right_filled = record {
          leaf = record {
            sorted = IsSorted-append_right left.entries right.entries s;
            bounded = cr;
            dated = dr;
          };
          filled = fr;
        };
        joined = e;
        was_absent = absent;
      }

  snoc :
      (xs : List (K × V)) → 1 ≤ length xs → (ys : List (K × V)) × (y : K × V) × (xs ≡ ys ++ y ∷ [])
  snoc [] h = absurd (omega arith)
  snoc (x ∷ []) h = ([], x, refl)
  snoc (x ∷ x' ∷ xs) h = let (ys, y, e) = snoc (x' ∷ xs) (omega arith) in (x ∷ ys, y, ap (◌∷◌ x) e)

  -- The removed last element of the array.
  slice_remove_last :
      (xs front : List (K × V)) (last : K × V) (n : ℕ)
      → xs ≡ front ++ last ∷ []
      → length xs ≡ suc n
      → slice_remove xs n ≡ some (last, front)
  slice_remove_last xs front last n e len =
      let size : length front ≡ n = omega (arith, length-append front (last ∷ []), ap length e) in
      rw (e, ← size) (slice_remove_at front [] last ∙ ap (λ r. some (last, r)) (append-nil front))

  overflow_middle :
      (l : Leaf K V) (k : K) (v : V) (m : Mem) (q : K × V) (pre front : List (K × V)) (last : K × V)
      → IsLeaf l
      → l.entries ≡ (q ∷ pre) ++ (front ++ last ∷ [])
      → AllKeys (λ x. x ≺ k) (q ∷ pre)
      → AllKeys (λ x. k ≺ x) (front ++ last ∷ [])
      → l_capacity ≤ count l
      → Ensures (Inserted l k v) (overflow l k v (length (q ∷ pre)) m)
  unfolding overflow new_leaf_ins
  overflow_middle l k v m q pre front last w e lo hi full =
      let all = q ∷ pre in
      let size : count l ≡ length all + (length front + 1) = omega (
        arith,
        ap length e,
        length-append all (front ++ last ∷ []),
        length-append front (last ∷ []),
      ) in
      let size' = length-append all ((k, v) ∷ front) in
      let high : leb (count l) (length all) ≡ false = ground (arith, size) in
      let seven : count l ≡ 7 = omega (arith, w.bounded) in
      let removed : slice_remove l.entries 6 ≡ some (last, all ++ front) =
        slice_remove_last l.entries (all ++ front) last 6
          (e ∙ sym (append_assoc all front (last ∷ []))) seven in
      let inserted = slice_insert_at all front (k, v) in
      let joined : (all ++ (k, v) ∷ front) ++ last ∷ [] ≡ insert k v l.entries =
        append_assoc all ((k, v) ∷ front) (last ∷ [])
        ∙ sym (ap (insert k v) e ∙ insert_between k v all (front ++ last ∷ []) lo hi) in
      let mid : (length all == 0) ≡ false = ground arith in
      rw (high, mid, removed, inserted)
        (IsSplit_lem l _ _ k v w joined (rw e (lookup_between k all (front ++ last ∷ []) lo hi))
          (omega (arith, size')) (omega (arith, size', size, seven)) (omega arith) (omega arith)
          w.dated w.dated)

  -- The three ways of an overflow, by the place of the new entry.
  overflow-Inserted :
      (l : Leaf K V) (k : K) (v : V) (m : Mem) (pre post : List (K × V))
      → IsLeaf l
      → l.entries ≡ pre ++ post
      → AllKeys (λ x. x ≺ k) pre
      → AllKeys (λ x. k ≺ x) post
      → l_capacity ≤ count l
      → Ensures (Inserted l k v) (overflow l k v (length pre) m)
  unfolding overflow new_leaf_ins
  overflow-Inserted l k v m pre [] w e lo hi full =
      let whole : l.entries ≡ pre = e ∙ append-nil pre in
      let high : leb (count l) (length pre) ≡ true = rw whole (ground arith) in
      rw high (
        IsSplit_lem l l _ k v w (rw (e, insert_between k v pre [] lo tt, append-nil pre))
          (rw e (lookup_between k pre [] lo tt)) (omega arith) w.bounded (omega arith) (omega arith)
          w.dated w.dated)
  overflow-Inserted l k v m [] (p ∷ post) w e lo hi full =
      let low : leb (count l) 0 ≡ false = ground arith in
      rw low (
        IsSplit_lem l _ l k v w (rw (e, insert_between k v [] (p ∷ post) tt hi))
          (rw e (lookup_between k [] (p ∷ post) tt hi)) (omega arith) (omega arith) (omega arith)
          w.bounded w.dated w.dated)
  overflow-Inserted l k v m (q ∷ pre) (p ∷ post) w e lo hi full =
      let (front, last, es) = snoc (p ∷ post) (omega arith) in
      overflow_middle l k v m q pre front last w (e ∙ ap (◌++◌ (q ∷ pre)) es) lo
        (subst (λ z. AllKeys (λ x. k ≺ x) z) es hi) full

  insert_at-Inserted :
      (l : Leaf K V) (k : K) (v : V) (m : Mem)
      → IsLeaf l
      → Located k l.entries 0 (key_search l.entries k)
      → Ensures (Inserted l k v) (insert_or_update l k v m)
  unfolding insert_or_update
  insert_at-Inserted l k v m w (hit pre post x e f lo hi) =
      let at_pre : key_search l.entries k ≡ ok (length pre) = f ∙ ap ok (omega arith) in
      let size = length-append pre ((k, x) ∷ post) in
      let size' = length-append pre ((k, v) ∷ post) in
      let whole : pre ++ (k, v) ∷ post ≡ insert k v l.entries =
        rw e (sym (insert_over k v x pre post lo)) in
      rw (at_pre, insert_or_update, e, get_elem?_at, set_at)
        (
          record {
            leaf = record {
              sorted = rw whole (insert-IsSorted k v l.entries w.sorted);
              bounded = omega (arith, w.bounded, ap length e);
              dated = w.dated;
            };
            filled = omega arith;
          },
          sym (insert_over k v x pre post lo),
          sym (lookup_over k x pre post lo),
        )
  insert_at-Inserted l k v m w (miss pre post e f lo hi) =
      let at_pre : key_search l.entries k ≡ err (length pre) = f ∙ ap err (omega arith) in
      let whole : pre ++ (k, v) ∷ post ≡ insert k v l.entries =
        rw e (sym (insert_between k v pre post lo hi)) in
      let size = length-append pre ((k, v) ∷ post) in
      let size' = length-append pre post in
      elim (Bool-cases (leb l_capacity (count l))) [
        | inl full ↦
            rw (at_pre, insert_or_update, full)
              (overflow-Inserted l k v m pre post w e lo hi (ground arith))
        | inr space ↦
            rw (at_pre, insert_or_update, space, e, slice_insert_at)
              (
                record {
                  leaf = record {
                    sorted = rw whole (insert-IsSorted k v l.entries w.sorted);
                    bounded = ground (arith, size, size', ap length e);
                    dated = w.dated;
                  };
                  filled = omega arith;
                },
                sym (insert_between k v pre post lo hi),
                sym (lookup_between k pre post lo hi),
              )
      ]

  -- On a valid leaf an insert never panics and keeps the leaf valid: what the one or two leaves
  -- hold is the abstract insert, and the result is the value that was replaced, if any.
  pub insert_or_update-Inserted :
      (l : Leaf K V) (k : K) (v : V) (m : Mem)
      → IsLeaf l
      → Ensures (Inserted l k v) (insert_or_update l k v m)
  insert_or_update-Inserted l k v m w =
      insert_at-Inserted l k v m w (key_search-Located k l.entries w.sorted)
