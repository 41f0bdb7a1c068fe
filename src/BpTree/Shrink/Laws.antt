-- ===== src/BpTree/Shrink/Laws.antt =====
-- src/bptree/node.rs: the leaves of `Branch::shrink_decision` after one of them has run empty.
use concread.BpTree.Leaf
use concread.BpTree.Leaf.{Leaf, l_capacity, count}
use concread.BpTree.Leaf.Laws.{IsLeaf, IsFilled}
use concread.BpTree.Shrink.{Outcome, merged, rebalance}
use concread.Ord.{Ord}
use concread.Prelude.{
  ℕ, ◌+◌, ◌≤◌, [], ◌++◌, ◌≡◌, refl, sym, ap, subst, arith, length, length-append, append-nil, leb,
  true, Ensures,
}
use concread.SortedMap.{IsSorted}

module _ {ℓ κ} {K : Type ℓ} {V : Type κ} ⦃o : Ord K⦄ (t : ℕ) where
  -- One leaf holds the entries of both, the other one is empty.
  abbrev pub Merged : Leaf K V → Leaf K V → Outcome × Leaf K V × Leaf K V → Type (ℓ ⊔ κ)
  Merged l r (what, l', r') =
      (what ≡ merged) × IsFilled t l' × (l'.entries ≡ l.entries ++ r.entries) × (r'.entries ≡ [])

  Merged-run :
      (l r : Leaf K V)
      → IsLeaf t l
      → IsSorted (l.entries ++ r.entries)
      → 1 ≤ count l + count r
      → count l + count r ≤ l_capacity
      → Ensures (Merged l r) (rebalance K V 0 l r)
  unfolding rebalance Leaf.merge
  Merged-run l r w s some_left le =
      let fits : leb (count l + count r) l_capacity ≡ true = ground arith in
      rw fits (
        refl,
        record {
          leaf = record {
            sorted = s;
            bounded = omega (arith, le, length-append l.entries r.entries);
            dated = w.dated;
          };
          filled = omega (arith, some_left, length-append l.entries r.entries);
        },
        refl,
        refl,
      )

  -- A filled leaf and its right sibling that has run empty are merged, not rebalanced: the left one
  -- keeps its entries, within capacity and in order.
  pub rebalance-Merged_right :
      (l r : Leaf K V) → IsFilled t l → r.entries ≡ [] → Ensures (Merged l r) (rebalance K V 0 l r)
  rebalance-Merged_right l r w e =
      let none_right : count r ≡ 0 = ap length e in
      Merged-run l r w.leaf
        (subst (λ z. IsSorted (l.entries ++ z)) (sym e)
          (subst IsSorted (sym (append-nil l.entries)) w.leaf.sorted))
        (omega (arith, w.filled)) (omega (arith, w.leaf.bounded))

  -- A leaf that has run empty and its filled right sibling are merged: the left one takes in the
  -- entries of the right one, within capacity and in order.
  pub rebalance-Merged_left :
      (l r : Leaf K V)
      → IsLeaf t l
      → l.entries ≡ []
      → IsFilled t r
      → Ensures (Merged l r) (rebalance K V 0 l r)
  rebalance-Merged_left l r w e wr =
      let none_left : count l ≡ 0 = ap length e in
      Merged-run l r w (subst (λ z. IsSorted (z ++ r.entries)) (sym e) wr.leaf.sorted)
        (omega (arith, wr.filled)) (omega (arith, wr.leaf.bounded))
