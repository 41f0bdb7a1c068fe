-- ===== src/BpTree/Tree/Rebalance.antt =====
-- Two siblings of any height of which one has shrunk: after `rebalance` the left one holds all
-- entries, or both are good again.
use concread.BpTree.Branch
use concread.BpTree.Branch.{Branch, take_from_l_to_r, take_from_r_to_l, merge}
use concread.BpTree.Chain.{Child}
use concread.BpTree.Chain.Insert.{IsBranch, tree_view}
use concread.BpTree.Leaf.{Leaf, l_capacity}
use concread.BpTree.Leaf.Laws.{IsLeaf}
use concread.BpTree.Node
use concread.BpTree.Node.{Node}
use concread.BpTree.Shrink.{Outcome, merged, moved, kept, rebalance}
use concread.BpTree.Shrink.Branches.{
  IsSingle, JoinedTo, SharedTo, merge-JoinedTo_right, merge-JoinedTo_left,
  take_from_l_to_r-SharedTo, take_from_r_to_l-SharedTo,
}
use concread.BpTree.Shrink.Laws
use concread.BpTree.Shrink.Laws.{rebalance-Merged_right, rebalance-Merged_left}
use concread.BpTree.Tree.{node_child}
use concread.BpTree.Tree.Dates.{min-node_min}
use concread.BpTree.Tree.Insert.{to_good, to_view}
use concread.Ord.{Ord, IsPlain}
use concread.Prelude.{
  ℕ, zero, suc, List, [], ◌++◌, ◌≡◌, refl, ap, sym, ◌∙◌, subst, some, arith, length, Ensures,
  Ensures-bind, Ensures-imp, Bool-cases, inl, inr, ◌==◌, false, ◌>>=◌, Absurd,
}
use concread.SortedMap.{IsSorted}

module _ {ℓ κ} (K : Type ℓ) (V : Type κ) ⦃o : Ord K⦄ where
  -- A leaf that has run empty, or a branch with a single child.
  abbrev pub IsShrunk : (h t : ℕ) → Node K V h → Type (ℓ ⊔ κ)
  IsShrunk zero t l = IsLeaf t l × (l.entries ≡ [])
  IsShrunk (suc h) t b = (b.txid ≡ t) × IsSingle (node_child K V h t) b

  abbrev pub Rebalanced :
      (h t : ℕ) → List (K × V) → Outcome × Node K V h × Node K V h → Type (ℓ ⊔ κ)
  Rebalanced h t xs (merged, l, r) =
      (node_child K V h t).Good l × ((node_child K V h t).view l ≡ xs)
  Rebalanced h t xs (moved, l, r) =
      (node_child K V h t).Good l
      × (node_child K V h t).Good r
      × ((node_child K V h t).view l ++ (node_child K V h t).view r ≡ xs)
  Rebalanced h t xs (kept, l, r) = Absurd

  leaf-Merged :
      (t : ℕ) (l r : Leaf K V) (z : Outcome × Leaf K V × Leaf K V)
      → Laws.Merged t l r z
      → Rebalanced 0 t (l.entries ++ r.entries) z
  unfolding node_child
  leaf-Merged t l r (merged, l', r') m = (m.1, m.2)
  leaf-Merged t l r (moved, l', r') m = let e : moved ≡ merged = m.0 in absurd cc
  leaf-Merged t l r (kept, l', r') m = let e : kept ≡ merged = m.0 in absurd cc

  module _ (h t : ℕ) (l r : Branch K (Node K V h)) (le : l.txid ≡ t) (re : r.txid ≡ t)
      (s : IsSorted ((node_child K V (suc h) t).view l ++ (node_child K V (suc h) t).view r)) where
    abbrev ch : Child K V (Node K V h)
    ch = node_child K V h t

    views :
        (node_child K V (suc h) t).view l ++ (node_child K V (suc h) t).view r
        ≡ tree_view ch l ++ tree_view ch r
    unfolding node_child
    views = rw (to_view K V h t l le, to_view K V h t r re) refl

    sorted : IsSorted (tree_view ch l ++ tree_view ch r)
    sorted = subst IsSorted views s

    joined :
        (z : Branch K (Node K V h) × Branch K (Node K V h))
        → JoinedTo ch l r z
        → Rebalanced
            (suc h)
            t
            ((node_child K V (suc h) t).view l ++ (node_child K V (suc h) t).view r)
            (merged, z.0, z.1)
    unfolding node_child
    joined (l', r') p =
        (to_good K V h t l' (p.1 ∙ le) p.0, to_view K V h t l' (p.1 ∙ le) ∙ p.2 ∙ sym views)

    shared :
        (z : Branch K (Node K V h) × Branch K (Node K V h))
        → SharedTo ch l r z
        → Rebalanced
            (suc h)
            t
            ((node_child K V (suc h) t).view l ++ (node_child K V (suc h) t).view r)
            (moved, z.0, z.1)
    unfolding node_child
    shared (l', r') p = (
      to_good K V h t l' (p.0.1 ∙ le) p.0.0,
      to_good K V h t r' (p.1.1 ∙ re) p.1.0,
      rw (to_view K V h t l' (p.0.1 ∙ le), to_view K V h t r' (p.1.1 ∙ re)) (p.2 ∙ sym views),
    )

    abbrev All_of : List (K × V)
    All_of = (node_child K V (suc h) t).view l ++ (node_child K V (suc h) t).view r

    merge-Rebalanced :
        Ensures (JoinedTo ch l r) (merge ch.min l r)
        → Ensures
            (Rebalanced (suc h) t All_of)
            (merge (Node.min K V h) l r >>= λ (l', r'). some (merged, l', r'))
    merge-Rebalanced j =
        Ensures-bind {B = Outcome × Branch K (Node K V h) × Branch K (Node K V h)} (JoinedTo ch l r)
          (Rebalanced (suc h) t All_of) (merge (Node.min K V h) l r)
          (λ (l', r'). some (merged, l', r'))
          (subst (λ f. Ensures (JoinedTo ch l r) (merge f l r)) (min-node_min K V h t) j)
          λ z is p. joined z p

    share_l-Rebalanced :
        Ensures (SharedTo ch l r) (take_from_l_to_r ch.min o.dropped l r)
        → Ensures
            (Rebalanced (suc h) t All_of)
            (take_from_l_to_r (Node.min K V h) o.dropped l r >>= λ (l', r'). some (moved, l', r'))
    share_l-Rebalanced j =
        Ensures-bind {B = Outcome × Branch K (Node K V h) × Branch K (Node K V h)} (SharedTo ch l r)
          (Rebalanced (suc h) t All_of) (take_from_l_to_r (Node.min K V h) o.dropped l r)
          (λ (l', r'). some (moved, l', r'))
          (subst (λ f. Ensures (SharedTo ch l r) (take_from_l_to_r f o.dropped l r))
            (min-node_min K V h t) j)
          λ z is p. shared z p

    share_r-Rebalanced :
        Ensures (SharedTo ch l r) (take_from_r_to_l ch.min l r)
        → Ensures
            (Rebalanced (suc h) t All_of)
            (take_from_r_to_l (Node.min K V h) l r >>= λ (l', r'). some (moved, l', r'))
    share_r-Rebalanced j =
        Ensures-bind {B = Outcome × Branch K (Node K V h) × Branch K (Node K V h)} (SharedTo ch l r)
          (Rebalanced (suc h) t All_of) (take_from_r_to_l (Node.min K V h) l r)
          (λ (l', r'). some (moved, l', r'))
          (subst (λ f. Ensures (SharedTo ch l r) (take_from_r_to_l f l r)) (min-node_min K V h t) j)
          λ z is p. shared z p

    branch-right :
        IsPlain K
        → IsBranch ch l
        → IsSingle ch r
        → Ensures (Rebalanced (suc h) t All_of) (rebalance K V (suc h) l r)
    unfolding rebalance
    branch-right plain w one =
        let none_right : (Branch.count r == l_capacity) ≡ false =
          ground (arith, ap length one.alone) in
        elim (Bool-cases (Branch.count l == l_capacity)) [
          | inl e ↦ rw e (
              share_l-Rebalanced
                (take_from_l_to_r-SharedTo ch l r sorted w one plain (ground arith)))
          | inr e ↦
              rw (e, none_right)
                (merge-Rebalanced
                  (merge-JoinedTo_right ch l r sorted w one (ground (arith, w.bounded))))
        ]

    branch-left :
        IsSingle ch l
        → IsBranch ch r
        → Ensures (Rebalanced (suc h) t All_of) (rebalance K V (suc h) l r)
    unfolding rebalance
    branch-left one w =
        let none_left : (Branch.count l == l_capacity) ≡ false =
          ground (arith, ap length one.alone) in
        elim (Bool-cases (Branch.count r == l_capacity)) [
          | inl e ↦
              rw (none_left, e)
                (share_r-Rebalanced (take_from_r_to_l-SharedTo ch l r sorted one w (ground arith)))
          | inr e ↦
              rw (none_left, e)
                (merge-Rebalanced
                  (merge-JoinedTo_left ch l r sorted one w (ground (arith, w.bounded))))
        ]

  -- The siblings at any height, of which the right one has shrunk.
  pub rebalance-right :
      IsPlain K
      → (h t : ℕ) (l r : Node K V h) → (node_child K V h t).Good l
      → Node.txid K V h l ≡ t
      → IsShrunk h t r
      → IsSorted ((node_child K V h t).view l ++ (node_child K V h t).view r)
      → Ensures
          (Rebalanced h t ((node_child K V h t).view l ++ (node_child K V h t).view r))
          (rebalance K V h l r)
  unfolding node_child
  rebalance-right plain zero t l r g e w s =
      Ensures-imp (Laws.Merged t l r) (Rebalanced 0 t (l.entries ++ r.entries))
        (rebalance K V 0 l r) (rebalance-Merged_right t l r g w.1) (leaf-Merged t l r)
  rebalance-right plain (suc h) t l r g e w s =
      branch-right h t l r e w.0 s plain (subst (λ z. IsBranch (node_child K V h z) l) e g.branch)
        w.1

  -- The same, of which the left one has shrunk.
  pub rebalance-left :
      (h t : ℕ) (l r : Node K V h)
      → IsShrunk h t l
      → (node_child K V h t).Good r
      → Node.txid K V h r ≡ t
      → IsSorted ((node_child K V h t).view l ++ (node_child K V h t).view r)
      → Ensures
          (Rebalanced h t ((node_child K V h t).view l ++ (node_child K V h t).view r))
          (rebalance K V h l r)
  unfolding node_child
  rebalance-left zero t l r w g e s =
      Ensures-imp (Laws.Merged t l r) (Rebalanced 0 t (l.entries ++ r.entries))
        (rebalance K V 0 l r) (rebalance-Merged_left t l r w.0 w.1 g) (leaf-Merged t l r)
  rebalance-left (suc h) t l r w g e s =
      branch-left h t l r w.0 e s w.1 (subst (λ z. IsBranch (node_child K V h z) r) e g.branch)
