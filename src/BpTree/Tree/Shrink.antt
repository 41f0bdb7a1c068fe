-- ===== src/BpTree/Tree/Shrink.antt =====
-- A branch whose child has shrunk: its sibling is cloned if need be, the two are settled, and the
-- branch is good again or has shrunk in turn.
use concread.BpTree.Branch
use concread.BpTree.Branch.{Branch, node_at, with_nodes, replace_by_idx, splice}
use concread.BpTree.Branch.Siblings.{splice-write_pair_left, splice-write_pair_right}
use concread.BpTree.Chain.{Child}
use concread.BpTree.Chain.Insert.{IsBranch, Top, tree_view}
use concread.BpTree.Chain.Join.{chain_first}
use concread.BpTree.Chain.Pair.{Pair}
use concread.BpTree.Chain.Remove.{middle, middle-IsSorted, one_left, two_left}
use concread.BpTree.Mem.{Mem, push_last}
use concread.BpTree.Node
use concread.BpTree.Node.{Node}
use concread.BpTree.Shrink.{
  Outcome, merged, moved, kept, Parent, rebalance, settle, shrink_decision, clone_sibling_idx,
}
use concread.BpTree.Remove.{shrink_child}
use concread.BpTree.Shrink.Branches.{IsSingle}
use concread.BpTree.Shrink.Steps.{written, spliced, decision, settle-merged, settle-moved}
use concread.BpTree.States.{BranchShrinkState}
use concread.BpTree.Tree.{node_child}
use concread.BpTree.Tree.Dates.{min-node_min}
use concread.BpTree.Tree.Sibling.{sibling_left, sibling_right}
use concread.BpTree.Tree.Rebalance.{IsShrunk, Rebalanced, rebalance-left, rebalance-right}
use concread.Ord.{Ord, IsPlain, ◌≺◌, ◌≼◌, lt_le_trans}
use concread.Prelude.{
  ℕ, suc, ◌≤◌, List, [], ◌∷◌, ◌++◌, ◌≡◌, refl, ap, sym, ◌∙◌, subst, Bool, true, false, Option, some,
  arith, length, Ensures, Ensures-bind, Bool-cases, inl, inr, ◌==◌,
}
use concread.SortedMap.{IsSorted, remove}
use concread.SortedMap.Laws.{AllKeys-imp, remove-IsSorted, remove_stop, remove_skip}

empty_of_count {ℓ} : {A : Type ℓ} (xs : List A) → (length xs == 0) ≡ true → xs ≡ []
empty_of_count [] e = refl
empty_of_count (x ∷ xs) e = absurd (ground arith)

module _ {ℓ κ} (K : Type ℓ) (V : Type κ) ⦃o : Ord K⦄ where
  module _ (h t : ℕ) where
    abbrev ch : Child K V (Node K V h)
    ch = node_child K V h t

    -- The branch is good, or it is left with one child; either way the entry is gone.
    abbrev pub Stays : Parent K V h → K → Parent K V h → Type (ℓ ⊔ κ)
    Stays b k b' =
        IsBranch ch b' × (b'.txid ≡ b.txid) × (tree_view ch b' ≡ remove k (tree_view ch b))

    abbrev pub Shrinks : Parent K V h → K → Parent K V h → Type (ℓ ⊔ κ)
    Shrinks b k b' =
        IsSingle ch b' × (b'.txid ≡ b.txid) × (tree_view ch b' ≡ remove k (tree_view ch b))

    abbrev Decided : Parent K V h → K → Parent K V h × BranchShrinkState (Node K V h) → Type (ℓ ⊔ κ)
    Decided b k (b', BranchShrinkState.balanced) = Stays b k b'
    Decided b k (b', BranchShrinkState.merge d) = Stays b k b'
    Decided b k (b', BranchShrinkState.shrink d) = Shrinks b k b'

    abbrev pub ShrunkTo : Parent K V h → K → Parent K V h × Bool × Mem → Type (ℓ ⊔ κ)
    ShrunkTo b k (b', false, m) = Stays b k b'
    ShrunkTo b k (b', true, m) = Shrinks b k b'

    module _ (b : Parent K V h) (k : K) (idx : ℕ) (w : IsBranch ch b) (S : K → Type 0)
        (p : Pair ch Top b.first b.rest k idx S) where
      in_range : suc idx ≤ length b.rest
      in_range = omega (arith, p.in_range)

      settle-Decided :
          (r : Outcome × Node K V h × Node K V h)
          → Rebalanced K V h t (remove k (middle ch b k idx w S p)) r
          → Ensures
              (Decided b k)
              (settle K V h (written K V h b idx in_range r.1 r.2) (suc idx) r.0)
      settle-Decided (merged, l', r') q =
          let one = one_left ch b k idx w S p l' q.0 q.1 in
          let b' = spliced K V h b idx in_range l' [] in
          rw (settle-merged K V h b idx in_range l' r') (elim (Bool-cases (Branch.count b' == 0)) [
            | inl e ↦ rw e (
              record {
                alone = empty_of_count b'.rest e;
                good = (chain_first ch Top b'.first b'.rest one.chain).1;
              },
              refl,
              one.stored,
            )
            | inr e ↦ rw e (
              record {
                chain = one.chain;
                bounded = omega (arith, one.one_less, w.bounded);
                filled = ground arith;
              },
              refl,
              one.stored,
            )
          ])
      settle-Decided (moved, l', r') q =
          let (m, v, xs, e, whole) = ch.least r' q.1 in
          let e' : Node.min K V h r' ≡ some m = ap (λ f. f r') (sym (min-node_min K V h t)) ∙ e in
          let two = two_left ch b k idx w S p l' r' m q.0 q.1 e q.2 in
          rw (settle-moved K V h b idx in_range l' r' m e') (two.0, refl, two.1)
      settle-Decided (kept, l', r') q = elim q [ ]

      decided :
          (l r : Node K V h)
          → Ensures (Rebalanced K V h t (remove k (middle ch b k idx w S p))) (rebalance K V h l r)
          → Ensures
              (Decided b k)
              (shrink_decision K V h (written K V h b idx in_range l r) (suc idx))
      decided l r q = rw (decision K V h b idx in_range l r) (
          Ensures-bind {B = Parent K V h × BranchShrinkState (Node K V h)}
            (Rebalanced K V h t (remove k (middle ch b k idx w S p))) (Decided b k)
            (rebalance K V h l r)
            (λ (what, l', r'). settle K V h (written K V h b idx in_range l' r') (suc idx) what) q
            λ z is x. settle-Decided z x)

      -- `shrink_child` after its sibling was cloned.
      abbrev release :
          Mem → Parent K V h × BranchShrinkState (Node K V h) → Option (Parent K V h × Bool × Mem)
      release m (b'', s) = some (elim s [
        | BranchShrinkState.balanced ↦ (b'', false, m)
        | BranchShrinkState.merge dnode ↦ (b'', false, push_last (Node.nid K V h dnode) m)
        | BranchShrinkState.shrink dnode ↦ (b'', true, push_last (Node.nid K V h dnode) m)
      ])

      release-ShrunkTo :
          (m : Mem) (z : Parent K V h × BranchShrinkState (Node K V h))
          → Decided b k z
          → Ensures (ShrunkTo b k) (release m z)
      release-ShrunkTo m (b', BranchShrinkState.balanced) d = d
      release-ShrunkTo m (b', BranchShrinkState.merge n) d = d
      release-ShrunkTo m (b', BranchShrinkState.shrink n) d = d

      shrunk :
          (l r : Node K V h) (b' : Parent K V h) (ix : ℕ) (m m' : Mem)
          → clone_sibling_idx K V h b' t ix m ≡ some (suc idx, written K V h b idx in_range l r, m')
          → Ensures (Rebalanced K V h t (remove k (middle ch b k idx w S p))) (rebalance K V h l r)
          → Ensures (ShrunkTo b k) (shrink_child K V h b' ix t m)
      unfolding shrink_child
      shrunk l r b' ix m m' e q = rw e (
          Ensures-bind {B = Parent K V h × Bool × Mem} (Decided b k) (ShrunkTo b k)
            (shrink_decision K V h (written K V h b idx in_range l r) (suc idx)) (release m')
            (decided l r q) λ z is d. release-ShrunkTo m' z d)

    module _ (b : Parent K V h) (k : K) (w : IsBranch ch b) (c : Node K V h)
        (small : IsShrunk K V h t c) where
      module _ (p : Pair ch Top b.first b.rest k 0 (λ x. k ≺ x))
          (gone : ch.view c ≡ remove k (ch.view p.left)) where
        -- The first child has shrunk.
        pub shrink_child-first :
            (m : Mem) → Ensures (ShrunkTo b k) (shrink_child K V h (replace_by_idx b 0 c) 0 t m)
        unfolding replace_by_idx
        shrink_child-first m =
            let range = in_range b k 0 w (λ x. k ≺ x) p in
            let here : with_nodes b (splice b.first b.rest 0 c [])
                ≡ written K V h b 0 range c p.right =
              ap (with_nodes b) (splice-write_pair_left b.first b.rest 0 c p.right p.found_right) in
            let (r, m', e, own) = sibling_right K V h t b range c p.right m p.right_good in
            let joined : ch.view c ++ ch.view r ≡ remove k (middle ch b k 0 w (λ x. k ≺ x) p) =
              ap (λ z. z ++ ch.view r) gone
              ∙ ap (◌++◌ (remove k (ch.view p.left))) own.same_view
              ∙ sym (
                  remove_stop k (ch.view p.left) (ch.view p.right) (
                    AllKeys-imp _ _ (λ x. lt_le_trans k p.sep x p.side) (ch.view p.right)
                      p.sep_right)) in
            shrunk b k 0 w (λ x. k ≺ x) p c r _ 0 m m'
              (ap (λ z. clone_sibling_idx K V h z t 0 m) here ∙ e)
              (subst (λ z. Ensures (Rebalanced K V h t z) (rebalance K V h c r)) joined
                (rebalance-left K V h t c r small own.good own.same_txid (
                  subst IsSorted (sym joined) (
                    remove-IsSorted k (middle ch b k 0 w (λ x. k ≺ x) p)
                      (middle-IsSorted ch b k 0 w (λ x. k ≺ x) p)))))

      module _ (idx : ℕ) (p : Pair ch Top b.first b.rest k idx (λ x. x ≼ k))
          (gone : ch.view c ≡ remove k (ch.view p.right)) where
        -- Another child has shrunk.
        pub shrink_child-other :
            IsPlain K
            → (m : Mem)
            → Ensures
                (ShrunkTo b k)
                (shrink_child K V h (replace_by_idx b (suc idx) c) (suc idx) t m)
        unfolding replace_by_idx
        shrink_child-other plain m =
            let range = in_range b k idx w (λ x. x ≼ k) p in
            let here : with_nodes b (splice b.first b.rest (suc idx) c [])
                ≡ written K V h b idx range p.left c =
              ap (with_nodes b)
                (splice-write_pair_right b.first b.rest idx p.left c p.found_left range) in
            let (l, m', e, own) = sibling_left K V h t b idx range p.left c m p.left_good in
            let joined : ch.view l ++ ch.view c ≡ remove k (middle ch b k idx w (λ x. x ≼ k) p) =
              ap (◌++◌ (ch.view l)) gone
              ∙ ap (λ z. z ++ remove k (ch.view p.right)) own.same_view
              ∙ sym (
                  remove_skip k (ch.view p.left) (ch.view p.right) (
                    AllKeys-imp _ _ (λ x q. lt_le_trans x p.sep k q p.side) (ch.view p.left)
                      p.left_sep)) in
            shrunk b k idx w (λ x. x ≼ k) p l c _ (suc idx) m m'
              (ap (λ z. clone_sibling_idx K V h z t (suc idx) m) here ∙ e)
              (subst (λ z. Ensures (Rebalanced K V h t z) (rebalance K V h l c)) joined
                (rebalance-right K V plain h t l c own.good own.same_txid small (
                  subst IsSorted (sym joined) (
                    remove-IsSorted k (middle ch b k idx w (λ x. x ≼ k) p)
                      (middle-IsSorted ch b k idx w (λ x. x ≼ k) p)))))
