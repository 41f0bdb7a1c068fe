-- ===== src/BpTree/Shrink/Steps.antt =====
-- src/bptree/node.rs: `shrink_decision` on a branch whose two siblings were written.
use concread.BpTree.Branch
use concread.BpTree.Branch.{Branch, with_nodes, replace_by_idx, remove_by_idx, rekey_by_idx}
use concread.BpTree.Branch.Siblings.{
  write_pair, write_pair_left, write_pair_right, node_at-write_pair_left, node_at-write_pair_right,
  remove_rest-write_pair, rekey_rest-write_pair, first-write_pair,
}
use concread.BpTree.Chain.Pair.{splice_pair}
use concread.BpTree.Node
use concread.BpTree.Node.{Node}
use concread.BpTree.Shrink.{merged, moved, rebalance, settle, shrink_decision, Parent}
use concread.BpTree.States.{BranchShrinkState}
use concread.Ord.{Ord}
use concread.Prelude.{
  ℕ, suc, ◌-◌, ◌≤◌, ◌≡◌, List, [], ◌∷◌, refl, ap, length, some, if◌then◌else◌, ◌==◌, arith, ◌>>=◌,
}
use mathlib.Core.Path.{fun_ext}

module _ {ℓ κ} (K : Type ℓ) (V : Type κ) ⦃o : Ord K⦄ (h : ℕ) (b : Parent K V h) (idx : ℕ)
    (in_range : suc idx ≤ length b.rest) where
  abbrev pub written : Node K V h → Node K V h → Parent K V h
  written l r = with_nodes b (write_pair b.first b.rest idx l r)

  abbrev pub spliced : Node K V h → List (K × Node K V h) → Parent K V h
  spliced l seg = with_nodes b (splice_pair b.first b.rest idx l seg)

  rewritten :
      (l r l' r' : Node K V h)
      → replace_by_idx (replace_by_idx (written l r) idx l') (suc idx) r' ≡ written l' r'
  unfolding replace_by_idx
  rewritten l r l' r' =
      rw
        (
          write_pair_left b.first b.rest idx l r l' in_range,
          write_pair_right b.first b.rest idx l' r r' in_range,
        )
        refl

  pub decision :
      (l r : Node K V h)
      → shrink_decision K V h (written l r) (suc idx)
        ≡ (rebalance K V h l r >>= λ (what, l', r'). settle K V h (written l' r') (suc idx) what)
  unfolding shrink_decision
  decision l r =
      let pred : suc idx - 1 ≡ idx = omega arith in
      rw
        (
          pred,
          node_at-write_pair_left b.first b.rest idx l r in_range,
          node_at-write_pair_right b.first b.rest idx l r in_range,
        )
        (ap (λ f. rebalance K V h l r >>= f)
          (fun_ext λ x. ap (λ z. settle K V h z (suc idx) x.0) (rewritten l r x.1 x.2)))

  pub settle-merged :
      (l r : Node K V h)
      → settle K V h (written l r) (suc idx) merged
        ≡ some (
          spliced l [],
          (if Branch.count (spliced l []) == 0
              then BranchShrinkState.shrink r
              else BranchShrinkState.merge r),
        )
  unfolding settle remove_by_idx
  settle-merged l r =
      rw
        (
          remove_rest-write_pair b.first b.rest idx l r in_range,
          first-write_pair b.first b.rest idx l r [],
        )
        refl

  pub settle-moved :
      (l r : Node K V h) (m : K)
      → Node.min K V h r ≡ some m
      → settle K V h (written l r) (suc idx) moved
        ≡ some (spliced l ((m, r) ∷ []), BranchShrinkState.balanced)
  unfolding settle rekey_by_idx
  settle-moved l r m e =
      rw
        (
          node_at-write_pair_right b.first b.rest idx l r in_range,
          e,
          rekey_rest-write_pair b.first b.rest idx l r m,
          first-write_pair b.first b.rest idx l r ((m, r) ∷ []),
        )
        refl
