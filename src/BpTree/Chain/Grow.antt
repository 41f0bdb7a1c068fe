-- ===== src/BpTree/Chain/Grow.antt =====
-- A branch that takes one more child than it had, by either of the two ways of the source.
use concread.BpTree.Branch.{
  Branch, splice, replace_by_idx, add_node, add_node_left, new_branch, with_nodes,
}
use concread.BpTree.Branch.Full.{Cut, add_node_full-Cut}
use concread.BpTree.Branch.FullLeft.{Rekeyed, same, add_node_left-IsCutLeft}
use concread.BpTree.Branch.Search.{slice_insert-splice, first-splice, splice-splice, node_at-splice}
use concread.BpTree.Branch.Steps.{add_node_step, add_node_left_step}
use concread.BpTree.Chain.{Child, chain_view, IsChain}
use concread.BpTree.Chain.Cut.{IsChain-cut, IsChain-Rekeyed, pair-IsChain}
use concread.BpTree.Chain.Focus.{Focus, chain_view-append}
use concread.BpTree.Chain.Insert.{
  IsBranch, IsPair, Settled, Inserted, Top, tree_view, part, replace-Settled,
}
use concread.BpTree.Insert.{grow, settle_child}
use concread.BpTree.Leaf.{l_capacity}
use concread.BpTree.Mem.{Mem}
use concread.BpTree.Node.{concat_rest}
use concread.BpTree.States.{BranchInsertState, CrInsertState}
use concread.Ord.{Ord}
use concread.Prelude.{
  ℕ, List, [], ◌∷◌, ◌++◌, ◌≡◌, refl, ap, sym, ◌∙◌, subst, Option, none, some, arith, length,
  Ensures, Bool-cases, ◌==◌, inl, inr, ◌>>=◌,
}
use concread.SortedMap.{lookup, insert}

module _ {ℓ κ μ} {K : Type ℓ} {V : Type κ} {A : Type μ} ⦃o : Ord K⦄ (ch : Child K V A) where
  open ch use {view, Good}

  abbrev pub with_result :
      Branch K A × Option (Branch K A) × Mem
      → Option (Branch K A × Option V × Option (Branch K A) × Mem)
  with_result (b, right, m) = some (b, none, right, m)

  -- What remains of a split: the kept part, and the two last nodes under a new branch.
  split-Settled :
      (before : List (K × V)) (k : K) (v : V) (n t txid : ℕ) (f l : A) (lk : K)
      (all kept kept' : List (K × A)) (x y : A) (m : Mem)
      → ch.min l ≡ some lk
      → IsChain ch Top f all
      → chain_view ch f all ≡ insert k v before
      → lookup k before ≡ none
      → Cut all kept x y
      → Rekeyed lk l kept kept'
      → Ensures (Settled ch before k v) (
          grow ch.min txid
            (record { nid = n; txid = t; first = f; rest = kept' }, BranchInsertState.split x y)
            m
          >>= with_result)
  unfolding grow new_branch concat_rest
  split-Settled before k v n t txid f l lk all kept kept' x y m e w joined absent cut rk =
      let w' : IsChain ch Top f (kept ++ (cut.left_key, x) ∷ (cut.right_key, y) ∷ []) =
        subst (IsChain ch Top f) cut.whole w in
      let (front, back) = IsChain-cut ch Top f kept cut.left_key x ((cut.right_key, y) ∷ []) w' in
      let (yk, y_v, ys, y_min, y_view) = ch.least y back.4.1 in
      let (front', same_view, same_length) =
        IsChain-Rekeyed ch Top f kept kept' l lk (λ a b p q. tt) e rk front in
      rw y_min (
        record {
          left_branch = record {
            chain = front';
            bounded = omega (arith, same_length, cut.length_kept);
            filled = omega (arith, same_length, cut.length_kept);
          };
          right_branch = record {
            chain = pair-IsChain ch cut.left_key cut.right_key x y yk back y_min;
            bounded = omega arith;
            filled = omega arith;
          };
          joined =
              ap (λ z. z ++ (view x ++ (view y ++ []))) same_view
              ∙ sym (chain_view-append ch f kept cut.left_key x ((cut.right_key, y) ∷ []))
              ∙ sym (ap (chain_view ch f) cut.whole)
              ∙ joined;
          was_absent = absent;
        },
        refl,
      )

  module _ (b : Branch K A) (k : K) (v : V) (idx : ℕ) (w : IsBranch ch b)
      (fo : Focus ch Top b.first b.rest k idx) (txid : ℕ) (mem : Mem) where
    abbrev replaced : A → Branch K A
    replaced l = with_nodes b (splice b.first b.rest idx l [])

    -- `add_node` behind the child that it split from.
    pub add_node-Settled :
        (l r : A)
        → IsPair ch (view fo.child) k v l r
        → Ensures
            (Settled ch (tree_view ch b) k v)
            (add_node ch.min (replaced l) r >>= λ added. grow ch.min txid added mem >>= with_result)
    unfolding grow
    add_node-Settled l r p =
        let (m, r_v, rs, r_min, r_view) = ch.least r p.right_good in
        let (l_m, l_v, ls, l_min, l_view) = ch.least l p.left_good in
        let parted = part ch b k v idx w fo l r m r_min p in
        let size = fo.length-splice l [] in
        let step = add_node_step ch.min (replaced l) r m idx r_min parted.searched in
        let placed = slice_insert-splice b.first b.rest idx l (m, r) fo.in_range in
        let first_same = first-splice b.first b.rest idx l [] ((m, r) ∷ []) in
        elim (Bool-cases (length (splice b.first b.rest idx l []).1 == l_capacity)) [
          | inl full ↦
              let (kept, x, y, out, cut) =
                add_node_full-Cut b.nid b.txid (splice b.first b.rest idx l []).0
                  (splice b.first b.rest idx l []).1 r m idx (ground arith)
                  (omega (arith, fo.in_range, w.bounded)) in
              rw (step, full, out)
                (split-Settled (tree_view ch b) k v b.nid b.txid txid
                  (splice b.first b.rest idx l []).0 l l_m _ kept kept x y mem l_min
                  (rw (placed, first_same) parted.chain) (rw (placed, first_same) parted.joined)
                  parted.was_absent cut (same refl))
          | inr space ↦
              rw (step, space, placed, first_same)
                (
                  record {
                    chain = parted.chain;
                    bounded = ground (arith, size, fo.length-splice l ((m, r) ∷ []), w.bounded);
                    filled = omega (arith, fo.length-splice l ((m, r) ∷ []));
                  },
                  parted.joined,
                  sym parted.was_absent,
                )
        ]

    -- `add_node_left` before the child that it split from.
    pub add_node_left-Settled :
        (n l : A)
        → IsPair ch (view fo.child) k v l n
        → Ensures (Settled ch (tree_view ch b) k v) (
            add_node_left ch.min (replaced n) l idx >>= λ added.
            grow ch.min txid added mem >>= with_result)
    unfolding grow
    add_node_left-Settled n l p =
        let (m, r_v, rs, r_min, r_view) = ch.least n p.right_good in
        let (l_m, l_v, ls, l_min, l_view) = ch.least l p.left_good in
        let parted = part ch b k v idx w fo l n m r_min p in
        let size = fo.length-splice n [] in
        let again = splice-splice b.first b.rest idx n l ((m, n) ∷ []) in
        let sib = node_at-splice b.first b.rest idx n fo.in_range in
        elim (Bool-cases (length (splice b.first b.rest idx n []).1 == l_capacity)) [
          | inl full ↦
              let c =
                add_node_left-IsCutLeft ch.min b.nid b.txid (splice b.first b.rest idx n []).0 l m
                  l_m (splice b.first b.rest idx n []).1 idx (ground arith)
                  (omega (arith, fo.in_range, w.bounded)) l_min (ground (arith, sib, r_min)) in
              let sib_is : c.sib ≡ n = ground (arith, sib, c.found) in
              let again' =
                subst
                  (λ z.
                    splice (splice b.first b.rest idx n []).0 (splice b.first b.rest idx n []).1 idx
                      l ((m, z) ∷ [])
                    ≡ splice b.first b.rest idx l ((m, n) ∷ []))
                  (sym sib_is) again in
              rw (c.out) (
                split-Settled (tree_view ch b) k v b.nid b.txid txid _ l l_m _ c.kept c.kept' c.left
                  c.right mem l_min (rw again' parted.chain) (rw again' parted.joined)
                  parted.was_absent c.cut c.rekeyed)
          | inr space ↦
              rw (add_node_left_step ch.min (replaced n) l n m idx space sib r_min, again)
                (
                  record {
                    chain = parted.chain;
                    bounded = ground (arith, size, fo.length-splice l ((m, n) ∷ []), w.bounded);
                    filled = omega (arith, fo.length-splice l ((m, n) ∷ []));
                  },
                  parted.joined,
                  sym parted.was_absent,
                )
        ]

    -- A branch settles whatever its child reports of the insert.
    pub settle_child-Settled :
        (s : CrInsertState A V)
        → Inserted ch (view fo.child) k v s
        → Ensures (Settled ch (tree_view ch b) k v) (settle_child ch.min b idx txid s mem)
    unfolding settle_child replace_by_idx
    settle_child-Settled (CrInsertState.no_clone c res) i =
        replace-Settled ch b k v idx w fo c res mem i
    settle_child-Settled (CrInsertState.clone c res) i =
        replace-Settled ch b k v idx w fo c res mem i
    settle_child-Settled (CrInsertState.split l r) i = add_node-Settled l r i
    settle_child-Settled (CrInsertState.clone_split l r) i = add_node-Settled l r i
    settle_child-Settled (CrInsertState.rev_split n l) i = add_node_left-Settled n l i
    settle_child-Settled (CrInsertState.clone_rev_split n l) i = add_node_left-Settled n l i
