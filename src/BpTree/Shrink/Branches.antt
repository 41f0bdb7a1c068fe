-- ===== src/BpTree/Shrink/Branches.antt =====
-- src/bptree/node.rs: two sibling branches of which one is left with a single child.
use concread.BpTree.Branch
use concread.BpTree.Branch.{
  Branch, merge, take_from_l_to_r, take_from_r_to_l, from_nodes, rekey_all, node_at,
}
use concread.BpTree.Branch.Full.{list_of_seven}
use concread.BpTree.Chain.{Child, chain_view, IsChain}
use concread.BpTree.Chain.Cut.{IsChain-cut}
use concread.BpTree.Chain.Focus.{chain_view-append}
use concread.BpTree.Chain.Insert.{IsBranch, Top, tree_view}
use concread.BpTree.Chain.Join.{
  chain_first, join_last, join_first, rekey_all-IsChain, chain_view-one, IsChain-raise, all_top,
}
use concread.BpTree.Node.{concat_rest}
use concread.Ord.{Ord, IsPlain, ◌≼◌}
use concread.Prelude.{
  ℕ, ◌≤◌, [], ◌∷◌, ◌++◌, ◌≡◌, refl, ap, sym, ◌∙◌, subst, arith, length, length-append, append-nil,
  Ensures, ◌==◌, true, false,
}
use concread.Slice.{slice_insert}
use concread.Slice.Laws.{slice_insert_at}
use concread.SortedMap.{IsSorted}

module _ {ℓ κ μ} {K : Type ℓ} {V : Type κ} {A : Type μ} ⦃o : Ord K⦄ (ch : Child K V A) where
  open ch use {view, Good}

  -- What is left of a branch whose other child was merged away.
  pub record IsSingle (b : Branch K A) : Type (ℓ ⊔ μ) where
    pub alone : b.rest ≡ []
    pub good : Good b.first

  single_view : (b : Branch K A) → IsSingle b → tree_view ch b ≡ view b.first
  unfolding concat_rest
  single_view b w = ap (λ z. view b.first ++ concat_rest view z) w.alone ∙ append-nil (view b.first)

  -- The left branch holds everything.
  abbrev pub JoinedTo : Branch K A → Branch K A → Branch K A × Branch K A → Type (ℓ ⊔ κ)
  JoinedTo l r (l', r') =
      IsBranch ch l' × (l'.txid ≡ l.txid) × (tree_view ch l' ≡ tree_view ch l ++ tree_view ch r)

  -- Both branches are good again.
  abbrev pub SharedTo : Branch K A → Branch K A → Branch K A × Branch K A → Type (ℓ ⊔ κ)
  SharedTo l r (l', r') =
      (IsBranch ch l' × (l'.txid ≡ l.txid))
      × (IsBranch ch r' × (r'.txid ≡ r.txid))
      × (tree_view ch l' ++ tree_view ch r' ≡ tree_view ch l ++ tree_view ch r)

  -- A full left branch gives its last three children away.
  take_l_run :
      IsPlain K
      → (n t n' t' : ℕ) (f x : A) (a b c d e g h : K × A)
      → let l : Branch K A = record {
        nid = n;
        txid = t;
        first = f;
        rest = a ∷ b ∷ c ∷ d ∷ e ∷ g ∷ h ∷ [];
      } in
        let r : Branch K A = record { nid = n'; txid = t'; first = x; rest = [] } in
        IsChain ch Top f l.rest
        → Good x
        → IsSorted (tree_view ch l ++ view x)
        → Ensures (SharedTo l r) (take_from_l_to_r ch.min o.dropped l r)
  unfolding take_from_l_to_r from_nodes concat_rest
  take_l_run plain n t n' t' f x a b c d e g h w good s =
      let (m, v, xs, m_x, whole) = ch.least x good in
      let seven = a ∷ b ∷ c ∷ d ∷ e ∷ g ∷ h ∷ [] in
      let kept = a ∷ b ∷ c ∷ d ∷ [] in
      let tail = g ∷ h ∷ (m, x) ∷ [] in
      let all = join_last ch f seven x m w good m_x s in
      let (front, back) = IsChain-cut ch Top f kept e.0 e.1 tail all in
      let (rest', run, chained, same, len) =
        rekey_all-IsChain ch (λ y. e.0 ≼ y) Top e.1 tail (λ y z p q. tt) (all_top ch (view e.1))
          back in
      rw (run, plain d.0)
        (
          (record { chain = front; bounded = omega arith; filled = omega arith }, refl),
          (
            record { chain = chained; bounded = omega (arith, len); filled = omega (arith, len) },
            refl,
          ),
          ap (λ z. chain_view ch f kept ++ (view e.1 ++ z)) same
              ∙ sym (chain_view-append ch f kept e.0 e.1 tail)
              ∙ chain_view-one ch f seven m x
              ∙ ap (◌++◌ (chain_view ch f seven)) (sym (append-nil (view x))),
        )

  -- A full right branch gives its first three children away.
  take_r_run :
      (n t n' t' : ℕ) (x f : A) (a b c d e g h : K × A)
      → let l : Branch K A = record { nid = n; txid = t; first = x; rest = [] } in
        let r : Branch K A = record {
          nid = n';
          txid = t';
          first = f;
          rest = a ∷ b ∷ c ∷ d ∷ e ∷ g ∷ h ∷ [];
        } in
        IsChain ch Top f r.rest
        → Good x
        → IsSorted (view x ++ tree_view ch r)
        → Ensures (SharedTo l r) (take_from_r_to_l ch.min l r)
  unfolding take_from_r_to_l node_at concat_rest
  take_r_run n t n' t' x f a b c d e g h w good s =
      let seven = a ∷ b ∷ c ∷ d ∷ e ∷ g ∷ h ∷ [] in
      let (m, v, xs, m_f, whole) = ch.least f (chain_first ch Top f seven w).1 in
      let kept = (m, f) ∷ a ∷ b ∷ [] in
      let tail = d ∷ e ∷ g ∷ h ∷ [] in
      let all = join_first ch x f seven m good w m_f s in
      let (front, back) = IsChain-cut ch Top x kept c.0 c.1 tail all in
      let (rest', run, chained, same, len) =
        rekey_all-IsChain ch Top Top x kept (λ y z p q. tt) (all_top ch (view x)) front in
      rw run (
        (
          record { chain = chained; bounded = omega (arith, len); filled = omega (arith, len) },
          refl,
        ),
        (
          record {
            chain =
                IsChain-raise ch (λ y. c.0 ≼ y) Top c.1 tail (λ y z p q. tt) (all_top ch (view c.1))
                  back;
            bounded = omega arith;
            filled = omega arith;
          },
          refl,
        ),
        ap (λ z. (view x ++ z) ++ chain_view ch c.1 tail) same
            ∙ sym (chain_view-append ch x kept c.0 c.1 tail)
            ∙ ap (λ z. z ++ chain_view ch f seven) (sym (append-nil (view x))),
      )

  module _ (l r : Branch K A) (s : IsSorted (tree_view ch l ++ tree_view ch r)) where
    module _ (w : IsBranch ch l) (one : IsSingle r) where
      IsSorted-right : IsSorted (tree_view ch l ++ view r.first)
      IsSorted-right = subst (λ z. IsSorted (tree_view ch l ++ z)) (single_view r one) s

      pub merge-JoinedTo_right : Branch.count l ≤ 6 → Ensures (JoinedTo l r) (merge ch.min l r)
      unfolding merge
      merge-JoinedTo_right le =
          let (m, v, xs, e, whole) = ch.least r.first one.good in
          let empty : (Branch.count r == 0) ≡ true = ground (arith, ap length one.alone) in
          let put : slice_insert l.rest (m, r.first) (Branch.count l)
              ≡ l.rest ++ (m, r.first) ∷ [] =
            ap (λ z. slice_insert z (m, r.first) (Branch.count l)) (sym (append-nil l.rest))
            ∙ slice_insert_at l.rest [] (m, r.first) in
          let size = length-append l.rest ((m, r.first) ∷ []) in
          rw (e, empty, put)
            (
              record {
                chain = join_last ch l.first l.rest r.first m w.chain one.good e IsSorted-right;
                bounded = omega (arith, size);
                filled = omega (arith, size);
              },
              refl,
              chain_view-one ch l.first l.rest m r.first
                  ∙ ap (◌++◌ (tree_view ch l)) (sym (single_view r one)),
            )

      pub take_from_l_to_r-SharedTo :
          IsPlain K
          → Branch.count l ≡ 7
          → Ensures (SharedTo l r) (take_from_l_to_r ch.min o.dropped l r)
      take_from_l_to_r-SharedTo plain full =
          let (a, b, c, d, e, g, h, is) = list_of_seven l.rest full in
          rw (is, one.alone)
            (take_l_run plain l.nid l.txid r.nid r.txid l.first r.first a b c d e g h
              (subst (IsChain ch Top l.first) is w.chain) one.good
              (subst (λ z. IsSorted (chain_view ch l.first z ++ view r.first)) is IsSorted-right))

    module _ (one : IsSingle l) (w : IsBranch ch r) where
      IsSorted-left : IsSorted (view l.first ++ tree_view ch r)
      IsSorted-left = subst (λ z. IsSorted (z ++ tree_view ch r)) (single_view l one) s

      pub merge-JoinedTo_left : Branch.count r ≤ 6 → Ensures (JoinedTo l r) (merge ch.min l r)
      unfolding merge concat_rest
      merge-JoinedTo_left le =
          let good = (chain_first ch Top r.first r.rest w.chain).1 in
          let (m, v, xs, e, whole) = ch.least r.first good in
          let some_right : (Branch.count r == 0) ≡ false = ground (arith, w.filled) in
          rw (e, some_right)
            (
              record {
                chain = join_first ch l.first r.first r.rest m one.good w.chain e IsSorted-left;
                bounded = omega (arith, le);
                filled = omega arith;
              },
              refl,
              ap (λ z. z ++ tree_view ch r) (sym (single_view l one)),
            )

      pub take_from_r_to_l-SharedTo :
          Branch.count r ≡ 7 → Ensures (SharedTo l r) (take_from_r_to_l ch.min l r)
      take_from_r_to_l-SharedTo full =
          let (a, b, c, d, e, g, h, is) = list_of_seven r.rest full in
          rw (is, one.alone)
            (take_r_run l.nid l.txid r.nid r.txid l.first r.first a b c d e g h
              (subst (IsChain ch Top r.first) is w.chain) one.good
              (subst (λ z. IsSorted (view l.first ++ chain_view ch r.first z)) is IsSorted-left))
