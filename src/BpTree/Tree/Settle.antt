-- ===== src/BpTree/Tree/Settle.antt =====
-- A branch settles what a remove made of its child.
use concread.BpTree.Branch.{Branch, replace_by_idx, node_at}
use concread.BpTree.Branch.Search.{locate_rest}
use concread.BpTree.Chain.{Child}
use concread.BpTree.Chain.Focus.{Focus}
use concread.BpTree.Chain.Insert.{IsBranch, Top, tree_view}
use concread.BpTree.Chain.Pair.{left-Pair, right-Pair}
use concread.BpTree.Chain.Remove.{replace-IsBranch, replace_view, lookup-child}
use concread.BpTree.Mem.{Mem}
use concread.BpTree.Node.{Node}
use concread.BpTree.Remove.{settle_child, shrink_child, branch_in_place, branch_cloned}
use concread.BpTree.Tree.Remove.{RemovedTo, in_place}
use concread.BpTree.Shrink.{Parent}
use concread.BpTree.States.{CrRemoveState}
use concread.BpTree.Tree.{node_child}
use concread.BpTree.Tree.Dates.{entries, view-entries}
use concread.BpTree.Tree.Descend.{tree-entries}
use concread.BpTree.Tree.Insert.{to_good}
use concread.BpTree.Tree.Rebalance.{IsShrunk}
use concread.BpTree.Tree.Shrink.{ShrunkTo, shrink_child-first, shrink_child-other}
use concread.Ord.{Ord, IsPlain}
use concread.Prelude.{
  ℕ, zero, suc, ◌≡◌, refl, ap, sym, ◌∙◌, subst, Bool, true, false, Option, some, Ensures,
  Ensures-bind, ◌>>=◌,
}
use concread.SortedMap.{lookup, remove}

module _ {ℓ κ} (K : Type ℓ) (V : Type κ) ⦃o : Ord K⦄ where
  module _ (h t : ℕ) where
    abbrev ch : Child K V (Node K V h)
    ch = node_child K V h t

    abbrev pub SettledTo :
        Branch K (Node K V h) → K → Option V × Branch K (Node K V h) × Bool × Mem → Type (ℓ ⊔ κ)
    SettledTo b k (res, b', shrinks, m) =
        ShrunkTo K V h t b k (b', shrinks, m) × (res ≡ lookup k (tree_view ch b))

    module _ (b : Branch K (Node K V h)) (k : K) (w : IsBranch ch b)
        (f : Focus ch Top b.first b.rest k (locate_rest b.rest k)) where
      same_child :
          (idx : ℕ) (x : Node K V h)
          → locate_rest b.rest k ≡ idx
          → node_at b.first b.rest idx ≡ some x
          → f.child ≡ x
      same_child idx x e g =
          let at : node_at b.first b.rest idx ≡ some f.child =
            ap (node_at b.first b.rest) (sym e) ∙ f.found in
          cc

      shrink_child-ShrunkTo :
          IsPlain K
          → (c : Node K V h) (m : Mem) (idx : ℕ) → locate_rest b.rest k ≡ idx
          → IsShrunk K V h t c
          → ch.view c ≡ remove k (ch.view f.child)
          → Ensures (ShrunkTo K V h t b k) (shrink_child K V h (replace_by_idx b idx c) idx t m)
      shrink_child-ShrunkTo plain c m zero e small gone =
          let p = left-Pair ch Top b.first b.rest k (λ x y q r. tt) w.chain w.filled e in
          shrink_child-first K V h t b k w c small p
            (gone ∙ ap (λ x. remove k (ch.view x)) (same_child 0 p.left e p.found_left)) m
      shrink_child-ShrunkTo plain c m (suc idx) e small gone =
          let p = right-Pair ch Top b.first b.rest k idx (λ x y q r. tt) w.chain e in
          shrink_child-other K V h t b k w c small idx p
            (gone ∙ ap (λ x. remove k (ch.view x)) (same_child (suc idx) p.right e p.found_right))
            plain m

      gone_below :
          (c : Node K V h)
          → entries K V h c ≡ remove k (entries K V h f.child)
          → ch.view c ≡ remove k (ch.view f.child)
      gone_below c e = subst (λ g. g c ≡ remove k (g f.child)) (sym (view-entries K V h t)) e

      found_below :
          (res : Option V)
          → res ≡ lookup k (entries K V h f.child)
          → res ≡ lookup k (tree_view ch b)
      found_below res e =
          subst (λ g. res ≡ lookup k (g f.child)) (sym (view-entries K V h t)) e
          ∙ sym (lookup-child ch b k (locate_rest b.rest k) w f)

      settle_good :
          (c : Node K V h) (res : Option V) (m : Mem)
          → ch.Good c
          → entries K V h c ≡ remove k (entries K V h f.child)
          → res ≡ lookup k (entries K V h f.child)
          → SettledTo b k (res, replace_by_idx b (locate_rest b.rest k) c, false, m)
      unfolding replace_by_idx
      settle_good c res m g e r = (
        (
          replace-IsBranch ch b k (locate_rest b.rest k) w f c g (gone_below c e),
          refl,
          replace_view ch b k (locate_rest b.rest k) w f c (gone_below c e),
        ),
        found_below res r,
      )

      settle_shrunk :
          IsPlain K
          → (c : Node K V h) (res : Option V) (m : Mem) → IsShrunk K V h t c
          → entries K V h c ≡ remove k (entries K V h f.child)
          → res ≡ lookup k (entries K V h f.child)
          → Ensures (SettledTo b k) (
              shrink_child K V h
                (replace_by_idx b (locate_rest b.rest k) c)
                (locate_rest b.rest k)
                t
                m
              >>= λ (b', shrinks, m'). some (res, b', shrinks, m'))
      settle_shrunk plain c res m small e r =
          let idx = locate_rest b.rest k in
          Ensures-bind {B = Option V × Parent K V h × Bool × Mem} (ShrunkTo K V h t b k)
            (SettledTo b k) (shrink_child K V h (replace_by_idx b idx c) idx t m)
            (λ (b', shrinks, m'). some (res, b', shrinks, m'))
            (shrink_child-ShrunkTo plain c m idx refl small (gone_below c e))
            λ z is q. (q, found_below res r)

      -- The branch settles what its child reports.
      pub settle_child-SettledTo :
          IsPlain K
          → (s : CrRemoveState (Node K V h) V) (m : Mem)
          → RemovedTo K V h t (entries K V h f.child) k s
          → Ensures (SettledTo b k) (settle_child K V h b (locate_rest b.rest k) t s m)
      unfolding settle_child
      settle_child-SettledTo plain (CrRemoveState.no_clone c res) m p =
          settle_good c res m p.0 p.1 p.2
      settle_child-SettledTo plain (CrRemoveState.clone c res) m p = settle_good c res m p.0 p.1 p.2
      settle_child-SettledTo plain (CrRemoveState.shrink c res) m p =
          settle_shrunk plain c res m p.0 p.1 p.2
      settle_child-SettledTo plain (CrRemoveState.clone_shrink c res) m p =
          settle_shrunk plain c res m p.0 p.1 p.2

    -- What a branch of the transaction reports of what it settled.
    branch_good :
        (b b' : Branch K (Node K V h)) (k : K)
        → b.txid ≡ t
        → IsBranch ch b' × (b'.txid ≡ b.txid) × (tree_view ch b' ≡ remove k (tree_view ch b))
        → (node_child K V (suc h) t).Good b'
          × (entries K V (suc h) b' ≡ remove k (entries K V (suc h) b))
    unfolding node_child
    branch_good b b' k e (w, d, v) = (
      to_good K V h t b' (d ∙ e) w,
      sym (tree-entries K V h t b') ∙ v ∙ ap (remove k) (tree-entries K V h t b),
    )

    pub branch_in_place-RemovedTo :
        (b : Branch K (Node K V h)) (k : K) (r : Option V × Branch K (Node K V h) × Bool × Mem)
        → b.txid ≡ t
        → SettledTo b k r
        → RemovedTo K V (suc h) t (entries K V (suc h) b) k (branch_in_place r).0
          × (in_place (branch_in_place r).0 ≡ true)
    unfolding branch_in_place
    branch_in_place-RemovedTo b k (res, b', false, m) e (s, r) =
        let (g, v) = branch_good b b' k e s in
        ((g, v, r ∙ ap (lookup k) (tree-entries K V h t b)), refl)
    branch_in_place-RemovedTo b k (res, b', true, m) e (s, r) = (
      (
        (s.1 ∙ e, s.0),
        sym (tree-entries K V h t b') ∙ s.2 ∙ ap (remove k) (tree-entries K V h t b),
        r ∙ ap (lookup k) (tree-entries K V h t b),
      ),
      refl,
    )

    pub branch_cloned-RemovedTo :
        (b : Branch K (Node K V h)) (k : K) (r : Option V × Branch K (Node K V h) × Bool × Mem)
        → b.txid ≡ t
        → SettledTo b k r
        → RemovedTo K V (suc h) t (entries K V (suc h) b) k (branch_cloned r).0
          × (in_place (branch_cloned r).0 ≡ false)
    unfolding branch_cloned
    branch_cloned-RemovedTo b k (res, b', false, m) e (s, r) =
        let (g, v) = branch_good b b' k e s in
        ((g, v, r ∙ ap (lookup k) (tree-entries K V h t b)), refl)
    branch_cloned-RemovedTo b k (res, b', true, m) e (s, r) = (
      (
        (s.1 ∙ e, s.0),
        sym (tree-entries K V h t b') ∙ s.2 ∙ ap (remove k) (tree-entries K V h t b),
        r ∙ ap (lookup k) (tree-entries K V h t b),
      ),
      refl,
    )
