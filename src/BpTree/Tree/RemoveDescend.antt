-- ===== src/BpTree/Tree/RemoveDescend.antt =====
-- The descent of a remove through the branches, by induction on the height.
use concread.BpTree.Branch
use concread.BpTree.Branch.{Branch, locate_node, node_at}
use concread.BpTree.Branch.Search.{locate_rest, locate_node-locate_rest}
use concread.BpTree.Chain.Focus.{Focus, locate-Focus}
use concread.BpTree.Chain.Insert.{IsBranch, Top}
use concread.BpTree.Insert.{note_clone}
use concread.BpTree.Mem.{Mem, alloc}
use concread.BpTree.Node.{Node}
use concread.BpTree.Remove.{
  clone_and_remove, expect_clone, settle_child, branch_in_place, branch_cloned,
}
use concread.BpTree.States.{CrRemoveState}
use concread.BpTree.Tree.{node_child, IsGoodBranch}
use concread.BpTree.Tree.Dates.{entries}
use concread.BpTree.Tree.Descend.{IsBranch-le, clone_of, child_old}
use concread.BpTree.Tree.Insert.{IsTree, IsTree-of_Good}
use concread.BpTree.Tree.Remove.{expect_clone-some, RemovedTo, RemovePost, leaf-RemovePost}
use concread.BpTree.Tree.Settle.{
  SettledTo, settle_child-SettledTo, branch_in_place-RemovedTo, branch_cloned-RemovedTo,
}
use concread.Ord.{Ord, IsPlain}
use concread.Prelude.{
  ℕ, zero, suc, ◌≡◌, refl, sym, ◌∙◌, true, false, some, arith, Ensures, Ensures-bind, Bool-cases,
  inl, inr, ◌==◌, ◌>>=◌,
}

module _ {ℓ κ} (K : Type ℓ) (V : Type κ) ⦃o : Ord K⦄ where
  -- The claim at the children of a branch.
  abbrev Hypothesis : ℕ → ℕ → K → Type (ℓ ⊔ κ)
  Hypothesis h t k =
      (c : Node K V h) (m : Mem)
      → IsTree K V h t c
      → Ensures (RemovePost K V h t c k) (clone_and_remove K V h c t k m)

  in_place_step :
      (h : ℕ) (n : Branch K (Node K V h)) (t : ℕ) (k : K) (m : Mem) (c : Node K V h)
      → (n.txid == t) ≡ true
      → Branch.get_idx n (locate_node n k) ≡ some c
      → clone_and_remove K V (suc h) n t k m ≡ (
          clone_and_remove K V h c t k m >>= λ (s, m').
          settle_child K V h n (locate_node n k) t s m' >>= λ r. some (branch_in_place r))
  unfolding clone_and_remove Branch.req_clone
  in_place_step h n t k m c e g = rw (e, clone_and_remove, g) refl

  cloned_step :
      (h : ℕ) (n : Branch K (Node K V h)) (t : ℕ) (k : K) (m : Mem) (c : Node K V h)
      → (n.txid == t) ≡ false
      → Branch.get_idx (clone_of K V n t m) (locate_node (clone_of K V n t m) k) ≡ some c
      → clone_and_remove K V (suc h) n t k m ≡ (
          clone_and_remove K V h c t k (note_clone m.next_nid n.nid (alloc m)) >>= λ (s, m').
          expect_clone s >>= λ s'.
          settle_child K V h (clone_of K V n t m) (locate_node (clone_of K V n t m) k) t s' m'
          >>= λ r. some (branch_cloned r))
  unfolding clone_and_remove Branch.req_clone
  cloned_step h n t k m c e g = rw (e, clone_and_remove, g) refl

  module _ (plain : IsPlain K) (h t : ℕ) (k : K) (ih : Hypothesis h t k) (b : Branch K (Node K V h))
      (w : IsBranch (node_child K V h t) b) where
    focus : Focus (node_child K V h t) Top b.first b.rest k (locate_rest b.rest k)
    focus = locate-Focus (node_child K V h t) Top b.first b.rest k (λ x y p q. tt) tt w.chain

    found : Branch.get_idx b (locate_node b k) ≡ some focus.child
    found = rw (locate_node-locate_rest b k) focus.found

    child_run :
        (m : Mem)
        → Ensures (RemovePost K V h t focus.child k) (clone_and_remove K V h focus.child t k m)
    child_run m = ih focus.child m (IsTree-of_Good K V h t focus.child focus.good)

    settled :
        (s : CrRemoveState (Node K V h) V) (m : Mem)
        → RemovedTo K V h t (entries K V h focus.child) k s
        → Ensures (SettledTo K V h t b k) (settle_child K V h b (locate_node b k) t s m)
    settled s m p =
        rw (locate_node-locate_rest b k) (settle_child-SettledTo K V h t b k w focus plain s m p)

  in_place-RemovePost :
      IsPlain K
      → (h : ℕ) (n : Branch K (Node K V h)) (t : ℕ) (k : K) (m : Mem)
      → IsGoodBranch K V (node_child K V h) t n
      → Hypothesis h t k
      → (n.txid == t) ≡ true
      → Ensures (RemovePost K V (suc h) t n k) (clone_and_remove K V (suc h) n t k m)
  in_place-RemovePost plain h n t k m w ih e =
      let same : n.txid ≡ t = ground arith in
      let wb = IsBranch-le K V h n.txid t n n w.dated refl refl w.branch in
      let f = focus plain h t k ih n wb in
      rw (in_place_step h n t k m f.child e (found plain h t k ih n wb)) (
        Ensures-bind {B = CrRemoveState (Branch K (Node K V h)) V × Mem}
          (RemovePost K V h t f.child k) (RemovePost K V (suc h) t n k)
          (clone_and_remove K V h f.child t k m)
          (λ (s, m').
            settle_child K V h n (locate_node n k) t s m' >>= λ r. some (branch_in_place r))
          (child_run plain h t k ih n wb m)
          λ sm is p.
            Ensures-bind {B = CrRemoveState (Branch K (Node K V h)) V × Mem} (SettledTo K V h t n k)
              (RemovePost K V (suc h) t n k) (settle_child K V h n (locate_node n k) t sm.0 sm.1)
              (λ r. some (branch_in_place r)) (settled plain h t k ih n wb sm.0 sm.1 p.0)
              λ r is' q.
                let (i, placed) = branch_in_place-RemovedTo K V h t n k r same q in
                (i, placed ∙ sym e))

  cloned-RemovePost :
      IsPlain K
      → (h : ℕ) (n : Branch K (Node K V h)) (t : ℕ) (k : K) (m : Mem)
      → IsGoodBranch K V (node_child K V h) t n
      → Hypothesis h t k
      → (n.txid == t) ≡ false
      → Ensures (RemovePost K V (suc h) t n k) (clone_and_remove K V (suc h) n t k m)
  unfolding entries
  cloned-RemovePost plain h n t k m w ih e =
      let b = clone_of K V n t m in
      let wb = IsBranch-le K V h n.txid t n b w.dated refl refl w.branch in
      let f = focus plain h t k ih b wb in
      let m' = note_clone m.next_nid n.nid (alloc m) in
      let at = found plain h t k ih b wb in
      rw (cloned_step h n t k m f.child e at) (
        Ensures-bind {B = CrRemoveState (Branch K (Node K V h)) V × Mem}
          (RemovePost K V h t f.child k) (RemovePost K V (suc h) t n k)
          (clone_and_remove K V h f.child t k m')
          (λ (s, m''). expect_clone s >>= λ s'.
            settle_child K V h b (locate_node b k) t s' m'' >>= λ r. some (branch_cloned r))
          (child_run plain h t k ih b wb m')
          λ sm is p.
            rw (expect_clone-some sm.0 (p.1 ∙ child_old K V h n t (locate_node b k) f.child w e at))
              (Ensures-bind {B = CrRemoveState (Branch K (Node K V h)) V × Mem}
                (SettledTo K V h t b k) (RemovePost K V (suc h) t n k)
                (settle_child K V h b (locate_node b k) t sm.0 sm.1) (λ r. some (branch_cloned r))
                (settled plain h t k ih b wb sm.0 sm.1 p.0)
                λ r is' q.
                  let (i, placed) = branch_cloned-RemovedTo K V h t b k r refl q in
                  (i, placed ∙ sym e)))

  -- A remove from a tree whose keys have no destructor does not panic; it reports a good node, or one
  -- that has shrunk to an empty leaf or to a single child, with the entries of the abstract remove and
  -- what was stored under the key, and a change in place exactly where the node is of the transaction.
  pub clone_and_remove-RemovePost :
      IsPlain K
      → (h t : ℕ) (k : K) (n : Node K V h) (m : Mem) → IsTree K V h t n
      → Ensures (RemovePost K V h t n k) (clone_and_remove K V h n t k m)
  clone_and_remove-RemovePost plain zero t k n m w = leaf-RemovePost K V n t k m w
  clone_and_remove-RemovePost plain (suc h) t k n m w = elim (Bool-cases (n.txid == t)) [
    | inl e ↦ in_place-RemovePost plain h n t k m w (clone_and_remove-RemovePost plain h t k) e
    | inr e ↦ cloned-RemovePost plain h n t k m w (clone_and_remove-RemovePost plain h t k) e
  ]
