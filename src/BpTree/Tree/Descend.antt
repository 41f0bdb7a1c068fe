-- ===== src/BpTree/Tree/Descend.antt =====
-- The descent of an insert through the branches, by induction on the height.
use concread.BpTree.Branch
use concread.BpTree.Branch.{Branch, node_at, locate_node}
use concread.BpTree.Branch.Search.{locate_rest, locate_node-locate_rest}
use concread.BpTree.Chain.{Child, IsChain}
use concread.BpTree.Chain.Focus.{Focus, locate-Focus}
use concread.BpTree.Chain.Insert.{IsBranch, Inserted, Top, tree_view}
use concread.BpTree.Insert.{
  clone_and_insert, expect_clone, settle_child, note_clone, branch_in_place, branch_cloned,
}
use concread.BpTree.Mem.{Mem, alloc}
use concread.BpTree.Node
use concread.BpTree.Node.{Node, concat_rest}
use concread.BpTree.States.{CrInsertState}
use concread.BpTree.Tree.{node_child, branch_child, IsGoodBranch}
use concread.BpTree.Tree.Dates.{entries, view-entries, IsChain-le}
use concread.BpTree.Tree.Insert.{
  in_place, IsTree, IsTree-of_Good, txid_le, Post, leaf-Post, Report-in_place, Report-cloned,
  settled,
}
use concread.Ord.{Ord, ◌≼◌}
use concread.Prelude.{
  ℕ, zero, suc, ◌≤◌, List, [], ◌∷◌, ◌≡◌, refl, sym, ◌∙◌, subst, true, false, some, arith, Ensures,
  Ensures-bind, Bool-cases, inl, inr, ◌==◌, ◌>>=◌,
}

module _ {ℓ κ} {A : Type ℓ} {V : Type κ} where
  expect_clone-some : (s : CrInsertState A V) → in_place s ≡ false → expect_clone s ≡ some s
  unfolding expect_clone
  expect_clone-some (CrInsertState.clone c res) e = refl
  expect_clone-some (CrInsertState.clone_split l r) e = refl
  expect_clone-some (CrInsertState.clone_rev_split n l) e = refl
  expect_clone-some (CrInsertState.no_clone c res) e = cc
  expect_clone-some (CrInsertState.split l r) e = cc
  expect_clone-some (CrInsertState.rev_split n l) e = cc

module _ {ℓ κ μ} {K : Type ℓ} {V : Type κ} {A : Type μ} ⦃o : Ord K⦄ (ch : Child K V A) where
  -- Every node that a chain leads to is good.
  pub node_at-Good :
      (P : K → Type 0) (c : A) (rest : List (K × A)) (idx : ℕ) (x : A)
      → IsChain ch P c rest
      → node_at c rest idx ≡ some x
      → ch.Good x
  unfolding node_at
  node_at-Good P c [] zero x w e = ground arith
  node_at-Good P c [] (suc idx) x w e = cc
  node_at-Good P c ((j, d) ∷ rest) zero x w e = ground arith
  node_at-Good P c ((j, d) ∷ rest) (suc idx) x w e = node_at-Good (λ x. j ≼ x) d rest idx x w.4 e

module _ {ℓ κ} (K : Type ℓ) (V : Type κ) ⦃o : Ord K⦄ where
  pub tree-entries :
      (h t : ℕ) (b : Branch K (Node K V h))
      → tree_view (node_child K V h t) b ≡ entries K V (suc h) b
  unfolding entries
  tree-entries h t b = rw (view-entries K V h t)

  pub IsBranch-le :
      (h s t : ℕ) (b c : Branch K (Node K V h))
      → s ≤ t
      → c.first ≡ b.first
      → c.rest ≡ b.rest
      → IsBranch (node_child K V h s) b
      → IsBranch (node_child K V h t) c
  IsBranch-le h s t b c le e e' w = record {
    chain = rw (e, e') (IsChain-le K V h s t Top b.first b.rest le w.chain);
    bounded = rw e' w.bounded;
    filled = rw e' w.filled;
  }

  -- The claim at the children of a branch.
  abbrev Hypothesis : ℕ → ℕ → K → V → Type (ℓ ⊔ κ)
  Hypothesis h t k v =
      (c : Node K V h) (m : Mem)
      → IsTree K V h t c
      → Ensures (Post K V h t c k v) (clone_and_insert K V h c t k v m)

  module _ (h t : ℕ) (k : K) (v : V) (ih : Hypothesis h t k v) (b : Branch K (Node K V h))
      (w : IsBranch (node_child K V h t) b) where
    focus : Focus (node_child K V h t) Top b.first b.rest k (locate_rest b.rest k)
    focus = locate-Focus (node_child K V h t) Top b.first b.rest k (λ x y p q. tt) tt w.chain

    found : Branch.get_idx b (locate_node b k) ≡ some focus.child
    found = rw (locate_node-locate_rest b k) focus.found

    child_run :
        (m : Mem)
        → Ensures (Post K V h t focus.child k v) (clone_and_insert K V h focus.child t k v m)
    child_run m = ih focus.child m (IsTree-of_Good K V h t focus.child focus.good)

    viewed :
        (s : CrInsertState (Node K V h) V)
        → Inserted (node_child K V h t) (entries K V h focus.child) k v s
        → Inserted (node_child K V h t) ((node_child K V h t).view focus.child) k v s
    viewed s i =
        subst (λ f. Inserted (node_child K V h t) (f focus.child) k v s)
          (sym (view-entries K V h t)) i

  in_place_step :
      (h : ℕ) (n : Branch K (Node K V h)) (t : ℕ) (k : K) (v : V) (m : Mem) (c : Node K V h)
      → (n.txid == t) ≡ true
      → Branch.get_idx n (locate_node n k) ≡ some c
      → clone_and_insert K V (suc h) n t k v m ≡ (
          clone_and_insert K V h c t k v m >>= λ (s, m').
          settle_child (Node.min K V h) n (locate_node n k) t s m' >>= λ r.
          some (branch_in_place r))
  unfolding clone_and_insert Branch.req_clone
  in_place_step h n t k v m c e g = rw (e, clone_and_insert, g) refl

  in_place-Post :
      (h : ℕ) (n : Branch K (Node K V h)) (t : ℕ) (k : K) (v : V) (m : Mem)
      → IsGoodBranch K V (node_child K V h) t n
      → Hypothesis h t k v
      → (n.txid == t) ≡ true
      → Ensures (Post K V (suc h) t n k v) (clone_and_insert K V (suc h) n t k v m)
  unfolding node_child
  in_place-Post h n t k v m w ih e =
      let same : n.txid ≡ t = ground arith in
      let wb = IsBranch-le h n.txid t n n w.dated refl refl w.branch in
      let f = focus h t k v ih n wb in
      let idx = locate_node n k in
      rw (in_place_step h n t k v m f.child e (found h t k v ih n wb)) (
        Ensures-bind {B = CrInsertState (Branch K (Node K V h)) V × Mem} (Post K V h t f.child k v)
          (Post K V (suc h) t n k v) (clone_and_insert K V h f.child t k v m)
          (λ (s, m'). settle_child (Node.min K V h) n idx t s m' >>= λ r. some (branch_in_place r))
          (child_run h t k v ih n wb m)
          λ sm is p.
            Ensures-bind {B = CrInsertState (Branch K (Node K V h)) V × Mem} _
              (Post K V (suc h) t n k v) (settle_child (Node.min K V h) n idx t sm.0 sm.1)
              (λ r. some (branch_in_place r))
              (settled K V h t n k v wb f sm.0 sm.1 (viewed h t k v ih n wb sm.0 p.0))
              λ r is' q.
                let (i, placed) =
                  Report-in_place K V h t (tree_view (node_child K V h t) n) k v n r same q in
                (
                  subst
                      (λ z.
                        Inserted (branch_child K V (node_child K V h) t) z k v
                          (branch_in_place r).0)
                      (tree-entries h t n) i,
                  placed ∙ sym e,
                ))

  abbrev pub clone_of {μ} : {A : Type μ} → Branch K A → ℕ → Mem → Branch K A
  clone_of n t m = record n { nid = m.next_nid; txid = t }

  cloned_step :
      (h : ℕ) (n : Branch K (Node K V h)) (t : ℕ) (k : K) (v : V) (m : Mem) (c : Node K V h)
      → (n.txid == t) ≡ false
      → Branch.get_idx (clone_of n t m) (locate_node (clone_of n t m) k) ≡ some c
      → clone_and_insert K V (suc h) n t k v m ≡ (
          clone_and_insert K V h c t k v (note_clone m.next_nid n.nid (alloc m)) >>= λ (s, m').
          expect_clone s >>= λ s'.
          settle_child (Node.min K V h) (clone_of n t m) (locate_node (clone_of n t m) k) t s' m'
          >>= λ r. some (branch_cloned r))
  unfolding clone_and_insert Branch.req_clone
  cloned_step h n t k v m c e g = rw (e, clone_and_insert, g) refl

  -- The child of an old branch is old: it was cloned, never changed in place.
  pub child_old :
      (h : ℕ) (n : Branch K (Node K V h)) (t idx : ℕ) (c : Node K V h)
      → IsGoodBranch K V (node_child K V h) t n
      → (n.txid == t) ≡ false
      → node_at n.first n.rest idx ≡ some c
      → (Node.txid K V h c == t) ≡ false
  child_old h n t idx c w e g =
      let le =
        txid_le K V h n.txid c
          (node_at-Good (node_child K V h n.txid) Top n.first n.rest idx c w.branch.chain g) in
      grind (arith, le, w.dated, e)

  cloned_Post :
      (h : ℕ) (n : Branch K (Node K V h)) (t : ℕ) (k : K) (v : V) (m : Mem)
      → IsGoodBranch K V (node_child K V h) t n
      → Hypothesis h t k v
      → (n.txid == t) ≡ false
      → Ensures (Post K V (suc h) t n k v) (clone_and_insert K V (suc h) n t k v m)
  unfolding node_child entries
  cloned_Post h n t k v m w ih e =
      let b = clone_of n t m in
      let wb = IsBranch-le h n.txid t n b w.dated refl refl w.branch in
      let f = focus h t k v ih b wb in
      let idx = locate_node b k in
      let m' = note_clone m.next_nid n.nid (alloc m) in
      let at = found h t k v ih b wb in
      rw (cloned_step h n t k v m f.child e at) (
        Ensures-bind {B = CrInsertState (Branch K (Node K V h)) V × Mem} (Post K V h t f.child k v)
          (Post K V (suc h) t n k v) (clone_and_insert K V h f.child t k v m')
          (λ (s, m''). expect_clone s >>= λ s'.
            settle_child (Node.min K V h) b idx t s' m'' >>= λ r. some (branch_cloned r))
          (child_run h t k v ih b wb m')
          λ sm is p. rw (expect_clone-some sm.0 (p.1 ∙ child_old h n t idx f.child w e at)) (
            Ensures-bind {B = CrInsertState (Branch K (Node K V h)) V × Mem} _
              (Post K V (suc h) t n k v) (settle_child (Node.min K V h) b idx t sm.0 sm.1)
              (λ r. some (branch_cloned r))
              (settled K V h t b k v wb f sm.0 sm.1 (viewed h t k v ih b wb sm.0 p.0))
              λ r is' q.
                let (i, placed) =
                  Report-cloned K V h t (tree_view (node_child K V h t) b) k v b r refl q in
                (
                  subst
                      (λ z.
                        Inserted (branch_child K V (node_child K V h) t) z k v (branch_cloned r).0)
                      (tree-entries h t b) i,
                  placed ∙ sym e,
                )))

  -- An insert into a tree does not panic; what it reports holds the entries of the abstract insert.
  pub clone_and_insert-Post :
      (h t : ℕ) (k : K) (v : V) (n : Node K V h) (m : Mem)
      → IsTree K V h t n
      → Ensures (Post K V h t n k v) (clone_and_insert K V h n t k v m)
  clone_and_insert-Post zero t k v n m w = leaf-Post K V n t k v m w
  clone_and_insert-Post (suc h) t k v n m w = elim (Bool-cases (n.txid == t)) [
    | inl e ↦ in_place-Post h n t k v m w (clone_and_insert-Post h t k v) e
    | inr e ↦ cloned_Post h n t k v m w (clone_and_insert-Post h t k v) e
  ]
