-- ===== src/BpTree/Tree/Path.antt =====
-- The copy of a path and the write through it refine a write to a value of the abstract map.
use concread.BpTree.Branch
use concread.BpTree.Branch.{Branch, locate_node, replace_by_idx}
use concread.BpTree.Branch.Search.{locate_rest, locate_node-locate_rest}
use concread.BpTree.Chain.{Child}
use concread.BpTree.Chain.Focus.{Focus, locate-Focus}
use concread.BpTree.Chain.Insert.{IsBranch, Top}
use concread.BpTree.Chain.Remove.{lookup-child}
use concread.BpTree.Chain.Update.{update-IsBranch, update_view}
use concread.BpTree.Leaf
use concread.BpTree.Leaf.{Leaf}
use concread.BpTree.Leaf.Laws.{IsFilled}
use concread.BpTree.Mem.{Mem, alloc, push_first, push_last}
use concread.BpTree.Node
use concread.BpTree.Node.{Node}
use concread.BpTree.Remove.{path_clone, path_get_mut_ref}
use concread.BpTree.States.{CrCloneState}
use concread.BpTree.Tree.{node_child, IsGoodBranch}
use concread.BpTree.Tree.Dates.{entries, view-entries}
use concread.BpTree.Tree.Descend.{tree-entries, IsBranch-le, clone_of, child_old}
use concread.BpTree.Tree.Insert.{to_good}
use concread.BpTree.Tree.LeafWrite.{WritePost, leaf-WritePost}
use concread.Ord.{Ord}
use concread.Prelude.{
  ℕ, zero, suc, ◌≡◌, refl, ap, sym, ◌∙◌, subst, Bool, true, false, Option, none, some, arith,
  Ensures, Ensures-bind, Bool-cases, inl, inr, ◌==◌, ◌>>=◌,
}
use concread.SortedMap.{lookup}
use concread.SortedMap.Update.{update, update_id}

abbrev pub is_no_clone {ℓ} : {A : Type ℓ} → CrCloneState A → Bool
is_no_clone (CrCloneState.no_clone n) = true
is_no_clone (CrCloneState.clone n) = false

abbrev pub path_node {ℓ} : {A : Type ℓ} → CrCloneState A → A
path_node (CrCloneState.no_clone n) = n
path_node (CrCloneState.clone n) = n

module _ {ℓ κ} (K : Type ℓ) (V : Type κ) ⦃o : Ord K⦄ where
  -- The node that stands for `n` is of the transaction, good, and holds the same entries.
  abbrev pub ClonePost : (h t : ℕ) → Node K V h → K → CrCloneState (Node K V h) × Mem → Type (ℓ ⊔ κ)
  ClonePost h t n k (s, m) =
      (node_child K V h t).Good (path_node s)
      × (Node.txid K V h (path_node s) ≡ t)
      × (entries K V h (path_node s) ≡ update k (λ v. v) (entries K V h n))
      × (is_no_clone s ≡ (Node.txid K V h n == t))

  leaf-ClonePost :
      (l : Leaf K V) (t : ℕ) (k : K) (m : Mem)
      → IsFilled t l
      → Ensures (ClonePost 0 t l k) (path_clone K V 0 l t k m)
  unfolding path_clone Leaf.req_clone node_child entries
  leaf-ClonePost l t k m w = elim (Bool-cases (l.txid == t)) [
    | inl e ↦ rw (e, path_clone) (w, ground arith, sym (update_id k l.entries), sym e)
    | inr e ↦
        rw (e, path_clone)
          (
            record {
              leaf = record {
                sorted = w.leaf.sorted;
                bounded = w.leaf.bounded;
                dated = omega arith;
              };
              filled = w.filled;
            },
            refl,
            sym (update_id k l.entries),
            sym e,
          )
  ]

  module _ (h t : ℕ) (k : K) (g : V → V) where
    abbrev ch : Child K V (Node K V h)
    ch = node_child K V h t

    -- A branch of the transaction in which the child of the path was replaced.
    rebuilt :
        (b : Branch K (Node K V h)) (c : Node K V h) (w : IsBranch ch b)
        (f : Focus ch Top b.first b.rest k (locate_rest b.rest k))
        → b.txid ≡ t
        → ch.Good c
        → entries K V h c ≡ update k g (entries K V h f.child)
        → (node_child K V (suc h) t).Good (replace_by_idx b (locate_node b k) c)
          × ((replace_by_idx b (locate_node b k) c).txid ≡ t)
          × (entries K V (suc h) (replace_by_idx b (locate_node b k) c)
              ≡ update k g (entries K V (suc h) b))
    unfolding node_child replace_by_idx
    rebuilt b c w f e good below =
        let idx = locate_rest b.rest k in
        let viewed : ch.view c ≡ update k g (ch.view f.child) =
          subst (λ z. z c ≡ update k g (z f.child)) (sym (view-entries K V h t)) below in
        let b' = replace_by_idx b idx c in
        rw (locate_node-locate_rest b k) (
          to_good K V h t b' e (update-IsBranch ch b k g idx w f c good viewed),
          e,
          sym (tree-entries K V h t b')
              ∙ update_view ch b k g idx w f c good viewed
              ∙ ap (update k g) (tree-entries K V h t b),
        )

  module _ (h t : ℕ) (k : K) (n : Branch K (Node K V h))
      (w : IsGoodBranch K V (node_child K V h) t n) where
    focus :
        (b : Branch K (Node K V h))
        → IsBranch (node_child K V h t) b
        → Focus (node_child K V h t) Top b.first b.rest k (locate_rest b.rest k)
    focus b wb = locate-Focus (node_child K V h t) Top b.first b.rest k (λ x y p q. tt) tt wb.chain

    -- The branch at the bound of the tree.
    bounded : IsBranch (node_child K V h t) n
    bounded = IsBranch-le K V h n.txid t n n w.dated refl refl w.branch

    found : Branch.get_idx n (locate_node n k) ≡ some (focus n bounded).child
    found = rw (locate_node-locate_rest n k) (focus n bounded).found

    -- What a branch makes of the copy of its child.
    abbrev path_step : CrCloneState (Node K V h) × Mem → CrCloneState (Node K V (suc h)) × Mem
    path_step (s, m') = elim s [
      | CrCloneState.no_clone c ↦ (CrCloneState.no_clone (replace_by_idx n (locate_node n k) c), m')
      | CrCloneState.clone cnode ↦ elim (Branch.req_clone n t m') [
        | some (acnode, m'') ↦ (
          CrCloneState.clone (replace_by_idx acnode (locate_node n k) cnode),
          push_first acnode.nid (push_last n.nid m''),
        )
        | none ↦ (CrCloneState.no_clone (replace_by_idx n (locate_node n k) cnode), m')
      ]
    ]

    in_place-ClonePost :
        (c : Node K V h) (m : Mem)
        → (n.txid == t) ≡ true
        → (node_child K V h t).Good c
        → entries K V h c ≡ update k (λ v. v) (entries K V h (focus n bounded).child)
        → ClonePost (suc h) t n k (CrCloneState.no_clone (replace_by_idx n (locate_node n k) c), m)
    in_place-ClonePost c m e good below =
        let same : n.txid ≡ t = ground arith in
        let r = rebuilt h t k (λ v. v) n c bounded (focus n bounded) same good below in
        (r.0, r.1, r.2, sym e)

    path_step_in_place :
        (c : Node K V h) (m : Mem)
        → (n.txid == t) ≡ true
        → path_step (CrCloneState.clone c, m)
          ≡ (CrCloneState.no_clone (replace_by_idx n (locate_node n k) c), m)
    unfolding Branch.req_clone
    path_step_in_place c m e = rw (path_step, e) refl

    path_step_cloned :
        (c : Node K V h) (m : Mem)
        → (n.txid == t) ≡ false
        → path_step (CrCloneState.clone c, m) ≡ (
          CrCloneState.clone (replace_by_idx (clone_of K V n t m) (locate_node n k) c),
          push_first m.next_nid (push_last n.nid (alloc m)),
        )
    unfolding Branch.req_clone
    path_step_cloned c m e = rw (path_step, e) refl

    path_step-ClonePost :
        (s : CrCloneState (Node K V h)) (m : Mem)
        → ClonePost h t (focus n bounded).child k (s, m)
        → ClonePost (suc h) t n k (path_step (s, m))
    unfolding entries locate_node
    path_step-ClonePost (CrCloneState.no_clone c) m (good, same, below, flag) =
        elim (Bool-cases (n.txid == t)) [
          | inl e ↦ in_place-ClonePost c m e good below
          | inr e ↦
              let old = child_old K V h n t (locate_node n k) (focus n bounded).child w e found in
              let bad : true ≡ false = flag ∙ old in absurd cc
        ]
    path_step-ClonePost (CrCloneState.clone c) m (good, same, below, flag) =
        elim (Bool-cases (n.txid == t)) [
          | inl e ↦
              subst (ClonePost (suc h) t n k) (sym (path_step_in_place c m e))
                (in_place-ClonePost c m e good below)
          | inr e ↦
              let b = clone_of K V n t m in
              let wb = IsBranch-le K V h n.txid t n b w.dated refl refl w.branch in
              let r = rebuilt h t k (λ v. v) b c wb (focus n bounded) refl good below in
              subst (ClonePost (suc h) t n k) (sym (path_step_cloned c m e)) (r.0, r.1, r.2, sym e)
        ]

    path_clone_step :
        (m : Mem)
        → path_clone K V (suc h) n t k m
          ≡ (path_clone K V h (focus n bounded).child t k m >>= λ z. some (path_step z))
    unfolding path_clone
    path_clone_step m = rw found refl

  -- The copy of a path does not panic, and the new path holds what the old one held.
  pub path_clone-ClonePost :
      (h t : ℕ) (k : K) (n : Node K V h) (m : Mem)
      → (node_child K V h t).Good n
      → Ensures (ClonePost h t n k) (path_clone K V h n t k m)
  unfolding node_child
  path_clone-ClonePost zero t k n m g = leaf-ClonePost n t k m g
  path_clone-ClonePost (suc h) t k n m g =
      let f = focus h t k n g n (bounded h t k n g) in
      rw (path_clone_step h t k n g m) (
        Ensures-bind {B = CrCloneState (Branch K (Node K V h)) × Mem} (ClonePost h t f.child k)
          (ClonePost (suc h) t n k) (path_clone K V h f.child t k m)
          (λ z. some (path_step h t k n g z)) (path_clone-ClonePost h t k f.child m f.good)
          λ z is p. path_step-ClonePost h t k n g z.0 z.1 p)

  branch_write_step :
      (h : ℕ) (n : Branch K (Node K V h)) (k : K) (g : V → V) (c : Node K V h)
      → Branch.get_idx n (locate_node n k) ≡ some c
      → path_get_mut_ref K V (suc h) n k g ≡ (
          path_get_mut_ref K V h c k g >>= λ (res, c').
          some (res, replace_by_idx n (locate_node n k) c'))
  unfolding path_get_mut_ref
  branch_write_step h n k g c e = rw e refl

  -- The write through a path does not panic, and it is that of the abstract map.
  pub path_get_mut_ref-WritePost :
      (h t : ℕ) (k : K) (g : V → V) (n : Node K V h)
      → (node_child K V h t).Good n
      → Ensures (WritePost K V h t n k g) (path_get_mut_ref K V h n k g)
  unfolding node_child replace_by_idx
  path_get_mut_ref-WritePost zero t k g n w = leaf-WritePost K V n t k g w
  path_get_mut_ref-WritePost (suc h) t k g n w =
      let f = focus h n.txid k n (record { dated = omega arith; branch = w.branch }) n w.branch in
      let at : Branch.get_idx n (locate_node n k) ≡ some f.child =
        rw (locate_node-locate_rest n k) f.found in
      rw (branch_write_step h n k g f.child at) (
        Ensures-bind {B = Option V × Branch K (Node K V h)} (WritePost K V h n.txid f.child k g)
          (WritePost K V (suc h) t n k g) (path_get_mut_ref K V h f.child k g)
          (λ (res, c'). some (res, replace_by_idx n (locate_node n k) c'))
          (path_get_mut_ref-WritePost h n.txid k g f.child f.good)
          λ r is p.
            let z = rebuilt h n.txid k g n r.1 w.branch f refl p.0 p.1 in
            (
              record { dated = w.dated; branch = z.0.branch },
              z.2,
              p.2
                  ∙ sym (
                      ap (lookup k) (sym (tree-entries K V h n.txid n))
                      ∙ lookup-child (node_child K V h n.txid) n k (locate_rest n.rest k) w.branch f
                      ∙ ap (λ v. lookup k (v f.child)) (view-entries K V h n.txid)),
            ))
