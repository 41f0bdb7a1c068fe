-- ===== src/BpTree/Remove.antt =====
-- src/bptree/cursor.rs: the descent of a remove, the copy of a path, and the write through it.
use concread.BpTree.Branch
use concread.BpTree.Branch.{Branch}
use concread.BpTree.Insert.{note_clone}
use concread.BpTree.Leaf
use concread.BpTree.Leaf.{Leaf}
use concread.BpTree.Mem.{Mem, push_first, push_last}
use concread.BpTree.Node
use concread.BpTree.Node.{Node}
use concread.BpTree.Shrink.{Parent, shrink_decision, clone_sibling_idx}
use concread.BpTree.States.{LeafRemoveState, BranchShrinkState, CrRemoveState, CrCloneState}
use concread.Ord.{Ord}
use concread.Prelude.{ℕ, zero, suc, Bool, true, false, Option, none, some, ◌>>=◌, get_elem?}
use concread.Slice.{ok, err, key_search, set}

module _ {ℓ κ} {K : Type ℓ} {V : Type κ} where
  unfoldable pub leaf_in_place : Leaf K V × LeafRemoveState V → CrRemoveState (Leaf K V) V
  leaf_in_place (l, LeafRemoveState.done res) = CrRemoveState.no_clone l res
  leaf_in_place (l, LeafRemoveState.shrink res) = CrRemoveState.shrink l res

  unfoldable pub leaf_cloned : Leaf K V × LeafRemoveState V → CrRemoveState (Leaf K V) V
  leaf_cloned (l, LeafRemoveState.done res) = CrRemoveState.clone l res
  leaf_cloned (l, LeafRemoveState.shrink res) = CrRemoveState.clone_shrink l res

module _ {ℓ κ} (K : Type ℓ) (V : Type κ) ⦃o : Ord K⦄ where
  -- The child at `idx` ran empty: its sibling is cloned if need be, and the two are settled. The
  -- result says whether the branch itself is left with one node.
  unfoldable pub shrink_child :
      (h : ℕ) → Parent K V h → (idx txid : ℕ) → Mem → Option (Parent K V h × Bool × Mem)
  shrink_child h b idx txid m = do
    (right_idx, b', m') ← clone_sibling_idx K V h b txid idx m
    (b'', s) ← shrink_decision K V h b' right_idx
    some (elim s [
      | BranchShrinkState.balanced ↦ (b'', false, m')
      | BranchShrinkState.merge dnode ↦ (b'', false, push_last (Node.nid K V h dnode) m')
      | BranchShrinkState.shrink dnode ↦ (b'', true, push_last (Node.nid K V h dnode) m')
    ])

  -- The match on what the child reports; `true` if the branch shrinks in turn.
  unfoldable pub settle_child :
      (h : ℕ)
      → Parent K V h
      → (idx txid : ℕ) → CrRemoveState (Node K V h) V
      → Mem
      → Option (Option V × Parent K V h × Bool × Mem)
  unfolding shrink_child
  settle_child h b idx txid (CrRemoveState.no_clone c res) m =
      some (res, Branch.replace_by_idx b idx c, false, m)
  settle_child h b idx txid (CrRemoveState.clone c res) m =
      some (res, Branch.replace_by_idx b idx c, false, m)
  settle_child h b idx txid (CrRemoveState.shrink c res) m = do
    (b', shrinks, m') ← shrink_child h (Branch.replace_by_idx b idx c) idx txid m
    some (res, b', shrinks, m')
  settle_child h b idx txid (CrRemoveState.clone_shrink c res) m = do
    (b', shrinks, m') ← shrink_child h (Branch.replace_by_idx b idx c) idx txid m
    some (res, b', shrinks, m')

module _ {ℓ κ} {A : Type ℓ} {V : Type κ} where
  -- Under a cloned branch the other two states are `unreachable!`.
  unfoldable pub expect_clone : CrRemoveState A V → Option (CrRemoveState A V)
  expect_clone (CrRemoveState.no_clone c res) = none
  expect_clone (CrRemoveState.shrink c res) = none
  expect_clone s = some s

  unfoldable pub branch_in_place : Option V × A × Bool × Mem → CrRemoveState A V × Mem
  branch_in_place (res, b, false, m) = (CrRemoveState.no_clone b res, m)
  branch_in_place (res, b, true, m) = (CrRemoveState.shrink b res, m)

  unfoldable pub branch_cloned : Option V × A × Bool × Mem → CrRemoveState A V × Mem
  branch_cloned (res, b, false, m) = (CrRemoveState.clone b res, m)
  branch_cloned (res, b, true, m) = (CrRemoveState.clone_shrink b res, m)

module _ {ℓ κ} (K : Type ℓ) (V : Type κ) ⦃o : Ord K⦄ where
  unfoldable pub clone_and_remove :
      (h : ℕ) → Node K V h → (txid : ℕ) → K → Mem → Option (CrRemoveState (Node K V h) V × Mem)
  clone_and_remove zero node txid k m = elim (Leaf.req_clone node txid m) [
    | some (cnode, m') ↦ do
      r ← Leaf.remove cnode k
      some (leaf_cloned r, note_clone cnode.nid node.nid m')
    | none ↦ do r ← Leaf.remove node k; some (leaf_in_place r, m)
  ]
  clone_and_remove (suc h) node txid k m = elim (Branch.req_clone node txid m) [
    | some (cnode, m') ↦ do
      let idx = Branch.locate_node cnode k
      anode ← Branch.get_idx cnode idx
      (s, m'') ← clone_and_remove h anode txid k (note_clone cnode.nid node.nid m')
      s' ← expect_clone s
      r ← settle_child K V h cnode idx txid s' m''
      some (branch_cloned r)
    | none ↦ do
      let idx = Branch.locate_node node k
      anode ← Branch.get_idx node idx
      (s, m'') ← clone_and_remove h anode txid k m
      r ← settle_child K V h node idx txid s m''
      some (branch_in_place r)
  ]

  -- The clones of a branch are made on the way back, and only if its child was cloned.
  unfoldable pub path_clone :
      (h : ℕ) → Node K V h → (txid : ℕ) → K → Mem → Option (CrCloneState (Node K V h) × Mem)
  path_clone zero node txid k m = elim (Leaf.req_clone node txid m) [
    | some (cnode, m') ↦
        some (CrCloneState.clone cnode, push_first cnode.nid (push_last node.nid m'))
    | none ↦ some (CrCloneState.no_clone node, m)
  ]
  path_clone (suc h) node txid k m = do
    let idx = Branch.locate_node node k
    anode ← Branch.get_idx node idx
    (s, m') ← path_clone h anode txid k m
    some (elim s [
      | CrCloneState.no_clone c ↦ (CrCloneState.no_clone (Branch.replace_by_idx node idx c), m')
      | CrCloneState.clone cnode ↦ elim (Branch.req_clone node txid m') [
        | some (acnode, m'') ↦ (
          CrCloneState.clone (Branch.replace_by_idx acnode idx cnode),
          push_first acnode.nid (push_last node.nid m''),
        )
        | none ↦ (CrCloneState.no_clone (Branch.replace_by_idx node idx cnode), m')
      ]
    ])

  -- `path_get_mut_ref`, and the write `f` that its caller makes through the reference.
  unfoldable pub path_get_mut_ref :
      (h : ℕ) → Node K V h → K → (V → V) → Option (Option V × Node K V h)
  path_get_mut_ref zero node k f = elim (key_search node.entries k) [
    | ok idx ↦ do
      e ← get_elem? node.entries idx
      some (some e.1, record node { entries = set node.entries idx (e.0, f e.1) })
    | err idx ↦ some (none, node)
  ]
  path_get_mut_ref (suc h) node k f = do
    let idx = Branch.locate_node node k
    anode ← Branch.get_idx node idx
    (res, anode') ← path_get_mut_ref h anode k f
    some (res, Branch.replace_by_idx node idx anode')
