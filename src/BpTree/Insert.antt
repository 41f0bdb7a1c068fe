-- ===== src/BpTree/Insert.antt =====
-- src/bptree/cursor.rs: the descent of an insert. Every node on the path is cloned unless it is of
-- this transaction already; a full node splits and hands its parent two nodes.
use concread.BpTree.Branch
use concread.BpTree.Branch.{Branch}
use concread.BpTree.Leaf
use concread.BpTree.Leaf.{Leaf}
use concread.BpTree.Mem.{Mem, push_first, push_last}
use concread.BpTree.Node
use concread.BpTree.Node.{Node}
use concread.BpTree.States.{LeafInsertState, BranchInsertState, CrInsertState}
use concread.Ord.{Ord}
use concread.Prelude.{ℕ, zero, suc, Option, none, some, ◌>>=◌}

-- A clone goes to `first_seen`, its original to `last_seen`.
abbrev pub note_clone : ℕ → ℕ → Mem → Mem
note_clone cnode node m = push_last node (push_first cnode m)

module _ {ℓ κ} {K : Type ℓ} {V : Type κ} where
  -- How a leaf on which the insert was made in place, or on a clone, reports.
  unfoldable pub leaf_in_place :
      Leaf K V × LeafInsertState (Leaf K V) V × Mem → CrInsertState (Leaf K V) V × Mem
  leaf_in_place (l, LeafInsertState.done res, m) = (CrInsertState.no_clone l res, m)
  leaf_in_place (l, LeafInsertState.split r, m) = (CrInsertState.split l r, push_first r.nid m)
  leaf_in_place (l, LeafInsertState.rev_split r, m) =
      (CrInsertState.rev_split l r, push_first r.nid m)

  unfoldable pub leaf_cloned :
      Leaf K V × LeafInsertState (Leaf K V) V × Mem → CrInsertState (Leaf K V) V × Mem
  leaf_cloned (l, LeafInsertState.done res, m) = (CrInsertState.clone l res, m)
  leaf_cloned (l, LeafInsertState.split r, m) = (CrInsertState.clone_split l r, push_first r.nid m)
  leaf_cloned (l, LeafInsertState.rev_split r, m) =
      (CrInsertState.clone_rev_split l r, push_first r.nid m)

module _ {ℓ κ} {K : Type ℓ} {A : Type κ} (min : A → Option K) where
  -- The match on what `add_node` or `add_node_left` returned: a split makes a new branch.
  unfoldable pub grow :
      ℕ → Branch K A × BranchInsertState A → Mem → Option (Branch K A × Option (Branch K A) × Mem)
  grow txid (b, BranchInsertState.done) m = some (b, none, m)
  grow txid (b, BranchInsertState.split l r) m = do
    (nrnode, m') ← Branch.new_branch min txid l r m
    some (b, some nrnode, push_first nrnode.nid m')

module _ {ℓ κ μ} {K : Type ℓ} {A : Type κ} {V : Type μ} ⦃o : Ord K⦄ (min : A → Option K) where
  -- The new branch, the replaced value and the new right sibling, from what the child reports.
  unfoldable pub settle_child :
      Branch K A
      → (idx txid : ℕ) → CrInsertState A V
      → Mem
      → Option (Branch K A × Option V × Option (Branch K A) × Mem)
  unfolding grow
  settle_child b idx txid (CrInsertState.no_clone c res) m =
      some (Branch.replace_by_idx b idx c, res, none, m)
  settle_child b idx txid (CrInsertState.clone c res) m =
      some (Branch.replace_by_idx b idx c, res, none, m)
  settle_child b idx txid (CrInsertState.split l r) m = do
    added ← Branch.add_node min (Branch.replace_by_idx b idx l) r
    (b', right, m') ← grow min txid added m
    some (b', none, right, m')
  settle_child b idx txid (CrInsertState.clone_split l r) m = do
    added ← Branch.add_node min (Branch.replace_by_idx b idx l) r
    (b', right, m') ← grow min txid added m
    some (b', none, right, m')
  settle_child b idx txid (CrInsertState.rev_split n l) m = do
    added ← Branch.add_node_left min (Branch.replace_by_idx b idx n) l idx
    (b', right, m') ← grow min txid added m
    some (b', none, right, m')
  settle_child b idx txid (CrInsertState.clone_rev_split n l) m = do
    added ← Branch.add_node_left min (Branch.replace_by_idx b idx n) l idx
    (b', right, m') ← grow min txid added m
    some (b', none, right, m')

module _ {ℓ κ} {A : Type ℓ} {V : Type κ} where
  -- Under a cloned branch the other three states are `unreachable!`.
  unfoldable pub expect_clone : CrInsertState A V → Option (CrInsertState A V)
  expect_clone (CrInsertState.no_clone c res) = none
  expect_clone (CrInsertState.split l r) = none
  expect_clone (CrInsertState.rev_split n l) = none
  expect_clone s = some s

  unfoldable pub branch_in_place : A × Option V × Option A × Mem → CrInsertState A V × Mem
  branch_in_place (b, res, none, m) = (CrInsertState.no_clone b res, m)
  branch_in_place (b, res, some r, m) = (CrInsertState.split b r, m)

  unfoldable pub branch_cloned : A × Option V × Option A × Mem → CrInsertState A V × Mem
  branch_cloned (b, res, none, m) = (CrInsertState.clone b res, m)
  branch_cloned (b, res, some r, m) = (CrInsertState.clone_split b r, m)

module _ {ℓ κ} (K : Type ℓ) (V : Type κ) ⦃o : Ord K⦄ where
  unfoldable pub clone_and_insert :
      (h : ℕ) → Node K V h → (txid : ℕ) → K → V → Mem → Option (CrInsertState (Node K V h) V × Mem)
  clone_and_insert zero node txid k v m = elim (Leaf.req_clone node txid m) [
    | some (cnode, m') ↦ do
      r ← Leaf.insert_or_update cnode k v (note_clone cnode.nid node.nid m')
      some (leaf_cloned r)
    | none ↦ do r ← Leaf.insert_or_update node k v m; some (leaf_in_place r)
  ]
  clone_and_insert (suc h) node txid k v m = elim (Branch.req_clone node txid m) [
    | some (cnode, m') ↦ do
      let idx = Branch.locate_node cnode k
      anode ← Branch.get_idx cnode idx
      (s, m'') ← clone_and_insert h anode txid k v (note_clone cnode.nid node.nid m')
      s' ← expect_clone s
      r ← settle_child (Node.min K V h) cnode idx txid s' m''
      some (branch_cloned r)
    | none ↦ do
      let idx = Branch.locate_node node k
      anode ← Branch.get_idx node idx
      (s, m'') ← clone_and_insert h anode txid k v m
      r ← settle_child (Node.min K V h) node idx txid s m''
      some (branch_in_place r)
  ]
