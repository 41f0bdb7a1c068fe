-- ===== src/BpTree/Branch/Steps.antt =====
-- `add_node` and `add_node_left` where the reads on their way succeed.
use concread.BpTree.Branch
use concread.BpTree.Branch.{
  Branch, node_at, splice, add_node, add_node_full, add_node_left, insert_left, with_nodes,
}
use concread.BpTree.Leaf.{l_capacity}
use concread.BpTree.States.{BranchInsertState}
use concread.Ord.{Ord}
use concread.Prelude.{ℕ, [], ◌∷◌, ◌≡◌, Option, some, if◌then◌else◌, ◌==◌, false, arith}
use concread.Slice.{key_search, slice_insert, err}

module _ {ℓ κ} {K : Type ℓ} {A : Type κ} ⦃o : Ord K⦄ (min : A → Option K) (b : Branch K A) where
  pub add_node_step :
      (node : A) (kr : K) (idx : ℕ)
      → min node ≡ some kr
      → key_search b.rest kr ≡ err idx
      → add_node min b node ≡ (
          if Branch.count b == l_capacity
          then add_node_full b node kr idx
          else some
              (record b { rest = slice_insert b.rest (kr, node) idx }, BranchInsertState.done))
  unfolding add_node
  add_node_step node kr idx e s = ground arith

  pub add_node_left_step :
      (lnode sib : A) (nkey : K) (idx : ℕ)
      → (Branch.count b == l_capacity) ≡ false
      → Branch.get_idx b idx ≡ some sib
      → min sib ≡ some nkey
      → add_node_left min b lnode idx
        ≡ some (
          with_nodes b (splice b.first b.rest idx lnode ((nkey, sib) ∷ [])),
          BranchInsertState.done,
        )
  unfolding add_node_left insert_left
  add_node_left_step lnode sib nkey idx space e s = ground arith
