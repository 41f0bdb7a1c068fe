-- ===== src/BpTree/Shrink.antt =====
-- src/bptree/node.rs: what a branch does about a child that has run empty.
pub mod Laws
pub mod Steps
pub mod Branches
use concread.BpTree.Branch
use concread.BpTree.Branch.{Branch}
use concread.BpTree.Leaf
use concread.BpTree.Mem.{Mem, push_first, push_last}
use concread.BpTree.Node
use concread.BpTree.Node.{Node}
use concread.BpTree.States.{BranchShrinkState}
use concread.Prelude.{
  ℕ, zero, suc, ◌+◌, ◌-◌, ◌/◌, Option, none, some, ◌==◌, leb, ltb, if◌then◌else◌, ◌>>=◌,
}
use concread.BpTree.Leaf.{l_capacity}
use concread.Ord.{Ord}

-- What was done to the two siblings: everything is in the left one, entries were moved, or nothing.
pub data Outcome : Type 0 where
  merged moved kept : Outcome

module _ {ℓ κ} (K : Type ℓ) (V : Type κ) ⦃o : Ord K⦄ where
  -- The match on the kind of the siblings.
  unfoldable pub rebalance :
      (h : ℕ) → Node K V h → Node K V h → Option (Outcome × Node K V h × Node K V h)
  rebalance zero l r =
      if leb (Leaf.count l + Leaf.count r) l_capacity
      then (let (l', r') = Leaf.merge l r in some (merged, l', r'))
      else if ltb (l_capacity / 2) (Leaf.count r)
      then (let (l', r') = Leaf.take_from_r_to_l l r in some (moved, l', r'))
      else if ltb (l_capacity / 2) (Leaf.count l)
      then (let (l', r') = Leaf.take_from_l_to_r l r in some (moved, l', r'))
      else some (kept, l, r)
  rebalance (suc h) l r =
      if Branch.count l == l_capacity
      then (do
        (l', r') ← Branch.take_from_l_to_r (Node.min K V h) o.dropped l r
        some (moved, l', r'))
      else if Branch.count r == l_capacity
      then (do (l', r') ← Branch.take_from_r_to_l (Node.min K V h) l r; some (moved, l', r'))
      else (do (l', r') ← Branch.merge (Node.min K V h) l r; some (merged, l', r'))

module _ {ℓ κ} (K : Type ℓ) (V : Type κ) where
  abbrev pub Parent : ℕ → Type (ℓ ⊔ κ)
  Parent h = Branch K (Node K V h)

  -- The parent after the siblings at `ridx - 1` and `ridx` changed in place.
  unfoldable pub settle :
      (h : ℕ) → Parent h → ℕ → Outcome → Option (Parent h × BranchShrinkState (Node K V h))
  settle h b ridx merged = do
    (dnode, b') ← Branch.remove_by_idx b ridx
    some (
      b',
      (if Branch.count b' == 0
          then BranchShrinkState.shrink dnode
          else BranchShrinkState.merge dnode),
    )
  settle h b ridx moved = do
    b' ← Branch.rekey_by_idx (Node.min K V h) b ridx
    some (b', BranchShrinkState.balanced)
  settle h b ridx kept = some (b, BranchShrinkState.balanced)

module _ {ℓ κ} (K : Type ℓ) (V : Type κ) ⦃o : Ord K⦄ where
  unfoldable pub shrink_decision :
      (h : ℕ) → Parent K V h → ℕ → Option (Parent K V h × BranchShrinkState (Node K V h))
  unfolding rebalance settle
  shrink_decision h b ridx = do
    left ← Branch.get_idx b (ridx - 1)
    right ← Branch.get_idx b ridx
    (what, l, r) ← rebalance K V h left right
    settle K V h (Branch.replace_by_idx (Branch.replace_by_idx b (ridx - 1) l) ridx r) ridx what

module _ {ℓ κ} (K : Type ℓ) (V : Type κ) where
  -- The index of the right sibling, and the sibling that `idx` goes with, cloned if need be.
  unfoldable pub clone_sibling_idx :
      (h : ℕ) → Parent K V h → (txid idx : ℕ) → Mem → Option (ℕ × Parent K V h × Mem)
  clone_sibling_idx h b txid idx m = do
    let ridx = (if idx == 0 then 1 else idx)
    let sib = (if idx == 0 then 1 else idx - 1)
    sib_ptr ← Branch.get_idx b sib
    elim (Node.req_clone K V h sib_ptr txid m) [
      | none ↦ some (ridx, b, m)
      | some (n_ptr, m') ↦ some (
        ridx,
        Branch.replace_by_idx b sib n_ptr,
        push_last (Node.nid K V h sib_ptr) (push_first (Node.nid K V h n_ptr) m'),
      )
    ]
