-- ===== src/BpTree/States.antt =====
-- src/bptree/states.rs: what an operation on a node tells its caller, over the type `A` of the
-- node. A node that was changed in place comes back in the states that say so.
use concread.Prelude.{Option}

pub data LeafInsertState {ℓ κ} (A : Type ℓ) (V : Type κ) : Type (ℓ ⊔ κ) where
  done : Option V → LeafInsertState A V
  split : A → LeafInsertState A V
  rev_split : A → LeafInsertState A V

pub data LeafRemoveState {κ} (V : Type κ) : Type κ where
  done : Option V → LeafRemoveState V
  shrink : Option V → LeafRemoveState V

pub data BranchInsertState {ℓ} (A : Type ℓ) : Type ℓ where
  done : BranchInsertState A
  split : A → A → BranchInsertState A

pub data BranchShrinkState {ℓ} (A : Type ℓ) : Type ℓ where
  balanced : BranchShrinkState A
  merge : A → BranchShrinkState A
  shrink : A → BranchShrinkState A

-- The first node of each state is the one that the call was made on, changed in place or cloned.
pub data CrInsertState {ℓ κ} (A : Type ℓ) (V : Type κ) : Type (ℓ ⊔ κ) where
  no_clone : A → Option V → CrInsertState A V
  clone : A → Option V → CrInsertState A V
  split : A → A → CrInsertState A V
  rev_split : A → A → CrInsertState A V
  clone_split : A → A → CrInsertState A V
  clone_rev_split : A → A → CrInsertState A V

pub data CrCloneState {ℓ} (A : Type ℓ) : Type ℓ where
  clone : A → CrCloneState A
  no_clone : A → CrCloneState A

pub data CrRemoveState {ℓ κ} (A : Type ℓ) (V : Type κ) : Type (ℓ ⊔ κ) where
  no_clone : A → Option V → CrRemoveState A V
  clone : A → Option V → CrRemoveState A V
  shrink : A → Option V → CrRemoveState A V
  clone_shrink : A → Option V → CrRemoveState A V
