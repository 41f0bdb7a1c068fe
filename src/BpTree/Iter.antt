-- ===== src/BpTree/Iter.antt =====
-- src/bptree/iter.rs: the iterators, as a stack of positions. The back of the deque is the head of
-- the list.
pub mod Leaves
pub mod Order
pub mod Tests
use concread.BpTree.Branch
use concread.BpTree.Branch.{Branch, node_at}
use concread.BpTree.Cursor.{Root, root, CursorRead}
use concread.BpTree.Leaf
use concread.BpTree.Leaf.{Leaf}
use concread.BpTree.Node
use concread.BpTree.Node.{Node}
use concread.Prelude.{
  ℕ, zero, suc, ◌+◌, List, [], ◌∷◌, Bool, Option, none, some, ◌>>=◌, if◌then◌else◌,
}

-- A node and its index in its parent.
abbrev pub Stack {ℓ κ} : (K : Type ℓ) (V : Type κ) → Type (ℓ ⊔ κ)
Stack K V = List (Root K V × ℕ)

pub record LeafIter {ℓ κ} (K : Type ℓ) (V : Type κ) : Type (ℓ ⊔ κ) where
  pub length : Option ℕ
  pub stack : Stack K V

pub record Iter {ℓ κ} (K : Type ℓ) (V : Type κ) : Type (ℓ ⊔ κ) where
  pub length : ℕ
  pub idx : ℕ
  pub curleaf : Option (Leaf K V)
  pub leafiter : LeafIter K V

module _ {ℓ κ} (K : Type ℓ) (V : Type κ) where
  -- The loops that push a node and the first children below it.
  unfoldable pub descend : (h : ℕ) → Node K V h → ℕ → Stack K V → Option (Stack K V)
  descend zero n idx stack = some ((root K V zero n, idx) ∷ stack)
  descend (suc h) n idx stack = do
    child ← Branch.get_idx n 0
    descend h child 0 ((root K V (suc h) n, idx) ∷ stack)

  -- `get_idx_checked`; the outer `none` is the failed assertion on a leaf.
  unfoldable pub checked : (h : ℕ) → Node K V h → ℕ → Option (Option (Root K V))
  checked zero n idx = none
  checked (suc h) n idx =
      some (elim (Branch.get_idx n idx) [ none ↦ none | some c ↦ some (root K V h c) ])

  unfoldable pub stack_position : Stack K V → ℕ → Option (Stack K V)
  stack_position [] idx = some []
  stack_position ((bref, bpidx) ∷ stack) idx =
      let unwound = stack_position stack (bpidx + 1) in
      checked bref.height bref.node idx >>= λ node. elim node [
        | some c ↦ descend c.height c.node idx ((bref, bpidx) ∷ stack)
        | none ↦ unwound
      ]

  unfoldable pub new_leaf_iter : Root K V → Bool → Option (LeafIter K V)
  new_leaf_iter r size_hint = do
    stack ← descend r.height r.node 0 []
    some (record {
      length = if size_hint then some (Node.leaf_count K V r.height r.node) else none;
      stack = stack;
    })

  -- `leaf_ref!`; `none` is the failed assertion on a branch.
  unfoldable pub as_leaf : (h : ℕ) → Node K V h → Option (Leaf K V)
  as_leaf zero n = some n
  as_leaf (suc h) n = none

  unfoldable pub next_leaf_in : Option ℕ → Stack K V → Option (Option (Leaf K V) × LeafIter K V)
  next_leaf_in length [] = some (none, record { length = length; stack = [] })
  next_leaf_in length ((leafref, parent_idx) ∷ stack) = do
    stack' ← stack_position stack (parent_idx + 1)
    leaf ← as_leaf leafref.height leafref.node
    some (some leaf, record { length = length; stack = stack' })

  -- `LeafIter::next`
  unfoldable pub next_leaf : LeafIter K V → Option (Option (Leaf K V) × LeafIter K V)
  next_leaf it = next_leaf_in it.length it.stack

  unfoldable pub new_iter : Root K V → ℕ → Option (Iter K V)
  new_iter r length = do
    liter ← new_leaf_iter r Bool.false
    (leaf, liter') ← next_leaf liter
    some (record { length = length; idx = 0; curleaf = leaf; leafiter = liter' })

  -- `Iter::next`, which calls itself after each leaf, at most `fuel` times.
  unfoldable pub next_in :
      ℕ → ℕ → ℕ → Option (Leaf K V) → LeafIter K V → Option (Option (K × V) × Iter K V)
  next_in fuel length idx none liter =
      some (none, record { length = length; idx = idx; curleaf = none; leafiter = liter })
  next_in zero length idx (some leaf) liter = none
  next_in (suc fuel) length idx (some leaf) liter = elim (Leaf.get_kv_idx_checked leaf idx) [
    | some r ↦
        some
          (some r, record { length = length; idx = idx + 1; curleaf = some leaf; leafiter = liter })
    | none ↦ next_leaf liter >>= λ (leaf', liter'). next_in fuel length 0 leaf' liter'
  ]

  unfoldable pub next : ℕ → Iter K V → Option (Option (K × V) × Iter K V)
  next fuel it = next_in fuel it.length it.idx it.curleaf it.leafiter

  unfoldable pub next_key : ℕ → Iter K V → Option (Option K × Iter K V)
  next_key fuel it =
      next fuel it >>= λ (r, it'). some (elim r [ none ↦ none | some kv ↦ some kv.0 ], it')

  unfoldable pub next_value : ℕ → Iter K V → Option (Option V × Iter K V)
  next_value fuel it =
      next fuel it >>= λ (r, it'). some (elim r [ none ↦ none | some kv ↦ some kv.1 ], it')

  abbrev pub size_hint : Iter K V → ℕ × Option ℕ
  size_hint it = (it.length, some it.length)

  unfoldable pub kv_iter : CursorRead K V → Option (Iter K V)
  kv_iter c = new_iter c.tree c.length
