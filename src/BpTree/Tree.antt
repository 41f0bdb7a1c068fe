-- ===== src/BpTree/Tree.antt =====
-- The nodes of each height as children, and what the tree promises of them.
pub mod Dates
pub mod Insert
pub mod Descend
pub mod Height
pub mod Rebalance
pub mod Sibling
pub mod Shrink
pub mod Remove
pub mod Settle
pub mod RemoveDescend
pub mod Path
pub mod LeafWrite
use concread.BpTree.Branch
use concread.BpTree.Branch.{Branch}
use concread.BpTree.Chain.{Child, chain_view, IsChain}
use concread.BpTree.Chain.Insert.{IsBranch, Top, tree_view}
use concread.BpTree.Chain.Order.{IsSorted-chain}
use concread.BpTree.Leaf
use concread.BpTree.Leaf.{Leaf, min_entries}
use concread.BpTree.Leaf.Laws.{IsLeaf, IsFilled}
use concread.BpTree.Node
use concread.BpTree.Node.{Node, concat_rest}
use concread.Ord.{Ord}
use concread.Prelude.{
  ℕ, zero, suc, ◌≤◌, List, [], ◌∷◌, ◌++◌, ◌≡◌, refl, ap, sym, ◌∙◌, some, arith, length,
}
use concread.SortedMap.{IsSorted}
use mathlib.Core.Path.{fun_ext}

module _ {ℓ κ} (K : Type ℓ) (V : Type κ) ⦃o : Ord K⦄ where
  pub leaf_least :
      (t : ℕ) (l : Leaf K V)
      → IsFilled t l
      → (k : K) × (v : V) × (xs : List (K × V)) × (Leaf.min l ≡ some k) × (l.entries ≡ (k, v) ∷ xs)
  unfolding min_entries
  leaf_least t l w = go l.entries w.filled
    where
      go :
          (es : List (K × V))
          → 1 ≤ length es
          → (k : K) × (v : V) × (xs : List (K × V)) × (min_entries es ≡ some k) × (es ≡ (k, v) ∷ xs)
      go [] h = absurd (omega arith)
      go ((k, v) ∷ xs) h = (k, v, xs, refl, refl)

  abbrev pub leaf_child : ℕ → Child K V (Leaf K V)
  leaf_child t = record {
    view = λ l. l.entries;
    min = λ l. Leaf.min l;
    Good = IsFilled t;
    sorted = λ l w. w.leaf.sorted;
    least = leaf_least t;
  }

  -- A node is at most as young as its parent; `t` bounds the transactions of the whole tree.
  pub record IsGoodBranch {μ} {A : Type μ} (ch : ℕ → Child K V A) (t : ℕ) (b : Branch K A)
      : Type 0 where
    pub dated : b.txid ≤ t
    pub branch : IsBranch (ch b.txid) b

  first_good {μ} :
      {A : Type μ} (ch : Child K V A) (P : K → Type 0) (c : A) (rest : List (K × A))
      → IsChain ch P c rest
      → ch.Good c
  first_good ch P c [] w = w.1
  first_good ch P c ((j, d) ∷ rest) w = w.1

  pub branch_least {μ} :
      {A : Type μ} (ch : ℕ → Child K V A) (t : ℕ) (b : Branch K A)
      → IsGoodBranch ch t b
      → (k : K) × (v : V) × (xs : List (K × V)) × ((ch b.txid).min b.first ≡ some k)
        × (tree_view (ch b.txid) b ≡ (k, v) ∷ xs)
  branch_least ch t b w =
      let g = first_good (ch b.txid) Top b.first b.rest w.branch.chain in
      let (k, v, xs, e, whole) = (ch b.txid).least b.first g in
      (
        k,
        v,
        xs ++ concat_rest (ch b.txid).view b.rest,
        e,
        ap (λ z. z ++ concat_rest (ch b.txid).view b.rest) whole,
      )

  abbrev pub branch_child {μ} : {A : Type μ} → (ℕ → Child K V A) → ℕ → Child K V (Branch K A)
  branch_child ch t = record {
    view = λ b. tree_view (ch b.txid) b;
    min = λ b. (ch b.txid).min b.first;
    Good = IsGoodBranch ch t;
    sorted = λ b w. IsSorted-chain (ch b.txid) Top b.first b.rest w.branch.chain;
    least = branch_least ch t;
  }

  unfoldable pub node_child : (h : ℕ) → ℕ → Child K V (Node K V h)
  node_child zero t = leaf_child t
  node_child (suc h) t = branch_child (node_child h) t
