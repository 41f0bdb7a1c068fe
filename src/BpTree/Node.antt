-- ===== src/BpTree/Node.antt =====
-- src/bptree/node.rs: nodes of a given height. The flag of `meta`, leaf or branch, is the height
-- being 0 or not: the casts of the source take siblings to be of one kind, and so do the types.
use concread.BpTree.Branch
use concread.BpTree.Branch.{Branch}
use concread.BpTree.Leaf
use concread.BpTree.Leaf.{Leaf}
use concread.BpTree.Mem.{Mem}
use concread.Prelude.{ℕ, zero, suc, ◌+◌, List, [], ◌∷◌, ◌++◌, Option}

abbrev pub Node {ℓ κ} : (K : Type ℓ) (V : Type κ) → ℕ → Type (ℓ ⊔ κ)
Node K V zero = Leaf K V
Node K V (suc h) = Branch K (Node K V h)

-- Folds over the children behind the first.
module _ {ℓ κ} {K : Type ℓ} {A : Type κ} where
  -- the child at index `count`
  unfoldable pub last_child : A → List (K × A) → A
  last_child c [] = c
  last_child c ((j, d) ∷ rest) = last_child d rest

  unfoldable pub sum_rest : (A → ℕ) → List (K × A) → ℕ
  sum_rest f [] = 0
  sum_rest f ((j, d) ∷ rest) = f d + sum_rest f rest

  unfoldable pub concat_rest {μ} : {B : Type μ} → (A → List B) → List (K × A) → List B
  concat_rest f [] = []
  concat_rest f ((j, d) ∷ rest) = f d ++ concat_rest f rest

module _ {ℓ κ} (K : Type ℓ) (V : Type κ) where
  -- `meta.count()` of either kind
  abbrev pub count : (h : ℕ) → Node K V h → ℕ
  count zero l = Leaf.count l
  count (suc h) b = Branch.count b

  abbrev pub nid : (h : ℕ) → Node K V h → ℕ
  nid zero l = l.nid
  nid (suc h) b = b.nid

  abbrev pub txid : (h : ℕ) → Node K V h → ℕ
  txid zero l = l.txid
  txid (suc h) b = b.txid

  unfoldable pub min : (h : ℕ) → Node K V h → Option K
  min zero l = Leaf.min l
  min (suc h) b = min h b.first

  unfoldable pub max : (h : ℕ) → Node K V h → Option K
  unfolding last_child
  max zero l = Leaf.max l
  max (suc h) b = max h (last_child b.first b.rest)

  unfoldable pub req_clone : (h : ℕ) → Node K V h → ℕ → Mem → Option (Node K V h × Mem)
  req_clone zero l t m = Leaf.req_clone l t m
  req_clone (suc h) b t m = Branch.req_clone b t m

  unfoldable pub leaf_count : (h : ℕ) → Node K V h → ℕ
  unfolding sum_rest
  leaf_count zero l = 1
  leaf_count (suc h) b = leaf_count h b.first + sum_rest (leaf_count h) b.rest

  -- The descendants of a node, each pushed before its own; the node itself is not among them.
  unfoldable pub sblock_collect : (h : ℕ) → Node K V h → List ℕ
  unfolding concat_rest
  sblock_collect zero l = []
  sblock_collect (suc h) b =
      (nid h b.first ∷ sblock_collect h b.first)
      ++ concat_rest (λ d. nid h d ∷ sblock_collect h d) b.rest
