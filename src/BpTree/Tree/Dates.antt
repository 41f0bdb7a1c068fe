-- ===== src/BpTree/Tree/Dates.antt =====
-- A node that is good in one transaction is good in a later one, and its entries are the same.
use concread.BpTree.Branch.{Branch}
use concread.BpTree.Chain.{IsChain}
use concread.BpTree.Node
use concread.BpTree.Node.{Node, concat_rest}
use concread.BpTree.Tree.{node_child}
use concread.Ord.{Ord, ◌≼◌, ◌≺◌}
use concread.Prelude.{ℕ, zero, suc, ◌≤◌, List, [], ◌∷◌, ◌++◌, ◌≡◌, refl, sym, subst, ap, arith}
use concread.SortedMap.{AllKeys}
use mathlib.Core.Path.{fun_ext}

module _ {ℓ κ} (K : Type ℓ) (V : Type κ) ⦃o : Ord K⦄ where
  -- the entries of a node, in key order
  unfoldable pub entries : (h : ℕ) → Node K V h → List (K × V)
  unfolding concat_rest
  entries zero l = l.entries
  entries (suc h) b = entries h b.first ++ concat_rest (entries h) b.rest

  pub view-entries : (h t : ℕ) → (node_child K V h t).view ≡ entries h
  unfolding entries node_child
  view-entries zero t = refl
  view-entries (suc h) t = fun_ext λ b. go b (view-entries h b.txid)
    where
      go :
          (b : Branch K (Node K V h))
          → (node_child K V h b.txid).view ≡ entries h
          → (node_child K V h b.txid).view b.first
              ++ concat_rest (node_child K V h b.txid).view b.rest
            ≡ entries h b.first ++ concat_rest (entries h) b.rest
      go b e = rw e

  pub min-node_min : (h t : ℕ) → (node_child K V h t).min ≡ Node.min K V h
  unfolding Node.min node_child
  min-node_min zero t = refl
  min-node_min (suc h) t = fun_ext λ b. ap (λ f. f b.first) (min-node_min h b.txid)

  pub Good-le :
      (h s t : ℕ) (n : Node K V h)
      → s ≤ t
      → (node_child K V h s).Good n
      → (node_child K V h t).Good n
  unfolding node_child
  Good-le zero s t n le g = record {
    leaf = record {
      sorted = g.leaf.sorted;
      bounded = g.leaf.bounded;
      dated = omega (arith, g.leaf.dated);
    };
    filled = g.filled;
  }
  Good-le (suc h) s t n le g = record { dated = omega (arith, g.dated); branch = g.branch }

  same_view :
      (h s t : ℕ) (P : (Node K V h → List (K × V)) → Type 0)
      → P (node_child K V h s).view
      → P (node_child K V h t).view
  same_view h s t P p = subst P (sym (view-entries h t)) (subst P (view-entries h s) p)

  -- The same of a chain of nodes.
  pub IsChain-le :
      (h s t : ℕ) (P : K → Type 0) (c : Node K V h) (rest : List (K × Node K V h))
      → s ≤ t
      → IsChain (node_child K V h s) P c rest
      → IsChain (node_child K V h t) P c rest
  IsChain-le h s t P c [] le w =
      (same_view h s t (λ f. AllKeys P (f c)) w.0, Good-le h s t c le w.1)
  IsChain-le h s t P c ((j, d) ∷ rest) le w = (
    same_view h s t (λ f. AllKeys P (f c)) w.0,
    Good-le h s t c le w.1,
    same_view h s t (λ f. AllKeys (λ x. x ≺ j) (f c)) w.2,
    w.3,
    IsChain-le h s t (λ x. j ≼ x) d rest le w.4,
  )
