-- ===== src/BpTree/Cursor/Search.antt =====
-- src/bptree/cursor.rs: the descent of `search` against the abstract map.
use concread.BpTree.Branch
use concread.BpTree.Branch.{Branch, locate_node}
use concread.BpTree.Branch.Search.{locate_node-locate_rest}
use concread.BpTree.Chain.Focus.{locate-Focus}
use concread.BpTree.Chain.Insert.{Top}
use concread.BpTree.Cursor.{Root, max_depth, search_loop, search}
use concread.BpTree.Cursor.Valid.{contents, IsValid}
use concread.BpTree.Leaf
use concread.BpTree.Leaf.{Leaf}
use concread.BpTree.Node.{Node}
use concread.BpTree.Tree.{node_child}
use concread.BpTree.Tree.Dates.{entries, view-entries}
use concread.BpTree.Tree.Descend.{tree-entries}
use concread.BpTree.Tree.Height.{height_lt}
use concread.BpTree.Tree.Insert.{IsTree, IsTree-of_Good}
use concread.Ord.{Ord}
use concread.Prelude.{ℕ, zero, suc, ◌<◌, length, ◌≡◌, refl, sym, ap, ◌∙◌, some, arith}
use concread.Slice.Laws.{get_elem?_at}
use concread.Slice.Search.{Located, hit, miss, key_search-Located}
use concread.Slice.{key_search, ok}
use concread.SortedMap.{IsSorted, lookup}
use concread.SortedMap.Laws.{lookup_over, lookup_between}
use concread.SortedMap.Middle.{lookup_middle}
use Prim.Native.Nat.{◌^◌}

module _ {ℓ κ} {K : Type ℓ} {V : Type κ} ⦃o : Ord K⦄ where
  -- A leaf finds what the abstract map finds in its entries.
  pub get_ref-lookup :
      (l : Leaf K V) (k : K) → IsSorted l.entries → Leaf.get_ref l k ≡ lookup k l.entries
  unfolding Leaf.get_ref
  get_ref-lookup l k s = go (key_search-Located k l.entries s)
    where
      go : Located k l.entries 0 (key_search l.entries k) → Leaf.get_ref l k ≡ lookup k l.entries
      go (hit pre post x e p lo hi) =
          let at : key_search l.entries k ≡ ok (length pre) = p ∙ ap ok (omega arith) in
          rw (at, Leaf.get_ref, e, get_elem?_at pre post (k, x), lookup_over k x pre post lo) refl
      go (miss pre post e p lo hi) = rw (p, Leaf.get_ref, e, lookup_between k pre post lo hi) refl

module _ {ℓ κ} (K : Type ℓ) (V : Type κ) ⦃o : Ord K⦄ where
  -- A loop with more steps than the tree is high finds what the abstract map finds.
  pub search_loop-lookup :
      (h i t : ℕ) (n : Node K V h) (k : K)
      → IsTree K V h t n
      → h < i
      → search_loop K V h i n k ≡ some (lookup k (entries K V h n))
  unfolding search_loop entries node_child
  search_loop-lookup h zero t n k w le = absurd (omega arith)
  search_loop-lookup zero (suc i) t n k w le = ap some (get_ref-lookup n k w.sorted)
  search_loop-lookup (suc h) (suc i) t n k w le =
      let ch = node_child K V h n.txid in
      let f = locate-Focus ch Top n.first n.rest k (λ x y p q. tt) tt w.branch.chain in
      let at : Branch.get_idx n (locate_node n k) ≡ some f.child =
        rw (locate_node-locate_rest n k) f.found in
      let below =
        search_loop-lookup h i n.txid f.child k (IsTree-of_Good K V h n.txid f.child f.good)
          (omega arith) in
      rw (search_loop, at)
        (below
          ∙ ap some (
              ap (λ g. lookup k (g f.child)) (sym (view-entries K V h n.txid))
              ∙ sym (lookup_middle k f.before (ch.view f.child) f.after f.below f.above)
              ∙ ap (lookup k) (sym f.split ∙ tree-entries K V h n.txid n)))

  -- The search of a valid tree never reaches the panic at the end of its loop.
  pub search-lookup :
      (t size : ℕ) (r : Root K V) (k : K)
      → IsValid t size r
      → size < 2 ^ 64
      → search K V r k ≡ some (lookup k (contents r))
  unfolding search
  search-lookup t size r k w le =
      search_loop-lookup r.height max_depth t r.node k w.tree
        (omega (arith, height_lt K V r.height t r.node w.tree (rw (← w.counted) le)))
