-- ===== src/BpTree/Tree/LeafWrite.antt =====
-- The write through a reference to a value of a leaf.
use concread.BpTree.Leaf.{Leaf}
use concread.BpTree.Leaf.Laws.{IsLeaf, IsFilled}
use concread.BpTree.Node.{Node}
use concread.BpTree.Remove.{path_get_mut_ref}
use concread.BpTree.Tree.{node_child}
use concread.BpTree.Tree.Dates.{entries}
use concread.Ord.{Ord}
use concread.Prelude.{
  ℕ, ◌≡◌, refl, ap, sym, ◌∙◌, subst, Option, some, arith, length, Ensures, Ensures-imp, get_elem?,
}
use concread.Slice.Laws.{get_elem?_at, set_at}
use concread.Slice.Search.{Located, hit, miss, key_search-Located}
use concread.Slice.{key_search, ok, set}
use concread.SortedMap.{IsSorted, lookup}
use concread.SortedMap.Laws.{lookup_over, lookup_between}
use concread.SortedMap.Update.{update, update_over, update_between, update-IsSorted, length-update}

module _ {ℓ κ} (K : Type ℓ) (V : Type κ) ⦃o : Ord K⦄ where
  -- The node after a write to the value under `k`, which was found or not.
  abbrev pub WritePost : (h t : ℕ) → Node K V h → K → (V → V) → Option V × Node K V h → Type (ℓ ⊔ κ)
  WritePost h t n k g (res, n') =
      (node_child K V h t).Good n'
      × (entries K V h n' ≡ update k g (entries K V h n))
      × (res ≡ lookup k (entries K V h n))

  pub leaf_write :
      (l : Leaf K V) (k : K) (g : V → V)
      → IsSorted l.entries
      → Ensures
          (λ r.
            (r.1.txid ≡ l.txid) × (r.1.entries ≡ update k g l.entries) × (r.0 ≡ lookup k l.entries))
          (path_get_mut_ref K V 0 l k g)
  unfolding path_get_mut_ref
  leaf_write l k g s = go (key_search-Located k l.entries s)
    where
      go :
          Located k l.entries 0 (key_search l.entries k)
          → Ensures
              (λ r.
                (r.1.txid ≡ l.txid)
                × (r.1.entries ≡ update k g l.entries)
                × (r.0 ≡ lookup k l.entries))
              (path_get_mut_ref K V 0 l k g)
      go (hit pre post x e p lo hi) =
          let at : key_search l.entries k ≡ ok (length pre) = p ∙ ap ok (omega arith) in
          let read : get_elem? l.entries (length pre) ≡ some (k, x) =
            ap (λ z. get_elem? z (length pre)) e ∙ get_elem?_at pre post (k, x) in
          rw (at, path_get_mut_ref, read)
            (
              refl,
              ap (λ z. set z (length pre) (k, g x)) e
                  ∙ set_at pre post (k, x) (k, g x)
                  ∙ sym (ap (update k g) e ∙ update_over k g x pre post lo),
              sym (ap (lookup k) e ∙ lookup_over k x pre post lo),
            )
      go (miss pre post e p lo hi) =
          rw (p, path_get_mut_ref)
            (
              refl,
              e ∙ sym (ap (update k g) e ∙ update_between k g pre post lo hi),
              sym (ap (lookup k) e ∙ lookup_between k pre post lo hi),
            )

  pub written_leaf :
      (t : ℕ) (l l' : Leaf K V) (k : K) (g : V → V)
      → IsLeaf t l
      → l'.txid ≡ l.txid
      → l'.entries ≡ update k g l.entries
      → IsLeaf t l'
  written_leaf t l l' k g w d e = record {
    sorted = subst IsSorted (sym e) (update-IsSorted k g l.entries w.sorted);
    bounded = omega (arith, ap length e, length-update k g l.entries, w.bounded);
    dated = omega (arith, d, w.dated);
  }

  pub leaf-WritePost :
      (l : Leaf K V) (t : ℕ) (k : K) (g : V → V)
      → IsFilled t l
      → Ensures (WritePost 0 t l k g) (path_get_mut_ref K V 0 l k g)
  unfolding node_child entries
  leaf-WritePost l t k g w =
      Ensures-imp _ (WritePost 0 t l k g) (path_get_mut_ref K V 0 l k g)
        (leaf_write l k g w.leaf.sorted)
        λ r p. (
          record {
            leaf = written_leaf t l r.1 k g w.leaf p.0 p.1;
            filled = omega (arith, ap length p.1, length-update k g l.entries, w.filled);
          },
          p.1,
          p.2,
        )
