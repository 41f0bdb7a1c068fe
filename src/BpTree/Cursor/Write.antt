-- ===== src/BpTree/Cursor/Write.antt =====
-- src/bptree/cursor.rs: `CursorWrite::get_mut_ref` against the abstract map.
use concread.BpTree.Cursor.{CursorWrite, get_mut_ref}
use concread.BpTree.Cursor.Valid.{contents, IsCursor}
use concread.BpTree.Leaf
use concread.BpTree.Leaf.{Leaf}
use concread.BpTree.Mem.{Mem}
use concread.BpTree.Node.{Node}
use concread.BpTree.Remove.{path_clone, path_get_mut_ref}
use concread.BpTree.States.{CrCloneState}
use concread.BpTree.Tree.{node_child}
use concread.BpTree.Tree.Dates.{entries}
use concread.BpTree.Tree.Insert.{IsTree}
use concread.BpTree.Tree.Path.{
  ClonePost, path_clone-ClonePost, path_node, path_get_mut_ref-WritePost,
}
use concread.BpTree.Tree.LeafWrite.{leaf_write, written_leaf}
use concread.Ord.{Ord}
use concread.Prelude.{
  ℕ, zero, suc, List, ◌≡◌, refl, sym, ap, ◌∙◌, Option, arith, length, Ensures, Ensures-bind,
  Ensures-imp, Bool-cases, inl, inr, ◌==◌,
}
use concread.SortedMap.{lookup}
use concread.SortedMap.Update.{update, update_id, length-update}

module _ {ℓ κ} (K : Type ℓ) (V : Type κ) ⦃o : Ord K⦄ where
  -- The copy of the path of a root, which may be an empty leaf.
  abbrev Copied : (h t : ℕ) → Node K V h → CrCloneState (Node K V h) × Mem → Type (ℓ ⊔ κ)
  Copied h t n z =
      IsTree K V h t (path_node z.0) × (entries K V h (path_node z.0) ≡ entries K V h n)

  path_clone-Copied :
      (h t : ℕ) (k : K) (n : Node K V h) (m : Mem)
      → IsTree K V h t n
      → Ensures (Copied h t n) (path_clone K V h n t k m)
  unfolding path_clone Leaf.req_clone node_child entries
  path_clone-Copied zero t k n m w = elim (Bool-cases (n.txid == t)) [
    | inl e ↦ rw (e, path_clone) (w, refl)
    | inr e ↦
        rw (e, path_clone)
          (record { sorted = w.sorted; bounded = w.bounded; dated = omega arith }, refl)
  ]
  path_clone-Copied (suc h) t k n m w =
      Ensures-imp (ClonePost K V (suc h) t n k) (Copied (suc h) t n)
        (path_clone K V (suc h) n t k m) (path_clone-ClonePost K V (suc h) t k n m w)
        λ z p. (p.0, p.2 ∙ update_id k (entries K V (suc h) n))

  abbrev Wrote : (h t : ℕ) → List (K × V) → K → (V → V) → Option V × Node K V h → Type (ℓ ⊔ κ)
  Wrote h t before k g r =
      IsTree K V h t r.1 × (entries K V h r.1 ≡ update k g before) × (r.0 ≡ lookup k before)

  path_get_mut_ref-Wrote :
      (h t : ℕ) (k : K) (g : V → V) (n : Node K V h)
      → IsTree K V h t n
      → Ensures (Wrote h t (entries K V h n) k g) (path_get_mut_ref K V h n k g)
  unfolding node_child entries
  path_get_mut_ref-Wrote zero t k g n w =
      Ensures-imp _ (Wrote 0 t n.entries k g) (path_get_mut_ref K V 0 n k g)
        (leaf_write K V n k g w.sorted) λ r p. (written_leaf K V t n r.1 k g w p.0 p.1, p.1, p.2)
  path_get_mut_ref-Wrote (suc h) t k g n w = path_get_mut_ref-WritePost K V (suc h) t k g n w

  -- What a write through a reference promises.
  pub record Written (c : CursorWrite K V) (k : K) (g : V → V) (r : CursorWrite K V × Option V)
      : Type (ℓ ⊔ κ) where
    pub valid : IsCursor r.0
    pub same_length : r.0.length ≡ c.length
    pub same_txid : r.0.txid ≡ c.txid
    pub stored : contents r.0.tree ≡ update k g (contents c.tree)
    pub result : r.1 ≡ lookup k (contents c.tree)

  -- A write through `get_mut_ref` on a valid cursor does not panic, keeps the cursor valid, changes
  -- the value under the key, if there is one, and nothing else, and the reference was to what was
  -- stored under the key.
  pub get_mut_ref-Written :
      (c : CursorWrite K V) (k : K) (g : V → V)
      → IsCursor c
      → Ensures (Written c k g) (get_mut_ref K V c k g)
  unfolding get_mut_ref
  get_mut_ref-Written c k g w =
      let h = c.tree.height in
      Ensures-bind (Copied h c.txid c.tree.node) (Written c k g)
        (path_clone K V h c.tree.node c.txid k c.mem) _
        (path_clone-Copied h c.txid k c.tree.node c.mem w.tree)
        λ z is p.
          Ensures-bind (Wrote h c.txid (entries K V h (path_node z.0)) k g) (Written c k g)
            (path_get_mut_ref K V h (path_node z.0) k g) _
            (path_get_mut_ref-Wrote h c.txid k g (path_node z.0) p.0)
            λ r is' q.
              let stored = q.1 ∙ ap (update k g) p.1 in
              record {
                valid = record {
                  tree = q.0;
                  counted =
                      w.counted ∙ sym (ap length stored ∙ length-update k g (contents c.tree));
                };
                same_length = refl;
                same_txid = refl;
                stored = stored;
                result = q.2 ∙ ap (lookup k) p.1;
              }
