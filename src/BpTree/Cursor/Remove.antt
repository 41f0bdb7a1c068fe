-- ===== src/BpTree/Cursor/Remove.antt =====
-- src/bptree/cursor.rs: `CursorWrite::remove` against the abstract map.
use concread.BpTree.Cursor.{
  CursorWrite, root, remove, shrink_root, demote_root, count_remove, search,
}
use concread.BpTree.Cursor.Search.{search-lookup}
use concread.BpTree.Cursor.Valid.{contents, IsCursor, tree-IsSorted}
use concread.BpTree.Mem.{Mem}
use concread.BpTree.Node.{Node, concat_rest}
use concread.BpTree.Remove.{clone_and_remove}
use concread.BpTree.States.{CrRemoveState}
use concread.BpTree.Tree.{node_child}
use concread.BpTree.Tree.Dates.{entries}
use concread.BpTree.Tree.Insert.{IsTree, IsTree-of_Good}
use concread.BpTree.Tree.Rebalance.{IsShrunk}
use concread.BpTree.Tree.Remove.{RemovedTo, RemovePost}
use concread.BpTree.Tree.RemoveDescend.{clone_and_remove-RemovePost}
use concread.Ord.{Ord, IsPlain}
use concread.Prelude.{
  ℕ, zero, suc, ◌+◌, ◌≤◌, ◌<◌, List, [], ◌∷◌, ◌++◌, ◌≡◌, ◌≢◌, refl, sym, ap, ◌∙◌, subst, Option,
  none, some, arith, length, Ensures, Ensures-bind, Ensures-imp, append-nil,
}
use concread.SortedMap
use concread.SortedMap.{lookup}
use concread.SortedMap.Laws.{lookup-remove_self, lookup-remove_ne}
use Prim.Native.Nat.{◌^◌}

module _ {ℓ κ} {K : Type ℓ} {V : Type κ} ⦃o : Ord K⦄ where
  length-remove_absent :
      (k : K) (xs : List (K × V)) → lookup k xs ≡ none → length (SortedMap.remove k xs) ≡ length xs
  unfolding lookup SortedMap.remove
  length-remove_absent k [] e = refl
  length-remove_absent k ((j, w) ∷ xs) e = ground (arith, length-remove_absent k xs)

  length-remove_present :
      (k : K) (u : V) (xs : List (K × V))
      → lookup k xs ≡ some u
      → length (SortedMap.remove k xs) + 1 ≡ length xs
  unfolding lookup SortedMap.remove
  length-remove_present k u [] e = cc
  length-remove_present k u ((j, w) ∷ xs) e = ground (arith, length-remove_present k u xs)

module _ {ℓ κ} (K : Type ℓ) (V : Type κ) ⦃o : Ord K⦄ where
  -- The tree and the result are those of a remove; the count is not corrected yet.
  record Demoted (c : CursorWrite K V) (k : K) (r : CursorWrite K V × Option V) : Type (ℓ ⊔ κ) where
    pub tree : IsTree K V r.0.tree.height c.txid r.0.tree.node
    pub same_txid : r.0.txid ≡ c.txid
    pub same_length : r.0.length ≡ c.length
    pub stored : contents r.0.tree ≡ SortedMap.remove k (contents c.tree)
    pub result : r.1 ≡ lookup k (contents c.tree)

  -- What a remove promises.
  pub record Removal (c : CursorWrite K V) (k : K) (r : CursorWrite K V × Option V)
      : Type (ℓ ⊔ κ) where
    pub valid : IsCursor r.0
    pub no_longer : r.0.length ≤ c.length
    pub same_txid : r.0.txid ≡ c.txid
    pub stored : contents r.0.tree ≡ SortedMap.remove k (contents c.tree)
    pub result : r.1 ≡ lookup k (contents c.tree)

  module _ (c : CursorWrite K V) (k : K) (w : IsCursor c) where
    -- A root that shrank gives way to its only child, or is an empty leaf.
    demoted :
        (h : ℕ) (n : Node K V h) (res : Option V) (m : Mem)
        → IsShrunk K V h c.txid n
        → entries K V h n ≡ SortedMap.remove k (contents c.tree)
        → res ≡ lookup k (contents c.tree)
        → Demoted c k (demote_root K V c h n m, res)
    unfolding demote_root entries concat_rest
    demoted zero n res m s e r = record {
      tree = s.0;
      same_txid = refl;
      same_length = refl;
      stored = e;
      result = r;
    }
    demoted (suc h) n res m s e r = record {
      tree = IsTree-of_Good K V h c.txid n.first s.1.good;
      same_txid = refl;
      same_length = refl;
      stored =
          sym (
            ap (λ z. entries K V h n.first ++ concat_rest (entries K V h) z) s.1.alone
            ∙ append-nil (entries K V h n.first))
          ∙ e;
      result = r;
    }

    kept_root :
        (h : ℕ) (n : Node K V h) (res : Option V) (m : Mem)
        → (node_child K V h c.txid).Good n
        → entries K V h n ≡ SortedMap.remove k (contents c.tree)
        → res ≡ lookup k (contents c.tree)
        → Demoted c k (record c { tree = root K V h n; mem = m }, res)
    kept_root h n res m g e r = record {
      tree = IsTree-of_Good K V h c.txid n g;
      same_txid = refl;
      same_length = refl;
      stored = e;
      result = r;
    }

    shrink_root-Demoted :
        (h : ℕ) (s : CrRemoveState (Node K V h) V) (m : Mem)
        → RemovedTo K V h c.txid (contents c.tree) k s
        → Demoted c k (shrink_root K V c h s m)
    unfolding shrink_root
    shrink_root-Demoted h (CrRemoveState.no_clone n res) m p = kept_root h n res m p.0 p.1 p.2
    shrink_root-Demoted h (CrRemoveState.clone n res) m p = kept_root h n res m p.0 p.1 p.2
    shrink_root-Demoted h (CrRemoveState.shrink n res) m p = demoted h n res m p.0 p.1 p.2
    shrink_root-Demoted h (CrRemoveState.clone_shrink n res) m p = demoted h n res m p.0 p.1 p.2

    counted :
        (c' : CursorWrite K V) (res : Option V)
        → Demoted c k (c', res)
        → Removal c k (count_remove K V (c', res))
    counted c' none s = record {
      valid = record {
        tree = subst (λ t. IsTree K V c'.tree.height t c'.tree.node) (sym s.same_txid) s.tree;
        counted =
            let same = length-remove_absent k (contents c.tree) (sym s.result) in
            omega (arith, s.same_length, w.counted, same, ap length s.stored);
      };
      no_longer = omega (arith, s.same_length);
      same_txid = s.same_txid;
      stored = s.stored;
      result = s.result;
    }
    counted c' (some u) s = record {
      valid = record {
        tree = subst (λ t. IsTree K V c'.tree.height t c'.tree.node) (sym s.same_txid) s.tree;
        counted =
            let less = length-remove_present k u (contents c.tree) (sym s.result) in
            omega (arith, s.same_length, w.counted, less, ap length s.stored);
      };
      no_longer = omega (arith, s.same_length);
      same_txid = s.same_txid;
      stored = s.stored;
      result = s.result;
    }

  -- A remove from a valid cursor whose keys have no destructor does not panic, keeps the cursor valid, removes the entry as the
  -- abstract map does, returns what was stored under the key, and corrects the length.
  pub remove-Removal :
      IsPlain K
      → (c : CursorWrite K V) (k : K) → IsCursor c
      → Ensures (Removal c k) (remove K V c k)
  unfolding remove
  remove-Removal plain c k w =
      Ensures-bind (RemovePost K V c.tree.height c.txid c.tree.node k) (Removal c k)
        (clone_and_remove K V c.tree.height c.tree.node c.txid k c.mem) _
        (clone_and_remove-RemovePost K V plain c.tree.height c.txid k c.tree.node c.mem w.tree)
        λ sm is p.
          let r = shrink_root K V c c.tree.height sm.0 sm.1 in
          counted c k w r.0 r.1 (shrink_root-Demoted c k w c.tree.height sm.0 sm.1 p.0)

  -- After a remove from a valid cursor whose keys have no destructor and whose length fits 64 bits, `search` finds nothing under the
  -- key, and under every other key what it found before.
  pub search-remove :
      IsPlain K
      → (c : CursorWrite K V) (k : K) → IsCursor c
      → c.length < 2 ^ 64
      → Ensures
          (λ r.
            (search K V r.0.tree k ≡ some none)
            × ((q : K) → q ≢ k → search K V r.0.tree q ≡ search K V c.tree q))
          (remove K V c k)
  search-remove plain c k w space =
      let sorted = tree-IsSorted K V c.tree.height c.txid c.tree.node w.tree in
      Ensures-imp (Removal c k) _ (remove K V c k) (remove-Removal plain c k w) λ r i.
        let after : (q : K)
            → search K V r.0.tree q ≡ some (lookup q (SortedMap.remove k (contents c.tree))) =
          λ q.
            search-lookup K V r.0.txid r.0.length r.0.tree q i.valid (omega (arith, i.no_longer))
            ∙ ap (λ z. some (lookup q z)) i.stored in
        (
          after k ∙ ap some (lookup-remove_self k (contents c.tree) sorted),
          λ q ne.
              after q
              ∙ ap some (lookup-remove_ne k q (contents c.tree) ne sorted)
              ∙ sym (search-lookup K V c.txid c.length c.tree q w space),
        )
