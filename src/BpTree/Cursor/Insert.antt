-- ===== src/BpTree/Cursor/Insert.antt =====
-- src/bptree/cursor.rs: `CursorWrite::insert` against the abstract map.
use concread.BpTree.Branch.{new_branch}
use concread.BpTree.Cursor.{CursorWrite, root, insert, swap_root, split_root, count_insert}
use concread.BpTree.Cursor.Valid.{
  contents, IsCursor, tree-IsSorted, length-insert_new, length-insert_old, IsBranch-pair,
}
use concread.BpTree.Chain.{Child}
use concread.BpTree.Chain.Insert.{Inserted, IsPair}
use concread.BpTree.Insert.{clone_and_insert}
use concread.BpTree.Mem.{Mem}
use concread.BpTree.Node
use concread.BpTree.Node.{Node, concat_rest}
use concread.BpTree.States.{CrInsertState}
use concread.BpTree.Tree.{node_child}
use concread.BpTree.Tree.Dates.{entries, view-entries, min-node_min}
use concread.BpTree.Tree.Descend.{clone_and_insert-Post}
use concread.BpTree.Tree.Insert.{IsTree, IsTree-of_Good}
use concread.Ord.{Ord}
use concread.Prelude.{
  ◌+◌, ◌≤◌, [], ◌++◌, ◌≡◌, refl, sym, ap, ◌∙◌, subst, Option, none, some, arith, length, Ensures,
  Ensures-bind, append-nil, ◌>>=◌,
}
use concread.SortedMap
use concread.SortedMap.{IsSorted, lookup}
use concread.SortedMap.Laws.{insert-IsSorted}

module _ {ℓ κ} (K : Type ℓ) (V : Type κ) ⦃o : Ord K⦄ where
  -- The tree and the result are those of an insert; the count is not corrected yet.
  record Swapped (c : CursorWrite K V) (k : K) (v : V) (r : CursorWrite K V × Option V)
      : Type (ℓ ⊔ κ) where
    pub tree : IsTree K V r.0.tree.height c.txid r.0.tree.node
    pub same_txid : r.0.txid ≡ c.txid
    pub same_length : r.0.length ≡ c.length
    pub stored : contents r.0.tree ≡ SortedMap.insert k v (contents c.tree)
    pub result : r.1 ≡ lookup k (contents c.tree)

  -- What an insert promises.
  pub record Insertion (c : CursorWrite K V) (k : K) (v : V) (r : CursorWrite K V × Option V)
      : Type (ℓ ⊔ κ) where
    pub valid : IsCursor r.0
    pub grown : r.0.length ≤ c.length + 1
    pub same_txid : r.0.txid ≡ c.txid
    pub stored : contents r.0.tree ≡ SortedMap.insert k v (contents c.tree)
    pub result : r.1 ≡ lookup k (contents c.tree)

  module _ (c : CursorWrite K V) (k : K) (v : V) (w : IsCursor c) where
    abbrev child : Child K V (Node K V c.tree.height)
    child = node_child K V c.tree.height c.txid

    swap_one :
        (n : Node K V c.tree.height) (res : Option V) (m : Mem)
        → child.Good n
        → child.view n ≡ SortedMap.insert k v (contents c.tree)
        → res ≡ lookup k (contents c.tree)
        → Swapped c k v (record c { tree = root K V c.tree.height n; mem = m }, res)
    swap_one n res m g e r = record {
      tree = IsTree-of_Good K V c.tree.height c.txid n g;
      same_txid = refl;
      same_length = refl;
      stored = ap (λ f. f n) (sym (view-entries K V c.tree.height c.txid)) ∙ e;
      result = r;
    }

    swap_two :
        (l r : Node K V c.tree.height) (m : Mem)
        → IsPair child (contents c.tree) k v l r
        → Ensures (Swapped c k v) (split_root K V c c.tree.height l r m >>= λ c'. some (c', none))
    unfolding split_root new_branch entries concat_rest
    swap_two l r m p =
        let (x, y, xs, e, whole) = child.least r p.right_good in
        let e' : Node.min K V c.tree.height r ≡ some x =
          ap (λ f. f r) (sym (min-node_min K V c.tree.height c.txid)) ∙ e in
        let s = subst IsSorted (sym p.joined) (
          insert-IsSorted k v (contents c.tree)
            (tree-IsSorted K V c.tree.height c.txid c.tree.node w.tree)) in
        rw e' record {
          tree = record {
            dated = omega arith;
            branch = IsBranch-pair child m.next_nid c.txid l r x p.left_good p.right_good e s;
          };
          same_txid = refl;
          same_length = refl;
          stored =
              subst (λ f. f l ++ (f r ++ []) ≡ SortedMap.insert k v (contents c.tree))
                (view-entries K V c.tree.height c.txid)
                (ap (◌++◌ (child.view l)) (append-nil (child.view r)) ∙ p.joined);
          result = sym p.was_absent;
        }

    swap_root-Swapped :
        (s : CrInsertState (Node K V c.tree.height) V) (m : Mem)
        → Inserted child (contents c.tree) k v s
        → Ensures (Swapped c k v) (swap_root K V c c.tree.height s m)
    unfolding swap_root
    swap_root-Swapped (CrInsertState.no_clone n res) m i = swap_one n res m i.0 i.1 i.2
    swap_root-Swapped (CrInsertState.clone n res) m i = swap_one n res m i.0 i.1 i.2
    swap_root-Swapped (CrInsertState.clone_split l r) m i = swap_two l r m i
    swap_root-Swapped (CrInsertState.split l r) m i = swap_two l r m i
    swap_root-Swapped (CrInsertState.rev_split n l) m i = swap_two l n m i
    swap_root-Swapped (CrInsertState.clone_rev_split n l) m i = swap_two l n m i

    counted :
        (c' : CursorWrite K V) (res : Option V)
        → Swapped c k v (c', res)
        → Insertion c k v (count_insert K V (c', res))
    counted c' none s = record {
      valid = record {
        tree = subst (λ t. IsTree K V c'.tree.height t c'.tree.node) (sym s.same_txid) s.tree;
        counted =
            let new =
              length-insert_new k v (contents c.tree) (sym s.result)
                (tree-IsSorted K V c.tree.height c.txid c.tree.node w.tree) in
            omega (arith, s.same_length, w.counted, new, ap length s.stored);
      };
      grown = omega (arith, s.same_length);
      same_txid = s.same_txid;
      stored = s.stored;
      result = s.result;
    }
    counted c' (some u) s = record {
      valid = record {
        tree = subst (λ t. IsTree K V c'.tree.height t c'.tree.node) (sym s.same_txid) s.tree;
        counted =
            let old = length-insert_old k v u (contents c.tree) (sym s.result) in
            omega (arith, s.same_length, w.counted, old, ap length s.stored);
      };
      grown = omega (arith, s.same_length);
      same_txid = s.same_txid;
      stored = s.stored;
      result = s.result;
    }

  -- An insert into a valid cursor does not panic, keeps the cursor valid, stores the entry as the
  -- abstract map does, and returns what was stored under the key.
  pub insert-Insertion :
      (c : CursorWrite K V) (k : K) (v : V)
      → IsCursor c
      → Ensures (Insertion c k v) (insert K V c k v)
  unfolding insert
  insert-Insertion c k v w =
      Ensures-bind _ _ (clone_and_insert K V c.tree.height c.tree.node c.txid k v c.mem) _
        (clone_and_insert-Post K V c.tree.height c.txid k v c.tree.node c.mem w.tree)
        λ sm is p.
          Ensures-bind (Swapped c k v) (Insertion c k v) (swap_root K V c c.tree.height sm.0 sm.1) _
            (swap_root-Swapped c k v w sm.0 sm.1 p.0) λ r is' q. counted c k v w r.0 r.1 q
