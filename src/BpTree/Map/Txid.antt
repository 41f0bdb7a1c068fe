-- ===== src/BpTree/Map/Txid.antt =====
-- src/bptree/mod.rs: no method of a write transaction changes the number of the transaction.
use concread.BpTree.Branch.{new_branch}
use concread.BpTree.Cursor.{
  CursorWrite, insert, remove, clear, get_mut_ref, extend, swap_root, split_root, demote_root,
  shrink_root, count_insert, count_remove, cloned_path,
}
use concread.BpTree.Insert.{clone_and_insert}
use concread.BpTree.Map.{Op, apply}
use concread.BpTree.Mem.{Mem}
use concread.BpTree.Node
use concread.BpTree.Node.{Node}
use concread.BpTree.Iter.{new_iter}
use concread.BpTree.Split.{keys_below, remove_all, count_kv, leaves_of, split_off_lt}
use concread.BpTree.Remove.{clone_and_remove, path_clone, path_get_mut_ref}
use concread.BpTree.States.{CrInsertState, CrRemoveState}
use concread.Ord.{Ord}
use concread.Prelude.{
  ℕ, zero, suc, ◌+◌, List, [], ◌∷◌, Option, none, some, ◌≡◌, refl, ◌∙◌, Option-cases, inl, inr,
  Always, Always-bind, Always-then, Always-imp, ◌>>=◌,
}

module _ {ℓ κ} (K : Type ℓ) (V : Type κ) ⦃o : Ord K⦄ where
  abbrev pub IsSame : CursorWrite K V → CursorWrite K V × Option V → Type 0
  IsSame c r = r.0.txid ≡ c.txid

  count_insert-IsSame :
      (c : CursorWrite K V) (r : CursorWrite K V × Option V)
      → IsSame c r
      → IsSame c (count_insert K V r)
  count_insert-IsSame c (c', none) e = e
  count_insert-IsSame c (c', some v) e = e

  count_remove-IsSame :
      (c : CursorWrite K V) (r : CursorWrite K V × Option V)
      → IsSame c r
      → IsSame c (count_remove K V r)
  count_remove-IsSame c (c', none) e = e
  count_remove-IsSame c (c', some v) e = e

  split_root-IsSame :
      (c : CursorWrite K V) (h : ℕ) (l r : Node K V h) (m : Mem)
      → Always (IsSame c) (split_root K V c h l r m >>= λ c'. some (c', none))
  unfolding split_root new_branch
  split_root-IsSame c h l r m = elim (Option-cases (Node.min K V h r)) [
    | inl e ↦ rw e tt
    | inr (x, e) ↦ rw e refl
  ]

  swap_root-IsSame :
      (c : CursorWrite K V) (h : ℕ) (s : CrInsertState (Node K V h) V) (m : Mem)
      → Always (IsSame c) (swap_root K V c h s m)
  unfolding swap_root
  swap_root-IsSame c h (CrInsertState.no_clone n res) m = refl
  swap_root-IsSame c h (CrInsertState.clone n res) m = refl
  swap_root-IsSame c h (CrInsertState.clone_split l r) m = split_root-IsSame c h l r m
  swap_root-IsSame c h (CrInsertState.split l r) m = split_root-IsSame c h l r m
  swap_root-IsSame c h (CrInsertState.rev_split n l) m = split_root-IsSame c h l n m
  swap_root-IsSame c h (CrInsertState.clone_rev_split n l) m = split_root-IsSame c h l n m

  insert-IsSame : (c : CursorWrite K V) (k : K) (v : V) → Always (IsSame c) (insert K V c k v)
  unfolding insert
  insert-IsSame c k v =
      Always-bind (IsSame c) (clone_and_insert K V c.tree.height c.tree.node c.txid k v c.mem) _
        λ sm is.
          Always-then (IsSame c) (IsSame c) (swap_root K V c c.tree.height sm.0 sm.1) _
            (swap_root-IsSame c c.tree.height sm.0 sm.1) (count_insert-IsSame c)

  demote_root-txid :
      (c : CursorWrite K V) (h : ℕ) (n : Node K V h) (m : Mem)
      → (demote_root K V c h n m).txid ≡ c.txid
  unfolding demote_root
  demote_root-txid c zero n m = refl
  demote_root-txid c (suc h) n m = refl

  shrink_root-IsSame :
      (c : CursorWrite K V) (h : ℕ) (s : CrRemoveState (Node K V h) V) (m : Mem)
      → IsSame c (shrink_root K V c h s m)
  unfolding shrink_root
  shrink_root-IsSame c h (CrRemoveState.no_clone n res) m = refl
  shrink_root-IsSame c h (CrRemoveState.clone n res) m = refl
  shrink_root-IsSame c h (CrRemoveState.shrink n res) m = demote_root-txid c h n m
  shrink_root-IsSame c h (CrRemoveState.clone_shrink n res) m = demote_root-txid c h n m

  remove-IsSame : (c : CursorWrite K V) (k : K) → Always (IsSame c) (remove K V c k)
  unfolding remove
  remove-IsSame c k =
      Always-bind (IsSame c) (clone_and_remove K V c.tree.height c.tree.node c.txid k c.mem) _
        λ sm is.
          count_remove-IsSame c (shrink_root K V c c.tree.height sm.0 sm.1)
            (shrink_root-IsSame c c.tree.height sm.0 sm.1)

  get_mut_ref-IsSame :
      (c : CursorWrite K V) (k : K) (f : V → V) → Always (IsSame c) (get_mut_ref K V c k f)
  unfolding get_mut_ref
  get_mut_ref-IsSame c k f =
      Always-bind (IsSame c) (path_clone K V c.tree.height c.tree.node c.txid k c.mem) _ λ sm is.
        Always-bind (IsSame c) (path_get_mut_ref K V c.tree.height (cloned_path K V sm.0) k f) _
          λ rn is'. refl

  pub extend-txid :
      (kvs : List (K × V)) (c : CursorWrite K V) → Always (λ r. r.txid ≡ c.txid) (extend K V c kvs)
  unfolding extend
  extend-txid [] c = refl
  extend-txid ((k, v) ∷ kvs) c =
      Always-then (IsSame c) (λ r. r.txid ≡ c.txid) (insert K V c k v) _ (insert-IsSame c k v)
        λ z e.
          Always-imp (λ r. r.txid ≡ z.0.txid) (λ r. r.txid ≡ c.txid) (extend K V z.0 kvs)
            (extend-txid kvs z.0) λ r e'. e' ∙ e

  remove_all-txid :
      (ks : List K) (c : CursorWrite K V) → Always (λ r. r.txid ≡ c.txid) (remove_all K V ks c)
  unfolding remove_all
  remove_all-txid [] c = refl
  remove_all-txid (k ∷ ks) c =
      Always-then (IsSame c) (λ r. r.txid ≡ c.txid) (remove K V c k) _ (remove-IsSame c k)
        λ z e.
          Always-imp (λ r. r.txid ≡ z.0.txid) (λ r. r.txid ≡ c.txid) (remove_all K V ks z.0)
            (remove_all-txid ks z.0) λ r e'. e' ∙ e

  split_off_lt-txid :
      (c : CursorWrite K V) (k : K) → Always (λ r. r.txid ≡ c.txid) (split_off_lt K V c k)
  unfolding split_off_lt
  split_off_lt-txid c k =
      Always-bind (λ r. r.txid ≡ c.txid) (new_iter K V c.tree c.length) _
        λ it i1.
          Always-bind (λ r. r.txid ≡ c.txid) (keys_below K V (leaves_of K V c) (c.length + 1) k it)
            _
            λ ks i2.
              Always-then (λ r. r.txid ≡ c.txid) (λ r. r.txid ≡ c.txid) (remove_all K V ks c) _
                (remove_all-txid ks c)
                λ r e.
                  Always-bind (λ r. r.txid ≡ c.txid) (new_iter K V r.tree r.length) _
                    λ it' i3.
                      Always-bind (λ r. r.txid ≡ c.txid)
                        (count_kv K V (leaves_of K V r) (r.length + 1) it') _ λ n i4. e

  pub apply-IsSame : (op : Op K V) (c : CursorWrite K V) → Always (IsSame c) (apply K V op c)
  unfolding apply clear
  apply-IsSame (Op.insert k v) c = insert-IsSame c k v
  apply-IsSame (Op.remove k) c = remove-IsSame c k
  apply-IsSame Op.clear c = refl
  apply-IsSame (Op.get_mut k f) c = get_mut_ref-IsSame c k f
  apply-IsSame (Op.extend kvs) c =
      Always-then (λ r. r.txid ≡ c.txid) (IsSame c) (extend K V c kvs) _ (extend-txid kvs c)
        λ r e. e
  apply-IsSame (Op.split_off_lt k) c =
      Always-then (λ r. r.txid ≡ c.txid) (IsSame c) (split_off_lt K V c k) _ (split_off_lt-txid c k)
        λ r e. e
