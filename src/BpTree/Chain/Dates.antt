-- ===== src/BpTree/Chain/Dates.antt =====
-- The transaction of a branch through the operations of an insert.
use concread.BpTree.Branch
use concread.BpTree.Branch.{
  Branch, replace_by_idx, add_node, add_node_full, add_node_left, insert_left, new_branch,
  with_nodes,
}
use concread.BpTree.Insert.{grow, settle_child}
use concread.BpTree.Mem.{Mem, alloc, push_first}
use concread.BpTree.States.{BranchInsertState, CrInsertState}
use concread.Ord.{Ord}
use concread.Prelude.{
  ℕ, ◌≡◌, refl, Option, none, some, Always, Always-bind, Always-some, take, [], ◌∷◌, ◌==◌, ◌-◌,
  if◌then◌else◌, Bool, true, false, ◌>>=◌,
}
use concread.BpTree.Leaf.{l_capacity}
use concread.Slice
use concread.Slice.{Found, ok, err, key_search}

module _ {ℓ κ} {K : Type ℓ} {A : Type κ} where
  abbrev Kept : Branch K A → Branch K A × BranchInsertState A → Type 0
  Kept b (b', s) = b'.txid ≡ b.txid

if_Always {ν ξ} :
    {B : Type ν} (Q : B → Type ξ) (t : Bool) (x y : Option B)
    → Always Q x
    → Always Q y
    → Always Q (if t then x else y)
if_Always Q true x y p q = p
if_Always Q false x y p q = q

module _ {ℓ κ} {K : Type ℓ} {A : Type κ} ⦃o : Ord K⦄ (min : A → Option K) where
  add_node-Kept : (b : Branch K A) (n : A) → Always (Kept b) (add_node min b n)
  unfolding add_node add_node_full
  add_node-Kept b n = Always-bind _ (min n) _ λ kr e. go (key_search b.rest kr) kr
    where
      go :
          (f : Found) (kr : K)
          → Always (Kept b) (elim f [
            | ok idx ↦ none
            | err ins_idx ↦
                if Branch.count b == l_capacity
                then add_node_full b n kr ins_idx
                else some (
                  record b { rest = Slice.slice_insert b.rest (kr, n) ins_idx },
                  BranchInsertState.done,
                )
          ])
      go (ok idx) kr = tt
      go (err idx) kr =
          if_Always _ (Branch.count b == l_capacity) _ _
            (Always-bind _ (Branch.get_idx b l_capacity) _ λ max e.
              if_Always _ (idx == l_capacity) _ _ refl (
                if_Always _ (idx == l_capacity - 1) _ _ refl
                  (Always-bind _ (Branch.get_idx b (l_capacity - 1)) _ λ maxn1 e'. refl)))
            refl

  insert_left-Kept :
      (b : Branch K A) (n : A) (idx : ℕ) → Always (λ b'. b'.txid ≡ b.txid) (insert_left min b n idx)
  unfolding insert_left
  insert_left-Kept b n idx =
      Always-bind _ (Branch.get_idx b idx) _ λ sib e. Always-bind _ (min sib) _ λ k e'. refl

  add_node_left-Kept :
      (b : Branch K A) (n : A) (idx : ℕ) → Always (Kept b) (add_node_left min b n idx)
  unfolding add_node_left
  add_node_left-Kept b n idx =
      let kept = record b { rest = take (l_capacity - 2) b.rest } in
      if_Always _ (Branch.count b == l_capacity) _ _
        (if_Always _ (idx == l_capacity) _ _
          (Always-bind _ (Branch.get_idx b l_capacity) _ λ max e. refl)
          (Always-bind _ (Branch.get_idx b (l_capacity - 1)) _ λ maxn1 e.
            Always-bind _ (Branch.get_idx b l_capacity) _ λ max e'.
              if_Always _ (idx == l_capacity - 1) _ _ (Always-bind _ (min n) _ λ k e''. refl) (
                Always-bind _ (insert_left min kept n idx) _ λ b' e''.
                  Always-some (λ c. c.txid ≡ b.txid) (insert_left min kept n idx) b'
                    (insert_left-Kept kept n idx) e'')))
        (Always-bind _ (insert_left min b n idx) _ λ b' e.
          Always-some (λ c. c.txid ≡ b.txid) (insert_left min b n idx) b' (insert_left-Kept b n idx)
            e)

module _ {ℓ κ μ} {K : Type ℓ} {A : Type κ} {V : Type μ} where
  -- The new right sibling is of the transaction, and the branch stays in its own.
  abbrev pub IsDated : Branch K A → ℕ → Branch K A × Option V × Option (Branch K A) × Mem → Type 0
  IsDated b txid (b', res, none, m) = (b'.txid ≡ b.txid) × Unit {0}
  IsDated b txid (b', res, some r, m) = (b'.txid ≡ b.txid) × (r.txid ≡ txid)

module _ {ℓ κ μ} {K : Type ℓ} {A : Type κ} (V : Type μ) where
  grow-IsDated :
      (min : A → Option K) (b : Branch K A) (txid : ℕ) (added : Branch K A × BranchInsertState A)
      (m : Mem)
      → added.0.txid ≡ b.txid
      → Always
          (IsDated {V = V} b txid)
          (grow min txid added m >>= λ (b', right, m'). some (b', none, right, m'))
  unfolding grow new_branch
  grow-IsDated min b txid (b', BranchInsertState.done) m e = (e, tt)
  grow-IsDated min b txid (b', BranchInsertState.split l r) m e = go (min r)
    where
      go :
          (k : Option K)
          → Always (IsDated {V = V} b txid) (
              ((k >>= λ k'.
              some
                (record { nid = m.next_nid; txid = txid; first = l; rest = (k', r) ∷ [] }, alloc m))
                >>= λ (n, m'). some (b', some n, push_first n.nid m'))
              >>= λ (b'', right, m'). some (b'', none, right, m'))
      go none = tt
      go (some k) = (e, refl)

module _ {ℓ κ μ} {K : Type ℓ} {A : Type κ} (V : Type μ) ⦃o : Ord K⦄ (min : A → Option K)
    (b : Branch K A) (idx txid : ℕ) where
  right :
      (l r : A) (m : Mem)
      → Always (IsDated {V = V} b txid) (
          add_node min (replace_by_idx b idx l) r >>= λ added.
          grow min txid added m >>= λ (b', right, m'). some (b', none, right, m'))
  unfolding replace_by_idx
  right l r m = Always-bind _ (add_node min (replace_by_idx b idx l) r) _ λ added e.
      grow-IsDated V min b txid added m
        (Always-some _ _ added (add_node-Kept min (replace_by_idx b idx l) r) e)

  left :
      (n l : A) (m : Mem)
      → Always (IsDated {V = V} b txid) (
          add_node_left min (replace_by_idx b idx n) l idx >>= λ added.
          grow min txid added m >>= λ (b', right, m'). some (b', none, right, m'))
  unfolding replace_by_idx
  left n l m = Always-bind _ (add_node_left min (replace_by_idx b idx n) l idx) _ λ added e.
      grow-IsDated V min b txid added m
        (Always-some _ _ added (add_node_left-Kept min (replace_by_idx b idx n) l idx) e)

  pub settle_child-IsDated :
      (s : CrInsertState A V) (m : Mem) → Always (IsDated b txid) (settle_child min b idx txid s m)
  unfolding settle_child replace_by_idx
  settle_child-IsDated (CrInsertState.no_clone c res) m = (refl, tt)
  settle_child-IsDated (CrInsertState.clone c res) m = (refl, tt)
  settle_child-IsDated (CrInsertState.split l r) m = right l r m
  settle_child-IsDated (CrInsertState.clone_split l r) m = right l r m
  settle_child-IsDated (CrInsertState.rev_split n l) m = left n l m
  settle_child-IsDated (CrInsertState.clone_rev_split n l) m = left n l m
