-- ===== src/BpTree/Tree/Remove.antt =====
-- What a remove reports of a node, and what it makes of a leaf.
use concread.BpTree.Insert.{note_clone}
use concread.BpTree.Leaf
use concread.BpTree.Leaf.{Leaf}
use concread.BpTree.Leaf.Laws.{IsLeaf}
use concread.BpTree.Leaf.Removal.{Removed, remove-Removed}
use concread.BpTree.Mem.{Mem, alloc}
use concread.BpTree.Node
use concread.BpTree.Node.{Node}
use concread.BpTree.Remove.{clone_and_remove, expect_clone, leaf_in_place, leaf_cloned}
use concread.BpTree.States.{LeafRemoveState, CrRemoveState}
use concread.BpTree.Tree.{node_child}
use concread.BpTree.Tree.Dates.{entries}
use concread.BpTree.Tree.Rebalance.{IsShrunk}
use concread.Ord.{Ord}
use concread.Prelude.{
  ℕ, ◌≤◌, List, [], ◌≡◌, refl, sym, ◌∙◌, Bool, true, false, some, arith, Ensures, Ensures-bind,
  Ensures-with, Always, Always-bind, Bool-cases, inl, inr, ◌==◌,
}
use concread.Slice.{Found, ok, err, key_search, slice_remove}
use concread.SortedMap.{lookup, remove}

abbrev pub in_place {ℓ κ} : {A : Type ℓ} {V : Type κ} → CrRemoveState A V → Bool
in_place (CrRemoveState.no_clone c res) = true
in_place (CrRemoveState.shrink c res) = true
in_place (CrRemoveState.clone c res) = false
in_place (CrRemoveState.clone_shrink c res) = false

module _ {ℓ κ} {A : Type ℓ} {V : Type κ} where
  pub expect_clone-some : (s : CrRemoveState A V) → in_place s ≡ false → expect_clone s ≡ some s
  unfolding expect_clone
  expect_clone-some (CrRemoveState.clone c res) e = refl
  expect_clone-some (CrRemoveState.clone_shrink c res) e = refl
  expect_clone-some (CrRemoveState.no_clone c res) e = cc
  expect_clone-some (CrRemoveState.shrink c res) e = cc

module _ {ℓ κ} (K : Type ℓ) (V : Type κ) ⦃o : Ord K⦄ where
  -- What a call reports: a good node or one that has shrunk, with the entries of the abstract
  -- remove, and what was stored under the key.
  abbrev pub RemovedTo : (h t : ℕ) → List (K × V) → K → CrRemoveState (Node K V h) V → Type (ℓ ⊔ κ)
  RemovedTo h t before k (CrRemoveState.no_clone c res) =
      (node_child K V h t).Good c × (entries K V h c ≡ remove k before) × (res ≡ lookup k before)
  RemovedTo h t before k (CrRemoveState.clone c res) =
      (node_child K V h t).Good c × (entries K V h c ≡ remove k before) × (res ≡ lookup k before)
  RemovedTo h t before k (CrRemoveState.shrink c res) =
      IsShrunk K V h t c × (entries K V h c ≡ remove k before) × (res ≡ lookup k before)
  RemovedTo h t before k (CrRemoveState.clone_shrink c res) =
      IsShrunk K V h t c × (entries K V h c ≡ remove k before) × (res ≡ lookup k before)

  abbrev pub RemovePost :
      (h t : ℕ) → Node K V h → K → CrRemoveState (Node K V h) V × Mem → Type (ℓ ⊔ κ)
  RemovePost h t n k (s, m) =
      RemovedTo h t (entries K V h n) k s × (in_place s ≡ (Node.txid K V h n == t))

  leaf_same : (l : Leaf K V) (k : K) → Always (λ r. r.0.txid ≡ l.txid) (Leaf.remove l k)
  unfolding Leaf.remove
  leaf_same l k = elim (Bool-cases (Leaf.count l == 0)) [
    | inl e ↦ rw e refl
    | inr e ↦ go e (key_search l.entries k) refl
  ]
    where
      go :
          (Leaf.count l == 0) ≡ false
          → (f : Found) → key_search l.entries k ≡ f
          → Always (λ r. r.0.txid ≡ l.txid) (Leaf.remove l k)
      go z (err idx) e = rw (z, Leaf.remove, e) refl
      go z (ok idx) e =
          rw (z, Leaf.remove, e)
            (Always-bind (λ r. r.0.txid ≡ l.txid) (slice_remove l.entries idx)
              (λ (pe, rest). some (record l { entries = rest }, Leaf.after_remove rest pe.1))
              λ r is. refl)

  empty_leaf : (t : ℕ) (l : Leaf K V) → l.entries ≡ [] → l.txid ≤ t → IsLeaf t l
  empty_leaf t l e d = record { sorted = rw e tt; bounded = rw e (omega arith); dated = d }

  leaf_in_place-RemovedTo :
      (t : ℕ) (l : Leaf K V) (k : K) (r : Leaf K V × LeafRemoveState V)
      → l.txid ≤ t
      → Removed t l k r × (r.0.txid ≡ l.txid)
      → RemovedTo 0 t l.entries k (leaf_in_place r) × (in_place (leaf_in_place r) ≡ true)
  unfolding leaf_in_place node_child entries
  leaf_in_place-RemovedTo t l k (l', LeafRemoveState.done res) d (p, e) = (p, refl)
  leaf_in_place-RemovedTo t l k (l', LeafRemoveState.shrink res) d (p, e) =
      (((empty_leaf t l' p.0 (omega (arith, e)), p.0), p.1, p.2), refl)

  leaf_cloned-RemovedTo :
      (t : ℕ) (l : Leaf K V) (k : K) (r : Leaf K V × LeafRemoveState V)
      → l.txid ≤ t
      → Removed t l k r × (r.0.txid ≡ l.txid)
      → RemovedTo 0 t l.entries k (leaf_cloned r) × (in_place (leaf_cloned r) ≡ false)
  unfolding leaf_cloned node_child entries
  leaf_cloned-RemovedTo t l k (l', LeafRemoveState.done res) d (p, e) = (p, refl)
  leaf_cloned-RemovedTo t l k (l', LeafRemoveState.shrink res) d (p, e) =
      (((empty_leaf t l' p.0 (omega (arith, e)), p.0), p.1, p.2), refl)

  leaf_run :
      (t : ℕ) (l : Leaf K V) (k : K)
      → IsLeaf t l
      → Ensures (λ r. Removed t l k r × (r.0.txid ≡ l.txid)) (Leaf.remove l k)
  leaf_run t l k w =
      Ensures-with (Removed t l k) (λ r. r.0.txid ≡ l.txid) (Leaf.remove l k)
        (remove-Removed t l k w) (leaf_same l k)

  pub leaf-RemovePost :
      (l : Leaf K V) (t : ℕ) (k : K) (m : Mem)
      → IsLeaf t l
      → Ensures (RemovePost 0 t l k) (clone_and_remove K V 0 l t k m)
  unfolding clone_and_remove Leaf.req_clone entries
  leaf-RemovePost l t k m w = elim (Bool-cases (l.txid == t)) [
    | inl e ↦
        rw (e, clone_and_remove)
          (Ensures-bind {B = CrRemoveState (Leaf K V) V × Mem}
            (λ r. Removed t l k r × (r.0.txid ≡ l.txid)) (RemovePost 0 t l k) (Leaf.remove l k)
            (λ r. some (leaf_in_place r, m)) (leaf_run t l k w)
            λ r is p. let (i, f) = leaf_in_place-RemovedTo t l k r w.dated p in (i, f ∙ sym e))
    | inr e ↦
        let c : Leaf K V = record { nid = m.next_nid; txid = t; entries = l.entries } in
        let wc : IsLeaf t c = record {
          sorted = w.sorted;
          bounded = w.bounded;
          dated = omega arith;
        } in
        rw (e, clone_and_remove)
          (Ensures-bind {B = CrRemoveState (Leaf K V) V × Mem}
            (λ r. Removed t c k r × (r.0.txid ≡ c.txid)) (RemovePost 0 t l k) (Leaf.remove c k)
            (λ r. some (leaf_cloned r, note_clone c.nid l.nid (alloc m))) (leaf_run t c k wc)
            λ r is p. let (i, f) = leaf_cloned-RemovedTo t c k r wc.dated p in (i, f ∙ sym e))
  ]
