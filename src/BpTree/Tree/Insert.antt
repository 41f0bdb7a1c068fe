-- ===== src/BpTree/Tree/Insert.antt =====
-- The insert of a tree refines the insert of the abstract map.
use concread.BpTree.Branch.{Branch, locate_node}
use concread.BpTree.Branch.Search.{locate_rest, locate_node-locate_rest}
use concread.BpTree.Chain.Dates.{IsDated, settle_child-IsDated}
use concread.BpTree.Chain.Focus.{Focus}
use concread.BpTree.Chain.Grow.{settle_child-Settled}
use concread.BpTree.Chain.Insert.{
  IsBranch, IsPair, IsGrown, IsOne, Inserted, Settled, Top, tree_view,
}
use concread.BpTree.Insert.{
  clone_and_insert, leaf_in_place, leaf_cloned, branch_in_place, branch_cloned, settle_child,
  note_clone,
}
use concread.BpTree.Leaf
use concread.BpTree.Leaf.{Leaf, insert_or_update}
use concread.BpTree.Leaf.Laws
use concread.BpTree.Leaf.Laws.{IsLeaf, IsFilled, insert_or_update-Inserted}
use concread.BpTree.Mem.{Mem, alloc}
use concread.BpTree.Node
use concread.BpTree.Node.{Node}
use concread.BpTree.States.{LeafInsertState, CrInsertState}
use concread.BpTree.Tree.{node_child, leaf_child, branch_child, IsGoodBranch}
use concread.BpTree.Tree.Dates.{entries, min-node_min}
use concread.Ord.{Ord}
use concread.Prelude.{
  ℕ, zero, suc, ◌≤◌, List, ◌≡◌, refl, ap, sym, ◌∙◌, subst, Bool, true, false, Option, none, some,
  arith, Ensures, Ensures-bind, Ensures-with, Bool-cases, inl, inr, ◌==◌,
}

-- Did the call change the node that it was made on?
abbrev pub in_place {ℓ κ} : {A : Type ℓ} {V : Type κ} → CrInsertState A V → Bool
in_place (CrInsertState.no_clone c res) = true
in_place (CrInsertState.split l r) = true
in_place (CrInsertState.rev_split n l) = true
in_place (CrInsertState.clone c res) = false
in_place (CrInsertState.clone_split l r) = false
in_place (CrInsertState.clone_rev_split n l) = false

module _ {ℓ κ} (K : Type ℓ) (V : Type κ) ⦃o : Ord K⦄ where
  -- What the tree promises of a root: an empty leaf is allowed.
  abbrev pub IsTree : (h t : ℕ) → Node K V h → Type 0
  IsTree zero t l = IsLeaf t l
  IsTree (suc h) t b = IsGoodBranch K V (node_child K V h) t b

  pub IsTree-of_Good : (h t : ℕ) (n : Node K V h) → (node_child K V h t).Good n → IsTree h t n
  unfolding node_child
  IsTree-of_Good zero t n g = g.leaf
  IsTree-of_Good (suc h) t n g = g

  -- A node of the tree is no younger than the bound.
  pub txid_le : (h t : ℕ) (n : Node K V h) → (node_child K V h t).Good n → Node.txid K V h n ≤ t
  unfolding node_child
  txid_le zero t n g = g.leaf.dated
  txid_le (suc h) t n g = g.dated

  abbrev pub Post :
      (h t : ℕ) → Node K V h → K → V → CrInsertState (Node K V h) V × Mem → Type (ℓ ⊔ κ)
  Post h t n k v (s, m) =
      Inserted (node_child K V h t) (entries K V h n) k v s
      × (in_place s ≡ (Node.txid K V h n == t))

  leaf_in_place-Inserted :
      (t : ℕ) (l : Leaf K V) (k : K) (v : V) (r : Leaf K V × LeafInsertState (Leaf K V) V × Mem)
      → Laws.Inserted t l k v r
      → Inserted (leaf_child K V t) l.entries k v (leaf_in_place r).0
        × (in_place (leaf_in_place r).0 ≡ true)
  unfolding leaf_in_place
  leaf_in_place-Inserted t l k v (l', LeafInsertState.done res, m) p = (p, refl)
  leaf_in_place-Inserted t l k v (l', LeafInsertState.split r, m) p = (
    record {
      left_good = p.left_filled;
      right_good = p.right_filled;
      joined = p.joined;
      was_absent = p.was_absent;
    },
    refl,
  )
  leaf_in_place-Inserted t l k v (l', LeafInsertState.rev_split r, m) p = (
    record {
      left_good = p.left_filled;
      right_good = p.right_filled;
      joined = p.joined;
      was_absent = p.was_absent;
    },
    refl,
  )

  leaf_cloned-Inserted :
      (t : ℕ) (l : Leaf K V) (k : K) (v : V) (r : Leaf K V × LeafInsertState (Leaf K V) V × Mem)
      → Laws.Inserted t l k v r
      → Inserted (leaf_child K V t) l.entries k v (leaf_cloned r).0
        × (in_place (leaf_cloned r).0 ≡ false)
  unfolding leaf_cloned
  leaf_cloned-Inserted t l k v (l', LeafInsertState.done res, m) p = (p, refl)
  leaf_cloned-Inserted t l k v (l', LeafInsertState.split r, m) p = (
    record {
      left_good = p.left_filled;
      right_good = p.right_filled;
      joined = p.joined;
      was_absent = p.was_absent;
    },
    refl,
  )
  leaf_cloned-Inserted t l k v (l', LeafInsertState.rev_split r, m) p = (
    record {
      left_good = p.left_filled;
      right_good = p.right_filled;
      joined = p.joined;
      was_absent = p.was_absent;
    },
    refl,
  )

  pub leaf-Post :
      (l : Leaf K V) (t : ℕ) (k : K) (v : V) (m : Mem)
      → IsLeaf t l
      → Ensures (Post 0 t l k v) (clone_and_insert K V 0 l t k v m)
  unfolding clone_and_insert Leaf.req_clone node_child entries
  leaf-Post l t k v m w = elim (Bool-cases (l.txid == t)) [
    | inl e ↦
        rw (e, clone_and_insert)
          (Ensures-bind _ _ (insert_or_update l k v m) _ (insert_or_update-Inserted t l k v m w)
            λ r is p. let (i, f) = leaf_in_place-Inserted t l k v r p in (i, f ∙ sym e))
    | inr e ↦
        let c : Leaf K V = record { nid = m.next_nid; txid = t; entries = l.entries } in
        let m' = note_clone c.nid l.nid (alloc m) in
        rw (e, clone_and_insert)
          (Ensures-bind _ _ (insert_or_update c k v m') _
            (insert_or_update-Inserted t c k v m'
              (record { sorted = w.sorted; bounded = w.bounded; dated = omega arith }))
            λ r is p. let (i, f) = leaf_cloned-Inserted t c k v r p in (i, f ∙ sym e))
  ]

  module _ (h t : ℕ) where
    pub to_good :
        (b : Branch K (Node K V h))
        → b.txid ≡ t
        → IsBranch (node_child K V h t) b
        → IsGoodBranch K V (node_child K V h) t b
    to_good b e w = record {
      dated = omega arith;
      branch = subst (λ s. IsBranch (node_child K V h s) b) (sym e) w;
    }

    pub to_view :
        (b : Branch K (Node K V h))
        → b.txid ≡ t
        → tree_view (node_child K V h b.txid) b ≡ tree_view (node_child K V h t) b
    to_view b e = ap (λ s. tree_view (node_child K V h s) b) e

    abbrev pub Report :
        List (K × V) → K → V → Bool → CrInsertState (Branch K (Node K V h)) V × Mem → Type (ℓ ⊔ κ)
    Report before k v placed (s, m) =
        Inserted (branch_child K V (node_child K V h) t) before k v s × (in_place s ≡ placed)

    -- The branch reports what it settled, changed in place or cloned.
    report-IsOne :
        (before : List (K × V)) (k : K) (v : V) (b : Branch K (Node K V h)) (res : Option V)
        (m : Mem)
        → b.txid ≡ t
        → Settled (node_child K V h t) before k v (b, res, none, m)
        → IsOne (branch_child K V (node_child K V h) t) before k v b res
    report-IsOne before k v b res m e s = (to_good b e s.0, to_view b e ∙ s.1, s.2)

    report-IsPair :
        (before : List (K × V)) (k : K) (v : V) (b r : Branch K (Node K V h))
        → b.txid ≡ t
        → r.txid ≡ t
        → IsGrown (node_child K V h t) before k v b r
        → IsPair (branch_child K V (node_child K V h) t) before k v b r
    report-IsPair before k v b r e e' g = record {
      left_good = to_good b e g.left_branch;
      right_good = to_good r e' g.right_branch;
      joined = rw (to_view b e, to_view r e') g.joined;
      was_absent = g.was_absent;
    }

    pub Report-in_place :
        (before : List (K × V)) (k : K) (v : V) (b : Branch K (Node K V h))
        (r : Branch K (Node K V h) × Option V × Option (Branch K (Node K V h)) × Mem)
        → b.txid ≡ t
        → Settled (node_child K V h t) before k v r × IsDated b t r
        → Report before k v true (branch_in_place r)
    unfolding branch_in_place
    Report-in_place before k v b (b', res, none, m) e (s, d) =
        (report-IsOne before k v b' res m (d.0 ∙ e) s, refl)
    Report-in_place before k v b (b', res, some r, m) e (s, d) =
        (report-IsPair before k v b' r (d.0 ∙ e) d.1 s.0, refl)

    pub Report-cloned :
        (before : List (K × V)) (k : K) (v : V) (b : Branch K (Node K V h))
        (r : Branch K (Node K V h) × Option V × Option (Branch K (Node K V h)) × Mem)
        → b.txid ≡ t
        → Settled (node_child K V h t) before k v r × IsDated b t r
        → Report before k v false (branch_cloned r)
    unfolding branch_cloned
    Report-cloned before k v b (b', res, none, m) e (s, d) =
        (report-IsOne before k v b' res m (d.0 ∙ e) s, refl)
    Report-cloned before k v b (b', res, some r, m) e (s, d) =
        (report-IsPair before k v b' r (d.0 ∙ e) d.1 s.0, refl)

    -- The branch is of the transaction: what it settles for a report of its child.
    pub settled :
        (b : Branch K (Node K V h)) (k : K) (v : V) (w : IsBranch (node_child K V h t) b)
        (f : Focus (node_child K V h t) Top b.first b.rest k (locate_rest b.rest k))
        (s : CrInsertState (Node K V h) V) (m : Mem)
        → Inserted (node_child K V h t) ((node_child K V h t).view f.child) k v s
        → Ensures
            (λ r.
              Settled (node_child K V h t) (tree_view (node_child K V h t) b) k v r × IsDated b t r)
            (settle_child (Node.min K V h) b (locate_node b k) t s m)
    settled b k v w f s m i = rw (locate_node-locate_rest b k) (
        Ensures-with _ _ _
          (rw (← min-node_min K V h t)
            (settle_child-Settled (node_child K V h t) b k v (locate_rest b.rest k) w f t m s i))
          (settle_child-IsDated V (Node.min K V h) b (locate_rest b.rest k) t s m))
