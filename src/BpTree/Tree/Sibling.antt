-- ===== src/BpTree/Tree/Sibling.antt =====
-- The sibling of a child that has shrunk, cloned if an older transaction made it.
use concread.BpTree.Branch
use concread.BpTree.Branch.{Branch, node_at, with_nodes, replace_by_idx, splice}
use concread.BpTree.Branch.Siblings.{
  node_at-write_pair_left, node_at-write_pair_right, write_pair_left, write_pair_right,
}
use concread.BpTree.Chain.{Child}
use concread.BpTree.Leaf.{Leaf}
use concread.BpTree.Mem.{Mem, alloc, push_first, push_last}
use concread.BpTree.Node
use concread.BpTree.Node.{Node}
use concread.BpTree.Shrink.{Parent, clone_sibling_idx}
use concread.BpTree.Shrink.Steps.{written}
use concread.BpTree.Tree.{node_child}
use concread.BpTree.Tree.Dates.{entries}
use concread.BpTree.Tree.Descend.{tree-entries, IsBranch-le}
use concread.Ord.{Ord}
use concread.Prelude.{
  ℕ, zero, suc, ◌-◌, ◌≤◌, ◌≡◌, refl, sym, ◌∙◌, false, none, some, arith, length, Bool-cases, inl,
  inr, ◌==◌, ◌>>=◌, ◌⊎◌,
}

module _ {ℓ κ} (K : Type ℓ) (V : Type κ) ⦃o : Ord K⦄ where
  -- A node that is of the transaction, or its clone.
  pub record IsOwned (h t : ℕ) (n c : Node K V h) : Type (ℓ ⊔ κ) where
    pub good : (node_child K V h t).Good c
    pub same_txid : Node.txid K V h c ≡ t
    pub same_view : (node_child K V h t).view c ≡ (node_child K V h t).view n

  pub req_clone-cases :
      (h t : ℕ) (n : Node K V h) (m : Mem)
      → (node_child K V h t).Good n
      → ((Node.req_clone K V h n t m ≡ none) × IsOwned h t n n)
        ⊎ ((c : Node K V h) × (m' : Mem) × (Node.req_clone K V h n t m ≡ some (c, m'))
            × IsOwned h t n c)
  unfolding Node.req_clone node_child concread.BpTree.Leaf.req_clone
      concread.BpTree.Branch.req_clone entries
  req_clone-cases zero t n m g = elim (Bool-cases (n.txid == t)) [
    | inl e ↦ inl (rw e refl, record { good = g; same_txid = ground arith; same_view = refl })
    | inr e ↦ inr (
      record { nid = m.next_nid; txid = t; entries = n.entries },
      alloc m,
      rw e refl,
      record {
        good = record {
          leaf = record { sorted = g.leaf.sorted; bounded = g.leaf.bounded; dated = omega arith };
          filled = g.filled;
        };
        same_txid = refl;
        same_view = refl;
      },
    )
  ]
  req_clone-cases (suc h) t n m g = elim (Bool-cases (n.txid == t)) [
    | inl e ↦ inl (rw e refl, record { good = g; same_txid = ground arith; same_view = refl })
    | inr e ↦
        let c : Branch K (Node K V h) = record n { nid = m.next_nid; txid = t } in
        inr (
          c,
          alloc m,
          rw e refl,
          record {
            good = record {
              dated = omega arith;
              branch = IsBranch-le K V h n.txid t n c g.dated refl refl g.branch;
            };
            same_txid = refl;
            same_view = tree-entries K V h t c ∙ sym (tree-entries K V h n.txid n);
          },
        )
  ]

  module _ (h t : ℕ) where
    abbrev ch : Child K V (Node K V h)
    ch = node_child K V h t

    -- The right sibling of the first child, cloned if need be.
    pub sibling_right :
        (b : Parent K V h) (range : 1 ≤ length b.rest) (l r : Node K V h) (m : Mem)
        → ch.Good r
        → (r' : Node K V h) × (m' : Mem) × (clone_sibling_idx K V h
              (written K V h b 0 range l r)
              t
              0
              m
            ≡ some (1, written K V h b 0 range l r', m'))
          × IsOwned h t r r'
    unfolding clone_sibling_idx replace_by_idx
    sibling_right b range l r m g =
        let at = node_at-write_pair_right b.first b.rest 0 l r range in
        elim (req_clone-cases h t r m g) [
          | inl (e, own) ↦ (r, m, rw (at, ◌>>=◌, e) refl, own)
          | inr (r', m', e, own) ↦ (
            r',
            push_last (Node.nid K V h r) (push_first (Node.nid K V h r') m'),
            rw (at, ◌>>=◌, e, write_pair_right b.first b.rest 0 l r r' range) refl,
            own,
          )
        ]

    -- The left sibling of another child, cloned if need be.
    module _ (b : Parent K V h) (idx : ℕ) (range : suc idx ≤ length b.rest) (l r : Node K V h)
        (m : Mem) where
      pub sibling_left :
          ch.Good l
          → (l' : Node K V h) × (m' : Mem) × (clone_sibling_idx K V h
                (written K V h b idx range l r)
                t
                (suc idx)
                m
              ≡ some (suc idx, written K V h b idx range l' r, m'))
            × IsOwned h t l l'
      unfolding clone_sibling_idx replace_by_idx
      sibling_left g =
          let pred : suc idx - 1 ≡ idx = omega arith in
          let back : (suc idx == 0) ≡ false = ground arith in
          let at = node_at-write_pair_left b.first b.rest idx l r range in
          elim (req_clone-cases h t l m g) [
            | inl (e, own) ↦ (l, m, rw (back, pred, at, ◌>>=◌, e, back) refl, own)
            | inr (l', m', e, own) ↦ (
              l',
              push_last (Node.nid K V h l) (push_first (Node.nid K V h l') m'),
              rw
                  (
                    back,
                    pred,
                    at,
                    ◌>>=◌,
                    e,
                    back,
                    pred,
                    write_pair_left b.first b.rest idx l r l' range,
                  )
                  refl,
              own,
            )
          ]
