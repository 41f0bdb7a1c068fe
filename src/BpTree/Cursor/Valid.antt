-- ===== src/BpTree/Cursor/Valid.antt =====
-- What holds of a tree between the operations of a cursor, and the map that it stands for.
use concread.BpTree.Chain.{Child}
use concread.BpTree.Chain.Cut.{below_least, least_bound}
use concread.BpTree.Chain.Insert.{IsBranch, Top}
use concread.BpTree.Cursor.{Root, CursorWrite}
use concread.BpTree.Node.{Node}
use concread.BpTree.Tree.{node_child, branch_child}
use concread.BpTree.Tree.Dates.{entries}
use concread.BpTree.Tree.Descend.{tree-entries}
use concread.BpTree.Tree.Insert.{IsTree}
use concread.Ord.{Ord}
use concread.Prelude.{
  ℕ, zero, suc, ◌+◌, List, [], ◌∷◌, ◌++◌, ◌≡◌, refl, subst, none, some, arith, length,
}
use concread.SortedMap.{IsSorted, AllKeys, lookup, insert}

module _ {ℓ κ} {K : Type ℓ} {V : Type κ} ⦃o : Ord K⦄ where
  -- the map that a tree stands for
  abbrev pub contents : Root K V → List (K × V)
  contents t = entries K V t.height t.node

  -- A tree of transaction `txid` or older, in which `size` entries are counted.
  pub record IsValid (txid size : ℕ) (t : Root K V) : Type 0 where
    pub tree : IsTree K V t.height txid t.node
    pub counted : size ≡ length (contents t)

  abbrev pub IsCursor : CursorWrite K V → Type 0
  IsCursor c = IsValid c.txid c.length c.tree

  pub length-insert_new :
      (k : K) (v : V) (xs : List (K × V))
      → lookup k xs ≡ none
      → IsSorted xs
      → length (insert k v xs) ≡ length xs + 1
  unfolding lookup insert
  length-insert_new k v [] e s = refl
  length-insert_new k v ((j, w) ∷ xs) e s = ground (arith, length-insert_new k v xs)

  pub length-insert_old :
      (k : K) (v u : V) (xs : List (K × V))
      → lookup k xs ≡ some u
      → length (insert k v xs) ≡ length xs
  unfolding lookup insert
  length-insert_old k v u [] e = cc
  length-insert_old k v u ((j, w) ∷ xs) e = ground (arith, length-insert_old k v u xs)

module _ {ℓ κ} (K : Type ℓ) (V : Type κ) ⦃o : Ord K⦄ where
  pub tree-IsSorted : (h t : ℕ) (n : Node K V h) → IsTree K V h t n → IsSorted (entries K V h n)
  unfolding entries
  tree-IsSorted zero t n w = w.sorted
  tree-IsSorted (suc h) t n w =
      subst IsSorted (tree-entries K V h n.txid n)
        ((branch_child K V (node_child K V h) t).sorted n w)

module _ {ℓ κ μ} {K : Type ℓ} {V : Type κ} {A : Type μ} ⦃o : Ord K⦄ (ch : Child K V A) where
  -- Two good children in order, under a separator that is the least key of the second.
  pub IsBranch-pair :
      (nid txid : ℕ) (l r : A) (m : K)
      → ch.Good l
      → ch.Good r
      → ch.min r ≡ some m
      → IsSorted (ch.view l ++ ch.view r)
      → IsBranch ch (record { nid = nid; txid = txid; first = l; rest = (m, r) ∷ [] })
  IsBranch-pair nid txid l r m gl gr e s = record {
    chain =
        (all_top (ch.view l), gl, below_least ch l r m gr e s, tt, (least_bound ch r m gr e, gr));
    bounded = omega arith;
    filled = omega arith;
  }
    where
      all_top : (xs : List (K × V)) → AllKeys (Top {K = K}) xs
      all_top [] = tt
      all_top (x ∷ xs) = (tt, all_top xs)
