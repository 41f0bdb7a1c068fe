-- ===== src/BpTree/Chain/Insert.antt =====
-- What a branch does with what its child reports of an insert.
use concread.BpTree.Branch
use concread.BpTree.Branch.{
  Branch, node_at, splice, replace_by_idx, add_node, add_node_left, insert_left, new_branch,
  with_nodes,
}
use concread.BpTree.Branch.Search.{key_search-search_from}
use concread.BpTree.Chain.{Child, chain_view, IsChain}
use concread.BpTree.Chain.Cut.{least_bound, least_of_all, below_least}
use concread.BpTree.Chain.Focus.{Focus}
use concread.BpTree.Leaf.{l_capacity}
use concread.BpTree.Mem.{Mem}
use concread.BpTree.Node.{concat_rest}
use concread.BpTree.States.{CrInsertState}
use concread.Ord.{Ord, ◌≺◌}
use concread.Prelude.{
  ℕ, ◌≤◌, List, [], ◌∷◌, ◌++◌, ◌≡◌, ap, sym, ◌∙◌, subst, Option, none, some, arith, append-nil,
}
use concread.Slice.{key_search, err}
use concread.SortedMap.{AllKeys, IsSorted, lookup, insert}
use concread.SortedMap.Laws.{
  AllKeys-append_left, AllKeys-append_right, AllKeys-insert, insert-IsSorted,
}
use concread.SortedMap.Middle.{insert_middle, lookup_middle}

-- no bound
abbrev pub Top {ℓ} : {K : Type ℓ} → K → Type 0
Top k = Unit {0}

module _ {ℓ κ μ} {K : Type ℓ} {V : Type κ} {A : Type μ} ⦃o : Ord K⦄ (ch : Child K V A) where
  open ch use {view, Good}

  abbrev pub tree_view : Branch K A → List (K × V)
  tree_view b = chain_view ch b.first b.rest

  -- What a tree promises of a branch.
  pub record IsBranch (b : Branch K A) : Type 0 where
    pub chain : IsChain ch Top b.first b.rest
    pub bounded : Branch.count b ≤ l_capacity
    pub filled : 1 ≤ Branch.count b

  -- Two nodes that hold the entries of `before` and the new one.
  pub record IsPair (before : List (K × V)) (k : K) (v : V) (l r : A) : Type (ℓ ⊔ κ) where
    pub left_good : Good l
    pub right_good : Good r
    pub joined : view l ++ view r ≡ insert k v before
    pub was_absent : lookup k before ≡ none

  abbrev pub IsOne : List (K × V) → K → V → A → Option V → Type (ℓ ⊔ κ)
  IsOne before k v c res = Good c × (view c ≡ insert k v before) × (res ≡ lookup k before)

  abbrev pub Inserted : List (K × V) → K → V → CrInsertState A V → Type (ℓ ⊔ κ)
  Inserted before k v (CrInsertState.no_clone c res) = IsOne before k v c res
  Inserted before k v (CrInsertState.clone c res) = IsOne before k v c res
  Inserted before k v (CrInsertState.split l r) = IsPair before k v l r
  Inserted before k v (CrInsertState.clone_split l r) = IsPair before k v l r
  Inserted before k v (CrInsertState.rev_split n l) = IsPair before k v l n
  Inserted before k v (CrInsertState.clone_rev_split n l) = IsPair before k v l n

  pub record IsGrown (before : List (K × V)) (k : K) (v : V) (b : Branch K A) (r : Branch K A)
      : Type (ℓ ⊔ κ) where
    pub left_branch : IsBranch b
    pub right_branch : IsBranch r
    pub joined : tree_view b ++ tree_view r ≡ insert k v before
    pub was_absent : lookup k before ≡ none

  -- The branch, the result and the new right sibling, if the branch had to split.
  abbrev pub Settled :
      List (K × V) → K → V → Branch K A × Option V × Option (Branch K A) × Mem → Type (ℓ ⊔ κ)
  Settled before k v (b, res, none, m) =
      IsBranch b × (tree_view b ≡ insert k v before) × (res ≡ lookup k before)
  Settled before k v (b, res, some r, m) = IsGrown before k v b r × (res ≡ none)

  module _ (b : Branch K A) (k : K) (v : V) (idx : ℕ) (w : IsBranch b)
      (f : Focus ch Top b.first b.rest k idx) where
    -- The child was replaced by one node.
    pub replace-Settled :
        (c : A) (res : Option V) (m : Mem)
        → IsOne (view f.child) k v c res
        → Settled (tree_view b) k v (replace_by_idx b idx c, res, none, m)
    unfolding replace_by_idx concat_rest
    replace-Settled c res m (good, e, hit) =
        let lower : AllKeys f.Lower (view c) =
          subst (AllKeys f.Lower) (sym e)
            (AllKeys-insert f.Lower k v (view f.child) f.lower_key f.lower_child) in
        let upper : AllKeys f.Upper (view c) =
          subst (AllKeys f.Upper) (sym e)
            (AllKeys-insert f.Upper k v (view f.child) f.upper_key f.upper_child) in
        (
          record {
            chain = f.rebuild c [] (lower, good) upper;
            bounded = omega (arith, f.length-splice c [], w.bounded);
            filled = omega (arith, f.length-splice c [], w.filled);
          },
          f.view-splice c []
              ∙ ap (λ z. f.before ++ (z ++ f.after)) (append-nil (view c) ∙ e)
              ∙ sym (insert_middle k f.before (view f.child) f.after f.below f.above v)
              ∙ ap (insert k v) (sym f.split),
          hit
              ∙ sym (lookup_middle k f.before (view f.child) f.after f.below f.above)
              ∙ ap (lookup k) (sym f.split),
        )

    -- The child was replaced by two nodes, the second under its least key `m`.
    pub record IsParted (l r : A) (m : K) : Type (ℓ ⊔ κ) where
      pub key : ch.min r ≡ some m
      pub chain :
          IsChain ch Top
            (splice b.first b.rest idx l ((m, r) ∷ [])).0
            (splice b.first b.rest idx l ((m, r) ∷ [])).1
      pub joined :
          chain_view ch
            (splice b.first b.rest idx l ((m, r) ∷ [])).0
            (splice b.first b.rest idx l ((m, r) ∷ [])).1
          ≡ insert k v (tree_view b)
      pub was_absent : lookup k (tree_view b) ≡ none
      pub searched : key_search (splice b.first b.rest idx l []).1 m ≡ err idx

    pub part :
        (l r : A) (m : K) → ch.min r ≡ some m → IsPair (view f.child) k v l r → IsParted l r m
    unfolding concat_rest
    part l r m e p =
        let whole : AllKeys f.Lower (view l ++ view r) =
          subst (AllKeys f.Lower) (sym p.joined)
            (AllKeys-insert f.Lower k v (view f.child) f.lower_key f.lower_child) in
        let upper : AllKeys f.Upper (view l ++ view r) =
          subst (AllKeys f.Upper) (sym p.joined)
            (AllKeys-insert f.Upper k v (view f.child) f.upper_key f.upper_child) in
        let s : IsSorted (view l ++ view r) =
          subst IsSorted (sym p.joined)
            (insert-IsSorted k v (view f.child) (ch.sorted f.child f.good)) in
        let right_lower = AllKeys-append_right f.Lower (view l) (view r) whole in
        let right_upper = AllKeys-append_right f.Upper (view l) (view r) upper in
        let left_lower = AllKeys-append_left f.Lower (view l) (view r) whole in
        let apart : AllKeys (λ x. x ≺ m) (view l) = below_least ch l r m p.right_good e s in
        let (y, y_v, ys, y_min, y_view) = ch.least l p.left_good in
        let lower_m : f.Lower m = least_of_all ch f.Lower r m p.right_good e right_lower in
        let upper_m : f.Upper m = least_of_all ch f.Upper r m p.right_good e right_upper in
        record {
          key = e;
          chain =
              f.rebuild l ((m, r) ∷ [])
                (
                  left_lower,
                  p.left_good,
                  apart,
                  lower_m,
                  (least_bound ch r m p.right_good e, p.right_good),
                )
                (AllKeys-append_left f.Upper (view l) (view r) upper, upper_m, right_upper);
          joined =
              f.view-splice l ((m, r) ∷ [])
              ∙ ap (λ z. f.before ++ (z ++ f.after))
                  (ap (◌++◌ (view l)) (append-nil (view r)) ∙ p.joined)
              ∙ sym (insert_middle k f.before (view f.child) f.after f.below f.above v)
              ∙ ap (insert k v) (sym f.split);
          was_absent =
              ap (lookup k) f.split
              ∙ lookup_middle k f.before (view f.child) f.after f.below f.above
              ∙ p.was_absent;
          searched =
              key_search-search_from _ m
              ∙ f.search-next 0 l y m (least_of_all ch f.Lower l y p.left_good y_min left_lower)
                  (least_of_all ch (λ x. x ≺ m) l y p.left_good y_min apart) upper_m
              ∙ ap err (omega arith);
        }
