-- ===== src/BpTree/Chain/Remove.antt =====
-- What a branch is after the entry of a key was removed below two neighbouring children.
use concread.BpTree.Branch
use concread.BpTree.Branch.{Branch, with_nodes, replace_by_idx}
use concread.BpTree.Chain.{Child, chain_view, IsChain}
use concread.BpTree.Chain.Cut.{least_bound, least_of_all, below_least}
use concread.BpTree.Chain.Focus.{Focus}
use concread.BpTree.Chain.Insert.{IsBranch, Top, tree_view}
use concread.BpTree.Chain.Pair.{Pair, splice_pair}
use concread.BpTree.Node.{concat_rest}
use concread.Ord.{Ord, ◌≺◌, ◌≼◌, le_of_lt}
use concread.Prelude.{
  ℕ, ◌+◌, List, [], ◌∷◌, ◌++◌, ◌≡◌, ap, sym, ◌∙◌, subst, some, arith, append-nil,
}
use concread.SortedMap.{AllKeys, IsSorted, lookup, remove}
use concread.SortedMap.Laws.{
  AllKeys-append, AllKeys-append_left, AllKeys-append_right, AllKeys-imp, AllKeys-remove,
  remove-IsSorted, IsSorted-append,
}
use concread.SortedMap.Middle.{remove_middle, lookup_middle}

module _ {ℓ κ μ} {K : Type ℓ} {V : Type κ} {A : Type μ} ⦃o : Ord K⦄ (ch : Child K V A)
    (b : Branch K A) (k : K) (idx : ℕ) (w : IsBranch ch b) where
  open ch use {view, Good}

  module _ (f : Focus ch Top b.first b.rest k idx) where
    -- The child was replaced by a good node.
    pub replace-IsBranch :
        (c : A) → Good c → view c ≡ remove k (view f.child) → IsBranch ch (replace_by_idx b idx c)
    unfolding replace_by_idx
    replace-IsBranch c good e =
        let lower : AllKeys f.Lower (view c) =
          subst (AllKeys f.Lower) (sym e) (AllKeys-remove f.Lower k (view f.child) f.lower_child) in
        let upper : AllKeys f.Upper (view c) =
          subst (AllKeys f.Upper) (sym e) (AllKeys-remove f.Upper k (view f.child) f.upper_child) in
        record {
          chain = f.rebuild c [] (lower, good) upper;
          bounded = omega (arith, f.length-splice c [], w.bounded);
          filled = omega (arith, f.length-splice c [], w.filled);
        }

    pub replace_view :
        (c : A)
        → view c ≡ remove k (view f.child)
        → tree_view ch (replace_by_idx b idx c) ≡ remove k (tree_view ch b)
    unfolding replace_by_idx concat_rest
    replace_view c e =
        f.view-splice c []
        ∙ ap (λ z. f.before ++ (z ++ f.after)) (append-nil (view c) ∙ e)
        ∙ sym (remove_middle k f.before (view f.child) f.after f.below f.above)
        ∙ ap (remove k) (sym f.split)

    pub lookup-child : lookup k (tree_view ch b) ≡ lookup k (view f.child)
    lookup-child =
        ap (lookup k) f.split ∙ lookup_middle k f.before (view f.child) f.after f.below f.above

  module _ (S : K → Type 0) (p : Pair ch Top b.first b.rest k idx S) where
    abbrev pub middle : List (K × V)
    middle = view p.left ++ view p.right

    pub middle-IsSorted : IsSorted middle
    middle-IsSorted =
        IsSorted-append p.sep (view p.left) (view p.right) (ch.sorted p.left p.left_good)
          (ch.sorted p.right p.right_good) p.left_sep p.sep_right

    middle_lower : AllKeys p.Lower middle
    middle_lower =
        AllKeys-append p.Lower (view p.left) (view p.right) p.lower_left
          (AllKeys-imp _ p.Lower (λ x. p.upward p.sep x p.lower_sep) (view p.right) p.sep_right)

    middle_upper : AllKeys p.Upper middle
    middle_upper =
        let (m, v, xs, e, whole) = ch.least p.right p.right_good in
        let upper_m = least_of_all ch p.Upper p.right m p.right_good e p.upper_right in
        let sep_m = least_of_all ch (λ x. p.sep ≼ x) p.right m p.right_good e p.sep_right in
        let upper_sep = p.downward p.sep m upper_m sep_m in
        AllKeys-append p.Upper (view p.left) (view p.right)
          (AllKeys-imp _ p.Upper (λ x q. p.downward x p.sep upper_sep (le_of_lt x p.sep q))
            (view p.left) p.left_sep)
          p.upper_right

    removed_view :
        (l : A) (seg : List (K × A))
        → chain_view ch l seg ≡ remove k middle
        → tree_view ch (with_nodes b (splice_pair b.first b.rest idx l seg))
          ≡ remove k (tree_view ch b)
    removed_view l seg e =
        p.view-splice l seg
        ∙ ap (λ z. p.before ++ (z ++ p.after)) e
        ∙ sym (remove_middle k p.before middle p.after p.below p.above)
        ∙ ap (remove k) (sym p.split)

    pub lookup-middle : lookup k (tree_view ch b) ≡ lookup k middle
    lookup-middle = ap (lookup k) p.split ∙ lookup_middle k p.before middle p.after p.below p.above

    -- One node took the place of the two.
    pub record OneLeft (l : A) : Type (ℓ ⊔ κ) where
      pub chain :
          IsChain ch Top
            (splice_pair b.first b.rest idx l []).0
            (splice_pair b.first b.rest idx l []).1
      pub one_less :
          Branch.count (with_nodes b (splice_pair b.first b.rest idx l [])) + 1 ≡ Branch.count b
      pub stored :
          tree_view ch (with_nodes b (splice_pair b.first b.rest idx l []))
          ≡ remove k (tree_view ch b)

    pub one_left : (l : A) → Good l → view l ≡ remove k middle → OneLeft l
    unfolding concat_rest
    one_left l good e =
        let lower : AllKeys p.Lower (view l) =
          subst (AllKeys p.Lower) (sym e) (AllKeys-remove p.Lower k middle middle_lower) in
        let upper : AllKeys p.Upper (view l) =
          subst (AllKeys p.Upper) (sym e) (AllKeys-remove p.Upper k middle middle_upper) in
        record {
          chain = p.rebuild l [] (lower, good) upper;
          one_less = p.length-splice l [] ∙ omega arith;
          stored = removed_view l [] (append-nil (view l) ∙ e);
        }

    -- Two nodes took it, the second under its least key.
    pub two_left :
        (l r : A) (m : K)
        → Good l
        → Good r
        → ch.min r ≡ some m
        → view l ++ view r ≡ remove k middle
        → IsBranch ch (with_nodes b (splice_pair b.first b.rest idx l ((m, r) ∷ [])))
          × (tree_view ch (with_nodes b (splice_pair b.first b.rest idx l ((m, r) ∷ [])))
              ≡ remove k (tree_view ch b))
    unfolding concat_rest
    two_left l r m gl gr e joined =
        let whole : AllKeys p.Lower (view l ++ view r) =
          subst (AllKeys p.Lower) (sym joined) (AllKeys-remove p.Lower k middle middle_lower) in
        let upper : AllKeys p.Upper (view l ++ view r) =
          subst (AllKeys p.Upper) (sym joined) (AllKeys-remove p.Upper k middle middle_upper) in
        let s : IsSorted (view l ++ view r) =
          subst IsSorted (sym joined) (remove-IsSorted k middle middle-IsSorted) in
        let right_lower = AllKeys-append_right p.Lower (view l) (view r) whole in
        let right_upper = AllKeys-append_right p.Upper (view l) (view r) upper in
        let apart : AllKeys (λ x. x ≺ m) (view l) = below_least ch l r m gr e s in
        (
          record {
            chain =
                p.rebuild l ((m, r) ∷ [])
                  (
                    AllKeys-append_left p.Lower (view l) (view r) whole,
                    gl,
                    apart,
                    least_of_all ch p.Lower r m gr e right_lower,
                    (least_bound ch r m gr e, gr),
                  )
                  (
                    AllKeys-append_left p.Upper (view l) (view r) upper,
                    least_of_all ch p.Upper r m gr e right_upper,
                    right_upper,
                  );
            bounded = omega (arith, p.length-splice l ((m, r) ∷ []), w.bounded);
            filled = omega (arith, p.length-splice l ((m, r) ∷ []), w.filled);
          },
          removed_view l ((m, r) ∷ []) (ap (◌++◌ (view l)) (append-nil (view r)) ∙ joined),
        )
