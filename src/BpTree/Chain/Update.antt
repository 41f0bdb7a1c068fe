-- ===== src/BpTree/Chain/Update.antt =====
-- What a branch is after a value was written below one of its children.
use concread.BpTree.Branch.{Branch, replace_by_idx}
use concread.BpTree.Chain.{Child}
use concread.BpTree.Chain.Focus.{Focus}
use concread.BpTree.Chain.Insert.{IsBranch, Top, tree_view}
use concread.BpTree.Node.{concat_rest}
use concread.Ord.{Ord}
use concread.Prelude.{ℕ, [], ◌++◌, ◌≡◌, ap, sym, ◌∙◌, subst, arith, append-nil}
use concread.SortedMap.{AllKeys}
use concread.SortedMap.Update.{update, AllKeys-update, update_middle}

module _ {ℓ κ μ} {K : Type ℓ} {V : Type κ} {A : Type μ} ⦃o : Ord K⦄ (ch : Child K V A)
    (b : Branch K A) (k : K) (g : V → V) (idx : ℕ) (w : IsBranch ch b)
    (f : Focus ch Top b.first b.rest k idx) (c : A) (good : ch.Good c)
    (e : ch.view c ≡ update k g (ch.view f.child)) where
  open ch use {view}

  pub update-IsBranch : IsBranch ch (replace_by_idx b idx c)
  unfolding replace_by_idx
  update-IsBranch =
      let lower : AllKeys f.Lower (view c) =
        subst (AllKeys f.Lower) (sym e) (AllKeys-update k g f.Lower (view f.child) f.lower_child) in
      let upper : AllKeys f.Upper (view c) =
        subst (AllKeys f.Upper) (sym e) (AllKeys-update k g f.Upper (view f.child) f.upper_child) in
      record {
        chain = f.rebuild c [] (lower, good) upper;
        bounded = omega (arith, f.length-splice c [], w.bounded);
        filled = omega (arith, f.length-splice c [], w.filled);
      }

  pub update_view : tree_view ch (replace_by_idx b idx c) ≡ update k g (tree_view ch b)
  unfolding replace_by_idx concat_rest
  update_view =
      f.view-splice c []
      ∙ ap (λ z. f.before ++ (z ++ f.after)) (append-nil (view c) ∙ e)
      ∙ sym (update_middle k g f.before (view f.child) f.after f.below f.above)
      ∙ ap (update k g) (sym f.split)
