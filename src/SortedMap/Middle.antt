-- ===== src/SortedMap/Middle.antt =====
-- The operations on the middle of a concatenation, where the key belongs.
use concread.Ord.{Ord, ◌≺◌}
use concread.Prelude.{List, [], ◌∷◌, ◌++◌, ◌≡◌, ap, ◌∙◌}
use concread.SortedMap.{AllKeys, IsSorted, lookup, insert, remove}
use concread.SortedMap.Laws.{
  insert_skip, insert_stop, lookup_skip, lookup_stop, remove_skip, remove_stop,
  AllKeys-append_right,
}

module _ {ℓ κ} {K : Type ℓ} {V : Type κ} ⦃o : Ord K⦄ (k : K) (before mid after : List (K × V))
    (lo : AllKeys (λ x. x ≺ k) before) (hi : AllKeys (λ x. k ≺ x) after) where
  pub insert_middle :
      (v : V) → insert k v (before ++ (mid ++ after)) ≡ before ++ (insert k v mid ++ after)
  insert_middle v =
      insert_skip k v before (mid ++ after) lo ∙ ap (◌++◌ before) (insert_stop k v mid after hi)

  pub lookup_middle : lookup k (before ++ (mid ++ after)) ≡ lookup k mid
  lookup_middle = lookup_skip k before (mid ++ after) lo ∙ lookup_stop k mid after hi

  pub remove_middle : remove k (before ++ (mid ++ after)) ≡ before ++ (remove k mid ++ after)
  remove_middle =
      remove_skip k before (mid ++ after) lo ∙ ap (◌++◌ before) (remove_stop k mid after hi)

module _ {ℓ κ} {K : Type ℓ} {V : Type κ} ⦃o : Ord K⦄ where
  -- Left of an entry of a sorted list all keys are smaller.
  pub below_of_sorted :
      (xs : List (K × V)) (k : K) (v : V) (ys : List (K × V))
      → IsSorted (xs ++ (k, v) ∷ ys)
      → AllKeys (λ x. x ≺ k) xs
  below_of_sorted [] k v ys s = tt
  below_of_sorted ((j, w) ∷ xs) k v ys s =
      ((AllKeys-append_right (λ x. j ≺ x) xs ((k, v) ∷ ys) s.0).0, below_of_sorted xs k v ys s.1)
