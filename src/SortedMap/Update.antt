-- ===== src/SortedMap/Update.antt =====
-- The abstract map under a write to the value of one key.
use concread.Ord.{Ord, ◌≺◌}
use concread.Prelude.{List, [], ◌∷◌, ◌++◌, ◌≡◌, refl, ap, ◌∙◌, arith, length}
use concread.SortedMap.{AllKeys, IsSorted}
use Prim.Native.Nat.Ordering.{lt, eq, gt}

module _ {ℓ κ} {K : Type ℓ} {V : Type κ} ⦃o : Ord K⦄ where
  -- The value under `k`, if there is one, becomes its image under `f`.
  unfoldable pub update : K → (V → V) → List (K × V) → List (K × V)
  update k f [] = []
  update k f ((j, w) ∷ xs) = elim (o.cmp k j) [
    | lt ↦ (j, w) ∷ xs
    | eq ↦ (j, f w) ∷ xs
    | gt ↦ (j, w) ∷ update k f xs
  ]

  module _ (k : K) (f : V → V) where
    pub AllKeys-update {μ} :
        (P : K → Type μ) (xs : List (K × V)) → AllKeys P xs → AllKeys P (update k f xs)
    unfolding update
    AllKeys-update P [] h = tt
    AllKeys-update P ((j, w) ∷ xs) h = ground (arith, AllKeys-update P xs)

    pub update-IsSorted : (xs : List (K × V)) → IsSorted xs → IsSorted (update k f xs)
    unfolding update
    update-IsSorted [] h = tt
    update-IsSorted ((j, w) ∷ xs) h =
        ground (arith, update-IsSorted xs, AllKeys-update (λ x. j ≺ x) xs)

    pub length-update : (xs : List (K × V)) → length (update k f xs) ≡ length xs
    unfolding update
    length-update [] = refl
    length-update ((j, w) ∷ xs) = ground (arith, length-update xs)

    update_skip :
        (xs ys : List (K × V))
        → AllKeys (λ x. x ≺ k) xs
        → update k f (xs ++ ys) ≡ xs ++ update k f ys
    unfolding update
    update_skip [] ys h = refl
    update_skip ((j, w) ∷ xs) ys h = ground (arith, o.gt_of_lt j k, update_skip xs ys)

    update_above : (ys : List (K × V)) → AllKeys (λ x. k ≺ x) ys → update k f ys ≡ ys
    unfolding update
    update_above [] h = refl
    update_above ((j, w) ∷ ys) h = ground arith

    update_stop :
        (xs ys : List (K × V))
        → AllKeys (λ x. k ≺ x) ys
        → update k f (xs ++ ys) ≡ update k f xs ++ ys
    unfolding update
    update_stop [] ys h = update_above ys h
    update_stop ((j, w) ∷ xs) ys h = ground (arith, update_stop xs ys)

    pub update_middle :
        (before mid after : List (K × V))
        → AllKeys (λ x. x ≺ k) before
        → AllKeys (λ x. k ≺ x) after
        → update k f (before ++ (mid ++ after)) ≡ before ++ (update k f mid ++ after)
    update_middle before mid after lo hi =
        update_skip before (mid ++ after) lo ∙ ap (◌++◌ before) (update_stop mid after hi)

    pub update_over :
        (x : V) (pre post : List (K × V))
        → AllKeys (λ x. x ≺ k) pre
        → update k f (pre ++ (k, x) ∷ post) ≡ pre ++ (k, f x) ∷ post
    unfolding update
    update_over x pre post lo =
        let same = o.cmp_refl k in
        update_skip pre ((k, x) ∷ post) lo ∙ ap (◌++◌ pre) (rw (update, same) refl)

    pub update_between :
        (pre post : List (K × V))
        → AllKeys (λ x. x ≺ k) pre
        → AllKeys (λ x. k ≺ x) post
        → update k f (pre ++ post) ≡ pre ++ post
    update_between pre post lo hi = update_skip pre post lo ∙ ap (◌++◌ pre) (update_above post hi)

  -- A write of what was read changes nothing.
  pub update_id : (k : K) (xs : List (K × V)) → update k (λ v. v) xs ≡ xs
  unfolding update
  update_id k [] = refl
  update_id k ((j, w) ∷ xs) = ground (arith, update_id k xs)
