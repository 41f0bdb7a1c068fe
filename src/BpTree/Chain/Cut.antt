-- ===== src/BpTree/Chain/Cut.antt =====
-- A chain cut in two, and a chain with a separator moved up to the least key behind it.
use concread.BpTree.Branch.FullLeft.{Rekeyed, same, last}
use concread.BpTree.Chain.{Child, chain_view, IsChain}
use concread.BpTree.Chain.Focus.{chain_view-append}
use concread.BpTree.Chain.Order.{IsUp}
use concread.Ord.{Ord, ◌≺◌, ◌≼◌, le_refl, le_of_lt, le_trans, lt_le_trans}
use concread.Prelude.{
  List, [], ◌∷◌, ◌++◌, ◌≡◌, ap, sym, ◌∙◌, subst, some, arith, length, length-append,
}
use concread.SortedMap.{AllKeys, IsSorted}
use concread.SortedMap.Laws.{AllKeys-imp}
use concread.SortedMap.Middle.{below_of_sorted}

module _ {ℓ κ μ} {K : Type ℓ} {V : Type κ} {A : Type μ} ⦃o : Ord K⦄ (ch : Child K V A) where
  open ch use {view, Good}

  pub IsChain-cut :
      (P : K → Type 0) (c : A) (kept : List (K × A)) (j : K) (d : A) (tail : List (K × A))
      → IsChain ch P c (kept ++ (j, d) ∷ tail)
      → IsChain ch P c kept × IsChain ch (λ x. j ≼ x) d tail
  IsChain-cut P c [] j d tail w = ((w.0, w.1), w.4)
  IsChain-cut P c ((i, e) ∷ kept) j d tail w =
      let (front, back) = IsChain-cut (λ x. i ≼ x) e kept j d tail w.4 in
      ((w.0, w.1, w.2, w.3, front), back)

  -- the least key of a good child, with what it bounds
  pub least_bound : (c : A) (m : K) → Good c → ch.min c ≡ some m → AllKeys (λ x. m ≼ x) (view c)
  least_bound c m g e =
      let (k, v, xs, e', w) = ch.least c g in
      let same_key : k ≡ m = ground arith in
      let s : IsSorted ((k, v) ∷ xs) = subst IsSorted w (ch.sorted c g) in
      subst (λ z. AllKeys (λ x. m ≼ x) z) (sym w)
        (subst (λ z. AllKeys (λ x. z ≼ x) ((k, v) ∷ xs)) same_key
          (le_refl k, AllKeys-imp _ _ (λ x. le_of_lt k x) xs s.0))

  -- what holds of all keys of a good child holds of its least key
  pub least_of_all {ν} :
      (P : K → Type ν) (c : A) (m : K) → Good c → ch.min c ≡ some m → AllKeys P (view c) → P m
  least_of_all P c m g e h =
      let (k, v, xs, e', w) = ch.least c g in
      let same_key : k ≡ m = ground arith in subst P same_key (subst (AllKeys P) w h).0

  -- What stands before a good child in a sorted list is below its least key.
  pub below_least :
      (l r : A) (m : K)
      → Good r
      → ch.min r ≡ some m
      → IsSorted (view l ++ view r)
      → AllKeys (λ x. x ≺ m) (view l)
  below_least l r m g e s =
      let (k, v, xs, e', w) = ch.least r g in
      let same_key : k ≡ m = ground arith in
      subst (λ z. AllKeys (λ x. x ≺ z) (view l)) same_key
        (below_of_sorted (view l) k v xs (subst (λ z. IsSorted (view l ++ z)) w s))

  pub IsChain-rekey :
      (P : K → Type 0) (c : A) (front : List (K × A)) (j : K) (l : A) (lk : K)
      → IsUp P
      → ch.min l ≡ some lk
      → IsChain ch P c (front ++ (j, l) ∷ [])
      → IsChain ch P c (front ++ (lk, l) ∷ [])
  IsChain-rekey P c [] j l lk up e w =
      let j_le : j ≼ lk = least_of_all (λ x. j ≼ x) l lk w.4.1 e w.4.0 in
      (
        w.0,
        w.1,
        AllKeys-imp _ _ (λ x h. lt_le_trans x j lk h j_le) (view c) w.2,
        up j lk w.3 j_le,
        (least_bound l lk w.4.1 e, w.4.1),
      )
  IsChain-rekey P c ((i, d) ∷ front) j l lk up e w =
      (w.0, w.1, w.2, w.3, IsChain-rekey (λ x. i ≼ x) d front j l lk (λ a b. le_trans i a b) e w.4)

  pub IsChain-Rekeyed :
      (P : K → Type 0) (c : A) (kept kept' : List (K × A)) (l : A) (lk : K)
      → IsUp P
      → ch.min l ≡ some lk
      → Rekeyed lk l kept kept'
      → IsChain ch P c kept
      → IsChain ch P c kept'
        × (chain_view ch c kept' ≡ chain_view ch c kept)
        × (length kept' ≡ length kept)
  IsChain-Rekeyed P c kept kept' l lk up e (same h) w =
      (subst (IsChain ch P c) (sym h) w, ap (chain_view ch c) h, ap length h)
  IsChain-Rekeyed P c kept kept' l lk up e (last front j h h') w = (
    subst (IsChain ch P c) (sym h')
        (IsChain-rekey P c front j l lk up e (subst (IsChain ch P c) h w)),
    rw (h, h') (chain_view-append ch c front lk l [] ∙ sym (chain_view-append ch c front j l [])),
    rw (h, h') (length-append front _ ∙ sym (length-append front _)),
  )

  -- The two nodes that split off are a chain of their own, under the least key of the second.
  pub pair-IsChain :
      (j i : K) (l r : A) (m : K)
      → IsChain ch (λ x. j ≼ x) l ((i, r) ∷ [])
      → ch.min r ≡ some m
      → IsChain ch (λ x. Unit {0}) l ((m, r) ∷ [])
  pair-IsChain j i l r m w e =
      let i_le : i ≼ m = least_of_all (λ x. i ≼ x) r m w.4.1 e w.4.0 in
      (
        AllKeys-imp _ _ (λ x h. tt) (view l) w.0,
        w.1,
        AllKeys-imp _ _ (λ x h. lt_le_trans x i m h i_le) (view l) w.2,
        tt,
        (least_bound r m w.4.1 e, w.4.1),
      )
