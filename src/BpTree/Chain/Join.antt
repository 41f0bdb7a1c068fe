-- ===== src/BpTree/Chain/Join.antt =====
-- A chain and one more child at its end or at its front, and a chain whose separators are the least
-- keys of the children behind them.
use concread.BpTree.Branch.{rekey_all}
use concread.BpTree.Chain.{Child, chain_view, IsChain}
use concread.BpTree.Chain.Cut.{least_bound, least_of_all}
use concread.BpTree.Chain.Focus.{IsBelow, IsChain-append, chain_view-append}
use concread.BpTree.Chain.Insert.{Top}
use concread.BpTree.Chain.Order.{IsUp}
use concread.BpTree.Node.{concat_rest}
use concread.Ord.{Ord, ◌≺◌, ◌≼◌, le_of_lt, le_trans, lt_le_trans, le_lt_trans}
use concread.Prelude.{
  List, [], ◌∷◌, ◌++◌, ◌≡◌, refl, ap, sym, ◌∙◌, subst, some, arith, length, map, append-nil,
  append_assoc,
}
use concread.SortedMap.{AllKeys, IsSorted}
use concread.SortedMap.Laws.{
  AllKeys-append_left, AllKeys-append_right, AllKeys-imp, IsSorted-append_left,
}
use concread.SortedMap.Middle.{below_of_sorted}

module _ {ℓ κ μ} {K : Type ℓ} {V : Type κ} {A : Type μ} ⦃o : Ord K⦄ (ch : Child K V A) where
  open ch use {view, Good}

  pub chain_first :
      (P : K → Type 0) (c : A) (rest : List (K × A))
      → IsChain ch P c rest
      → AllKeys P (view c) × Good c
  chain_first P c [] w = w
  chain_first P c ((j, d) ∷ rest) w = (w.0, w.1)

  pub IsBelow-chain :
      (P U : K → Type 0) (c : A) (rest : List (K × A))
      → ((x y : K) → U y → x ≼ y → U x)
      → IsChain ch P c rest
      → AllKeys U (chain_view ch c rest)
      → IsBelow ch U c rest
  unfolding concat_rest
  IsBelow-chain P U c [] down w u = AllKeys-append_left U (view c) [] u
  IsBelow-chain P U c ((j, d) ∷ rest) down w u =
      let later = AllKeys-append_right U (view c) (chain_view ch d rest) u in
      let (all, good) = chain_first (λ x. j ≼ x) d rest w.4 in
      let (m, v, xs, e, whole) = ch.least d good in
      (
        AllKeys-append_left U (view c) (chain_view ch d rest) u,
        down j m
            (least_of_all ch U d m good e
              (AllKeys-append_left U (view d) (concat_rest view rest) later))
            (least_of_all ch (λ x. j ≼ x) d m good e all),
        IsBelow-chain (λ x. j ≼ x) U d rest down w.4 later,
      )

  -- The lower bound of a chain is that of its first child.
  pub IsChain-raise :
      (P Q : K → Type 0) (c : A) (rest : List (K × A))
      → IsUp Q
      → AllKeys Q (view c)
      → IsChain ch P c rest
      → IsChain ch Q c rest
  IsChain-raise P Q c [] up q w = (q, w.1)
  IsChain-raise P Q c ((j, d) ∷ rest) up q w =
      let (m, v, xs, e, whole) = ch.least c w.1 in
      (
        q,
        w.1,
        w.2,
        up m j (least_of_all ch Q c m w.1 e q)
            (le_of_lt m j (least_of_all ch (λ x. x ≺ j) c m w.1 e w.2)),
        w.4,
      )

  -- What stands before a good child in sorted entries is below its least key.
  pub below_child :
      (xs : List (K × V)) (d : A) (m : K)
      → Good d
      → ch.min d ≡ some m
      → IsSorted (xs ++ view d)
      → AllKeys (λ x. x ≺ m) xs
  below_child xs d m g e s =
      let (k, v, ys, e', w) = ch.least d g in
      let same_key : k ≡ m = ground arith in
      subst (λ z. AllKeys (λ x. x ≺ z) xs) same_key
        (below_of_sorted xs k v ys (subst (λ z. IsSorted (xs ++ z)) w s))

  pub all_top : (xs : List (K × V)) → AllKeys (Top {K = K}) xs
  all_top [] = tt
  all_top (x ∷ xs) = (tt, all_top xs)

  pub chain_view-one :
      (c : A) (rest : List (K × A)) (m : K) (d : A)
      → chain_view ch c (rest ++ (m, d) ∷ []) ≡ chain_view ch c rest ++ view d
  unfolding concat_rest
  chain_view-one c rest m d =
      chain_view-append ch c rest m d [] ∙ ap (◌++◌ (chain_view ch c rest)) (append-nil (view d))

  pub join_last :
      (c : A) (rest : List (K × A)) (d : A) (m : K)
      → IsChain ch Top c rest
      → Good d
      → ch.min d ≡ some m
      → IsSorted (chain_view ch c rest ++ view d)
      → IsChain ch Top c (rest ++ (m, d) ∷ [])
  join_last c rest d m w g e s =
      IsChain-append ch Top c rest m d [] tt w
        (IsBelow-chain Top (λ x. x ≺ m) c rest (λ x y u le. le_lt_trans x y m le u) w
          (below_child (chain_view ch c rest) d m g e s))
        (least_bound ch d m g e, g)

  pub join_first :
      (c : A) (d : A) (rest : List (K × A)) (m : K)
      → Good c
      → IsChain ch Top d rest
      → ch.min d ≡ some m
      → IsSorted (view c ++ chain_view ch d rest)
      → IsChain ch Top c ((m, d) ∷ rest)
  join_first c d rest m g w e s =
      let (all, good) = chain_first Top d rest w in
      (
        all_top (view c),
        g,
        below_child (view c) d m good e (
            IsSorted-append_left (view c ++ view d) (concat_rest view rest)
              (subst IsSorted (sym (append_assoc (view c) (view d) (concat_rest view rest))) s)),
        tt,
        IsChain-raise Top (λ x. m ≼ x) d rest (λ a b. le_trans m a b) (least_bound ch d m good e) w,
      )

  -- The children of a chain, each behind its own least key.
  pub rekey_all-IsChain :
      (P Q : K → Type 0) (c : A) (rest : List (K × A))
      → IsUp Q
      → AllKeys Q (view c)
      → IsChain ch P c rest
      → (rest' : List (K × A)) × (rekey_all ch.min (map (λ e. e.1) rest) ≡ some rest')
        × IsChain ch Q c rest'
        × (concat_rest view rest' ≡ concat_rest view rest)
        × (length rest' ≡ length rest)
  unfolding rekey_all concat_rest
  rekey_all-IsChain P Q c [] up q w = ([], refl, (q, w.1), refl, refl)
  rekey_all-IsChain P Q c ((j, d) ∷ rest) up q w =
      let (all, good) = chain_first (λ x. j ≼ x) d rest w.4 in
      let (m, v, xs, e, whole) = ch.least d good in
      let (y, y_v, ys, y_e, y_whole) = ch.least c w.1 in
      let (rest', run, chained, same, len) =
        rekey_all-IsChain (λ x. j ≼ x) (λ x. m ≼ x) d rest (λ a b. le_trans m a b)
          (least_bound ch d m good e) w.4 in
      let j_m : j ≼ m = least_of_all ch (λ x. j ≼ x) d m good e all in
      let y_j : y ≺ j = least_of_all ch (λ x. x ≺ j) c y w.1 y_e w.2 in
      (
        (m, d) ∷ rest',
        rw (e, run) refl,
        (
          q,
          w.1,
          AllKeys-imp _ _ (λ x h. lt_le_trans x j m h j_m) (view c) w.2,
          up y m (least_of_all ch Q c y w.1 y_e q) (le_of_lt y m (lt_le_trans y j m y_j j_m)),
          chained,
        ),
        ap (◌++◌ (view d)) same,
        omega (arith, len),
      )
