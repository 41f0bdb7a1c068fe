-- ===== src/BpTree/Chain/Order.antt =====
-- The entries of a chain are sorted and respect its lower bound.
use concread.BpTree.Chain.{Child, chain_view, IsChain}
use concread.BpTree.Node.{concat_rest}
use concread.Ord.{Ord, ◌≺◌, ◌≼◌, le_trans, le_lt_trans}
use concread.Prelude.{List, [], ◌∷◌, append-nil}
use concread.SortedMap.{AllKeys, IsSorted}
use concread.SortedMap.Laws.{AllKeys-append, AllKeys-imp, IsSorted-append}

-- Bounds from below.
abbrev pub IsUp {ℓ} : {K : Type ℓ} ⦃o : Ord K⦄ → (K → Type 0) → Type ℓ
IsUp {K} P = (a b : K) → P a → a ≼ b → P b

module _ {ℓ κ μ} {K : Type ℓ} {V : Type κ} {A : Type μ} ⦃o : Ord K⦄ (ch : Child K V A) where
  open ch use {view, Good}

  pub AllKeys-chain :
      (P : K → Type 0) (c : A) (rest : List (K × A))
      → IsUp P
      → IsChain ch P c rest
      → AllKeys P (chain_view ch c rest)
  unfolding concat_rest
  AllKeys-chain P c [] up h = AllKeys-append P (view c) [] h.0 tt
  AllKeys-chain P c ((j, d) ∷ rest) up h = AllKeys-append P (view c) _ h.0 (
      AllKeys-imp _ P (λ x. up j x h.3) _
        (AllKeys-chain (λ x. j ≼ x) d rest (λ a b. le_trans j a b) h.4))

  -- the tail of a chain, at or above its separator
  pub AllKeys-tail :
      (j : K) (d : A) (rest : List (K × A))
      → IsChain ch (λ x. j ≼ x) d rest
      → AllKeys (λ x. j ≼ x) (chain_view ch d rest)
  AllKeys-tail j d rest h = AllKeys-chain _ d rest (λ a b. le_trans j a b) h

  pub IsSorted-chain :
      (P : K → Type 0) (c : A) (rest : List (K × A))
      → IsChain ch P c rest
      → IsSorted (chain_view ch c rest)
  unfolding concat_rest
  IsSorted-chain P c [] h = rw (append-nil (view c)) (ch.sorted c h.1)
  IsSorted-chain P c ((j, d) ∷ rest) h =
      IsSorted-append j (view c) _ (ch.sorted c h.1) (IsSorted-chain (λ x. j ≼ x) d rest h.4) h.2
        (AllKeys-tail j d rest h.4)

  -- A good child between two separators keeps them apart.
  pub separators_lt :
      (i j : K) (c : A)
      → Good c
      → AllKeys (λ x. i ≼ x) (view c)
      → AllKeys (λ x. x ≺ j) (view c)
      → i ≺ j
  separators_lt i j c g lo hi =
      let (k, v, xs, e, w) = ch.least c g in
      let lo' : AllKeys (λ x. i ≼ x) ((k, v) ∷ xs) = rw w at lo in
      let hi' : AllKeys (λ x. x ≺ j) ((k, v) ∷ xs) = rw w at hi in le_lt_trans i k j lo'.0 hi'.0
