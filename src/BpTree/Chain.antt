-- ===== src/BpTree/Chain.antt =====
-- The children of a branch as a chain: a first child and the others, each behind its separator.
-- What the lemmas need of a child is the interface `Child`; the nodes of each height fill it.
pub mod Order
pub mod Focus
pub mod Cut
pub mod Pair
pub mod Join
pub mod Remove
pub mod Update
pub mod Insert
pub mod Grow
pub mod Dates
use concread.BpTree.Node.{concat_rest}
use concread.Ord.{Ord, ◌≺◌, ◌≼◌}
use concread.Prelude.{List, [], ◌∷◌, ◌++◌, ◌≡◌, Option, some}
use concread.SortedMap.{AllKeys, IsSorted}

-- `Good` is what the tree promises of a child: ordered, within capacity and not empty.
pub record Child {ℓ κ μ} (K : Type ℓ) (V : Type κ) (A : Type μ) ⦃o : Ord K⦄
    : Type (ℓ ⊔ κ ⊔ μ ⊔ 1) where
  pub view : A → List (K × V)
  pub min : A → Option K
  pub Good : A → Type 0
  pub sorted : (c : A) → Good c → IsSorted (view c)
  pub least :
      (c : A)
      → Good c
      → (k : K) × (v : V) × (xs : List (K × V)) × (min c ≡ some k) × (view c ≡ (k, v) ∷ xs)

module _ {ℓ κ μ} {K : Type ℓ} {V : Type κ} {A : Type μ} ⦃o : Ord K⦄ (ch : Child K V A) where
  open ch use {view, Good}

  -- the entries of the chain, in order
  abbrev pub chain_view : A → List (K × A) → List (K × V)
  chain_view c rest = view c ++ concat_rest view rest

  -- Each child is good and lies at or above its separator and below the next one; `P` is the
  -- lower bound of the first child.
  abbrev pub IsChain : (K → Type 0) → A → List (K × A) → Type 0
  IsChain P c [] = AllKeys P (view c) × Good c
  IsChain P c ((j, d) ∷ rest) =
      AllKeys P (view c)
      × Good c
      × AllKeys (λ x. x ≺ j) (view c)
      × P j
      × IsChain (λ x. j ≼ x) d rest
