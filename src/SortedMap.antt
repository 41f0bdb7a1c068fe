-- ===== src/SortedMap.antt =====
-- The abstract map: a list of entries in strictly increasing key order, with the three operations
-- that the trees promise to implement.
pub mod Laws
pub mod Middle
pub mod Update
use concread.Ord.{Ord, ◌≺◌}
use concread.Prelude.{List, [], ◌∷◌, Option, none, some}
use Prim.Native.Nat.Ordering.{lt, eq, gt}

module _ {ℓ κ} {K : Type ℓ} {V : Type κ} where
  -- every key of the entries satisfies `P`
  abbrev pub AllKeys {μ} : (K → Type μ) → List (K × V) → Type μ
  AllKeys P [] = Unit
  AllKeys P ((k, v) ∷ xs) = P k × AllKeys P xs

module _ {ℓ κ} {K : Type ℓ} {V : Type κ} ⦃o : Ord K⦄ where
  abbrev pub IsSorted : List (K × V) → Type 0
  IsSorted [] = Unit
  IsSorted ((k, v) ∷ xs) = AllKeys (λ x. k ≺ x) xs × IsSorted xs

  unfoldable pub lookup : K → List (K × V) → Option V
  lookup k [] = none
  lookup k ((j, v) ∷ xs) = elim (o.cmp k j) [ lt ↦ none | eq ↦ some v | gt ↦ lookup k xs ]

  unfoldable pub insert : K → V → List (K × V) → List (K × V)
  insert k v [] = (k, v) ∷ []
  insert k v ((j, w) ∷ xs) = elim (o.cmp k j) [
    | lt ↦ (k, v) ∷ (j, w) ∷ xs
    | eq ↦ (j, v) ∷ xs
    | gt ↦ (j, w) ∷ insert k v xs
  ]

  unfoldable pub remove : K → List (K × V) → List (K × V)
  remove k [] = []
  remove k ((j, w) ∷ xs) = elim (o.cmp k j) [
    | lt ↦ (j, w) ∷ xs
    | eq ↦ xs
    | gt ↦ (j, w) ∷ remove k xs
  ]

  -- The entries of a list, inserted from left to right.
  unfoldable pub insert_all : List (K × V) → List (K × V) → List (K × V)
  unfolding insert
  insert_all [] xs = xs
  insert_all ((k, v) ∷ kvs) xs = insert_all kvs (insert k v xs)
