-- ===== src/Slice.antt =====
-- src/utils.rs: the slice helpers of the tree nodes. A slice stands for its initialised prefix, so
-- `slice_insert` makes the list one longer and `slice_remove` one shorter.
pub mod Search
pub mod Laws
use concread.Ord.{Ord}
use concread.Prelude.{ℕ, zero, suc, ◌+◌, List, [], ◌∷◌, map, Option, none, some}
use Prim.Native.Nat.Ordering.{lt, eq, gt}

-- `Result<usize, usize>` of the search: where the key is, or where it would go.
pub data Found : Type 0 where
  ok : ℕ → Found
  err : ℕ → Found

module _ {ℓ} {A : Type ℓ} where
  -- An index beyond the end is outside the slice; the callers rule it out.
  unfoldable pub slice_insert : List A → A → ℕ → List A
  slice_insert xs new zero = new ∷ xs
  slice_insert [] new (suc idx) = new ∷ []
  slice_insert (x ∷ xs) new (suc idx) = x ∷ slice_insert xs new idx

  -- The element read out, and the slice with the rest moved down.
  unfoldable pub slice_remove : List A → ℕ → Option (A × List A)
  slice_remove [] idx = none
  slice_remove (x ∷ xs) zero = some (x, xs)
  slice_remove (x ∷ xs) (suc idx) = elim (slice_remove xs idx) [
    | none ↦ none
    | some (y, rest) ↦ some (y, x ∷ rest)
  ]

  -- A write through an element's pointer.
  unfoldable pub set : List A → ℕ → A → List A
  set [] idx v = []
  set (x ∷ xs) zero v = v ∷ xs
  set (x ∷ xs) (suc idx) v = x ∷ set xs idx v

module _ {ℓ} {K : Type ℓ} ⦃o : Ord K⦄ where
  -- The loop of `slice_search_linear`; `idx` is the counter of `enumerate`.
  unfoldable pub search_from : ℕ → List K → K → Found
  search_from idx [] k = err idx
  search_from idx (nk ∷ rest) k = elim (o.cmp k nk) [
    | gt ↦ search_from (idx + 1) rest k
    | eq ↦ ok idx
    | lt ↦ err idx
  ]

  unfoldable pub slice_search_linear : List K → K → Found
  unfolding search_from
  slice_search_linear slice k = search_from 0 slice k

module _ {ℓ κ} {K : Type ℓ} {A : Type κ} where
  -- The key array of a node whose keys are kept beside what they stand for.
  abbrev pub keys : List (K × A) → List K
  keys xs = map (λ e. e.0) xs

module _ {ℓ κ} {K : Type ℓ} {A : Type κ} ⦃o : Ord K⦄ where
  -- the macro `key_search!`
  unfoldable pub key_search : List (K × A) → K → Found
  unfolding slice_search_linear
  key_search xs k = slice_search_linear (keys xs) k
