-- ===== src/BpTree/Branch/Search.antt =====
-- `locate_node` without the index arithmetic, and the index operations of the source as the one
-- operation `splice`.
use concread.BpTree.Branch.{Branch, node_at, splice, locate_node}
use concread.Ord.{Ord}
use concread.Prelude.{ℕ, zero, suc, ◌+◌, ◌≤◌, List, [], ◌∷◌, ◌≡◌, refl, arith, length, some}
use concread.Slice.{Found, ok, err, search_from, keys, key_search, slice_insert}
use Prim.Native.Nat.Ordering.{lt, eq, gt}

abbrev child_index : Found → ℕ
child_index (ok idx) = idx + 1
child_index (err idx) = idx

module _ {ℓ κ} {K : Type ℓ} {A : Type κ} ⦃o : Ord K⦄ where
  unfoldable pub locate_rest : List (K × A) → K → ℕ
  locate_rest [] k = 0
  locate_rest ((j, d) ∷ rest) k = elim (o.cmp k j) [
    | lt ↦ 0
    | eq ↦ 1
    | gt ↦ suc (locate_rest rest k)
  ]

  child_index-search :
      (i : ℕ) (rest : List (K × A)) (k : K)
      → child_index (search_from i (keys rest) k) ≡ i + locate_rest rest k
  unfolding search_from locate_rest
  child_index-search i [] k = omega arith
  child_index-search i ((j, d) ∷ rest) k = ground (arith, child_index-search (i + 1) rest k)

  pub key_search-search_from :
      (rest : List (K × A)) (k : K) → key_search rest k ≡ search_from 0 (keys rest) k
  unfolding key_search
  key_search-search_from rest k = refl

  locate_node-child_index :
      (b : Branch K A) (k : K) → locate_node b k ≡ child_index (key_search b.rest k)
  unfolding locate_node
  locate_node-child_index b k = ground arith

  pub locate_node-locate_rest : (b : Branch K A) (k : K) → locate_node b k ≡ locate_rest b.rest k
  locate_node-locate_rest b k =
      rw
        (
          locate_node-child_index b k,
          key_search-search_from b.rest k,
          child_index-search 0 b.rest k,
        )
        (omega arith)

module _ {ℓ κ} {K : Type ℓ} {A : Type κ} where
  pub node_at-splice :
      (c : A) (rest : List (K × A)) (idx : ℕ) (l : A)
      → idx ≤ length rest
      → node_at (splice c rest idx l []).0 (splice c rest idx l []).1 idx ≡ some l
  unfolding node_at splice
  node_at-splice c rest zero l h = refl
  node_at-splice c [] (suc idx) l h = absurd (omega arith)
  node_at-splice c ((j, d) ∷ rest) (suc idx) l h = node_at-splice d rest idx l (omega arith)

  -- What follows the replaced child does not show in the first child.
  pub first-splice :
      (c : A) (rest : List (K × A)) (idx : ℕ) (l : A) (s t : List (K × A))
      → (splice c rest idx l s).0 ≡ (splice c rest idx l t).0
  unfolding splice
  first-splice c rest zero l s t = refl
  first-splice c [] (suc idx) l s t = refl
  first-splice c ((j, d) ∷ rest) (suc idx) l s t = refl

  -- `slice_insert` of a child with its key puts it behind the child at that index.
  pub slice_insert-splice :
      (c : A) (rest : List (K × A)) (idx : ℕ) (l : A) (e : K × A)
      → idx ≤ length rest
      → slice_insert (splice c rest idx l []).1 e idx ≡ (splice c rest idx l (e ∷ [])).1
  unfolding slice_insert splice
  slice_insert-splice c rest zero l e h = refl
  slice_insert-splice c [] (suc idx) l e h = absurd (omega arith)
  slice_insert-splice c ((j, d) ∷ rest) (suc idx) l e h = ground (
    arith,
    slice_insert-splice d rest idx l e (omega arith),
    first-splice d rest idx l [] (e ∷ []),
  )

  -- The last of two replacements at one index counts.
  pub splice-splice :
      (c : A) (rest : List (K × A)) (idx : ℕ) (n l : A) (seg : List (K × A))
      → splice (splice c rest idx n []).0 (splice c rest idx n []).1 idx l seg
        ≡ splice c rest idx l seg
  unfolding splice
  splice-splice c rest zero n l seg = refl
  splice-splice c [] (suc idx) n l seg = refl
  splice-splice c ((j, d) ∷ rest) (suc idx) n l seg = rw (splice-splice d rest idx n l seg)
