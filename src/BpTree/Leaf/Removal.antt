-- ===== src/BpTree/Leaf/Removal.antt =====
-- src/bptree/node.rs: `Leaf::remove` against the abstract map.
use concread.BpTree.Leaf.{Leaf, count, remove, after_remove}
use concread.BpTree.Leaf.Laws.{IsLeaf, IsFilled}
use concread.BpTree.States.{LeafRemoveState}
use concread.Ord.{Ord}
use concread.Prelude.{
  ℕ, suc, ◌+◌, ◌≤◌, List, [], ◌∷◌, ◌++◌, ◌≡◌, refl, sym, ap, ◌∙◌, subst, some, none, arith, length,
  length-append, Ensures, ◌==◌, true, false,
}
use concread.Slice.Laws.{slice_remove_at}
use concread.Slice.Search.{Located, hit, miss, key_search-Located}
use concread.Slice.{key_search, slice_remove, ok, err}
use concread.SortedMap
use concread.SortedMap.{IsSorted, lookup}
use concread.SortedMap.Laws.{
  lookup_between, lookup_over, remove-IsSorted, remove_over, remove_between,
}

module _ {ℓ κ} {K : Type ℓ} {V : Type κ} ⦃o : Ord K⦄ (t : ℕ) where
  -- A leaf that stays is filled; one that shrinks is empty. Either way it holds what the abstract
  -- remove leaves, and the result is what was stored under the key.
  abbrev pub Removed : Leaf K V → K → Leaf K V × LeafRemoveState V → Type (ℓ ⊔ κ)
  Removed l k (l', LeafRemoveState.done res) =
      IsFilled t l' × (l'.entries ≡ SortedMap.remove k l.entries) × (res ≡ lookup k l.entries)
  Removed l k (l', LeafRemoveState.shrink res) =
      (l'.entries ≡ []) × (l'.entries ≡ SortedMap.remove k l.entries) × (res ≡ lookup k l.entries)

  settled :
      (l : Leaf K V) (k : K) (v : V) (rest : List (K × V))
      → IsLeaf t l
      → rest ≡ SortedMap.remove k l.entries
      → lookup k l.entries ≡ some v
      → length rest ≤ length l.entries
      → Removed l k (record l { entries = rest }, after_remove rest v)
  settled l k v [] w e found le = (refl, e, sym found)
  settled l k v (x ∷ xs) w e found le = (
    record {
      leaf = record {
        sorted = subst IsSorted (sym e) (remove-IsSorted k l.entries w.sorted);
        bounded = omega (arith, le, w.bounded);
        dated = w.dated;
      };
      filled = omega arith;
    },
    e,
    sym found,
  )

  absent :
      (l : Leaf K V) (k : K)
      → IsLeaf t l
      → SortedMap.remove k l.entries ≡ l.entries
      → lookup k l.entries ≡ none
      → (idx : ℕ) → key_search l.entries k ≡ err idx
      → Ensures (Removed l k) (remove l k)
  unfolding remove
  absent l k w same lost idx e = go l.entries refl
    where
      go : (es : List (K × V)) → l.entries ≡ es → Ensures (Removed l k) (remove l k)
      go [] p =
          let empty : (count l == 0) ≡ true = ground (arith, ap length p) in
          rw (empty) (p, sym same, sym lost)
      go (x ∷ xs) p =
          let size : length l.entries ≡ suc (length xs) = ap length p in
          let some_left : (count l == 0) ≡ false = ground (arith, size) in
          rw (some_left, remove, e)
            (record { leaf = w; filled = omega (arith, size) }, sym same, sym lost)

  -- A remove from a valid leaf never panics: the leaf holds what the abstract remove leaves, it asks
  -- to be shrunk exactly if that is nothing, and the result is what was stored under the key.
  pub remove-Removed : (l : Leaf K V) (k : K) → IsLeaf t l → Ensures (Removed l k) (remove l k)
  unfolding remove
  remove-Removed l k w = go (key_search-Located k l.entries w.sorted)
    where
      go : Located k l.entries 0 (key_search l.entries k) → Ensures (Removed l k) (remove l k)
      go (hit pre post x e p lo hi) =
          let found : key_search l.entries k ≡ ok (length pre) = p ∙ ap ok (omega arith) in
          let size : length l.entries ≡ suc (length (pre ++ post)) =
            omega (arith, ap length e, length-append pre ((k, x) ∷ post), length-append pre post) in
          let some_left : (count l == 0) ≡ false = ground (arith, size) in
          let out : slice_remove l.entries (length pre) ≡ some ((k, x), pre ++ post) =
            ap (λ z. slice_remove z (length pre)) e ∙ slice_remove_at pre post (k, x) in
          rw (some_left, remove, found, out)
            (settled l k x (pre ++ post) w
              (sym (ap (SortedMap.remove k) e ∙ remove_over k x pre post lo))
              (ap (lookup k) e ∙ lookup_over k x pre post lo) (omega (arith, size)))
      go (miss pre post e p lo hi) =
          absent l k w (ap (SortedMap.remove k) e ∙ remove_between k pre post lo hi ∙ sym e)
            (ap (lookup k) e ∙ lookup_between k pre post lo hi) (0 + length pre) p
