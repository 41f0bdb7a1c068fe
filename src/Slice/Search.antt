-- ===== src/Slice/Search.antt =====
-- What the linear search finds in keyed elements that are sorted: the part below the key, the hit
-- if there is one, and the part above it.
use concread.Ord.{Ord, ◌≺◌}
use concread.Prelude.{ℕ, ◌+◌, List, [], ◌∷◌, ◌++◌, ◌≡◌, refl, arith, length, ap, sym, ◌∙◌}
use concread.Slice.{Found, ok, err, search_from, slice_search_linear, keys, key_search}
use concread.SortedMap.{AllKeys, IsSorted}
use concread.SortedMap.Laws.{AllKeys-lower}
use Prim.Native.Nat.{Ordering}
use Prim.Native.Nat.Ordering.{lt, eq, gt}

module _ {ℓ κ} {K : Type ℓ} {A : Type κ} ⦃o : Ord K⦄ where
  pub data Located (k : K) (xs : List (K × A)) (i : ℕ) (f : Found) : Type (ℓ ⊔ κ) where
    hit :
        (pre post : List (K × A)) (x : A)
        → xs ≡ pre ++ (k, x) ∷ post
        → f ≡ ok (i + length pre)
        → AllKeys (λ j. j ≺ k) pre
        → AllKeys (λ j. k ≺ j) post
        → Located k xs i f
    miss :
        (pre post : List (K × A))
        → xs ≡ pre ++ post
        → f ≡ err (i + length pre)
        → AllKeys (λ j. j ≺ k) pre
        → AllKeys (λ j. k ≺ j) post
        → Located k xs i f

  Located-cons :
      (k j : K) (x : A) (xs : List (K × A)) (i : ℕ) (f : Found)
      → j ≺ k
      → Located k xs (i + 1) f
      → Located k ((j, x) ∷ xs) i f
  Located-cons k j x xs i f h (hit pre post y e p lo hi) =
      hit ((j, x) ∷ pre) post y (ap (◌∷◌ (j, x)) e) (p ∙ ap ok (omega arith)) (h, lo) hi
  Located-cons k j x xs i f h (miss pre post e p lo hi) =
      miss ((j, x) ∷ pre) post (ap (◌∷◌ (j, x)) e) (p ∙ ap err (omega arith)) (h, lo) hi

  pub search_from-Located :
      (i : ℕ) (k : K) (xs : List (K × A)) → IsSorted xs → Located k xs i (search_from i (keys xs) k)
  unfolding search_from
  search_from-Located i k [] s = miss [] [] refl (ap err (omega arith)) tt tt
  search_from-Located i k ((j, x) ∷ xs) s =
      go (o.cmp k j) refl (search_from-Located (i + 1) k xs s.1)
    where
      go :
          (c : Ordering)
          → o.cmp k j ≡ c
          → Located k xs (i + 1) (search_from (i + 1) (keys xs) k)
          → Located k ((j, x) ∷ xs) i (search_from i (keys ((j, x) ∷ xs)) k)
      go lt e r =
          rw (e, search_from)
            (miss [] ((j, x) ∷ xs) refl (ap err (omega arith)) tt (e, AllKeys-lower k j xs e s.0))
      go eq e r =
          let same : k ≡ j = o.eq_of_cmp k j e in
          rw (e, search_from)
            (hit [] xs x (ap (λ q. (q, x) ∷ xs) (sym same)) (ap ok (omega arith)) tt (rw same s.0))
      go gt e r = rw (e, search_from) (Located-cons k j x xs i _ (o.lt_of_gt k j e) r)

  -- A search in sorted elements finds the position of the key, or the one where it would keep them
  -- sorted: all that stands before is smaller, all that stands behind is greater.
  pub key_search-Located :
      (k : K) (xs : List (K × A)) → IsSorted xs → Located k xs 0 (key_search xs k)
  unfolding key_search slice_search_linear
  key_search-Located k xs s = search_from-Located 0 k xs s
