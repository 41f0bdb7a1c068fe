-- ===== src/Slice/Laws.antt =====
-- The slice helpers at the boundary of a prefix: positions are stated by `length pre`.
use concread.Prelude.{
  ℕ, zero, suc, List, [], ◌∷◌, ◌++◌, ◌≡◌, refl, ap, arith, length, get_elem?, some,
}
use concread.Slice.{slice_insert, slice_remove, set}

module _ {ℓ} {A : Type ℓ} where
  pub slice_insert_at :
      (pre post : List A) (new : A)
      → slice_insert (pre ++ post) new (length pre) ≡ pre ++ new ∷ post
  unfolding slice_insert
  slice_insert_at [] post new = refl
  slice_insert_at (x ∷ pre) post new = ap (◌∷◌ x) (slice_insert_at pre post new)

  pub slice_remove_at :
      (pre post : List A) (x : A)
      → slice_remove (pre ++ x ∷ post) (length pre) ≡ some (x, pre ++ post)
  unfolding slice_remove
  slice_remove_at [] post x = refl
  slice_remove_at (y ∷ pre) post x = ground (arith, slice_remove_at pre post x)

  pub length-slice_insert :
      (xs : List A) (new : A) (idx : ℕ) → length (slice_insert xs new idx) ≡ suc (length xs)
  unfolding slice_insert
  length-slice_insert xs new zero = refl
  length-slice_insert [] new (suc idx) = refl
  length-slice_insert (x ∷ xs) new (suc idx) = ap suc (length-slice_insert xs new idx)

  pub get_elem?_at : (pre post : List A) (x : A) → get_elem? (pre ++ x ∷ post) (length pre) ≡ some x
  get_elem?_at [] post x = refl
  get_elem?_at (y ∷ pre) post x = get_elem?_at pre post x

  pub set_at :
      (pre post : List A) (x v : A) → set (pre ++ x ∷ post) (length pre) v ≡ pre ++ v ∷ post
  unfolding set
  set_at [] post x v = refl
  set_at (y ∷ pre) post x v = ap (◌∷◌ y) (set_at pre post x v)
