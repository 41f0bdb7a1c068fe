-- ===== src/SortedMap/Laws.antt =====
-- Laws of the abstract map: order is kept, reads after writes, and the operations act on the part
-- of a concatenation where the key belongs.
use concread.Ord.{Ord, ◌≺◌, ◌≼◌, lt_le_trans}
use concread.Prelude.{List, [], ◌∷◌, ◌++◌, ◌≡◌, ◌≢◌, refl, none, some, arith}
use concread.SortedMap.{AllKeys, IsSorted, lookup, insert, remove}

module _ {ℓ κ} {K : Type ℓ} {V : Type κ} where
  pub AllKeys-append {μ} :
      (P : K → Type μ) (xs ys : List (K × V)) → AllKeys P xs → AllKeys P ys → AllKeys P (xs ++ ys)
  AllKeys-append P [] ys hx hy = hy
  AllKeys-append P ((k, v) ∷ xs) ys hx hy = (hx.0, AllKeys-append P xs ys hx.1 hy)

  pub AllKeys-append_left {μ} :
      (P : K → Type μ) (xs ys : List (K × V)) → AllKeys P (xs ++ ys) → AllKeys P xs
  AllKeys-append_left P [] ys h = tt
  AllKeys-append_left P ((k, v) ∷ xs) ys h = (h.0, AllKeys-append_left P xs ys h.1)

  pub AllKeys-append_right {μ} :
      (P : K → Type μ) (xs ys : List (K × V)) → AllKeys P (xs ++ ys) → AllKeys P ys
  AllKeys-append_right P [] ys h = h
  AllKeys-append_right P ((k, v) ∷ xs) ys h = AllKeys-append_right P xs ys h.1

  pub AllKeys-imp {μ ν} :
      (P : K → Type μ) (Q : K → Type ν)
      → ((k : K) → P k → Q k)
      → (xs : List (K × V)) → AllKeys P xs
      → AllKeys Q xs
  AllKeys-imp P Q f [] h = tt
  AllKeys-imp P Q f ((k, v) ∷ xs) h = (f k h.0, AllKeys-imp P Q f xs h.1)

module _ {ℓ κ} {K : Type ℓ} {V : Type κ} ⦃o : Ord K⦄ where
  pub AllKeys-insert {μ} :
      (P : K → Type μ) (k : K) (v : V) (xs : List (K × V))
      → P k
      → AllKeys P xs
      → AllKeys P (insert k v xs)
  unfolding insert
  AllKeys-insert P k v [] p h = (p, tt)
  AllKeys-insert P k v ((j, w) ∷ xs) p h = ground (arith, AllKeys-insert P k v xs)

  pub AllKeys-remove {μ} :
      (P : K → Type μ) (k : K) (xs : List (K × V)) → AllKeys P xs → AllKeys P (remove k xs)
  unfolding remove
  AllKeys-remove P k [] h = tt
  AllKeys-remove P k ((j, w) ∷ xs) h = ground (arith, AllKeys-remove P k xs)

  pub AllKeys-lower :
      (k j : K) (xs : List (K × V)) → k ≺ j → AllKeys (λ x. j ≺ x) xs → AllKeys (λ x. k ≺ x) xs
  AllKeys-lower k j xs h = AllKeys-imp _ _ (λ x. o.lt_trans k j x h) xs

  pub insert-IsSorted : (k : K) (v : V) (xs : List (K × V)) → IsSorted xs → IsSorted (insert k v xs)
  unfolding insert
  insert-IsSorted k v [] h = (tt, tt)
  insert-IsSorted k v ((j, w) ∷ xs) h = ground (
    arith,
    insert-IsSorted k v xs,
    AllKeys-insert (λ x. j ≺ x) k v xs,
    AllKeys-lower k j xs,
    o.lt_of_gt k j,
    o.eq_of_cmp k j,
  )

  pub remove-IsSorted : (k : K) (xs : List (K × V)) → IsSorted xs → IsSorted (remove k xs)
  unfolding remove
  remove-IsSorted k [] h = tt
  remove-IsSorted k ((j, w) ∷ xs) h =
      ground (arith, remove-IsSorted k xs, AllKeys-remove (λ x. j ≺ x) k xs)

  -- The left part is skipped where all its keys are smaller.
  pub lookup_skip :
      (k : K) (xs ys : List (K × V)) → AllKeys (λ x. x ≺ k) xs → lookup k (xs ++ ys) ≡ lookup k ys
  unfolding lookup
  lookup_skip k [] ys h = refl
  lookup_skip k ((j, w) ∷ xs) ys h = ground (arith, o.gt_of_lt j k, lookup_skip k xs ys)

  pub lookup_above : (k : K) (ys : List (K × V)) → AllKeys (λ x. k ≺ x) ys → lookup k ys ≡ none
  unfolding lookup
  lookup_above k [] h = refl
  lookup_above k ((j, w) ∷ ys) h = ground arith

  -- The right part is not reached where all its keys are greater.
  pub lookup_stop :
      (k : K) (xs ys : List (K × V)) → AllKeys (λ x. k ≺ x) ys → lookup k (xs ++ ys) ≡ lookup k xs
  unfolding lookup
  lookup_stop k [] ys h = lookup_above k ys h
  lookup_stop k ((j, w) ∷ xs) ys h = ground (arith, lookup_stop k xs ys)

  pub insert_skip :
      (k : K) (v : V) (xs ys : List (K × V))
      → AllKeys (λ x. x ≺ k) xs
      → insert k v (xs ++ ys) ≡ xs ++ insert k v ys
  unfolding insert
  insert_skip k v [] ys h = refl
  insert_skip k v ((j, w) ∷ xs) ys h = ground (arith, o.gt_of_lt j k, insert_skip k v xs ys)

  pub insert_above :
      (k : K) (v : V) (ys : List (K × V)) → AllKeys (λ x. k ≺ x) ys → insert k v ys ≡ (k, v) ∷ ys
  unfolding insert
  insert_above k v [] h = refl
  insert_above k v ((j, w) ∷ ys) h = ground arith

  pub insert_stop :
      (k : K) (v : V) (xs ys : List (K × V))
      → AllKeys (λ x. k ≺ x) ys
      → insert k v (xs ++ ys) ≡ insert k v xs ++ ys
  unfolding insert
  insert_stop k v [] ys h = insert_above k v ys h
  insert_stop k v ((j, w) ∷ xs) ys h = ground (arith, insert_stop k v xs ys)

  pub remove_skip :
      (k : K) (xs ys : List (K × V))
      → AllKeys (λ x. x ≺ k) xs
      → remove k (xs ++ ys) ≡ xs ++ remove k ys
  unfolding remove
  remove_skip k [] ys h = refl
  remove_skip k ((j, w) ∷ xs) ys h = ground (arith, o.gt_of_lt j k, remove_skip k xs ys)

  pub remove_above : (k : K) (ys : List (K × V)) → AllKeys (λ x. k ≺ x) ys → remove k ys ≡ ys
  unfolding remove
  remove_above k [] h = refl
  remove_above k ((j, w) ∷ ys) h = ground arith

  pub remove_stop :
      (k : K) (xs ys : List (K × V))
      → AllKeys (λ x. k ≺ x) ys
      → remove k (xs ++ ys) ≡ remove k xs ++ ys
  unfolding remove
  remove_stop k [] ys h = remove_above k ys h
  remove_stop k ((j, w) ∷ xs) ys h = ground (arith, remove_stop k xs ys)

  -- An insert changes the read at its key and no other.
  pub lookup-insert_self : (k : K) (v : V) (xs : List (K × V)) → lookup k (insert k v xs) ≡ some v
  unfolding lookup insert
  lookup-insert_self k v [] = ground (arith, o.cmp_refl k)
  lookup-insert_self k v ((j, w) ∷ xs) = ground (arith, o.cmp_refl k, lookup-insert_self k v xs)

  pub lookup-insert_ne :
      (k q : K) (v : V) (xs : List (K × V))
      → q ≢ k
      → IsSorted xs
      → lookup q (insert k v xs) ≡ lookup q xs
  unfolding lookup insert
  lookup-insert_ne k q v [] ne h = ground (arith, o.eq_of_cmp q k)
  lookup-insert_ne k q v ((j, w) ∷ xs) ne h = ground (
    arith,
    o.eq_of_cmp q k,
    o.eq_of_cmp q j,
    o.eq_of_cmp k j,
    o.lt_trans q k j,
    o.lt_of_gt q k,
    lookup-insert_ne k q v xs ne,
  )

  pub lookup-remove_self : (k : K) (xs : List (K × V)) → IsSorted xs → lookup k (remove k xs) ≡ none
  unfolding lookup remove
  lookup-remove_self k [] h = refl
  lookup-remove_self k ((j, w) ∷ xs) h =
      ground (arith, o.eq_of_cmp k j, lookup_above k xs, lookup-remove_self k xs)

  pub lookup-remove_ne :
      (k q : K) (xs : List (K × V)) → q ≢ k → IsSorted xs → lookup q (remove k xs) ≡ lookup q xs
  unfolding lookup remove
  lookup-remove_ne k q [] ne h = refl
  lookup-remove_ne k q ((j, w) ∷ xs) ne h = ground (
    arith,
    o.eq_of_cmp k j,
    o.eq_of_cmp q j,
    lookup_above q xs,
    AllKeys-lower q j xs,
    lookup-remove_ne k q xs ne,
  )

  -- The two sides of a sorted concatenation, and back.
  pub IsSorted-append :
      (k : K) (xs ys : List (K × V))
      → IsSorted xs
      → IsSorted ys
      → AllKeys (λ x. x ≺ k) xs
      → AllKeys (λ x. k ≼ x) ys
      → IsSorted (xs ++ ys)
  IsSorted-append k [] ys hx hy lo hi = hy
  IsSorted-append k ((j, w) ∷ xs) ys hx hy lo hi = (
    AllKeys-append (λ x. j ≺ x) xs ys hx.0 (AllKeys-imp _ _ (λ x. lt_le_trans j k x lo.0) ys hi),
    IsSorted-append k xs ys hx.1 hy lo.1 hi,
  )

  pub IsSorted-append_left : (xs ys : List (K × V)) → IsSorted (xs ++ ys) → IsSorted xs
  IsSorted-append_left [] ys h = tt
  IsSorted-append_left ((j, w) ∷ xs) ys h =
      (AllKeys-append_left _ xs ys h.0, IsSorted-append_left xs ys h.1)

  pub IsSorted-append_right : (xs ys : List (K × V)) → IsSorted (xs ++ ys) → IsSorted ys
  IsSorted-append_right [] ys h = h
  IsSorted-append_right ((j, w) ∷ xs) ys h = IsSorted-append_right xs ys h.1

  -- The operations at the place that a search found.
  pub insert_between :
      (k : K) (v : V) (pre post : List (K × V))
      → AllKeys (λ x. x ≺ k) pre
      → AllKeys (λ x. k ≺ x) post
      → insert k v (pre ++ post) ≡ pre ++ (k, v) ∷ post
  insert_between k v pre post lo hi = rw (insert_skip k v pre post lo, insert_above k v post hi)

  pub lookup_between :
      (k : K) (pre post : List (K × V))
      → AllKeys (λ x. x ≺ k) pre
      → AllKeys (λ x. k ≺ x) post
      → lookup k (pre ++ post) ≡ none
  lookup_between k pre post lo hi = rw (lookup_skip k pre post lo) (lookup_above k post hi)

  pub insert_over :
      (k : K) (v x : V) (pre post : List (K × V))
      → AllKeys (λ x. x ≺ k) pre
      → insert k v (pre ++ (k, x) ∷ post) ≡ pre ++ (k, v) ∷ post
  unfolding insert
  insert_over k v x pre post lo =
      rw (insert_skip k v pre ((k, x) ∷ post) lo) (rw (o.cmp_refl k, insert))

  pub lookup_over :
      (k : K) (x : V) (pre post : List (K × V))
      → AllKeys (λ x. x ≺ k) pre
      → lookup k (pre ++ (k, x) ∷ post) ≡ some x
  unfolding lookup
  lookup_over k x pre post lo =
      rw (lookup_skip k pre ((k, x) ∷ post) lo) (rw (o.cmp_refl k, lookup))

  pub remove_over :
      (k : K) (x : V) (pre post : List (K × V))
      → AllKeys (λ x. x ≺ k) pre
      → remove k (pre ++ (k, x) ∷ post) ≡ pre ++ post
  unfolding remove
  remove_over k x pre post lo =
      rw (remove_skip k pre ((k, x) ∷ post) lo) (rw (o.cmp_refl k, remove))

  pub remove_between :
      (k : K) (pre post : List (K × V))
      → AllKeys (λ x. x ≺ k) pre
      → AllKeys (λ x. k ≺ x) post
      → remove k (pre ++ post) ≡ pre ++ post
  remove_between k pre post lo hi = rw (remove_skip k pre post lo, remove_above k post hi)
