-- ===== src/Assoc/Laws.antt =====
-- What a lookup finds after a put, and in a bucket.
use concread.Assoc.{HashEq, lookup, put, slot}
use concread.Prelude.{
  ℕ, List, [], ◌∷◌, true, false, some, ◌≡◌, refl, sym, ap, subst, if◌then◌else◌, ◌==◌, Bool-cases,
  inl, inr, All, is_some, All-imp,
}

module _ {ℓ} {K : Type ℓ} ⦃h : HashEq K⦄ where
  pub eqb_sym : (k q : K) → h.eqb k q ≡ false → h.eqb q k ≡ false
  eqb_sym k q e = elim (Bool-cases (h.eqb q k)) [
    | inl t ↦
        let same = h.eq_of_eqb q k t in
        let r : h.eqb k q ≡ true = subst (λ z. h.eqb k z ≡ true) (sym same) (h.eqb_refl k) in cc
    | inr f ↦ f
  ]

module _ {ℓ κ} {K : Type ℓ} {A : Type κ} ⦃h : HashEq K⦄ where
  pub lookup-put_self : (k : K) (a : A) (m : List (K × A)) → lookup k (put k a m) ≡ some a
  unfolding lookup put
  lookup-put_self k a [] = rw (h.eqb_refl k) refl
  lookup-put_self k a ((q, b) ∷ m) = elim (Bool-cases (h.eqb k q)) [
    | inl e ↦ rw (e, e) refl
    | inr e ↦ rw (e, e) (lookup-put_self k a m)
  ]

  pub lookup-put_ne :
      (k q : K) (a : A) (m : List (K × A)) → h.eqb q k ≡ false → lookup q (put k a m) ≡ lookup q m
  unfolding lookup put
  lookup-put_ne k q a [] n = rw n refl
  lookup-put_ne k q a ((x, b) ∷ m) n = elim (Bool-cases (h.eqb k x)) [
    | inl e ↦
        let n' : h.eqb q x ≡ false = subst (λ z. h.eqb q z ≡ false) (h.eq_of_eqb k x e) n in
        rw (e, n') refl
    | inr e ↦ rw e (ap (λ r. if h.eqb q x then some b else r) (lookup-put_ne k q a m n))
  ]

  pub lookup-put :
      (k q : K) (a : A) (m : List (K × A))
      → lookup q (put k a m) ≡ (if h.eqb q k then some a else lookup q m)
  lookup-put k q a m = elim (Bool-cases (h.eqb q k)) [
    | inl e ↦ rw e (
        subst (λ z. lookup z (put k a m) ≡ some a) (sym (h.eq_of_eqb q k e))
          (lookup-put_self k a m))
    | inr e ↦ rw e (lookup-put_ne k q a m e)
  ]

  -- Every key of a bucket is in the map.
  pub slot-lookup : (i : ℕ) (m : List (K × A)) → All (λ q. is_some (lookup q m) ≡ true) (slot i m)
  unfolding lookup slot
  slot-lookup i [] = tt
  slot-lookup i ((x, b) ∷ m) =
      let below =
        All-imp (λ q. is_some (lookup q m) ≡ true)
          (λ q. is_some (if h.eqb q x then some b else lookup q m) ≡ true) (λ q e. still q e)
          (slot i m) (slot-lookup i m) in
      elim (Bool-cases (h.hash x == i)) [
        | inl e ↦ rw e (rw (h.eqb_refl x) refl, below)
        | inr e ↦ rw e below
      ]
    where
      still :
          (q : K)
          → is_some (lookup q m) ≡ true
          → is_some (if h.eqb q x then some b else lookup q m) ≡ true
      still q e = elim (Bool-cases (h.eqb q x)) [ inl t ↦ rw t refl | inr f ↦ rw f e ]
