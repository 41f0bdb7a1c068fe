-- ===== src/Assoc.antt =====
-- Maps by their entries in the order of insertion, over keys with the bounds `Hash + Eq`.
pub mod Laws
use concread.Prelude.{
  ℕ, List, [], ◌∷◌, Bool, true, false, Option, none, some, ◌≡◌, if◌then◌else◌, ◌==◌, arith,
}

pub record HashEq {ℓ} (K : Type ℓ) : Type ℓ where
  -- `self == other`
  pub eqb : K → K → Bool
  -- the hash of a key, which is 64 bits wide
  pub hash : K → ℕ
  -- equality is reflexive, and equal keys are the same
  pub eqb_refl : (k : K) → eqb k k ≡ true
  pub eq_of_eqb : (k q : K) → eqb k q ≡ true → k ≡ q

pub nat_eqb_refl : (n : ℕ) → (n == n) ≡ true
nat_eqb_refl n = ground arith

pub nat_eq_of_eqb : (n m : ℕ) → (n == m) ≡ true → n ≡ m
nat_eq_of_eqb n m e = ground arith

instance abbrev pub nat_hash : HashEq ℕ
nat_hash = record { eqb = ◌==◌; hash = λ n. n; eqb_refl = nat_eqb_refl; eq_of_eqb = nat_eq_of_eqb }

module _ {ℓ κ} {K : Type ℓ} {A : Type κ} ⦃h : HashEq K⦄ where
  unfoldable pub lookup : K → List (K × A) → Option A
  lookup k [] = none
  lookup k ((q, a) ∷ m) = let rest = lookup k m in if h.eqb k q then some a else rest

  -- A new key comes last; a key that is there keeps its place.
  unfoldable pub put : K → A → List (K × A) → List (K × A)
  put k a [] = (k, a) ∷ []
  put k a ((q, b) ∷ m) = let rest = put k a m in if h.eqb k q then (q, a) ∷ m else (q, b) ∷ rest

  -- The keys of a bucket.
  unfoldable pub slot : ℕ → List (K × A) → List K
  slot i [] = []
  slot i ((q, a) ∷ m) = let rest = slot i m in if h.hash q == i then q ∷ rest else rest
