-- ===== src/Arc/Hits.antt =====
-- src/arcache/mod.rs: what hits do to the cache.
use concread.Arc.{Arc, CacheItem}
use concread.Arc.Drain.{
  hit_item, hit_key, write_hit_item, write_hit_key, some_slot, drain_hit, drain_tlocal_hits, each,
}
use concread.Arc.Effects.{IsGood, IsCalm, IsCalm-refl, IsCalm-trans, Stays-IsCalm, each-Ensures}
use concread.Arc.Items.{Stays, hit_item-Stays, write_hit_item-Stays}
use concread.Assoc.{HashEq, lookup, slot}
use concread.Assoc.Laws.{slot-lookup}
use concread.Prelude.{
  ℕ, List, [], ◌∷◌, true, false, Option, some, ◌≡◌, refl, sym, ap, ◌∙◌, ◌==◌, is_some,
  if◌then◌else◌, Bool-cases, inl, inr, arith, All, Ensures, Ensures-imp, Option-cases,
}

-- A bucket of a key that is there is not empty.
pub some_slot-Ensures {ℓ κ} :
    {K : Type ℓ} {A : Type κ} ⦃h : HashEq K⦄ (i : ℕ) (m : List (K × A)) (k : K)
    → h.hash k ≡ i
    → is_some (lookup k m) ≡ true
    → some_slot (slot i m) ≡ some (slot i m)
unfolding lookup slot
some_slot-Ensures i [] k e f = cc
some_slot-Ensures ⦃h⦄ i ((q, a) ∷ m) k e f = elim (Bool-cases (h.hash q == i)) [
  | inl g ↦ rw g refl
  | inr g ↦ elim (Bool-cases (h.eqb k q)) [
    | inl r ↦
        let same : h.hash q ≡ i = ap h.hash (sym (h.eq_of_eqb k q r)) ∙ e in
        let no : (h.hash q == i) ≡ true = ground arith in absurd cc
    | inr r ↦ rw g (some_slot-Ensures i m k e (sym (ap is_some (lookup_skip r)) ∙ f))
  ]
]
  where
    lookup_skip : h.eqb k q ≡ false → (if h.eqb k q then some a else lookup k m) ≡ lookup k m
    lookup_skip r = rw r refl

module _ {ℓ κ} {K : Type ℓ} {V : Type κ} ⦃h : HashEq K⦄ (cap : ℕ) where
  module _ (f : K → Option (CacheItem V) → Arc K V → Option (Arc K V))
      (step : (s : Arc K V) (k : K) (g : IsGood cap s) (c : CacheItem V)
        → lookup k s.cache ≡ some c
        → Ensures (Stays cap s k g.inv g.light c) (f k (some c) s)) where
    -- A hit on a key that the map has.
    hit-IsCalm :
        (s : Arc K V) (k : K)
        → IsGood cap s
        → is_some (lookup k s.cache) ≡ true
        → Ensures (IsCalm cap s) (f k (lookup k s.cache) s)
    hit-IsCalm s k g e = elim (Option-cases (lookup k s.cache)) [
      | inl n ↦ let no : is_some (lookup k s.cache) ≡ false = ap is_some n in absurd cc
      | inr (c, at) ↦ rw at (
          Ensures-imp (Stays cap s k g.inv g.light c) (IsCalm cap s) (f k (some c) s)
            (step s k g c at) λ z p. Stays-IsCalm cap s z k g.inv g.light c at p)
    ]

    -- Hits on keys that the map has had since `s`.
    hits-IsCalm :
        (s y : Arc K V) (k : K)
        → is_some (lookup k s.cache) ≡ true
        → IsCalm cap s y
        → Ensures (IsCalm cap s) (f k (lookup k y.cache) y)
    hits-IsCalm s y k e p =
        Ensures-imp (IsCalm cap y) (IsCalm cap s) (f k (lookup k y.cache) y)
          (hit-IsCalm y k p.good (p.knows k e)) λ z q. IsCalm-trans cap s y z p q

  pub hit_slot-IsCalm :
      (s : Arc K V) (i : ℕ)
      → IsGood cap s
      → Ensures (IsCalm cap s) (each hit_key (slot i s.cache) s)
  unfolding hit_key
  hit_slot-IsCalm s i g =
      each-Ensures (IsCalm cap s) (λ k. is_some (lookup k s.cache) ≡ true) hit_key
        (λ k y e p.
          hits-IsCalm hit_item (λ s k g c at. hit_item-Stays cap s k g.inv g.light c at) s y k e p)
        (slot i s.cache) s (slot-lookup i s.cache) (IsCalm-refl cap s g)

  write_hit_slot-IsCalm :
      (x : ℕ) (s : Arc K V) (i : ℕ)
      → IsGood cap s
      → Ensures (IsCalm cap s) (each (write_hit_key x) (slot i s.cache) s)
  unfolding write_hit_key
  write_hit_slot-IsCalm x s i g =
      each-Ensures (IsCalm cap s) (λ k. is_some (lookup k s.cache) ≡ true) (write_hit_key x)
        (λ k y e p.
          hits-IsCalm (write_hit_item x)
            (λ s k g c at. write_hit_item-Stays cap s k g.inv g.light x c at) s y k e p)
        (slot i s.cache) s (slot-lookup i s.cache) (IsCalm-refl cap s g)

  -- A hash of a key that the map has.
  abbrev pub IsKnown : Arc K V → ℕ → Type ℓ
  IsKnown s i = (k : K) × (h.hash k ≡ i) × (is_some (lookup k s.cache) ≡ true)

  -- The hits of a transaction on a cache in order, each of a key that the cache has, do not panic; no
  -- key is forgotten, shows another value or gets another stamp, and the cache stays in order.
  pub drain_tlocal_hits-IsCalm :
      (x : ℕ) (hits : List ℕ) (s : Arc K V)
      → IsGood cap s
      → All (IsKnown s) hits
      → Ensures (IsCalm cap s) (drain_tlocal_hits x hits s)
  unfolding drain_tlocal_hits drain_hit
  drain_tlocal_hits-IsCalm x hits s g known =
      each-Ensures (IsCalm cap s) (IsKnown s) (drain_hit x)
        (λ i y e p. rw (some_slot-Ensures i y.cache e.0 e.1 (p.knows e.0 e.2)) (
          Ensures-imp (IsCalm cap y) (IsCalm cap s) (each (write_hit_key x) (slot i y.cache) y)
            (write_hit_slot-IsCalm x y i p.good) λ z q. IsCalm-trans cap s y z p q))
        hits s known (IsCalm-refl cap s g)
