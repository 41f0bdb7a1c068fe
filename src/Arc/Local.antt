-- ===== src/Arc/Local.antt =====
-- src/arcache/mod.rs: the local map of a write transaction, and what its writes come to.
use concread.Arc.{ThreadCacheItem}
use concread.Arc.Writes.{written, writes, value_of}
use concread.Arc.Serial.{not_written}
use concread.Arc.Txn.{mark_clean}
use concread.Assoc.{HashEq, lookup, put}
use concread.Assoc.Laws.{eqb_sym}
use concread.Prelude.{
  List, [], ◌∷◌, Bool, true, false, not, ◌&&◌, Option, none, some, ◌≡◌, refl, sym, subst, ◌||◌,
  is_some, Bool-cases, inl, inr, arith,
}

module _ {ℓ κ} {K : Type ℓ} {V : Type κ} ⦃h : HashEq K⦄ where
  abbrev pub distinct_keys : List (K × ThreadCacheItem V) → Bool
  distinct_keys [] = true
  distinct_keys ((k, t) ∷ ts) = not (writes k ts) && distinct_keys ts

  pub writes-put :
      (q k : K) (i : ThreadCacheItem V) (ts : List (K × ThreadCacheItem V))
      → writes q (put k i ts) ≡ (h.eqb q k || writes q ts)
  unfolding writes put
  writes-put q k i [] = refl
  writes-put q k i ((x, t) ∷ ts) = elim (Bool-cases (h.eqb k x)) [
    | inl e ↦ rw e (
        subst (λ z. (h.eqb q x || writes q ts) ≡ (h.eqb q z || (h.eqb q x || writes q ts)))
          (sym (h.eq_of_eqb k x e)) (or_twice (h.eqb q x) (writes q ts)))
    | inr e ↦ rw (e, writes-put q k i ts) (or_swap (h.eqb q x) (h.eqb q k) (writes q ts))
  ]
    where
      or_twice : (a b : Bool) → (a || b) ≡ (a || (a || b))
      or_twice true b = refl
      or_twice false b = refl

      or_swap : (a b c : Bool) → (a || (b || c)) ≡ (b || (a || c))
      or_swap true true c = refl
      or_swap true false c = refl
      or_swap false true c = refl
      or_swap false false c = refl

  pub distinct_keys-put :
      (k : K) (i : ThreadCacheItem V) (ts : List (K × ThreadCacheItem V))
      → distinct_keys ts ≡ true
      → distinct_keys (put k i ts) ≡ true
  unfolding put writes
  distinct_keys-put k i [] d = refl
  distinct_keys-put k i ((x, t) ∷ ts) d = elim (Bool-cases (h.eqb k x)) [
    | inl e ↦ rw e d
    | inr e ↦
        rw (e, writes-put x k i ts, eqb_sym k x e) (ground (arith, d, distinct_keys-put k i ts))
  ]

  -- The last write of a key is its only one.
  pub written-lookup :
      (q : K) (ts : List (K × ThreadCacheItem V)) (old : Option V)
      → distinct_keys ts ≡ true
      → written q ts old
        ≡ elim (lookup q ts) as (λ z. Option V) [ some t ↦ value_of t | none ↦ old ]
  unfolding written lookup writes
  written-lookup q [] old d = refl
  written-lookup q ((x, t) ∷ ts) old d = elim (Bool-cases (h.eqb q x)) [
    | inl e ↦
        let out : writes x ts ≡ false = ground (arith, d) in
        rw e (
          not_written q ts (value_of t)
            (subst (λ z. writes z ts ≡ false) (sym (h.eq_of_eqb q x e)) out))
    | inr e ↦ rw e (written-lookup q ts old (ground (arith, d)))
  ]

  -- A write takes no key out of the local map.
  pub writes-put_mono :
      (q k : K) (i : ThreadCacheItem V) (ts : List (K × ThreadCacheItem V))
      → writes q ts ≡ true
      → writes q (put k i ts) ≡ true
  writes-put_mono q k i ts e = rw (writes-put q k i ts, e) (or_true (h.eqb q k))
    where
      or_true : (a : Bool) → (a || true) ≡ true
      or_true true = refl
      or_true false = refl

  pub writes-mark_clean :
      (q : K) (ts : List (K × ThreadCacheItem V)) → writes q (mark_clean ts) ≡ writes q ts
  unfolding writes mark_clean
  writes-mark_clean q [] = refl
  writes-mark_clean q ((x, t) ∷ ts) = rw (writes-mark_clean q ts) refl

  pub distinct_keys-mark_clean :
      (ts : List (K × ThreadCacheItem V)) → distinct_keys (mark_clean ts) ≡ distinct_keys ts
  unfolding mark_clean
  distinct_keys-mark_clean [] = refl
  distinct_keys-mark_clean ((x, t) ∷ ts) =
      rw (writes-mark_clean x ts, distinct_keys-mark_clean ts) refl

  pub writes-lookup :
      (q : K) (ts : List (K × ThreadCacheItem V)) → writes q ts ≡ is_some (lookup q ts)
  unfolding writes lookup
  writes-lookup q [] = refl
  writes-lookup q ((x, t) ∷ ts) = elim (Bool-cases (h.eqb q x)) [
    | inl e ↦ rw e refl
    | inr e ↦ rw (e, writes-lookup q ts) refl
  ]
