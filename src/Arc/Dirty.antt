-- ===== src/Arc/Dirty.antt =====
-- src/arcache/mod.rs: a commit with a dirty entry.
use concread.Arc.{Arc, ThreadCacheItem, CacheEvent}
use concread.Arc.Commit.{clear_live, collect, commit}
use concread.Arc.Drain.{drain_write, drain_tlocal_inc, write_item, remove_item}
use concread.Arc.Txn.{dirty_items, mark_clean}
use concread.Assoc.{HashEq, lookup}
use concread.Prelude.{
  ℕ, List, [], ◌∷◌, Bool, true, false, Option, none, some, ◌≡◌, refl, ap, ◌>>=◌, arith, length,
  if◌then◌else◌, ◌<◌, ◌+◌,
}

none_after {ℓ κ} :
    {A : Type ℓ} {B : Type κ} (r : Option A) (f : A → Option B)
    → ((a : A) → f a ≡ none)
    → (r >>= f) ≡ none
none_after none f e = refl
none_after (some a) f e = e a

none_of {ℓ κ} :
    {A : Type ℓ} {B : Type κ} (r : Option A) (f : A → Option B) → r ≡ none → (r >>= f) ≡ none
none_of r f e = ap (λ z. z >>= f) e

module _ {ℓ κ} {K : Type ℓ} {V : Type κ} where
  -- A walk to its end leaves nothing dirty.
  dirty_items-mark_clean : (ts : List (K × ThreadCacheItem V)) → dirty_items (mark_clean ts) ≡ []
  unfolding dirty_items mark_clean
  dirty_items-mark_clean [] = refl
  dirty_items-mark_clean ((k, ThreadCacheItem.present v c) ∷ ts) = dirty_items-mark_clean ts
  dirty_items-mark_clean ((k, ThreadCacheItem.removed c) ∷ ts) = dirty_items-mark_clean ts

module _ {ℓ κ} {K : Type ℓ} {V : Type κ} ⦃h : HashEq K⦄ where
  drain_tlocal_inc-dirty :
      (cap x : ℕ) (ts : List (K × ThreadCacheItem V)) (s : Arc K V)
      → 0 < length (dirty_items ts)
      → drain_tlocal_inc cap x ts s ≡ none
  unfolding drain_tlocal_inc dirty_items drain_write
  drain_tlocal_inc-dirty cap x [] s e = absurd (omega (arith, e))
  drain_tlocal_inc-dirty cap x ((k, ThreadCacheItem.present v true) ∷ ts) s e =
      none_after (write_item cap x k v (lookup k s.cache) s) _
        λ z. drain_tlocal_inc-dirty cap x ts z e
  drain_tlocal_inc-dirty cap x ((k, ThreadCacheItem.present v false) ∷ ts) s e = refl
  drain_tlocal_inc-dirty cap x ((k, ThreadCacheItem.removed true) ∷ ts) s e =
      none_after (remove_item x k (lookup k s.cache) s) _ λ z. drain_tlocal_inc-dirty cap x ts z e
  drain_tlocal_inc-dirty cap x ((k, ThreadCacheItem.removed false) ∷ ts) s e = refl

  collect-dirty :
      (cap commit_ts x : ℕ) (clear : Bool) (ts : List (K × ThreadCacheItem V)) (hits : List ℕ)
      (rx : List (CacheEvent K V)) (s : Arc K V)
      → 0 < length (dirty_items ts)
      → collect cap commit_ts x clear ts hits rx s ≡ none
  unfolding collect
  collect-dirty cap commit_ts x clear ts hits rx s e =
      none_after (if clear then clear_live x s else some s) _ λ y. none_of _ _ (
        drain_tlocal_inc-dirty cap x ts
          (record y {
            stats = record y.stats { write_inc_or_mod = y.stats.write_inc_or_mod + length ts };
          })
          e)

  -- A commit of a transaction with a dirty entry panics, whatever the state of the cache, with debug
  -- assertions or without.
  pub commit-dirty :
      (debug : Bool) (cap commit_ts x : ℕ) (clear : Bool) (ts : List (K × ThreadCacheItem V))
      (hits : List ℕ) (rx : List (CacheEvent K V)) (s : Arc K V)
      → 0 < length (dirty_items ts)
      → commit debug cap commit_ts x clear ts hits rx s ≡ none
  unfolding commit
  commit-dirty debug cap commit_ts x clear ts hits rx s e =
      none_of (collect cap commit_ts x clear ts hits rx s) _
        (collect-dirty cap commit_ts x clear ts hits rx s e)
