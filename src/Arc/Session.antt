-- ===== src/Arc/Session.antt =====
-- src/arcache/mod.rs: a write transaction from its start to its commit.
use concread.Arc.{Arc, rec_ll, freq_ll, ThreadCacheItem, CacheEvent, visible, ll_len}
use concread.Arc.Coherence.{IsOlder}
use concread.Arc.Writes.{is_clean, written, writes, value_of}
use concread.Arc.Commit.{collect, commit}
use concread.Arc.Effects.{IsGood}
use concread.Arc.Serial.{IsHit, Committed, commit-Committed, written-writes}
use concread.Arc.Txn.{WriteOp, WriteTxn, begin_write, get, run}
use concread.Arc.TxnLaws.{IsTxn, run-IsTxn, get-written, IsHit-imp}
use concread.Arc.Local.{distinct_keys, written-lookup, writes-lookup}
use concread.Assoc.{HashEq, lookup}
use concread.Prelude.{
  ℕ, ◌+◌, ◌≤◌, List, Bool, true, false, Option, none, some, ◌≡◌, refl, sym, ap, ◌∙◌, ◌⊎◌, ◌||◌,
  ◌==◌, is_some, if◌then◌else◌, Bool-cases, inl, inr, All, All-imp, Ensures, Ensures-imp, Always,
}

module _ {ℓ κ} {K : Type ℓ} {V : Type κ} ⦃h : HashEq K⦄ where
  -- The entries of a map in another order.
  pub record IsOrder (ts us : List (K × ThreadCacheItem V)) : Type (ℓ ⊔ κ) where
    pub distinct : distinct_keys us ≡ true
    pub same : (q : K) → lookup q us ≡ lookup q ts

  IsOrder-writes :
      (ts us : List (K × ThreadCacheItem V)) → IsOrder ts us → (q : K) → writes q us ≡ writes q ts
  IsOrder-writes ts us w q = writes-lookup q us ∙ ap is_some (w.same q) ∙ sym (writes-lookup q ts)

  IsOrder-written :
      (ts us : List (K × ThreadCacheItem V))
      → distinct_keys ts ≡ true
      → IsOrder ts us
      → (q : K) (old : Option V) → written q us old ≡ written q ts old
  IsOrder-written ts us d w q old =
      written-lookup q us old w.distinct
      ∙ ap (λ o. elim o as (λ z. Option V) [ some t ↦ value_of t | none ↦ old ]) (w.same q)
      ∙ sym (written-lookup q ts old d)

  -- The cache `z` after the commit of the transaction `t` on `s`.
  pub record Shown (cap : ℕ) (s : Arc K V) (t : WriteTxn K V) (z : Arc K V) : Type (ℓ ⊔ κ) where
    pub good : IsGood cap z
    pub bounded : ll_len rec_ll z + ll_len freq_ll z ≤ cap
    pub shows :
        (q : K)
        → (writes q t.tlocal || t.cleared) ≡ true
        → (visible q z ≡ (get s q t).0) ⊎ (visible q z ≡ none)

  module _ (cap commit_ts txid : ℕ) (s : Arc K V) where
    Committed-Shown :
        (t : WriteTxn K V) (us : List (K × ThreadCacheItem V)) (rx : List (CacheEvent K V))
        → IsTxn s t
        → IsOrder t.tlocal us
        → (z : Arc K V) → Committed cap commit_ts txid t.cleared us t.hit rx s z
        → Shown cap s t z
    Committed-Shown t us rx w o z c = record {
      good = c.good;
      bounded = c.bounded;
      shows = λ q e. elim (Bool-cases (writes q us)) [
        | inl f ↦ elim (c.shows q f) [
          | inl g ↦ inl (
              g
              ∙ written-writes q us none (old q) f
              ∙ IsOrder-written t.tlocal us w.distinct o q (old q)
              ∙ sym (get-written s t q w))
          | inr g ↦ inr g
        ]
        | inr f ↦ inr (
            c.dark
              (cleared (writes q t.tlocal) t.cleared e (sym (IsOrder-writes t.tlocal us o q) ∙ f)) q
              f)
      ];
    }
      where
        old : K → Option V
        old q = if t.cleared then none else visible q s

        cleared : (a b : Bool) → (a || b) ≡ true → a ≡ false → b ≡ true
        cleared true b e f = absurd cc
        cleared false b e f = e

    txn-Shown :
        (t : WriteTxn K V) (us : List (K × ThreadCacheItem V)) (rx : List (CacheEvent K V))
        → IsGood cap s
        → IsTxn s t
        → IsOrder t.tlocal us
        → All (λ u. is_clean u.1 ≡ true) us
        → All (IsOlder txid) rx
        → Always
            (λ r. (r.1.p == 0) ≡ true → ll_len freq_ll r.1 ≤ cap)
            (collect cap commit_ts txid t.cleared us t.hit rx s)
        → Ensures (λ r. Shown cap s t r.1) (commit false cap commit_ts txid t.cleared us t.hit rx s)
    txn-Shown t us rx g w o clean older fits =
        Ensures-imp (λ r. Committed cap commit_ts txid t.cleared us t.hit rx s r.1) _ _
          (commit-Committed cap commit_ts txid t.cleared us t.hit rx s g clean older
            (All-imp (IsHit s t.tlocal) (IsHit s us)
              (IsHit-imp s t.tlocal us λ q e. IsOrder-writes t.tlocal us o q ∙ e) t.hit w.hits)
            fits)
          λ r c. Committed-Shown t us rx w o r.1 c

    -- A write transaction does what `os` says on a cache in order, and commits in a build without
    -- debug assertions, with the entries `us` of its local map in some order, none of them dirty,
    -- the inclusions of readers from before it, and the weight before the eviction positive or the
    -- frequent list alone within the size. The commit does not panic, the cache is again in order
    -- with no more live items than its size, and a key that the transaction wrote, or any key
    -- if it cleared the cache, shows what a get at the end of the transaction returns, or nothing.
    pub run-Shown :
        (os : List (WriteOp K V)) (us : List (K × ThreadCacheItem V)) (rx : List (CacheEvent K V))
        → IsGood cap s
        → IsOrder (run s os begin_write).tlocal us
        → All (λ u. is_clean u.1 ≡ true) us
        → All (IsOlder txid) rx
        → Always
            (λ r. (r.1.p == 0) ≡ true → ll_len freq_ll r.1 ≤ cap)
            (collect cap commit_ts txid
              (run s os begin_write).cleared
              us
              (run s os begin_write).hit
              rx
              s)
        → Ensures
            (λ r. Shown cap s (run s os begin_write) r.1)
            (commit false cap commit_ts txid
              (run s os begin_write).cleared
              us
              (run s os begin_write).hit
              rx
              s)
    run-Shown os us rx g o clean older fits =
        txn-Shown (run s os begin_write) us rx g
          (run-IsTxn s os begin_write record { distinct = refl; hits = tt }) o clean older fits
