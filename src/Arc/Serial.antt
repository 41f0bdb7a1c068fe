-- ===== src/Arc/Serial.antt =====
-- src/arcache/mod.rs: what a commit as a whole does to the cache.
use concread.Arc.{Arc, freq_ll, rec_ll, ThreadCacheItem, CacheEvent, CacheStats, visible, ll_len}
use concread.Arc.Bound.{Evicted, evict-Evicted}
use concread.Arc.Clear.{IsCleared, clear_live-IsCleared, drain_rx-IsCalm}
use concread.Arc.Coherence.{Kept, drain_rx-Kept, IsCalm-Kept, IsOlder, counted-IsGood}
use concread.Arc.Writes.{is_clean, written, writes, Drained, drain_tlocal_inc-Drained}
use concread.Arc.Commit.{clear_live, collect, commit}
use concread.Arc.Drain.{drain_tlocal_inc, drain_rx, drain_tlocal_hits}
use concread.Arc.Effects.{IsGood, Knows, IsCalm}
use concread.Arc.Evict.{evict}
use concread.Arc.Hits.{drain_tlocal_hits-IsCalm, IsKnown}
use concread.Assoc.{HashEq, lookup}
use concread.Prelude.{
  ℕ, ◌+◌, ◌≤◌, List, [], ◌∷◌, Bool, true, false, Option, none, some, ◌≡◌, refl, sym, ap, ◌∙◌, ◌||◌,
  ◌⊎◌, ◌==◌, is_some, if◌then◌else◌, Bool-cases, inl, inr, arith, All, All-imp, Ensures,
  Ensures-bind, Ensures-imp, length, Always, Always-some,
}

or_left : (a b : Bool) → (a || b) ≡ true → b ≡ false → a ≡ true
or_left true b e f = refl
or_left false b e f = let n : false ≡ true = sym f ∙ e in n

module _ {ℓ κ} {K : Type ℓ} {V : Type κ} ⦃h : HashEq K⦄ where
  visible-counted :
      (q : K) (s : Arc K V) (x : CacheStats) → visible q (record s { stats = x }) ≡ visible q s
  unfolding visible
  visible-counted q s x = refl

  -- What was there before does not matter for a key that is written.
  pub written-writes :
      (q : K) (ts : List (K × ThreadCacheItem V)) (a b : Option V)
      → writes q ts ≡ true
      → written q ts a ≡ written q ts b
  unfolding written writes
  written-writes q [] a b e = cc
  written-writes q ((k, t) ∷ ts) a b e = elim (Bool-cases (h.eqb q k)) [
    | inl f ↦ rw f refl
    | inr f ↦ rw f (written-writes q ts a b (sym (ap (λ z. z || writes q ts) f) ∙ e))
  ]

  pub not_written :
      (q : K) (ts : List (K × ThreadCacheItem V)) (a : Option V)
      → writes q ts ≡ false
      → written q ts a ≡ a
  unfolding written writes
  not_written q [] a e = refl
  not_written q ((k, t) ∷ ts) a e = elim (Bool-cases (h.eqb q k)) [
    | inl f ↦ let no_ : true ≡ false = sym (ap (λ z. z || writes q ts) f) ∙ e in absurd cc
    | inr f ↦ rw f (not_written q ts a (sym (ap (λ z. z || writes q ts) f) ∙ e))
  ]

  -- A hit is on a key that the map has, or that the transaction wrote.
  abbrev pub IsHit : Arc K V → List (K × ThreadCacheItem V) → ℕ → Type ℓ
  IsHit s ts i = (k : K) × (h.hash k ≡ i) × ((is_some (lookup k s.cache) || writes k ts) ≡ true)

  module _ (cap commit_ts txid : ℕ) (clear : Bool) (ts : List (K × ThreadCacheItem V))
      (hits : List ℕ) (rx : List (CacheEvent K V)) (s : Arc K V) where
    -- The cache after the writes, the events and the hits.
    pub record Collected (y : Arc K V) : Type (ℓ ⊔ κ) where
      pub good : IsGood cap y
      pub knows : Knows s y
      pub shows : (q : K) → writes q ts ≡ true → visible q y ≡ written q ts none
      pub dark : clear ≡ true → (q : K) → writes q ts ≡ false → visible q y ≡ none

    record Opened (y : Arc K V) : Type (ℓ ⊔ κ) where
      good : IsGood cap y
      knows : Knows s y
      dark : clear ≡ true → (q : K) → visible q y ≡ none
      mark : clear ≡ true → y.min_txid ≡ txid

    opened :
        (b : Bool)
        → clear ≡ b
        → IsGood cap s
        → Ensures Opened (if b then clear_live txid s else some s)
    opened true e g =
        Ensures-imp (IsCleared cap txid s) Opened (clear_live txid s)
          (clear_live-IsCleared cap txid s g)
          λ y c. record {
            good = c.good;
            knows = c.knows;
            dark = λ f. c.dark;
            mark = λ f. c.min_txid;
          }
    opened false e g = record {
      good = g;
      knows = λ q f. f;
      dark = λ f. let n : true ≡ false = sym f ∙ e in absurd cc;
      mark = λ f. let n : true ≡ false = sym f ∙ e in absurd cc;
    }

    drained :
        (y : Arc K V)
        → IsGood cap y
        → (clear ≡ true → y.min_txid ≡ txid)
        → All (IsOlder txid) rx
        → Ensures
            (λ r. Kept cap txid y r.1 × (clear ≡ true → IsCalm cap y r.1))
            (drain_rx cap commit_ts rx y)
    drained y g m o = elim (Bool-cases clear) [
      | inl e ↦
          Ensures-imp (λ r. IsCalm cap y r.1) _ (drain_rx cap commit_ts rx y)
            (drain_rx-IsCalm cap txid commit_ts rx y txid g (m e) o)
            λ r c. (IsCalm-Kept cap txid y r.1 c, λ e. c)
      | inr e ↦
          Ensures-imp (λ r. Kept cap txid y r.1) _ (drain_rx cap commit_ts rx y)
            (drain_rx-Kept cap txid commit_ts rx y g o)
            λ r c. (c, λ f. let n : true ≡ false = sym f ∙ e in absurd cc)
    ]

    hit-IsKnown :
        (y0 y1 y2 : Arc K V) (x : CacheStats)
        → Knows s y0
        → Drained cap txid y0 ts y1
        → Knows y1 y2
        → (i : ℕ) → IsHit s ts i
        → IsKnown cap (record y2 { stats = x }) i
    hit-IsKnown y0 y1 y2 x a d b i (k, e, f) = (
      k,
      e,
      b k (elim (Bool-cases (writes k ts)) [
        | inl w ↦ d.known k w
        | inr w ↦ d.knows k (a k (or_left (is_some (lookup k s.cache)) (writes k ts) f w))
      ]),
    )

    -- All of a commit up to the eviction does not panic, if no entry is dirty, the inclusions of
    -- readers are of values from before the transaction, and the hits are on keys that are there.
    -- The cache stays in order, every key that was written shows what was written last, and after
    -- a clear no other key shows a value.
    pub collect-Collected :
        IsGood cap s
        → All (λ t. is_clean t.1 ≡ true) ts
        → All (IsOlder txid) rx
        → All (IsHit s ts) hits
        → Ensures (λ r. Collected r.1) (collect cap commit_ts txid clear ts hits rx s)
    unfolding collect
    collect-Collected g clean older known =
        Ensures-bind Opened (λ r. Collected r.1) (if clear then clear_live txid s else some s) _
          (opened clear refl g)
          λ y0 e0 o.
            let c0 = record y0.stats { write_inc_or_mod = y0.stats.write_inc_or_mod + length ts } in
            let y0' : Arc K V = record y0 { stats = c0 } in
            Ensures-bind (Drained cap txid y0' ts) (λ r. Collected r.1)
              (drain_tlocal_inc cap txid ts y0') _
              (drain_tlocal_inc-Drained cap txid ts y0' (counted-IsGood cap y0 c0 o.good) clean)
              λ y1 e1 d.
                Ensures-bind _ (λ r. Collected r.1) (drain_rx cap commit_ts rx y1) _
                  (drained y1 d.good (λ f. d.min_txid ∙ o.mark f) older)
                  λ r e2 (k, calm).
                    let y2 = r.1 in
                    let c2 = record y2.stats { write_hits = y2.stats.write_hits + length hits } in
                    let y2' : Arc K V = record y2 { stats = c2 } in
                    Ensures-bind (IsCalm cap y2') (λ r. Collected r.1)
                      (drain_tlocal_hits txid hits y2') _
                      (drain_tlocal_hits-IsCalm cap txid hits y2' (counted-IsGood cap y2 c2 k.good)
                        (All-imp (IsHit s ts) (IsKnown cap y2')
                          (λ i. hit-IsKnown y0' y1 y2 c2 o.knows d k.knows i) hits known))
                      λ y3 e3 w. record {
                        good = w.good;
                        knows = λ q f. w.knows q (k.knows q (d.knows q (o.knows q f)));
                        shows = λ q f.
                            w.shows q
                            ∙ visible-counted q y2 c2
                            ∙ (k.kept q txid (d.stamps q ∙ rw f refl) (omega arith)).0
                            ∙ d.shows q
                            ∙ written-writes q ts (visible q y0') none f;
                        dark = λ e q f.
                            w.shows q
                            ∙ visible-counted q y2 c2
                            ∙ (calm e).shows q
                            ∙ d.shows q
                            ∙ not_written q ts (visible q y0') f
                            ∙ visible-counted q y0 c0
                            ∙ o.dark e q;
                      }

    -- The outcome of a commit: every key that was written shows what was written last or nothing,
    -- and after a clear no other key shows a value.
    pub record Committed (z : Arc K V) : Type (ℓ ⊔ κ) where
      pub good : IsGood cap z
      pub knows : Knows s z
      pub bounded : ll_len rec_ll z + ll_len freq_ll z ≤ cap
      pub shows :
          (q : K) → writes q ts ≡ true → (visible q z ≡ written q ts none) ⊎ (visible q z ≡ none)
      pub dark : clear ≡ true → (q : K) → writes q ts ≡ false → visible q z ≡ none

    Evicted-Committed :
        (y z : Arc K V) (x : CacheStats)
        → Collected y
        → Evicted cap txid y z
        → Committed (record z { stats = x })
    Evicted-Committed y z x c (f, b) = record {
      good = counted-IsGood cap z x f.good;
      knows = λ q e. f.knows q (c.knows q e);
      bounded = b;
      shows = λ q e. elim (f.forgets q) [
        | inl g ↦ inl (visible-counted q z x ∙ g ∙ c.shows q e)
        | inr g ↦ inr (visible-counted q z x ∙ g)
      ];
      dark = λ e q g. elim (f.forgets q) [
        | inl r ↦ visible-counted q z x ∙ r ∙ c.dark e q g
        | inr r ↦ visible-counted q z x ∙ r
      ];
    }

    -- A commit on a cache in order does not panic in a build without debug assertions, if no entry
    -- is dirty, the inclusions of readers are of values from before the transaction, the hits are on
    -- keys that are there, and the weight before the eviction is positive or the frequent list alone
    -- fits. It ends with no more live items than the cache has room for, the cache in order, every
    -- key that was written showing what was written last or nothing, and after a clear no other key
    -- showing a value.
    pub commit-Committed :
        IsGood cap s
        → All (λ t. is_clean t.1 ≡ true) ts
        → All (IsOlder txid) rx
        → All (IsHit s ts) hits
        → Always
            (λ r. (r.1.p == 0) ≡ true → ll_len freq_ll r.1 ≤ cap)
            (collect cap commit_ts txid clear ts hits rx s)
        → Ensures (λ r. Committed r.1) (commit false cap commit_ts txid clear ts hits rx s)
    unfolding commit
    commit-Committed g clean older known fits =
        Ensures-bind (λ r. Collected r.1) (λ r. Committed r.1)
          (collect cap commit_ts txid clear ts hits rx s) _ (collect-Collected g clean older known)
          λ r e c.
            Ensures-bind (Evicted cap txid r.1) (λ r. Committed r.1) (evict false cap txid r.1) _
              (evict-Evicted cap txid r.1 c.good (
                Always-some (λ r. (r.1.p == 0) ≡ true → ll_len freq_ll r.1 ≤ cap)
                  (collect cap commit_ts txid clear ts hits rx s) r fits e))
              λ z e' f. Evicted-Committed r.1 z _ c f
