-- ===== src/Arc/Clear.antt =====
-- src/arcache/mod.rs: a commit that clears the cache, and the inclusions from before it.
use concread.Arc.{
  Arc, LlName, freq_ll, rec_ll, ghost_freq_ll, ghost_rec_ll, same, CacheItem, CacheEvent,
  CacheStats, to_vref, visible, ll_len, txid_of,
}
use concread.Arc.Coherence.{counted-IsGood, marked-IsGood, IsOlder}
use concread.Arc.Commit.{clear_live}
use concread.Arc.Drain.{include_item, drain_event, drain_rx, each, hit_key, count_hit, event_time}
use concread.Arc.Effects.{IsGood, IsCalm, IsCalm-refl, IsCalm-trans, Stays-IsCalm, stamp_of, Knows}
use concread.Arc.Evict.{while_longer, drain_one, drain_ll_to_ghost}
use concread.Arc.Hits.{hit_slot-IsCalm}
use concread.Arc.Inclusion.{Included, IncludedNew, include_item-Included, include_item-IncludedNew}
use concread.Arc.Inv.{IsCache}
use concread.Arc.Rounds.{ghost_of, ghost_of-apart, drain_one-Round}
use concread.Arc.Shrink.{Shrunk, while_longer-Shrunk}
use concread.Assoc.{HashEq, lookup, slot}
use concread.Ll.Order.{has}
use concread.Prelude.{
  ℕ, suc, ◌+◌, ◌<◌, List, [], ◌∷◌, true, Option, none, some, ◌≡◌, refl, sym, ap, ◌∙◌, inl, inr,
  length, Bool-cases, arith, Ensures, Ensures-bind, Ensures-imp, ◌>>=◌, All, leb, subst,
}

module _ {ℓ κ} {K : Type ℓ} {V : Type κ} ⦃h : HashEq K⦄ (cap x : ℕ) where
  drain_ll_to_ghost-Shrunk :
      (t u : LlName) (s : Arc K V)
      → ghost_of t ≡ some u
      → IsGood cap s
      → Ensures (λ z. Shrunk cap t u s z × (length (z.lls t) ≡ 0)) (drain_ll_to_ghost t x s)
  unfolding drain_ll_to_ghost
  drain_ll_to_ghost-Shrunk t u s gh g =
      Ensures-imp _ _ (while_longer (drain_one t x) t 0 (suc (length (s.lls t))) s)
        (while_longer-Shrunk cap t u (drain_one t x) 0
          (λ y g' l'. drain_one-Round cap x t u y g' l' (ghost_of-apart t u gh) gh)
          (suc (length (s.lls t))) s g (omega arith))
        λ z p. (p.0, (let l = p.1 in omega (arith, l)))

  -- A key that shows a value is in a live list.
  shows_nothing :
      (s : Arc K V)
      → IsCache s
      → length (s.lls freq_ll) ≡ 0
      → length (s.lls rec_ll) ≡ 0
      → (q : K) → visible q s ≡ none
  unfolding visible to_vref
  shows_nothing s w f r q = go (lookup q s.cache) refl
    where
      empty_has : (n : ℕ) (xs : List ℕ) → length xs ≡ 0 → has n xs ≡ true → ⊥
      empty_has n [] e i = cc
      empty_has n (y ∷ ys) e i = omega arith

      go : (o : Option (CacheItem V)) → lookup q s.cache ≡ o → (o >>= to_vref) ≡ none
      go none e = refl
      go (some (CacheItem.freq n v)) e =
          absurd (empty_has n (s.lls freq_ll) f (w.located q (CacheItem.freq n v) e).in_list)
      go (some (CacheItem.recent n v)) e =
          absurd (empty_has n (s.lls rec_ll) r (w.located q (CacheItem.recent n v) e).in_list)
      go (some (CacheItem.ghost_freq n)) e = refl
      go (some (CacheItem.ghost_rec n)) e = refl
      go (some (CacheItem.haunted n)) e = refl

  -- The cache after a clear: no key shows a value or is forgotten, and the watermark is `x`.
  pub record IsCleared (s z : Arc K V) : Type (ℓ ⊔ κ) where
    pub good : IsGood cap z
    pub knows : Knows s z
    pub dark : (q : K) → visible q z ≡ none
    pub min_txid : z.min_txid ≡ x

  pub clear_live-IsCleared : (s : Arc K V) → IsGood cap s → Ensures (IsCleared s) (clear_live x s)
  unfolding clear_live
  clear_live-IsCleared s g =
      let c = record s.stats {
        freq_evicts = s.stats.freq_evicts + ll_len freq_ll s;
        recent_evicts = s.stats.recent_evicts + ll_len rec_ll s;
      } in
      let s' : Arc K V = record s { min_txid = x; stats = c } in
      let g' = marked-IsGood cap s x c g in
      Ensures-bind _ (IsCleared s) (drain_ll_to_ghost freq_ll x s') _
        (drain_ll_to_ghost-Shrunk freq_ll ghost_freq_ll s' refl g')
        λ y e (a, f).
          Ensures-imp _ (IsCleared s) (drain_ll_to_ghost rec_ll x y)
            (drain_ll_to_ghost-Shrunk rec_ll ghost_rec_ll y refl a.good)
            λ z (b, r). record {
              good = b.good;
              knows = λ q e. b.knows q (a.knows q e);
              dark = shows_nothing z b.good.inv (ap length (b.others freq_ll refl refl) ∙ f) r;
              min_txid = b.min_txid ∙ a.min_txid;
            }

  include_item-IsCalm :
      (y : ℕ) (s : Arc K V) (k : K) (v : V) (o : Option (CacheItem V))
      → IsGood cap s
      → y < s.min_txid
      → lookup k s.cache ≡ o
      → Ensures (IsCalm cap s) (include_item cap y k v o s)
  include_item-IsCalm y s k v none g l e =
      Ensures-imp (IncludedNew cap s k v y g.inv g.light) (IsCalm cap s)
        (include_item cap y k v none s) (include_item-IncludedNew cap s k v y g.inv g.light e)
        λ z p. elim p [
          | inl (m, q) ↦ absurd (omega arith)
          | inr (m, same) ↦ subst (IsCalm cap s) (sym same) (IsCalm-refl cap s g)
        ]
  include_item-IsCalm y s k v (some c) g l e =
      Ensures-imp (Included cap s k v y g.inv g.light c) (IsCalm cap s)
        (include_item cap y k v (some c) s) (include_item-Included cap s k v y g.inv g.light c e)
        λ z (t, at, p). elim p [
          | inl (u, q) ↦ Stays-IsCalm cap s z k g.inv g.light c e (t, at, q)
          | inr (u, m, q) ↦ absurd (omega arith)
        ]

  counted-IsCalm :
      (s z : Arc K V) (c : CacheStats) → IsCalm cap (record s { stats = c }) z → IsCalm cap s z
  unfolding visible stamp_of txid_of
  counted-IsCalm s z c w = record {
    good = w.good;
    knows = w.knows;
    shows = w.shows;
    stamps = w.stamps;
    min_txid = w.min_txid;
  }

  drain_event-IsCalm :
      (e : CacheEvent K V) (s : Arc K V)
      → IsGood cap s
      → IsOlder s.min_txid e
      → Ensures (IsCalm cap s) (drain_event cap e s)
  unfolding drain_event
  drain_event-IsCalm (CacheEvent.hit t i b) s g o =
      let c = count_hit b s.stats in
      let s' : Arc K V = record s { stats = c } in
      Ensures-imp (IsCalm cap s') (IsCalm cap s) (each hit_key (slot i s.cache) s')
        (hit_slot-IsCalm cap s' i (counted-IsGood cap s c g)) λ z w. counted-IsCalm s z c w
  drain_event-IsCalm (CacheEvent.inclusion t k v y) s g o =
      let c = record s.stats { reader_includes = s.stats.reader_includes + 1 } in
      let s' : Arc K V = record s { stats = c } in
      Ensures-imp (IsCalm cap s') (IsCalm cap s) (include_item cap y k v (lookup k s.cache) s')
        (include_item-IsCalm y s' k v (lookup k s.cache) (counted-IsGood cap s c g) o refl)
        λ z w. counted-IsCalm s z c w

  -- Inclusions of values from before the watermark change nothing but the order of the lists.
  pub drain_rx-IsCalm :
      (commit_ts : ℕ) (rx : List (CacheEvent K V)) (s : Arc K V) (m : ℕ)
      → IsGood cap s
      → s.min_txid ≡ m
      → All (IsOlder m) rx
      → Ensures (λ r. IsCalm cap s r.1) (drain_rx cap commit_ts rx s)
  unfolding drain_rx
  drain_rx-IsCalm ts [] s m g at o = IsCalm-refl cap s g
  drain_rx-IsCalm ts (e ∷ rx) s m g at o =
      Ensures-bind (IsCalm cap s) (λ r. IsCalm cap s r.1) (drain_event cap e s) _
        (drain_event-IsCalm e s g (subst (λ n. IsOlder n e) (sym at) o.0))
        λ y p w. elim (Bool-cases (leb ts (event_time e))) [
          | inl f ↦ rw f w
          | inr f ↦ rw f (
              Ensures-imp (λ r. IsCalm cap y r.1) (λ r. IsCalm cap s r.1) (drain_rx cap ts rx y)
                (drain_rx-IsCalm ts rx y m w.good (w.min_txid ∙ at) o.1)
                λ r w'. IsCalm-trans cap s y r.1 w w')
        ]
