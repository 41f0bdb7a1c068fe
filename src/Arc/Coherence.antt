-- ===== src/Arc/Coherence.antt =====
-- src/arcache/mod.rs: what the events of readers do to the writes of a transaction.
use concread.Arc.{Arc, CacheItem, CacheEvent, CacheStats, visible, llp, to_vref, txid_of}
use concread.Arc.Drain.{include_item, drain_event, drain_rx, each, count_hit, event_time, hit_key}
use concread.Arc.Effects.{
  IsGood, Knows, IsCalm, Sets-IsGood, Sets-Knows, visible_self, visible_other, stamp_of,
  stamp_of_self, stamp_of_other,
}
use concread.Arc.Hits.{hit_slot-IsCalm}
use concread.Arc.Inclusion.{
  IsFresh-le, Included, IncludedNew, include_item-Included, include_item-IncludedNew,
}
use concread.Arc.Sets.{Sets}
use concread.Assoc.{HashEq, lookup, slot}
use concread.Prelude.{
  ℕ, ◌+◌, ◌<◌, ◌≤◌, List, [], ◌∷◌, Option, none, some, ◌≡◌, refl, sym, ap, ◌∙◌, Bool-cases, inl,
  inr, arith, All, Ensures, Ensures-bind, Ensures-imp, subst, leb,
}

module _ {ℓ κ} {K : Type ℓ} {V : Type κ} ⦃h : HashEq K⦄ where
  -- Every key of which the stamp is `x` or later shows what it showed, with the same stamp.
  pub record Kept (cap x : ℕ) (s z : Arc K V) : Type (ℓ ⊔ κ) where
    pub good : IsGood cap z
    pub knows : Knows s z
    pub min_txid : z.min_txid ≡ s.min_txid
    pub kept :
        (q : K) (t : ℕ)
        → stamp_of q s ≡ some t
        → x ≤ t
        → (visible q z ≡ visible q s) × (stamp_of q z ≡ stamp_of q s)

  Kept-refl : (cap x : ℕ) (s : Arc K V) → IsGood cap s → Kept cap x s s
  Kept-refl cap x s g = record {
    good = g;
    knows = λ q e. e;
    min_txid = refl;
    kept = λ q t e l. (refl, refl);
  }

  Kept-trans : (cap x : ℕ) (s y z : Arc K V) → Kept cap x s y → Kept cap x y z → Kept cap x s z
  Kept-trans cap x s y z a b = record {
    good = b.good;
    knows = λ q e. b.knows q (a.knows q e);
    min_txid = b.min_txid ∙ a.min_txid;
    kept = λ q t e l.
        let (v, u) = a.kept q t e l in let (v', u') = b.kept q t (u ∙ e) l in (v' ∙ v, u' ∙ u);
  }

  pub IsCalm-Kept : (cap x : ℕ) (s z : Arc K V) → IsCalm cap s z → Kept cap x s z
  IsCalm-Kept cap x s z c = record {
    good = c.good;
    knows = c.knows;
    min_txid = c.min_txid;
    kept = λ q t e l. (c.shows q, c.stamps q);
  }

  -- A step on a key that is not so new.
  Sets-Kept :
      (cap x : ℕ) (s z : Arc K V) (k : K) (v : Option V) (y : ℕ)
      → Sets cap s z k v y
      → ((t : ℕ) → stamp_of k s ≡ some t → x ≤ t → (v ≡ visible k s) × (some y ≡ stamp_of k s))
      → Kept cap x s z
  Sets-Kept cap x s z k v y p same = record {
    good = Sets-IsGood p;
    knows = Sets-Knows p;
    min_txid = p.min_txid;
    kept = λ q t e l. elim (Bool-cases (h.eqb q k)) [
      | inl f ↦
          let r = h.eq_of_eqb q k f in
          let (a, b) = same t (ap (λ w. stamp_of w s) (sym r) ∙ e) l in
          (
            visible_self p q f ∙ a ∙ ap (λ w. visible w s) (sym r),
            stamp_of_self p q f ∙ b ∙ ap (λ w. stamp_of w s) (sym r),
          )
      | inr f ↦ (visible_other p q f, stamp_of_other p q f)
    ];
  }

  visible_at :
      (s : Arc K V) (k : K) (c : CacheItem V) → lookup k s.cache ≡ some c → visible k s ≡ to_vref c
  unfolding visible
  visible_at s k c e = rw e refl

  stamp_at :
      (s : Arc K V) (k : K) (c : CacheItem V)
      → lookup k s.cache ≡ some c
      → stamp_of k s ≡ txid_of (llp c) s
  unfolding stamp_of
  stamp_at s k c e = rw e refl

  no_stamp : (s : Arc K V) (k : K) → lookup k s.cache ≡ none → stamp_of k s ≡ none
  unfolding stamp_of
  no_stamp s k e = rw e refl

  include_item-Kept :
      (cap x y : ℕ) (s : Arc K V) (k : K) (v : V) (o : Option (CacheItem V))
      → IsGood cap s
      → y < x
      → lookup k s.cache ≡ o
      → Ensures (Kept cap x s) (include_item cap y k v o s)
  include_item-Kept cap x y s k v none g l e =
      Ensures-imp (IncludedNew cap s k v y g.inv g.light) (Kept cap x s)
        (include_item cap y k v none s) (include_item-IncludedNew cap s k v y g.inv g.light e)
        λ z p. elim p [
          | inl (m, q) ↦
              Sets-Kept cap x s z k (some v) y q
                λ t f i. let no : none ≡ some t = sym (no_stamp s k e) ∙ f in absurd cc
          | inr (m, same) ↦ subst (Kept cap x s) (sym same) (Kept-refl cap x s g)
        ]
  include_item-Kept cap x y s k v (some c) g l e =
      Ensures-imp (Included cap s k v y g.inv g.light c) (Kept cap x s)
        (include_item cap y k v (some c) s) (include_item-Included cap s k v y g.inv g.light c e)
        λ z (t, at, p).
          let stamped : stamp_of k s ≡ some t = stamp_at s k c e ∙ at in
          elim p [
            | inl (u, q) ↦
                Sets-Kept cap x s z k (to_vref c) t q
                  λ t' f i. (sym (visible_at s k c e), sym stamped)
            | inr (u, m, q) ↦ Sets-Kept cap x s z k (some v) y q λ t' f i.
                let same : some t ≡ some t' = sym stamped ∙ f in
                absurd (too_late same (IsFresh-le c y t u) i)
          ]
    where
      too_late : {t t' : ℕ} → some t ≡ some t' → t ≤ y → x ≤ t' → ⊥
      too_late {t} {t'} e u i = let same : t ≡ t' = cc in omega arith

  pub marked-IsGood :
      (cap : ℕ) (s : Arc K V) (m : ℕ) (x : CacheStats)
      → IsGood cap s
      → IsGood cap (record s { min_txid = m; stats = x })
  marked-IsGood cap s m x g = record {
    inv = record {
      located = λ k c e.
          let w = g.inv.located k c e in
          record { node = w.node; at = w.at; named = w.named; in_list = w.in_list };
      listed = λ t n e.
          let w = g.inv.listed t n e in
          record {
            node = w.node;
            at = w.at;
            item = w.item;
            entry = w.entry;
            same_node = w.same_node;
            same_ll = w.same_ll;
          };
      distinct = g.inv.distinct;
    };
    light = g.light;
  }

  pub counted-IsGood :
      (cap : ℕ) (s : Arc K V) (x : CacheStats) → IsGood cap s → IsGood cap (record s { stats = x })
  counted-IsGood cap s x g = marked-IsGood cap s s.min_txid x g

  -- The inclusions are from transactions before `x`.
  abbrev pub IsOlder : ℕ → CacheEvent K V → Type 0
  IsOlder x (CacheEvent.hit t i b) = Unit
  IsOlder x (CacheEvent.inclusion t k v y) = y < x

  drain_event-Kept :
      (cap x : ℕ) (e : CacheEvent K V) (s : Arc K V)
      → IsGood cap s
      → IsOlder x e
      → Ensures (Kept cap x s) (drain_event cap e s)
  unfolding drain_event stamp_of visible txid_of
  drain_event-Kept cap x (CacheEvent.hit t i b) s g o =
      let s' : Arc K V = record s { stats = count_hit b s.stats } in
      Ensures-imp (IsCalm cap s') (Kept cap x s) (each hit_key (slot i s.cache) s')
        (hit_slot-IsCalm cap s' i (counted-IsGood cap s s'.stats g))
        λ z c.
          let w = IsCalm-Kept cap x s' z c in
          record { good = w.good; knows = w.knows; min_txid = w.min_txid; kept = w.kept }
  drain_event-Kept cap x (CacheEvent.inclusion t k v y) s g o =
      let s' : Arc K V = record s {
        stats = record s.stats { reader_includes = s.stats.reader_includes + 1 };
      } in
      Ensures-imp (Kept cap x s') (Kept cap x s) (include_item cap y k v (lookup k s.cache) s')
        (include_item-Kept cap x y s' k v (lookup k s.cache) (counted-IsGood cap s s'.stats g) o
          refl)
        λ z w. record { good = w.good; knows = w.knows; min_txid = w.min_txid; kept = w.kept }

  -- The events of readers are taken into a cache in order without a panic, and it stays so: no key is
  -- forgotten, and every key that was last changed by transaction `x` or a later one shows what it
  -- showed, if the inclusions are of values from before `x`.
  pub drain_rx-Kept :
      (cap x commit_ts : ℕ) (rx : List (CacheEvent K V)) (s : Arc K V)
      → IsGood cap s
      → All (IsOlder x) rx
      → Ensures (λ r. Kept cap x s r.1) (drain_rx cap commit_ts rx s)
  unfolding drain_rx
  drain_rx-Kept cap x ts [] s g o = Kept-refl cap x s g
  drain_rx-Kept cap x ts (e ∷ rx) s g o =
      Ensures-bind (Kept cap x s) (λ r. Kept cap x s r.1) (drain_event cap e s) _
        (drain_event-Kept cap x e s g o.0)
        λ y p w. elim (Bool-cases (leb ts (event_time e))) [
          | inl f ↦ rw f w
          | inr f ↦ rw f (
              Ensures-imp (λ r. Kept cap x y r.1) (λ r. Kept cap x s r.1) (drain_rx cap ts rx y)
                (drain_rx-Kept cap x ts rx y w.good o.1) λ r w'. Kept-trans cap x s y r.1 w w')
        ]
