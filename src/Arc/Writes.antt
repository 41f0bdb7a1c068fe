-- ===== src/Arc/Writes.antt =====
-- src/arcache/mod.rs: the writes of a transaction that a commit takes in.
use concread.Arc.{Arc, ThreadCacheItem, visible}
use concread.Arc.Drain.{drain_write, drain_tlocal_inc, each}
use concread.Arc.Effects.{
  IsGood, Knows, Sets-IsGood, Sets-Knows, visible_self, visible_other, stamp_of, stamp_of_self,
  stamp_of_other,
}
use concread.Arc.Items.{write_item-Sets, remove_item-Sets}
use concread.Arc.Sets.{Sets}
use concread.Assoc.{HashEq, lookup}
use concread.Prelude.{
  ℕ, List, [], ◌∷◌, Bool, true, false, Option, none, some, ◌≡◌, refl, sym, ap, ◌∙◌, ◌||◌, is_some,
  if◌then◌else◌, Bool-cases, inl, inr, All, Ensures, Ensures-bind, Ensures-imp,
}

-- What a key shows after a write of the transaction.
abbrev pub value_of {κ} : {V : Type κ} → ThreadCacheItem V → Option V
value_of (ThreadCacheItem.present v c) = some v
value_of (ThreadCacheItem.removed c) = none

abbrev pub is_clean {κ} : {V : Type κ} → ThreadCacheItem V → Bool
is_clean (ThreadCacheItem.present v c) = c
is_clean (ThreadCacheItem.removed c) = c

module _ {ℓ κ} {K : Type ℓ} {V : Type κ} ⦃h : HashEq K⦄ where
  -- The value of a key after the writes, if it was `old` before.
  unfoldable pub written : K → List (K × ThreadCacheItem V) → Option V → Option V
  written q [] old = old
  written q ((k, t) ∷ ts) old = written q ts (if h.eqb q k then value_of t else old)

  unfoldable pub writes : K → List (K × ThreadCacheItem V) → Bool
  writes q [] = false
  writes q ((k, t) ∷ ts) = h.eqb q k || writes q ts

  drain_write-Sets :
      (cap x : ℕ) (k : K) (t : ThreadCacheItem V) (s : Arc K V)
      → IsGood cap s
      → is_clean t ≡ true
      → Ensures (λ z. Sets cap s z k (value_of t) x) (drain_write cap x (k, t) s)
  unfolding drain_write
  drain_write-Sets cap x k (ThreadCacheItem.present v c) s g e =
      rw e (write_item-Sets cap s k g.inv g.light x v (lookup k s.cache) refl)
  drain_write-Sets cap x k (ThreadCacheItem.removed c) s g e =
      rw e (remove_item-Sets cap s k g.inv g.light x (lookup k s.cache) refl)

  -- After the writes of `ts`, with the stamp `x`.
  pub record Drained (cap x : ℕ) (s : Arc K V) (ts : List (K × ThreadCacheItem V)) (z : Arc K V)
      : Type (ℓ ⊔ κ) where
    pub good : IsGood cap z
    pub knows : Knows s z
    pub min_txid : z.min_txid ≡ s.min_txid
    pub shows : (q : K) → visible q z ≡ written q ts (visible q s)
    pub stamps : (q : K) → stamp_of q z ≡ (if writes q ts then some x else stamp_of q s)
    pub known : (q : K) → writes q ts ≡ true → is_some (lookup q z.cache) ≡ true

  Drained-cons :
      (cap x : ℕ) (s y z : Arc K V) (k : K) (t : ThreadCacheItem V)
      (ts : List (K × ThreadCacheItem V))
      → Sets cap s y k (value_of t) x
      → Drained cap x y ts z
      → Drained cap x s ((k, t) ∷ ts) z
  unfolding written writes
  Drained-cons cap x s y z k t ts p d = record {
    good = d.good;
    knows = λ q e. d.knows q (Sets-Knows p q e);
    min_txid = d.min_txid ∙ p.min_txid;
    shows = λ q.
        d.shows q
        ∙ ap (written q ts) (elim (Bool-cases (h.eqb q k)) [
          | inl f ↦ rw f (visible_self p q f)
          | inr f ↦ rw f (visible_other p q f)
        ]);
    stamps = λ q. elim (Bool-cases (h.eqb q k)) [
      | inl f ↦ rw f (
          d.stamps q ∙ elim (Bool-cases (writes q ts)) [
            | inl g ↦ rw g refl
            | inr g ↦ rw g (stamp_of_self p q f)
          ])
      | inr f ↦ rw f (d.stamps q ∙ rw (stamp_of_other p q f) refl)
    ];
    known = λ q e. elim (Bool-cases (h.eqb q k)) [
      | inl f ↦ d.knows q (rw (h.eq_of_eqb q k f, p.found) refl)
      | inr f ↦ d.known q (sym (ap (λ b. b || writes q ts) f) ∙ e)
    ];
  }

  -- The writes of a transaction, all clean, are taken into a cache in order without a panic: every key
  -- shows what was written last, or what it showed before, and the keys that were written have the
  -- stamp of the transaction.
  pub drain_tlocal_inc-Drained :
      (cap x : ℕ) (ts : List (K × ThreadCacheItem V)) (s : Arc K V)
      → IsGood cap s
      → All (λ t. is_clean t.1 ≡ true) ts
      → Ensures (Drained cap x s ts) (drain_tlocal_inc cap x ts s)
  unfolding drain_tlocal_inc written writes
  drain_tlocal_inc-Drained cap x [] s g c = record {
    good = g;
    knows = λ q e. e;
    min_txid = refl;
    shows = λ q. refl;
    stamps = λ q. refl;
    known = λ q e. cc;
  }
  drain_tlocal_inc-Drained cap x ((k, t) ∷ ts) s g c =
      Ensures-bind (λ y. Sets cap s y k (value_of t) x) (Drained cap x s ((k, t) ∷ ts))
        (drain_write cap x (k, t) s) (λ y. each (drain_write cap x) ts y)
        (drain_write-Sets cap x k t s g c.0)
        λ y e p.
          Ensures-imp (Drained cap x y ts) (Drained cap x s ((k, t) ∷ ts))
            (each (drain_write cap x) ts y)
            (drain_tlocal_inc-Drained cap x ts y (Sets-IsGood p) c.1)
            λ z d. Drained-cons cap x s y z k t ts p d
