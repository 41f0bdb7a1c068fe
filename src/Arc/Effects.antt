-- ===== src/Arc/Effects.antt =====
-- src/arcache/mod.rs: what a step on one key does to what the keys show and to their stamps.
use concread.Arc.{Arc, CacheItem, llp, txid_of, visible}
use concread.Arc.Inv.{IsCache}
use concread.Arc.Items.{Stays}
use concread.Arc.Sets.{Sets}
use concread.Assoc.{HashEq, lookup}
use concread.Prelude.{
  ℕ, true, false, Option, some, ◌≡◌, refl, sym, ◌∙◌, ◌≤◌, is_some, Bool-cases, inl, inr, ◌>>=◌,
  Option-cases, List, [], ◌∷◌, All, Ensures, Ensures-bind,
}
use concread.Arc.Drain.{each}

module _ {ℓ κ} {K : Type ℓ} {V : Type κ} ⦃h : HashEq K⦄ where
  -- The transaction that a key was last changed by.
  unfoldable pub stamp_of : K → Arc K V → Option ℕ
  stamp_of k s = do c ← lookup k s.cache; txid_of (llp c) s

  -- The cache is in order, and its weight within its size.
  pub record IsGood (cap : ℕ) (s : Arc K V) : Type (ℓ ⊔ κ) where
    pub inv : IsCache s
    pub light : s.p ≤ cap

  -- No key is forgotten.
  abbrev pub Knows : Arc K V → Arc K V → Type ℓ
  Knows s z = (q : K) → is_some (lookup q s.cache) ≡ true → is_some (lookup q z.cache) ≡ true

  module _ {cap : ℕ} {s z : Arc K V} {k : K} {v : Option V} {x : ℕ} (p : Sets cap s z k v x) where
    pub visible_self : (q : K) → h.eqb q k ≡ true → visible q z ≡ v
    unfolding visible
    visible_self q e = rw (h.eq_of_eqb q k e, p.found) p.shows

    pub visible_other : (q : K) → h.eqb q k ≡ false → visible q z ≡ visible q s
    unfolding visible
    visible_other q e = rw (p.others q e) refl

    pub stamp_of_self : (q : K) → h.eqb q k ≡ true → stamp_of q z ≡ some x
    unfolding stamp_of
    stamp_of_self q e = rw (h.eq_of_eqb q k e, p.found) p.stamped

    pub stamp_of_other : (q : K) → h.eqb q k ≡ false → stamp_of q z ≡ stamp_of q s
    unfolding stamp_of
    stamp_of_other q e = elim (Option-cases (lookup q s.cache)) [
      | inl n ↦ rw (p.others q e, n) refl
      | inr (c, f) ↦ rw (p.others q e, f) (p.stamps q c e f)
    ]

    pub Sets-Knows : Knows s z
    Sets-Knows q e = elim (Bool-cases (h.eqb q k)) [
      | inl f ↦ rw (h.eq_of_eqb q k f, p.found) refl
      | inr f ↦ rw (p.others q f) e
    ]

    pub Sets-IsGood : IsGood cap z
    Sets-IsGood = record { inv = p.inv; light = p.light }

  -- Nothing changes but the order of the lists.
  pub record IsCalm (cap : ℕ) (s z : Arc K V) : Type (ℓ ⊔ κ) where
    pub good : IsGood cap z
    pub knows : Knows s z
    pub shows : (q : K) → visible q z ≡ visible q s
    pub stamps : (q : K) → stamp_of q z ≡ stamp_of q s
    pub min_txid : z.min_txid ≡ s.min_txid

  pub Stays-IsCalm :
      (cap : ℕ) (s z : Arc K V) (k : K) (w : IsCache s) (l : s.p ≤ cap) (c : CacheItem V)
      → lookup k s.cache ≡ some c
      → Stays cap s k w l c z
      → IsCalm cap s z
  unfolding visible stamp_of
  Stays-IsCalm cap s z k w l c e (x, at, p) = record {
    good = Sets-IsGood p;
    knows = Sets-Knows p;
    shows = λ q. elim (Bool-cases (h.eqb q k)) [
      | inl f ↦ visible_self p q f ∙ rw (h.eq_of_eqb q k f, e) refl
      | inr f ↦ visible_other p q f
    ];
    stamps = λ q. elim (Bool-cases (h.eqb q k)) [
      | inl f ↦ stamp_of_self p q f ∙ rw (h.eq_of_eqb q k f, e) (sym at)
      | inr f ↦ stamp_of_other p q f
    ];
    min_txid = p.min_txid;
  }

  pub IsCalm-refl : (cap : ℕ) (s : Arc K V) → IsGood cap s → IsCalm cap s s
  IsCalm-refl cap s g = record {
    good = g;
    knows = λ q e. e;
    shows = λ q. refl;
    stamps = λ q. refl;
    min_txid = refl;
  }

  pub IsCalm-trans : (cap : ℕ) (s y z : Arc K V) → IsCalm cap s y → IsCalm cap y z → IsCalm cap s z
  IsCalm-trans cap s y z a b = record {
    good = b.good;
    knows = λ q e. b.knows q (a.knows q e);
    shows = λ q. b.shows q ∙ a.shows q;
    stamps = λ q. b.stamps q ∙ a.stamps q;
    min_txid = b.min_txid ∙ a.min_txid;
  }

-- A loop of which every round keeps `P`.
pub each-Ensures {ℓ κ μ ν} :
    {A : Type ℓ} {S : Type κ} (P : S → Type μ) (Q : A → Type ν) (f : A → S → Option S)
    → ((a : A) (s : S) → Q a → P s → Ensures P (f a s))
    → (xs : List A) (s : S) → All Q xs
    → P s
    → Ensures P (each f xs s)
each-Ensures P Q f keep [] s q p = p
each-Ensures P Q f keep (x ∷ xs) s q p =
    Ensures-bind P P (f x s) (λ z. each f xs z) (keep x s q.0 p)
      λ z e p'. each-Ensures P Q f keep xs z q.1 p'
