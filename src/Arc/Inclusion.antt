-- ===== src/Arc/Inclusion.antt =====
-- src/arcache/mod.rs: an inclusion by a reader, in each state of its key.
use concread.Arc.{
  Arc, freq_ll, rec_ll, ghost_freq_ll, ghost_rec_ll, haunted_ll, CacheItem, CacheItemInner, llp,
  ll_of, to_vref, set_item, txid_of, stamp, shift, touch, extract, append_n, weigh_freq, weigh_rec,
}
use concread.Arc.Drain.{include_item}
use concread.Arc.Fresh.{include_new-Sets}
use concread.Arc.Inv.{IsCache}
use concread.Arc.Items.{begun, shift-Track}
use concread.Arc.Sets.{Sets, set_item-Sets, Track-Sets}
use concread.Arc.Track.{
  Track, extract-Track, append_n-Track, touch-Track, stamp-Track, txid_of-Track, weigh_freq-Track,
  weigh_rec-Track,
}
use concread.Assoc.{HashEq, lookup}
use concread.Prelude.{
  ℕ, Bool, true, false, Option, none, some, ◌≡◌, refl, subst, ◌≤◌, ◌<◌, ◌||◌, ltb, leb,
  if◌then◌else◌, Bool-cases, inl, inr, ◌⊎◌, arith, Ensures, Ensures-bind, Ensures-imp, ◌>>=◌,
}

older_live : (x t m : ℕ) → (leb x t || ltb x m) ≡ true → (x ≤ t) ⊎ (x < m)
older_live x t m e = elim (Bool-cases (leb x t)) [
  | inl f ↦ inl (ground arith)
  | inr f ↦ inr (ground arith)
]

newer_live : (x t m : ℕ) → (leb x t || ltb x m) ≡ false → (t < x) × (m ≤ x)
newer_live x t m e = ground arith

older_ghost : (x t m : ℕ) → (ltb x t || ltb x m) ≡ true → (x < t) ⊎ (x < m)
older_ghost x t m e = elim (Bool-cases (ltb x t)) [
  | inl f ↦ inl (ground arith)
  | inr f ↦ inr (ground arith)
]

newer_ghost : (x t m : ℕ) → (ltb x t || ltb x m) ≡ false → (t ≤ x) × (m ≤ x)
newer_ghost x t m e = ground arith

module _ {κ} {V : Type κ} where
  -- An inclusion from the transaction `x` comes too late for a key in this state, last changed by
  -- `t`: a value is only replaced by a newer one, and a ghost also by one that is as new.
  abbrev pub IsStale : CacheItem V → (x t : ℕ) → Type 0
  IsStale (CacheItem.freq n v) x t = x ≤ t
  IsStale (CacheItem.recent n v) x t = x ≤ t
  IsStale (CacheItem.ghost_freq n) x t = x < t
  IsStale (CacheItem.ghost_rec n) x t = x < t
  IsStale (CacheItem.haunted n) x t = x < t

  abbrev pub IsFresh : CacheItem V → (x t : ℕ) → Type 0
  IsFresh (CacheItem.freq n v) x t = t < x
  IsFresh (CacheItem.recent n v) x t = t < x
  IsFresh (CacheItem.ghost_freq n) x t = t ≤ x
  IsFresh (CacheItem.ghost_rec n) x t = t ≤ x
  IsFresh (CacheItem.haunted n) x t = t ≤ x

  pub IsFresh-le : (c : CacheItem V) (x t : ℕ) → IsFresh c x t → t ≤ x
  IsFresh-le (CacheItem.freq n v) x t e = omega arith
  IsFresh-le (CacheItem.recent n v) x t e = omega arith
  IsFresh-le (CacheItem.ghost_freq n) x t e = e
  IsFresh-le (CacheItem.ghost_rec n) x t e = e
  IsFresh-le (CacheItem.haunted n) x t e = e

module _ {ℓ κ} {K : Type ℓ} {V : Type κ} ⦃h : HashEq K⦄ (cap : ℕ) (s : Arc K V) (k : K) (v : V)
    (x : ℕ) (w : IsCache s) (l : s.p ≤ cap) where
  -- A key that is there keeps its value if the inclusion comes too late for its state or is from
  -- before the watermark; else it shows the included value.
  abbrev pub Included : CacheItem V → Arc K V → Type (ℓ ⊔ κ)
  Included c z =
      (t : ℕ) × (txid_of (llp c) s ≡ some t)
      × (((IsStale c x t ⊎ (x < s.min_txid)) × Sets cap s z k (to_vref c) t)
          ⊎ (IsFresh c x t × (s.min_txid ≤ x) × Sets cap s z k (some v) x))

  abbrev pub IncludedNew : Arc K V → Type (ℓ ⊔ κ)
  IncludedNew z = ((s.min_txid ≤ x) × Sets cap s z k (some v) x) ⊎ ((x < s.min_txid) × (z ≡ s))

  pub include_item-IncludedNew :
      lookup k s.cache ≡ none → Ensures IncludedNew (include_item cap x k v none s)
  unfolding include_item to_vref
  include_item-IncludedNew e = elim (Bool-cases (leb s.min_txid x)) [
    | inl f ↦ rw f (
        inl (
          ground arith,
          include_new-Sets cap s k rec_ll (λ n. CacheItem.recent n v) x w l e refl refl,
        ))
    | inr f ↦ rw f (inr (ground arith, refl))
  ]

  -- What is decided by `b`, after `s'`.
  decide :
      (c : CacheItem V) (t : ℕ) (b : Bool) (yes_ no_ : Option (Arc K V))
      → txid_of (llp c) s ≡ some t
      → (b ≡ true → IsStale c x t ⊎ (x < s.min_txid))
      → (b ≡ false → IsFresh c x t × (s.min_txid ≤ x))
      → (b ≡ true → Ensures (λ z. Sets cap s z k (to_vref c) t) yes_)
      → (b ≡ false → Ensures (λ z. Sets cap s z k (some v) x) no_)
      → Ensures (Included c) (if b then yes_ else no_)
  decide c t true y n at a b p q =
      Ensures-imp (λ z. Sets cap s z k (to_vref c) t) (Included c) y (p refl)
        λ z r. (t, at, inl (a refl, r))
  decide c t false y n at a b p q =
      Ensures-imp (λ z. Sets cap s z k (some v) x) (Included c) n (q refl)
        λ z r. (t, at, inr ((b refl).0, (b refl).1, r))

  decide_live :
      (c : CacheItem V) (t m : ℕ) (yes_ no_ : Option (Arc K V))
      → (x ≤ t → IsStale c x t)
      → (t < x → IsFresh c x t)
      → m ≡ s.min_txid
      → txid_of (llp c) s ≡ some t
      → Ensures (λ z. Sets cap s z k (to_vref c) t) yes_
      → Ensures (λ z. Sets cap s z k (some v) x) no_
      → Ensures (Included c) (if leb x t || ltb x m then yes_ else no_)
  decide_live c t m y n late early same at p q =
      decide c t (leb x t || ltb x m) y n at
        (λ f. elim (older_live x t m f) [
          | inl e ↦ inl (late e)
          | inr e ↦ inr (subst (λ y. x < y) same e)
        ])
        (λ f. let (e, g) = newer_live x t m f in (early e, subst (λ y. y ≤ x) same g)) (λ f. p)
        (λ f. q)

  decide_ghost :
      (c : CacheItem V) (t m : ℕ) (yes_ no_ : Option (Arc K V))
      → (x < t → IsStale c x t)
      → (t ≤ x → IsFresh c x t)
      → m ≡ s.min_txid
      → txid_of (llp c) s ≡ some t
      → Ensures (λ z. Sets cap s z k (to_vref c) t) yes_
      → Ensures (λ z. Sets cap s z k (some v) x) no_
      → Ensures (Included c) (if ltb x t || ltb x m then yes_ else no_)
  decide_ghost c t m y n late early same at p q =
      decide c t (ltb x t || ltb x m) y n at
        (λ f. elim (older_ghost x t m f) [
          | inl e ↦ inl (late e)
          | inr e ↦ inr (subst (λ y. x < y) same e)
        ])
        (λ f. let (e, g) = newer_ghost x t m f in (early e, subst (λ y. y ≤ x) same g)) (λ f. p)
        (λ f. q)

  stamp_set-Sets :
      (c c' : CacheItem V) (s' : Arc K V) (i : CacheItemInner K)
      → lookup k s.cache ≡ some c
      → llp c' ≡ llp c
      → i.key ≡ k
      → Track cap s s' (llp c) (some (ll_of c')) i
      → Ensures
          (λ z. Sets cap s z k (to_vref c') x)
          (stamp (llp c) x s' >>= λ s. some (set_item k c' s))
  stamp_set-Sets c c' s' i e n named t =
      Ensures-bind (λ z. Track cap s z (llp c) (some (ll_of c')) (record i { txid = x })) _
        (stamp (llp c) x s') _ (stamp-Track cap s s' (llp c) (some (ll_of c')) i x t)
        λ z p t1. set_item-Sets cap s z k c c' (record i { txid = x }) w e n named t1

  shift-stamp-Sets :
      (c c' : CacheItem V) (s' : Arc K V) (i : CacheItemInner K)
      → lookup k s.cache ≡ some c
      → llp c' ≡ llp c
      → i.key ≡ k
      → Track cap s s' (llp c) (some (ll_of c)) i
      → Ensures
          (λ z. Sets cap s z k (to_vref c') x)
          (shift (ll_of c) (ll_of c') (llp c) s' >>= λ s.
            stamp (llp c) x s >>= λ s. some (set_item k c' s))
  shift-stamp-Sets c c' s' i e n named t =
      Ensures-bind (λ z. Track cap s z (llp c) (some (ll_of c')) i) _
        (shift (ll_of c) (ll_of c') (llp c) s') _
        (shift-Track cap s s' (llp c) (ll_of c) (ll_of c') i t)
        λ z p t1. stamp_set-Sets c c' z i e n named t1

  pub include_item-Included :
      (c : CacheItem V)
      → lookup k s.cache ≡ some c
      → Ensures (Included c) (include_item cap x k v (some c) s)
  unfolding include_item to_vref
  include_item-Included (CacheItem.freq n u) e =
      let c = CacheItem.freq n u in
      let (i, named, t, at) = begun cap s k w l c e in
      Ensures-bind (λ z. Track cap s z n (some freq_ll) i) _ (touch freq_ll n s) _
        (touch-Track cap s s n freq_ll i t)
        λ z p t1. rw (txid_of-Track cap s z n (some freq_ll) i t1) (
          decide_live c i.txid z.min_txid (some z)
            (stamp n x z >>= λ s. some (set_item k (CacheItem.freq n v) s)) (λ e. e) (λ e. e)
            t1.min_txid at (Track-Sets cap s z k c i w e named t1)
            (stamp_set-Sets c (CacheItem.freq n v) z i e refl named t1))
  include_item-Included (CacheItem.recent n u) e =
      let c = CacheItem.recent n u in
      let (i, named, t, at) = begun cap s k w l c e in
      Ensures-bind (λ z. Track cap s z n (some freq_ll) i) _ (shift rec_ll freq_ll n s) _
        (shift-Track cap s s n rec_ll freq_ll i t)
        λ z p t1. rw (txid_of-Track cap s z n (some freq_ll) i t1) (
          decide_live c i.txid z.min_txid (some (set_item k (CacheItem.freq n u) z))
            (stamp n x z >>= λ s. some (set_item k (CacheItem.freq n v) s)) (λ e. e) (λ e. e)
            t1.min_txid at (set_item-Sets cap s z k c (CacheItem.freq n u) i w e refl named t1)
            (stamp_set-Sets c (CacheItem.freq n v) z i e refl named t1))
  include_item-Included (CacheItem.ghost_freq n) e =
      let c : CacheItem V = CacheItem.ghost_freq n in
      let (i, named, t, at) = begun cap s k w l c e in
      Ensures-bind (λ z. Track cap s z n (some ghost_freq_ll) i) _ (weigh_freq s) _
        (weigh_freq-Track cap s s n i t)
        λ y o t0.
          Ensures-bind (λ z. Track cap s z n none i) _ (extract ghost_freq_ll n y) _
            (extract-Track cap s y n ghost_freq_ll i t0)
            λ z p t1. rw (txid_of-Track cap s z n none i t1) (
              decide_ghost c i.txid z.min_txid (some (append_n ghost_freq_ll n z))
                (stamp n x (append_n freq_ll n z) >>= λ s. some (set_item k (CacheItem.freq n v) s))
                (λ e. e) (λ e. e) t1.min_txid at
                (Track-Sets cap s (append_n ghost_freq_ll n z) k c i w e named
                  (append_n-Track cap s z n ghost_freq_ll i t1))
                (stamp_set-Sets c (CacheItem.freq n v) (append_n freq_ll n z) i e refl named
                  (append_n-Track cap s z n freq_ll i t1)))
  include_item-Included (CacheItem.ghost_rec n) e =
      let c : CacheItem V = CacheItem.ghost_rec n in
      let (i, named, t, at) = begun cap s k w l c e in
      Ensures-bind (λ z. Track cap s z n (some ghost_rec_ll) i) _ (weigh_rec cap s) _
        (weigh_rec-Track cap s s n i t)
        λ z p t1. rw (txid_of-Track cap s z n (some ghost_rec_ll) i t1) (
          decide_ghost c i.txid z.min_txid (touch ghost_rec_ll n z)
            (shift ghost_rec_ll rec_ll n z >>= λ s.
              stamp n x s >>= λ s. some (set_item k (CacheItem.recent n v) s))
            (λ e. e) (λ e. e) t1.min_txid at
            (Ensures-imp (λ y. Track cap s y n (some ghost_rec_ll) i)
              (λ y. Sets cap s y k (to_vref c) i.txid) (touch ghost_rec_ll n z)
              (touch-Track cap s z n ghost_rec_ll i t1)
              λ y t2. Track-Sets cap s y k c i w e named t2)
            (shift-stamp-Sets c (CacheItem.recent n v) z i e refl named t1))
  include_item-Included (CacheItem.haunted n) e =
      let c : CacheItem V = CacheItem.haunted n in
      let (i, named, t, at) = begun cap s k w l c e in
      rw at (
        decide_ghost c i.txid s.min_txid (some s)
          (shift haunted_ll rec_ll n s >>= λ s.
            stamp n x s >>= λ s. some (set_item k (CacheItem.recent n v) s))
          (λ e. e) (λ e. e) refl at (Track-Sets cap s s k c i w e named t)
          (shift-stamp-Sets c (CacheItem.recent n v) s i e refl named t))
