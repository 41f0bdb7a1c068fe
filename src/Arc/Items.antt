-- ===== src/Arc/Items.antt =====
-- src/arcache/mod.rs: what a write, a hit and an inclusion make of the entry of a key.
use concread.Arc.{
  Arc, LlName, freq_ll, rec_ll, ghost_freq_ll, ghost_rec_ll, haunted_ll, CacheItem, CacheItemInner,
  llp, ll_of, to_vref, set_item, txid_of, stamp, shift, touch, extract, weigh_freq, weigh_rec,
}
use concread.Arc.Drain.{write_item, remove_item, hit_item, write_hit_item}
use concread.Arc.Fresh.{include_new-Sets}
use concread.Arc.Inv.{IsCache}
use concread.Arc.Sets.{Sets, begin-Track, set_item-Sets, Track-Sets}
use concread.Arc.Track.{
  Track, extract-Track, append_n-Track, touch-Track, stamp-Track, weigh_freq-Track, weigh_rec-Track,
}
use concread.Assoc.{HashEq, lookup}
use concread.Prelude.{
  ℕ, Option, none, some, ◌≡◌, refl, sym, subst, ◌==◌, ◌≤◌, Bool-cases, inl, inr, Ensures,
  Ensures-bind, Ensures-imp, ◌>>=◌,
}

module _ {ℓ κ} {K : Type ℓ} {V : Type κ} ⦃h : HashEq K⦄ where
  pub shift-Track :
      (cap : ℕ) (s s' : Arc K V) (n : ℕ) (t u : LlName) (i : CacheItemInner K)
      → Track cap s s' n (some t) i
      → Ensures (λ z. Track cap s z n (some u) i) (shift t u n s')
  shift-Track cap s s' n t u i w =
      Ensures-bind (λ z. Track cap s z n none i) _ (extract t n s') _
        (extract-Track cap s s' n t i w) λ z e x. append_n-Track cap s z n u i x

  module _ (cap : ℕ) (s : Arc K V) (k : K) (c : CacheItem V) (w : IsCache s) (l : s.p ≤ cap)
      (e : lookup k s.cache ≡ some c) where
    -- The way of the node from the list of `c` to that of `c'`, with a new stamp.
    pub stamp-shift-Sets :
        (s' : Arc K V) (c' : CacheItem V) (x : ℕ) (i : CacheItemInner K)
        → llp c' ≡ llp c
        → i.key ≡ k
        → Track cap s s' (llp c) (some (ll_of c)) i
        → Ensures
            (λ z. Sets cap s z k (to_vref c') x)
            (stamp (llp c) x s' >>= λ s.
              shift (ll_of c) (ll_of c') (llp c) s >>= λ s. some (set_item k c' s))
    stamp-shift-Sets s' c' x i n named t =
        Ensures-bind (λ z. Track cap s z (llp c) (some (ll_of c)) (record i { txid = x })) _
          (stamp (llp c) x s') _ (stamp-Track cap s s' (llp c) (some (ll_of c)) i x t)
          λ z p t1.
            Ensures-bind (λ z. Track cap s z (llp c) (some (ll_of c')) (record i { txid = x })) _
              (shift (ll_of c) (ll_of c') (llp c) z) _
              (shift-Track cap s z (llp c) (ll_of c) (ll_of c') (record i { txid = x }) t1)
              λ y q t2. set_item-Sets cap s y k c c' (record i { txid = x }) w e n named t2

  module _ (cap : ℕ) (s : Arc K V) (k : K) (w : IsCache s) (l : s.p ≤ cap) where
    -- Each list that a state names is that of the entry, so its node is there.
    pub begun :
        (c : CacheItem V)
        → lookup k s.cache ≡ some c
        → (i : CacheItemInner K) × (i.key ≡ k)
          × Track cap s s (llp c) (some (ll_of c)) i
          × (txid_of (llp c) s ≡ some i.txid)
    begun c e = begin-Track cap s k c w l e

    restated :
        (c c' : CacheItem V) (x : ℕ)
        → lookup k s.cache ≡ some c
        → llp c' ≡ llp c
        → Ensures
            (λ z. Sets cap s z k (to_vref c') x)
            (stamp (llp c) x s >>= λ s.
              shift (ll_of c) (ll_of c') (llp c) s >>= λ s. some (set_item k c' s))
    restated c c' x e n =
        let (i, named, t, at) = begun c e in stamp-shift-Sets cap s k c w l e s c' x i n named t

    touched :
        (c c' : CacheItem V) (s' : Arc K V) (i : CacheItemInner K)
        → lookup k s.cache ≡ some c
        → llp c' ≡ llp c
        → ll_of c' ≡ ll_of c
        → i.key ≡ k
        → Track cap s s' (llp c) (some (ll_of c)) i
        → Ensures
            (λ z. Sets cap s z k (to_vref c') i.txid)
            (touch (ll_of c) (llp c) s' >>= λ s. some (set_item k c' s))
    touched c c' s' i e n u named t =
        Ensures-bind (λ z. Track cap s z (llp c) (some (ll_of c)) i) _ (touch (ll_of c) (llp c) s')
          _ (touch-Track cap s s' (llp c) (ll_of c) i t)
          λ z p t1.
            set_item-Sets cap s z k c c' i w e n named
              (subst (λ y. Track cap s z (llp c) (some y) i) (sym u) t1)

    shifted :
        (c c' : CacheItem V) (s' : Arc K V) (i : CacheItemInner K)
        → lookup k s.cache ≡ some c
        → llp c' ≡ llp c
        → i.key ≡ k
        → Track cap s s' (llp c) (some (ll_of c)) i
        → Ensures
            (λ z. Sets cap s z k (to_vref c') i.txid)
            (shift (ll_of c) (ll_of c') (llp c) s' >>= λ s. some (set_item k c' s))
    shifted c c' s' i e n named t =
        Ensures-bind (λ z. Track cap s z (llp c) (some (ll_of c')) i) _
          (shift (ll_of c) (ll_of c') (llp c) s') _
          (shift-Track cap s s' (llp c) (ll_of c) (ll_of c') i t)
          λ z p t1. set_item-Sets cap s z k c c' i w e n named t1

    -- A write shows the value, with the stamp of the transaction.
    pub write_item-Sets :
        (x : ℕ) (v : V) (o : Option (CacheItem V))
        → lookup k s.cache ≡ o
        → Ensures (λ z. Sets cap s z k (some v) x) (write_item cap x k v o s)
    unfolding write_item to_vref
    write_item-Sets x v none e =
        include_new-Sets cap s k rec_ll (λ n. CacheItem.recent n v) x w l e refl refl
    write_item-Sets x v (some (CacheItem.freq n u)) e =
        let (i, named, t, at) = begun (CacheItem.freq n u) e in
        Ensures-bind (λ z. Track cap s z n (some freq_ll) (record i { txid = x })) _ (stamp n x s) _
          (stamp-Track cap s s n (some freq_ll) i x t)
          λ z p t1.
            touched (CacheItem.freq n u) (CacheItem.freq n v) z (record i { txid = x }) e refl refl
              named t1
    write_item-Sets x v (some (CacheItem.recent n u)) e =
        restated (CacheItem.recent n u) (CacheItem.freq n v) x e refl
    write_item-Sets x v (some (CacheItem.ghost_freq n)) e =
        let (i, named, t, at) = begun (CacheItem.ghost_freq n) e in
        Ensures-bind (λ z. Track cap s z n (some ghost_freq_ll) i) _ (weigh_freq s) _
          (weigh_freq-Track cap s s n i t)
          λ z p t1.
            stamp-shift-Sets cap s k (CacheItem.ghost_freq n) w l e z (CacheItem.freq n v) x i refl
              named t1
    write_item-Sets x v (some (CacheItem.ghost_rec n)) e =
        let (i, named, t, at) = begun (CacheItem.ghost_rec n) e in
        Ensures-bind (λ z. Track cap s z n (some ghost_rec_ll) i) _ (weigh_rec cap s) _
          (weigh_rec-Track cap s s n i t)
          λ z p t1.
            stamp-shift-Sets cap s k (CacheItem.ghost_rec n) w l e z (CacheItem.recent n v) x i refl
              named t1
    write_item-Sets x v (some (CacheItem.haunted n)) e =
        restated (CacheItem.haunted n) (CacheItem.recent n v) x e refl

    -- A removed key shows nothing, with the stamp of the transaction.
    pub remove_item-Sets :
        (x : ℕ) (o : Option (CacheItem V))
        → lookup k s.cache ≡ o
        → Ensures (λ z. Sets cap s z k none x) (remove_item x k o s)
    unfolding remove_item to_vref
    remove_item-Sets x none e =
        include_new-Sets cap s k haunted_ll (λ n. CacheItem.haunted n) x w l e refl refl
    remove_item-Sets x (some (CacheItem.freq n u)) e =
        restated (CacheItem.freq n u) (CacheItem.haunted n) x e refl
    remove_item-Sets x (some (CacheItem.recent n u)) e =
        restated (CacheItem.recent n u) (CacheItem.haunted n) x e refl
    remove_item-Sets x (some (CacheItem.ghost_freq n)) e =
        restated (CacheItem.ghost_freq n) (CacheItem.haunted n) x e refl
    remove_item-Sets x (some (CacheItem.ghost_rec n)) e =
        restated (CacheItem.ghost_rec n) (CacheItem.haunted n) x e refl
    remove_item-Sets x (some (CacheItem.haunted n)) e =
        let (i, named, t, at) = begun (CacheItem.haunted n) e in
        Ensures-bind (λ z. Track cap s z n (some haunted_ll) (record i { txid = x })) _
          (stamp n x s) _ (stamp-Track cap s s n (some haunted_ll) i x t)
          λ z p t1.
            set_item-Sets cap s z k (CacheItem.haunted n) (CacheItem.haunted n)
              (record i { txid = x }) w e refl named t1

    -- A hit shows what was there, with the stamp that was there.
    abbrev pub Stays : CacheItem V → Arc K V → Type (ℓ ⊔ κ)
    Stays c z = (x : ℕ) × (txid_of (llp c) s ≡ some x) × Sets cap s z k (to_vref c) x

    stays :
        (c : CacheItem V) (i : CacheItemInner K) (r : Option (Arc K V))
        → txid_of (llp c) s ≡ some i.txid
        → Ensures (λ z. Sets cap s z k (to_vref c) i.txid) r
        → Ensures (Stays c) r
    stays c i r at p =
        Ensures-imp (λ z. Sets cap s z k (to_vref c) i.txid) (Stays c) r p λ z q. (i.txid, at, q)

    pub hit_item-Stays :
        (c : CacheItem V) → lookup k s.cache ≡ some c → Ensures (Stays c) (hit_item k (some c) s)
    unfolding hit_item to_vref
    hit_item-Stays (CacheItem.freq n v) e =
        let c = CacheItem.freq n v in
        let (i, named, t, at) = begun c e in stays c i _ at (touched c c s i e refl refl named t)
    hit_item-Stays (CacheItem.recent n v) e =
        let c = CacheItem.recent n v in
        let (i, named, t, at) = begun c e in
        stays c i _ at (shifted c (CacheItem.freq n v) s i e refl named t)
    hit_item-Stays (CacheItem.ghost_freq n) e =
        let c : CacheItem V = CacheItem.ghost_freq n in
        let (i, named, t, at) = begun c e in stays c i _ at (touched c c s i e refl refl named t)
    hit_item-Stays (CacheItem.ghost_rec n) e =
        let c : CacheItem V = CacheItem.ghost_rec n in
        let (i, named, t, at) = begun c e in stays c i _ at (touched c c s i e refl refl named t)
    hit_item-Stays (CacheItem.haunted n) e =
        let c : CacheItem V = CacheItem.haunted n in
        let (i, named, t, at) = begun c e in
        (i.txid, at, set_item-Sets cap s s k c c i w e refl named t)

    pub write_hit_item-Stays :
        (x : ℕ) (c : CacheItem V)
        → lookup k s.cache ≡ some c
        → Ensures (Stays c) (write_hit_item x k (some c) s)
    unfolding write_hit_item to_vref
    write_hit_item-Stays x (CacheItem.freq n v) e =
        let c = CacheItem.freq n v in
        let (i, named, t, at) = begun c e in
        rw at (elim (Bool-cases (i.txid == x)) [
          | inl f ↦ rw f (i.txid, at, Track-Sets cap s s k c i w e named t)
          | inr f ↦ rw f (stays c i _ at (touched c c s i e refl refl named t))
        ])
    write_hit_item-Stays x (CacheItem.recent n v) e =
        let c = CacheItem.recent n v in
        let (i, named, t, at) = begun c e in
        rw at (elim (Bool-cases (i.txid == x)) [
          | inl f ↦ rw f (i.txid, at, Track-Sets cap s s k c i w e named t)
          | inr f ↦ rw f (stays c i _ at (shifted c (CacheItem.freq n v) s i e refl named t))
        ])
    write_hit_item-Stays x (CacheItem.ghost_freq n) e =
        let c : CacheItem V = CacheItem.ghost_freq n in
        let (i, named, t, at) = begun c e in (i.txid, at, Track-Sets cap s s k c i w e named t)
    write_hit_item-Stays x (CacheItem.ghost_rec n) e =
        let c : CacheItem V = CacheItem.ghost_rec n in
        let (i, named, t, at) = begun c e in (i.txid, at, Track-Sets cap s s k c i w e named t)
    write_hit_item-Stays x (CacheItem.haunted n) e =
        let c : CacheItem V = CacheItem.haunted n in
        let (i, named, t, at) = begun c e in (i.txid, at, Track-Sets cap s s k c i w e named t)
