-- ===== src/Arc/Drain.antt =====
-- src/arcache/mod.rs: how a commit takes the writes, the events of readers and the hits of its
-- transaction into the cache.
use concread.Arc.{
  Arc, freq_ll, rec_ll, ghost_freq_ll, ghost_rec_ll, haunted_ll, CacheItem, ThreadCacheItem,
  CacheEvent, CacheStats, append_n, extract, touch, shift, txid_of, stamp, weigh_freq, weigh_rec,
  set_item, include_new,
}
use concread.Assoc.{HashEq, lookup, slot}
use concread.Prelude.{
  ℕ, ◌+◌, List, [], ◌∷◌, Bool, true, false, Option, none, some, ◌>>=◌, ◌||◌, ◌==◌, ltb, leb,
  if◌then◌else◌,
}

-- A `for_each` over a list of which every round may panic.
abbrev pub each {ℓ κ} : {A : Type ℓ} {S : Type κ} → (A → S → Option S) → List A → S → Option S
each f [] s = some s
each f (a ∷ as_) s = f a s >>= λ s'. each f as_ s'

abbrev pub count_hit : Bool → CacheStats → CacheStats
count_hit true x = record x { reader_tlocal_hits = x.reader_tlocal_hits + 1 }
count_hit false x = record x { reader_hits = x.reader_hits + 1 }

abbrev pub some_slot {ℓ} : {K : Type ℓ} → List K → Option (List K)
some_slot [] = none
some_slot (k ∷ ks) = some (k ∷ ks)

module _ {ℓ κ} {K : Type ℓ} {V : Type κ} ⦃h : HashEq K⦄ where
  -- A write of `v` to a key in each of the states that it can have in the map.
  unfoldable pub write_item : ℕ → ℕ → K → V → Option (CacheItem V) → Arc K V → Option (Arc K V)
  write_item cap txid k v none s = some (include_new rec_ll (λ n. CacheItem.recent n v) k txid s)
  write_item cap txid k v (some (CacheItem.freq n w)) s = do
    s ← stamp n txid s
    s ← touch freq_ll n s
    some (set_item k (CacheItem.freq n v) s)
  write_item cap txid k v (some (CacheItem.recent n w)) s = do
    s ← stamp n txid s
    s ← shift rec_ll freq_ll n s
    some (set_item k (CacheItem.freq n v) s)
  write_item cap txid k v (some (CacheItem.ghost_freq n)) s = do
    s ← weigh_freq s
    s ← stamp n txid s
    s ← shift ghost_freq_ll freq_ll n s
    some (set_item k (CacheItem.freq n v) s)
  write_item cap txid k v (some (CacheItem.ghost_rec n)) s = do
    s ← weigh_rec cap s
    s ← stamp n txid s
    s ← shift ghost_rec_ll rec_ll n s
    some (set_item k (CacheItem.recent n v) s)
  write_item cap txid k v (some (CacheItem.haunted n)) s = do
    s ← stamp n txid s
    s ← shift haunted_ll rec_ll n s
    some (set_item k (CacheItem.recent n v) s)

  -- Whatever list the key is in, its node goes to the haunted ones.
  unfoldable pub remove_item : ℕ → K → Option (CacheItem V) → Arc K V → Option (Arc K V)
  remove_item txid k none s = some (include_new haunted_ll (λ n. CacheItem.haunted n) k txid s)
  remove_item txid k (some (CacheItem.freq n w)) s = do
    s ← stamp n txid s
    s ← shift freq_ll haunted_ll n s
    some (set_item k (CacheItem.haunted n) s)
  remove_item txid k (some (CacheItem.recent n w)) s = do
    s ← stamp n txid s
    s ← shift rec_ll haunted_ll n s
    some (set_item k (CacheItem.haunted n) s)
  remove_item txid k (some (CacheItem.ghost_freq n)) s = do
    s ← stamp n txid s
    s ← shift ghost_freq_ll haunted_ll n s
    some (set_item k (CacheItem.haunted n) s)
  remove_item txid k (some (CacheItem.ghost_rec n)) s = do
    s ← stamp n txid s
    s ← shift ghost_rec_ll haunted_ll n s
    some (set_item k (CacheItem.haunted n) s)
  remove_item txid k (some (CacheItem.haunted n)) s = do
    s ← stamp n txid s
    some (set_item k (CacheItem.haunted n) s)

  -- A dirty entry is a failed assertion.
  unfoldable pub drain_write : ℕ → ℕ → K × ThreadCacheItem V → Arc K V → Option (Arc K V)
  drain_write cap txid (k, ThreadCacheItem.present v clean) s =
      if clean then write_item cap txid k v (lookup k s.cache) s else none
  drain_write cap txid (k, ThreadCacheItem.removed clean) s =
      if clean then remove_item txid k (lookup k s.cache) s else none

  -- `tlocal` in the order in which the iterator of the map gives it.
  unfoldable pub drain_tlocal_inc :
      ℕ → ℕ → List (K × ThreadCacheItem V) → Arc K V → Option (Arc K V)
  drain_tlocal_inc cap txid tlocal s = each (drain_write cap txid) tlocal s

  -- A hit of a reader on one key of the bucket.
  unfoldable pub hit_item : K → Option (CacheItem V) → Arc K V → Option (Arc K V)
  hit_item k none s = none
  hit_item k (some (CacheItem.freq n v)) s = do
    s ← touch freq_ll n s
    some (set_item k (CacheItem.freq n v) s)
  hit_item k (some (CacheItem.recent n v)) s = do
    s ← shift rec_ll freq_ll n s
    some (set_item k (CacheItem.freq n v) s)
  hit_item k (some (CacheItem.ghost_freq n)) s = do
    s ← touch ghost_freq_ll n s
    some (set_item k (CacheItem.ghost_freq n) s)
  hit_item k (some (CacheItem.ghost_rec n)) s = do
    s ← touch ghost_rec_ll n s
    some (set_item k (CacheItem.ghost_rec n) s)
  hit_item k (some (CacheItem.haunted n)) s = some (set_item k (CacheItem.haunted n) s)

  unfoldable pub hit_key : K → Arc K V → Option (Arc K V)
  hit_key k s = hit_item k (lookup k s.cache) s

  -- An inclusion by a reader of `v`, which it read in the generation `txid`.
  unfoldable pub include_item : ℕ → ℕ → K → V → Option (CacheItem V) → Arc K V → Option (Arc K V)
  include_item cap txid k v none s =
      some
        (if leb s.min_txid txid then include_new rec_ll (λ n. CacheItem.recent n v) k txid s else s)
  include_item cap txid k v (some (CacheItem.freq n w)) s = do
    s ← touch freq_ll n s
    t ← txid_of n s
    if leb txid t || ltb txid s.min_txid
        then some s
        else do s ← stamp n txid s; some (set_item k (CacheItem.freq n v) s)
  include_item cap txid k v (some (CacheItem.recent n w)) s = do
    s ← shift rec_ll freq_ll n s
    t ← txid_of n s
    if leb txid t || ltb txid s.min_txid
        then some (set_item k (CacheItem.freq n w) s)
        else do s ← stamp n txid s; some (set_item k (CacheItem.freq n v) s)
  include_item cap txid k v (some (CacheItem.ghost_freq n)) s = do
    s ← weigh_freq s
    s ← extract ghost_freq_ll n s
    t ← txid_of n s
    if ltb txid t || ltb txid s.min_txid
        then some (append_n ghost_freq_ll n s)
        else do s ← stamp n txid (append_n freq_ll n s); some (set_item k (CacheItem.freq n v) s)
  include_item cap txid k v (some (CacheItem.ghost_rec n)) s = do
    s ← weigh_rec cap s
    t ← txid_of n s
    if ltb txid t || ltb txid s.min_txid then touch ghost_rec_ll n s else do
      s ← shift ghost_rec_ll rec_ll n s
      s ← stamp n txid s
      some (set_item k (CacheItem.recent n v) s)
  include_item cap txid k v (some (CacheItem.haunted n)) s = do
    t ← txid_of n s
    if ltb txid t || ltb txid s.min_txid then some s else do
      s ← shift haunted_ll rec_ll n s
      s ← stamp n txid s
      some (set_item k (CacheItem.recent n v) s)

  unfoldable pub drain_event : ℕ → CacheEvent K V → Arc K V → Option (Arc K V)
  drain_event cap (CacheEvent.hit t k_hash is_tlocal) s =
      each hit_key (slot k_hash s.cache) (record s { stats = count_hit is_tlocal s.stats })
  drain_event cap (CacheEvent.inclusion t k iv txid) s =
      include_item cap txid k iv (lookup k s.cache)
        (record s { stats = record s.stats { reader_includes = s.stats.reader_includes + 1 } })

  abbrev pub event_time : CacheEvent K V → ℕ
  event_time (CacheEvent.hit t k_hash is_tlocal) = t
  event_time (CacheEvent.inclusion t k iv txid) = t

  -- The queue of the channel, of which the events after the first of `commit_ts` or later stay.
  unfoldable pub drain_rx :
      ℕ → ℕ → List (CacheEvent K V) → Arc K V → Option (List (CacheEvent K V) × Arc K V)
  drain_rx cap commit_ts [] s = some ([], s)
  drain_rx cap commit_ts (e ∷ rx) s = drain_event cap e s >>= λ s'.
      elim (leb commit_ts (event_time e)) [
        | true ↦ some (rx, s')
        | false ↦ drain_rx cap commit_ts rx s'
      ]

  -- A hit of the transaction itself on one key of the bucket, which does not count if the
  -- transaction wrote the key.
  unfoldable pub write_hit_item : ℕ → K → Option (CacheItem V) → Arc K V → Option (Arc K V)
  write_hit_item txid k (some (CacheItem.freq n v)) s = do
    t ← txid_of n s
    if t == txid then some s else do s ← touch freq_ll n s; some (set_item k (CacheItem.freq n v) s)
  write_hit_item txid k (some (CacheItem.recent n v)) s = do
    t ← txid_of n s
    if t == txid
        then some s
        else do s ← shift rec_ll freq_ll n s; some (set_item k (CacheItem.freq n v) s)
  write_hit_item txid k (some (CacheItem.ghost_freq n)) s = some s
  write_hit_item txid k (some (CacheItem.ghost_rec n)) s = some s
  write_hit_item txid k (some (CacheItem.haunted n)) s = some s
  write_hit_item txid k none s = none

  unfoldable pub write_hit_key : ℕ → K → Arc K V → Option (Arc K V)
  write_hit_key txid k s = write_hit_item txid k (lookup k s.cache) s

  -- A hash without a bucket is unreachable.
  unfoldable pub drain_hit : ℕ → ℕ → Arc K V → Option (Arc K V)
  drain_hit txid k_hash s = do ks ← some_slot (slot k_hash s.cache); each (write_hit_key txid) ks s

  unfoldable pub drain_tlocal_hits : ℕ → List ℕ → Arc K V → Option (Arc K V)
  drain_tlocal_hits txid hits s = each (drain_hit txid) hits s
