-- ===== src/Arc/Evict.antt =====
-- src/arcache/mod.rs: the eviction at the end of a commit, and the move to the ghost lists at its
-- beginning if the cache is cleared. `debug` is a build with debug assertions and overflow checks.
use concread.Arc.{
  Arc, LlName, freq_ll, rec_ll, ghost_freq_ll, ghost_rec_ll, haunted_ll, CacheItem, append_n, pop,
  stamp, set_item, ll_len,
}
use concread.Assoc.{HashEq, lookup}
use concread.Prelude.{
  ℕ, zero, suc, ◌+◌, ◌-◌, ◌^◌, Bool, true, false, Option, none, some, ◌>>=◌, ◌>>◌, ◌==◌, ltb, leb,
  get_elem?, if◌then◌else◌,
}

unfoldable pub debug_assert : Bool → Bool → Option (Unit {0})
debug_assert true false = none
debug_assert true true = some tt
debug_assert false b = some tt

-- Subtraction of 64 bit words, which wraps around in a release build.
unfoldable pub usize_sub : Bool → ℕ → ℕ → Option ℕ
usize_sub debug a b =
    if leb b a then some (a - b) else if debug then none else some (a + 2 ^ 64 - b)

-- `rec_to_len`, with the lengths of the recent and the frequent list.
unfoldable pub rec_target : Bool → (most rec_len freq_len p : ℕ) → Option ℕ
rec_target debug most rec_len freq_len p =
    let delta = rec_len + freq_len - most in
    if p == 0
    then (do debug_assert debug (leb delta rec_len); usize_sub debug rec_len delta)
    else if ltb p rec_len
    then (if ltb delta (rec_len - p)
        then usize_sub debug rec_len delta
        else usize_sub debug rec_len (rec_len - p))
    else some rec_len

module _ {ℓ κ} {K : Type ℓ} {V : Type κ} where
  -- `while ll.len() > size`, for at most `fuel` rounds.
  unfoldable pub while_longer :
      (Arc K V → Option (Arc K V)) → LlName → ℕ → ℕ → Arc K V → Option (Arc K V)
  while_longer one t size zero s = none
  while_longer one t size (suc fuel) s = elim (ltb size (ll_len t s)) [
    | true ↦ one s >>= λ s'. while_longer one t size fuel s'
    | false ↦ some s
  ]

module _ {ℓ κ} {K : Type ℓ} {V : Type κ} ⦃h : HashEq K⦄ where
  -- The entry of the node `n` that was popped; any other state is unreachable.
  unfoldable pub evict_item : Bool → LlName → ℕ → K → CacheItem V → Arc K V → Option (Arc K V)
  evict_item debug to_ll n k (CacheItem.freq llp v) s = do
    debug_assert debug (llp == n)
    some (set_item k (CacheItem.ghost_freq llp) (append_n to_ll llp s))
  evict_item debug to_ll n k (CacheItem.recent llp v) s = do
    debug_assert debug (llp == n)
    some (set_item k (CacheItem.ghost_rec llp) (append_n to_ll llp s))
  evict_item debug to_ll n k (CacheItem.ghost_freq llp) s = none
  evict_item debug to_ll n k (CacheItem.ghost_rec llp) s = none
  evict_item debug to_ll n k (CacheItem.haunted llp) s = none

  unfoldable pub evict_one : Bool → LlName → LlName → ℕ → Arc K V → Option (Arc K V)
  evict_one debug ll to_ll txid s = do
    (n, s) ← pop ll s
    i ← get_elem? s.nodes n
    c ← lookup i.key s.cache
    s ← stamp n txid s
    evict_item debug to_ll n i.key c s

  unfoldable pub evict_to_len : Bool → LlName → LlName → ℕ → ℕ → Arc K V → Option (Arc K V)
  evict_to_len debug ll to_ll size txid s = do
    debug_assert debug (leb size (ll_len ll s))
    while_longer (evict_one debug ll to_ll txid) ll size (suc (ll_len ll s)) s

  unfoldable pub haunt_one : LlName → LlName → ℕ → Arc K V → Option (Arc K V)
  haunt_one ll to_ll txid s = do
    (n, s) ← pop ll s
    i ← get_elem? s.nodes n
    c ← lookup i.key s.cache
    s ← stamp n txid (append_n to_ll n s)
    some (set_item i.key (CacheItem.haunted n) s)

  unfoldable pub evict_to_haunted_len : Bool → LlName → LlName → ℕ → ℕ → Arc K V → Option (Arc K V)
  evict_to_haunted_len debug ll to_ll size txid s = do
    debug_assert debug (leb size (ll_len ll s))
    while_longer (haunt_one ll to_ll txid) ll size (suc (ll_len ll s)) s

  unfoldable pub drain_item : K → CacheItem V → Arc K V → Option (Arc K V)
  drain_item k (CacheItem.freq n v) s =
      some (set_item k (CacheItem.ghost_freq n) (append_n ghost_freq_ll n s))
  drain_item k (CacheItem.recent n v) s =
      some (set_item k (CacheItem.ghost_rec n) (append_n ghost_rec_ll n s))
  drain_item k (CacheItem.ghost_freq n) s = none
  drain_item k (CacheItem.ghost_rec n) s = none
  drain_item k (CacheItem.haunted n) s = none

  unfoldable pub drain_one : LlName → ℕ → Arc K V → Option (Arc K V)
  drain_one ll txid s = do
    (n, s) ← pop ll s
    s ← stamp n txid s
    i ← get_elem? s.nodes n
    c ← lookup i.key s.cache
    drain_item i.key c s

  unfoldable pub drain_ll_to_ghost : LlName → ℕ → Arc K V → Option (Arc K V)
  drain_ll_to_ghost ll txid s = while_longer (drain_one ll txid) ll 0 (suc (ll_len ll s)) s

  -- The ghost lists, which are cut if they are too long.
  unfoldable pub evict_ghosts :
      Bool → (most p rec_to_len freq_to_len : ℕ) → ℕ → Arc K V → Option (Arc K V)
  evict_ghosts debug most p rec_to_len freq_to_len txid s = do
    room ← usize_sub debug most p
    s ←
        if ltb room (ll_len ghost_rec_ll s)
        then evict_to_haunted_len debug ghost_rec_ll haunted_ll freq_to_len txid s
        else some s
    if ltb p (ll_len ghost_freq_ll s)
        then evict_to_haunted_len debug ghost_freq_ll haunted_ll rec_to_len txid s
        else some s

  -- More than `most` items are live.
  unfoldable pub evict_over : Bool → ℕ → ℕ → Arc K V → Option (Arc K V)
  evict_over debug most txid s = do
    let p = s.p
    rec_to_len ← rec_target debug most (ll_len rec_ll s) (ll_len freq_ll s) p
    debug_assert debug (leb rec_to_len most)
    freq_to_len ← usize_sub debug most rec_to_len
    debug_assert debug (leb (freq_to_len + rec_to_len) most)
    freq_evicts ← usize_sub debug (ll_len freq_ll s) freq_to_len
    recent_evicts ← usize_sub debug (ll_len rec_ll s) rec_to_len
    let s = record s {
      stats = record s.stats {
        freq_evicts = s.stats.freq_evicts + freq_evicts;
        recent_evicts = s.stats.recent_evicts + recent_evicts;
      };
    }
    s ← evict_to_len debug rec_ll ghost_rec_ll rec_to_len txid s
    s ← evict_to_len debug freq_ll ghost_freq_ll freq_to_len txid s
    evict_ghosts debug most p rec_to_len freq_to_len txid s

  unfoldable pub evict : Bool → ℕ → ℕ → Arc K V → Option (Arc K V)
  evict debug most txid s = do
    debug_assert debug (leb s.p most)
    let s = record s { stats = record s.stats { p_weight = s.p } }
    if ltb most (ll_len rec_ll s + ll_len freq_ll s) then evict_over debug most txid s else some s
