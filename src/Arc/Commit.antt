-- ===== src/Arc/Commit.antt =====
-- src/arcache/mod.rs: the commit of a write transaction.
use concread.Arc.{Arc, freq_ll, rec_ll, ThreadCacheItem, CacheEvent, ll_len}
use concread.Arc.Drain.{drain_tlocal_inc, drain_rx, drain_tlocal_hits}
use concread.Arc.Evict.{drain_ll_to_ghost, evict}
use concread.Assoc.{HashEq}
use concread.Prelude.{ℕ, ◌+◌, List, Bool, Option, some, ◌>>=◌, length, if◌then◌else◌}

module _ {ℓ κ} {K : Type ℓ} {V : Type κ} ⦃h : HashEq K⦄ where
  unfoldable pub clear_live : ℕ → Arc K V → Option (Arc K V)
  clear_live txid s = do
    let s = record s {
      min_txid = txid;
      stats = record s.stats {
        freq_evicts = s.stats.freq_evicts + ll_len freq_ll s;
        recent_evicts = s.stats.recent_evicts + ll_len rec_ll s;
      };
    }
    s ← drain_ll_to_ghost freq_ll txid s
    drain_ll_to_ghost rec_ll txid s

  -- All of a commit up to the eviction; the events that it leaves in the channel come first.
  unfoldable pub collect :
      (cap commit_ts txid : ℕ)
      → Bool
      → List (K × ThreadCacheItem V)
      → List ℕ
      → List (CacheEvent K V)
      → Arc K V
      → Option (List (CacheEvent K V) × Arc K V)
  collect cap commit_ts txid clear tlocal hits rx s = do
    s ← if clear then clear_live txid s else some s
    s ← drain_tlocal_inc cap txid tlocal (record s {
      stats = record s.stats { write_inc_or_mod = s.stats.write_inc_or_mod + length tlocal };
    })
    (rx, s) ← drain_rx cap commit_ts rx s
    s ←
        drain_tlocal_hits txid hits
          (record s { stats = record s.stats { write_hits = s.stats.write_hits + length hits } })
    some (rx, s)

  unfoldable pub commit :
      Bool
      → (cap commit_ts txid : ℕ) → Bool
      → List (K × ThreadCacheItem V)
      → List ℕ
      → List (CacheEvent K V)
      → Arc K V
      → Option (List (CacheEvent K V) × Arc K V)
  commit debug cap commit_ts txid clear tlocal hits rx s = do
    (rx, s) ← collect cap commit_ts txid clear tlocal hits rx s
    s ← evict debug cap txid s
    some (
      rx,
      record s {
        stats = record s.stats {
          shared_max = cap;
          freq_len = ll_len freq_ll s;
          recent_len = ll_len rec_ll s;
          all_seen_keys = length s.cache;
        };
      },
    )
