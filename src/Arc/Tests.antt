-- ===== src/Arc/Tests.antt =====
-- A small cache of numbers, and the theorems at it.
use concread.Arc.{
  Arc, LlName, same, freq_ll, rec_ll, ghost_freq_ll, ghost_rec_ll, haunted_ll, CacheItem, to_vref,
  set_item, include_new, append_n, extract, touch, txid_of, stamp, new_node, weigh_freq, weigh_rec,
  calc_p_freq, calc_p_rec, quotient, ThreadCacheItem, CacheEvent, CacheStats, visible, ll_len,
}
use concread.Arc.Bound.{Evicted, evict-Evicted}
use concread.Arc.Coherence.{Kept, drain_rx-Kept, IsOlder}
use concread.Arc.Writes.{written, writes, Drained, drain_tlocal_inc-Drained}
use concread.Arc.Commit.{collect, commit}
use concread.Arc.Dirty.{commit-dirty}
use concread.Arc.Drain.{
  drain_tlocal_inc, drain_rx, drain_tlocal_hits, include_item, drain_write, write_item, remove_item,
  drain_event, hit_item, hit_key, write_hit_item, write_hit_key, drain_hit,
}
use concread.Arc.Effects.{IsGood, IsCalm}
use concread.Arc.Evict.{evict}
use concread.Arc.Hits.{drain_tlocal_hits-IsCalm, IsKnown}
use concread.Arc.Inv.{HasNode, HasEntry}
use concread.Ll.Order
use concread.Ll.Order.{has, nodup}
use concread.Arc.Overflow.{evict-overflow}
use concread.Arc.Serial.{IsHit, Committed, commit-Committed}
use concread.Arc.Session.{IsOrder, Shown, run-Shown}
use concread.Arc.Txn.{
  WriteOp, WriteTxn, begin_write, get, run, dirty_items, apply, peek, insert, mark_clean,
}
use concread.Arc.TxnLaws.{IsTxn, get-written}
use concread.Arc.Local.{distinct_keys}
use concread.Assoc.{nat_hash, lookup, put, slot}
use concread.Prelude.{
  ℕ, ◌<◌, ◌≤◌, List, [], ◌∷◌, true, false, none, some, ◌≡◌, refl, sym, subst, Bool-cases, inl, inr,
  ◌∙◌, arith, All, Ensures, Always, if◌then◌else◌, ◌==◌, length,
}

abbrev zeros : CacheStats
zeros = record {
  reader_hits = 0;
  reader_tlocal_hits = 0;
  reader_includes = 0;
  write_hits = 0;
  write_inc_or_mod = 0;
  shared_max = 0;
  freq_len = 0;
  recent_len = 0;
  freq_evicts = 0;
  recent_evicts = 0;
  p_weight = 0;
  all_seen_keys = 0;
}

-- A cache with one frequent item.
abbrev one_cache : Arc ℕ ℕ
one_cache = record {
  cache = (1, CacheItem.freq 0 10) ∷ [];
  p = 1;
  lls = λ t. elim t [
    | freq_ll ↦ 0 ∷ []
    | rec_ll ↦ []
    | ghost_freq_ll ↦ []
    | ghost_rec_ll ↦ []
    | haunted_ll ↦ []
  ];
  nodes = record { key = 1; txid = 1 } ∷ [];
  min_txid = 0;
  stats = zeros;
}

same_item : (c d : CacheItem ℕ) → some c ≡ some d → c ≡ d
same_item c d e = cc

one_cache-HasNode :
    (k : ℕ) (c : CacheItem ℕ) → lookup k one_cache.cache ≡ some c → HasNode one_cache k c
unfolding lookup
one_cache-HasNode k c e = elim (Bool-cases (k == 1)) [
  | inl f ↦
      subst (HasNode one_cache k) (same_item (CacheItem.freq 0 10) c (sym (rw f refl) ∙ e)) record {
        node = record { key = 1; txid = 1 };
        at = refl;
        named = ground (arith, f);
        in_list = refl;
      }
  | inr f ↦ let n : none ≡ some c = sym (rw f refl) ∙ e in absurd cc
]

one_cache-HasEntry : (t : LlName) (n : ℕ) → has n (one_cache.lls t) ≡ true → HasEntry one_cache t n
unfolding lookup
one_cache-HasEntry freq_ll n e =
    let zero_ : 0 ≡ n = ground (arith, e) in
    subst (HasEntry one_cache freq_ll) zero_ record {
      node = record { key = 1; txid = 1 };
      at = refl;
      item = CacheItem.freq 0 10;
      entry = refl;
      same_node = refl;
      same_ll = refl;
    }
one_cache-HasEntry rec_ll n e = absurd cc
one_cache-HasEntry ghost_freq_ll n e = absurd cc
one_cache-HasEntry ghost_rec_ll n e = absurd cc
one_cache-HasEntry haunted_ll n e = absurd cc

one_cache-nodup : (t : LlName) → nodup (one_cache.lls t) ≡ true
one_cache-nodup freq_ll = refl
one_cache-nodup rec_ll = refl
one_cache-nodup ghost_freq_ll = refl
one_cache-nodup ghost_rec_ll = refl
one_cache-nodup haunted_ll = refl

one_cache-IsGood : (cap : ℕ) → 1 ≤ cap → IsGood cap one_cache
one_cache-IsGood cap e = record {
  inv = record {
    located = one_cache-HasNode;
    listed = one_cache-HasEntry;
    distinct = one_cache-nodup;
  };
  light = e;
}

two_good : IsGood 2 one_cache
two_good = one_cache-IsGood 2 (omega arith)

-- A hit on the item of the cache, a write with a hit on it, and a removal.
abbrev ops : List (WriteOp ℕ ℕ)
ops =
    WriteOp.get_op 1
    ∷ WriteOp.insert_dirty_op 2 20
    ∷ WriteOp.mark_clean_op
    ∷ WriteOp.get_op 2
    ∷ WriteOp.remove_op 3
    ∷ []

abbrev two : List (ℕ × ThreadCacheItem ℕ)
two = (3, ThreadCacheItem.removed true) ∷ (2, ThreadCacheItem.present 20 true) ∷ []

abbrev hits : List ℕ
hits = 1 ∷ 2 ∷ []

-- A hit on a key, and an inclusion that comes too late.
abbrev events : List (CacheEvent ℕ ℕ)
events = CacheEvent.inclusion 3 1 99 0 ∷ CacheEvent.hit 4 1 false ∷ []

events-IsOlder : All (IsOlder 2) events
events-IsOlder = (omega arith, (tt, tt))

abbrev done : WriteTxn ℕ ℕ
done = record {
  tlocal = (2, ThreadCacheItem.present 20 true) ∷ (3, ThreadCacheItem.removed true) ∷ [];
  hit = hits;
  cleared = false;
}

run-ops : run one_cache ops begin_write ≡ done
unfolding run apply get peek insert put lookup visible to_vref mark_clean
run-ops = refl

two_keys : distinct_keys two ≡ true
unfolding writes
two_keys = refl

lookup-two : (q : ℕ) → lookup q two ≡ lookup q done.tlocal
unfolding lookup
lookup-two q = elim (Bool-cases (q == 2)) [
  | inl e ↦ let n : (q == 3) ≡ false = ground (arith, e) in rw (e, n) refl
  | inr e ↦ rw e refl
]

two-IsOrder : IsOrder (run one_cache ops begin_write).tlocal two
two-IsOrder =
    subst (λ (t : WriteTxn ℕ ℕ). IsOrder t.tlocal two) (sym run-ops)
      record { distinct = two_keys; same = lookup-two }

collect-two :
    Always
      (λ r. (r.1.p == 0) ≡ true → ll_len freq_ll r.1 ≤ 2)
      (collect 2 5 2 false two hits events one_cache)
unfolding collect drain_tlocal_inc drain_rx drain_tlocal_hits drain_write write_item remove_item
    include_item drain_event hit_item hit_key write_hit_item write_hit_key drain_hit lookup put slot
    set_item include_new append_n extract touch txid_of stamp new_node weigh_freq weigh_rec
    calc_p_freq calc_p_rec quotient Order.append_n Order.extract Order.touch
collect-two = λ e. omega arith

abbrev ThreeFits : WriteTxn ℕ ℕ → Type 0
ThreeFits t =
    Always (λ r. (r.1.p == 0) ≡ true → ll_len freq_ll r.1 ≤ 2)
      (collect 2 5 2 t.cleared two t.hit events one_cache)

run-Shown_example :
    Ensures
      (λ r. Shown 2 one_cache (run one_cache ops begin_write) r.1)
      (commit false 2 5 2
        (run one_cache ops begin_write).cleared
        two
        (run one_cache ops begin_write).hit
        events
        one_cache)
run-Shown_example =
    run-Shown 2 5 2 one_cache ops two events two_good two-IsOrder (refl, (refl, tt)) events-IsOlder
      (subst ThreeFits (sym run-ops) collect-two)

known_2 : IsHit one_cache two 2
unfolding lookup writes
known_2 = (2, refl, refl)

known_1 : IsHit one_cache two 1
unfolding lookup writes
known_1 = (1, refl, refl)

commit-Committed_example :
    Ensures
      (λ r. Committed 2 5 2 false two hits events one_cache r.1)
      (commit false 2 5 2 false two hits events one_cache)
commit-Committed_example =
    commit-Committed 2 5 2 false two hits events one_cache two_good (refl, (refl, tt))
      events-IsOlder (known_1, (known_2, tt)) collect-two

evict-Evicted_example : Ensures (Evicted 1 9 one_cache) (evict false 1 9 one_cache)
evict-Evicted_example =
    evict-Evicted 1 9 one_cache (one_cache-IsGood 1 (omega arith)) (λ e. omega arith)

drain_rx-Kept_example : Ensures (λ r. Kept 2 2 one_cache r.1) (drain_rx 2 5 events one_cache)
drain_rx-Kept_example = drain_rx-Kept 2 2 5 events one_cache two_good events-IsOlder

drain_tlocal_inc-Drained_example :
    Ensures (Drained 2 2 one_cache two) (drain_tlocal_inc 2 2 two one_cache)
drain_tlocal_inc-Drained_example =
    drain_tlocal_inc-Drained 2 2 two one_cache two_good (refl, (refl, tt))

one_key : IsKnown 2 one_cache 1
unfolding lookup
one_key = (1, refl, refl)

drain_tlocal_hits-IsCalm_example :
    Ensures (IsCalm 2 one_cache) (drain_tlocal_hits 2 (1 ∷ []) one_cache)
drain_tlocal_hits-IsCalm_example =
    drain_tlocal_hits-IsCalm 2 2 (1 ∷ []) one_cache two_good (one_key, tt)

done-IsTxn : IsTxn one_cache done
unfolding lookup writes
done-IsTxn = record { distinct = refl; hits = ((1, refl, refl), ((2, refl, refl), tt)) }

get-written_example :
    (get one_cache 3 done).0
    ≡ written 3 done.tlocal (if done.cleared then none else visible 3 one_cache)
get-written_example = get-written one_cache done 3 done-IsTxn

abbrev dirty : List (ℕ × ThreadCacheItem ℕ)
dirty = (1, ThreadCacheItem.present 10 true) ∷ (2, ThreadCacheItem.removed false) ∷ []

dirty-longer : 0 < length (dirty_items dirty)
unfolding dirty_items
dirty-longer = omega arith

commit-dirty_example : commit false 2 5 2 true dirty [] events one_cache ≡ none
commit-dirty_example = commit-dirty false 2 5 2 true dirty [] events one_cache dirty-longer

-- A new cache of size 1, and the inclusions of two readers that both missed two keys.
abbrev new_cache : Arc ℕ ℕ
new_cache = record one_cache { cache = []; p = 0; lls = λ t. []; nodes = [] }

abbrev crowd : List (CacheEvent ℕ ℕ)
crowd =
    CacheEvent.inclusion 1 1 10 0
    ∷ CacheEvent.inclusion 1 2 20 0
    ∷ CacheEvent.inclusion 2 1 10 0
    ∷ CacheEvent.inclusion 2 2 20 0
    ∷ []

collect-crowd :
    elim (collect 1 5 2 false [] [] crowd new_cache) as (λ r. ℕ × ℕ) [
      | some r ↦ (r.1.p, ll_len freq_ll r.1)
      | none ↦ (9, 9)
    ]
    ≡ (0, 2)
unfolding collect drain_tlocal_inc drain_rx drain_tlocal_hits drain_write write_item remove_item
    include_item drain_event hit_item hit_key write_hit_item write_hit_key drain_hit lookup put slot
    set_item include_new append_n extract touch txid_of stamp new_node weigh_freq weigh_rec
    calc_p_freq calc_p_rec quotient Order.append_n Order.extract Order.touch
collect-crowd = refl

-- A cache of size 1 with two frequent items.
abbrev full_cache : Arc ℕ ℕ
full_cache = record one_cache {
  cache = (1, CacheItem.freq 0 10) ∷ (2, CacheItem.freq 1 20) ∷ [];
  p = 0;
  lls = λ t. if same t freq_ll then 0 ∷ 1 ∷ [] else [];
  nodes = record { key = 1; txid = 1 } ∷ record { key = 2; txid = 1 } ∷ [];
}

evict-overflow_example : evict true 1 2 full_cache ≡ none
evict-overflow_example = evict-overflow 1 2 full_cache refl (omega arith)
