-- ===== src/Arc/Txn.antt =====
-- src/arcache/mod.rs: the cache that is made, and the methods of a write transaction on it.
use concread.Arc.{Arc, ThreadCacheItem, visible}
use concread.Assoc.{HashEq, lookup, put}
use concread.Prelude.{
  ℕ, List, [], ◌∷◌, ◌++◌, Bool, true, false, Option, none, some, ◌==◌, if◌then◌else◌,
}

-- The methods of a write transaction, in the order in which a caller may use them.
pub data WriteOp {ℓ κ} (K : Type ℓ) (V : Type κ) : Type (ℓ ⊔ κ) where
  get_op : K → WriteOp K V
  insert_op : K → V → WriteOp K V
  remove_op : K → WriteOp K V
  insert_dirty_op : K → V → WriteOp K V
  remove_dirty_op : K → WriteOp K V
  mark_clean_op : WriteOp K V
  clear_op : WriteOp K V

-- The local state of a write transaction.
pub record WriteTxn {ℓ κ} (K : Type ℓ) (V : Type κ) : Type (ℓ ⊔ κ) where
  pub tlocal : List (K × ThreadCacheItem V)
  pub hit : List ℕ
  pub cleared : Bool

-- A write that is no longer dirty.
abbrev pub marked {κ} : {V : Type κ} → ThreadCacheItem V → ThreadCacheItem V
marked (ThreadCacheItem.present v c) = ThreadCacheItem.present v true
marked (ThreadCacheItem.removed c) = ThreadCacheItem.removed true

module _ {ℓ κ} {K : Type ℓ} {V : Type κ} where
  -- A size of 0 is a failed assertion.
  unfoldable pub new_size : ℕ → Option (Arc K V)
  new_size most =
      if most == 0
      then none
      else some record {
        cache = [];
        p = 0;
        lls = λ t. [];
        nodes = [];
        min_txid = 0;
        stats = record {
          reader_hits = 0;
          reader_tlocal_hits = 0;
          reader_includes = 0;
          write_hits = 0;
          write_inc_or_mod = 0;
          shared_max = 0;
          freq_len = 0;
          recent_len = 0;
          freq_evicts = 0;
          recent_evicts = 0;
          p_weight = 0;
          all_seen_keys = 0;
        };
      }

  abbrev pub begin_write : WriteTxn K V
  begin_write = record { tlocal = []; hit = []; cleared = false }

  -- What a walk of `iter_mut_mark_clean` to its end yields, and leaves.
  unfoldable pub dirty_items : List (K × ThreadCacheItem V) → List (K × Option V)
  dirty_items [] = []
  dirty_items ((k, ThreadCacheItem.present v true) ∷ ts) = dirty_items ts
  dirty_items ((k, ThreadCacheItem.present v false) ∷ ts) = (k, some v) ∷ dirty_items ts
  dirty_items ((k, ThreadCacheItem.removed true) ∷ ts) = dirty_items ts
  dirty_items ((k, ThreadCacheItem.removed false) ∷ ts) = (k, none) ∷ dirty_items ts

  unfoldable pub mark_clean : List (K × ThreadCacheItem V) → List (K × ThreadCacheItem V)
  mark_clean [] = []
  mark_clean ((k, t) ∷ ts) = (k, marked t) ∷ mark_clean ts

module _ {ℓ κ} {K : Type ℓ} {V : Type κ} ⦃h : HashEq K⦄ where
  -- The value without the hit.
  unfoldable pub peek : Arc K V → K → WriteTxn K V → Option V
  peek s k t = elim (lookup k t.tlocal) [
    | some (ThreadCacheItem.present v c) ↦ some v
    | some (ThreadCacheItem.removed c) ↦ none
    | none ↦ if t.cleared then none else visible k s
  ]

  abbrev pub push_hit : K → Option V → WriteTxn K V → WriteTxn K V
  push_hit k none t = t
  push_hit k (some v) t = record t { hit = t.hit ++ h.hash k ∷ [] }

  unfoldable pub get : Arc K V → K → WriteTxn K V → Option V × WriteTxn K V
  get s k t = (peek s k t, push_hit k (peek s k t) t)

  unfoldable pub insert : K → ThreadCacheItem V → WriteTxn K V → WriteTxn K V
  insert k i t = record t { tlocal = put k i t.tlocal }

  unfoldable pub clear : WriteTxn K V → WriteTxn K V
  clear t = record { tlocal = []; hit = []; cleared = true }

  unfoldable pub apply : Arc K V → WriteOp K V → WriteTxn K V → WriteTxn K V
  apply s (get_op k) t = (get s k t).1
  apply s (insert_op k v) t = insert k (ThreadCacheItem.present v true) t
  apply s (remove_op k) t = insert k (ThreadCacheItem.removed true) t
  apply s (insert_dirty_op k v) t = insert k (ThreadCacheItem.present v false) t
  apply s (remove_dirty_op k) t = insert k (ThreadCacheItem.removed false) t
  apply s mark_clean_op t = record t { tlocal = mark_clean t.tlocal }
  apply s clear_op t = clear t

  unfoldable pub run : Arc K V → List (WriteOp K V) → WriteTxn K V → WriteTxn K V
  run s [] t = t
  run s (o ∷ os) t = run s os (apply s o t)
