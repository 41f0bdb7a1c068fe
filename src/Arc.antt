-- ===== src/Arc.antt =====
-- src/arcache/mod.rs: the state of the cache and what one step of a writer does to it. The hash map
-- of the cache is its entries in the order of insertion, and a list is its nodes in order.
pub mod Drain
pub mod Inv
pub mod Track
pub mod Sets
pub mod Fresh
pub mod Items
pub mod Inclusion
pub mod Effects
pub mod Hits
pub mod Writes
pub mod Coherence
pub mod Evict
pub mod Shrink
pub mod Rounds
pub mod Bound
pub mod Commit
pub mod Clear
pub mod Serial
pub mod Txn
pub mod Local
pub mod TxnLaws
pub mod Dirty
pub mod Overflow
pub mod Session
pub mod Tests
use concread.Assoc.{HashEq, lookup, put}
use concread.Ll.Order
use concread.Slice.{set}
use concread.Prelude.{
  ℕ, ◌+◌, ◌-◌, ◌/◌, List, [], ◌∷◌, ◌++◌, Bool, true, false, Option, none, some, ◌>>=◌, ◌==◌, ltb,
  leb, length, get_elem?, if◌then◌else◌,
}

-- The five lists of `ArcInner`.
pub data LlName : Type 0 where
  freq_ll : LlName
  rec_ll : LlName
  ghost_freq_ll : LlName
  ghost_rec_ll : LlName
  haunted_ll : LlName

abbrev pub code : LlName → ℕ
code freq_ll = 0
code rec_ll = 1
code ghost_freq_ll = 2
code ghost_rec_ll = 3
code haunted_ll = 4

abbrev pub same : LlName → LlName → Bool
same t u = code t == code u

-- The payload of a node.
pub record CacheItemInner {ℓ} (K : Type ℓ) : Type ℓ where
  pub key : K
  pub txid : ℕ

pub data CacheItem {κ} (V : Type κ) : Type κ where
  freq : ℕ → V → CacheItem V
  recent : ℕ → V → CacheItem V
  ghost_freq : ℕ → CacheItem V
  ghost_rec : ℕ → CacheItem V
  haunted : ℕ → CacheItem V

pub data ThreadCacheItem {κ} (V : Type κ) : Type κ where
  present : V → Bool → ThreadCacheItem V
  removed : Bool → ThreadCacheItem V

pub data CacheEvent {ℓ κ} (K : Type ℓ) (V : Type κ) : Type (ℓ ⊔ κ) where
  hit : ℕ → ℕ → Bool → CacheEvent K V
  inclusion : ℕ → K → V → ℕ → CacheEvent K V

pub record CacheStats : Type 0 where
  pub reader_hits : ℕ
  pub reader_tlocal_hits : ℕ
  pub reader_includes : ℕ
  pub write_hits : ℕ
  pub write_inc_or_mod : ℕ
  pub shared_max : ℕ
  pub freq_len : ℕ
  pub recent_len : ℕ
  pub freq_evicts : ℕ
  pub recent_evicts : ℕ
  pub p_weight : ℕ
  pub all_seen_keys : ℕ

-- The map of a write transaction, `ArcInner` and the statistics; a node is the place of its payload
-- in `nodes`, which are never freed while the cache lives.
pub record Arc {ℓ κ} (K : Type ℓ) (V : Type κ) : Type (ℓ ⊔ κ) where
  pub cache : List (K × CacheItem V)
  pub p : ℕ
  pub lls : LlName → List ℕ
  pub nodes : List (CacheItemInner K)
  pub min_txid : ℕ
  pub stats : CacheStats

abbrev pub llp {κ} : {V : Type κ} → CacheItem V → ℕ
llp (CacheItem.freq n v) = n
llp (CacheItem.recent n v) = n
llp (CacheItem.ghost_freq n) = n
llp (CacheItem.ghost_rec n) = n
llp (CacheItem.haunted n) = n

abbrev pub ll_of {κ} : {V : Type κ} → CacheItem V → LlName
ll_of (CacheItem.freq n v) = freq_ll
ll_of (CacheItem.recent n v) = rec_ll
ll_of (CacheItem.ghost_freq n) = ghost_freq_ll
ll_of (CacheItem.ghost_rec n) = ghost_rec_ll
ll_of (CacheItem.haunted n) = haunted_ll

unfoldable pub to_vref {κ} : {V : Type κ} → CacheItem V → Option V
to_vref (CacheItem.freq n v) = some v
to_vref (CacheItem.recent n v) = some v
to_vref (CacheItem.ghost_freq n) = none
to_vref (CacheItem.ghost_rec n) = none
to_vref (CacheItem.haunted n) = none

-- A division by zero is a panic.
unfoldable pub quotient : ℕ → ℕ → Option ℕ
quotient a b = if b == 0 then none else some (a / b)

unfoldable pub calc_p_freq : ℕ → ℕ → ℕ → Option ℕ
calc_p_freq ghost_rec_len ghost_freq_len p = do
  delta ← if ltb ghost_freq_len ghost_rec_len then quotient ghost_rec_len ghost_freq_len else some 1
  some (if ltb delta p then p - delta else 0)

unfoldable pub calc_p_rec : ℕ → ℕ → ℕ → ℕ → Option ℕ
calc_p_rec cap ghost_rec_len ghost_freq_len p = do
  delta ← if ltb ghost_rec_len ghost_freq_len then quotient ghost_freq_len ghost_rec_len else some 1
  if ltb cap p then none else some (if leb delta (cap - p) then p + delta else cap)

module _ {ℓ κ} {K : Type ℓ} {V : Type κ} where
  abbrev pub with_ll : LlName → List ℕ → Arc K V → Arc K V
  with_ll t xs s = record s { lls = λ u. if same t u then xs else s.lls u }

  abbrev pub ll_len : LlName → Arc K V → ℕ
  ll_len t s = length (s.lls t)

  unfoldable pub append_n : LlName → ℕ → Arc K V → Arc K V
  append_n t n s = with_ll t (Order.append_n n (s.lls t)) s

  unfoldable pub extract : LlName → ℕ → Arc K V → Option (Arc K V)
  extract t n s = do xs ← Order.extract n (s.lls t); some (with_ll t xs s)

  unfoldable pub touch : LlName → ℕ → Arc K V → Option (Arc K V)
  touch t n s = do xs ← Order.touch n (s.lls t); some (with_ll t xs s)

  unfoldable pub pop : LlName → Arc K V → Option (ℕ × Arc K V)
  pop t s = do (n, xs) ← Order.pop (s.lls t); some (n, with_ll t xs s)

  -- `(**llp).as_ref().txid`
  unfoldable pub txid_of : ℕ → Arc K V → Option ℕ
  txid_of n s = do i ← get_elem? s.nodes n; some i.txid

  -- `(**llp).as_mut().txid = txid`
  unfoldable pub stamp : ℕ → ℕ → Arc K V → Option (Arc K V)
  stamp n txid s = do
    i ← get_elem? s.nodes n
    some (record s { nodes = set s.nodes n (record i { txid = txid }) })

  -- A new node.
  unfoldable pub new_node : K → ℕ → Arc K V → Arc K V
  new_node k txid s = record s { nodes = s.nodes ++ record { key = k; txid = txid } ∷ [] }

  -- Out of one list and to the tail of another.
  abbrev pub shift : LlName → LlName → ℕ → Arc K V → Option (Arc K V)
  shift t u n s = do s' ← extract t n s; some (append_n u n s')

  unfoldable pub weigh_freq : Arc K V → Option (Arc K V)
  weigh_freq s = do
    p ← calc_p_freq (ll_len ghost_rec_ll s) (ll_len ghost_freq_ll s) s.p
    some (record s { p = p })

  unfoldable pub weigh_rec : ℕ → Arc K V → Option (Arc K V)
  weigh_rec cap s = do
    p ← calc_p_rec cap (ll_len ghost_rec_ll s) (ll_len ghost_freq_ll s) s.p
    some (record s { p = p })

module _ {ℓ κ} {K : Type ℓ} {V : Type κ} ⦃h : HashEq K⦄ where
  -- The state that a key has in the map, changed or inserted.
  unfoldable pub set_item : K → CacheItem V → Arc K V → Arc K V
  set_item k c s = record s { cache = put k c s.cache }

  -- The value that the map shows for a key.
  unfoldable pub visible : K → Arc K V → Option V
  visible k s = do c ← lookup k s.cache; to_vref c

  -- `append_k`, and the entry of its key.
  unfoldable pub include_new : LlName → (ℕ → CacheItem V) → K → ℕ → Arc K V → Arc K V
  include_new t item k txid s =
      let n = length s.nodes in set_item k (item n) (append_n t n (new_node k txid s))
