-- ===== src/Arc/Inv.antt =====
-- src/arcache/mod.rs: the entries of the map and the nodes of the lists are one to one, and each
-- entry is in the list of its state.
use concread.Arc.{Arc, LlName, CacheItem, CacheItemInner, llp, ll_of}
use concread.Assoc.{HashEq, lookup}
use concread.Ll.Order.{has, nodup}
use concread.Prelude.{ℕ, true, some, ◌≡◌, get_elem?}

module _ {ℓ κ} {K : Type ℓ} {V : Type κ} ⦃h : HashEq K⦄ where
  -- The node of an entry.
  pub record HasNode (s : Arc K V) (k : K) (c : CacheItem V) : Type (ℓ ⊔ κ) where
    pub node : CacheItemInner K
    pub at : get_elem? s.nodes (llp c) ≡ some node
    pub named : node.key ≡ k
    pub in_list : has (llp c) (s.lls (ll_of c)) ≡ true

  -- The entry of a node.
  pub record HasEntry (s : Arc K V) (t : LlName) (n : ℕ) : Type (ℓ ⊔ κ) where
    pub node : CacheItemInner K
    pub at : get_elem? s.nodes n ≡ some node
    pub item : CacheItem V
    pub entry : lookup node.key s.cache ≡ some item
    pub same_node : llp item ≡ n
    pub same_ll : ll_of item ≡ t

  pub record IsCache (s : Arc K V) : Type (ℓ ⊔ κ) where
    pub located : (k : K) (c : CacheItem V) → lookup k s.cache ≡ some c → HasNode s k c
    pub listed : (t : LlName) (n : ℕ) → has n (s.lls t) ≡ true → HasEntry s t n
    pub distinct : (t : LlName) → nodup (s.lls t) ≡ true
