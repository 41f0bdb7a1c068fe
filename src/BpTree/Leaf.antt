-- ===== src/BpTree/Leaf.antt =====
-- src/bptree/node.rs: a leaf. The key and value arrays are one list of entries, as long as the
-- count that the source keeps in `meta`. What a method changes in place comes back as a value.
pub mod Laws
pub mod Removal
use concread.BpTree.Mem.{Mem, alloc}
use concread.BpTree.States.{LeafInsertState, LeafRemoveState}
use concread.Ord.{Ord}
use concread.Prelude.{
  ℕ, ◌+◌, ◌-◌, ◌*◌, ◌/◌, List, [], ◌∷◌, ◌++◌, Option, none, some, ◌==◌, leb, if◌then◌else◌, ◌>>=◌,
  length, get_elem?, take, drop,
}
use concread.Slice.{Found, ok, err, key_search, slice_insert, slice_remove, set}

-- `L_CAPACITY`, without the feature `skinny`
abbrev pub l_capacity : ℕ
l_capacity = 7

pub record Leaf {ℓ κ} (K : Type ℓ) (V : Type κ) : Type (ℓ ⊔ κ) where
  pub nid : ℕ
  pub txid : ℕ
  pub entries : List (K × V)

module _ {ℓ κ} {K : Type ℓ} {V : Type κ} where
  abbrev pub count : Leaf K V → ℕ
  count l = length l.entries

  unfoldable pub new_leaf : ℕ → Mem → Leaf K V × Mem
  new_leaf txid m = (record { nid = m.next_nid; txid = txid; entries = [] }, alloc m)

  -- The flags that the source passes carry the transaction of the full leaf.
  unfoldable pub new_leaf_ins : ℕ → K → V → Mem → Leaf K V × Mem
  new_leaf_ins txid k v m =
      (record { nid = m.next_nid; txid = txid; entries = (k, v) ∷ [] }, alloc m)

  -- `none` where the source would read an uninitialised key
  unfoldable pub min_entries : List (K × V) → Option K
  min_entries [] = none
  min_entries ((k, v) ∷ xs) = some k

  abbrev pub min : Leaf K V → Option K
  min l = min_entries l.entries

  unfoldable pub max_entries : List (K × V) → Option K
  max_entries [] = none
  max_entries ((k, v) ∷ []) = some k
  max_entries ((k, v) ∷ e ∷ xs) = max_entries (e ∷ xs)

  abbrev pub max : Leaf K V → Option K
  max l = max_entries l.entries

  abbrev pub get_kv_idx_checked : Leaf K V → ℕ → Option (K × V)
  get_kv_idx_checked l idx = get_elem? l.entries idx

  -- `none`: the leaf is of this transaction already. Else the copy, and the new allocation.
  unfoldable pub req_clone : Leaf K V → ℕ → Mem → Option (Leaf K V × Mem)
  req_clone l txid m =
      if l.txid == txid
      then none
      else some (record { nid = m.next_nid; txid = txid; entries = l.entries }, alloc m)

  unfoldable pub merge : Leaf K V → Leaf K V → Leaf K V × Leaf K V
  merge l right = (record l { entries = l.entries ++ right.entries }, record right { entries = [] })

  unfoldable pub take_from_l_to_r : Leaf K V → Leaf K V → Leaf K V × Leaf K V
  take_from_l_to_r l right =
      let start_idx = count l - count l / 2 in
      (
        record l { entries = take start_idx l.entries },
        record right { entries = drop start_idx l.entries },
      )

  unfoldable pub take_from_r_to_l : Leaf K V → Leaf K V → Leaf K V × Leaf K V
  take_from_r_to_l l right =
      let moved = count right / 2 in
      (
        record l { entries = take moved right.entries },
        record right { entries = drop moved right.entries },
      )

module _ {ℓ κ} {K : Type ℓ} {V : Type κ} ⦃o : Ord K⦄ where
  unfoldable pub get_ref : Leaf K V → K → Option V
  get_ref l k = elim (key_search l.entries k) [
    | ok idx ↦ do e ← get_elem? l.entries idx; some e.1
    | err idx ↦ none
  ]

  -- The branch of `insert_or_update` for a new key in a full leaf.
  unfoldable pub overflow :
      Leaf K V → K → V → ℕ → Mem → Option (Leaf K V × LeafInsertState (Leaf K V) V × Mem)
  overflow l k v idx m =
      if leb (count l) idx
      then (let (rnode, m') = new_leaf_ins l.txid k v m in
          some (l, LeafInsertState.split rnode, m'))
      else if idx == 0
      then (let (lnode, m') = new_leaf_ins l.txid k v m in
          some (l, LeafInsertState.rev_split lnode, m'))
      else do
        ((pk, pv), kept) ← slice_remove l.entries (l_capacity - 1)
        let rm = new_leaf_ins l.txid pk pv m
        some (record l { entries = slice_insert kept (k, v) idx }, LeafInsertState.split rm.0, rm.1)

  unfoldable pub insert_or_update :
      Leaf K V → K → V → Mem → Option (Leaf K V × LeafInsertState (Leaf K V) V × Mem)
  unfolding overflow
  insert_or_update l k v m = elim (key_search l.entries k) [
    | ok idx ↦ do
      prev ← get_elem? l.entries idx
      some (
        record l { entries = set l.entries idx (prev.0, v) },
        LeafInsertState.done (some prev.1),
        m,
      )
    | err idx ↦
        if leb l_capacity (count l)
        then overflow l k v idx m
        else some
            (record l { entries = slice_insert l.entries (k, v) idx }, LeafInsertState.done none, m)
  ]

  -- The state after `dec_count`.
  abbrev pub after_remove : List (K × V) → V → LeafRemoveState V
  after_remove [] pv = LeafRemoveState.shrink (some pv)
  after_remove (e ∷ xs) pv = LeafRemoveState.done (some pv)

  unfoldable pub remove : Leaf K V → K → Option (Leaf K V × LeafRemoveState V)
  remove l k =
      if count l == 0
      then some (l, LeafRemoveState.shrink none)
      else elim (key_search l.entries k) [
        | err idx ↦ some (l, LeafRemoveState.done none)
        | ok idx ↦ do
          (pe, rest) ← slice_remove l.entries idx
          some (record l { entries = rest }, after_remove rest pe.1)
      ]
