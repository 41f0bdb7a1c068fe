-- ===== src/BpTree/Branch.antt =====
-- src/bptree/node.rs: a branch over children of any type `A`. The arrays `nodes` (count + 1) and
-- `key` (count) are the first child and a list of the other children, each under the key to its
-- left. The section's `min` is the `min` of the children; `none` is a panic.
pub mod Search
pub mod Full
pub mod FullLeft
pub mod Steps
pub mod Siblings
use concread.BpTree.Leaf.{l_capacity}
use concread.BpTree.Mem.{Mem, alloc}
use concread.BpTree.States.{BranchInsertState}
use concread.Ord.{Ord}
use concread.Prelude.{
  ℕ, zero, suc, ◌+◌, ◌-◌, ◌/◌, List, [], ◌∷◌, ◌++◌, Option, none, some, ◌==◌, if◌then◌else◌, ◌>>=◌,
  length, take, drop, map,
}
use concread.Slice.{ok, err, key_search, slice_insert}

pub record Branch {ℓ κ} (K : Type ℓ) (A : Type κ) : Type (ℓ ⊔ κ) where
  pub nid : ℕ
  pub txid : ℕ
  pub first : A
  pub rest : List (K × A)

module _ {ℓ κ} {K : Type ℓ} {A : Type κ} where
  abbrev pub count : Branch K A → ℕ
  count b = length b.rest

  -- the array `nodes`
  abbrev pub nodes : Branch K A → List A
  nodes b = b.first ∷ map (λ e. e.1) b.rest

  unfoldable pub node_at : A → List (K × A) → ℕ → Option A
  node_at c rest zero = some c
  node_at c [] (suc idx) = none
  node_at c ((j, d) ∷ rest) (suc idx) = node_at d rest idx

  -- `get_idx_unchecked`, and the reads of `self.nodes[idx]`
  abbrev pub get_idx : Branch K A → ℕ → Option A
  get_idx b idx = node_at b.first b.rest idx

  -- The child at `idx` is replaced by `l`, and `seg` follows it.
  unfoldable pub splice : A → List (K × A) → ℕ → A → List (K × A) → A × List (K × A)
  splice c rest zero l seg = (l, seg ++ rest)
  splice c [] (suc idx) l seg = (c, [])
  splice c ((j, d) ∷ rest) (suc idx) l seg =
      let (f, rest') = splice d rest idx l seg in (c, (j, f) ∷ rest')

  abbrev pub with_nodes : Branch K A → A × List (K × A) → Branch K A
  with_nodes b (f, rest) = record b { first = f; rest = rest }

  unfoldable pub replace_by_idx : Branch K A → ℕ → A → Branch K A
  unfolding splice
  replace_by_idx b idx node = with_nodes b (splice b.first b.rest idx node [])

  abbrev pub extract_last_node : Branch K A → A
  extract_last_node b = b.first

  -- The key left of the child at `idx`, for `0 < idx`.
  unfoldable pub rekey_rest : List (K × A) → ℕ → K → List (K × A)
  rekey_rest [] idx k = []
  rekey_rest ((j, d) ∷ rest) zero k = (k, d) ∷ rest
  rekey_rest ((j, d) ∷ rest) (suc idx) k = (j, d) ∷ rekey_rest rest idx k

  unfoldable pub req_clone : Branch K A → ℕ → Mem → Option (Branch K A × Mem)
  req_clone b txid m =
      if b.txid == txid then none else some (record b { nid = m.next_nid; txid = txid }, alloc m)

  -- The removed child, and the branch without it and without the key to its left.
  unfoldable pub remove_rest : List (K × A) → ℕ → Option (A × List (K × A))
  remove_rest [] idx = none
  remove_rest ((j, d) ∷ rest) zero = some (d, rest)
  remove_rest (e ∷ rest) (suc idx) = do (d, rest') ← remove_rest rest idx; some (d, e ∷ rest')

  -- `debug_assert!(idx > 0)`
  unfoldable pub remove_by_idx : Branch K A → ℕ → Option (A × Branch K A)
  unfolding remove_rest
  remove_by_idx b zero = none
  remove_by_idx b (suc idx) = do
    (d, rest) ← remove_rest b.rest idx
    some (d, record b { rest = rest })

-- The last key is dropped where it stands.
abbrev pub drop_last_key {ℓ κ} : {K : Type ℓ} {A : Type κ} → (K → K) → List (K × A) → List (K × A)
drop_last_key dropped [] = []
drop_last_key dropped (e ∷ []) = (dropped e.0, e.1) ∷ []
drop_last_key dropped (e ∷ f ∷ es) = e ∷ drop_last_key dropped (f ∷ es)

module _ {ℓ κ} {K : Type ℓ} {A : Type κ} (min : A → Option K) where
  -- `none` if a child has no least key
  unfoldable pub new_branch : ℕ → A → A → Mem → Option (Branch K A × Mem)
  new_branch txid l r m = do
    k ← min r
    some (record { nid = m.next_nid; txid = txid; first = l; rest = (k, r) ∷ [] }, alloc m)

  unfoldable pub rekey_by_idx : Branch K A → ℕ → Option (Branch K A)
  unfolding rekey_rest
  rekey_by_idx b zero = none
  rekey_by_idx b (suc idx) = do
    node ← get_idx b (suc idx)
    k ← min node
    some (record b { rest = rekey_rest b.rest idx k })

  -- The loops that rekey the children 1, …, count: each child under its least key.
  unfoldable pub rekey_all : List A → Option (List (K × A))
  rekey_all [] = some []
  rekey_all (node ∷ ns) = do k ← min node; rest ← rekey_all ns; some ((k, node) ∷ rest)

  -- Both branches; in the first case the right one still points to its only node.
  unfoldable pub merge : Branch K A → Branch K A → Option (Branch K A × Branch K A)
  merge b right = do
    k ← min right.first
    if count right == 0
        then some (record b { rest = slice_insert b.rest (k, right.first) (count b) }, right)
        else some (record b { rest = (k, right.first) ∷ right.rest }, record right { rest = [] })

  -- The nodes behind `start_idx` go in front of the first node of `right`.
  unfoldable pub from_nodes : Branch K A → List A → Option (Branch K A)
  unfolding rekey_all
  from_nodes b [] = none
  from_nodes b (f ∷ ns) = do rest ← rekey_all ns; some (record b { first = f; rest = rest })

  -- The keys from `start_idx - 1` on are dropped, of which the first is still the last key of `b`.
  unfoldable pub take_from_l_to_r :
      (K → K) → Branch K A → Branch K A → Option (Branch K A × Branch K A)
  unfolding from_nodes
  take_from_l_to_r dropped b right = do
    let moved = (count b + count right) / 2
    let start_idx = count b - moved
    right' ← from_nodes right (map (λ e. e.1) (drop start_idx b.rest) ++ right.first ∷ [])
    some (record b { rest = drop_last_key dropped (take start_idx b.rest) }, right')

  unfoldable pub take_from_r_to_l : Branch K A → Branch K A → Option (Branch K A × Branch K A)
  unfolding rekey_all
  take_from_r_to_l b right = do
    let moved = (count b + count right) / 2
    rest ← rekey_all (take moved (nodes right))
    f ← node_at right.first right.rest moved
    some (record b { rest = rest }, record right { first = f; rest = drop moved right.rest })

module _ {ℓ κ} {K : Type ℓ} {A : Type κ} where
  -- The three cases of `add_node` on a full branch.
  unfoldable pub add_node_full : Branch K A → A → K → ℕ → Option (Branch K A × BranchInsertState A)
  add_node_full b node kr ins_idx = do
    max ← get_idx b l_capacity
    if ins_idx == l_capacity
        then some
            (record b { rest = take (l_capacity - 1) b.rest }, BranchInsertState.split max node)
        else if ins_idx == l_capacity - 1
        then some
            (record b { rest = take (l_capacity - 1) b.rest }, BranchInsertState.split node max)
        else do
          maxn1 ← get_idx b (l_capacity - 1)
          some (
            record b { rest = slice_insert (take (l_capacity - 2) b.rest) (kr, node) ins_idx },
            BranchInsertState.split maxn1 max,
          )

module _ {ℓ κ} {K : Type ℓ} {A : Type κ} ⦃o : Ord K⦄ where
  unfoldable pub locate_node : Branch K A → K → ℕ
  locate_node b k = elim (key_search b.rest k) [ ok idx ↦ idx + 1 | err idx ↦ idx ]

module _ {ℓ κ} {K : Type ℓ} {A : Type κ} ⦃o : Ord K⦄ (min : A → Option K) where
  -- `unwrap_err` panics where the least key of `node` is a key of the branch.
  unfoldable pub add_node : Branch K A → A → Option (Branch K A × BranchInsertState A)
  unfolding add_node_full
  add_node b node = do
    kr ← min node
    elim (key_search b.rest kr) [
      | ok idx ↦ none
      | err ins_idx ↦
          if count b == l_capacity
          then add_node_full b node kr ins_idx
          else some
              (record b { rest = slice_insert b.rest (kr, node) ins_idx }, BranchInsertState.done)
    ]

  -- `lnode` goes in at `sibidx`, and the sibling that was there follows under its least key.
  unfoldable pub insert_left : Branch K A → A → ℕ → Option (Branch K A)
  unfolding splice
  insert_left b lnode sibidx = do
    sibnode ← get_idx b sibidx
    nkey ← min sibnode
    some (with_nodes b (splice b.first b.rest sibidx lnode ((nkey, sibnode) ∷ [])))

  unfoldable pub add_node_left : Branch K A → A → ℕ → Option (Branch K A × BranchInsertState A)
  unfolding insert_left
  add_node_left b lnode sibidx =
      if count b == l_capacity
      then (if sibidx == l_capacity
          then (do
            max ← get_idx b l_capacity
            some (
              record b { rest = take (l_capacity - 1) b.rest },
              BranchInsertState.split lnode max,
            ))
          else (do
            maxn1 ← get_idx b (l_capacity - 1)
            max ← get_idx b l_capacity
            let kept = record b { rest = take (l_capacity - 2) b.rest }
            if sibidx == l_capacity - 1
                then (do
                  k ← min lnode
                  some (
                    record kept { rest = slice_insert kept.rest (k, lnode) (sibidx - 1) },
                    BranchInsertState.split maxn1 max,
                  ))
                else (do
                  b' ← insert_left kept lnode sibidx
                  some (b', BranchInsertState.split maxn1 max))))
      else (do b' ← insert_left b lnode sibidx; some (b', BranchInsertState.done))
