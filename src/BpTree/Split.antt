-- ===== src/BpTree/Split.antt =====
-- src/bptree/cursor.rs: `CursorWrite::split_off_lt`, which takes the keys below a bound off the map.
pub mod Laws
use concread.BpTree.Cursor.{CursorWrite, remove}
use concread.BpTree.Iter.{Iter, new_iter, next, next_key}
use concread.BpTree.Node
use concread.Ord.{Ord}
use concread.Prelude.{ℕ, zero, suc, ◌+◌, List, [], ◌∷◌, Option, none, some, ◌>>=◌}
use Prim.Native.Nat.Ordering.{lt, eq, gt}

module _ {ℓ κ} (K : Type ℓ) (V : Type κ) ⦃o : Ord K⦄ where
  -- The loop that copies the keys up to the first one that is not below `k`, for at most `rounds`
  -- calls of `next`, each with `fuel`.
  unfoldable pub keys_below : (fuel rounds : ℕ) → K → Iter K V → Option (List K)
  keys_below fuel zero k it = none
  keys_below fuel (suc rounds) k it = next_key K V fuel it >>= λ (r, it'). elim r [
    | none ↦ some []
    | some ki ↦ elim (o.cmp ki k) [
      | lt ↦ keys_below fuel rounds k it' >>= λ ks. some (ki ∷ ks)
      | eq ↦ some []
      | gt ↦ some []
    ]
  ]

  unfoldable pub remove_all : List K → CursorWrite K V → Option (CursorWrite K V)
  remove_all [] c = some c
  remove_all (k ∷ ks) c = do (c', res) ← remove K V c k; remove_all ks c'

  -- `Iterator::count`
  unfoldable pub count_kv : (fuel rounds : ℕ) → Iter K V → Option ℕ
  count_kv fuel zero it = none
  count_kv fuel (suc rounds) it = next K V fuel it >>= λ (r, it'). elim r [
    | none ↦ some 0
    | some kv ↦ count_kv fuel rounds it' >>= λ n. some (n + 1)
  ]

  -- The leaves of the tree bound the calls of `next` on itself.
  abbrev pub leaves_of : CursorWrite K V → ℕ
  leaves_of c = Node.leaf_count K V c.tree.height c.tree.node

  unfoldable pub split_off_lt : CursorWrite K V → K → Option (CursorWrite K V)
  split_off_lt c k = do
    k_iter ← new_iter K V c.tree c.length
    rmkeys ← keys_below (leaves_of c) (c.length + 1) k k_iter
    c ← remove_all rmkeys c
    kv_iter ← new_iter K V c.tree c.length
    newsize ← count_kv (leaves_of c) (c.length + 1) kv_iter
    some (record c { length = newsize })
