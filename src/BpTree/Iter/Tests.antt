-- ===== src/BpTree/Iter/Tests.antt =====
-- The iterator of a tree of two leaves.
use concread.BpTree.Cursor.{CursorRead}
use concread.BpTree.Cursor.Tests.{two, single, two-IsTree}
use concread.BpTree.Cursor.Valid.{contents, IsValid}
use concread.BpTree.Iter.{Iter, kv_iter, size_hint, next}
use concread.BpTree.Iter.Order.{Yields, kv_iter-Yields}
use concread.BpTree.Node
use concread.Ord.{nat_ord}
use concread.Prelude.{ℕ, ◌≤◌, [], ◌∷◌, none, some, ◌≡◌, refl, arith, Ensures, length}

abbrev cursor : CursorRead ℕ ℕ
cursor = record { txid = 2; length = 8; tree = record { height = 1; node = two } }

cursor-IsValid : IsValid 2 8 cursor.tree
unfolding concread.BpTree.Tree.Dates.entries
cursor-IsValid = record { tree = two-IsTree 2 (omega arith); counted = refl }

two-leaf_count : Node.leaf_count ℕ ℕ 1 two ≤ 2
unfolding Node.leaf_count
two-leaf_count = omega arith

kv_iter-Yields_example :
    Ensures
      (λ it.
        Yields ℕ ℕ 2 (contents cursor.tree) it
        × (size_hint ℕ ℕ it
            ≡ (length (contents cursor.tree), some (length (contents cursor.tree)))))
      (kv_iter ℕ ℕ cursor)
kv_iter-Yields_example = kv_iter-Yields ℕ ℕ cursor 2 cursor-IsValid two-leaf_count

-- an iterator at the end of its last leaf but one entry
abbrev last_entry : Iter ℕ ℕ
last_entry = record {
  length = 8;
  idx = 0;
  curleaf = some single;
  leafiter = record { length = none; stack = [] };
}

last_entry-Yields : Yields ℕ ℕ 2 ((80, 8) ∷ []) last_entry
unfolding next concread.BpTree.Iter.next_in concread.BpTree.Iter.next_leaf
    concread.BpTree.Iter.next_leaf_in
last_entry-Yields = (refl, refl)
